-- ===== src/Arena.antt =====
-- src/shadow_apply.rs and src/shadow_arena.rs: the pool arena that the ExEx writes in its own process. The
-- arena's memory and its writer belong to another repository's crates; here they are an interface.
pub mod Writer
pub mod Balances
pub mod Apply
pub mod Reverts
pub mod Shadow
pub mod Counted
pub mod Retier
