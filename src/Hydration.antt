-- ===== src/Hydration.antt =====
-- The hydration of the arena: src/main.rs reads whole pools from a held state, src/shadow_arena.rs adds
-- them. The arena's memory and its writer belong to another repository's crates; here they are interfaces.
pub mod Tiers
pub mod Placed
pub mod Pools
pub mod Curve
pub mod Batch
pub mod Named
pub mod Accounted
pub mod Adding
pub mod Held
pub mod Live
pub mod Startup
pub mod Promote
pub mod Promoted
pub mod Node
pub mod Ticks
