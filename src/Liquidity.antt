-- ===== src/Liquidity.antt =====
-- src/main.rs: the Liquidity ExEx around the whitelist.
pub mod Filter
pub mod Stream
pub mod Ranges
pub mod FluidPool
pub mod Snapshot
pub mod Update
pub mod Block
pub mod Keeps
pub mod Envelope
pub mod Batch
pub mod Protocol
pub mod Reorg
pub mod Chain
