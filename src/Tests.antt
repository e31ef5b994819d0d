-- ===== src/Tests.antt =====
-- Sample pools, trackers, blocks and storage words, and the theorems at them.
pub mod Samples
mod Whitelist
pub mod Stream
mod Reorg
mod Updates
pub mod Arena
mod Logs
mod Decoder
mod Storage
mod Balance
mod Nats
pub mod Ticks
pub mod Hydration
mod Promotion
mod Swaps
