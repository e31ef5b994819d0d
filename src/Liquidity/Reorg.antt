-- ===== src/Liquidity/Reorg.antt =====
-- The `ChainReorged` and `ChainReverted` arms of `liquidity_exex` in src/main.rs, with no arena
-- attached: old blocks reverted newest first, new blocks applied, final states, `ReorgComplete`.
pub mod Revert
pub mod Finals
pub mod Order
pub mod Handle
pub mod Conforms
pub mod Agrees
pub mod Replays
pub mod Reverts
pub mod Refines
