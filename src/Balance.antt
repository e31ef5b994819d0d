-- ===== src/Balance.antt =====
-- The balance monitor, src/balance_monitor: the tokens it follows, how transfers move the executor's
-- balances, and the loop that reports them.
pub mod Tokens
pub mod Receipts
pub mod Moves
pub mod Changed
pub mod Undo
pub mod Swaps
pub mod Publish
pub mod Monitor
pub mod View
pub mod Agreement
pub mod Resync
pub mod Discovery
pub mod Confirmed
