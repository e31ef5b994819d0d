-- ===== src/Balance/Publish.antt =====
-- What the balance monitor of src/balance_monitor/mod.rs keeps and reports: its state, snapshots and publishing,
-- and the storage slots of src/balance_monitor/slots.rs. Database, clock and broker are the interface `Node`.
use reth_exex_liquidity.Common.{
  ℕ, zero, suc, ◌+◌, ◌*◌, ◌^◌, if◌then◌else◌, Bool, true, false, Option, none, some, List, [], ◌∷◌,
}
use reth_exex_liquidity.Common.Maps
use reth_exex_liquidity.Types.{Address}
use reth_exex_liquidity.Balance.Tokens.{TokenStore, TokenTracker, decimals}
use reth_exex_liquidity.Balance.Receipts.{
  TransferDecoder, BlockReceipts, Notification, chain_committed, chain_reorged, chain_reverted,
  Balances, balance_of,
}
use reth_exex_liquidity.Balance.Swaps.{SwapDecoders, SwapConfirmation}

pub record ChainTokenBalance : Type 0 where
  pub token : Address
  pub raw_available : ℕ
  pub decimals : ℕ

pub record ChainBalanceSnapshot : Type 0 where
  pub block_number : ℕ
  pub balances : List ChainTokenBalance
  pub ts : ℕ

-- What leaves the monitor: the messages of its two subjects, and the node's signal.
pub data Message : Type 0 where
  balance_snapshot : ChainBalanceSnapshot → Message
  swap_confirmed : SwapConfirmation → Message
  finished_height : ℕ → Message

-- What the monitor finds outside: the configured executor and interval, the hash of two words in a row,
-- the latest state (`none` for an error, `some none` for an empty slot), whether the broker takes
-- the n-th publish, the clock behind n publishes, and whether the n-th resubscription succeeds.
pub record Node : Type 1 where
  pub store : TokenStore
  pub abi : TransferDecoder
  pub swaps : SwapDecoders
  pub executor : Address
  pub full_snapshot_interval_blocks : ℕ
  pub keccak256 : ℕ → ℕ
  pub latest : (publishes : ℕ) → Option (Address → (slot : ℕ) → Option (Option ℕ))
  pub accepts : ℕ → Bool
  pub now_ms : ℕ → ℕ
  pub subscribes : ℕ → Bool

abbrev publish_max_retries : ℕ
publish_max_retries = 2

-- `SLOT_OVERRIDES`: USDC, USDT and WETH9.
abbrev slot_overrides : List (Address × ℕ)
slot_overrides =
    (0xA0b86991c6218b36c1d19D4a2e9Eb0cE3606eB48, 9)
    ∷ (0xdAC17F958D2ee523a2206206994597C13D831ec7, 2)
    ∷ (0xC02aaA39b223FE8D0A0e5C4F27eAD9083C756Cc2, 3)
    ∷ []

unfoldable pub slot_for_token : Address → ℕ
slot_for_token token = elim (Maps.lookup token slot_overrides) [ none ↦ 0 | some slot ↦ slot ]

unfoldable pub tip_number : List BlockReceipts → ℕ
tip_number [] = 0
tip_number (b ∷ []) = b.number
tip_number (b ∷ c ∷ bs) = tip_number (c ∷ bs)

unfoldable pub notification_tip_block : Notification → ℕ
notification_tip_block (chain_committed new) = tip_number new
notification_tip_block (chain_reorged old new) = tip_number new
notification_tip_block (chain_reverted old) = tip_number old

abbrev pub committed_chain : Notification → Option (List BlockReceipts)
committed_chain (chain_committed new) = some new
committed_chain (chain_reorged old new) = some new
committed_chain (chain_reverted old) = none

module _ (node : Node) where
  -- The ExEx's local variables, the publishes and subscriptions tried, and what left, newest first.
  pub record Monitor : Type 0 where
    pub tracker : TokenTracker node.store
    pub balances : Balances
    pub subscribed : Bool
    pub blocks_processed : ℕ
    pub updates_published : ℕ
    pub publishes : ℕ
    pub subscriptions : ℕ
    pub sent : List Message

  unfoldable pub compute_mapping_slot : (key : Address) (mapping_slot : ℕ) → ℕ
  compute_mapping_slot key mapping_slot = node.keccak256 (key * 2 ^ 256 + mapping_slot)

  unfoldable pub balance_storage_slot : (token holder : Address) → ℕ
  balance_storage_slot token holder = compute_mapping_slot holder (slot_for_token token)

  -- `(token, decimals)` as a snapshot's entry.
  unfoldable pub token_entry : Balances → Address → ℕ → ChainTokenBalance
  token_entry balances token d = record {
    token = token;
    raw_available = balance_of token balances;
    decimals = d;
  }

  unfoldable pub full_entries : Balances → List (Address × ℕ) → List ChainTokenBalance
  full_entries balances [] = []
  full_entries balances ((token, d) ∷ rest) =
      token_entry balances token d ∷ full_entries balances rest

  unfoldable pub build_full_snapshot : (block_number : ℕ) → Monitor → ChainBalanceSnapshot
  build_full_snapshot n m = record {
    block_number = n;
    balances = full_entries m.balances m.tracker.tokens;
    ts = node.now_ms m.publishes;
  }

  unfoldable pub changed_entries : Monitor → List Address → List ChainTokenBalance
  changed_entries m [] = []
  changed_entries m (token ∷ rest) =
      token_entry m.balances token
        (elim (decimals node.store m.tracker token) [ none ↦ 18 | some d ↦ d ])
      ∷ changed_entries m rest

  -- The attempts from one with so many left behind it.
  unfoldable pub publish_attempts : (left : ℕ) → Message → Monitor → Bool × Monitor
  publish_attempts zero x m =
      if node.accepts m.publishes
      then (true, record m { publishes = m.publishes + 1; sent = x ∷ m.sent })
      else (false, record m { publishes = m.publishes + 1 })
  publish_attempts (suc left) x m =
      let retried = publish_attempts left x (record m { publishes = m.publishes + 1 }) in
      if node.accepts m.publishes
      then (true, record m { publishes = m.publishes + 1; sent = x ∷ m.sent })
      else retried

  unfoldable pub publish_with_retry : Message → Monitor → Bool × Monitor
  publish_with_retry = publish_attempts publish_max_retries
