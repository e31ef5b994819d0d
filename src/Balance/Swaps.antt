-- ===== src/Balance/Swaps.antt =====
-- src/swap_monitor.rs, and `scan_swaps_in_notification` of src/balance_monitor/mod.rs. The decoders of the
-- `sol!` macro are the interface `SwapDecoders`.

use reth_exex_liquidity.Common.{
  ℕ, zero, suc, ◌+◌, ◌-◌, ◌%◌, ◌^◌, ltb, ◌==◌, ◌&&◌, not, if◌then◌else◌, Option, none, some, List,
  [], ◌∷◌, ◌++◌,
}
use reth_exex_liquidity.Common.Int.{ℤ, pos, sub_ℕ}
use reth_exex_liquidity.Types.{Address, PoolIdentifier, address, pool_id}
use reth_exex_liquidity.Events.{Log}
use reth_exex_liquidity.Balance.Receipts.{
  Receipt, BlockReceipts, Notification, chain_committed, chain_reorged, chain_reverted,
}

-- `Swap` of Uniswap V2: its sender, its receiver, and the amounts in and out.
pub record V2Swap : Type 0 where
  pub sender : Address
  pub receiver : Address
  pub amount0_in : ℕ
  pub amount1_in : ℕ
  pub amount0_out : ℕ
  pub amount1_out : ℕ

pub record V3Swap : Type 0 where
  pub sender : Address
  pub recipient : Address
  pub amount0 : ℤ
  pub amount1 : ℤ

pub record SwapDecoders : Type 0 where
  pub v2_swap_log : Log → Option V2Swap
  pub v3_swap_log : Log → Option V3Swap
  pub v4_signature : ℕ
  pub v4_swap_log : Log → Option (ℤ × ℤ)

pub data SwapProtocol : Type 0 where
  v2 v3 v4 : SwapProtocol

-- The source writes the pool and the amounts as texts.
pub record DecodedSwap : Type 0 where
  pub pool : PoolIdentifier
  pub protocol : SwapProtocol
  pub amount0 : ℤ
  pub amount1 : ℤ

pub record SwapConfirmation : Type 0 where
  pub tx_hash : ℕ
  pub swap : DecodedSwap
  pub block_number : ℕ
  pub tx_index : ℕ
  pub log_index : ℕ
  pub ts : ℕ

-- `I256::try_from(n).unwrap_or(I256::MAX)`.
abbrev pub to_i256 : ℕ → ℕ
to_i256 n = if ltb n (2 ^ 255) then n else 2 ^ 255 - 1

unfoldable pub signed_amount : (amount_in amount_out : ℕ) → ℤ
signed_amount i o = if ltb 0 o then pos (to_i256 o) else sub_ℕ 0 (to_i256 i)

-- An index that is out of range gives `none`.
abbrev pub get_elem? {ℓ} : {A : Type ℓ} → List A → ℕ → Option A
get_elem? [] i = none
get_elem? (x ∷ xs) zero = some x
get_elem? (x ∷ xs) (suc i) = get_elem? xs i

module _ (abi : SwapDecoders) (executor : Address) where
  unfoldable pub v2_executor_swap : Log → V2Swap → Option DecodedSwap
  v2_executor_swap log event =
      if not (event.sender == executor) && not (event.receiver == executor)
      then none
      else some (record {
        pool = address log.address;
        protocol = v2;
        amount0 = signed_amount event.amount0_in event.amount0_out;
        amount1 = signed_amount event.amount1_in event.amount1_out;
      })

  unfoldable pub v3_executor_swap : Log → V3Swap → Option DecodedSwap
  v3_executor_swap log event =
      if not (event.sender == executor) && not (event.recipient == executor)
      then none
      else some (record {
        pool = address log.address;
        protocol = v3;
        amount0 = event.amount0;
        amount1 = event.amount1;
      })

  -- Topics are the signature, the pool id and the sender, in the low 20 bytes.
  unfoldable pub v4_executor_swap : List ℕ → Option (ℤ × ℤ) → Option DecodedSwap
  v4_executor_swap (topic0 ∷ id ∷ sender ∷ rest) (some (amount0, amount1)) =
      if topic0 == abi.v4_signature && sender % 2 ^ 160 == executor
      then some (record { pool = pool_id id; protocol = v4; amount0 = amount0; amount1 = amount1 })
      else none
  v4_executor_swap _ _ = none

  -- A log that one decoder reads is not shown to the next.
  unfoldable pub decode_executor_swap : Log → Option DecodedSwap
  decode_executor_swap log = elim (abi.v2_swap_log log) [
    | some event ↦ v2_executor_swap log event
    | none ↦ elim (abi.v3_swap_log log) [
      | some event ↦ v3_executor_swap log event
      | none ↦ v4_executor_swap log.topics (abi.v4_swap_log log)
    ]
  ]

  abbrev pub confirmed :
      (tx_hash block_number tx_index ts log_index : ℕ)
      → Option DecodedSwap
      → List SwapConfirmation
      → List SwapConfirmation
  confirmed h n tx ts i none confirmations = confirmations
  confirmed h n tx ts i (some d) confirmations =
      record { tx_hash = h; swap = d; block_number = n; tx_index = tx; log_index = i; ts = ts }
      ∷ confirmations

  -- The loop from a log's index on.
  unfoldable pub scan_receipt_for_swaps :
      (tx_hash block_number tx_index ts log_index : ℕ) → Receipt → List SwapConfirmation
  scan_receipt_for_swaps h n tx ts i [] = []
  scan_receipt_for_swaps h n tx ts i (log ∷ logs) =
      confirmed h n tx ts i (decode_executor_swap log)
        (scan_receipt_for_swaps h n tx ts (i + 1) logs)

  -- A receipt without a transaction has an empty hash and is passed over.
  abbrev pub scan_transaction :
      (block_number tx_index ts : ℕ) → Option ℕ → Receipt → List SwapConfirmation
  scan_transaction n tx ts none logs = []
  scan_transaction n tx ts (some h) logs = scan_receipt_for_swaps h n tx ts 0 logs

  unfoldable pub scan_block_receipts :
      (b : BlockReceipts) (ts tx_index : ℕ) → List Receipt → List SwapConfirmation
  scan_block_receipts b ts i [] = []
  scan_block_receipts b ts i (r ∷ rs) =
      scan_transaction b.number i ts (get_elem? b.tx_hashes i) r
      ++ scan_block_receipts b ts (i + 1) rs

  unfoldable pub scan_chain : (ts : ℕ) → List BlockReceipts → List SwapConfirmation
  scan_chain ts [] = []
  scan_chain ts (b ∷ bs) = scan_block_receipts b ts 0 b.receipts ++ scan_chain ts bs

  unfoldable pub scan_swaps_in_notification : (ts : ℕ) → Notification → List SwapConfirmation
  scan_swaps_in_notification ts (chain_committed new) = scan_chain ts new
  scan_swaps_in_notification ts (chain_reorged old new) = scan_chain ts new
  scan_swaps_in_notification ts (chain_reverted old) = []
