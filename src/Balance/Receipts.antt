-- ===== src/Balance/Receipts.antt =====
-- `decode_transfer` of src/transfers/events.rs, and `process_receipts` and `process_notification` of
-- src/balance_monitor/mod.rs. The decoder of the `sol!` macro is a parameter.
use reth_exex_liquidity.Common.{
  ℕ, ◌+◌, ◌-◌, leb, ◌==◌, ◌&&◌, not, if◌then◌else◌, Bool, true, false, Option, none, some, List, [],
  ◌∷◌, ◌++◌, fold,
}
use reth_exex_liquidity.Common.Maps
use reth_exex_liquidity.Common.Words.{u256_mod, ◌>>=◌}
use reth_exex_liquidity.Types.{Address}
use reth_exex_liquidity.Events.{Log}

-- What `Transfer::decode_log` reads of a log (sender, receiver and amount), and the event's topic.
pub record TransferDecoder : Type 0 where
  pub transfer_signature : ℕ
  pub transfer_log : Log → Option (Address × Address × ℕ)

pub record DecodedTransfer : Type 0 where
  pub token : Address
  pub sender : Address
  pub receiver : Address
  pub value : ℕ

abbrev pub Receipt : Type 0
Receipt = List Log

pub record BlockReceipts : Type 0 where
  pub number : ℕ
  pub tx_hashes : List ℕ
  pub receipts : List Receipt

-- `ExExNotification`, with the blocks of its chains.
pub data Notification : Type 0 where
  chain_committed : (new : List BlockReceipts) → Notification
  chain_reorged : (old new : List BlockReceipts) → Notification
  chain_reverted : (old : List BlockReceipts) → Notification

abbrev pub Balances : Type 0
Balances = List (Address × ℕ)

abbrev pub u256_max : ℕ
u256_max = u256_mod - 1

abbrev pub saturating_add : ℕ → ℕ → ℕ
saturating_add a b = if leb (a + b) u256_max then a + b else u256_max

-- `balances.get(token).copied().unwrap_or(U256::ZERO)`, and the entry that `or_insert` gives.
unfoldable pub balance_of : Address → Balances → ℕ
balance_of token balances = elim (Maps.lookup token balances) [ none ↦ 0 | some b ↦ b ]

-- A transfer that counts: its token, whether the executor receives it, and the amount.
pub record Move : Type 0 where
  pub token : Address
  pub is_incoming : Bool
  pub value : ℕ

-- What a move, or its undoing, makes of the token's balance.
unfoldable pub moved : (is_revert is_incoming : Bool) (value entry : ℕ) → ℕ
moved true true v entry = entry - v
moved true false v entry = saturating_add entry v
moved false true v entry = saturating_add entry v
moved false false v entry = entry - v

abbrev pub Ledger : Type 0
Ledger = Balances × List Address

unfoldable pub apply_move : (is_revert : Bool) → Ledger → Move → Ledger
apply_move r (balances, changed) m = (
  Maps.insert m.token (moved r m.is_incoming m.value (balance_of m.token balances)) balances,
  changed ++ m.token ∷ [],
)

abbrev pub apply_option : (is_revert : Bool) → Ledger → Option Move → Ledger
apply_option r s none = s
apply_option r s (some m) = apply_move r s m

module _ (abi : TransferDecoder) (executor : Address) (tokens : List (Address × ℕ)) where
  unfoldable pub transfer_of : Log → Address × Address × ℕ → DecodedTransfer
  transfer_of log (from_address, to_address, v) = record {
    token = log.address;
    sender = from_address;
    receiver = to_address;
    value = v;
  }

  unfoldable pub decode_transfer : Log → Option DecodedTransfer
  decode_transfer log = elim log.topics [
    | [] ↦ none
    | topic0 ∷ rest ↦
        if topic0 == abi.transfer_signature
        then (abi.transfer_log log >>= λ x. some (transfer_of log x))
        else none
  ]

  -- The guards of the loop's body; `none` is a `continue`.
  unfoldable pub counted_move : DecodedTransfer → Option Move
  counted_move x =
      let is_incoming = x.receiver == executor in
      let is_outgoing = x.sender == executor in
      if not is_incoming && not is_outgoing
      then none
      else if not (Maps.contains_key x.token tokens)
      then none
      else if x.value == 0
      then none
      else if is_incoming && is_outgoing
      then none
      else some (record { token = x.token; is_incoming = is_incoming; value = x.value })

  unfoldable pub move_of : Log → Option Move
  move_of log = decode_transfer log >>= counted_move

  unfoldable pub process_log : (is_revert : Bool) → Ledger → Log → Ledger
  process_log r s log = apply_option r s (move_of log)

  unfoldable pub process_receipts : (is_revert : Bool) → Ledger → List Receipt → Ledger
  process_receipts r = fold (fold (process_log r))

  unfoldable pub process_blocks : (is_revert : Bool) → Ledger → List BlockReceipts → Ledger
  process_blocks r = fold (λ s b. process_receipts r s b.receipts)

  -- The chains' loops of `process_notification`.
  unfoldable pub process_chains : Notification → Ledger → Ledger
  process_chains (chain_committed new) s = process_blocks false s new
  process_chains (chain_reorged old new) s = process_blocks false (process_blocks true s old) new
  process_chains (chain_reverted old) s = process_blocks true s old

-- `sort_unstable` and `dedup` on addresses.
unfoldable pub insert_sorted : ℕ → List ℕ → List ℕ
insert_sorted a [] = a ∷ []
insert_sorted a (b ∷ bs) = let rest = insert_sorted a bs in if leb a b then a ∷ b ∷ bs else b ∷ rest

unfoldable pub sort : List ℕ → List ℕ
sort [] = []
sort (a ∷ xs) = insert_sorted a (sort xs)

unfoldable pub dedup_after : ℕ → List ℕ → List ℕ
dedup_after a [] = []
dedup_after a (b ∷ bs) = let rest = dedup_after b bs in if a == b then rest else b ∷ rest

unfoldable pub dedup : List ℕ → List ℕ
dedup [] = []
dedup (a ∷ xs) = a ∷ dedup_after a xs

-- The balances behind the notification, and the tokens that changed.
unfoldable pub process_notification :
    TransferDecoder
    → (executor : Address) (tokens : List (Address × ℕ)) → Notification
    → Balances
    → Balances × List Address
process_notification abi executor tokens n balances =
    let s = process_chains abi executor tokens n (balances, []) in (s.0, dedup (sort s.1))
