-- ===== src/Balance/Moves.antt =====
-- The loops of Balance/Receipts as one loop over the moves of a chain, and its effect on one token.
use reth_exex_liquidity.Common.{
  ℕ, ◌+◌, ◌-◌, ◌≤◌, ◌≡◌, refl, ap, ◌∙◌, sym, arith, ◌==◌, ◌||◌, if◌then◌else◌, Bool, true, false,
  Option, none, some, List, [], ◌∷◌, ◌++◌, fold, fold-append,
}
use reth_exex_liquidity.Common.Sets
use reth_exex_liquidity.Common.Maps.{lookup-insert}
use reth_exex_liquidity.Types.{Address}
use reth_exex_liquidity.Events.{Log}
use reth_exex_liquidity.Balance.Receipts.{
  TransferDecoder, Receipt, BlockReceipts, u256_max, balance_of, Move, moved, Ledger, apply_move,
  apply_option, move_of, process_log, process_receipts, process_blocks,
}

module _ (abi : TransferDecoder) (executor : Address) (tokens : List (Address × ℕ)) where
  abbrev pub option_cons : Option Move → List Move → List Move
  option_cons none ms = ms
  option_cons (some m) ms = m ∷ ms

  unfoldable pub log_moves : List Log → List Move
  log_moves [] = []
  log_moves (log ∷ logs) = option_cons (move_of abi executor tokens log) (log_moves logs)

  unfoldable pub receipt_moves : List Receipt → List Move
  receipt_moves [] = []
  receipt_moves (r ∷ rs) = log_moves r ++ receipt_moves rs

  -- The moves of a chain, in the order of its logs.
  unfoldable pub chain_moves : List BlockReceipts → List Move
  chain_moves [] = []
  chain_moves (b ∷ bs) = receipt_moves b.receipts ++ chain_moves bs

  apply_option-moves :
      (r : Bool) (s : Ledger) (o : Option Move) (ms : List Move)
      → fold (apply_move r) s (option_cons o ms) ≡ fold (apply_move r) (apply_option r s o) ms
  unfolding fold
  apply_option-moves r s none ms = refl
  apply_option-moves r s (some m) ms = refl

  process_logs-moves :
      (r : Bool) (s : Ledger) (logs : List Log)
      → fold (process_log abi executor tokens r) s logs ≡ fold (apply_move r) s (log_moves logs)
  unfolding fold process_log log_moves
  process_logs-moves r s [] = refl
  process_logs-moves r s (log ∷ logs) =
      process_logs-moves r (process_log abi executor tokens r s log) logs
      ∙ sym (apply_option-moves r s (move_of abi executor tokens log) (log_moves logs))

  process_receipts-moves :
      (r : Bool) (s : Ledger) (rs : List Receipt)
      → process_receipts abi executor tokens r s rs ≡ fold (apply_move r) s (receipt_moves rs)
  unfolding fold process_receipts receipt_moves
  process_receipts-moves r s [] = refl
  process_receipts-moves r s (logs ∷ rs) =
      process_receipts-moves r (fold (process_log abi executor tokens r) s logs) rs
      ∙ ap (λ t. fold (apply_move r) t (receipt_moves rs)) (process_logs-moves r s logs)
      ∙ sym (fold-append (apply_move r) s (log_moves logs) (receipt_moves rs))

  pub process_blocks-moves :
      (r : Bool) (s : Ledger) (bs : List BlockReceipts)
      → process_blocks abi executor tokens r s bs ≡ fold (apply_move r) s (chain_moves bs)
  unfolding fold process_blocks chain_moves
  process_blocks-moves r s [] = refl
  process_blocks-moves r s (b ∷ bs) =
      process_blocks-moves r (process_receipts abi executor tokens r s b.receipts) bs
      ∙ ap (λ t. fold (apply_move r) t (chain_moves bs)) (process_receipts-moves r s b.receipts)
      ∙ sym (fold-append (apply_move r) s (receipt_moves b.receipts) (chain_moves bs))

-- One token's balance under the moves.
unfoldable pub token_run : (is_revert : Bool) → Address → ℕ → List Move → ℕ
token_run r token b [] = b
token_run r token b (m ∷ ms) =
    token_run r token (if m.token == token then moved r m.is_incoming m.value b else b) ms

unfoldable pub moves_token : Address → List Move → Bool
moves_token token [] = false
moves_token token (m ∷ ms) = m.token == token || moves_token token ms

balance_of-apply_move :
    (r : Bool) (token : Address) (s : Ledger) (m : Move)
    → balance_of token (apply_move r s m).0 ≡ (
        if m.token == token
        then moved r m.is_incoming m.value (balance_of token s.0)
        else balance_of token s.0)
unfolding balance_of apply_move
balance_of-apply_move r token (b, c) m =
    ground
      (arith, lookup-insert m.token token (moved r m.is_incoming m.value (balance_of m.token b)) b)

pub balance_of-moves :
    (r : Bool) (token : Address) (s : Ledger) (ms : List Move)
    → balance_of token (fold (apply_move r) s ms).0 ≡ token_run r token (balance_of token s.0) ms
unfolding fold token_run
balance_of-moves r token s [] = refl
balance_of-moves r token s (m ∷ ms) =
    balance_of-moves r token (apply_move r s m) ms
    ∙ ap (λ b. token_run r token b ms) (balance_of-apply_move r token s m)

pub contains-snoc :
    (token a : ℕ) (xs : List ℕ)
    → Sets.contains token (xs ++ a ∷ []) ≡ (Sets.contains token xs || (a == token))
unfolding Sets.contains
contains-snoc token a [] = ground arith
contains-snoc token a (x ∷ xs) = ground (arith, contains-snoc token a xs)

pub changed-moves :
    (r : Bool) (token : Address) (s : Ledger) (ms : List Move)
    → Sets.contains token (fold (apply_move r) s ms).1
      ≡ (Sets.contains token s.1 || moves_token token ms)
unfolding fold moves_token apply_move
changed-moves r token s [] = ground arith
changed-moves r token (b, c) (m ∷ ms) =
    ground (arith, changed-moves r token (apply_move r (b, c) m) ms, contains-snoc token m.token c)

-- A token that no move is about keeps its balance.
pub token_run_absent :
    (r : Bool) (token : Address) (b : ℕ) (ms : List Move)
    → moves_token token ms ≡ false
    → token_run r token b ms ≡ b
unfolding token_run moves_token
token_run_absent r token b [] h = refl
token_run_absent r token b (m ∷ ms) h = ground (arith, token_run_absent r token b ms)

-- What a chain pays to the executor, and what it pays away, of one token.
unfoldable pub inflow : Address → List Move → ℕ
inflow token [] = 0
inflow token (m ∷ ms) =
    (if m.token == token then (if m.is_incoming then m.value else 0) else 0) + inflow token ms

unfoldable pub outflow : Address → List Move → ℕ
outflow token [] = 0
outflow token (m ∷ ms) =
    (if m.token == token then (if m.is_incoming then 0 else m.value) else 0) + outflow token ms

-- While nothing saturates, the balance is the sum.
pub token_run_applied :
    (token : Address) (b : ℕ) (ms : List Move)
    → outflow token ms ≤ b
    → b + inflow token ms ≤ u256_max
    → token_run false token b ms + outflow token ms ≡ b + inflow token ms
unfolding token_run inflow outflow moved
token_run_applied token b [] h k = refl
token_run_applied token b (m ∷ ms) h k = ground (
  arith,
  token_run_applied token b ms,
  token_run_applied token (b + m.value) ms,
  token_run_applied token (b - m.value) ms,
)

pub token_run_reverted :
    (token : Address) (b : ℕ) (ms : List Move)
    → inflow token ms ≤ b
    → b + outflow token ms ≤ u256_max
    → token_run true token b ms + inflow token ms ≡ b + outflow token ms
unfolding token_run inflow outflow moved
token_run_reverted token b [] h k = refl
token_run_reverted token b (m ∷ ms) h k = ground (
  arith,
  token_run_reverted token b ms,
  token_run_reverted token (b + m.value) ms,
  token_run_reverted token (b - m.value) ms,
)
