-- ===== src/Balance/Changed.antt =====
-- The tokens that `process_notification` reports: which they are, and in which order.
use reth_exex_liquidity.Common.{
  ℕ, ◌≤◌, ◌<◌, ◌≡◌, ◌⊎◌, inl, inr, refl, ap, ◌∙◌, arith, ◌==◌, ◌||◌, Bool, true, false, List, [],
  ◌∷◌, ◌++◌, Bool-cases,
}
use reth_exex_liquidity.Common.Sets
use reth_exex_liquidity.Types.{Address}
use reth_exex_liquidity.Balance.Receipts.{
  TransferDecoder, BlockReceipts, Notification, chain_committed, chain_reorged, chain_reverted,
  Balances, balance_of, Move, Ledger, process_blocks, process_chains, insert_sorted, sort,
  dedup_after, dedup, process_notification,
}
use reth_exex_liquidity.Balance.Moves.{
  chain_moves, process_blocks-moves, moves_token, changed-moves, balance_of-moves, token_run_absent,
}

-- Strictly rising, and rising, from a value on.
abbrev RisesFrom : ℕ → List ℕ → Type 0
RisesFrom a [] = Unit
RisesFrom a (b ∷ bs) = (a < b) × RisesFrom b bs

abbrev pub Ascending : List ℕ → Type 0
Ascending [] = Unit
Ascending (a ∷ xs) = RisesFrom a xs

abbrev SortedFrom : ℕ → List ℕ → Type 0
SortedFrom a [] = Unit
SortedFrom a (b ∷ bs) = (a ≤ b) × SortedFrom b bs

insert_sorted-SortedFrom :
    (lo a : ℕ) (xs : List ℕ) → lo ≤ a → SortedFrom lo xs → SortedFrom lo (insert_sorted a xs)
unfolding insert_sorted
insert_sorted-SortedFrom lo a [] h s = (h, tt)
insert_sorted-SortedFrom lo a (b ∷ bs) h s = ground (arith, insert_sorted-SortedFrom b a bs)

sort-SortedFrom : (xs : List ℕ) → SortedFrom 0 (sort xs)
unfolding sort
sort-SortedFrom [] = tt
sort-SortedFrom (a ∷ xs) = insert_sorted-SortedFrom 0 a (sort xs) (omega arith) (sort-SortedFrom xs)

dedup_after-RisesFrom : (a : ℕ) (xs : List ℕ) → SortedFrom a xs → RisesFrom a (dedup_after a xs)
unfolding dedup_after
dedup_after-RisesFrom a [] s = tt
dedup_after-RisesFrom a (b ∷ bs) s = ground (arith, dedup_after-RisesFrom b bs)

dedup-Ascending : (lo : ℕ) (xs : List ℕ) → SortedFrom lo xs → Ascending (dedup xs)
unfolding dedup
dedup-Ascending lo [] s = tt
dedup-Ascending lo (a ∷ xs) s = dedup_after-RisesFrom a xs s.1

contains-insert_sorted :
    (t a : ℕ) (xs : List ℕ) → Sets.contains t (insert_sorted a xs) ≡ (a == t || Sets.contains t xs)
unfolding insert_sorted Sets.contains
contains-insert_sorted t a [] = ground arith
contains-insert_sorted t a (b ∷ bs) = ground (arith, contains-insert_sorted t a bs)

contains-sort : (t : ℕ) (xs : List ℕ) → Sets.contains t (sort xs) ≡ Sets.contains t xs
unfolding sort Sets.contains
contains-sort t [] = refl
contains-sort t (a ∷ xs) = ground (arith, contains-insert_sorted t a (sort xs), contains-sort t xs)

contains-dedup_after :
    (t a : ℕ) (xs : List ℕ)
    → (a == t || Sets.contains t (dedup_after a xs)) ≡ (a == t || Sets.contains t xs)
unfolding dedup_after Sets.contains
contains-dedup_after t a [] = refl
contains-dedup_after t a (b ∷ bs) = ground (arith, contains-dedup_after t b bs)

contains-dedup : (t : ℕ) (xs : List ℕ) → Sets.contains t (dedup xs) ≡ Sets.contains t xs
unfolding dedup Sets.contains
contains-dedup t [] = refl
contains-dedup t (a ∷ xs) = ground (arith, contains-dedup_after t a xs)

module _ (abi : TransferDecoder) (executor : Address) (tokens : List (Address × ℕ)) where
  -- The moves of a notification's chains, those that are undone first.
  abbrev pub notification_moves : Notification → List Move
  notification_moves (chain_committed new) = chain_moves abi executor tokens new
  notification_moves (chain_reorged old new) =
      chain_moves abi executor tokens old ++ chain_moves abi executor tokens new
  notification_moves (chain_reverted old) = chain_moves abi executor tokens old

  -- A loop over a chain reports its moves, and leaves the other tokens' balances.
  blocks_changed :
      (r : Bool) (token : Address) (s : Ledger) (bs : List BlockReceipts)
      → Sets.contains token (process_blocks abi executor tokens r s bs).1
        ≡ (Sets.contains token s.1 || moves_token token (chain_moves abi executor tokens bs))
  blocks_changed r token s bs =
      ap (λ x. Sets.contains token x.1) (process_blocks-moves abi executor tokens r s bs)
      ∙ changed-moves r token s (chain_moves abi executor tokens bs)

  blocks_absent :
      (r : Bool) (token : Address) (s : Ledger) (bs : List BlockReceipts)
      → moves_token token (chain_moves abi executor tokens bs) ≡ false
      → balance_of token (process_blocks abi executor tokens r s bs).0 ≡ balance_of token s.0
  blocks_absent r token s bs h =
      ap (λ x. balance_of token x.0) (process_blocks-moves abi executor tokens r s bs)
      ∙ balance_of-moves r token s (chain_moves abi executor tokens bs)
      ∙ token_run_absent r token (balance_of token s.0) (chain_moves abi executor tokens bs) h

  moves_token-append :
      (token : Address) (ms ns : List Move)
      → moves_token token (ms ++ ns) ≡ (moves_token token ms || moves_token token ns)
  unfolding moves_token
  moves_token-append token [] ns = refl
  moves_token-append token (m ∷ ms) ns = ground (arith, moves_token-append token ms ns)

  process_chains-changed :
      (token : Address) (n : Notification) (s : Ledger)
      → Sets.contains token (process_chains abi executor tokens n s).1
        ≡ (Sets.contains token s.1 || moves_token token (notification_moves n))
  unfolding process_chains
  process_chains-changed token (chain_committed new) s = blocks_changed false token s new
  process_chains-changed token (chain_reorged old new) s = ground (
    arith,
    blocks_changed true token s old,
    blocks_changed false token (process_blocks abi executor tokens true s old) new,
    moves_token-append token (chain_moves abi executor tokens old)
        (chain_moves abi executor tokens new),
  )
  process_chains-changed token (chain_reverted old) s = blocks_changed true token s old

  process_chains-absent :
      (token : Address) (n : Notification) (s : Ledger)
      → moves_token token (notification_moves n) ≡ false
      → balance_of token (process_chains abi executor tokens n s).0 ≡ balance_of token s.0
  unfolding process_chains
  process_chains-absent token (chain_committed new) s h = blocks_absent false token s new h
  process_chains-absent token (chain_reorged old new) s h = ground (
    arith,
    blocks_absent true token s old,
    blocks_absent false token (process_blocks abi executor tokens true s old) new,
    moves_token-append token (chain_moves abi executor tokens old)
        (chain_moves abi executor tokens new),
  )
  process_chains-absent token (chain_reverted old) s h = blocks_absent true token s old h

  -- The reported tokens are in ascending order without repetition, they are the tokens of the moves, and
  -- every other token's balance stays.
  pub process_notification-changed :
      (n : Notification) (balances : Balances) (token : Address)
      → Ascending (process_notification abi executor tokens n balances).1
        × (Sets.contains token (process_notification abi executor tokens n balances).1
            ≡ moves_token token (notification_moves n))
        × ((moves_token token (notification_moves n) ≡ true)
            ⊎ (balance_of token (process_notification abi executor tokens n balances).0
                ≡ balance_of token balances))
  unfolding process_notification Sets.contains
  process_notification-changed n balances token =
      let s = process_chains abi executor tokens n (balances, []) in
      (
        dedup-Ascending 0 (sort s.1) (sort-SortedFrom s.1),
        contains-dedup token (sort s.1)
            ∙ contains-sort token s.1
            ∙ process_chains-changed token n (balances, []),
        elim (Bool-cases (moves_token token (notification_moves n))) [
          | inl e ↦ inl e
          | inr e ↦ inr (process_chains-absent token n (balances, []) e)
        ],
      )
