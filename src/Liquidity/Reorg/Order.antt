-- ===== src/Liquidity/Reorg/Order.antt =====
-- The order in which src/main.rs visits the logs of a block, to apply it and to revert it.
use reth_exex_liquidity.Common.{ℕ, ◌+◌, Bool, List, [], ◌∷◌, ◌++◌, ◌≡◌, refl, ap, sym, ◌∙◌, fold}
use mathlib.Core.List.{append_assoc, append-nil}
use reth_exex_liquidity.Wire.{ControlMessage}
use reth_exex_liquidity.Events.{Log}
use reth_exex_liquidity.Tracker.{PoolTracker}
use reth_exex_liquidity.Liquidity.Snapshot.{Snapshot}
use reth_exex_liquidity.Liquidity.Block.{Block, Scan, scan_log, scan_logs, scan_receipts}
use reth_exex_liquidity.Liquidity.Reorg.Revert.{Reverting, revert_log, revert_logs, revert_receipts}

-- The logs with the indexes of their transaction and of their place in its receipt.
abbrev pub Indexed : Type 0
Indexed = ℕ × ℕ × Log

unfoldable pub indexed_logs : (tx_index log_index : ℕ) → List Log → List Indexed
indexed_logs tx li [] = []
indexed_logs tx li (log ∷ logs) = (tx, li, log) ∷ indexed_logs tx (li + 1) logs

unfoldable pub indexed_receipts : (tx_index : ℕ) → List (List Log) → List Indexed
indexed_receipts tx [] = []
indexed_receipts tx (logs ∷ rest) = indexed_logs tx 0 logs ++ indexed_receipts (tx + 1) rest

unfoldable pub reverse : List Indexed → List Indexed
reverse [] = []
reverse (x ∷ xs) = reverse xs ++ x ∷ []

fold-append :
    {S : Type 0} (f : S → Indexed → S) (s : S) (xs ys : List Indexed)
    → fold f s (xs ++ ys) ≡ fold f (fold f s xs) ys
unfolding fold
fold-append f s [] ys = refl
fold-append f s (x ∷ xs) ys = fold-append f (f s x) xs ys

reverse-append : (xs ys : List Indexed) → reverse (xs ++ ys) ≡ reverse ys ++ reverse xs
unfolding reverse
reverse-append [] ys = sym (append-nil (reverse ys))
reverse-append (x ∷ xs) ys =
    ap (λ zs. zs ++ x ∷ []) (reverse-append xs ys) ∙ append_assoc (reverse ys) (reverse xs) (x ∷ [])

module _ (accepts : ControlMessage → Bool) (d : Snapshot) (t : PoolTracker) (b : Block) where
  abbrev apply_one : Scan → Indexed → Scan
  apply_one s x = scan_log accepts d t b x.0 x.1 x.2 s

  abbrev revert_one : Reverting → Indexed → Reverting
  revert_one s x = revert_log accepts d t b x.0 x.1 x.2 s

  scan_logs-fold :
      (tx li : ℕ) (logs : List Log) (s : Scan)
      → scan_logs accepts d t b tx li logs s ≡ fold apply_one s (indexed_logs tx li logs)
  unfolding scan_logs indexed_logs fold
  scan_logs-fold tx li [] s = refl
  scan_logs-fold tx li (log ∷ logs) s = scan_logs-fold tx (li + 1) logs _

  revert_logs-fold :
      (tx li : ℕ) (logs : List Log) (s : Reverting)
      → revert_logs accepts d t b tx li logs s
        ≡ fold revert_one s (reverse (indexed_logs tx li logs))
  unfolding revert_logs indexed_logs reverse fold
  revert_logs-fold tx li [] s = refl
  revert_logs-fold tx li (log ∷ logs) s =
      ap (revert_log accepts d t b tx li log) (revert_logs-fold tx (li + 1) logs s)
      ∙ sym
          (fold-append revert_one s (reverse (indexed_logs tx (li + 1) logs)) ((tx, li, log) ∷ []))

  -- A block is applied by one pass over its logs, each with the index of its transaction and its own
  -- index there, and reverted by one pass over the same logs, with the same indexes, in exactly the
  -- reverse order.
  pub revert_receipts-reverse :
      (tx : ℕ) (receipts : List (List Log)) (s : Scan) (v : Reverting)
      → let logs = indexed_receipts tx receipts in
        (scan_receipts accepts d t b tx receipts s
          ≡ fold (λ s x. scan_log accepts d t b x.0 x.1 x.2 s) s logs)
        × (revert_receipts accepts d t b tx receipts v
            ≡ fold (λ v x. revert_log accepts d t b x.0 x.1 x.2 v) v (reverse logs))
  unfolding scan_receipts revert_receipts indexed_receipts reverse fold
  revert_receipts-reverse tx [] s v = (refl, refl)
  revert_receipts-reverse tx (logs ∷ rest) s v =
      let h = revert_receipts-reverse (tx + 1) rest in
      let here = indexed_logs tx 0 logs in
      let later = indexed_receipts (tx + 1) rest in
      (
        ap (scan_receipts accepts d t b (tx + 1) rest) (scan_logs-fold tx 0 logs s)
            ∙ (h _ v).0
            ∙ sym (fold-append apply_one s here later),
        revert_logs-fold tx 0 logs _
            ∙ ap (λ w. fold revert_one w (reverse here)) (h s v).1
            ∙ sym (fold-append revert_one v (reverse later) (reverse here))
            ∙ ap (fold revert_one v) (sym (reverse-append here later)),
      )
