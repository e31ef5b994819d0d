-- ===== src/Liquidity/Ranges.antt =====
-- What `block_range_summary_from_numbers` of src/main.rs gives.
use reth_exex_liquidity.Common.{
  ℕ, ◌+◌, ◌%◌, ◌^◌, ◌<◌, ◌≤◌, true, none, some, List, [], ◌∷◌, ◌≡◌, refl, arith, fold, length, All,
  if◌then◌else◌, ltb, ap, ◌∙◌,
}
use native.Mathlib.Nat.{mod-add-mod, mod-eq_of_lt, mod-lt}
use reth_exex_liquidity.Common.Sets.{contains}
use reth_exex_liquidity.Wire.{ReorgRange}
use reth_exex_liquidity.Liquidity.Stream.{widen, block_range_summary_from_numbers}

-- A summary with bounds that enclose the numbers of a list.
record Encloses (lo hi : ℕ) (ns : List ℕ) (r : ReorgRange) (least greatest : ℕ) : Type 0 where
  first : r.first_block ≡ some least
  last : r.last_block ≡ some greatest
  not_above : least ≤ lo
  not_below : hi ≤ greatest
  within : All (λ n. (least ≤ n) × (n ≤ greatest)) ns
  least_listed : contains least (lo ∷ ns) ≡ true
  greatest_listed : contains greatest (hi ∷ ns) ≡ true

abbrev low : ℕ → ℕ → ℕ
low cur n = if ltb cur n then cur else n

abbrev high : ℕ → ℕ → ℕ
high cur n = if ltb cur n then n else cur

fold-widen :
    (lo hi c : ℕ) (ns : List ℕ)
    → (least : ℕ) × (greatest : ℕ) × Encloses lo hi ns
        (fold widen (record { first_block = some lo; last_block = some hi; block_count = c }) ns)
        least
        greatest
unfolding fold contains widen
fold-widen lo hi c [] = (
  lo,
  hi,
  record {
    first = refl;
    last = refl;
    not_above = omega arith;
    not_below = omega arith;
    within = tt;
    least_listed = ground arith;
    greatest_listed = ground arith;
  },
)
fold-widen lo hi c (n ∷ ns) =
    let (least, greatest, ih) = fold-widen (low lo n) (high hi n) ((c + 1) % 2 ^ 64) ns in
    (
      least,
      greatest,
      record {
        first = ih.first;
        last = ih.last;
        not_above = (let h = ih.not_above in ground arith);
        not_below = (let h = ih.not_below in ground arith);
        within = (
          ((let h = ih.not_above in ground arith), (let h = ih.not_below in ground arith)),
          ih.within,
        );
        least_listed = (let h = ih.least_listed in ground arith);
        greatest_listed = (let h = ih.greatest_listed in ground arith);
      },
    )

count_widen :
    (r : ReorgRange) (ns : List ℕ)
    → r.block_count < 2 ^ 64
    → (fold widen r ns).block_count ≡ (r.block_count + length ns) % 2 ^ 64
unfolding fold widen
count_widen r [] h = omega (arith, mod-eq_of_lt h)
count_widen r (n ∷ ns) h =
    count_widen (widen r n) ns (mod-lt (r.block_count + 1) (omega arith))
    ∙ mod-add-mod (r.block_count + 1) (2 ^ 64) (length ns)
    ∙ ap (λ (k : ℕ). k % 2 ^ 64) (omega arith)

-- The range of a chain with at least one block starts at its least block number and ends at its
-- greatest, whatever the order the numbers come in, and counts the blocks modulo 2 ^ 64.
pub block_range_summary_bounds :
    (n : ℕ) (ns : List ℕ)
    → let r = block_range_summary_from_numbers (n ∷ ns) in
      (least : ℕ) × (greatest : ℕ) × (r.first_block ≡ some least)
      × (r.last_block ≡ some greatest)
      × All (λ m. (least ≤ m) × (m ≤ greatest)) (n ∷ ns)
      × (contains least (n ∷ ns) ≡ true)
      × (contains greatest (n ∷ ns) ≡ true)
      × (r.block_count ≡ length (n ∷ ns) % 2 ^ 64)
unfolding block_range_summary_from_numbers fold widen
block_range_summary_bounds n ns =
    let (least, greatest, e) = fold-widen n n 1 ns in
    (
      least,
      greatest,
      e.first,
      e.last,
      ((e.not_above, e.not_below), e.within),
      e.least_listed,
      e.greatest_listed,
      count_widen (record { first_block = none; last_block = none; block_count = 0 }) (n ∷ ns)
            (omega arith)
          ∙ ap (λ (k : ℕ). k % 2 ^ 64) (omega arith),
    )
