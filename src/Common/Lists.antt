-- ===== src/Common/Lists.antt =====
-- Lists measured by native numbers, under the library's names, and the loops over them.
use Prim.Native.Nat.{ℕ, suc, ◌+◌}
use mathlib.Core.Path.{◌≡◌, refl}
use mathlib.Core.Bool.{Bool}
use mathlib.Core.List.{List, [], ◌∷◌, ◌++◌}
use native.Mathlib.Omega.{arith}
use reth_exex_liquidity.Common.Tests.{if◌then◌else◌}

module _ {ℓ} {A : Type ℓ} where
  abbrev pub length : List A → ℕ
  length [] = 0
  length (x ∷ xs) = suc (length xs)

  pub length-append : (xs ys : List A) → length (xs ++ ys) ≡ length xs + length ys
  length-append [] ys = omega arith
  length-append (x ∷ xs) ys = omega (arith, length-append xs ys)

  -- `Vec::retain`, `Iterator::filter`: the entries that pass the test, in order.
  unfoldable pub retain : (A → Bool) → List A → List A
  retain p [] = []
  retain p (x ∷ xs) = if p x then x ∷ retain p xs else retain p xs

-- A predicate of every entry; it computes to a tuple.
abbrev pub All {ℓ κ} : {A : Type ℓ} → (A → Type κ) → List A → Type κ
All P [] = Unit
All P (x ∷ xs) = P x × All P xs

pub All-trivial {ℓ} : {A : Type ℓ} (xs : List A) → All (λ _. Unit {0}) xs
All-trivial [] = tt
All-trivial (x ∷ xs) = (tt, All-trivial xs)

-- A `for` loop that updates a state.
unfoldable pub fold {ℓ κ} : {A : Type ℓ} {S : Type κ} → (S → A → S) → S → List A → S
fold step s [] = s
fold step s (x ∷ xs) = fold step (step s x) xs

-- What every step keeps holds after the loop.
pub fold_inv {ℓ κ μ ν} :
    {A : Type ℓ} {S : Type κ} (P : S → Type μ) (Q : A → Type ν) (step : S → A → S)
    → ((s : S) (a : A) → Q a → P s → P (step s a))
    → (s : S) (xs : List A) → All Q xs
    → P s
    → P (fold step s xs)
unfolding fold
fold_inv P Q step keep s [] q h = h
fold_inv P Q step keep s (x ∷ xs) q h = fold_inv P Q step keep (step s x) xs q.1 (keep s x q.0 h)

pub fold-append {ℓ κ} :
    {A : Type ℓ} {S : Type κ} (step : S → A → S) (s : S) (xs ys : List A)
    → fold step s (xs ++ ys) ≡ fold step (fold step s xs) ys
unfolding fold
fold-append step s [] ys = refl
fold-append step s (x ∷ xs) ys = fold-append step (step s x) xs ys
