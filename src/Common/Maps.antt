-- ===== src/Common/Maps.antt =====
-- `std::collections::HashMap` with a numeric key (an address, a pool id) as an association list.
-- A key's entry is replaced where it stands. Nothing that is stated of a map depends on its order.
use Prim.Native.Nat.{ℕ, ◌+◌, ◌<◌}
use mathlib.Core.Path.{◌≡◌, refl}
use mathlib.Core.Bool.{Bool, true, false}
use mathlib.Core.Option.{Option, none, some}
use mathlib.Core.List.{List, [], ◌∷◌}
use native.Mathlib.Omega.{arith}
use reth_exex_liquidity.Common.Tests.{◌==◌, if◌then◌else◌, is_some, to_ℕ, ==-refl}

module _ {ℓ} {V : Type ℓ} where
  unfoldable pub keys : List (ℕ × V) → List ℕ
  keys [] = []
  keys ((k, x) ∷ rest) = k ∷ keys rest

  unfoldable pub lookup : ℕ → List (ℕ × V) → Option V
  lookup key [] = none
  lookup key ((k, x) ∷ rest) = if k == key then some x else lookup key rest

  unfoldable pub remove : ℕ → List (ℕ × V) → List (ℕ × V)
  remove key [] = []
  remove key ((k, x) ∷ rest) = if k == key then remove key rest else (k, x) ∷ remove key rest

  unfoldable pub insert : ℕ → V → List (ℕ × V) → List (ℕ × V)
  insert key new [] = (key, new) ∷ []
  insert key new ((k, x) ∷ rest) =
      if k == key then (key, new) ∷ rest else (k, x) ∷ insert key new rest

  abbrev pub contains_key : ℕ → List (ℕ × V) → Bool
  contains_key k m = is_some (lookup k m)

  -- No key has two entries.
  abbrev pub Distinct : List (ℕ × V) → Type 0
  Distinct [] = Unit
  Distinct ((j, w) ∷ m) = (contains_key j m ≡ false) × Distinct m

  -- The number of entries that pass a test.
  unfoldable pub count_where : (V → Bool) → List (ℕ × V) → ℕ
  count_where p [] = 0
  count_where p ((j, w) ∷ m) = to_ℕ (p w) + count_where p m

  pub lookup-insert :
      (key other : ℕ) (new : V) (entries : List (ℕ × V))
      → lookup other (insert key new entries)
        ≡ (if key == other then some new else lookup other entries)
  unfolding lookup insert
  lookup-insert key other new [] = refl
  lookup-insert key other new ((k, x) ∷ rest) = ground (arith, lookup-insert key other new rest)

  pub lookup-remove :
      (k j : ℕ) (m : List (ℕ × V)) → lookup j (remove k m) ≡ (if k == j then none else lookup j m)
  unfolding lookup remove
  lookup-remove k j [] = ground arith
  lookup-remove k j ((i, w) ∷ m) = ground (arith, lookup-remove k j m)

  pub insert-Distinct : (k : ℕ) (v : V) (m : List (ℕ × V)) → Distinct m → Distinct (insert k v m)
  unfolding insert lookup
  insert-Distinct k v [] h = ground arith
  insert-Distinct k v ((j, w) ∷ m) h = ground (arith, insert-Distinct k v m, lookup-insert k j v m)

  pub remove-Distinct : (k : ℕ) (m : List (ℕ × V)) → Distinct m → Distinct (remove k m)
  unfolding remove
  remove-Distinct k [] h = tt
  remove-Distinct k ((j, w) ∷ m) h = ground (arith, remove-Distinct k m, lookup-remove k j m)

  pub count_where-insert :
      (p : V → Bool) (k : ℕ) (v : V) (m : List (ℕ × V))
      → lookup k m ≡ none
      → count_where p (insert k v m) ≡ to_ℕ (p v) + count_where p m
  unfolding insert lookup count_where
  count_where-insert p k v [] h = refl
  count_where-insert p k v ((j, w) ∷ m) h = ground (arith, count_where-insert p k v m)

  pub count_where_pos :
      (p : V → Bool) (k : ℕ) (v : V) (m : List (ℕ × V))
      → lookup k m ≡ some v
      → p v ≡ true
      → 0 < count_where p m
  unfolding lookup count_where
  count_where_pos p k v [] h e = ground arith
  count_where_pos p k v ((j, w) ∷ m) h e = ground (arith, count_where_pos p k v m)

  -- An entry that is replaced by one that counts alike.
  pub count_where-insert_same :
      (p : V → Bool) (k : ℕ) (v w : V) (m : List (ℕ × V))
      → lookup k m ≡ some w
      → p v ≡ p w
      → count_where p (insert k v m) ≡ count_where p m
  unfolding insert lookup count_where
  count_where-insert_same p k v w [] h e = ground arith
  count_where-insert_same p k v w ((j, x) ∷ m) h e =
      ground (arith, count_where-insert_same p k v w m)

  remove_absent : (k : ℕ) (m : List (ℕ × V)) → lookup k m ≡ none → remove k m ≡ m
  unfolding lookup remove
  remove_absent k [] h = refl
  remove_absent k ((j, w) ∷ m) h = ground (arith, remove_absent k m)

  -- Removing an entry lowers the count by what it counted for.
  pub count_where-remove :
      (p : V → Bool) (k : ℕ) (v : V) (m : List (ℕ × V))
      → Distinct m
      → lookup k m ≡ some v
      → count_where p m ≡ to_ℕ (p v) + count_where p (remove k m)
  unfolding lookup remove count_where
  count_where-remove p k v [] h e = ground arith
  count_where-remove p k v ((j, w) ∷ m) h e =
      ground (arith, count_where-remove p k v m, remove_absent k m, ==-refl k)
