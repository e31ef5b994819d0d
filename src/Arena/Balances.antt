-- ===== src/Arena/Balances.antt =====
-- The Balancer arms of `apply_live_event` in src/shadow_apply.rs: token balances, folded.
use reth_exex_liquidity.Common.{
  ℕ, zero, suc, ◌+◌, ◌-◌, ◌^◌, ◌≤◌, ◌≡◌, refl, arith, leb, ◌==◌, if◌then◌else◌, Bool, true, false,
  List, [], ◌∷◌, All,
}
use mathlib.Core.Path.{ap₂}
use reth_exex_liquidity.Common.Words.{u128_mod}
use reth_exex_liquidity.Common.Int.{ℤ, pos, negsuc}
use reth_exex_liquidity.Types.{Address}

abbrev pub u128_max : ℕ
u128_max = u128_mod - 1

-- `saturating_to` and `saturating_add`.
abbrev pub saturate : ℕ → ℕ
saturate n = if leb n u128_max then n else u128_max

-- The loop's body: what it makes of a balance, by whether its token is the one that comes in and the one
-- that goes out.
unfoldable pub swapped_balance : (is_revert is_in is_out : Bool) (amt_in amt_out : ℕ) → ℕ → ℕ
swapped_balance r is_in is_out amt_in amt_out b =
    let b1 = if is_in then (if r then b - amt_in else saturate (b + amt_in)) else b in
    if is_out then (if r then saturate (b1 + amt_out) else b1 - amt_out) else b1

-- The loop over the pool's tokens.
unfoldable pub swap_tokens :
    (is_revert : Bool) (token_in token_out : Address) (amt_in amt_out : ℕ)
    → List (Address × ℕ)
    → List (Address × ℕ)
swap_tokens r token_in token_out amt_in amt_out [] = []
swap_tokens r token_in token_out amt_in amt_out ((t, b) ∷ pool) =
    (t, swapped_balance r (t == token_in) (t == token_out) amt_in amt_out b)
    ∷ swap_tokens r token_in token_out amt_in amt_out pool

unfoldable pub swap_balances :
    (is_revert : Bool) (token_in token_out : Address) (amount_in amount_out : ℕ)
    → List (Address × ℕ)
    → List (Address × ℕ)
swap_balances r token_in token_out amount_in amount_out pool =
    swap_tokens r token_in token_out (saturate amount_in) (saturate amount_out) pool

-- `-*delta`, which wraps at the least `i128`, and `unsigned_abs`.
unfoldable pub wrapping_neg : ℤ → ℤ
wrapping_neg (pos zero) = pos zero
wrapping_neg (pos (suc n)) = negsuc n
wrapping_neg (negsuc n) = if n == 2 ^ 127 - 1 then negsuc n else pos (suc n)

unfoldable pub add_delta : ℤ → ℕ → ℕ
add_delta (pos n) b = saturate (b + n)
add_delta (negsuc n) b = b - suc n

-- At the token's first position.
unfoldable pub adjust_token : Address → ℤ → List (Address × ℕ) → List (Address × ℕ)
adjust_token token delta [] = []
adjust_token token delta ((t, b) ∷ rest) =
    let later = adjust_token token delta rest in
    if t == token then (t, add_delta delta b) ∷ rest else (t, b) ∷ later

-- `tokens.iter().zip(deltas.iter())`.
unfoldable pub adjust_balances :
    (is_revert : Bool) (tokens : List Address) (deltas : List ℤ)
    → List (Address × ℕ)
    → List (Address × ℕ)
adjust_balances r (token ∷ tokens) (delta ∷ deltas) pool =
    adjust_balances r tokens deltas
      (adjust_token token (if r then wrapping_neg delta else delta) pool)
adjust_balances r _ _ pool = pool

module _ (token_in token_out : Address) (amt_in amt_out : ℕ) where
  -- The vault can pay the swap, and its balances stay below 2 ^ 128.
  abbrev pub Pays : Address × ℕ → Type 0
  Pays x =
      ((x.0 == token_in) ≡ true → x.1 + amt_in ≤ u128_max)
      × ((x.0 == token_out) ≡ true → amt_out ≤ x.1)
      × (x.1 ≤ u128_max)

  balance_back :
      (i o : Bool) (b : ℕ)
      → (i ≡ true → b + amt_in ≤ u128_max)
      → (o ≡ true → amt_out ≤ b)
      → b ≤ u128_max
      → swapped_balance true i o amt_in amt_out (swapped_balance false i o amt_in amt_out b) ≡ b
  unfolding swapped_balance
  balance_back true true b h k l = let h' = h refl in let k' = k refl in ground (arith, h', k')
  balance_back true false b h k l = let h' = h refl in ground (arith, h')
  balance_back false true b h k l = let k' = k refl in ground (arith, k')
  balance_back false false b h k l = refl

  swaps_back :
      (pool : List (Address × ℕ))
      → All Pays pool
      → swap_tokens true token_in token_out amt_in amt_out
          (swap_tokens false token_in token_out amt_in amt_out pool)
        ≡ pool
  unfolding swap_tokens
  swaps_back [] h = refl
  swaps_back ((t, b) ∷ pool) ((i, o, l), h) =
      ap₂ (λ x xs. (t, x) ∷ xs) (balance_back (t == token_in) (t == token_out) b i o l)
        (swaps_back pool h)

-- A Balancer swap that is applied and then reverted leaves every balance of the pool as it was, if the
-- pool can pay the amount and no balance reaches 2 ^ 128; also where both tokens are one.
pub swap_balances_back :
    (token_in token_out : Address) (amount_in amount_out : ℕ) (pool : List (Address × ℕ))
    → All (Pays token_in token_out (saturate amount_in) (saturate amount_out)) pool
    → swap_balances true token_in token_out amount_in amount_out
        (swap_balances false token_in token_out amount_in amount_out pool)
      ≡ pool
unfolding swap_balances
swap_balances_back token_in token_out amount_in amount_out pool h =
    swaps_back token_in token_out (saturate amount_in) (saturate amount_out) pool h
