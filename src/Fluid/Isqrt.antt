-- ===== src/Fluid/Isqrt.antt =====
-- `isqrt_u128` and `isqrt_u256` of src/fluid_decoder.rs: the Babylonian square root.
use reth_exex_liquidity.Common.{
  ℕ, zero, suc, ◌+◌, ◌-◌, ◌*◌, ◌/◌, ◌%◌, ◌^◌, ◌≤◌, ◌<◌, ◌≡◌, refl, true, false, Option, none, some,
  arith, ltb, leb, ◌==◌, if◌then◌else◌, inl, inr, Bool-cases, ap, sym, ◌≢◌, ◌∙◌, subst,
}
use reth_exex_liquidity.Common.Words.{u128_mod, u256_mod, ◌>>=◌}
use native.Mathlib.Nat.{
  mul-le-mul_left, mul-le-mul, div-add-mod, mod-lt, mul_comm, mod-eq_of_lt, div_self,
}

-- `while y < x { x = y; y = (x + n / x) / 2; }` in words below `w`; `none` is the panic of a
-- division by zero, or that the fuel ran out.
unfoldable pub isqrt_loop : ℕ → ℕ → ℕ → ℕ → ℕ → Option ℕ
isqrt_loop w zero n x y = none
isqrt_loop w (suc fuel) n x y = elim (ltb y x) [
  | false ↦ some x
  | true ↦ elim (y == 0) [ true ↦ none | false ↦ isqrt_loop w fuel n y ((y + n / y) % w / 2) ]
]

-- `x` falls in each round, so `n + 1` rounds are enough.
unfoldable pub isqrt_in : ℕ → ℕ → Option ℕ
isqrt_in w n = isqrt_loop w (suc n) n n ((n + 1) % w / 2)

unfoldable pub isqrt_u128 : ℕ → Option ℕ
isqrt_u128 n = if n == 0 then some 0 else isqrt_in u128_mod n

unfoldable pub isqrt_u256 : ℕ → Option ℕ
isqrt_u256 val =
    if leb val (u128_mod - 1)
    then isqrt_u128 (val % u128_mod)
    else isqrt_in u256_mod val >>= λ x. some (x % u128_mod)

-- The integer square root.
abbrev pub IsRoot : ℕ → ℕ → Type 0
IsRoot n x = (x * x ≤ n) × (n < (x + 1) * (x + 1))

gap_products : (a d : ℕ) → a * (a + d) + a * (a + d) ≤ a * a + (a + d) * (a + d)
gap_products a d = omega arith

two_products : (s x : ℕ) → s * x + s * x ≤ s * s + x * x
two_products s x = elim (Bool-cases (leb s x)) [
  | inl le ↦
      let e : s + (x - s) ≡ x = ground arith in
      subst (λ (b : ℕ). s * b + s * b ≤ s * s + b * b) e (gap_products s (x - s))
  | inr gt ↦
      let e : x + (s - x) ≡ s = ground arith in
      omega (
        arith,
        subst (λ (b : ℕ). x * b + x * b ≤ x * x + b * b) e (gap_products x (s - x)),
        mul_comm s x,
      )
]

-- No root of a number up to `n` is above the mean of `x` and `n / x`.
mean_above : (n x s : ℕ) → 0 < x → s * s ≤ n → s + s ≤ x + n / x
mean_above n x s p h = elim (Bool-cases (leb (s + s) (x + n / x))) [
  | inl le ↦ ground arith
  | inr gt ↦
      let q = n / x in
      let r = s + s - x in
      let small : q + 1 ≤ r = ground arith in
      let whole : r + x ≡ s + s = ground arith in
      absurd (
        omega (
          arith,
          mul-le-mul_left x small,
          div-add-mod n x,
          mod-lt n p,
          two_products s x,
          mul_comm s x,
          ap (λ (t : ℕ). x * t) whole,
        ))
]

sum_of_sucs : (a b : ℕ) → suc a + suc b ≤ suc a * suc b + 1
sum_of_sucs a b = omega arith

sum_bound : (n x : ℕ) → 0 < x → x ≤ n → x + n / x ≤ n + 1
sum_bound n x p h =
    let q = n / x in
    let q_pos : 0 < q = grind arith in
    let ex : suc (x - 1) ≡ x = omega arith in
    let eq : suc (q - 1) ≡ q = omega arith in
    let both : x + q ≤ x * q + 1 =
      subst (λ (a : ℕ). a + q ≤ a * q + 1) ex
        (subst (λ (b : ℕ). suc (x - 1) + b ≤ suc (x - 1) * b + 1) eq
          (sum_of_sucs (x - 1) (q - 1))) in
    omega (arith, both, div-add-mod n x)

-- What holds before each round.
record Above (w n x y : ℕ) : Type 0 where
  positive : 0 < x
  bounded : x ≤ n
  mean : y ≡ (x + n / x) / 2
  above : (s : ℕ) → s * s ≤ n → s ≤ x

round-Above :
    (w n x y : ℕ)
    → 0 < n
    → n + 1 < w
    → y < x
    → Above w n x y
    → (0 < y) × Above w n y ((y + n / y) % w / 2)
round-Above w n x y n_pos fits less h =
    let above_y =
      λ (s : ℕ) (e : s * s ≤ n). half s y (x + n / x) h.mean (mean_above n x s h.positive e) in
    let y_pos : 0 < y = above_y 1 n_pos in
    let y_le : y ≤ n = omega (arith, h.bounded) in
    (
      y_pos,
      record {
        positive = y_pos;
        bounded = y_le;
        mean = ap (λ (t : ℕ). t / 2) (mod-eq_of_lt (omega (arith, sum_bound n y y_pos y_le)));
        above = above_y;
      },
    )
  where
    half : (s y m : ℕ) → y ≡ m / 2 → s + s ≤ m → s ≤ y
    half s y m e k = omega arith

stop_below : (n x y : ℕ) → 0 < x → y ≡ (x + n / x) / 2 → x ≤ y → x * x ≤ n
stop_below n x y p e h =
    let big : x ≤ n / x = omega arith in omega (arith, mul-le-mul_left x big, div-add-mod n x)

stop_above : (n x : ℕ) → ((s : ℕ) → s * s ≤ n → s ≤ x) → n < (x + 1) * (x + 1)
stop_above n x above = elim (Bool-cases (leb ((x + 1) * (x + 1)) n)) [
  | inl le ↦
      let small : (x + 1) * (x + 1) ≤ n = ground arith in
      absurd (omega (arith, above (x + 1) small))
  | inr gt ↦ ground arith
]

-- The loop ends, and at the root.
isqrt_loop_total :
    (w fuel n x y : ℕ)
    → 0 < n
    → n + 1 < w
    → x < fuel
    → Above w n x y
    → (r : ℕ) × (isqrt_loop w fuel n x y ≡ some r) × IsRoot n r
unfolding isqrt_loop
isqrt_loop_total w zero n x y n_pos fits enough h = absurd (omega arith)
isqrt_loop_total w (suc fuel) n x y n_pos fits enough h = elim (Bool-cases (ltb y x)) [
  | inl more ↦
      let less : y < x = ground arith in
      let next = round-Above w n x y n_pos fits less h in
      let nonzero : (y == 0) ≡ false = (let p = next.0 in ground arith) in
      rw (more, nonzero, isqrt_loop)
        (isqrt_loop_total w fuel n y ((y + n / y) % w / 2) n_pos fits (omega arith) next.1)
  | inr done ↦ (
    x,
    rw (done, isqrt_loop),
    (stop_below n x y h.positive h.mean (ground arith), stop_above n x h.above),
  )
]

square_ge : (s : ℕ) → s ≤ s * s
square_ge zero = omega arith
square_ge (suc s) = omega arith

isqrt_in_total : (w n : ℕ) → 0 < n → n + 1 < w → (r : ℕ) × (isqrt_in w n ≡ some r) × IsRoot n r
unfolding isqrt_in
isqrt_in_total w n p h =
    isqrt_loop_total w (suc n) n n ((n + 1) % w / 2) p h (omega arith) (record {
      positive = p;
      bounded = omega arith;
      mean = ap (λ (t : ℕ). t / 2) (mod-eq_of_lt h ∙ ap (λ (t : ℕ). n + t) (sym (div_self p)));
      above = λ s e. omega (arith, square_ge s);
    })

-- For every value but the largest of its type, `isqrt_u128` returns, and what it returns is the
-- integer square root: the largest number whose square is not above the value.
pub isqrt_u128-IsRoot : (n : ℕ) → n + 1 < u128_mod → (r : ℕ) × (isqrt_u128 n ≡ some r) × IsRoot n r
unfolding isqrt_u128
isqrt_u128-IsRoot zero h = (0, refl, (omega arith, omega arith))
isqrt_u128-IsRoot (suc n) h =
    let (r, e, root) = isqrt_in_total u128_mod (suc n) (omega arith) h in
    (r, (let nonzero : (suc n == 0) ≡ false = ground arith in rw nonzero e), root)

root_fits : (val r : ℕ) → val + 1 < u256_mod → r * r ≤ val → r < u128_mod
root_fits val r h below = elim (Bool-cases (ltb r u128_mod)) [
  | inl less ↦ ground arith
  | inr more ↦ let big : u128_mod ≤ r = ground arith in absurd (omega (arith, mul-le-mul big big))
]

-- For every value but 2 ^ 128 - 1 and 2 ^ 256 - 1, `isqrt_u256` returns, and what it returns is the
-- integer square root.
pub isqrt_u256-IsRoot :
    (val : ℕ)
    → val + 1 < u256_mod
    → val + 1 ≢ u128_mod
    → (r : ℕ) × (isqrt_u256 val ≡ some r) × IsRoot val r
unfolding isqrt_u256
isqrt_u256-IsRoot val h ne = elim (Bool-cases (leb val (u128_mod - 1))) [
  | inl small ↦
      let (r, e, root) = isqrt_u128-IsRoot val (ground arith) in
      let fits : val % u128_mod ≡ val = mod-eq_of_lt (ground arith) in (r, rw (small, fits) e, root)
  | inr large ↦
      let (r, e, root) = isqrt_in_total u256_mod val (ground arith) h in
      let fits : r % u128_mod ≡ r = mod-eq_of_lt (root_fits val r h root.0) in
      (r, rw (large, e, ◌>>=◌) (ap some fits), root)
]

-- `isqrt_u128(u128::MAX)` panics: `x + 1` wraps to 0, and the loop divides by 0.
isqrt_u128_max : isqrt_u128 (u128_mod - 1) ≡ none
unfolding isqrt_u128 isqrt_in isqrt_loop
isqrt_u128_max = refl

isqrt_u256_runs : isqrt_u256 (10 ^ 54) ≡ some (10 ^ 27)
unfolding isqrt_u256 isqrt_in isqrt_loop
isqrt_u256_runs = refl
