-- ===== src/Fluid/Prices.antt =====
-- Bit extraction, BigMath numbers and `calc_exchange_prices` of src/fluid_decoder.rs.
use reth_exex_liquidity.Common.{
  ℕ, ◌+◌, ◌-◌, ◌*◌, ◌/◌, ◌%◌, ◌^◌, ◌≤◌, ◌<◌, ◌≡◌, Bool, not, ◌&&◌, ◌||◌, Option, none, some, arith,
  ltb, ◌==◌, if◌then◌else◌, Bool-cases, inl, inr, ◌∙◌,
}
use reth_exex_liquidity.Common.Words.{u128_mod, add128, sub128, mul128, mul256, div, ◌>>=◌}
use native.Mathlib.Nat.{mul-le-mul, mod-lt, mod-eq_of_lt}

abbrev pub six_decimals : ℕ
six_decimals = 1_000_000

abbrev pub three_decimals : ℕ
three_decimals = 1_000

abbrev pub exchange_prices_precision : ℕ
exchange_prices_precision = 1_000_000_000_000

abbrev pub seconds_per_year : ℕ
seconds_per_year = 365 * 24 * 3600

abbrev pub four_decimals : ℕ
four_decimals = 10_000

abbrev pub e27 : ℕ
e27 = 10 ^ 27

-- The mask of the source is `2 ^ width - 1`.
unfoldable pub extract_u128 : ℕ → ℕ → ℕ → ℕ
extract_u128 val shift width = val / 2 ^ shift % u128_mod % 2 ^ width

-- A release build takes the shift count of a `u128` modulo 128.
unfoldable pub from_big_number : ℕ → ℕ
from_big_number big_number = mul128 (big_number / 2 ^ 8) (2 ^ (big_number % 2 ^ 8 % 128))

unfoldable pub inv_price : ℕ → Option ℕ
inv_price price = div (mul256 e27 e27) price >>= λ q. some (q % u128_mod)

-- `ratioSupplyYield`; `none` is the early return at a zero ratio.
unfoldable pub ratio_supply_yield : (supply_ratio utilization : ℕ) → Option ℕ
ratio_supply_yield supply_ratio utilization =
    let sr = supply_ratio / 2 in
    if supply_ratio % 2 == 1
    then (if sr == 0
        then none
        else some (mul128 utilization (add128 e27 (mul128 e27 four_decimals / sr)) / four_decimals))
    else some (
        mul128 (mul128 e27 utilization) (add128 four_decimals sr) / (four_decimals * four_decimals))

unfoldable pub borrow_ratio_yield : (borrow_ratio : ℕ) → Option ℕ
borrow_ratio_yield borrow_ratio =
    let br = borrow_ratio / 2 in
    if borrow_ratio % 2 == 1
    then (if br == 0 then none else some (mul128 br e27 / add128 four_decimals br))
    else some (sub128 e27 (mul128 br e27 / add128 four_decimals br))

-- The rest of `calc_exchange_prices`, behind the update of the borrow price.
unfoldable pub accrue_supply : (slot supply borrow rate seconds borrow_ratio : ℕ) → ℕ × ℕ
accrue_supply slot supply borrow rate seconds borrow_ratio =
    let supply_ratio = extract_u128 slot 219 15 in
    let utilization = extract_u128 slot 30 14 in
    let fee = extract_u128 slot 16 14 in
    if supply_ratio == 1
    then (supply, borrow)
    else elim (ratio_supply_yield supply_ratio utilization) [
      | none ↦ (supply, borrow)
      | some supply_yield ↦ elim (borrow_ratio_yield borrow_ratio) [
        | none ↦ (supply, borrow)
        | some borrow_yield ↦
            let temp =
              mul256 (mul256 four_decimals supply_yield) borrow_yield / 10 ^ 54 % u128_mod in
            let numer = mul128 (mul128 rate temp) (sub128 four_decimals fee) in
            (
              add128 supply (
                  mul128 (mul128 supply numer) seconds
                  / (seconds_per_year * four_decimals * four_decimals * four_decimals)),
              borrow,
            )
      ]
    ]

-- Whether the early returns of `calc_exchange_prices` let interest accrue.
unfoldable pub accrues : (slot current_timestamp : ℕ) → Bool
accrues slot now =
    let last = extract_u128 slot 58 33 in
    not (extract_u128 slot 91 64 == 0 || extract_u128 slot 155 64 == 0)
    && not (not (now == 0) && ltb now last)
    && not (now - last == 0 || extract_u128 slot 0 16 == 0 || extract_u128 slot 234 15 == 1)

-- The supply and the borrow exchange price.
unfoldable pub calc_exchange_prices : (slot current_timestamp : ℕ) → ℕ × ℕ
unfolding accrues
calc_exchange_prices slot now =
    let supply = extract_u128 slot 91 64 in
    let borrow = extract_u128 slot 155 64 in
    let rate = extract_u128 slot 0 16 in
    let seconds = now - extract_u128 slot 58 33 in
    let borrow_ratio = extract_u128 slot 234 15 in
    if accrues slot now
    then accrue_supply slot supply
        (add128 borrow (mul128 (mul128 borrow rate) seconds / (seconds_per_year * four_decimals)))
        rate seconds borrow_ratio
    else (supply, borrow)

accrue_supply_borrow :
    (slot supply borrow rate seconds borrow_ratio : ℕ)
    → (accrue_supply slot supply borrow rate seconds borrow_ratio).1 ≡ borrow
unfolding accrue_supply
accrue_supply_borrow slot supply borrow rate seconds borrow_ratio = ground arith

pub extract-lt : (val shift width : ℕ) → 0 < 2 ^ width → extract_u128 val shift width < 2 ^ width
unfolding extract_u128
extract-lt val shift width p = mod-lt (val / 2 ^ shift % u128_mod) p

product_small : (b r s : ℕ) → b < 2 ^ 64 → r < 2 ^ 16 → s < 2 ^ 48 → b * r * s + 2 ^ 64 < u128_mod
product_small b r s hb hr hs =
    let hb' : b ≤ 2 ^ 64 - 1 = omega arith in
    let hr' : r ≤ 2 ^ 16 - 1 = omega arith in
    let hs' : s ≤ 2 ^ 48 - 1 = omega arith in omega (arith, mul-le-mul (mul-le-mul hb' hr') hs')

borrow_unwrapped :
    (b r s : ℕ)
    → b < 2 ^ 64
    → r < 2 ^ 16
    → s < 2 ^ 48
    → add128 b (mul128 (mul128 b r) s / (seconds_per_year * four_decimals))
      ≡ b + b * r * s / (seconds_per_year * four_decimals)
borrow_unwrapped b r s hb hr hs =
    let fits = product_small b r s hb hr hs in
    let hb' : b ≤ 2 ^ 64 - 1 = omega arith in
    let hr' : r ≤ 2 ^ 16 - 1 = omega arith in
    let first : b * r % u128_mod ≡ b * r = mod-eq_of_lt (omega (arith, mul-le-mul hb' hr')) in
    let second : b * r * s % u128_mod ≡ b * r * s = mod-eq_of_lt (omega arith) in
    rw (first, second) (mod-eq_of_lt (omega arith))

-- With a timestamp below 2 ^ 48 no `u128` wraps in the borrow price: it is the stored price plus
-- the interest of the elapsed seconds, rounded down, where interest accrues, and the stored price
-- otherwise.
pub calc_exchange_prices_borrow :
    (slot now : ℕ)
    → now < 2 ^ 48
    → (calc_exchange_prices slot now).1
      ≡ extract_u128 slot 155 64
        + (if accrues slot now
            then extract_u128 slot 155 64
              * extract_u128 slot 0 16
              * (now - extract_u128 slot 58 33)
              / (seconds_per_year * four_decimals)
            else 0)
unfolding calc_exchange_prices
calc_exchange_prices_borrow slot now h = elim (Bool-cases (accrues slot now)) [
  | inl on ↦ rw on (
      accrue_supply_borrow slot _ _ _ _ _
      ∙ borrow_unwrapped (extract_u128 slot 155 64) (extract_u128 slot 0 16)
          (now - extract_u128 slot 58 33) (extract-lt slot 155 64 (omega arith))
          (extract-lt slot 0 16 (omega arith)) (omega arith))
  | inr off ↦ rw off (omega arith)
]
