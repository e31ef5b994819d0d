-- ===== src/Fluid/Reserves.antt =====
-- Supply and debt amounts and the two reserve solvers of src/fluid_decoder.rs.
use reth_exex_liquidity.Common.{
  ℕ, ◌-◌, ◌*◌, ◌/◌, ◌%◌, ◌^◌, Option, some, ltb, leb, ◌==◌, if◌then◌else◌,
}
use reth_exex_liquidity.Common.Words.{
  u128_mod, add128, sub128, mul128, add256, sub256, mul256, div, ◌>>=◌,
}
use reth_exex_liquidity.Fluid.Isqrt.{isqrt_u256}
use reth_exex_liquidity.Fluid.Prices.{extract_u128, from_big_number, exchange_prices_precision, e27}

-- `get_liquidity_collateral` and `get_liquidity_debt` are the same code under two names.
unfoldable pub get_liquidity_collateral :
    (supply_data exchange_price numerator denominator : ℕ) → Option ℕ
get_liquidity_collateral supply_data exchange_price numerator denominator =
    let raw = from_big_number (extract_u128 supply_data 1 64) in
    let supply =
      if extract_u128 supply_data 0 1 == 1
      then mul256 raw exchange_price / exchange_prices_precision % u128_mod
      else raw in
    div (mul256 supply numerator) denominator >>= λ q. some (q % u128_mod)

unfoldable pub get_liquidity_debt :
    (borrow_data exchange_price numerator denominator : ℕ) → Option ℕ
get_liquidity_debt borrow_data exchange_price numerator denominator =
    let raw = from_big_number (extract_u128 borrow_data 1 64) in
    let debt =
      if extract_u128 borrow_data 0 1 == 1
      then mul256 raw exchange_price / exchange_prices_precision % u128_mod
      else raw in
    div (mul256 debt numerator) denominator >>= λ q. some (q % u128_mod)

-- The imaginary reserves of both tokens, without the real ones.
unfoldable pub calculate_reserves_outside_range : (gp pa rx ry : ℕ) → Option (ℕ × ℕ)
calculate_reserves_outside_range gp pa rx ry = do
  let p1 = sub128 pa gp
  p2_wide ← div (add256 (mul256 gp rx) (mul256 ry e27)) (mul128 2 p1)
  let p2 = p2_wide % u128_mod
  let p3_raw = mul256 rx ry
  p3_wide ←
      if ltb p3_raw (10 ^ 50)
      then div (mul256 p3_raw e27) p1
      else (div p3_raw p1 >>= λ q. some (mul256 q e27))
  root ← isqrt_u256 (add256 (p3_wide % u128_mod) (mul256 p2 p2))
  let xa = add128 p2 root
  some (xa, mul256 xa gp / e27 % u128_mod)

-- An `i128` by its bit pattern: negation and `unsigned_abs`.
unfoldable pub negate128 : ℕ → ℕ
negate128 w = sub128 0 w

unfoldable pub unsigned_abs : ℕ → ℕ
unfolding negate128
unsigned_abs w = if ltb w (2 ^ 127) then w else negate128 w

unfoldable pub debt_p1 : (dx_gp dy_e27 : ℕ) → ℕ
unfolding negate128
debt_p1 dx_gp dy_e27 =
    if leb dy_e27 dx_gp
    then sub256 dx_gp dy_e27 / (2 * e27) % u128_mod
    else negate128 (sub256 dy_e27 dx_gp / (2 * e27) % u128_mod)

-- The real and then the imaginary reserves of both tokens: (rx, ry, irx, iry).
unfoldable pub calculate_debt_reserves : (gp pb dx dy : ℕ) → Option (ℕ × ℕ × ℕ × ℕ)
unfolding debt_p1 unsigned_abs
calculate_debt_reserves gp pb dx dy = do
  let p1 = debt_p1 (mul256 dx gp) (mul256 dy e27)
  let dx_dy = mul256 dx dy
  let p2 = if ltb dx_dy (10 ^ 50) then mul256 dx_dy pb / e27 else mul256 (dx_dy / e27) pb
  let p1_abs = unsigned_abs p1
  root ← isqrt_u256 (add256 p2 (mul256 p1_abs p1_abs))
  let ry = add128 p1 root
  let ry_sq = mul256 ry ry
  let iry_denom = sub256 (mul256 ry e27) (mul256 dx pb)
  iry_wide ←
      if ltb ry (10 ^ 25) then div (mul256 ry_sq e27) iry_denom else div ry_sq (iry_denom / e27)
  let iry = iry_wide % u128_mod
  iry_dx_over_ry ← div (mul256 iry dx) ry
  let irx = iry_dx_over_ry % u128_mod - dx
  rx ← div (mul256 irx dy) (add128 iry dy)
  some (rx % u128_mod, ry, irx, iry)
