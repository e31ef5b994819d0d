-- ===== src/Fluid/Decode.antt =====
-- `decode_fluid_reserves` of src/fluid_decoder.rs, section by section.
use reth_exex_liquidity.Common.{ℕ, ◌/◌, Option, none, some, ltb, ◌&&◌, ◌==◌, if◌then◌else◌}
use reth_exex_liquidity.Common.Words.{add128, sub128, mul128, mul256, div, ◌>>=◌}
use reth_exex_liquidity.FluidConfig.{FluidPoolConfig, FluidStorageSlots}
use reth_exex_liquidity.Fluid.Isqrt.{isqrt_u256}
use reth_exex_liquidity.Fluid.Prices.{
  extract_u128, from_big_number, inv_price, calc_exchange_prices, six_decimals, three_decimals, e27,
}
use reth_exex_liquidity.Fluid.Reserves.{
  get_liquidity_collateral, get_liquidity_debt, calculate_reserves_outside_range,
  calculate_debt_reserves,
}

pub record FluidReserves : Type 0 where
  pub col_token0_real_reserves : ℕ
  pub col_token1_real_reserves : ℕ
  pub col_token0_imaginary_reserves : ℕ
  pub col_token1_imaginary_reserves : ℕ
  pub debt_token0_debt : ℕ
  pub debt_token1_debt : ℕ
  pub debt_token0_real_reserves : ℕ
  pub debt_token1_real_reserves : ℕ
  pub debt_token0_imaginary_reserves : ℕ
  pub debt_token1_imaginary_reserves : ℕ
  pub center_price : ℕ
  pub fee : ℕ

-- 1. The center price: the branches differ in their comments only.
unfoldable pub center_price_of : (dv dv2 : ℕ) → ℕ
center_price_of dv dv2 =
    if extract_u128 dv2 248 1 == 0
    then (if extract_u128 dv2 112 30 == 0
        then from_big_number (extract_u128 dv 81 40)
        else from_big_number (extract_u128 dv 81 40))
    else from_big_number (extract_u128 dv 81 40)

-- 2. The range around a center price: its upper and its lower price.
unfoldable pub range_of : (dv2 center : ℕ) → Option (ℕ × ℕ)
range_of dv2 center = do
  let upper_range_pct = extract_u128 dv2 27 20
  let lower_range_pct = extract_u128 dv2 47 20
  upper ← div (mul128 center six_decimals) (sub128 six_decimals upper_range_pct)
  some (upper, mul128 center (sub128 six_decimals lower_range_pct) / six_decimals)

-- 3. The center price as it moves towards a range border since the last swap.
unfoldable pub shifted_center : (dv dv2 center upper lower now : ℕ) → ℕ
shifted_center dv dv2 center upper lower now =
    let upper_threshold = extract_u128 dv2 68 10 in
    let lower_threshold = extract_u128 dv2 78 10 in
    let shifting_time = extract_u128 dv2 88 24 in
    let last_stored_price = from_big_number (extract_u128 dv 41 40) in
    let time_elapsed = sub128 now (extract_u128 dv 121 33) in
    let upper_trigger =
      add128 center
        (mul128 (sub128 upper center) (sub128 three_decimals upper_threshold) / three_decimals) in
    let lower_trigger =
      sub128 center
        (mul128 (sub128 center lower) (sub128 three_decimals lower_threshold) / three_decimals) in
    if ltb upper_trigger last_stored_price
    then (if ltb time_elapsed shifting_time
        then add128 center (mul128 (sub128 upper center) time_elapsed / shifting_time)
        else upper)
    else if ltb last_stored_price lower_trigger
    then (if ltb time_elapsed shifting_time
        then sub128 center (mul128 (sub128 center lower) time_elapsed / shifting_time)
        else lower)
    else center

unfoldable pub clamp_center : (dv2 center : ℕ) → ℕ
clamp_center dv2 center =
    let max_center = from_big_number (extract_u128 dv2 172 28) in
    let min_center = from_big_number (extract_u128 dv2 200 28) in
    let capped = if ltb 0 max_center && ltb max_center center then max_center else center in
    if ltb 0 min_center && ltb capped min_center then min_center else capped

unfoldable pub effective_center : (dv dv2 center upper lower now : ℕ) → ℕ
unfolding clamp_center shifted_center
effective_center dv dv2 center upper lower now = clamp_center dv2 (
    if ltb 0 (extract_u128 dv2 68 20) then shifted_center dv dv2 center upper lower now else center)

-- 4. The range that the reserves are computed in.
unfoldable pub final_range : (dv2 center effective upper lower : ℕ) → Option (ℕ × ℕ)
final_range dv2 center effective upper lower =
    if effective == center then some (upper, lower) else range_of dv2 effective

-- 7. The collateral fields: real0, real1, imaginary0, imaginary1.
unfoldable pub collateral :
    (slots : FluidStorageSlots) (config : FluidPoolConfig) (price0 price1 gm upper lower : ℕ)
    → Option (ℕ × ℕ × ℕ × ℕ)
collateral slots config price0 price1 gm upper lower = do
  supply0 ←
      get_liquidity_collateral slots.supply_token0 price0 config.token0_numerator_precision
        config.token0_denominator_precision
  supply1 ←
      get_liquidity_collateral slots.supply_token1 price1 config.token1_numerator_precision
        config.token1_denominator_precision
  imag ←
      if ltb gm e27
      then calculate_reserves_outside_range gm upper supply0 supply1
      else (inv_price gm >>= λ inv_gm. inv_price lower >>= λ inv_lower.
          calculate_reserves_outside_range inv_gm inv_lower supply1 supply0 >>= λ i.
          some (i.1, i.0))
  some (supply0, supply1, add128 imag.0 supply0, add128 imag.1 supply1)

-- The debt fields: debt0, debt1, real0, real1, imaginary0, imaginary1.
unfoldable pub debt :
    (slots : FluidStorageSlots) (config : FluidPoolConfig) (price0 price1 gm upper lower : ℕ)
    → Option (ℕ × ℕ × ℕ × ℕ × ℕ × ℕ)
debt slots config price0 price1 gm upper lower = do
  debt0 ←
      get_liquidity_debt slots.borrow_token0 price0 config.token0_numerator_precision
        config.token0_denominator_precision
  debt1 ←
      get_liquidity_debt slots.borrow_token1 price1 config.token1_numerator_precision
        config.token1_denominator_precision
  r ←
      if ltb gm e27
      then calculate_debt_reserves gm lower debt0 debt1
      else (inv_price gm >>= λ inv_gm. inv_price upper >>= λ inv_upper.
          calculate_debt_reserves inv_gm inv_upper debt1 debt0 >>= λ s. some (s.1, s.0, s.3, s.2))
  some (debt0, debt1, r.0, r.1, r.2, r.3)

-- What follows where the source does not return `None`.
unfoldable pub decode_at :
    (slots : FluidStorageSlots) (config : FluidPoolConfig) (now center upper lower : ℕ)
    → Option FluidReserves
decode_at slots config now center upper lower = do
  let dv2 = slots.dex_variables2
  let effective = effective_center slots.dex_variables dv2 center upper lower now
  final ← final_range dv2 center effective upper lower
  gm ← isqrt_u256 (mul256 final.0 final.1)
  let prices0 = calc_exchange_prices slots.exchange_price_token0 now
  let prices1 = calc_exchange_prices slots.exchange_price_token1 now
  c ←
      if extract_u128 dv2 0 1 == 1
      then collateral slots config prices0.0 prices1.0 gm final.0 final.1
      else some (0, 0, 0, 0)
  d ←
      if extract_u128 dv2 1 1 == 1
      then debt slots config prices0.1 prices1.1 gm final.0 final.1
      else some (0, 0, 0, 0, 0, 0)
  some (record {
    col_token0_real_reserves = c.0;
    col_token1_real_reserves = c.1;
    col_token0_imaginary_reserves = c.2;
    col_token1_imaginary_reserves = c.3;
    debt_token0_debt = d.0;
    debt_token1_debt = d.1;
    debt_token0_real_reserves = d.2;
    debt_token1_real_reserves = d.3;
    debt_token0_imaginary_reserves = d.4;
    debt_token1_imaginary_reserves = d.5;
    center_price = effective;
    fee = extract_u128 dv2 2 17;
  })

unfoldable pub decode_fluid_reserves :
    FluidStorageSlots → FluidPoolConfig → (now : ℕ) → Option (Option FluidReserves)
decode_fluid_reserves slots config now =
    let dv2 = slots.dex_variables2 in
    let center = center_price_of slots.dex_variables dv2 in
    let threshold_shift = ltb 0 (extract_u128 dv2 68 20) && extract_u128 dv2 67 1 == 1 in
    if center == 0
    then some none
    else if extract_u128 dv2 26 1 == 1
    then some none
    else range_of dv2 center >>= λ r.
        (if threshold_shift
          then some none
          else (decode_at slots config now center r.0 r.1 >>= λ res. some (some res)))
