-- ===== src/Tests/Decoder.antt =====
-- The decoder's theorems at the storage words of the wstETH/ETH pool, which the unit tests of
-- src/fluid_decoder.rs use, and the values those tests expect.
use reth_exex_liquidity.Common.{
  ℕ, ◌+◌, ◌-◌, ◌*◌, ◌/◌, ◌<◌, ◌≤◌, ◌^◌, ◌≡◌, ◌≢◌, ◌↔◌, refl, none, some, true, arith, if◌then◌else◌,
}
use reth_exex_liquidity.FluidConfig.{FluidPoolConfig, FluidStorageSlots}
use reth_exex_liquidity.Fluid.Isqrt.{
  isqrt_u128, isqrt_u256, isqrt_in, isqrt_loop, IsRoot, isqrt_u128-IsRoot, isqrt_u256-IsRoot,
}
use reth_exex_liquidity.Fluid.Prices.{
  extract_u128, from_big_number, inv_price, calc_exchange_prices, accrue_supply, ratio_supply_yield,
  borrow_ratio_yield, calc_exchange_prices_borrow, accrues, seconds_per_year, four_decimals,
  six_decimals,
}
use reth_exex_liquidity.Fluid.Reserves.{
  get_liquidity_collateral, get_liquidity_debt, calculate_reserves_outside_range, negate128,
  unsigned_abs, debt_p1, calculate_debt_reserves,
}
use reth_exex_liquidity.Fluid.Decode.{
  FluidReserves, center_price_of, range_of, shifted_center, clamp_center, effective_center,
  final_range, collateral, debt, decode_at, decode_fluid_reserves,
}
use reth_exex_liquidity.Fluid.Outcomes.{
  undecodable, decode_fluid_reserves-none, decode_fluid_reserves_bounds,
}

abbrev pool1_slots : FluidStorageSlots
pool1_slots = record {
  dex_variables = 0x000000000000000000070000f0d368fecffc67a92075fc21611075fc21611074;
  dex_variables2 = 0x00edbb6e379846813f44a000000000000030ffffff00000002ee000008c801c3;
  exchange_price_token0 =
      904625697166532825591669513414596638658810643102520386703340641195053809685;
  exchange_price_token1 = 49878176876721900615456177109864974079344989024826006438171;
  supply_token0 = 291355544087482513783298826876732264667261827842384813763236642851;
  supply_token1 = 353061964987027740364110171626380088481652267611420936207797771813;
  borrow_token0 = 94710661335958479177862988578881135820012110919506487131842318647139363;
  borrow_token1 = 58153252158555476274676141124958551809435998974524591376947888779040803;
}

abbrev pool1_config : FluidPoolConfig
pool1_config = record {
  pool_address = 0x0b1a513ee24972daef112bc777a5610d4325c9e7;
  liquidity_address = 0x52aa899454998be5b000ad077a46bbe360f4e497;
  exchange_price_token0_slot = 0xc24eaceff5753c99066a839532d708a8661af7a9b01d44d0cd915c53969eb725;
  exchange_price_token1_slot = 0xa1829a9003092132f585b6ccdd167c19fe9774dbdea4260287e8a8e8ca8185d7;
  supply_token0_slot = 0xa893c3ab5c5189a9bd276b29d25998250798d4f72dbb029d43e23884b0119a5a;
  supply_token1_slot = 0x236696efd8534ce144b358082d303ba190cad0c8d37e9f4802b2a5198019379b;
  borrow_token0_slot = 0x2cd14670f8a9e59d7c072449b534cc4ec6d89953cf20c518ba36d7fbdd468baf;
  borrow_token1_slot = 0xd943cec1dfc617bf9515058376abfab0217f98cce018735f02efd4abd3453ad8;
  token0_numerator_precision = 1;
  token0_denominator_precision = 1_000_000;
  token1_numerator_precision = 1;
  token1_denominator_precision = 1_000_000;
}

-- Within the 5% of the expected values that the unit test allows.
abbrev pool1_reserves : FluidReserves
pool1_reserves = record {
  col_token0_real_reserves = 5495811637293241;
  col_token1_real_reserves = 11989349214347823;
  col_token0_imaginary_reserves = 20314636971295276400;
  col_token1_imaginary_reserves = 24958235722139350117;
  debt_token0_debt = 8699665390190057;
  debt_token1_debt = 6018108848107606;
  debt_token0_real_reserves = 4897085819978830;
  debt_token1_real_reserves = 10683134345474663;
  debt_token0_imaginary_reserves = 18101441175333589702;
  debt_token1_imaginary_reserves = 22239138971377484436;
  center_price = 1229247679835117320671330304;
  fee = 112;
}

pool1_decodes :
    decode_fluid_reserves pool1_slots pool1_config 1773437867 ≡ some (some pool1_reserves)
unfolding decode_fluid_reserves center_price_of range_of shifted_center clamp_center
    effective_center final_range collateral debt decode_at get_liquidity_collateral
    get_liquidity_debt calculate_reserves_outside_range negate128 unsigned_abs debt_p1
    calculate_debt_reserves extract_u128 from_big_number inv_price calc_exchange_prices
    accrue_supply ratio_supply_yield borrow_ratio_yield accrues isqrt_u128 isqrt_u256 isqrt_in
    isqrt_loop
pool1_decodes = refl

decode_fluid_reserves_bounds_example :
    let dv2 = pool1_slots.dex_variables2 in
    let max_center = from_big_number (extract_u128 dv2 172 28) in
    let min_center = from_big_number (extract_u128 dv2 200 28) in
    let res = pool1_reserves in
    (min_center ≤ res.center_price)
    × (0 < max_center → min_center ≤ max_center → res.center_price ≤ max_center)
    × (res.fee ≡ extract_u128 dv2 2 17)
    × (extract_u128 dv2 0 1 ≡ 0
        → (res.col_token0_real_reserves ≡ 0)
          × (res.col_token1_real_reserves ≡ 0)
          × (res.col_token0_imaginary_reserves ≡ 0)
          × (res.col_token1_imaginary_reserves ≡ 0))
    × (extract_u128 dv2 1 1 ≡ 0
        → (res.debt_token0_debt ≡ 0)
          × (res.debt_token1_debt ≡ 0)
          × (res.debt_token0_real_reserves ≡ 0)
          × (res.debt_token1_real_reserves ≡ 0)
          × (res.debt_token0_imaginary_reserves ≡ 0)
          × (res.debt_token1_imaginary_reserves ≡ 0))
decode_fluid_reserves_bounds_example =
    decode_fluid_reserves_bounds pool1_slots pool1_config 1773437867 pool1_decodes

pool1_upper_range : extract_u128 pool1_slots.dex_variables2 27 20 ≡ 1
unfolding extract_u128
pool1_upper_range = refl

pool1_upper_range-ne : extract_u128 pool1_slots.dex_variables2 27 20 ≢ six_decimals
pool1_upper_range-ne = ground (arith, pool1_upper_range)

decode_fluid_reserves-none_example :
    (decode_fluid_reserves pool1_slots pool1_config 1773437867 ≡ some none)
    ↔ (undecodable pool1_slots ≡ true)
decode_fluid_reserves-none_example =
    decode_fluid_reserves-none pool1_slots pool1_config 1773437867 pool1_upper_range-ne

calc_exchange_prices_borrow_example :
    let slot = pool1_slots.exchange_price_token0 in
    (calc_exchange_prices slot 1773437867).1
    ≡ extract_u128 slot 155 64
      + (if accrues slot 1773437867
          then extract_u128 slot 155 64
            * extract_u128 slot 0 16
            * (1773437867 - extract_u128 slot 58 33)
            / (seconds_per_year * four_decimals)
          else 0)
calc_exchange_prices_borrow_example =
    calc_exchange_prices_borrow pool1_slots.exchange_price_token0 1773437867 (omega arith)

isqrt_u128-IsRoot_example : (r : ℕ) × (isqrt_u128 99 ≡ some r) × IsRoot 99 r
isqrt_u128-IsRoot_example = isqrt_u128-IsRoot 99 (omega arith)

isqrt_u256-IsRoot_example : (r : ℕ) × (isqrt_u256 (10 ^ 54) ≡ some r) × IsRoot (10 ^ 54) r
isqrt_u256-IsRoot_example = isqrt_u256-IsRoot (10 ^ 54) (omega arith) (omega arith)
