-- ===== src/Fluid/Outcomes.antt =====
-- When `decode_fluid_reserves` gives reserves, and what bounds them.
use reth_exex_liquidity.Common.{
  ℕ, ◌^◌, ◌≤◌, ◌<◌, ◌≡◌, ◌≢◌, ◌↔◌, inl, inr, refl, Option, none, some, ltb, ◌&&◌, ◌||◌, ◌==◌, Bool,
  true, false, arith, Option-cases,
}
use reth_exex_liquidity.Common.Words.{sub128, ◌>>=◌}
use reth_exex_liquidity.FluidConfig.{FluidPoolConfig, FluidStorageSlots}
use reth_exex_liquidity.Fluid.Prices.{extract_u128, from_big_number, six_decimals, extract-lt}
use reth_exex_liquidity.Fluid.Decode.{
  FluidReserves, center_price_of, range_of, clamp_center, effective_center, decode_at,
  decode_fluid_reserves,
}

-- The three cases of the source's `None`: no center price, a range shift, a threshold shift.
unfoldable pub undecodable : FluidStorageSlots → Bool
undecodable slots =
    center_price_of slots.dex_variables slots.dex_variables2 == 0
    || extract_u128 slots.dex_variables2 26 1 == 1
    || (ltb 0 (extract_u128 slots.dex_variables2 68 20)
        && extract_u128 slots.dex_variables2 67 1 == 1)

-- `>>=` gives a value only from a value.
bind_some {ℓ κ} :
    {A : Type ℓ} {B : Type κ} (m : Option A) (f : A → Option B) {b : B}
    → (m >>= f) ≡ some b
    → (a : A) × (m ≡ some a) × (f a ≡ some b)
bind_some none f e = cc
bind_some (some a) f e = (a, refl, e)

range_total :
    (dv2 center : ℕ)
    → extract_u128 dv2 27 20 ≢ six_decimals
    → (r : ℕ × ℕ) × (range_of dv2 center ≡ some r)
unfolding range_of
range_total dv2 center h =
    let small : extract_u128 dv2 27 20 < 2 ^ 20 = extract-lt dv2 27 20 (omega arith) in
    let nonzero : (sub128 six_decimals (extract_u128 dv2 27 20) == 0) ≡ false = ground arith in
    rw nonzero (_, refl)

-- Where the upper range is not 100% (which divides by zero), `decode_fluid_reserves` returns the
-- source's `None` exactly in three cases: the stored center price is zero, a range shift is active,
-- or the threshold rebalancing is on and a threshold shift is active.
pub decode_fluid_reserves-none :
    (slots : FluidStorageSlots) (config : FluidPoolConfig) (now : ℕ)
    → extract_u128 slots.dex_variables2 27 20 ≢ six_decimals
    → (decode_fluid_reserves slots config now ≡ some none) ↔ (undecodable slots ≡ true)
unfolding decode_fluid_reserves undecodable
decode_fluid_reserves-none slots config now h =
    let dv2 = slots.dex_variables2 in
    let (r, e) = range_total dv2 (center_price_of slots.dex_variables dv2) h in
    rw (e, ◌>>=◌) (ground arith)

decode_at-center_price :
    (slots : FluidStorageSlots) (config : FluidPoolConfig) (now center upper lower : ℕ)
    {res : FluidReserves}
    → decode_at slots config now center upper lower ≡ some res
    → (res.center_price
        ≡ effective_center slots.dex_variables slots.dex_variables2 center upper lower now)
      × (res.fee ≡ extract_u128 slots.dex_variables2 2 17)
unfolding decode_at
decode_at-center_price slots config now center upper lower h = ground arith

clamp_bounds :
    (dv2 center : ℕ)
    → let max_center = from_big_number (extract_u128 dv2 172 28) in
      let min_center = from_big_number (extract_u128 dv2 200 28) in
      (min_center ≤ clamp_center dv2 center)
      × (0 < max_center → min_center ≤ max_center → clamp_center dv2 center ≤ max_center)
unfolding clamp_center
clamp_bounds dv2 center = ground arith

effective_bounds :
    (dv dv2 center upper lower now : ℕ)
    → let max_center = from_big_number (extract_u128 dv2 172 28) in
      let min_center = from_big_number (extract_u128 dv2 200 28) in
      let c = effective_center dv dv2 center upper lower now in
      (min_center ≤ c) × (0 < max_center → min_center ≤ max_center → c ≤ max_center)
unfolding effective_center
effective_bounds dv dv2 center upper lower now = clamp_bounds dv2 _

decode_at_unused :
    (slots : FluidStorageSlots) (config : FluidPoolConfig) (now center upper lower : ℕ)
    {res : FluidReserves}
    → decode_at slots config now center upper lower ≡ some res
    → (extract_u128 slots.dex_variables2 0 1 ≡ 0
        → (res.col_token0_real_reserves ≡ 0)
          × (res.col_token1_real_reserves ≡ 0)
          × (res.col_token0_imaginary_reserves ≡ 0)
          × (res.col_token1_imaginary_reserves ≡ 0))
      × (extract_u128 slots.dex_variables2 1 1 ≡ 0
          → (res.debt_token0_debt ≡ 0)
            × (res.debt_token1_debt ≡ 0)
            × (res.debt_token0_real_reserves ≡ 0)
            × (res.debt_token1_real_reserves ≡ 0)
            × (res.debt_token0_imaginary_reserves ≡ 0)
            × (res.debt_token1_imaginary_reserves ≡ 0))
unfolding decode_at
decode_at_unused slots config now center upper lower h = (λ off. ground arith, λ off. ground arith)

decoded_at :
    (slots : FluidStorageSlots) (config : FluidPoolConfig) (now : ℕ) {res : FluidReserves}
    → decode_fluid_reserves slots config now ≡ some (some res)
    → (r : ℕ × ℕ) × (decode_at slots config now
          (center_price_of slots.dex_variables slots.dex_variables2)
          r.0
          r.1
        ≡ some res)
unfolding decode_fluid_reserves
decoded_at slots config now h =
    elim (Option-cases
      (range_of slots.dex_variables2 (center_price_of slots.dex_variables slots.dex_variables2))) [
        | inl e ↦ ground arith
        | inr (r, e) ↦ (r, ground arith)
      ]

-- Of reserves that are decoded: the center price is not below the pool's minimum, nor above its
-- maximum where one is set and is not below the minimum; the fee is the 17-bit field of the
-- configuration word; with collateral switched off the four collateral reserves are zero, and with
-- debt switched off the two debts and the four debt reserves are.
pub decode_fluid_reserves_bounds :
    (slots : FluidStorageSlots) (config : FluidPoolConfig) (now : ℕ) {res : FluidReserves}
    → decode_fluid_reserves slots config now ≡ some (some res)
    → let dv2 = slots.dex_variables2 in
      let max_center = from_big_number (extract_u128 dv2 172 28) in
      let min_center = from_big_number (extract_u128 dv2 200 28) in
      (min_center ≤ res.center_price)
      × (0 < max_center → min_center ≤ max_center → res.center_price ≤ max_center)
      × (res.fee ≡ extract_u128 dv2 2 17)
      × (extract_u128 dv2 0 1 ≡ 0
          → (res.col_token0_real_reserves ≡ 0)
            × (res.col_token1_real_reserves ≡ 0)
            × (res.col_token0_imaginary_reserves ≡ 0)
            × (res.col_token1_imaginary_reserves ≡ 0))
      × (extract_u128 dv2 1 1 ≡ 0
          → (res.debt_token0_debt ≡ 0)
            × (res.debt_token1_debt ≡ 0)
            × (res.debt_token0_real_reserves ≡ 0)
            × (res.debt_token1_real_reserves ≡ 0)
            × (res.debt_token0_imaginary_reserves ≡ 0)
            × (res.debt_token1_imaginary_reserves ≡ 0))
decode_fluid_reserves_bounds slots config now h =
    let (r, e) = decoded_at slots config now h in
    let center = center_price_of slots.dex_variables slots.dex_variables2 in
    let fields = decode_at-center_price slots config now center r.0 r.1 e in
    let bounds = effective_bounds slots.dex_variables slots.dex_variables2 center r.0 r.1 now in
    let unused = decode_at_unused slots config now center r.0 r.1 e in
    (rw fields.0 bounds.0, rw fields.0 bounds.1, fields.1, unused.0, unused.1)
