-- ===== src/Hydration/Tiers.antt =====
-- `determine_tier`, `fill_v3_pool`, `fill_v4_pool`, `fill_ekubo_pool` and the three functions that build a
-- pool of a tier with them, of src/main.rs. How many ticks and bitmap words a tier's slot holds is said by
-- the arena's layout, another repository's crate.
use reth_exex_liquidity.Common.{
  ℕ, ◌*◌, ◌/◌, ◌%◌, ◌^◌, ◌≤◌, ◌<◌, arith, ltb, leb, ◌||◌, if◌then◌else◌, Bool, true, Option, none,
  some, List, length,
}
use reth_exex_liquidity.Common.Int.{ℤ}
use reth_exex_liquidity.Common.Words.{◌>>=◌}
use reth_exex_liquidity.Types.{Address, PoolId, PoolMetadata}
use reth_exex_liquidity.Arena.Writer.{PoolTier, low, active, popular, major}
use reth_exex_liquidity.Storage.Bitmap.{TickBitmapSnapshot}
use reth_exex_liquidity.Storage.Ekubo.{EkuboTickBitmapSnapshot}

-- The order of the variants, by which `max` goes.
abbrev pub rank : PoolTier → ℕ
rank low = 0
rank active = 1
rank popular = 2
rank major = 3

abbrev pub max_tier : PoolTier → PoolTier → PoolTier
max_tier t u = if ltb (rank u) (rank t) then t else u

unfoldable pub determine_tier : (tick_count bitmap_count : ℕ) → PoolTier
determine_tier ticks words =
    let tick_tier =
      if leb ticks 37
      then low
      else if leb ticks 150
      then active
      else if leb ticks 500
      then popular
      else major in
    let bitmap_tier =
      if leb words 7
      then low
      else if leb words 18
      then active
      else if leb words 50
      then popular
      else major in
    max_tier tick_tier bitmap_tier

-- The arrays of a slot of each tier.
pub record Capacities : Type 0 where
  pub tick_cap : PoolTier → ℕ
  pub bitmap_cap : PoolTier → ℕ

-- How far a slot is filled when a pool is put into it.
abbrev pub filled_to : PoolTier → ℕ → ℕ
filled_to low capacity = 3 * capacity / 4
filled_to active capacity = 3 * capacity / 4
filled_to popular capacity = capacity
filled_to major capacity = capacity

-- What the source's comment on `determine_tier` says of the sizes, and that a count is a `u16`.
pub record Sized (c : Capacities) : Type 0 where
  pub low_ticks : 37 ≤ filled_to low (c.tick_cap low)
  pub active_ticks : 150 ≤ filled_to active (c.tick_cap active)
  pub popular_ticks : 500 ≤ c.tick_cap popular
  pub major_ticks : 500 ≤ c.tick_cap major
  pub low_words : 7 ≤ filled_to low (c.bitmap_cap low)
  pub active_words : 18 ≤ filled_to active (c.bitmap_cap active)
  pub popular_words : 50 ≤ c.bitmap_cap popular
  pub major_words : 50 ≤ c.bitmap_cap major
  pub counted_ticks : c.tick_cap major < 2 ^ 16
  pub counted_words : c.bitmap_cap major < 2 ^ 16

-- What the source writes into a slot, and the tier of the slot; the arrays are lists of what is written.
-- A V3 pool has no id of its own besides the common one, and no pool but Ekubo's has a type configuration.
pub record TickPool (Word : Type 0) : Type 0 where
  pub tier : PoolTier
  pub common_pool_id : ℕ
  pub pool_id : Option PoolId
  pub is_active : Bool
  pub token0 : Address
  pub token1 : Address
  pub token0_decimals : ℕ
  pub token1_decimals : ℕ
  pub fee : ℕ
  pub tick_spacing : ℤ
  pub type_config : Option ℕ
  pub sqrt_price_x96 : ℕ
  pub tick : ℤ
  pub liquidity : ℕ
  pub ticks : List (ℤ × ℕ × ℤ)
  pub tick_count : ℕ
  pub tick_bitmap : List (Word × ℕ)
  pub bitmap_count : ℕ

-- The common id is the first 20 bytes of the 32.
abbrev pub common_id : PoolId → Address
common_id i = i / 2 ^ 96

-- What is written into a slot behind the tests.
abbrev pub written_slot :
    {Word : Type 0} (tier : PoolTier) (common_pool_id : ℕ) (pool_id type_config : Option ℕ)
    → PoolMetadata
    → (token0_decimals token1_decimals fee : ℕ) (tick_spacing : ℤ) (sqrt_price_x96 : ℕ) (tick : ℤ)
      (liquidity : ℕ)
    → List (ℤ × ℕ × ℤ)
    → List (Word × ℕ)
    → TickPool Word
written_slot tier common i config pool d0 d1 fee spacing sqrt tick liquidity ticks words = record {
  tier = tier;
  common_pool_id = common;
  pool_id = i;
  is_active = true;
  token0 = pool.token0;
  token1 = pool.token1;
  token0_decimals = d0;
  token1_decimals = d1;
  fee = fee;
  tick_spacing = spacing;
  type_config = config;
  sqrt_price_x96 = sqrt;
  tick = tick;
  liquidity = liquidity;
  ticks = ticks;
  tick_count = length ticks % 2 ^ 16;
  tick_bitmap = words;
  bitmap_count = length words % 2 ^ 16;
}

module _ (caps : Capacities) where
  abbrev pub overflows : {Word : Type 0} → PoolTier → List (ℤ × ℕ × ℤ) → List (Word × ℕ) → Bool
  overflows tier ticks words =
      ltb (caps.tick_cap tier) (length ticks) || ltb (caps.bitmap_cap tier) (length words)

  unfoldable pub fill_v3_pool :
      PoolTier → Address → PoolMetadata → TickBitmapSnapshot → Option (TickPool ℤ)
  fill_v3_pool tier a pool s =
      if overflows tier s.ticks s.tick_bitmaps
      then none
      else (pool.token0_decimals >>= λ d0. pool.token1_decimals >>= λ d1. pool.fee >>= λ fee.
          pool.tick_spacing >>= λ spacing. some (
            written_slot tier a none none pool d0 d1 fee spacing s.sqrt_price_x96 s.tick s.liquidity
              s.ticks s.tick_bitmaps))

  unfoldable pub fill_v4_pool :
      PoolTier → PoolId → PoolMetadata → TickBitmapSnapshot → Option (TickPool ℤ)
  fill_v4_pool tier i pool s =
      if overflows tier s.ticks s.tick_bitmaps
      then none
      else (pool.token0_decimals >>= λ d0. pool.token1_decimals >>= λ d1. pool.fee >>= λ fee.
          pool.tick_spacing >>= λ spacing. some (
            written_slot tier (common_id i) (some i) none pool d0 d1 fee spacing s.sqrt_price_x96
              s.tick s.liquidity s.ticks s.tick_bitmaps))

  unfoldable pub fill_ekubo_pool :
      PoolTier → PoolId → PoolMetadata → EkuboTickBitmapSnapshot → Option (TickPool ℕ)
  fill_ekubo_pool tier i pool s =
      if overflows tier s.ticks s.tick_bitmaps
      then none
      else (pool.token0_decimals >>= λ d0. pool.token1_decimals >>= λ d1. pool.ekubo_fee >>= λ fee.
          pool.tick_spacing >>= λ spacing. pool.ekubo_type_config >>= λ config. some (
            written_slot tier (common_id i) (some i) (some config) pool d0 d1 fee spacing
              s.sqrt_ratio s.tick s.liquidity s.ticks s.tick_bitmaps))

  unfoldable pub build_v3_pool : Address → PoolMetadata → TickBitmapSnapshot → Option (TickPool ℤ)
  build_v3_pool a pool s =
      fill_v3_pool (determine_tier (length s.ticks) (length s.tick_bitmaps)) a pool s

  unfoldable pub build_v4_pool : PoolId → PoolMetadata → TickBitmapSnapshot → Option (TickPool ℤ)
  build_v4_pool i pool s =
      fill_v4_pool (determine_tier (length s.ticks) (length s.tick_bitmaps)) i pool s

  unfoldable pub build_ekubo_pool :
      PoolId → PoolMetadata → EkuboTickBitmapSnapshot → Option (TickPool ℕ)
  build_ekubo_pool i pool s =
      fill_ekubo_pool (determine_tier (length s.ticks) (length s.tick_bitmaps)) i pool s

  pub determine_tier_room :
      (sized : Sized caps) (ticks words : ℕ)
      → ticks ≤ caps.tick_cap major
      → words ≤ caps.bitmap_cap major
      → let tier = determine_tier ticks words in
        (ticks ≤ filled_to tier (caps.tick_cap tier))
        × (words ≤ filled_to tier (caps.bitmap_cap tier))
  unfolding determine_tier
  determine_tier_room sized ticks words h k =
      let a = sized.low_ticks in
      let b = sized.active_ticks in
      let c = sized.popular_ticks in
      let d = sized.major_ticks in
      let e = sized.low_words in
      let f = sized.active_words in
      let g = sized.popular_words in let i = sized.major_words in ground arith
