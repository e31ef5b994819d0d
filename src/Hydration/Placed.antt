-- ===== src/Hydration/Placed.antt =====
-- Where a pool that src/main.rs builds stands in the arena, and what is in its slot.
use reth_exex_liquidity.Common.{ℕ, ◌≤◌, ◌≡◌, refl, arith, false, Option, none, some, List, length}
use reth_exex_liquidity.Common.Int.{ℤ}
use reth_exex_liquidity.Types.{Address, PoolId, PoolMetadata}
use reth_exex_liquidity.Arena.Writer.{PoolTier, low, active, popular, major}
use reth_exex_liquidity.Storage.Bitmap.{TickBitmapSnapshot}
use reth_exex_liquidity.Storage.Ekubo.{EkuboTickBitmapSnapshot}
use reth_exex_liquidity.Hydration.Tiers.{
  Capacities, Sized, TickPool, filled_to, determine_tier, determine_tier_room, overflows,
  written_slot, common_id, build_v3_pool, build_v4_pool, build_ekubo_pool, fill_v3_pool,
  fill_v4_pool, fill_ekubo_pool,
}

-- What the metadata of a pool must have.
abbrev pub Described : PoolMetadata → Option ℕ → Type 0
Described pool fee =
    (d0 d1 f : ℕ) × (s : ℤ) × (pool.token0_decimals ≡ some d0)
    × (pool.token1_decimals ≡ some d1)
    × (fee ≡ some f)
    × (pool.tick_spacing ≡ some s)

pub filled_to-le : (t : PoolTier) (n : ℕ) → filled_to t n ≤ n
filled_to-le low n = omega arith
filled_to-le active n = omega arith
filled_to-le popular n = omega arith
filled_to-le major n = omega arith

module _ (caps : Capacities) where
  -- All of a snapshot's ticks and words are in a pool's arrays and counted, with the room that its
  -- tier keeps for growth: a quarter of the slot in the two smaller tiers.
  abbrev pub Holds : {Word : Type 0} → List (ℤ × ℕ × ℤ) → List (Word × ℕ) → TickPool Word → Type 0
  Holds ticks words p =
      (p.ticks ≡ ticks)
      × (p.tick_bitmap ≡ words)
      × (p.tick_count ≡ length ticks)
      × (p.bitmap_count ≡ length words)
      × (length ticks ≤ filled_to p.tier (caps.tick_cap p.tier))
      × (length words ≤ filled_to p.tier (caps.bitmap_cap p.tier))

  -- What a pool that is built holds.
  abbrev pub Built :
      {Word : Type 0} → List (ℤ × ℕ × ℤ) → List (Word × ℕ) → Option (TickPool Word) → Type 0
  Built {Word} ticks words o = (p : TickPool Word) × (o ≡ some p) × Holds ticks words p

  fits :
      {Word : Type 0} (t : PoolTier) (ticks : List (ℤ × ℕ × ℤ)) (words : List (Word × ℕ))
      → length ticks ≤ filled_to t (caps.tick_cap t)
      → length words ≤ filled_to t (caps.bitmap_cap t)
      → overflows caps t ticks words ≡ false
  fits t ticks words h k =
      ground (arith, filled_to-le t (caps.tick_cap t), filled_to-le t (caps.bitmap_cap t))

  module _ (sized : Sized caps) {Word : Type 0} (ticks : List (ℤ × ℕ × ℤ)) (words : List (Word × ℕ))
      (few_ticks : length ticks ≤ caps.tick_cap major)
      (few_words : length words ≤ caps.bitmap_cap major) where
    abbrev tier : PoolTier
    tier = determine_tier (length ticks) (length words)

    no_overflow : overflows caps tier ticks words ≡ false
    no_overflow =
        let (room, rest) = determine_tier_room caps sized _ _ few_ticks few_words in
        fits tier ticks words room rest

    written_slot-Built :
        (common : ℕ) (i config : Option ℕ) (pool : PoolMetadata) (d0 d1 fee : ℕ) (spacing : ℤ)
        (sqrt : ℕ) (tick : ℤ) (liquidity : ℕ) {o : Option (TickPool Word)}
        → o
          ≡ some (
              written_slot tier common i config pool d0 d1 fee spacing sqrt tick liquidity ticks
                words)
        → Built ticks words o
    written_slot-Built common i config pool d0 d1 fee spacing sqrt tick liquidity made =
        let (room, rest) = determine_tier_room caps sized _ _ few_ticks few_words in
        let a = sized.counted_ticks in
        let b = sized.counted_words in (_, made, (refl, refl, omega arith, omega arith, room, rest))

  module _ (sized : Sized caps) (pool : PoolMetadata) where
    pub build_v3_pool-Built :
        (a : Address) (s : TickBitmapSnapshot)
        → Described pool pool.fee
        → length s.ticks ≤ caps.tick_cap major
        → length s.tick_bitmaps ≤ caps.bitmap_cap major
        → Built s.ticks s.tick_bitmaps (build_v3_pool caps a pool s)
    unfolding build_v3_pool fill_v3_pool
    build_v3_pool-Built a s (d0, d1, f, spacing, e0, e1, ef, es) h k =
        written_slot-Built sized s.ticks s.tick_bitmaps h k a none none pool d0 d1 f spacing
          s.sqrt_price_x96 s.tick s.liquidity
          (rw (no_overflow sized s.ticks s.tick_bitmaps h k, e0, e1, ef, es))

    pub build_v4_pool-Built :
        (i : PoolId) (s : TickBitmapSnapshot)
        → Described pool pool.fee
        → length s.ticks ≤ caps.tick_cap major
        → length s.tick_bitmaps ≤ caps.bitmap_cap major
        → Built s.ticks s.tick_bitmaps (build_v4_pool caps i pool s)
    unfolding build_v4_pool fill_v4_pool
    build_v4_pool-Built i s (d0, d1, f, spacing, e0, e1, ef, es) h k =
        written_slot-Built sized s.ticks s.tick_bitmaps h k (common_id i) (some i) none pool d0 d1 f
          spacing s.sqrt_price_x96 s.tick s.liquidity
          (rw (no_overflow sized s.ticks s.tick_bitmaps h k, e0, e1, ef, es))

    pub build_ekubo_pool-Built :
        (i : PoolId) (s : EkuboTickBitmapSnapshot) {config : ℕ}
        → Described pool pool.ekubo_fee
        → pool.ekubo_type_config ≡ some config
        → length s.ticks ≤ caps.tick_cap major
        → length s.tick_bitmaps ≤ caps.bitmap_cap major
        → Built s.ticks s.tick_bitmaps (build_ekubo_pool caps i pool s)
    unfolding build_ekubo_pool fill_ekubo_pool
    build_ekubo_pool-Built i s {config} (d0, d1, f, spacing, e0, e1, ef, es) ec h k =
        written_slot-Built sized s.ticks s.tick_bitmaps h k (common_id i) (some i) (some config)
          pool d0 d1 f spacing s.sqrt_ratio s.tick s.liquidity
          (rw (no_overflow sized s.ticks s.tick_bitmaps h k, e0, e1, ef, es, ec))

    -- With arrays of the sizes that the source documents, and metadata with decimals, fee and tick spacing:
    -- what the largest tier has room for is built, as a V3 pool and as a V4 pool. The pool is in a tier
    -- whose arrays hold every tick and every bitmap word of the snapshot, both counted in full, and where
    -- it is in one of the two smaller tiers a quarter of its arrays is left for growth.
    pub build_pools-hold :
        (a : Address) (i : PoolId) (s : TickBitmapSnapshot)
        → Described pool pool.fee
        → length s.ticks ≤ caps.tick_cap major
        → length s.tick_bitmaps ≤ caps.bitmap_cap major
        → Built s.ticks s.tick_bitmaps (build_v3_pool caps a pool s)
          × Built s.ticks s.tick_bitmaps (build_v4_pool caps i pool s)
    build_pools-hold a i s described h k =
        (build_v3_pool-Built a s described h k, build_v4_pool-Built i s described h k)
