-- ===== src/Hydration/Ticks.antt =====
-- From the bitmap in storage to the arrays of a slot: no tick of a V3 pool is lost by its hydration.
use reth_exex_liquidity.Common.{
  ℕ, suc, ◌/◌, ◌%◌, ◌^◌, ◌<◌, ◌≤◌, ◌≡◌, ◌≢◌, refl, ◌∙◌, ap, arith, some, true, length, subst, sym,
}
use reth_exex_liquidity.Common.Int.{ℤ, pos}
use reth_exex_liquidity.Types.{Address, address, as_address, PoolMetadata}
use reth_exex_liquidity.Arena.Writer.{major}
use reth_exex_liquidity.Storage.State.{StateProvider, read_storage_slot}
use reth_exex_liquidity.Storage.Bitmap.{
  TickBitmapSnapshot, tick_in_range, compressed_at, times, read_v3_full_state, v3_bitmap_slot,
  v3_tick_slot, v3_slots_for_factory,
}
use reth_exex_liquidity.Storage.Positions.{Among}
use reth_exex_liquidity.Storage.Initialised.{decoded, read_v3_full_state-finds}
use reth_exex_liquidity.Hydration.Tiers.{Sized}
use reth_exex_liquidity.Hydration.Placed.{Described, Holds, build_v3_pool-Built, filled_to-le}
use reth_exex_liquidity.Hydration.Pools.{
  UniswapV3Hydration, v3_factory, v3_hydration_from_snapshot, pool_address,
}
use reth_exex_liquidity.Hydration.Node.{Layouts, readers_at}

-- The tick at a position, and the two words of a pool's storage that are about it.
abbrev pub tick_of : (s k : ℕ) (w : ℤ) → ℤ
tick_of s k w = times (compressed_at w k) (suc s)

module _ (l : Layouts) (state : StateProvider) (a : Address) (pool : PoolMetadata) where
  abbrev pub stored_bitmap : ℤ → ℕ
  stored_bitmap w =
      read_storage_slot state a
        (v3_bitmap_slot l.keccak_slot w (v3_slots_for_factory (v3_factory pool)).tick_bitmap)

  abbrev pub stored_tick : ℤ → ℕ
  stored_tick t =
      read_storage_slot state a
        (v3_tick_slot l.keccak_slot t (v3_slots_for_factory (v3_factory pool)).ticks)

module _ (l : Layouts) (sized : Sized l.capacities) (state : StateProvider) (a : Address)
    (pool : PoolMetadata) (s : ℕ) (named : pool.pool_id ≡ address a)
    (spaced : pool.tick_spacing ≡ some (pos (suc s))) (described : Described pool pool.fee)
    {x : TickBitmapSnapshot}
    (reads : read_v3_full_state l.keccak_slot state a (pos (suc s)) (v3_factory pool) ≡ some x)
    (few_ticks : length x.ticks ≤ l.capacities.tick_cap major)
    (few_words : length x.tick_bitmaps ≤ l.capacities.bitmap_cap major) where
  v3_hydration-Holds :
      (h : UniswapV3Hydration) × (v3_hydration_from_snapshot
          (readers_at l state)
          l.capacities
          l.max_tokens
          pool
        ≡ some h)
      × (h.address ≡ a)
      × Holds l.capacities x.ticks x.tick_bitmaps h.pool
  unfolding v3_hydration_from_snapshot pool_address v3_factory readers_at as_address
  v3_hydration-Holds =
      let (p, made, holds) =
        build_v3_pool-Built l.capacities sized pool a x described few_ticks few_words in
      let (d0, d1, f, spacing, e0, e1, ef, es) = described in
      (record { address = a; pool = p }, simp (named, spaced, e0, e1, ef, reads, made), refl, holds)

  -- A V3 pool with complete metadata whose state is read, and which the largest tier has room for, is
  -- hydrated; no tick is lost on the way from the bitmap in storage to the slot. Let a bit be set in the
  -- pool's bitmap, in any word; then the tick that it stands for, which is the word's and the bit's position
  -- times the spacing, is in the slot with the gross and net liquidity of its storage word, where the tick is
  -- within Uniswap's limits and that word is not zero. The slot's count is the number of its ticks, and its
  -- tier has room for them. The arena's tiers have the sizes that the source documents.
  pub v3_hydration-finds :
      (k : ℕ) (w : ℤ)
      → k < 256
      → tick_in_range (tick_of s k w) ≡ true
      → stored_bitmap l state a pool w / 2 ^ k % 2 ≡ 1
      → stored_tick l state a pool (tick_of s k w) ≢ 0
      → (h : UniswapV3Hydration) × (v3_hydration_from_snapshot
            (readers_at l state)
            l.capacities
            l.max_tokens
            pool
          ≡ some h)
        × (h.address ≡ a)
        × Among (decoded (tick_of s k w) (stored_tick l state a pool (tick_of s k w))) h.pool.ticks
        × (h.pool.tick_count ≡ length h.pool.ticks)
        × (length h.pool.ticks ≤ l.capacities.tick_cap h.pool.tier)
  v3_hydration-finds k w below fits set ne =
      let (h, made, at, (same, words, counted, _, room, _)) = v3_hydration-Holds in
      let found =
        read_v3_full_state-finds l.keccak_slot state a s k w (v3_factory pool) reads below fits set
          ne in
      (
        h,
        made,
        at,
        subst (Among (decoded (tick_of s k w) (stored_tick l state a pool (tick_of s k w))))
            (sym same) found,
        counted ∙ ap length (sym same),
        omega (
          arith,
          room,
          ap length same,
          filled_to-le h.pool.tier (l.capacities.tick_cap h.pool.tier),
        ),
      )
