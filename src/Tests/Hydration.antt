-- ===== src/Tests/Hydration.antt =====
-- The theorems on hydration at a V3 pool with one initialised tick, at a tracker with three new pools, and at
-- an arena that keeps its pools in maps.
use reth_exex_liquidity.Common.{
  ◌^◌, ◌≤◌, ◌+◌, ◌*◌, ◌≡◌, ◌==◌, if◌then◌else◌, refl, true, false, arith, none, some, List, [], ◌∷◌,
  length, fold,
}
use reth_exex_liquidity.Common.Int.{ℤ, pos, negsuc}
use reth_exex_liquidity.Types.{PoolIdentifier, PoolMetadata, address, pool_id, uniswap_v3}
use reth_exex_liquidity.Arena.Writer.{low, active, popular, major}
use reth_exex_liquidity.Storage.State.{StateProvider, read_storage_slot}
use reth_exex_liquidity.Storage.Balancer.{from_pool_id, decode_two_token_shared}
use reth_exex_liquidity.Storage.Words.{signed_i32_to_u256}
use reth_exex_liquidity.Storage.Bitmap.{v3_slots_for_factory, v3_bitmap_slot, v3_tick_slot}
use reth_exex_liquidity.Storage.Positions.{Among}
use reth_exex_liquidity.Hydration.Tiers.{Capacities, Sized, TickPool}
use reth_exex_liquidity.Hydration.Pools.{UniswapV3Hydration, v3_hydration_from_snapshot, v3_factory}
use reth_exex_liquidity.Hydration.Node.{Layouts, readers_at}
use reth_exex_liquidity.Hydration.Ticks.{v3_hydration-finds}
use reth_exex_liquidity.Tracker.{PoolTracker, WhitelistUpdate, add, remove, new}
use reth_exex_liquidity.Tracker.Updates.{queue_update, take_newly_added}
use reth_exex_liquidity.Arena.Writer.{
  ArenaWriter, WriterError, Result, ok, err, pool_not_found, other_error,
}
use reth_exex_liquidity.Arena.Shadow.{open_arena}
use reth_exex_liquidity.Storage.Vault.{
  read_specialized, read_two_token, two_token_balances, token_a, token_b, two_token_struct_base,
  two_token_shared_cash_slot, read_balancer_v2_balances,
}
use reth_exex_liquidity.Hydration.Batch.{Source, build_hydration_batch}
use reth_exex_liquidity.Hydration.Accounted.{count_id, count_pool}
use reth_exex_liquidity.Hydration.Held.{SlotLaws, refused_batch}
use reth_exex_liquidity.Hydration.Adding.{ArenaAdder, startup_batch}
use reth_exex_liquidity.Hydration.Startup.{startup_batch-build_hydration_batch}
use reth_exex_liquidity.Hydration.Live.{still_tracked, live_add, live_batch, live_add-keeps}
use reth_exex_liquidity.Hydration.Node.{source_at}
use reth_exex_liquidity.Tests.Ticks.{sum_slot, one_tick, one_tick_snapshot, one_tick_read}
use reth_exex_liquidity.Tests.Samples.{sample_pool, fluid_dex, pair_pool}

abbrev sample_sizes : Capacities
sample_sizes = record {
  tick_cap = λ t. elim t [ low ↦ 50 | active ↦ 200 | popular ↦ 500 | major ↦ 2_000 ];
  bitmap_cap = λ t. elim t [ low ↦ 10 | active ↦ 25 | popular ↦ 50 | major ↦ 64 ];
}

abbrev sample_layouts : Layouts
sample_layouts = record {
  keccak_slot = sum_slot;
  keccak_pair = λ x y. x + 7 * y;
  ekubo_tick_to_word_and_index = λ t s. (0, 0);
  ekubo_bitmap_offset = 0;
  capacities = sample_sizes;
  max_tokens = 8;
}

sample_sizes-Sized : Sized sample_sizes
sample_sizes-Sized = record {
  low_ticks = omega arith;
  active_ticks = omega arith;
  popular_ticks = omega arith;
  major_ticks = omega arith;
  low_words = omega arith;
  active_words = omega arith;
  popular_words = omega arith;
  major_words = omega arith;
  counted_ticks = omega arith;
  counted_words = omega arith;
}

abbrev one_tick_pool : PoolMetadata
one_tick_pool = record (sample_pool (address 5) uniswap_v3) {
  factory = 0;
  tick_spacing = some (pos 200_000);
  fee = some 500;
  token0_decimals = some 18;
  token1_decimals = some 6;
}

-- Its slot before it has outgrown it.
abbrev pub one_tick_held : TickPool ℤ
one_tick_held = record {
  tier = low;
  common_pool_id = 5;
  pool_id = none;
  is_active = true;
  token0 = 11;
  token1 = 12;
  token0_decimals = 18;
  token1_decimals = 6;
  fee = 500;
  tick_spacing = pos 200_000;
  type_config = none;
  sqrt_price_x96 = 2 ^ 96;
  tick = pos 0;
  liquidity = 900;
  ticks = [];
  tick_count = 0;
  tick_bitmap = [];
  bitmap_count = 0;
}

v3_hydration-finds_example :
    (h : UniswapV3Hydration) × (v3_hydration_from_snapshot
        (readers_at sample_layouts one_tick)
        sample_sizes
        8
        one_tick_pool
      ≡ some h)
    × (h.address ≡ 5)
    × Among (negsuc 199_999, 70, pos 0) h.pool.ticks
    × (h.pool.tick_count ≡ length h.pool.ticks)
    × (length h.pool.ticks ≤ sample_sizes.tick_cap h.pool.tier)
unfolding v3_slots_for_factory v3_bitmap_slot v3_tick_slot read_storage_slot signed_i32_to_u256
    v3_factory
v3_hydration-finds_example =
    v3_hydration-finds sample_layouts sample_sizes-Sized one_tick 5 one_tick_pool 199_999 refl refl
      (18, 6, 500, pos 200_000, refl, refl, refl, refl) {x = one_tick_snapshot} one_tick_read
      (omega arith) (omega arith) 255 (negsuc 0) (omega arith) refl refl (λ e. absurd (omega arith))

-- An arena as the list of its slots, which refuses V2 pools.
abbrev slot_writer : ArenaWriter (List PoolIdentifier)
slot_writer = record {
  get_v2_pool = λ a p. false;
  get_balancer_v2_pool = λ a i. none;
  write = λ w a. (a, ok true);
  remove_pool = λ p a. (a, err pool_not_found);
  signal_topology_change = λ a. a;
  signal_update_complete = λ n applied label seq a. a;
}

abbrev add_slot :
    PoolIdentifier → List PoolIdentifier → List PoolIdentifier × Result WriterError Unit
add_slot i a = (i ∷ a, ok tt)

abbrev slot_adder : ArenaAdder (List PoolIdentifier)
slot_adder = record {
  add_v2_pool = λ h a. (a, err other_error);
  add_v3_pool = λ h a. add_slot (address h.address) a;
  add_v4_pool = λ h a. add_slot (pool_id h.pool_id) a;
  add_ekubo_pool = λ h a. add_slot (pool_id h.pool_id) a;
  add_curve_stable_pool = λ h a. add_slot (address h.address) a;
  add_curve_twocrypto_pool = λ h a. add_slot (address h.address) a;
  add_curve_tricrypto_pool = λ h a. add_slot (address h.address) a;
  add_fluid_pool = λ h a. add_slot (address h.address) a;
  add_balancer_v2_pool = λ h a. add_slot (pool_id h.pool_id) a;
}

slot_laws : SlotLaws slot_writer slot_adder count_id
slot_laws = record {
  signals = λ i a. refl;
  writes = λ i w a. refl;
  v2 = λ i h a. omega arith;
  v3 = λ i h a. omega arith;
  v4 = λ i h a. omega arith;
  ekubo = λ i h a. omega arith;
  curve_stable = λ i h a. omega arith;
  curve_twocrypto = λ i h a. omega arith;
  curve_tricrypto = λ i h a. omega arith;
  fluid = λ i h a. omega arith;
  balancer_v2 = λ i h a. omega arith;
}

abbrev pub sample_source : PoolTracker → Source
sample_source = source_at sample_layouts one_tick 1_000

-- A V3 pool that can be hydrated, a Fluid pool without a configuration, and a pool that is removed meanwhile.
abbrev pub new_pools : PoolTracker
new_pools = queue_update new (add (one_tick_pool ∷ fluid_dex ∷ pair_pool ∷ []))

abbrev removal : List WhitelistUpdate
removal = remove (address 1001 ∷ []) ∷ []

live_add-keeps_example :
    let drained = (take_newly_added new_pools).1 in
    let t1 = fold queue_update drained removal in
    let x =
      live_add slot_writer slot_adder (some sample_source) removal [] new_pools (open_arena []) in
    let y = live_add slot_writer slot_adder none removal [] new_pools (open_arena []) in
    ((i : PoolIdentifier)
      → count_id i x.1.arena
          + refused_batch slot_writer slot_adder i
              (live_batch slot_writer slot_adder removal sample_source new_pools)
              (open_arena []).arena
          + count_pool i x.0.newly_added
        ≡ count_id i (open_arena []).arena
          + count_pool i (fold queue_update t1 []).newly_added
          + count_pool i (still_tracked t1 new_pools.newly_added))
    × (y.1 ≡ open_arena [])
    × ((i : PoolIdentifier)
        → count_pool i y.0.newly_added
          ≡ count_pool i (fold queue_update t1 []).newly_added + count_pool i new_pools.newly_added)
live_add-keeps_example =
    live_add-keeps slot_writer slot_adder count_id slot_laws removal [] (open_arena [])
      sample_source new_pools

startup_batch-build_hydration_batch_example :
    startup_batch (sample_source new_pools) (one_tick_pool ∷ fluid_dex ∷ pair_pool ∷ [])
    ≡ (build_hydration_batch
        (sample_source new_pools)
        (one_tick_pool ∷ fluid_dex ∷ pair_pool ∷ [])).0
startup_batch-build_hydration_batch_example =
    startup_batch-build_hydration_batch (sample_source new_pools)
      (one_tick_pool ∷ fluid_dex ∷ pair_pool ∷ [])

-- A two-token pool of the tokens 11 and 12, with 5 of the one and 7 of the other as cash and as managed.
abbrev two_token_words : StateProvider
two_token_words a slot =
    if slot == sum_slot (2 ^ 81) 9
    then some (some 11)
    else if slot == sum_slot (2 ^ 81) 9 + 1
    then some (some 12)
    else some (some (5 + 7 * 2 ^ 112))

own_balances :
    read_balancer_v2_balances sum_slot (λ x y. x + 7 * y) two_token_words (2 ^ 81) (12 ∷ 11 ∷ [])
    ≡ some (14 ∷ 10 ∷ [])
unfolding read_balancer_v2_balances read_specialized read_two_token two_token_balances token_a
    token_b two_token_struct_base two_token_shared_cash_slot decode_two_token_shared from_pool_id
    read_storage_slot
own_balances = refl
