-- ===== src/Hydration/Adding.antt =====
-- `add_pools`, `hydrate_startup` and `hydrate_added` of src/shadow_arena.rs, and
-- `hydrate_shadow_from_snapshot` of src/main.rs behind its reads of the node.
use reth_exex_liquidity.Common.{ℕ, ◌+◌, if◌then◌else◌, Option, none, some, List, [], ◌∷◌}
use reth_exex_liquidity.Types.{
  PoolMetadata, Protocol, uniswap_v2, uniswap_v3, uniswap_v4, ekubo, curve_stable, curve_two_crypto,
  curve_tricrypto, balancer_v2_weighted, fluid, same_protocol,
}
use reth_exex_liquidity.Wire.{FluidState}
use reth_exex_liquidity.Arena.Writer.{
  ArenaWriter, WriterError, Result, ok, err, update_fluid_reserves,
}
use reth_exex_liquidity.Arena.Shadow.{ShadowArena}
use reth_exex_liquidity.Hydration.Pools.{
  V2Hydration, UniswapV3Hydration, UniswapV4Hydration, EkuboHydration, FluidHydration,
  BalancerV2Hydration, v2_hydration_from_snapshot, v3_hydration_from_snapshot,
  v4_hydration_from_snapshot, ekubo_hydration_from_snapshot, fluid_hydration_from_snapshot,
  balancer_v2_hydration_from_snapshot,
}
use reth_exex_liquidity.Hydration.Curve.{
  CurveStableHydration, CurveCryptoHydration, curve_stable_hydration_from_snapshot,
  curve_twocrypto_hydration_from_snapshot, curve_tricrypto_hydration_from_snapshot,
}
use reth_exex_liquidity.Hydration.Batch.{
  HydrationBatch, StartupHydrationCounts, Source, is_empty, empty_batch,
}

-- The calls of the writer's crate that add a slot, each with what a hydration holds.
pub record ArenaAdder (W : Type 0) : Type 0 where
  pub add_v2_pool : V2Hydration → W → W × Result WriterError Unit
  pub add_v3_pool : UniswapV3Hydration → W → W × Result WriterError Unit
  pub add_v4_pool : UniswapV4Hydration → W → W × Result WriterError Unit
  pub add_ekubo_pool : EkuboHydration → W → W × Result WriterError Unit
  pub add_curve_stable_pool : CurveStableHydration → W → W × Result WriterError Unit
  pub add_curve_twocrypto_pool : CurveCryptoHydration → W → W × Result WriterError Unit
  pub add_curve_tricrypto_pool : CurveCryptoHydration → W → W × Result WriterError Unit
  pub add_fluid_pool : FluidHydration → W → W × Result WriterError Unit
  pub add_balancer_v2_pool : BalancerV2Hydration → W → W × Result WriterError Unit

-- One of the nine loops: the accepted pools are counted.
unfoldable pub add_each :
    {W H : Type 0} → (H → W → W × Result WriterError Unit) → List H → W → (count : ℕ) → W × ℕ
add_each add [] a n = (a, n)
add_each add (h ∷ hs) a n =
    let (b, answer) = add h a in add_each add hs b (elim answer [ ok done ↦ n + 1 | err e ↦ n ])

-- One of the nine passes over the startup snapshot.
unfoldable pub pass_over :
    {H : Type 0} → Protocol → (PoolMetadata → Option H) → List PoolMetadata → List H
pass_over protocol f [] = []
pass_over protocol f (p ∷ ps) =
    let rest = pass_over protocol f ps in
    if same_protocol p.protocol protocol
    then elim (f p) [ none ↦ rest | some h ↦ h ∷ rest ]
    else rest

-- The lists of hydrations that `hydrate_shadow_from_snapshot` makes of the snapshot's pools.
unfoldable pub startup_batch : Source → List PoolMetadata → HydrationBatch
unfolding pass_over
startup_batch s pools = record {
  v2 = pass_over uniswap_v2 (v2_hydration_from_snapshot s.readers s.capacities s.max_tokens) pools;
  v3 = pass_over uniswap_v3 (v3_hydration_from_snapshot s.readers s.capacities s.max_tokens) pools;
  v4 = pass_over uniswap_v4 (v4_hydration_from_snapshot s.readers s.capacities s.max_tokens) pools;
  ekubo = pass_over ekubo (ekubo_hydration_from_snapshot s.readers s.capacities s.max_tokens) pools;
  curve_stable = pass_over curve_stable (curve_stable_hydration_from_snapshot s.state) pools;
  curve_twocrypto =
      pass_over curve_two_crypto (curve_twocrypto_hydration_from_snapshot s.state) pools;
  curve_tricrypto =
      pass_over curve_tricrypto (curve_tricrypto_hydration_from_snapshot s.state) pools;
  fluid =
      pass_over fluid
        (fluid_hydration_from_snapshot s.readers s.capacities s.max_tokens s.fluid_configs
          s.block_timestamp)
        pools;
  balancer_v2 =
      pass_over balancer_v2_weighted
        (balancer_v2_hydration_from_snapshot s.readers s.capacities s.max_tokens) pools;
}

abbrev pub fluid_state_of : FluidHydration → FluidState
fluid_state_of h = record {
  col_token0_real = h.col_token0_real;
  col_token1_real = h.col_token1_real;
  col_token0_imaginary = h.col_token0_imaginary;
  col_token1_imaginary = h.col_token1_imaginary;
  debt_token0_real = h.debt_token0_real;
  debt_token1_real = h.debt_token1_real;
  debt_token0_imaginary = h.debt_token0_imaginary;
  debt_token1_imaginary = h.debt_token1_imaginary;
  center_price = h.center_price;
  fee = h.fee;
}

abbrev pub default_counts : StartupHydrationCounts
default_counts = record {
  v2 = 0;
  v3 = 0;
  v4 = 0;
  ekubo = 0;
  curve_stable = 0;
  curve_twocrypto = 0;
  curve_tricrypto = 0;
  fluid = 0;
  balancer_v2 = 0;
}

module _ {W : Type 0} (writer_of : ArenaWriter W) (adder : ArenaAdder W) where
  -- A Fluid pool is added with its metadata, and its reserves are written then.
  unfoldable pub add_fluid : FluidHydration → W → W × Result WriterError Unit
  add_fluid h a =
      let (b, answer) = adder.add_fluid_pool h a in
      elim answer [
        | err e ↦ (b, err e)
        | ok done ↦
            let (c, written) =
              writer_of.write (update_fluid_reserves h.address (fluid_state_of h)) b in
            (c, elim written [ err e ↦ err e | ok overflowed ↦ ok tt ])
      ]

  unfoldable pub add_pools : HydrationBatch → W → W × StartupHydrationCounts
  unfolding add_each add_fluid
  add_pools batch a =
      let (a1, v2) = add_each adder.add_v2_pool batch.v2 a 0 in
      let (a2, v3) = add_each adder.add_v3_pool batch.v3 a1 0 in
      let (a3, v4) = add_each adder.add_v4_pool batch.v4 a2 0 in
      let (a4, ekubo_count) = add_each adder.add_ekubo_pool batch.ekubo a3 0 in
      let (a5, stable) = add_each adder.add_curve_stable_pool batch.curve_stable a4 0 in
      let (a6, twocrypto) = add_each adder.add_curve_twocrypto_pool batch.curve_twocrypto a5 0 in
      let (a7, tricrypto) = add_each adder.add_curve_tricrypto_pool batch.curve_tricrypto a6 0 in
      let (a8, fluid_count) = add_each add_fluid batch.fluid a7 0 in
      let (a9, balancer) = add_each adder.add_balancer_v2_pool batch.balancer_v2 a8 0 in
      (
        a9,
        record {
          v2 = v2;
          v3 = v3;
          v4 = v4;
          ekubo = ekubo_count;
          curve_stable = stable;
          curve_twocrypto = twocrypto;
          curve_tricrypto = tricrypto;
          fluid = fluid_count;
          balancer_v2 = balancer;
        },
      )

  -- The Balancer pools of the batch are left to `hydrate_added`.
  unfoldable pub hydrate_startup :
      (anchor_block : ℕ) → HydrationBatch → ShadowArena W → ShadowArena W × StartupHydrationCounts
  unfolding add_pools
  hydrate_startup anchor batch s =
      let (a, counts) = add_pools (record batch { balancer_v2 = [] }) s.arena in
      (record s { scraped_at_block = anchor; arena = writer_of.signal_topology_change a }, counts)

  unfoldable pub hydrate_added :
      HydrationBatch → ShadowArena W → ShadowArena W × StartupHydrationCounts
  unfolding add_pools is_empty
  hydrate_added batch s =
      if is_empty batch
      then (s, default_counts)
      else (let (a, counts) = add_pools batch s.arena in
          (record s { arena = writer_of.signal_topology_change a }, counts))

  -- The source reads its state at the anchor.
  unfoldable pub hydrate_shadow_from_snapshot :
      (anchor : ℕ) (source : Source)
      → List PoolMetadata
      → ShadowArena W
      → ShadowArena W × StartupHydrationCounts
  unfolding startup_batch hydrate_startup hydrate_added
  hydrate_shadow_from_snapshot anchor source pools s =
      let batch = startup_batch source pools in
      let (s1, counts) = hydrate_startup anchor batch s in
      let (s2, added) = hydrate_added (record empty_batch { balancer_v2 = batch.balancer_v2 }) s1 in
      (s2, record counts { balancer_v2 = added.balancer_v2 })
