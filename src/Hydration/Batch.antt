-- ===== src/Hydration/Batch.antt =====
-- `HydrationBatch` and `StartupHydrationCounts` of src/shadow_arena.rs, and `build_hydration_batch` of
-- src/main.rs.
use reth_exex_liquidity.Common.{
  ℕ, ◌+◌, ◌&&◌, Bool, true, false, Option, none, some, List, [], ◌∷◌, ◌++◌, fold,
}
use reth_exex_liquidity.Common.Words.{◌>>=◌}
use reth_exex_liquidity.Types.{
  Address, PoolMetadata, Protocol, uniswap_v2, uniswap_v3, uniswap_v4, ekubo, curve_stable,
  curve_two_crypto, curve_tricrypto, balancer_v2_weighted, fluid,
}
use reth_exex_liquidity.FluidConfig.{FluidPoolConfig}
use reth_exex_liquidity.Storage.State.{StateProvider}
use reth_exex_liquidity.Hydration.Tiers.{Capacities}
use reth_exex_liquidity.Hydration.Pools.{
  V2Hydration, UniswapV3Hydration, UniswapV4Hydration, EkuboHydration, FluidHydration,
  BalancerV2Hydration, Readers, v2_hydration_from_snapshot, v3_hydration_from_snapshot,
  v4_hydration_from_snapshot, ekubo_hydration_from_snapshot, fluid_hydration_from_snapshot,
  balancer_v2_hydration_from_snapshot,
}
use reth_exex_liquidity.Hydration.Curve.{
  CurveStableHydration, CurveCryptoHydration, curve_stable_hydration_from_snapshot,
  curve_twocrypto_hydration_from_snapshot, curve_tricrypto_hydration_from_snapshot,
}

pub record HydrationBatch : Type 0 where
  pub v2 : List V2Hydration
  pub v3 : List UniswapV3Hydration
  pub v4 : List UniswapV4Hydration
  pub ekubo : List EkuboHydration
  pub curve_stable : List CurveStableHydration
  pub curve_twocrypto : List CurveCryptoHydration
  pub curve_tricrypto : List CurveCryptoHydration
  pub fluid : List FluidHydration
  pub balancer_v2 : List BalancerV2Hydration

abbrev pub empty_batch : HydrationBatch
empty_batch = record {
  v2 = [];
  v3 = [];
  v4 = [];
  ekubo = [];
  curve_stable = [];
  curve_twocrypto = [];
  curve_tricrypto = [];
  fluid = [];
  balancer_v2 = [];
}

abbrev pub is_nil {ℓ} : {A : Type ℓ} → List A → Bool
is_nil [] = true
is_nil (x ∷ xs) = false

unfoldable pub is_empty : HydrationBatch → Bool
is_empty b =
    is_nil b.v2
    && is_nil b.v3
    && is_nil b.v4
    && is_nil b.ekubo
    && is_nil b.curve_stable
    && is_nil b.curve_twocrypto
    && is_nil b.curve_tricrypto
    && is_nil b.fluid
    && is_nil b.balancer_v2

pub record StartupHydrationCounts : Type 0 where
  pub v2 : ℕ
  pub v3 : ℕ
  pub v4 : ℕ
  pub ekubo : ℕ
  pub curve_stable : ℕ
  pub curve_twocrypto : ℕ
  pub curve_tricrypto : ℕ
  pub fluid : ℕ
  pub balancer_v2 : ℕ

unfoldable pub total : StartupHydrationCounts → ℕ
total c =
    c.v2 + c.v3 + c.v4 + c.ekubo + c.curve_stable + c.curve_twocrypto + c.curve_tricrypto + c.fluid
    + c.balancer_v2

-- A held state with its readers, the sizes of the arena's slots, the tracker's Fluid configurations and the
-- time of the block.
pub record Source : Type 0 where
  pub state : StateProvider
  pub readers : Readers
  pub capacities : Capacities
  pub max_tokens : ℕ
  pub fluid_configs : List (Address × FluidPoolConfig)
  pub block_timestamp : ℕ

module _ (s : Source) where
  -- The hydration of one pool, pushed onto its list.
  unfoldable pub push_hydration : Protocol → PoolMetadata → HydrationBatch → Option HydrationBatch
  push_hydration uniswap_v2 p b =
      v2_hydration_from_snapshot s.readers s.capacities s.max_tokens p >>= λ h.
      some (record b { v2 = b.v2 ++ h ∷ [] })
  push_hydration uniswap_v3 p b =
      v3_hydration_from_snapshot s.readers s.capacities s.max_tokens p >>= λ h.
      some (record b { v3 = b.v3 ++ h ∷ [] })
  push_hydration uniswap_v4 p b =
      v4_hydration_from_snapshot s.readers s.capacities s.max_tokens p >>= λ h.
      some (record b { v4 = b.v4 ++ h ∷ [] })
  push_hydration ekubo p b =
      ekubo_hydration_from_snapshot s.readers s.capacities s.max_tokens p >>= λ h.
      some (record b { ekubo = b.ekubo ++ h ∷ [] })
  push_hydration curve_stable p b = curve_stable_hydration_from_snapshot s.state p >>= λ h.
      some (record b { curve_stable = b.curve_stable ++ h ∷ [] })
  push_hydration curve_two_crypto p b = curve_twocrypto_hydration_from_snapshot s.state p >>= λ h.
      some (record b { curve_twocrypto = b.curve_twocrypto ++ h ∷ [] })
  push_hydration curve_tricrypto p b = curve_tricrypto_hydration_from_snapshot s.state p >>= λ h.
      some (record b { curve_tricrypto = b.curve_tricrypto ++ h ∷ [] })
  push_hydration fluid p b =
      fluid_hydration_from_snapshot s.readers s.capacities s.max_tokens s.fluid_configs
        s.block_timestamp p
      >>= λ h. some (record b { fluid = b.fluid ++ h ∷ [] })
  push_hydration balancer_v2_weighted p b =
      balancer_v2_hydration_from_snapshot s.readers s.capacities s.max_tokens p >>= λ h.
      some (record b { balancer_v2 = b.balancer_v2 ++ h ∷ [] })

  -- The body of the loop, over the batch and the pools that could not be hydrated.
  unfoldable pub hydrate_pool :
      HydrationBatch × List PoolMetadata → PoolMetadata → HydrationBatch × List PoolMetadata
  hydrate_pool (batch, unhydrated) p = elim (push_hydration p.protocol p batch) [
    | none ↦ (batch, unhydrated ++ p ∷ [])
    | some pushed ↦ (pushed, unhydrated)
  ]

  unfoldable pub build_hydration_batch : List PoolMetadata → HydrationBatch × List PoolMetadata
  build_hydration_batch pools = fold hydrate_pool (empty_batch, []) pools
