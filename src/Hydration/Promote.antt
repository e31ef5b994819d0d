-- ===== src/Hydration/Promote.antt =====
-- `promote_overflowed_pools` of src/main.rs: the pools that have outgrown their tiers move at the end of a
-- block. The writer's slots of the three families that have tiers are interfaces.
use reth_exex_liquidity.Common.{ℕ, Option, none, some, fold}
use reth_exex_liquidity.Common.Int.{ℤ}
use reth_exex_liquidity.Types.{
  Address, PoolId, address, pool_id, PoolMetadata, uniswap_v3, uniswap_v4, ekubo,
}
use reth_exex_liquidity.Tracker.{PoolTracker}
use reth_exex_liquidity.Tracker.Updates.{pool_metadata, pool_metadata_by_id}
use reth_exex_liquidity.Arena.Shadow.{ShadowArena, Pending, take_retier_pending}
use reth_exex_liquidity.Arena.Retier.{TierSlots, retier}
use reth_exex_liquidity.Hydration.Tiers.{TickPool}
use reth_exex_liquidity.Hydration.Pools.{
  v3_hydration_from_snapshot, v4_hydration_from_snapshot, ekubo_hydration_from_snapshot,
}
use reth_exex_liquidity.Hydration.Batch.{Source}

pub record Families (W : Type 0) : Type 0 where
  pub v3_slots : Address → TierSlots W (TickPool ℤ)
  pub v4_slots : PoolId → TierSlots W (TickPool ℤ)
  pub ekubo_slots : PoolId → TierSlots W (TickPool ℕ)

module _ {W : Type 0} (families : Families W) (source : Source) (t : PoolTracker) where
  -- The new slot of a pool, or the old arena where the state does not tell enough.
  unfoldable pub promote_v3 : Option PoolMetadata → W → W
  promote_v3 none a = a
  promote_v3 (some meta) a =
      elim (v3_hydration_from_snapshot source.readers source.capacities source.max_tokens meta) [
        | none ↦ a
        | some h ↦ (retier (families.v3_slots h.address) h.pool a).0
      ]

  unfoldable pub promote_v4 : Option PoolMetadata → W → W
  promote_v4 none a = a
  promote_v4 (some meta) a =
      elim (v4_hydration_from_snapshot source.readers source.capacities source.max_tokens meta) [
        | none ↦ a
        | some h ↦ (retier (families.v4_slots h.pool_id) h.pool a).0
      ]

  unfoldable pub promote_ekubo : Option PoolMetadata → W → W
  promote_ekubo none a = a
  promote_ekubo (some meta) a =
      elim (ekubo_hydration_from_snapshot source.readers source.capacities source.max_tokens meta) [
        | none ↦ a
        | some h ↦ (retier (families.ekubo_slots h.pool_id) h.pool a).0
      ]

  -- The body of the loop.
  unfoldable pub promote : W → Pending → W
  unfolding promote_v3 promote_v4 promote_ekubo
  promote a (uniswap_v3, address addr) = promote_v3 (pool_metadata t addr) a
  promote a (uniswap_v4, pool_id i) = promote_v4 (pool_metadata_by_id t i) a
  promote a (ekubo, pool_id i) = promote_ekubo (pool_metadata_by_id t i) a
  promote a _ = a

  unfoldable pub promote_overflowed_pools : ShadowArena W → ShadowArena W
  unfolding promote
  promote_overflowed_pools s =
      let (drained, pending) = take_retier_pending s in
      record drained { arena = fold promote drained.arena pending }
