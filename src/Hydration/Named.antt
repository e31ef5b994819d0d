-- ===== src/Hydration/Named.antt =====
-- A hydration of src/main.rs is of the pool that it is made for.
use reth_exex_liquidity.Common.{ℕ, ◌≡◌, arith, some}
use reth_exex_liquidity.Common.Words.{bind_some}
use reth_exex_liquidity.Types.{
  PoolIdentifier, address, pool_id, as_address, as_pool_id, PoolMetadata,
}
use reth_exex_liquidity.Hydration.Pools.{
  V2Hydration, UniswapV3Hydration, UniswapV4Hydration, EkuboHydration, FluidHydration,
  BalancerV2Hydration, v2_hydration_from_snapshot, v3_hydration_from_snapshot,
  v4_hydration_from_snapshot, ekubo_hydration_from_snapshot, fluid_hydration_from_snapshot,
  balancer_v2_hydration_from_snapshot, pool_address, pool_id_32,
}
use reth_exex_liquidity.Hydration.Curve.{
  CurveStableHydration, CurveCryptoHydration, curve_stable_hydration_from_snapshot,
  curve_twocrypto_hydration_from_snapshot, curve_tricrypto_hydration_from_snapshot,
}
use reth_exex_liquidity.Hydration.Batch.{Source}

as_address-eq_some : (p : PoolIdentifier) {a : ℕ} → as_address p ≡ some a → p ≡ address a
unfolding as_address
as_address-eq_some (address b) e = cc
as_address-eq_some (pool_id j) e = cc

as_pool_id-eq_some : (p : PoolIdentifier) {i : ℕ} → as_pool_id p ≡ some i → p ≡ pool_id i
unfolding as_pool_id
as_pool_id-eq_some (address b) e = cc
as_pool_id-eq_some (pool_id j) e = cc

module _ (s : Source) where
  pub v2_named :
      (p : PoolMetadata) {h : V2Hydration}
      → v2_hydration_from_snapshot s.readers s.capacities s.max_tokens p ≡ some h
      → p.pool_id ≡ address h.address
  unfolding v2_hydration_from_snapshot pool_address
  v2_named p e =
      let (a, found, rest) = bind_some (as_address p.pool_id) _ e in
      let named = as_address-eq_some p.pool_id found in ground arith

  pub v3_named :
      (p : PoolMetadata) {h : UniswapV3Hydration}
      → v3_hydration_from_snapshot s.readers s.capacities s.max_tokens p ≡ some h
      → p.pool_id ≡ address h.address
  unfolding v3_hydration_from_snapshot pool_address
  v3_named p e =
      let (a, found, rest) = bind_some (as_address p.pool_id) _ e in
      let named = as_address-eq_some p.pool_id found in ground arith

  pub v4_named :
      (p : PoolMetadata) {h : UniswapV4Hydration}
      → v4_hydration_from_snapshot s.readers s.capacities s.max_tokens p ≡ some h
      → p.pool_id ≡ pool_id h.pool_id
  unfolding v4_hydration_from_snapshot pool_id_32
  v4_named p e =
      let (a, found, rest) = bind_some (as_pool_id p.pool_id) _ e in
      let named = as_pool_id-eq_some p.pool_id found in ground arith

  pub ekubo_named :
      (p : PoolMetadata) {h : EkuboHydration}
      → ekubo_hydration_from_snapshot s.readers s.capacities s.max_tokens p ≡ some h
      → p.pool_id ≡ pool_id h.pool_id
  unfolding ekubo_hydration_from_snapshot pool_id_32
  ekubo_named p e =
      let (a, found, rest) = bind_some (as_pool_id p.pool_id) _ e in
      let named = as_pool_id-eq_some p.pool_id found in ground arith

  pub stable_named :
      (p : PoolMetadata) {h : CurveStableHydration}
      → curve_stable_hydration_from_snapshot s.state p ≡ some h
      → p.pool_id ≡ address h.address
  unfolding curve_stable_hydration_from_snapshot pool_address
  stable_named p e =
      let (a, found, rest) = bind_some (as_address p.pool_id) _ e in
      let named = as_address-eq_some p.pool_id found in ground arith

  pub twocrypto_named :
      (p : PoolMetadata) {h : CurveCryptoHydration}
      → curve_twocrypto_hydration_from_snapshot s.state p ≡ some h
      → p.pool_id ≡ address h.address
  unfolding curve_twocrypto_hydration_from_snapshot pool_address
  twocrypto_named p e =
      let (a, found, rest) = bind_some (as_address p.pool_id) _ e in
      let named = as_address-eq_some p.pool_id found in ground arith

  pub tricrypto_named :
      (p : PoolMetadata) {h : CurveCryptoHydration}
      → curve_tricrypto_hydration_from_snapshot s.state p ≡ some h
      → p.pool_id ≡ address h.address
  unfolding curve_tricrypto_hydration_from_snapshot pool_address
  tricrypto_named p e =
      let (a, found, rest) = bind_some (as_address p.pool_id) _ e in
      let named = as_address-eq_some p.pool_id found in ground arith

  pub fluid_named :
      (p : PoolMetadata) {h : FluidHydration}
      → fluid_hydration_from_snapshot s.readers s.capacities s.max_tokens s.fluid_configs
          s.block_timestamp p
        ≡ some h
      → p.pool_id ≡ address h.address
  unfolding fluid_hydration_from_snapshot pool_address
  fluid_named p e =
      let (a, found, rest) = bind_some (as_address p.pool_id) _ e in
      let named = as_address-eq_some p.pool_id found in ground arith

  pub balancer_named :
      (p : PoolMetadata) {h : BalancerV2Hydration}
      → balancer_v2_hydration_from_snapshot s.readers s.capacities s.max_tokens p ≡ some h
      → p.pool_id ≡ pool_id h.pool_id
  unfolding balancer_v2_hydration_from_snapshot pool_id_32
  balancer_named p e =
      let (a, found, rest) = bind_some (as_pool_id p.pool_id) _ e in
      let named = as_pool_id-eq_some p.pool_id found in ground arith
