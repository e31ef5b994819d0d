-- ===== src/Hydration/Accounted.antt =====
-- No pool is lost or doubled by `build_hydration_batch` of src/main.rs.
use reth_exex_liquidity.Common.{
  ℕ, ◌+◌, ◌≡◌, arith, if◌then◌else◌, some, List, [], ◌∷◌, ◌++◌, map, fold, Option-cases, inl, inr,
}
use reth_exex_liquidity.Common.Words.{bind_some}
use reth_exex_liquidity.Types.{
  PoolIdentifier, address, pool_id, same_identifier, PoolMetadata, Protocol, uniswap_v2, uniswap_v3,
  uniswap_v4, ekubo, curve_stable, curve_two_crypto, curve_tricrypto, balancer_v2_weighted, fluid,
}
use reth_exex_liquidity.Hydration.Pools.{
  v2_hydration_from_snapshot, v3_hydration_from_snapshot, v4_hydration_from_snapshot,
  ekubo_hydration_from_snapshot, fluid_hydration_from_snapshot, balancer_v2_hydration_from_snapshot,
}
use reth_exex_liquidity.Hydration.Curve.{
  curve_stable_hydration_from_snapshot, curve_twocrypto_hydration_from_snapshot,
  curve_tricrypto_hydration_from_snapshot,
}
use reth_exex_liquidity.Hydration.Batch.{
  HydrationBatch, Source, push_hydration, hydrate_pool, build_hydration_batch, empty_batch,
}
use reth_exex_liquidity.Hydration.Named.{
  v2_named, v3_named, v4_named, ekubo_named, stable_named, twocrypto_named, tricrypto_named,
  fluid_named, balancer_named,
}

-- How often an identifier is in a list.
abbrev pub count_id : PoolIdentifier → List PoolIdentifier → ℕ
count_id i [] = 0
count_id i (j ∷ js) = (if same_identifier i j then 1 else 0) + count_id i js

pub count_id-append :
    (i : PoolIdentifier) (js ks : List PoolIdentifier)
    → count_id i (js ++ ks) ≡ count_id i js + count_id i ks
count_id-append i [] ks = omega arith
count_id-append i (j ∷ js) ks = omega (arith, count_id-append i js ks)

-- How often a pool is in a batch, and in a list of pools.
abbrev pub count_batch : PoolIdentifier → HydrationBatch → ℕ
count_batch i b =
    count_id i (map (λ h. address h.address) b.v2)
    + count_id i (map (λ h. address h.address) b.v3)
    + count_id i (map (λ h. pool_id h.pool_id) b.v4)
    + count_id i (map (λ h. pool_id h.pool_id) b.ekubo)
    + count_id i (map (λ h. address h.address) b.curve_stable)
    + count_id i (map (λ h. address h.address) b.curve_twocrypto)
    + count_id i (map (λ h. address h.address) b.curve_tricrypto)
    + count_id i (map (λ h. address h.address) b.fluid)
    + count_id i (map (λ h. pool_id h.pool_id) b.balancer_v2)

abbrev pub count_pool : PoolIdentifier → List PoolMetadata → ℕ
count_pool i ps = count_id i (map (λ p. p.pool_id) ps)

count_map-push {ℓ} :
    {A : Type ℓ} (f : A → PoolIdentifier) (i : PoolIdentifier) (xs : List A) (x : A)
    → count_id i (map f (xs ++ x ∷ []))
      ≡ count_id i (map f xs) + (if same_identifier i (f x) then 1 else 0)
count_map-push f i [] x = omega arith
count_map-push f i (y ∷ ys) x = omega (arith, count_map-push f i ys x)

some_inj {ℓ} : {A : Type ℓ} {x y : A} → some x ≡ some y → x ≡ y
some_inj e = cc

module _ (s : Source) where
  push_hydration_count :
      (protocol : Protocol) (i : PoolIdentifier) (p : PoolMetadata) (b : HydrationBatch)
      {b' : HydrationBatch}
      → push_hydration s protocol p b ≡ some b'
      → count_batch i b' ≡ count_batch i b + (if same_identifier i p.pool_id then 1 else 0)
  unfolding push_hydration
  push_hydration_count uniswap_v2 i p b e =
      let (h, made, pushed) =
        bind_some (v2_hydration_from_snapshot s.readers s.capacities s.max_tokens p) _ e in
      let named = v2_named s p made in
      rw (← some_inj pushed)
        (rw named (omega (arith, count_map-push (λ h. address h.address) i b.v2 h)))
  push_hydration_count uniswap_v3 i p b e =
      let (h, made, pushed) =
        bind_some (v3_hydration_from_snapshot s.readers s.capacities s.max_tokens p) _ e in
      let named = v3_named s p made in
      rw (← some_inj pushed)
        (rw named (omega (arith, count_map-push (λ h. address h.address) i b.v3 h)))
  push_hydration_count uniswap_v4 i p b e =
      let (h, made, pushed) =
        bind_some (v4_hydration_from_snapshot s.readers s.capacities s.max_tokens p) _ e in
      let named = v4_named s p made in
      rw (← some_inj pushed)
        (rw named (omega (arith, count_map-push (λ h. pool_id h.pool_id) i b.v4 h)))
  push_hydration_count ekubo i p b e =
      let (h, made, pushed) =
        bind_some (ekubo_hydration_from_snapshot s.readers s.capacities s.max_tokens p) _ e in
      let named = ekubo_named s p made in
      rw (← some_inj pushed)
        (rw named (omega (arith, count_map-push (λ h. pool_id h.pool_id) i b.ekubo h)))
  push_hydration_count curve_stable i p b e =
      let (h, made, pushed) = bind_some (curve_stable_hydration_from_snapshot s.state p) _ e in
      let named = stable_named s p made in
      rw (← some_inj pushed)
        (rw named (omega (arith, count_map-push (λ h. address h.address) i b.curve_stable h)))
  push_hydration_count curve_two_crypto i p b e =
      let (h, made, pushed) = bind_some (curve_twocrypto_hydration_from_snapshot s.state p) _ e in
      let named = twocrypto_named s p made in
      rw (← some_inj pushed)
        (rw named (omega (arith, count_map-push (λ h. address h.address) i b.curve_twocrypto h)))
  push_hydration_count curve_tricrypto i p b e =
      let (h, made, pushed) = bind_some (curve_tricrypto_hydration_from_snapshot s.state p) _ e in
      let named = tricrypto_named s p made in
      rw (← some_inj pushed)
        (rw named (omega (arith, count_map-push (λ h. address h.address) i b.curve_tricrypto h)))
  push_hydration_count balancer_v2_weighted i p b e =
      let (h, made, pushed) =
        bind_some (balancer_v2_hydration_from_snapshot s.readers s.capacities s.max_tokens p) _ e in
      let named = balancer_named s p made in
      rw (← some_inj pushed)
        (rw named (omega (arith, count_map-push (λ h. pool_id h.pool_id) i b.balancer_v2 h)))
  push_hydration_count fluid i p b e =
      let (h, made, pushed) =
        bind_some
          (fluid_hydration_from_snapshot s.readers s.capacities s.max_tokens s.fluid_configs
            s.block_timestamp p)
          _ e in
      let named = fluid_named s p made in
      rw (← some_inj pushed)
        (rw named (omega (arith, count_map-push (λ h. address h.address) i b.fluid h)))

  hydrate_pool_count :
      (i : PoolIdentifier) (x : HydrationBatch × List PoolMetadata) (p : PoolMetadata)
      → let y = hydrate_pool s x p in
        count_batch i y.0 + count_pool i y.1
        ≡ count_batch i x.0 + count_pool i x.1 + (if same_identifier i p.pool_id then 1 else 0)
  unfolding hydrate_pool
  hydrate_pool_count i (b, ps) p = elim (Option-cases (push_hydration s p.protocol p b)) [
    | inl e ↦
        rw (e, hydrate_pool)
          (omega (arith, count_map-push (λ (q : PoolMetadata). q.pool_id) i ps p))
    | inr (b', e) ↦ rw (e, hydrate_pool) (omega (arith, push_hydration_count p.protocol i p b e))
  ]

  hydrate_pools_count :
      (i : PoolIdentifier) (x : HydrationBatch × List PoolMetadata) (pools : List PoolMetadata)
      → let y = fold (hydrate_pool s) x pools in
        count_batch i y.0 + count_pool i y.1
        ≡ count_batch i x.0 + count_pool i x.1 + count_pool i pools
  unfolding fold
  hydrate_pools_count i x [] = omega arith
  hydrate_pools_count i x (p ∷ pools) =
      omega (arith, hydrate_pools_count i (hydrate_pool s x p) pools, hydrate_pool_count i x p)

  -- Every pool that is to be hydrated is in the batch or among the pools that could not be hydrated, as
  -- often as it was listed, whatever the state holds and the metadata says.
  pub build_hydration_batch-accounted :
      (i : PoolIdentifier) (pools : List PoolMetadata)
      → let (batch, unhydrated) = build_hydration_batch s pools in
        count_batch i batch + count_pool i unhydrated ≡ count_pool i pools
  unfolding build_hydration_batch
  build_hydration_batch-accounted i pools =
      omega (arith, hydrate_pools_count i (empty_batch, []) pools)
