-- ===== src/Hydration/Startup.antt =====
-- The nine passes of the startup hydration and the one pass of the live hydration, both of src/main.rs, make
-- the same of a list of pools.
use reth_exex_liquidity.Common.{
  ◌≡◌, refl, sym, if◌then◌else◌, ◌∙◌, ap, Option, none, some, List, [], ◌∷◌, ◌++◌, fold,
  Option-cases, inl, inr,
}
use mathlib.Core.List.{append_assoc, append-nil}
use reth_exex_liquidity.Types.{
  PoolMetadata, Protocol, uniswap_v2, uniswap_v3, uniswap_v4, ekubo, curve_stable, curve_two_crypto,
  curve_tricrypto, balancer_v2_weighted, fluid, same_protocol,
}
use reth_exex_liquidity.Hydration.Pools.{
  v2_hydration_from_snapshot, v3_hydration_from_snapshot, v4_hydration_from_snapshot,
  ekubo_hydration_from_snapshot, fluid_hydration_from_snapshot, balancer_v2_hydration_from_snapshot,
}
use reth_exex_liquidity.Hydration.Curve.{
  curve_stable_hydration_from_snapshot, curve_twocrypto_hydration_from_snapshot,
  curve_tricrypto_hydration_from_snapshot,
}
use reth_exex_liquidity.Hydration.Batch.{
  HydrationBatch, Source, push_hydration, hydrate_pool, build_hydration_batch, empty_batch,
}
use reth_exex_liquidity.Hydration.Adding.{startup_batch}

-- The lists of one batch, each followed by that of another.
abbrev join : HydrationBatch → HydrationBatch → HydrationBatch
join b c = record {
  v2 = b.v2 ++ c.v2;
  v3 = b.v3 ++ c.v3;
  v4 = b.v4 ++ c.v4;
  ekubo = b.ekubo ++ c.ekubo;
  curve_stable = b.curve_stable ++ c.curve_stable;
  curve_twocrypto = b.curve_twocrypto ++ c.curve_twocrypto;
  curve_tricrypto = b.curve_tricrypto ++ c.curve_tricrypto;
  fluid = b.fluid ++ c.fluid;
  balancer_v2 = b.balancer_v2 ++ c.balancer_v2;
}

module _ (s : Source) where
  join-nothing : (b : HydrationBatch) → b ≡ join b (startup_batch s [])
  unfolding startup_batch
  join-nothing b = simp append-nil

  abbrev pushed : Option HydrationBatch → HydrationBatch → HydrationBatch
  pushed none b = b
  pushed (some b') b = b'

  hydrate_pool-pushed :
      (b : HydrationBatch) (us : List PoolMetadata) (p : PoolMetadata)
      → (hydrate_pool s (b, us) p).0 ≡ pushed (push_hydration s p.protocol p b) b
  unfolding hydrate_pool
  hydrate_pool-pushed b us p = elim (Option-cases (push_hydration s p.protocol p b)) [
    | inl e ↦ rw (e, hydrate_pool) refl
    | inr (b', e) ↦ rw (e, hydrate_pool) refl
  ]

  -- What one pass puts before the rest of its list.
  abbrev head : {H : Type 0} → Protocol → Protocol → Option H → List H → List H
  head protocol c o rest =
      if same_protocol protocol c then elim o [ none ↦ rest | some h ↦ h ∷ rest ] else rest

  abbrev heads : Protocol → PoolMetadata → HydrationBatch → HydrationBatch
  heads protocol p c = record {
    v2 =
        head protocol uniswap_v2 (v2_hydration_from_snapshot s.readers s.capacities s.max_tokens p)
          c.v2;
    v3 =
        head protocol uniswap_v3 (v3_hydration_from_snapshot s.readers s.capacities s.max_tokens p)
          c.v3;
    v4 =
        head protocol uniswap_v4 (v4_hydration_from_snapshot s.readers s.capacities s.max_tokens p)
          c.v4;
    ekubo =
        head protocol ekubo (ekubo_hydration_from_snapshot s.readers s.capacities s.max_tokens p)
          c.ekubo;
    curve_stable =
        head protocol curve_stable (curve_stable_hydration_from_snapshot s.state p) c.curve_stable;
    curve_twocrypto =
        head protocol curve_two_crypto (curve_twocrypto_hydration_from_snapshot s.state p)
          c.curve_twocrypto;
    curve_tricrypto =
        head protocol curve_tricrypto (curve_tricrypto_hydration_from_snapshot s.state p)
          c.curve_tricrypto;
    balancer_v2 =
        head protocol balancer_v2_weighted
          (balancer_v2_hydration_from_snapshot s.readers s.capacities s.max_tokens p) c.balancer_v2;
    fluid =
        head protocol fluid
          (fluid_hydration_from_snapshot s.readers s.capacities s.max_tokens s.fluid_configs
            s.block_timestamp p)
          c.fluid;
  }

  push_joined :
      (protocol : Protocol) (p : PoolMetadata) (b c : HydrationBatch)
      → join (pushed (push_hydration s protocol p b) b) c ≡ join b (heads protocol p c)
  unfolding push_hydration
  push_joined uniswap_v2 p b c =
      elim (Option-cases (v2_hydration_from_snapshot s.readers s.capacities s.max_tokens p)) [
        | inl none_made ↦ rw none_made refl
        | inr (h, made) ↦ rw made (simp append_assoc)
      ]
  push_joined uniswap_v3 p b c =
      elim (Option-cases (v3_hydration_from_snapshot s.readers s.capacities s.max_tokens p)) [
        | inl none_made ↦ rw none_made refl
        | inr (h, made) ↦ rw made (simp append_assoc)
      ]
  push_joined uniswap_v4 p b c =
      elim (Option-cases (v4_hydration_from_snapshot s.readers s.capacities s.max_tokens p)) [
        | inl none_made ↦ rw none_made refl
        | inr (h, made) ↦ rw made (simp append_assoc)
      ]
  push_joined ekubo p b c =
      elim (Option-cases (ekubo_hydration_from_snapshot s.readers s.capacities s.max_tokens p)) [
        | inl none_made ↦ rw none_made refl
        | inr (h, made) ↦ rw made (simp append_assoc)
      ]
  push_joined curve_stable p b c =
      elim (Option-cases (curve_stable_hydration_from_snapshot s.state p)) [
        | inl none_made ↦ rw none_made refl
        | inr (h, made) ↦ rw made (simp append_assoc)
      ]
  push_joined curve_two_crypto p b c =
      elim (Option-cases (curve_twocrypto_hydration_from_snapshot s.state p)) [
        | inl none_made ↦ rw none_made refl
        | inr (h, made) ↦ rw made (simp append_assoc)
      ]
  push_joined curve_tricrypto p b c =
      elim (Option-cases (curve_tricrypto_hydration_from_snapshot s.state p)) [
        | inl none_made ↦ rw none_made refl
        | inr (h, made) ↦ rw made (simp append_assoc)
      ]
  push_joined balancer_v2_weighted p b c =
      elim (Option-cases
        (balancer_v2_hydration_from_snapshot s.readers s.capacities s.max_tokens p)) [
          | inl none_made ↦ rw none_made refl
          | inr (h, made) ↦ rw made (simp append_assoc)
        ]
  push_joined fluid p b c =
      elim (Option-cases (
        fluid_hydration_from_snapshot s.readers s.capacities s.max_tokens s.fluid_configs
          s.block_timestamp p)) [
            | inl none_made ↦ rw none_made refl
            | inr (h, made) ↦ rw made (simp append_assoc)
          ]

  passes_joined :
      (b : HydrationBatch) (us pools : List PoolMetadata)
      → (fold (hydrate_pool s) (b, us) pools).0 ≡ join b (startup_batch s pools)
  unfolding fold startup_batch
  passes_joined b us [] = join-nothing b
  passes_joined b us (p ∷ pools) =
      let x = hydrate_pool s (b, us) p in
      passes_joined x.0 x.1 pools
      ∙ ap (λ d. join d (startup_batch s pools)) (hydrate_pool-pushed b us p)
      ∙ push_joined p.protocol p b (startup_batch s pools)

  -- The startup hydration makes of a snapshot's pools the lists, in the same order, that the hydration of
  -- live-added pools would make of them: a pool is hydrated alike however it came.
  pub startup_batch-build_hydration_batch :
      (pools : List PoolMetadata) → startup_batch s pools ≡ (build_hydration_batch s pools).0
  unfolding build_hydration_batch
  startup_batch-build_hydration_batch pools = sym (passes_joined empty_batch [] pools)
