-- ===== src/Hydration/Held.antt =====
-- How many slots the arena has of each pool behind `hydrate_added` of src/shadow_arena.rs.
use reth_exex_liquidity.Common.{
  ℕ, ◌+◌, ◌≡◌, refl, ◌∙◌, arith, if◌then◌else◌, true, List, [], ◌∷◌, map, Bool-cases, inl, inr,
}
use reth_exex_liquidity.Types.{PoolIdentifier, address, pool_id, same_identifier}
use reth_exex_liquidity.Arena.Writer.{
  ArenaWriter, WriterError, Result, ok, err, Write, update_fluid_reserves,
}
use reth_exex_liquidity.Arena.Shadow.{ShadowArena}
use reth_exex_liquidity.Hydration.Pools.{
  V2Hydration, UniswapV3Hydration, UniswapV4Hydration, EkuboHydration, FluidHydration,
  BalancerV2Hydration,
}
use reth_exex_liquidity.Hydration.Curve.{CurveStableHydration, CurveCryptoHydration}
use reth_exex_liquidity.Hydration.Batch.{HydrationBatch, is_empty, is_nil}
use reth_exex_liquidity.Hydration.Adding.{
  ArenaAdder, add_each, add_fluid, add_pools, fluid_state_of, hydrate_added,
}
use reth_exex_liquidity.Hydration.Accounted.{count_id, count_batch}

-- One slot of the pool `j` where a call for it is accepted, and one refusal where it is not.
abbrev pub granted : (i j : PoolIdentifier) → Result WriterError Unit → ℕ
granted i j (ok done) = if same_identifier i j then 1 else 0
granted i j (err e) = 0

abbrev pub refused : (i j : PoolIdentifier) → Result WriterError Unit → ℕ
refused i j (ok done) = 0
refused i j (err e) = if same_identifier i j then 1 else 0

granted-refused :
    (i j : PoolIdentifier) (answer : Result WriterError Unit)
    → granted i j answer + refused i j answer ≡ (if same_identifier i j then 1 else 0)
granted-refused i j (ok done) = omega arith
granted-refused i j (err e) = omega arith

-- The refusals of a pool in a run of calls; `step` is what is done in the place of each `call`.
unfoldable pub refused_each :
    {W H : Type 0}
    → (call step : H → W → W × Result WriterError Unit) → (H → PoolIdentifier)
    → PoolIdentifier
    → List H
    → W
    → ℕ
refused_each call step name i [] a = 0
refused_each call step name i (h ∷ hs) a =
    refused i (name h) (call h a).1 + refused_each call step name i hs (step h a).0

-- What the code relies on of the writer's crate for the number of slots that a pool has: a call that adds a
-- pool and is accepted makes one more of it; a refused one, a write and the signal make none.
pub record SlotLaws {W : Type 0} (writer_of : ArenaWriter W) (adder : ArenaAdder W)
    (held : PoolIdentifier → W → ℕ) : Type 0 where
  pub signals :
      (i : PoolIdentifier) (a : W) → held i (writer_of.signal_topology_change a) ≡ held i a
  pub writes : (i : PoolIdentifier) (w : Write) (a : W) → held i (writer_of.write w a).0 ≡ held i a
  pub v2 :
      (i : PoolIdentifier) (h : V2Hydration) (a : W)
      → held i (adder.add_v2_pool h a).0
        ≡ held i a + granted i (address h.address) (adder.add_v2_pool h a).1
  pub v3 :
      (i : PoolIdentifier) (h : UniswapV3Hydration) (a : W)
      → held i (adder.add_v3_pool h a).0
        ≡ held i a + granted i (address h.address) (adder.add_v3_pool h a).1
  pub v4 :
      (i : PoolIdentifier) (h : UniswapV4Hydration) (a : W)
      → held i (adder.add_v4_pool h a).0
        ≡ held i a + granted i (pool_id h.pool_id) (adder.add_v4_pool h a).1
  pub ekubo :
      (i : PoolIdentifier) (h : EkuboHydration) (a : W)
      → held i (adder.add_ekubo_pool h a).0
        ≡ held i a + granted i (pool_id h.pool_id) (adder.add_ekubo_pool h a).1
  pub curve_stable :
      (i : PoolIdentifier) (h : CurveStableHydration) (a : W)
      → held i (adder.add_curve_stable_pool h a).0
        ≡ held i a + granted i (address h.address) (adder.add_curve_stable_pool h a).1
  pub curve_twocrypto :
      (i : PoolIdentifier) (h : CurveCryptoHydration) (a : W)
      → held i (adder.add_curve_twocrypto_pool h a).0
        ≡ held i a + granted i (address h.address) (adder.add_curve_twocrypto_pool h a).1
  pub curve_tricrypto :
      (i : PoolIdentifier) (h : CurveCryptoHydration) (a : W)
      → held i (adder.add_curve_tricrypto_pool h a).0
        ≡ held i a + granted i (address h.address) (adder.add_curve_tricrypto_pool h a).1
  pub fluid :
      (i : PoolIdentifier) (h : FluidHydration) (a : W)
      → held i (adder.add_fluid_pool h a).0
        ≡ held i a + granted i (address h.address) (adder.add_fluid_pool h a).1
  pub balancer_v2 :
      (i : PoolIdentifier) (h : BalancerV2Hydration) (a : W)
      → held i (adder.add_balancer_v2_pool h a).0
        ≡ held i a + granted i (pool_id h.pool_id) (adder.add_balancer_v2_pool h a).1

module _ {W : Type 0} (writer_of : ArenaWriter W) (adder : ArenaAdder W) where
  -- The refusals of a pool while a batch is added, one family after the other.
  unfoldable pub refused_batch : PoolIdentifier → HydrationBatch → W → ℕ
  unfolding refused_each
  refused_batch i b a =
      let a1 = (add_each adder.add_v2_pool b.v2 a 0).0 in
      let a2 = (add_each adder.add_v3_pool b.v3 a1 0).0 in
      let a3 = (add_each adder.add_v4_pool b.v4 a2 0).0 in
      let a4 = (add_each adder.add_ekubo_pool b.ekubo a3 0).0 in
      let a5 = (add_each adder.add_curve_stable_pool b.curve_stable a4 0).0 in
      let a6 = (add_each adder.add_curve_twocrypto_pool b.curve_twocrypto a5 0).0 in
      let a7 = (add_each adder.add_curve_tricrypto_pool b.curve_tricrypto a6 0).0 in
      let a8 = (add_each (add_fluid writer_of adder) b.fluid a7 0).0 in
      refused_each adder.add_v2_pool adder.add_v2_pool (λ h. address h.address) i b.v2 a
      + refused_each adder.add_v3_pool adder.add_v3_pool (λ h. address h.address) i b.v3 a1
      + refused_each adder.add_v4_pool adder.add_v4_pool (λ h. pool_id h.pool_id) i b.v4 a2
      + refused_each adder.add_ekubo_pool adder.add_ekubo_pool (λ h. pool_id h.pool_id) i b.ekubo a3
      + refused_each adder.add_curve_stable_pool adder.add_curve_stable_pool
          (λ h. address h.address) i b.curve_stable a4
      + refused_each adder.add_curve_twocrypto_pool adder.add_curve_twocrypto_pool
          (λ h. address h.address) i b.curve_twocrypto a5
      + refused_each adder.add_curve_tricrypto_pool adder.add_curve_tricrypto_pool
          (λ h. address h.address) i b.curve_tricrypto a6
      + refused_each adder.add_fluid_pool (add_fluid writer_of adder) (λ h. address h.address) i
          b.fluid a7
      + refused_each adder.add_balancer_v2_pool adder.add_balancer_v2_pool (λ h. pool_id h.pool_id)
          i b.balancer_v2 a8

  module _ (held : PoolIdentifier → W → ℕ) (laws : SlotLaws writer_of adder held)
      (i : PoolIdentifier) where
    each_held :
        {H : Type 0} (call step : H → W → W × Result WriterError Unit) (name : H → PoolIdentifier)
        → ((h : H) (a : W) → held i (step h a).0 ≡ held i (call h a).0)
        → ((h : H) (a : W) → held i (call h a).0 ≡ held i a + granted i (name h) (call h a).1)
        → (hs : List H) (a : W) (n : ℕ)
        → held i (add_each step hs a n).0 + refused_each call step name i hs a
          ≡ held i a + count_id i (map name hs)
    unfolding add_each refused_each
    each_held call step name same law [] a n = refl
    each_held call step name same law (h ∷ hs) a n = omega (
      arith,
      same h a,
      law h a,
      granted-refused i (name h) (call h a).1,
      each_held call step name same law hs (step h a).0
          (elim (step h a).1 [ ok done ↦ n + 1 | err e ↦ n ]),
    )

    abbrev Holds : ℕ → W × Result WriterError Unit → Type 0
    Holds n x = held i x.0 ≡ n

    fluid_held :
        (h : FluidHydration) (a : W)
        → held i (add_fluid writer_of adder h a).0 ≡ held i (adder.add_fluid_pool h a).0
    unfolding add_fluid
    fluid_held h a = answered (adder.add_fluid_pool h a).0 (adder.add_fluid_pool h a).1
      where
        answered :
            (b : W) (answer : Result WriterError Unit)
            → Holds (held i b) (elim answer [
              | err e ↦ (b, err e)
              | ok done ↦
                  let (c, written) =
                    writer_of.write (update_fluid_reserves h.address (fluid_state_of h)) b in
                  (c, elim written [ err e ↦ err e | ok overflowed ↦ ok tt ])
            ])
        answered b (ok done) = laws.writes i _ b
        answered b (err e) = refl

    -- Each pool of a batch is given a slot or refused, as often as it is in the batch.
    add_pools-held :
        (b : HydrationBatch) (a : W)
        → held i (add_pools writer_of adder b a).0 + refused_batch i b a
          ≡ held i a + count_batch i b
    unfolding add_pools refused_batch
    add_pools-held b a =
        let a1 = (add_each adder.add_v2_pool b.v2 a 0).0 in
        let a2 = (add_each adder.add_v3_pool b.v3 a1 0).0 in
        let a3 = (add_each adder.add_v4_pool b.v4 a2 0).0 in
        let a4 = (add_each adder.add_ekubo_pool b.ekubo a3 0).0 in
        let a5 = (add_each adder.add_curve_stable_pool b.curve_stable a4 0).0 in
        let a6 = (add_each adder.add_curve_twocrypto_pool b.curve_twocrypto a5 0).0 in
        let a7 = (add_each adder.add_curve_tricrypto_pool b.curve_tricrypto a6 0).0 in
        let a8 = (add_each (add_fluid writer_of adder) b.fluid a7 0).0 in
        omega (
          arith,
          each_held adder.add_v2_pool adder.add_v2_pool (λ h. address h.address) (λ h a. refl)
              (laws.v2 i) b.v2 a 0,
          each_held adder.add_v3_pool adder.add_v3_pool (λ h. address h.address) (λ h a. refl)
              (laws.v3 i) b.v3 a1 0,
          each_held adder.add_v4_pool adder.add_v4_pool (λ h. pool_id h.pool_id) (λ h a. refl)
              (laws.v4 i) b.v4 a2 0,
          each_held adder.add_ekubo_pool adder.add_ekubo_pool (λ h. pool_id h.pool_id) (λ h a. refl)
              (laws.ekubo i) b.ekubo a3 0,
          each_held adder.add_curve_stable_pool adder.add_curve_stable_pool (λ h. address h.address)
              (λ h a. refl) (laws.curve_stable i) b.curve_stable a4 0,
          each_held adder.add_curve_twocrypto_pool adder.add_curve_twocrypto_pool
              (λ h. address h.address) (λ h a. refl) (laws.curve_twocrypto i) b.curve_twocrypto a5
              0,
          each_held adder.add_curve_tricrypto_pool adder.add_curve_tricrypto_pool
              (λ h. address h.address) (λ h a. refl) (laws.curve_tricrypto i) b.curve_tricrypto a6
              0,
          each_held adder.add_fluid_pool (add_fluid writer_of adder) (λ h. address h.address)
              fluid_held (laws.fluid i) b.fluid a7 0,
          each_held adder.add_balancer_v2_pool adder.add_balancer_v2_pool (λ h. pool_id h.pool_id)
              (λ h a. refl) (laws.balancer_v2 i) b.balancer_v2 a8 0,
        )

    each_nil :
        {H : Type 0} (step : H → W → W × Result WriterError Unit) (hs : List H) (a : W)
        → is_nil hs ≡ true
        → (add_each step hs a 0).0 ≡ a
    unfolding add_each
    each_nil step [] a e = refl
    each_nil step (h ∷ hs) a e = cc

    -- To add an empty batch is to add nothing.
    add_pools-empty :
        (b : HydrationBatch) (a : W) → is_empty b ≡ true → (add_pools writer_of adder b a).0 ≡ a
    unfolding add_pools is_empty
    add_pools-empty b a e =
        each_nil adder.add_balancer_v2_pool b.balancer_v2 _ (ground arith)
        ∙ each_nil (add_fluid writer_of adder) b.fluid _ (ground arith)
        ∙ each_nil adder.add_curve_tricrypto_pool b.curve_tricrypto _ (ground arith)
        ∙ each_nil adder.add_curve_twocrypto_pool b.curve_twocrypto _ (ground arith)
        ∙ each_nil adder.add_curve_stable_pool b.curve_stable _ (ground arith)
        ∙ each_nil adder.add_ekubo_pool b.ekubo _ (ground arith)
        ∙ each_nil adder.add_v4_pool b.v4 _ (ground arith)
        ∙ each_nil adder.add_v3_pool b.v3 _ (ground arith)
        ∙ each_nil adder.add_v2_pool b.v2 _ (ground arith)

    pub hydrate_added-held :
        (b : HydrationBatch) (s : ShadowArena W)
        → held i (hydrate_added writer_of adder b s).0.arena + refused_batch i b s.arena
          ≡ held i s.arena + count_batch i b
    unfolding hydrate_added
    hydrate_added-held b s = elim (Bool-cases (is_empty b)) [
      | inl nothing ↦
          rw nothing (rw (add_pools-empty b s.arena nothing) at (add_pools-held b s.arena))
      | inr something ↦
          rw something
            (rw (laws.signals i (add_pools writer_of adder b s.arena).0) (add_pools-held b s.arena))
    ]
