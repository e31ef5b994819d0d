-- ===== src/Hydration/Promoted.antt =====
-- What `promote_overflowed_pools` of src/main.rs keeps in the arena.
use reth_exex_liquidity.Common.{
  ◌==◌, ◌≡◌, refl, ◌∙◌, arith, not, ◌&&◌, Bool, true, false, Bool-cases, Option, none, some, [],
  fold_inv, All-trivial, subst, is_some, Option-cases, inl, inr,
}
use reth_exex_liquidity.Types.{
  Address, PoolId, address, pool_id, PoolMetadata, uniswap_v3, uniswap_v4, ekubo,
}
use reth_exex_liquidity.Tracker.{PoolTracker}
use reth_exex_liquidity.Tracker.Updates.{pool_metadata, pool_metadata_by_id}
use reth_exex_liquidity.Arena.Writer.{WriterError, Result, ok, err}
use reth_exex_liquidity.Arena.Shadow.{ShadowArena, Pending, take_retier_pending}
use reth_exex_liquidity.Arena.Retier.{
  TierSlots, TierLaws, retier, retier-keeps, finish_add, finish_remove, in_tier,
}
use reth_exex_liquidity.Hydration.Pools.{
  v3_hydration_from_snapshot, v4_hydration_from_snapshot, ekubo_hydration_from_snapshot,
}
use reth_exex_liquidity.Hydration.Batch.{Source}
use reth_exex_liquidity.Hydration.Promote.{
  Families, promote_v3, promote_v4, promote_ekubo, promote, promote_overflowed_pools,
}

-- A pool of a family with tiers.
pub data Key : Type 0 where
  v3 : Address → Key
  v4 ekubo_pool : PoolId → Key

abbrev pub same_key : Key → Key → Bool
same_key (v3 a) (v3 b) = a == b
same_key (v4 i) (v4 j) = i == j
same_key (ekubo_pool i) (ekubo_pool j) = i == j
same_key _ _ = false

-- What the calls of one pool's promotion do not change.
pub record Apart {W Pool : Type 0} (slots : TierSlots W Pool) (view : W → Bool) : Type 0 where
  pub removing : (a : W) → view (slots.remove_pool a).0 ≡ view a
  pub adding : (p : Pool) (a : W) → view (slots.add_pool p a).0 ≡ view a
  pub signalling : (a : W) → view (slots.signal_topology_change a) ≡ view a

module _ {W : Type 0} (families : Families W) where
  abbrev pub present : Key → W → Bool
  present (v3 a) w = is_some ((families.v3_slots a).get_pool w)
  present (v4 i) w = is_some ((families.v4_slots i).get_pool w)
  present (ekubo_pool i) w = is_some ((families.ekubo_slots i).get_pool w)

  -- What the writer documents, and that its calls for one pool leave the slots of the others.
  pub record FamilyLaws : Type 0 where
    pub v3_laws : (a : Address) → TierLaws (families.v3_slots a)
    pub v4_laws : (i : PoolId) → TierLaws (families.v4_slots i)
    pub ekubo_laws : (i : PoolId) → TierLaws (families.ekubo_slots i)
    pub v3_apart :
        (a : Address) (k : Key)
        → same_key (v3 a) k ≡ false
        → Apart (families.v3_slots a) (present k)
    pub v4_apart :
        (i : PoolId) (k : Key) → same_key (v4 i) k ≡ false → Apart (families.v4_slots i) (present k)
    pub ekubo_apart :
        (i : PoolId) (k : Key)
        → same_key (ekubo_pool i) k ≡ false
        → Apart (families.ekubo_slots i) (present k)

module _ {W Pool : Type 0} (slots : TierSlots W Pool) (view : W → Bool)
    (apart : Apart slots view) where
  finish_add-apart : (x : W × Result WriterError Unit) → view (finish_add slots x).0 ≡ view x.0
  finish_add-apart (c, ok done) = apart.signalling c
  finish_add-apart (c, err e) = refl

  finish_remove-apart :
      (p : Pool) (x : W × Result WriterError Unit) → view (finish_remove slots p x).0 ≡ view x.0
  finish_remove-apart p (b, ok done) = finish_add-apart (slots.add_pool p b) ∙ apart.adding p b
  finish_remove-apart p (b, err e) = refl

  retier-apart : (p : Pool) (a : W) → view (retier slots p a).0 ≡ view a
  unfolding retier
  retier-apart p a =
      let tier = slots.tier_of p in
      elim (Bool-cases
        (not (slots.tier_has_free_slot a tier) && not (in_tier slots tier (slots.get_pool a)))) [
          | inl e ↦ rw e refl
          | inr e ↦ rw e (finish_remove-apart p (slots.remove_pool a) ∙ apart.removing a)
        ]

retier-stays :
    {W Pool : Type 0} (slots : TierSlots W Pool) (laws : TierLaws slots) (p : Pool) (a : W)
    → is_some (slots.get_pool a) ≡ true
    → is_some (slots.get_pool (retier slots p a).0) ≡ true
retier-stays slots laws p a h = elim (Option-cases (slots.get_pool a)) [
  | inl e ↦ absurd (let f : is_some (slots.get_pool a) ≡ false = rw e refl in cc)
  | inr (old, e) ↦ rw ((retier-keeps slots laws p old a e).0) refl
]

same_key-eq : (j k : Key) → same_key j k ≡ true → j ≡ k
same_key-eq (v3 a) (v3 b) e = ground arith
same_key-eq (v4 a) (v4 b) e = ground arith
same_key-eq (ekubo_pool a) (ekubo_pool b) e = ground arith
same_key-eq (v3 a) (v4 b) e = cc
same_key-eq (v3 a) (ekubo_pool b) e = cc
same_key-eq (v4 a) (v3 b) e = cc
same_key-eq (v4 a) (ekubo_pool b) e = cc
same_key-eq (ekubo_pool a) (v3 b) e = cc
same_key-eq (ekubo_pool a) (v4 b) e = cc

module _ {W : Type 0} (families : Families W) (laws : FamilyLaws families) (k : Key) where
  -- A change of the slots of `j` that keeps `j` there.
  key_stays :
      (j : Key) (a b : W)
      → (same_key j k ≡ false → present families k b ≡ present families k a)
      → (present families j a ≡ true → present families j b ≡ true)
      → present families k a ≡ true
      → present families k b ≡ true
  key_stays j a b other own there = elim (Bool-cases (same_key j k)) [
    | inl e ↦
        subst (λ k'. present families k' a ≡ true → present families k' b ≡ true)
          (same_key-eq j k e) own there
    | inr e ↦ other e ∙ there
  ]

  module _ (source : Source) (t : PoolTracker) where
    v3_stays :
        (o : Option PoolMetadata) (a : W)
        → present families k a ≡ true
        → present families k (promote_v3 families source t o a) ≡ true
    unfolding promote_v3
    v3_stays none a there = there
    v3_stays (some meta) a there =
        elim (Option-cases
          (v3_hydration_from_snapshot source.readers source.capacities source.max_tokens meta)) [
            | inl e ↦ rw (e, promote_v3) there
            | inr (h, e) ↦
                let slots = families.v3_slots h.address in
                rw (e, promote_v3)
                  (key_stays (v3 h.address) a (retier slots h.pool a).0
                    (λ f.
                      retier-apart slots (present families k) (laws.v3_apart h.address k f) h.pool
                        a)
                    (retier-stays slots (laws.v3_laws h.address) h.pool a) there)
          ]

    v4_stays :
        (o : Option PoolMetadata) (a : W)
        → present families k a ≡ true
        → present families k (promote_v4 families source t o a) ≡ true
    unfolding promote_v4
    v4_stays none a there = there
    v4_stays (some meta) a there =
        elim (Option-cases
          (v4_hydration_from_snapshot source.readers source.capacities source.max_tokens meta)) [
            | inl e ↦ rw (e, promote_v4) there
            | inr (h, e) ↦
                let slots = families.v4_slots h.pool_id in
                rw (e, promote_v4)
                  (key_stays (v4 h.pool_id) a (retier slots h.pool a).0
                    (λ f.
                      retier-apart slots (present families k) (laws.v4_apart h.pool_id k f) h.pool
                        a)
                    (retier-stays slots (laws.v4_laws h.pool_id) h.pool a) there)
          ]

    ekubo_stays :
        (o : Option PoolMetadata) (a : W)
        → present families k a ≡ true
        → present families k (promote_ekubo families source t o a) ≡ true
    unfolding promote_ekubo
    ekubo_stays none a there = there
    ekubo_stays (some meta) a there =
        elim (Option-cases
          (ekubo_hydration_from_snapshot source.readers source.capacities source.max_tokens meta)) [
            | inl e ↦ rw (e, promote_ekubo) there
            | inr (h, e) ↦
                let slots = families.ekubo_slots h.pool_id in
                rw (e, promote_ekubo)
                  (key_stays (ekubo_pool h.pool_id) a (retier slots h.pool a).0
                    (λ f.
                      retier-apart slots (present families k) (laws.ekubo_apart h.pool_id k f)
                        h.pool a)
                    (retier-stays slots (laws.ekubo_laws h.pool_id) h.pool a) there)
          ]

    promote-stays :
        (p : Pending) (a : W)
        → present families k a ≡ true
        → present families k (promote families source t a p) ≡ true
    unfolding promote
    promote-stays (uniswap_v3, address addr) a there = v3_stays (pool_metadata t addr) a there
    promote-stays (uniswap_v4, pool_id i) a there = v4_stays (pool_metadata_by_id t i) a there
    promote-stays (ekubo, pool_id i) a there = ekubo_stays (pool_metadata_by_id t i) a there
    promote-stays (uniswap_v3, pool_id i) a there = there
    promote-stays (uniswap_v4, address b) a there = there
    promote-stays (ekubo, address b) a there = there
    promote-stays _ a there = there

    -- With a writer that keeps what it documents and whose calls for one pool leave the slots of the others:
    -- whichever pools are to be promoted, whatever the state tells of them and whatever room their tiers
    -- have, every V3, V4 and Ekubo pool that the arena has it has afterwards, and no promotion is pending.
    pub promote_overflowed_pools-keeps :
        (s : ShadowArena W)
        → present families k s.arena ≡ true
        → let u = promote_overflowed_pools families source t s in
          (present families k u.arena ≡ true) × (u.retier_pending ≡ [])
    unfolding promote_overflowed_pools take_retier_pending
    promote_overflowed_pools-keeps s there = (
      fold_inv (λ a. present families k a ≡ true) (λ _. Unit {0}) (promote families source t)
          (λ a p _ h. promote-stays p a h) s.arena s.retier_pending (All-trivial s.retier_pending)
          there,
      refl,
    )
