-- ===== src/Arena/Retier.antt =====
-- `retier_v3`, `retier_v4` and `retier_ekubo` of src/shadow_arena.rs: one pool moves to another tier. The
-- three have one text, over the slots of their own family; here that family is an interface.
use reth_exex_liquidity.Common.{
  not, ◌&&◌, ◌||◌, if◌then◌else◌, Bool, true, false, Option, none, some, ◌≡◌, refl, sym, ◌∙◌, ap,
  Bool-cases, inl, inr,
}
use reth_exex_liquidity.Arena.Writer.{
  PoolTier, low, active, popular, major, WriterError, no_free_slots, Result, ok, err,
}
use reth_exex_liquidity.Arena.Apply.{ApplyError, writer}

abbrev pub same_tier : PoolTier → PoolTier → Bool
same_tier low low = true
same_tier active active = true
same_tier popular popular = true
same_tier major major = true
same_tier _ _ = false

same_tier-eq : (t u : PoolTier) → same_tier t u ≡ true → t ≡ u
same_tier-eq low low e = refl
same_tier-eq active active e = refl
same_tier-eq popular popular e = refl
same_tier-eq major major e = refl
same_tier-eq _ _ e = cc

-- The slots of a family as the writer has them, for the address or id of one pool.
pub record TierSlots (W Pool : Type 0) : Type 0 where
  pub tier_of : Pool → PoolTier
  pub tier_has_free_slot : W → PoolTier → Bool
  pub get_pool : W → Option Pool
  pub remove_pool : W → W × Result WriterError Unit
  pub add_pool : Pool → W → W × Result WriterError Unit
  pub signal_topology_change : W → W

module _ {W Pool : Type 0} (slots : TierSlots W Pool) where
  abbrev pub in_tier : PoolTier → Option Pool → Bool
  in_tier t none = false
  in_tier t (some p) = same_tier (slots.tier_of p) t

  abbrev pub finish_add : W × Result WriterError Unit → W × Result ApplyError Unit
  finish_add (c, ok done) = (slots.signal_topology_change c, ok tt)
  finish_add (c, err e) = (c, err (writer e))

  abbrev pub finish_remove : Pool → W × Result WriterError Unit → W × Result ApplyError Unit
  finish_remove pool (b, ok done) = finish_add (slots.add_pool pool b)
  finish_remove pool (b, err e) = (b, err (writer e))

  unfoldable pub retier : Pool → W → W × Result ApplyError Unit
  retier pool a =
      let tier = slots.tier_of pool in
      if not (slots.tier_has_free_slot a tier) && not (in_tier tier (slots.get_pool a))
      then (a, err (writer (no_free_slots tier)))
      else finish_remove pool (slots.remove_pool a)

  -- What the writer documents: a removed pool leaves a free slot in its tier, and all others as they
  -- were; a pool is added where its tier has a free slot.
  pub record TierLaws : Type 0 where
    pub removes :
        (a : W) (p : Pool)
        → slots.get_pool a ≡ some p
        → (b : W) × (slots.remove_pool a ≡ (b, ok tt))
          × (slots.tier_has_free_slot b (slots.tier_of p) ≡ true)
          × ((t : PoolTier)
              → slots.tier_has_free_slot a t ≡ true
              → slots.tier_has_free_slot b t ≡ true)
    pub adds :
        (a : W) (p : Pool)
        → slots.tier_has_free_slot a (slots.tier_of p) ≡ true
        → (b : W) × (slots.add_pool p a ≡ (b, ok tt)) × (slots.get_pool b ≡ some p)
    pub signals : (a : W) → slots.get_pool (slots.signal_topology_change a) ≡ slots.get_pool a

  moves :
      (laws : TierLaws) (pool old : Pool) (a : W)
      → slots.get_pool a ≡ some old
      → ((b : W)
          → slots.tier_has_free_slot b (slots.tier_of old) ≡ true
          → ((t : PoolTier)
              → slots.tier_has_free_slot a t ≡ true
              → slots.tier_has_free_slot b t ≡ true)
          → slots.tier_has_free_slot b (slots.tier_of pool) ≡ true)
      → let x = finish_remove pool (slots.remove_pool a) in
        (slots.get_pool x.0 ≡ some pool) × (x.1 ≡ ok tt)
  moves laws pool old a h room =
      let (b, removed, freed, kept) = laws.removes a old h in
      let (c, added, there) = laws.adds b pool (room b freed kept) in
      rw (removed, added) (laws.signals c ∙ there, refl)

  -- A pool that the arena has is never lost by its promotion: where its new tier has a free slot, or is
  -- the tier it is in already, the arena has the new pool then; else the old one, and the error says
  -- which tier is full.
  pub retier-keeps :
      (laws : TierLaws) (pool old : Pool) (a : W)
      → slots.get_pool a ≡ some old
      → let tier = slots.tier_of pool in
        let room = slots.tier_has_free_slot a tier || same_tier (slots.tier_of old) tier in
        let x = retier pool a in
        (slots.get_pool x.0 ≡ some (if room then pool else old))
        × (x.1 ≡ (if room then ok tt else err (writer (no_free_slots tier))))
  unfolding retier
  retier-keeps laws pool old a h =
      elim (Bool-cases (slots.tier_has_free_slot a (slots.tier_of pool))) [
        | inl e ↦ rw e (moves laws pool old a h (λ b freed kept. kept _ e))
        | inr e ↦ elim (Bool-cases (same_tier (slots.tier_of old) (slots.tier_of pool))) [
          | inl f ↦
              let same = same_tier-eq _ _ f in
              rw (e, h, f)
                (moves laws pool old a h
                  (λ b freed kept. ap (slots.tier_has_free_slot b) (sym same) ∙ freed))
          | inr f ↦ rw (e, h, f) (h, refl)
        ]
      ]
