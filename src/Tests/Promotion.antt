-- ===== src/Tests/Promotion.antt =====
-- The theorem on promotions at an arena that keeps its pools in maps and has room in every tier.
use reth_exex_liquidity.Common.{
  ℕ, ◌==◌, ==-refl, if◌then◌else◌, true, false, Option, none, some, [], ◌∷◌, ◌≡◌, refl,
}
use reth_exex_liquidity.Common.Int.{ℤ}
use reth_exex_liquidity.Types.{address, pool_id, uniswap_v3, uniswap_v4}
use reth_exex_liquidity.Arena.Writer.{ok}
use reth_exex_liquidity.Arena.Shadow.{ShadowArena, open_arena}
use reth_exex_liquidity.Arena.Retier.{TierSlots, TierLaws}
use reth_exex_liquidity.Hydration.Tiers.{TickPool}
use reth_exex_liquidity.Hydration.Promote.{Families, promote_overflowed_pools}
use reth_exex_liquidity.Hydration.Promoted.{
  FamilyLaws, Key, v3, v4, ekubo_pool, same_key, Apart, present, promote_overflowed_pools-keeps,
}
use reth_exex_liquidity.Tests.Hydration.{new_pools, sample_source, one_tick_held}

record MapArena : Type 0 where
  v3_map : ℕ → Option (TickPool ℤ)
  v4_map : ℕ → Option (TickPool ℤ)
  ekubo_map : ℕ → Option (TickPool ℕ)

abbrev set_at : {P : Type 0} → (ℕ → Option P) → ℕ → Option P → ℕ → Option P
set_at f a v b = if a == b then v else f b

abbrev map_slots :
    {Word : Type 0} (get : MapArena → ℕ → Option (TickPool Word))
    (put : (ℕ → Option (TickPool Word)) → MapArena → MapArena)
    → ℕ
    → TierSlots MapArena (TickPool Word)
map_slots get put a = record {
  tier_of = λ p. p.tier;
  tier_has_free_slot = λ w t. true;
  get_pool = λ w. get w a;
  remove_pool = λ w. (put (set_at (get w) a none) w, ok tt);
  add_pool = λ p w. (put (set_at (get w) a (some p)) w, ok tt);
  signal_topology_change = λ w. w;
}

abbrev put_v3 : (ℕ → Option (TickPool ℤ)) → MapArena → MapArena
put_v3 f w = record w { v3_map = f }

abbrev put_v4 : (ℕ → Option (TickPool ℤ)) → MapArena → MapArena
put_v4 f w = record w { v4_map = f }

abbrev put_ekubo : (ℕ → Option (TickPool ℕ)) → MapArena → MapArena
put_ekubo f w = record w { ekubo_map = f }

abbrev map_families : Families MapArena
map_families = record {
  v3_slots = map_slots (λ w. w.v3_map) put_v3;
  v4_slots = map_slots (λ w. w.v4_map) put_v4;
  ekubo_slots = map_slots (λ w. w.ekubo_map) put_ekubo;
}

map_slots-TierLaws :
    {Word : Type 0} (get : MapArena → ℕ → Option (TickPool Word))
    (put : (ℕ → Option (TickPool Word)) → MapArena → MapArena)
    → ((f : ℕ → Option (TickPool Word)) (w : MapArena) → get (put f w) ≡ f)
    → (a : ℕ) → TierLaws (map_slots get put a)
map_slots-TierLaws get put back a = record {
  removes = λ w p e. (_, refl, refl, λ t f. refl);
  adds = λ w p e. (_, refl, rw (back, ==-refl a) refl);
  signals = λ w. refl;
}

v3_map-Apart :
    (a : ℕ) (k : Key)
    → same_key (v3 a) k ≡ false
    → Apart (map_families.v3_slots a) (present map_families k)
v3_map-Apart a (v3 b) e = record {
  removing = λ w. rw e refl;
  adding = λ p w. rw e refl;
  signalling = λ w. refl;
}
v3_map-Apart a (v4 b) e = record {
  removing = λ w. refl;
  adding = λ p w. refl;
  signalling = λ w. refl;
}
v3_map-Apart a (ekubo_pool b) e = record {
  removing = λ w. refl;
  adding = λ p w. refl;
  signalling = λ w. refl;
}

v4_map-Apart :
    (a : ℕ) (k : Key)
    → same_key (v4 a) k ≡ false
    → Apart (map_families.v4_slots a) (present map_families k)
v4_map-Apart a (v3 b) e = record {
  removing = λ w. refl;
  adding = λ p w. refl;
  signalling = λ w. refl;
}
v4_map-Apart a (v4 b) e = record {
  removing = λ w. rw e refl;
  adding = λ p w. rw e refl;
  signalling = λ w. refl;
}
v4_map-Apart a (ekubo_pool b) e = record {
  removing = λ w. refl;
  adding = λ p w. refl;
  signalling = λ w. refl;
}

ekubo_map-Apart :
    (a : ℕ) (k : Key)
    → same_key (ekubo_pool a) k ≡ false
    → Apart (map_families.ekubo_slots a) (present map_families k)
ekubo_map-Apart a (v3 b) e = record {
  removing = λ w. refl;
  adding = λ p w. refl;
  signalling = λ w. refl;
}
ekubo_map-Apart a (v4 b) e = record {
  removing = λ w. refl;
  adding = λ p w. refl;
  signalling = λ w. refl;
}
ekubo_map-Apart a (ekubo_pool b) e = record {
  removing = λ w. rw e refl;
  adding = λ p w. rw e refl;
  signalling = λ w. refl;
}

map_families-FamilyLaws : FamilyLaws map_families
map_families-FamilyLaws = record {
  v3_laws = map_slots-TierLaws (λ w. w.v3_map) put_v3 (λ f w. refl);
  v4_laws = map_slots-TierLaws (λ w. w.v4_map) put_v4 (λ f w. refl);
  ekubo_laws = map_slots-TierLaws (λ w. w.ekubo_map) put_ekubo (λ f w. refl);
  v3_apart = v3_map-Apart;
  v4_apart = v4_map-Apart;
  ekubo_apart = ekubo_map-Apart;
}

abbrev one_tick_arena : ShadowArena MapArena
one_tick_arena =
    record (open_arena (record {
      v3_map = λ a. if a == 5 then some one_tick_held else none;
      v4_map = λ i. none;
      ekubo_map = λ i. none;
    })) { retier_pending = (uniswap_v3, address 5) ∷ (uniswap_v4, pool_id 77) ∷ [] }

promote_overflowed_pools-keeps_example :
    let u =
      promote_overflowed_pools map_families (sample_source new_pools) new_pools one_tick_arena in
    (present map_families (v3 5) u.arena ≡ true) × (u.retier_pending ≡ [])
unfolding open_arena
promote_overflowed_pools-keeps_example =
    promote_overflowed_pools-keeps map_families map_families-FamilyLaws (v3 5)
      (sample_source new_pools) new_pools one_tick_arena refl
