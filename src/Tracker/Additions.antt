-- ===== src/Tracker/Additions.antt =====
-- What `add_pools` of src/pool_tracker.rs does to a coherent whitelist, and what it surfaces.
use reth_exex_liquidity.Common.{
  Bool, true, false, not, ◌||◌, ◌&&◌, List, [], ◌∷◌, ◌++◌, ◌≡◌, refl, ap, sym, ◌∙◌, arith, fold,
  All, Bool-cases, inl, inr, if◌then◌else◌,
}
use reth_exex_liquidity.Common.Maps.{lookup-insert}
use reth_exex_liquidity.Types.{
  Address, PoolId, PoolIdentifier, address, pool_id, same_identifier, same_identifier_eq, Protocol,
  uniswap_v2, PoolMetadata,
}
use reth_exex_liquidity.Tracker.{
  PoolTracker, add_pool, add_pools, track, track_singleton, surface_added, ensure_liquidity_layer,
  already_tracked,
}
use reth_exex_liquidity.Tracker.Updates.{is_tracked, lists}
use reth_exex_liquidity.Tracker.Roles.{Role, Directory, FitsAt, Fits, Coherent}
use reth_exex_liquidity.Tracker.Adding.{add_pool-Coherent}
use reth_exex_liquidity.Tracker.Effects.{lists-append}

-- What one new pool does to the answers.
record Added (s : Bool) (m : PoolMetadata) (t u : PoolTracker) (q : PoolIdentifier) : Type 0 where
  whitelist : is_tracked u q ≡ (same_identifier m.pool_id q || is_tracked t q)
  added :
      lists u.newly_added q
      ≡ (lists t.newly_added q || (s && same_identifier m.pool_id q && not (is_tracked t q)))
  removed : u.newly_removed ≡ t.newly_removed

track_singleton-is_tracked :
    (p : Protocol) (i : PoolId) (t : PoolTracker) (q : PoolIdentifier)
    → is_tracked (track_singleton p i t) q ≡ is_tracked t q
unfolding track_singleton is_tracked
track_singleton-is_tracked uniswap_v2 i t (address a) = refl
track_singleton-is_tracked uniswap_v2 i t (pool_id j) = refl
track_singleton-is_tracked _ i t (address a) = refl
track_singleton-is_tracked _ i t (pool_id j) = refl

track_singleton_queues :
    (p : Protocol) (i : PoolId) (t : PoolTracker)
    → ((track_singleton p i t).newly_added ≡ t.newly_added)
      × ((track_singleton p i t).newly_removed ≡ t.newly_removed)
unfolding track_singleton
track_singleton_queues uniswap_v2 i t = (refl, refl)
track_singleton_queues _ i t = (refl, refl)

track_queues :
    (p : PoolIdentifier) (m : PoolMetadata) (t : PoolTracker)
    → ((track p m t).newly_added ≡ t.newly_added) × ((track p m t).newly_removed ≡ t.newly_removed)
unfolding track
track_queues (address a) m t = (refl, refl)
track_queues (pool_id i) m t = track_singleton_queues m.protocol i _

track-is_tracked :
    (p : PoolIdentifier) (m : PoolMetadata) (t : PoolTracker) (q : PoolIdentifier)
    → is_tracked (track p m t) q ≡ (same_identifier p q || is_tracked t q)
unfolding track is_tracked
track-is_tracked (address a) m t (address b) =
    ground (arith, lookup-insert a b m t.pools_by_address)
track-is_tracked (address a) m t (pool_id j) = refl
track-is_tracked (pool_id i) m t (address b) = track_singleton-is_tracked m.protocol i _ (address b)
track-is_tracked (pool_id i) m t (pool_id j) =
    track_singleton-is_tracked m.protocol i _ (pool_id j)
    ∙ ground (arith, lookup-insert i j m t.pools_by_id)

surface_added-is_tracked :
    (s : Bool) (m : PoolMetadata) (t : PoolTracker) (q : PoolIdentifier)
    → is_tracked (surface_added s m t) q ≡ is_tracked t q
unfolding surface_added is_tracked
surface_added-is_tracked s m t (address a) = refl
surface_added-is_tracked s m t (pool_id i) = refl

same_tracked :
    (t : PoolTracker) (p q : PoolIdentifier)
    → same_identifier p q ≡ true
    → is_tracked t p ≡ is_tracked t q
same_tracked t p q e = ap (is_tracked t) (same_identifier_eq p q e)

module _ (roles : Address → Role) (directory : Directory roles) where
  -- The test that skips an entry says of a fitting entry whether its pool is whitelisted.
  already_tracked-is_tracked :
      (t : PoolTracker) (p : PoolIdentifier) (k : Protocol)
      → FitsAt roles p k
      → Coherent roles t
      → already_tracked t p ≡ is_tracked t p
  unfolding already_tracked is_tracked
  already_tracked-is_tracked t (address a) k f h =
      ground (arith, h.addresses_tracked a, h.plain_tracked a)
  already_tracked-is_tracked t (pool_id i) k f h = h.ids_tracked i

  fresh-Added :
      (s : Bool) (t : PoolTracker) (m : PoolMetadata) (q : PoolIdentifier)
      → is_tracked t m.pool_id ≡ false
      → Added s m t (surface_added s m (track m.pool_id m t)) q
  unfolding surface_added lists
  fresh-Added s t m q fresh =
      let u = track m.pool_id m t in
      let queues = track_queues m.pool_id m t in
      record {
        whitelist = surface_added-is_tracked s m u q ∙ track-is_tracked m.pool_id m t q;
        added = queued s queues.0 (same_tracked t m.pool_id q);
        removed = queues.1;
      }
    where
      queued :
          (s : Bool)
          → (track m.pool_id m t).newly_added ≡ t.newly_added
          → (same_identifier m.pool_id q ≡ true → is_tracked t m.pool_id ≡ is_tracked t q)
          → lists
              (if s
                then (track m.pool_id m t).newly_added ++ m ∷ []
                else (track m.pool_id m t).newly_added)
              q
            ≡ (lists t.newly_added q || (s && same_identifier m.pool_id q && not (is_tracked t q)))
      queued true e agree =
          ap (λ ms. lists (ms ++ m ∷ []) q) e
          ∙ lists-append t.newly_added (m ∷ []) q
          ∙ ground (arith, agree, fresh)
      queued false e agree = ap (λ ms. lists ms q) e ∙ ground arith

  add_pool-Added :
      (s : Bool) (t : PoolTracker) (m : PoolMetadata) (q : PoolIdentifier)
      → Fits roles m
      → Coherent roles t
      → Added s m t (add_pool s t m) q
  unfolding add_pool
  add_pool-Added s t m q f h =
      let same = already_tracked-is_tracked t m.pool_id m.protocol f h in
      let agree = same_tracked t m.pool_id q in
      elim (Bool-cases (already_tracked t m.pool_id)) [
        | inl old ↦ rw old (record {
          whitelist = ground (arith, agree);
          added = ground (arith, agree);
          removed = refl;
        })
        | inr fresh ↦ rw fresh (fresh-Added s t m q (sym same ∙ fresh))
      ]

  add_each_effect :
      (s : Bool) (ms : List PoolMetadata) (t : PoolTracker) (q : PoolIdentifier)
      → All (Fits roles) ms
      → Coherent roles t
      → let u = fold (add_pool s) t ms in
        (is_tracked u q ≡ (lists ms q || is_tracked t q))
        × (lists u.newly_added q
            ≡ (lists t.newly_added q || (s && lists ms q && not (is_tracked t q))))
        × (u.newly_removed ≡ t.newly_removed)
  unfolding fold lists
  add_each_effect s [] t q f h = ground arith
  add_each_effect s (m ∷ ms) t q f h =
      let one = add_pool-Added s t m q f.0 h in
      let ih =
        add_each_effect s ms (add_pool s t m) q f.1
          (add_pool-Coherent roles directory s t m f.0 h) in
      (
        ground (arith, ih.0, one.whitelist),
        ground (arith, ih.1, one.added, one.whitelist),
        ih.2 ∙ one.removed,
      )

  layer_unseen :
      (t : PoolTracker) (q : PoolIdentifier)
      → (is_tracked (ensure_liquidity_layer t) q ≡ is_tracked t q)
        × ((ensure_liquidity_layer t).newly_added ≡ t.newly_added)
        × ((ensure_liquidity_layer t).newly_removed ≡ t.newly_removed)
  unfolding ensure_liquidity_layer is_tracked
  layer_unseen t (address a) = ground arith
  layer_unseen t (pool_id i) = ground arith

  -- In a coherent tracker, with pools that fit the roles: after `add_pools` exactly the pools are
  -- whitelisted that were or that are listed; exactly the listed pools that were not whitelisted join
  -- the queue for hydration, and none when `surface_newly_added` is false; the queue of removed
  -- pools stays.
  pub add_pools_effect :
      (ms : List PoolMetadata) (s : Bool) (t : PoolTracker) (q : PoolIdentifier)
      → All (Fits roles) ms
      → Coherent roles t
      → (is_tracked (add_pools ms s t) q ≡ (lists ms q || is_tracked t q))
        × (lists (add_pools ms s t).newly_added q
            ≡ (lists t.newly_added q || (s && lists ms q && not (is_tracked t q))))
        × ((add_pools ms s t).newly_removed ≡ t.newly_removed)
  unfolding add_pools
  add_pools_effect ms s t q f h =
      let u = fold (add_pool s) t ms in
      let all = add_each_effect s ms t q f h in
      let same = layer_unseen u q in
      (same.0 ∙ all.0, ap (λ l. lists l q) same.1 ∙ all.1, same.2 ∙ all.2)
