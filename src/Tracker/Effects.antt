-- ===== src/Tracker/Effects.antt =====
-- What `remove_pools`, `add_pools` and `replace_all` do to the whitelist, and what they hand to
-- the shared arena: the queues of added and of removed pools.
use reth_exex_liquidity.Common.{
  Bool, true, false, not, ◌||◌, ◌&&◌, List, [], ◌∷◌, ◌++◌, ◌≡◌, refl, ap, ◌∙◌, arith, fold,
  if◌then◌else◌, retain,
}
use reth_exex_liquidity.Common.Maps.{lookup-remove}
use reth_exex_liquidity.Types.{
  PoolIdentifier, address, pool_id, same_identifier, same_identifier_refl, same_identifier_eq,
  PoolMetadata,
}
use reth_exex_liquidity.Tracker.{
  PoolTracker, remove_pool, remove_pools, untrack, forget_added, remove_address, remove_id,
}
use reth_exex_liquidity.Tracker.Updates.{is_tracked, lists}

-- Whether a list of identifiers holds one.
unfoldable pub mentions : List PoolIdentifier → PoolIdentifier → Bool
mentions [] q = false
mentions (p ∷ ps) q = if same_identifier p q then true else mentions ps q

pub mentions-append :
    (ps qs : List PoolIdentifier) (q : PoolIdentifier)
    → mentions (ps ++ qs) q ≡ (mentions ps q || mentions qs q)
unfolding mentions
mentions-append [] qs q = refl
mentions-append (p ∷ ps) qs q = ground (arith, mentions-append ps qs q)

pub lists-append :
    (ms ns : List PoolMetadata) (q : PoolIdentifier)
    → lists (ms ++ ns) q ≡ (lists ms q || lists ns q)
unfolding lists
lists-append [] ns q = refl
lists-append (m ∷ ms) ns q = ground (arith, lists-append ms ns q)

lists-retain :
    (p q : PoolIdentifier) (ms : List PoolMetadata)
    → lists (retain (λ m. not (same_identifier m.pool_id p)) ms) q
      ≡ (if same_identifier p q then false else lists ms q)
unfolding lists retain
lists-retain p q [] = ground arith
lists-retain p q (m ∷ ms) = ground (
  arith,
  lists-retain p q ms,
  same_identifier_eq m.pool_id p,
  same_identifier_eq m.pool_id q,
  same_identifier_eq p q,
  same_identifier_refl m.pool_id,
  same_identifier_refl p,
)

-- One round of the loop of `remove_pools`: `p` is gone, the rest stays; `p` is surfaced as removed
-- if it was whitelisted, and no longer waits for hydration.
record Removed (p : PoolIdentifier) (t u : PoolTracker) (q : PoolIdentifier) : Type 0 where
  whitelist : is_tracked u q ≡ (if same_identifier p q then false else is_tracked t q)
  removed :
      mentions u.newly_removed q
      ≡ (mentions t.newly_removed q || (same_identifier p q && is_tracked t q))
  added : lists u.newly_added q ≡ (if same_identifier p q then false else lists t.newly_added q)

untrack-newly_removed :
    (p q : PoolIdentifier) (t : PoolTracker)
    → mentions (untrack p t).newly_removed q
      ≡ (mentions t.newly_removed q || (same_identifier p q && is_tracked t q))
unfolding untrack is_tracked remove_address remove_id mentions
untrack-newly_removed (address a) (address b) t =
    ground (arith, mentions-append t.newly_removed (address a ∷ []) (address b))
untrack-newly_removed (address a) (pool_id j) t =
    ground (arith, mentions-append t.newly_removed (address a ∷ []) (pool_id j))
untrack-newly_removed (pool_id i) (address b) t =
    ground (arith, mentions-append t.newly_removed (pool_id i ∷ []) (address b))
untrack-newly_removed (pool_id i) (pool_id j) t =
    ground (arith, mentions-append t.newly_removed (pool_id i ∷ []) (pool_id j))

untrack-newly_added :
    (p : PoolIdentifier) (t : PoolTracker) → (untrack p t).newly_added ≡ t.newly_added
unfolding untrack remove_address remove_id
untrack-newly_added (address a) t = ground arith
untrack-newly_added (pool_id i) t = ground arith

untrack-is_tracked :
    (p q : PoolIdentifier) (t : PoolTracker)
    → is_tracked (untrack p t) q ≡ (if same_identifier p q then false else is_tracked t q)
unfolding untrack is_tracked remove_address remove_id
untrack-is_tracked (address a) (address b) t = ground (arith, lookup-remove a b t.pools_by_address)
untrack-is_tracked (address a) (pool_id j) t = ground arith
untrack-is_tracked (pool_id i) (address b) t = ground arith
untrack-is_tracked (pool_id i) (pool_id j) t = ground (arith, lookup-remove i j t.pools_by_id)

forget_added-is_tracked :
    (p q : PoolIdentifier) (t : PoolTracker) → is_tracked (forget_added p t) q ≡ is_tracked t q
unfolding forget_added is_tracked
forget_added-is_tracked p (address a) t = refl
forget_added-is_tracked p (pool_id i) t = refl

remove_pool-Removed : (t : PoolTracker) (p q : PoolIdentifier) → Removed p t (remove_pool t p) q
unfolding remove_pool forget_added
remove_pool-Removed t p q =
    let u = forget_added p t in
    let same = forget_added-is_tracked p q t in
    record {
      whitelist =
          untrack-is_tracked p q u ∙ ap (λ b. if same_identifier p q then false else b) same;
      removed =
          untrack-newly_removed p q u
          ∙ ap (λ b. mentions t.newly_removed q || (same_identifier p q && b)) same;
      added = ap (λ ms. lists ms q) (untrack-newly_added p u) ∙ lists-retain p q t.newly_added;
    }

-- After `remove_pools`, whatever the list: exactly those pools are whitelisted that were before and
-- are not named; those that were whitelisted and are named, and no others, join the queue for
-- removal from the arena; and exactly the named ones leave the queue of pools to hydrate.
pub remove_pools_effect :
    (ids : List PoolIdentifier) (t : PoolTracker) (q : PoolIdentifier)
    → (is_tracked (remove_pools ids t) q ≡ (if mentions ids q then false else is_tracked t q))
      × (mentions (remove_pools ids t).newly_removed q
          ≡ (mentions t.newly_removed q || (mentions ids q && is_tracked t q)))
      × (lists (remove_pools ids t).newly_added q
          ≡ (if mentions ids q then false else lists t.newly_added q))
unfolding remove_pools fold mentions
remove_pools_effect [] t q = ground arith
remove_pools_effect (p ∷ ids) t q =
    let ih = remove_pools_effect ids (remove_pool t p) q in
    let one = remove_pool-Removed t p q in
    (
      ground (arith, ih.0, one.whitelist),
      ground (arith, ih.1, one.removed, one.whitelist),
      ground (arith, ih.2, one.added),
    )
