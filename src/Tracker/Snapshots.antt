-- ===== src/Tracker/Snapshots.antt =====
-- What `replace_all` of src/pool_tracker.rs does to a well-formed whitelist, and what it surfaces.
use reth_exex_liquidity.Common.{
  ℕ, Bool, true, false, not, ◌||◌, ◌&&◌, List, [], ◌∷◌, ◌≡◌, refl, ap, ◌∙◌, arith, fold, All,
  retain, map,
}
use reth_exex_liquidity.Common.Maps.{lookup, contains_key, lookup-insert}
use reth_exex_liquidity.Common.Maps
use reth_exex_liquidity.Types.{
  Address, PoolId, PoolIdentifier, address, pool_id, same_identifier, same_identifier_eq,
  PoolMetadata,
}
use reth_exex_liquidity.Tracker.{PoolTracker, remove_pools}
use reth_exex_liquidity.Tracker.Updates.{
  is_tracked, lists, tracked_identifiers, replace_all, refresh, refresh_at, refresh_entry,
}
use reth_exex_liquidity.Tracker.Roles.{Role, Directory, Fits, WellFormed}
use reth_exex_liquidity.Tracker.Removing.{remove_pools-WellFormed}
use reth_exex_liquidity.Tracker.Replacing.{refresh_all-WellFormed}
use reth_exex_liquidity.Tracker.Effects.{mentions, mentions-append, remove_pools_effect}
use reth_exex_liquidity.Tracker.Additions.{add_pools_effect}

refresh_entry-contains_key :
    (k j : ℕ) (m : PoolMetadata) (e : List (ℕ × PoolMetadata))
    → contains_key j (refresh_entry k m e) ≡ contains_key j e
unfolding refresh_entry
refresh_entry-contains_key k j m e = ground (arith, lookup-insert k j m e)

refresh_at_unseen :
    (p : PoolIdentifier) (m : PoolMetadata) (t : PoolTracker) (q : PoolIdentifier)
    → (is_tracked (refresh_at p m t) q ≡ is_tracked t q)
      × ((refresh_at p m t).newly_added ≡ t.newly_added)
      × ((refresh_at p m t).newly_removed ≡ t.newly_removed)
unfolding refresh_at is_tracked
refresh_at_unseen (address a) m t (address b) =
    (refresh_entry-contains_key a b m t.pools_by_address, refl, refl)
refresh_at_unseen (address a) m t (pool_id j) = (refl, refl, refl)
refresh_at_unseen (pool_id i) m t (address b) = (refl, refl, refl)
refresh_at_unseen (pool_id i) m t (pool_id j) =
    (refresh_entry-contains_key i j m t.pools_by_id, refl, refl)

refresh_all_unseen :
    (ms : List PoolMetadata) (t : PoolTracker) (q : PoolIdentifier)
    → let u = fold refresh t ms in
      (is_tracked u q ≡ is_tracked t q)
      × (u.newly_added ≡ t.newly_added)
      × (u.newly_removed ≡ t.newly_removed)
unfolding fold refresh
refresh_all_unseen [] t q = (refl, refl, refl)
refresh_all_unseen (m ∷ ms) t q =
    let one = refresh_at_unseen m.pool_id m t q in
    let ih = refresh_all_unseen ms (refresh_at m.pool_id m t) q in
    (ih.0 ∙ one.0, ih.1 ∙ one.1, ih.2 ∙ one.2)

mentions-addresses :
    (m : List (Address × PoolMetadata)) (q : PoolIdentifier)
    → mentions (map address (Maps.keys m)) q
      ≡ elim q [ address a ↦ contains_key a m | pool_id i ↦ false ]
unfolding mentions Maps.keys lookup
mentions-addresses [] (address a) = refl
mentions-addresses [] (pool_id i) = refl
mentions-addresses ((k, v) ∷ m) (address a) = ground (arith, mentions-addresses m (address a))
mentions-addresses ((k, v) ∷ m) (pool_id i) = mentions-addresses m (pool_id i)

mentions-ids :
    (m : List (PoolId × PoolMetadata)) (q : PoolIdentifier)
    → mentions (map pool_id (Maps.keys m)) q
      ≡ elim q [ address a ↦ false | pool_id i ↦ contains_key i m ]
unfolding mentions Maps.keys lookup
mentions-ids [] (address a) = refl
mentions-ids [] (pool_id i) = refl
mentions-ids ((k, v) ∷ m) (pool_id i) = ground (arith, mentions-ids m (pool_id i))
mentions-ids ((k, v) ∷ m) (address a) = mentions-ids m (address a)

mentions-tracked_identifiers :
    (t : PoolTracker) (q : PoolIdentifier) → mentions (tracked_identifiers t) q ≡ is_tracked t q
unfolding tracked_identifiers is_tracked
mentions-tracked_identifiers t (address a) =
    mentions-append (map address (Maps.keys t.pools_by_address)) _ (address a)
    ∙ ground (
      arith,
      mentions-addresses t.pools_by_address (address a),
      mentions-ids t.pools_by_id (address a),
    )
mentions-tracked_identifiers t (pool_id i) =
    mentions-append (map address (Maps.keys t.pools_by_address)) _ (pool_id i)
    ∙ ground (
      arith,
      mentions-addresses t.pools_by_address (pool_id i),
      mentions-ids t.pools_by_id (pool_id i),
    )

mentions-retain :
    (keep : PoolIdentifier → Bool) (ps : List PoolIdentifier) (q : PoolIdentifier)
    → mentions (retain keep ps) q ≡ (mentions ps q && keep q)
unfolding mentions retain
mentions-retain keep [] q = refl
mentions-retain keep (p ∷ ps) q =
    let agree = λ (e : same_identifier p q ≡ true). ap keep (same_identifier_eq p q e) in
    ground (arith, mentions-retain keep ps q, agree)

module _ (roles : Address → Role) (directory : Directory roles) where
  -- In a well-formed tracker, with a snapshot that fits the roles: after `replace_all` exactly the
  -- pools of the snapshot are whitelisted; the pools that it drops, and no others, join the queue
  -- for removal from the arena; the queue for hydration keeps its pools that are not dropped, and
  -- exactly the pools of the snapshot that were not whitelisted join it.
  pub replace_all_effect :
      (ms : List PoolMetadata) (t : PoolTracker) (q : PoolIdentifier)
      → All (Fits roles) ms
      → WellFormed roles t
      → (is_tracked (replace_all ms t) q ≡ lists ms q)
        × (mentions (replace_all ms t).newly_removed q
            ≡ (mentions t.newly_removed q || (is_tracked t q && not (lists ms q))))
        × (lists (replace_all ms t).newly_added q ≡ (
            (lists t.newly_added q && not (is_tracked t q && not (lists ms q)))
            || (lists ms q && not (is_tracked t q))))
  unfolding replace_all
  replace_all_effect ms t q f h =
      let gone = retain (λ p. not (lists ms p)) (tracked_identifiers t) in
      let t1 = remove_pools gone t in
      let t2 = fold refresh t1 ms in
      let w1 = remove_pools-WellFormed roles directory gone t h in
      let w2 = refresh_all-WellFormed roles directory t1 ms w1 in
      let dropped : mentions gone q ≡ (is_tracked t q && not (lists ms q)) =
        mentions-retain (λ p. not (lists ms p)) (tracked_identifiers t) q
        ∙ ap (λ b. b && not (lists ms q)) (mentions-tracked_identifiers t q) in
      let e1 = remove_pools_effect gone t q in
      let e2 = refresh_all_unseen ms t1 q in
      let e3 = add_pools_effect roles directory ms true t2 q f w2.coherent in
      (
        ground (arith, e3.0, e2.0, e1.0, dropped),
        ap (λ l. mentions l q) (e3.2 ∙ e2.2) ∙ ground (arith, e1.1, dropped),
        e3.1
            ∙ ap (λ l. lists l q || (lists ms q && not (is_tracked t2 q))) e2.1
            ∙ ground (arith, e2.0, e1.0, e1.2, dropped),
      )
