-- ===== src/Tracker/Adding.antt =====
-- `add_pools` keeps the whitelist coherent.
use reth_exex_liquidity.Common.{
  ℕ, subst, Bool, true, false, not, ◌&&◌, ltb, List, ◌≡◌, refl, ap, sym, ◌∙◌, arith, fold, fold_inv,
  All, some, Bool-cases, inl, inr, ◌==◌, ◌≢◌, ne→==, ==_iff,
}
use reth_exex_liquidity.Common.Maps.{
  lookup, contains_key, Distinct, count_where, insert-Distinct, lookup-insert, count_where-insert,
}
use reth_exex_liquidity.Common.Maps
use reth_exex_liquidity.Common.Sets.{contains, contains-insert}
use reth_exex_liquidity.Common.Sets
use reth_exex_liquidity.Types.{
  Address, PoolId, PoolIdentifier, address, pool_id, Protocol, uniswap_v4, ekubo,
  balancer_v2_weighted, PoolMetadata,
}
use reth_exex_liquidity.Tracker.{
  PoolTracker, add_pool, add_pools, track, track_singleton, surface_added, ensure_liquidity_layer,
  already_tracked, uniswap_v4_pool_manager, ekubo_core, balancer_v2_vault, fluid_liquidity_layer,
  pool_contract,
}
use reth_exex_liquidity.Tracker.Roles.{
  Role, plain, singleton, contract_of, Directory, FitsAt, Fits, Emits, Coherent, WellFormed,
}
use reth_exex_liquidity.Tracker.Entry.{
  singleton≢plain, contract≢plain, Emits-more, insert_more, track_address-Coherent,
  track_id-Coherent,
}

module _ (roles : Address → Role) (directory : Directory roles) where
  insert_exact :
      (k : Address) (xs : List Address)
      → roles k ≢ plain
      → (a : Address) → contains a (Sets.insert k xs) ≡ true
      → roles a ≡ plain
      → contains a xs ≡ true
  insert_exact k xs apart a e r =
      rw (contains-insert k a xs, ne→== k a (λ q. apart (ap roles q ∙ r))) at e

  singleton_apart : (k : Address) → roles k ≡ singleton → roles k ≢ plain
  singleton_apart k s q = singleton≢plain roles directory (sym s ∙ q)

  -- Where no contract is added.
  singleton_only :
      (k : Address) (t : PoolTracker) (p : Protocol) (j : PoolId)
      → Emits roles t.tracked_addresses t.balancer_pools_by_addr p j
      → Emits roles (Sets.insert k t.tracked_addresses) t.balancer_pools_by_addr p j
  singleton_only k t p j =
      Emits-more roles directory t.tracked_addresses (Sets.insert k t.tracked_addresses)
        t.balancer_pools_by_addr p j (insert_more roles directory k t.tracked_addresses)

  contains-insert_self : (k : ℕ) (xs : List ℕ) → contains k (Sets.insert k xs) ≡ true
  contains-insert_self k xs = ground (arith, contains-insert k k xs)

  two_more :
      (k l : Address) (xs : List Address) (a : Address)
      → contains a xs ≡ true
      → contains a (Sets.insert k (Sets.insert l xs)) ≡ true
  two_more k l xs a h =
      insert_more roles directory k (Sets.insert l xs) a (insert_more roles directory l xs a h)

  contract_of-injective : (i j : PoolId) → contract_of i ≡ contract_of j → i ≡ j
  contract_of-injective i j e = cc

  contract_kept :
      (i j : PoolId) (cs : List (Address × PoolId))
      → roles (pool_contract i) ≡ contract_of i
      → roles (pool_contract j) ≡ contract_of j
      → lookup (pool_contract j) cs ≡ some j
      → lookup (pool_contract j) (Maps.insert (pool_contract i) i cs) ≡ some j
  contract_kept i j cs ri rj e = elim (Bool-cases (pool_contract i == pool_contract j)) [
    | inl same ↦
        let agree : pool_contract i ≡ pool_contract j = ground arith in
        let eq : i ≡ j = contract_of-injective i j (sym ri ∙ ap roles agree ∙ rj) in
        rw (lookup-insert, same) (ap some eq)
    | inr other ↦ rw (lookup-insert, other) e
  ]

  balancer_more :
      (i : PoolId) (t : PoolTracker) (p : Protocol) (j : PoolId)
      → roles (pool_contract i) ≡ contract_of i
      → Emits roles t.tracked_addresses t.balancer_pools_by_addr p j
      → Emits roles
          (Sets.insert (pool_contract i) (Sets.insert balancer_v2_vault t.tracked_addresses))
          (Maps.insert (pool_contract i) i t.balancer_pools_by_addr)
          p
          j
  balancer_more i t uniswap_v4 j fits e =
      two_more (pool_contract i) balancer_v2_vault t.tracked_addresses uniswap_v4_pool_manager e
  balancer_more i t ekubo j fits e =
      two_more (pool_contract i) balancer_v2_vault t.tracked_addresses ekubo_core e
  balancer_more i t balancer_v2_weighted j fits e = (
    two_more (pool_contract i) balancer_v2_vault t.tracked_addresses balancer_v2_vault e.0,
    two_more (pool_contract i) balancer_v2_vault t.tracked_addresses (pool_contract j) e.1,
    contract_kept i j t.balancer_pools_by_addr fits e.3 e.2,
    e.3,
  )
  balancer_more i t _ j fits e = tt

  track_singleton-Coherent :
      (s : Bool) (t : PoolTracker) (i : PoolId) (m : PoolMetadata) (p : Protocol)
      → m.protocol ≡ p
      → FitsAt roles (pool_id i) p
      → contains i t.tracked_pool_ids ≡ false
      → Coherent roles t
      → Coherent roles (
          surface_added s m (
            track_singleton p i (record t {
              tracked_pool_ids = Sets.insert i t.tracked_pool_ids;
              pools_by_id = Maps.insert i m t.pools_by_id;
            })))
  unfolding surface_added track_singleton
  track_singleton-Coherent s t i m uniswap_v4 e fits fresh h =
      let xs = Sets.insert uniswap_v4_pool_manager t.tracked_addresses in
      let cs = t.balancer_pools_by_addr in
      track_id-Coherent roles directory t i m _ xs cs fresh
        (insert_more roles directory uniswap_v4_pool_manager t.tracked_addresses)
        (singleton_only uniswap_v4_pool_manager t)
        (subst (λ p. Emits roles xs cs p i) (sym e)
          (contains-insert_self uniswap_v4_pool_manager t.tracked_addresses))
        (insert_exact uniswap_v4_pool_manager t.tracked_addresses
          (singleton_apart uniswap_v4_pool_manager directory.manager))
        (λ a j k. inl k) h
  track_singleton-Coherent s t i m ekubo e fits fresh h =
      let xs = Sets.insert ekubo_core t.tracked_addresses in
      let cs = t.balancer_pools_by_addr in
      track_id-Coherent roles directory t i m _ xs cs fresh
        (insert_more roles directory ekubo_core t.tracked_addresses) (singleton_only ekubo_core t)
        (subst (λ p. Emits roles xs cs p i) (sym e)
          (contains-insert_self ekubo_core t.tracked_addresses))
        (insert_exact ekubo_core t.tracked_addresses (singleton_apart ekubo_core directory.core))
        (λ a j k. inl k) h
  track_singleton-Coherent s t i m balancer_v2_weighted e fits fresh h =
      let c = pool_contract i in
      let xs = Sets.insert c (Sets.insert balancer_v2_vault t.tracked_addresses) in
      let cs = Maps.insert c i t.balancer_pools_by_addr in
      track_id-Coherent roles directory t i m _ xs cs fresh
        (two_more c balancer_v2_vault t.tracked_addresses) (λ q j. balancer_more i t q j fits)
        (subst (λ p. Emits roles xs cs p i) (sym e)
          (
            insert_more roles directory c (Sets.insert balancer_v2_vault t.tracked_addresses)
                balancer_v2_vault (contains-insert_self balancer_v2_vault t.tracked_addresses),
            contains-insert_self c (Sets.insert balancer_v2_vault t.tracked_addresses),
            ground (arith, lookup-insert c c i t.balancer_pools_by_addr),
            fits,
          ))
        (λ a k r.
          insert_exact balancer_v2_vault t.tracked_addresses
            (singleton_apart balancer_v2_vault directory.vault) a
            (insert_exact c (Sets.insert balancer_v2_vault t.tracked_addresses)
              (λ q. contract≢plain roles directory i (sym fits ∙ q)) a k r)
            r)
        (λ a j k. elim (Bool-cases (c == a)) [
          | inl here ↦
              let new : some i ≡ some j =
                ground (arith, lookup-insert c a i t.balancer_pools_by_addr) in
              inr ((cc new), (==_iff c a).0 here, rw e refl)
          | inr other ↦ inl (ground (arith, lookup-insert c a i t.balancer_pools_by_addr))
        ])
        h
  track_singleton-Coherent s t i m _ e fits fresh h =
      track_id-Coherent roles directory t i m _ t.tracked_addresses t.balancer_pools_by_addr fresh
        (λ a k. k) (λ q j k. k)
        (subst (λ p. Emits roles t.tracked_addresses t.balancer_pools_by_addr p i) (sym e) tt)
        (λ a k r. k) (λ a j k. inl k) h

  track-Coherent :
      (s : Bool) (t : PoolTracker) (m : PoolMetadata) (p : PoolIdentifier)
      → FitsAt roles p m.protocol
      → already_tracked t p ≡ false
      → Coherent roles t
      → Coherent roles (surface_added s m (track p m t))
  unfolding surface_added track already_tracked
  track-Coherent s t m (address a) fits fresh h =
      track_address-Coherent roles directory t a m _ fresh fits h
  track-Coherent s t m (pool_id i) fits fresh h =
      track_singleton-Coherent s t i m m.protocol refl fits fresh h

  pub add_pool-Coherent :
      (s : Bool) (t : PoolTracker) (m : PoolMetadata)
      → Fits roles m
      → Coherent roles t
      → Coherent roles (add_pool s t m)
  unfolding add_pool
  add_pool-Coherent s t m fits h = elim (Bool-cases (already_tracked t m.pool_id)) [
    | inl old ↦ rw old h
    | inr fresh ↦ rw fresh (track-Coherent s t m m.pool_id fits fresh h)
  ]

  layer_more :
      (t : PoolTracker)
      → Coherent roles t
      → Coherent roles
          (record t { tracked_addresses = Sets.insert fluid_liquidity_layer t.tracked_addresses })
  layer_more t h = record {
    distinct_addresses = h.distinct_addresses;
    distinct_ids = h.distinct_ids;
    ids_tracked = h.ids_tracked;
    addresses_tracked = λ a e.
        insert_more roles directory fluid_liquidity_layer t.tracked_addresses a
          (h.addresses_tracked a e);
    addresses_plain = h.addresses_plain;
    plain_tracked = λ a e r.
        h.plain_tracked a
          (insert_exact fluid_liquidity_layer t.tracked_addresses
            (singleton_apart fluid_liquidity_layer directory.layer) a e r)
          r;
    emitters_tracked =
        λ i m e. singleton_only fluid_liquidity_layer t m.protocol i (h.emitters_tracked i m e);
    contracts_known = h.contracts_known;
    counted = h.counted;
  }

  ensure_liquidity_layer-WellFormed :
      (t : PoolTracker) → Coherent roles t → WellFormed roles (ensure_liquidity_layer t)
  unfolding ensure_liquidity_layer
  ensure_liquidity_layer-WellFormed t h =
      elim (Bool-cases
        (ltb 0 t.counts.fluid_count && not (contains fluid_liquidity_layer t.tracked_addresses))) [
          | inl missing ↦ rw missing (record {
            coherent = layer_more t h;
            layer_tracked = λ _. contains-insert_self fluid_liquidity_layer t.tracked_addresses;
          })
          | inr there ↦ rw there (record { coherent = h; layer_tracked = λ e. ground arith })
        ]

  -- `add_pools` turns a coherent tracker into a well-formed one, live or at startup.
  pub add_pools-WellFormed :
      (ms : List PoolMetadata) (s : Bool) (t : PoolTracker)
      → All (Fits roles) ms
      → Coherent roles t
      → WellFormed roles (add_pools ms s t)
  unfolding add_pools
  add_pools-WellFormed ms s t fits h =
      ensure_liquidity_layer-WellFormed (fold (add_pool s) t ms)
        (fold_inv (Coherent roles) (Fits roles) (add_pool s) (add_pool-Coherent s) t ms fits h)
