-- ===== src/Tracker/Removing.antt =====
-- `remove_pools` keeps the whitelist well formed: no counter wraps, and no contract that another
-- pool's logs come from is untracked.
use reth_exex_liquidity.Common.{
  ◌<◌, ◌≢◌, ap, true, false, not, List, ◌==◌, eq→==, ne→==, ==_iff, none, ◌≡◌, sym, ◌∙◌, arith,
  fold_inv, some, Bool-cases, Option-cases, inl, inr, retain, All-trivial,
}
use reth_exex_liquidity.Common.Maps.{
  lookup, contains_key, Distinct, count_where, remove-Distinct, lookup-remove, count_where-remove,
}
use reth_exex_liquidity.Common.Maps
use reth_exex_liquidity.Common.Sets.{contains, contains-remove}
use reth_exex_liquidity.Common.Sets
use reth_exex_liquidity.Types.{
  Address, PoolId, PoolIdentifier, address, pool_id, Protocol, uniswap_v2, balancer_v2_weighted,
  same_protocol, same_identifier, PoolMetadata,
}
use reth_exex_liquidity.Counts.{count_of, decrement, count_of-decrement, fluid_count-decrement}
use reth_exex_liquidity.Tracker.{
  PoolTracker, remove_pool, remove_pools, forget_added, untrack, remove_address, remove_id,
  fluid_liquidity_layer, pool_contract,
}
use reth_exex_liquidity.Tracker.Roles.{
  Role, plain, contract_of, Directory, Emits, Coherent, WellFormed,
}
use reth_exex_liquidity.Tracker.Untracking.{
  unread-WellFormed, remove_keeps, Emits-remove, Emits-remove_contract, plain≢singleton,
  singleton≢contract, contract_of-injective, plain≢contract,
}

module _ (roles : Address → Role) (directory : Directory roles) where
  remove_address-WellFormed :
      (t : PoolTracker) (a : Address) (m : PoolMetadata)
      → lookup a t.pools_by_address ≡ some m
      → WellFormed roles t
      → WellFormed roles (remove_address a m t)
  unfolding remove_address
  remove_address-WellFormed t a m found h =
      let c = h.coherent in
      let role : roles a ≡ plain = c.addresses_plain a (rw found) in
      let falls = λ (p : Protocol).
        count_where-remove (λ n. same_protocol n.protocol p) a m t.pools_by_address
          c.distinct_addresses found in
      let some_left : 0 < count_of m.protocol t.counts =
        ground (arith, c.counted m.protocol, falls m.protocol) in
      record {
        coherent = record {
          distinct_addresses = remove-Distinct a t.pools_by_address c.distinct_addresses;
          distinct_ids = c.distinct_ids;
          ids_tracked = c.ids_tracked;
          addresses_tracked = λ b e. ground (
            arith,
            contains-remove a b t.tracked_addresses,
            lookup-remove a b t.pools_by_address,
            c.addresses_tracked b,
          );
          addresses_plain =
              λ b e. ground (arith, lookup-remove a b t.pools_by_address, c.addresses_plain b);
          plain_tracked = λ b e r. ground (
            arith,
            contains-remove a b t.tracked_addresses,
            lookup-remove a b t.pools_by_address,
            c.plain_tracked b,
          );
          emitters_tracked = λ i n e.
              Emits-remove roles directory a t.tracked_addresses t.balancer_pools_by_addr n.protocol
                i (λ q. plain≢singleton roles directory (sym role ∙ q))
                (λ q. plain≢contract roles directory i (sym role ∙ q)) (c.emitters_tracked i n e);
          contracts_known = c.contracts_known;
          counted = λ p.
              omega
                (arith, c.counted p, falls p, count_of-decrement p m.protocol t.counts some_left);
        };
        layer_tracked = λ e.
            remove_keeps roles directory a fluid_liquidity_layer t.tracked_addresses
              (λ q. plain≢singleton roles directory (sym role ∙ q ∙ directory.layer))
              (h.layer_tracked (fluid_count-decrement m.protocol t.counts some_left e));
      }

  removed_id-WellFormed :
      (t : PoolTracker) (i : PoolId) (m : PoolMetadata) (xs : List Address)
      (cs : List (Address × PoolId)) (gone : List PoolIdentifier)
      → lookup i t.pools_by_id ≡ some m
      → ((a : Address)
          → roles a ≢ contract_of i
          → contains a t.tracked_addresses ≡ true
          → contains a xs ≡ true)
      → ((a : Address) → contains a xs ≡ true → contains a t.tracked_addresses ≡ true)
      → ((p : Protocol) (j : PoolId)
          → i ≢ j
          → Emits roles t.tracked_addresses t.balancer_pools_by_addr p j
          → Emits roles xs cs p j)
      → ((a : Address) (j : PoolId)
          → lookup a cs ≡ some j
          → (lookup a t.balancer_pools_by_addr ≡ some j) × ((i == j) ≡ false))
      → WellFormed roles t
      → WellFormed roles (record t {
        pools_by_id = Maps.remove i t.pools_by_id;
        tracked_pool_ids = Sets.remove i t.tracked_pool_ids;
        tracked_addresses = xs;
        balancer_pools_by_addr = cs;
        counts = decrement m.protocol t.counts;
        newly_removed = gone;
      })
  removed_id-WellFormed t i m xs cs gone found kept less emits known h =
      let c = h.coherent in
      let falls = λ (p : Protocol).
        count_where-remove (λ n. same_protocol n.protocol p) i m t.pools_by_id c.distinct_ids
          found in
      let some_left : 0 < count_of m.protocol t.counts =
        ground (arith, c.counted m.protocol, falls m.protocol) in
      record {
        coherent = record {
          distinct_addresses = c.distinct_addresses;
          distinct_ids = remove-Distinct i t.pools_by_id c.distinct_ids;
          ids_tracked = λ j. ground (
            arith,
            contains-remove i j t.tracked_pool_ids,
            lookup-remove i j t.pools_by_id,
            c.ids_tracked j,
          );
          addresses_tracked = λ a e.
              kept a (λ q. plain≢contract roles directory i (sym (c.addresses_plain a e) ∙ q))
                (c.addresses_tracked a e);
          addresses_plain = c.addresses_plain;
          plain_tracked = λ a e r. c.plain_tracked a (less a e) r;
          emitters_tracked = λ j n e.
              emits n.protocol j (λ q. ground (arith, lookup-remove i j t.pools_by_id))
                (c.emitters_tracked j n (ground (arith, lookup-remove i j t.pools_by_id)));
          contracts_known = λ a j e.
              let (was, apart) = known a j e in
              let (at, vault) = c.contracts_known a j was in
              (at, rw (lookup-remove i j t.pools_by_id, apart) vault);
          counted = λ p.
              omega
                (arith, c.counted p, falls p, count_of-decrement p m.protocol t.counts some_left);
        };
        layer_tracked = λ e.
            kept fluid_liquidity_layer
              (λ q. singleton≢contract roles directory i (sym directory.layer ∙ q))
              (h.layer_tracked (fluid_count-decrement m.protocol t.counts some_left e));
      }

  contract_role :
      (p : Protocol) (i : PoolId) (xs : List Address) (cs : List (Address × PoolId))
      → same_protocol p balancer_v2_weighted ≡ true
      → Emits roles xs cs p i
      → roles (pool_contract i) ≡ contract_of i
  contract_role balancer_v2_weighted i xs cs e h = h.3
  contract_role uniswap_v2 i xs cs e h = cc
  contract_role _ i xs cs e h = cc

  true≢false : true ≢ false
  true≢false e = cc

  -- The mappings that are left where a Balancer pool's contract is unmapped are of other pools.
  mapped_elsewhere :
      (t : PoolTracker) (i : PoolId) (a : Address) (j : PoolId)
      → Coherent roles t
      → lookup a (Maps.remove (pool_contract i) t.balancer_pools_by_addr) ≡ some j
      → (lookup a t.balancer_pools_by_addr ≡ some j) × ((i == j) ≡ false)
  mapped_elsewhere t i a j c e = elim (Bool-cases (pool_contract i == a)) [
    | inl here ↦ let none_some : none ≡ some j = (rw (lookup-remove, here) at e) in cc
    | inr other ↦
        let was : lookup a t.balancer_pools_by_addr ≡ some j = (rw (lookup-remove, other) at e) in
        (
          was,
          ne→== i j (λ q.
              let same =
                eq→== (pool_contract i) a (ap pool_contract q ∙ (c.contracts_known a j was).0) in
              true≢false (sym same ∙ other)),
        )
  ]

  -- No mapping leads to a pool of another family.
  mapped_vault :
      (t : PoolTracker) (i : PoolId) (m : PoolMetadata) (a : Address) (j : PoolId)
      → lookup i t.pools_by_id ≡ some m
      → same_protocol m.protocol balancer_v2_weighted ≡ false
      → Coherent roles t
      → lookup a t.balancer_pools_by_addr ≡ some j
      → (i == j) ≡ false
  mapped_vault t i m a j found other c e = elim (Bool-cases (i == j)) [
    | inl same ↦
        let vault = (c.contracts_known a j e).1 in
        let wrong : false ≡ true = (rw (← (==_iff i j).0 same, found, other) at vault) in cc
    | inr apart ↦ apart
  ]

  remove_id-WellFormed :
      (t : PoolTracker) (i : PoolId) (m : PoolMetadata)
      → lookup i t.pools_by_id ≡ some m
      → WellFormed roles t
      → WellFormed roles (remove_id i m t)
  unfolding remove_id
  remove_id-WellFormed t i m found h =
      elim (Bool-cases (same_protocol m.protocol balancer_v2_weighted)) [
        | inl balancer ↦
            let k = pool_contract i in
            let xs = t.tracked_addresses in
            let cs = t.balancer_pools_by_addr in
            let role : roles k ≡ contract_of i =
              contract_role m.protocol i xs cs balancer (h.coherent.emitters_tracked i m found) in
            rw balancer (
              removed_id-WellFormed t i m (Sets.remove k xs) (Maps.remove k cs) _ found
                (λ a apart. remove_keeps roles directory k a xs (λ q. apart (sym q ∙ role)))
                (λ a e. ground (arith, contains-remove k a xs))
                (λ p j ne e.
                  Emits-remove_contract roles directory k (Sets.remove k xs) cs p j
                    (λ q. ne (contract_of-injective roles directory i j (sym role ∙ q)))
                    (Emits-remove roles directory k xs cs p j
                      (λ q. singleton≢contract roles directory i (sym q ∙ role))
                      (λ q. ne (contract_of-injective roles directory i j (sym role ∙ q))) e))
                (λ a j e. mapped_elsewhere t i a j h.coherent e) h)
        | inr other ↦ rw other (
            removed_id-WellFormed t i m t.tracked_addresses t.balancer_pools_by_addr _ found
              (λ a apart e. e) (λ a e. e) (λ p j ne e. e)
              (λ a j e. (e, mapped_vault t i m a j found other h.coherent e)) h)
      ]

  untrack-WellFormed :
      (p : PoolIdentifier) (t : PoolTracker) → WellFormed roles t → WellFormed roles (untrack p t)
  unfolding untrack
  untrack-WellFormed (address a) t h = elim (Option-cases (lookup a t.pools_by_address)) [
    | inl absent ↦ rw (absent, untrack) h
    | inr (m, found) ↦ rw (found, untrack) (remove_address-WellFormed t a m found h)
  ]
  untrack-WellFormed (pool_id i) t h = elim (Option-cases (lookup i t.pools_by_id)) [
    | inl absent ↦ rw (absent, untrack) h
    | inr (m, found) ↦ rw (found, untrack) (remove_id-WellFormed t i m found h)
  ]

  pub remove_pool-WellFormed :
      (t : PoolTracker) (p : PoolIdentifier)
      → WellFormed roles t
      → WellFormed roles (remove_pool t p)
  unfolding remove_pool forget_added
  remove_pool-WellFormed t p h = untrack-WellFormed p (forget_added p t) (
      unread-WellFormed roles directory t t.fluid_configs t.pending_updates
        (retain (λ m. not (same_identifier m.pool_id p)) t.newly_added) t.newly_removed t.in_block
        h)

  -- Removing pools, listed or not, keeps the tracker well formed.
  pub remove_pools-WellFormed :
      (ids : List PoolIdentifier) (t : PoolTracker)
      → WellFormed roles t
      → WellFormed roles (remove_pools ids t)
  unfolding remove_pools
  remove_pools-WellFormed ids t h =
      fold_inv (WellFormed roles) (λ _. Unit {0}) remove_pool (λ s p _. remove_pool-WellFormed s p)
        t ids (All-trivial ids) h
