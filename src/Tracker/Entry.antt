-- ===== src/Tracker/Entry.antt =====
-- One new entry of the whitelist keeps it coherent: of a pool known by its address, and of one known by its id.
use reth_exex_liquidity.Common.{
  subst, ap, ==_iff, ==-refl, ◌⊎◌, true, false, List, ◌≡◌, arith, none, some, Bool-cases, inl, inr,
  ◌==◌, ◌≢◌,
}
use reth_exex_liquidity.Common.Maps.{
  lookup, contains_key, Distinct, count_where, insert-Distinct, lookup-insert, count_where-insert,
}
use reth_exex_liquidity.Common.Maps
use reth_exex_liquidity.Common.Sets.{contains, contains-insert}
use reth_exex_liquidity.Common.Sets
use reth_exex_liquidity.Types.{
  Address, PoolId, Protocol, uniswap_v4, ekubo, balancer_v2_weighted, same_protocol, PoolMetadata,
}
use reth_exex_liquidity.Counts.{increment, count_of-increment}
use reth_exex_liquidity.Tracker.{PoolTracker, pool_contract}
use reth_exex_liquidity.Tracker.Roles.{
  Role, plain, singleton, contract_of, Directory, Emits, Coherent, is_vault_pool,
}

module _ (roles : Address → Role) (directory : Directory roles) where
  pub singleton≢plain : singleton ≢ plain
  singleton≢plain e = cc

  pub contract≢plain : (i : PoolId) → contract_of i ≢ plain
  contract≢plain i e = cc

  -- More tracked addresses, and the same contracts.
  pub Emits-more :
      (xs ys : List Address) (cs : List (Address × PoolId)) (p : Protocol) (i : PoolId)
      → ((a : Address) → contains a xs ≡ true → contains a ys ≡ true)
      → Emits roles xs cs p i
      → Emits roles ys cs p i
  Emits-more xs ys cs uniswap_v4 i more e = more _ e
  Emits-more xs ys cs ekubo i more e = more _ e
  Emits-more xs ys cs balancer_v2_weighted i more e = (more _ e.0, more _ e.1, e.2, e.3)
  Emits-more xs ys cs _ i more e = tt

  pub insert_more :
      (k : Address) (xs : List Address) (a : Address)
      → contains a xs ≡ true
      → contains a (Sets.insert k xs) ≡ true
  insert_more k xs a h = ground (arith, contains-insert k a xs)

  pub track_address-Coherent :
      (t : PoolTracker) (a : Address) (m : PoolMetadata) (new_list : List PoolMetadata)
      → contains a t.tracked_addresses ≡ false
      → roles a ≡ plain
      → Coherent roles t
      → Coherent roles (record t {
        tracked_addresses = Sets.insert a t.tracked_addresses;
        pools_by_address = Maps.insert a m t.pools_by_address;
        counts = increment m.protocol t.counts;
        newly_added = new_list;
      })
  track_address-Coherent t a m new_list fresh fits h =
      let absent : lookup a t.pools_by_address ≡ none = ground (arith, h.addresses_tracked a) in
      record {
        distinct_addresses = insert-Distinct a m t.pools_by_address h.distinct_addresses;
        distinct_ids = h.distinct_ids;
        ids_tracked = h.ids_tracked;
        addresses_tracked = λ b e. ground (
          arith,
          contains-insert a b t.tracked_addresses,
          lookup-insert a b m t.pools_by_address,
          h.addresses_tracked b,
        );
        addresses_plain =
            λ b e. ground (arith, lookup-insert a b m t.pools_by_address, h.addresses_plain b);
        plain_tracked = λ b e r. ground (
          arith,
          contains-insert a b t.tracked_addresses,
          lookup-insert a b m t.pools_by_address,
          h.plain_tracked b,
        );
        emitters_tracked = λ i n e.
            Emits-more t.tracked_addresses (Sets.insert a t.tracked_addresses)
              t.balancer_pools_by_addr n.protocol i (insert_more a t.tracked_addresses)
              (h.emitters_tracked i n e);
        contracts_known = h.contracts_known;
        counted = λ p. ground (
          arith,
          h.counted p,
          count_of-increment p m.protocol t.counts,
          count_where-insert (λ n. same_protocol n.protocol p) a m t.pools_by_address absent,
        );
      }

  pub track_id-Coherent :
      (t : PoolTracker) (i : PoolId) (m : PoolMetadata) (new_list : List PoolMetadata)
      (xs : List Address) (cs : List (Address × PoolId))
      → contains i t.tracked_pool_ids ≡ false
      → ((a : Address) → contains a t.tracked_addresses ≡ true → contains a xs ≡ true)
      → ((p : Protocol) (j : PoolId)
          → Emits roles t.tracked_addresses t.balancer_pools_by_addr p j
          → Emits roles xs cs p j)
      → Emits roles xs cs m.protocol i
      → ((a : Address)
          → contains a xs ≡ true
          → roles a ≡ plain
          → contains a t.tracked_addresses ≡ true)
      → ((a : Address) (j : PoolId)
          → lookup a cs ≡ some j
          → (lookup a t.balancer_pools_by_addr ≡ some j)
            ⊎ ((i ≡ j)
                × (pool_contract i ≡ a)
                × (same_protocol m.protocol balancer_v2_weighted ≡ true)))
      → Coherent roles t
      → Coherent roles (record t {
        tracked_addresses = xs;
        balancer_pools_by_addr = cs;
        tracked_pool_ids = Sets.insert i t.tracked_pool_ids;
        pools_by_id = Maps.insert i m t.pools_by_id;
        counts = increment m.protocol t.counts;
        newly_added = new_list;
      })
  track_id-Coherent t i m new_list xs cs fresh more kept self exact known h =
      let absent : lookup i t.pools_by_id ≡ none = ground (arith, h.ids_tracked i) in
      record {
        distinct_addresses = h.distinct_addresses;
        distinct_ids = insert-Distinct i m t.pools_by_id h.distinct_ids;
        ids_tracked = λ j. ground (
          arith,
          contains-insert i j t.tracked_pool_ids,
          lookup-insert i j m t.pools_by_id,
          h.ids_tracked j,
        );
        addresses_tracked = λ a e. more a (h.addresses_tracked a e);
        addresses_plain = h.addresses_plain;
        plain_tracked = λ a e r. h.plain_tracked a (exact a e r) r;
        emitters_tracked = λ j n e. emits j n e (Bool-cases (i == j));
        contracts_known = λ a j e. contract a j (known a j e);
        counted = λ p. ground (
          arith,
          h.counted p,
          count_of-increment p m.protocol t.counts,
          count_where-insert (λ n. same_protocol n.protocol p) i m t.pools_by_id absent,
        );
      }
    where
      contract :
          (a : Address) (j : PoolId)
          → (lookup a t.balancer_pools_by_addr ≡ some j)
            ⊎ ((i ≡ j)
                × (pool_contract i ≡ a)
                × (same_protocol m.protocol balancer_v2_weighted ≡ true))
          → (pool_contract j ≡ a)
            × (is_vault_pool (lookup j (Maps.insert i m t.pools_by_id)) ≡ true)
      contract a j (inl old) =
          let (at, vault) = h.contracts_known a j old in
          (
            at,
            ground (arith, lookup-insert i j m t.pools_by_id, h.ids_tracked i, contains_key_at i j),
          )
        where
          contains_key_at :
              (i j : PoolId)
              → (i == j) ≡ true
              → contains_key i t.pools_by_id ≡ contains_key j t.pools_by_id
          contains_key_at i j e = ap (λ k. contains_key k t.pools_by_id) ((==_iff i j).0 e)
      contract a j (inr (same, at, vault)) =
          subst
            (λ k.
              (pool_contract k ≡ a)
              × (is_vault_pool (lookup k (Maps.insert i m t.pools_by_id)) ≡ true))
            same (at, rw (lookup-insert i i m t.pools_by_id, ==-refl i) vault)

      emits :
          (j : PoolId) (n : PoolMetadata)
          → lookup j (Maps.insert i m t.pools_by_id) ≡ some n
          → ((i == j) ≡ true) ⊎ ((i == j) ≡ false)
          → Emits roles xs cs n.protocol j
      emits j n e (inl same) =
          let here : some m ≡ some n = ground (arith, lookup-insert i j m t.pools_by_id) in
          let eq : m ≡ n = cc here in
          let at : i ≡ j = ground arith in
          subst (λ k. Emits roles xs cs n.protocol k) at
            (subst (λ (x : PoolMetadata). Emits roles xs cs x.protocol i) eq self)
      emits j n e (inr other) =
          kept n.protocol j
            (h.emitters_tracked j n (ground (arith, lookup-insert i j m t.pools_by_id)))
