-- ===== src/Tracker/Replacing.antt =====
-- `replace_all` and `replace_startup` keep the whitelist well formed.
use reth_exex_liquidity.Common.{
  ℕ, subst, ◌⊎◌, true, false, none, not, List, ◌≡◌, refl, ap, sym, ◌∙◌, arith, fold, fold_inv, All,
  All-trivial, some, Bool-cases, Option-cases, inl, inr, ◌==◌, retain,
}
use reth_exex_liquidity.Common.Maps.{
  lookup, contains_key, Distinct, count_where, insert, insert-Distinct, lookup-insert,
  count_where-insert_same,
}
use reth_exex_liquidity.Types.{
  Address, PoolId, PoolIdentifier, address, pool_id, Protocol, same_protocol, same_protocol_eq,
  same_protocol_agree, PoolMetadata,
}
use reth_exex_liquidity.Common.Sets.{contains}
use reth_exex_liquidity.Counts.{count_of-zero_counts}
use reth_exex_liquidity.Tracker.{PoolTracker, remove_pools}
use reth_exex_liquidity.Tracker.Updates.{
  refresh_entry, refresh_at, refresh, replace_all, clear, replace_startup, lists,
  tracked_identifiers,
}
use reth_exex_liquidity.Tracker.Roles.{
  Role, Directory, Fits, Emits, Coherent, WellFormed, is_vault_pool,
}
use reth_exex_liquidity.Tracker.Adding.{add_pools-WellFormed}
use reth_exex_liquidity.Tracker.Removing.{remove_pools-WellFormed}

-- A refreshed map has the entries it had, each with its protocol.
pub record Refreshed (m n : List (ℕ × PoolMetadata)) : Type 0 where
  pub distinct : Distinct m → Distinct n
  pub same_keys : (k : ℕ) → contains_key k n ≡ contains_key k m
  pub same_counts :
      (p : Protocol)
      → count_where (λ e. same_protocol e.protocol p) n
        ≡ count_where (λ e. same_protocol e.protocol p) m
  pub protocol_kept :
      (k : ℕ) (e : PoolMetadata)
      → lookup k n ≡ some e
      → (d : PoolMetadata) × (lookup k m ≡ some d) × (d.protocol ≡ e.protocol)

Refreshed-refl : (m : List (ℕ × PoolMetadata)) → Refreshed m m
Refreshed-refl m = record {
  distinct = λ d. d;
  same_keys = λ k. refl;
  same_counts = λ p. refl;
  protocol_kept = λ k e h. (e, h, refl);
}

insert-Refreshed :
    (k : ℕ) (pool old : PoolMetadata) (m : List (ℕ × PoolMetadata))
    → lookup k m ≡ some old
    → same_protocol old.protocol pool.protocol ≡ true
    → Refreshed m (insert k pool m)
insert-Refreshed k pool old m found same = record {
  distinct = insert-Distinct k pool m;
  same_keys = λ j. ground (arith, lookup-insert k j pool m);
  same_counts = λ p.
      count_where-insert_same (λ e. same_protocol e.protocol p) k pool old m found
        (sym (same_protocol_agree old.protocol pool.protocol p same));
  protocol_kept = λ j e h. kept j e h (Bool-cases (k == j));
}
  where
    kept :
        (j : ℕ) (e : PoolMetadata)
        → lookup j (insert k pool m) ≡ some e
        → ((k == j) ≡ true) ⊎ ((k == j) ≡ false)
        → (d : PoolMetadata) × (lookup j m ≡ some d) × (d.protocol ≡ e.protocol)
    kept j e h (inl here) =
        let at : k ≡ j = ground arith in
        let eq : some pool ≡ some e = ground (arith, lookup-insert k j pool m) in
        let eq' : pool ≡ e = cc eq in
        (
          old,
          subst (λ i. lookup i m ≡ some old) at found,
          same_protocol_eq old.protocol pool.protocol same
              ∙ ap (λ (x : PoolMetadata). x.protocol) eq',
        )
    kept j e h (inr other) = (e, ground (arith, lookup-insert k j pool m), refl)

refresh_entry-Refreshed :
    (k : ℕ) (pool : PoolMetadata) (m : List (ℕ × PoolMetadata))
    → Refreshed m (refresh_entry k pool m)
unfolding refresh_entry
refresh_entry-Refreshed k pool m = elim (Option-cases (lookup k m)) [
  | inl absent ↦ rw (absent, refresh_entry) (Refreshed-refl m)
  | inr (old, found) ↦
      rw (found, refresh_entry)
        (elim (Bool-cases (same_protocol old.protocol pool.protocol)) [
          | inl same ↦ rw same (insert-Refreshed k pool old m found same)
          | inr flip ↦ rw flip (Refreshed-refl m)
        ])
]

module _ (roles : Address → Role) (directory : Directory roles) where
  Refreshed-is_vault_pool :
      (ms ns : List (PoolId × PoolMetadata))
      → Refreshed ms ns
      → (i : PoolId) → is_vault_pool (lookup i ms) ≡ true
      → is_vault_pool (lookup i ns) ≡ true
  Refreshed-is_vault_pool ms ns r i vault = elim (Option-cases (lookup i ns)) [
    | inl absent ↦
        let gone : lookup i ms ≡ none = ground (arith, r.same_keys i) in
        let wrong : false ≡ true = (rw gone at vault) in cc
    | inr (m, found) ↦
        let (d, was, same) = r.protocol_kept i m found in rw found (rw (was, same) at vault)
  ]

  Refreshed-WellFormed :
      (t : PoolTracker) (addrs : List (Address × PoolMetadata)) (ids : List (PoolId × PoolMetadata))
      → Refreshed t.pools_by_address addrs
      → Refreshed t.pools_by_id ids
      → WellFormed roles t
      → WellFormed roles (record t { pools_by_address = addrs; pools_by_id = ids })
  Refreshed-WellFormed t addrs ids ra ri h =
      let c = h.coherent in
      record {
        coherent = record {
          distinct_addresses = ra.distinct c.distinct_addresses;
          distinct_ids = ri.distinct c.distinct_ids;
          ids_tracked = λ i. c.ids_tracked i ∙ sym (ri.same_keys i);
          addresses_tracked = λ a e. c.addresses_tracked a (sym (ra.same_keys a) ∙ e);
          addresses_plain = λ a e. c.addresses_plain a (sym (ra.same_keys a) ∙ e);
          plain_tracked = λ a e r. ra.same_keys a ∙ c.plain_tracked a e r;
          emitters_tracked = λ i m e.
              let (d, found, same) = ri.protocol_kept i m e in
              subst (λ p. Emits roles t.tracked_addresses t.balancer_pools_by_addr p i) same
                (c.emitters_tracked i d found);
          contracts_known = λ a i e.
              let (at, vault) = c.contracts_known a i e in
              (at, Refreshed-is_vault_pool t.pools_by_id ids ri i vault);
          counted = λ p. omega (arith, c.counted p, ra.same_counts p, ri.same_counts p);
        };
        layer_tracked = h.layer_tracked;
      }

  refresh_at-WellFormed :
      (p : PoolIdentifier) (m : PoolMetadata) (t : PoolTracker)
      → WellFormed roles t
      → WellFormed roles (refresh_at p m t)
  unfolding refresh_at
  refresh_at-WellFormed (address a) m t h =
      Refreshed-WellFormed t (refresh_entry a m t.pools_by_address) t.pools_by_id
        (refresh_entry-Refreshed a m t.pools_by_address) (Refreshed-refl t.pools_by_id) h
  refresh_at-WellFormed (pool_id i) m t h =
      Refreshed-WellFormed t t.pools_by_address (refresh_entry i m t.pools_by_id)
        (Refreshed-refl t.pools_by_address) (refresh_entry-Refreshed i m t.pools_by_id) h

  pub refresh_all-WellFormed :
      (t : PoolTracker) (ms : List PoolMetadata)
      → WellFormed roles t
      → WellFormed roles (fold refresh t ms)
  unfolding refresh
  refresh_all-WellFormed t ms h =
      fold_inv (WellFormed roles) (λ _. Unit {0}) refresh
        (λ s m _. refresh_at-WellFormed m.pool_id m s) t ms (All-trivial ms) h

  pub replace_all-WellFormed :
      (ms : List PoolMetadata) (t : PoolTracker)
      → All (Fits roles) ms
      → WellFormed roles t
      → WellFormed roles (replace_all ms t)
  unfolding replace_all
  replace_all-WellFormed ms t fits h =
      let gone = retain (λ p. not (lists ms p)) (tracked_identifiers t) in
      add_pools-WellFormed roles directory ms true (fold refresh (remove_pools gone t) ms) fits
        (refresh_all-WellFormed (remove_pools gone t) ms
          (remove_pools-WellFormed roles directory gone t h)).coherent

  empty-Coherent : (t : PoolTracker) → Coherent roles (clear t)
  unfolding clear lookup contains count_where
  empty-Coherent t = record {
    distinct_addresses = tt;
    distinct_ids = tt;
    ids_tracked = λ i. refl;
    addresses_tracked = λ a e. cc;
    addresses_plain = λ a e. cc;
    plain_tracked = λ a e r. cc;
    emitters_tracked = λ i m e. cc;
    contracts_known = λ a i e. cc;
    counted = λ p. count_of-zero_counts p;
  }

  -- The startup snapshot makes a well-formed tracker of any tracker.
  pub replace_startup-WellFormed :
      (ms : List PoolMetadata) (t : PoolTracker)
      → All (Fits roles) ms
      → WellFormed roles (replace_startup ms t)
  unfolding replace_startup
  replace_startup-WellFormed ms t fits =
      add_pools-WellFormed roles directory ms false (clear t) fits (empty-Coherent t)
