-- ===== src/Tracker/Contracts.antt =====
-- The contracts of whitelisted Balancer pools (src/pool_tracker.rs): what `balancer_pools_by_addr` answers,
-- from the pools that are whitelisted by their ids.
use reth_exex_liquidity.Common.{
  Bool, true, false, ◌||◌, ◌&&◌, if◌then◌else◌, ◌==◌, eq→==, ==_iff, List, [], ◌∷◌, ◌≡◌, refl, ap,
  sym, ◌∙◌, arith, none, some, is_some, Bool-cases, Option-cases, inl, inr,
}
use reth_exex_liquidity.Common.Maps.{lookup, contains_key, Distinct}
use reth_exex_liquidity.Types.{
  Address, PoolId, PoolMetadata, Protocol, uniswap_v2, balancer_v2_weighted, same_protocol,
}
use reth_exex_liquidity.Tracker.{PoolTracker, pool_contract}
use reth_exex_liquidity.Tracker.Roles.{Role, Emits, Coherent, is_vault_pool}

-- Whether a Balancer pool with this contract, the first 20 bytes of its id, is among the pools.
unfoldable pub has_contract : Address → List (PoolId × PoolMetadata) → Bool
has_contract a [] = false
has_contract a ((i, m) ∷ rest) =
    (same_protocol m.protocol balancer_v2_weighted && pool_contract i == a) || has_contract a rest

lookup-has_contract :
    (a : Address) (i : PoolId) (ms : List (PoolId × PoolMetadata))
    → pool_contract i ≡ a
    → is_vault_pool (lookup i ms) ≡ true
    → has_contract a ms ≡ true
unfolding has_contract lookup
lookup-has_contract a i [] at vault = vault
lookup-has_contract a i ((j, m) ∷ rest) at vault = elim (Bool-cases (j == i)) [
  | inl here ↦
      let vault_here : same_protocol m.protocol balancer_v2_weighted ≡ true = (rw here at vault) in
      let same = eq→== (pool_contract j) a (ap pool_contract ((==_iff j i).0 here) ∙ at) in
      rw (vault_here, same) refl
  | inr other ↦ ground (arith, lookup-has_contract a i rest at (rw other at vault))
]

has_contract-lookup :
    (a : Address) (ms : List (PoolId × PoolMetadata))
    → Distinct ms
    → has_contract a ms ≡ true
    → (i : PoolId) × (m : PoolMetadata) × (lookup i ms ≡ some m)
      × (same_protocol m.protocol balancer_v2_weighted ≡ true)
      × (pool_contract i ≡ a)
unfolding has_contract lookup
has_contract-lookup a [] d h = cc
has_contract-lookup a ((j, m) ∷ rest) d h =
    elim (Bool-cases (same_protocol m.protocol balancer_v2_weighted && pool_contract j == a)) [
      | inl here ↦ (j, m, ground arith, ground arith, ground arith)
      | inr other ↦
          let (i, n, found, vault, at) = has_contract-lookup a rest d.1 (rw other at h) in
          (i, n, later i n found, vault, at)
    ]
  where
    later :
        (i : PoolId) (n : PoolMetadata)
        → lookup i rest ≡ some n
        → (if j == i then some m else lookup i rest) ≡ some n
    later i n found = elim (Bool-cases (j == i)) [
      | inl same ↦
          let absent : contains_key i rest ≡ false =
            ap (λ k. contains_key k rest) (sym ((==_iff j i).0 same)) ∙ d.0 in
          let wrong : true ≡ false = (rw found at absent) in cc
      | inr other ↦ rw other found
    ]

module _ (roles : Address → Role) where
  Emits-mapped :
      (p : Protocol) (i : PoolId) (xs : List Address) (cs : List (Address × PoolId))
      → same_protocol p balancer_v2_weighted ≡ true
      → Emits roles xs cs p i
      → lookup (pool_contract i) cs ≡ some i
  Emits-mapped balancer_v2_weighted i xs cs e h = h.2
  Emits-mapped uniswap_v2 i xs cs e h = cc
  Emits-mapped _ i xs cs e h = cc

  -- An address is mapped exactly if a whitelisted Balancer pool has it as its contract.
  pub contracts_mapped :
      {t : PoolTracker} (a : Address)
      → Coherent roles t
      → is_some (lookup a t.balancer_pools_by_addr) ≡ has_contract a t.pools_by_id
  contracts_mapped {t} a c = elim (Option-cases (lookup a t.balancer_pools_by_addr)) [
    | inr (i, found) ↦
        let (at, vault) = c.contracts_known a i found in
        rw found (sym (lookup-has_contract a i t.pools_by_id at vault))
    | inl absent ↦ rw absent (elim (Bool-cases (has_contract a t.pools_by_id)) [
      | inr missing ↦ sym missing
      | inl there ↦
          let (i, m, found, vault, at) = has_contract-lookup a t.pools_by_id c.distinct_ids there in
          let mapped =
            Emits-mapped m.protocol i t.tracked_addresses t.balancer_pools_by_addr vault
              (c.emitters_tracked i m found) in
          let wrong : none ≡ some i =
            sym absent ∙ (ap (λ k. lookup k t.balancer_pools_by_addr) (sym at) ∙ mapped) in
          cc
    ])
  ]
