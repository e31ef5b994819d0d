-- ===== src/Tracker/Roles.antt =====
-- What a coherent whitelist is (src/pool_tracker.rs): the fields of `PoolTracker` agree with one
-- another. An address can be whitelisted as a pool, be the contract of a Balancer pool, or be one
-- of the singleton contracts; `roles` says which, and `Fits` that an entry agrees with it.
use reth_exex_liquidity.Common.{◌+◌, ◌<◌, Bool, true, false, List, ◌≡◌, Option, none, some, All}
use reth_exex_liquidity.Common.Maps.{lookup, contains_key, Distinct, count_where}
use reth_exex_liquidity.Common.Sets.{contains}
use reth_exex_liquidity.Types.{
  Address, PoolId, PoolIdentifier, address, pool_id, Protocol, uniswap_v4, ekubo,
  balancer_v2_weighted, same_protocol, PoolMetadata,
}
use reth_exex_liquidity.Counts.{count_of}
use reth_exex_liquidity.Tracker.{
  PoolTracker, WhitelistUpdate, add, remove, replace, uniswap_v4_pool_manager, ekubo_core,
  balancer_v2_vault, fluid_liquidity_layer, pool_contract,
}

pub data Role : Type 0 where
  plain singleton : Role
  contract_of : PoolId → Role

pub record Directory (roles : Address → Role) : Type 0 where
  pub manager : roles uniswap_v4_pool_manager ≡ singleton
  pub core : roles ekubo_core ≡ singleton
  pub vault : roles balancer_v2_vault ≡ singleton
  pub layer : roles fluid_liquidity_layer ≡ singleton

-- The family whose pools have a contract of their own beside the Vault.
abbrev pub is_vault_pool : Option PoolMetadata → Bool
is_vault_pool none = false
is_vault_pool (some m) = same_protocol m.protocol balancer_v2_weighted

module _ (roles : Address → Role) where
  abbrev pub FitsAt : PoolIdentifier → Protocol → Type 0
  FitsAt (address a) p = roles a ≡ plain
  FitsAt (pool_id i) balancer_v2_weighted = roles (pool_contract i) ≡ contract_of i
  FitsAt (pool_id i) _ = Unit

  abbrev pub Fits : PoolMetadata → Type 0
  Fits m = FitsAt m.pool_id m.protocol

  abbrev pub FitsUpdate : WhitelistUpdate → Type 0
  FitsUpdate (add ms) = All Fits ms
  FitsUpdate (remove ids) = Unit
  FitsUpdate (replace ms) = All Fits ms

  -- The logs of a pool that is known by its id come from these contracts, and a Balancer pool's
  -- contract leads back to the id.
  abbrev pub Emits : List Address → List (Address × PoolId) → Protocol → PoolId → Type 0
  Emits tracked contracts uniswap_v4 i = contains uniswap_v4_pool_manager tracked ≡ true
  Emits tracked contracts ekubo i = contains ekubo_core tracked ≡ true
  Emits tracked contracts balancer_v2_weighted i =
      (contains balancer_v2_vault tracked ≡ true)
      × (contains (pool_contract i) tracked ≡ true)
      × (lookup (pool_contract i) contracts ≡ some i)
      × (roles (pool_contract i) ≡ contract_of i)
  Emits tracked contracts _ i = Unit

  -- What holds also between the entries of one update.
  pub record Coherent (t : PoolTracker) : Type 0 where
    pub distinct_addresses : Distinct t.pools_by_address
    pub distinct_ids : Distinct t.pools_by_id
    pub ids_tracked : (i : PoolId) → contains i t.tracked_pool_ids ≡ contains_key i t.pools_by_id
    pub addresses_tracked :
        (a : Address)
        → contains_key a t.pools_by_address ≡ true
        → contains a t.tracked_addresses ≡ true
    pub addresses_plain : (a : Address) → contains_key a t.pools_by_address ≡ true → roles a ≡ plain
    pub plain_tracked :
        (a : Address)
        → contains a t.tracked_addresses ≡ true
        → roles a ≡ plain
        → contains_key a t.pools_by_address ≡ true
    pub emitters_tracked :
        (i : PoolId) (m : PoolMetadata)
        → lookup i t.pools_by_id ≡ some m
        → Emits t.tracked_addresses t.balancer_pools_by_addr m.protocol i
    pub contracts_known :
        (a : Address) (i : PoolId)
        → lookup a t.balancer_pools_by_addr ≡ some i
        → (pool_contract i ≡ a) × (is_vault_pool (lookup i t.pools_by_id) ≡ true)
    pub counted :
        (p : Protocol)
        → count_of p t.counts
          ≡ count_where (λ m. same_protocol m.protocol p) t.pools_by_address
            + count_where (λ m. same_protocol m.protocol p) t.pools_by_id

  -- What holds between updates.
  pub record WellFormed (t : PoolTracker) : Type 0 where
    pub coherent : Coherent t
    pub layer_tracked :
        0 < t.counts.fluid_count → contains fluid_liquidity_layer t.tracked_addresses ≡ true
