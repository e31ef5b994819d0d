-- ===== src/Tracker/Untracking.antt =====
-- What stays tracked where one address or contract is untracked.
use reth_exex_liquidity.Common.{◌≢◌, Bool, true, List, ◌≡◌, ap, ◌∙◌, ne→==}
use reth_exex_liquidity.Common.Maps.{
  lookup, contains_key, Distinct, count_where, remove-Distinct, lookup-remove, count_where-remove,
}
use reth_exex_liquidity.Common.Maps
use reth_exex_liquidity.Common.Sets.{contains, contains-remove}
use reth_exex_liquidity.Common.Sets
use reth_exex_liquidity.FluidConfig.{FluidPoolConfig}
use reth_exex_liquidity.Types.{
  Address, PoolId, PoolIdentifier, Protocol, uniswap_v4, ekubo, balancer_v2_weighted, PoolMetadata,
}
use reth_exex_liquidity.Tracker.{
  PoolTracker, WhitelistUpdate, uniswap_v4_pool_manager, ekubo_core, balancer_v2_vault,
  pool_contract,
}
use reth_exex_liquidity.Tracker.Roles.{
  Role, plain, singleton, contract_of, Directory, Emits, WellFormed,
}

module _ (roles : Address → Role) (directory : Directory roles) where
  -- The fields that the invariant does not read.
  pub unread-WellFormed :
      (t : PoolTracker) (configs : List (Address × FluidPoolConfig))
      (pending : List WhitelistUpdate) (added : List PoolMetadata) (removed : List PoolIdentifier)
      (flag : Bool)
      → WellFormed roles t
      → WellFormed roles (record t {
        fluid_configs = configs;
        pending_updates = pending;
        newly_added = added;
        newly_removed = removed;
        in_block = flag;
      })
  unread-WellFormed t configs pending added removed flag h =
      let c = h.coherent in
      record {
        coherent = record {
          distinct_addresses = c.distinct_addresses;
          distinct_ids = c.distinct_ids;
          ids_tracked = c.ids_tracked;
          addresses_tracked = c.addresses_tracked;
          addresses_plain = c.addresses_plain;
          plain_tracked = c.plain_tracked;
          emitters_tracked = c.emitters_tracked;
          contracts_known = c.contracts_known;
          counted = c.counted;
        };
        layer_tracked = h.layer_tracked;
      }

  pub remove_keeps :
      (k b : Address) (xs : List Address)
      → roles k ≢ roles b
      → contains b xs ≡ true
      → contains b (Sets.remove k xs) ≡ true
  remove_keeps k b xs apart h = rw (contains-remove k b xs, ne→== k b (λ e. apart (ap roles e))) h

  -- An address is dropped whose role is neither that of a singleton nor that of the pool's contract.
  pub Emits-remove :
      (k : Address) (xs : List Address) (cs : List (Address × PoolId)) (p : Protocol) (i : PoolId)
      → roles k ≢ singleton
      → roles k ≢ contract_of i
      → Emits roles xs cs p i
      → Emits roles (Sets.remove k xs) cs p i
  Emits-remove k xs cs uniswap_v4 i s c e =
      remove_keeps k uniswap_v4_pool_manager xs (λ q. s (q ∙ directory.manager)) e
  Emits-remove k xs cs ekubo i s c e = remove_keeps k ekubo_core xs (λ q. s (q ∙ directory.core)) e
  Emits-remove k xs cs balancer_v2_weighted i s c e = (
    remove_keeps k balancer_v2_vault xs (λ q. s (q ∙ directory.vault)) e.0,
    remove_keeps k (pool_contract i) xs (λ q. c (q ∙ e.3)) e.1,
    e.2,
    e.3,
  )
  Emits-remove k xs cs _ i s c e = tt

  pub Emits-remove_contract :
      (k : Address) (xs : List Address) (cs : List (Address × PoolId)) (p : Protocol) (i : PoolId)
      → roles k ≢ contract_of i
      → Emits roles xs cs p i
      → Emits roles xs (Maps.remove k cs) p i
  Emits-remove_contract k xs cs balancer_v2_weighted i c e = (
    e.0,
    e.1,
    rw (lookup-remove k (pool_contract i) cs, ne→== k (pool_contract i) (λ q. c (ap roles q ∙ e.3)))
        e.2,
    e.3,
  )
  Emits-remove_contract k xs cs uniswap_v4 i c e = e
  Emits-remove_contract k xs cs ekubo i c e = e
  Emits-remove_contract k xs cs _ i c e = tt

  pub plain≢singleton : plain ≢ singleton
  plain≢singleton e = cc

  pub singleton≢contract : (i : PoolId) → singleton ≢ contract_of i
  singleton≢contract i e = cc

  pub contract_of-injective : (i j : PoolId) → contract_of i ≡ contract_of j → i ≡ j
  contract_of-injective i j e = cc

  pub plain≢contract : (i : PoolId) → plain ≢ contract_of i
  plain≢contract i e = cc
