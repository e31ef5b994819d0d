-- ===== src/Tests/Samples.antt =====
-- A whitelist with a pool of each kind of identifier: by address, by address with the Liquidity
-- Layer, by id behind a singleton, and by id with a contract of its own.
use reth_exex_liquidity.Common.{
  ◌+◌, ◌*◌, ◌^◌, none, List, [], ◌∷◌, refl, if◌then◌else◌, ◌==◌, ◌||◌, All,
}
use reth_exex_liquidity.Types.{
  Address, PoolId, PoolIdentifier, address, pool_id, Protocol, uniswap_v2, uniswap_v4,
  balancer_v2_weighted, fluid, PoolMetadata,
}
use reth_exex_liquidity.Tracker.{
  PoolTracker, WhitelistUpdate, add, remove, replace, new, uniswap_v4_pool_manager,
  fluid_liquidity_layer, ekubo_core, balancer_v2_vault,
}
use reth_exex_liquidity.Tracker.Updates.{queue_update, begin_block, end_block}
use reth_exex_liquidity.Tracker.Roles.{
  Role, plain, singleton, contract_of, Directory, Fits, WellFormed,
}
use reth_exex_liquidity.Tracker.Invariant.{Reach, here, next, queues, begins, ends, Reach-Valid}

abbrev pub sample_pool : PoolIdentifier → Protocol → PoolMetadata
sample_pool p protocol = record {
  pool_id = p;
  token0 = 11;
  token1 = 12;
  protocol = protocol;
  factory = 13;
  tick_spacing = none;
  fee = none;
  token0_decimals = none;
  token1_decimals = none;
  extra_tokens = [];
  twocrypto_version = none;
  ekubo_fee = none;
  ekubo_type_config = none;
  balancer_weights = none;
  balancer_swap_fee = none;
  balancer_version = none;
}

abbrev pub weighted_id : PoolId
weighted_id = 5 * 2 ^ 96 + 9

abbrev pub pair_pool : PoolMetadata
pair_pool = sample_pool (address 1001) uniswap_v2

abbrev pub fluid_dex : PoolMetadata
fluid_dex = sample_pool (address 1002) fluid

abbrev pub v4_pool : PoolMetadata
v4_pool = sample_pool (pool_id 77) uniswap_v4

abbrev pub weighted_pool : PoolMetadata
weighted_pool = sample_pool (pool_id weighted_id) balancer_v2_weighted

abbrev pub all_pools : List PoolMetadata
all_pools = pair_pool ∷ fluid_dex ∷ v4_pool ∷ weighted_pool ∷ []

abbrev pub sample_roles : Address → Role
sample_roles a =
    if a == 5
    then contract_of weighted_id
    else if a == uniswap_v4_pool_manager
        || a == ekubo_core
        || a == balancer_v2_vault
        || a == fluid_liquidity_layer
    then singleton
    else plain

pub sample-Directory : Directory sample_roles
sample-Directory = record { manager = refl; core = refl; vault = refl; layer = refl }

pub all_pools-Fits : All (Fits sample_roles) all_pools
all_pools-Fits = (refl, (refl, (tt, (refl, tt))))

-- Filled outside a block, then changed by updates that wait in one.
abbrev pub filled : PoolTracker
filled = queue_update new (add all_pools)

abbrev pub arrivals : List WhitelistUpdate
arrivals = remove (address 1001 ∷ []) ∷ replace (pair_pool ∷ v4_pool ∷ []) ∷ []

pub filled_reached : Reach sample_roles filled
filled_reached = next here (queues new (add all_pools) all_pools-Fits)

pub changed_reached :
    Reach sample_roles
      (end_block (queue_update (begin_block filled) (remove (pool_id weighted_id ∷ []))))
changed_reached =
    next
      (next (next filled_reached (begins filled))
        (queues (begin_block filled) (remove (pool_id weighted_id ∷ [])) tt))
      (ends (queue_update (begin_block filled) (remove (pool_id weighted_id ∷ []))))

pub filled-WellFormed : WellFormed sample_roles filled
filled-WellFormed = (Reach-Valid sample_roles sample-Directory filled_reached).well_formed
