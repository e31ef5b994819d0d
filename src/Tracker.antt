-- ===== src/Tracker.antt =====
-- src/pool_tracker.rs: the in-memory whitelist. `HashMap`s and `HashSet`s are the association
-- lists and lists of `Common.Maps` and `Common.Sets`; `&mut self` is a state that is passed on;
-- the log lines are left out.
pub mod Updates
pub mod Deferral
pub mod Roles
mod Entry
pub mod Adding
mod Untracking
pub mod Removing
pub mod Replacing
pub mod Invariant
pub mod Effects
pub mod Additions
pub mod Snapshots
pub mod Collision
pub mod Contracts
use reth_exex_liquidity.Common.{
  ℕ, ◌+◌, ◌/◌, ◌^◌, ◌<◌, Bool, true, false, not, ◌&&◌, Option, none, some, List, [], ◌∷◌, ◌++◌, map,
  ltb, if◌then◌else◌, fold, retain, length, is_some,
}
use reth_exex_liquidity.Common.Maps
use reth_exex_liquidity.Common.Sets
use reth_exex_liquidity.Types.{
  Address, PoolId, PoolIdentifier, address, pool_id, same_identifier, Protocol, uniswap_v4, ekubo,
  balancer_v2_weighted, fluid, same_protocol, PoolMetadata,
}
use reth_exex_liquidity.FluidConfig.{FluidPoolConfig}
use reth_exex_liquidity.Counts.{Counts, zero_counts, increment, decrement}

abbrev pub uniswap_v4_pool_manager : Address
uniswap_v4_pool_manager = 0x000000000004444c5dc75cb358380d2e3de08a90

abbrev pub fluid_liquidity_layer : Address
fluid_liquidity_layer = 0x52aa899454998be5b000ad077a46bbe360f4e497

-- `EKUBO_CORE` and `BALANCER_V2_VAULT` of src/events.rs.
abbrev pub ekubo_core : Address
ekubo_core = 0x00000000000014aa86c5d3c41765bb24e11bd701

abbrev pub balancer_v2_vault : Address
balancer_v2_vault = 0xba12222222228d8ba445958a75a0704d566bf2c8

pub data WhitelistUpdate : Type 0 where
  add : List PoolMetadata → WhitelistUpdate
  remove : List PoolIdentifier → WhitelistUpdate
  replace : List PoolMetadata → WhitelistUpdate

pub record PoolTracker : Type 0 where
  pub pools_by_address : List (Address × PoolMetadata)
  pub pools_by_id : List (PoolId × PoolMetadata)
  pub tracked_addresses : List Address
  pub tracked_pool_ids : List PoolId
  pub fluid_configs : List (Address × FluidPoolConfig)
  pub balancer_pools_by_addr : List (Address × PoolId)
  pub pending_updates : List WhitelistUpdate
  pub newly_added : List PoolMetadata
  pub newly_removed : List PoolIdentifier
  pub in_block : Bool
  pub counts : Counts

unfoldable pub new : PoolTracker
unfolding zero_counts
new = record {
  pools_by_address = [];
  pools_by_id = [];
  tracked_addresses = [];
  tracked_pool_ids = [];
  fluid_configs = [];
  balancer_pools_by_addr = [];
  pending_updates = [];
  newly_added = [];
  newly_removed = [];
  in_block = false;
  counts = zero_counts;
}

-- `Address::from_slice(&id[..20])`: the first 20 of the 32 bytes.
abbrev pub pool_contract : PoolId → Address
pool_contract i = i / 2 ^ 96

-- The test that makes `add_pools` skip an entry.
unfoldable pub already_tracked : PoolTracker → PoolIdentifier → Bool
already_tracked t (address a) = Sets.contains a t.tracked_addresses
already_tracked t (pool_id i) = Sets.contains i t.tracked_pool_ids

-- `if !tracked.contains(a) { tracked.insert(a) }`, or a bare `insert`: the same on a set.
abbrev pub track_address : Address → PoolTracker → PoolTracker
track_address a t = record t { tracked_addresses = Sets.insert a t.tracked_addresses }

-- The singleton contracts, by `match pool.protocol`.
unfoldable pub track_singleton : Protocol → PoolId → PoolTracker → PoolTracker
track_singleton uniswap_v4 i t = track_address uniswap_v4_pool_manager t
track_singleton ekubo i t = track_address ekubo_core t
track_singleton balancer_v2_weighted i t = record t {
  tracked_addresses =
      Sets.insert (pool_contract i) (Sets.insert balancer_v2_vault t.tracked_addresses);
  balancer_pools_by_addr = Maps.insert (pool_contract i) i t.balancer_pools_by_addr;
}
track_singleton _ i t = t

unfoldable pub track : PoolIdentifier → PoolMetadata → PoolTracker → PoolTracker
track (address a) pool t = record t {
  tracked_addresses = Sets.insert a t.tracked_addresses;
  pools_by_address = Maps.insert a pool t.pools_by_address;
}
track (pool_id i) pool t = track_singleton pool.protocol i (record t {
  tracked_pool_ids = Sets.insert i t.tracked_pool_ids;
  pools_by_id = Maps.insert i pool t.pools_by_id;
})

-- The part of the loop body of `add_pools` behind `track`: the counter and the hydration queue.
unfoldable pub surface_added : Bool → PoolMetadata → PoolTracker → PoolTracker
surface_added surface_newly_added pool t = record t {
  counts = increment pool.protocol t.counts;
  newly_added = if surface_newly_added then t.newly_added ++ pool ∷ [] else t.newly_added;
}

-- The loop body of `add_pools`.
unfoldable pub add_pool : Bool → PoolTracker → PoolMetadata → PoolTracker
add_pool surface_newly_added t pool =
    if already_tracked t pool.pool_id
    then t
    else surface_added surface_newly_added pool (track pool.pool_id pool t)

unfoldable pub ensure_liquidity_layer : PoolTracker → PoolTracker
ensure_liquidity_layer t =
    if ltb 0 t.counts.fluid_count && not (Sets.contains fluid_liquidity_layer t.tracked_addresses)
    then track_address fluid_liquidity_layer t
    else t

unfoldable pub add_pools : List PoolMetadata → Bool → PoolTracker → PoolTracker
add_pools pools surface_newly_added t =
    ensure_liquidity_layer (fold (add_pool surface_newly_added) t pools)

-- The `Some(pool)` branches of `remove_pools`.
unfoldable pub remove_address : Address → PoolMetadata → PoolTracker → PoolTracker
remove_address a pool t = record t {
  pools_by_address = Maps.remove a t.pools_by_address;
  tracked_addresses = Sets.remove a t.tracked_addresses;
  fluid_configs =
      if same_protocol pool.protocol fluid then Maps.remove a t.fluid_configs else t.fluid_configs;
  counts = decrement pool.protocol t.counts;
  newly_removed = t.newly_removed ++ address a ∷ [];
}

-- A Balancer pool's contract is untracked with it.
unfoldable pub untrack_contract : Protocol → PoolId → PoolTracker → PoolTracker
untrack_contract p i t =
    if same_protocol p balancer_v2_weighted
    then record t {
      tracked_addresses = Sets.remove (pool_contract i) t.tracked_addresses;
      balancer_pools_by_addr = Maps.remove (pool_contract i) t.balancer_pools_by_addr;
    }
    else t

unfoldable pub remove_id : PoolId → PoolMetadata → PoolTracker → PoolTracker
unfolding untrack_contract
remove_id i pool t =
    let u = untrack_contract pool.protocol i (record t {
      pools_by_id = Maps.remove i t.pools_by_id;
      tracked_pool_ids = Sets.remove i t.tracked_pool_ids;
    }) in
    record u {
      counts = decrement pool.protocol u.counts;
      newly_removed = u.newly_removed ++ pool_id i ∷ [];
    }

-- `self.newly_added.retain(|p| p.pool_id != pool_id)`.
unfoldable pub forget_added : PoolIdentifier → PoolTracker → PoolTracker
forget_added p t = record t {
  newly_added = retain (λ m. not (same_identifier m.pool_id p)) t.newly_added;
}

unfoldable pub untrack : PoolIdentifier → PoolTracker → PoolTracker
untrack (address a) t = elim (Maps.lookup a t.pools_by_address) [
  | none ↦ t
  | some pool ↦ remove_address a pool t
]
untrack (pool_id i) t = elim (Maps.lookup i t.pools_by_id) [
  | none ↦ t
  | some pool ↦ remove_id i pool t
]

-- The loop body of `remove_pools`.
unfoldable pub remove_pool : PoolTracker → PoolIdentifier → PoolTracker
remove_pool t p = untrack p (forget_added p t)

unfoldable pub remove_pools : List PoolIdentifier → PoolTracker → PoolTracker
remove_pools ids t = fold remove_pool t ids
