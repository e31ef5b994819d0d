-- ===== src/Tracker/Updates.antt =====
-- src/pool_tracker.rs: full replacement, the queue of whitelist updates, block boundaries, drains.
use reth_exex_liquidity.Common.{
  ℕ, ◌+◌, Bool, true, false, not, Option, none, some, List, [], ◌∷◌, ◌++◌, if◌then◌else◌, fold,
  retain, length, is_some, map,
}
use reth_exex_liquidity.Common.Maps
use reth_exex_liquidity.Common.Sets
use reth_exex_liquidity.Types.{
  Address, PoolId, PoolIdentifier, address, pool_id, same_identifier, Protocol, fluid,
  same_protocol, PoolMetadata,
}
use reth_exex_liquidity.FluidConfig.{FluidPoolConfig}
use reth_exex_liquidity.Counts.{Counts, zero_counts}
use reth_exex_liquidity.Tracker.{
  WhitelistUpdate, add, remove, replace, PoolTracker, add_pools, remove_pools,
}

-- Whether a snapshot lists an identifier: `new_ids.contains(id)`.
unfoldable pub lists : List PoolMetadata → PoolIdentifier → Bool
lists [] p = false
lists (m ∷ pools) p = if same_identifier m.pool_id p then true else lists pools p

unfoldable pub tracked_identifiers : PoolTracker → List PoolIdentifier
tracked_identifiers t =
    map address (Maps.keys t.pools_by_address) ++ map pool_id (Maps.keys t.pools_by_id)

-- `get_mut`, and the write through it where the protocol stays.
unfoldable pub refresh_entry : ℕ → PoolMetadata → List (ℕ × PoolMetadata) → List (ℕ × PoolMetadata)
refresh_entry k pool m = elim (Maps.lookup k m) [
  | none ↦ m
  | some existing ↦
      if same_protocol existing.protocol pool.protocol then Maps.insert k pool m else m
]

unfoldable pub refresh_at : PoolIdentifier → PoolMetadata → PoolTracker → PoolTracker
refresh_at (address a) pool t = record t {
  pools_by_address = refresh_entry a pool t.pools_by_address;
}
refresh_at (pool_id i) pool t = record t { pools_by_id = refresh_entry i pool t.pools_by_id }

-- The body of the loop of `replace_all` over the retained pools.
unfoldable pub refresh : PoolTracker → PoolMetadata → PoolTracker
refresh t pool = refresh_at pool.pool_id pool t

unfoldable pub replace_all : List PoolMetadata → PoolTracker → PoolTracker
replace_all pools t = add_pools pools true (
    fold refresh (remove_pools (retain (λ p. not (lists pools p)) (tracked_identifiers t)) t) pools)

-- The pending queue and the block flag stay.
unfoldable pub clear : PoolTracker → PoolTracker
unfolding zero_counts
clear t = record t {
  pools_by_address = [];
  pools_by_id = [];
  tracked_addresses = [];
  tracked_pool_ids = [];
  fluid_configs = [];
  balancer_pools_by_addr = [];
  newly_added = [];
  newly_removed = [];
  counts = zero_counts;
}

unfoldable pub replace_startup : List PoolMetadata → PoolTracker → PoolTracker
replace_startup pools t = add_pools pools false (clear t)

unfoldable pub apply_update : PoolTracker → WhitelistUpdate → PoolTracker
apply_update t (add pools) = add_pools pools true t
apply_update t (remove ids) = remove_pools ids t
apply_update t (replace pools) = replace_all pools t

-- `while let Some(update) = self.pending_updates.pop_front()`.
unfoldable pub drain : List WhitelistUpdate → PoolTracker → PoolTracker
drain [] t = t
drain (u ∷ us) t = drain us (apply_update (record t { pending_updates = us }) u)

unfoldable pub apply_pending_updates : PoolTracker → PoolTracker
apply_pending_updates t = drain t.pending_updates t

unfoldable pub begin_block : PoolTracker → PoolTracker
begin_block t = record t { in_block = true }

unfoldable pub end_block : PoolTracker → PoolTracker
end_block t = apply_pending_updates (record t { in_block = false })

unfoldable pub queue_update : PoolTracker → WhitelistUpdate → PoolTracker
queue_update t u =
    let q = record t { pending_updates = t.pending_updates ++ u ∷ [] } in
    if t.in_block then q else apply_pending_updates q

unfoldable pub register_fluid_config : FluidPoolConfig → PoolTracker → PoolTracker
register_fluid_config c t = record t {
  fluid_configs = Maps.insert c.pool_address c t.fluid_configs;
}

unfoldable pub requeue_newly_added : List PoolMetadata → PoolTracker → PoolTracker
requeue_newly_added pools t = record t { newly_added = t.newly_added ++ pools }

-- `std::mem::take`: the drained list, and the tracker without it.
unfoldable pub take_newly_added : PoolTracker → List PoolMetadata × PoolTracker
take_newly_added t = (t.newly_added, record t { newly_added = [] })

unfoldable pub take_newly_removed : PoolTracker → List PoolIdentifier × PoolTracker
take_newly_removed t = (t.newly_removed, record t { newly_removed = [] })

-- The queries.
unfoldable pub is_tracked_address : PoolTracker → Address → Bool
is_tracked_address t a = Sets.contains a t.tracked_addresses

unfoldable pub is_tracked_pool_id : PoolTracker → PoolId → Bool
is_tracked_pool_id t i = Sets.contains i t.tracked_pool_ids

unfoldable pub pool_metadata : PoolTracker → Address → Option PoolMetadata
pool_metadata t a = Maps.lookup a t.pools_by_address

unfoldable pub pool_metadata_by_id : PoolTracker → PoolId → Option PoolMetadata
pool_metadata_by_id t i = Maps.lookup i t.pools_by_id

unfoldable pub get_protocol : PoolTracker → Address → Option Protocol
get_protocol t a = elim (Maps.lookup a t.pools_by_address) [
  | none ↦ none
  | some m ↦ some m.protocol
]

unfoldable pub is_tracked_fluid_pool : PoolTracker → Address → Bool
is_tracked_fluid_pool t a = elim (Maps.lookup a t.pools_by_address) [
  | none ↦ false
  | some m ↦ same_protocol m.protocol fluid
]

unfoldable pub fluid_config : PoolTracker → Address → Option FluidPoolConfig
fluid_config t a = Maps.lookup a t.fluid_configs

unfoldable pub balancer_pool_id_for_addr : PoolTracker → Address → Option PoolId
balancer_pool_id_for_addr t a = Maps.lookup a t.balancer_pools_by_addr

unfoldable pub is_tracked : PoolTracker → PoolIdentifier → Bool
is_tracked t (address a) = is_some (Maps.lookup a t.pools_by_address)
is_tracked t (pool_id i) = is_some (Maps.lookup i t.pools_by_id)

pub record PoolTrackerStats : Type 0 where
  pub total_pools : ℕ
  pub by_protocol : Counts

unfoldable pub stats : PoolTracker → PoolTrackerStats
stats t = record {
  total_pools = length t.pools_by_address + length t.pools_by_id;
  by_protocol = t.counts;
}
