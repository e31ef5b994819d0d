-- ===== src/Tests/Whitelist.antt =====
-- The whitelist's theorems at the sample pools.
use reth_exex_liquidity.Common.{
  ◌+◌, true, false, not, ◌&&◌, ◌||◌, some, [], ◌∷◌, ◌≡◌, refl, fold, if◌then◌else◌,
}
use reth_exex_liquidity.Common.Maps.{count_where}
use reth_exex_liquidity.Common.Maps
use reth_exex_liquidity.Common.Sets
use reth_exex_liquidity.Types.{address, pool_id, uniswap_v2, same_protocol, PoolMetadata}
use reth_exex_liquidity.Counts.{count_of, zero_counts, increment}
use reth_exex_liquidity.Tracker.{
  remove, new, add_pools, add_pool, already_tracked, surface_added, track, track_singleton,
  ensure_liquidity_layer, remove_pools, fluid_liquidity_layer,
}
use reth_exex_liquidity.Tracker.Updates.{
  queue_update, begin_block, end_block, replace_all, lists, is_tracked, is_tracked_address,
  is_tracked_pool_id, is_tracked_fluid_pool, pool_metadata_by_id, stats, apply_pending_updates,
  drain, apply_update,
}
use reth_exex_liquidity.Tracker.Deferral.{end_block-queue_update}
use reth_exex_liquidity.Tracker.Invariant.{Heard, Reach-counts, Reach-filters}
use reth_exex_liquidity.Tracker.Effects.{mentions, remove_pools_effect}
use reth_exex_liquidity.Tracker.{PoolTracker, pool_contract, add}
use reth_exex_liquidity.Tracker.Collision.{remove_pools-pool_contract}
use reth_exex_liquidity.Tests.Samples.{weighted_pool, sample_pool}
use reth_exex_liquidity.Tracker.Snapshots.{replace_all_effect}
use reth_exex_liquidity.Tracker.Additions.{add_pools_effect}
use reth_exex_liquidity.Tests.Samples.{
  pair_pool, v4_pool, weighted_id, all_pools, sample_roles, sample-Directory, all_pools-Fits,
  filled, arrivals, filled_reached, changed_reached, filled-WellFormed,
}

filled_idle : (filled.in_block ≡ false) × (filled.pending_updates ≡ [])
unfolding new queue_update apply_pending_updates drain apply_update add_pools add_pool fold
    already_tracked surface_added track track_singleton ensure_liquidity_layer increment zero_counts
    Sets.contains Sets.insert Maps.insert
filled_idle = (refl, refl)

end_block-queue_update_example :
    end_block (fold queue_update (begin_block filled) arrivals) ≡ fold queue_update filled arrivals
end_block-queue_update_example = end_block-queue_update filled arrivals filled_idle.0 filled_idle.1

Reach-counts_example :
    let t = end_block (queue_update (begin_block filled) (remove (pool_id weighted_id ∷ []))) in
    count_of uniswap_v2 (stats t).by_protocol
    ≡ count_where (λ m. same_protocol m.protocol uniswap_v2) t.pools_by_address
      + count_where (λ m. same_protocol m.protocol uniswap_v2) t.pools_by_id
Reach-counts_example = Reach-counts sample_roles sample-Directory uniswap_v2 changed_reached

Reach-filters_example :
    (is_tracked_pool_id filled weighted_id ≡ is_tracked filled (pool_id weighted_id))
    × (is_tracked filled (address 1002) ≡ true → is_tracked_address filled 1002 ≡ true)
    × ((m : PoolMetadata)
        → pool_metadata_by_id filled weighted_id ≡ some m
        → Heard filled m.protocol weighted_id)
    × (is_tracked_fluid_pool filled 1002 ≡ true
        → is_tracked_address filled fluid_liquidity_layer ≡ true)
Reach-filters_example = Reach-filters sample_roles sample-Directory 1002 weighted_id filled_reached

remove_pools_effect_example :
    let ids = address 1002 ∷ pool_id weighted_id ∷ address 4000 ∷ [] in
    (is_tracked (remove_pools ids filled) (address 1002)
      ≡ (if mentions ids (address 1002) then false else is_tracked filled (address 1002)))
    × (mentions (remove_pools ids filled).newly_removed (address 1002) ≡ (
        mentions filled.newly_removed (address 1002)
        || (mentions ids (address 1002) && is_tracked filled (address 1002))))
    × (lists (remove_pools ids filled).newly_added (address 1002)
        ≡ (if mentions ids (address 1002) then false else lists filled.newly_added (address 1002)))
remove_pools_effect_example =
    remove_pools_effect (address 1002 ∷ pool_id weighted_id ∷ address 4000 ∷ []) filled
      (address 1002)

replace_all_effect_example :
    let ms = pair_pool ∷ v4_pool ∷ [] in
    (is_tracked (replace_all ms filled) (address 1002) ≡ lists ms (address 1002))
    × (mentions (replace_all ms filled).newly_removed (address 1002) ≡ (
        mentions filled.newly_removed (address 1002)
        || (is_tracked filled (address 1002) && not (lists ms (address 1002)))))
    × (lists (replace_all ms filled).newly_added (address 1002) ≡ (
        (lists filled.newly_added (address 1002)
          && not (is_tracked filled (address 1002) && not (lists ms (address 1002))))
        || (lists ms (address 1002) && not (is_tracked filled (address 1002)))))
replace_all_effect_example =
    replace_all_effect sample_roles sample-Directory (pair_pool ∷ v4_pool ∷ []) filled
      (address 1002) (refl, (tt, tt)) filled-WellFormed

add_pools_effect_example :
    (is_tracked (add_pools all_pools true filled) (pool_id 77)
      ≡ (lists all_pools (pool_id 77) || is_tracked filled (pool_id 77)))
    × (lists (add_pools all_pools true filled).newly_added (pool_id 77) ≡ (
        lists filled.newly_added (pool_id 77)
        || (true && lists all_pools (pool_id 77) && not (is_tracked filled (pool_id 77)))))
    × ((add_pools all_pools true filled).newly_removed ≡ filled.newly_removed)
add_pools_effect_example =
    add_pools_effect sample_roles sample-Directory all_pools true filled (pool_id 77) all_pools-Fits
      filled-WellFormed.coherent

-- A pool at an address that a Balancer pool, added later, has for its contract.
abbrev shared_address : PoolTracker
shared_address = queue_update new (add (sample_pool (address 5) uniswap_v2 ∷ weighted_pool ∷ []))

shared_address_lookups :
    (Maps.lookup weighted_id shared_address.pools_by_id ≡ some weighted_pool)
    × (Maps.lookup (pool_contract weighted_id) shared_address.pools_by_address
        ≡ some (sample_pool (address 5) uniswap_v2))
unfolding new queue_update apply_pending_updates drain apply_update add_pools add_pool fold
    already_tracked surface_added track track_singleton ensure_liquidity_layer increment zero_counts
    Sets.contains Sets.insert Maps.insert Maps.lookup
shared_address_lookups = (refl, refl)

remove_pools-pool_contract_example :
    let u = remove_pools (pool_id weighted_id ∷ []) shared_address in
    (is_tracked u (address (pool_contract weighted_id)) ≡ true)
    × (is_tracked_address u (pool_contract weighted_id) ≡ false)
remove_pools-pool_contract_example =
    remove_pools-pool_contract shared_address weighted_id weighted_pool
      (sample_pool (address 5) uniswap_v2) shared_address_lookups.0 refl shared_address_lookups.1
