-- ===== src/Tracker/Collision.antt =====
-- What `remove_pools` of src/pool_tracker.rs does where an address is a whitelisted pool and also
-- the contract of a whitelisted Balancer pool.
use reth_exex_liquidity.Common.{true, false, some, [], ◌∷◌, ◌≡◌, arith, fold}
use reth_exex_liquidity.Common.Maps.{lookup}
use reth_exex_liquidity.Common.Sets.{contains-remove}
use reth_exex_liquidity.Types.{PoolId, address, pool_id, balancer_v2_weighted, PoolMetadata}
use reth_exex_liquidity.Tracker.{
  PoolTracker, pool_contract, remove_pools, remove_pool, untrack, remove_id, untrack_contract,
  forget_added,
}
use reth_exex_liquidity.Tracker.Updates.{is_tracked, is_tracked_address}

-- Where a whitelisted Balancer pool's contract is also whitelisted as a pool by its address, and
-- the Balancer pool is removed: the other pool stays whitelisted, but its address no longer passes
-- the address filter, so its logs are dropped.
pub remove_pools-pool_contract :
    (t : PoolTracker) (i : PoolId) (m n : PoolMetadata)
    → lookup i t.pools_by_id ≡ some m
    → m.protocol ≡ balancer_v2_weighted
    → lookup (pool_contract i) t.pools_by_address ≡ some n
    → let u = remove_pools (pool_id i ∷ []) t in
      (is_tracked u (address (pool_contract i)) ≡ true)
      × (is_tracked_address u (pool_contract i) ≡ false)
unfolding fold remove_pools remove_pool untrack remove_id untrack_contract forget_added is_tracked
    is_tracked_address
remove_pools-pool_contract t i m n h p k = (
  ground (arith, h, p, k),
  ground (arith, h, p, k, contains-remove (pool_contract i) (pool_contract i) t.tracked_addresses),
)
