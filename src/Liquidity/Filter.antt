-- ===== src/Liquidity/Filter.antt =====
-- `should_process_event`, `active_affected_v2_pools` and `record_affected_v2_pool` of src/main.rs:
-- which decoded events are processed.
use reth_exex_liquidity.Common.{
  Bool, true, false, none, some, List, ◌≡◌, refl, ap, ◌∙◌, arith, is_some, fold, retain,
}
use reth_exex_liquidity.Common.Sets
use reth_exex_liquidity.Types.{
  Address, PoolId, PoolIdentifier, address, pool_id, uniswap_v2, same_protocol,
}
use reth_exex_liquidity.Events.{
  DecodedEvent, v2_swap, v2_mint, v2_burn, v2_sync, v3_swap, v3_mint, v3_burn, v4_swap,
  v4_modify_liquidity, ekubo_swap, ekubo_position_updated, curve_swap, curve_liquidity_change,
  curve_ramp_a, curve_apply_new_fee, two_crypto_swap, two_crypto_liquidity_change,
  two_crypto_ramp_agamma, two_crypto_new_parameters, fluid_operate, tricrypto_liquidity_change,
  balancer_swap, balancer_pool_balance_changed, balancer_fee_change,
}
use reth_exex_liquidity.Tracker.{PoolTracker, WhitelistUpdate}
use reth_exex_liquidity.Tracker.Updates.{
  is_tracked, is_tracked_address, is_tracked_pool_id, is_tracked_fluid_pool,
  balancer_pool_id_for_addr, get_protocol, begin_block, queue_update,
}
use reth_exex_liquidity.Tracker.Deferral.{queue_update-begin_block}
use reth_exex_liquidity.Tracker.Roles.{Role, plain, Directory}
use reth_exex_liquidity.Tracker.Contracts.{has_contract, contracts_mapped}
use reth_exex_liquidity.Tracker.Invariant.{Reach, Reach-Valid}

unfoldable pub should_process_event : DecodedEvent → PoolTracker → Bool
should_process_event (v2_swap p) t = is_tracked_address t p
should_process_event (v2_mint p) t = is_tracked_address t p
should_process_event (v2_burn p) t = is_tracked_address t p
should_process_event (v2_sync p r0 r1) t = is_tracked_address t p
should_process_event (v3_swap p s l k) t = is_tracked_address t p
should_process_event (v3_mint p lo hi n) t = is_tracked_address t p
should_process_event (v3_burn p lo hi n) t = is_tracked_address t p
should_process_event (v4_swap i s l k) t = is_tracked_pool_id t i
should_process_event (v4_modify_liquidity i lo hi d) t = is_tracked_pool_id t i
should_process_event (ekubo_swap i s l k) t = is_tracked_pool_id t i
should_process_event (ekubo_position_updated i lo hi d s l k) t = is_tracked_pool_id t i
should_process_event (curve_swap p) t = is_tracked_address t p
should_process_event (curve_liquidity_change p) t = is_tracked_address t p
should_process_event (curve_ramp_a p o n i f) t = is_tracked_address t p
should_process_event (curve_apply_new_fee p f o) t = is_tracked_address t p
should_process_event (two_crypto_swap p) t = is_tracked_address t p
should_process_event (two_crypto_liquidity_change p) t = is_tracked_address t p
should_process_event (two_crypto_ramp_agamma p a b c d e f) t = is_tracked_address t p
should_process_event (two_crypto_new_parameters p m o g) t = is_tracked_address t p
should_process_event (tricrypto_liquidity_change p) t = is_tracked_address t p
should_process_event (balancer_swap i a b c d) t = is_tracked_pool_id t i
should_process_event (balancer_pool_balance_changed i ts ds) t = is_tracked_pool_id t i
should_process_event (balancer_fee_change p) t = is_some (balancer_pool_id_for_addr t p)
should_process_event (fluid_operate p k) t = is_tracked_fluid_pool t p

-- `record_affected_v2_pool`.
unfoldable pub record_affected_v2_pool : DecodedEvent → List Address → List Address
record_affected_v2_pool (v2_swap p) affected = Sets.insert p affected
record_affected_v2_pool (v2_mint p) affected = Sets.insert p affected
record_affected_v2_pool (v2_burn p) affected = Sets.insert p affected
record_affected_v2_pool (v2_sync p r0 r1) affected = Sets.insert p affected
record_affected_v2_pool _ affected = affected

unfoldable pub active_affected_v2_pools : PoolTracker → List Address → List Address
active_affected_v2_pools t affected =
    retain (λ a. elim (get_protocol t a) [ none ↦ false | some p ↦ same_protocol p uniswap_v2 ])
      affected

-- Whose event it is: a pool known by its address or by its id, a pool of the Fluid Liquidity Layer,
-- or a Balancer pool's contract.
pub data Subject : Type 0 where
  pool : PoolIdentifier → Subject
  fluid_pool contract : Address → Subject

unfoldable pub subject : DecodedEvent → Subject
subject (v2_swap p) = pool (address p)
subject (v2_mint p) = pool (address p)
subject (v2_burn p) = pool (address p)
subject (v2_sync p r0 r1) = pool (address p)
subject (v3_swap p s l k) = pool (address p)
subject (v3_mint p lo hi n) = pool (address p)
subject (v3_burn p lo hi n) = pool (address p)
subject (v4_swap i s l k) = pool (pool_id i)
subject (v4_modify_liquidity i lo hi d) = pool (pool_id i)
subject (ekubo_swap i s l k) = pool (pool_id i)
subject (ekubo_position_updated i lo hi d s l k) = pool (pool_id i)
subject (curve_swap p) = pool (address p)
subject (curve_liquidity_change p) = pool (address p)
subject (curve_ramp_a p o n i f) = pool (address p)
subject (curve_apply_new_fee p f o) = pool (address p)
subject (two_crypto_swap p) = pool (address p)
subject (two_crypto_liquidity_change p) = pool (address p)
subject (two_crypto_ramp_agamma p a b c d e f) = pool (address p)
subject (two_crypto_new_parameters p m o g) = pool (address p)
subject (tricrypto_liquidity_change p) = pool (address p)
subject (balancer_swap i a b c d) = pool (pool_id i)
subject (balancer_pool_balance_changed i ts ds) = pool (pool_id i)
subject (balancer_fee_change p) = contract p
subject (fluid_operate p k) = fluid_pool p

-- What the filter is for: the pool is whitelisted, whitelisted as a Fluid pool, or the contract of
-- a whitelisted Balancer pool: that of an entry of this family in the whitelist.
unfoldable pub whitelisted : PoolTracker → Subject → Bool
unfolding has_contract
whitelisted t (pool p) = is_tracked t p
whitelisted t (fluid_pool a) = is_tracked_fluid_pool t a
whitelisted t (contract a) = has_contract a t.pools_by_id

-- The role of an address that is a pool of its own.
abbrev pub Plain : (Address → Role) → Subject → Type 0
Plain roles (pool (address a)) = roles a ≡ plain
Plain roles (pool (pool_id i)) = Unit
Plain roles (fluid_pool a) = Unit
Plain roles (contract a) = Unit

module _ (roles : Address → Role) (directory : Directory roles) where
  address_filter :
      {t : PoolTracker} (a : Address)
      → Reach roles t
      → roles a ≡ plain
      → is_tracked_address t a ≡ is_tracked t (address a)
  unfolding is_tracked_address is_tracked
  address_filter a r e =
      let h = (Reach-Valid roles directory r).well_formed.coherent in
      ground (arith, h.addresses_tracked a, h.plain_tracked a)

  id_filter :
      {t : PoolTracker} (i : PoolId)
      → Reach roles t
      → is_tracked_pool_id t i ≡ is_tracked t (pool_id i)
  unfolding is_tracked_pool_id is_tracked
  id_filter i r = (Reach-Valid roles directory r).well_formed.coherent.ids_tracked i

  passes : PoolTracker → Subject → Bool
  passes t (pool (address a)) = is_tracked_address t a
  passes t (pool (pool_id i)) = is_tracked_pool_id t i
  passes t (fluid_pool a) = is_tracked_fluid_pool t a
  passes t (contract a) = is_some (balancer_pool_id_for_addr t a)

  should_process_event-passes :
      (e : DecodedEvent) (t : PoolTracker) → should_process_event e t ≡ passes t (subject e)
  unfolding should_process_event passes subject
  should_process_event-passes (v2_swap p) t = refl
  should_process_event-passes _ t = refl

  passes-whitelisted :
      {t : PoolTracker} (s : Subject) → Reach roles t → Plain roles s → passes t s ≡ whitelisted t s
  unfolding passes whitelisted balancer_pool_id_for_addr
  passes-whitelisted (pool (address a)) r e = address_filter a r e
  passes-whitelisted (pool (pool_id i)) r e = id_filter i r
  passes-whitelisted (fluid_pool a) r e = refl
  passes-whitelisted (contract a) r e =
      contracts_mapped roles a (Reach-Valid roles directory r).well_formed.coherent

  -- With any reachable tracker, an event is processed exactly if its pool is whitelisted: the pool
  -- that an event names by address (an address with the role of a pool) or by id, the Fluid pool
  -- that a `LogOperate` names, a Balancer pool of the whitelist whose contract, the first 20 bytes of its
  -- id, reports a fee change.
  pub should_process_event-whitelisted :
      {t : PoolTracker} (e : DecodedEvent)
      → Reach roles t
      → Plain roles (subject e)
      → should_process_event e t ≡ whitelisted t (subject e)
  should_process_event-whitelisted {t} e r p =
      should_process_event-passes e t ∙ passes-whitelisted (subject e) r p

pub framed_filter :
    (e : DecodedEvent) (t : PoolTracker) (us : List WhitelistUpdate) (b : Bool)
    → should_process_event e (record t { pending_updates = us; in_block = b })
      ≡ should_process_event e t
unfolding should_process_event is_tracked_address is_tracked_pool_id is_tracked_fluid_pool
    balancer_pool_id_for_addr
framed_filter (v2_swap p) t us b = refl
framed_filter _ t us b = refl

-- Within a block no whitelist update changes which events are processed.
pub should_process_event-queue_update :
    (e : DecodedEvent) (t : PoolTracker) (us : List WhitelistUpdate)
    → should_process_event e (fold queue_update (begin_block t) us) ≡ should_process_event e t
should_process_event-queue_update e t us =
    ap (should_process_event e) (queue_update-begin_block t us) ∙ framed_filter e t _ true
