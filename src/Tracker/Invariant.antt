-- ===== src/Tracker/Invariant.antt =====
-- Every tracker that the ExEx can reach is well formed (src/pool_tracker.rs): a step relation over
-- the operations that change a `PoolTracker`, and its invariant.
use reth_exex_liquidity.Common.{
  ◌+◌, ◌<◌, subst, Bool, true, false, List, [], ◌∷◌, ◌++◌, ◌≡◌, refl, sym, ◌∙◌, arith, All, some,
  Option-cases, inl, inr, if◌then◌else◌,
}
use reth_exex_liquidity.Common.Maps.{lookup, count_where, count_where_pos}
use reth_exex_liquidity.Common.Maps
use reth_exex_liquidity.Common.Sets.{contains}
use reth_exex_liquidity.FluidConfig.{FluidPoolConfig}
use reth_exex_liquidity.Types.{
  Address, PoolId, PoolIdentifier, address, pool_id, Protocol, uniswap_v4, ekubo,
  balancer_v2_weighted, fluid, same_protocol, PoolMetadata,
}
use reth_exex_liquidity.Counts.{count_of, count_of-zero_counts}
use reth_exex_liquidity.Tracker.{
  PoolTracker, WhitelistUpdate, add, remove, replace, new, uniswap_v4_pool_manager, ekubo_core,
  balancer_v2_vault, fluid_liquidity_layer, pool_contract,
}
use reth_exex_liquidity.Tracker.Updates.{
  apply_update, drain, apply_pending_updates, begin_block, end_block, queue_update, replace_startup,
  clear, register_fluid_config, requeue_newly_added, take_newly_added, take_newly_removed,
  is_tracked, is_tracked_address, is_tracked_pool_id, pool_metadata_by_id, is_tracked_fluid_pool,
  balancer_pool_id_for_addr, stats,
}
use reth_exex_liquidity.Tracker.Deferral.{drain-framed, add_pools-framed}
use reth_exex_liquidity.Tracker.Roles.{
  Role, Directory, Fits, FitsUpdate, Emits, Coherent, WellFormed,
}
use reth_exex_liquidity.Tracker.Adding.{add_pools-WellFormed}
use reth_exex_liquidity.Tracker.Removing.{remove_pools-WellFormed}
use reth_exex_liquidity.Tracker.Untracking.{unread-WellFormed}
use reth_exex_liquidity.Tracker.Replacing.{replace_all-WellFormed, replace_startup-WellFormed}

-- The contracts that the logs of a pool known by its id come from pass the address filter.
abbrev pub Heard : PoolTracker → Protocol → PoolId → Type 0
Heard t uniswap_v4 i = is_tracked_address t uniswap_v4_pool_manager ≡ true
Heard t ekubo i = is_tracked_address t ekubo_core ≡ true
Heard t balancer_v2_weighted i =
    (is_tracked_address t balancer_v2_vault ≡ true)
    × (is_tracked_address t (pool_contract i) ≡ true)
    × (balancer_pool_id_for_addr t (pool_contract i) ≡ some i)
Heard t _ i = Unit

module _ (roles : Address → Role) where
  -- What the ExEx does to its tracker, in any order; what the whitelist sends fits the roles.
  pub data Step : PoolTracker → PoolTracker → Type 0 where
    begins : (t : PoolTracker) → Step t (begin_block t)
    ends : (t : PoolTracker) → Step t (end_block t)
    queues :
        (t : PoolTracker) (u : WhitelistUpdate) → FitsUpdate roles u → Step t (queue_update t u)
    starts :
        (t : PoolTracker) (ms : List PoolMetadata)
        → All (Fits roles) ms
        → Step t (replace_startup ms t)
    registers : (t : PoolTracker) (c : FluidPoolConfig) → Step t (register_fluid_config c t)
    requeues : (t : PoolTracker) (ms : List PoolMetadata) → Step t (requeue_newly_added ms t)
    takes_added : (t : PoolTracker) → Step t (take_newly_added t).1
    takes_removed : (t : PoolTracker) → Step t (take_newly_removed t).1

  pub data Reach : PoolTracker → Type 0 where
    here : Reach new
    next : {t u : PoolTracker} → Reach t → Step t u → Reach u

  pub record Valid (t : PoolTracker) : Type 0 where
    pub well_formed : WellFormed roles t
    pub pending_fits : All (FitsUpdate roles) t.pending_updates

  if-Valid : (b : Bool) (q r : PoolTracker) → Valid q → Valid r → Valid (if b then q else r)
  if-Valid true q r h k = h
  if-Valid false q r h k = k

  Emits-Heard :
      (t : PoolTracker) (p : Protocol) (i : PoolId)
      → Emits roles t.tracked_addresses t.balancer_pools_by_addr p i
      → Heard t p i
  unfolding is_tracked_address balancer_pool_id_for_addr
  Emits-Heard t balancer_v2_weighted i e = (e.0, e.1, e.2)
  Emits-Heard t uniswap_v4 i e = e
  Emits-Heard t ekubo i e = e
  Emits-Heard t _ i e = tt

  All-append_one :
      (us : List WhitelistUpdate) (u : WhitelistUpdate)
      → All (FitsUpdate roles) us
      → FitsUpdate roles u
      → All (FitsUpdate roles) (us ++ u ∷ [])
  All-append_one [] u h f = (f, tt)
  All-append_one (v ∷ us) u h f = (h.0, All-append_one us u h.1 f)

  new-Valid : Valid new
  unfolding new lookup contains count_where
  new-Valid = record {
    well_formed = record {
      coherent = record {
        distinct_addresses = tt;
        distinct_ids = tt;
        ids_tracked = λ i. refl;
        addresses_tracked = λ a e. cc;
        addresses_plain = λ a e. cc;
        plain_tracked = λ a e r. cc;
        emitters_tracked = λ i m e. cc;
        contracts_known = λ a i e. cc;
        counted = λ p. count_of-zero_counts p;
      };
      layer_tracked = λ e. absurd (omega arith);
    };
    pending_fits = tt;
  }

  module _ (directory : Directory roles) where
    apply_update-WellFormed :
        (t : PoolTracker) (u : WhitelistUpdate)
        → FitsUpdate roles u
        → WellFormed roles t
        → WellFormed roles (apply_update t u)
    unfolding apply_update
    apply_update-WellFormed t (add ms) f h =
        add_pools-WellFormed roles directory ms true t f h.coherent
    apply_update-WellFormed t (remove ids) f h = remove_pools-WellFormed roles directory ids t h
    apply_update-WellFormed t (replace ms) f h = replace_all-WellFormed roles directory ms t f h

    drain-WellFormed :
        (us : List WhitelistUpdate) (t : PoolTracker)
        → All (FitsUpdate roles) us
        → WellFormed roles t
        → WellFormed roles (drain us t)
    unfolding drain
    drain-WellFormed [] t f h = h
    drain-WellFormed (u ∷ us) t f h =
        drain-WellFormed us (apply_update (record t { pending_updates = us }) u) f.1 (
          apply_update-WellFormed (record t { pending_updates = us }) u f.0
            (unread-WellFormed roles directory t t.fluid_configs us t.newly_added t.newly_removed
              t.in_block h))

    apply_pending_updates-Valid :
        (t : PoolTracker)
        → All (FitsUpdate roles) t.pending_updates
        → WellFormed roles t
        → Valid (apply_pending_updates t)
    unfolding apply_pending_updates
    apply_pending_updates-Valid t f h = record {
      well_formed = drain-WellFormed t.pending_updates t f h;
      pending_fits =
          subst (λ (s : PoolTracker). All (FitsUpdate roles) s.pending_updates)
            (sym (drain-framed t.pending_updates t.in_block t)) tt;
    }

    queue_update-Valid :
        (t : PoolTracker) (u : WhitelistUpdate)
        → FitsUpdate roles u
        → Valid t
        → Valid (queue_update t u)
    unfolding queue_update
    queue_update-Valid t u f v =
        let us = t.pending_updates ++ u ∷ [] in
        let q = record t { pending_updates = us } in
        let fits = All-append_one t.pending_updates u v.pending_fits f in
        let queued =
          unread-WellFormed roles directory t t.fluid_configs us t.newly_added t.newly_removed
            t.in_block v.well_formed in
        if-Valid t.in_block q (apply_pending_updates q)
          (record { well_formed = queued; pending_fits = fits })
          (apply_pending_updates-Valid q fits queued)

    replace_startup-Valid :
        (t : PoolTracker) (ms : List PoolMetadata)
        → All (Fits roles) ms
        → Valid t
        → Valid (replace_startup ms t)
    unfolding replace_startup clear
    replace_startup-Valid t ms f v = record {
      well_formed = replace_startup-WellFormed roles directory ms t f;
      pending_fits =
          subst (λ (s : PoolTracker). All (FitsUpdate roles) s.pending_updates)
            (sym (add_pools-framed t.pending_updates t.in_block ms false (clear t))) v.pending_fits;
    }

    unread-Valid :
        (t : PoolTracker) (configs : List (Address × FluidPoolConfig)) (added : List PoolMetadata)
        (removed : List PoolIdentifier) (flag : Bool)
        → Valid t
        → Valid (record t {
          fluid_configs = configs;
          newly_added = added;
          newly_removed = removed;
          in_block = flag;
        })
    unread-Valid t configs added removed flag v = record {
      well_formed =
          unread-WellFormed roles directory t configs t.pending_updates added removed flag
            v.well_formed;
      pending_fits = v.pending_fits;
    }

    Step-Valid : {t u : PoolTracker} → Step t u → Valid t → Valid u
    unfolding begin_block end_block register_fluid_config requeue_newly_added take_newly_added
        take_newly_removed
    Step-Valid (begins t) v = unread-Valid t t.fluid_configs t.newly_added t.newly_removed true v
    Step-Valid (ends t) v =
        let w = unread-Valid t t.fluid_configs t.newly_added t.newly_removed false v in
        apply_pending_updates-Valid (record t { in_block = false }) w.pending_fits w.well_formed
    Step-Valid (queues t u f) v = queue_update-Valid t u f v
    Step-Valid (starts t ms f) v = replace_startup-Valid t ms f v
    Step-Valid (registers t c) v =
        unread-Valid t (Maps.insert c.pool_address c t.fluid_configs) t.newly_added t.newly_removed
          t.in_block v
    Step-Valid (requeues t ms) v =
        unread-Valid t t.fluid_configs (t.newly_added ++ ms) t.newly_removed t.in_block v
    Step-Valid (takes_added t) v = unread-Valid t t.fluid_configs [] t.newly_removed t.in_block v
    Step-Valid (takes_removed t) v = unread-Valid t t.fluid_configs t.newly_added [] t.in_block v

    pub Reach-Valid : {t : PoolTracker} → Reach t → Valid t
    Reach-Valid here = new-Valid
    Reach-Valid (next r s) = Step-Valid s (Reach-Valid r)

    true≢false : true ≡ false → ⊥
    true≢false e = cc

    fluid_counted :
        (t : PoolTracker)
        → Coherent roles t
        → (a : Address) → is_tracked_fluid_pool t a ≡ true
        → 0 < t.counts.fluid_count
    unfolding is_tracked_fluid_pool count_of
    fluid_counted t h a e = elim (Option-cases (lookup a t.pools_by_address)) [
      | inl absent ↦ absurd (true≢false (sym e ∙ (rw (absent, is_tracked_fluid_pool))))
      | inr (m, found) ↦
          let is_fluid : same_protocol m.protocol fluid ≡ true =
            (rw (found, is_tracked_fluid_pool) at e) in
          omega (
            arith,
            h.counted fluid,
            count_where_pos (λ n. same_protocol n.protocol fluid) a m t.pools_by_address found
                is_fluid,
          )
    ]

    -- In every tracker that the operations reach from a new one by whitelist updates that fit the
    -- roles: the counter of each protocol is the number of whitelisted pools of that protocol, those
    -- known by address and those known by id together.
    pub Reach-counts :
        {t : PoolTracker} (p : Protocol)
        → Reach t
        → count_of p (stats t).by_protocol
          ≡ count_where (λ m. same_protocol m.protocol p) t.pools_by_address
            + count_where (λ m. same_protocol m.protocol p) t.pools_by_id
    unfolding stats
    Reach-counts p r = (Reach-Valid r).well_formed.coherent.counted p

    -- In every reachable tracker a pool id passes the pool id filter exactly if its pool is
    -- whitelisted, a pool whitelisted by address passes the address filter, and so do the contracts
    -- that the logs of a pool whitelisted by id come from: the PoolManager for Uniswap V4, the Core
    -- for Ekubo, the Vault and the pool's own contract for Balancer, where the contract's address
    -- leads back to the pool id. With a Fluid pool whitelisted by address the Liquidity Layer passes
    -- it.
    pub Reach-filters :
        {t : PoolTracker} (a : Address) (i : PoolId)
        → Reach t
        → (is_tracked_pool_id t i ≡ is_tracked t (pool_id i))
          × (is_tracked t (address a) ≡ true → is_tracked_address t a ≡ true)
          × ((m : PoolMetadata) → pool_metadata_by_id t i ≡ some m → Heard t m.protocol i)
          × (is_tracked_fluid_pool t a ≡ true → is_tracked_address t fluid_liquidity_layer ≡ true)
    unfolding is_tracked_pool_id is_tracked is_tracked_address pool_metadata_by_id
    Reach-filters {t} a i r =
        let h = (Reach-Valid r).well_formed in
        (
          h.coherent.ids_tracked i,
          h.coherent.addresses_tracked a,
          λ m e. Emits-Heard t m.protocol i (h.coherent.emitters_tracked i m e),
          λ e. h.layer_tracked (fluid_counted t h.coherent a e),
        )
