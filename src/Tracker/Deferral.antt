-- ===== src/Tracker/Deferral.antt =====
-- Whitelist updates that arrive within a block wait for its end, and have the effect there that
-- they would have had outside a block.
use reth_exex_liquidity.Common.{
  Bool, true, false, List, [], ◌∷◌, ◌++◌, ◌≡◌, refl, ap, sym, ◌∙◌, arith, fold, not, retain,
}
use mathlib.Core.List.{append_assoc, append-nil}
use reth_exex_liquidity.Types.{
  PoolId, PoolIdentifier, address, pool_id, Protocol, uniswap_v2, PoolMetadata,
}
use reth_exex_liquidity.Tracker.{
  WhitelistUpdate, add, remove, replace, PoolTracker, add_pool, add_pools, remove_pool,
  remove_pools, track, track_singleton, surface_added, ensure_liquidity_layer, already_tracked,
  forget_added, untrack, remove_address, remove_id,
}
use reth_exex_liquidity.Tracker.Updates.{
  refresh, refresh_at, replace_all, apply_update, drain, apply_pending_updates, begin_block,
  end_block, queue_update, lists, tracked_identifiers,
}

-- The two fields that belong to the queue.
abbrev pub framed : List WhitelistUpdate → Bool → PoolTracker → PoolTracker
framed us b t = record t { pending_updates = us; in_block = b }

fold-framed :
    {A : Type 0} (us : List WhitelistUpdate) (b : Bool) (step : PoolTracker → A → PoolTracker)
    → ((t : PoolTracker) (a : A) → step (framed us b t) a ≡ framed us b (step t a))
    → (t : PoolTracker) (xs : List A) → fold step (framed us b t) xs ≡ framed us b (fold step t xs)
unfolding fold
fold-framed us b step same t [] = refl
fold-framed us b step same t (x ∷ xs) =
    ap (λ s. fold step s xs) (same t x) ∙ fold-framed us b step same (step t x) xs

module _ (us : List WhitelistUpdate) (b : Bool) where
  track_singleton-framed :
      (p : Protocol) (i : PoolId) (t : PoolTracker)
      → track_singleton p i (framed us b t) ≡ framed us b (track_singleton p i t)
  unfolding track_singleton
  track_singleton-framed uniswap_v2 i t = refl
  track_singleton-framed _ i t = refl

  track-framed :
      (p : PoolIdentifier) (m : PoolMetadata) (t : PoolTracker)
      → track p m (framed us b t) ≡ framed us b (track p m t)
  unfolding track
  track-framed (address a) m t = refl
  track-framed (pool_id i) m t = track_singleton-framed m.protocol i _

  already_tracked-framed :
      (t : PoolTracker) (p : PoolIdentifier)
      → already_tracked (framed us b t) p ≡ already_tracked t p
  unfolding already_tracked
  already_tracked-framed t (address a) = refl
  already_tracked-framed t (pool_id i) = refl

  add_pool-framed :
      (surface : Bool) (t : PoolTracker) (m : PoolMetadata)
      → add_pool surface (framed us b t) m ≡ framed us b (add_pool surface t m)
  unfolding add_pool surface_added
  add_pool-framed surface t m =
      rw (already_tracked-framed t m.pool_id, track-framed m.pool_id m t) (ground arith)

  pub add_pools-framed :
      (ms : List PoolMetadata) (surface : Bool) (t : PoolTracker)
      → add_pools ms surface (framed us b t) ≡ framed us b (add_pools ms surface t)
  unfolding add_pools ensure_liquidity_layer
  add_pools-framed ms surface t =
      rw (fold-framed us b (add_pool surface) (add_pool-framed surface) t ms) (ground arith)

  untrack-framed :
      (p : PoolIdentifier) (t : PoolTracker) → untrack p (framed us b t) ≡ framed us b (untrack p t)
  unfolding untrack remove_address remove_id
  untrack-framed (address a) t = ground arith
  untrack-framed (pool_id i) t = ground arith

  remove_pool-framed :
      (t : PoolTracker) (p : PoolIdentifier)
      → remove_pool (framed us b t) p ≡ framed us b (remove_pool t p)
  unfolding remove_pool forget_added
  remove_pool-framed t p = untrack-framed p (forget_added p t)

  remove_pools-framed :
      (ids : List PoolIdentifier) (t : PoolTracker)
      → remove_pools ids (framed us b t) ≡ framed us b (remove_pools ids t)
  unfolding remove_pools
  remove_pools-framed ids t = fold-framed us b remove_pool remove_pool-framed t ids

  refresh_at-framed :
      (p : PoolIdentifier) (m : PoolMetadata) (t : PoolTracker)
      → refresh_at p m (framed us b t) ≡ framed us b (refresh_at p m t)
  unfolding refresh_at
  refresh_at-framed (address a) m t = refl
  refresh_at-framed (pool_id i) m t = refl

  refresh-framed :
      (t : PoolTracker) (m : PoolMetadata) → refresh (framed us b t) m ≡ framed us b (refresh t m)
  unfolding refresh
  refresh-framed t m = refresh_at-framed m.pool_id m t

  replace_all-framed :
      (ms : List PoolMetadata) (t : PoolTracker)
      → replace_all ms (framed us b t) ≡ framed us b (replace_all ms t)
  unfolding replace_all tracked_identifiers
  replace_all-framed ms t =
      let gone = retain (λ p. not (lists ms p)) (tracked_identifiers t) in
      ap (λ s. add_pools ms true (fold refresh s ms)) (remove_pools-framed gone t)
      ∙ ap (add_pools ms true) (fold-framed us b refresh refresh-framed (remove_pools gone t) ms)
      ∙ add_pools-framed ms true _

  -- No update reads or writes the queue.
  pub apply_update-framed :
      (t : PoolTracker) (u : WhitelistUpdate)
      → apply_update (framed us b t) u ≡ framed us b (apply_update t u)
  unfolding apply_update
  apply_update-framed t (add ms) = add_pools-framed ms true t
  apply_update-framed t (remove ids) = remove_pools-framed ids t
  apply_update-framed t (replace ms) = replace_all-framed ms t

pub drain-framed :
    (us : List WhitelistUpdate) (b : Bool) (t : PoolTracker)
    → drain us (framed us b t) ≡ framed [] b (fold apply_update t us)
unfolding drain fold
drain-framed [] b t = refl
drain-framed (u ∷ us) b t =
    ap (drain us) (apply_update-framed us b t u) ∙ drain-framed us b (apply_update t u)

queue_update-framed :
    (us ws : List WhitelistUpdate) (t : PoolTracker)
    → fold queue_update (framed ws true t) us ≡ framed (ws ++ us) true t
unfolding queue_update fold
queue_update-framed [] ws t = rw append-nil
queue_update-framed (u ∷ us) ws t =
    queue_update-framed us (ws ++ u ∷ []) t
    ∙ ap (λ vs. framed vs true t) (append_assoc ws (u ∷ []) us)

-- Within a block, queueing whitelist updates changes the pending queue and nothing else: the
-- updates are appended in their order, and every other field, so every answer of the whitelist, is
-- as it was when the block began.
pub queue_update-begin_block :
    (t : PoolTracker) (us : List WhitelistUpdate)
    → fold queue_update (begin_block t) us
      ≡ record t { pending_updates = t.pending_updates ++ us; in_block = true }
unfolding begin_block
queue_update-begin_block t us = queue_update-framed us t.pending_updates t

pub queue_update_now :
    (us : List WhitelistUpdate) (t : PoolTracker)
    → fold queue_update (framed [] false t) us ≡ framed [] false (fold apply_update t us)
unfolding queue_update fold apply_pending_updates
queue_update_now [] t = refl
queue_update_now (u ∷ us) t =
    ap (λ s. fold queue_update s us) (drain-framed (u ∷ []) false t)
    ∙ queue_update_now us (apply_update t u)

pub idle_framed :
    (t : PoolTracker) → t.in_block ≡ false → t.pending_updates ≡ [] → t ≡ framed [] false t
idle_framed t b p = ground arith

-- For a tracker outside a block with nothing pending: a block in which any list of updates is
-- queued, up to and with its end, leaves the same tracker as queueing those updates with no block
-- around them, where each is applied at once.
pub end_block-queue_update :
    (t : PoolTracker) (us : List WhitelistUpdate)
    → t.in_block ≡ false
    → t.pending_updates ≡ []
    → end_block (fold queue_update (begin_block t) us) ≡ fold queue_update t us
unfolding end_block apply_pending_updates
end_block-queue_update t us b p =
    ap end_block (queue_update-begin_block t us)
    ∙ ap (λ vs. drain (vs ++ us) (framed (vs ++ us) false t)) p
    ∙ drain-framed us false t
    ∙ sym (queue_update_now us t)
    ∙ ap (λ s. fold queue_update s us) (sym (idle_framed t b p))
