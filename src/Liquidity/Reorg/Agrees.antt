-- ===== src/Liquidity/Reorg/Agrees.antt =====
-- A new block of a reorg against a committed block (src/main.rs): the two loops test the Liquidity Layer
-- and the address filter in different orders.
use reth_exex_liquidity.Common.{
  ℕ, ◌+◌, Bool, true, false, List, [], ◌∷◌, ◌≡◌, refl, ap, sym, ◌∙◌, arith, ◌==◌, fold, All,
  Option-cases, Bool-cases, inl, inr,
}
use reth_exex_liquidity.Types.{Address}
use reth_exex_liquidity.Wire.{ControlMessage}
use reth_exex_liquidity.Events.{Log, fluid_log_operate_pool}
use reth_exex_liquidity.Tracker.{PoolTracker, WhitelistUpdate, fluid_liquidity_layer}
use reth_exex_liquidity.Tracker.Updates.{
  queue_update, begin_block, is_tracked_address, is_tracked_fluid_pool,
}
use reth_exex_liquidity.Tracker.Roles.{Role, Directory, FitsUpdate}
use reth_exex_liquidity.Tracker.Invariant.{Reach, next, queues, begins, Reach-filters}
use reth_exex_liquidity.Liquidity.Stream.{Outgoing}
use reth_exex_liquidity.Liquidity.Snapshot.{Snapshot}
use reth_exex_liquidity.Liquidity.Block.{
  Block, Scan, Exex, scan_fluid, scan_log, scan_logs, scan_receipts, scan_touched, scan_block,
  commit_block,
}
use reth_exex_liquidity.Liquidity.Reorg.Revert.{Round}
use reth_exex_liquidity.Liquidity.Reorg.Handle.{
  replay_log, replay_logs, replay_receipts, replay_scan, replay_block, commit_round,
}

module _ (accepts : ControlMessage → Bool) (d : Snapshot) (t : PoolTracker) (b : Block)
    (layer_heard : (a : Address)
      → is_tracked_fluid_pool t a ≡ true
      → is_tracked_address t fluid_liquidity_layer ≡ true) where
  unheard_fluid :
      (log : Log) (s : Scan)
      → is_tracked_address t fluid_liquidity_layer ≡ false
      → scan_fluid accepts d t b log s ≡ s
  unfolding scan_fluid
  unheard_fluid log s e = elim (Option-cases (fluid_log_operate_pool d.signature_hash log)) [
    | inl e1 ↦ rw (e1, scan_fluid) refl
    | inr (pool, e1) ↦ rw (e1, scan_fluid) (ground (arith, e, layer_heard pool))
  ]

  replay_log-scan_log :
      (tx li : ℕ) (log : Log) (s : Scan)
      → replay_log accepts d t b tx li log s ≡ scan_log accepts d t b tx li log s
  unfolding replay_log scan_log
  replay_log-scan_log tx li log s = elim (Bool-cases (log.address == fluid_liquidity_layer)) [
    | inr off ↦ rw (off, replay_log, scan_log) refl
    | inl on ↦ elim (Bool-cases (is_tracked_address t log.address)) [
      | inl h ↦ rw (on, h, replay_log, scan_log) refl
      | inr h ↦
          let layer : log.address ≡ fluid_liquidity_layer = ground (arith, on) in
          rw (on, h, replay_log, scan_log)
            (unheard_fluid log s (ap (is_tracked_address t) (sym layer) ∙ h))
    ]
  ]

  replay_logs-scan_logs :
      (tx li : ℕ) (logs : List Log) (s : Scan)
      → replay_logs accepts d t b tx li logs s ≡ scan_logs accepts d t b tx li logs s
  unfolding replay_logs scan_logs
  replay_logs-scan_logs tx li [] s = refl
  replay_logs-scan_logs tx li (log ∷ logs) s =
      ap (replay_logs accepts d t b tx (li + 1) logs) (replay_log-scan_log tx li log s)
      ∙ replay_logs-scan_logs tx (li + 1) logs _

  replay_receipts-scan_receipts :
      (tx : ℕ) (rs : List (List Log)) (s : Scan)
      → replay_receipts accepts d t b tx rs s ≡ scan_receipts accepts d t b tx rs s
  unfolding replay_receipts scan_receipts
  replay_receipts-scan_receipts tx [] s = refl
  replay_receipts-scan_receipts tx (logs ∷ rs) s =
      ap (replay_receipts accepts d t b (tx + 1) rs) (replay_logs-scan_logs tx 0 logs s)
      ∙ replay_receipts-scan_receipts (tx + 1) rs _

  replay_scan-scan_block : (o : Outgoing) → replay_scan accepts d t b o ≡ scan_block accepts d t b o
  unfolding replay_scan scan_block
  replay_scan-scan_block o =
      ap (λ (s : Scan). fold (scan_touched accepts d t b) s s.fluid_touched)
        (replay_receipts-scan_receipts 0 b.receipts _)

module _ (roles : Address → Role) (directory : Directory roles) where
  fold_queue-Reach :
      (us : List WhitelistUpdate) {t : PoolTracker}
      → All (FitsUpdate roles) us
      → Reach roles t
      → Reach roles (fold queue_update t us)
  unfolding fold
  fold_queue-Reach [] h r = r
  fold_queue-Reach (u ∷ us) h r = fold_queue-Reach us h.1 (next r (queues _ u h.0))

  -- A new block of a reorg leaves the ExEx, its tracker, its counters and the messages sent, as the same
  -- block leaves it when it is committed without a reorg; with a reachable tracker, and whitelist updates
  -- that fit the roles.
  pub replay_block-commit_round :
      (accepts : ControlMessage → Bool) (at : ℕ → Snapshot) (x : Exex) (touched : List Address)
      (r : Round)
      → Reach roles x.pool_tracker
      → All (FitsUpdate roles) r.between
      → All (FitsUpdate roles) r.early
      → (replay_block accepts at (x, touched) r).0 ≡ commit_round accepts at x r
  unfolding replay_block commit_round commit_block
  replay_block-commit_round accepts at x touched r reached h k =
      let t =
        fold queue_update (begin_block (fold queue_update x.pool_tracker r.between)) r.early in
      let reached' : Reach roles t =
        fold_queue-Reach r.early k (next (fold_queue-Reach r.between h reached) (begins _)) in
      let heard = λ (a : Address). (Reach-filters roles directory a 0 reached').3 in
      rw (replay_scan-scan_block accepts (at r.block.number) t r.block heard) refl
