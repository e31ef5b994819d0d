-- ===== src/Liquidity/Envelope.antt =====
-- The messages of a committed block: a block envelope with consecutive numbers, whatever the
-- whitelist does meanwhile.
use reth_exex_liquidity.Common.{
  ℕ, ◌+◌, Bool, true, false, none, some, List, [], ◌∷◌, ◌++◌, ◌≡◌, refl, ap, sym, ◌∙◌, fold,
  Option-cases, inl, inr,
}
use reth_exex_liquidity.Types.{Address}
use reth_exex_liquidity.Wire.{ControlMessage}
use reth_exex_liquidity.Events.{Log}
use reth_exex_liquidity.Tracker.{PoolTracker, WhitelistUpdate}
use reth_exex_liquidity.Tracker.Updates.{
  is_tracked_address, is_tracked_fluid_pool, fluid_config, queue_update,
}
use reth_exex_liquidity.Tracker.Updates
use reth_exex_liquidity.Tracker.Deferral.{queue_update-begin_block}
use reth_exex_liquidity.Liquidity.Filter.{framed_filter}
use reth_exex_liquidity.Liquidity.Stream.{Outgoing, send_begin_block, send_end_block}
use reth_exex_liquidity.Liquidity.Snapshot.{Snapshot}
use reth_exex_liquidity.Liquidity.Block.{
  Block, Scan, emit, scan_event, scan_fluid, scan_log, scan_logs, scan_receipts, scan_touched,
  scan_block, Exex, commit_block,
}

-- The tracker's queue and its block flag are not read by the scan.
module _ (accepts : ControlMessage → Bool) (d : Snapshot) (t : PoolTracker) (b : Block)
    (us : List WhitelistUpdate) (flag : Bool) where
  abbrev queued : PoolTracker
  queued = record t { pending_updates = us; in_block = flag }

  scan_log-queued :
      (tx li : ℕ) (log : Log) (s : Scan)
      → scan_log accepts d queued b tx li log s ≡ scan_log accepts d t b tx li log s
  unfolding scan_log scan_event scan_fluid emit is_tracked_address is_tracked_fluid_pool
  scan_log-queued tx li log s = elim (Option-cases (d.decode_log log)) [
    | inl e ↦ rw (e, scan_log) refl
    | inr (x, e) ↦ rw (e, framed_filter x t us flag) refl
  ]

  scan_logs-queued :
      (tx li : ℕ) (logs : List Log) (s : Scan)
      → scan_logs accepts d queued b tx li logs s ≡ scan_logs accepts d t b tx li logs s
  unfolding scan_logs
  scan_logs-queued tx li [] s = refl
  scan_logs-queued tx li (log ∷ logs) s =
      ap (scan_logs accepts d queued b tx (li + 1) logs) (scan_log-queued tx li log s)
      ∙ scan_logs-queued tx (li + 1) logs (scan_log accepts d t b tx li log s)

  scan_receipts-queued :
      (tx : ℕ) (rs : List (List Log)) (s : Scan)
      → scan_receipts accepts d queued b tx rs s ≡ scan_receipts accepts d t b tx rs s
  unfolding scan_receipts
  scan_receipts-queued tx [] s = refl
  scan_receipts-queued tx (logs ∷ rs) s =
      ap (scan_receipts accepts d queued b (tx + 1) rs) (scan_logs-queued tx 0 logs s)
      ∙ scan_receipts-queued (tx + 1) rs (scan_logs accepts d t b tx 0 logs s)

  scan_touched-queued :
      (s : Scan) (pools : List Address)
      → fold (scan_touched accepts d queued b) s pools ≡ fold (scan_touched accepts d t b) s pools
  unfolding fold scan_touched emit fluid_config
  scan_touched-queued s [] = refl
  scan_touched-queued s (pool ∷ pools) =
      scan_touched-queued (scan_touched accepts d t b s pool) pools

  scan_block-queued : (o : Outgoing) → scan_block accepts d queued b o ≡ scan_block accepts d t b o
  unfolding scan_block
  scan_block-queued o =
      let start : Scan = record { out = o; events_in_block = 0; fluid_touched = [] } in
      ap (λ (s : Scan). fold (scan_touched accepts d queued b) s s.fluid_touched)
        (scan_receipts-queued 0 b.receipts start)
      ∙ scan_touched-queued _ _

scan_block-begin_block :
    (accepts : ControlMessage → Bool) (d : Snapshot) (t : PoolTracker) (b : Block) (o : Outgoing)
    → scan_block accepts d (Updates.begin_block t) b o ≡ scan_block accepts d t b o
unfolding Updates.begin_block
scan_block-begin_block accepts d t b o = scan_block-queued accepts d t b t.pending_updates true o

-- Whitelist updates that arrive while a block is processed change none of its messages, nor its
-- counters: they are those of the same block with no arrivals.
pub commit_block-arrivals :
    (accepts : ControlMessage → Bool) (d : Snapshot) (early late : List WhitelistUpdate) (b : Block)
    (x : Exex)
    → let y = commit_block accepts d early late b x in
      let z = commit_block accepts d [] [] b x in
      (y.out ≡ z.out)
      × (y.events_processed ≡ z.events_processed)
      × (y.blocks_processed ≡ z.blocks_processed)
unfolding commit_block fold
commit_block-arrivals accepts d early late b x =
    let t = x.pool_tracker in
    let fee : ℕ = elim b.base_fee_per_gas [ none ↦ 0 | some f ↦ f ] in
    let o = send_begin_block accepts b.number b.timestamp fee false x.out in
    let same : scan_block accepts d (fold queue_update (Updates.begin_block t) early) b o
        ≡ scan_block accepts d (Updates.begin_block t) b o =
      ap (λ (s : PoolTracker). scan_block accepts d s b o) (queue_update-begin_block t early)
      ∙ scan_block-queued accepts d t b (t.pending_updates ++ early) true o
      ∙ sym (scan_block-begin_block accepts d t b o) in
    (
      ap (λ (s : Scan). send_end_block accepts b.number s.events_in_block s.out) same,
      ap (λ (s : Scan). x.events_processed + s.events_in_block) same,
      refl,
    )
