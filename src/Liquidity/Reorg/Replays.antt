-- ===== src/Liquidity/Reorg/Replays.antt =====
-- The loops over a replayed block of src/main.rs keep what the loops over a committed block keep.
use reth_exex_liquidity.Common.{
  ℕ, ◌+◌, Bool, true, false, Option, none, some, List, [], ◌∷◌, if◌then◌else◌, ◌==◌,
}
use reth_exex_liquidity.Wire.{ControlMessage, PoolUpdateMessage}
use reth_exex_liquidity.Events.{Log, DecodedEvent}
use reth_exex_liquidity.Tracker.{PoolTracker, fluid_liquidity_layer}
use reth_exex_liquidity.Tracker.Updates.{is_tracked_address}
use reth_exex_liquidity.Liquidity.Stream.{Outgoing}
use reth_exex_liquidity.Liquidity.Snapshot.{Snapshot}
use reth_exex_liquidity.Liquidity.Block.{Block, Scan, scan_event, scan_fluid}
use reth_exex_liquidity.Liquidity.Keeps.{
  Keeps, scan_event_keeps, scan_fluid_keeps, scan_touched_keeps,
}
use reth_exex_liquidity.Liquidity.Reorg.Handle.{
  replay_log, replay_logs, replay_receipts, replay_scan,
}

module _ (accepts : ControlMessage → Bool) (d : Snapshot) (t : PoolTracker) (b : Block)
    {Q : PoolUpdateMessage → Type 0} {P : Scan → Type 0} (k : Keeps accepts d t b Q P) where
  replay_log_keeps :
      (tx li : ℕ) (log : Log) (s : Scan) → P s → P (replay_log accepts d t b tx li log s)
  unfolding replay_log
  replay_log_keeps tx li log s h =
      routed (log.address == fluid_liquidity_layer) (is_tracked_address t log.address)
        (d.decode_log log)
    where
      routed :
          (layer tracked : Bool) (e : Option DecodedEvent)
          → P (
              if layer
              then scan_fluid accepts d t b log s
              else if tracked
              then elim e [ none ↦ s | some x ↦ scan_event accepts d t b tx li x s ]
              else s)
      routed true tracked e = scan_fluid_keeps accepts d t b k log s h
      routed false true none = h
      routed false true (some e) = scan_event_keeps accepts d t b k tx li e s h
      routed false false e = h

  replay_logs_keeps :
      (tx li : ℕ) (logs : List Log) (s : Scan) → P s → P (replay_logs accepts d t b tx li logs s)
  unfolding replay_logs
  replay_logs_keeps tx li [] s h = h
  replay_logs_keeps tx li (log ∷ logs) s h =
      replay_logs_keeps tx (li + 1) logs _ (replay_log_keeps tx li log s h)

  replay_receipts_keeps :
      (tx : ℕ) (rs : List (List Log)) (s : Scan) → P s → P (replay_receipts accepts d t b tx rs s)
  unfolding replay_receipts
  replay_receipts_keeps tx [] s h = h
  replay_receipts_keeps tx (logs ∷ rs) s h =
      replay_receipts_keeps (tx + 1) rs _ (replay_logs_keeps tx 0 logs s h)

  pub replay_scan_keeps :
      (o : Outgoing)
      → P (record { out = o; events_in_block = 0; fluid_touched = [] })
      → P (replay_scan accepts d t b o)
  unfolding replay_scan
  replay_scan_keeps o h =
      scan_touched_keeps accepts d t b k _ _ (replay_receipts_keeps 0 b.receipts _ h)
