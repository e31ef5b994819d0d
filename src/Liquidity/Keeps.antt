-- ===== src/Liquidity/Keeps.antt =====
-- What a property of the log scan's variables needs to hold through the loops of a block in src/main.rs.
use reth_exex_liquidity.Common.{
  ℕ, ◌+◌, Bool, true, false, Option, none, some, List, [], ◌∷◌, ◌≡◌, if◌then◌else◌, ◌==◌, fold,
  Option-cases, Bool-cases, inl, inr,
}
use reth_exex_liquidity.Common.Sets
use reth_exex_liquidity.Types.{Address}
use reth_exex_liquidity.Wire.{ControlMessage, PoolUpdateMessage}
use reth_exex_liquidity.Events.{Log, DecodedEvent, fluid_log_operate_pool}
use reth_exex_liquidity.Tracker.{PoolTracker, fluid_liquidity_layer}
use reth_exex_liquidity.Tracker.Updates.{is_tracked_address, is_tracked_fluid_pool, fluid_config}
use reth_exex_liquidity.Fluid.Decode.{FluidReserves}
use reth_exex_liquidity.Liquidity.FluidPool.{fluid_update_msg}
use reth_exex_liquidity.Liquidity.Filter.{should_process_event}
use reth_exex_liquidity.Liquidity.Stream.{Outgoing}
use reth_exex_liquidity.Liquidity.Snapshot.{Snapshot}
use reth_exex_liquidity.Liquidity.Block.{
  Block, Scan, emit, scan_event, scan_fluid, scan_log, scan_logs, scan_receipts, scan_touched,
  scan_block,
}

module _ (accepts : ControlMessage → Bool) (d : Snapshot) (t : PoolTracker) (b : Block) where
  abbrev pub created : DecodedEvent → (tx_index log_index : ℕ) → Option PoolUpdateMessage
  created e tx li =
      d.create_pool_update e b.number b.timestamp tx li false t.pools_by_address t.pools_by_id
        t.balancer_pools_by_addr

  -- `Q` is what the messages of the block have in common; `P` is kept by sending one of them, and by noting
  -- a touched pool.
  pub record Keeps (Q : PoolUpdateMessage → Type 0) (P : Scan → Type 0) : Type 0 where
    pub creates :
        (e : DecodedEvent) (tx li : ℕ) {m : PoolUpdateMessage} → created e tx li ≡ some m → Q m
    pub decodes :
        (pool : Address) (r : FluidReserves) → Q (fluid_update_msg pool r b.number b.timestamp)
    pub emits : (m : PoolUpdateMessage) (s : Scan) → Q m → P s → P (emit accepts d t b m s)
    pub touches : (pools : List Address) (s : Scan) → P s → P (record s { fluid_touched = pools })

module _ (accepts : ControlMessage → Bool) (d : Snapshot) (t : PoolTracker) (b : Block)
    {Q : PoolUpdateMessage → Type 0} {P : Scan → Type 0} (k : Keeps accepts d t b Q P) where
  pub scan_event_keeps :
      (tx li : ℕ) (e : DecodedEvent) (s : Scan) → P s → P (scan_event accepts d t b tx li e s)
  unfolding scan_event
  scan_event_keeps tx li e s h = elim (Bool-cases (should_process_event e t)) [
    | inl on ↦ rw on (elim (Option-cases (created accepts d t b e tx li)) [
      | inl e0 ↦ rw e0 h
      | inr (m, e1) ↦ rw e1 (k.emits m s (k.creates e tx li e1) h)
    ])
    | inr off ↦ rw off h
  ]

  pub scan_fluid_keeps : (log : Log) (s : Scan) → P s → P (scan_fluid accepts d t b log s)
  unfolding scan_fluid
  scan_fluid_keeps log s h = elim (Option-cases (fluid_log_operate_pool d.signature_hash log)) [
    | inl e ↦ rw (e, scan_fluid) h
    | inr (pool, e) ↦ rw (e, scan_fluid) (noted pool (is_tracked_fluid_pool t pool))
  ]
    where
      noted :
          (pool : Address) (test : Bool)
          → P (if test then record s { fluid_touched = Sets.insert pool s.fluid_touched } else s)
      noted pool true = k.touches (Sets.insert pool s.fluid_touched) s h
      noted pool false = h

  scan_log_keeps : (tx li : ℕ) (log : Log) (s : Scan) → P s → P (scan_log accepts d t b tx li log s)
  unfolding scan_log
  scan_log_keeps tx li log s h =
      routed (is_tracked_address t log.address) (log.address == fluid_liquidity_layer)
        (d.decode_log log)
    where
      routed :
          (tracked layer : Bool) (e : Option DecodedEvent)
          → P (
              if tracked
              then (if layer
                  then scan_fluid accepts d t b log s
                  else elim e [ none ↦ s | some x ↦ scan_event accepts d t b tx li x s ])
              else s)
      routed true true e = scan_fluid_keeps log s h
      routed true false none = h
      routed true false (some e) = scan_event_keeps tx li e s h
      routed false layer e = h

  scan_logs_keeps :
      (tx li : ℕ) (logs : List Log) (s : Scan) → P s → P (scan_logs accepts d t b tx li logs s)
  unfolding scan_logs
  scan_logs_keeps tx li [] s h = h
  scan_logs_keeps tx li (log ∷ logs) s h =
      scan_logs_keeps tx (li + 1) logs (scan_log accepts d t b tx li log s)
        (scan_log_keeps tx li log s h)

  scan_receipts_keeps :
      (tx : ℕ) (rs : List (List Log)) (s : Scan) → P s → P (scan_receipts accepts d t b tx rs s)
  unfolding scan_receipts
  scan_receipts_keeps tx [] s h = h
  scan_receipts_keeps tx (logs ∷ rs) s h =
      scan_receipts_keeps (tx + 1) rs (scan_logs accepts d t b tx 0 logs s)
        (scan_logs_keeps tx 0 logs s h)

  one_touched : (s : Scan) (pool : Address) → P s → P (scan_touched accepts d t b s pool)
  unfolding scan_touched
  one_touched s pool h = elim (Option-cases (fluid_config t pool)) [
    | inl e ↦ rw (e, scan_touched) h
    | inr (c, e) ↦ rw (e, scan_touched) (decoded (d.decode_fluid_pool c b.timestamp))
  ]
    where
      decoded :
          (r : Option FluidReserves)
          → P (elim r [
            | none ↦ s
            | some x ↦ emit accepts d t b (fluid_update_msg pool x b.number b.timestamp) s
          ])
      decoded none = h
      decoded (some x) =
          k.emits (fluid_update_msg pool x b.number b.timestamp) s (k.decodes pool x) h

  pub scan_touched_keeps :
      (s : Scan) (pools : List Address) → P s → P (fold (scan_touched accepts d t b) s pools)
  unfolding fold
  scan_touched_keeps s [] h = h
  scan_touched_keeps s (pool ∷ pools) h =
      scan_touched_keeps (scan_touched accepts d t b s pool) pools (one_touched s pool h)

  pub scan_block_keeps :
      (o : Outgoing)
      → P (record { out = o; events_in_block = 0; fluid_touched = [] })
      → P (scan_block accepts d t b o)
  unfolding scan_block
  scan_block_keeps o h = scan_touched_keeps _ _ (scan_receipts_keeps 0 b.receipts _ h)
