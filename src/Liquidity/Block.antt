-- ===== src/Liquidity/Block.antt =====
-- The committed-block loop of `liquidity_exex` in src/main.rs, with no arena attached (`shadow` is
-- `None`): whitelist, log scan, Fluid batch, block envelope. Whitelist updates that the
-- subscription task queues while the block is processed are `early` (before the log scan takes its
-- read lock) and `late` (after it). `decode_log`, `create_pool_update` and `decode_fluid_pool` are
-- parameters here, of runs in which the state provider answers: its error ends the ExEx. The touched
-- Fluid pools are visited in the order of a list, which is one order of that hash set.
use reth_exex_liquidity.Common.{
  ℕ, ◌+◌, Bool, false, Option, none, some, List, [], ◌∷◌, if◌then◌else◌, ◌==◌, fold,
}
use reth_exex_liquidity.Common.Sets
use reth_exex_liquidity.Types.{Address}
use reth_exex_liquidity.Wire.{ControlMessage, PoolUpdateMessage}
use reth_exex_liquidity.Events.{Log, DecodedEvent, fluid_log_operate_pool}
use reth_exex_liquidity.Tracker.{PoolTracker, WhitelistUpdate, fluid_liquidity_layer}
use reth_exex_liquidity.Tracker.Updates.{
  begin_block, end_block, queue_update, is_tracked_address, is_tracked_fluid_pool, fluid_config,
  take_newly_removed,
}
use reth_exex_liquidity.Liquidity.FluidPool.{fluid_update_msg}
use reth_exex_liquidity.Liquidity.Snapshot.{Snapshot}
use reth_exex_liquidity.Liquidity.Filter.{should_process_event}
use reth_exex_liquidity.Liquidity.Stream.{
  Outgoing, send_begin_block, send_pool_update, send_end_block,
}

pub record Block : Type 0 where
  pub number : ℕ
  pub timestamp : ℕ
  pub base_fee_per_gas : Option ℕ
  pub receipts : List (List Log)

-- The variables of the log scan.
pub record Scan : Type 0 where
  pub out : Outgoing
  pub events_in_block : ℕ
  pub fluid_touched : List Address

module _ (accepts : ControlMessage → Bool) (d : Snapshot) (t : PoolTracker) (b : Block) where
  -- `send_pool_update`, and the count of the block's events.
  unfoldable pub emit : PoolUpdateMessage → Scan → Scan
  emit m s = record s {
    out = send_pool_update accepts m s.out;
    events_in_block = s.events_in_block + 1;
  }

  unfoldable pub scan_event : (tx_index log_index : ℕ) → DecodedEvent → Scan → Scan
  scan_event tx li e s =
      if should_process_event e t
      then elim (d.create_pool_update e b.number b.timestamp tx li false t.pools_by_address
          t.pools_by_id t.balancer_pools_by_addr) [ none ↦ s | some m ↦ emit m s ]
      else s

  unfoldable pub scan_fluid : Log → Scan → Scan
  scan_fluid log s = elim (fluid_log_operate_pool d.signature_hash log) [
    | none ↦ s
    | some pool ↦
        if is_tracked_fluid_pool t pool
        then record s { fluid_touched = Sets.insert pool s.fluid_touched }
        else s
  ]

  -- The body of the loop over the logs.
  unfoldable pub scan_log : (tx_index log_index : ℕ) → Log → Scan → Scan
  scan_log tx li log s =
      if is_tracked_address t log.address
      then (if log.address == fluid_liquidity_layer
          then scan_fluid log s
          else elim (d.decode_log log) [ none ↦ s | some e ↦ scan_event tx li e s ])
      else s

  unfoldable pub scan_logs : (tx_index log_index : ℕ) → List Log → Scan → Scan
  scan_logs tx li [] s = s
  scan_logs tx li (log ∷ logs) s = scan_logs tx (li + 1) logs (scan_log tx li log s)

  unfoldable pub scan_receipts : (tx_index : ℕ) → List (List Log) → Scan → Scan
  scan_receipts tx [] s = s
  scan_receipts tx (logs ∷ rest) s = scan_receipts (tx + 1) rest (scan_logs tx 0 logs s)

  -- The body of the Fluid batch.
  unfoldable pub scan_touched : Scan → Address → Scan
  scan_touched s pool = elim (fluid_config t pool) [
    | none ↦ s
    | some config ↦ elim (d.decode_fluid_pool config b.timestamp) [
      | none ↦ s
      | some reserves ↦ emit (fluid_update_msg pool reserves b.number b.timestamp) s
    ]
  ]

  unfoldable pub scan_block : Outgoing → Scan
  scan_block o =
      let s =
        scan_receipts 0 b.receipts (record { out = o; events_in_block = 0; fluid_touched = [] }) in
      fold scan_touched s s.fluid_touched

-- The fields of `LiquidityExEx`, with the stream counter of its main loop.
pub record Exex : Type 0 where
  pub pool_tracker : PoolTracker
  pub out : Outgoing
  pub events_processed : ℕ
  pub blocks_processed : ℕ

-- `end_block_whitelist_topology`.
unfoldable pub end_block_whitelist_topology : PoolTracker → PoolTracker
end_block_whitelist_topology t = (take_newly_removed (end_block t)).1

-- The whole round for one committed block.
unfoldable pub commit_block :
    (accepts : ControlMessage → Bool)
    → Snapshot
    → (early late : List WhitelistUpdate) → Block
    → Exex
    → Exex
commit_block accepts d early late b x =
    let locked = fold queue_update (begin_block x.pool_tracker) early in
    let fee : ℕ = elim b.base_fee_per_gas [ none ↦ 0 | some f ↦ f ] in
    let o = send_begin_block accepts b.number b.timestamp fee false x.out in
    let s = scan_block accepts d locked b o in
    record {
      pool_tracker = end_block_whitelist_topology (fold queue_update locked late);
      out = send_end_block accepts b.number s.events_in_block s.out;
      events_processed = x.events_processed + s.events_in_block;
      blocks_processed = x.blocks_processed + 1;
    }
