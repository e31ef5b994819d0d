-- ===== src/Liquidity/Reorg/Revert.antt =====
-- The loop over the reverted blocks of src/main.rs: logs, transactions and blocks newest first, with
-- their original indexes.
use reth_exex_liquidity.Common.{
  ℕ, ◌+◌, Bool, true, false, none, some, List, [], ◌∷◌, if◌then◌else◌, ◌==◌, ◌&&◌, ◌||◌, fold,
}
use reth_exex_liquidity.Common.Sets
use reth_exex_liquidity.Types.{Address, PoolIdentifier, same_identifier, Protocol, same_protocol}
use reth_exex_liquidity.Wire.{
  ControlMessage, PoolUpdateMessage, PoolUpdate, v3_swap, v4_swap, ekubo_swap, ekubo_liquidity,
}
use reth_exex_liquidity.Events.{Log, DecodedEvent, fluid_log_operate_pool}
use reth_exex_liquidity.Tracker.{PoolTracker, WhitelistUpdate, fluid_liquidity_layer}
use reth_exex_liquidity.Tracker.Updates.{
  begin_block, queue_update, is_tracked_address, is_tracked_fluid_pool,
}
use reth_exex_liquidity.Liquidity.Filter.{should_process_event, record_affected_v2_pool}
use reth_exex_liquidity.Liquidity.Stream.{
  Outgoing, send_begin_block, send_pool_update, send_end_block,
}
use reth_exex_liquidity.Liquidity.Snapshot.{Snapshot}
use reth_exex_liquidity.Liquidity.Block.{Block, Exex, end_block_whitelist_topology}

-- One block of a chain, with the whitelist updates of the subscription task: those that come while no
-- block is open, before the scan takes its read lock, and after it.
pub record Round : Type 0 where
  pub block : Block
  pub between : List WhitelistUpdate
  pub early : List WhitelistUpdate
  pub late : List WhitelistUpdate

-- Whose slot0 is to be restored.
abbrev pub Slot0Pool : Type 0
Slot0Pool = PoolIdentifier × Protocol

unfoldable pub holds_slot0 : List Slot0Pool → Slot0Pool → Bool
holds_slot0 [] p = false
holds_slot0 ((i, q) ∷ rest) p = same_identifier i p.0 && same_protocol q p.1 || holds_slot0 rest p

-- `HashSet::insert`.
unfoldable pub insert_slot0 : Slot0Pool → List Slot0Pool → List Slot0Pool
unfolding holds_slot0
insert_slot0 p affected = if holds_slot0 affected p then affected else p ∷ affected

unfoldable pub dominated_by_slot0 : PoolUpdate → Bool
dominated_by_slot0 (v3_swap p l t) = true
dominated_by_slot0 (v4_swap p l t) = true
dominated_by_slot0 (ekubo_swap p l t) = true
dominated_by_slot0 (ekubo_liquidity lo hi d p l t) = true
dominated_by_slot0 _ = false

unfoldable pub record_affected_slot0_pool : PoolUpdateMessage → List Slot0Pool → List Slot0Pool
record_affected_slot0_pool m affected =
    if dominated_by_slot0 m.update then insert_slot0 (m.pool_id, m.protocol) affected else affected

-- The three sets that the loop fills.
pub record Affected : Type 0 where
  pub slot0_pools : List Slot0Pool
  pub v2_pools : List Address
  pub fluid_touched : List Address

pub record Reverting : Type 0 where
  pub out : Outgoing
  pub events_reverted : ℕ
  pub affected : Affected

module _ (accepts : ControlMessage → Bool) (d : Snapshot) (t : PoolTracker) (b : Block) where
  unfoldable pub emit_revert : PoolUpdateMessage → Reverting → Reverting
  emit_revert m s = record {
    out = send_pool_update accepts m s.out;
    events_reverted = s.events_reverted + 1;
    affected = record s.affected {
      slot0_pools = record_affected_slot0_pool m s.affected.slot0_pools;
    };
  }

  unfoldable pub revert_event : (tx_index log_index : ℕ) → DecodedEvent → Reverting → Reverting
  revert_event tx li e s =
      if should_process_event e t
      then (let noted = record s {
        affected = record s.affected { v2_pools = record_affected_v2_pool e s.affected.v2_pools };
      } in
          elim (d.create_pool_update e b.number b.timestamp tx li true t.pools_by_address
            t.pools_by_id t.balancer_pools_by_addr) [ none ↦ noted | some m ↦ emit_revert m noted ])
      else s

  unfoldable pub revert_fluid : Log → Reverting → Reverting
  revert_fluid log s = elim (fluid_log_operate_pool d.signature_hash log) [
    | none ↦ s
    | some pool ↦
        if is_tracked_fluid_pool t pool
        then record s {
          affected = record s.affected {
            fluid_touched = Sets.insert pool s.affected.fluid_touched;
          };
        }
        else s
  ]

  unfoldable pub revert_log : (tx_index log_index : ℕ) → Log → Reverting → Reverting
  revert_log tx li log s =
      if log.address == fluid_liquidity_layer
      then revert_fluid log s
      else if is_tracked_address t log.address
      then elim (d.decode_log log) [ none ↦ s | some e ↦ revert_event tx li e s ]
      else s

  -- `enumerate().rev()`: the later logs first.
  unfoldable pub revert_logs : (tx_index log_index : ℕ) → List Log → Reverting → Reverting
  revert_logs tx li [] s = s
  revert_logs tx li (log ∷ logs) s = revert_log tx li log (revert_logs tx (li + 1) logs s)

  unfoldable pub revert_receipts : (tx_index : ℕ) → List (List Log) → Reverting → Reverting
  revert_receipts tx [] s = s
  revert_receipts tx (logs ∷ rest) s = revert_logs tx 0 logs (revert_receipts (tx + 1) rest s)

module _ (accepts : ControlMessage → Bool) (d : Snapshot) where
  -- The whole round of one reverted block.
  unfoldable pub revert_block : Round → Exex × Affected → Exex × Affected
  revert_block r (x, affected) =
      let b = r.block in
      let locked =
        fold queue_update (begin_block (fold queue_update x.pool_tracker r.between)) r.early in
      let fee : ℕ = elim b.base_fee_per_gas [ none ↦ 0 | some f ↦ f ] in
      let o = send_begin_block accepts b.number b.timestamp fee true x.out in
      let s =
        revert_receipts accepts d locked b 0 b.receipts
          (record { out = o; events_reverted = 0; affected = affected }) in
      (
        record x {
          pool_tracker = end_block_whitelist_topology (fold queue_update locked r.late);
          out = send_end_block accepts b.number s.events_reverted s.out;
        },
        s.affected,
      )

  -- `reverted_blocks.reverse()`: the newest block first.
  unfoldable pub revert_blocks : List Round → Exex × Affected → Exex × Affected
  revert_blocks [] x = x
  revert_blocks (r ∷ rs) x = revert_block r (revert_blocks rs x)
