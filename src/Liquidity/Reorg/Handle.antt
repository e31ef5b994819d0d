-- ===== src/Liquidity/Reorg/Handle.antt =====
-- `match &notification` of src/main.rs: a committed, a reorged and a reverted chain. A chain is the list
-- of its blocks, oldest first. `at` gives the snapshot of a block's number.
use reth_exex_liquidity.Common.{
  ℕ, ◌+◌, ◌-◌, Bool, false, Option, none, some, List, [], ◌∷◌, if◌then◌else◌, ◌==◌, fold, map,
}
use reth_exex_liquidity.Common.Sets
use reth_exex_liquidity.Types.{Address}
use reth_exex_liquidity.Wire.{ControlMessage, ReorgRange}
use reth_exex_liquidity.Events.{Log}
use reth_exex_liquidity.Tracker.{PoolTracker, fluid_liquidity_layer}
use reth_exex_liquidity.Tracker.Updates.{begin_block, queue_update, is_tracked_address}
use reth_exex_liquidity.Liquidity.Filter.{active_affected_v2_pools}
use reth_exex_liquidity.Liquidity.Stream.{
  Outgoing, send_begin_block, send_end_block, send_reorg_start, finish_reorg,
  block_range_summary_from_numbers,
}
use reth_exex_liquidity.Liquidity.Snapshot.{Snapshot}
use reth_exex_liquidity.Liquidity.Block.{
  Block, Exex, Scan, scan_event, scan_fluid, scan_touched, commit_block,
  end_block_whitelist_topology,
}
use reth_exex_liquidity.Liquidity.Reorg.Revert.{Round, Affected, revert_blocks}
use reth_exex_liquidity.Liquidity.Reorg.Finals.{fluid_final, send_v2_finals, send_slot0_finals}

module _ (accepts : ControlMessage → Bool) (d : Snapshot) (t : PoolTracker) (b : Block) where
  -- Step 2 tests for the Liquidity Layer before it tests the address.
  unfoldable pub replay_log : (tx_index log_index : ℕ) → Log → Scan → Scan
  replay_log tx li log s =
      if log.address == fluid_liquidity_layer
      then scan_fluid accepts d t b log s
      else if is_tracked_address t log.address
      then elim (d.decode_log log) [ none ↦ s | some e ↦ scan_event accepts d t b tx li e s ]
      else s

  unfoldable pub replay_logs : (tx_index log_index : ℕ) → List Log → Scan → Scan
  replay_logs tx li [] s = s
  replay_logs tx li (log ∷ logs) s = replay_logs tx (li + 1) logs (replay_log tx li log s)

  unfoldable pub replay_receipts : (tx_index : ℕ) → List (List Log) → Scan → Scan
  replay_receipts tx [] s = s
  replay_receipts tx (logs ∷ rest) s = replay_receipts (tx + 1) rest (replay_logs tx 0 logs s)

  unfoldable pub replay_scan : Outgoing → Scan
  replay_scan o =
      let s =
        replay_receipts 0 b.receipts
          (record { out = o; events_in_block = 0; fluid_touched = [] }) in
      fold (scan_touched accepts d t b) s s.fluid_touched

-- `reorg_fluid_touched.remove(pool_addr)`, for each pool of the batch.
unfoldable pub remove_touched : List Address → List Address → List Address
remove_touched touched pools = fold (λ ps p. Sets.remove p ps) touched pools

unfoldable pub range_of_chain : List Round → ReorgRange
range_of_chain rs = block_range_summary_from_numbers (map (λ r. r.block.number) rs)

-- `new.blocks().values().last()`, and `values().next()`; 0 where there is none.
unfoldable pub last_timestamp : List Round → ℕ
last_timestamp [] = 0
last_timestamp (r ∷ []) = r.block.timestamp
last_timestamp (r ∷ s ∷ rs) = last_timestamp (s ∷ rs)

unfoldable pub first_timestamp : List Round → ℕ
first_timestamp [] = 0
first_timestamp (r ∷ rs) = r.block.timestamp

abbrev pub nothing_affected : Affected
nothing_affected = record { slot0_pools = []; v2_pools = []; fluid_touched = [] }

-- `.unwrap_or_default()`.
abbrev pub or_zero : Option ℕ → ℕ
or_zero none = 0
or_zero (some n) = n

unfoldable pub reorg_tip : (old new : List Round) → ℕ
reorg_tip old new = elim (range_of_chain new).last_block [
  | none ↦ or_zero (range_of_chain old).last_block
  | some n ↦ n
]

-- The block below the oldest that is reverted.
unfoldable pub revert_tip : List Round → ℕ
revert_tip old = elim (range_of_chain old).first_block [ none ↦ 0 | some n ↦ n - 1 ]

pub data Notification : Type 0 where
  chain_committed : (new : List Round) → Notification
  chain_reorged_to : (old new : List Round) → Notification
  chain_reverted_by : (old : List Round) → Notification

module _ (accepts : ControlMessage → Bool) (at : ℕ → Snapshot) where
  -- The whole round of one new block of a reorg; the list is `reorg_fluid_touched`.
  unfoldable pub replay_block : Exex × List Address → Round → Exex × List Address
  replay_block (x, touched) r =
      let b = r.block in
      let locked =
        fold queue_update (begin_block (fold queue_update x.pool_tracker r.between)) r.early in
      let fee : ℕ = elim b.base_fee_per_gas [ none ↦ 0 | some f ↦ f ] in
      let o = send_begin_block accepts b.number b.timestamp fee false x.out in
      let s = replay_scan accepts (at b.number) locked b o in
      (
        record {
          pool_tracker = end_block_whitelist_topology (fold queue_update locked r.late);
          out = send_end_block accepts b.number s.events_in_block s.out;
          events_processed = x.events_processed + s.events_in_block;
          blocks_processed = x.blocks_processed + 1;
        },
        remove_touched touched s.fluid_touched,
      )

  unfoldable pub commit_round : Exex → Round → Exex
  commit_round x r =
      commit_block accepts (at r.block.number) r.early r.late r.block
        (record x { pool_tracker = fold queue_update x.pool_tracker r.between })

  -- What both arms do behind their blocks; Fluid finals have a timestamp of their own.
  unfoldable pub settle :
      (final_tip_block fluid_timestamp timestamp : ℕ)
      → Affected
      → (touched : List Address) → Exex
      → Exex
  settle tip fluid_ts ts affected touched x =
      let d = at tip in
      let t = x.pool_tracker in
      let o0 = fold (fluid_final accepts d tip fluid_ts t) x.out touched in
      let o1 = send_v2_finals accepts d tip ts (active_affected_v2_pools t affected.v2_pools) o0 in
      let o2 = send_slot0_finals accepts d tip ts affected.slot0_pools o1 in
      record x { out = (finish_reorg accepts tip o2).1 }

  unfoldable pub chain_reorged : (old new : List Round) → Exex → Exex
  chain_reorged old new x =
      let tip = reorg_tip old new in
      let o = send_reorg_start accepts (range_of_chain old) (range_of_chain new) x.out in
      let reverted = revert_blocks accepts (at tip) old (record x { out = o }, nothing_affected) in
      let replayed = fold replay_block (reverted.0, reverted.1.fluid_touched) new in
      settle tip (last_timestamp new) (last_timestamp new) reverted.1 replayed.1 replayed.0

  unfoldable pub chain_reverted : (old : List Round) → Exex → Exex
  chain_reverted old x =
      let tip = revert_tip old in
      let o =
        send_reorg_start accepts (range_of_chain old)
          (record { first_block = none; last_block = none; block_count = 0 }) x.out in
      let reverted = revert_blocks accepts (at tip) old (record x { out = o }, nothing_affected) in
      settle tip (first_timestamp old) 0 reverted.1 reverted.1.fluid_touched reverted.0

  -- One turn of the main event loop.
  unfoldable pub handle : Exex → Notification → Exex
  handle x (chain_committed new) = fold commit_round x new
  handle x (chain_reorged_to old new) = chain_reorged old new x
  handle x (chain_reverted_by old) = chain_reverted old x
