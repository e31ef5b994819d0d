-- ===== src/Liquidity/Reorg/Refines.antt =====
-- Every notification that the main loop of src/main.rs handles extends a stream that follows the protocol.
use reth_exex_liquidity.Common.{
  ℕ, Bool, true, false, some, List, [], ◌∷◌, ◌++◌, ◌≡◌, fold, fold_inv, All-trivial, Option-cases,
  inl, inr, retain,
}
use reth_exex_liquidity.Types.{Address}
use reth_exex_liquidity.Wire.{ControlMessage}
use reth_exex_liquidity.Tracker.{PoolTracker}
use reth_exex_liquidity.Tracker.Updates.{
  queue_update, is_tracked_address, is_tracked_fluid_pool, fluid_config,
}
use reth_exex_liquidity.Tracker.Updates
use reth_exex_liquidity.Liquidity.Stream.{Outgoing}
use reth_exex_liquidity.Liquidity.Snapshot.{Snapshot}
use reth_exex_liquidity.Liquidity.Block.{Exex, commit_block}
use reth_exex_liquidity.Liquidity.Keeps.{scan_block_keeps}
use reth_exex_liquidity.Liquidity.Protocol.{
  idle, reorging, Phase, outside, Consumer, conforms, Made, start-Made,
}
use reth_exex_liquidity.Liquidity.Reorg.Revert.{
  Round, Slot0Pool, Affected, revert_block, revert_blocks,
}
use reth_exex_liquidity.Liquidity.Reorg.Finals.{
  fluid_final, v2_final, send_v2_finals, slot0_final_of, send_slot0_finals, read_slot0,
}
use reth_exex_liquidity.Liquidity.Reorg.Handle.{
  replay_block, commit_round, settle, chain_reorged, chain_reverted, Notification, chain_committed,
  chain_reorged_to, chain_reverted_by, handle,
}
use reth_exex_liquidity.Liquidity.Reorg.Conforms.{
  Stamps, begin-Made, revert_begin-Made, end-Made, epilogue-Made, reorg_start-Made,
  finish_reorg-Made, keeps-Made,
}
use reth_exex_liquidity.Liquidity.Reorg.Replays.{replay_scan_keeps}
use reth_exex_liquidity.Liquidity.Reorg.Reverts.{revert_receipts-Made}

module _ (accepts : ControlMessage → Bool) (c : Consumer) (old : List ControlMessage) where
  revert_block-Made :
      (d : Snapshot) (r : Round) (x : Exex × Affected)
      → Stamps d
      → Made accepts c old (outside reorging) x.0.out
      → Made accepts c old (outside reorging) (revert_block accepts d r x).0.out
  unfolding revert_block
  revert_block-Made d r (x, affected) stamps h =
      let b = r.block in
      end-Made accepts c old reorging b.number _ true _ (
        revert_receipts-Made accepts c old d stamps _ b 0 b.receipts _
          (revert_begin-Made accepts c old b.number b.timestamp _ x.out h))

  revert_blocks-Made :
      (d : Snapshot) (rs : List Round) (x : Exex × Affected)
      → Stamps d
      → Made accepts c old (outside reorging) x.0.out
      → Made accepts c old (outside reorging) (revert_blocks accepts d rs x).0.out
  unfolding revert_blocks
  revert_blocks-Made d [] x stamps h = h
  revert_blocks-Made d (r ∷ rs) x stamps h =
      revert_block-Made d r (revert_blocks accepts d rs x) stamps
        (revert_blocks-Made d rs x stamps h)

  commit_block-Made :
      (d : Snapshot) (r : Round) (x : Exex)
      → Stamps d
      → Made accepts c old (outside idle) x.out
      → Made accepts c old (outside idle) (commit_block accepts d r.early r.late r.block x).out
  unfolding commit_block
  commit_block-Made d r x stamps h =
      let b = r.block in
      let t = fold queue_update (Updates.begin_block x.pool_tracker) r.early in
      end-Made accepts c old idle b.number _ false _ (
        scan_block_keeps accepts d t b (keeps-Made accepts c old d t b idle stamps) _
          (begin-Made accepts c old idle b.number b.timestamp _ x.out h))

  replay_block-Made :
      (at : ℕ → Snapshot) (x : Exex × List Address) (r : Round)
      → Stamps (at r.block.number)
      → Made accepts c old (outside reorging) x.0.out
      → Made accepts c old (outside reorging) (replay_block accepts at x r).0.out
  unfolding replay_block
  replay_block-Made at (x, touched) r stamps h =
      let b = r.block in
      let t =
        fold queue_update (Updates.begin_block (fold queue_update x.pool_tracker r.between))
          r.early in
      end-Made accepts c old reorging b.number _ false _ (
        replay_scan_keeps accepts (at b.number) t b
          (keeps-Made accepts c old (at b.number) t b reorging stamps) _
          (begin-Made accepts c old reorging b.number b.timestamp _ x.out h))

  -- The final states.
  module _ (d : Snapshot) (tip ts : ℕ) where
    fluid_final-Made :
        (t : PoolTracker) (o : Outgoing) (pool : Address)
        → Made accepts c old (outside reorging) o
        → Made accepts c old (outside reorging) (fluid_final accepts d tip ts t o pool)
    unfolding fluid_final
    fluid_final-Made t o pool h = elim (Option-cases (fluid_config t pool)) [
      | inl e ↦ rw (e, fluid_final) h
      | inr (config, e) ↦
          rw (e, fluid_final)
            (elim (Option-cases (d.decode_fluid_pool config ts)) [
              | inl e' ↦ rw e' h
              | inr (r, e') ↦ rw e' (epilogue-Made accepts c old tip ts _ o h)
            ])
    ]

    v2_final-Made :
        (o : Outgoing) (a : Address)
        → Made accepts c old (outside reorging) o
        → Made accepts c old (outside reorging) (v2_final accepts d tip ts o a)
    unfolding v2_final
    v2_final-Made o a h = epilogue-Made accepts c old tip ts _ o h

    slot0_final_of-Made :
        (o : Outgoing) (p : Slot0Pool)
        → Made accepts c old (outside reorging) o
        → Made accepts c old (outside reorging) (slot0_final_of accepts d tip ts o p)
    unfolding slot0_final_of
    slot0_final_of-Made o p h = elim (Option-cases (read_slot0 accepts d tip ts p.0 p.1)) [
      | inl e ↦ rw (e, slot0_final_of) h
      | inr (state, e) ↦ rw (e, slot0_final_of) (epilogue-Made accepts c old tip ts _ o h)
    ]

  fold-Made :
      {A : Type 0} (p : Phase) (step : Outgoing → A → Outgoing)
      → ((o : Outgoing) (a : A) → Made accepts c old p o → Made accepts c old p (step o a))
      → (o : Outgoing) (xs : List A) → Made accepts c old p o
      → Made accepts c old p (fold step o xs)
  fold-Made p step keep o xs h =
      fold_inv (Made accepts c old p) (λ a. Unit {0}) step (λ s a q. keep s a) o xs (All-trivial xs)
        h

  settle-Made :
      (at : ℕ → Snapshot) (tip fluid_ts ts : ℕ) (affected : Affected) (touched : List Address)
      (x : Exex)
      → Made accepts c old (outside reorging) x.out
      → Made accepts c old (outside idle) (settle accepts at tip fluid_ts ts affected touched x).out
  unfolding settle send_v2_finals send_slot0_finals
  settle-Made at tip fluid_ts ts affected touched x h =
      let d = at tip in
      finish_reorg-Made accepts c old tip _ (
        fold-Made (outside reorging) _ (slot0_final_of-Made d tip ts) _ affected.slot0_pools (
          fold-Made (outside reorging) _ (v2_final-Made d tip ts) _ _ (
            fold-Made (outside reorging) _ (fluid_final-Made d tip fluid_ts x.pool_tracker) x.out
              touched h)))

  fold_replay-Made :
      (at : ℕ → Snapshot) (stamps : (n : ℕ) → Stamps (at n)) (x : Exex × List Address)
      (rs : List Round)
      → Made accepts c old (outside reorging) x.0.out
      → Made accepts c old (outside reorging) (fold (replay_block accepts at) x rs).0.out
  unfolding fold
  fold_replay-Made at stamps x [] h = h
  fold_replay-Made at stamps x (r ∷ rs) h =
      fold_replay-Made at stamps (replay_block accepts at x r) rs
        (replay_block-Made at x r (stamps r.block.number) h)

  fold_commit-Made :
      (at : ℕ → Snapshot) (stamps : (n : ℕ) → Stamps (at n)) (x : Exex) (rs : List Round)
      → Made accepts c old (outside idle) x.out
      → Made accepts c old (outside idle) (fold (commit_round accepts at) x rs).out
  unfolding fold commit_round
  fold_commit-Made at stamps x [] h = h
  fold_commit-Made at stamps x (r ∷ rs) h =
      fold_commit-Made at stamps (commit_round accepts at x r) rs (
        commit_block-Made (at r.block.number) r
          (record x { pool_tracker = fold queue_update x.pool_tracker r.between })
          (stamps r.block.number) h)

  handle-Made :
      (at : ℕ → Snapshot) (stamps : (n : ℕ) → Stamps (at n)) (x : Exex) (n : Notification)
      → Made accepts c old (outside idle) x.out
      → Made accepts c old (outside idle) (handle accepts at x n).out
  unfolding handle chain_reorged chain_reverted
  handle-Made at stamps x (chain_committed new) h = fold_commit-Made at stamps x new h
  handle-Made at stamps x (chain_reorged_to from to) h = settle-Made at _ _ _ _ _ _ (
      fold_replay-Made at stamps _ to
        (revert_blocks-Made _ from _ (stamps _) (reorg_start-Made accepts c old _ _ x.out h)))
  handle-Made at stamps x (chain_reverted_by from) h =
      settle-Made at _ _ _ _ _ _
        (revert_blocks-Made _ from _ (stamps _) (reorg_start-Made accepts c old _ _ x.out h))

-- A run over notifications, of snapshots whose messages name their block and direction.
pub handle-conforms :
    (accepts : ControlMessage → Bool) (at : ℕ → Snapshot) (x : Exex) (ns : List Notification)
    → ((n : ℕ) → Stamps (at n))
    → let y = fold (handle accepts at) x ns in
      let free : ℕ → Consumer = λ seq. record { stream_seq = seq; phase = outside idle } in
      (made : List ControlMessage) × (conforms (free x.out.stream_seq) made
        ≡ some (free y.out.stream_seq))
      × (y.out.sent ≡ x.out.sent ++ retain accepts made)
handle-conforms accepts at x ns stamps =
    let all =
      λ (c : Consumer) (old : List ControlMessage) (h : Made accepts c old (outside idle) x.out).
        fold_inv (λ (y : Exex). Made accepts c old (outside idle) y.out) (λ n. Unit {0})
          (handle accepts at) (λ y n q. handle-Made accepts c old at stamps y n) x ns
          (All-trivial ns) h in
    let m = all _ x.out.sent (start-Made accepts x.out (outside idle)) in
    (m.made, m.conforming, m.sent_here)
