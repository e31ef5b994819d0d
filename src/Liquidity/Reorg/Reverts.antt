-- ===== src/Liquidity/Reorg/Reverts.antt =====
-- The messages of a reverted block of src/main.rs.
use reth_exex_liquidity.Common.{
  ℕ, ◌+◌, Bool, true, false, Option, none, some, List, [], ◌∷◌, ◌≡◌, refl, if◌then◌else◌, ◌==◌,
  Option-cases, Bool-cases, inl, inr,
}
use reth_exex_liquidity.Common.Sets
use reth_exex_liquidity.Types.{Address}
use reth_exex_liquidity.Wire.{ControlMessage, PoolUpdateMessage}
use reth_exex_liquidity.Events.{Log, DecodedEvent, fluid_log_operate_pool}
use reth_exex_liquidity.Tracker.{PoolTracker, fluid_liquidity_layer}
use reth_exex_liquidity.Tracker.Updates.{is_tracked_address, is_tracked_fluid_pool}
use reth_exex_liquidity.Liquidity.Filter.{should_process_event}
use reth_exex_liquidity.Liquidity.Snapshot.{Snapshot}
use reth_exex_liquidity.Liquidity.Block.{Block}
use reth_exex_liquidity.Liquidity.Protocol.{reorging, inside, Consumer, Made}
use reth_exex_liquidity.Liquidity.Reorg.Revert.{
  Reverting, emit_revert, revert_event, revert_fluid, revert_log, revert_logs, revert_receipts,
}
use reth_exex_liquidity.Liquidity.Reorg.Conforms.{Stamps, update-Made}

module _ (accepts : ControlMessage → Bool) (c : Consumer) (old : List ControlMessage) (d : Snapshot)
    (stamps : Stamps d) (t : PoolTracker) (b : Block) where
  abbrev RevertMade : Reverting → Type 0
  RevertMade s = Made accepts c old (inside reorging b.number true s.events_reverted) s.out

  emit_revert-Made :
      (s : Reverting) (o : Option PoolUpdateMessage)
      → ((m : PoolUpdateMessage) → o ≡ some m → (m.block_number ≡ b.number) × (m.is_revert ≡ true))
      → RevertMade s
      → RevertMade (elim o [ none ↦ s | some m ↦ emit_revert accepts d t b m s ])
  unfolding emit_revert
  emit_revert-Made s none f h = h
  emit_revert-Made s (some m) f h =
      update-Made accepts c old reorging b.number s.events_reverted true m s.out (f m refl) h

  revert_event-Made :
      (tx li : ℕ) (e : DecodedEvent) (s : Reverting)
      → RevertMade s
      → RevertMade (revert_event accepts d t b tx li e s)
  unfolding revert_event
  revert_event-Made tx li e s h = elim (Bool-cases (should_process_event e t)) [
    | inl on ↦ rw on (
        emit_revert-Made _ _ (λ m made. stamps.stamped e b.number b.timestamp tx li true _ _ _ made)
          h)
    | inr off ↦ rw off h
  ]

  revert_fluid-Made :
      (log : Log) (s : Reverting) → RevertMade s → RevertMade (revert_fluid accepts d t b log s)
  unfolding revert_fluid
  revert_fluid-Made log s h = elim (Option-cases (fluid_log_operate_pool d.signature_hash log)) [
    | inl e ↦ rw (e, revert_fluid) h
    | inr (pool, e) ↦ rw (e, revert_fluid) (noted pool (is_tracked_fluid_pool t pool))
  ]
    where
      noted :
          (pool : Address) (test : Bool)
          → RevertMade (
              if test
              then record s {
                affected = record s.affected {
                  fluid_touched = Sets.insert pool s.affected.fluid_touched;
                };
              }
              else s)
      noted pool true = h
      noted pool false = h

  revert_log-Made :
      (tx li : ℕ) (log : Log) (s : Reverting)
      → RevertMade s
      → RevertMade (revert_log accepts d t b tx li log s)
  unfolding revert_log
  revert_log-Made tx li log s h =
      routed (log.address == fluid_liquidity_layer) (is_tracked_address t log.address)
        (d.decode_log log)
    where
      routed :
          (layer tracked : Bool) (e : Option DecodedEvent)
          → RevertMade (
              if layer
              then revert_fluid accepts d t b log s
              else if tracked
              then elim e [ none ↦ s | some x ↦ revert_event accepts d t b tx li x s ]
              else s)
      routed true tracked e = revert_fluid-Made log s h
      routed false true none = h
      routed false true (some e) = revert_event-Made tx li e s h
      routed false false e = h

  revert_logs-Made :
      (tx li : ℕ) (logs : List Log) (s : Reverting)
      → RevertMade s
      → RevertMade (revert_logs accepts d t b tx li logs s)
  unfolding revert_logs
  revert_logs-Made tx li [] s h = h
  revert_logs-Made tx li (log ∷ logs) s h =
      revert_log-Made tx li log _ (revert_logs-Made tx (li + 1) logs s h)

  pub revert_receipts-Made :
      (tx : ℕ) (rs : List (List Log)) (s : Reverting)
      → RevertMade s
      → RevertMade (revert_receipts accepts d t b tx rs s)
  unfolding revert_receipts
  revert_receipts-Made tx [] s h = h
  revert_receipts-Made tx (logs ∷ rs) s h =
      revert_logs-Made tx 0 logs _ (revert_receipts-Made (tx + 1) rs s h)
