-- ===== src/Arena/Counted.antt =====
-- What `ShadowArena` (src/shadow_arena.rs) tells at the end of a block, and whom it promotes.
use reth_exex_liquidity.Common.{
  ℕ, not, leb, ◌==◌, ◌&&◌, ◌||◌, Bool, true, false, List, [], ◌∷◌, ◌≡◌, refl, ap, sym, ◌∙◌, arith,
  length, length-append, retain, Bool-cases, inl, inr,
}
use reth_exex_liquidity.Types.{
  PoolIdentifier, same_identifier, same_identifier_eq, Protocol, same_protocol,
}
use reth_exex_liquidity.Wire.{PoolUpdateMessage, ReorgEpilogueUpdate}
use reth_exex_liquidity.Arena.Writer.{ArenaWriter, Result, ok, err}
use reth_exex_liquidity.Arena.Apply.{ApplyError}
use reth_exex_liquidity.Arena.Shadow.{
  Pending, holds_pending, holds_identifier, ShadowArena, open_arena, take_retier_pending,
  count_applied, queue_overflow, finish_apply, finish_epilogue, apply_event_unguarded,
  apply_live_event, apply_reorg_event, apply_reorg_epilogue, remove_pools, end_block,
}

dropped :
    (sp same rest held : Bool)
    → (same ≡ true → held ≡ true)
    → (rest && not held) ≡ ((sp && same || rest) && not held)
dropped true true rest held h = let e = h refl in rw (e, ◌&&◌) (ground arith)
dropped true false rest held h = refl
dropped false same rest held h = refl

stays :
    (sp same rest held : Bool)
    → (same ≡ true → held ≡ false)
    → (sp && same || rest && not held) ≡ ((sp && same || rest) && not held)
stays true true rest held h = let e = h refl in rw e refl
stays true false rest held h = refl
stays false same rest held h = refl

purged :
    (ids : List PoolIdentifier) (p : Protocol) (i : PoolIdentifier) (pending : List Pending)
    → holds_pending (retain (λ q. not (holds_identifier ids q.1)) pending) (p, i)
      ≡ (holds_pending pending (p, i) && not (holds_identifier ids i))
unfolding holds_pending retain
purged ids p i [] = refl
purged ids p i ((q, k) ∷ pending) =
    let later = purged ids p i pending in
    let named =
      λ (e : same_identifier k i ≡ true). ap (holds_identifier ids) (same_identifier_eq k i e) in
    elim (Bool-cases (holds_identifier ids k)) [
      | inl e ↦ rw e (
          later
          ∙ dropped (same_protocol q p) (same_identifier k i) _ (holds_identifier ids i)
              (λ f. sym (named f) ∙ e))
      | inr e ↦ rw e (
          ap (λ b. same_protocol q p && same_identifier k i || b) later
          ∙ stays (same_protocol q p) (same_identifier k i) _ (holds_identifier ids i)
              (λ f. sym (named f) ∙ e))
    ]

module _ {W : Type 0} (writer_of : ArenaWriter W) where
  -- What the ExEx does to its arena; hydration and promotion change slots, and hydration the anchor.
  pub data Step : ShadowArena W → ShadowArena W → Type 0 where
    applies :
        (m : PoolUpdateMessage) (s : ShadowArena W) → Step s (apply_live_event writer_of m s).0
    reorgs :
        (m : PoolUpdateMessage) (s : ShadowArena W) → Step s (apply_reorg_event writer_of m s).0
    settles :
        (u : ReorgEpilogueUpdate) (s : ShadowArena W)
        → Step s (apply_reorg_epilogue writer_of u s).0
    removes :
        (ps : List PoolIdentifier) (s : ShadowArena W) → Step s (remove_pools writer_of ps s).0
    takes : (s : ShadowArena W) → Step s (take_retier_pending s).0
    ends : (n seq : ℕ) (s : ShadowArena W) → Step s (end_block writer_of n seq s).0
    rearranges :
        (a : W) (anchor : ℕ) (s : ShadowArena W)
        → Step s (record s { arena = a; scraped_at_block = anchor })

  pub data Reach : ShadowArena W → Type 0 where
    opened : (a : W) → Reach (open_arena a)
    next : {s u : ShadowArena W} → Reach s → Step s u → Reach u

  abbrev Counted : ShadowArena W → Type 0
  Counted s = s.applied_this_block ≡ length s.updated_this_block

  count-Counted :
      (applied : Bool) (p : PoolIdentifier) (s : ShadowArena W)
      → Counted s
      → Counted (count_applied applied p s)
  unfolding count_applied
  count-Counted true p s h = omega (arith, length-append s.updated_this_block (p ∷ []))
  count-Counted false p s h = h

  queue-Counted :
      (o : Bool) (p : Pending) (s : ShadowArena W) → Counted s → Counted (queue_overflow o p s)
  unfolding queue_overflow
  queue-Counted true p s h = h
  queue-Counted false p s h = h

  finish_apply-Counted :
      (r : Result ApplyError Bool) (o : Bool) (p : Pending) (s : ShadowArena W)
      → Counted s
      → Counted (finish_apply r o p s).0
  unfolding finish_apply
  finish_apply-Counted (err e) o p s h = h
  finish_apply-Counted (ok applied) o p s h = queue-Counted o p _ (count-Counted applied p.1 s h)

  finish_epilogue-Counted :
      (r : Result ApplyError Bool) (p : PoolIdentifier) (s : ShadowArena W)
      → Counted s
      → Counted (finish_epilogue r p s).0
  unfolding finish_epilogue
  finish_epilogue-Counted (err e) p s h = h
  finish_epilogue-Counted (ok applied) p s h = count-Counted applied p s h

  Step-Counted : {s u : ShadowArena W} → Step s u → Counted s → Counted u
  unfolding apply_live_event apply_reorg_event apply_event_unguarded apply_reorg_epilogue
      remove_pools take_retier_pending end_block
  Step-Counted (applies m s) h = elim (Bool-cases (leb m.block_number s.scraped_at_block)) [
    | inl e ↦ rw e h
    | inr e ↦ rw e (finish_apply-Counted _ _ _ _ h)
  ]
  Step-Counted (reorgs m s) h = finish_apply-Counted _ _ _ _ h
  Step-Counted (settles u s) h = finish_epilogue-Counted _ _ _ h
  Step-Counted (removes [] s) h = h
  Step-Counted (removes (p ∷ ps) s) h = h
  Step-Counted (takes s) h = h
  Step-Counted (ends n seq s) h = refl
  Step-Counted (rearranges a anchor s) h = h

  Reach-Counted : {s : ShadowArena W} → Reach s → Counted s
  unfolding open_arena
  Reach-Counted (opened a) = refl
  Reach-Counted (next r step) = Step-Counted step (Reach-Counted r)

  -- In every arena that the operations reach: the end of a block reports as many applied updates in the
  -- header as the signal lists pools, and calls the block empty exactly if it lists none; after it
  -- nothing is counted or listed.
  pub end_block-reports :
      {s : ShadowArena W} (n seq : ℕ)
      → Reach s
      → let (t, signal) = end_block writer_of n seq s in
        (t.arena
          ≡ writer_of.signal_update_complete n
              (length signal.updated_pools)
              signal.live_block_apply
              seq
              s.arena)
        × (signal.live_block_apply ≡ not (length signal.updated_pools == 0))
        × (t.applied_this_block ≡ 0)
        × (t.updated_this_block ≡ [])
  unfolding end_block
  end_block-reports {s} n seq r =
      let e = Reach-Counted r in
      (
        ap (λ k. writer_of.signal_update_complete n k (not (s.applied_this_block == 0)) seq s.arena)
            e,
        ap (λ k. not (k == 0)) e,
        refl,
        refl,
      )

  -- Who is removed is not promoted, and all others still are: a pool is pending after `remove_pools`
  -- exactly if it was and its identifier is not among the removed.
  pub remove_pools-pending :
      (ps : List PoolIdentifier) (s : ShadowArena W) (p : Protocol) (i : PoolIdentifier)
      → holds_pending (remove_pools writer_of ps s).0.retier_pending (p, i)
        ≡ (holds_pending s.retier_pending (p, i) && not (holds_identifier ps i))
  unfolding remove_pools holds_identifier
  remove_pools-pending [] s p i = ground arith
  remove_pools-pending (j ∷ ps) s p i = purged (j ∷ ps) p i s.retier_pending
