-- ===== src/Hydration/Live.antt =====
-- The hydration of live-added pools at the end of a committed block, in the main loop of src/main.rs.
use reth_exex_liquidity.Common.{
  ℕ, ◌+◌, ◌≡◌, refl, arith, Option, none, some, List, [], ◌∷◌, ◌++◌, retain, fold, if◌then◌else◌,
  inl, inr, Bool-cases,
}
use reth_exex_liquidity.Types.{PoolIdentifier, PoolMetadata}
use reth_exex_liquidity.Tracker.{PoolTracker, WhitelistUpdate}
use reth_exex_liquidity.Tracker.Updates.{
  queue_update, take_newly_added, requeue_newly_added, is_tracked,
}
use reth_exex_liquidity.Arena.Writer.{ArenaWriter}
use reth_exex_liquidity.Arena.Shadow.{ShadowArena}
use reth_exex_liquidity.Hydration.Batch.{
  HydrationBatch, Source, build_hydration_batch, is_empty, is_nil,
}
use reth_exex_liquidity.Hydration.Adding.{ArenaAdder, hydrate_added}
use reth_exex_liquidity.Hydration.Held.{SlotLaws, refused_batch, hydrate_added-held}
use reth_exex_liquidity.Hydration.Accounted.{count_pool, build_hydration_batch-accounted}

-- Those that are still whitelisted.
unfoldable pub still_tracked : PoolTracker → List PoolMetadata → List PoolMetadata
still_tracked t added = retain (λ p. is_tracked t p.pool_id) added

module _ {W : Type 0} (writer_of : ArenaWriter W) (adder : ArenaAdder W) where
  -- Behind the drain. The state at the block is read, or its read fails. Updates that the subscription task
  -- brings come `between` the drain and the read lock, and `late`, before the requeueing.
  unfoldable pub hydrate_drained :
      Option (PoolTracker → Source)
      → (between late : List WhitelistUpdate) → List PoolMetadata
      → PoolTracker
      → ShadowArena W
      → PoolTracker × ShadowArena W
  hydrate_drained none between late added t s =
      (requeue_newly_added added (fold queue_update (fold queue_update t between) late), s)
  hydrate_drained (some source_of) between late added t s =
      let t1 = fold queue_update t between in
      let (batch, unhydrated) = build_hydration_batch (source_of t1) (still_tracked t1 added) in
      let t2 = fold queue_update t1 late in
      (
        if is_nil unhydrated then t2 else requeue_newly_added unhydrated t2,
        if is_empty batch then s else (hydrate_added writer_of adder batch s).0,
      )

  unfoldable pub live_add :
      Option (PoolTracker → Source)
      → (between late : List WhitelistUpdate) → PoolTracker
      → ShadowArena W
      → PoolTracker × ShadowArena W
  unfolding hydrate_drained
  live_add source between late t s =
      let (added, drained) = take_newly_added t in
      if is_nil added
      then (fold queue_update (fold queue_update drained between) late, s)
      else hydrate_drained source between late added drained s

  count_pool-append :
      (i : PoolIdentifier) (ps qs : List PoolMetadata)
      → count_pool i (ps ++ qs) ≡ count_pool i ps + count_pool i qs
  count_pool-append i [] qs = omega arith
  count_pool-append i (p ∷ ps) qs = omega (arith, count_pool-append i ps qs)

  requeue_count :
      (i : PoolIdentifier) (ps : List PoolMetadata) (t : PoolTracker)
      → count_pool i (if is_nil ps then t else requeue_newly_added ps t).newly_added
        ≡ count_pool i t.newly_added + count_pool i ps
  unfolding requeue_newly_added
  requeue_count i [] t = omega arith
  requeue_count i (p ∷ ps) t = count_pool-append i t.newly_added (p ∷ ps)

  hydrate_batch :
      (batch : HydrationBatch) (s : ShadowArena W)
      → (if is_empty batch then s else (hydrate_added writer_of adder batch s).0)
        ≡ (hydrate_added writer_of adder batch s).0
  unfolding hydrate_added
  hydrate_batch batch s = elim (Bool-cases (is_empty batch)) [
    | inl e ↦ rw e refl
    | inr e ↦ rw e refl
  ]

  -- What is hydrated of the pools that were drained.
  abbrev pub live_batch :
      (between : List WhitelistUpdate) (source_of : PoolTracker → Source) (t : PoolTracker)
      → HydrationBatch
  live_batch between source_of t =
      let (added, drained) = take_newly_added t in
      let t1 = fold queue_update drained between in
      (build_hydration_batch (source_of t1) (still_tracked t1 added)).0

  module _ (held : PoolIdentifier → W → ℕ) (laws : SlotLaws writer_of adder held)
      (between late : List WhitelistUpdate) (s : ShadowArena W) where
    -- To drain nothing and stop is to go on with nothing.
    skip_nothing :
        (source_of : PoolTracker → Source) (added : List PoolMetadata) (t : PoolTracker)
        → (if is_nil added
            then (fold queue_update (fold queue_update t between) late, s)
            else hydrate_drained (some source_of) between late added t s)
          ≡ hydrate_drained (some source_of) between late added t s
    unfolding hydrate_drained still_tracked retain build_hydration_batch is_empty fold
    skip_nothing source_of [] t = refl
    skip_nothing source_of (p ∷ ps) t = refl

    hydrate_drained-held :
        (source_of : PoolTracker → Source) (added : List PoolMetadata) (t : PoolTracker)
        (i : PoolIdentifier)
        → let t1 = fold queue_update t between in
          let x = hydrate_drained (some source_of) between late added t s in
          let batch = (build_hydration_batch (source_of t1) (still_tracked t1 added)).0 in
          held i x.1.arena
            + refused_batch writer_of adder i batch s.arena
            + count_pool i x.0.newly_added
          ≡ held i s.arena
            + count_pool i (fold queue_update t1 late).newly_added
            + count_pool i (still_tracked t1 added)
    unfolding hydrate_drained
    hydrate_drained-held source_of added t i =
        let t1 = fold queue_update t between in
        let built = build_hydration_batch (source_of t1) (still_tracked t1 added) in
        rw (hydrate_batch built.0 s) (
          omega (
            arith,
            hydrate_added-held writer_of adder held laws i built.0 s,
            requeue_count i built.1 (fold queue_update t1 late),
            build_hydration_batch-accounted (source_of t1) i (still_tracked t1 added),
          ))

    requeue_drained :
        (added : List PoolMetadata) (t : PoolTracker)
        → let t2 = fold queue_update (fold queue_update t between) late in
          let y = if is_nil added then (t2, s) else hydrate_drained none between late added t s in
          (y.1 ≡ s)
          × ((i : PoolIdentifier)
              → count_pool i y.0.newly_added ≡ count_pool i t2.newly_added + count_pool i added)
    unfolding hydrate_drained requeue_newly_added
    requeue_drained [] t = (refl, λ i. omega arith)
    requeue_drained (p ∷ ps) t =
        let t2 = fold queue_update (fold queue_update t between) late in
        (refl, λ i. count_pool-append i t2.newly_added (p ∷ ps))

    -- What a block does with the pools that it drains, where its state can be read and the writer's calls
    -- make a slot exactly where they are accepted: of the pools that are still whitelisted when the
    -- tracker's lock is taken, each, as often as it was drained, has one more slot in the arena, or was
    -- refused by the writer, or is in the tracker's queue, beside the slots that it had and what arrived in
    -- the queue meanwhile. A refused pool gets no slot and is not queued again. Where the state cannot be
    -- read, the arena stays, and all drained pools are put back.
    pub live_add-keeps :
        (source_of : PoolTracker → Source) (t : PoolTracker)
        → let drained = (take_newly_added t).1 in
          let t1 = fold queue_update drained between in
          let x = live_add (some source_of) between late t s in
          let y = live_add none between late t s in
          ((i : PoolIdentifier)
            → held i x.1.arena
                + refused_batch writer_of adder i (live_batch between source_of t) s.arena
                + count_pool i x.0.newly_added
              ≡ held i s.arena
                + count_pool i (fold queue_update t1 late).newly_added
                + count_pool i (still_tracked t1 t.newly_added))
          × (y.1 ≡ s)
          × ((i : PoolIdentifier)
              → count_pool i y.0.newly_added
                ≡ count_pool i (fold queue_update t1 late).newly_added + count_pool i t.newly_added)
    unfolding live_add take_newly_added
    live_add-keeps source_of t = (
      rw (skip_nothing source_of t.newly_added (record t { newly_added = [] }))
          (hydrate_drained-held source_of t.newly_added (record t { newly_added = [] })),
      (requeue_drained t.newly_added (record t { newly_added = [] })).0,
      (requeue_drained t.newly_added (record t { newly_added = [] })).1,
    )
