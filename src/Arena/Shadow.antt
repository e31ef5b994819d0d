-- ===== src/Arena/Shadow.antt =====
-- `ShadowArena` of src/shadow_arena.rs, less its hydration, which stands in Hydration.
use reth_exex_liquidity.Common.{
  ℕ, not, ◌+◌, ltb, leb, ◌==◌, ◌&&◌, ◌||◌, if◌then◌else◌, Bool, false, List, [], ◌∷◌, ◌++◌, retain,
}
use reth_exex_liquidity.Types.{PoolIdentifier, same_identifier, Protocol, same_protocol}
use reth_exex_liquidity.Wire.{
  PoolUpdateMessage, ReorgEpilogueUpdate, slot0_final, fluid_state_final, v2_reserves_final,
}
use reth_exex_liquidity.Arena.Writer.{ArenaWriter, Result, ok, err}
use reth_exex_liquidity.Arena.Apply.{ApplyError}
use reth_exex_liquidity.Arena.Apply

abbrev pub Pending : Type 0
Pending = Protocol × PoolIdentifier

-- The set of pools to promote is a list.
unfoldable pub holds_pending : List Pending → Pending → Bool
holds_pending [] p = false
holds_pending (q ∷ rest) p =
    same_protocol q.0 p.0 && same_identifier q.1 p.1 || holds_pending rest p

unfoldable pub insert_pending : Pending → List Pending → List Pending
insert_pending p pending = if holds_pending pending p then pending else p ∷ pending

unfoldable pub holds_identifier : List PoolIdentifier → PoolIdentifier → Bool
holds_identifier [] i = false
holds_identifier (j ∷ rest) i = same_identifier j i || holds_identifier rest i

pub record ShadowArena (W : Type 0) : Type 0 where
  pub arena : W
  pub scraped_at_block : ℕ
  pub applied_this_block : ℕ
  pub updated_this_block : List PoolIdentifier
  pub retier_pending : List Pending
  pub authoritative : Bool

-- The label is `live_block_apply`, or else `live_block_empty`.
pub record EndBlockSignal : Type 0 where
  pub live_block_apply : Bool
  pub updated_pools : List PoolIdentifier

-- `open`, on an arena that `init` has reset.
unfoldable pub open_arena : {W : Type 0} → W → ShadowArena W
open_arena a = record {
  arena = a;
  scraped_at_block = 0;
  applied_this_block = 0;
  updated_this_block = [];
  retier_pending = [];
  authoritative = false;
}

abbrev pub pool_of : ReorgEpilogueUpdate → PoolIdentifier
pool_of (slot0_final p protocol s) = p
pool_of (fluid_state_final p s) = p
pool_of (v2_reserves_final p x y) = p

unfoldable pub take_retier_pending : {W : Type 0} → ShadowArena W → ShadowArena W × List Pending
take_retier_pending s = (record s { retier_pending = [] }, s.retier_pending)

-- The count and the list of a write that is applied.
unfoldable pub count_applied :
    {W : Type 0} → (applied : Bool) → PoolIdentifier → ShadowArena W → ShadowArena W
count_applied applied p s =
    if applied
    then record s {
      applied_this_block = s.applied_this_block + 1;
      updated_this_block = s.updated_this_block ++ p ∷ [];
    }
    else s

unfoldable pub queue_overflow :
    {W : Type 0} → (overflowed : Bool) → Pending → ShadowArena W → ShadowArena W
queue_overflow overflowed p s =
    if overflowed then record s { retier_pending = insert_pending p s.retier_pending } else s

-- Behind the write: `?` returns an error at once.
unfoldable pub finish_apply :
    {W : Type 0}
    → Result ApplyError Bool
    → (overflowed : Bool) → Pending
    → ShadowArena W
    → ShadowArena W × Result ApplyError Bool
finish_apply (err e) overflowed p s = (s, err e)
finish_apply (ok applied) overflowed p s =
    (queue_overflow overflowed p (count_applied applied p.1 s), ok applied)

unfoldable pub finish_epilogue :
    {W : Type 0}
    → Result ApplyError Bool
    → PoolIdentifier
    → ShadowArena W
    → ShadowArena W × Result ApplyError Bool
finish_epilogue (err e) p s = (s, err e)
finish_epilogue (ok applied) p s = (count_applied applied p s, ok applied)

module _ {W : Type 0} (writer_of : ArenaWriter W) where
  unfoldable pub apply_event_unguarded :
      PoolUpdateMessage → ShadowArena W → ShadowArena W × Result ApplyError Bool
  apply_event_unguarded m s =
      let x = Apply.apply_live_event writer_of s.arena false m in
      finish_apply x.result x.overflowed (m.protocol, m.pool_id) (record s { arena = x.arena })

  -- The replay guard.
  unfoldable pub apply_live_event :
      PoolUpdateMessage → ShadowArena W → ShadowArena W × Result ApplyError Bool
  apply_live_event m s =
      if leb m.block_number s.scraped_at_block then (s, ok false) else apply_event_unguarded m s

  unfoldable pub apply_reorg_event :
      PoolUpdateMessage → ShadowArena W → ShadowArena W × Result ApplyError Bool
  apply_reorg_event m s = apply_event_unguarded m s

  unfoldable pub apply_reorg_epilogue :
      ReorgEpilogueUpdate → ShadowArena W → ShadowArena W × Result ApplyError Bool
  apply_reorg_epilogue u s =
      let x = Apply.apply_reorg_epilogue writer_of s.arena u in
      finish_epilogue x.result (pool_of u) (record s { arena = x.arena })

  -- The loop over the removed pools, with its count.
  unfoldable pub remove_slots : List PoolIdentifier → W → (removed_slots : ℕ) → W × ℕ
  remove_slots [] a n = (a, n)
  remove_slots (p ∷ ps) a n =
      let (b, answer) = writer_of.remove_pool p a in
      remove_slots ps b (elim answer [ ok done ↦ n + 1 | err e ↦ n ])

  unfoldable pub remove_pools : List PoolIdentifier → ShadowArena W → ShadowArena W × ℕ
  remove_pools [] s = (s, 0)
  remove_pools (p ∷ ps) s =
      let (a, n) = remove_slots (p ∷ ps) s.arena 0 in
      (
        record s {
          arena = if ltb 0 n then writer_of.signal_topology_change a else a;
          retier_pending = retain (λ q. not (holds_identifier (p ∷ ps) q.1)) s.retier_pending;
        },
        n,
      )

  unfoldable pub end_block :
      (block_number end_stream_seq : ℕ) → ShadowArena W → ShadowArena W × EndBlockSignal
  end_block n seq s =
      let applied = not (s.applied_this_block == 0) in
      (
        record s {
          arena = writer_of.signal_update_complete n s.applied_this_block applied seq s.arena;
          applied_this_block = 0;
          updated_this_block = [];
        },
        record { live_block_apply = applied; updated_pools = s.updated_this_block },
      )
