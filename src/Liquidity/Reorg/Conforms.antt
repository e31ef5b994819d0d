-- ===== src/Liquidity/Reorg/Conforms.antt =====
-- What the main loop of src/main.rs sends follows the protocol: blocks, and reorgs of blocks.
use reth_exex_liquidity.Common.{
  ℕ, ◌+◌, Bool, true, false, none, some, List, ◌≡◌, refl, sym, arith, if◌then◌else◌, ◌==◌, ==-refl,
  ◌&&◌,
}
use reth_exex_liquidity.Types.{Address, PoolId, PoolMetadata}
use reth_exex_liquidity.Wire.{ControlMessage, PoolUpdateMessage, ReorgEpilogueUpdate, ReorgRange}
use reth_exex_liquidity.Wire
use reth_exex_liquidity.Events.{DecodedEvent}
use reth_exex_liquidity.Tracker.{PoolTracker}
use reth_exex_liquidity.Liquidity.FluidPool.{fluid_update_msg}
use reth_exex_liquidity.Liquidity.Stream.{
  Outgoing, send_begin_block, send_pool_update, send_end_block, send_reorg_start,
  send_reorg_epilogue, send_reorg_complete, finish_reorg,
}
use reth_exex_liquidity.Liquidity.Snapshot.{Snapshot}
use reth_exex_liquidity.Liquidity.Block.{Block, emit}
use reth_exex_liquidity.Liquidity.Keeps.{Keeps}
use reth_exex_liquidity.Liquidity.Protocol.{
  Around, idle, reorging, outside, inside, follow, same_bool, Consumer, Made, send-Made,
}

-- The messages of a snapshot's `create_pool_update` name the block and the direction they are made for.
pub record Stamps (d : Snapshot) : Type 0 where
  pub stamped :
      (e : DecodedEvent) (n ts tx li : ℕ) (r : Bool) (by_address : List (Address × PoolMetadata))
      (by_id : List (PoolId × PoolMetadata)) (contracts : List (Address × PoolId))
      {m : PoolUpdateMessage}
      → d.create_pool_update e n ts tx li r by_address by_id contracts ≡ some m
      → (m.block_number ≡ n) × (m.is_revert ≡ r)

false≢true : false ≡ true → ⊥
false≢true e = cc

module _ (accepts : ControlMessage → Bool) (c : Consumer) (old : List ControlMessage) where
  pub begin-Made :
      (a : Around) (n ts fee : ℕ) (o : Outgoing)
      → Made accepts c old (outside a) o
      → Made accepts c old (inside a n false 0) (send_begin_block accepts n ts fee false o)
  unfolding send_begin_block follow Wire.stream_seq
  begin-Made idle n ts fee o h = send-Made accepts c old _ _ o _ refl refl h
  begin-Made reorging n ts fee o h = send-Made accepts c old _ _ o _ refl refl h

  pub revert_begin-Made :
      (n ts fee : ℕ) (o : Outgoing)
      → Made accepts c old (outside reorging) o
      → Made accepts c old (inside reorging n true 0) (send_begin_block accepts n ts fee true o)
  unfolding send_begin_block follow Wire.stream_seq
  revert_begin-Made n ts fee o h = send-Made accepts c old _ _ o _ refl refl h

  pub update-Made :
      (a : Around) (n k : ℕ) (r : Bool) (m : PoolUpdateMessage) (o : Outgoing)
      → (m.block_number ≡ n) × (m.is_revert ≡ r)
      → Made accepts c old (inside a n r k) o
      → Made accepts c old (inside a n r (k + 1)) (send_pool_update accepts m o)
  unfolding send_pool_update follow Wire.stream_seq
  update-Made a n k r m o e h =
      send-Made accepts c old _ _ o _ refl (same r (m.block_number) (m.is_revert) e) h
    where
      same :
          (r : Bool) (n' : ℕ) (r' : Bool)
          → (n' ≡ n) × (r' ≡ r)
          → (if n' == n && same_bool r' r then some (inside a n r (k + 1)) else none)
            ≡ some (inside a n r (k + 1))
      same true n' true e = ground (arith, e.0)
      same false n' false e = ground (arith, e.0)
      same true n' false e = absurd (false≢true e.1)
      same false n' true e = absurd (false≢true (sym e.1))

  pub end-Made :
      (a : Around) (n k : ℕ) (r : Bool) (o : Outgoing)
      → Made accepts c old (inside a n r k) o
      → Made accepts c old (outside a) (send_end_block accepts n k o)
  unfolding send_end_block follow Wire.stream_seq
  end-Made a n k r o h = send-Made accepts c old _ _ o _ refl (rw (==-refl n, ==-refl k) refl) h

  pub epilogue-Made :
      (n ts : ℕ) (u : ReorgEpilogueUpdate) (o : Outgoing)
      → Made accepts c old (outside reorging) o
      → Made accepts c old (outside reorging) (send_reorg_epilogue accepts n ts u o)
  unfolding send_reorg_epilogue follow Wire.stream_seq
  epilogue-Made n ts u o h = send-Made accepts c old _ _ o _ refl refl h

  pub reorg_start-Made :
      (from to : ReorgRange) (o : Outgoing)
      → Made accepts c old (outside idle) o
      → Made accepts c old (outside reorging) (send_reorg_start accepts from to o)
  unfolding send_reorg_start follow Wire.stream_seq
  reorg_start-Made from to o h = send-Made accepts c old _ _ o _ refl refl h

  pub finish_reorg-Made :
      (n : ℕ) (o : Outgoing)
      → Made accepts c old (outside reorging) o
      → Made accepts c old (outside idle) (finish_reorg accepts n o).1
  unfolding finish_reorg send_reorg_complete follow Wire.stream_seq
  finish_reorg-Made n o h = send-Made accepts c old _ _ o _ refl refl h

  -- A scanned block.
  pub keeps-Made :
      (d : Snapshot) (t : PoolTracker) (b : Block) (a : Around)
      → Stamps d
      → Keeps accepts d t b
          (λ m. (m.block_number ≡ b.number) × (m.is_revert ≡ false))
          (λ s. Made accepts c old (inside a b.number false s.events_in_block) s.out)
  unfolding emit fluid_update_msg
  keeps-Made d t b a stamps = record {
    creates = λ e tx li made. stamps.stamped e _ _ tx li false _ _ _ made;
    decodes = λ pool r. (refl, refl);
    emits = λ m s q h. update-Made a b.number s.events_in_block false m s.out q h;
    touches = λ pools s h. h;
  }
