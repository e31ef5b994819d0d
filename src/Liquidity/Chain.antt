-- ===== src/Liquidity/Chain.antt =====
-- The main loop of src/main.rs over storage: the snapshots' readers, `create_pool_update` and
-- `decode_fluid_pool` work on the state that the provider has at each block, or at the tip of a reorg.
-- Runs are those in which no reader panics; where one would, the snapshot answers nothing.
use reth_exex_liquidity.Common.{ℕ, Bool, Option, none, some, List, ◌++◌, ◌≡◌, ap, retain, fold}
use reth_exex_liquidity.Common.Words.{◌>>=◌}
use reth_exex_liquidity.Types.{PoolId}
use reth_exex_liquidity.Wire.{ControlMessage}
use reth_exex_liquidity.Events.{Log, DecodedEvent}
use reth_exex_liquidity.Tracker.{new}
use reth_exex_liquidity.Storage.State.{
  StateProvider, read_v2_reserves, read_v3_slot0, read_v4_slot0, read_ekubo_state,
}
use reth_exex_liquidity.Liquidity.FluidPool.{decode_fluid_pool}
use reth_exex_liquidity.Liquidity.Update.{create_pool_update}
use reth_exex_liquidity.Liquidity.Update.Stamped.{create_pool_update-Stamped}
use reth_exex_liquidity.Liquidity.Snapshot.{Snapshot}
use reth_exex_liquidity.Liquidity.Block.{Exex}
use reth_exex_liquidity.Liquidity.Protocol.{Consumer, outside, idle, conforms}
use reth_exex_liquidity.Liquidity.Reorg.Handle.{Notification, handle}
use reth_exex_liquidity.Liquidity.Reorg.Conforms.{Stamps}
use reth_exex_liquidity.Liquidity.Reorg.Refines.{handle-conforms}

-- Without the distinction of a panic.
abbrev unpanicked : {A : Type 0} → Option (Option A) → Option A
unpanicked o = o >>= λ answer. answer

unpanicked-some :
    {A : Type 0} (o : Option (Option A)) {a : A} → unpanicked o ≡ some a → o ≡ some (some a)
unpanicked-some none e = cc
unpanicked-some (some none) e = cc
unpanicked-some (some (some b)) e = ap some e

module _ (signature_hash : ℕ) (decode_log : Log → Option DecodedEvent)
    (v4_pool_base_slot : PoolId → ℕ) where
  unfoldable pub state_at_block : StateProvider → Snapshot
  state_at_block state = record {
    signature_hash = signature_hash;
    decode_log = decode_log;
    create_pool_update = λ e n ts tx li r by_address by_id contracts. unpanicked (
        create_pool_update state
          (record new {
            pools_by_address = by_address;
            pools_by_id = by_id;
            balancer_pools_by_addr = contracts;
          })
          n ts tx li r e);
    decode_fluid_pool = λ config ts. unpanicked (decode_fluid_pool state config ts);
    read_v2_reserves = read_v2_reserves state;
    read_v3_slot0 = λ a. unpanicked (read_v3_slot0 state a);
    read_v4_slot0 = λ manager i. unpanicked (read_v4_slot0 state v4_pool_base_slot manager i);
    read_ekubo_state = read_ekubo_state state;
  }

  state_at_block-Stamps : (state : StateProvider) → Stamps (state_at_block state)
  unfolding state_at_block
  state_at_block-Stamps state = record {
    stamped = λ e n ts tx li r by_address by_id contracts {m} made.
        let t = record new {
          pools_by_address = by_address;
          pools_by_id = by_id;
          balancer_pools_by_addr = contracts;
        } in
        let h =
          create_pool_update-Stamped state t n ts tx li r e
            (unpanicked-some (create_pool_update state t n ts tx li r e) made) in
        (h.numbered.0, h.directed);
  }

  unfoldable pub main_loop :
      (accepts : ControlMessage → Bool) (state : ℕ → StateProvider)
      → Exex
      → List Notification
      → Exex
  main_loop accepts state x ns = fold (handle accepts (λ n. state_at_block (state n))) x ns

  -- Whatever notifications come, of committed, reorged and reverted chains, whatever the whitelist does
  -- meanwhile and whatever storage holds (where a reader would panic, no update is made): the messages made for them are accepted, each in its turn, by a
  -- consumer that starts where the stream stood, between blocks, and leave it between blocks again, at the
  -- number where the stream then stands. So the numbers have no gap; blocks are reverted only between
  -- `ReorgStart` and `ReorgComplete`, and every `ReorgStart` gets its `ReorgComplete`; final states come
  -- outside blocks, within a reorg; every update names its block and whether it is reverted; and each end
  -- of a block counts its updates. The channel has those of the messages that it takes.
  pub main_loop-conforms :
      (accepts : ControlMessage → Bool) (state : ℕ → StateProvider) (x : Exex)
      (ns : List Notification)
      → let y = main_loop accepts state x ns in
        let free : ℕ → Consumer = λ seq. record { stream_seq = seq; phase = outside idle } in
        (made : List ControlMessage) × (conforms (free x.out.stream_seq) made
          ≡ some (free y.out.stream_seq))
        × (y.out.sent ≡ x.out.sent ++ retain accepts made)
  unfolding main_loop
  main_loop-conforms accepts state x ns =
      handle-conforms accepts (λ n. state_at_block (state n)) x ns
        (λ n. state_at_block-Stamps (state n))
