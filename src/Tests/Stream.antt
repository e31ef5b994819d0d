-- ===== src/Tests/Stream.antt =====
-- The theorems on the event filter and on a committed block at sample logs.
use reth_exex_liquidity.Common.{
  ℕ, ◌+◌, Bool, true, false, none, some, List, [], ◌∷◌, ◌++◌, ◌≡◌, refl, length, retain, All,
}
use reth_exex_liquidity.Types.{Address, address, uniswap_v2}
use reth_exex_liquidity.Wire.{
  ControlMessage, PoolUpdateMessage, ping, end_block, begin_block, swap, v2_sync,
}
use reth_exex_liquidity.Events.{Log, DecodedEvent}
use reth_exex_liquidity.Events
use reth_exex_liquidity.Tracker.{fluid_liquidity_layer}
use reth_exex_liquidity.Liquidity.Filter.{
  should_process_event, subject, whitelisted, should_process_event-whitelisted,
}
use reth_exex_liquidity.Liquidity.Stream.{next_stream_seq, Numbered}
use reth_exex_liquidity.Liquidity.Snapshot.{Snapshot}
use reth_exex_liquidity.Liquidity.Block.{Block, Exex, commit_block}
use reth_exex_liquidity.Liquidity.Envelope.{commit_block-arrivals}
use reth_exex_liquidity.Liquidity.Batch.{IsUpdate, advance, commit_block-Numbered}
use reth_exex_liquidity.Tests.Samples.{
  filled, arrivals, sample_roles, sample-Directory, filled_reached,
}

-- A channel that loses every end message.
abbrev pub mostly : ControlMessage → Bool
mostly (end_block s n k) = false
mostly _ = true

abbrev pub sync_message : Address → (block timestamp tx log : ℕ) → PoolUpdateMessage
sync_message a n t tx log = record {
  pool_id = address a;
  protocol = uniswap_v2;
  update_type = swap;
  block_number = n;
  block_timestamp = t;
  tx_index = tx;
  log_index = log;
  is_revert = false;
  update = v2_sync 700 900;
}

-- Every log is a `Sync` of the contract that wrote it.
abbrev pub sync_snapshot : Snapshot
sync_snapshot = record {
  signature_hash = 3;
  decode_log = λ log. some (Events.v2_sync log.address 700 900);
  create_pool_update = λ e n t tx log r m i c. some (sync_message 1001 n t tx log);
  decode_fluid_pool = λ c t. none;
  read_v2_reserves = λ a. (700, 900);
  read_v3_slot0 = λ a. none;
  read_v4_slot0 = λ a i. none;
  read_ekubo_state = λ a i. none;
}

abbrev pub sample_block : Block
sample_block = record {
  number = 100;
  timestamp = 1_200;
  base_fee_per_gas = some 7;
  receipts =
      (record { address = 1001; topics = 1 ∷ []; payload = [] }
        ∷ record { address = 9; topics = []; payload = [] }
        ∷ [])
      ∷ (record { address = fluid_liquidity_layer; topics = 3 ∷ 1002 ∷ []; payload = [] } ∷ [])
      ∷ [];
}

abbrev pub sample_exex : Exex
sample_exex = record {
  pool_tracker = filled;
  out = record { stream_seq = 41; sent = ping ∷ [] };
  events_processed = 5;
  blocks_processed = 2;
}

commit_block-arrivals_example :
    let y = commit_block mostly sync_snapshot arrivals arrivals sample_block sample_exex in
    let z = commit_block mostly sync_snapshot [] [] sample_block sample_exex in
    (y.out ≡ z.out)
    × (y.events_processed ≡ z.events_processed)
    × (y.blocks_processed ≡ z.blocks_processed)
commit_block-arrivals_example =
    commit_block-arrivals mostly sync_snapshot arrivals arrivals sample_block sample_exex

commit_block-Numbered_example :
    let y = commit_block mostly sync_snapshot arrivals [] sample_block sample_exex in
    (us : List ControlMessage) × (let made =
        begin_block (next_stream_seq 41) 100 1_200 7 false ∷ us
        ++ end_block y.out.stream_seq 100 (length us) ∷ [] in
      All IsUpdate us
      × Numbered 41 made
      × (y.out.stream_seq ≡ advance 41 made)
      × (y.out.sent ≡ (ping ∷ []) ++ retain mostly made)
      × (y.events_processed ≡ 5 + length us))
commit_block-Numbered_example =
    commit_block-Numbered mostly sync_snapshot arrivals [] sample_block sample_exex

should_process_event-whitelisted_example :
    should_process_event (Events.v2_sync 1001 700 900) filled
    ≡ whitelisted filled (subject (Events.v2_sync 1001 700 900))
unfolding subject
should_process_event-whitelisted_example =
    should_process_event-whitelisted sample_roles sample-Directory (Events.v2_sync 1001 700 900)
      filled_reached refl
