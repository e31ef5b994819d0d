-- ===== src/Liquidity/Stream.antt =====
-- The numbered messages that src/main.rs puts on the socket's channel. `try_send` fails when the
-- channel is full; then the message is dropped, with its number. Which messages the channel takes
-- is the parameter `accepts`: a message holds its number, so any pattern of losses is such a
-- function.
use reth_exex_liquidity.Common.{
  ℕ, ◌+◌, ◌%◌, ◌^◌, Bool, none, some, List, [], ◌∷◌, ◌++◌, ◌≡◌, if◌then◌else◌, ltb, fold,
}
use reth_exex_liquidity.Wire.{ControlMessage, PoolUpdateMessage, ReorgRange, ReorgEpilogueUpdate}
use reth_exex_liquidity.Wire

-- `next_stream_seq`, with the `u64` wrap.
unfoldable pub next_stream_seq : ℕ → ℕ
next_stream_seq counter = (counter + 1) % 2 ^ 64

-- The counter, and the messages that the channel took, oldest first.
pub record Outgoing : Type 0 where
  pub stream_seq : ℕ
  pub sent : List ControlMessage

module _ (accepts : ControlMessage → Bool) where
  -- `self.socket_tx.try_send(msg)`, where a failure is logged only.
  unfoldable pub try_send : ControlMessage → Outgoing → Outgoing
  try_send msg o = if accepts msg then record o { sent = o.sent ++ msg ∷ [] } else o

  unfoldable pub send_begin_block :
      (block_number block_timestamp base_fee_per_gas : ℕ) (is_revert : Bool) → Outgoing → Outgoing
  send_begin_block n t fee r o =
      let seq = next_stream_seq o.stream_seq in
      try_send (Wire.begin_block seq n t fee r) (record o { stream_seq = seq })

  unfoldable pub send_pool_update : PoolUpdateMessage → Outgoing → Outgoing
  send_pool_update m o =
      let seq = next_stream_seq o.stream_seq in
      try_send (Wire.pool_update seq m) (record o { stream_seq = seq })

  unfoldable pub send_end_block : (block_number num_updates : ℕ) → Outgoing → Outgoing
  send_end_block n k o =
      let seq = next_stream_seq o.stream_seq in
      try_send (Wire.end_block seq n k) (record o { stream_seq = seq })

  unfoldable pub send_reorg_start : (old_range new_range : ReorgRange) → Outgoing → Outgoing
  send_reorg_start old new o =
      let seq = next_stream_seq o.stream_seq in
      try_send (Wire.reorg_start seq old new) (record o { stream_seq = seq })

  unfoldable pub send_reorg_epilogue :
      (final_tip_block final_tip_timestamp : ℕ) → ReorgEpilogueUpdate → Outgoing → Outgoing
  send_reorg_epilogue n t u o =
      let seq = next_stream_seq o.stream_seq in
      try_send (Wire.reorg_epilogue seq n t u) (record o { stream_seq = seq })

  -- Takes the number from its caller.
  unfoldable pub send_reorg_complete : (stream_seq final_tip_block : ℕ) → Outgoing → Outgoing
  send_reorg_complete seq n o = try_send (Wire.reorg_complete seq n) o

  -- The number that the arena's header is stamped with, and the channel.
  unfoldable pub finish_reorg : (final_tip_block : ℕ) → Outgoing → ℕ × Outgoing
  finish_reorg n o =
      let seq = next_stream_seq o.stream_seq in
      (seq, send_reorg_complete seq n (record o { stream_seq = seq }))

-- The loop of `block_range_summary_from_numbers`.
unfoldable pub widen : ReorgRange → ℕ → ReorgRange
widen r n = record {
  first_block = some (elim r.first_block [ none ↦ n | some cur ↦ if ltb cur n then cur else n ]);
  last_block = some (elim r.last_block [ none ↦ n | some cur ↦ if ltb cur n then n else cur ]);
  block_count = (r.block_count + 1) % 2 ^ 64;
}

unfoldable pub block_range_summary_from_numbers : List ℕ → ReorgRange
block_range_summary_from_numbers numbers =
    fold widen (record { first_block = none; last_block = none; block_count = 0 }) numbers

-- Each message of a list has the number after the one before it.
abbrev pub Numbered : ℕ → List ControlMessage → Type 0
Numbered s [] = Unit
Numbered s (m ∷ ms) =
    (Wire.stream_seq m ≡ some (next_stream_seq s)) × Numbered (next_stream_seq s) ms
