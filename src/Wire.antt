-- ===== src/Wire.antt =====
-- src/types.rs, second half: the messages on the Unix socket.
use reth_exex_liquidity.Common.{ℕ, Bool, Option, none, some, List}
use reth_exex_liquidity.Common.Int.{ℤ}
use reth_exex_liquidity.Types.{Address, PoolIdentifier, Protocol, PoolMetadata}
use Prim.Native.String.{String}

pub data UpdateType : Type 0 where
  swap mint burn : UpdateType

pub record Slot0State : Type 0 where
  pub sqrt_price_x96 : ℕ
  pub liquidity : ℕ
  pub tick : ℤ

pub record FluidState : Type 0 where
  pub col_token0_real : ℕ
  pub col_token1_real : ℕ
  pub col_token0_imaginary : ℕ
  pub col_token1_imaginary : ℕ
  pub debt_token0_real : ℕ
  pub debt_token1_real : ℕ
  pub debt_token0_imaginary : ℕ
  pub debt_token1_imaginary : ℕ
  pub center_price : ℕ
  pub fee : ℕ

-- The fields of a variant are its constructor's arguments, in the source's order.
pub data PoolUpdate : Type 0 where
  v2_swap v2_liquidity : (amount0 amount1 : ℤ) → PoolUpdate
  v3_swap : (sqrt_price_x96 liquidity : ℕ) (tick : ℤ) → PoolUpdate
  v3_liquidity : (tick_lower tick_upper liquidity_delta : ℤ) → PoolUpdate
  v4_swap : (sqrt_price_x96 liquidity : ℕ) (tick : ℤ) → PoolUpdate
  v4_liquidity : (tick_lower tick_upper liquidity_delta : ℤ) → PoolUpdate
  ekubo_swap : (sqrt_ratio liquidity : ℕ) (tick : ℤ) → PoolUpdate
  ekubo_liquidity :
      (tick_lower tick_upper liquidity_delta : ℤ) (sqrt_ratio liquidity : ℕ) (tick : ℤ) → PoolUpdate
  curve_swap : (sold_id tokens_sold bought_id tokens_bought : ℕ) → PoolUpdate
  curve_liquidity :
      (effective_balances : List ℕ)
      (fee offpeg_fee_multiplier initial_a future_a initial_a_time future_a_time : ℕ)
      → PoolUpdate
  curve_ramp_a : (initial_a future_a initial_a_time future_a_time : ℕ) → PoolUpdate
  curve_fee_update : (fee offpeg_fee_multiplier : ℕ) → PoolUpdate
  two_crypto_state : (balances : ℕ × ℕ) (price_scale d : ℕ) → PoolUpdate
  two_crypto_ramp_agamma :
      (initial_a future_a initial_gamma future_gamma initial_time future_time : ℕ) → PoolUpdate
  two_crypto_new_parameters : (mid_fee out_fee fee_gamma : ℕ) → PoolUpdate
  tricrypto_state : (balances : ℕ × ℕ × ℕ) (packed_price_scale d : ℕ) → PoolUpdate
  tricrypto_ramp_agamma :
      (initial_a future_a initial_gamma future_gamma initial_time future_time : ℕ) → PoolUpdate
  tricrypto_new_parameters : (mid_fee out_fee fee_gamma : ℕ) → PoolUpdate
  balancer_swap : (token_in token_out : Address) (amount_in amount_out : ℕ) → PoolUpdate
  balancer_liquidity : (tokens : List Address) (deltas : List ℤ) → PoolUpdate
  balancer_fee_update : (swap_fee_percentage : ℕ) → PoolUpdate
  fluid_state : (state : FluidState) → PoolUpdate
  v2_sync : (reserve0 reserve1 : ℕ) → PoolUpdate

pub data ReorgEpilogueUpdate : Type 0 where
  slot0_final : PoolIdentifier → Protocol → Slot0State → ReorgEpilogueUpdate
  fluid_state_final : PoolIdentifier → FluidState → ReorgEpilogueUpdate
  v2_reserves_final : PoolIdentifier → (reserve0 reserve1 : ℕ) → ReorgEpilogueUpdate

pub record PoolUpdateMessage : Type 0 where
  pub pool_id : PoolIdentifier
  pub protocol : Protocol
  pub update_type : UpdateType
  pub block_number : ℕ
  pub block_timestamp : ℕ
  pub tx_index : ℕ
  pub log_index : ℕ
  pub is_revert : Bool
  pub update : PoolUpdate

-- `types::WhitelistUpdate`, the socket's message (the tracker's own enum is in `Tracker`).
pub record WhitelistMessage : Type 0 where
  pub chain : String
  pub generated_at : String
  pub pools : List PoolMetadata

pub record ReorgRange : Type 0 where
  pub first_block : Option ℕ
  pub last_block : Option ℕ
  pub block_count : ℕ

pub data ControlMessage : Type 0 where
  update_whitelist : WhitelistMessage → ControlMessage
  begin_block :
      (stream_seq block_number block_timestamp base_fee_per_gas : ℕ) (is_revert : Bool)
      → ControlMessage
  pool_update : (stream_seq : ℕ) (event : PoolUpdateMessage) → ControlMessage
  end_block : (stream_seq block_number num_updates : ℕ) → ControlMessage
  ping pong : ControlMessage
  reorg_start : (stream_seq : ℕ) (old_range new_range : ReorgRange) → ControlMessage
  reorg_epilogue :
      (stream_seq final_tip_block final_tip_timestamp : ℕ) (update : ReorgEpilogueUpdate)
      → ControlMessage
  reorg_complete : (stream_seq final_tip_block : ℕ) → ControlMessage

-- `ControlMessage::stream_seq`.
unfoldable pub stream_seq : ControlMessage → Option ℕ
stream_seq (begin_block s n t f r) = some s
stream_seq (pool_update s e) = some s
stream_seq (end_block s n u) = some s
stream_seq (reorg_start s o n) = some s
stream_seq (reorg_epilogue s n t u) = some s
stream_seq (reorg_complete s n) = some s
stream_seq (update_whitelist w) = none
stream_seq ping = none
stream_seq pong = none
