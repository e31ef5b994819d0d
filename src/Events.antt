-- ===== src/Events.antt =====
-- `DecodedEvent` of src/events.rs, logs, and the topic test for Fluid's `LogOperate`.
pub mod Decode
use reth_exex_liquidity.Common.{
  ℕ, ◌%◌, ◌^◌, Bool, false, Option, none, some, List, [], ◌∷◌, ◌==◌, ◌&&◌, if◌then◌else◌,
}
use reth_exex_liquidity.Common.Int.{ℤ}
use reth_exex_liquidity.Types.{Address, PoolId}

-- `alloy_primitives::Log`: the topics are 32-byte words, most significant byte first.
pub record Log : Type 0 where
  pub address : Address
  pub topics : List ℕ
  pub payload : List ℕ

-- The fields of a variant are its constructor's arguments, in the source's order.
pub data DecodedEvent : Type 0 where
  v2_swap v2_mint v2_burn : (pool : Address) → DecodedEvent
  v2_sync : (pool : Address) (reserve0 reserve1 : ℕ) → DecodedEvent
  v3_swap : (pool : Address) (sqrt_price_x96 liquidity : ℕ) (tick : ℤ) → DecodedEvent
  v3_mint v3_burn : (pool : Address) (tick_lower tick_upper : ℤ) (amount : ℕ) → DecodedEvent
  v4_swap : (pool_id : PoolId) (sqrt_price_x96 liquidity : ℕ) (tick : ℤ) → DecodedEvent
  v4_modify_liquidity :
      (pool_id : PoolId) (tick_lower tick_upper liquidity_delta : ℤ) → DecodedEvent
  ekubo_swap : (pool_id : PoolId) (sqrt_ratio liquidity : ℕ) (tick : ℤ) → DecodedEvent
  ekubo_position_updated :
      (pool_id : PoolId) (tick_lower tick_upper liquidity_delta : ℤ) (sqrt_ratio liquidity : ℕ)
      (tick : ℤ)
      → DecodedEvent
  curve_swap curve_liquidity_change : (pool : Address) → DecodedEvent
  curve_ramp_a : (pool : Address) (old_a new_a initial_time future_time : ℕ) → DecodedEvent
  curve_apply_new_fee : (pool : Address) (fee offpeg_fee_multiplier : ℕ) → DecodedEvent
  two_crypto_swap two_crypto_liquidity_change : (pool : Address) → DecodedEvent
  two_crypto_ramp_agamma :
      (pool : Address) (initial_a future_a initial_gamma future_gamma initial_time future_time : ℕ)
      → DecodedEvent
  two_crypto_new_parameters : (pool : Address) (mid_fee out_fee fee_gamma : ℕ) → DecodedEvent
  fluid_operate : (pool token : Address) → DecodedEvent
  tricrypto_liquidity_change : (pool : Address) → DecodedEvent
  balancer_swap :
      (pool_id : PoolId) (token_in token_out : Address) (amount_in amount_out : ℕ) → DecodedEvent
  balancer_pool_balance_changed :
      (pool_id : PoolId) (tokens : List Address) (deltas : List ℤ) → DecodedEvent
  balancer_fee_change : (pool : Address) → DecodedEvent

-- `topics[1].as_slice()[12..]`: the last 20 of the 32 bytes. The signature hash is a constant that
-- the `sol!` macro computes.
unfoldable pub fluid_log_operate_pool : (signature_hash : ℕ) → Log → Option Address
fluid_log_operate_pool signature_hash log = elim log.topics [
  | [] ↦ none
  | t0 ∷ rest ↦ elim rest [
    | [] ↦ none
    | t1 ∷ more ↦ if t0 == signature_hash then some (t1 % 2 ^ 160) else none
  ]
]

unfoldable pub is_fluid_log_operate_for_pool : (signature_hash : ℕ) → Log → Address → Bool
is_fluid_log_operate_for_pool signature_hash log pool = elim log.topics [
  | [] ↦ false
  | t0 ∷ rest ↦ elim rest [ [] ↦ false | t1 ∷ more ↦ t0 == signature_hash && t1 % 2 ^ 160 == pool ]
]
