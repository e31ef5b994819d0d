-- ===== src/Arena/Writer.antt =====
-- What src/shadow_apply.rs and src/shadow_arena.rs use of the crate `arena_writer`.
use reth_exex_liquidity.Common.{ℕ, Bool, Option, List}
use reth_exex_liquidity.Common.Int.{ℤ}
use reth_exex_liquidity.Types.{Address, PoolId, PoolIdentifier}
use reth_exex_liquidity.Wire.{FluidState}

pub data PoolTier : Type 0 where
  low active popular major : PoolTier

pub data WriterError : Type 0 where
  pool_not_found other_error : WriterError
  no_free_slots : PoolTier → WriterError

pub data Result (E A : Type 0) : Type 0 where
  ok : A → Result E A
  err : E → Result E A

-- The calls that change a pool's slot, with their arguments.
pub data Write : Type 0 where
  update_v2_reserves : Address → (reserve0 reserve1 : ℕ) → Write
  update_v3_slot0 : Address → (sqrt_price_x96 : ℕ) (tick : ℤ) (liquidity : ℕ) → Write
  update_v4_slot0 update_ekubo_slot0 :
      PoolId → (sqrt_price_x96 : ℕ) (tick : ℤ) (liquidity : ℕ) → Write
  update_v3_tick_liquidity : Address → (tick_lower tick_upper delta : ℤ) → Write
  update_v4_tick_liquidity update_ekubo_tick_liquidity :
      PoolId → (tick_lower tick_upper delta : ℤ) → Write
  update_curve_stable_state :
      Address
      → List ℕ
      → (fee offpeg_fee_multiplier initial_a future_a initial_a_time future_a_time : ℕ) → Write
  update_curve_stable_a : Address → (initial_a future_a initial_a_time future_a_time : ℕ) → Write
  update_curve_stable_fees : Address → (fee offpeg_fee_multiplier : ℕ) → Write
  update_curve_twocrypto_state : Address → (balance0 balance1 d price_scale : ℕ) → Write
  update_curve_twocrypto_a_gamma update_curve_tricrypto_a_gamma :
      Address → (initial_a initial_gamma future_a future_gamma initial_time future_time : ℕ) → Write
  update_curve_twocrypto_fees update_curve_tricrypto_fees :
      Address → (mid_fee out_fee fee_gamma : ℕ) → Write
  update_curve_tricrypto_state : Address → ℕ × ℕ × ℕ → (d : ℕ) → ℕ × ℕ → Write
  update_balancer_v2_balances : PoolId → List ℕ → Write
  update_balancer_v2_fee : PoolId → (swap_fee_percentage : ℕ) → Write
  update_fluid_reserves : Address → FluidState → Write

-- The slots of an arena `W`, and its header's signals.
pub record ArenaWriter (W : Type 0) : Type 0 where
  -- Whether there is such a slot.
  pub get_v2_pool : W → Address → Bool
  -- Of a slot's arrays the first `n_tokens` entries.
  pub get_balancer_v2_pool : W → PoolId → Option (List (Address × ℕ))
  -- The flag is that of a change of tick liquidity: the slot's tick array has overflowed.
  pub write : Write → W → W × Result WriterError Bool
  pub remove_pool : PoolIdentifier → W → W × Result WriterError Unit
  pub signal_topology_change : W → W
  pub signal_update_complete :
      (block_number applied : ℕ) (live_block_apply : Bool) (end_stream_seq : ℕ) → W → W
