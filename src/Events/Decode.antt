-- ===== src/Events/Decode.antt =====
-- `decode_log` of src/events.rs. The decoders that the `sol!` macro makes from the event declarations are
-- the interface `AbiDecoders`.
pub mod Written
use reth_exex_liquidity.Common.{
  ℕ, zero, suc, ◌+◌, ◌-◌, ◌*◌, ◌/◌, ◌%◌, ◌^◌, ltb, leb, ◌==◌, ◌&&◌, if◌then◌else◌, Bool, true,
  false, Option, none, some, List, [], ◌∷◌, ◌≡◌, refl, arith, length, map, All, subst,
}
use reth_exex_liquidity.Common.Int.{ℤ, pos, negsuc, sub_ℕ}
use reth_exex_liquidity.Common.Words.{◌>>=◌}
use reth_exex_liquidity.Types.{Address, PoolId}
use reth_exex_liquidity.Events.{
  Log, DecodedEvent, v2_swap, v2_mint, v2_burn, v2_sync, v3_swap, v3_mint, v3_burn, v4_swap,
  v4_modify_liquidity, ekubo_swap, ekubo_position_updated, curve_swap, curve_liquidity_change,
  curve_ramp_a, curve_apply_new_fee, two_crypto_swap, two_crypto_liquidity_change,
  two_crypto_ramp_agamma, two_crypto_new_parameters, fluid_operate, tricrypto_liquidity_change,
  balancer_swap, balancer_pool_balance_changed, balancer_fee_change,
}
use reth_exex_liquidity.Tracker.{ekubo_core, balancer_v2_vault}
use reth_exex_liquidity.Storage.Words.{signed, decode_ekubo_state_packed}

-- For each event whether or what its decoder reads: of a whole log, signature included, or of its data.
pub record AbiDecoders : Type 0 where
  pub v2_swap_ok : Log → Bool
  pub v2_mint_ok : Log → Bool
  pub v2_burn_ok : Log → Bool
  pub v2_sync_log : Log → Option (ℕ × ℕ)
  pub v3_swap_log : Log → Option (ℕ × ℕ × ℤ)
  pub pancake_v3_swap_log : Log → Option (ℕ × ℕ × ℤ)
  pub v3_mint_log : Log → Option (ℤ × ℤ × ℕ)
  pub v3_burn_log : Log → Option (ℤ × ℤ × ℕ)
  pub fluid_log_operate_log : Log → Option (Address × Address)
  pub v4_swap_signature : ℕ
  pub v4_swap_data : List ℕ → Option (ℕ × ℕ × ℤ)
  pub v4_modify_signature : ℕ
  pub v4_modify_data : List ℕ → Option (ℤ × ℤ × ℤ)
  pub curve_exchange_ok : Log → Bool
  pub curve_liquidity_ok : List (Log → Bool)
  pub curve_ramp_a_log : Log → Option (ℕ × ℕ × ℕ × ℕ)
  pub curve_apply_new_fee_log : Log → Option (ℕ × ℕ)
  pub two_crypto_exchange_ok : Log → Bool
  pub two_crypto_liquidity_ok : List (Log → Bool)
  pub two_crypto_ramp_agamma_log : Log → Option (ℕ × ℕ × ℕ × ℕ × ℕ × ℕ)
  pub two_crypto_new_parameters_log : Log → Option (ℕ × ℕ × ℕ)
  pub ekubo_position_signature : ℕ
  pub ekubo_position_data : List ℕ → Option (PoolId × ℕ × ℤ × ℕ)
  pub balancer_swap_signature : ℕ
  pub balancer_swap_data : List ℕ → Option (ℕ × ℕ)
  pub balancer_balance_signature : ℕ
  pub balancer_balance_data : List ℕ → Option (List Address × List ℤ)
  pub swap_fee_signature : ℕ
  pub swap_fee_ok : List ℕ → Bool
  pub tricrypto_liquidity_ok : List (Log → Bool)

-- `saturating_to` a type of `w` bits.
abbrev pub saturate_to : ℕ → ℕ → ℕ
saturate_to w n = if ltb n (2 ^ w) then n else 2 ^ w - 1

-- An `I256` as an `i128`: stopped at the greatest one on both sides.
unfoldable pub clamp_delta : ℤ → ℤ
clamp_delta (pos n) = pos (saturate_to 127 n)
clamp_delta (negsuc n) = sub_ℕ 0 (saturate_to 127 (suc n))

-- The bytes from a position on, as one number, most significant byte first.
unfoldable pub bytes_at : (start count : ℕ) → List ℕ → ℕ
bytes_at start count [] = 0
bytes_at (suc start) count (b ∷ bytes) = bytes_at start count bytes
bytes_at zero zero (b ∷ bytes) = 0
bytes_at zero (suc count) (b ∷ bytes) = b * 256 ^ count + bytes_at zero count bytes

unfoldable pub topic : ℕ → List ℕ → Option ℕ
topic n [] = none
topic zero (t ∷ ts) = some t
topic (suc n) (t ∷ ts) = topic n ts

-- `if let Ok(..) = .. { return Some(..) }`, one after the other.
unfoldable pub first_some : List (Option DecodedEvent) → Option DecodedEvent
first_some [] = none
first_some (none ∷ rest) = first_some rest
first_some (some e ∷ rest) = some e

abbrev pub when : Bool → DecodedEvent → Option DecodedEvent
when b e = if b then some e else none

-- What is read of a log's data, behind tests of its address and topics.
unfoldable pub guarded : {A : Type 0} → Bool → Option A → (A → DecodedEvent) → Option DecodedEvent
guarded b o f = if b then (o >>= λ x. some (f x)) else none

unfoldable pub any_ok : List (Log → Bool) → Log → Bool
any_ok [] log = false
any_ok (f ∷ fs) log = let rest = any_ok fs log in if f log then true else rest

-- Whether a topic is there and is this one.
abbrev pub topic_is : ℕ → List ℕ → ℕ → Bool
topic_is n topics hash = elim (topic n topics) [ none ↦ false | some t ↦ t == hash ]

abbrev pub topic_or_zero : ℕ → List ℕ → ℕ
topic_or_zero n topics = elim (topic n topics) [ none ↦ 0 | some t ↦ t ]

module _ (abi : AbiDecoders) (log : Log) where
  unfoldable pub v4_swap_attempt : Option DecodedEvent
  v4_swap_attempt =
      guarded (leb 3 (length log.topics) && topic_is 0 log.topics abi.v4_swap_signature)
        (abi.v4_swap_data log.payload) (λ x. v4_swap (topic_or_zero 1 log.topics) x.0 x.1 x.2)

  unfoldable pub v4_modify_attempt : Option DecodedEvent
  v4_modify_attempt =
      guarded (leb 3 (length log.topics) && topic_is 0 log.topics abi.v4_modify_signature)
        (abi.v4_modify_data log.payload)
        (λ x. v4_modify_liquidity (topic_or_zero 1 log.topics) x.0 x.1 (clamp_delta x.2))

  -- locker, poolId, balanceUpdate and stateAfter, in 116 bytes with no topic.
  unfoldable pub ekubo_swap_attempt : Option DecodedEvent
  ekubo_swap_attempt =
      guarded (log.address == ekubo_core && (length log.topics == 0 && length log.payload == 116))
        (some (decode_ekubo_state_packed (bytes_at 84 32 log.payload)))
        (λ state. ekubo_swap (bytes_at 20 32 log.payload) state.0 state.2 state.1)

  -- The ticks are the last eight bytes of the position id.
  unfoldable pub ekubo_position_attempt : Option DecodedEvent
  ekubo_position_attempt =
      guarded (log.address == ekubo_core && topic_is 0 log.topics abi.ekubo_position_signature)
        (abi.ekubo_position_data log.payload)
        (λ x.
          let state = decode_ekubo_state_packed x.3 in
          ekubo_position_updated x.0 (signed (2 ^ 31) (x.1 / 2 ^ 32 % 2 ^ 32))
            (signed (2 ^ 31) (x.1 % 2 ^ 32)) x.2 state.0 state.2 state.1)

  unfoldable pub balancer_swap_attempt : Option DecodedEvent
  balancer_swap_attempt =
      guarded
        (log.address == balancer_v2_vault
          && (leb 4 (length log.topics) && topic_is 0 log.topics abi.balancer_swap_signature))
        (abi.balancer_swap_data log.payload)
        (λ x.
          balancer_swap (topic_or_zero 1 log.topics) (topic_or_zero 2 log.topics % 2 ^ 160)
            (topic_or_zero 3 log.topics % 2 ^ 160) x.0 x.1)

  unfoldable pub balancer_balance_attempt : Option DecodedEvent
  balancer_balance_attempt =
      guarded
        (log.address == balancer_v2_vault
          && (leb 3 (length log.topics) && topic_is 0 log.topics abi.balancer_balance_signature))
        (abi.balancer_balance_data log.payload)
        (λ x. balancer_pool_balance_changed (topic_or_zero 1 log.topics) x.0 (map clamp_delta x.1))

  -- In the order in which the source tries them.
  unfoldable pub attempts : List (Option DecodedEvent)
  attempts =
      let pool = log.address in
      when (abi.v2_swap_ok log) (v2_swap pool)
      ∷ when (abi.v2_mint_ok log) (v2_mint pool)
      ∷ when (abi.v2_burn_ok log) (v2_burn pool)
      ∷ (abi.v2_sync_log log >>= λ x. some (v2_sync pool x.0 x.1))
      ∷ (abi.v3_swap_log log >>= λ x. some (v3_swap pool x.0 x.1 x.2))
      ∷ (abi.pancake_v3_swap_log log >>= λ x. some (v3_swap pool x.0 x.1 x.2))
      ∷ (abi.v3_mint_log log >>= λ x. some (v3_mint pool x.0 x.1 x.2))
      ∷ (abi.v3_burn_log log >>= λ x. some (v3_burn pool x.0 x.1 x.2))
      ∷ (abi.fluid_log_operate_log log >>= λ x. some (fluid_operate x.0 x.1))
      ∷ v4_swap_attempt
      ∷ v4_modify_attempt
      ∷ when (abi.curve_exchange_ok log) (curve_swap pool)
      ∷ when (any_ok abi.curve_liquidity_ok log) (curve_liquidity_change pool)
      ∷ (abi.curve_ramp_a_log log >>= λ x. some (
          curve_ramp_a pool (saturate_to 64 x.0) (saturate_to 64 x.1) (saturate_to 64 x.2)
            (saturate_to 64 x.3)))
      ∷ (abi.curve_apply_new_fee_log log >>= λ x.
          some (curve_apply_new_fee pool (saturate_to 64 x.0) (saturate_to 64 x.1)))
      ∷ when (abi.two_crypto_exchange_ok log) (two_crypto_swap pool)
      ∷ when (any_ok abi.two_crypto_liquidity_ok log) (two_crypto_liquidity_change pool)
      ∷ (abi.two_crypto_ramp_agamma_log log >>= λ x. some (
          two_crypto_ramp_agamma pool (saturate_to 64 x.0) (saturate_to 64 x.1)
            (saturate_to 128 x.2) (saturate_to 128 x.3) (saturate_to 64 x.4) (saturate_to 64 x.5)))
      ∷ (abi.two_crypto_new_parameters_log log >>= λ x. some (
          two_crypto_new_parameters pool (saturate_to 64 x.0) (saturate_to 64 x.1)
            (saturate_to 128 x.2)))
      ∷ ekubo_swap_attempt
      ∷ ekubo_position_attempt
      ∷ balancer_swap_attempt
      ∷ balancer_balance_attempt
      ∷ when (topic_is 0 log.topics abi.swap_fee_signature && abi.swap_fee_ok log.payload)
          (balancer_fee_change pool)
      ∷ when (any_ok abi.tricrypto_liquidity_ok log) (tricrypto_liquidity_change pool)
      ∷ []

  unfoldable pub decode_log : Option DecodedEvent
  decode_log = first_some attempts
