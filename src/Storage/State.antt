-- ===== src/Storage/State.antt =====
-- The snapshot readers of src/main.rs: one storage slot, and the pool states that are packed in slots.
use reth_exex_liquidity.Common.{ℕ, ◌+◌, ◌/◌, ◌%◌, ◌^◌, ltb, ◌==◌, if◌then◌else◌, Option, none, some}
use reth_exex_liquidity.Common.Words.{u128_mod, u256_mod, ◌>>=◌}
use reth_exex_liquidity.Types.{Address, PoolId}
use reth_exex_liquidity.Wire.{Slot0State}
use reth_exex_liquidity.Storage.Words.{decode_slot0_packed, decode_ekubo_state_packed}

-- `StateProvider::storage` of a held snapshot: `none` is an error, `some none` an empty slot.
abbrev pub StateProvider : Type 0
StateProvider = Address → (slot : ℕ) → Option (Option ℕ)

unfoldable pub read_storage_slot : StateProvider → Address → ℕ → ℕ
read_storage_slot state a slot = elim (state a slot) [
  | none ↦ 0
  | some r ↦ elim r [ none ↦ 0 | some w ↦ w ]
]

-- `U256::to`: a value that does not fit panics.
abbrev pub to_u128 : ℕ → Option ℕ
to_u128 x = if ltb x u128_mod then some x else none

abbrev pub to_u64 : ℕ → Option ℕ
to_u64 x = if ltb x (2 ^ 64) then some x else none

module _ (state : StateProvider) where
  -- reserve0 and reserve1 of 112 bits each, in slot 8.
  unfoldable pub read_v2_reserves : Address → ℕ × ℕ
  read_v2_reserves a =
      let packed = read_storage_slot state a 8 in (packed % 2 ^ 112, packed / 2 ^ 112 % 2 ^ 112)

  -- Slot 4, or slot 5 where slot 4 holds more than 128 bits.
  unfoldable pub read_v3_liquidity : Address → Option ℕ
  read_v3_liquidity a =
      let liquidity_raw = read_storage_slot state a 4 in
      if liquidity_raw / 2 ^ 128 == 0
      then to_u128 liquidity_raw
      else to_u128 (read_storage_slot state a 5)

  abbrev pub slot0_state : ℕ → Option ℕ → Option (Option Slot0State)
  slot0_state slot0_raw liquidity = liquidity >>= λ l. some (
      some (record {
        sqrt_price_x96 = (decode_slot0_packed slot0_raw).0;
        liquidity = l;
        tick = (decode_slot0_packed slot0_raw).1;
      }))

  -- The outer option is a panic, the inner one the reader's answer.
  unfoldable pub read_v3_slot0 : Address → Option (Option Slot0State)
  read_v3_slot0 a =
      let slot0_raw = read_storage_slot state a 0 in
      if slot0_raw == 0 then some none else slot0_state slot0_raw (read_v3_liquidity a)

  -- keccak of the pool id and the slot of the pools' mapping comes from a library.
  unfoldable pub read_v4_slot0 :
      (v4_pool_base_slot : PoolId → ℕ) (pool_manager : Address)
      → PoolId
      → Option (Option Slot0State)
  read_v4_slot0 v4_pool_base_slot pool_manager i =
      let slot0_key = v4_pool_base_slot i in
      let slot0_raw = read_storage_slot state pool_manager slot0_key in
      if slot0_raw == 0
      then some none
      else slot0_state slot0_raw
          (to_u128 (read_storage_slot state pool_manager ((slot0_key + 3) % u256_mod)))

  unfoldable pub read_ekubo_state : (ekubo_core : Address) → PoolId → Option Slot0State
  read_ekubo_state ekubo_core i =
      let state_raw = read_storage_slot state ekubo_core i in
      let decoded = decode_ekubo_state_packed state_raw in
      if state_raw == 0
      then none
      else some (record { sqrt_price_x96 = decoded.0; liquidity = decoded.2; tick = decoded.1 })
