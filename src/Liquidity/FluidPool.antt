-- ===== src/Liquidity/FluidPool.antt =====
-- `decode_fluid_pool`, `fluid_update_msg` and `fluid_state_from_reserves` of src/main.rs: a touched
-- Fluid pool's storage words become its update. `state` is the snapshot's `storage` (the state
-- provider, a library's): `none` is its error, `some none` a slot that was never written.
use reth_exex_liquidity.Common.{
  ℕ, false, Option, none, some, List, [], ◌∷◌, ◌≡◌, refl, map, ap, arith,
}
use reth_exex_liquidity.Common.Words.{◌>>=◌}
use reth_exex_liquidity.Types.{Address, address, fluid}
use reth_exex_liquidity.Wire.{FluidState, PoolUpdateMessage, swap, fluid_state}
use reth_exex_liquidity.FluidConfig.{
  FluidPoolConfig, FluidStorageSlots, storage_reads, to_storage_slots,
}
use reth_exex_liquidity.Fluid.Decode.{FluidReserves, decode_fluid_reserves}

unfoldable pub fluid_state_from_reserves : FluidReserves → FluidState
fluid_state_from_reserves r = record {
  col_token0_real = r.col_token0_real_reserves;
  col_token1_real = r.col_token1_real_reserves;
  col_token0_imaginary = r.col_token0_imaginary_reserves;
  col_token1_imaginary = r.col_token1_imaginary_reserves;
  debt_token0_real = r.debt_token0_real_reserves;
  debt_token1_real = r.debt_token1_real_reserves;
  debt_token0_imaginary = r.debt_token0_imaginary_reserves;
  debt_token1_imaginary = r.debt_token1_imaginary_reserves;
  center_price = r.center_price;
  fee = r.fee;
}

unfoldable pub fluid_update_msg :
    Address → FluidReserves → (block_number block_timestamp : ℕ) → PoolUpdateMessage
unfolding fluid_state_from_reserves
fluid_update_msg pool reserves n t = record {
  pool_id = address pool;
  protocol = fluid;
  update_type = swap;
  block_number = n;
  block_timestamp = t;
  tx_index = 0;
  log_index = 0;
  is_revert = false;
  update = fluid_state (fluid_state_from_reserves reserves);
}

-- `values` is an array of eight.
unfoldable pub slots_of : List ℕ → Option FluidStorageSlots
slots_of (v0 ∷ v1 ∷ v2 ∷ v3 ∷ v4 ∷ v5 ∷ v6 ∷ v7 ∷ []) =
    some (to_storage_slots v0 v1 v2 v3 v4 v5 v6 v7)
slots_of _ = none

-- The rest of `decode_fluid_pool`, behind the reads; the outer `none` is a panic of
-- `decode_fluid_reserves`.
unfoldable pub decode_values :
    FluidPoolConfig → (block_timestamp : ℕ) → Option (List ℕ) → Option (Option FluidReserves)
decode_values config t none = some none
decode_values config t (some values) = elim (slots_of values) [
  | none ↦ some none
  | some slots ↦ decode_fluid_reserves slots config t
]

module _ (state : Address → ℕ → Option (Option ℕ)) where
  -- The loop that fills `values`.
  unfoldable pub read_all : List (Address × ℕ) → Option (List ℕ)
  read_all [] = some []
  read_all ((a, slot) ∷ reads) = do
    v ← state a slot
    vs ← read_all reads
    some (elim v [ none ↦ 0 | some x ↦ x ] ∷ vs)

  unfoldable pub decode_fluid_pool :
      FluidPoolConfig → (block_timestamp : ℕ) → Option (Option FluidReserves)
  decode_fluid_pool config t = decode_values config t (read_all (storage_reads config))

  -- The value of a slot, zero where it was never written.
  abbrev pub value_at : Address → ℕ → ℕ
  value_at a slot = elim (state a slot) [ none ↦ 0 | some v ↦ elim v [ none ↦ 0 | some x ↦ x ] ]

  read_all_answered :
      (reads : List (Address × ℕ))
      → ((a : Address) (slot : ℕ) → (v : Option ℕ) × (state a slot ≡ some v))
      → read_all reads ≡ some (map (λ r. value_at r.0 r.1) reads)
  unfolding read_all
  read_all_answered [] answers = refl
  read_all_answered ((a, slot) ∷ reads) answers =
      let (v, e) = answers a slot in ground (arith, e, read_all_answered reads answers)

  -- Where the snapshot answers every read, a pool's reserves are those of its two own words, slots
  -- 0 and 1 of the pool, and of the Liquidity Layer's six words at the slots that the pool's
  -- configuration names, each in its place; a slot that was never written counts as zero.
  pub decode_fluid_pool-storage :
      (config : FluidPoolConfig) (t : ℕ)
      → ((a : Address) (slot : ℕ) → (v : Option ℕ) × (state a slot ≡ some v))
      → let layer = value_at config.liquidity_address in
        decode_fluid_pool config t
        ≡ decode_fluid_reserves
            (record {
              dex_variables = value_at config.pool_address 0;
              dex_variables2 = value_at config.pool_address 1;
              exchange_price_token0 = layer config.exchange_price_token0_slot;
              exchange_price_token1 = layer config.exchange_price_token1_slot;
              supply_token0 = layer config.supply_token0_slot;
              supply_token1 = layer config.supply_token1_slot;
              borrow_token0 = layer config.borrow_token0_slot;
              borrow_token1 = layer config.borrow_token1_slot;
            })
            config
            t
  unfolding decode_fluid_pool decode_values slots_of to_storage_slots storage_reads
  decode_fluid_pool-storage config t answers =
      ap (decode_values config t) (read_all_answered (storage_reads config) answers)
