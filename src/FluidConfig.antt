-- ===== src/FluidConfig.antt =====
-- `FluidPoolConfig` and `FluidStorageSlots` of src/fluid_decoder.rs: where a Fluid pool's state
-- lies, and the eight words that are read from there.
use reth_exex_liquidity.Common.{ℕ, List, [], ◌∷◌}
use reth_exex_liquidity.Types.{Address}

pub record FluidPoolConfig : Type 0 where
  pub pool_address : Address
  pub liquidity_address : Address
  pub exchange_price_token0_slot : ℕ
  pub exchange_price_token1_slot : ℕ
  pub supply_token0_slot : ℕ
  pub supply_token1_slot : ℕ
  pub borrow_token0_slot : ℕ
  pub borrow_token1_slot : ℕ
  pub token0_numerator_precision : ℕ
  pub token0_denominator_precision : ℕ
  pub token1_numerator_precision : ℕ
  pub token1_denominator_precision : ℕ

pub record FluidStorageSlots : Type 0 where
  pub dex_variables : ℕ
  pub dex_variables2 : ℕ
  pub exchange_price_token0 : ℕ
  pub exchange_price_token1 : ℕ
  pub supply_token0 : ℕ
  pub supply_token1 : ℕ
  pub borrow_token0 : ℕ
  pub borrow_token1 : ℕ

-- The (address, slot) pairs of the eight reads.
unfoldable pub storage_reads : FluidPoolConfig → List (Address × ℕ)
storage_reads c =
    (c.pool_address, 0)
    ∷ (c.pool_address, 1)
    ∷ (c.liquidity_address, c.exchange_price_token0_slot)
    ∷ (c.liquidity_address, c.exchange_price_token1_slot)
    ∷ (c.liquidity_address, c.supply_token0_slot)
    ∷ (c.liquidity_address, c.supply_token1_slot)
    ∷ (c.liquidity_address, c.borrow_token0_slot)
    ∷ (c.liquidity_address, c.borrow_token1_slot)
    ∷ []

-- The array of eight values, in the order of `storage_reads`.
unfoldable pub to_storage_slots : (v0 v1 v2 v3 v4 v5 v6 v7 : ℕ) → FluidStorageSlots
to_storage_slots v0 v1 v2 v3 v4 v5 v6 v7 = record {
  dex_variables = v0;
  dex_variables2 = v1;
  exchange_price_token0 = v2;
  exchange_price_token1 = v3;
  supply_token0 = v4;
  supply_token1 = v5;
  borrow_token0 = v6;
  borrow_token1 = v7;
}
