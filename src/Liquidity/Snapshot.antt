-- ===== src/Liquidity/Snapshot.antt =====
-- What the loops of src/main.rs read besides their blocks: one held state snapshot, through the readers
-- of that file, and the log decoder of src/events.rs. Of the tracker `create_pool_update` reads the two
-- pool maps and the Balancer contracts.
use reth_exex_liquidity.Common.{ℕ, Bool, Option, List}
use reth_exex_liquidity.FluidConfig.{FluidPoolConfig}
use reth_exex_liquidity.Fluid.Decode.{FluidReserves}
use reth_exex_liquidity.Types.{Address, PoolId, PoolMetadata}
use reth_exex_liquidity.Wire.{PoolUpdateMessage, Slot0State}
use reth_exex_liquidity.Events.{Log, DecodedEvent}

pub record Snapshot : Type 0 where
  pub signature_hash : ℕ
  pub decode_log : Log → Option DecodedEvent
  pub create_pool_update :
      DecodedEvent
      → (block_number block_timestamp tx_index log_index : ℕ) (is_revert : Bool)
      → (pools_by_address : List (Address × PoolMetadata))
      → (pools_by_id : List (PoolId × PoolMetadata))
      → (balancer_pools_by_addr : List (Address × PoolId)) → Option PoolUpdateMessage
  pub decode_fluid_pool : FluidPoolConfig → (block_timestamp : ℕ) → Option FluidReserves
  pub read_v2_reserves : Address → ℕ × ℕ
  pub read_v3_slot0 : Address → Option Slot0State
  pub read_v4_slot0 : (pool_manager : Address) → PoolId → Option Slot0State
  pub read_ekubo_state : (ekubo_core : Address) → PoolId → Option Slot0State
