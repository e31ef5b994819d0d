-- ===== src/Liquidity/Reorg/Finals.antt =====
-- The messages behind the blocks of a reorg (src/main.rs): the final states of the Fluid pools, of the V2
-- pools and of the slot0 pools that it affected.
use reth_exex_liquidity.Common.{ℕ, Bool, Option, none, some, List, fold}
use reth_exex_liquidity.Types.{
  Address, PoolIdentifier, address, pool_id, Protocol, uniswap_v3, uniswap_v4, ekubo,
}
use reth_exex_liquidity.Wire.{
  ControlMessage, Slot0State, slot0_final, fluid_state_final, v2_reserves_final,
}
use reth_exex_liquidity.Tracker.{PoolTracker, uniswap_v4_pool_manager, ekubo_core}
use reth_exex_liquidity.Tracker.Updates.{fluid_config}
use reth_exex_liquidity.Liquidity.Stream.{Outgoing, send_reorg_epilogue}
use reth_exex_liquidity.Liquidity.FluidPool.{fluid_state_from_reserves}
use reth_exex_liquidity.Liquidity.Snapshot.{Snapshot}
use reth_exex_liquidity.Liquidity.Reorg.Revert.{Slot0Pool}

module _ (accepts : ControlMessage → Bool) (d : Snapshot) (final_tip_block timestamp : ℕ) where
  -- The loop over the touched Fluid pools.
  unfoldable pub fluid_final : PoolTracker → Outgoing → Address → Outgoing
  fluid_final t o pool = elim (fluid_config t pool) [
    | none ↦ o
    | some config ↦ elim (d.decode_fluid_pool config timestamp) [
      | none ↦ o
      | some reserves ↦
          send_reorg_epilogue accepts final_tip_block timestamp
            (fluid_state_final (address pool) (fluid_state_from_reserves reserves)) o
    ]
  ]

  unfoldable pub v2_final : Outgoing → Address → Outgoing
  v2_final o a =
      let reserves = d.read_v2_reserves a in
      send_reorg_epilogue accepts final_tip_block timestamp
        (v2_reserves_final (address a) reserves.0 reserves.1) o

  unfoldable pub send_v2_finals : List Address → Outgoing → Outgoing
  send_v2_finals affected o = fold v2_final o affected

  -- The `match` on identifier and protocol; `none` is also its `continue`.
  unfoldable pub read_slot0 : PoolIdentifier → Protocol → Option Slot0State
  read_slot0 (address a) uniswap_v3 = d.read_v3_slot0 a
  read_slot0 (address a) _ = none
  read_slot0 (pool_id i) uniswap_v4 = d.read_v4_slot0 uniswap_v4_pool_manager i
  read_slot0 (pool_id i) ekubo = d.read_ekubo_state ekubo_core i
  read_slot0 (pool_id i) _ = none

  unfoldable pub slot0_final_of : Outgoing → Slot0Pool → Outgoing
  slot0_final_of o p = elim (read_slot0 p.0 p.1) [
    | none ↦ o
    | some state ↦
        send_reorg_epilogue accepts final_tip_block timestamp (slot0_final p.0 p.1 state) o
  ]

  unfoldable pub send_slot0_finals : List Slot0Pool → Outgoing → Outgoing
  send_slot0_finals affected o = fold slot0_final_of o affected
