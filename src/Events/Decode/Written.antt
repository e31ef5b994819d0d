-- ===== src/Events/Decode/Written.antt =====
-- Which contract an event of `decode_log` (src/events.rs) comes from.
use reth_exex_liquidity.Common.{Option, none, some, ◌≡◌}
use reth_exex_liquidity.Types.{Address}
use reth_exex_liquidity.Events.{
  Log, DecodedEvent, v2_swap, v2_mint, v2_burn, v2_sync, v3_swap, v3_mint, v3_burn, v4_swap,
  v4_modify_liquidity, ekubo_swap, ekubo_position_updated, curve_swap, curve_liquidity_change,
  curve_ramp_a, curve_apply_new_fee, two_crypto_swap, two_crypto_liquidity_change,
  two_crypto_ramp_agamma, two_crypto_new_parameters, fluid_operate, tricrypto_liquidity_change,
  balancer_swap, balancer_pool_balance_changed, balancer_fee_change,
}
use reth_exex_liquidity.Tracker.{ekubo_core, balancer_v2_vault}
use reth_exex_liquidity.Events.Decode.{AbiDecoders, v4_swap_attempt, v4_modify_attempt}

module _ (abi : AbiDecoders) (log : Log) where
  -- Who may have written the log of an event: for an event that names a pool by its address that
  -- contract, for Ekubo its core, for the Balancer vault's events the vault. The attempts for Uniswap V4
  -- read the same of the log of any other contract. Nothing is said of Fluid.
  abbrev pub Written : DecodedEvent → Type 0
  Written (v4_swap i s l k) =
      (c : Address) → v4_swap_attempt abi (record log { address = c }) ≡ v4_swap_attempt abi log
  Written (v4_modify_liquidity i lo hi d) =
      (c : Address) → v4_modify_attempt abi (record log { address = c }) ≡ v4_modify_attempt abi log
  Written (fluid_operate p t) = Unit
  Written (ekubo_swap i s l k) = log.address ≡ ekubo_core
  Written (ekubo_position_updated i lo hi d s l k) = log.address ≡ ekubo_core
  Written (balancer_swap i a b c d) = log.address ≡ balancer_v2_vault
  Written (balancer_pool_balance_changed i ts ds) = log.address ≡ balancer_v2_vault
  Written (v2_swap p) = log.address ≡ p
  Written (v2_mint p) = log.address ≡ p
  Written (v2_burn p) = log.address ≡ p
  Written (v2_sync p a b) = log.address ≡ p
  Written (v3_swap p s l k) = log.address ≡ p
  Written (v3_mint p lo hi n) = log.address ≡ p
  Written (v3_burn p lo hi n) = log.address ≡ p
  Written (curve_swap p) = log.address ≡ p
  Written (curve_liquidity_change p) = log.address ≡ p
  Written (curve_ramp_a p a b c d) = log.address ≡ p
  Written (curve_apply_new_fee p a b) = log.address ≡ p
  Written (two_crypto_swap p) = log.address ≡ p
  Written (two_crypto_liquidity_change p) = log.address ≡ p
  Written (two_crypto_ramp_agamma p a b c d e f) = log.address ≡ p
  Written (two_crypto_new_parameters p a b c) = log.address ≡ p
  Written (tricrypto_liquidity_change p) = log.address ≡ p
  Written (balancer_fee_change p) = log.address ≡ p

  abbrev WrittenIf : Option DecodedEvent → Type 0
  WrittenIf none = Unit
  WrittenIf (some e) = Written e
