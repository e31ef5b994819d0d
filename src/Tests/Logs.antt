-- ===== src/Tests/Logs.antt =====
-- The theorem on `decode_log` at a `Sync` of a sample pool.
use reth_exex_liquidity.Common.{false, none, some, [], ◌∷◌}
use reth_exex_liquidity.Events.{Log}
use reth_exex_liquidity.Events.Decode.{AbiDecoders}

-- Of all events only `Sync` is declared, with topic 1 and the reserves as two entries.
abbrev sync_decoders : AbiDecoders
sync_decoders = record {
  v2_swap_ok = λ log. false;
  v2_mint_ok = λ log. false;
  v2_burn_ok = λ log. false;
  v2_sync_log = λ log. elim log.payload [
    | [] ↦ none
    | r0 ∷ rest ↦ elim rest [ [] ↦ none | r1 ∷ more ↦ some (r0, r1) ]
  ];
  v3_swap_log = λ log. none;
  pancake_v3_swap_log = λ log. none;
  v3_mint_log = λ log. none;
  v3_burn_log = λ log. none;
  fluid_log_operate_log = λ log. none;
  v4_swap_signature = 2;
  v4_swap_data = λ bytes. none;
  v4_modify_signature = 3;
  v4_modify_data = λ bytes. none;
  curve_exchange_ok = λ log. false;
  curve_liquidity_ok = [];
  curve_ramp_a_log = λ log. none;
  curve_apply_new_fee_log = λ log. none;
  two_crypto_exchange_ok = λ log. false;
  two_crypto_liquidity_ok = [];
  two_crypto_ramp_agamma_log = λ log. none;
  two_crypto_new_parameters_log = λ log. none;
  ekubo_position_signature = 4;
  ekubo_position_data = λ bytes. none;
  balancer_swap_signature = 5;
  balancer_swap_data = λ bytes. none;
  balancer_balance_signature = 6;
  balancer_balance_data = λ bytes. none;
  swap_fee_signature = 7;
  swap_fee_ok = λ bytes. false;
  tricrypto_liquidity_ok = [];
}

abbrev sync_log : Log
sync_log = record { address = 1001; topics = 1 ∷ []; payload = 700 ∷ 900 ∷ [] }
