-- ===== src/Liquidity/Update.antt =====
-- `create_pool_update` of src/main.rs: the message for a decoded event. The outer option is a panic of a
-- reader, on a storage word that does not fit its type.
pub mod Stamped
pub mod Deltas
pub mod Returns
use reth_exex_liquidity.Common.{
  ℕ, ◌+◌, ◌-◌, ◌^◌, ltb, Bool, true, false, Option, none, some, List, [], ◌∷◌, if◌then◌else◌,
}
use reth_exex_liquidity.Common.Words.{◌>>=◌}
use reth_exex_liquidity.Common.Int.{ℤ, pos, negsuc, sub_ℕ}
use reth_exex_liquidity.Types.{
  Address, PoolIdentifier, address, pool_id, Protocol, uniswap_v2, uniswap_v3, uniswap_v4, ekubo,
  curve_stable, curve_two_crypto, curve_tricrypto, balancer_v2_weighted, same_protocol,
  PoolMetadata,
}
use reth_exex_liquidity.Wire.{
  UpdateType, swap, mint, burn, PoolUpdate, PoolUpdateMessage, v2_sync, v3_liquidity, v4_liquidity,
  ekubo_liquidity, curve_liquidity, curve_fee_update, two_crypto_state, tricrypto_state,
  tricrypto_ramp_agamma, tricrypto_new_parameters, balancer_liquidity, balancer_fee_update,
}
use reth_exex_liquidity.Wire
use reth_exex_liquidity.Events.{
  DecodedEvent, v2_swap, v2_mint, v2_burn, v3_swap, v3_mint, v3_burn, v4_swap, v4_modify_liquidity,
  ekubo_swap, ekubo_position_updated, curve_swap, curve_liquidity_change, curve_ramp_a,
  curve_apply_new_fee, two_crypto_swap, two_crypto_liquidity_change, two_crypto_ramp_agamma,
  two_crypto_new_parameters, fluid_operate, tricrypto_liquidity_change, balancer_swap,
  balancer_pool_balance_changed, balancer_fee_change,
}
use reth_exex_liquidity.Events
use reth_exex_liquidity.Tracker.{PoolTracker}
use reth_exex_liquidity.Tracker.Updates.{
  get_protocol, pool_metadata, pool_metadata_by_id, balancer_pool_id_for_addr,
}
use reth_exex_liquidity.Storage.State.{StateProvider}
use reth_exex_liquidity.Storage.Curve.{
  CurveStableSnapshot, read_curve_stable_liquidity_state, read_twocrypto_full_state,
  read_tricrypto_full_state,
}
use reth_exex_liquidity.Storage.Balancer.{read_balancer_swap_fee_onchain}
use Prim.Native.String.{String}

-- `i128::try_from`, clamped.
unfoldable pub minted_delta : ℕ → ℤ
minted_delta amount = if ltb amount (2 ^ 127) then pos amount else pos (2 ^ 127 - 1)

unfoldable pub burnt_delta : ℕ → ℤ
burnt_delta amount = if ltb amount (2 ^ 127) then sub_ℕ 0 amount else negsuc (2 ^ 127 - 1)

-- `liquidity_delta > 0`.
unfoldable pub mint_or_burn : ℤ → UpdateType
mint_or_burn (pos n) = if ltb 0 n then mint else burn
mint_or_burn (negsuc n) = burn

unfoldable pub is_tricrypto : PoolTracker → Address → Bool
is_tricrypto t pool = elim (get_protocol t pool) [
  | none ↦ false
  | some p ↦ same_protocol p curve_tricrypto
]

unfoldable pub twocrypto_version_of : PoolTracker → Address → Option String
twocrypto_version_of t pool = elim (pool_metadata t pool) [
  | none ↦ none
  | some m ↦ m.twocrypto_version
]

abbrev pub crypto_protocol : Bool → Protocol
crypto_protocol true = curve_tricrypto
crypto_protocol false = curve_two_crypto

unfoldable pub stable_update : CurveStableSnapshot → PoolUpdate
stable_update s =
    curve_liquidity s.effective_balances s.fee s.offpeg_fee_multiplier s.initial_a s.future_a
      s.initial_a_time s.future_a_time

unfoldable pub tricrypto_update : StateProvider → Address → Option PoolUpdate
tricrypto_update state pool = read_tricrypto_full_state state pool >>= λ s.
    some (tricrypto_state s.balances s.packed_price_scale s.d)

unfoldable pub twocrypto_update : StateProvider → Address → Option String → Option PoolUpdate
twocrypto_update state pool version = read_twocrypto_full_state state pool version >>= λ s.
    some (two_crypto_state s.balances s.price_scale s.d)

module _ (state : StateProvider) (t : PoolTracker)
    (block_number block_timestamp tx_index log_index : ℕ) (is_revert : Bool) where
  unfoldable pub update_message :
      PoolIdentifier → Protocol → UpdateType → PoolUpdate → PoolUpdateMessage
  update_message i p u update = record {
    pool_id = i;
    protocol = p;
    update_type = u;
    block_number = block_number;
    block_timestamp = block_timestamp;
    tx_index = tx_index;
    log_index = log_index;
    is_revert = is_revert;
    update = update;
  }

  unfoldable pub some_update :
      PoolIdentifier → Protocol → UpdateType → PoolUpdate → Option (Option PoolUpdateMessage)
  unfolding update_message
  some_update i p u update = some (some (update_message i p u update))

  -- Both crypto kinds share their swap and liquidity events.
  unfoldable pub crypto_state_message : Address → UpdateType → Option (Option PoolUpdateMessage)
  crypto_state_message pool u =
      let tri = is_tricrypto t pool in
      let update : Option PoolUpdate =
        if tri
        then tricrypto_update state pool
        else twocrypto_update state pool (twocrypto_version_of t pool) in
      update >>= λ x. some_update (address pool) (crypto_protocol tri) u x

  unfoldable pub stable_state_message : Address → UpdateType → Option (Option PoolUpdateMessage)
  stable_state_message pool u = read_curve_stable_liquidity_state state pool >>= λ s.
      some_update (address pool) curve_stable u (stable_update s)

  unfoldable pub balancer_fee_message : Address → Option (Option PoolUpdateMessage)
  balancer_fee_message pool = elim (balancer_pool_id_for_addr t pool) [
    | none ↦ some none
    | some i ↦
        let version : Option String = elim (pool_metadata_by_id t i) [
          | none ↦ none
          | some m ↦ m.balancer_version
        ] in
        elim (read_balancer_swap_fee_onchain state pool version) [
          | none ↦ some none
          | some fee ↦ some_update (pool_id i) balancer_v2_weighted swap (balancer_fee_update fee)
        ]
  ]

  unfoldable pub create_pool_update : DecodedEvent → Option (Option PoolUpdateMessage)
  create_pool_update (v2_swap p) = some none
  create_pool_update (v2_mint p) = some none
  create_pool_update (v2_burn p) = some none
  create_pool_update (Events.v2_sync p r0 r1) =
      if is_revert then some none else some_update (address p) uniswap_v2 swap (v2_sync r0 r1)
  create_pool_update (v3_swap p s l k) =
      some_update (address p) uniswap_v3 swap (Wire.v3_swap s l k)
  create_pool_update (v3_mint p lo hi n) =
      some_update (address p) uniswap_v3 mint (v3_liquidity lo hi (minted_delta n))
  create_pool_update (v3_burn p lo hi n) =
      some_update (address p) uniswap_v3 burn (v3_liquidity lo hi (burnt_delta n))
  create_pool_update (v4_swap i s l k) =
      some_update (pool_id i) uniswap_v4 swap (Wire.v4_swap s l k)
  create_pool_update (v4_modify_liquidity i lo hi d) =
      some_update (pool_id i) uniswap_v4 (mint_or_burn d) (v4_liquidity lo hi d)
  create_pool_update (ekubo_swap i s l k) =
      some_update (pool_id i) ekubo swap (Wire.ekubo_swap s l k)
  create_pool_update (ekubo_position_updated i lo hi d s l k) =
      some_update (pool_id i) ekubo (mint_or_burn d) (ekubo_liquidity lo hi d s l k)
  create_pool_update (curve_swap p) = stable_state_message p swap
  create_pool_update (curve_liquidity_change p) = stable_state_message p mint
  create_pool_update (curve_ramp_a p o n i f) =
      some_update (address p) curve_stable swap (Wire.curve_ramp_a o n i f)
  create_pool_update (curve_apply_new_fee p f o) =
      some_update (address p) curve_stable swap (curve_fee_update f o)
  create_pool_update (two_crypto_swap p) = crypto_state_message p swap
  create_pool_update (two_crypto_liquidity_change p) = crypto_state_message p mint
  create_pool_update (two_crypto_ramp_agamma p a b c d e f) =
      let tri = is_tricrypto t p in
      some_update (address p) (crypto_protocol tri) swap
        (if tri then tricrypto_ramp_agamma a b c d e f else Wire.two_crypto_ramp_agamma a b c d e f)
  create_pool_update (two_crypto_new_parameters p m o g) =
      let tri = is_tricrypto t p in
      some_update (address p) (crypto_protocol tri) swap
        (if tri then tricrypto_new_parameters m o g else Wire.two_crypto_new_parameters m o g)
  create_pool_update (tricrypto_liquidity_change p) =
      tricrypto_update state p >>= λ x. some_update (address p) curve_tricrypto mint x
  create_pool_update (balancer_swap i a b c d) =
      some_update (pool_id i) balancer_v2_weighted swap (Wire.balancer_swap a b c d)
  create_pool_update (balancer_pool_balance_changed i ts ds) =
      some_update (pool_id i) balancer_v2_weighted mint (balancer_liquidity ts ds)
  create_pool_update (balancer_fee_change p) = balancer_fee_message p
  create_pool_update (fluid_operate p k) = some none
