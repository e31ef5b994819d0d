-- ===== src/Storage/Curve.antt =====
-- The readers of Curve pools in src/main.rs. A word that does not fit its type panics: `none`.
use reth_exex_liquidity.Common.{
  ℕ, zero, suc, ◌+◌, ◌-◌, leb, if◌then◌else◌, Bool, false, Option, none, some, List, [], ◌∷◌,
}
use reth_exex_liquidity.Common.Words.{◌>>=◌}
use reth_exex_liquidity.Types.{Address}
use reth_exex_liquidity.Storage.State.{StateProvider, read_storage_slot, to_u128, to_u64}
use reth_exex_liquidity.Storage.Texts.{same_text}
use Prim.Native.String.{String}

pub record CurveStableSnapshot : Type 0 where
  pub effective_balances : List ℕ
  pub fee : ℕ
  pub offpeg_fee_multiplier : ℕ
  pub initial_a : ℕ
  pub future_a : ℕ
  pub initial_a_time : ℕ
  pub future_a_time : ℕ

pub record TwoCryptoSnapshot : Type 0 where
  pub balances : ℕ × ℕ
  pub price_scale : ℕ
  pub d : ℕ
  pub initial_a_gamma : ℕ
  pub initial_a_gamma_time : ℕ
  pub future_a_gamma : ℕ
  pub future_a_gamma_time : ℕ
  pub packed_fee_params : ℕ

pub record TricryptoSnapshot : Type 0 where
  pub balances : ℕ × ℕ × ℕ
  pub packed_price_scale : ℕ
  pub d : ℕ
  pub initial_a_gamma : ℕ
  pub initial_a_gamma_time : ℕ
  pub future_a_gamma : ℕ
  pub future_a_gamma_time : ℕ
  pub packed_fee_params : ℕ

pub record TwoCryptoStorageSlots : Type 0 where
  pub initial_a_gamma : ℕ
  pub initial_a_gamma_time : ℕ
  pub future_a_gamma : ℕ
  pub future_a_gamma_time : ℕ
  pub balance_0 : ℕ
  pub balance_1 : ℕ
  pub d : ℕ
  pub packed_fee_params : ℕ

unfoldable pub twocrypto_storage_slots : Option String → TwoCryptoStorageSlots
twocrypto_storage_slots version =
    let legacy : Bool = elim version [ none ↦ false | some v ↦ same_text v "v2.0.0" ] in
    if legacy
    then record {
      initial_a_gamma = 8;
      initial_a_gamma_time = 20;
      future_a_gamma = 10;
      future_a_gamma_time = 20;
      balance_0 = 12;
      balance_1 = 13;
      d = 14;
      packed_fee_params = 16;
    }
    else record {
      initial_a_gamma = 5;
      initial_a_gamma_time = 6;
      future_a_gamma = 7;
      future_a_gamma_time = 8;
      balance_0 = 9;
      balance_1 = 10;
      d = 11;
      packed_fee_params = 16;
    }

module _ (state : StateProvider) (address : Address) where
  unfoldable pub read_twocrypto_full_state : Option String → Option TwoCryptoSnapshot
  read_twocrypto_full_state version =
      let slots = twocrypto_storage_slots version in
      to_u128 (read_storage_slot state address slots.balance_0) >>= λ balance_0.
      to_u128 (read_storage_slot state address slots.balance_1) >>= λ balance_1.
      to_u64 (read_storage_slot state address slots.initial_a_gamma_time) >>= λ initial_time.
      to_u64 (read_storage_slot state address slots.future_a_gamma_time) >>= λ future_time.
      some (record {
        balances = (balance_0, balance_1);
        price_scale = read_storage_slot state address 1;
        d = read_storage_slot state address slots.d;
        initial_a_gamma = read_storage_slot state address slots.initial_a_gamma;
        initial_a_gamma_time = initial_time;
        future_a_gamma = read_storage_slot state address slots.future_a_gamma;
        future_a_gamma_time = future_time;
        packed_fee_params = read_storage_slot state address slots.packed_fee_params;
      })

  unfoldable pub read_tricrypto_full_state : Option TricryptoSnapshot
  read_tricrypto_full_state = to_u128 (read_storage_slot state address 11) >>= λ balance_0.
      to_u128 (read_storage_slot state address 12) >>= λ balance_1.
      to_u128 (read_storage_slot state address 13) >>= λ balance_2.
      to_u64 (read_storage_slot state address 8) >>= λ initial_time.
      to_u64 (read_storage_slot state address 10) >>= λ future_time. some (record {
        balances = (balance_0, balance_1, balance_2);
        packed_price_scale = read_storage_slot state address 3;
        d = read_storage_slot state address 14;
        initial_a_gamma = read_storage_slot state address 7;
        initial_a_gamma_time = initial_time;
        future_a_gamma = read_storage_slot state address 9;
        future_a_gamma_time = future_time;
        packed_fee_params = read_storage_slot state address 20;
      })

  -- Coins `i`, `i + 1` and so on, `left` of them: the stored balance less the admin's.
  unfoldable pub read_effective_balances : (i left : ℕ) → Option (List ℕ)
  read_effective_balances i zero = some []
  read_effective_balances i (suc left) =
      to_u128 (read_storage_slot state address (2 + i)) >>= λ stored.
      to_u128 (read_storage_slot state address (17 + i)) >>= λ admin.
      read_effective_balances (i + 1) left >>= λ rest. some ((stored - admin) ∷ rest)

  unfoldable pub read_curve_stable_liquidity_state : Option CurveStableSnapshot
  read_curve_stable_liquidity_state = to_u64 (read_storage_slot state address 1) >>= λ n_coins.
      read_effective_balances 0 (if leb n_coins 8 then n_coins else 8) >>= λ balances.
      to_u64 (read_storage_slot state address 10) >>= λ fee.
      to_u64 (read_storage_slot state address 11) >>= λ offpeg.
      to_u64 (read_storage_slot state address 12) >>= λ initial_a.
      to_u64 (read_storage_slot state address 13) >>= λ future_a.
      to_u64 (read_storage_slot state address 14) >>= λ initial_a_time.
      to_u64 (read_storage_slot state address 15) >>= λ future_a_time. some (record {
        effective_balances = balances;
        fee = fee;
        offpeg_fee_multiplier = offpeg;
        initial_a = initial_a;
        future_a = future_a;
        initial_a_time = initial_a_time;
        future_a_time = future_a_time;
      })
