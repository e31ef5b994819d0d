-- ===== src/Hydration/Curve.antt =====
-- The hydrations of Curve pools in src/main.rs, each by its name, and the words and powers that they read.
-- Of a slot's arrays the entries that are written. Where a reader would panic, it answers nothing.
use reth_exex_liquidity.Common.{
  ℕ, ◌-◌, ◌/◌, ◌%◌, ◌^◌, leb, ltb, ◌==◌, ◌||◌, if◌then◌else◌, Option, none, some, List, [], ◌∷◌,
  length,
}
use reth_exex_liquidity.Common.Words.{u128_mod, ◌>>=◌}
use reth_exex_liquidity.Types.{Address, PoolMetadata, TokenMetadata}
use reth_exex_liquidity.Storage.State.{StateProvider}
use reth_exex_liquidity.Storage.Curve.{
  read_curve_stable_liquidity_state, read_twocrypto_full_state, read_tricrypto_full_state,
}
use reth_exex_liquidity.Hydration.Pools.{pool_address}

-- One entry of a stable pool's three arrays.
pub record StableCoin : Type 0 where
  pub coin : Address
  pub balance : ℕ
  pub rate_multiplier : ℕ

pub record CurveStableHydration : Type 0 where
  pub address : Address
  pub n_coins : ℕ
  pub fee : ℕ
  pub offpeg_fee_multiplier : ℕ
  pub initial_a : ℕ
  pub future_a : ℕ
  pub initial_a_time : ℕ
  pub future_a_time : ℕ
  pub coins : List StableCoin

-- The fields that both kinds of crypto pool have; the balances, scales, coins and precisions are lists of
-- two or three.
pub record CurveCryptoHydration : Type 0 where
  pub address : Address
  pub balances : List ℕ
  pub price_scale : List ℕ
  pub d : ℕ
  pub initial_a : ℕ
  pub initial_gamma : ℕ
  pub future_a : ℕ
  pub future_gamma : ℕ
  pub initial_a_gamma_time : ℕ
  pub future_a_gamma_time : ℕ
  pub mid_fee : ℕ
  pub out_fee : ℕ
  pub fee_gamma : ℕ
  pub coins : List Address
  pub precisions : List ℕ

unfoldable pub pool_tokens : PoolMetadata → Option (List TokenMetadata)
pool_tokens pool = pool.token0_decimals >>= λ d0. pool.token1_decimals >>= λ d1. some (
    record { address = pool.token0; decimals = d0 }
    ∷ record { address = pool.token1; decimals = d1 }
    ∷ pool.extra_tokens)

unfoldable pub u256_to_u128_checked : ℕ → Option ℕ
u256_to_u128_checked value = if ltb value u128_mod then some value else none

unfoldable pub pow10_u128 : ℕ → Option ℕ
pow10_u128 exp = if ltb (10 ^ exp) u128_mod then some (10 ^ exp) else none

unfoldable pub stable_rate_multiplier : (decimals : ℕ) → Option ℕ
unfolding pow10_u128
stable_rate_multiplier decimals = if leb decimals 36 then pow10_u128 (36 - decimals) else none

unfoldable pub crypto_precision : (decimals : ℕ) → Option ℕ
unfolding pow10_u128
crypto_precision decimals = if leb decimals 18 then pow10_u128 (18 - decimals) else none

-- gamma below, A above.
unfoldable pub unpack_packed_a_gamma : ℕ → Option (ℕ × ℕ)
unpack_packed_a_gamma packed =
    let a = packed / 2 ^ 128 in if ltb a (2 ^ 64) then some (a, packed % 2 ^ 128) else none

-- mid fee, out fee, fee gamma.
unfoldable pub unpack_packed_fee_params : ℕ → ℕ × ℕ × ℕ
unpack_packed_fee_params packed =
    (packed / 2 ^ 128 % 2 ^ 64, packed / 2 ^ 64 % 2 ^ 64, packed % 2 ^ 64)

-- The loop over the balances, beside the tokens; there are as many tokens at least.
unfoldable pub stable_coins : List TokenMetadata → List ℕ → Option (List StableCoin)
unfolding stable_rate_multiplier
stable_coins tokens [] = some []
stable_coins [] (balance ∷ balances) = none
stable_coins (t ∷ tokens) (balance ∷ balances) = stable_rate_multiplier t.decimals >>= λ multiplier.
    stable_coins tokens balances >>= λ rest.
    some (record { coin = t.address; balance = balance; rate_multiplier = multiplier } ∷ rest)

unfoldable pub precisions_of : List TokenMetadata → Option (List ℕ)
unfolding crypto_precision
precisions_of [] = some []
precisions_of (t ∷ tokens) = crypto_precision t.decimals >>= λ precision.
    precisions_of tokens >>= λ rest. some (precision ∷ rest)

module _ (state : StateProvider) where
  unfoldable pub curve_stable_hydration_from_snapshot : PoolMetadata → Option CurveStableHydration
  unfolding pool_address pool_tokens stable_coins
  curve_stable_hydration_from_snapshot pool = pool_address pool >>= λ addr.
      pool_tokens pool >>= λ tokens. read_curve_stable_liquidity_state state addr >>= λ scraped.
      let n = length scraped.effective_balances in
      (if n == 0 || ltb (length tokens) n
        then none
        else (stable_coins tokens scraped.effective_balances >>= λ coins. some (record {
          address = addr;
          n_coins = n % 2 ^ 8;
          fee = scraped.fee;
          offpeg_fee_multiplier = scraped.offpeg_fee_multiplier;
          initial_a = scraped.initial_a;
          future_a = scraped.future_a;
          initial_a_time = scraped.initial_a_time;
          future_a_time = scraped.future_a_time;
          coins = coins;
        })))

  unfoldable pub curve_twocrypto_hydration_from_snapshot :
      PoolMetadata → Option CurveCryptoHydration
  unfolding pool_address pool_tokens unpack_packed_a_gamma unpack_packed_fee_params
      u256_to_u128_checked precisions_of
  curve_twocrypto_hydration_from_snapshot pool = pool_address pool >>= λ addr.
      pool_tokens pool >>= λ tokens.
      read_twocrypto_full_state state addr pool.twocrypto_version >>= λ scraped.
      unpack_packed_a_gamma scraped.initial_a_gamma >>= λ initial.
      unpack_packed_a_gamma scraped.future_a_gamma >>= λ future.
      u256_to_u128_checked scraped.price_scale >>= λ price_scale.
      u256_to_u128_checked scraped.d >>= λ d.
      let fees = unpack_packed_fee_params scraped.packed_fee_params in
      elim tokens [
        | [] ↦ none
        | t0 ∷ r ↦ elim r [
          | [] ↦ none
          | t1 ∷ rest ↦ precisions_of (t0 ∷ t1 ∷ []) >>= λ precisions. some (record {
            address = addr;
            balances = scraped.balances.0 ∷ scraped.balances.1 ∷ [];
            price_scale = price_scale ∷ [];
            d = d;
            initial_a = initial.0;
            initial_gamma = initial.1;
            future_a = future.0;
            future_gamma = future.1;
            initial_a_gamma_time = scraped.initial_a_gamma_time;
            future_a_gamma_time = scraped.future_a_gamma_time;
            mid_fee = fees.0;
            out_fee = fees.1;
            fee_gamma = fees.2;
            coins = t0.address ∷ t1.address ∷ [];
            precisions = precisions;
          })
        ]
      ]

  unfoldable pub curve_tricrypto_hydration_from_snapshot :
      PoolMetadata → Option CurveCryptoHydration
  unfolding pool_address pool_tokens unpack_packed_a_gamma unpack_packed_fee_params
      u256_to_u128_checked precisions_of
  curve_tricrypto_hydration_from_snapshot pool = pool_address pool >>= λ addr.
      pool_tokens pool >>= λ tokens. read_tricrypto_full_state state addr >>= λ scraped.
      unpack_packed_a_gamma scraped.initial_a_gamma >>= λ initial.
      unpack_packed_a_gamma scraped.future_a_gamma >>= λ future.
      u256_to_u128_checked (scraped.packed_price_scale % 2 ^ 128) >>= λ scale0.
      u256_to_u128_checked (scraped.packed_price_scale / 2 ^ 128) >>= λ scale1.
      u256_to_u128_checked scraped.d >>= λ d.
      let fees = unpack_packed_fee_params scraped.packed_fee_params in
      elim tokens [
        | [] ↦ none
        | t0 ∷ r ↦ elim r [
          | [] ↦ none
          | t1 ∷ r' ↦ elim r' [
            | [] ↦ none
            | t2 ∷ rest ↦ precisions_of (t0 ∷ t1 ∷ t2 ∷ []) >>= λ precisions. some (record {
              address = addr;
              balances = scraped.balances.0 ∷ scraped.balances.1 ∷ scraped.balances.2 ∷ [];
              price_scale = scale0 ∷ scale1 ∷ [];
              d = d;
              initial_a = initial.0;
              initial_gamma = initial.1;
              future_a = future.0;
              future_gamma = future.1;
              initial_a_gamma_time = scraped.initial_a_gamma_time;
              future_a_gamma_time = scraped.future_a_gamma_time;
              mid_fee = fees.0;
              out_fee = fees.1;
              fee_gamma = fees.2;
              coins = t0.address ∷ t1.address ∷ t2.address ∷ [];
              precisions = precisions;
            })
          ]
        ]
      ]
