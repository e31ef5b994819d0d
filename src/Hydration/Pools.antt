-- ===== src/Hydration/Pools.antt =====
-- The functions of src/main.rs that make a pool's hydration from a held state, each by its name, and the
-- records of src/shadow_arena.rs that they make, less those of the Curve pools. The readers are parameters
-- here; where a reader would panic, it answers nothing.
use reth_exex_liquidity.Common.{
  ℕ, ◌-◌, ◌%◌, ◌^◌, leb, ltb, ◌==◌, ◌&&◌, ◌||◌, if◌then◌else◌, Bool, false, not, Option, none, some,
  List, [], ◌∷◌, map, length, is_some,
}
use reth_exex_liquidity.Common.Int.{ℤ}
use reth_exex_liquidity.Common.Words.{◌>>=◌}
use reth_exex_liquidity.Common.Maps
use reth_exex_liquidity.Types.{Address, PoolId, PoolMetadata, as_address, as_pool_id}
use reth_exex_liquidity.FluidConfig.{FluidPoolConfig}
use reth_exex_liquidity.Fluid.Decode.{FluidReserves}
use reth_exex_liquidity.Tracker.{uniswap_v4_pool_manager, ekubo_core, pool_contract}
use reth_exex_liquidity.Storage.Balancer.{is_plausible_swap_fee}
use reth_exex_liquidity.Storage.Bitmap.{TickBitmapSnapshot}
use reth_exex_liquidity.Storage.Ekubo.{EkuboTickBitmapSnapshot}
use reth_exex_liquidity.Hydration.Tiers.{
  Capacities, TickPool, build_v3_pool, build_v4_pool, build_ekubo_pool,
}
use Prim.Native.String.{String}

pub record V2Hydration : Type 0 where
  pub address : Address
  pub token0 : Address
  pub token1 : Address
  pub reserve0 : ℕ
  pub reserve1 : ℕ
  pub token0_decimals : ℕ
  pub token1_decimals : ℕ

pub record UniswapV3Hydration : Type 0 where
  pub address : Address
  pub pool : TickPool ℤ

pub record UniswapV4Hydration : Type 0 where
  pub pool_id : PoolId
  pub pool : TickPool ℤ

pub record EkuboHydration : Type 0 where
  pub pool_id : PoolId
  pub pool : TickPool ℕ

pub record FluidHydration : Type 0 where
  pub address : Address
  pub token0 : Address
  pub token1 : Address
  pub token0_decimals : ℕ
  pub token1_decimals : ℕ
  pub col_token0_real : ℕ
  pub col_token1_real : ℕ
  pub col_token0_imaginary : ℕ
  pub col_token1_imaginary : ℕ
  pub debt_token0_real : ℕ
  pub debt_token1_real : ℕ
  pub debt_token0_imaginary : ℕ
  pub debt_token1_imaginary : ℕ
  pub center_price : ℕ
  pub fee : ℕ

pub record BalancerV2Hydration : Type 0 where
  pub pool_id : PoolId
  pub n_tokens : ℕ
  pub tokens : List Address
  pub weights : List ℕ
  pub scaling_factors : List ℕ
  pub swap_fee : ℕ
  pub balances : List ℕ

-- The readers over a held state.
pub record Readers : Type 0 where
  pub v2_reserves : Address → ℕ × ℕ
  pub v3_full_state :
      Address → (tick_spacing : ℤ) (factory : Option Address) → Option TickBitmapSnapshot
  pub v4_full_state :
      (pool_manager : Address) → PoolId → (tick_spacing : ℤ) → Option TickBitmapSnapshot
  pub ekubo_full_state :
      (ekubo_core : Address) → PoolId → (tick_spacing : ℤ) → Option EkuboTickBitmapSnapshot
  pub fluid_pool : FluidPoolConfig → (block_timestamp : ℕ) → Option FluidReserves
  pub balancer_swap_fee : Address → (version : Option String) → Option ℕ
  pub balancer_v2_balances : PoolId → List Address → Option (List ℕ)

unfoldable pub pool_address : PoolMetadata → Option Address
pool_address pool = as_address pool.pool_id

unfoldable pub pool_id_32 : PoolMetadata → Option PoolId
pool_id_32 pool = as_pool_id pool.pool_id

unfoldable pub v3_factory : PoolMetadata → Option Address
v3_factory pool = if pool.factory == 0 then none else some pool.factory

unfoldable pub singleton_contract_or : PoolMetadata → (fallback : Address) → Address
singleton_contract_or pool fallback = if pool.factory == 0 then fallback else pool.factory

abbrev pub undescribed : PoolMetadata → Option ℕ → Bool
undescribed pool fee =
    not (is_some pool.tick_spacing)
    || not (is_some fee)
    || not (is_some pool.token0_decimals)
    || not (is_some pool.token1_decimals)

abbrev pub any_zero : List ℕ → Bool
any_zero [] = false
any_zero (w ∷ ws) = w == 0 || any_zero ws

-- `none` from the first decimals above 18 on.
abbrev pub scaling_factors_of : List ℕ → Option (List ℕ)
scaling_factors_of [] = some []
scaling_factors_of (d ∷ ds) =
    if ltb 18 d then none else (scaling_factors_of ds >>= λ rest. some (10 ^ (18 - d) ∷ rest))

abbrev pub token_addresses : PoolMetadata → List Address
token_addresses pool = pool.token0 ∷ pool.token1 ∷ map (λ t. t.address) pool.extra_tokens

-- The largest token count that a Balancer slot of the arena's layout has.
module _ (r : Readers) (caps : Capacities) (max_tokens : ℕ) where
  unfoldable pub v2_hydration_from_snapshot : PoolMetadata → Option V2Hydration
  unfolding pool_address
  v2_hydration_from_snapshot pool = pool_address pool >>= λ addr. pool.token0_decimals >>= λ d0.
      pool.token1_decimals >>= λ d1. some (record {
        address = addr;
        token0 = pool.token0;
        token1 = pool.token1;
        reserve0 = (r.v2_reserves addr).0;
        reserve1 = (r.v2_reserves addr).1;
        token0_decimals = d0;
        token1_decimals = d1;
      })

  unfoldable pub v3_hydration_from_snapshot : PoolMetadata → Option UniswapV3Hydration
  unfolding pool_address v3_factory
  v3_hydration_from_snapshot pool = pool_address pool >>= λ addr.
      (if undescribed pool pool.fee
        then none
        else (pool.tick_spacing >>= λ spacing.
            r.v3_full_state addr spacing (v3_factory pool) >>= λ snapshot.
            build_v3_pool caps addr pool snapshot >>= λ arena_pool.
            some (record { address = addr; pool = arena_pool })))

  unfoldable pub v4_hydration_from_snapshot : PoolMetadata → Option UniswapV4Hydration
  unfolding pool_id_32 singleton_contract_or
  v4_hydration_from_snapshot pool = pool_id_32 pool >>= λ i.
      (if undescribed pool pool.fee
        then none
        else (pool.tick_spacing >>= λ spacing.
            r.v4_full_state (singleton_contract_or pool uniswap_v4_pool_manager) i spacing
            >>= λ snapshot. build_v4_pool caps i pool snapshot >>= λ arena_pool.
                some (record { pool_id = i; pool = arena_pool })))

  unfoldable pub ekubo_hydration_from_snapshot : PoolMetadata → Option EkuboHydration
  unfolding pool_id_32 singleton_contract_or
  ekubo_hydration_from_snapshot pool = pool_id_32 pool >>= λ i.
      (if undescribed pool pool.ekubo_fee || not (is_some pool.ekubo_type_config)
        then none
        else (pool.tick_spacing >>= λ spacing.
            r.ekubo_full_state (singleton_contract_or pool ekubo_core) i spacing >>= λ snapshot.
            build_ekubo_pool caps i pool snapshot >>= λ arena_pool.
            some (record { pool_id = i; pool = arena_pool })))

  -- `configs` is the tracker's map; a fee that does not fit a `u32` makes no hydration.
  unfoldable pub fluid_hydration_from_snapshot :
      List (Address × FluidPoolConfig)
      → (block_timestamp : ℕ) → PoolMetadata
      → Option FluidHydration
  unfolding pool_address
  fluid_hydration_from_snapshot configs ts pool = pool_address pool >>= λ addr.
      Maps.lookup addr configs >>= λ config. r.fluid_pool config ts >>= λ reserves.
      (if ltb reserves.fee (2 ^ 32) then some reserves.fee else none) >>= λ fee.
      pool.token0_decimals >>= λ d0. pool.token1_decimals >>= λ d1. some (record {
        address = addr;
        token0 = pool.token0;
        token1 = pool.token1;
        token0_decimals = d0;
        token1_decimals = d1;
        col_token0_real = reserves.col_token0_real_reserves;
        col_token1_real = reserves.col_token1_real_reserves;
        col_token0_imaginary = reserves.col_token0_imaginary_reserves;
        col_token1_imaginary = reserves.col_token1_imaginary_reserves;
        debt_token0_real = reserves.debt_token0_real_reserves;
        debt_token1_real = reserves.debt_token1_real_reserves;
        debt_token0_imaginary = reserves.debt_token0_imaginary_reserves;
        debt_token1_imaginary = reserves.debt_token1_imaginary_reserves;
        center_price = reserves.center_price;
        fee = fee;
      })

  -- The whitelist's fee where it is plausible, or else the one that is read.
  abbrev swap_fee_from : PoolId → PoolMetadata → Option ℕ
  swap_fee_from i pool =
      let read = r.balancer_swap_fee (pool_contract i) pool.balancer_version in
      elim pool.balancer_swap_fee [
        | none ↦ read
        | some fee ↦ if is_plausible_swap_fee fee then some fee else read
      ]

  unfoldable pub balancer_v2_hydration_from_snapshot : PoolMetadata → Option BalancerV2Hydration
  unfolding pool_id_32
  balancer_v2_hydration_from_snapshot pool =
      let tokens = token_addresses pool in
      let n = length tokens in
      pool_id_32 pool >>= λ i.
      (if not (leb 2 n && leb n max_tokens)
        then none
        else (pool.balancer_weights >>= λ weights.
            if not (length weights == n) || any_zero weights
            then none
            else (pool.token0_decimals >>= λ d0. pool.token1_decimals >>= λ d1.
                scaling_factors_of (d0 ∷ d1 ∷ map (λ t. t.decimals) pool.extra_tokens)
                >>= λ factors. swap_fee_from i pool >>= λ swap_fee.
                    r.balancer_v2_balances i tokens >>= λ balances. some (record {
                      pool_id = i;
                      n_tokens = n % 2 ^ 8;
                      tokens = tokens;
                      weights = weights;
                      scaling_factors = factors;
                      swap_fee = swap_fee;
                      balances = balances;
                    }))))
