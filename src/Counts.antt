-- ===== src/Counts.antt =====
-- The nine `usize` pool counters of `PoolTracker` (src/pool_tracker.rs), which stand side by side
-- in that struct and are a record of their own here. A counter of stored entries does not reach
-- 2 ^ 64, so `+= 1` is `+ 1`; `-= 1` wraps at 0, as in a release build.
use reth_exex_liquidity.Common.{ℕ, ◌+◌, ◌-◌, ◌^◌, ◌≡◌, refl, arith, ◌==◌, if◌then◌else◌, to_ℕ, ◌<◌}
use reth_exex_liquidity.Types.{
  Protocol, uniswap_v2, uniswap_v3, uniswap_v4, ekubo, curve_stable, curve_two_crypto,
  curve_tricrypto, balancer_v2_weighted, fluid, same_protocol,
}

pub record Counts : Type 0 where
  pub v2_count : ℕ
  pub v3_count : ℕ
  pub v4_count : ℕ
  pub ekubo_count : ℕ
  pub curve_stable_count : ℕ
  pub curve_twocrypto_count : ℕ
  pub curve_tricrypto_count : ℕ
  pub balancer_v2_count : ℕ
  pub fluid_count : ℕ

unfoldable pub zero_counts : Counts
zero_counts = record {
  v2_count = 0;
  v3_count = 0;
  v4_count = 0;
  ekubo_count = 0;
  curve_stable_count = 0;
  curve_twocrypto_count = 0;
  curve_tricrypto_count = 0;
  balancer_v2_count = 0;
  fluid_count = 0;
}

-- The counter that belongs to a protocol.
unfoldable pub count_of : Protocol → Counts → ℕ
count_of uniswap_v2 c = c.v2_count
count_of uniswap_v3 c = c.v3_count
count_of uniswap_v4 c = c.v4_count
count_of ekubo c = c.ekubo_count
count_of curve_stable c = c.curve_stable_count
count_of curve_two_crypto c = c.curve_twocrypto_count
count_of curve_tricrypto c = c.curve_tricrypto_count
count_of balancer_v2_weighted c = c.balancer_v2_count
count_of fluid c = c.fluid_count

-- The `match pool.protocol` of `add_pools`.
unfoldable pub increment : Protocol → Counts → Counts
increment uniswap_v2 c = record c { v2_count = c.v2_count + 1 }
increment uniswap_v3 c = record c { v3_count = c.v3_count + 1 }
increment uniswap_v4 c = record c { v4_count = c.v4_count + 1 }
increment ekubo c = record c { ekubo_count = c.ekubo_count + 1 }
increment curve_stable c = record c { curve_stable_count = c.curve_stable_count + 1 }
increment curve_two_crypto c = record c { curve_twocrypto_count = c.curve_twocrypto_count + 1 }
increment curve_tricrypto c = record c { curve_tricrypto_count = c.curve_tricrypto_count + 1 }
increment balancer_v2_weighted c = record c { balancer_v2_count = c.balancer_v2_count + 1 }
increment fluid c = record c { fluid_count = c.fluid_count + 1 }

abbrev minus_one : ℕ → ℕ
minus_one n = if n == 0 then 2 ^ 64 - 1 else n - 1

-- The `match pool.protocol` of `remove_pools`.
unfoldable pub decrement : Protocol → Counts → Counts
decrement uniswap_v2 c = record c { v2_count = minus_one c.v2_count }
decrement uniswap_v3 c = record c { v3_count = minus_one c.v3_count }
decrement uniswap_v4 c = record c { v4_count = minus_one c.v4_count }
decrement ekubo c = record c { ekubo_count = minus_one c.ekubo_count }
decrement curve_stable c = record c { curve_stable_count = minus_one c.curve_stable_count }
decrement curve_two_crypto c = record c {
  curve_twocrypto_count = minus_one c.curve_twocrypto_count;
}
decrement curve_tricrypto c = record c { curve_tricrypto_count = minus_one c.curve_tricrypto_count }
decrement balancer_v2_weighted c = record c { balancer_v2_count = minus_one c.balancer_v2_count }
decrement fluid c = record c { fluid_count = minus_one c.fluid_count }

pub count_of-zero_counts : (p : Protocol) → count_of p zero_counts ≡ 0
unfolding count_of zero_counts
count_of-zero_counts uniswap_v2 = refl
count_of-zero_counts _ = refl

-- One counter moves, by one.
pub count_of-increment :
    (p q : Protocol) (c : Counts)
    → count_of p (increment q c) ≡ to_ℕ (same_protocol q p) + count_of p c
unfolding count_of increment
count_of-increment uniswap_v2 q c = ground arith
count_of-increment _ q c = ground arith

-- Where the counter of the removed pool's protocol is positive, nothing wraps.
pub count_of-decrement :
    (p q : Protocol) (c : Counts)
    → 0 < count_of q c
    → to_ℕ (same_protocol q p) + count_of p (decrement q c) ≡ count_of p c
unfolding count_of decrement
count_of-decrement uniswap_v2 uniswap_v2 c h = ground arith
count_of-decrement _ _ c h = ground arith

pub fluid_count-decrement :
    (p : Protocol) (c : Counts)
    → 0 < count_of p c
    → 0 < (decrement p c).fluid_count
    → 0 < c.fluid_count
unfolding count_of
fluid_count-decrement p c h e = omega (arith, count_of-decrement fluid p c h)
