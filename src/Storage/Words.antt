-- ===== src/Storage/Words.antt =====
-- `decode_slot0_packed`, `decode_ekubo_state_packed`, `decode_tick_liquidity`,
-- `decode_ekubo_tick_liquidity` and `ekubo_tick_slot` of src/main.rs.
use reth_exex_liquidity.Common.{
  ℕ, ◌+◌, ◌-◌, ◌*◌, ◌/◌, ◌%◌, ◌^◌, ◌<◌, ◌≡◌, ap, arith, ltb, ◌==◌, if◌then◌else◌, Option, some, ◌≢◌,
}
use native.Mathlib.Nat.{mod-lt}
use reth_exex_liquidity.Common.Int.{ℤ, pos, negsuc}
use reth_exex_liquidity.Common.Words.{u128_mod, u256_mod, add256}
use reth_exex_liquidity.Types.{PoolId}

-- A word of `w = 2 * half` values, read as a signed number, and the word of such a number.
abbrev pub signed : ℕ → ℕ → ℤ
signed half x = if ltb x half then pos x else negsuc (2 * half - 1 - x)

abbrev pub word_of : ℕ → ℤ → ℕ
word_of half (pos n) = n
word_of half (negsuc n) = 2 * half - 1 - n

-- The numbers that such a word holds.
abbrev pub InRange : ℕ → ℤ → Type 0
InRange half (pos n) = n < half
InRange half (negsuc n) = n < half

pub signed-word_of : (half : ℕ) (z : ℤ) → InRange half z → signed half (word_of half z) ≡ z
signed-word_of half (pos n) h = ground arith
signed-word_of half (negsuc n) h = ground arith

pub word_of-lt : (half : ℕ) (z : ℤ) → InRange half z → word_of half z < 2 * half
word_of-lt half (pos n) h = omega arith
word_of-lt half (negsuc n) h = omega arith

-- The square root price and the tick, whose 24-bit sign is spread over an `i32`.
unfoldable pub decode_slot0_packed : ℕ → ℕ × ℤ
decode_slot0_packed value =
    let tick_raw = value / 2 ^ 160 % 2 ^ 24 in
    (
      value % 2 ^ 160,
      signed (2 ^ 31) (if tick_raw / 2 ^ 23 % 2 == 1 then tick_raw + 0xff000000 else tick_raw),
    )

-- sqrtRatio in the high 96 bits, then the tick, and the liquidity in the low 128 bits.
unfoldable pub decode_ekubo_state_packed : ℕ → ℕ × ℤ × ℕ
decode_ekubo_state_packed value =
    (value / 2 ^ 160 % 2 ^ 96, signed (2 ^ 31) (value / 2 ^ 128 % 2 ^ 32), value % 2 ^ 128)

-- liquidityGross and liquidityNet of a tick.
unfoldable pub decode_tick_liquidity : ℤ → ℕ → Option (ℤ × ℕ × ℤ)
decode_tick_liquidity tick value =
    some (tick, value % 2 ^ 128, signed (2 ^ 127) (value / 2 ^ 128 % u128_mod))

unfoldable pub decode_ekubo_tick_liquidity : ℤ → ℕ → ℤ × ℕ × ℤ
decode_ekubo_tick_liquidity tick value =
    (tick, value / 2 ^ 128 % u128_mod, signed (2 ^ 127) (value % 2 ^ 128))

-- In a `U256` a negative number is its two's complement.
unfoldable pub signed_i32_to_u256 : ℤ → ℕ
signed_i32_to_u256 (pos n) = n
signed_i32_to_u256 (negsuc n) = u256_mod - 1 - n

-- The word in which a pool of the Uniswap family keeps price and tick, and fields above them.
abbrev pub slot0_word : ℕ → ℤ → ℕ → ℕ
slot0_word sqrt_price tick rest = sqrt_price + word_of (2 ^ 23) tick * 2 ^ 160 + rest * 2 ^ 184

abbrev pub ekubo_word : ℕ → ℤ → ℕ → ℕ
ekubo_word sqrt_ratio tick liquidity =
    liquidity + word_of (2 ^ 31) tick * 2 ^ 128 + sqrt_ratio * 2 ^ 160

tick24 :
    (tick : ℤ)
    → InRange (2 ^ 23) tick
    → let raw = word_of (2 ^ 23) tick in
      signed (2 ^ 31) (if raw / 2 ^ 23 % 2 == 1 then raw + 0xff000000 else raw) ≡ tick
tick24 (pos n) h = ground arith
tick24 (negsuc n) h = ground arith

decode_slot0_packed-slot0_word :
    (sqrt_price : ℕ) (tick : ℤ) (rest : ℕ)
    → sqrt_price < 2 ^ 160
    → InRange (2 ^ 23) tick
    → decode_slot0_packed (slot0_word sqrt_price tick rest) ≡ (sqrt_price, tick)
unfolding decode_slot0_packed
decode_slot0_packed-slot0_word sqrt_price tick rest p h =
    let small = word_of-lt (2 ^ 23) tick h in
    let raw : slot0_word sqrt_price tick rest / 2 ^ 160 % 2 ^ 24 ≡ word_of (2 ^ 23) tick =
      omega arith in
    let price : slot0_word sqrt_price tick rest % 2 ^ 160 ≡ sqrt_price = omega arith in
    rw (raw, price) (ap (λ t. (sqrt_price, t)) (tick24 tick h))

decode_ekubo_state_packed-ekubo_word :
    (sqrt_ratio : ℕ) (tick : ℤ) (liquidity : ℕ)
    → sqrt_ratio < 2 ^ 96
    → InRange (2 ^ 31) tick
    → liquidity < 2 ^ 128
    → decode_ekubo_state_packed (ekubo_word sqrt_ratio tick liquidity)
      ≡ (sqrt_ratio, tick, liquidity)
unfolding decode_ekubo_state_packed
decode_ekubo_state_packed-ekubo_word sqrt_ratio tick liquidity p h q =
    let small = word_of-lt (2 ^ 31) tick h in
    let w = ekubo_word sqrt_ratio tick liquidity in
    let high : w / 2 ^ 160 % 2 ^ 96 ≡ sqrt_ratio = omega arith in
    let mid : w / 2 ^ 128 % 2 ^ 32 ≡ word_of (2 ^ 31) tick = omega arith in
    let lowest : w % 2 ^ 128 ≡ liquidity = omega arith in
    rw (high, mid, lowest) (ap (λ t. (sqrt_ratio, t, liquidity)) (signed-word_of (2 ^ 31) tick h))

-- The offset of Ekubo's tick storage, by its four 64-bit limbs, lowest first.
abbrev pub ekubo_ticks_offset : ℕ
ekubo_ticks_offset =
    0x8e7acd6efb28c568
    + 0xfca683928d56726d * 2 ^ 64
    + 0x174331cf5a3902d9 * 2 ^ 128
    + 0x435a5eb89a296820 * 2 ^ 192

unfoldable pub ekubo_tick_slot : PoolId → ℤ → ℕ
unfolding signed_i32_to_u256
ekubo_tick_slot i tick = add256 (add256 i ekubo_ticks_offset) (signed_i32_to_u256 tick)

shift_injective :
    (c a b : ℕ)
    → a < u256_mod
    → b < u256_mod
    → (c % u256_mod + a) % u256_mod ≡ (c % u256_mod + b) % u256_mod
    → a ≡ b
shift_injective c a b ha hb e =
    let small : c % u256_mod < u256_mod = mod-lt c (omega arith) in omega arith

signed_i32_to_u256-lt : (z : ℤ) → InRange (2 ^ 31) z → signed_i32_to_u256 z < u256_mod
unfolding signed_i32_to_u256
signed_i32_to_u256-lt (pos n) h = omega arith
signed_i32_to_u256-lt (negsuc n) h = omega arith

signed_i32_to_u256-injective :
    (y z : ℤ)
    → InRange (2 ^ 31) y
    → InRange (2 ^ 31) z
    → signed_i32_to_u256 y ≡ signed_i32_to_u256 z
    → y ≡ z
unfolding signed_i32_to_u256
signed_i32_to_u256-injective (pos n) (pos m) h k e = ap pos e
signed_i32_to_u256-injective (pos n) (negsuc m) h k e = absurd (omega arith)
signed_i32_to_u256-injective (negsuc n) (pos m) h k e = absurd (omega arith)
signed_i32_to_u256-injective (negsuc n) (negsuc m) h k e = ap negsuc (omega arith)

-- Two different ticks of an Ekubo pool, of 32 bits with a sign, are kept in different slots,
-- although the slot's number wraps at 2 ^ 256.
pub ekubo_tick_slot_distinct :
    (i : PoolId) (y z : ℤ)
    → InRange (2 ^ 31) y
    → InRange (2 ^ 31) z
    → y ≢ z
    → ekubo_tick_slot i y ≢ ekubo_tick_slot i z
unfolding ekubo_tick_slot
ekubo_tick_slot_distinct i y z h k ne = λ e. ne (
    signed_i32_to_u256-injective y z h k (
      shift_injective (i + ekubo_ticks_offset) _ _ (signed_i32_to_u256-lt y h)
        (signed_i32_to_u256-lt z k) e))

decode_tick_liquidity_words :
    (tick net : ℤ) (gross : ℕ)
    → gross < 2 ^ 128
    → InRange (2 ^ 127) net
    → (decode_tick_liquidity tick (gross + word_of (2 ^ 127) net * 2 ^ 128)
        ≡ some (tick, gross, net))
      × (decode_ekubo_tick_liquidity tick (gross * 2 ^ 128 + word_of (2 ^ 127) net)
          ≡ (tick, gross, net))
unfolding decode_tick_liquidity decode_ekubo_tick_liquidity
decode_tick_liquidity_words tick net gross h k =
    let n = word_of (2 ^ 127) net in
    let small : n < 2 * 2 ^ 127 = word_of-lt (2 ^ 127) net k in
    let net_back : (tick, gross, signed (2 ^ 127) n) ≡ (tick, gross, net) =
      ap (λ (z : ℤ). (tick, gross, z)) (signed-word_of (2 ^ 127) net k) in
    let low0 : (gross + n * 2 ^ 128) % 2 ^ 128 ≡ gross = omega arith in
    let high0 : (gross + n * 2 ^ 128) / 2 ^ 128 % u128_mod ≡ n = omega arith in
    let low1 : (gross * 2 ^ 128 + n) % 2 ^ 128 ≡ n = omega arith in
    let high1 : (gross * 2 ^ 128 + n) / 2 ^ 128 % u128_mod ≡ gross = omega arith in
    (rw (low0, high0) (ap some net_back), rw (low1, high1) net_back)

-- The packed words give back their fields, negative ones too: a slot0 word its square root price of 160 bits and its
-- tick of 24, whatever stands above them; an Ekubo state its square root ratio of 96 bits, its tick of 32 and its
-- liquidity of 128; and a tick's liquidity word, low half first for the Uniswap family and high half first for
-- Ekubo, the gross liquidity of 128 bits and the signed net liquidity of 128.
pub decode_state_words :
    (sqrt_price : ℕ) (tick : ℤ) (rest : ℕ) (sqrt_ratio : ℕ) (ekubo_tick : ℤ) (liquidity gross : ℕ)
    (net : ℤ)
    → sqrt_price < 2 ^ 160
    → InRange (2 ^ 23) tick
    → sqrt_ratio < 2 ^ 96
    → InRange (2 ^ 31) ekubo_tick
    → liquidity < 2 ^ 128
    → gross < 2 ^ 128
    → InRange (2 ^ 127) net
    → (decode_slot0_packed (slot0_word sqrt_price tick rest) ≡ (sqrt_price, tick))
      × (decode_ekubo_state_packed (ekubo_word sqrt_ratio ekubo_tick liquidity)
          ≡ (sqrt_ratio, ekubo_tick, liquidity))
      × (decode_tick_liquidity tick (gross + word_of (2 ^ 127) net * 2 ^ 128)
          ≡ some (tick, gross, net))
      × (decode_ekubo_tick_liquidity tick (gross * 2 ^ 128 + word_of (2 ^ 127) net)
          ≡ (tick, gross, net))
decode_state_words sqrt_price tick rest sqrt_ratio ekubo_tick liquidity gross net p h q k l m n =
    let (uniswap, ekubo) = decode_tick_liquidity_words tick net gross m n in
    (
      decode_slot0_packed-slot0_word sqrt_price tick rest p h,
      decode_ekubo_state_packed-ekubo_word sqrt_ratio ekubo_tick liquidity q k l,
      uniswap,
      ekubo,
    )
