-- ===== src/Storage/Bits.antt =====
-- The bits of a bitmap's word in Storage/Bitmap: every bit that is set gives its tick.
use reth_exex_liquidity.Common.{
  ℕ, zero, suc, ◌+◌, ◌*◌, ◌/◌, ◌%◌, ◌^◌, ◌≤◌, ◌<◌, ◌≡◌, ◌≢◌, inl, inr, refl, ap, sym, ◌∙◌, subst,
  arith, ◌==◌, ==_iff, if_split, true, false, Bool-cases, List,
}
use native.Mathlib.Nat.{
  mod-lt, div-add-mod, div-div-eq-div-mul, pow-suc, two-pow-succ, zero-div, mul_comm, mul_assoc,
}
use reth_exex_liquidity.Common.Int.{ℤ}
use reth_exex_liquidity.Storage.Bitmap.{
  tick_in_range, tick_at, push_tick, byte_ticks, byte_at, bitmap_ticks,
  extract_ticks_from_bitmap_u256,
}
use reth_exex_liquidity.Storage.Positions.{Among, Among-append_left, Among-append_right}

low_bit : (x b : ℕ) → b < 8 → x % 256 / 2 ^ b % 2 ≡ x / 2 ^ b % 2
low_bit x zero h = omega arith
low_bit x (suc zero) h = omega arith
low_bit x (suc (suc zero)) h = omega arith
low_bit x (suc (suc (suc zero))) h = omega arith
low_bit x (suc (suc (suc (suc zero)))) h = omega arith
low_bit x (suc (suc (suc (suc (suc zero))))) h = omega arith
low_bit x (suc (suc (suc (suc (suc (suc zero)))))) h = omega arith
low_bit x (suc (suc (suc (suc (suc (suc (suc zero))))))) h = omega arith
low_bit x (suc (suc (suc (suc (suc (suc (suc (suc b)))))))) h = absurd (omega arith)

the_sum : (i b : ℕ) → suc i * 8 + b ≡ i * 8 + b + 8
the_sum i b = omega arith

eight_doubled : (n : ℕ) → 2 ^ (n + 8) ≡ 256 * 2 ^ n
eight_doubled n =
    let unary : n + 8 ≡ suc (suc (suc (suc (suc (suc (suc (suc n))))))) = omega arith in
    ap (λ m. 2 ^ m) unary
    ∙ omega (
      arith,
      two-pow-succ n,
      two-pow-succ (suc n),
      two-pow-succ (suc (suc n)),
      two-pow-succ (suc (suc (suc n))),
      two-pow-succ (suc (suc (suc (suc n)))),
      two-pow-succ (suc (suc (suc (suc (suc n))))),
      two-pow-succ (suc (suc (suc (suc (suc (suc n)))))),
      two-pow-succ (suc (suc (suc (suc (suc (suc (suc n))))))),
    )

pow_256 : (i b : ℕ) → 256 ^ i * 2 ^ b ≡ 2 ^ (i * 8 + b)
pow_256 zero b =
    let same : 2 ^ b ≡ 2 ^ (0 * 8 + b) = ap (λ m. 2 ^ m) (omega arith) in omega (arith, same)
pow_256 (suc i) b =
    let sum : i * 8 + b + 8 ≡ suc i * 8 + b = omega arith in
    ap (λ m. m * 2 ^ b) (pow-suc 256 i ∙ mul_comm (256 ^ i) 256)
    ∙ mul_assoc 256 (256 ^ i) (2 ^ b)
    ∙ ap (λ m. 256 * m) (pow_256 i b)
    ∙ sym (eight_doubled (i * 8 + b))
    ∙ ap (λ m. 2 ^ m) sum

byte_bit : (bitmap k : ℕ) → byte_at bitmap (k / 8) / 2 ^ (k % 8) % 2 ≡ bitmap / 2 ^ k % 2
byte_bit bitmap k =
    low_bit (bitmap / 256 ^ (k / 8)) (k % 8) (mod-lt k (omega arith))
    ∙ ap (λ n. n % 2)
        (div-div-eq-div-mul bitmap (256 ^ (k / 8)) (2 ^ (k % 8))
          ∙ ap (λ n. bitmap / n)
              (pow_256 (k / 8) (k % 8) ∙ ap (λ n. 2 ^ n) (omega (arith, div-add-mod k 8))))

Among-push_tick : (x t : ℤ) (rest : List ℤ) → Among x rest → Among x (push_tick t rest)
Among-push_tick x t rest h = if_split (Among x) (tick_in_range t) (λ e. inr h) (λ e. h)

push_tick_in_range : (t : ℤ) (rest : List ℤ) → tick_in_range t ≡ true → Among t (push_tick t rest)
push_tick_in_range t rest h =
    if_split (Among t) (tick_in_range t) (λ e. inl refl) (λ e. ground arith)

this_bit :
    (w : ℤ) (s byte i left b : ℕ)
    → byte / 2 ^ b % 2 ≡ 1
    → tick_in_range (tick_at w (i * 8 + b) s) ≡ true
    → Among (tick_at w (i * 8 + b) s) (byte_ticks w s byte i (suc left) b)
unfolding byte_ticks
this_bit w s byte i left b set fits =
    if_split (Among (tick_at w (i * 8 + b) s)) (byte / 2 ^ b % 2 == 0) (λ e. ground arith)
      (λ e. push_tick_in_range (tick_at w (i * 8 + b) s) _ fits)

Among-byte_ticks :
    (w : ℤ) (s byte i left bit b : ℕ)
    → bit ≤ b
    → b < bit + left
    → byte / 2 ^ b % 2 ≡ 1
    → tick_in_range (tick_at w (i * 8 + b) s) ≡ true
    → Among (tick_at w (i * 8 + b) s) (byte_ticks w s byte i left bit)
unfolding byte_ticks
Among-byte_ticks w s byte i zero bit b h k set fits = absurd (omega arith)
Among-byte_ticks w s byte i (suc left) bit b h k set fits =
    let later = λ (e : (bit == b) ≡ false).
      Among-byte_ticks w s byte i left (bit + 1) b (ground arith) (omega arith) set fits in
    elim (Bool-cases (bit == b)) [
      | inl e ↦
          subst (λ n. Among (tick_at w (i * 8 + b) s) (byte_ticks w s byte i (suc left) n))
            (sym ((==_iff bit b).0 e)) (this_bit w s byte i left b set fits)
      | inr e ↦
          if_split (Among (tick_at w (i * 8 + b) s)) (byte / 2 ^ bit % 2 == 0) (λ z. later e)
            (λ z. Among-push_tick _ (tick_at w (i * 8 + bit) s) _ (later e))
    ]

pub zero_bit : (b : ℕ) → 0 / 2 ^ b % 2 ≢ 1
zero_bit b e = omega (arith, e, zero-div (2 ^ b))

this_byte :
    (w : ℤ) (s bitmap left i b : ℕ)
    → b < 8
    → byte_at bitmap i / 2 ^ b % 2 ≡ 1
    → tick_in_range (tick_at w (i * 8 + b) s) ≡ true
    → Among (tick_at w (i * 8 + b) s) (bitmap_ticks w s bitmap (suc left) i)
unfolding bitmap_ticks
this_byte w s bitmap left i b l set fits =
    if_split (Among (tick_at w (i * 8 + b) s)) (byte_at bitmap i == 0)
      (λ e.
        absurd
          (zero_bit b (ap (λ n. n / 2 ^ b % 2) (sym ((==_iff (byte_at bitmap i) 0).0 e)) ∙ set)))
      (λ e.
        Among-append_left _ (byte_ticks w s (byte_at bitmap i) i 8 0) _
          (Among-byte_ticks w s (byte_at bitmap i) i 8 0 b (omega arith) (omega arith) set fits))

Among-bitmap_ticks :
    (w : ℤ) (s bitmap left idx i b : ℕ)
    → idx ≤ i
    → i < idx + left
    → b < 8
    → byte_at bitmap i / 2 ^ b % 2 ≡ 1
    → tick_in_range (tick_at w (i * 8 + b) s) ≡ true
    → Among (tick_at w (i * 8 + b) s) (bitmap_ticks w s bitmap left idx)
unfolding bitmap_ticks
Among-bitmap_ticks w s bitmap zero idx i b h k l set fits = absurd (omega arith)
Among-bitmap_ticks w s bitmap (suc left) idx i b h k l set fits =
    let later = λ (e : (idx == i) ≡ false).
      Among-bitmap_ticks w s bitmap left (idx + 1) i b (ground arith) (omega arith) l set fits in
    elim (Bool-cases (idx == i)) [
      | inl e ↦
          subst (λ n. Among (tick_at w (i * 8 + b) s) (bitmap_ticks w s bitmap (suc left) n))
            (sym ((==_iff idx i).0 e)) (this_byte w s bitmap left i b l set fits)
      | inr e ↦
          if_split (Among (tick_at w (i * 8 + b) s)) (byte_at bitmap idx == 0) (λ z. later e)
            (λ z. Among-append_right _ (byte_ticks w s (byte_at bitmap idx) idx 8 0) _ (later e))
    ]

-- A bit of a word of the bitmap gives its tick.
pub Among-extract_ticks :
    (w : ℤ) (s bitmap k : ℕ)
    → k < 256
    → bitmap / 2 ^ k % 2 ≡ 1
    → tick_in_range (tick_at w k s) ≡ true
    → Among (tick_at w k s) (extract_ticks_from_bitmap_u256 w bitmap s)
unfolding extract_ticks_from_bitmap_u256
Among-extract_ticks w s bitmap k h set fits =
    let split : k / 8 * 8 + k % 8 ≡ k = omega arith in
    subst (λ n. Among (tick_at w n s) (bitmap_ticks w s bitmap 32 0)) split
      (Among-bitmap_ticks w s bitmap 32 0 (k / 8) (k % 8) (omega arith) (omega arith)
        (mod-lt k (omega arith)) (byte_bit bitmap k ∙ set)
        (subst (λ n. tick_in_range (tick_at w n s) ≡ true) (sym split) fits))
