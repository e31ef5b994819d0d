-- ===== src/Storage/Positions.antt =====
-- The positions of the bitmap's words in Storage/Bitmap: every tick within the limits has its word.
use reth_exex_liquidity.Common.{
  ℕ, zero, suc, ◌+◌, ◌-◌, ◌*◌, ◌/◌, ◌≤◌, ◌<◌, ◌≡◌, ◌⊎◌, inl, inr, arith, true, List, [], ◌∷◌, ◌++◌,
}
use native.Mathlib.Nat.{le-div_iff_mul-le}
use reth_exex_liquidity.Common.Int.{ℤ, pos, negsuc, sub_ℕ}
use reth_exex_liquidity.Storage.Bitmap.{
  max_tick, tick_in_range, shift_8, tick_to_word_pos, next_word, words_from, count_inclusive,
  compressed_at, times, wrap_i32,
}

-- The list has an entry equal to the value.
abbrev pub Among : {A : Type 0} → A → List A → Type 0
Among x [] = ⊥
Among x (y ∷ ys) = (x ≡ y) ⊎ Among x ys

pub Among-append_left : {A : Type 0} (x : A) (xs ys : List A) → Among x xs → Among x (xs ++ ys)
Among-append_left x [] ys h = elim h [ ]
Among-append_left x (y ∷ xs) ys (inl e) = inl e
Among-append_left x (y ∷ xs) ys (inr h) = inr (Among-append_left x xs ys h)

pub Among-append_right : {A : Type 0} (x : A) (xs ys : List A) → Among x ys → Among x (xs ++ ys)
Among-append_right x [] ys h = h
Among-append_right x (y ∷ xs) ys h = inr (Among-append_right x xs ys h)

count_step :
    (lo w : ℤ)
    → 0 < count_inclusive lo w
    → (w ≡ lo)
      ⊎ ((0 < count_inclusive (next_word lo) w)
          × (suc (count_inclusive (next_word lo) w) ≡ count_inclusive lo w))
unfolding count_inclusive
count_step (pos a) (pos b) h = ground arith
count_step (pos a) (negsuc b) h = ground arith
count_step (negsuc zero) (pos b) h = ground arith
count_step (negsuc (suc a)) (pos b) h = ground arith
count_step (negsuc zero) (negsuc b) h = ground arith
count_step (negsuc (suc a)) (negsuc b) h = ground arith

pub Among-words_from :
    (n : ℕ) (lo w : ℤ)
    → 0 < count_inclusive lo w
    → count_inclusive lo w ≤ n
    → Among w (words_from n lo)
unfolding words_from
Among-words_from zero lo w h k = absurd (omega arith)
Among-words_from (suc n) lo w h k = elim (count_step lo w h) [
  | inl e ↦ inl e
  | inr (more, e) ↦ inr (Among-words_from n (next_word lo) w more (omega (arith, e)))
]

pub wrap_i32_in_range : (z : ℤ) → tick_in_range z ≡ true → wrap_i32 z ≡ z
wrap_i32_in_range (pos n) h = ground arith
wrap_i32_in_range (negsuc n) h = ground arith

-- The first word is that of the greatest multiple of the spacing, negated.
pos_counted :
    (m n : ℕ)
    → n ≤ m / 256
    → let lo = shift_8 (sub_ℕ 0 m) in
      (0 < count_inclusive lo (pos n))
      × (count_inclusive lo (pos n) ≤ count_inclusive lo (pos (m / 256)))
unfolding count_inclusive
pos_counted zero n h = ground arith
pos_counted (suc m) n h = ground arith

negsuc_counted :
    (m n : ℕ)
    → suc n * 256 ≤ m + 255
    → let lo = shift_8 (sub_ℕ 0 m) in
      (0 < count_inclusive lo (negsuc n))
      × (count_inclusive lo (negsuc n) ≤ count_inclusive lo (pos (m / 256)))
unfolding count_inclusive
negsuc_counted zero n h = absurd (omega arith)
negsuc_counted (suc m) n h = ground arith

-- A tick within the limits has its word among the positions.
pub word_counted :
    (w : ℤ) (b s : ℕ)
    → b < 256
    → tick_in_range (times (compressed_at w b) (suc s)) ≡ true
    → let lo = tick_to_word_pos (sub_ℕ 0 max_tick) (suc s) in
      (0 < count_inclusive lo w)
      × (count_inclusive lo w ≤ count_inclusive lo (tick_to_word_pos (pos max_tick) (suc s)))
unfolding tick_to_word_pos
word_counted (pos n) b s h k =
    let below =
      (le-div_iff_mul-le {k = suc s} {x = n * 256 + b} {y = max_tick} (omega arith)).1
        (ground arith) in
    pos_counted (max_tick / suc s) n (omega arith)
word_counted (negsuc n) b s h k =
    let below =
      (le-div_iff_mul-le {k = suc s} {x = suc n * 256 - b} {y = max_tick} (omega arith)).1
        (ground arith) in
    negsuc_counted (max_tick / suc s) n (omega arith)
