-- ===== src/Storage/Ekubo.antt =====
-- The tick bitmap of an Ekubo pool in src/main.rs, and `read_ekubo_full_state`. How a tick is numbered in
-- the bitmap is another repository's crate: the word and index of a tick, and an offset.
use reth_exex_liquidity.Common.{
  ℕ, zero, suc, ◌+◌, ◌-◌, ◌*◌, ◌/◌, ◌%◌, ◌^◌, ltb, leb, ◌==◌, if◌then◌else◌, Bool, Option, none,
  some, List, [], ◌∷◌, ◌++◌,
}
use reth_exex_liquidity.Common.Int.{ℤ, pos, negsuc, sub_ℕ}
use reth_exex_liquidity.Common.Words.{add256, ◌>>=◌}
use reth_exex_liquidity.Types.{Address, PoolId}
use reth_exex_liquidity.Storage.Words.{decode_ekubo_tick_liquidity, ekubo_tick_slot}
use reth_exex_liquidity.Storage.State.{StateProvider, read_storage_slot, read_ekubo_state}
use reth_exex_liquidity.Storage.Bitmap.{times, wrap_i32, byte_at}

pub record EkuboTickBitmapSnapshot : Type 0 where
  pub sqrt_ratio : ℕ
  pub tick : ℤ
  pub liquidity : ℕ
  pub ticks : List (ℤ × ℕ × ℤ)
  pub tick_bitmaps : List (ℕ × ℕ)

abbrev pub ekubo_max_tick : ℕ
ekubo_max_tick = 88_722_835

abbrev pub ekubo_tick_in_range : ℤ → Bool
ekubo_tick_in_range (pos n) = leb n ekubo_max_tick
ekubo_tick_in_range (negsuc n) = ltb n ekubo_max_tick

abbrev pub ekubo_bitmaps_offset : ℕ
ekubo_bitmaps_offset = 0x3def450d0010a2fef515ce5eba4b363b5a0f42fdd4c53e1c737975db05a2e3a5

unfoldable pub ekubo_bitmap_slot : PoolId → (word : ℕ) → ℕ
ekubo_bitmap_slot i word = add256 (add256 i ekubo_bitmaps_offset) word

-- `u32` words from one on, so many.
abbrev pub numbers_from : (count lo : ℕ) → List ℕ
numbers_from zero lo = []
numbers_from (suc n) lo = lo ∷ numbers_from n (lo + 1)

module _ (ekubo_tick_to_word_and_index : ℤ → ℕ → ℕ × ℕ) (ekubo_bitmap_offset : ℕ) where
  unfoldable pub ekubo_word_and_index_to_tick : (word index tick_spacing : ℕ) → ℤ
  ekubo_word_and_index_to_tick word index s =
      wrap_i32 (times (sub_ℕ (word * 256 + index) ekubo_bitmap_offset) s)

  unfoldable pub generate_ekubo_word_positions : (tick_spacing : ℤ) → Option (ℕ × ℕ)
  generate_ekubo_word_positions (pos (suc s)) = some (
    (ekubo_tick_to_word_and_index (sub_ℕ 0 ekubo_max_tick) (suc s)).0,
    (ekubo_tick_to_word_and_index (pos ekubo_max_tick) (suc s)).0,
  )
  generate_ekubo_word_positions _ = none

  -- The bits of a byte from one on, with so many left.
  unfoldable pub ekubo_byte_ticks : (word s byte byte_idx left bit_in_byte : ℕ) → List ℤ
  unfolding ekubo_word_and_index_to_tick
  ekubo_byte_ticks word s byte i zero bit = []
  ekubo_byte_ticks word s byte i (suc left) bit =
      let rest = ekubo_byte_ticks word s byte i left (bit + 1) in
      let tick = ekubo_word_and_index_to_tick word (i * 8 + bit) s in
      if byte / 2 ^ bit % 2 == 0
      then rest
      else if ekubo_tick_in_range tick
      then tick ∷ rest
      else rest

  -- The bytes from the least significant on.
  unfoldable pub ekubo_bitmap_ticks : (word s bitmap left byte_idx : ℕ) → List ℤ
  unfolding ekubo_byte_ticks
  ekubo_bitmap_ticks word s bitmap zero i = []
  ekubo_bitmap_ticks word s bitmap (suc left) i =
      let rest = ekubo_bitmap_ticks word s bitmap left (i + 1) in
      if byte_at bitmap i == 0
      then rest
      else ekubo_byte_ticks word s (byte_at bitmap i) i 8 0 ++ rest

  unfoldable pub extract_ekubo_ticks_from_bitmap : (word bitmap tick_spacing : ℕ) → List ℤ
  unfolding ekubo_bitmap_ticks
  extract_ekubo_ticks_from_bitmap word bitmap s = ekubo_bitmap_ticks word s bitmap 32 0

  module _ (state : StateProvider) (ekubo_core : Address) (i : PoolId) where
    unfoldable pub read_ekubo_bitmaps : List ℕ → List (ℕ × ℕ)
    unfolding ekubo_bitmap_slot
    read_ekubo_bitmaps [] = []
    read_ekubo_bitmaps (w ∷ ws) =
        let rest = read_ekubo_bitmaps ws in
        let bitmap = read_storage_slot state ekubo_core (ekubo_bitmap_slot i w) in
        if bitmap == 0 then rest else (w, bitmap) ∷ rest

    unfoldable pub ekubo_tick_values : (tick_spacing : ℕ) → List (ℕ × ℕ) → List ℤ
    unfolding extract_ekubo_ticks_from_bitmap
    ekubo_tick_values s [] = []
    ekubo_tick_values s ((w, bitmap) ∷ rest) =
        extract_ekubo_ticks_from_bitmap w bitmap s ++ ekubo_tick_values s rest

    unfoldable pub read_ekubo_ticks : List ℤ → List (ℤ × ℕ × ℤ)
    read_ekubo_ticks [] = []
    read_ekubo_ticks (t ∷ ts) =
        let rest = read_ekubo_ticks ts in
        let value = read_storage_slot state ekubo_core (ekubo_tick_slot i t) in
        if value == 0 then rest else decode_ekubo_tick_liquidity t value ∷ rest

    -- A spacing of zero has no ticks; a negative one no answer.
    unfoldable pub read_ekubo_full_state : (tick_spacing : ℤ) → Option EkuboTickBitmapSnapshot
    unfolding generate_ekubo_word_positions read_ekubo_bitmaps ekubo_tick_values read_ekubo_ticks
    read_ekubo_full_state (pos zero) = read_ekubo_state state ekubo_core i >>= λ s. some (record {
      sqrt_ratio = s.sqrt_price_x96;
      tick = s.tick;
      liquidity = s.liquidity;
      ticks = [];
      tick_bitmaps = [];
    })
    read_ekubo_full_state (negsuc n) = none
    read_ekubo_full_state (pos (suc n)) = read_ekubo_state state ekubo_core i >>= λ s.
        generate_ekubo_word_positions (pos (suc n)) >>= λ (min_word, max_word).
        let bitmaps = read_ekubo_bitmaps (numbers_from (suc max_word - min_word) min_word) in
        some (record {
          sqrt_ratio = s.sqrt_price_x96;
          tick = s.tick;
          liquidity = s.liquidity;
          ticks = read_ekubo_ticks (ekubo_tick_values (suc n) bitmaps);
          tick_bitmaps = bitmaps;
        })
