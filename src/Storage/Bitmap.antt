-- ===== src/Storage/Bitmap.antt =====
-- The tick bitmaps of V3 and V4 pools in src/main.rs: where ticks stand in them, and the readers
-- `read_v3_full_state` and `read_v4_full_state`. keccak is a parameter.
use reth_exex_liquidity.Common.{
  ℕ, zero, suc, ◌+◌, ◌-◌, ◌*◌, ◌/◌, ◌%◌, ◌^◌, ltb, leb, ◌==◌, if◌then◌else◌, Bool, Option, none,
  some, List, [], ◌∷◌, ◌++◌,
}
use reth_exex_liquidity.Common.Int.{ℤ, pos, negsuc, sub_ℕ}
use reth_exex_liquidity.Common.Words.{u256_mod, ◌>>=◌}
use reth_exex_liquidity.Types.{Address, PoolId}
use reth_exex_liquidity.Storage.Words.{
  signed, decode_slot0_packed, decode_tick_liquidity, signed_i32_to_u256,
}
use reth_exex_liquidity.Storage.State.{StateProvider, read_storage_slot, to_u128}

abbrev pub max_tick : ℕ
max_tick = 887_272

-- `(MIN_TICK..=MAX_TICK).contains`.
abbrev pub tick_in_range : ℤ → Bool
tick_in_range (pos n) = leb n max_tick
tick_in_range (negsuc n) = ltb n max_tick

-- `>> 8` of a signed number, and a quotient that rounds to zero.
abbrev pub shift_8 : ℤ → ℤ
shift_8 (pos n) = pos (n / 256)
shift_8 (negsuc n) = negsuc (n / 256)

abbrev pub quotient : ℤ → ℕ → ℤ
quotient (pos n) s = pos (n / s)
quotient (negsuc n) s = sub_ℕ 0 (suc n / s)

-- A word of the bitmap is an `i16`, and every word of a tick within the limits is one.
unfoldable pub tick_to_word_pos : ℤ → (tick_spacing : ℕ) → ℤ
tick_to_word_pos tick s = shift_8 (quotient tick s)

abbrev pub next_word : ℤ → ℤ
next_word (pos n) = pos (suc n)
next_word (negsuc zero) = pos 0
next_word (negsuc (suc n)) = negsuc n

unfoldable pub words_from : (count : ℕ) → ℤ → List ℤ
words_from zero w = []
words_from (suc n) w = w ∷ words_from n (next_word w)

-- How many numbers there are from the first to the second.
unfoldable pub count_inclusive : ℤ → ℤ → ℕ
count_inclusive (pos a) (pos b) = suc b - a
count_inclusive (pos a) (negsuc b) = 0
count_inclusive (negsuc a) (pos b) = suc a + suc b
count_inclusive (negsuc a) (negsuc b) = suc a - b

abbrev pub words_between : ℤ → ℤ → List ℤ
words_between lo hi = words_from (count_inclusive lo hi) lo

unfoldable pub generate_word_positions : (tick_spacing : ℤ) → Option (List ℤ)
generate_word_positions (pos (suc s)) = some (
    words_between (tick_to_word_pos (sub_ℕ 0 max_tick) (suc s))
      (tick_to_word_pos (pos max_tick) (suc s)))
generate_word_positions _ = none

-- `(word_pos << 8) | bit_pos`.
abbrev pub compressed_at : (word_pos : ℤ) (bit_pos : ℕ) → ℤ
compressed_at (pos n) b = pos (n * 256 + b)
compressed_at (negsuc n) b = sub_ℕ 0 (suc n * 256 - b)

abbrev pub times : ℤ → ℕ → ℤ
times (pos n) s = pos (n * s)
times (negsuc n) s = sub_ℕ 0 (suc n * s)

-- What an `i32` keeps of a number.
abbrev pub wrap_i32 : ℤ → ℤ
wrap_i32 (pos n) = signed (2 ^ 31) (n % 2 ^ 32)
wrap_i32 (negsuc n) = signed (2 ^ 31) (2 ^ 32 - 1 - n % 2 ^ 32)

abbrev pub tick_at : (word_pos : ℤ) (bit_pos tick_spacing : ℕ) → ℤ
tick_at w b s = wrap_i32 (times (compressed_at w b) s)

abbrev pub push_tick : ℤ → List ℤ → List ℤ
push_tick tick rest = if tick_in_range tick then tick ∷ rest else rest

-- The bits of a byte from one on, with so many left.
unfoldable pub byte_ticks : (w : ℤ) (s byte byte_idx left bit_in_byte : ℕ) → List ℤ
byte_ticks w s byte i zero bit = []
byte_ticks w s byte i (suc left) bit =
    let rest = byte_ticks w s byte i left (bit + 1) in
    if byte / 2 ^ bit % 2 == 0 then rest else push_tick (tick_at w (i * 8 + bit) s) rest

abbrev pub byte_at : (bitmap byte_idx : ℕ) → ℕ
byte_at bitmap i = bitmap / 256 ^ i % 256

-- The bytes from the least significant on.
unfoldable pub bitmap_ticks : (w : ℤ) (s bitmap left byte_idx : ℕ) → List ℤ
bitmap_ticks w s bitmap zero i = []
bitmap_ticks w s bitmap (suc left) i =
    let rest = bitmap_ticks w s bitmap left (i + 1) in
    if byte_at bitmap i == 0 then rest else byte_ticks w s (byte_at bitmap i) i 8 0 ++ rest

unfoldable pub extract_ticks_from_bitmap_u256 : (word_pos : ℤ) (bitmap tick_spacing : ℕ) → List ℤ
extract_ticks_from_bitmap_u256 w bitmap s = bitmap_ticks w s bitmap 32 0

pub record TickBitmapSnapshot : Type 0 where
  pub sqrt_price_x96 : ℕ
  pub tick : ℤ
  pub liquidity : ℕ
  pub ticks : List (ℤ × ℕ × ℤ)
  pub tick_bitmaps : List (ℤ × ℕ)

pub record V3StorageSlots : Type 0 where
  pub slot0 : ℕ
  pub liquidity : ℕ
  pub ticks : ℕ
  pub tick_bitmap : ℕ

abbrev pub pancake_v3_factory_ethereum : Address
pancake_v3_factory_ethereum = 0x0BFbCF9fa4f9C56B0F40a671Ad40E0805A091865

unfoldable pub v3_slots_for_factory : Option Address → V3StorageSlots
v3_slots_for_factory factory =
    let vanilla : V3StorageSlots = record {
      slot0 = 0;
      liquidity = 4;
      ticks = 5;
      tick_bitmap = 6;
    } in
    elim factory [
      | none ↦ vanilla
      | some a ↦
          if a == pancake_v3_factory_ethereum
          then record { slot0 = 0; liquidity = 5; ticks = 6; tick_bitmap = 7 }
          else vanilla
    ]

-- The loops of the two readers, over the words of a contract's bitmap and the words of its ticks.
module _ (bitmap_word tick_word : ℤ → ℕ) where
  unfoldable pub read_bitmaps : List ℤ → List (ℤ × ℕ)
  read_bitmaps [] = []
  read_bitmaps (w ∷ ws) =
      let rest = read_bitmaps ws in if bitmap_word w == 0 then rest else (w, bitmap_word w) ∷ rest

  unfoldable pub tick_values : (tick_spacing : ℕ) → List (ℤ × ℕ) → List ℤ
  tick_values s [] = []
  tick_values s ((w, bitmap) ∷ rest) =
      extract_ticks_from_bitmap_u256 w bitmap s ++ tick_values s rest

  unfoldable pub read_ticks : List ℤ → Option (List (ℤ × ℕ × ℤ))
  read_ticks [] = some []
  read_ticks (t ∷ ts) =
      if tick_word t == 0
      then read_ticks ts
      else (decode_tick_liquidity t (tick_word t) >>= λ x. read_ticks ts >>= λ xs. some (x ∷ xs))

  unfoldable pub snapshot_over :
      (slot0_raw liquidity tick_spacing : ℕ) → List ℤ → Option TickBitmapSnapshot
  snapshot_over slot0_raw l s ws = read_ticks (tick_values s (read_bitmaps ws)) >>= λ ts.
      some (record {
        sqrt_price_x96 = (decode_slot0_packed slot0_raw).0;
        tick = (decode_slot0_packed slot0_raw).1;
        liquidity = l;
        ticks = ts;
        tick_bitmaps = read_bitmaps ws;
      })

  -- What both make of a slot0 word that is not zero, of the liquidity's word and the spacing.
  unfoldable pub tick_snapshot :
      (slot0_raw liquidity_raw : ℕ) (tick_spacing : ℤ) → Option TickBitmapSnapshot
  tick_snapshot slot0_raw liquidity_raw (pos s) =
      to_u128 liquidity_raw >>= λ l. generate_word_positions (pos s) >>= snapshot_over slot0_raw l s
  tick_snapshot slot0_raw liquidity_raw (negsuc s) = none

-- The hash of two words in a row.
module _ (keccak_slot : ℕ → ℕ → ℕ) where
  unfoldable pub v3_bitmap_slot : (word_pos : ℤ) (mapping_slot : ℕ) → ℕ
  v3_bitmap_slot w m = keccak_slot (signed_i32_to_u256 w) m

  unfoldable pub v3_tick_slot : (tick : ℤ) (mapping_slot : ℕ) → ℕ
  v3_tick_slot t m = keccak_slot (signed_i32_to_u256 t) m

  -- The pools' mapping is in slot 6.
  unfoldable pub v4_mapping_slot : PoolId → (offset : ℕ) → ℕ
  v4_mapping_slot i offset = (keccak_slot i 6 + offset) % u256_mod

  unfoldable pub v4_bitmap_slot : PoolId → (word_pos : ℤ) → ℕ
  v4_bitmap_slot i w = keccak_slot (signed_i32_to_u256 w) (v4_mapping_slot i 5)

  unfoldable pub v4_tick_slot : PoolId → (tick : ℤ) → ℕ
  v4_tick_slot i t = keccak_slot (signed_i32_to_u256 t) (v4_mapping_slot i 4)

module _ (keccak_slot : ℕ → ℕ → ℕ) (state : StateProvider) where
  unfoldable pub read_v3_full_state :
      Address → (tick_spacing : ℤ) (factory : Option Address) → Option TickBitmapSnapshot
  read_v3_full_state a s factory =
      let slots = v3_slots_for_factory factory in
      let slot0_raw = read_storage_slot state a slots.slot0 in
      if slot0_raw == 0
      then none
      else tick_snapshot
          (λ w. read_storage_slot state a (v3_bitmap_slot keccak_slot w slots.tick_bitmap))
          (λ t. read_storage_slot state a (v3_tick_slot keccak_slot t slots.ticks)) slot0_raw
          (read_storage_slot state a slots.liquidity) s

  unfoldable pub read_v4_full_state :
      (pool_manager : Address) → PoolId → (tick_spacing : ℤ) → Option TickBitmapSnapshot
  read_v4_full_state manager i s =
      let slot0_raw = read_storage_slot state manager (v4_mapping_slot keccak_slot i 0) in
      if slot0_raw == 0
      then none
      else tick_snapshot (λ w. read_storage_slot state manager (v4_bitmap_slot keccak_slot i w))
          (λ t. read_storage_slot state manager (v4_tick_slot keccak_slot i t)) slot0_raw
          (read_storage_slot state manager (v4_mapping_slot keccak_slot i 3)) s
