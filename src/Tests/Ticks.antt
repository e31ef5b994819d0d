-- ===== src/Tests/Ticks.antt =====
-- A V3 pool with one initialised tick below zero.
use reth_exex_liquidity.Common.{
  ℕ, ◌+◌, ◌-◌, ◌*◌, ◌%◌, ◌^◌, ◌≡◌, refl, some, none, [], ◌∷◌, ◌==◌, if◌then◌else◌,
}
use reth_exex_liquidity.Common.Int.{pos, negsuc}
use reth_exex_liquidity.Storage.Words.{
  signed_i32_to_u256, decode_slot0_packed, decode_tick_liquidity,
}
use reth_exex_liquidity.Storage.State.{StateProvider, read_storage_slot}
use reth_exex_liquidity.Storage.Bitmap.{
  TickBitmapSnapshot, read_v3_full_state, tick_snapshot, snapshot_over, generate_word_positions,
  words_from, count_inclusive, tick_to_word_pos, read_bitmaps, tick_values,
  extract_ticks_from_bitmap_u256, bitmap_ticks, byte_ticks, read_ticks, v3_slots_for_factory,
  v3_bitmap_slot, v3_tick_slot,
}

-- The hash of two words is a sum that keeps the sample's slots apart. Word -1 of the bitmap has bit 255 set, which
-- is tick -200000 at this spacing, with liquidity 70.
abbrev pub sum_slot : ℕ → ℕ → ℕ
sum_slot x y = (x + y * 1_000_000 + 10) % 2 ^ 256

abbrev pub one_tick : StateProvider
one_tick a slot =
    if slot == 0
    then some (some (2 ^ 96))
    else if slot == 4
    then some (some 900)
    else if slot == (2 ^ 256 - 1 + 6_000_010) % 2 ^ 256
    then some (some (2 ^ 255))
    else if slot == (2 ^ 256 - 200_000 + 5_000_010) % 2 ^ 256
    then some (some 70)
    else some none

abbrev pub one_tick_snapshot : TickBitmapSnapshot
one_tick_snapshot = record {
  sqrt_price_x96 = 2 ^ 96;
  tick = pos 0;
  liquidity = 900;
  ticks = (negsuc 199_999, 70, pos 0) ∷ [];
  tick_bitmaps = (negsuc 0, 2 ^ 255) ∷ [];
}

pub one_tick_read :
    read_v3_full_state sum_slot one_tick 5 (pos 200_000) none ≡ some one_tick_snapshot
unfolding read_v3_full_state tick_snapshot snapshot_over generate_word_positions words_from
    count_inclusive tick_to_word_pos read_bitmaps tick_values extract_ticks_from_bitmap_u256
    bitmap_ticks byte_ticks read_ticks v3_slots_for_factory v3_bitmap_slot v3_tick_slot
    read_storage_slot signed_i32_to_u256 decode_slot0_packed decode_tick_liquidity
one_tick_read = refl
