-- ===== src/Storage/Initialised.antt =====
-- The readers of Storage/Bitmap find every initialised tick.
use reth_exex_liquidity.Common.{
  ℕ, suc, ◌/◌, ◌%◌, ◌^◌, ◌<◌, ◌≡◌, ◌≢◌, ◌⊎◌, inl, inr, refl, ap, sym, ◌∙◌, subst, ◌==◌, ==_iff,
  if◌then◌else◌, if_split, Bool, true, false, Option, none, some, List, [], ◌∷◌,
}
use reth_exex_liquidity.Common.Int.{ℤ, pos, sub_ℕ}
use reth_exex_liquidity.Common.Words.{bind_some, u128_mod}
use reth_exex_liquidity.Storage.Words.{signed, decode_tick_liquidity, decode_slot0_packed}
use reth_exex_liquidity.Storage.State.{to_u128, StateProvider, read_storage_slot}
use reth_exex_liquidity.Types.{Address, PoolId}
use reth_exex_liquidity.Storage.Bitmap.{
  max_tick, tick_in_range, tick_to_word_pos, words_between, generate_word_positions, compressed_at,
  times, wrap_i32, tick_at, extract_ticks_from_bitmap_u256, TickBitmapSnapshot, read_bitmaps,
  tick_values, read_ticks, snapshot_over, tick_snapshot, v3_slots_for_factory, v3_bitmap_slot,
  v3_tick_slot, read_v3_full_state, v4_mapping_slot, v4_bitmap_slot, v4_tick_slot,
  read_v4_full_state,
}
use reth_exex_liquidity.Storage.Positions.{
  Among, Among-append_left, Among-append_right, Among-words_from, wrap_i32_in_range, word_counted,
}
use reth_exex_liquidity.Storage.Bits.{zero_bit, Among-extract_ticks}

if_either {ℓ} :
    {A : Type ℓ} (b : Bool) (x y v : A)
    → (if b then x else y) ≡ v
    → ((b ≡ true) × (x ≡ v)) ⊎ (y ≡ v)
if_either true x y v e = inl (refl, e)
if_either false x y v e = inr e

some_injective : {xs ys : List (ℤ × ℕ × ℤ)} → some xs ≡ some ys → xs ≡ ys
some_injective e = cc

none-some : {x : TickBitmapSnapshot} → ◌≡◌ {A = Option TickBitmapSnapshot} none (some x) → ⊥
none-some e = cc

-- The entry that a tick's word is decoded to.
abbrev pub decoded : ℤ → ℕ → ℤ × ℕ × ℤ
decoded t word = (t, word % 2 ^ 128, signed (2 ^ 127) (word / 2 ^ 128 % u128_mod))

module _ (bitmap_word tick_word : ℤ → ℕ) where
  Among-tick_values :
      (w : ℤ) (s k : ℕ) (ws : List ℤ)
      → Among w ws
      → k < 256
      → bitmap_word w / 2 ^ k % 2 ≡ 1
      → tick_in_range (tick_at w k s) ≡ true
      → Among
          (tick_at w k s)
          (tick_values bitmap_word tick_word s (read_bitmaps bitmap_word tick_word ws))
  unfolding tick_values read_bitmaps
  Among-tick_values w s k [] at h set fits = elim at [ ]
  Among-tick_values w s k (v ∷ ws) (inl e) h set fits =
      if_split (λ l. Among (tick_at w k s) (tick_values bitmap_word tick_word s l))
        (bitmap_word v == 0)
        (λ z. absurd (
          zero_bit k (
            ap (λ n. n / 2 ^ k % 2) (sym (ap bitmap_word e ∙ (==_iff (bitmap_word v) 0).0 z))
            ∙ set)))
        (λ z.
          Among-append_left (tick_at w k s) (extract_ticks_from_bitmap_u256 v (bitmap_word v) s) _ (
            subst (λ u. Among (tick_at w k s) (extract_ticks_from_bitmap_u256 u (bitmap_word u) s))
              e (Among-extract_ticks w s (bitmap_word w) k h set fits)))
  Among-tick_values w s k (v ∷ ws) (inr at) h set fits =
      let later = Among-tick_values w s k ws at h set fits in
      if_split (λ l. Among (tick_at w k s) (tick_values bitmap_word tick_word s l))
        (bitmap_word v == 0) (λ z. later)
        (λ z.
          Among-append_right (tick_at w k s) (extract_ticks_from_bitmap_u256 v (bitmap_word v) s) _
            later)

  -- What one step of the loop leaves, where the word is not zero.
  ticks_cons :
      (u : ℤ) (ts : List ℤ) {xs : List (ℤ × ℕ × ℤ)}
      → read_ticks bitmap_word tick_word (u ∷ ts) ≡ some xs
      → (rest : List (ℤ × ℕ × ℤ)) × (read_ticks bitmap_word tick_word ts ≡ some rest)
        × (((tick_word u == 0) ≡ true) × (rest ≡ xs) ⊎ (decoded u (tick_word u) ∷ rest ≡ xs))
  unfolding read_ticks decode_tick_liquidity
  ticks_cons u ts {xs} is = elim (if_either (tick_word u == 0) _ _ _ is) [
    | inl (z, e) ↦ (xs, e, inl (z, refl))
    | inr e ↦
        let (rest, from, eq) =
          bind_some (read_ticks bitmap_word tick_word ts)
            (λ rest. some (decoded u (tick_word u) ∷ rest)) e in
        (rest, from, inr (some_injective eq))
  ]

  Among-read_ticks :
      (t : ℤ) (ts : List ℤ) {xs : List (ℤ × ℕ × ℤ)}
      → Among t ts
      → tick_word t ≢ 0
      → read_ticks bitmap_word tick_word ts ≡ some xs
      → Among (decoded t (tick_word t)) xs
  Among-read_ticks t [] at ne is = elim at [ ]
  Among-read_ticks t (u ∷ ts) (inl e) ne is =
      let (rest, from, cases) = ticks_cons u ts is in
      elim cases [
        | inl (z, q) ↦ absurd (ne (ap tick_word e ∙ (==_iff (tick_word u) 0).0 z))
        | inr q ↦
            subst (Among (decoded t (tick_word t))) q (inl (ap (λ v. decoded v (tick_word v)) e))
      ]
  Among-read_ticks t (u ∷ ts) (inr at) ne is =
      let (rest, from, cases) = ticks_cons u ts is in
      let later = Among-read_ticks t ts at ne from in
      elim cases [
        | inl (z, q) ↦ subst (Among (decoded t (tick_word t))) q later
        | inr q ↦ subst (Among (decoded t (tick_word t))) q (inr later)
      ]

  -- The positions of the words for a spacing.
  abbrev positions : ℕ → List ℤ
  positions s =
      words_between (tick_to_word_pos (sub_ℕ 0 max_tick) s) (tick_to_word_pos (pos max_tick) s)

  snapshot_over-finds :
      (slot0_raw l s k : ℕ) (w : ℤ) {x : TickBitmapSnapshot}
      → snapshot_over bitmap_word tick_word slot0_raw l (suc s) (positions (suc s)) ≡ some x
      → k < 256
      → tick_in_range (times (compressed_at w k) (suc s)) ≡ true
      → bitmap_word w / 2 ^ k % 2 ≡ 1
      → tick_word (times (compressed_at w k) (suc s)) ≢ 0
      → Among
          (decoded
            (times (compressed_at w k) (suc s))
            (tick_word (times (compressed_at w k) (suc s))))
          x.ticks
  unfolding snapshot_over
  snapshot_over-finds slot0_raw l s k w {x} is below fits set ne =
      let t = times (compressed_at w k) (suc s) in
      let kept : wrap_i32 t ≡ t = wrap_i32_in_range t fits in
      let (more, all) = word_counted w k s below fits in
      let listed : Among w (positions (suc s)) = Among-words_from _ _ w more all in
      let at : Among t (
          tick_values bitmap_word tick_word (suc s)
            (read_bitmaps bitmap_word tick_word (positions (suc s)))) =
        subst
          (λ u. Among u (
            tick_values bitmap_word tick_word (suc s)
              (read_bitmaps bitmap_word tick_word (positions (suc s)))))
          kept
          (Among-tick_values w (suc s) k (positions (suc s)) listed below set
            (ap tick_in_range kept ∙ fits)) in
      let (ts, from, eq) =
        bind_some
          (read_ticks bitmap_word tick_word (
            tick_values bitmap_word tick_word (suc s)
              (read_bitmaps bitmap_word tick_word (positions (suc s)))))
          (λ ts. some (record {
            sqrt_price_x96 = (decode_slot0_packed slot0_raw).0;
            tick = (decode_slot0_packed slot0_raw).1;
            liquidity = l;
            ticks = ts;
            tick_bitmaps = read_bitmaps bitmap_word tick_word (positions (suc s));
          }))
          is in
      subst (Among (decoded t (tick_word t))) (ap ticks_of eq) (Among-read_ticks t _ at ne from)
    where
      ticks_of : Option TickBitmapSnapshot → List (ℤ × ℕ × ℤ)
      ticks_of none = []
      ticks_of (some y) = y.ticks

  tick_snapshot-finds :
      (slot0_raw liquidity_raw s k : ℕ) (w : ℤ) {x : TickBitmapSnapshot}
      → tick_snapshot bitmap_word tick_word slot0_raw liquidity_raw (pos (suc s)) ≡ some x
      → k < 256
      → tick_in_range (times (compressed_at w k) (suc s)) ≡ true
      → bitmap_word w / 2 ^ k % 2 ≡ 1
      → tick_word (times (compressed_at w k) (suc s)) ≢ 0
      → Among
          (decoded
            (times (compressed_at w k) (suc s))
            (tick_word (times (compressed_at w k) (suc s))))
          x.ticks
  unfolding tick_snapshot generate_word_positions
  tick_snapshot-finds slot0_raw liquidity_raw s k w is below fits set ne =
      let (l, from, over) =
        bind_some (to_u128 liquidity_raw)
          (λ l. snapshot_over bitmap_word tick_word slot0_raw l (suc s) (positions (suc s))) is in
      snapshot_over-finds slot0_raw l s k w over below fits set ne

-- Where the reader gives a V3 pool's ticks, for a spacing above zero: no tick is lost. Let a bit be set in the
-- pool's bitmap, in any word; then the tick that it stands for, which is the word's and the bit's position times the
-- spacing, is listed with the gross and net liquidity of its storage word, where the tick is within Uniswap's limits
-- and that word is not zero.
pub read_v3_full_state-finds :
    (keccak_slot : ℕ → ℕ → ℕ) (state : StateProvider) (a : Address) (s k : ℕ) (w : ℤ)
    (factory : Option Address) {x : TickBitmapSnapshot}
    → read_v3_full_state keccak_slot state a (pos (suc s)) factory ≡ some x
    → k < 256
    → tick_in_range (times (compressed_at w k) (suc s)) ≡ true
    → read_storage_slot state a
          (v3_bitmap_slot keccak_slot w (v3_slots_for_factory factory).tick_bitmap)
        / 2 ^ k
        % 2
      ≡ 1
    → read_storage_slot state a (
        v3_tick_slot keccak_slot
          (times (compressed_at w k) (suc s))
          (v3_slots_for_factory factory).ticks)
      ≢ 0
    → Among
        (decoded (times (compressed_at w k) (suc s)) (
          read_storage_slot state a (
            v3_tick_slot keccak_slot
              (times (compressed_at w k) (suc s))
              (v3_slots_for_factory factory).ticks)))
        x.ticks
unfolding read_v3_full_state
read_v3_full_state-finds keccak_slot state a s k w factory is below fits set ne =
    elim (if_either (read_storage_slot state a (v3_slots_for_factory factory).slot0 == 0) _ _ _
      is) [
        | inl (z, e) ↦ absurd (none-some e)
        | inr e ↦ tick_snapshot-finds _ _ _ _ s k w e below fits set ne
      ]

-- The same of a V4 pool, in the manager's storage.
pub read_v4_full_state-finds :
    (keccak_slot : ℕ → ℕ → ℕ) (state : StateProvider) (manager : Address) (i : PoolId) (s k : ℕ)
    (w : ℤ) {x : TickBitmapSnapshot}
    → read_v4_full_state keccak_slot state manager i (pos (suc s)) ≡ some x
    → k < 256
    → tick_in_range (times (compressed_at w k) (suc s)) ≡ true
    → read_storage_slot state manager (v4_bitmap_slot keccak_slot i w) / 2 ^ k % 2 ≡ 1
    → read_storage_slot state manager
        (v4_tick_slot keccak_slot i (times (compressed_at w k) (suc s)))
      ≢ 0
    → Among
        (decoded (times (compressed_at w k) (suc s)) (
          read_storage_slot state manager
            (v4_tick_slot keccak_slot i (times (compressed_at w k) (suc s)))))
        x.ticks
unfolding read_v4_full_state
read_v4_full_state-finds keccak_slot state manager i s k w is below fits set ne =
    elim (if_either (read_storage_slot state manager (v4_mapping_slot keccak_slot i 0) == 0) _ _ _
      is) [
        | inl (z, e) ↦ absurd (none-some e)
        | inr e ↦ tick_snapshot-finds _ _ _ _ s k w e below fits set ne
      ]
