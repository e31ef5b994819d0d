-- ===== src/Tests/Storage.antt =====
-- The theorems on packed storage words at sample words.
use reth_exex_liquidity.Common.{◌+◌, ◌*◌, ◌^◌, ◌≡◌, arith, some, ◌≢◌}
use reth_exex_liquidity.Common.Int.{pos, negsuc}
use reth_exex_liquidity.Storage.Words.{
  word_of, decode_slot0_packed, slot0_word, decode_state_words, decode_ekubo_state_packed,
  ekubo_word, ekubo_tick_slot, ekubo_tick_slot_distinct, decode_tick_liquidity,
  decode_ekubo_tick_liquidity,
}

decode_state_words_example :
    (decode_slot0_packed (slot0_word (2 ^ 96) (negsuc 887_271) 5) ≡ (2 ^ 96, negsuc 887_271))
    × (decode_ekubo_state_packed (ekubo_word 77 (negsuc 3) 1_000) ≡ (77, negsuc 3, 1_000))
    × (decode_tick_liquidity (negsuc 887_271) (900 + word_of (2 ^ 127) (negsuc 899) * 2 ^ 128)
        ≡ some (negsuc 887_271, 900, negsuc 899))
    × (decode_ekubo_tick_liquidity (negsuc 887_271) (900 * 2 ^ 128 + word_of (2 ^ 127) (negsuc 899))
        ≡ (negsuc 887_271, 900, negsuc 899))
decode_state_words_example =
    decode_state_words (2 ^ 96) (negsuc 887_271) 5 77 (negsuc 3) 1_000 900 (negsuc 899)
      (omega arith) (omega arith) (omega arith) (omega arith) (omega arith) (omega arith)
      (omega arith)

below_above : negsuc 887_271 ≢ pos 887_272
below_above = cc

ekubo_tick_slot_distinct_example :
    ekubo_tick_slot 77 (negsuc 887_271) ≢ ekubo_tick_slot 77 (pos 887_272)
ekubo_tick_slot_distinct_example =
    ekubo_tick_slot_distinct 77 (negsuc 887_271) (pos 887_272) (omega arith) (omega arith)
      below_above
