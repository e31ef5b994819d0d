-- ===== src/Tests/Swaps.antt =====
-- The theorem on swap confirmations at a V4 swap in a block's second log.
use reth_exex_liquidity.Common.{refl, inl, none, some, [], ◌∷◌}
use reth_exex_liquidity.Common.Int.{pos, negsuc}
use reth_exex_liquidity.Types.{pool_id}
use reth_exex_liquidity.Events.{Log}
use reth_exex_liquidity.Storage.Positions.{Among}
use reth_exex_liquidity.Balance.Receipts.{BlockReceipts, chain_reorged}
use reth_exex_liquidity.Balance.Swaps.{
  SwapDecoders, DecodedSwap, v4, decode_executor_swap, v4_executor_swap, scan_swaps_in_notification,
}
use reth_exex_liquidity.Balance.Confirmed.{confirmation, scan_swaps_in_notification-confirms}

abbrev v4_decoders : SwapDecoders
v4_decoders = record {
  v2_swap_log = λ log. none;
  v3_swap_log = λ log. none;
  v4_signature = 2;
  v4_swap_log = λ log. some (pos 30, negsuc 19);
}

abbrev other_log : Log
other_log = record { address = 7; topics = []; payload = [] }

abbrev swap_log : Log
swap_log = record { address = 7; topics = 2 ∷ 77 ∷ 9 ∷ []; payload = [] }

abbrev executor_swap : DecodedSwap
executor_swap = record { pool = pool_id 77; protocol = v4; amount0 = pos 30; amount1 = negsuc 19 }

abbrev swap_block : BlockReceipts
swap_block = record {
  number = 100;
  tx_hashes = 55 ∷ 56 ∷ [];
  receipts = [] ∷ (other_log ∷ swap_log ∷ []) ∷ [];
}

scan_swaps_in_notification-confirms_example :
    Among
      (confirmation 56 100 1 1 4 executor_swap)
      (scan_swaps_in_notification v4_decoders 9 4 (chain_reorged [] (swap_block ∷ [])))
unfolding decode_executor_swap v4_executor_swap
scan_swaps_in_notification-confirms_example =
    scan_swaps_in_notification-confirms v4_decoders 9 4 (chain_reorged [] (swap_block ∷ []))
      (swap_block ∷ []) swap_block 56 1 1 (other_log ∷ swap_log ∷ []) swap_log executor_swap refl
      (inl refl) refl refl refl refl
