-- ===== src/Tests/Updates.antt =====
-- The theorems on `create_pool_update`, its readers and the order of reverted logs at sample events.
use reth_exex_liquidity.Common.{
  ◌+◌, ◌-◌, ◌^◌, ◌≡◌, ◌==◌, ◌&&◌, refl, if◌then◌else◌, true, false, none, some, is_some, [], fold,
  arith,
}
use reth_exex_liquidity.Common.Int.{ℤ, pos, negsuc, pos_part, neg_part}
use reth_exex_liquidity.Types.{address, uniswap_v3, uniswap_v2}
use reth_exex_liquidity.Wire.{mint, burn, swap, v3_liquidity, v2_sync}
use reth_exex_liquidity.Events
use reth_exex_liquidity.Storage.State.{StateProvider, read_storage_slot}
use reth_exex_liquidity.Liquidity.Filter.{subject}
use reth_exex_liquidity.Liquidity.Block.{Scan, scan_log, scan_receipts}
use reth_exex_liquidity.Liquidity.Update.{update_message, some_update, create_pool_update}
use reth_exex_liquidity.Liquidity.Update.Stamped.{Stamped, create_pool_update-Stamped}
use reth_exex_liquidity.Liquidity.Update.Deltas.{at_most, create_pool_update_deltas}
use reth_exex_liquidity.Liquidity.Update.Returns.{create_pool_update-returns}
use reth_exex_liquidity.Liquidity.Reorg.Revert.{Reverting, revert_log, revert_receipts}
use reth_exex_liquidity.Liquidity.Reorg.Handle.{nothing_affected}
use reth_exex_liquidity.Liquidity.Reorg.Order.{indexed_receipts, reverse, revert_receipts-reverse}
use reth_exex_liquidity.Tests.Samples.{filled}
use reth_exex_liquidity.Tests.Stream.{mostly, sync_snapshot, sample_block, sample_exex}

-- Pool 900 is a stable pool of two coins with small words; contract 5 keeps a fee of 0.3 percent in slot 7.
abbrev small_words : StateProvider
small_words a slot =
    if a == 900
    then (if slot == 1 then some (some 2) else some (some (slot + 40)))
    else if a == 5 && slot == 7
    then some (some 3_000_000_000_000_000)
    else some none

create_pool_update-Stamped_example :
    Stamped small_words filled 100 1_200 3 4 false (subject (Events.v2_sync 1001 700 900)) (
      update_message small_words filled 100 1_200 3 4 false
        (address 1001)
        uniswap_v2
        swap
        (v2_sync 700 900))
unfolding create_pool_update some_update
create_pool_update-Stamped_example =
    create_pool_update-Stamped small_words filled 100 1_200 3 4 false (Events.v2_sync 1001 700 900)
      refl

create_pool_update_deltas_example :
    let answer = some_update small_words filled 100 1_200 3 4 false (address 1001) uniswap_v3 in
    (minted burnt : ℤ) × (create_pool_update small_words filled 100 1_200 3 4 false
        (Events.v3_mint 1001 (negsuc 59) (pos 60) (2 ^ 127))
      ≡ answer mint (v3_liquidity (negsuc 59) (pos 60) minted))
    × (create_pool_update small_words filled 100 1_200 3 4 false
          (Events.v3_burn 1001 (negsuc 59) (pos 60) (2 ^ 127))
        ≡ answer burn (v3_liquidity (negsuc 59) (pos 60) burnt))
    × (pos_part minted ≡ at_most (2 ^ 127 - 1) (2 ^ 127))
    × (neg_part minted ≡ 0)
    × (neg_part burnt ≡ at_most (2 ^ 127) (2 ^ 127))
    × (pos_part burnt ≡ 0)
create_pool_update_deltas_example =
    create_pool_update_deltas small_words filled 100 1_200 3 4 (2 ^ 127) false 1001 (negsuc 59)
      (pos 60)

create_pool_update-returns_example :
    is_some (create_pool_update small_words filled 100 1_200 3 4 true (Events.curve_swap 900))
    ≡ true
unfolding read_storage_slot
create_pool_update-returns_example =
    create_pool_update-returns small_words filled 100 1_200 3 4 true (Events.curve_swap 900) (
      (λ i h. (ground arith, ground arith)),
      (
        omega arith,
        (
          omega arith,
          (omega arith, (omega arith, (omega arith, (omega arith, (omega arith, tt))))),
        ),
      ),
    )

revert_receipts-reverse_example :
    let s : Scan = record { out = sample_exex.out; events_in_block = 0; fluid_touched = [] } in
    let v : Reverting = record {
      out = sample_exex.out;
      events_reverted = 0;
      affected = nothing_affected;
    } in
    let logs = indexed_receipts 0 sample_block.receipts in
    (scan_receipts mostly sync_snapshot filled sample_block 0 sample_block.receipts s
      ≡ fold (λ s x. scan_log mostly sync_snapshot filled sample_block x.0 x.1 x.2 s) s logs)
    × (revert_receipts mostly sync_snapshot filled sample_block 0 sample_block.receipts v
        ≡ fold
            (λ v x. revert_log mostly sync_snapshot filled sample_block x.0 x.1 x.2 v)
            v
            (reverse logs))
revert_receipts-reverse_example =
    revert_receipts-reverse mostly sync_snapshot filled sample_block 0 sample_block.receipts
      (record { out = sample_exex.out; events_in_block = 0; fluid_touched = [] })
      (record { out = sample_exex.out; events_reverted = 0; affected = nothing_affected })
