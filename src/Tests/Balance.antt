-- ===== src/Tests/Balance.antt =====
-- The theorems on the balance monitor at a token that the executor receives and pays.
use reth_exex_liquidity.Common.{
  ℕ, ◌+◌, ◌≡◌, refl, arith, ◌⊎◌, not, ◌&&◌, ◌||◌, is_some, true, false, Option, none, some, List,
  [], ◌∷◌, ◌==◌, fold,
}
use reth_exex_liquidity.Common.Maps
use reth_exex_liquidity.Common.Sets
use Prim.Native.String.{String}
use reth_exex_liquidity.Events.{Log}
use reth_exex_liquidity.Types.{Address}
use reth_exex_liquidity.Balance.Tokens.{
  TokenStore, TokenTracker, TokenEntry, WhitelistPoolEntry, process_whitelist_message, decimals,
  contains, new,
}
use reth_exex_liquidity.Balance.Receipts.{
  TransferDecoder, BlockReceipts, chain_committed, chain_reorged, chain_reverted, balance_of,
  process_notification, process_chains, process_blocks, process_receipts, process_log, move_of,
  decode_transfer, transfer_of, counted_move, apply_move, moved, sort, insert_sorted, dedup,
  dedup_after,
}
use reth_exex_liquidity.Balance.Moves.{
  chain_moves, receipt_moves, log_moves, inflow, outflow, moves_token,
}
use reth_exex_liquidity.Balance.Changed.{
  Ascending, notification_moves, process_notification-changed,
}
use reth_exex_liquidity.Balance.Discovery.{
  first_of, first_decimals, message_tokens, process_whitelist_message-discovers,
}
use reth_exex_liquidity.Balance.Swaps.{
  scan_swaps_in_notification, scan_chain, scan_block_receipts, scan_receipt_for_swaps,
  decode_executor_swap, v4_executor_swap,
}
use reth_exex_liquidity.Balance.Publish.{
  Node, Monitor, publish_with_retry, publish_attempts, build_full_snapshot, full_entries,
  token_entry, balance_snapshot,
}
use reth_exex_liquidity.Balance.Monitor.{
  Wake, notified, closed, turn, handle_notification, resubscribe, resubscribe_attempts,
  periodic_snapshot, publish_full, acknowledge, publish_changed, startup, startup_snapshot,
  seed_balances_from_db, seed_all, seed_from,
}
use reth_exex_liquidity.Balance.View.{Patient, view}
use reth_exex_liquidity.Balance.Resync.{run, notifications, run-resyncs, startup_run-Agrees}
use reth_exex_liquidity.Balance.Undo.{
  process_notification-undoes, process_notification-passes_through,
}

-- Topic 1 marks a transfer, whose payload is the sender, the receiver and the amount.
abbrev transfer_decoder : TransferDecoder
transfer_decoder = record {
  transfer_signature = 1;
  transfer_log = λ log. elim log.payload [
    | [] ↦ none
    | s ∷ rest ↦ elim rest [
      | [] ↦ none
      | r ∷ more ↦ elim more [ [] ↦ none | v ∷ end ↦ some (s, r, v) ]
    ]
  ];
}

abbrev transfer : (token sender receiver value : ℕ) → Log
transfer token s r v = record { address = token; topics = 1 ∷ []; payload = s ∷ r ∷ v ∷ [] }

-- The executor is address 9, the token is 7.
abbrev old_chain : List BlockReceipts
old_chain =
    record {
      number = 100;
      tx_hashes = 55 ∷ [];
      receipts = (transfer 7 3 9 30 ∷ transfer 7 9 4 20 ∷ []) ∷ [];
    }
    ∷ []

abbrev new_chain : List BlockReceipts
new_chain =
    record {
      number = 100;
      tx_hashes = 56 ∷ [];
      receipts = (transfer 8 9 9 5 ∷ transfer 7 9 4 6 ∷ []) ∷ [];
    }
    ∷ []

abbrev whitelisted_tokens : List (Address × ℕ)
whitelisted_tokens = (7, 18) ∷ []

old_moves :
    (outflow 7 (chain_moves transfer_decoder 9 whitelisted_tokens old_chain) ≡ 20)
    × (inflow 7 (chain_moves transfer_decoder 9 whitelisted_tokens old_chain) ≡ 30)
unfolding outflow inflow chain_moves receipt_moves log_moves move_of decode_transfer transfer_of
    counted_move Maps.lookup
old_moves = (refl, refl)

process_notification-undoes_example :
    (balance_of 7
        (process_notification transfer_decoder 9 whitelisted_tokens
          (chain_reorged old_chain new_chain)
          (process_notification transfer_decoder 9 whitelisted_tokens
            (chain_committed old_chain)
            ((7, 50) ∷ [])).0).0
      ≡ balance_of 7
          (process_notification transfer_decoder 9 whitelisted_tokens
            (chain_committed new_chain)
            ((7, 50) ∷ [])).0)
    × (balance_of 7
          (process_notification transfer_decoder 9 whitelisted_tokens
            (chain_reverted old_chain)
            (process_notification transfer_decoder 9 whitelisted_tokens
              (chain_committed old_chain)
              ((7, 50) ∷ [])).0).0
        ≡ balance_of 7 ((7, 50) ∷ []))
unfolding outflow inflow chain_moves receipt_moves log_moves move_of decode_transfer transfer_of
    counted_move Maps.lookup balance_of
process_notification-undoes_example =
    process_notification-undoes transfer_decoder 9 whitelisted_tokens 7 old_chain new_chain
      ((7, 50) ∷ []) (omega arith) (omega arith)

-- The executor had nothing, received 30 and paid 20: behind the revert it seems to have 20.
process_notification-passes_through_example :
    balance_of 7
      (process_notification transfer_decoder 9 whitelisted_tokens
        (chain_reverted old_chain)
        (process_notification transfer_decoder 9 whitelisted_tokens
          (chain_committed old_chain)
          []).0).0
    ≡ 20
unfolding chain_moves receipt_moves log_moves move_of decode_transfer transfer_of counted_move
    Maps.lookup balance_of
process_notification-passes_through_example =
    process_notification-passes_through transfer_decoder 9 whitelisted_tokens 7 old_chain [] 30 20
      refl (omega arith) (omega arith) (omega arith)

process_notification-changed_example :
    Ascending
      (process_notification transfer_decoder 9 whitelisted_tokens
        (chain_reorged old_chain new_chain)
        ((7, 50) ∷ [])).1
    × (Sets.contains 8
          (process_notification transfer_decoder 9 whitelisted_tokens
            (chain_reorged old_chain new_chain)
            ((7, 50) ∷ [])).1
        ≡ moves_token 8 (
            notification_moves transfer_decoder 9 whitelisted_tokens
              (chain_reorged old_chain new_chain)))
    × ((moves_token 8 (
            notification_moves transfer_decoder 9 whitelisted_tokens
              (chain_reorged old_chain new_chain))
          ≡ true)
        ⊎ (balance_of 8
              (process_notification transfer_decoder 9 whitelisted_tokens
                (chain_reorged old_chain new_chain)
                ((7, 50) ∷ [])).0
            ≡ balance_of 8 ((7, 50) ∷ [])))
process_notification-changed_example =
    process_notification-changed transfer_decoder 9 whitelisted_tokens
      (chain_reorged old_chain new_chain) ((7, 50) ∷ []) 8

-- A file is the map itself, and a text is the number of its characters.
abbrev text_length : String → ℕ
text_length String.[] = 0
text_length (String.◌∷◌ c s) = text_length s + 1

abbrev token_store : TokenStore
token_store = record {
  File = List (String × ℕ);
  to_string_pretty = λ raw. raw;
  from_str = λ file. some file;
  parse_address = λ text. some (text_length text);
  format_address = λ a. "0x";
  saves = λ n. true;
}

abbrev entry : String → ℕ → TokenEntry
entry text d = record { address = text; decimals = d }

-- A pool of tokens 2 and 7.
abbrev whitelist_payload : Option (List WhitelistPoolEntry)
whitelist_payload = some (
    record { token0 = some (entry "0x" 6); token1 = some (entry "0xabcde" 18); extra_tokens = [] }
    ∷ [])

process_whitelist_message-discovers_example :
    (decimals token_store
        (process_whitelist_message token_store whitelist_payload (new token_store none 0)).1
        7
      ≡ first_of
          (decimals token_store (new token_store none 0) 7)
          (first_decimals token_store 7 (message_tokens whitelist_payload)))
    × (Sets.contains 7
          (process_whitelist_message token_store whitelist_payload (new token_store none 0)).0
        ≡ (not (contains token_store (new token_store none 0) 7)
            && is_some (first_decimals token_store 7 (message_tokens whitelist_payload))))
process_whitelist_message-discovers_example =
    process_whitelist_message-discovers token_store whitelist_payload (new token_store none 0) 7

-- The first two publishes are refused, and token 7 has its balance in slot 0.
abbrev sample_node : Node
sample_node = record {
  store = token_store;
  abi = transfer_decoder;
  swaps = record {
    v2_swap_log = λ log. none;
    v3_swap_log = λ log. none;
    v4_signature = 2;
    v4_swap_log = λ log. none;
  };
  executor = 9;
  full_snapshot_interval_blocks = 1;
  keccak256 = λ words. words;
  latest = λ n. some (λ token slot. some (some 50));
  accepts = λ n. not (n == 0 || n == 1);
  now_ms = λ n. n;
  subscribes = λ n. false;
}

sample_node-Patient : Patient sample_node
sample_node-Patient n = ground arith

-- A monitor whose snapshots were all lost.
abbrev silent_monitor : Monitor sample_node
silent_monitor = record {
  tracker = record { tokens = whitelisted_tokens; persisted = none; writes = 0 };
  balances = (7, 50) ∷ [];
  subscribed = true;
  blocks_processed = 3;
  updates_published = 0;
  publishes = 0;
  subscriptions = 0;
  sent = [];
}

abbrev sample_wakes : List Wake
sample_wakes = closed ∷ notified (chain_committed old_chain) ∷ []

sample_tracked :
    Maps.contains_key 7 (run sample_node silent_monitor sample_wakes).tracker.tokens ≡ true
unfolding run fold turn handle_notification Maps.lookup resubscribe resubscribe_attempts
    periodic_snapshot publish_full publish_with_retry publish_attempts acknowledge publish_changed
    scan_swaps_in_notification scan_chain scan_block_receipts scan_receipt_for_swaps
    decode_executor_swap v4_executor_swap process_notification process_chains process_blocks
    process_receipts process_log move_of decode_transfer transfer_of counted_move apply_move moved
    sort insert_sorted dedup dedup_after Maps.insert balance_of
sample_tracked = refl

run-resyncs_example :
    view (run sample_node silent_monitor sample_wakes).sent 7
    ≡ some (balance_of 7 (run sample_node silent_monitor sample_wakes).balances)
unfolding notifications
run-resyncs_example =
    run-resyncs sample_node sample_node-Patient silent_monitor sample_wakes (omega arith)
      (omega arith) (omega arith) 7 sample_tracked

-- A tracker that finds token 7 on disk, and the monitor that starts with it.
abbrev persisted_tracker : TokenTracker token_store
persisted_tracker = record {
  tokens = whitelisted_tokens;
  persisted = some (("0xabcde", 18) ∷ []);
  writes = 0;
}

abbrev started_monitor : Monitor sample_node
started_monitor = record {
  tracker = persisted_tracker;
  balances = (7, 50) ∷ [];
  subscribed = true;
  blocks_processed = 0;
  updates_published = 0;
  publishes = 3;
  subscriptions = 0;
  sent =
      balance_snapshot (record {
        block_number = 0;
        balances = record { token = 7; raw_available = 50; decimals = 18 } ∷ [];
        ts = 0;
      })
      ∷ [];
}

sample_started : startup sample_node none persisted_tracker ≡ some started_monitor
unfolding startup startup_snapshot seed_balances_from_db seed_all seed_from Maps.insert publish_full
    publish_with_retry publish_attempts build_full_snapshot full_entries token_entry balance_of
    Maps.lookup
sample_started = refl

started_tracked :
    Maps.contains_key 7 (run sample_node started_monitor (closed ∷ [])).tracker.tokens ≡ true
unfolding run fold turn Maps.lookup resubscribe resubscribe_attempts
started_tracked = refl

startup_run-Agrees_example :
    view (run sample_node started_monitor (closed ∷ [])).sent 7
    ≡ some (balance_of 7 (run sample_node started_monitor (closed ∷ [])).balances)
startup_run-Agrees_example =
    startup_run-Agrees sample_node sample_node-Patient none persisted_tracker {m = started_monitor}
      (closed ∷ []) sample_started 7 started_tracked
