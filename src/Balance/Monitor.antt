-- ===== src/Balance/Monitor.antt =====
-- The loop of `balance_monitor_exex` in src/balance_monitor/mod.rs, with the seeding of balances and its startup.
-- An error of the node's channels, which ends the ExEx, is left out.
use reth_exex_liquidity.Common.{
  ℕ, zero, suc, ◌+◌, ◌%◌, ◌^◌, ltb, ◌==◌, ◌&&◌, if◌then◌else◌, Bool, true, false, Option, none,
  some, List, [], ◌∷◌, length, fold,
}
use reth_exex_liquidity.Common.Maps
use reth_exex_liquidity.Common.Words.{◌>>=◌}
use reth_exex_liquidity.Types.{Address}
use reth_exex_liquidity.Balance.Tokens.{TokenTracker, WhitelistPoolEntry, process_whitelist_message}
use reth_exex_liquidity.Balance.Receipts.{Notification, Balances, process_notification}
use reth_exex_liquidity.Balance.Swaps.{SwapConfirmation, scan_swaps_in_notification}
use reth_exex_liquidity.Balance.Publish.{
  balance_snapshot, swap_confirmed, finished_height, Node, tip_number, notification_tip_block,
  committed_chain, Monitor, balance_storage_slot, build_full_snapshot, changed_entries,
  publish_with_retry,
}

abbrev whitelist_resub_max_retries : ℕ
whitelist_resub_max_retries = 5

module _ (node : Node) where
  -- The state read for one token; `none` is an error.
  unfoldable pub seed_from :
      (state : Address → (slot : ℕ) → Option (Option ℕ)) → Address → Balances → Option Balances
  seed_from state token balances =
      elim (state token (balance_storage_slot node token node.executor)) [
        | none ↦ none
        | some value ↦ some (Maps.insert token (elim value [ none ↦ 0 | some v ↦ v ]) balances)
      ]

  unfoldable pub seed_token_balance : Address → Monitor node → Option Balances
  seed_token_balance token m = node.latest m.publishes >>= λ state. seed_from state token m.balances

  -- The caller logs an error.
  abbrev pub seed_or_warn : Monitor node → Address → Monitor node
  seed_or_warn m token = record m {
    balances = elim (seed_token_balance token m) [ none ↦ m.balances | some seeded ↦ seeded ];
  }

  abbrev pub count_updates : ℕ → Bool × Monitor node → Monitor node
  count_updates n (true, m) = record m { updates_published = (m.updates_published + n) % 2 ^ 64 }
  count_updates n (false, m) = m

  unfoldable pub publish_changed : Notification → List Address → Monitor node → Monitor node
  publish_changed n [] m = m
  publish_changed n (token ∷ rest) m = count_updates (length (token ∷ rest)) (
      publish_with_retry node
        (balance_snapshot (record {
          block_number = notification_tip_block n;
          balances = changed_entries node m (token ∷ rest);
          ts = node.now_ms m.publishes;
        }))
        m)

  abbrev pub publish_swap : Monitor node → SwapConfirmation → Monitor node
  publish_swap m confirmation = (publish_with_retry node (swap_confirmed confirmation) m).1

  unfoldable pub acknowledge : Notification → Monitor node → Monitor node
  acknowledge n m = elim (committed_chain n) [
    | none ↦ m
    | some new ↦ record m { sent = finished_height (tip_number new) ∷ m.sent }
  ]

  unfoldable pub publish_full : (block_number : ℕ) → Monitor node → Monitor node
  publish_full n m = (publish_with_retry node (balance_snapshot (build_full_snapshot node n m)) m).1

  unfoldable pub periodic_snapshot : Notification → Monitor node → Monitor node
  periodic_snapshot n m =
      if m.blocks_processed % node.full_snapshot_interval_blocks == 0
        && ltb 0 (length m.tracker.tokens)
      then publish_full (notification_tip_block n) m
      else m

  -- The loop's first arm.
  unfoldable pub handle_notification : Monitor node → Notification → Monitor node
  handle_notification m n =
      let after = process_notification node.abi node.executor m.tracker.tokens n m.balances in
      let reported = publish_changed n after.1 (record m { balances = after.0 }) in
      let swap_confirmations =
        scan_swaps_in_notification node.swaps node.executor (node.now_ms reported.publishes) n in
      let acknowledged = acknowledge n (fold publish_swap reported swap_confirmations) in
      periodic_snapshot n
        (record acknowledged { blocks_processed = (acknowledged.blocks_processed + 1) % 2 ^ 64 })

  -- The loop's second arm with a message: new tokens are seeded, and everything is reported.
  abbrev pub announce : List Address → Monitor node → Monitor node
  announce [] m = m
  announce (token ∷ rest) m = publish_full 0 (fold seed_or_warn m (token ∷ rest))

  unfoldable pub handle_whitelist : Monitor node → Option (List WhitelistPoolEntry) → Monitor node
  handle_whitelist m payload =
      let found = process_whitelist_message node.store payload m.tracker in
      announce found.0 (record m { tracker = found.1 })

  unfoldable pub resubscribe_attempts : (left : ℕ) → Monitor node → Monitor node
  resubscribe_attempts zero m = record m { subscribed = false }
  resubscribe_attempts (suc left) m =
      let tried = record m { subscriptions = m.subscriptions + 1 } in
      let later = resubscribe_attempts left tried in
      if node.subscribes m.subscriptions then record tried { subscribed = true } else later

  -- The closed subscription.
  unfoldable pub resubscribe : Monitor node → Monitor node
  resubscribe = resubscribe_attempts whitelist_resub_max_retries

-- What wakes the loop; a whitelist message only while there is a subscription.
pub data Wake : Type 0 where
  notified : Notification → Wake
  whitelisted : (payload : Option (List WhitelistPoolEntry)) → Wake
  closed : Wake

module _ (node : Node) where
  unfoldable pub turn : Monitor node → Wake → Monitor node
  turn m (notified n) = handle_notification node m n
  turn m (whitelisted payload) = if m.subscribed then handle_whitelist node m payload else m
  turn m closed = if m.subscribed then resubscribe node m else m

  unfoldable pub seed_all :
      (state : Address → (slot : ℕ) → Option (Option ℕ))
      → List (Address × ℕ)
      → Balances
      → Option Balances
  seed_all state [] balances = some balances
  seed_all state ((token, d) ∷ rest) balances =
      seed_from node state token balances >>= seed_all state rest

  -- An error ends the ExEx.
  unfoldable pub seed_balances_from_db : Monitor node → Option (Monitor node)
  seed_balances_from_db m = node.latest m.publishes >>= λ state.
      seed_all state m.tracker.tokens m.balances >>= λ balances.
      some (record m { balances = balances })

  abbrev pub startup_tracker :
      Option (Option (List WhitelistPoolEntry)) → TokenTracker node.store → TokenTracker node.store
  startup_tracker none tracker = tracker
  startup_tracker (some payload) tracker = (process_whitelist_message node.store payload tracker).1

  unfoldable pub startup_snapshot : Monitor node → Monitor node
  startup_snapshot m = if ltb 0 (length m.tracker.tokens) then publish_full node 0 m else m

  -- From the persisted tokens, and what came on the whitelist in time, to the first full snapshot.
  unfoldable pub startup :
      (arrived : Option (Option (List WhitelistPoolEntry)))
      → TokenTracker node.store
      → Option (Monitor node)
  startup arrived tracker =
      seed_balances_from_db (record {
        tracker = startup_tracker arrived tracker;
        balances = [];
        subscribed = true;
        blocks_processed = 0;
        updates_published = 0;
        publishes = 0;
        subscriptions = 0;
        sent = [];
      })
      >>= λ m. some (startup_snapshot m)
