-- ===== src/Balance/Resync.antt =====
-- The loop of the balance monitor over any wakes: what a subscriber knows, from the start and after a loss.
use reth_exex_liquidity.Common.{
  if_split, ℕ, zero, suc, ◌+◌, ◌-◌, ◌/◌, ◌%◌, ◌^◌, ◌≤◌, ◌<◌, ltb, ◌≡◌, inl, refl, ap, ◌∙◌, subst,
  arith, ◌==◌, ◌&&◌, Bool, true, false, Option, none, some, List, [], ◌∷◌, fold, length, eq→==,
}
use native.Mathlib.Nat.{mod-eq_of_lt, mod-lt, div-add-mod, mul-suc, mul-mod_right}
use reth_exex_liquidity.Common.Maps
use reth_exex_liquidity.Common.Words.{bind_some}
use reth_exex_liquidity.Types.{Address}
use reth_exex_liquidity.Balance.Tokens.{TokenTracker, WhitelistPoolEntry}
use reth_exex_liquidity.Balance.Receipts.{
  Notification, chain_committed, chain_reorged, chain_reverted, balance_of,
}
use reth_exex_liquidity.Balance.Swaps.{SwapConfirmation, scan_swaps_in_notification}
use reth_exex_liquidity.Balance.Publish.{Message, Node, Monitor, publish_with_retry, swap_confirmed}
use reth_exex_liquidity.Balance.Monitor.{
  publish_full, publish_changed, count_updates, publish_swap, acknowledge, periodic_snapshot,
  handle_notification, handle_whitelist, announce, seed_or_warn, resubscribe, resubscribe_attempts,
  Wake, notified, whitelisted, closed, turn, startup, startup_snapshot, seed_balances_from_db,
}
use reth_exex_liquidity.Balance.View.{
  view, Agrees, Patient, publish_with_retry_keeps, publish_full-Agrees,
}
use reth_exex_liquidity.Balance.Agreement.{
  acknowledged_after, handle_notification-repairs, contains_key-length, turn-Agrees,
}

module _ (node : Node) where
  published_count :
      (b : ℕ) (x : Message) (m : Monitor node)
      → m.blocks_processed ≡ b
      → (publish_with_retry node x m).1.blocks_processed ≡ b
  published_count b x m h =
      publish_with_retry_keeps node (λ r. r.blocks_processed ≡ b) x m (λ k. h) (λ k. h)

  count_updates_count :
      (n : ℕ) (r : Bool × Monitor node)
      → (count_updates node n r).blocks_processed ≡ r.1.blocks_processed
  count_updates_count n (true, m) = refl
  count_updates_count n (false, m) = refl

  publish_changed_count :
      (n : Notification) (changed : List Address) (m : Monitor node)
      → (publish_changed node n changed m).blocks_processed ≡ m.blocks_processed
  unfolding publish_changed
  publish_changed_count n [] m = refl
  publish_changed_count n (t ∷ changed) m =
      count_updates_count (length (t ∷ changed)) _ ∙ published_count m.blocks_processed _ m refl

  publish_swaps_count :
      (b : ℕ) (m : Monitor node) (cs : List SwapConfirmation)
      → m.blocks_processed ≡ b
      → (fold (publish_swap node) m cs).blocks_processed ≡ b
  unfolding fold
  publish_swaps_count b m [] h = h
  publish_swaps_count b m (c ∷ cs) h =
      publish_swaps_count b (publish_swap node m c) cs (published_count b (swap_confirmed c) m h)

  acknowledge_count :
      (n : Notification) (m : Monitor node)
      → (acknowledge node n m).blocks_processed ≡ m.blocks_processed
  unfolding acknowledge
  acknowledge_count (chain_committed new) m = refl
  acknowledge_count (chain_reorged old new) m = refl
  acknowledge_count (chain_reverted old) m = refl

  acknowledged_after_count :
      (m : Monitor node) (n : Notification)
      → (acknowledged_after node m n).blocks_processed ≡ m.blocks_processed
  acknowledged_after_count m n =
      acknowledge_count n _
      ∙ publish_swaps_count m.blocks_processed _
          (scan_swaps_in_notification node.swaps node.executor _ n) (publish_changed_count n _ _)

  periodic_snapshot_count :
      (n : Notification) (m : Monitor node)
      → (periodic_snapshot node n m).blocks_processed ≡ m.blocks_processed
  unfolding periodic_snapshot publish_full
  periodic_snapshot_count n m =
      if_split (λ (r : Monitor node). r.blocks_processed ≡ m.blocks_processed)
        (m.blocks_processed % node.full_snapshot_interval_blocks == 0
          && ltb 0 (length m.tracker.tokens))
        (λ due. published_count m.blocks_processed _ m refl) (λ late. refl)

  handle_notification_count :
      (m : Monitor node) (n : Notification)
      → (handle_notification node m n).blocks_processed ≡ (m.blocks_processed + 1) % 2 ^ 64
  unfolding handle_notification
  handle_notification_count m n =
      periodic_snapshot_count n _ ∙ ap (λ b. (b + 1) % 2 ^ 64) (acknowledged_after_count m n)

  seeds_count :
      (b : ℕ) (m : Monitor node) (ts : List Address)
      → m.blocks_processed ≡ b
      → (fold (seed_or_warn node) m ts).blocks_processed ≡ b
  unfolding fold
  seeds_count b m [] h = h
  seeds_count b m (t ∷ ts) h = seeds_count b (seed_or_warn node m t) ts h

  handle_whitelist_count :
      (m : Monitor node) (payload : Option (List WhitelistPoolEntry))
      → (handle_whitelist node m payload).blocks_processed ≡ m.blocks_processed
  unfolding handle_whitelist publish_full
  handle_whitelist_count m payload = announce_count _ _
    where
      announce_count :
          (found : List Address) (m : Monitor node)
          → (announce node found m).blocks_processed ≡ m.blocks_processed
      announce_count [] m = refl
      announce_count (t ∷ found) m =
          published_count _ _ _ (seeds_count m.blocks_processed m (t ∷ found) refl)

  resubscribe_attempts_count :
      (left : ℕ) (m : Monitor node)
      → (resubscribe_attempts node left m).blocks_processed ≡ m.blocks_processed
  unfolding resubscribe_attempts
  resubscribe_attempts_count zero m = refl
  resubscribe_attempts_count (suc left) m =
      if_split (λ (r : Monitor node). r.blocks_processed ≡ m.blocks_processed)
        (node.subscribes m.subscriptions) (λ e. refl) (λ e. resubscribe_attempts_count left _)

  -- The loop without its sleep: one turn for each wake.
  unfoldable pub run : Monitor node → List Wake → Monitor node
  run = fold (turn node)

  unfoldable pub notifications : List Wake → ℕ
  notifications [] = 0
  notifications (notified n ∷ ws) = 1 + notifications ws
  notifications (whitelisted payload ∷ ws) = notifications ws
  notifications (closed ∷ ws) = notifications ws

  whitelisted_count :
      (m : Monitor node) (payload : Option (List WhitelistPoolEntry))
      → (turn node m (whitelisted payload)).blocks_processed ≡ m.blocks_processed
  unfolding turn
  whitelisted_count m payload =
      if_split (λ (r : Monitor node). r.blocks_processed ≡ m.blocks_processed) m.subscribed
        (λ e. handle_whitelist_count m payload) (λ e. refl)

  closed_count : (m : Monitor node) → (turn node m closed).blocks_processed ≡ m.blocks_processed
  unfolding turn resubscribe
  closed_count m =
      if_split (λ (r : Monitor node). r.blocks_processed ≡ m.blocks_processed) m.subscribed
        (λ e. resubscribe_attempts_count 5 m) (λ e. refl)

  pub run-Agrees :
      Patient node → (m : Monitor node) (ws : List Wake) → Agrees node m → Agrees node (run m ws)
  unfolding run fold
  run-Agrees patient m [] h = h
  run-Agrees patient m (w ∷ ws) h =
      run-Agrees patient (turn node m w) ws (turn-Agrees node patient m w h)

  -- The notification whose count is a multiple of the interval repairs the view, the rest keep it.
  run_due :
      Patient node
      → (ws : List Wake) (m : Monitor node) (d : ℕ) → suc d ≤ notifications ws
      → m.blocks_processed + notifications ws < 2 ^ 64
      → ((m.blocks_processed + suc d) % node.full_snapshot_interval_blocks == 0) ≡ true
      → Agrees node (run m ws)
  unfolding run fold notifications turn
  run_due patient [] m d le below due = ground arith
  run_due patient (notified n ∷ ws) m zero le below due =
      run-Agrees patient (handle_notification node m n) ws (
        handle_notification-repairs node patient m n (
          inl (
            ap (λ b. (b + 1) % 2 ^ 64 % node.full_snapshot_interval_blocks == 0)
              (acknowledged_after_count m n)
            ∙ ap (λ b. b % node.full_snapshot_interval_blocks == 0) (mod-eq_of_lt (omega arith))
            ∙ due)))
  run_due patient (notified n ∷ ws) m (suc d) le below due =
      let counted = handle_notification_count m n ∙ mod-eq_of_lt (omega arith) in
      run_due patient ws (handle_notification node m n) d (omega arith) (omega (arith, counted)) (
        ap (λ b. b % node.full_snapshot_interval_blocks == 0)
          (ap (λ b. b + suc d) counted ∙ omega arith)
        ∙ due)
  run_due patient (whitelisted payload ∷ ws) m d le below due =
      let counted = whitelisted_count m payload in
      run_due patient ws (turn node m (whitelisted payload)) d le (omega (arith, counted))
        (ap (λ b. (b + suc d) % node.full_snapshot_interval_blocks == 0) counted ∙ due)
  run_due patient (closed ∷ ws) m d le below due =
      let counted = closed_count m in
      run_due patient ws (turn node m closed) d le (omega (arith, counted))
        (ap (λ b. (b + suc d) % node.full_snapshot_interval_blocks == 0) counted ∙ due)

  next_due : (b i : ℕ) → 0 < i → (d : ℕ) × (suc d ≤ i) × (((b + suc d) % i == 0) ≡ true)
  next_due b i pos =
      let below = mod-lt b pos in
      let split = div-add-mod b i in
      (
        i - 1 - b % i,
        omega (arith, below),
        eq→== ((b + suc (i - 1 - b % i)) % i) 0 (
            ap (λ n. n % i) (omega (arith, below, split, mul-suc i (b / i)))
            ∙ mul-mod_right i (suc (b / i))),
      )

  -- With a broker that does not refuse three publishes in a row, an interval above zero and a counter that does
  -- not wrap, whatever was lost before: behind at least as many notifications as the interval says, and any
  -- whitelist messages and lost subscriptions between them, the stream's last word on every tracked token is the
  -- monitor's balance.
  pub run-resyncs :
      Patient node
      → (m : Monitor node) (ws : List Wake) → 0 < node.full_snapshot_interval_blocks
      → node.full_snapshot_interval_blocks ≤ notifications ws
      → m.blocks_processed + notifications ws < 2 ^ 64
      → Agrees node (run m ws)
  run-resyncs patient m ws pos enough below =
      let (d, le, due) = next_due m.blocks_processed node.full_snapshot_interval_blocks pos in
      run_due patient ws m d (omega (arith, le)) below due

  startup_snapshot-Agrees :
      Patient node → (m : Monitor node) → Agrees node (startup_snapshot node m)
  unfolding startup_snapshot
  startup_snapshot-Agrees patient m =
      if_split (Agrees node) (ltb 0 (length m.tracker.tokens))
        (λ e. publish_full-Agrees node patient 0 m)
        λ e token c. ground (arith, contains_key-length token m.tracker.tokens c)

  -- From startup on, while the broker does not refuse three publishes in a row, the stream's last word on every
  -- tracked token is the monitor's balance.
  pub startup_run-Agrees :
      Patient node
      → (arrived : Option (Option (List WhitelistPoolEntry))) (tracker : TokenTracker node.store)
        {m : Monitor node} (ws : List Wake)
      → startup node arrived tracker ≡ some m
      → (token : Address) → Maps.contains_key token (run m ws).tracker.tokens ≡ true
      → view (run m ws).sent token ≡ some (balance_of token (run m ws).balances)
  unfolding startup
  startup_run-Agrees patient arrived tracker {m} ws e =
      let (seeded, from, is) =
        bind_some (seed_balances_from_db node _) (λ s. some (startup_snapshot node s)) e in
      run-Agrees patient m ws (subst (λ o. Started o) is (startup_snapshot-Agrees patient seeded))
    where
      Started : Option (Monitor node) → Type 0
      Started none = Unit
      Started (some s) = Agrees node s
