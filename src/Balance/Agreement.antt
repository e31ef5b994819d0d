-- ===== src/Balance/Agreement.antt =====
-- Every turn of the balance monitor keeps the stream's last words true.
use reth_exex_liquidity.Common.{
  if_split, ℕ, zero, suc, ◌+◌, ◌%◌, ◌^◌, ltb, ◌≡◌, ◌≢◌, ◌⊎◌, inl, inr, refl, ap, sym, ◌∙◌, arith,
  ◌==◌, ◌&&◌, true, Option, none, some, List, [], ◌∷◌, ◌++◌, fold, length,
}
use reth_exex_liquidity.Common.Sets
use reth_exex_liquidity.Common.Maps
use reth_exex_liquidity.Types.{Address}
use reth_exex_liquidity.Balance.Tokens.{
  TokenEntry, TokenTracker, WhitelistPoolEntry, add, Discovery, pool_tokens, discover_token,
  discover_pool, process_whitelist_message,
}
use reth_exex_liquidity.Balance.Receipts.{
  Notification, chain_committed, chain_reorged, chain_reverted, balance_of, process_notification,
}
use reth_exex_liquidity.Balance.Changed.{process_notification-changed}
use reth_exex_liquidity.Balance.Swaps.{SwapConfirmation, scan_swaps_in_notification}
use reth_exex_liquidity.Balance.Publish.{Node, Monitor, notification_tip_block, swap_confirmed}
use reth_exex_liquidity.Balance.Monitor.{
  publish_changed, count_updates, publish_swap, acknowledge, periodic_snapshot, handle_notification,
  handle_whitelist, announce, seed_or_warn, resubscribe, resubscribe_attempts, Wake, notified,
  whitelisted, closed, turn,
}
use reth_exex_liquidity.Balance.View.{
  view, raw_in-changed_entries, Agrees, Patient, publish_with_retry_keeps,
  publish_with_retry_leaves, publish_full-Agrees,
}

pub contains_key-length :
    (token : Address) (tokens : List (Address × ℕ))
    → Maps.contains_key token tokens ≡ true
    → ltb 0 (length tokens) ≡ true
unfolding Maps.lookup
contains_key-length token [] c = ground arith
contains_key-length token (x ∷ tokens) c = ground arith

snoc_some : (xs : List Address) (a : Address) → xs ++ a ∷ [] ≢ []
snoc_some [] a e = ground arith
snoc_some (x ∷ xs) a e = ground arith

module _ (node : Node) where
  publish_swap-Agrees :
      (m : Monitor node) (c : SwapConfirmation)
      → Agrees node m
      → Agrees node (publish_swap node m c)
  unfolding view
  publish_swap-Agrees m c h =
      publish_with_retry_keeps node (Agrees node) (swap_confirmed c) m (λ k. h) (λ k. h)

  publish_swaps-Agrees :
      (m : Monitor node) (cs : List SwapConfirmation)
      → Agrees node m
      → Agrees node (fold (publish_swap node) m cs)
  unfolding fold
  publish_swaps-Agrees m [] h = h
  publish_swaps-Agrees m (c ∷ cs) h =
      publish_swaps-Agrees (publish_swap node m c) cs (publish_swap-Agrees m c h)

  acknowledge-Agrees :
      (n : Notification) (m : Monitor node) → Agrees node m → Agrees node (acknowledge node n m)
  unfolding acknowledge view
  acknowledge-Agrees (chain_committed new) m h = h
  acknowledge-Agrees (chain_reorged old new) m h = h
  acknowledge-Agrees (chain_reverted old) m h = h

  -- What is left to report: the listed tokens.
  abbrev Behind : List Address → Monitor node → Type 0
  Behind changed m =
      (token : Address)
      → Maps.contains_key token m.tracker.tokens ≡ true
      → (Sets.contains token changed ≡ true)
        ⊎ (view m.sent token ≡ some (balance_of token m.balances))

  publish_changed-Agrees :
      Patient node
      → (n : Notification) (changed : List Address) (m : Monitor node) → Behind changed m
      → Agrees node (publish_changed node n changed m)
  unfolding publish_changed Sets.contains view
  publish_changed-Agrees patient n [] m h =
      λ token e. elim (h token e) [ inl q ↦ ground arith | inr q ↦ q ]
  publish_changed-Agrees patient n (t ∷ changed) m h =
      publish_with_retry_leaves node
        (λ r. Agrees node (count_updates node (length (t ∷ changed)) r)) patient _ m
        λ k token e. ground (arith, raw_in-changed_entries node token m (t ∷ changed), h token e)

  -- What the loops of a notification change is reported.
  after_notification-Behind :
      (m : Monitor node) (n : Notification)
      → Agrees node m
      → Behind
          (process_notification node.abi node.executor m.tracker.tokens n m.balances).1
          (record m {
            balances =
                (process_notification node.abi node.executor m.tracker.tokens n m.balances).0;
          })
  after_notification-Behind m n h token e =
      let (ascending, same, kept) =
        process_notification-changed node.abi node.executor m.tracker.tokens n m.balances token in
      elim kept [ inl q ↦ inl (same ∙ q) | inr q ↦ inr (h token e ∙ ap some (sym q)) ]

  abbrev Due : Monitor node → Type 0
  Due m = (m.blocks_processed % node.full_snapshot_interval_blocks == 0) ≡ true

  -- A snapshot that is due repairs whatever was lost.
  periodic_snapshot-repairs :
      Patient node
      → (n : Notification) (m : Monitor node) → Due m ⊎ Agrees node m
      → Agrees node (periodic_snapshot node n m)
  unfolding periodic_snapshot
  periodic_snapshot-repairs patient n m h =
      if_split (Agrees node)
        (m.blocks_processed % node.full_snapshot_interval_blocks == 0
          && ltb 0 (length m.tracker.tokens))
        (λ e. publish_full-Agrees node patient (notification_tip_block n) m)
        λ e token c. elim h [
          | inl due ↦ ground (arith, contains_key-length token m.tracker.tokens c)
          | inr agrees ↦ agrees token c
        ]

  -- The state that `handle_notification` reaches before the periodic snapshot.
  abbrev pub acknowledged_after : Monitor node → Notification → Monitor node
  acknowledged_after m n =
      let after = process_notification node.abi node.executor m.tracker.tokens n m.balances in
      let reported = publish_changed node n after.1 (record m { balances = after.0 }) in
      acknowledge node n (
        fold (publish_swap node) reported
          (scan_swaps_in_notification node.swaps node.executor (node.now_ms reported.publishes) n))

  pub handle_notification-repairs :
      Patient node
      → (m : Monitor node) (n : Notification)
      → (((acknowledged_after m n).blocks_processed + 1)
              % 2 ^ 64
              % node.full_snapshot_interval_blocks
            == 0)
          ≡ true
        ⊎ Agrees node m
      → Agrees node (handle_notification node m n)
  unfolding handle_notification
  handle_notification-repairs patient m n h = periodic_snapshot-repairs patient n _ (elim h [
    | inl due ↦ inl due
    | inr agrees ↦ inr (
        acknowledge-Agrees n _ (
          publish_swaps-Agrees _ _
            (publish_changed-Agrees patient n _ _ (after_notification-Behind m n agrees))))
  ])

  -- Without new tokens the tracker is as before.
  discover_token-silent :
      (tokens : List (Address × ℕ)) (s : Discovery node.store) (e : TokenEntry)
      → (s.0 ≡ [] → s.1.tokens ≡ tokens)
      → (discover_token node.store s e).0 ≡ []
      → (discover_token node.store s e).1.tokens ≡ tokens
  unfolding discover_token add
  discover_token-silent tokens (new_tokens, t) e h q = grind (arith, snoc_some)

  discover_pool-silent :
      (tokens : List (Address × ℕ)) (s : Discovery node.store) (es : List TokenEntry)
      → (s.0 ≡ [] → s.1.tokens ≡ tokens)
      → (fold (discover_token node.store) s es).0 ≡ []
      → (fold (discover_token node.store) s es).1.tokens ≡ tokens
  unfolding fold
  discover_pool-silent tokens s [] h = h
  discover_pool-silent tokens s (e ∷ es) h =
      discover_pool-silent tokens (discover_token node.store s e) es
        (discover_token-silent tokens s e h)

  discover_pools-silent :
      (tokens : List (Address × ℕ)) (s : Discovery node.store) (ps : List WhitelistPoolEntry)
      → (s.0 ≡ [] → s.1.tokens ≡ tokens)
      → (fold (discover_pool node.store) s ps).0 ≡ []
      → (fold (discover_pool node.store) s ps).1.tokens ≡ tokens
  unfolding fold discover_pool
  discover_pools-silent tokens s [] h = h
  discover_pools-silent tokens s (p ∷ ps) h =
      discover_pools-silent tokens (discover_pool node.store s p) ps
        (discover_pool-silent tokens s (pool_tokens p) h)

  pub whitelist_silent :
      (payload : Option (List WhitelistPoolEntry)) (t : TokenTracker node.store)
      → (process_whitelist_message node.store payload t).0 ≡ []
      → (process_whitelist_message node.store payload t).1.tokens ≡ t.tokens
  unfolding process_whitelist_message
  whitelist_silent none t = λ e. refl
  whitelist_silent (some ps) t = discover_pools-silent t.tokens ([], t) ps (λ e. refl)

  announce-Agrees :
      Patient node
      → (found : List Address) (m : Monitor node) → (found ≡ [] → Agrees node m)
      → Agrees node (announce node found m)
  announce-Agrees patient [] m h = h refl
  announce-Agrees patient (t ∷ found) m h =
      publish_full-Agrees node patient 0 (fold (seed_or_warn node) m (t ∷ found))

  handle_whitelist-Agrees :
      Patient node
      → (m : Monitor node) (payload : Option (List WhitelistPoolEntry)) → Agrees node m
      → Agrees node (handle_whitelist node m payload)
  unfolding handle_whitelist
  handle_whitelist-Agrees patient m payload h = announce-Agrees patient _ _ λ e token c.
      h token (ap (Maps.contains_key token) (sym (whitelist_silent payload m.tracker e)) ∙ c)

  resubscribe_attempts-Agrees :
      (left : ℕ) (m : Monitor node) → Agrees node m → Agrees node (resubscribe_attempts node left m)
  unfolding resubscribe_attempts
  resubscribe_attempts-Agrees zero m h = h
  resubscribe_attempts-Agrees (suc left) m h =
      if_split (Agrees node) (node.subscribes m.subscriptions) (λ e. h)
        (λ e. resubscribe_attempts-Agrees left _ h)

  pub turn-Agrees :
      Patient node → (m : Monitor node) (w : Wake) → Agrees node m → Agrees node (turn node m w)
  unfolding turn resubscribe
  turn-Agrees patient m (notified n) h = handle_notification-repairs patient m n (inr h)
  turn-Agrees patient m (whitelisted payload) h =
      if_split (Agrees node) m.subscribed (λ e. handle_whitelist-Agrees patient m payload h)
        (λ e. h)
  turn-Agrees patient m closed h =
      if_split (Agrees node) m.subscribed (λ e. resubscribe_attempts-Agrees 5 m h) (λ e. h)
