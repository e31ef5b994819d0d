-- ===== src/Balance/View.antt =====
-- What a subscriber knows of the executor's balances from the snapshots on the stream.
use reth_exex_liquidity.Common.{
  if_keeps, ℕ, zero, suc, ◌+◌, ◌≡◌, ◌⊎◌, refl, arith, ◌==◌, if◌then◌else◌, Bool, true, false,
  Option, none, some, List, [], ◌∷◌,
}
use reth_exex_liquidity.Common.Sets
use reth_exex_liquidity.Common.Maps
use reth_exex_liquidity.Types.{Address}
use reth_exex_liquidity.Balance.Receipts.{Balances, balance_of}
use reth_exex_liquidity.Balance.Publish.{
  ChainTokenBalance, Message, Node, Monitor, token_entry, full_entries, changed_entries,
  build_full_snapshot, publish_attempts, publish_with_retry, balance_snapshot, swap_confirmed,
  finished_height,
}
use reth_exex_liquidity.Balance.Monitor.{publish_full}

unfoldable pub raw_in : Address → List ChainTokenBalance → Option ℕ
raw_in token [] = none
raw_in token (e ∷ entries) = if e.token == token then some e.raw_available else raw_in token entries

abbrev pub or_else : Option ℕ → Option ℕ → Option ℕ
or_else none later = later
or_else (some v) later = some v

-- The balance last reported for a token; messages stand newest first.
unfoldable pub view : List Message → Address → Option ℕ
view [] token = none
view (balance_snapshot s ∷ older) token = or_else (raw_in token s.balances) (view older token)
view (swap_confirmed c ∷ older) token = view older token
view (finished_height n ∷ older) token = view older token

raw_in-full_entries :
    (node : Node) (token : Address) (balances : Balances) (tokens : List (Address × ℕ))
    → raw_in token (full_entries node balances tokens)
      ≡ (if Maps.contains_key token tokens then some (balance_of token balances) else none)
unfolding raw_in full_entries token_entry Maps.lookup balance_of
raw_in-full_entries node token balances [] = refl
raw_in-full_entries node token balances ((t, d) ∷ rest) =
    ground (arith, raw_in-full_entries node token balances rest)

pub raw_in-changed_entries :
    (node : Node) (token : Address) (m : Monitor node) (changed : List Address)
    → raw_in token (changed_entries node m changed)
      ≡ (if Sets.contains token changed then some (balance_of token m.balances) else none)
unfolding raw_in changed_entries token_entry Sets.contains balance_of
raw_in-changed_entries node token m [] = refl
raw_in-changed_entries node token m (t ∷ rest) =
    ground (arith, raw_in-changed_entries node token m rest)

-- One of three tests holds.
if_one {ℓ κ} :
    {A : Type ℓ} (P : A → Type κ) (a b c : Bool) {x y z : A} (w : A)
    → (a ≡ true) ⊎ (b ≡ true) ⊎ (c ≡ true)
    → P x
    → P y
    → P z
    → P (if a then x else if b then y else if c then z else w)
if_one P true b c w h p q r = p
if_one P false true c w h p q r = q
if_one P false false true w h p q r = r
if_one P false false false w h p q r = ground arith

module _ (node : Node) where
  -- The stream's last word on each tracked token is the monitor's balance.
  abbrev pub Agrees : Monitor node → Type 0
  Agrees m =
      (token : Address)
      → Maps.contains_key token m.tracker.tokens ≡ true
      → view m.sent token ≡ some (balance_of token m.balances)

  -- The broker does not refuse three publishes in a row.
  abbrev pub Patient : Type 0
  Patient =
      (n : ℕ)
      → (node.accepts n ≡ true) ⊎ (node.accepts (n + 1) ≡ true) ⊎ (node.accepts (n + 1 + 1) ≡ true)

  -- What holds whether the message leaves or not.
  publish_attempts_keeps {ℓ} :
      (P : Monitor node → Type ℓ) (x : Message) (left : ℕ) (m : Monitor node)
      → ((k : ℕ) → P (record m { publishes = k }))
      → ((k : ℕ) → P (record m { publishes = k; sent = x ∷ m.sent }))
      → P (publish_attempts node left x m).1
  unfolding publish_attempts
  publish_attempts_keeps P x zero m refused taken =
      if_keeps (λ (r : Bool × Monitor node). P r.1) (node.accepts m.publishes)
        (taken (m.publishes + 1)) (refused (m.publishes + 1))
  publish_attempts_keeps P x (suc left) m refused taken =
      if_keeps (λ (r : Bool × Monitor node). P r.1) (node.accepts m.publishes)
        (taken (m.publishes + 1))
        (publish_attempts_keeps P x left (record m { publishes = m.publishes + 1 }) refused taken)

  pub publish_with_retry_keeps {ℓ} :
      (P : Monitor node → Type ℓ) (x : Message) (m : Monitor node)
      → ((k : ℕ) → P (record m { publishes = k }))
      → ((k : ℕ) → P (record m { publishes = k; sent = x ∷ m.sent }))
      → P (publish_with_retry node x m).1
  unfolding publish_with_retry
  publish_with_retry_keeps P x m refused taken = publish_attempts_keeps P x 2 m refused taken

  -- With a patient broker it leaves.
  pub publish_with_retry_leaves {ℓ} :
      (P : Bool × Monitor node → Type ℓ)
      → Patient
      → (x : Message) (m : Monitor node)
      → ((k : ℕ) → P (true, record m { publishes = k; sent = x ∷ m.sent }))
      → P (publish_with_retry node x m)
  unfolding publish_with_retry publish_attempts
  publish_with_retry_leaves P patient x m taken =
      if_one P (node.accepts m.publishes) (node.accepts (m.publishes + 1))
        (node.accepts (m.publishes + 1 + 1)) _ (patient m.publishes) (taken (m.publishes + 1))
        (taken (m.publishes + 1 + 1)) (taken (m.publishes + 1 + 1 + 1))

  pub publish_full-Agrees : Patient → (n : ℕ) (m : Monitor node) → Agrees (publish_full node n m)
  unfolding publish_full build_full_snapshot view
  publish_full-Agrees patient n m =
      publish_with_retry_leaves (λ r. Agrees r.1) patient
        (balance_snapshot (build_full_snapshot node n m)) m
        λ k token h. ground (arith, raw_in-full_entries node token m.balances m.tracker.tokens)
