-- ===== src/Balance/Discovery.antt =====
-- What a whitelist message adds to the tracked tokens, and what a restart reads back.
use reth_exex_liquidity.Common.{
  ℕ, ◌≡◌, refl, ap, sym, ◌∙◌, arith, ◌==◌, ==_iff, ◌&&◌, ◌||◌, not, if◌then◌else◌, true, false,
  is_some, Option-cases, inl, inr, Option, none, some, List, [], ◌∷◌, ◌++◌, fold, fold-append,
}
use reth_exex_liquidity.Common.Sets
use reth_exex_liquidity.Common.Maps
use reth_exex_liquidity.Common.Maps.{lookup-insert, insert-Distinct, Distinct}
use reth_exex_liquidity.Types.{Address}
use reth_exex_liquidity.Balance.Moves.{contains-snoc}
use reth_exex_liquidity.Balance.Tokens.{
  TokenStore, TokenTracker, TokenEntry, WhitelistPoolEntry, load_entry, load_from_disk, new,
  format_tokens, save_to_disk, contains, decimals, add, pool_tokens, Discovery, discover_token,
  discover_pool, process_whitelist_message,
}

abbrev pub first_of : Option ℕ → Option ℕ → Option ℕ
first_of none later = later
first_of (some v) later = some v

-- The entries that a pool names: its two tokens, where it gives them, and the further ones.
unfoldable pub named_in :
    (token0 token1 : Option TokenEntry) (further : List TokenEntry) → List TokenEntry
named_in none none further = further
named_in none (some y) further = y ∷ further
named_in (some x) none further = x ∷ further
named_in (some x) (some y) further = x ∷ y ∷ further

-- Every entry of a message in the order of the loops.
unfoldable pub message_tokens : Option (List WhitelistPoolEntry) → List TokenEntry
unfolding named_in
message_tokens none = []
message_tokens (some []) = []
message_tokens (some (p ∷ ps)) =
    named_in p.token0 p.token1 p.extra_tokens ++ message_tokens (some ps)

eq-lookup : (k a : ℕ) (m : List (Address × ℕ)) → (k == a) ≡ true → Maps.lookup k m ≡ Maps.lookup a m
eq-lookup k a m e = ap (λ j. Maps.lookup j m) ((==_iff k a).0 e)

module _ (store : TokenStore) where
  -- The decimals that an entry gives to a token, and those of the first entry that names it.
  unfoldable pub entry_decimals : Address → TokenEntry → Option ℕ
  entry_decimals a e = elim (store.parse_address e.address) [
    | none ↦ none
    | some b ↦ if b == a then some e.decimals else none
  ]

  unfoldable pub first_decimals : Address → List TokenEntry → Option ℕ
  first_decimals a [] = none
  first_decimals a (e ∷ es) = first_of (entry_decimals a e) (first_decimals a es)

  discovers_one :
      (a : Address) (s : Discovery store) (e : TokenEntry)
      → (Maps.lookup a (discover_token store s e).1.tokens
          ≡ first_of (Maps.lookup a s.1.tokens) (entry_decimals a e))
        × (Sets.contains a (discover_token store s e).0 ≡ (
            Sets.contains a s.0
            || not (Maps.contains_key a s.1.tokens) && is_some (entry_decimals a e)))
  unfolding discover_token entry_decimals add contains save_to_disk
  discovers_one a (new_tokens, t) e = elim (Option-cases (store.parse_address e.address)) [
    | inl q ↦ rw (q, discover_token, entry_decimals) (ground arith)
    | inr (b, q) ↦
        rw (q, discover_token, entry_decimals)
          (ground (
            arith,
            lookup-insert b a e.decimals t.tokens,
            contains-snoc a b new_tokens,
            eq-lookup b a t.tokens,
          ))
  ]

  discovers_all :
      (a : Address) (s : Discovery store) (es : List TokenEntry)
      → (Maps.lookup a (fold (discover_token store) s es).1.tokens
          ≡ first_of (Maps.lookup a s.1.tokens) (first_decimals a es))
        × (Sets.contains a (fold (discover_token store) s es).0 ≡ (
            Sets.contains a s.0
            || not (Maps.contains_key a s.1.tokens) && is_some (first_decimals a es)))
  unfolding fold first_decimals
  discovers_all a s [] = ground arith
  discovers_all a s (e ∷ es) =
      ground (arith, discovers_one a s e, discovers_all a (discover_token store s e) es)

  pool_tokens-named_in :
      (x y : Option TokenEntry) (further : List TokenEntry)
      → pool_tokens (record { token0 = x; token1 = y; extra_tokens = further })
        ≡ named_in x y further
  unfolding pool_tokens named_in
  pool_tokens-named_in none none further = refl
  pool_tokens-named_in none (some y) further = refl
  pool_tokens-named_in (some x) none further = refl
  pool_tokens-named_in (some x) (some y) further = refl

  pools_flat :
      (s : Discovery store) (ps : List WhitelistPoolEntry)
      → fold (discover_pool store) s ps ≡ fold (discover_token store) s (message_tokens (some ps))
  unfolding fold discover_pool message_tokens
  pools_flat s [] = refl
  pools_flat s (p ∷ ps) =
      let named = pool_tokens-named_in p.token0 p.token1 p.extra_tokens in
      pools_flat (discover_pool store s p) ps
      ∙ sym (fold-append (discover_token store) s (pool_tokens p) (message_tokens (some ps)))
      ∙ ap (λ es. fold (discover_token store) s (es ++ message_tokens (some ps))) named

  message_flat :
      (payload : Option (List WhitelistPoolEntry)) (t : TokenTracker store)
      → process_whitelist_message store payload t
        ≡ fold (discover_token store) ([], t) (message_tokens payload)
  unfolding process_whitelist_message message_tokens fold
  message_flat none t = refl
  message_flat (some ps) t = pools_flat ([], t) ps

  -- A token keeps its decimals once it is tracked, a new one has those of the first entry that names it, and
  -- the answer lists exactly the named tokens that were not tracked. The entries of a message are those of its
  -- pools in order, of each its first token, its second and all further ones.
  pub process_whitelist_message-discovers :
      (payload : Option (List WhitelistPoolEntry)) (t : TokenTracker store) (a : Address)
      → (decimals store (process_whitelist_message store payload t).1 a
          ≡ first_of (decimals store t a) (first_decimals a (message_tokens payload)))
        × (Sets.contains a (process_whitelist_message store payload t).0
            ≡ (not (contains store t a) && is_some (first_decimals a (message_tokens payload))))
  unfolding decimals contains Sets.contains
  process_whitelist_message-discovers payload t a =
      rw (message_flat payload t) (discovers_all a ([], t) (message_tokens payload))

  module _ (parse-format : (a : Address) → store.parse_address (store.format_address a) ≡ some a)
      (from_str-to_string_pretty : (t : TokenTracker store)
        → store.from_str (store.to_string_pretty (format_tokens store t.tokens))
          ≡ some (format_tokens store t.tokens)) where
    load_entry-format :
        (acc : List (Address × ℕ)) (k x : ℕ)
        → load_entry store acc (store.format_address k, x) ≡ Maps.insert k x acc
    unfolding load_entry
    load_entry-format acc k x = rw (parse-format k, load_entry) refl

    loads :
        (a : Address) (acc ts : List (Address × ℕ))
        → Distinct ts
        → Maps.lookup a (fold (load_entry store) acc (format_tokens store ts))
          ≡ first_of (Maps.lookup a ts) (Maps.lookup a acc)
    unfolding fold format_tokens Maps.lookup load_entry
    loads a acc [] d = refl
    loads a acc ((k, x) ∷ ts) d =
        ap (λ m. Maps.lookup a (fold (load_entry store) m (format_tokens store ts)))
          (load_entry-format acc k x)
        ∙ loads a (Maps.insert k x acc) ts d.1
        ∙ ground (arith, lookup-insert k a x acc, eq-lookup k a ts)

    -- A restart after a token was added and written to disk tracks the same tokens with the same decimals.
    pub new-add :
        (token : Address) (d : ℕ) (t : TokenTracker store)
        → Distinct t.tokens
        → contains store t token ≡ false
        → store.saves t.writes ≡ true
        → (a : Address) (n : ℕ)
        → decimals store (new store (add store token d t).1.persisted n) a
          ≡ decimals store (add store token d t).1 a
    unfolding decimals new add save_to_disk load_from_disk Maps.lookup
    new-add token d t distinct fresh saved a n =
        rw
          (
            fresh,
            saved,
            from_str-to_string_pretty (record t { tokens = Maps.insert token d t.tokens }),
          )
          (ground (
            arith,
            loads a [] (Maps.insert token d t.tokens) (insert-Distinct token d t.tokens distinct),
          ))
