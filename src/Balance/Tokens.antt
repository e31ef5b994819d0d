-- ===== src/Balance/Tokens.antt =====
-- src/balance_monitor/token_tracker.rs and `process_whitelist_message` of src/balance_monitor/mod.rs.
-- serde_json, the file system and the text form of an address are the interface `TokenStore`.
use reth_exex_liquidity.Common.{
  ℕ, ◌+◌, Bool, true, false, Option, none, some, List, [], ◌∷◌, ◌++◌, fold, if◌then◌else◌,
}
use reth_exex_liquidity.Common.Maps
use Prim.Native.String.{String}
use reth_exex_liquidity.Types.{Address}

-- A file holds a serialized map from address texts to decimals; `saves` says whether the n-th write
-- succeeds.
pub record TokenStore : Type 1 where
  pub File : Type 0
  pub to_string_pretty : List (String × ℕ) → File
  pub from_str : File → Option (List (String × ℕ))
  pub parse_address : String → Option Address
  pub format_address : Address → String
  pub saves : ℕ → Bool

module _ (store : TokenStore) where
  -- The tracker's tokens with their decimals, the file at `persist_path`, and the writes tried.
  pub record TokenTracker : Type 0 where
    pub tokens : List (Address × ℕ)
    pub persisted : Option store.File
    pub writes : ℕ

  unfoldable pub load_entry : List (Address × ℕ) → String × ℕ → List (Address × ℕ)
  load_entry tokens (addr_str, decimals) = elim (store.parse_address addr_str) [
    | none ↦ tokens
    | some addr ↦ Maps.insert addr decimals tokens
  ]

  -- A missing file is `none`.
  unfoldable pub load_from_disk : Option store.File → Option (List (Address × ℕ))
  load_from_disk none = none
  load_from_disk (some content) = elim (store.from_str content) [
    | none ↦ none
    | some raw ↦ some (fold load_entry [] raw)
  ]

  unfoldable pub new : Option store.File → (writes : ℕ) → TokenTracker
  new file n = record {
    tokens = elim (load_from_disk file) [ none ↦ [] | some tokens ↦ tokens ];
    persisted = file;
    writes = n;
  }

  unfoldable pub format_tokens : List (Address × ℕ) → List (String × ℕ)
  format_tokens [] = []
  format_tokens ((addr, decimals) ∷ rest) =
      (store.format_address addr, decimals) ∷ format_tokens rest

  -- A write that fails leaves the old file, which is replaced by a rename.
  unfoldable pub save_to_disk : TokenTracker → TokenTracker
  save_to_disk t = record t {
    persisted =
        if store.saves t.writes
        then some (store.to_string_pretty (format_tokens t.tokens))
        else t.persisted;
    writes = t.writes + 1;
  }

  unfoldable pub contains : TokenTracker → Address → Bool
  contains t token = Maps.contains_key token t.tokens

  unfoldable pub decimals : TokenTracker → Address → Option ℕ
  decimals t token = Maps.lookup token t.tokens

  -- The answer says whether the token is new.
  unfoldable pub add : Address → ℕ → TokenTracker → Bool × TokenTracker
  add token decimals t =
      if contains t token
      then (false, t)
      else (true, save_to_disk (record t { tokens = Maps.insert token decimals t.tokens }))

-- `TokenEntry` and `WhitelistPoolEntry`: an entry's missing decimals are read as 18 by serde.
pub record TokenEntry : Type 0 where
  pub address : String
  pub decimals : ℕ

pub record WhitelistPoolEntry : Type 0 where
  pub token0 : Option TokenEntry
  pub token1 : Option TokenEntry
  pub extra_tokens : List TokenEntry

abbrev pub option_iter {ℓ} : {A : Type ℓ} → Option A → List A
option_iter none = []
option_iter (some x) = x ∷ []

unfoldable pub pool_tokens : WhitelistPoolEntry → List TokenEntry
pool_tokens p = option_iter p.token0 ++ (option_iter p.token1 ++ p.extra_tokens)

module _ (store : TokenStore) where
  -- The loop's state: the tokens that are new, in order, and the tracker.
  abbrev pub Discovery : Type 0
  Discovery = List Address × TokenTracker store

  abbrev pub discovered : Address → List Address → Bool × TokenTracker store → Discovery
  discovered addr new_tokens (true, t) = (new_tokens ++ addr ∷ [], t)
  discovered addr new_tokens (false, t) = (new_tokens, t)

  unfoldable pub discover_token : Discovery → TokenEntry → Discovery
  discover_token (new_tokens, t) e = elim (store.parse_address e.address) [
    | none ↦ (new_tokens, t)
    | some addr ↦ discovered addr new_tokens (add store addr e.decimals t)
  ]

  unfoldable pub discover_pool : Discovery → WhitelistPoolEntry → Discovery
  discover_pool s p = fold discover_token s (pool_tokens p)

  -- `none` is a payload that serde_json does not read as a whitelist.
  unfoldable pub process_whitelist_message :
      Option (List WhitelistPoolEntry) → TokenTracker store → Discovery
  process_whitelist_message none t = ([], t)
  process_whitelist_message (some pools) t = fold discover_pool ([], t) pools
