-- ===== src/Nats/Tracked.antt =====
-- What a message of the control plane makes of the whitelist.
use reth_exex_liquidity.Common.{
  ◌≡◌, refl, ap, ◌∙◌, arith, ◌&&◌, ◌||◌, not, if◌then◌else◌, Bool, true, false, is_some, Option,
  none, some, Bool-cases, inl, inr, List, [], ◌∷◌, All, fold,
}
use Prim.Native.String.{String}
use reth_exex_liquidity.Common.Words.{◌>>=◌}
use reth_exex_liquidity.Storage.Texts.{same_text}
use reth_exex_liquidity.Types.{
  Address, PoolIdentifier, address, pool_id, same_identifier, Protocol, PoolMetadata,
}
use reth_exex_liquidity.Tracker.{PoolTracker, add, remove, replace}
use reth_exex_liquidity.Tracker.Roles.{Role, Directory, Fits, WellFormed}
use reth_exex_liquidity.Tracker.Updates.{queue_update, apply_update, is_tracked, lists}
use reth_exex_liquidity.Tracker.Snapshots.{replace_all_effect}
use reth_exex_liquidity.Tracker.Effects.{mentions, remove_pools_effect}
use reth_exex_liquidity.Tracker.Additions.{add_pools_effect}
use reth_exex_liquidity.Tracker.Deferral.{framed, queue_update_now, idle_framed}
use reth_exex_liquidity.Nats.Parse.{
  CanonicalPool, Formats, protocol_from_str, parse_pool_identifier, metadata_of,
  canonical_pool_to_metadata, push_read, read_pools, parse_full_snapshot, read_identifiers,
  parse_remove_snapshot,
}
use reth_exex_liquidity.Nats.Handle.{
  Canonical, unread, ignored, update, update_or, canonical_update, last_segment, queue_canonical,
  handle_message,
}

module _ (f : Formats) where
  abbrev names : Option PoolIdentifier → PoolIdentifier → Bool
  names none q = false
  names (some i) q = same_identifier i q

  -- The entry is of a known protocol with two token addresses, and its key is the pool's.
  abbrev pub names_pool : CanonicalPool f.json → PoolIdentifier → Bool
  names_pool p q =
      is_some (protocol_from_str p.protocol)
      && is_some (f.address_from_str p.token0.address)
      && is_some (f.address_from_str p.token1.address)
      && names (parse_pool_identifier f p.address p.pool_id) q

  unfoldable pub names_listed : List (CanonicalPool f.json) → PoolIdentifier → Bool
  names_listed [] q = false
  names_listed (p ∷ ps) q = names_pool p q || names_listed ps q

  unfoldable pub names_removed : List String → PoolIdentifier → Bool
  names_removed [] q = false
  names_removed (text ∷ texts) q =
      names (parse_pool_identifier f text none) q || names_removed texts q

  -- An entry is read as its four parts are.
  lists-push_read :
      (a : Option Protocol) (i : Option PoolIdentifier) (t0 t1 : Option Address)
      (p : CanonicalPool f.json) (rest : List PoolMetadata) (q : PoolIdentifier)
      → lists
          (push_read f
            (a >>= λ x. i >>= λ y. t0 >>= λ z. t1 >>= λ w. some (metadata_of f p x y z w))
            rest)
          q
        ≡ (is_some a && is_some t0 && is_some t1 && names i q || lists rest q)
  unfolding lists metadata_of
  lists-push_read none i t0 t1 p rest q = refl
  lists-push_read (some x) none t0 t1 p rest q = ground arith
  lists-push_read (some x) (some y) none t1 p rest q = refl
  lists-push_read (some x) (some y) (some z) none p rest q = refl
  lists-push_read (some x) (some y) (some z) (some w) p rest q = ground arith

  lists-read_pools :
      (ps : List (CanonicalPool f.json)) (q : PoolIdentifier)
      → lists (read_pools f ps) q ≡ names_listed ps q
  unfolding lists read_pools names_listed canonical_pool_to_metadata
  lists-read_pools [] q = refl
  lists-read_pools (p ∷ ps) q =
      lists-push_read (protocol_from_str p.protocol) (parse_pool_identifier f p.address p.pool_id)
        (f.address_from_str p.token0.address) (f.address_from_str p.token1.address) p
        (read_pools f ps) q
      ∙ ap (λ b. names_pool p q || b) (lists-read_pools ps q)

  mentions-push_read :
      (o : Option PoolIdentifier) (rest : List PoolIdentifier) (q : PoolIdentifier)
      → mentions (push_read f o rest) q ≡ (names o q || mentions rest q)
  unfolding mentions
  mentions-push_read none rest q = refl
  mentions-push_read (some i) rest q = ground arith

  mentions-read_identifiers :
      (texts : List String) (q : PoolIdentifier)
      → mentions (read_identifiers f texts) q ≡ names_removed texts q
  unfolding mentions read_identifiers names_removed
  mentions-read_identifiers [] q = refl
  mentions-read_identifiers (text ∷ texts) q =
      mentions-push_read (parse_pool_identifier f text none) (read_identifiers f texts) q
      ∙ ap (λ b. names (parse_pool_identifier f text none) q || b)
          (mentions-read_identifiers texts q)

  -- What the whitelist holds behind a message, by its subject's last part and the entries of its payload.
  abbrev pub listed_after :
      (full_entries : Option (List (CanonicalPool f.json))) → Bool → PoolIdentifier → Bool
  listed_after none before q = before
  listed_after (some ps) before q = names_listed ps q

  abbrev pub added_after : Option (List (CanonicalPool f.json)) → Bool → PoolIdentifier → Bool
  added_after none before q = before
  added_after (some ps) before q = names_listed ps q || before

  abbrev pub kept_after : Option (List String) → Bool → PoolIdentifier → Bool
  kept_after none before q = before
  kept_after (some texts) before q = not (names_removed texts q) && before

  abbrev pub read_entries : Option (List (CanonicalPool f.json)) → List PoolMetadata
  read_entries none = []
  read_entries (some ps) = read_pools f ps

  module _ (roles : Address → Role) (directory : Directory roles) (t : PoolTracker)
      (formed : WellFormed roles t) (q : PoolIdentifier) where
    abbrev applied : Canonical → PoolTracker
    applied c = elim c [ unread ↦ t | ignored ↦ t | update u ↦ apply_update t u ]

    full_tracked :
        (o : Option (List (CanonicalPool f.json)))
        → All (Fits roles) (read_entries o)
        → is_tracked (applied (update_or replace (o >>= λ ps. some (read_pools f ps)))) q
          ≡ listed_after o (is_tracked t q) q
    unfolding apply_update
    full_tracked none fits = refl
    full_tracked (some ps) fits =
        (replace_all_effect roles directory (read_pools f ps) t q fits formed).0
        ∙ lists-read_pools ps q

    add_tracked :
        (o : Option (List (CanonicalPool f.json)))
        → All (Fits roles) (read_entries o)
        → is_tracked (applied (update_or add (o >>= λ ps. some (read_pools f ps)))) q
          ≡ added_after o (is_tracked t q) q
    unfolding apply_update
    add_tracked none fits = refl
    add_tracked (some ps) fits =
        (add_pools_effect roles directory (read_pools f ps) true t q fits formed.coherent).0
        ∙ ap (λ b. b || is_tracked t q) (lists-read_pools ps q)

    remove_tracked :
        (o : Option (List String))
        → is_tracked (applied (update_or remove (o >>= λ texts. some (read_identifiers f texts)))) q
          ≡ kept_after o (is_tracked t q) q
    unfolding apply_update
    remove_tracked none = refl
    remove_tracked (some texts) = ground (
      arith,
      remove_pools_effect (read_identifiers f texts) t q,
      mentions-read_identifiers texts q,
    )

    framed_tracked : (u : PoolTracker) → is_tracked (framed [] false u) q ≡ is_tracked u q
    unfolding is_tracked
    framed_tracked u = elim q [ address a ↦ refl | pool_id i ↦ refl ]

    queued_tracked :
        t.in_block ≡ false
        → t.pending_updates ≡ []
        → (c : Canonical) → is_tracked (queue_canonical c t).0 q ≡ is_tracked (applied c) q
    unfolding fold
    queued_tracked idle empty unread = refl
    queued_tracked idle empty ignored = refl
    queued_tracked idle empty (update u) =
        ap (λ s. is_tracked (queue_update s u) q) (idle_framed t idle empty)
        ∙ ap (λ s. is_tracked s q) (queue_update_now (u ∷ []) t)
        ∙ framed_tracked (apply_update t u)

    -- What a pool's entry on the whitelist is after a message, by the last part of its subject.
    abbrev tracked_after : (suffix : String) → f.Payload → Bool
    tracked_after suffix payload =
        if same_text suffix "full"
        then listed_after (f.full_snapshot payload) (is_tracked t q) q
        else if same_text suffix "add"
        then added_after (f.full_snapshot payload) (is_tracked t q) q
        else if same_text suffix "remove"
        then kept_after (f.remove_snapshot payload) (is_tracked t q) q
        else is_tracked t q

    canonical_tracked :
        (suffix : String) (payload : f.Payload)
        → All (Fits roles) (read_entries (f.full_snapshot payload))
        → is_tracked (applied (canonical_update f suffix payload)) q ≡ tracked_after suffix payload
    unfolding canonical_update parse_full_snapshot parse_remove_snapshot
    canonical_tracked suffix payload fits = elim (Bool-cases (same_text suffix "full")) [
      | inl e ↦ rw (e) (full_tracked (f.full_snapshot payload) fits)
      | inr e ↦ elim (Bool-cases (same_text suffix "add")) [
        | inl k ↦ rw (e, k) (add_tracked (f.full_snapshot payload) fits)
        | inr k ↦ elim (Bool-cases (same_text suffix "remove")) [
          | inl l ↦ rw (e, k, l) (remove_tracked (f.remove_snapshot payload))
          | inr l ↦ rw (e, k, l) refl
        ]
      ]
    ]

    -- For a well-formed tracker outside a block with nothing pending, a payload whose pools fit the roles, and any
    -- pool: behind a message on a `.full` subject it is whitelisted exactly if an entry of the payload names it; on
    -- an `.add` subject, if it was or an entry names it; on a `.remove` subject, if it was and no text of the payload
    -- names it; and any other message, and one that is not read, changes nothing. An entry names a pool where its
    -- protocol and both token addresses are known, and its pool id, or its address without one, is the pool's.
    pub handle_message_tracked :
        (subject : String) (payload : f.Payload)
        → t.in_block ≡ false
        → t.pending_updates ≡ []
        → All (Fits roles) (read_entries (f.full_snapshot payload))
        → is_tracked (handle_message f subject payload t).0 q
          ≡ tracked_after (last_segment subject) payload
    unfolding handle_message
    handle_message_tracked subject payload idle empty fits =
        queued_tracked idle empty (canonical_update f (last_segment subject) payload)
        ∙ canonical_tracked (last_segment subject) payload fits
