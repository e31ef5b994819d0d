-- ===== src/Tests/Nats.antt =====
-- The theorem on whitelist messages at an `.add` message with one pool.
use reth_exex_liquidity.Common.{◌≡◌, refl, none, some, true, false, List, [], ◌∷◌, All, fold}
use reth_exex_liquidity.Common.Sets
use reth_exex_liquidity.Common.Maps
use reth_exex_liquidity.Types.{address}
use reth_exex_liquidity.Tracker.{
  new, add_pools, add_pool, already_tracked, surface_added, track, track_singleton,
  ensure_liquidity_layer,
}
use reth_exex_liquidity.Counts.{increment, zero_counts}
use reth_exex_liquidity.Tracker.Roles.{Fits}
use reth_exex_liquidity.Tracker.Updates.{
  queue_update, apply_pending_updates, drain, apply_update, is_tracked,
}
use reth_exex_liquidity.Storage.Texts.{same_text, strip_prefix}
use reth_exex_liquidity.Nats.Parse.{
  JsonValue, CanonicalPool, CanonicalToken, Formats, text_len, read_pools,
  canonical_pool_to_metadata, protocol_from_str, parse_pool_identifier, metadata_of, strip_0x,
}
use reth_exex_liquidity.Nats.Handle.{handle_message, last_segment, has_dot}
use reth_exex_liquidity.Nats.Tracked.{names_listed, handle_message_tracked}
use reth_exex_liquidity.Tests.Samples.{sample_roles, sample-Directory, filled, filled-WellFormed}

abbrev plain_json : JsonValue
plain_json = record {
  Value = Unit;
  get = λ k v. none;
  as_array = λ v. none;
  as_u64 = λ v. none;
  as_str = λ v. none;
}

-- An address is the number of its text's characters, and a payload is what it holds.
abbrev sample_formats : Formats
sample_formats = record {
  json = plain_json;
  Payload = List (CanonicalPool plain_json);
  full_snapshot = λ payload. some payload;
  remove_snapshot = λ payload. none;
  address_from_str = λ text. some (text_len text);
  decode_to_slice = λ text. none;
}

abbrev token : CanonicalToken
token = record { address = "0xab"; decimals = 18 }

abbrev added_pool : CanonicalPool plain_json
added_pool = record {
  address = "0xabcdef01";
  protocol = "v2";
  token0 = token;
  token1 = token;
  fee = none;
  tick_spacing = none;
  pool_id = none;
  factory = none;
  extra_tokens = [];
  ekubo_fee = none;
  ekubo_type_config = none;
  additional_data = none;
}

added-Fits : All (Fits sample_roles) (read_pools sample_formats (added_pool ∷ []))
unfolding read_pools canonical_pool_to_metadata protocol_from_str parse_pool_identifier metadata_of
    strip_0x strip_prefix same_text
added-Fits = (refl, tt)

filled_outside : (filled.in_block ≡ false) × (filled.pending_updates ≡ [])
unfolding new queue_update apply_pending_updates drain apply_update add_pools add_pool fold
    already_tracked surface_added track track_singleton ensure_liquidity_layer increment zero_counts
    Sets.contains Sets.insert Maps.insert
filled_outside = (refl, refl)

handle_message_tracked_example :
    is_tracked
      (handle_message sample_formats "whitelist.pools.ethereum.add" (added_pool ∷ []) filled).0
      (address 10)
    ≡ true
unfolding last_segment has_dot same_text names_listed protocol_from_str parse_pool_identifier
    strip_0x strip_prefix
handle_message_tracked_example =
    handle_message_tracked sample_formats sample_roles sample-Directory filled filled-WellFormed
      (address 10) "whitelist.pools.ethereum.add" (added_pool ∷ []) filled_outside.0
      filled_outside.1 added-Fits
