-- ===== src/Nats/Handle.antt =====
-- `canonical_update` of src/nats_client.rs, and the task of src/main.rs that queues the updates.
use reth_exex_liquidity.Common.{
  ◌==◌, if◌then◌else◌, Bool, true, false, Option, none, some, List, [], ◌∷◌,
}
use Prim.Native.String.{String}
use Prim.Native.Char.{code}
use reth_exex_liquidity.Storage.Texts.{same_text}
use reth_exex_liquidity.Types.{Address, fluid, same_protocol, PoolMetadata, as_address}
use reth_exex_liquidity.Tracker.{PoolTracker, WhitelistUpdate, add, remove, replace}
use reth_exex_liquidity.Tracker.Updates.{queue_update}
use reth_exex_liquidity.Nats.Parse.{Formats, parse_full_snapshot, parse_remove_snapshot}

-- `Result<Option<WhitelistUpdate>>`: a message that is not read, one that is ignored, and an update.
pub data Canonical : Type 0 where
  unread ignored : Canonical
  update : WhitelistUpdate → Canonical

abbrev pub update_or {ℓ} : {A : Type ℓ} → (A → WhitelistUpdate) → Option A → Canonical
update_or f none = unread
update_or f (some x) = update (f x)

unfoldable pub canonical_update : (f : Formats) (subject_suffix : String) → f.Payload → Canonical
canonical_update f suffix payload =
    if same_text suffix "full"
    then update_or replace (parse_full_snapshot f payload)
    else if same_text suffix "add"
    then update_or add (parse_full_snapshot f payload)
    else if same_text suffix "remove"
    then update_or remove (parse_remove_snapshot f payload)
    else ignored

-- `rsplit('.').next()`: what stands behind the last dot.
unfoldable pub has_dot : String → Bool
has_dot String.[] = false
has_dot (String.◌∷◌ c s) = if code c == 46 then true else has_dot s

unfoldable pub last_segment : String → String
last_segment String.[] = String.[]
last_segment (String.◌∷◌ c s) =
    let rest = last_segment s in
    if has_dot s then rest else if code c == 46 then s else String.◌∷◌ c s

unfoldable pub fluid_addresses : List PoolMetadata → List Address
fluid_addresses [] = []
fluid_addresses (m ∷ pools) =
    let rest = fluid_addresses pools in
    if same_protocol m.protocol fluid
    then elim (as_address m.pool_id) [ none ↦ rest | some a ↦ a ∷ rest ]
    else rest

unfoldable pub extract_fluid_addresses : WhitelistUpdate → List Address
extract_fluid_addresses (add pools) = fluid_addresses pools
extract_fluid_addresses (replace pools) = fluid_addresses pools
extract_fluid_addresses (remove ids) = []

-- The tracker, and the Fluid pools whose configurations are asked for.
abbrev pub queue_canonical : Canonical → PoolTracker → PoolTracker × List Address
queue_canonical unread t = (t, [])
queue_canonical ignored t = (t, [])
queue_canonical (update u) t = (queue_update t u, extract_fluid_addresses u)

unfoldable pub handle_message :
    (f : Formats) (subject : String) → f.Payload → PoolTracker → PoolTracker × List Address
handle_message f subject payload t =
    queue_canonical (canonical_update f (last_segment subject) payload) t
