-- ===== src/Nats/Parse.antt =====
-- The parsers of src/nats_client.rs. serde_json, hex and the text form of an address are the interface
-- `Formats`.
use reth_exex_liquidity.Common.{
  ℕ, ◌+◌, ◌-◌, ◌*◌, ◌^◌, ltb, leb, ◌==◌, ◌&&◌, ◌||◌, if◌then◌else◌, Bool, true, false, Option, none,
  some, List, [], ◌∷◌,
}
use Prim.Native.String.{String}
use Prim.Native.Char.{code}
use reth_exex_liquidity.Common.Int.{ℤ}
use reth_exex_liquidity.Common.Words.{◌>>=◌}
use reth_exex_liquidity.Storage.Texts.{same_text, strip_prefix}
use reth_exex_liquidity.Storage.Balancer.{is_plausible_swap_fee}
use reth_exex_liquidity.Types.{
  Address, PoolId, PoolIdentifier, address, pool_id, Protocol, uniswap_v2, uniswap_v3, uniswap_v4,
  ekubo, curve_stable, curve_two_crypto, curve_tricrypto, balancer_v2_weighted, fluid,
  same_protocol, TokenMetadata, PoolMetadata,
}

pub record CanonicalToken : Type 0 where
  pub address : String
  pub decimals : ℕ

-- `Value` of serde_json by its accessors.
pub record JsonValue : Type 1 where
  pub Value : Type 0
  pub get : String → Value → Option Value
  pub as_array : Value → Option (List Value)
  pub as_u64 : Value → Option ℕ
  pub as_str : Value → Option String

module _ (json : JsonValue) where
  -- Missing fields with `#[serde(default)]` are `none` or empty.
  pub record CanonicalPool : Type 0 where
    pub address : String
    pub protocol : String
    pub token0 : CanonicalToken
    pub token1 : CanonicalToken
    pub fee : Option ℕ
    pub tick_spacing : Option ℤ
    pub pool_id : Option String
    pub factory : Option String
    pub extra_tokens : List CanonicalToken
    pub ekubo_fee : Option ℕ
    pub ekubo_type_config : Option ℕ
    pub additional_data : Option json.Value

-- A payload as serde_json reads it, or its error; `decode_to_slice` reads 64 digits.
pub record Formats : Type 1 where
  pub json : JsonValue
  pub Payload : Type 0
  pub full_snapshot : Payload → Option (List (CanonicalPool json))
  pub remove_snapshot : Payload → Option (List String)
  pub address_from_str : String → Option Address
  pub decode_to_slice : String → Option PoolId

-- `str::len`: the bytes of a text in UTF-8.
abbrev pub utf8_len : ℕ → ℕ
utf8_len c = if ltb c 128 then 1 else if ltb c 2048 then 2 else if ltb c 65536 then 3 else 4

abbrev pub text_len : String → ℕ
text_len String.[] = 0
text_len (String.◌∷◌ c s) = utf8_len (code c) + text_len s

unfoldable pub protocol_from_str : String → Option Protocol
protocol_from_str s =
    if same_text s "v2" || same_text s "uniswap_v2"
    then some uniswap_v2
    else if same_text s "v3" || same_text s "uniswap_v3"
    then some uniswap_v3
    else if same_text s "v4" || same_text s "uniswap_v4"
    then some uniswap_v4
    else if same_text s "ekubo"
    then some ekubo
    else if same_text s "curve_stable"
    then some curve_stable
    else if same_text s "curve_twocrypto"
    then some curve_two_crypto
    else if same_text s "curve_tricrypto"
    then some curve_tricrypto
    else if same_text s "balancer_v2_weighted"
    then some balancer_v2_weighted
    else if same_text s "fluid"
    then some fluid
    else none

-- `strip_prefix("0x")`.
unfoldable pub strip_0x : String → Option String
strip_0x s = strip_prefix 48 s >>= strip_prefix 120

abbrev pub unwrap_or {ℓ} : {A : Type ℓ} → A → Option A → A
unwrap_or d none = d
unwrap_or d (some x) = x

-- `u64` digits in base 10 or 16, up to the largest one.
unfoldable pub digit_value : ℕ → Option ℕ
digit_value c =
    if leb 48 c && leb c 57
    then some (c - 48)
    else if leb 65 c && leb c 70
    then some (c - 55)
    else if leb 97 c && leb c 102
    then some (c - 87)
    else none

unfoldable pub digits_u64 : (radix value : ℕ) → String → Option ℕ
digits_u64 radix n String.[] = some n
digits_u64 radix n (String.◌∷◌ c s) = digit_value (code c) >>= λ v.
    (let next = n * radix + v in
      if ltb v radix && ltb next (2 ^ 64) then digits_u64 radix next s else none)

-- `u64::from_str_radix`: one sign `+` at most, and a digit at least.
unfoldable pub parse_u64 : (radix : ℕ) → String → Option ℕ
parse_u64 radix String.[] = none
parse_u64 radix (String.◌∷◌ c String.[]) = digits_u64 radix 0 (String.◌∷◌ c String.[])
parse_u64 radix (String.◌∷◌ c (String.◌∷◌ d s)) =
    if code c == 43
    then digits_u64 radix 0 (String.◌∷◌ d s)
    else digits_u64 radix 0 (String.◌∷◌ c (String.◌∷◌ d s))

-- `White_Space` of Unicode.
unfoldable pub is_whitespace : ℕ → Bool
is_whitespace c =
    leb 9 c && leb c 13
    || c == 32
    || c == 133
    || c == 160
    || c == 5760
    || leb 8192 c && leb c 8202
    || c == 8232
    || c == 8233
    || c == 8239
    || c == 8287
    || c == 12288

unfoldable pub trim_start : String → String
trim_start String.[] = String.[]
trim_start (String.◌∷◌ c s) =
    let rest = trim_start s in if is_whitespace (code c) then rest else String.◌∷◌ c s

abbrev pub is_empty : String → Bool
is_empty String.[] = true
is_empty (String.◌∷◌ c s) = false

unfoldable pub trim_end : String → String
trim_end String.[] = String.[]
trim_end (String.◌∷◌ c s) =
    let rest = trim_end s in
    if is_whitespace (code c) && is_empty rest then String.[] else String.◌∷◌ c rest

module _ (f : Formats) where
  open f use {json}

  unfoldable pub canonical_token_to_metadata : CanonicalToken → Option TokenMetadata
  canonical_token_to_metadata t =
      f.address_from_str t.address >>= λ a. some (record { address = a; decimals = t.decimals })

  unfoldable pub parse_pool_identifier :
      (address : String) (pool_id : Option String) → Option PoolIdentifier
  parse_pool_identifier text id =
      let key = unwrap_or text id in
      let hex_str = unwrap_or key (strip_0x key) in
      if text_len hex_str == 64
      then (f.decode_to_slice hex_str >>= λ bytes. some (pool_id bytes))
      else (f.address_from_str key >>= λ a. some (address a))

  -- The tokens that are read, in order: `filter_map`.
  unfoldable pub read_tokens : List CanonicalToken → List TokenMetadata
  read_tokens [] = []
  read_tokens (t ∷ ts) = elim (canonical_token_to_metadata t) [
    | none ↦ read_tokens ts
    | some m ↦ m ∷ read_tokens ts
  ]

  unfoldable pub weight_of : json.Value → Option ℕ
  weight_of value = elim (json.as_u64 value) [
    | some n ↦ some n
    | none ↦ json.as_str value >>= λ s. elim (strip_0x (trim_start (trim_end s))) [
      | some hex ↦ parse_u64 16 hex
      | none ↦ parse_u64 10 (trim_start (trim_end s))
    ]
  ]

  unfoldable pub weights_of : List json.Value → Option (List ℕ)
  weights_of [] = some []
  weights_of (v ∷ vs) = weight_of v >>= λ w. weights_of vs >>= λ out. some (w ∷ out)

  unfoldable pub parse_balancer_weights : Option json.Value → Option (List ℕ)
  parse_balancer_weights d = d >>= json.get "weights" >>= json.as_array >>= weights_of

  unfoldable pub version_of : Option json.Value → Option String
  version_of d = d >>= json.get "version" >>= json.as_str

  unfoldable pub swap_fee_of : Option json.Value → Option ℕ
  swap_fee_of d = d >>= json.get "swap_fee" >>= json.as_u64 >>= λ fee.
      (if is_plausible_swap_fee fee then some fee else none)

  -- A Balancer pool's fields are kept apart from those of the other protocols.
  unfoldable pub metadata_of :
      CanonicalPool json → Protocol → PoolIdentifier → (token0 token1 : Address) → PoolMetadata
  metadata_of p protocol i token0 token1 =
      let is_balancer = same_protocol protocol balancer_v2_weighted in
      record {
        pool_id = i;
        token0 = token0;
        token1 = token1;
        protocol = protocol;
        factory = unwrap_or 0 (p.factory >>= f.address_from_str);
        tick_spacing = p.tick_spacing;
        fee = p.fee;
        token0_decimals = some p.token0.decimals;
        token1_decimals = some p.token1.decimals;
        extra_tokens = read_tokens p.extra_tokens;
        twocrypto_version = if is_balancer then none else version_of p.additional_data;
        ekubo_fee = p.ekubo_fee;
        ekubo_type_config = p.ekubo_type_config;
        balancer_weights = if is_balancer then parse_balancer_weights p.additional_data else none;
        balancer_swap_fee = if is_balancer then swap_fee_of p.additional_data else none;
        balancer_version = if is_balancer then version_of p.additional_data else none;
      }

  unfoldable pub canonical_pool_to_metadata : CanonicalPool json → Option PoolMetadata
  canonical_pool_to_metadata p = protocol_from_str p.protocol >>= λ protocol.
      parse_pool_identifier p.address p.pool_id >>= λ i.
      f.address_from_str p.token0.address >>= λ token0.
      f.address_from_str p.token1.address >>= λ token1.
      some (metadata_of p protocol i token0 token1)

  -- An entry that is not read is passed over.
  abbrev pub push_read {ℓ} : {A : Type ℓ} → Option A → List A → List A
  push_read none xs = xs
  push_read (some x) xs = x ∷ xs

  unfoldable pub read_pools : List (CanonicalPool json) → List PoolMetadata
  read_pools [] = []
  read_pools (p ∷ ps) = push_read (canonical_pool_to_metadata p) (read_pools ps)

  unfoldable pub parse_full_snapshot : f.Payload → Option (List PoolMetadata)
  parse_full_snapshot payload = f.full_snapshot payload >>= λ pools. some (read_pools pools)

  unfoldable pub read_identifiers : List String → List PoolIdentifier
  read_identifiers [] = []
  read_identifiers (a ∷ texts) = push_read (parse_pool_identifier a none) (read_identifiers texts)

  unfoldable pub parse_remove_snapshot : f.Payload → Option (List PoolIdentifier)
  parse_remove_snapshot payload =
      f.remove_snapshot payload >>= λ texts. some (read_identifiers texts)
