-- ===== src/Types.antt =====
-- src/types.rs, first half: pool identifiers, protocols and the whitelist's pool metadata.
-- An `Address` is the number its 20 bytes spell, most significant byte first, and a pool id
-- (`[u8; 32]`) the number its 32 bytes spell; an unsigned integer of any width is a ℕ.
use reth_exex_liquidity.Common.{
  ℕ, Bool, true, false, Option, none, some, List, ◌≡◌, ◌==◌, ==-refl, arith,
}
use reth_exex_liquidity.Common.Int.{ℤ}
use Prim.Native.String.{String}

abbrev pub Address : Type 0
Address = ℕ

abbrev pub PoolId : Type 0
PoolId = ℕ

pub data PoolIdentifier : Type 0 where
  address : Address → PoolIdentifier
  pool_id : PoolId → PoolIdentifier

unfoldable pub as_address : PoolIdentifier → Option Address
as_address (address a) = some a
as_address (pool_id i) = none

unfoldable pub as_pool_id : PoolIdentifier → Option PoolId
as_pool_id (address a) = none
as_pool_id (pool_id i) = some i

-- The derived `PartialEq`.
abbrev pub same_identifier : PoolIdentifier → PoolIdentifier → Bool
same_identifier (address a) (address b) = a == b
same_identifier (address a) (pool_id j) = false
same_identifier (pool_id i) (address b) = false
same_identifier (pool_id i) (pool_id j) = i == j

pub same_identifier_refl : (p : PoolIdentifier) → same_identifier p p ≡ true
same_identifier_refl (address a) = ==-refl a
same_identifier_refl (pool_id i) = ==-refl i

pub data Protocol : Type 0 where
  uniswap_v2 uniswap_v3 uniswap_v4 ekubo curve_stable curve_two_crypto : Protocol
  curve_tricrypto balancer_v2_weighted fluid : Protocol

-- The derived `PartialEq`, through the variant's number.
abbrev pub discriminant : Protocol → ℕ
discriminant uniswap_v2 = 0
discriminant uniswap_v3 = 1
discriminant uniswap_v4 = 2
discriminant ekubo = 3
discriminant curve_stable = 4
discriminant curve_two_crypto = 5
discriminant curve_tricrypto = 6
discriminant balancer_v2_weighted = 7
discriminant fluid = 8

abbrev pub same_protocol : Protocol → Protocol → Bool
same_protocol p q = discriminant p == discriminant q

pub same_protocol_eq : (p q : Protocol) → same_protocol p q ≡ true → p ≡ q
same_protocol_eq uniswap_v2 q e = ground arith
same_protocol_eq _ q e = ground arith

pub same_protocol_agree :
    (p q r : Protocol) → same_protocol p q ≡ true → same_protocol p r ≡ same_protocol q r
same_protocol_agree p q r e = ground arith

pub record TokenMetadata : Type 0 where
  pub address : Address
  pub decimals : ℕ

pub record PoolMetadata : Type 0 where
  pub pool_id : PoolIdentifier
  pub token0 : Address
  pub token1 : Address
  pub protocol : Protocol
  pub factory : Address
  pub tick_spacing : Option ℤ
  pub fee : Option ℕ
  pub token0_decimals : Option ℕ
  pub token1_decimals : Option ℕ
  pub extra_tokens : List TokenMetadata
  pub twocrypto_version : Option String
  pub ekubo_fee : Option ℕ
  pub ekubo_type_config : Option ℕ
  pub balancer_weights : Option (List ℕ)
  pub balancer_swap_fee : Option ℕ
  pub balancer_version : Option String

pub same_identifier_eq : (p q : PoolIdentifier) → same_identifier p q ≡ true → p ≡ q
same_identifier_eq (address a) (address b) e = ground arith
same_identifier_eq (address a) (pool_id j) e = cc
same_identifier_eq (pool_id i) (address b) e = cc
same_identifier_eq (pool_id i) (pool_id j) e = ground arith
