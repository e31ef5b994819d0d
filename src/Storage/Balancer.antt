-- ===== src/Storage/Balancer.antt =====
-- src/balancer_storage.rs: the packed words of Balancer V2 vaults and weighted pools.
use reth_exex_liquidity.Common.{
  ℕ, ◌+◌, ◌*◌, ◌/◌, ◌%◌, ◌^◌, ◌<◌, ◌≡◌, arith, Bool, true, leb, ltb, ◌&&◌, ◌==◌, if◌then◌else◌,
  Option, none, some,
}
use reth_exex_liquidity.Common.Words.{u128_mod, ◌>>=◌, bind_some}
use reth_exex_liquidity.Types.{Address, PoolId}
use reth_exex_liquidity.Storage.State.{StateProvider, read_storage_slot, to_u64}
use reth_exex_liquidity.Storage.Texts.{same_text, parse_u32, strip_prefix}
use Prim.Native.String.{String}

-- cash, managed, and the block of the last change.
unfoldable pub decode_packed_balance : ℕ → ℕ × ℕ × ℕ
decode_packed_balance packed = (
  packed % 2 ^ 112 % u128_mod,
  packed / 2 ^ 112 % 2 ^ 112 % u128_mod,
  packed / 2 ^ 224 % 2 ^ 64 % 2 ^ 32,
)

-- The balances of both tokens, and the block of the last change.
unfoldable pub decode_two_token_shared : ℕ → ℕ × ℕ × ℕ
decode_two_token_shared packed = (
  packed % 2 ^ 112 % u128_mod,
  packed / 2 ^ 112 % 2 ^ 112 % u128_mod,
  packed / 2 ^ 224 % 2 ^ 64 % 2 ^ 32,
)

unfoldable pub decode_two_token_swap_fee : ℕ → ℕ
decode_two_token_swap_fee misc = misc / 2 ^ 86 % 2 ^ 64

unfoldable pub decode_pool_state_swap_fee : ℕ → ℕ
decode_pool_state_swap_fee word = word / 2 ^ 192 % 2 ^ 64

unfoldable pub is_plausible_swap_fee : ℕ → Bool
is_plausible_swap_fee fee = leb 1_000_000_000_000 fee && leb fee 100_000_000_000_000_000

-- Where an implementation of a weighted pool keeps its swap fee.
pub data BalancerFeeLayout : Type 0 where
  slot_7 misc_data pool_state : BalancerFeeLayout

unfoldable pub fee_layout_for_version : String → Option BalancerFeeLayout
fee_layout_for_version version =
    if same_text version "v1"
    then some slot_7
    else if same_text version "2tokens"
    then some misc_data
    else strip_prefix 118 version >>= λ rest.
        parse_u32 rest >>= λ n. (if leb 2 n then some pool_state else none)

-- The fee at a layout's place; `u64::try_from` for the plain word.
unfoldable pub fee_at : StateProvider → Address → BalancerFeeLayout → Option ℕ
fee_at state pool_addr slot_7 = to_u64 (read_storage_slot state pool_addr 7)
fee_at state pool_addr misc_data =
    some (decode_two_token_swap_fee (read_storage_slot state pool_addr 8))
fee_at state pool_addr pool_state =
    some (decode_pool_state_swap_fee (read_storage_slot state pool_addr 8))

-- `read_balancer_swap_fee_onchain` of src/main.rs: by the version, or else the first plausible fee.
unfoldable pub read_balancer_swap_fee_onchain : StateProvider → Address → Option String → Option ℕ
read_balancer_swap_fee_onchain state pool_addr version = elim version [
  | some v ↦ fee_layout_for_version v >>= λ layout. fee_at state pool_addr layout >>= λ fee.
      (if is_plausible_swap_fee fee then some fee else none)
  | none ↦
      let s7 = read_storage_slot state pool_addr 7 in
      let fee = decode_two_token_swap_fee (read_storage_slot state pool_addr 8) in
      if ltb s7 (2 ^ 64) && is_plausible_swap_fee s7
      then some s7
      else if is_plausible_swap_fee fee
      then some fee
      else none
]

pub data PoolSpecialization : Type 0 where
  general minimal_swap_info two_token : PoolSpecialization

-- Bytes 20 and 21 of the 32.
unfoldable pub from_pool_id : PoolId → PoolSpecialization
from_pool_id i =
    let tag = i / 2 ^ 80 % 2 ^ 16 in
    if tag == 1 then minimal_swap_info else if tag == 2 then two_token else general

-- A word with two fields of 112 bits and one of 32.
abbrev pub pack_balances : ℕ → ℕ → ℕ → ℕ
pack_balances a b block = a + b * 2 ^ 112 + block * 2 ^ 224

decode_balances-pack_balances :
    (a b block : ℕ)
    → a < 2 ^ 112
    → b < 2 ^ 112
    → block < 2 ^ 32
    → (decode_packed_balance (pack_balances a b block) ≡ (a, b, block))
      × (decode_two_token_shared (pack_balances a b block) ≡ (a, b, block))
unfolding decode_packed_balance decode_two_token_shared
decode_balances-pack_balances a b block h k l =
    let w = pack_balances a b block in
    let e0 : w % 2 ^ 112 % u128_mod ≡ a = omega arith in
    let e1 : w / 2 ^ 112 % 2 ^ 112 % u128_mod ≡ b = omega arith in
    let e2 : w / 2 ^ 224 % 2 ^ 64 % 2 ^ 32 ≡ block = omega arith in
    (rw (e0, e1, e2), rw (e0, e1, e2))

decode_swap_fee_words :
    (fee below above : ℕ)
    → fee < 2 ^ 64
    → below < 2 ^ 86
    → (decode_two_token_swap_fee (below + fee * 2 ^ 86 + above * 2 ^ 150) ≡ fee)
      × (decode_pool_state_swap_fee (below + fee * 2 ^ 192) ≡ fee)
unfolding decode_two_token_swap_fee decode_pool_state_swap_fee
decode_swap_fee_words fee below above h k = (omega arith, omega arith)

-- Both balance decoders read back the fields that a vault packs, two balances of 112 bits and a block number
-- of 32, and both packed layouts of the swap fee give it back, a fee of 64 bits, whatever stands below it and,
-- in a `_miscData` word, above it.
pub decode_balancer_words :
    (a b block fee below above : ℕ)
    → a < 2 ^ 112
    → b < 2 ^ 112
    → block < 2 ^ 32
    → fee < 2 ^ 64
    → below < 2 ^ 86
    → ((decode_packed_balance (pack_balances a b block) ≡ (a, b, block))
        × (decode_two_token_shared (pack_balances a b block) ≡ (a, b, block)))
      × (decode_two_token_swap_fee (below + fee * 2 ^ 86 + above * 2 ^ 150) ≡ fee)
      × (decode_pool_state_swap_fee (below + fee * 2 ^ 192) ≡ fee)
decode_balancer_words a b block fee below above h k l m n = (
  decode_balances-pack_balances a b block h k l,
  (decode_swap_fee_words fee below above m n).0,
  (decode_swap_fee_words fee below above m n).1,
)

-- Whatever the version says, and with none: a fee that the reader answers lies within the limits of the
-- vault; for a version `v1` it is the word of slot 7, with `2tokens` and from `v2` on a field of slot 8.
pub read_balancer_swap_fee_onchain_plausible :
    (state : StateProvider) (pool_addr : Address) (version : Option String) {fee : ℕ}
    → read_balancer_swap_fee_onchain state pool_addr version ≡ some fee
    → is_plausible_swap_fee fee ≡ true
unfolding read_balancer_swap_fee_onchain
read_balancer_swap_fee_onchain_plausible state pool_addr none e = grind arith
read_balancer_swap_fee_onchain_plausible state pool_addr (some v) e =
    let (layout, at, read) = bind_some (fee_layout_for_version v) _ e in
    let (f, found, kept) = bind_some (fee_at state pool_addr layout) _ read in grind arith
