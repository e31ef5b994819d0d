-- ===== src/Storage/Vault.antt =====
-- The balances of a Balancer pool in the Vault's storage: the slots of src/balancer_storage.rs, and
-- `read_balancer_v2_balances` of src/main.rs. keccak is a parameter: of two words in a row, and of two
-- addresses in a row.
use reth_exex_liquidity.Common.{
  ℕ, ◌+◌, ◌/◌, ◌%◌, ◌^◌, ltb, ◌==◌, ◌&&◌, if◌then◌else◌, Option, none, some, List, [], ◌∷◌,
}
use reth_exex_liquidity.Common.Words.{u128_mod, add256}
use reth_exex_liquidity.Types.{Address, PoolId}
use reth_exex_liquidity.Tracker.{balancer_v2_vault}
use reth_exex_liquidity.Storage.State.{StateProvider, read_storage_slot}
use reth_exex_liquidity.Storage.Balancer.{
  PoolSpecialization, general, minimal_swap_info, two_token, from_pool_id, decode_packed_balance,
  decode_two_token_shared,
}

-- `checked_add`, and the cash alone where the sum does not fit.
abbrev pub effective : (cash managed : ℕ) → ℕ
effective cash managed = if ltb (cash + managed) u128_mod then cash + managed else cash

-- The two fields of 112 bits that a word of balances holds.
abbrev pub low_field : (word : ℕ) → ℕ
low_field word = word % 2 ^ 112

abbrev pub high_field : (word : ℕ) → ℕ
high_field word = word / 2 ^ 112 % 2 ^ 112

-- Two answers as one.
unfoldable pub both_of : Option ℕ → Option ℕ → Option (List ℕ)
both_of none y = none
both_of (some x) none = none
both_of (some x) (some y) = some (x ∷ y ∷ [])

module _ (keccak_slot keccak_pair : ℕ → ℕ → ℕ) where
  unfoldable pub vault_balance_slot : PoolId → Address → ℕ
  vault_balance_slot i token = keccak_slot token (keccak_slot i 7)

  unfoldable pub two_token_struct_base : PoolId → ℕ
  two_token_struct_base i = keccak_slot i 9

  unfoldable pub two_token_shared_cash_slot : PoolId → (pair_hash : ℕ) → ℕ
  unfolding two_token_struct_base
  two_token_shared_cash_slot i pair_hash =
      keccak_slot pair_hash (add256 (two_token_struct_base i) 2)

  module _ (state : StateProvider) (i : PoolId) where
    abbrev pub vault_word : ℕ → ℕ
    vault_word slot = read_storage_slot state balancer_v2_vault slot

    -- The last 20 bytes of the words for tokenA and tokenB.
    unfoldable pub token_a : Address
    unfolding two_token_struct_base
    token_a = vault_word (two_token_struct_base i) % 2 ^ 160

    unfoldable pub token_b : Address
    unfolding two_token_struct_base
    token_b = vault_word (add256 (two_token_struct_base i) 1) % 2 ^ 160

    -- The balances of tokenA and tokenB.
    unfoldable pub two_token_balances : ℕ × ℕ
    unfolding two_token_shared_cash_slot token_a token_b
    two_token_balances =
        let cash_slot = two_token_shared_cash_slot i (keccak_pair token_a token_b) in
        let cash = decode_two_token_shared (vault_word cash_slot) in
        let managed = decode_two_token_shared (vault_word (add256 cash_slot 1)) in
        (effective cash.0 managed.0, effective cash.1 managed.1)

    unfoldable pub read_two_token : List Address → Option (List ℕ)
    unfolding two_token_balances token_a token_b
    read_two_token (t0 ∷ t1 ∷ []) =
        let (bal_a, bal_b) = two_token_balances in
        if t0 == token_a && t1 == token_b
        then some (bal_a ∷ bal_b ∷ [])
        else if t0 == token_b && t1 == token_a
        then some (bal_b ∷ bal_a ∷ [])
        else none
    read_two_token _ = none

    unfoldable pub read_minimal : List Address → List ℕ
    unfolding vault_balance_slot
    read_minimal [] = []
    read_minimal (token ∷ tokens) =
        let packed = decode_packed_balance (vault_word (vault_balance_slot i token)) in
        effective packed.0 packed.1 ∷ read_minimal tokens

    unfoldable pub read_specialized : PoolSpecialization → List Address → Option (List ℕ)
    unfolding read_two_token read_minimal
    read_specialized two_token tokens = read_two_token tokens
    read_specialized minimal_swap_info tokens = some (read_minimal tokens)
    read_specialized general tokens = none

    unfoldable pub read_balancer_v2_balances : (expected_tokens : List Address) → Option (List ℕ)
    unfolding read_specialized
    read_balancer_v2_balances tokens = read_specialized (from_pool_id i) tokens

    -- The balance that the Vault holds of a token: cash and managed together. By the layout of its storage a
    -- pool of the minimal swap info kind has a word for each token, with both. A two-token pool has its tokens
    -- in two words behind its struct's base, and in the two words of their pair's hash the cash and the managed
    -- amounts: tokenA's in the low fields and tokenB's in the high ones.
    unfoldable pub own_balance : PoolSpecialization → Address → Option ℕ
    own_balance general t = none
    own_balance minimal_swap_info t =
        let word = vault_word (keccak_slot t (keccak_slot i 7)) in
        some (low_field word + high_field word)
    own_balance two_token t =
        let base = keccak_slot i 9 in
        let a = vault_word base % 2 ^ 160 in
        let b = vault_word (add256 base 1) % 2 ^ 160 in
        let shared = keccak_slot (keccak_pair a b) (add256 base 2) in
        let cash = vault_word shared in
        let managed = vault_word (add256 shared 1) in
        if t == a
        then some (low_field cash + low_field managed)
        else if t == b
        then some (high_field cash + high_field managed)
        else none
