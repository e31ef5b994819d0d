-- ===== src/Liquidity/Update/Returns.antt =====
-- When `create_pool_update` (src/main.rs) does not panic.
use reth_exex_liquidity.Common.{
  ℕ, zero, suc, ◌+◌, ◌-◌, ◌^◌, ◌<◌, ◌≤◌, ◌≡◌, refl, arith, leb, if◌then◌else◌, Bool, true, false,
  Option, none, some, List, [], ◌∷◌, is_some, All, Option-cases, inl, inr,
}
use reth_exex_liquidity.Common.Words.{◌>>=◌}
use reth_exex_liquidity.Types.{Address, PoolId, address, pool_id, uniswap_v2, balancer_v2_weighted}
use reth_exex_liquidity.Wire.{UpdateType, swap, mint, balancer_fee_update, v2_sync}
use reth_exex_liquidity.Events.{DecodedEvent}
use reth_exex_liquidity.Events
use reth_exex_liquidity.Tracker.{PoolTracker}
use reth_exex_liquidity.Tracker.Updates.{balancer_pool_id_for_addr}
use reth_exex_liquidity.Storage.State.{StateProvider, read_storage_slot, to_u128, to_u64}
use reth_exex_liquidity.Storage.Curve.{
  twocrypto_storage_slots, read_twocrypto_full_state, read_tricrypto_full_state,
  read_effective_balances, read_curve_stable_liquidity_state,
}
use reth_exex_liquidity.Liquidity.Update.{
  some_update, is_tricrypto, twocrypto_version_of, tricrypto_update, twocrypto_update,
  crypto_state_message, stable_state_message, balancer_fee_message, create_pool_update,
}
use Prim.Native.String.{String}

to_u128_fits : (x : ℕ) → x < 2 ^ 128 → to_u128 x ≡ some x
to_u128_fits x h = ground arith

to_u64_fits : (x : ℕ) → x < 2 ^ 64 → to_u64 x ≡ some x
to_u64_fits x h = ground arith

module _ (state : StateProvider) (a : Address) where
  abbrev pub Fit : ℕ → List ℕ → Type 0
  Fit width slots = All (λ s. read_storage_slot state a s < 2 ^ width) slots

  abbrev pub FitTricrypto : Type 0
  FitTricrypto = Fit 128 (11 ∷ 12 ∷ 13 ∷ []) × Fit 64 (8 ∷ 10 ∷ [])

  abbrev pub FitTwocrypto : Option String → Type 0
  FitTwocrypto version =
      let s = twocrypto_storage_slots version in
      Fit 128 (s.balance_0 ∷ s.balance_1 ∷ [])
      × Fit 64 (s.initial_a_gamma_time ∷ s.future_a_gamma_time ∷ [])

  abbrev pub FitCrypto : PoolTracker → (tri : Bool) → Type 0
  FitCrypto t true = FitTricrypto
  FitCrypto t false = FitTwocrypto (twocrypto_version_of t a)

  -- The pairs of a balance and its admin balance that are read: one for each coin, eight at most.
  abbrev pub coins_read : ℕ
  coins_read = let n_coins = read_storage_slot state a 1 in if leb n_coins 8 then n_coins else 8

  abbrev pub FitBalances : (count : ℕ) → Type 0
  FitBalances count =
      (i : ℕ)
      → i < count
      → (read_storage_slot state a (2 + i) < 2 ^ 128)
        × (read_storage_slot state a (17 + i) < 2 ^ 128)

  abbrev pub FitStable : Type 0
  FitStable = FitBalances coins_read × Fit 64 (1 ∷ 10 ∷ 11 ∷ 12 ∷ 13 ∷ 14 ∷ 15 ∷ [])

  tricrypto_returns : FitTricrypto → is_some (read_tricrypto_full_state state a) ≡ true
  unfolding read_tricrypto_full_state
  tricrypto_returns ((b0, (b1, (b2, _))), (t0, (t1, _))) =
      rw
        (
          to_u128_fits _ b0,
          to_u128_fits _ b1,
          to_u128_fits _ b2,
          to_u64_fits _ t0,
          to_u64_fits _ t1,
          ◌>>=◌,
        )
        refl

  twocrypto_returns :
      (version : Option String)
      → FitTwocrypto version
      → is_some (read_twocrypto_full_state state a version) ≡ true
  unfolding read_twocrypto_full_state
  twocrypto_returns version ((b0, (b1, _)), (t0, (t1, _))) =
      rw (to_u128_fits _ b0, to_u128_fits _ b1, to_u64_fits _ t0, to_u64_fits _ t1, ◌>>=◌) refl

  balances_return :
      (count i left : ℕ)
      → FitBalances count
      → i + left ≤ count
      → (balances : List ℕ) × (read_effective_balances state a i left ≡ some balances)
  unfolding read_effective_balances
  balances_return count i zero h k = ([], refl)
  balances_return count i (suc left) h k =
      let fits = h i (omega arith) in
      let (rest, e) = balances_return count (i + 1) left h (omega arith) in
      (
        (read_storage_slot state a (2 + i) - read_storage_slot state a (17 + i)) ∷ rest,
        rw (to_u128_fits _ fits.0, to_u128_fits _ fits.1, e, ◌>>=◌) refl,
      )

  stable_returns : FitStable → is_some (read_curve_stable_liquidity_state state a) ≡ true
  unfolding read_curve_stable_liquidity_state
  stable_returns (balances, (n, (f0, (f1, (f2, (f3, (f4, (f5, _)))))))) =
      let (bs, e) = balances_return coins_read 0 coins_read balances (omega arith) in
      rw
        (
          to_u64_fits _ n,
          e,
          to_u64_fits _ f0,
          to_u64_fits _ f1,
          to_u64_fits _ f2,
          to_u64_fits _ f3,
          to_u64_fits _ f4,
          to_u64_fits _ f5,
          ◌>>=◌,
        )
        refl

-- The words that the event's pool is read from fit their types.
abbrev pub Readable : StateProvider → PoolTracker → DecodedEvent → Type 0
Readable state t (Events.curve_swap a) = FitStable state a
Readable state t (Events.curve_liquidity_change a) = FitStable state a
Readable state t (Events.two_crypto_swap a) = FitCrypto state a t (is_tricrypto t a)
Readable state t (Events.two_crypto_liquidity_change a) = FitCrypto state a t (is_tricrypto t a)
Readable state t (Events.tricrypto_liquidity_change a) = FitTricrypto state a
Readable state t _ = Unit

is_some-bind :
    {A B : Type 0} (o : Option A) (f : A → Option B)
    → is_some o ≡ true
    → ((x : A) → is_some (f x) ≡ true)
    → is_some (o >>= f) ≡ true
is_some-bind none f h k = cc
is_some-bind (some x) f h k = k x

module _ (state : StateProvider) (t : PoolTracker) (n ts tx li : ℕ) (r : Bool) where
  tricrypto_update-returns :
      (a : Address) → FitTricrypto state a → is_some (tricrypto_update state a) ≡ true
  unfolding tricrypto_update
  tricrypto_update-returns a h =
      is_some-bind (read_tricrypto_full_state state a) _ (tricrypto_returns state a h) (λ s. refl)

  twocrypto_update-returns :
      (a : Address) (version : Option String)
      → FitTwocrypto state a version
      → is_some (twocrypto_update state a version) ≡ true
  unfolding twocrypto_update
  twocrypto_update-returns a version h =
      is_some-bind (read_twocrypto_full_state state a version) _
        (twocrypto_returns state a version h) (λ s. refl)

  crypto_returns :
      (a : Address) (u : UpdateType)
      → FitCrypto state a t (is_tricrypto t a)
      → is_some (crypto_state_message state t n ts tx li r a u) ≡ true
  unfolding crypto_state_message some_update
  crypto_returns a u h =
      is_some-bind
        (if is_tricrypto t a
          then tricrypto_update state a
          else twocrypto_update state a (twocrypto_version_of t a))
        _ (either (is_tricrypto t a) h) (λ x. refl)
    where
      either :
          (tri : Bool)
          → FitCrypto state a t tri
          → is_some (
              if tri
              then tricrypto_update state a
              else twocrypto_update state a (twocrypto_version_of t a))
            ≡ true
      either true h = tricrypto_update-returns a h
      either false h = twocrypto_update-returns a (twocrypto_version_of t a) h

  stable_message_returns :
      (a : Address) (u : UpdateType)
      → FitStable state a
      → is_some (stable_state_message state t n ts tx li r a u) ≡ true
  unfolding stable_state_message some_update
  stable_message_returns a u h =
      is_some-bind (read_curve_stable_liquidity_state state a) _ (stable_returns state a h)
        (λ s. refl)

  fee_returns : (a : Address) → is_some (balancer_fee_message state t n ts tx li r a) ≡ true
  unfolding balancer_fee_message some_update
  fee_returns a = elim (Option-cases (balancer_pool_id_for_addr t a)) [
    | inl e ↦ rw (e, balancer_fee_message) refl
    | inr (i, e) ↦ rw (e, balancer_fee_message) (answered i _)
  ]
    where
      answered :
          (i : PoolId) (fee : Option ℕ)
          → is_some (elim fee [
            | none ↦ some none
            | some f ↦
                some_update state t n ts tx li r
                  (pool_id i)
                  balancer_v2_weighted
                  swap
                  (balancer_fee_update f)
          ])
            ≡ true
      answered i none = refl
      answered i (some f) = refl

  -- `create_pool_update` returns, without a panic, for every event whose pool it does not read, for every
  -- Balancer fee change, and for the swaps and liquidity changes of a Curve pool where the balances that
  -- are read (of a stable pool those of its coins, eight at most) fit 128 bits, and the times and the
  -- stable pool's parameters 64.
  pub create_pool_update-returns :
      (e : DecodedEvent)
      → Readable state t e
      → is_some (create_pool_update state t n ts tx li r e) ≡ true
  unfolding create_pool_update some_update
  create_pool_update-returns (Events.curve_swap a) h = stable_message_returns a swap h
  create_pool_update-returns (Events.curve_liquidity_change a) h = stable_message_returns a mint h
  create_pool_update-returns (Events.two_crypto_swap a) h = crypto_returns a swap h
  create_pool_update-returns (Events.two_crypto_liquidity_change a) h = crypto_returns a mint h
  create_pool_update-returns (Events.tricrypto_liquidity_change a) h =
      is_some-bind (tricrypto_update state a) _ (tricrypto_update-returns a h) (λ x. refl)
  create_pool_update-returns (Events.balancer_fee_change a) h = fee_returns a
  create_pool_update-returns (Events.v2_sync p r0 r1) h = synced r p r0 r1
    where
      synced :
          (b : Bool) (p : Address) (r0 r1 : ℕ)
          → is_some (
              if b
              then some none
              else some_update state t n ts tx li r (address p) uniswap_v2 swap (v2_sync r0 r1))
            ≡ true
      synced true p r0 r1 = refl
      synced false p r0 r1 = refl
  create_pool_update-returns _ h = refl
