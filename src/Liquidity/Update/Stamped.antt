-- ===== src/Liquidity/Update/Stamped.antt =====
-- What every message of `create_pool_update` (src/main.rs) says of its event.
use reth_exex_liquidity.Common.{
  ℕ, ◌≡◌, refl, subst, Bool, true, false, Option, none, some, Bool-cases, Option-cases, inl, inr,
  if◌then◌else◌,
}
use reth_exex_liquidity.Common.Words.{◌>>=◌}
use reth_exex_liquidity.Types.{
  Address, PoolId, PoolIdentifier, address, pool_id, Protocol, uniswap_v2, uniswap_v3, uniswap_v4,
  ekubo, curve_stable, curve_two_crypto, curve_tricrypto, balancer_v2_weighted, fluid,
}
use reth_exex_liquidity.Wire.{PoolUpdate, PoolUpdateMessage, UpdateType}
use reth_exex_liquidity.Wire
use reth_exex_liquidity.Events.{DecodedEvent}
use reth_exex_liquidity.Events
use reth_exex_liquidity.Tracker.{PoolTracker}
use reth_exex_liquidity.Tracker.Updates.{balancer_pool_id_for_addr}
use reth_exex_liquidity.Storage.State.{StateProvider}
use Prim.Native.String.{String}
use reth_exex_liquidity.Liquidity.Filter.{Subject, pool, fluid_pool, contract, subject}
use reth_exex_liquidity.Liquidity.Update.{
  update_message, some_update, is_tricrypto, crypto_protocol, tricrypto_update, twocrypto_update,
  stable_update, crypto_state_message, stable_state_message, balancer_fee_message,
  create_pool_update,
}
use reth_exex_liquidity.Storage.Curve.{
  read_tricrypto_full_state, read_twocrypto_full_state, read_curve_stable_liquidity_state,
}

-- The identifier of an event's pool; for a Balancer contract, that of the pool it belongs to.
unfoldable pub identified : PoolTracker → Subject → Option PoolIdentifier
identified t (pool p) = some p
identified t (fluid_pool a) = some (address a)
identified t (contract a) = elim (balancer_pool_id_for_addr t a) [
  | none ↦ none
  | some i ↦ some (pool_id i)
]

-- The protocol whose pools have such updates.
unfoldable pub protocol_of : PoolUpdate → Protocol
protocol_of (Wire.v2_swap a b) = uniswap_v2
protocol_of (Wire.v2_liquidity a b) = uniswap_v2
protocol_of (Wire.v2_sync a b) = uniswap_v2
protocol_of (Wire.v3_swap s l k) = uniswap_v3
protocol_of (Wire.v3_liquidity lo hi d) = uniswap_v3
protocol_of (Wire.v4_swap s l k) = uniswap_v4
protocol_of (Wire.v4_liquidity lo hi d) = uniswap_v4
protocol_of (Wire.ekubo_swap s l k) = ekubo
protocol_of (Wire.ekubo_liquidity lo hi d s l k) = ekubo
protocol_of (Wire.curve_swap a b c d) = curve_stable
protocol_of (Wire.curve_liquidity bs a b c d e f) = curve_stable
protocol_of (Wire.curve_ramp_a a b c d) = curve_stable
protocol_of (Wire.curve_fee_update a b) = curve_stable
protocol_of (Wire.two_crypto_state bs p d) = curve_two_crypto
protocol_of (Wire.two_crypto_ramp_agamma a b c d e f) = curve_two_crypto
protocol_of (Wire.two_crypto_new_parameters a b c) = curve_two_crypto
protocol_of (Wire.tricrypto_state bs p d) = curve_tricrypto
protocol_of (Wire.tricrypto_ramp_agamma a b c d e f) = curve_tricrypto
protocol_of (Wire.tricrypto_new_parameters a b c) = curve_tricrypto
protocol_of (Wire.balancer_swap a b c d) = balancer_v2_weighted
protocol_of (Wire.balancer_liquidity ts ds) = balancer_v2_weighted
protocol_of (Wire.balancer_fee_update f) = balancer_v2_weighted
protocol_of (Wire.fluid_state s) = fluid

-- A predicate on the message of an answer, where there is one.
abbrev Every : (PoolUpdateMessage → Type 0) → Option (Option PoolUpdateMessage) → Type 0
Every Q none = Unit
Every Q (some none) = Unit
Every Q (some (some m)) = Q m

Every-bind :
    {A : Type 0} (Q : PoolUpdateMessage → Type 0) (o : Option A)
    (f : A → Option (Option PoolUpdateMessage))
    → ((a : A) → Every Q (f a))
    → Every Q (o >>= f)
Every-bind Q none f h = tt
Every-bind Q (some a) f h = h a

Every-message :
    (Q : PoolUpdateMessage → Type 0) (o : Option (Option PoolUpdateMessage)) {m : PoolUpdateMessage}
    → Every Q o
    → o ≡ some (some m)
    → Q m
Every-message Q o h e = subst (Every Q) e h

module _ (state : StateProvider) (t : PoolTracker) (n ts tx li : ℕ) (r : Bool) where
  pub record Stamped (s : Subject) (m : PoolUpdateMessage) : Type 0 where
    pub numbered : (m.block_number ≡ n) × (m.block_timestamp ≡ ts)
    pub placed : (m.tx_index ≡ tx) × (m.log_index ≡ li)
    pub directed : m.is_revert ≡ r
    pub of_pool : identified t s ≡ some m.pool_id
    pub of_protocol : protocol_of m.update ≡ m.protocol

  made_Stamped :
      (s : Subject) (i : PoolIdentifier) (p : Protocol) (u : UpdateType) (x : PoolUpdate)
      → identified t s ≡ some i
      → protocol_of x ≡ p
      → Every (Stamped s) (some_update state t n ts tx li r i p u x)
  unfolding some_update update_message
  made_Stamped s i p u x e h = record {
    numbered = (refl, refl);
    placed = (refl, refl);
    directed = refl;
    of_pool = e;
    of_protocol = h;
  }

  tricrypto_Stamped :
      (a : Address) (u : UpdateType)
      → Every (Stamped (pool (address a))) (
          tricrypto_update state a >>= λ x.
          some_update state t n ts tx li r (address a) curve_tricrypto u x)
  unfolding tricrypto_update identified protocol_of
  tricrypto_Stamped a u = elim (Option-cases (read_tricrypto_full_state state a)) [
    | inl e ↦ rw e tt
    | inr (s, e) ↦ rw e (
        made_Stamped (pool (address a)) _ _ u
          (Wire.tricrypto_state s.balances s.packed_price_scale s.d) refl refl)
  ]

  twocrypto_Stamped :
      (a : Address) (u : UpdateType) (version : Option String)
      → Every (Stamped (pool (address a))) (
          twocrypto_update state a version >>= λ x.
          some_update state t n ts tx li r (address a) curve_two_crypto u x)
  unfolding twocrypto_update identified protocol_of
  twocrypto_Stamped a u version = elim (Option-cases (read_twocrypto_full_state state a version)) [
    | inl e ↦ rw e tt
    | inr (s, e) ↦ rw e (
        made_Stamped (pool (address a)) _ _ u (Wire.two_crypto_state s.balances s.price_scale s.d)
          refl refl)
  ]

  crypto_Stamped :
      (a : Address) (u : UpdateType)
      → Every (Stamped (pool (address a))) (crypto_state_message state t n ts tx li r a u)
  unfolding crypto_state_message
  crypto_Stamped a u = elim (Bool-cases (is_tricrypto t a)) [
    | inl e ↦ rw e (tricrypto_Stamped a u)
    | inr e ↦ rw e (twocrypto_Stamped a u _)
  ]

  stable_Stamped :
      (a : Address) (u : UpdateType)
      → Every (Stamped (pool (address a))) (stable_state_message state t n ts tx li r a u)
  unfolding stable_state_message stable_update identified protocol_of
  stable_Stamped a u =
      Every-bind _ (read_curve_stable_liquidity_state state a) _
        (λ s. made_Stamped (pool (address a)) _ _ u (stable_update s) refl refl)

  fee_Stamped :
      (a : Address) → Every (Stamped (contract a)) (balancer_fee_message state t n ts tx li r a)
  unfolding balancer_fee_message identified protocol_of
  fee_Stamped a = elim (Option-cases (balancer_pool_id_for_addr t a)) [
    | inl e ↦ rw (e, balancer_fee_message) tt
    | inr (i, e) ↦ rw (e, balancer_fee_message) (answered i e _)
  ]
    where
      answered :
          (i : PoolId) (e : balancer_pool_id_for_addr t a ≡ some i) (fee : Option ℕ)
          → Every (Stamped (contract a)) (elim fee [
            | none ↦ some none
            | some f ↦
                some_update state t n ts tx li r
                  (pool_id i)
                  balancer_v2_weighted
                  Wire.swap
                  (Wire.balancer_fee_update f)
          ])
      answered i e none = tt
      answered i e (some f) =
          made_Stamped (contract a) _ _ Wire.swap (Wire.balancer_fee_update f)
            (rw (e, identified) refl) refl

  shared_protocol :
      (tri : Bool) (x y : PoolUpdate)
      → protocol_of x ≡ curve_tricrypto
      → protocol_of y ≡ curve_two_crypto
      → protocol_of (if tri then x else y) ≡ crypto_protocol tri
  shared_protocol true x y h k = h
  shared_protocol false x y h k = k

  synced :
      (p : Address) (r0 r1 : ℕ) (b : Bool)
      → Every (Stamped (pool (address p))) (
          if b
          then some none
          else some_update state t n ts tx li r
              (address p)
              uniswap_v2
              Wire.swap
              (Wire.v2_sync r0 r1))
  unfolding identified protocol_of
  synced p r0 r1 true = tt
  synced p r0 r1 false =
      made_Stamped (pool (address p)) _ _ Wire.swap (Wire.v2_sync r0 r1) refl refl

  created_Stamped :
      (e : DecodedEvent) → Every (Stamped (subject e)) (create_pool_update state t n ts tx li r e)
  unfolding create_pool_update subject identified protocol_of some_update update_message
  created_Stamped (Events.v2_sync p r0 r1) = synced p r0 r1 r
  created_Stamped (Events.two_crypto_swap p) = crypto_Stamped p Wire.swap
  created_Stamped (Events.two_crypto_liquidity_change p) = crypto_Stamped p Wire.mint
  created_Stamped (Events.two_crypto_ramp_agamma p a b c d e f) =
      made_Stamped (pool (address p)) _ _ Wire.swap
        (if is_tricrypto t p
          then Wire.tricrypto_ramp_agamma a b c d e f
          else Wire.two_crypto_ramp_agamma a b c d e f)
        refl (shared_protocol (is_tricrypto t p) _ _ refl refl)
  created_Stamped (Events.two_crypto_new_parameters p m o g) =
      made_Stamped (pool (address p)) _ _ Wire.swap
        (if is_tricrypto t p
          then Wire.tricrypto_new_parameters m o g
          else Wire.two_crypto_new_parameters m o g)
        refl (shared_protocol (is_tricrypto t p) _ _ refl refl)
  created_Stamped (Events.tricrypto_liquidity_change p) = tricrypto_Stamped p Wire.mint
  created_Stamped (Events.curve_swap p) = stable_Stamped p Wire.swap
  created_Stamped (Events.curve_liquidity_change p) = stable_Stamped p Wire.mint
  created_Stamped (Events.balancer_fee_change p) = fee_Stamped p
  created_Stamped (Events.v2_swap p) = tt
  created_Stamped (Events.v2_mint p) = tt
  created_Stamped (Events.v2_burn p) = tt
  created_Stamped (Events.fluid_operate p k) = tt
  created_Stamped _ = record {
    numbered = (refl, refl);
    placed = (refl, refl);
    directed = refl;
    of_pool = refl;
    of_protocol = refl;
  }

  -- Every message that `create_pool_update` makes has the block number, the timestamp, the indexes and
  -- the direction that it is called with, the identifier of the event's pool (for a fee change of a
  -- Balancer contract that of the pool the contract is known to belong to), and the protocol that its
  -- update belongs to.
  pub create_pool_update-Stamped :
      (e : DecodedEvent) {m : PoolUpdateMessage}
      → create_pool_update state t n ts tx li r e ≡ some (some m)
      → Stamped (subject e) m
  create_pool_update-Stamped e made = Every-message (Stamped (subject e)) _ (created_Stamped e) made
