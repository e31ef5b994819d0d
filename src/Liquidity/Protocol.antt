-- ===== src/Liquidity/Protocol.antt =====
-- What a consumer of the socket may rely on: the stream of src/main.rs as a state machine of its own.
use reth_exex_liquidity.Common.{
  ℕ, ◌+◌, Bool, true, false, Option, none, some, List, [], ◌∷◌, ◌++◌, ◌≡◌, refl, ap, sym, ◌∙◌,
  arith, if◌then◌else◌, ◌==◌, ==-refl, ◌&&◌, retain, Option-cases, inl, inr,
}
use mathlib.Core.List.{append-nil}
use reth_exex_liquidity.Common.Words.{◌>>=◌}
use reth_exex_liquidity.Wire.{
  ControlMessage, PoolUpdateMessage, begin_block, pool_update, end_block, update_whitelist, ping,
  pong, reorg_start, reorg_epilogue, reorg_complete,
}
use reth_exex_liquidity.Wire
use reth_exex_liquidity.Liquidity.Stream.{Outgoing, next_stream_seq, try_send}
use reth_exex_liquidity.Liquidity.Batch.{sent-retain, stream_seq-try_send}

-- Between blocks: on the chain, or within a reorg that is not complete.
pub data Around : Type 0 where
  idle reorging : Around

-- Within a block: its number, whether it is reverted, and its updates so far.
pub data Phase : Type 0 where
  outside : Around → Phase
  inside : Around → (block_number : ℕ) (is_revert : Bool) (updates : ℕ) → Phase

abbrev pub same_bool : Bool → Bool → Bool
same_bool true b = b
same_bool false true = false
same_bool false false = true

-- Blocks are reverted within a reorg only; an update names its block and its direction; the end of a
-- block counts its updates; final states come between the blocks and `ReorgComplete`.
unfoldable pub follow : Phase → ControlMessage → Option Phase
follow (outside idle) (begin_block s n t f r) = if r then none else some (inside idle n false 0)
follow (outside reorging) (begin_block s n t f r) = some (inside reorging n r 0)
follow (outside idle) (reorg_start s old new) = some (outside reorging)
follow (outside reorging) (reorg_epilogue s n t u) = some (outside reorging)
follow (outside reorging) (reorg_complete s n) = some (outside idle)
follow (inside a n r k) (pool_update s m) =
    if m.block_number == n && same_bool m.is_revert r then some (inside a n r (k + 1)) else none
follow (inside a n r k) (end_block s m u) = if m == n && u == k then some (outside a) else none
follow p m = none

pub record Consumer : Type 0 where
  pub stream_seq : ℕ
  pub phase : Phase

-- A message must have the next number.
unfoldable pub accept : Consumer → ControlMessage → Option Consumer
accept c m = elim (Wire.stream_seq m) [
  | none ↦ none
  | some s ↦
      if s == next_stream_seq c.stream_seq
      then (follow c.phase m >>= λ p. some (record { stream_seq = s; phase = p }))
      else none
]

unfoldable pub conforms : Consumer → List ControlMessage → Option Consumer
conforms c [] = some c
conforms c (m ∷ ms) = accept c m >>= λ c'. conforms c' ms

conforms-append :
    (c : Consumer) (ms : List ControlMessage) (m : ControlMessage) {c' : Consumer}
    → conforms c ms ≡ some c'
    → conforms c (ms ++ m ∷ []) ≡ accept c' m
unfolding conforms
conforms-append c [] m h = ground arith
conforms-append c (n ∷ ms) m {c'} h = elim (Option-cases (accept c n)) [
  | inl e ↦ absurd (none≢some (sym (rw e refl) ∙ h))
  | inr (c1, e) ↦ rw e (conforms-append c1 ms m (sym (rw e refl) ∙ h))
]
  where
    none≢some : {a : Consumer} → ◌≡◌ {A = Option Consumer} none (some a) → ⊥
    none≢some e = cc

accept_next :
    (c : Consumer) (m : ControlMessage) (q : Phase)
    → Wire.stream_seq m ≡ some (next_stream_seq c.stream_seq)
    → follow c.phase m ≡ some q
    → accept c m ≡ some (record { stream_seq = next_stream_seq c.stream_seq; phase = q })
unfolding accept
accept_next c m q e f = rw (e, accept, ==-refl (next_stream_seq c.stream_seq), f, ◌>>=◌) refl

module _ (accepts : ControlMessage → Bool) where
  -- Messages that a consumer in state `c` accepts have been made since the channel held `old`; it has
  -- those that it took.
  pub record Made (c : Consumer) (old : List ControlMessage) (p : Phase) (o : Outgoing)
      : Type 0 where
    pub made : List ControlMessage
    pub sent_here : o.sent ≡ old ++ retain accepts made
    pub conforming : conforms c made ≡ some (record { stream_seq = o.stream_seq; phase = p })

  pub start-Made :
      (o : Outgoing) (p : Phase) → Made (record { stream_seq = o.stream_seq; phase = p }) o.sent p o
  unfolding conforms retain
  start-Made o p = record { made = []; sent_here = sym (append-nil o.sent); conforming = refl }

  -- A send function: the next number, and a message with it that may follow.
  pub send-Made :
      (c : Consumer) (old : List ControlMessage) (p q : Phase) (o : Outgoing) (m : ControlMessage)
      → Wire.stream_seq m ≡ some (next_stream_seq o.stream_seq)
      → follow p m ≡ some q
      → Made c old p o
      → Made c old q (try_send accepts m (record o { stream_seq = next_stream_seq o.stream_seq }))
  send-Made c old p q o m e f h = record {
    made = h.made ++ m ∷ [];
    sent_here = sent-retain accepts old h.made m _ h.sent_here;
    conforming =
        conforms-append c h.made m h.conforming
        ∙ accept_next _ m q e f
        ∙ ap (λ k. some (record { stream_seq = k; phase = q }))
            (sym (
              stream_seq-try_send accepts m
                (record o { stream_seq = next_stream_seq o.stream_seq })));
  }
