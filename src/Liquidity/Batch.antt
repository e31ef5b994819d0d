-- ===== src/Liquidity/Batch.antt =====
-- What a processed block puts on the stream: one batch, numbered without a gap.
use reth_exex_liquidity.Common.{
  ℕ, ◌+◌, Bool, false, none, some, List, [], ◌∷◌, ◌++◌, ◌≡◌, refl, ap, sym, ◌∙◌, arith, fold,
  length, length-append, All, retain, Bool-cases, inl, inr, subst,
}
use mathlib.Core.List.{append_assoc, append-nil}
use reth_exex_liquidity.Wire.{ControlMessage, PoolUpdateMessage}
use reth_exex_liquidity.Wire
use reth_exex_liquidity.Tracker.{PoolTracker, WhitelistUpdate}
use reth_exex_liquidity.Tracker.Updates.{queue_update}
use reth_exex_liquidity.Tracker.Updates
use reth_exex_liquidity.Liquidity.Stream.{
  Outgoing, send_begin_block, send_pool_update, send_end_block, next_stream_seq, Numbered, try_send,
}
use reth_exex_liquidity.Liquidity.Snapshot.{Snapshot}
use reth_exex_liquidity.Liquidity.Block.{Block, Scan, emit, Exex, commit_block}
use reth_exex_liquidity.Liquidity.Keeps.{scan_block_keeps}

-- The counter after as many messages as the list has.
unfoldable pub advance : ℕ → List ControlMessage → ℕ
advance s [] = s
advance s (m ∷ ms) = advance (next_stream_seq s) ms

advance-append :
    (s : ℕ) (ms : List ControlMessage) (m : ControlMessage)
    → advance s (ms ++ m ∷ []) ≡ next_stream_seq (advance s ms)
unfolding advance
advance-append s [] m = refl
advance-append s (n ∷ ms) m = advance-append (next_stream_seq s) ms m

Numbered-append :
    (s : ℕ) (ms : List ControlMessage) (m : ControlMessage)
    → Numbered s ms
    → Wire.stream_seq m ≡ some (next_stream_seq (advance s ms))
    → Numbered s (ms ++ m ∷ [])
unfolding advance
Numbered-append s [] m h e = (e, tt)
Numbered-append s (n ∷ ms) m h e = (h.0, Numbered-append (next_stream_seq s) ms m h.1 e)

-- The messages that carry one pool's update.
unfoldable pub IsUpdate : ControlMessage → Type 0
IsUpdate (Wire.pool_update s m) = Unit
IsUpdate _ = ⊥

All-append :
    (ms : List ControlMessage) (m : ControlMessage)
    → All IsUpdate ms
    → IsUpdate m
    → All IsUpdate (ms ++ m ∷ [])
All-append [] m h e = (e, tt)
All-append (n ∷ ms) m h e = (h.0, All-append ms m h.1 e)

retain-append :
    (accepts : ControlMessage → Bool) (ms : List ControlMessage) (m : ControlMessage)
    → retain accepts (ms ++ m ∷ []) ≡ retain accepts ms ++ retain accepts (m ∷ [])
unfolding retain
retain-append accepts [] m = refl
retain-append accepts (n ∷ ms) m = elim (Bool-cases (accepts n)) [
  | inl e ↦ rw (e, retain-append accepts ms m) refl
  | inr e ↦ rw (e, retain-append accepts ms m) refl
]

module _ (accepts : ControlMessage → Bool) where
  pub try_send-retain :
      (m : ControlMessage) (o : Outgoing)
      → try_send accepts m o ≡ record o { sent = o.sent ++ retain accepts (m ∷ []) }
  unfolding try_send retain
  try_send-retain m o = elim (Bool-cases (accepts m)) [
    | inl e ↦ rw e refl
    | inr e ↦ rw (e, append-nil) refl
  ]

  pub sent-retain :
      (old ms : List ControlMessage) (m : ControlMessage) (o : Outgoing)
      → o.sent ≡ old ++ retain accepts ms
      → (try_send accepts m o).sent ≡ old ++ retain accepts (ms ++ m ∷ [])
  sent-retain old ms m o h =
      ap (λ (o' : Outgoing). o'.sent) (try_send-retain m o)
      ∙ ap (λ sent. sent ++ retain accepts (m ∷ [])) h
      ∙ append_assoc old (retain accepts ms) (retain accepts (m ∷ []))
      ∙ ap (λ kept. old ++ kept) (sym (retain-append accepts ms m))

  pub stream_seq-try_send :
      (m : ControlMessage) (o : Outgoing) → (try_send accepts m o).stream_seq ≡ o.stream_seq
  stream_seq-try_send m o = ap (λ (o' : Outgoing). o'.stream_seq) (try_send-retain m o)

  -- Messages that were made since the counter was at `s`, of which the channel took some.
  record Run (s : ℕ) (old ms : List ControlMessage) (o : Outgoing) : Type 0 where
    sent_here : o.sent ≡ old ++ retain accepts ms
    numbered : Numbered s ms
    counter : o.stream_seq ≡ advance s ms

  -- One more message, with the next number.
  one_more :
      (s : ℕ) (old ms : List ControlMessage) (o : Outgoing) (m : ControlMessage)
      → Wire.stream_seq m ≡ some (next_stream_seq o.stream_seq)
      → Run s old ms o
      → Run s old
          (ms ++ m ∷ [])
          (try_send accepts m (record o { stream_seq = next_stream_seq o.stream_seq }))
  one_more s old ms o m e h = record {
    sent_here = sent-retain old ms m _ h.sent_here;
    numbered = Numbered-append s ms m h.numbered (e ∙ ap (λ c. some (next_stream_seq c)) h.counter);
    counter = stream_seq-try_send m _ ∙ ap next_stream_seq h.counter ∙ sym (advance-append s ms m);
  }

  -- A scan that started with the counter at `s` and the begin message made.
  record Batch (s : ℕ) (old : List ControlMessage) (first : ControlMessage) (x : Scan)
      : Type 0 where
    updates : List ControlMessage
    only_updates : All IsUpdate updates
    run : Run s old (first ∷ updates) x.out
    counted : x.events_in_block ≡ length updates

  emit-Batch :
      (d : Snapshot) (t : PoolTracker) (b : Block) (s : ℕ) (old : List ControlMessage)
      (first : ControlMessage) (m : PoolUpdateMessage) (x : Scan)
      → Batch s old first x
      → Batch s old first (emit accepts d t b m x)
  unfolding emit send_pool_update IsUpdate Wire.stream_seq
  emit-Batch d t b s old first m x h =
      let msg = Wire.pool_update (next_stream_seq x.out.stream_seq) m in
      record {
        updates = h.updates ++ msg ∷ [];
        only_updates = All-append h.updates msg h.only_updates tt;
        run = one_more s old (first ∷ h.updates) x.out msg refl h.run;
        counted = omega (arith, h.counted, length-append h.updates (msg ∷ []));
      }

  start-Batch :
      (n ts fee : ℕ) (r : Bool) (o : Outgoing)
      → let first = Wire.begin_block (next_stream_seq o.stream_seq) n ts fee r in
        Batch o.stream_seq o.sent first (record {
          out = send_begin_block accepts n ts fee r o;
          events_in_block = 0;
          fluid_touched = [];
        })
  unfolding send_begin_block Wire.stream_seq advance retain
  start-Batch n ts fee r o = record {
    updates = [];
    only_updates = tt;
    run =
        one_more o.stream_seq o.sent [] o _ refl
          (record { sent_here = sym (append-nil o.sent); numbered = tt; counter = refl });
    counted = refl;
  }

  close-Batch :
      (s n : ℕ) (old : List ControlMessage) (first : ControlMessage) (x : Scan)
      (h : Batch s old first x)
      → let o = send_end_block accepts n x.events_in_block x.out in
        Run s old (first ∷ h.updates ++ Wire.end_block o.stream_seq n (length h.updates) ∷ []) o
  unfolding send_end_block Wire.stream_seq
  close-Batch s n old first x h =
      let o = send_end_block accepts n x.events_in_block x.out in
      let last = Wire.end_block (next_stream_seq x.out.stream_seq) n x.events_in_block in
      let seq : next_stream_seq x.out.stream_seq ≡ o.stream_seq =
        sym (stream_seq-try_send last _) in
      let closed : Run s old ((first ∷ h.updates) ++ last ∷ []) o =
        one_more s old (first ∷ h.updates) x.out last refl h.run in
      subst (λ m. Run s old (first ∷ h.updates ++ m ∷ []) o)
        (ap (λ q. Wire.end_block q n x.events_in_block) seq
          ∙ ap (Wire.end_block o.stream_seq n) h.counted)
        closed

-- The messages made for a committed block are a begin message, one message for each of its pool
-- updates, and an end message with the number of those updates; each has the stream number after
-- the one before it, starting after the number that the stream stood at. The channel is handed
-- all of them in this order, and has those that it takes. The counter of processed events grows by
-- the number of pool updates.
pub commit_block-Numbered :
    (accepts : ControlMessage → Bool) (d : Snapshot) (early late : List WhitelistUpdate) (b : Block)
    (x : Exex)
    → let y = commit_block accepts d early late b x in
      let fee : ℕ = elim b.base_fee_per_gas [ none ↦ 0 | some f ↦ f ] in
      let first =
        Wire.begin_block (next_stream_seq x.out.stream_seq) b.number b.timestamp fee false in
      (us : List ControlMessage) × (let made =
          first ∷ us ++ Wire.end_block y.out.stream_seq b.number (length us) ∷ [] in
        All IsUpdate us
        × Numbered x.out.stream_seq made
        × (y.out.stream_seq ≡ advance x.out.stream_seq made)
        × (y.out.sent ≡ x.out.sent ++ retain accepts made)
        × (y.events_processed ≡ x.events_processed + length us))
unfolding commit_block
commit_block-Numbered accepts d early late b x =
    let o = x.out in
    let fee : ℕ = elim b.base_fee_per_gas [ none ↦ 0 | some f ↦ f ] in
    let locked = fold queue_update (Updates.begin_block x.pool_tracker) early in
    let first = Wire.begin_block (next_stream_seq o.stream_seq) b.number b.timestamp fee false in
    let scanned =
      scan_block_keeps accepts d locked b {Q = λ m. Unit}
        {P = Batch accepts o.stream_seq o.sent first}
        (record {
          creates = λ e tx li made. tt;
          decodes = λ pool r. tt;
          emits = λ m s q. emit-Batch accepts d locked b o.stream_seq o.sent first m s;
          touches = λ pools s h. record {
            updates = h.updates;
            only_updates = h.only_updates;
            run = h.run;
            counted = h.counted;
          };
        })
        (send_begin_block accepts b.number b.timestamp fee false o)
        (start-Batch accepts b.number b.timestamp fee false o) in
    let closed = close-Batch accepts o.stream_seq b.number o.sent first _ scanned in
    (
      scanned.updates,
      (
        scanned.only_updates,
        closed.numbered,
        closed.counter,
        closed.sent_here,
        ap (λ k. x.events_processed + k) scanned.counted,
      ),
    )
