-- ===== src/Arena/Reverts.antt =====
-- What a reverted message does not write (src/shadow_apply.rs): the slot0 of V3, V4 and Ekubo pools and the
-- reserves of V2 pools, as the fork that is left had them; the final states of the reorg write them. The
-- states of Curve crypto and Fluid pools are absolute, with their prices, and a reverted message writes them.
use reth_exex_liquidity.Common.{
  ℕ, Bool, true, false, ◌||◌, ◌≡◌, refl, if◌then◌else◌, Option-cases, inl, inr, List,
}
use reth_exex_liquidity.Common.Int.{ℤ}
use reth_exex_liquidity.Types.{Address, PoolIdentifier, address, pool_id}
use reth_exex_liquidity.Wire.{PoolUpdate, PoolUpdateMessage}
use reth_exex_liquidity.Wire
use reth_exex_liquidity.Arena.Writer.{
  ArenaWriter, WriterError, Result, ok, err, Write, update_v2_reserves, update_v3_slot0,
  update_v4_slot0, update_ekubo_slot0, update_v3_tick_liquidity, update_v4_tick_liquidity,
  update_ekubo_tick_liquidity, update_balancer_v2_fee,
}
use reth_exex_liquidity.Arena.Apply.{
  Applied, ApplyError, Slot0, returns, written, ticks_written, at_address, apply_swap, apply_range,
  apply_ekubo_swap, apply_ekubo_liquidity, apply_v2_sync, apply_balances, apply_update_of,
  apply_live_event, write_range, maybe_negate_liquidity_delta, extract_liquidity,
}

-- The writes of a slot0, or of V2 reserves.
abbrev pub sets_slot0_or_reserves : Write → Bool
sets_slot0_or_reserves (update_v2_reserves p x y) = true
sets_slot0_or_reserves (update_v3_slot0 p s k l) = true
sets_slot0_or_reserves (update_v4_slot0 i s k l) = true
sets_slot0_or_reserves (update_ekubo_slot0 i s k l) = true
sets_slot0_or_reserves _ = false

-- A view of the arena that only such writes change: the slot0 of a V3, V4 or Ekubo pool, the reserves of a
-- V2 pool.
pub record Slot0View {W : Type 0} (writer_of : ArenaWriter W) (S : Type 0) : Type 0 where
  pub view : W → S
  pub others_keep :
      (w : Write) (a : W) → sets_slot0_or_reserves w ≡ false → view (writer_of.write w a).0 ≡ view a

module _ {W S : Type 0} (writer_of : ArenaWriter W) (v : Slot0View writer_of S) (a : W)
    (overflowed : Bool) where
  abbrev Kept : Applied W → Type 0
  Kept x = v.view x.arena ≡ v.view a

  written_keeps :
      (w : Write) → sets_slot0_or_reserves w ≡ false → Kept (written writer_of a overflowed w)
  unfolding written
  written_keeps w h = answered (writer_of.write w a).1
    where
      answered :
          (answer : Result WriterError Bool)
          → Kept (elim answer [
            | ok flag ↦ record {
              arena = (writer_of.write w a).0;
              overflowed = overflowed;
              result = ok true;
            }
            | err e ↦ record {
              arena = (writer_of.write w a).0;
              overflowed = overflowed;
              result = err (ApplyError.writer e);
            }
          ])
      answered (ok flag) = v.others_keep w a h
      answered (err e) = v.others_keep w a h

  ticks_keep :
      (w : Write) → sets_slot0_or_reserves w ≡ false → Kept (ticks_written writer_of a overflowed w)
  unfolding ticks_written
  ticks_keep w h = answered (writer_of.write w a).1
    where
      answered :
          (answer : Result WriterError Bool)
          → Kept (elim answer [
            | ok flag ↦ record {
              arena = (writer_of.write w a).0;
              overflowed = overflowed || flag;
              result = ok true;
            }
            | err e ↦ record {
              arena = (writer_of.write w a).0;
              overflowed = overflowed;
              result = err (ApplyError.writer e);
            }
          ])
      answered (ok flag) = v.others_keep w a h
      answered (err e) = v.others_keep w a h

  here_keeps :
      (p : PoolIdentifier) (w : Address → Write)
      → ((q : Address) → sets_slot0_or_reserves (w q) ≡ false)
      → Kept (at_address writer_of a overflowed p w)
  unfolding at_address
  here_keeps (address q) w h = written_keeps (w q) (h q)
  here_keeps (pool_id i) w h = refl

  range_keeps :
      (p : PoolIdentifier) (lo hi d : ℤ) → Kept (write_range writer_of a overflowed p lo hi d)
  unfolding write_range
  range_keeps (address q) lo hi d = ticks_keep (update_v3_tick_liquidity q lo hi d) refl
  range_keeps (pool_id i) lo hi d = ticks_keep (update_v4_tick_liquidity i lo hi d) refl

  apply_range_keeps : (m : PoolUpdateMessage) → Kept (apply_range writer_of a overflowed m)
  unfolding apply_range
  apply_range_keeps m = elim (Option-cases (extract_liquidity m)) [
    | inl e ↦ rw (e, apply_range) refl
    | inr (l, e) ↦
        elim (Option-cases (maybe_negate_liquidity_delta l.liquidity_delta m.is_revert)) [
          | inl f ↦ rw (e, apply_range, f) refl
          | inr (d, f) ↦ rw (e, apply_range, f) (range_keeps m.pool_id l.tick_lower l.tick_upper d)
        ]
  ]

  balances_keep :
      (p : PoolIdentifier) (f : List (Address × ℕ) → List (Address × ℕ))
      → Kept (apply_balances writer_of a overflowed p f)
  unfolding apply_balances
  balances_keep (address q) f = refl
  balances_keep (pool_id i) f = elim (Option-cases (writer_of.get_balancer_v2_pool a i)) [
    | inl e ↦ rw (e, apply_balances) refl
    | inr (pool, e) ↦ rw (e, apply_balances) (written_keeps _ refl)
  ]

  fee_keeps :
      (p : PoolIdentifier) (fee : ℕ)
      → Kept (elim p [
        | address q ↦ returns writer_of a overflowed (ok true)
        | pool_id i ↦ written writer_of a overflowed (update_balancer_v2_fee i fee)
      ])
  fee_keeps (address q) fee = refl
  fee_keeps (pool_id i) fee = written_keeps (update_balancer_v2_fee i fee) refl

  ekubo_keeps :
      (p : PoolIdentifier) (lo hi d : ℤ) (s : Slot0)
      → Kept (apply_ekubo_liquidity writer_of a overflowed true p lo hi d s)
  unfolding apply_ekubo_liquidity
  ekubo_keeps (address q) lo hi d s = refl
  ekubo_keeps (pool_id i) lo hi d s = elim (Option-cases (maybe_negate_liquidity_delta d true)) [
    | inl e ↦ rw (e, apply_ekubo_liquidity) refl
    | inr (n, e) ↦
        rw (e, apply_ekubo_liquidity)
          (either _ _ (ticks_keep (update_ekubo_tick_liquidity i lo hi n) refl))
  ]
    where
      either :
          (x : Applied W) (answer : Result ApplyError Bool)
          → Kept x
          → Kept (elim answer [
            | err e ↦ x
            | ok flag ↦
                if true
                then x
                else written writer_of x.arena x.overflowed
                    (update_ekubo_slot0 i s.sqrt_price_x96 s.tick s.liquidity)
          ])
      either x (ok flag) h = h
      either x (err e) h = h

  reverted_keeps :
      (m : PoolUpdateMessage) (u : PoolUpdate)
      → m.is_revert ≡ true
      → Kept (apply_update_of writer_of a overflowed m u)
  unfolding apply_update_of apply_swap apply_ekubo_swap apply_v2_sync
  reverted_keeps m (Wire.v2_sync r0 r1) r = rw (r, apply_v2_sync) refl
  reverted_keeps m (Wire.v2_swap x y) r = refl
  reverted_keeps m (Wire.v2_liquidity x y) r = refl
  reverted_keeps m (Wire.curve_swap w x y z) r = refl
  reverted_keeps m (Wire.v3_swap s l k) r = rw (r, apply_swap) refl
  reverted_keeps m (Wire.v4_swap s l k) r = rw (r, apply_swap) refl
  reverted_keeps m (Wire.ekubo_swap s l k) r = rw (r, apply_ekubo_swap) refl
  reverted_keeps m (Wire.v3_liquidity lo hi d) r = apply_range_keeps m
  reverted_keeps m (Wire.v4_liquidity lo hi d) r = apply_range_keeps m
  reverted_keeps m (Wire.ekubo_liquidity lo hi d s l k) r = rw r (ekubo_keeps m.pool_id lo hi d _)
  reverted_keeps m (Wire.balancer_swap x y z w) r = balances_keep m.pool_id _
  reverted_keeps m (Wire.balancer_liquidity ts ds) r = balances_keep m.pool_id _
  reverted_keeps m (Wire.balancer_fee_update fee) r = fee_keeps m.pool_id fee
  reverted_keeps m _ r = here_keeps m.pool_id _ (λ q. refl)

  -- Whatever message of a reverted block is applied, and however the writer answers: no view of the arena
  -- that only writes of a slot0 (of V3, V4 and Ekubo pools) and of V2 reserves change is changed by it.
  -- Nothing is stated of the price scale of a Curve crypto pool and the centre price of a Fluid pool.
  pub apply_live_event_reverted :
      (m : PoolUpdateMessage)
      → m.is_revert ≡ true
      → v.view (apply_live_event writer_of a overflowed m).arena ≡ v.view a
  unfolding apply_live_event
  apply_live_event_reverted m r = reverted_keeps m m.update r
