-- ===== src/Arena/Apply.antt =====
-- `apply_live_event` and `apply_reorg_epilogue` of src/shadow_apply.rs.
use reth_exex_liquidity.Common.{
  ℕ, zero, suc, ◌-◌, ◌/◌, ◌%◌, ◌^◌, ◌==◌, ◌||◌, if◌then◌else◌, Bool, true, false, Option, none,
  some, List, map,
}
use reth_exex_liquidity.Common.Int.{ℤ, pos, negsuc}
use reth_exex_liquidity.Types.{
  Address, PoolIdentifier, address, pool_id, Protocol, ekubo, same_protocol,
}
use reth_exex_liquidity.Wire.{
  UpdateType, swap, mint, burn, PoolUpdate, PoolUpdateMessage, ReorgEpilogueUpdate, slot0_final,
  fluid_state_final, v2_reserves_final, v2_sync, v2_swap, v2_liquidity, v3_swap, v3_liquidity,
  v4_swap, v4_liquidity, ekubo_swap, ekubo_liquidity, curve_swap, curve_liquidity, curve_ramp_a,
  curve_fee_update, two_crypto_state, two_crypto_ramp_agamma, two_crypto_new_parameters,
  tricrypto_state, tricrypto_ramp_agamma, tricrypto_new_parameters, balancer_swap,
  balancer_liquidity, balancer_fee_update, fluid_state,
}
use reth_exex_liquidity.Wire
use reth_exex_liquidity.Arena.Writer.{
  ArenaWriter, WriterError, Result, ok, err, Write, update_v2_reserves, update_v3_slot0,
  update_v4_slot0, update_ekubo_slot0, update_v3_tick_liquidity, update_v4_tick_liquidity,
  update_ekubo_tick_liquidity, update_curve_stable_state, update_curve_stable_a,
  update_curve_stable_fees, update_curve_twocrypto_state, update_curve_twocrypto_a_gamma,
  update_curve_tricrypto_a_gamma, update_curve_twocrypto_fees, update_curve_tricrypto_fees,
  update_curve_tricrypto_state, update_balancer_v2_balances, update_balancer_v2_fee,
  update_fluid_reserves,
}
use reth_exex_liquidity.Arena.Balances.{saturate, swap_balances, adjust_balances}

pub data ApplyError : Type 0 where
  writer : WriterError → ApplyError
  overflow unsupported : ApplyError

-- `checked_neg` of an `i128`.
unfoldable pub checked_neg : ℤ → Option ℤ
checked_neg (pos zero) = some (pos zero)
checked_neg (pos (suc n)) = some (negsuc n)
checked_neg (negsuc n) = if n == 2 ^ 127 - 1 then none else some (pos (suc n))

unfoldable pub maybe_negate_liquidity_delta : ℤ → (is_revert : Bool) → Option ℤ
maybe_negate_liquidity_delta delta r = if r then checked_neg delta else some delta

pub record Slot0 : Type 0 where
  pub sqrt_price_x96 : ℕ
  pub tick : ℤ
  pub liquidity : ℕ

abbrev pub swap_slot0 : PoolUpdate → Option Slot0
swap_slot0 (v3_swap s l k) = some (record { sqrt_price_x96 = s; tick = k; liquidity = l })
swap_slot0 (v4_swap s l k) = some (record { sqrt_price_x96 = s; tick = k; liquidity = l })
swap_slot0 (ekubo_swap s l k) = some (record { sqrt_price_x96 = s; tick = k; liquidity = l })
swap_slot0 _ = none

abbrev pub is_swap : UpdateType → Bool
is_swap swap = true
is_swap _ = false

unfoldable pub extract_slot0 : PoolUpdateMessage → Option Slot0
extract_slot0 m = if is_swap m.update_type then swap_slot0 m.update else none

pub record LiquidityChange : Type 0 where
  pub tick_lower : ℤ
  pub tick_upper : ℤ
  pub liquidity_delta : ℤ

abbrev pub range_liquidity : PoolUpdate → Option LiquidityChange
range_liquidity (v3_liquidity lo hi d) =
    some (record { tick_lower = lo; tick_upper = hi; liquidity_delta = d })
range_liquidity (v4_liquidity lo hi d) =
    some (record { tick_lower = lo; tick_upper = hi; liquidity_delta = d })
range_liquidity _ = none

unfoldable pub extract_liquidity : PoolUpdateMessage → Option LiquidityChange
extract_liquidity m = if is_swap m.update_type then none else range_liquidity m.update

unfoldable pub unpack_tricrypto_price_scale : ℕ → ℕ × ℕ
unpack_tricrypto_price_scale packed = (packed % 2 ^ 128, packed / 2 ^ 128)

-- The arena, the flag `overflowed`, and what the function returns.
pub record Applied (W : Type 0) : Type 0 where
  pub arena : W
  pub overflowed : Bool
  pub result : Result ApplyError Bool

module _ {W : Type 0} (writer_of : ArenaWriter W) (a : W) (overflowed : Bool) where
  abbrev pub returns : Result ApplyError Bool → Applied W
  returns r = record { arena = a; overflowed = overflowed; result = r }

  -- `writer.update(..)?; Ok(true)`.
  unfoldable pub written : Write → Applied W
  written w =
      let (b, answer) = writer_of.write w a in
      elim answer [
        | ok flag ↦ record { arena = b; overflowed = overflowed; result = ok true }
        | err e ↦ record { arena = b; overflowed = overflowed; result = err (writer e) }
      ]

  -- `*overflowed |= writer.update(..)?; Ok(true)`.
  unfoldable pub ticks_written : Write → Applied W
  ticks_written w =
      let (b, answer) = writer_of.write w a in
      elim answer [
        | ok flag ↦ record { arena = b; overflowed = overflowed || flag; result = ok true }
        | err e ↦ record { arena = b; overflowed = overflowed; result = err (writer e) }
      ]

  unfoldable pub write_slot0 : PoolIdentifier → Slot0 → Applied W
  write_slot0 (address p) s = written (update_v3_slot0 p s.sqrt_price_x96 s.tick s.liquidity)
  write_slot0 (pool_id i) s = written (update_v4_slot0 i s.sqrt_price_x96 s.tick s.liquidity)

  unfoldable pub write_range : PoolIdentifier → (tick_lower tick_upper delta : ℤ) → Applied W
  write_range (address p) lo hi d = ticks_written (update_v3_tick_liquidity p lo hi d)
  write_range (pool_id i) lo hi d = ticks_written (update_v4_tick_liquidity i lo hi d)

  -- The arm of the V3 and V4 swaps.
  unfoldable pub apply_swap : PoolUpdateMessage → Applied W
  apply_swap m =
      if m.is_revert
      then returns (ok true)
      else elim (extract_slot0 m) [ none ↦ returns (ok true) | some s ↦ write_slot0 m.pool_id s ]

  unfoldable pub apply_range : PoolUpdateMessage → Applied W
  apply_range m = elim (extract_liquidity m) [
    | none ↦ returns (ok true)
    | some l ↦ elim (maybe_negate_liquidity_delta l.liquidity_delta m.is_revert) [
      | none ↦ returns (err overflow)
      | some d ↦ write_range m.pool_id l.tick_lower l.tick_upper d
    ]
  ]

  unfoldable pub apply_ekubo_swap : PoolUpdateMessage → Applied W
  apply_ekubo_swap m = if m.is_revert then returns (ok true) else elim (extract_slot0 m) [
    | none ↦ returns (ok true)
    | some s ↦ elim m.pool_id [
      | address p ↦ returns (ok true)
      | pool_id i ↦ written (update_ekubo_slot0 i s.sqrt_price_x96 s.tick s.liquidity)
    ]
  ]

  -- A write for a pool that is known by address, or by id; the others pass.
  unfoldable pub at_address : PoolIdentifier → (Address → Write) → Applied W
  at_address (address p) w = written (w p)
  at_address (pool_id i) w = returns (ok true)

  unfoldable pub apply_v2_sync :
      (is_revert : Bool) → PoolIdentifier → (reserve0 reserve1 : ℕ) → Applied W
  apply_v2_sync true p r0 r1 = returns (ok false)
  apply_v2_sync false (pool_id i) r0 r1 = returns (ok false)
  apply_v2_sync false (address p) r0 r1 =
      if writer_of.get_v2_pool a p then written (update_v2_reserves p r0 r1) else returns (ok false)

  unfoldable pub apply_balances :
      PoolIdentifier → (List (Address × ℕ) → List (Address × ℕ)) → Applied W
  apply_balances (address p) f = returns (ok false)
  apply_balances (pool_id i) f = elim (writer_of.get_balancer_v2_pool a i) [
    | none ↦ returns (ok false)
    | some pool ↦ written (update_balancer_v2_balances i (map (λ x. x.1) (f pool)))
  ]

module _ {W : Type 0} (writer_of : ArenaWriter W) (a : W) (overflowed : Bool) where
  -- Ticks first, then, going forward, slot0.
  unfoldable pub apply_ekubo_liquidity :
      (is_revert : Bool) → PoolIdentifier → (tick_lower tick_upper delta : ℤ) → Slot0 → Applied W
  apply_ekubo_liquidity r (address p) lo hi delta s = returns writer_of a overflowed (ok true)
  apply_ekubo_liquidity r (pool_id i) lo hi delta s = elim (maybe_negate_liquidity_delta delta r) [
    | none ↦ returns writer_of a overflowed (err overflow)
    | some d ↦
        let x = ticks_written writer_of a overflowed (update_ekubo_tick_liquidity i lo hi d) in
        elim x.result [
          | err e ↦ x
          | ok flag ↦
              if r
              then x
              else written writer_of x.arena x.overflowed
                  (update_ekubo_slot0 i s.sqrt_price_x96 s.tick s.liquidity)
        ]
  ]

  abbrev here : (Address → Write) → PoolUpdateMessage → Applied W
  here w m = at_address writer_of a overflowed m.pool_id w

  unfoldable pub apply_update_of : PoolUpdateMessage → PoolUpdate → Applied W
  apply_update_of m (v2_sync r0 r1) =
      apply_v2_sync writer_of a overflowed m.is_revert m.pool_id r0 r1
  apply_update_of m (v2_swap x y) = returns writer_of a overflowed (err unsupported)
  apply_update_of m (v2_liquidity x y) = returns writer_of a overflowed (err unsupported)
  apply_update_of m (v3_swap s l k) = apply_swap writer_of a overflowed m
  apply_update_of m (v4_swap s l k) = apply_swap writer_of a overflowed m
  apply_update_of m (v3_liquidity lo hi d) = apply_range writer_of a overflowed m
  apply_update_of m (v4_liquidity lo hi d) = apply_range writer_of a overflowed m
  apply_update_of m (ekubo_swap s l k) = apply_ekubo_swap writer_of a overflowed m
  apply_update_of m (ekubo_liquidity lo hi d s l k) =
      apply_ekubo_liquidity m.is_revert m.pool_id lo hi d
        (record { sqrt_price_x96 = s; tick = k; liquidity = l })
  apply_update_of m (curve_swap w x y z) = returns writer_of a overflowed (err unsupported)
  apply_update_of m (curve_liquidity bs f o i u it ut) =
      here (λ p. update_curve_stable_state p bs f o i u it ut) m
  apply_update_of m (curve_ramp_a i u it ut) = here (λ p. update_curve_stable_a p i u it ut) m
  apply_update_of m (curve_fee_update f o) = here (λ p. update_curve_stable_fees p f o) m
  apply_update_of m (two_crypto_state bs price_scale d) =
      here (λ p. update_curve_twocrypto_state p bs.0 bs.1 (saturate d) (saturate price_scale)) m
  apply_update_of m (two_crypto_ramp_agamma ia fa ig fg it ft) =
      here (λ p. update_curve_twocrypto_a_gamma p ia ig fa fg it ft) m
  apply_update_of m (two_crypto_new_parameters x y z) =
      here (λ p. update_curve_twocrypto_fees p x y z) m
  apply_update_of m (tricrypto_state bs packed d) =
      here
        (λ p. update_curve_tricrypto_state p bs (saturate d) (unpack_tricrypto_price_scale packed))
        m
  apply_update_of m (tricrypto_ramp_agamma ia fa ig fg it ft) =
      here (λ p. update_curve_tricrypto_a_gamma p ia ig fa fg it ft) m
  apply_update_of m (tricrypto_new_parameters x y z) =
      here (λ p. update_curve_tricrypto_fees p x y z) m
  apply_update_of m (balancer_swap token_in token_out amount_in amount_out) =
      apply_balances writer_of a overflowed m.pool_id
        (swap_balances m.is_revert token_in token_out amount_in amount_out)
  apply_update_of m (balancer_liquidity tokens deltas) =
      apply_balances writer_of a overflowed m.pool_id (adjust_balances m.is_revert tokens deltas)
  apply_update_of m (balancer_fee_update fee) = elim m.pool_id [
    | address p ↦ returns writer_of a overflowed (ok true)
    | pool_id i ↦ written writer_of a overflowed (update_balancer_v2_fee i fee)
  ]
  apply_update_of m (fluid_state s) = here (λ p. update_fluid_reserves p s) m

  unfoldable pub apply_live_event : PoolUpdateMessage → Applied W
  apply_live_event m = apply_update_of m m.update

-- The flag is not used.
module _ {W : Type 0} (writer_of : ArenaWriter W) (a : W) where
  unfoldable pub apply_slot0_final : PoolIdentifier → Protocol → Wire.Slot0State → Applied W
  apply_slot0_final (address p) protocol s =
      written writer_of a false (update_v3_slot0 p s.sqrt_price_x96 s.tick s.liquidity)
  apply_slot0_final (pool_id i) protocol s = written writer_of a false (
      if same_protocol protocol ekubo
      then update_ekubo_slot0 i s.sqrt_price_x96 s.tick s.liquidity
      else update_v4_slot0 i s.sqrt_price_x96 s.tick s.liquidity)

  unfoldable pub apply_reorg_epilogue : ReorgEpilogueUpdate → Applied W
  apply_reorg_epilogue (slot0_final p protocol s) = apply_slot0_final p protocol s
  apply_reorg_epilogue (fluid_state_final (pool_id i) s) = returns writer_of a false (ok false)
  apply_reorg_epilogue (fluid_state_final (address p) s) =
      written writer_of a false (update_fluid_reserves p s)
  apply_reorg_epilogue (v2_reserves_final (pool_id i) r0 r1) = returns writer_of a false (ok false)
  apply_reorg_epilogue (v2_reserves_final (address p) r0 r1) =
      if writer_of.get_v2_pool a p
      then written writer_of a false (update_v2_reserves p r0 r1)
      else returns writer_of a false (ok false)
