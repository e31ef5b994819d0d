-- ===== src/Tests/Arena.antt =====
-- The theorems on the arena at writers of a few lines.
use reth_exex_liquidity.Common.{
  ℕ, not, ◌==◌, Bool, true, false, none, List, [], ◌∷◌, ◌≡◌, refl, arith, length, retain,
}
use reth_exex_liquidity.Common.Int.{pos, negsuc}
use reth_exex_liquidity.Types.{Address, pool_id, uniswap_v4}
use reth_exex_liquidity.Wire.{PoolUpdateMessage, burn, v4_liquidity}
use reth_exex_liquidity.Arena.Writer.{ArenaWriter, Write, ok, err, pool_not_found}
use reth_exex_liquidity.Arena.Balances.{swap_balances, swap_balances_back}
use reth_exex_liquidity.Arena.Apply.{ApplyError, writer}
use reth_exex_liquidity.Arena.Apply
use reth_exex_liquidity.Arena.Reverts.{Slot0View, sets_slot0_or_reserves, apply_live_event_reverted}
use reth_exex_liquidity.Arena.Shadow.{ShadowArena, open_arena, apply_live_event, end_block}
use reth_exex_liquidity.Arena.Counted.{opened, next, applies, end_block-reports}

-- A log of the writes.
abbrev pub log_writer : ArenaWriter (List Write)
log_writer = record {
  get_v2_pool = λ a p. true;
  get_balancer_v2_pool = λ a i. none;
  write = λ w a. (w ∷ a, ok true);
  remove_pool = λ p a. (a, err pool_not_found);
  signal_topology_change = λ a. a;
  signal_update_complete = λ n applied label seq a. a;
}

slot0_writes : Slot0View log_writer (List Write)
unfolding retain
slot0_writes = record {
  view = λ a. retain sets_slot0_or_reserves a;
  others_keep = λ w a e. rw e refl;
}

abbrev burn_message : (is_revert : Bool) → PoolUpdateMessage
burn_message r = record {
  pool_id = pool_id 77;
  protocol = uniswap_v4;
  update_type = burn;
  block_number = 101;
  block_timestamp = 1_200;
  tx_index = 3;
  log_index = 4;
  is_revert = r;
  update = v4_liquidity (negsuc 59) (pos 60) (negsuc 999);
}

apply_live_event_reverted_example :
    slot0_writes.view (Apply.apply_live_event log_writer [] false (burn_message true)).arena
    ≡ slot0_writes.view []
apply_live_event_reverted_example =
    apply_live_event_reverted log_writer slot0_writes [] false (burn_message true) refl

abbrev two_tokens : List (Address × ℕ)
two_tokens = (11, 500) ∷ (12, 900) ∷ []

swap_balances_back_example :
    swap_balances true 11 12 40 70 (swap_balances false 11 12 40 70 two_tokens) ≡ two_tokens
swap_balances_back_example = swap_balances_back 11 12 40 70 two_tokens (
    (
      (λ e. omega arith, λ e. omega arith, omega arith),
      ((λ e. omega arith, λ e. omega arith, omega arith), tt),
    ))

abbrev busy_arena : ShadowArena (List Write)
busy_arena = (apply_live_event log_writer (burn_message false) (open_arena [])).0

end_block-reports_example :
    let (t, signal) = end_block log_writer 101 7 busy_arena in
    (t.arena
      ≡ log_writer.signal_update_complete 101
          (length signal.updated_pools)
          signal.live_block_apply
          7
          busy_arena.arena)
    × (signal.live_block_apply ≡ not (length signal.updated_pools == 0))
    × (t.applied_this_block ≡ 0)
    × (t.updated_this_block ≡ [])
end_block-reports_example =
    end_block-reports log_writer 101 7
      (next (opened []) (applies (burn_message false) (open_arena [])))
