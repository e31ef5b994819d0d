-- ===== src/Hydration/Node.antt =====
-- What hydration reads at one block of the node: the readers of src/main.rs over that block's state.
use reth_exex_liquidity.Common.{ℕ}
use reth_exex_liquidity.Common.Int.{ℤ}
use reth_exex_liquidity.Common.Words.{◌>>=◌}
use reth_exex_liquidity.Tracker.{PoolTracker}
use reth_exex_liquidity.Storage.State.{StateProvider, read_v2_reserves}
use reth_exex_liquidity.Storage.Bitmap.{read_v3_full_state, read_v4_full_state}
use reth_exex_liquidity.Storage.Ekubo.{read_ekubo_full_state}
use reth_exex_liquidity.Storage.Balancer.{read_balancer_swap_fee_onchain}
use reth_exex_liquidity.Storage.Vault.{read_balancer_v2_balances}
use reth_exex_liquidity.Liquidity.FluidPool.{decode_fluid_pool}
use reth_exex_liquidity.Hydration.Tiers.{Capacities}
use reth_exex_liquidity.Hydration.Pools.{Readers}
use reth_exex_liquidity.Hydration.Batch.{Source}

-- keccak, the numbering of ticks in Ekubo's bitmap and the sizes of the arena's slots come from libraries.
pub record Layouts : Type 0 where
  pub keccak_slot : ℕ → ℕ → ℕ
  pub keccak_pair : ℕ → ℕ → ℕ
  pub ekubo_tick_to_word_and_index : ℤ → ℕ → ℕ × ℕ
  pub ekubo_bitmap_offset : ℕ
  pub capacities : Capacities
  pub max_tokens : ℕ

module _ (l : Layouts) where
  unfoldable pub readers_at : StateProvider → Readers
  readers_at state = record {
    v2_reserves = read_v2_reserves state;
    v3_full_state = read_v3_full_state l.keccak_slot state;
    v4_full_state = read_v4_full_state l.keccak_slot state;
    ekubo_full_state = λ core i.
        read_ekubo_full_state l.ekubo_tick_to_word_and_index l.ekubo_bitmap_offset state core i;
    fluid_pool = λ config ts. decode_fluid_pool state config ts >>= λ answer. answer;
    balancer_swap_fee = read_balancer_swap_fee_onchain state;
    balancer_v2_balances = read_balancer_v2_balances l.keccak_slot l.keccak_pair state;
  }

  -- With the Fluid configurations of a tracker.
  unfoldable pub source_at : StateProvider → (block_timestamp : ℕ) → PoolTracker → Source
  unfolding readers_at
  source_at state ts t = record {
    state = state;
    readers = readers_at state;
    capacities = l.capacities;
    max_tokens = l.max_tokens;
    fluid_configs = t.fluid_configs;
    block_timestamp = ts;
  }
