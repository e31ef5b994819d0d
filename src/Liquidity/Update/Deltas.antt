-- ===== src/Liquidity/Update/Deltas.antt =====
-- The liquidity that `create_pool_update` (src/main.rs) reports for a mint and a burn of a V3 pool.
use reth_exex_liquidity.Common.{ℕ, ◌-◌, ◌^◌, ◌≡◌, refl, arith, leb, if◌then◌else◌, Bool}
use reth_exex_liquidity.Common.Int.{ℤ, pos_part, neg_part}
use reth_exex_liquidity.Types.{Address, address, uniswap_v3}
use reth_exex_liquidity.Wire.{v3_liquidity, mint, burn}
use reth_exex_liquidity.Events.{v3_mint, v3_burn}
use reth_exex_liquidity.Tracker.{PoolTracker}
use reth_exex_liquidity.Storage.State.{StateProvider}
use reth_exex_liquidity.Liquidity.Update.{
  minted_delta, burnt_delta, some_update, create_pool_update,
}

abbrev pub at_most : ℕ → ℕ → ℕ
at_most limit n = if leb n limit then n else limit

-- Both report the same range of ticks, and one change of liquidity: what is minted, up to the greatest
-- `i128`, as a rise, and what is burnt, up to 2 ^ 127, as a fall.
pub create_pool_update_deltas :
    (state : StateProvider) (t : PoolTracker) (n ts tx li amount : ℕ) (r : Bool) (p : Address)
    (lo hi : ℤ)
    → let answer = some_update state t n ts tx li r (address p) uniswap_v3 in
      (minted burnt : ℤ) × (create_pool_update state t n ts tx li r (v3_mint p lo hi amount)
        ≡ answer mint (v3_liquidity lo hi minted))
      × (create_pool_update state t n ts tx li r (v3_burn p lo hi amount)
          ≡ answer burn (v3_liquidity lo hi burnt))
      × (pos_part minted ≡ at_most (2 ^ 127 - 1) amount)
      × (neg_part minted ≡ 0)
      × (neg_part burnt ≡ at_most (2 ^ 127) amount)
      × (pos_part burnt ≡ 0)
unfolding create_pool_update minted_delta burnt_delta
create_pool_update_deltas state t n ts tx li amount r p lo hi = (
  minted_delta amount,
  burnt_delta amount,
  refl,
  refl,
  ground arith,
  ground arith,
  ground arith,
  ground arith,
)
