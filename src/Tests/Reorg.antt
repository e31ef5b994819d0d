-- ===== src/Tests/Reorg.antt =====
-- The theorems on reorged and reverted chains at a sample chain.
use reth_exex_liquidity.Common.{
  ◌+◌, ◌*◌, ◌^◌, ◌==◌, ◌&&◌, if◌then◌else◌, ℕ, none, some, List, [], ◌∷◌, ◌++◌, ◌≡◌, refl, retain,
}
use reth_exex_liquidity.Wire.{ControlMessage, ping}
use reth_exex_liquidity.Liquidity.Protocol.{Consumer, outside, idle, conforms}
use reth_exex_liquidity.Liquidity.Reorg.Revert.{Round}
use reth_exex_liquidity.Liquidity.Reorg.Handle.{
  Notification, chain_committed, chain_reorged_to, chain_reverted_by, replay_block, commit_round,
}
use reth_exex_liquidity.Liquidity.Chain.{main_loop, main_loop-conforms}
use reth_exex_liquidity.Storage.State.{StateProvider}
use reth_exex_liquidity.Liquidity.Reorg.Agrees.{replay_block-commit_round}
use reth_exex_liquidity.Tests.Samples.{arrivals, sample_roles, sample-Directory, filled_reached}
use reth_exex_liquidity.Tests.Stream.{mostly, sync_snapshot, sample_block, sample_exex}

-- Pool 1001 of the sample whitelist has its reserves in slot 8.
abbrev sample_state : ℕ → StateProvider
sample_state n a slot =
    if a == 1001 && slot == 8 then some (some (n + 900 * 2 ^ 112)) else some none

-- Arrivals before, within and behind each block.
abbrev sample_round : ℕ → Round
sample_round n = record {
  block = record sample_block { number = n };
  between = [];
  early = arrivals;
  late = [];
}

abbrev sample_notifications : List Notification
sample_notifications =
    chain_committed (sample_round 100 ∷ [])
    ∷ chain_reorged_to (sample_round 100 ∷ []) (sample_round 100 ∷ sample_round 101 ∷ [])
    ∷ chain_reverted_by (sample_round 101 ∷ [])
    ∷ []

main_loop-conforms_example :
    let y =
      main_loop 3 sync_snapshot.decode_log
        (λ i. i)
        mostly
        sample_state
        sample_exex
        sample_notifications in
    let free : ℕ → Consumer = λ seq. record { stream_seq = seq; phase = outside idle } in
    (made : List ControlMessage) × (conforms (free 41) made ≡ some (free y.out.stream_seq))
    × (y.out.sent ≡ (ping ∷ []) ++ retain mostly made)
main_loop-conforms_example =
    main_loop-conforms 3 sync_snapshot.decode_log (λ i. i) mostly sample_state sample_exex
      sample_notifications

replay_block-commit_round_example :
    (replay_block mostly (λ n. sync_snapshot) (sample_exex, []) (sample_round 100)).0
    ≡ commit_round mostly (λ n. sync_snapshot) sample_exex (sample_round 100)
replay_block-commit_round_example =
    replay_block-commit_round sample_roles sample-Directory mostly (λ n. sync_snapshot) sample_exex
      [] (sample_round 100) filled_reached tt (tt, ((refl, (tt, tt)), tt))
