-- ===== src/Balance/Undo.antt =====
-- What undoing a chain in `process_notification` gives back, and what it does not.
use reth_exex_liquidity.Common.{
  ℕ, ◌+◌, ◌≤◌, ◌<◌, ◌≡◌, ap, sym, ◌∙◌, arith, Bool, true, false, List, [], ◌∷◌, ==-refl,
}
use reth_exex_liquidity.Types.{Address}
use reth_exex_liquidity.Balance.Receipts.{
  TransferDecoder, BlockReceipts, chain_committed, chain_reorged, chain_reverted, Balances,
  u256_max, balance_of, Move, moved, Ledger, process_blocks, process_chains, process_notification,
}
use reth_exex_liquidity.Balance.Moves.{
  chain_moves, process_blocks-moves, balance_of-moves, token_run, inflow, outflow,
  token_run_applied, token_run_reverted,
}

module _ (abi : TransferDecoder) (executor : Address) (tokens : List (Address × ℕ)) where
  balance_of-process_blocks :
      (r : Bool) (token : Address) (s : Ledger) (bs : List BlockReceipts)
      → balance_of token (process_blocks abi executor tokens r s bs).0
        ≡ token_run r token (balance_of token s.0) (chain_moves abi executor tokens bs)
  balance_of-process_blocks r token s bs =
      ap (λ x. balance_of token x.0) (process_blocks-moves abi executor tokens r s bs)
      ∙ balance_of-moves r token s (chain_moves abi executor tokens bs)

  token_run_back :
      (token : Address) (b : ℕ) (ms : List Move)
      → outflow token ms ≤ b
      → b + inflow token ms ≤ u256_max
      → token_run true token (token_run false token b ms) ms ≡ b
  token_run_back token b ms h k =
      let e = token_run_applied token b ms h k in
      let f =
        token_run_reverted token (token_run false token b ms) ms (omega arith) (omega arith) in
      omega arith

  -- The balance after a chain is applied and undone, by its moves.
  blocks_back :
      (token : Address) (bs : List BlockReceipts) (balances : Balances)
      → balance_of token
          (process_blocks abi executor tokens true
            ((process_blocks abi executor tokens false (balances, []) bs).0, [])
            bs).0
        ≡ token_run true token
            (token_run false token (balance_of token balances) (chain_moves abi executor tokens bs))
            (chain_moves abi executor tokens bs)
  blocks_back token bs balances =
      balance_of-process_blocks true token
        ((process_blocks abi executor tokens false (balances, []) bs).0, []) bs
      ∙ ap (λ b. token_run true token b (chain_moves abi executor tokens bs))
          (balance_of-process_blocks false token (balances, []) bs)

  token_run_passes :
      (token : Address) (b received paid : ℕ)
      → b < paid
      → paid ≤ b + received
      → b + received ≤ u256_max
      → (ms : List Move)
      → ms
        ≡ record { token = token; is_incoming = true; value = received }
          ∷ record { token = token; is_incoming = false; value = paid }
          ∷ []
      → token_run true token (token_run false token b ms) ms ≡ paid
  unfolding token_run moved
  token_run_passes token b received paid h k l ms e = rw e (ground (arith, ==-refl token))

  -- Where the executor held, before the old chain, all that the chain pays away of a token, and the token's
  -- receipts do not overflow: a reorg leaves the balance that the new chain alone leads to, and a revert the
  -- one before the chain.
  pub process_notification-undoes :
      (token : Address) (old new : List BlockReceipts) (balances : Balances)
      → outflow token (chain_moves abi executor tokens old) ≤ balance_of token balances
      → balance_of token balances + inflow token (chain_moves abi executor tokens old) ≤ u256_max
      → (balance_of token
            (process_notification abi executor tokens
              (chain_reorged old new)
              (process_notification abi executor tokens (chain_committed old) balances).0).0
          ≡ balance_of token
              (process_notification abi executor tokens (chain_committed new) balances).0)
        × (balance_of token
              (process_notification abi executor tokens
                (chain_reverted old)
                (process_notification abi executor tokens (chain_committed old) balances).0).0
            ≡ balance_of token balances)
  unfolding process_notification process_chains
  process_notification-undoes token old new balances h k =
      let back =
        blocks_back token old balances
        ∙ token_run_back token (balance_of token balances) (chain_moves abi executor tokens old) h
            k in
      (
        balance_of-process_blocks false token
              (process_blocks abi executor tokens true
                ((process_blocks abi executor tokens false (balances, []) old).0, []) old)
              new
            ∙ ap (λ b. token_run false token b (chain_moves abi executor tokens new)) back
            ∙ sym (balance_of-process_blocks false token (balances, []) new),
        back,
      )

  -- A chain in which two transfers count: the executor receives an amount of a token and then pays some of it.
  -- Where it pays more than it had before the chain, no more than it has then, and nothing overflows, committing
  -- and reverting the chain leaves the amount paid instead of the former balance.
  pub process_notification-passes_through :
      (token : Address) (old : List BlockReceipts) (balances : Balances) (received paid : ℕ)
      → chain_moves abi executor tokens old
        ≡ record { token = token; is_incoming = true; value = received }
          ∷ record { token = token; is_incoming = false; value = paid }
          ∷ []
      → balance_of token balances < paid
      → paid ≤ balance_of token balances + received
      → balance_of token balances + received ≤ u256_max
      → balance_of token
          (process_notification abi executor tokens
            (chain_reverted old)
            (process_notification abi executor tokens (chain_committed old) balances).0).0
        ≡ paid
  unfolding process_notification process_chains
  process_notification-passes_through token old balances received paid e h k l =
      blocks_back token old balances
      ∙ token_run_passes token (balance_of token balances) received paid h k l
          (chain_moves abi executor tokens old) e
