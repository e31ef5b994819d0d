-- ===== src/Balance/Confirmed.antt =====
-- No swap of the executor in a committed chain goes unconfirmed (Balance/Swaps).
use reth_exex_liquidity.Common.{
  ℕ, zero, suc, ◌+◌, ◌≡◌, ap, sym, ◌∙◌, subst, arith, inl, inr, Option, none, some, List, [], ◌∷◌,
}
use reth_exex_liquidity.Types.{Address}
use reth_exex_liquidity.Events.{Log}
use reth_exex_liquidity.Storage.Positions.{Among, Among-append_left, Among-append_right}
use reth_exex_liquidity.Balance.Receipts.{
  Receipt, BlockReceipts, Notification, chain_committed, chain_reorged, chain_reverted,
}
use reth_exex_liquidity.Balance.Publish.{committed_chain}
use reth_exex_liquidity.Balance.Swaps.{
  SwapDecoders, SwapConfirmation, DecodedSwap, get_elem?, decode_executor_swap, confirmed,
  scan_receipt_for_swaps, scan_transaction, scan_block_receipts, scan_chain,
  scan_swaps_in_notification,
}

abbrev pub confirmation :
    (tx_hash block_number tx_index log_index ts : ℕ) → DecodedSwap → SwapConfirmation
confirmation h n tx i ts d = record {
  tx_hash = h;
  swap = d;
  block_number = n;
  tx_index = tx;
  log_index = i;
  ts = ts;
}

none-some_absurd {ℓ} : {A : Type ℓ} {x : A} → ◌≡◌ {A = Option A} none (some x) → ⊥
none-some_absurd e = cc

some-injective {ℓ} : {A : Type ℓ} {x y : A} → some x ≡ some y → x ≡ y
some-injective e = cc

module _ (abi : SwapDecoders) (executor : Address) (ts : ℕ) where
  Among-confirmed :
      (c : SwapConfirmation) (h n tx i : ℕ) (o : Option DecodedSwap) (rest : List SwapConfirmation)
      → Among c rest
      → Among c (confirmed abi executor h n tx ts i o rest)
  Among-confirmed c h n tx i none rest at = at
  Among-confirmed c h n tx i (some d) rest at = inr at

  Among-receipt :
      (h n tx k j : ℕ) (logs : Receipt) (log : Log) (d : DecodedSwap)
      → get_elem? logs j ≡ some log
      → decode_executor_swap abi executor log ≡ some d
      → Among
          (confirmation h n tx (k + j) ts d)
          (scan_receipt_for_swaps abi executor h n tx ts k logs)
  unfolding scan_receipt_for_swaps
  Among-receipt h n tx k j [] log d at is = absurd (none-some_absurd at)
  Among-receipt h n tx k zero (x ∷ logs) log d at is =
      let q : decode_executor_swap abi executor x ≡ some d =
        ap (decode_executor_swap abi executor) (some-injective at) ∙ is in
      subst
        (λ o. Among (confirmation h n tx (k + 0) ts d) (
          confirmed abi executor h n tx ts k o
            (scan_receipt_for_swaps abi executor h n tx ts (k + 1) logs)))
        (sym q) (inl (ap (λ i. confirmation h n tx i ts d) (omega arith)))
  Among-receipt h n tx k (suc j) (x ∷ logs) log d at is =
      Among-confirmed _ h n tx k (decode_executor_swap abi executor x) _ (
        subst
          (λ i.
            Among (confirmation h n tx i ts d)
              (scan_receipt_for_swaps abi executor h n tx ts (k + 1) logs))
          (omega arith) (Among-receipt h n tx (k + 1) j logs log d at is))

  Among-transaction :
      (h n tx j : ℕ) (o : Option ℕ) (r : Receipt) (log : Log) (d : DecodedSwap)
      → o ≡ some h
      → get_elem? r j ≡ some log
      → decode_executor_swap abi executor log ≡ some d
      → Among (confirmation h n tx j ts d) (scan_transaction abi executor n tx ts o r)
  Among-transaction h n tx j none r log d e within is = absurd (none-some_absurd e)
  Among-transaction h n tx j (some g) r log d e within is =
      subst
        (λ u.
          Among (confirmation h n tx j ts d) (scan_receipt_for_swaps abi executor u n tx ts 0 r))
        (sym (some-injective e))
        (subst
          (λ i.
            Among (confirmation h n tx i ts d) (scan_receipt_for_swaps abi executor h n tx ts 0 r))
          (omega arith) (Among-receipt h n tx 0 j r log d within is))

  Among-block :
      (b : BlockReceipts) (h k i j : ℕ) (receipts : List Receipt) (logs : Receipt) (log : Log)
      (d : DecodedSwap)
      → get_elem? b.tx_hashes (k + i) ≡ some h
      → get_elem? receipts i ≡ some logs
      → get_elem? logs j ≡ some log
      → decode_executor_swap abi executor log ≡ some d
      → Among
          (confirmation h b.number (k + i) j ts d)
          (scan_block_receipts abi executor b ts k receipts)
  unfolding scan_block_receipts
  Among-block b h k i j [] logs log d hash at within is = absurd (none-some_absurd at)
  Among-block b h k zero j (r ∷ rs) logs log d hash at within is =
      let hash0 : get_elem? b.tx_hashes k ≡ some h =
        ap (get_elem? b.tx_hashes) (omega arith) ∙ hash in
      Among-append_left _ (scan_transaction abi executor b.number k ts (get_elem? b.tx_hashes k) r)
        _
        (subst
          (λ m.
            Among (confirmation h b.number m j ts d)
              (scan_transaction abi executor b.number k ts (get_elem? b.tx_hashes k) r))
          (omega arith)
          (Among-transaction h b.number k j (get_elem? b.tx_hashes k) r log d hash0
            (ap (λ l. get_elem? l j) (some-injective at) ∙ within) is))
  Among-block b h k (suc i) j (r ∷ rs) logs log d hash at within is =
      Among-append_right _ (scan_transaction abi executor b.number k ts (get_elem? b.tx_hashes k) r)
        _
        (subst
          (λ m.
            Among (confirmation h b.number m j ts d)
              (scan_block_receipts abi executor b ts (k + 1) rs))
          (omega arith)
          (Among-block b h (k + 1) i j rs logs log d
            (ap (get_elem? b.tx_hashes) (omega arith) ∙ hash) at within is))

  Among-chain :
      (b : BlockReceipts) (bs : List BlockReceipts) (c : SwapConfirmation)
      → Among b bs
      → Among c (scan_block_receipts abi executor b ts 0 b.receipts)
      → Among c (scan_chain abi executor ts bs)
  unfolding scan_chain
  Among-chain b [] c at found = elim at [ ]
  Among-chain b (v ∷ bs) c (inl e) found =
      Among-append_left c (scan_block_receipts abi executor v ts 0 v.receipts) _
        (subst (λ u. Among c (scan_block_receipts abi executor u ts 0 u.receipts)) e found)
  Among-chain b (v ∷ bs) c (inr at) found =
      Among-append_right c (scan_block_receipts abi executor v ts 0 v.receipts) _
        (Among-chain b bs c at found)

  chain_scanned :
      (n : Notification) (new : List BlockReceipts) (c : SwapConfirmation)
      → committed_chain n ≡ some new
      → Among c (scan_chain abi executor ts new)
      → Among c (scan_swaps_in_notification abi executor ts n)
  unfolding scan_swaps_in_notification
  chain_scanned (chain_committed bs) new c e found =
      subst (λ l. Among c (scan_chain abi executor ts l)) (sym (some-injective e)) found
  chain_scanned (chain_reorged old bs) new c e found =
      subst (λ l. Among c (scan_chain abi executor ts l)) (sym (some-injective e)) found
  chain_scanned (chain_reverted old) new c e found = absurd (none-some_absurd e)

  -- A swap that `decode_executor_swap` reads in a log of a block of the new chain, in a receipt that has its
  -- transaction, is confirmed with that transaction's hash and index, the block's number and the log's index.
  pub scan_swaps_in_notification-confirms :
      (n : Notification) (new : List BlockReceipts) (b : BlockReceipts) (h i j : ℕ) (logs : Receipt)
      (log : Log) (d : DecodedSwap)
      → committed_chain n ≡ some new
      → Among b new
      → get_elem? b.tx_hashes i ≡ some h
      → get_elem? b.receipts i ≡ some logs
      → get_elem? logs j ≡ some log
      → decode_executor_swap abi executor log ≡ some d
      → Among (confirmation h b.number i j ts d) (scan_swaps_in_notification abi executor ts n)
  scan_swaps_in_notification-confirms n new b h i j logs log d e listed hash at within is =
      let found =
        subst
          (λ m.
            Among (confirmation h b.number m j ts d)
              (scan_block_receipts abi executor b ts 0 b.receipts))
          (omega arith)
          (Among-block b h 0 i j b.receipts logs log d
            (ap (get_elem? b.tx_hashes) (omega arith) ∙ hash) at within is) in
      chain_scanned n new _ e (Among-chain b new _ listed found)
