-- ===== src/Core/TxPool/Transfer.antt =====
-- `TransferTxs` of core/txpool.go: the split of both pools by the sender's address.
use aster.Prelude.{
  ℕ, ◌≡◌, sym, List, [], ◌∷◌, ◌++◌, Bool, not, append_assoc, append-nil, filter, filter-append,
  arith, nat_eq, bytes_eq, ◌==◌, if◌then◌else◌, Bytes, Map, lookup_or, lookup_or-nil,
  lookup_or-cons, lookup_or_absent, DistinctKeys,
}
use aster.Core.Transaction.{Transaction}
use aster.Core.TxPool.{
  TxPool, relay_map, append_relayed, transfer_queue, transfer_shard, transfer_relay, transfer_txs,
}
use aster.Core.TxPool.Relay.{relayed_to, lookup_or-append_relayed}

abbrev pub is_from : Bytes → Transaction → Bool
is_from addr tx = tx.sender == addr

abbrev pub is_not_from : Bytes → Transaction → Bool
is_not_from addr tx = not (tx.sender == addr)

-- Every relay transaction, shard by shard.
unfoldable pub relay_txs : Map ℕ (List Transaction) → List Transaction
relay_txs [] = []
relay_txs ((s, txs) ∷ m) = txs ++ relay_txs m

module _ (addr : Bytes) where
  transfer_queue_lem :
      (txs moved kept : List Transaction)
      → transfer_queue addr txs moved kept
        ≡ (moved ++ filter (is_from addr) txs, kept ++ filter (is_not_from addr) txs)
  unfolding transfer_queue
  transfer_queue_lem [] moved kept = ground (arith, append-nil moved, append-nil kept)
  transfer_queue_lem (tx ∷ txs) moved kept =
      let here = tx.sender == addr in
      ground (
        arith,
        transfer_queue_lem txs (if here then moved ++ tx ∷ [] else moved)
            (if here then kept else kept ++ tx ∷ []),
        append_assoc moved (tx ∷ []) (filter (is_from addr) txs),
        append_assoc kept (tx ∷ []) (filter (is_not_from addr) txs),
      )

  moved-transfer_shard :
      (s : ℕ) (txs moved : List Transaction) (kept : Map ℕ (List Transaction))
      → (transfer_shard addr s txs moved kept).0 ≡ moved ++ filter (is_from addr) txs
  unfolding transfer_shard
  moved-transfer_shard s [] moved kept = sym (append-nil moved)
  moved-transfer_shard s (tx ∷ txs) moved kept =
      let here = tx.sender == addr in
      ground (
        arith,
        moved-transfer_shard s txs (if here then moved ++ tx ∷ [] else moved)
            (if here then kept else append_relayed s tx kept),
        append_assoc moved (tx ∷ []) (filter (is_from addr) txs),
      )

  kept-transfer_shard :
      (s t : ℕ) (txs moved : List Transaction) (kept : Map ℕ (List Transaction))
      → lookup_or [] t (transfer_shard addr s txs moved kept).1
        ≡ lookup_or [] t kept ++ (if t == s then filter (is_not_from addr) txs else [])
  unfolding transfer_shard
  kept-transfer_shard s t [] moved kept = ground (arith, append-nil (lookup_or [] t kept))
  kept-transfer_shard s t (tx ∷ txs) moved kept =
      let here = tx.sender == addr in
      ground (
        arith,
        kept-transfer_shard s t txs (if here then moved ++ tx ∷ [] else moved)
            (if here then kept else append_relayed s tx kept),
        lookup_or-append_relayed tx s t kept,
        append_assoc (lookup_or [] t kept) (tx ∷ []) (filter (is_not_from addr) txs),
      )

  moved-transfer_relay :
      (m : Map ℕ (List Transaction)) (moved : List Transaction) (kept : Map ℕ (List Transaction))
      → (transfer_relay addr m moved kept).0 ≡ moved ++ filter (is_from addr) (relay_txs m)
  unfolding transfer_relay relay_txs
  moved-transfer_relay [] moved kept = sym (append-nil moved)
  moved-transfer_relay ((s, txs) ∷ m) moved kept =
      let (moved', kept') = transfer_shard addr s txs moved kept in
      ground (
        arith,
        moved-transfer_relay m moved' kept',
        moved-transfer_shard s txs moved kept,
        filter-append (is_from addr) txs (relay_txs m),
        append_assoc moved (filter (is_from addr) txs) (filter (is_from addr) (relay_txs m)),
      )

  kept-transfer_relay :
      (t : ℕ) (m : Map ℕ (List Transaction)) (moved : List Transaction)
      (kept : Map ℕ (List Transaction))
      → DistinctKeys m
      → lookup_or [] t (transfer_relay addr m moved kept).1
        ≡ lookup_or [] t kept ++ filter (is_not_from addr) (lookup_or [] t m)
  unfolding transfer_relay
  kept-transfer_relay t [] moved kept d =
      ground (arith, append-nil (lookup_or [] t kept), lookup_or-nil {V = List Transaction} [] t)
  kept-transfer_relay t ((s, txs) ∷ m) moved kept d =
      let (moved', kept') = transfer_shard addr s txs moved kept in
      ground (
        arith,
        kept-transfer_relay t m moved' kept' d.1,
        kept-transfer_shard s t txs moved kept,
        lookup_or-cons [] t s txs m,
        lookup_or_absent [] s m d.0,
        append-nil (lookup_or [] t kept),
        append_assoc (lookup_or [] t kept) (filter (is_not_from addr) txs) [],
        append-nil (filter (is_not_from addr) txs),
      )

-- What `TransferTxs` returns are the transactions of the address, first those of the queue and then
-- those of the relay pool; the others stay, in order, in the queue and under their shard.
pub transfer_txs_lem :
    (addr : Bytes) (t : ℕ) (p : TxPool)
    → DistinctKeys (relay_map p)
    → let (moved, q) = transfer_txs addr p in
      (moved ≡ filter (is_from addr) p.tx_queue ++ filter (is_from addr) (relay_txs (relay_map p)))
      × (q.tx_queue ≡ filter (is_not_from addr) p.tx_queue)
      × (relayed_to t q ≡ filter (is_not_from addr) (relayed_to t p))
unfolding transfer_txs
transfer_txs_lem addr t p d =
    let (moved, queue) = transfer_queue addr p.tx_queue [] [] in
    ground (
      arith,
      transfer_queue_lem addr p.tx_queue [] [],
      moved-transfer_relay addr (relay_map p) moved [],
      kept-transfer_relay addr t (relay_map p) moved [] d,
      lookup_or-nil {V = List Transaction} [] t,
    )
