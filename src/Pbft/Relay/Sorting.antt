-- ===== src/Pbft/Relay/Sorting.antt =====
-- The loop over the transactions of a block in `HandleinCommit` of
-- consensus_shard/pbft_all/pbftInside_module.go.
use aster.Prelude.{
  ℕ, ◌≡◌, refl, not, some, List, [], ◌∷◌, ◌++◌, map, Bytes, Map, ok, nat_eq, bytes_eq, ◌==◌,
  if◌then◌else◌, lookup_or, lookup_or-nil, filter, All, arith, append_assoc, append-nil, Bool-cases,
  inl, inr,
}
use aster.Core.Transaction.{Transaction}
use aster.Core.TxPool.{TxPool, relay_map, append_relayed, add_relay_tx}
use aster.Core.TxPool.Relay.{relayed_to, lookup_or-append_relayed}
use aster.Chain.{get_partition_map}
use aster.Pbft.Relay.{RelayMsg, relayed, Sorted, sort_tx, sort_txs}
use aster.Pbft.Relay.Sent.{relay_of}

module _ (shard_num : ℕ) (m : Map Bytes ℕ) (home : Transaction → ℕ) where
  -- The shard of every recipient is found.
  abbrev pub HaveHomes : List Transaction → Type 0
  HaveHomes txs = All (λ tx. get_partition_map shard_num m tx.recipient ≡ ok (home tx)) txs

-- Where the recipients of a block's transactions are, and from there: the transactions as the chain
-- keeps them, those for other shards, and those for the shard `t`.
module _ (own : ℕ) (home : Transaction → ℕ) where
  abbrev pub marked : List Transaction → List Transaction
  marked txs = map (λ tx. if home tx == own then tx else relayed tx) txs

  abbrev pub away : List Transaction → List Transaction
  away txs = map relayed (filter (λ tx. not (home tx == own)) txs)

  abbrev pub due : ℕ → List Transaction → List Transaction
  due t txs = if t == own then [] else map relayed (filter (λ tx. home tx == t) txs)

  -- The relay messages that shard `t` should be sent: one, and none if it is the shard itself.
  abbrev pub due_messages : ℕ → ℕ → List Transaction → List RelayMsg
  due_messages t seq txs =
      if t == own
      then []
      else record { txs = due t txs; sender_shard_id = own; sender_seq = seq } ∷ []

-- From an empty relay map.
pub all_due :
    (t own seq : ℕ) (home : Transaction → ℕ) (txs : List Transaction) (p : TxPool)
    → relayed_to t p ≡ lookup_or [] t [] ++ due own home t txs
    → (if t == own then [] else relay_of t own seq (relay_map p) ∷ [])
      ≡ due_messages own home t seq txs
all_due t own seq home txs p e = rw e (ground (arith, lookup_or-nil {V = List Transaction} [] t))

module _ (own : ℕ) (home : Transaction → ℕ) where
  -- The state of the loop after the transactions, seen by shard `t`.
  pub record HasSorted (t : ℕ) (txs : List Transaction) (s s' : Sorted) : Type 0 where
    pub made : (p : Map ℕ (List Transaction)) × (s'.pool.relay_pool ≡ some p)
    pub queue : s'.pool.tx_queue ≡ s.pool.tx_queue
    pub body : s'.body ≡ s.body ++ marked own home txs
    pub executed_txs : s'.executed_txs ≡ s.executed_txs ++ filter (λ tx. home tx == own) txs
    pub relay1_txs : s'.relay1_txs ≡ s.relay1_txs ++ away own home txs
    pub relay : relayed_to t s'.pool ≡ relayed_to t s.pool ++ due own home t txs

  HasSorted-trans :
      (t : ℕ) (tx : Transaction) (txs : List Transaction) (s s' s'' : Sorted)
      → HasSorted t (tx ∷ []) s s'
      → HasSorted t txs s' s''
      → HasSorted t (tx ∷ txs) s s''
  HasSorted-trans t tx txs s s' s'' h k = record {
    made = k.made;
    queue = ground (arith, h.queue, k.queue);
    body = ground (
      arith,
      h.body,
      k.body,
      append_assoc s.body (marked own home (tx ∷ [])) (marked own home txs),
    );
    executed_txs = ground (
      arith,
      h.executed_txs,
      k.executed_txs,
      append_assoc s.executed_txs (filter (λ y. home y == own) (tx ∷ []))
          (filter (λ y. home y == own) txs),
    );
    relay1_txs = ground (
      arith,
      h.relay1_txs,
      k.relay1_txs,
      append_assoc s.relay1_txs (away own home (tx ∷ [])) (away own home txs),
    );
    relay = ground (
      arith,
      h.relay,
      k.relay,
      append_assoc (relayed_to t s.pool) (due own home t (tx ∷ [])) (due own home t txs),
    );
  }

  HasSorted-refl :
      (t : ℕ) (s : Sorted) (p : Map ℕ (List Transaction))
      → s.pool.relay_pool ≡ some p
      → HasSorted t [] s s
  HasSorted-refl t s p e = record {
    made = (p, e);
    queue = refl;
    body = ground (arith, append-nil s.body);
    executed_txs = ground (arith, append-nil s.executed_txs);
    relay1_txs = ground (arith, append-nil s.relay1_txs);
    relay = ground (arith, append-nil (relayed_to t s.pool));
  }

module _ (shard_num : ℕ) (m : Map Bytes ℕ) (own : ℕ) (home : Transaction → ℕ) where
  sort_tx_lem :
      (t : ℕ) (tx : Transaction) (s : Sorted) (p : Map ℕ (List Transaction))
      → s.pool.relay_pool ≡ some p
      → get_partition_map shard_num m tx.recipient ≡ ok (home tx)
      → (s' : Sorted) × (sort_tx shard_num m own tx s ≡ ok s') × HasSorted own home t (tx ∷ []) s s'
  unfolding sort_tx add_relay_tx
  sort_tx_lem t tx s p e placed = elim (Bool-cases (home tx == own)) [
    | inl here ↦
        let s' = record s { executed_txs = s.executed_txs ++ tx ∷ []; body = s.body ++ tx ∷ [] } in
        (
          s',
          rw (placed, here, sort_tx) refl,
          record {
            made = (p, e);
            queue = refl;
            body = ground (arith, here);
            executed_txs = ground (arith, here);
            relay1_txs = ground (arith, here, append-nil s.relay1_txs);
            relay = ground (arith, here, append-nil (relayed_to t s.pool));
          },
        )
    | inr there ↦
        let s' = record s {
          pool = record s.pool { relay_pool = some (append_relayed (home tx) (relayed tx) p) };
          relay1_txs = s.relay1_txs ++ relayed tx ∷ [];
          body = s.body ++ relayed tx ∷ [];
        } in
        (
          s',
          rw (placed, there, sort_tx, e) refl,
          record {
            made = (_, refl);
            queue = refl;
            body = ground (arith, there);
            executed_txs = ground (arith, there, append-nil s.executed_txs);
            relay1_txs = ground (arith, there);
            relay = rw e (
                ground (
                  arith,
                  there,
                  append-nil (lookup_or [] t p),
                  lookup_or-append_relayed (relayed tx) (home tx) t p,
                ));
          },
        )
  ]

  pub sort_txs_lem :
      (t : ℕ) (txs : List Transaction) (s : Sorted) (p : Map ℕ (List Transaction))
      → s.pool.relay_pool ≡ some p
      → HaveHomes shard_num m home txs
      → (s' : Sorted) × (sort_txs shard_num m own txs s ≡ ok s') × HasSorted own home t txs s s'
  unfolding sort_txs
  sort_txs_lem t [] s p e placed = (s, refl, HasSorted-refl own home t s p e)
  sort_txs_lem t (tx ∷ txs) s p e (here, rest) =
      let (s', run, h) = sort_tx_lem t tx s p e here in
      let (s'', run', h') = sort_txs_lem t txs s' h.made.0 h.made.1 rest in
      (s'', rw (run, sort_txs) run', HasSorted-trans own home t tx txs s s' s'' h h')
