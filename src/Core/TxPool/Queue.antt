-- ===== src/Core/TxPool/Queue.antt =====
-- The transaction queue of core/txpool.go as a first-in first-out queue.
use aster.Prelude.{
  ℕ, ◌≡◌, refl, ◌∙◌, ap, sym, List, [], ◌∷◌, ◌++◌, map, append_assoc, append-nil, length,
  take-append-drop, length-take, min, arith, nat_eq, ◌==◌, if◌then◌else◌,
}
use aster.Core.Transaction.{Transaction}
use aster.Core.TxPool.{TxPool, stamp, add_tx_to_pool, add_txs_to_pool, pack_txs}

-- Packing takes the oldest transactions, as many as allowed, and the rest stay in order.
pub pack_txs_lem :
    (max_txs : ℕ) (p : TxPool)
    → let (packed, p') = pack_txs max_txs p in
      (packed ++ p'.tx_queue ≡ p.tx_queue)
      × (length packed ≡ min max_txs (length p.tx_queue))
      × (p'.relay_pool ≡ p.relay_pool)
unfolding pack_txs
pack_txs_lem max_txs p = (
  take-append-drop _ p.tx_queue,
  ground (arith, length-take max_txs p.tx_queue, length-take (length p.tx_queue) p.tx_queue),
  refl,
)

pub data Call : Type 0 where
  add : ℕ → Transaction → Call
  add_all : List (ℕ × Transaction) → Call
  pack : ℕ → Call

-- A history of calls: what was packed, in order, and the pool that is left.
unfoldable pub run : List Call → TxPool → List Transaction × TxPool
run [] p = ([], p)
run (add now tx ∷ calls) p = run calls (add_tx_to_pool now tx p)
run (add_all txs ∷ calls) p = run calls (add_txs_to_pool txs p)
run (pack n ∷ calls) p =
    let (packed, p') = pack_txs n p in let (later, q) = run calls p' in (packed ++ later, q)

-- The transactions that a history brings in, with the times that the pool gives them.
unfoldable pub arrivals : List Call → List Transaction
arrivals [] = []
arrivals (add now tx ∷ calls) = (if tx.time == 0 then stamp now tx else tx) ∷ arrivals calls
arrivals (add_all txs ∷ calls) = map (λ e. stamp e.0 e.1) txs ++ arrivals calls
arrivals (pack n ∷ calls) = arrivals calls

pub tx_queue-add_txs_to_pool :
    (txs : List (ℕ × Transaction)) (p : TxPool)
    → (add_txs_to_pool txs p).tx_queue ≡ p.tx_queue ++ map (λ e. stamp e.0 e.1) txs
unfolding add_txs_to_pool
tx_queue-add_txs_to_pool [] p = sym (append-nil p.tx_queue)
tx_queue-add_txs_to_pool ((now, tx) ∷ txs) p =
    tx_queue-add_txs_to_pool txs (record p { tx_queue = p.tx_queue ++ stamp now tx ∷ [] })
    ∙ append_assoc p.tx_queue (stamp now tx ∷ []) (map (λ e. stamp e.0 e.1) txs)

-- Whatever the order of the calls, what was packed followed by what still waits is what waited at
-- first followed by what came in: nothing is lost, doubled or overtaken.
pub run-arrivals :
    (calls : List Call) (p : TxPool)
    → (run calls p).0 ++ (run calls p).1.tx_queue ≡ p.tx_queue ++ arrivals calls
unfolding run arrivals add_tx_to_pool
run-arrivals [] p = sym (append-nil p.tx_queue)
run-arrivals (add now tx ∷ calls) p =
    run-arrivals calls (add_tx_to_pool now tx p) ∙ append_assoc p.tx_queue _ _
run-arrivals (add_all txs ∷ calls) p =
    run-arrivals calls (add_txs_to_pool txs p)
    ∙ ap (λ q. q ++ arrivals calls) (tx_queue-add_txs_to_pool txs p)
    ∙ append_assoc p.tx_queue _ _
run-arrivals (pack n ∷ calls) p =
    let p' = (pack_txs n p).1 in
    append_assoc (pack_txs n p).0 (run calls p').0 (run calls p').1.tx_queue
    ∙ ap (λ q. (pack_txs n p).0 ++ q) (run-arrivals calls p')
    ∙ sym (append_assoc (pack_txs n p).0 p'.tx_queue (arrivals calls))
    ∙ ap (λ q. q ++ arrivals calls) (pack_txs_lem n p).0
