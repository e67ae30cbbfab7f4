-- ===== src/Core/TxPool/Relay.antt =====
-- The relay pool of core/txpool.go: what is added for a shard and what is packed of it.
use aster.Prelude.{
  ℕ, ◌^◌, ◌≤◌, ◌<◌, ◌≡◌, refl, ◌⊎◌, inl, inr, Option, none, some, List, [], ◌∷◌, ◌++◌, length, drop,
  take-append-drop, length-take, min, arith, nat_eq, Bool-cases, Option-cases, ok, panic, Map,
  lookup, lookup_or, has_key, insert, ltb, false, ◌==◌, beq_refl, if◌then◌else◌, lookup_or-insert,
  lookup_or_absent, lookup_or-some,
}
use aster.Core.Transaction.{Transaction}
use aster.Core.TxPool.{
  TxPool, relay_map, below_int, append_relayed, add_relay_tx, pack_relay_txs, clear_relay_pool,
}

abbrev pub relayed_to : ℕ → TxPool → List Transaction
relayed_to s p = lookup_or [] s (relay_map p)

pub lookup_or-append_relayed :
    (tx : Transaction) (s t : ℕ) (m : Map ℕ (List Transaction))
    → lookup_or [] t (append_relayed s tx m)
      ≡ (if t == s then lookup_or [] t m ++ tx ∷ [] else lookup_or [] t m)
unfolding append_relayed
lookup_or-append_relayed tx s t m = elim (Bool-cases (has_key s m)) [
  | inl old ↦ ground (arith, lookup_or-insert [] s t (lookup_or [] s m ++ tx ∷ []) m)
  | inr new ↦ ground (
    arith,
    lookup_or-insert [] s t (lookup_or [] s (insert s [] m) ++ tx ∷ []) (insert s [] m),
    lookup_or-insert [] s s [] m,
    lookup_or-insert [] s t [] m,
    lookup_or_absent [] s m,
  )
]

-- On a map that is not nil `AddRelayTx` puts the transaction last among those of its shard, and
-- leaves the other shards and the queue alone; after `ClearRelayPool` it panics.
pub add_relay_tx_lem :
    (tx : Transaction) (s t : ℕ) (p : TxPool) (m : Map ℕ (List Transaction))
    → p.relay_pool ≡ some m
    → (add_relay_tx tx s (clear_relay_pool p) ≡ panic)
      × (q : TxPool) × (add_relay_tx tx s p ≡ ok q)
      × (q.tx_queue ≡ p.tx_queue)
      × (relayed_to t q ≡ (if t == s then relayed_to t p ++ tx ∷ [] else relayed_to t p))
unfolding clear_relay_pool add_relay_tx append_relayed
add_relay_tx_lem tx s t p m e = (
  refl,
  record p { relay_pool = some (append_relayed s tx m) },
  rw (e, add_relay_tx),
  refl,
  rw e (lookup_or-append_relayed tx s t m),
)

-- What a call of `PackRelayTxs` for shard `s` does to the relay list of shard `t`.
abbrev pub Packs : ℕ → ℕ → ℕ → ℕ → TxPool → Option (List Transaction) × TxPool → Type 0
Packs s t lo hi p (none, q) =
    (q ≡ p) × ((has_key s (relay_map p) ≡ false) ⊎ (length (relayed_to s p) < lo))
Packs s t lo hi p (some txs, q) =
    (lo ≤ length (relayed_to s p))
    × (length txs ≡ min hi (length (relayed_to s p)))
    × (txs ++ relayed_to s q ≡ relayed_to s p)
    × (q.tx_queue ≡ p.tx_queue)
    × ((t ≡ s) ⊎ (relayed_to t q ≡ relayed_to t p))

-- `PackRelayTxs` gives nothing and changes nothing when the shard has no list or one that is
-- shorter than the minimum (below 2^63). Otherwise it takes the oldest transactions, as many as
-- the maximum allows, leaves the rest in order, and touches neither another shard nor the queue.
pub pack_relay_txs_lem :
    (s t lo hi : ℕ) (p : TxPool) → lo < 2 ^ 63 → Packs s t lo hi p (pack_relay_txs s lo hi p)
unfolding pack_relay_txs has_key
pack_relay_txs_lem s t lo hi p small = elim (Option-cases (lookup s (relay_map p))) [
  | inl missing ↦ rw (missing, pack_relay_txs) (refl, inl (rw (missing, has_key)))
  | inr (txs, found) ↦
      let here : relayed_to s p ≡ txs = lookup_or-some [] s (relay_map p) found in
      let n = if ltb (length txs) hi then length txs else hi in
      elim (Bool-cases (below_int (length txs) lo)) [
        | inl few ↦ rw (found, few, pack_relay_txs) (refl, inr (rw here (ground arith)))
        | inr enough ↦
            rw (found, enough, pack_relay_txs)
              (
                rw here (ground arith),
                rw here (ground (arith, length-take n txs)),
                rw (lookup_or-insert [] s s (drop n txs) (relay_map p), here, beq_refl s)
                    (take-append-drop n txs),
                refl,
                ground (arith, lookup_or-insert [] s t (drop n txs) (relay_map p)),
              )
      ]
]
