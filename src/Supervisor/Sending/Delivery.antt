-- ===== src/Supervisor/Sending/Delivery.antt =====
-- What `txSending` of supervisor/committee delivers to each shard.
use aster.Prelude.{
  ℕ, zero, suc, ◌+◌, ◌%◌, ◌<◌, ◌≡◌, refl, sym, Bool, false, List, [], ◌∷◌, ◌++◌, append_assoc,
  append-nil, Bytes, nat_eq, ◌==◌, Map, insert, lookup_or, lookup_or-insert, lookup_or-nil, Result,
  ok, if◌then◌else◌, filter, All, arith, Bool-cases, inl, inr, nat_beq_iff, beq_sym,
}
use aster.Core.Transaction.{Transaction}
use aster.Supervisor.Sending.{InjectTxs, inject, is_due, send_from, tx_sending}

-- The transactions of the messages to a shard, in order.
abbrev pub delivered : ℕ → List InjectTxs → List Transaction
delivered sid [] = []
delivered sid (s ∷ ss) = (if s.to_shard_id == sid then s.txs else []) ++ delivered sid ss

delivered-append :
    (sid : ℕ) (ss ts : List InjectTxs)
    → delivered sid (ss ++ ts) ≡ delivered sid ss ++ delivered sid ts
delivered-append sid [] ts = refl
delivered-append sid (s ∷ ss) ts = rw (delivered-append sid ss ts) (
    sym (
      append_assoc (if s.to_shard_id == sid then s.txs else []) (delivered sid ss)
        (delivered sid ts)))

-- Below the first shard of the loop nothing is delivered.
delivered-inject_below :
    (sid from n : ℕ) (m : Map ℕ (List Transaction))
    → sid < from
    → delivered sid (inject from n m) ≡ []
unfolding inject
delivered-inject_below sid from zero m h = refl
delivered-inject_below sid from (suc n) m h =
    let other : (from == sid) ≡ false = ground (arith, h) in
    rw (other, delivered-inject_below sid (from + 1) n m (omega (arith, h))) refl

delivered-inject :
    (sid from n : ℕ) (m : Map ℕ (List Transaction))
    → sid < from + n
    → from < suc sid
    → delivered sid (inject from n m) ≡ lookup_or [] sid m
unfolding inject
delivered-inject sid from zero m h h' = absurd (omega (arith, h, h'))
delivered-inject sid from (suc n) m h h' = elim (Bool-cases (from == sid)) [
  | inl same ↦
      let e : from ≡ sid = (nat_beq_iff from sid).0 same in
      rw (same, delivered-inject_below sid (from + 1) n m (omega (arith, e)), e)
        (append-nil (lookup_or [] sid m))
  | inr other ↦
      let lt : from + 1 < suc sid = ground (arith, h', other) in
      rw (other, delivered-inject sid (from + 1) n m (omega (arith, h)) lt) refl
]

-- `append` to the list of a shard.
pub filed :
    (sid i : ℕ) (tx : Transaction) (m : Map ℕ (List Transaction))
    → lookup_or [] sid (insert i (lookup_or [] i m ++ tx ∷ []) m)
      ≡ lookup_or [] sid m ++ (if i == sid then tx ∷ [] else [])
filed sid i tx m = elim (Bool-cases (sid == i)) [
  | inl same ↦
      let e : sid ≡ i = (nat_beq_iff sid i).0 same in
      rw (lookup_or-insert [] i sid (lookup_or [] i m ++ tx ∷ []) m, same, beq_sym i sid, same, e)
        refl
  | inr other ↦
      rw (lookup_or-insert [] i sid (lookup_or [] i m ++ tx ∷ []) m, other, beq_sym i sid, other)
        (sym (append-nil (lookup_or [] sid m)))
]

filter_cons :
    (p : Transaction → Bool) (tx : Transaction) (txs : List Transaction)
    → filter p (tx ∷ txs) ≡ (if p tx then tx ∷ [] else []) ++ filter p txs
filter_cons p tx txs = elim (Bool-cases (p tx)) [
  | inl ours ↦ rw ours refl
  | inr other ↦ rw other refl
]

module _ (route : Bytes → Result ℕ) (inject_speed shard_num : ℕ) (home : Bytes → ℕ) where
  abbrev pub IsRouted : Transaction → Type 0
  IsRouted tx = route tx.sender ≡ ok (home tx.sender)

  abbrev pub is_for : ℕ → Transaction → Bool
  is_for sid tx = home tx.sender == sid

  -- From an index past the first on.
  send_from_lem :
      (sid idx : ℕ) (txs : List Transaction) (m : Map ℕ (List Transaction))
      → 0 < idx
      → 0 < inject_speed
      → sid < shard_num
      → All IsRouted txs
      → (sent : List InjectTxs) × (send_from route inject_speed shard_num idx txs m ≡ ok sent)
        × (delivered sid sent ≡ lookup_or [] sid m ++ filter (is_for sid) txs)
  unfolding send_from is_due
  send_from_lem sid idx [] m past speed below routed =
      let fine : (inject_speed == 0) ≡ false = ground (arith, speed) in
      let later : (idx == 0) ≡ false = ground (arith, past) in
      (
        inject 0 shard_num m,
        rw (later, fine) refl,
        rw (delivered-inject sid 0 shard_num m (omega (arith, below)) (omega arith))
            (sym (append-nil (lookup_or [] sid m))),
      )
  send_from_lem sid idx (tx ∷ txs) m past speed below (here, routed) =
      let fine : (inject_speed == 0) ≡ false = ground (arith, speed) in
      let later : (idx == 0) ≡ false = ground (arith, past) in
      let to = home tx.sender in
      let mine = if is_for sid tx then tx ∷ [] else [] in
      let others = filter (is_for sid) txs in
      let more =
        λ (left : Map ℕ (List Transaction)). insert to (lookup_or [] to left ++ tx ∷ []) left in
      elim (Bool-cases (idx % inject_speed == 0)) [
        | inl due ↦
            let (rest, done, got) =
              send_from_lem sid (idx + 1) txs (more []) (omega arith) speed below routed in
            (
              inject 0 shard_num m ++ rest,
              rw (later, fine, due, here, done) refl,
              rw
                  (
                    delivered-append sid (inject 0 shard_num m) rest,
                    delivered-inject sid 0 shard_num m (omega (arith, below)) (omega arith),
                    got,
                    filed sid to tx [],
                    lookup_or-nil {V = List Transaction} [] sid,
                    filter_cons (is_for sid) tx txs,
                  )
                  refl,
            )
        | inr early ↦
            let (rest, done, got) =
              send_from_lem sid (idx + 1) txs (more m) (omega arith) speed below routed in
            (
              rest,
              rw (later, fine, early, here, done) refl,
              rw (got, filed sid to tx m, filter_cons (is_for sid) tx txs)
                  (append_assoc (lookup_or [] sid m) mine others),
            )
      ]

  -- Over the messages that `txSending` sends, a shard gets the transactions whose sender is routed
  -- there, each once and in order, when every sender has a route and the injection speed is not 0.
  pub tx_sending_lem :
      (sid : ℕ) (txlist : List Transaction)
      → 0 < inject_speed
      → sid < shard_num
      → All IsRouted txlist
      → (sent : List InjectTxs) × (tx_sending route inject_speed shard_num txlist ≡ ok sent)
        × (delivered sid sent ≡ filter (is_for sid) txlist)
  unfolding tx_sending send_from is_due
  tx_sending_lem sid [] speed below routed = ([], refl, refl)
  tx_sending_lem sid (tx ∷ txs) speed below (here, routed) =
      let to = home tx.sender in
      let (rest, done, got) =
        send_from_lem sid 1 txs (insert to (lookup_or [] to [] ++ tx ∷ []) []) (omega arith) speed
          below routed in
      (
        rest,
        rw (here, done) refl,
        rw
            (
              got,
              filed sid to tx [],
              lookup_or-nil {V = List Transaction} [] sid,
              filter_cons (is_for sid) tx txs,
            )
            refl,
      )
