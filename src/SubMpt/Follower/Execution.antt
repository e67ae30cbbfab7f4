-- ===== src/SubMpt/Follower/Execution.antt =====
-- `ProcessTxs` of consensus_shard/subMPT/follower.go implements the ledger of its accounts.
use aster.Prelude.{
  ℕ, ◌≡◌, refl, inl, inr, Bool, true, false, ◌&&◌, Option, none, some, Bytes, ok, nat_eq, bytes_eq,
  ◌==◌, if◌then◌else◌, arith, Bool-cases, bytes_beq_iff as same_iff,
}
use aster.Prelude.Int.{ℤ, ◌-ℤ◌, ltb_ℤ, sub-zero, add-zero}
use aster.Core.Transaction.{Transaction}
use aster.SubMpt.Routing.{route_total, IsRoutable}
use aster.Accounts.Tries.{StateTrie, AccountCodec}
use aster.Accounts.{charge_sender, credit_recipient}
use aster.Accounts.Reads.{
  Ledger, Reads, Reads-ext, debited, credited, charge_sender_short, charge_sender_covered,
  credit_recipient_lem,
}
use aster.SubMpt.Follower.{process_placed, process_tx}
use aster.SubMpt.Follower.Ledger.{accepts, transferred, is_executed, execute}

-- The transaction after its round: the execution time is set if it was executed.
abbrev pub timed : ℕ → Bool → Transaction → Transaction
timed now done tx = if done then record tx { execution_time = now } else tx

module _ (t : StateTrie) (c : AccountCodec) (init_balance : ℤ) where
  -- The second half of a round, after the sender was charged or is held elsewhere.
  credit_step :
      (d2 f i now : ℕ) (st : t.Trie) (l : Ledger) (tx : Transaction)
      → Reads t c init_balance st l
      → (st' : t.Trie) × ((if d2 == f then credit_recipient t c init_balance i st tx else ok st)
          ≡ ok st')
        × Reads t c init_balance st' (λ k. if d2 == f then credited l tx k else l k)
  credit_step d2 f i now st l tx r = elim (Bool-cases (d2 == f)) [
    | inl here ↦
        let (st', done, r') = credit_recipient_lem t c init_balance i st l tx r in
        (st', rw (here, done), Reads-ext t c init_balance st' (credited l tx) _ r' (λ j. rw here))
    | inr away ↦ (st, rw away, Reads-ext t c init_balance st l _ r (λ j. rw away))
  ]

  charge_step :
      (d1 f i : ℕ) (st : t.Trie) (l : Ledger) (tx : Transaction)
      → Reads t c init_balance st l
      → (d1 == f && ltb_ℤ (l tx.sender) tx.value) ≡ false
      → (st' : t.Trie) × ((if d1 == f then charge_sender t c init_balance i st tx else ok (some st))
          ≡ ok (some st'))
        × Reads t c init_balance st' (λ k. if d1 == f then debited l tx k else l k)
  charge_step d1 f i st l tx r h = elim (Bool-cases (d1 == f)) [
    | inl here ↦
        let (st', done, r') = charge_sender_covered t c init_balance i st l tx r (rw here at h) in
        (st', rw (here, done), Reads-ext t c init_balance st' (debited l tx) _ r' (λ j. rw here))
    | inr away ↦ (st, rw away, Reads-ext t c init_balance st l _ r (λ j. rw away))
  ]

  transferred_steps :
      (d1 d2 f : ℕ) (l : Ledger) (tx : Transaction) (k : Bytes)
      → transferred f (some (d1, d2)) l tx k ≡ (
          let l1 = λ (j : Bytes). if d1 == f then debited l tx j else l j in
          if d2 == f then credited l1 tx k else l1 k)
  transferred_steps d1 d2 f l tx k = ground (
    arith,
    same_iff k tx.sender,
    same_iff k tx.recipient,
    same_iff tx.recipient tx.sender,
    sub-zero (l k),
    add-zero (l k),
    add-zero (l k -ℤ tx.value),
  )

  short_of : (b1 b2 : Bool) → (b1 && b2) ≡ true → (b1 ≡ true) × (b2 ≡ true)
  short_of b1 b2 h = ground arith

  process_placed_lem :
      (f i now : ℕ) (st : t.Trie) (l : Ledger) (tx : Transaction) (dest : Option (ℕ × ℕ))
      → Reads t c init_balance st l
      → (st' : t.Trie) × (process_placed t c init_balance f i now st tx dest
          ≡ ok (st', timed now (accepts f dest l tx) tx, accepts f dest l tx))
        × Reads t c init_balance st' (if accepts f dest l tx then transferred f dest l tx else l)
  unfolding process_placed
  process_placed_lem f i now st l tx none r = (st, refl, r)
  process_placed_lem f i now st l tx (some (d1, d2)) r =
      elim (Bool-cases (d1 == f && ltb_ℤ (l tx.sender) tx.value)) [
        | inl h ↦
            let (here, short) = short_of (d1 == f) (ltb_ℤ (l tx.sender) tx.value) h in
            (
              st,
              rw (here, charge_sender_short t c init_balance i st l tx r short, short),
              rw (here, short) r,
            )
        | inr h ↦
            let (st1, charged, r1) = charge_step d1 f i st l tx r h in
            let (st2, credited_to, r2) = credit_step d2 f i now st1 _ tx r1 in
            (
              st2,
              rw (charged, credited_to, h),
              rw h (Reads-ext t c init_balance st2 _ _ r2 (λ j. transferred_steps d1 d2 f l tx j)),
            )
      ]

  -- On a routable transaction and a trie that reads as a ledger, a round of `ProcessTxs` does not
  -- panic; the trie then reads as the ledger after the transaction, and the transaction is timed and
  -- its hash returned exactly if it is executed.
  pub process_tx_lem :
      (n f i now : ℕ) (st : t.Trie) (l : Ledger) (tx : Transaction)
      → IsRoutable n tx
      → Reads t c init_balance st l
      → (st' : t.Trie) × (process_tx t c init_balance n f i now st tx
          ≡ ok (st', timed now (is_executed n f l tx) tx, is_executed n f l tx))
        × Reads t c init_balance st' (execute n f l tx)
  unfolding process_tx is_executed execute
  process_tx_lem n f i now st l tx ok_tx r =
      let (dest, e) = route_total n tx ok_tx in
      rw (e, process_tx) (process_placed_lem f i now st l tx dest r)
