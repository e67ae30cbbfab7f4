-- ===== src/SubMpt/Follower/Writes.antt =====
-- The loop of `ProcessTxs` in consensus_shard/subMPT/follower.go: the trie that it leaves is one that has
-- nodes to commit, or reads as before.
use aster.Prelude.{
  ℕ, ◌+◌, Bool, true, false, Option, none, some, List, [], ◌∷◌, Bytes, ok, nat_eq, ◌==◌,
  if◌then◌else◌, Result-cases, subst, inl, inr,
}
use aster.Prelude.Int.{ℤ}
use aster.Core.Transaction.{Transaction}
use aster.SubMpt.Routing.{route}
use aster.Accounts.Tries.{StateTrie, AccountCodec}
use aster.Accounts.{charge_sender, credit_recipient}
use aster.Accounts.Changes.{
  Keeps, Keeps-refl, Keeps-trans, KeepsIn, KeepsIf, KeepsOk, charge_sender-Keeps,
  credit_recipient-Keeps,
}
use aster.SubMpt.Follower.{process_placed, process_tx, process_loop}

module _ (t : StateTrie) (c : AccountCodec) (init_balance : ℤ) where
  charged-Keeps :
      (b : Bool) (i : ℕ) (st : t.Trie) (tx : Transaction)
      → KeepsIf t st (if b then charge_sender t c init_balance i st tx else ok (some st))
  charged-Keeps true i st tx = charge_sender-Keeps t c init_balance i st tx
  charged-Keeps false i st tx = Keeps-refl t st

  credited-Keeps :
      (b : Bool) (i : ℕ) (st : t.Trie) (tx : Transaction)
      → KeepsOk t st (if b then credit_recipient t c init_balance i st tx else ok st)
  credited-Keeps true i st tx = credit_recipient-Keeps t c init_balance i st tx
  credited-Keeps false i st tx = Keeps-refl t st

  process_placed-Keeps :
      (f i now : ℕ) (st : t.Trie) (tx : Transaction) (dest : Option (ℕ × ℕ))
      → KeepsIn t Transaction Bool st (process_placed t c init_balance f i now st tx dest)
  unfolding process_placed
  process_placed-Keeps f i now st tx none = Keeps-refl t st
  process_placed-Keeps f i now st tx (some (d1, d2)) =
      let charged = if d1 == f then charge_sender t c init_balance i st tx else ok (some st) in
      elim (Result-cases charged) [
        | inl bad ↦ rw bad tt
        | inr (none, e) ↦ rw e (Keeps-refl t st)
        | inr (some st1, e) ↦
            let one : Keeps t st st1 = subst (KeepsIf t st) e (charged-Keeps (d1 == f) i st tx) in
            let credited = if d2 == f then credit_recipient t c init_balance i st1 tx else ok st1 in
            elim (Result-cases credited) [
              | inl bad ↦ rw (e, bad) tt
              | inr (st2, e2) ↦
                  let two : Keeps t st1 st2 =
                    subst (KeepsOk t st1) e2 (credited-Keeps (d2 == f) i st1 tx) in
                  rw (e, e2) (Keeps-trans t st st1 st2 one two)
            ]
      ]

  process_tx-Keeps :
      (n f i now : ℕ) (st : t.Trie) (tx : Transaction)
      → KeepsIn t Transaction Bool st (process_tx t c init_balance n f i now st tx)
  unfolding process_tx
  process_tx-Keeps n f i now st tx = elim (Result-cases (route n tx)) [
    | inl bad ↦ rw bad tt
    | inr (dest, e) ↦ rw e (process_placed-Keeps f i now st tx dest)
  ]

  -- A batch has changed the trie, if it leaves one that has nodes to commit.
  pub process_loop-Keeps :
      (n f : ℕ) (clock : ℕ → ℕ) (i : ℕ) (st : t.Trie) (txs : List Transaction)
      → KeepsIn t
          (List Bytes)
          (List Transaction)
          st
          (process_loop t c init_balance n f clock i st txs)
  unfolding process_loop
  process_loop-Keeps n f clock i st [] = Keeps-refl t st
  process_loop-Keeps n f clock i st (tx ∷ txs) =
      elim (Result-cases (process_tx t c init_balance n f i (clock i) st tx)) [
        | inl bad ↦ rw bad tt
        | inr ((st1, tx1, done), e) ↦
            let one : Keeps t st st1 =
              subst (KeepsIn t Transaction Bool st) e (process_tx-Keeps n f i (clock i) st tx) in
            elim (Result-cases (process_loop t c init_balance n f clock (i + 1) st1 txs)) [
              | inl bad ↦ rw (e, bad) tt
              | inr ((st2, hashes, txs2), e2) ↦
                  let two : Keeps t st1 st2 =
                    subst (KeepsIn t (List Bytes) (List Transaction) st1) e2
                      (process_loop-Keeps n f clock (i + 1) st1 txs) in
                  rw (e, e2) (Keeps-trans t st st1 st2 one two)
            ]
      ]
