-- ===== src/SubMpt/Follower/Idle.antt =====
-- A batch of which nothing is executed, in consensus_shard/subMPT/follower.go.
use aster.Prelude.{
  ℕ, ◌+◌, ◌≡◌, ◌≢◌, refl, ◌∙◌, true, false, Option, none, some, List, [], ◌∷◌, ok, panic, nat_eq,
  ◌==◌, All, arith,
}
use aster.Prelude.Int.{ℤ, ltb_ℤ}
use aster.Core.Transaction.{Transaction}
use aster.SubMpt.Messages.{AllocateTxMsgs}
use aster.SubMpt.Routing.{IsRoutable, route_total}
use aster.Accounts.Tries.{StateTrie, AccountCodec}
use aster.Accounts.Reads.{Ledger, Reads, charge_sender_short}
use aster.SubMpt.Follower.{
  FollowerNode, stamp_allocated, process_placed, process_tx, process_loop, process_batch,
  process_txs, handle_allocated_txs,
}
use aster.SubMpt.Follower.Ledger.{is_executed, accepts}
use aster.SubMpt.Follower.Batch.{Holds, execute-stamped, stamp-IsRoutable}

module _ (t : StateTrie) (c : AccountCodec) (init_balance : ℤ) where
  idle_placed :
      (f i now : ℕ) (st : t.Trie) (l : Ledger) (tx : Transaction) (dest : Option (ℕ × ℕ))
      → Reads t c init_balance st l
      → accepts f dest l tx ≡ false
      → process_placed t c init_balance f i now st tx dest ≡ ok (st, tx, false)
  unfolding process_placed
  idle_placed f i now st l tx none r idle = refl
  idle_placed f i now st l tx (some (d1, d2)) r idle =
      let here : (d1 == f) ≡ true = ground (arith, idle) in
      let short : ltb_ℤ (l tx.sender) tx.value ≡ true = ground (arith, idle) in
      rw (here, charge_sender_short t c init_balance i st l tx r short) refl

  idle_tx :
      (n f i now : ℕ) (st : t.Trie) (l : Ledger) (tx : Transaction)
      → IsRoutable n tx
      → Reads t c init_balance st l
      → is_executed n f l tx ≡ false
      → process_tx t c init_balance n f i now st tx ≡ ok (st, tx, false)
  unfolding process_tx is_executed
  idle_tx n f i now st l tx fits r idle =
      let (dest, e) = route_total n tx fits in
      rw e (idle_placed f i now st l tx dest r (rw e at idle))

  idle_stamp :
      (n f : ℕ) (clock : ℕ → ℕ) (i : ℕ) (l : Ledger) (txs : List Transaction)
      → All (λ tx. is_executed n f l tx ≡ false) txs
      → All (λ tx. is_executed n f l tx ≡ false) (stamp_allocated clock i txs)
  unfolding stamp_allocated
  idle_stamp n f clock i l [] _ = tt
  idle_stamp n f clock i l (tx ∷ txs) (idle, more) =
      ((execute-stamped n f l (clock i) tx).1 ∙ idle, idle_stamp n f clock (i + 1) l txs more)

  idle_loop :
      (n f : ℕ) (clock : ℕ → ℕ) (i : ℕ) (st : t.Trie) (l : Ledger) (txs : List Transaction)
      → All (IsRoutable n) txs
      → Reads t c init_balance st l
      → All (λ tx. is_executed n f l tx ≡ false) txs
      → process_loop t c init_balance n f clock i st txs ≡ ok (st, [], txs)
  unfolding process_loop
  idle_loop n f clock i st l [] _ r _ = refl
  idle_loop n f clock i st l (tx ∷ txs) (fits, more) r (idle, rest) =
      rw
        (
          idle_tx n f i (clock i) st l tx fits r idle,
          idle_loop n f clock (i + 1) st l txs more r rest,
        )
        refl

  idle_batch :
      (allocated executed : ℕ → ℕ) (elapsed : ℕ) (txs : List Transaction) (f : FollowerNode t)
      (l : Ledger) (st : t.Trie)
      → All (IsRoutable f.follower_num) txs
      → t.open_trie f.state_root f.triedb ≡ some st
      → Reads t c init_balance st l
      → t.has_nodes st ≡ false
      → txs ≢ []
      → All (λ tx. is_executed f.follower_num f.follower_id l tx ≡ false) txs
      → process_batch t c init_balance allocated executed elapsed txs f ≡ panic
  unfolding process_batch
  idle_batch allocated executed elapsed [] f l st h opens r clean some_txs idle =
      absurd (some_txs refl)
  idle_batch allocated executed elapsed (tx ∷ txs) f l st h opens r clean some_txs idle =
      let n = f.follower_num in
      let id = f.follower_id in
      rw
        (
          opens,
          idle_loop n id executed 0 st l (stamp_allocated allocated 0 (tx ∷ txs))
              (stamp-IsRoutable n id allocated 0 (tx ∷ txs) h) r
              (idle_stamp n id allocated 0 l (tx ∷ txs) idle),
          clean,
        )
        refl

  pub handle_allocated_txs_idle :
      (allocated executed : ℕ → ℕ) (elapsed : ℕ) (msg : AllocateTxMsgs) (f : FollowerNode t)
      (l : Ledger)
      → All (IsRoutable f.follower_num) msg.txs
      → (holds : Holds t c init_balance f l) → t.has_nodes holds.0 ≡ false
      → msg.txs ≢ []
      → All (λ tx. is_executed f.follower_num f.follower_id l tx ≡ false) msg.txs
      → handle_allocated_txs t c init_balance allocated executed elapsed msg f ≡ panic
  unfolding handle_allocated_txs process_txs
  handle_allocated_txs_idle allocated executed elapsed msg f l h (st, opens, r) clean some_txs
        idle =
      rw (idle_batch allocated executed elapsed msg.txs f l st h opens r clean some_txs idle) refl
