-- ===== src/SubMpt/Follower/Money.antt =====
-- What the code of consensus_shard/subMPT/follower.go does to the money of its accounts.
use aster.Prelude.{ℕ, ◌≡◌, ◌≢◌, true, false, some, List, Bytes, ok, All, bytes_eq}
use aster.Prelude.Int.{ℤ, pos, ◌+ℤ◌, ◌≤ℤ◌, ltb_ℤ}
use aster.Core.Transaction.{Transaction}
use aster.Accounts.Tries.{StateTrie, AccountCodec}
use aster.Accounts.Reads.{Ledger, Reads}
use aster.SubMpt.Messages.{AllocateTxMsgs, FollowerMsg}
use aster.SubMpt.Routing.{route, IsRoutable}
use aster.SubMpt.Follower.{FollowerNode, process_tx, handle_allocated_txs}
use aster.SubMpt.Follower.Ledger.{execute, execute_all}
use aster.SubMpt.Follower.Execution.{process_tx_lem}
use aster.SubMpt.Follower.Batch.{Holds, IsCommitted, handle_allocated_txs_lem}
use aster.SubMpt.Follower.Conservation.{
  Distinct, Covers, AllLocal, total, total-execute_all, execute_unpaid, IsSolvent,
  execute_all-IsSolvent,
}

module _ (t : StateTrie) (c : AccountCodec) (init_balance : ℤ) where
  -- Handling a batch of routable transactions between accounts that the follower itself holds keeps
  -- the sum of the balances, over any addresses without repetition that include those of the batch. The
  -- batch is empty or changes a balance, or the stored trie has nodes to commit, as an empty one has.
  pub handle_allocated_txs-total :
      (allocated executed : ℕ → ℕ) (elapsed : ℕ) (msg : AllocateTxMsgs) (f : FollowerNode t)
      (l : Ledger) (ks : List Bytes)
      → All (IsRoutable f.follower_num) msg.txs
      → (holds : Holds t c init_balance f l) → IsCommitted t c init_balance f l msg.txs holds.0
      → Distinct ks
      → Covers ks msg.txs
      → AllLocal f.follower_num f.follower_id msg.txs
      → (f' : FollowerNode t) × (sent : List FollowerMsg) × (l' : Ledger) × (handle_allocated_txs t
            c init_balance allocated executed elapsed msg f
          ≡ ok (f', sent))
        × Holds t c init_balance f' l'
        × (total l' ks ≡ total l ks)
  handle_allocated_txs-total allocated executed elapsed msg f l ks h holds commits d covers here =
      let (f', done, holds') =
        handle_allocated_txs_lem t c init_balance allocated executed elapsed msg f l h holds
          commits in
      (
        f',
        _,
        execute_all f.follower_num f.follower_id l msg.txs,
        done,
        holds',
        total-execute_all f.follower_num f.follower_id l msg.txs ks d covers here,
      )

  -- Handling a batch of routable transactions with amounts of zero or more leaves no balance below
  -- zero, if none was. The batch is empty or changes a balance, or the stored trie has nodes to commit,
  -- as an empty one has.
  pub handle_allocated_txs-IsSolvent :
      (allocated executed : ℕ → ℕ) (elapsed : ℕ) (msg : AllocateTxMsgs) (f : FollowerNode t)
      (l : Ledger)
      → All (IsRoutable f.follower_num) msg.txs
      → (holds : Holds t c init_balance f l) → IsCommitted t c init_balance f l msg.txs holds.0
      → All (λ tx. pos 0 ≤ℤ tx.value) msg.txs
      → IsSolvent l
      → (f' : FollowerNode t) × (sent : List FollowerMsg) × (l' : Ledger) × (handle_allocated_txs t
            c init_balance allocated executed elapsed msg f
          ≡ ok (f', sent))
        × Holds t c init_balance f' l'
        × IsSolvent l'
  handle_allocated_txs-IsSolvent allocated executed elapsed msg f l h holds commits amounts
        solvent =
      let (f', done, holds') =
        handle_allocated_txs_lem t c init_balance allocated executed elapsed msg f l h holds
          commits in
      (
        f',
        _,
        execute_all f.follower_num f.follower_id l msg.txs,
        done,
        holds',
        execute_all-IsSolvent f.follower_num f.follower_id l msg.txs amounts solvent,
      )

  -- A routable transaction between followers `d1` and `d2` whose sender cannot pay: `d1` skips it
  -- and its balances stay, while `d2` executes it and credits the recipient, with money that nobody
  -- paid.
  pub process_tx_unpaid :
      (n d1 d2 i now : ℕ) (st1 st2 : t.Trie) (l1 l2 : Ledger) (tx : Transaction)
      → IsRoutable n tx
      → Reads t c init_balance st1 l1
      → Reads t c init_balance st2 l2
      → route n tx ≡ ok (some (d1, d2))
      → d1 ≢ d2
      → ltb_ℤ (l1 tx.sender) tx.value ≡ true
      → (st1' : t.Trie) × (st2' : t.Trie) × (l2' : Ledger) × (process_tx t c init_balance n d1 i now
            st1 tx
          ≡ ok (st1', tx, false))
        × Reads t c init_balance st1' l1
        × (process_tx t c init_balance n d2 i now st2 tx
            ≡ ok (st2', record tx { execution_time = now }, true))
        × Reads t c init_balance st2' l2'
        × (l2' tx.recipient ≡ l2 tx.recipient +ℤ tx.value)
  process_tx_unpaid n d1 d2 i now st1 st2 l1 l2 tx routable r1 r2 dest ne short =
      let (skipped, stays, runs, credit) = execute_unpaid n d1 d2 l1 l2 tx dest ne short in
      let (st1', one, r1') = process_tx_lem t c init_balance n d1 i now st1 l1 tx routable r1 in
      let (st2', two, r2') = process_tx_lem t c init_balance n d2 i now st2 l2 tx routable r2 in
      (
        st1',
        st2',
        execute n d2 l2 tx,
        (rw skipped at one),
        (rw stays at r1'),
        (rw runs at two),
        r2',
        credit,
      )
