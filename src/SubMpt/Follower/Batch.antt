-- ===== src/SubMpt/Follower/Batch.antt =====
-- `handleAllocatedTxs` of consensus_shard/subMPT/followerListen.go, from the message to the reply.
use aster.Prelude.{
  ℕ, ◌+◌, ◌≡◌, refl, ◌∙◌, ap, Bool, true, false, Option, none, some, List, [], ◌∷◌, ◌++◌, ok,
  nat_eq, bytes_eq, arith, All, length, ◌⊎◌, ◌≢◌, inl, inr, subst, Bytes,
}
use aster.Prelude.Int.{ℤ}
use aster.Core.Transaction.{Transaction}
use aster.SubMpt.Messages.{AllocateTxMsgs, FollowerMsg}
use aster.SubMpt.Routing.{route, IsRoutable}
use aster.Accounts.Tries.{StateTrie, AccountCodec}
use aster.SubMpt.Follower.{
  FollowerNode, process_batch, process_loop, stamp_allocated, process_txs, handle_allocated_txs,
}
use aster.SubMpt.Follower.Ledger.{
  is_executed, execute, execute_all, executed_hashes, accepts, placed,
}
use aster.Accounts.{account_at}
use aster.Accounts.Changes.{KeepsIn, IsWritten, IsWritten-has_nodes}
use aster.SubMpt.Follower.Writes.{process_loop-Keeps}
use aster.Accounts.Reads.{Ledger, Reads}
use aster.SubMpt.Follower.Execution.{process_tx_lem, timed}

tx_hash-timed : (now : ℕ) (b : Bool) (tx : Transaction) → (timed now b tx).tx_hash ≡ tx.tx_hash
tx_hash-timed now true tx = refl
tx_hash-timed now false tx = refl

-- Every transaction of the message, after the loop.
unfoldable pub all_timed : ℕ → ℕ → (ℕ → ℕ) → ℕ → Ledger → List Transaction → List Transaction
all_timed n f clock i l [] = []
all_timed n f clock i l (tx ∷ txs) =
    timed (clock i) (is_executed n f l tx) tx ∷ all_timed n f clock (i + 1) (execute n f l tx) txs

abbrev pub stamped : ℕ → Transaction → Transaction
stamped now tx = record tx { allocate_time = now }

module _ (n f : ℕ) where
  accepts-stamped :
      (dest : Option (ℕ × ℕ)) (l : Ledger) (now : ℕ) (tx : Transaction)
      → accepts f dest l (stamped now tx) ≡ accepts f dest l tx
  accepts-stamped none l now tx = refl
  accepts-stamped (some d) l now tx = refl

  route-stamped : (now : ℕ) (tx : Transaction) → route n (stamped now tx) ≡ route n tx
  unfolding route
  route-stamped now tx = refl

  pub execute-stamped :
      (l : Ledger) (now : ℕ) (tx : Transaction)
      → (execute n f l (stamped now tx) ≡ execute n f l tx)
        × (is_executed n f l (stamped now tx) ≡ is_executed n f l tx)
  unfolding execute is_executed
  execute-stamped l now tx = (
    rw (route-stamped now tx) (rw (accepts-stamped (placed (route n tx)) l now tx)),
    rw (route-stamped now tx) (accepts-stamped (placed (route n tx)) l now tx),
  )

module _ (n f : ℕ) (clock : ℕ → ℕ) where
  execute_all-stamp :
      (i : ℕ) (l : Ledger) (txs : List Transaction)
      → (execute_all n f l (stamp_allocated clock i txs) ≡ execute_all n f l txs)
        × (executed_hashes n f l (stamp_allocated clock i txs) ≡ executed_hashes n f l txs)
  unfolding execute_all executed_hashes stamp_allocated
  execute_all-stamp i l [] = (refl, refl)
  execute_all-stamp i l (tx ∷ txs) =
      let (states, hashes) = execute_all-stamp (i + 1) (execute n f l tx) txs in
      let (state, executed) = execute-stamped n f l (clock i) tx in
      let rest = stamp_allocated clock (i + 1) txs in
      (
        ap (λ q. execute_all n f q rest) state ∙ states,
        ground (arith, executed, hashes, ap (λ q. executed_hashes n f q rest) state),
      )

  pub stamp-IsRoutable :
      (i : ℕ) (txs : List Transaction)
      → All (IsRoutable n) txs
      → All (IsRoutable n) (stamp_allocated clock i txs)
  unfolding stamp_allocated
  stamp-IsRoutable i [] h = tt
  stamp-IsRoutable i (tx ∷ txs) h = (
    record { followers = h.0.followers; sender = h.0.sender; recipient = h.0.recipient },
    stamp-IsRoutable (i + 1) txs h.1,
  )

-- The message on the execution time, which an empty batch does not send.
abbrev pub report : ℕ → ℕ → List Transaction → List FollowerMsg
report f elapsed [] = []
report f elapsed (tx ∷ txs) =
    FollowerMsg.execute_time
      (record { follower_id = f; txs = length (tx ∷ txs); microseconds = elapsed })
    ∷ []

module _ (t : StateTrie) (c : AccountCodec) (init_balance : ℤ) where
  pub process_loop_lem :
      (n f : ℕ) (clock : ℕ → ℕ) (i : ℕ) (st : t.Trie) (l : Ledger) (txs : List Transaction)
      → All (IsRoutable n) txs
      → Reads t c init_balance st l
      → (st' : t.Trie) × (process_loop t c init_balance n f clock i st txs
          ≡ ok (st', executed_hashes n f l txs, all_timed n f clock i l txs))
        × Reads t c init_balance st' (execute_all n f l txs)
  unfolding process_loop executed_hashes execute_all all_timed
  process_loop_lem n f clock i st l [] h r = (st, refl, r)
  process_loop_lem n f clock i st l (tx ∷ txs) h r =
      let (st1, one, r1) = process_tx_lem t c init_balance n f i (clock i) st l tx h.0 r in
      let (st2, rest, r2) = process_loop_lem n f clock (i + 1) st1 (execute n f l tx) txs h.1 r1 in
      (st2, rw (one, rest, tx_hash-timed (clock i) (is_executed n f l tx) tx), r2)

  -- The stored state of the node opens, and its accounts have the balances of the ledger.
  abbrev pub Holds : FollowerNode t → Ledger → Type 0
  Holds f l =
      (st : t.Trie) × (t.open_trie f.state_root f.triedb ≡ some st) × Reads t c init_balance st l

  pub committed-Reads :
      (st : t.Trie) (d : t.Db) (l : Ledger)
      → t.has_nodes st ≡ true
      → Reads t c init_balance st l
      → (st' : t.Trie) × (t.open_trie (t.commit st d).0 (t.commit st d).1 ≡ some st')
        × Reads t c init_balance st' l
  unfolding Reads account_at
  committed-Reads st d l written r =
      let (st', opened, same) = t.open_trie-commit st d written in
      (st', opened, λ k nonce. rw (same k, account_at) (r k nonce))

  -- What a batch is to do for the commit to have nodes: it is empty, and nothing is committed; or the
  -- stored trie has nodes already, as an empty one has; or it changes some balance.
  abbrev pub IsCommitted : FollowerNode t → Ledger → List Transaction → t.Trie → Type 0
  IsCommitted f l txs st =
      (txs ≡ []) ⊎ IsWritten t c init_balance st l (execute_all f.follower_num f.follower_id l txs)

  batch_written :
      (n f : ℕ) (clock : ℕ → ℕ) (st st' : t.Trie) (l : Ledger) (txs run : List Transaction)
      (hashes : List Bytes) (txs' : List Transaction)
      → process_loop t c init_balance n f clock 0 st run ≡ ok (st', hashes, txs')
      → Reads t c init_balance st l
      → Reads t c init_balance st' (execute_all n f l txs)
      → (txs ≡ []) ⊎ IsWritten t c init_balance st l (execute_all n f l txs)
      → txs ≢ []
      → t.has_nodes st' ≡ true
  batch_written n f clock st st' l txs run hashes txs' looped r r' (inl empty) some_txs =
      absurd (some_txs empty)
  batch_written n f clock st st' l txs run hashes txs' looped r r' (inr written) some_txs =
      IsWritten-has_nodes t c init_balance st st' l (execute_all n f l txs)
        (subst (KeepsIn t (List Bytes) (List Transaction) st) looped
          (process_loop-Keeps t c init_balance n f clock 0 st run))
        r r' written

  process_batch_lem :
      (allocated executed : ℕ → ℕ) (elapsed : ℕ) (txs : List Transaction) (f : FollowerNode t)
      (l : Ledger)
      → All (IsRoutable f.follower_num) txs
      → (holds : Holds f l) → IsCommitted f l txs holds.0
      → (f' : FollowerNode t) × (process_batch t c init_balance allocated executed elapsed txs f
          ≡ ok (
            f',
            executed_hashes f.follower_num f.follower_id l txs,
            all_timed f.follower_num f.follower_id executed 0 l (stamp_allocated allocated 0 txs),
            report f.follower_id elapsed txs,
          ))
        × (f'.follower_id ≡ f.follower_id)
        × Holds f' (execute_all f.follower_num f.follower_id l txs)
  unfolding process_batch
  process_batch_lem allocated executed elapsed [] f l h holds _ = (
    f,
    unfold stamp_allocated all_timed executed_hashes in refl,
    refl,
    unfold execute_all in holds,
  )
  process_batch_lem allocated executed elapsed (tx ∷ txs) f l h (st, opened, r) commits =
      let n = f.follower_num in
      let id = f.follower_id in
      let (states, hashes) = execute_all-stamp n id allocated 0 l (tx ∷ txs) in
      let (st', looped, r') =
        process_loop_lem n id executed 0 st l (stamp_allocated allocated 0 (tx ∷ txs))
          (stamp-IsRoutable n id allocated 0 (tx ∷ txs) h) r in
      let written =
        batch_written n id executed st st' l (tx ∷ txs) (stamp_allocated allocated 0 (tx ∷ txs))
          (executed_hashes n id l (stamp_allocated allocated 0 (tx ∷ txs))) _ looped r
          (rw states at r') commits (ground arith) in
      let f' = record f {
        state_root = (t.commit st' f.triedb).0;
        triedb = (t.commit st' f.triedb).1;
      } in
      (
        f',
        rw (opened, looped, written, hashes),
        refl,
        committed-Reads st' f.triedb (execute_all n id l (tx ∷ txs)) written (rw states at r'),
      )

  -- What the follower answers to a batch, when it stands at state `f'` and its balances were `l`.
  abbrev pub answer :
      (ℕ → ℕ)
      → (ℕ → ℕ)
      → ℕ
      → AllocateTxMsgs
      → FollowerNode t
      → Ledger
      → FollowerNode t
      → List FollowerMsg
  answer allocated executed elapsed msg f l f' =
      let n = f.follower_num in
      let id = f.follower_id in
      report id elapsed msg.txs
      ++ FollowerMsg.precessed (record {
        txs = all_timed n id executed 0 l (stamp_allocated allocated 0 msg.txs);
        tx_hashs = executed_hashes n id l msg.txs;
        proofs = [];
        follower_id = id;
        epoch_id = msg.epoch_id;
        state_root = f'.state_root;
      })
        ∷ []

  -- If every transaction of the batch is routable, the stored state opens and reads as a ledger, and the
  -- batch is empty or changes a balance or the stored trie has nodes to commit, as an empty one has,
  -- then handling the batch does not panic; the new state, opened again from the database, reads as
  -- the ledger after the batch; and the answer lists the hashes of the executed transactions.
  pub handle_allocated_txs_lem :
      (allocated executed : ℕ → ℕ) (elapsed : ℕ) (msg : AllocateTxMsgs) (f : FollowerNode t)
      (l : Ledger)
      → All (IsRoutable f.follower_num) msg.txs
      → (holds : Holds f l) → IsCommitted f l msg.txs holds.0
      → (f' : FollowerNode t) × (handle_allocated_txs t c init_balance allocated executed elapsed
            msg f
          ≡ ok (f', answer allocated executed elapsed msg f l f'))
        × Holds f' (execute_all f.follower_num f.follower_id l msg.txs)
  unfolding handle_allocated_txs process_txs
  handle_allocated_txs_lem allocated executed elapsed msg f l h holds commits =
      let (f', done, same, holds') =
        process_batch_lem allocated executed elapsed msg.txs f l h holds commits in
      (f', rw (done, same), holds')
