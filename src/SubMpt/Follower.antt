-- ===== src/SubMpt/Follower.antt =====
-- consensus_shard/subMPT/follower.go and followerListen.go: the follower, which executes the
-- transactions that touch its part of the state. `time.Now` is a clock that is read by position.
pub mod Ledger
pub mod Execution
pub mod Writes
pub mod Batch
pub mod Conservation
pub mod Idle
pub mod Money
pub mod Migration
use aster.Prelude.{
  ℕ, ◌+◌, Bool, true, false, Option, none, some, List, [], ◌∷◌, ◌++◌, map, Bytes, Result, ok, panic,
  ◌>>=◌, or_panic, nat_eq, ◌==◌, if◌then◌else◌, length,
}
use aster.Prelude.Int.{ℤ, ltb_ℤ}
use aster.Core.Account.{AccountState, deduct, deposit}
use aster.Core.Transaction.{Transaction}
use aster.SubMpt.Messages.{
  AllocateTxMsgs, PrecessedTxMsgs, RequestDataMsgs, AllocateDataMsgs, AllocFidMsgs, FollowerMsg,
}
use aster.SubMpt.Routing.{route}
use aster.Accounts.{commit_trie, account_at, charge_sender, credit_recipient}
use aster.Accounts.Tries.{StateTrie, AccountCodec}

-- The fields that the handlers read or write.
pub record FollowerNode (t : StateTrie) : Type 0 where
  pub follower_id : ℕ
  pub follower_num : ℕ
  pub state_root : Bytes
  pub triedb : t.Db
  pub stop : Bool

-- `tx.AllocateTime = time.Now()` for every transaction of the message.
unfoldable pub stamp_allocated : (ℕ → ℕ) → ℕ → List Transaction → List Transaction
stamp_allocated clock i [] = []
stamp_allocated clock i (tx ∷ txs) =
    record tx { allocate_time = clock i } ∷ stamp_allocated clock (i + 1) txs

module _ (t : StateTrie) (c : AccountCodec) (init_balance : ℤ) where
  -- The rest of a round, for a placement of the two addresses.
  unfoldable pub process_placed :
      ℕ → ℕ → ℕ → t.Trie → Transaction → Option (ℕ × ℕ) → Result (t.Trie × Transaction × Bool)
  process_placed follower_id i now st tx none = ok (st, tx, false)
  process_placed follower_id i now st tx (some (dest_id1, dest_id2)) = do
    charged ←
        if dest_id1 == follower_id then charge_sender t c init_balance i st tx else ok (some st)
    elim charged [
      | none ↦ ok (st, tx, false)
      | some st1 ↦ do
        st2 ← if dest_id2 == follower_id then credit_recipient t c init_balance i st1 tx else ok st1
        ok (st2, record tx { execution_time = now }, true)
    ]

  -- One round of the loop of `ProcessTxs`: the state, the transaction, and whether its hash is
  -- returned.
  unfoldable pub process_tx :
      ℕ → ℕ → ℕ → ℕ → t.Trie → Transaction → Result (t.Trie × Transaction × Bool)
  process_tx follower_num follower_id i now st tx = do
    dest ← route follower_num tx
    process_placed follower_id i now st tx dest

  unfoldable pub process_loop :
      ℕ
      → ℕ
      → (ℕ → ℕ)
      → ℕ
      → t.Trie
      → List Transaction
      → Result (t.Trie × List Bytes × List Transaction)
  process_loop follower_num follower_id clock i st [] = ok (st, [], [])
  process_loop follower_num follower_id clock i st (tx ∷ txs) = do
    (st1, tx1, done) ← process_tx follower_num follower_id i (clock i) st tx
    (st2, hashes, txs2) ← process_loop follower_num follower_id clock (i + 1) st1 txs
    ok (st2, if done then tx1.tx_hash ∷ hashes else hashes, tx1 ∷ txs2)

  -- `ProcessTxs`, with the readings of the clock and the time that the loop took. An empty batch
  -- returns at once.
  unfoldable pub process_batch :
      (ℕ → ℕ)
      → (ℕ → ℕ)
      → ℕ
      → List Transaction
      → FollowerNode t
      → Result (FollowerNode t × List Bytes × List Transaction × List FollowerMsg)
  unfolding commit_trie
  process_batch allocated executed elapsed [] f = ok (f, [], [], [])
  process_batch allocated executed elapsed (tx ∷ txs) f = do
    st ← or_panic (t.open_trie f.state_root f.triedb)
    (st', hashes, txs') ←
        process_loop f.follower_num f.follower_id executed 0 st
          (stamp_allocated allocated 0 (tx ∷ txs))
    (root, db) ← commit_trie t st' f.triedb
    ok (
      record f { state_root = root; triedb = db },
      hashes,
      txs',
      FollowerMsg.execute_time (record {
        follower_id = f.follower_id;
        txs = length (tx ∷ txs);
        microseconds = elapsed;
      })
          ∷ [],
    )

  unfoldable pub process_txs :
      (ℕ → ℕ)
      → (ℕ → ℕ)
      → ℕ
      → AllocateTxMsgs
      → FollowerNode t
      → Result (FollowerNode t × List Bytes × List Transaction × List FollowerMsg)
  unfolding process_batch
  process_txs allocated executed elapsed msg f = process_batch allocated executed elapsed msg.txs f

  -- `handleAllocatedTxs`
  unfoldable pub handle_allocated_txs :
      (ℕ → ℕ)
      → (ℕ → ℕ)
      → ℕ
      → AllocateTxMsgs
      → FollowerNode t
      → Result (FollowerNode t × List FollowerMsg)
  handle_allocated_txs allocated executed elapsed msg f = do
    (f', hashes, txs, sent) ← process_txs allocated executed elapsed msg f
    ok (
      f',
      sent
          ++ FollowerMsg.precessed (record {
            txs = txs;
            tx_hashs = hashes;
            proofs = [];
            follower_id = f'.follower_id;
            epoch_id = msg.epoch_id;
            state_root = f'.state_root;
          })
            ∷ [],
    )

  -- The accounts of the requested keys, in order.
  unfoldable pub fetch_accounts : t.Trie → List Bytes → Result (List AccountState)
  fetch_accounts st [] = ok []
  fetch_accounts st (key ∷ keys) = do
    s_state ← account_at t c init_balance st key 0
    acs ← fetch_accounts st keys
    ok (s_state ∷ acs)

  -- The error of `trie.New` is dropped, and the nil trie panics when the first key is read.
  unfoldable pub request_accounts : FollowerNode t → List Bytes → Result (List AccountState)
  request_accounts f [] = ok []
  request_accounts f (key ∷ keys) = do
    st ← or_panic (t.open_trie f.state_root f.triedb)
    fetch_accounts st (key ∷ keys)

  -- `handleProposerRequest`
  unfoldable pub handle_proposer_request :
      RequestDataMsgs → FollowerNode t → Result (FollowerNode t × List FollowerMsg)
  unfolding request_accounts
  handle_proposer_request msg f = do
    acs ← request_accounts f msg.keys
    ok (
      f,
      FollowerMsg.response_data (record { fid = f.follower_id; keys = msg.keys; value = acs }) ∷ [],
    )

  -- `AllocMsg.Value[idx]` panics out of range.
  unfoldable pub store_accounts : t.Trie → List Bytes → List AccountState → Result t.Trie
  store_accounts st [] _ = ok st
  store_accounts st (key ∷ keys) [] = panic
  store_accounts st (key ∷ keys) (a ∷ acs) = store_accounts (t.update st key (c.encode a)) keys acs

  -- `handleProposerAllocateData`; the nil trie of a failed `trie.New` panics at the commit.
  unfoldable pub handle_proposer_allocate_data :
      AllocateDataMsgs → FollowerNode t → Result (FollowerNode t × List FollowerMsg)
  unfolding commit_trie
  handle_proposer_allocate_data msg f = do
    st ← or_panic (t.open_trie f.state_root f.triedb)
    st' ← store_accounts st msg.keys msg.value
    (root, db) ← commit_trie t st' f.triedb
    ok (
      record f { state_root = root; triedb = db },
      FollowerMsg.ready (record { fid = f.follower_id }) ∷ [],
    )

  -- `handleProposerAllocateFID`
  unfoldable pub handle_proposer_allocate_fid : AllocFidMsgs → FollowerNode t → FollowerNode t
  handle_proposer_allocate_fid msg f = record f { follower_id = msg.fid }

  -- `closeFollowerNode`, without the closing of the listener.
  unfoldable pub close_follower_node : FollowerNode t → FollowerNode t
  close_follower_node f = record f { stop = true }
