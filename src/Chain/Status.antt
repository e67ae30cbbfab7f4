-- ===== src/Chain/Status.antt =====
-- `GetUpdateStatusTrie`, `GenerateBlock` and `FetchAccounts` of chain/blockchain_MemoryMPT.go. The
-- trie database is an argument; a root is its 32 bytes, which `common.BytesToHash` keeps.
use aster.Prelude.{
  ℕ, ◌+◌, ◌%◌, ◌^◌, ◌≡◌, refl, inl, inr, Bool, true, false, not, ◌&&◌, ◌||◌, Option, none, some,
  List, [], ◌∷◌, Bytes, Map, Result, ok, ◌>>=◌, or_panic, nat_eq, ◌==◌, if◌then◌else◌, Bool-cases,
  All,
}
use aster.Prelude.Int.{ℤ, ltb_ℤ}
use aster.Core.Transaction.{Transaction}
use aster.Core.TxPool.{pack_txs}
use aster.Core.Block.{BitSets, BlockHeader, Block, BlockCodec, new_block}
use aster.Accounts.Tries.{StateTrie, AccountCodec}
use aster.Accounts.{commit_trie, charge_sender, credit_recipient}
use aster.Accounts.Reads.{
  Ledger, Reads, debited, credited, charge_sender_short, charge_sender_covered,
  credit_recipient_lem,
}
use aster.Chain.{BlockChain, get_partition_map, get_bloom_filter}

module _ (t : StateTrie) (c : AccountCodec) (init_balance : ℤ) (shard_num : ℕ) where
  -- Whether an address is of this shard, or the transaction has a broker.
  unfoldable pub is_local : ℕ → Map Bytes ℕ → Transaction → Bytes → Result Bool
  is_local shard_id m tx addr = do
    s ← get_partition_map shard_num m addr
    ok (s == shard_id || tx.has_broker)

  -- The first test of a round, which a relayed transaction fails without the map being read.
  unfoldable pub pays_here : ℕ → Map Bytes ℕ → Transaction → Result Bool
  unfolding is_local
  pays_here shard_id m tx = if tx.relayed then ok false else is_local shard_id m tx tx.sender

  -- The second half of a round, which the `continue` skips.
  unfoldable pub credit_half :
      ℕ → Map Bytes ℕ → ℕ → Transaction → t.Trie → Option t.Trie → Result t.Trie
  unfolding is_local
  credit_half shard_id m i tx st none = ok st
  credit_half shard_id m i tx st (some st1) = do
    here ← is_local shard_id m tx tx.recipient
    if here then credit_recipient t c init_balance i st1 tx else ok st1

  unfoldable pub update_tx : ℕ → Map Bytes ℕ → ℕ → t.Trie → Transaction → Result t.Trie
  unfolding pays_here credit_half
  update_tx shard_id m i st tx = do
    pays ← pays_here shard_id m tx
    charged ← if pays then charge_sender t c init_balance i st tx else ok (some st)
    credit_half shard_id m i tx st charged

  -- The loop, from index `i` on.
  unfoldable pub update_txs : ℕ → Map Bytes ℕ → ℕ → t.Trie → List Transaction → Result t.Trie
  unfolding update_tx
  update_txs shard_id m i st [] = ok st
  update_txs shard_id m i st (tx ∷ txs) = do
    st1 ← update_tx shard_id m i st tx
    update_txs shard_id m (i + 1) st1 txs

  module _ {bits : BitSets} where
    -- The end of `GetUpdateStatusTrie`, on the number of modified accounts.
    unfoldable pub commit_counted : ℕ → t.Trie → t.Db → BlockChain bits → Result (Bytes × t.Db)
    unfolding commit_trie
    commit_counted cnt st db bc =
        if cnt == 0 then ok (bc.current_block.header.state_root, db) else commit_trie t st db

    -- `GetUpdateStatusTrie`: the root, and the trie database. No statement of the loop writes `cnt`.
    unfoldable pub get_update_status_trie :
        List Transaction → t.Db → BlockChain bits → Result (Bytes × t.Db)
    unfolding update_txs commit_counted
    get_update_status_trie [] db bc = ok (bc.current_block.header.state_root, db)
    get_update_status_trie (tx ∷ txs) db bc = do
      st ← or_panic (t.open_trie bc.current_block.header.state_root db)
      st' ← update_txs bc.shard_id bc.partition_map 0 st (tx ∷ txs)
      commit_counted 0 st' db bc

    -- `GenerateBlock`
    unfoldable pub generate_block :
        BlockCodec bits
        → (List Transaction → Bytes)
        → ℕ
        → ℕ
        → t.Db
        → BlockChain bits
        → Result (BlockChain bits × t.Db × Block bits)
    unfolding get_update_status_trie new_block
    generate_block codec tx_tree_root now miner db bc = do
      let (txs, pool) = pack_txs bc.block_size bc.precessed_txpool
      (rt, db') ← get_update_status_trie txs db bc
      let bh : BlockHeader bits = record {
        parent_block_hash = bc.current_block.hash;
        state_root = rt;
        tx_root = tx_tree_root txs;
        bloom_filter = get_bloom_filter bits txs;
        number = (bc.current_block.header.number + 1) % 2 ^ 64;
        time = now;
        miner = miner;
      }
      let b = new_block bits bh txs
      ok (record bc { precessed_txpool = pool }, db', record b { hash = codec.hash_header bh })

  -- The partition map or `Addr2Shard` places an address.
  abbrev pub IsPlaced : Map Bytes ℕ → Bytes → Type 0
  IsPlaced m addr = (s : ℕ) × (get_partition_map shard_num m addr ≡ ok s)

  is_local_lem :
      (shard_id : ℕ) (m : Map Bytes ℕ) (tx : Transaction) (addr : Bytes) (h : IsPlaced m addr)
      → is_local shard_id m tx addr ≡ ok (h.0 == shard_id || tx.has_broker)
  unfolding is_local
  is_local_lem shard_id m tx addr (s, e) = rw e

  pays_if :
      (relayed b : Bool) (r : Result Bool)
      → r ≡ ok b
      → (if relayed then ok false else r) ≡ ok (not relayed && b)
  pays_if true b r e = refl
  pays_if false b r e = e

  -- What a transaction does to the ledger of the shard, when its sender pays here, and its recipient
  -- is credited here.
  abbrev pub settled : Bool → Bool → Ledger → Transaction → Ledger
  settled pays here l tx =
      if pays && ltb_ℤ (l tx.sender) tx.value
      then l
      else let l1 = if pays then debited l tx else l in if here then credited l1 tx else l1

  credit_half_lem :
      (shard_id : ℕ) (m : Map Bytes ℕ) (i : ℕ) (tx : Transaction) (here : Bool) (st st1 : t.Trie)
      (l : Ledger)
      → is_local shard_id m tx tx.recipient ≡ ok here
      → Reads t c init_balance st1 l
      → (st2 : t.Trie) × (credit_half shard_id m i tx st (some st1) ≡ ok st2)
        × Reads t c init_balance st2 (if here then credited l tx else l)
  unfolding credit_half
  credit_half_lem shard_id m i tx true st st1 l e r =
      let (st2, done, r2) = credit_recipient_lem t c init_balance i st1 l tx r in
      (st2, rw (e, done), r2)
  credit_half_lem shard_id m i tx false st st1 l e r = (st1, rw e, r)

  charged_lem :
      (shard_id : ℕ) (m : Map Bytes ℕ) (i : ℕ) (tx : Transaction) (pays here : Bool) (st : t.Trie)
      (l : Ledger)
      → is_local shard_id m tx tx.recipient ≡ ok here
      → Reads t c init_balance st l
      → (st' : t.Trie) × (((if pays then charge_sender t c init_balance i st tx else ok (some st))
            >>= λ charged. credit_half shard_id m i tx st charged)
          ≡ ok st')
        × Reads t c init_balance st' (settled pays here l tx)
  unfolding credit_half
  charged_lem shard_id m i tx false here st l e r = credit_half_lem shard_id m i tx here st st l e r
  charged_lem shard_id m i tx true here st l e r =
      elim (Bool-cases (ltb_ℤ (l tx.sender) tx.value)) [
        | inl short ↦ (st, rw (charge_sender_short t c init_balance i st l tx r short), rw short r)
        | inr covered ↦
            let (st1, done, r1) = charge_sender_covered t c init_balance i st l tx r covered in
            let (st2, credits, r2) =
              credit_half_lem shard_id m i tx here st st1 (debited l tx) e r1 in
            (st2, rw (done, credits), rw covered r2)
      ]

  -- Both addresses of a transaction are placed.
  pub record ArePlaced (m : Map Bytes ℕ) (tx : Transaction) : Type 0 where
    pub sender : IsPlaced m tx.sender
    pub recipient : IsPlaced m tx.recipient

  -- Over a trie that reads as a ledger, a round of `GetUpdateStatusTrie` moves the value as the
  -- partition says: a sender of this shard pays unless the transaction was relayed, or the round
  -- does nothing when it cannot; a recipient of this shard is credited.
  pub update_tx_lem :
      (shard_id : ℕ) (m : Map Bytes ℕ) (i : ℕ) (st : t.Trie) (l : Ledger) (tx : Transaction)
      (h : ArePlaced m tx)
      → Reads t c init_balance st l
      → (st' : t.Trie) × (update_tx shard_id m i st tx ≡ ok st')
        × Reads t c init_balance st' (
            settled
              (not tx.relayed && (h.sender.0 == shard_id || tx.has_broker))
              (h.recipient.0 == shard_id || tx.has_broker)
              l
              tx)
  unfolding update_tx pays_here
  update_tx_lem shard_id m i st l tx h r =
      let here = is_local_lem shard_id m tx tx.recipient h.recipient in
      let pays =
        pays_if tx.relayed (h.sender.0 == shard_id || tx.has_broker)
          (is_local shard_id m tx tx.sender) (is_local_lem shard_id m tx tx.sender h.sender) in
      let (st', done, r') =
        charged_lem shard_id m i tx (not tx.relayed && (h.sender.0 == shard_id || tx.has_broker))
          (h.recipient.0 == shard_id || tx.has_broker) st l here r in
      (st', rw pays done, r')

  update_txs_lem :
      (shard_id : ℕ) (m : Map Bytes ℕ) (i : ℕ) (st : t.Trie) (l : Ledger) (txs : List Transaction)
      → All (ArePlaced m) txs
      → Reads t c init_balance st l
      → (st' : t.Trie) × (update_txs shard_id m i st txs ≡ ok st')
  unfolding update_txs
  update_txs_lem shard_id m i st l [] h r = (st, refl)
  update_txs_lem shard_id m i st l (tx ∷ txs) (h, hs) r =
      let (st1, one, r1) = update_tx_lem shard_id m i st l tx h r in
      let (st2, rest) = update_txs_lem shard_id m (i + 1) st1 _ txs hs r1 in (st2, rw one rest)

  -- Whatever the transactions, `GetUpdateStatusTrie` gives the root of the current block and leaves
  -- the trie database alone, since nothing counts the accounts that the loop modifies. The stored
  -- trie is to open and read, and the addresses to be placed.
  pub get_update_status_trie_lem :
      {bits : BitSets} (txs : List Transaction) (db : t.Db) (bc : BlockChain bits) (st : t.Trie)
      (l : Ledger)
      → t.open_trie bc.current_block.header.state_root db ≡ some st
      → Reads t c init_balance st l
      → All (ArePlaced bc.partition_map) txs
      → get_update_status_trie txs db bc ≡ ok (bc.current_block.header.state_root, db)
  unfolding get_update_status_trie commit_counted
  get_update_status_trie_lem [] db bc st l opens r h = refl
  get_update_status_trie_lem (tx ∷ txs) db bc st l opens r h =
      let (st', done) = update_txs_lem bc.shard_id bc.partition_map 0 st l (tx ∷ txs) h r in
      rw opens (rw done)
