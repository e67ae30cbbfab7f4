-- ===== src/Chain/Transfer.antt =====
-- `AddAccounts` and `FetchAccounts` of chain/blockchain_MemoryMPT.go. The trie database is an argument;
-- the zero time is 0.
use aster.Prelude.{
  ℕ, ◌+◌, ◌%◌, ◌^◌, List, [], ◌∷◌, Bytes, Map, Result, ok, panic, ◌>>=◌, or_panic, nat_eq, bytes_eq,
  ◌==◌, if◌then◌else◌,
}
use aster.Prelude.Int.{ℤ}
use aster.Core.Transaction.{Transaction}
use aster.Core.Account.{AccountState}
use aster.Core.Block.{BitSets, BlockHeader, BlockCodec, new_block}
use aster.Accounts.Tries.{StateTrie, AccountCodec}
use aster.Accounts.{account_at}
use aster.Storage as Store
use aster.Chain.{BlockChain, get_partition_map, get_bloom_filter}

module _ (t : StateTrie) (c : AccountCodec) (init_balance : ℤ) (shard_num : ℕ) where
  -- The loop of `FetchAccounts`.
  unfoldable pub fetch_each : t.Trie → List Bytes → Result (List AccountState)
  fetch_each st [] = ok []
  fetch_each st (addr ∷ addrs) = do
    state_a ← account_at t c init_balance st addr 0
    rest ← fetch_each st addrs
    ok (state_a ∷ rest)

  -- The account that `AddAccounts` writes.
  abbrev pub moved_account : AccountState → AccountState
  moved_account a = record {
    ac_address = [];
    nonce = a.nonce;
    balance = a.balance;
    storage_root = [];
    code_hash = [];
  }

  -- The loop of `AddAccounts`; a state that is missing panics once it is read.
  unfoldable pub add_each :
      ℕ → Map Bytes ℕ → List Bytes → List AccountState → t.Trie → Result t.Trie
  add_each shard_id m [] states st = ok st
  add_each shard_id m (addr ∷ ac) [] st = do
    s ← get_partition_map shard_num m addr
    if s == shard_id then panic else add_each shard_id m ac [] st
  add_each shard_id m (addr ∷ ac) (a ∷ states) st = do
    s ← get_partition_map shard_num m addr
    add_each shard_id m ac states
        (if s == shard_id then t.update st addr (c.encode (moved_account a)) else st)

  module _ {bits : BitSets} (codec : BlockCodec bits)
      (tx_tree_root : List Transaction → Bytes) where
    -- The first result of `FetchAccounts`; the others are fields of the chain.
    unfoldable pub fetch_accounts : t.Db → BlockChain bits → List Bytes → Result (List AccountState)
    unfolding fetch_each
    fetch_accounts db bc addrs = do
      st ← or_panic (t.open_trie bc.current_block.header.state_root db)
      fetch_each st addrs

    -- The new root; the root that is committed is the old one. The nil that `st.Commit` gives for a clean
    -- trie panics.
    unfoldable pub root_with_accounts :
        List Bytes → List AccountState → t.Db → BlockChain bits → Result (Bytes × t.Db)
    unfolding add_each
    root_with_accounts [] states db bc = ok (bc.current_block.header.state_root, db)
    root_with_accounts (addr ∷ ac) states db bc = do
      let rt = bc.current_block.header.state_root
      st ← or_panic (t.open_trie rt db)
      st' ← add_each bc.shard_id bc.partition_map (addr ∷ ac) states st
      if t.has_nodes st'
          then (do db' ← or_panic (t.commit_root rt (t.hold st' db).1); ok ((t.hold st' db).0, db'))
          else panic

    -- `AddAccounts`
    unfoldable pub add_accounts :
        List Bytes → List AccountState → t.Db → BlockChain bits → Result (BlockChain bits × t.Db)
    unfolding root_with_accounts new_block
    add_accounts ac states db bc = do
      (rt, db') ← root_with_accounts ac states db bc
      let bh : BlockHeader bits = record {
        parent_block_hash = bc.current_block.hash;
        state_root = rt;
        tx_root = tx_tree_root [];
        bloom_filter = get_bloom_filter bits [];
        number = (bc.current_block.header.number + 1) % 2 ^ 64;
        time = 0;
        miner = 0;
      }
      let b = record (new_block bits bh []) { hash = codec.hash_header bh }
      s ← Store.add_block bits codec b bc.storage
      ok (record bc { current_block = b; storage = s }, db')
