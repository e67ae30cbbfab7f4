-- ===== src/Chain/Moved.antt =====
-- Accounts that leave one shard and arrive at another, chain/blockchain_MemoryMPT.go.
use aster.Prelude.{
  Result-cases, ℕ, ◌+◌, ◌%◌, ◌^◌, ◌≡◌, ◌≢◌, refl, ap, sym, subst, inl, inr, Bool, true, false, ◌&&◌,
  some, List, [], ◌∷◌, Bytes, Map, Result, ok, panic, ◌>>=◌, nat_eq, bytes_eq, ◌==◌, if◌then◌else◌,
  Bool-cases, All, contains, arith, eq_of_beq, ◌⊎◌,
}
use aster.Prelude.Int.{ℤ}
use aster.Core.Transaction.{Transaction}
use aster.Core.Account.{AccountState}
use aster.Core.Block.{BitSets, BlockHeader, Block, BlockCodec, new_block}
use aster.Accounts.Tries.{StateTrie, AccountCodec}
use aster.Accounts.{account_at}
use aster.Accounts.Reads.{Ledger, Reads, read, update-Reads, Reads-ext}
use aster.Accounts.Changes.{
  Keeps, Keeps-refl, Keeps-trans, update-Keeps, IsWritten, IsWritten-has_nodes,
}
use aster.Storage as Store
use aster.Chain.{BlockChain, get_partition_map, get_bloom_filter}
use aster.Chain.Growth.{IsNext}
use aster.Chain.Transfer.{
  moved_account, fetch_each, add_each, fetch_accounts, root_with_accounts, add_accounts,
}

-- The ledger with the balances of some addresses taken from another one, if they are of this shard.
abbrev pub merged : (Bytes → Bool) → List Bytes → Ledger → Ledger → Ledger
merged here ac theirs ours k = if contains ac k && here k then theirs k else ours k

merged_cons :
    (here : Bytes → Bool) (addr : Bytes) (ac : List Bytes) (theirs ours : Ledger) (k : Bytes)
    → merged here (addr ∷ ac) theirs ours k
      ≡ merged here ac theirs (λ j. if here addr && j == addr then theirs addr else ours j) k
unfolding contains
merged_cons here addr ac theirs ours k = elim (Bool-cases (k == addr)) [
  | inl same ↦
      let e : k ≡ addr = eq_of_beq k addr same in ground (arith, same, ap here e, ap theirs e)
  | inr other ↦ rw other (ground arith)
]

module _ (t : StateTrie) (c : AccountCodec) (init_balance : ℤ) (shard_num : ℕ) where
  abbrev pub IsPlaced : Map Bytes ℕ → (Bytes → ℕ) → Bytes → Type 0
  IsPlaced m home key = get_partition_map shard_num m key ≡ ok (home key)

  add_one :
      (st : t.Trie) (ours : Ledger) (addr : Bytes) (a : AccountState) (here : Bool)
      → Reads t c init_balance st ours
      → Reads t c init_balance
          (if here
            then t.update st addr (c.encode (moved_account t c init_balance shard_num a))
            else st)
          (λ j. if here && j == addr then a.balance else ours j)
  add_one st ours addr a true reads =
      update-Reads t c init_balance st ours (λ j. if j == addr then a.balance else ours j) addr
        (moved_account t c init_balance shard_num a) reads (λ j. refl)
  add_one st ours addr a false reads = reads

  add_one-Keeps :
      (st : t.Trie) (addr : Bytes) (a : AccountState) (here : Bool)
      → Keeps t st (
          if here
          then t.update st addr (c.encode (moved_account t c init_balance shard_num a))
          else st)
  add_one-Keeps st addr a true =
      let a' = moved_account t c init_balance shard_num a in
      update-Keeps t st addr (c.encode a') (c.encode-ne-nil a')
  add_one-Keeps st addr a false = Keeps-refl t st

  add_each-fetch_each :
      (m : Map Bytes ℕ) (home : Bytes → ℕ) (shard_id : ℕ) (ac : List Bytes) (from st : t.Trie)
      (theirs ours : Ledger)
      → All (IsPlaced m home) ac
      → Reads t c init_balance from theirs
      → Reads t c init_balance st ours
      → (states : List AccountState) × (st' : t.Trie) × (fetch_each t c init_balance shard_num from
            ac
          ≡ ok states)
        × (add_each t c init_balance shard_num shard_id m ac states st ≡ ok st')
        × Reads t c init_balance st' (merged (λ k. home k == shard_id) ac theirs ours)
        × Keeps t st st'
  unfolding fetch_each add_each contains
  add_each-fetch_each m home shard_id [] from st theirs ours _ reads held =
      ([], st, refl, refl, held, Keeps-refl t st)
  add_each-fetch_each m home shard_id (addr ∷ ac) from st theirs ours (here, more) reads held =
      let (a, at, bal) = read t c init_balance from theirs reads addr 0 in
      let local = home addr == shard_id in
      let kept : Ledger = λ j. if local && j == addr then a.balance else ours j in
      let (states, st', fetched, added, read', kept_later) =
        add_each-fetch_each m home shard_id ac from
          (if local
            then t.update st addr (c.encode (moved_account t c init_balance shard_num a))
            else st)
          theirs kept more reads (add_one st ours addr a local held) in
      (
        a ∷ states,
        st',
        rw (at, fetched) refl,
        rw here added,
        Reads-ext t c init_balance st' (merged (λ k. home k == shard_id) ac theirs kept)
            (merged (λ k. home k == shard_id) (addr ∷ ac) theirs ours) read'
            (λ j. rw bal (merged_cons (λ k. home k == shard_id) addr ac theirs ours j)),
        Keeps-trans t st
            (if local
              then t.update st addr (c.encode (moved_account t c init_balance shard_num a))
              else st)
            st' (add_one-Keeps st addr a local) kept_later,
      )

  Reads-get :
      (st st' : t.Trie) (l : Ledger)
      → ((k : Bytes) → t.get st' k ≡ t.get st k)
      → Reads t c init_balance st l
      → Reads t c init_balance st' l
  unfolding Reads account_at
  Reads-get st st' l same reads k nonce = rw (same k, account_at) (reads k nonce)

  module _ {bits : BitSets} (codec : BlockCodec bits)
      (tx_tree_root : List Transaction → Bytes) where
    -- The root after `AddAccounts`, and what its trie reads.
    root-Reads :
        (ac : List Bytes) (states : List AccountState) (db : t.Db) (bc : BlockChain bits)
        (st st' : t.Trie) (l : Ledger)
        → t.open_trie bc.current_block.header.state_root db ≡ some st
        → ((root : Bytes) (d : t.Db) → (d' : t.Db) × (t.commit_root root d ≡ some d'))
        → add_each t c init_balance shard_num bc.shard_id bc.partition_map ac states st ≡ ok st'
        → Reads t c init_balance st' l
        → (ac ≡ []) ⊎ (t.has_nodes st' ≡ true)
        → (root : Bytes) × (db' : t.Db) × (kept : t.Trie) × (root_with_accounts t c init_balance
              shard_num codec tx_tree_root ac states db bc
            ≡ ok (root, db'))
          × (t.open_trie root db' ≡ some kept)
          × Reads t c init_balance kept l
    unfolding root_with_accounts add_each
    root-Reads [] states db bc st st' l opens commits added reads _ =
        let e : st ≡ st' = ap (λ r. elim r [ ok x ↦ x | panic ↦ st ]) added in
        (
          bc.current_block.header.state_root,
          db,
          st,
          refl,
          opens,
          subst (λ x. Reads t c init_balance x l) (sym e) reads,
        )
    root-Reads (addr ∷ ac) states db bc st st' l opens commits added reads (inl empty) =
        absurd (ground (arith, empty))
    root-Reads (addr ∷ ac) states db bc st st' l opens commits added reads (inr written) =
        let rt = bc.current_block.header.state_root in
        let (db', done) = commits rt (t.hold st' db).1 in
        let (kept, opens', same) = t.open_trie-hold st' db db' rt written done in
        (
          (t.hold st' db).0,
          db',
          kept,
          rw (opens, added, written, done) refl,
          opens',
          Reads-get st' kept l same reads,
        )

    -- Accounts that are fetched from one chain and added to another move as they are: the balances of
    -- the other chain's accounts become those of the first chain at the addresses that are named and are
    -- of its shard, and stay the same elsewhere. The chain has a next block, and the trie of its root
    -- opens. The accounts of both chains are read, the addresses have a shard, there are none of them or
    -- they change a balance or the chain's trie has nodes to commit, as an empty one has, a root can be
    -- committed, and the hash function is never to give the empty text.
    pub add_accounts-fetch_accounts :
        (ac : List Bytes) (db_from db : t.Db) (bc_from bc : BlockChain bits) (from st : t.Trie)
        (theirs ours : Ledger) (home : Bytes → ℕ)
        → t.open_trie bc_from.current_block.header.state_root db_from ≡ some from
        → t.open_trie bc.current_block.header.state_root db ≡ some st
        → Reads t c init_balance from theirs
        → Reads t c init_balance st ours
        → All (IsPlaced bc.partition_map home) ac
        → (ac ≡ [])
          ⊎ IsWritten t c init_balance st ours (merged (λ k. home k == bc.shard_id) ac theirs ours)
        → ((root : Bytes) (d : t.Db) → (d' : t.Db) × (t.commit_root root d ≡ some d'))
        → ((h : BlockHeader bits) → codec.hash_header h ≢ [])
        → (states : List AccountState) × (bc' : BlockChain bits) × (db' : t.Db) × (st' : t.Trie)
          × (fetch_accounts t c init_balance shard_num codec tx_tree_root db_from bc_from ac
              ≡ ok states)
          × (add_accounts t c init_balance shard_num codec tx_tree_root ac states db bc
              ≡ ok (bc', db'))
          × IsNext bits codec bc'.current_block bc
          × (t.open_trie bc'.current_block.header.state_root db' ≡ some st')
          × Reads t c init_balance st' (merged (λ k. home k == bc.shard_id) ac theirs ours)
    unfolding fetch_accounts add_accounts new_block
    add_accounts-fetch_accounts ac db_from db bc_from bc from st theirs ours home opens_from opens
          reads held placed changes commits hashed =
        let (states, st1, fetched, added, reads1, kept_all) =
          add_each-fetch_each bc.partition_map home bc.shard_id ac from st theirs ours placed reads
            held in
        let l = merged (λ k. home k == bc.shard_id) ac theirs ours in
        let written : (ac ≡ []) ⊎ (t.has_nodes st1 ≡ true) = elim changes [
          | inl empty ↦ inl empty
          | inr changed ↦
              inr (IsWritten-has_nodes t c init_balance st st1 ours l kept_all held reads1 changed)
        ] in
        let (root, db', kept, rooted, opens', reads') =
          root-Reads ac states db bc st st1 l opens commits added reads1 written in
        let bh : BlockHeader bits = record {
          parent_block_hash = bc.current_block.hash;
          state_root = root;
          tx_root = tx_tree_root [];
          bloom_filter = get_bloom_filter bits [];
          number = (bc.current_block.header.number + 1) % 2 ^ 64;
          time = 0;
          miner = 0;
        } in
        let b : Block bits = record { header = bh; body = []; hash = codec.hash_header bh } in
        (
          states,
          record bc { current_block = b; storage = Store.added bits codec b bc.storage },
          db',
          kept,
          rw opens_from fetched,
          rw (rooted, Store.add_block-added bits codec b bc.storage (hashed bh)) refl,
          record { height = refl; parent = refl },
          opens',
          reads',
        )

    kept_map :
        (bc bc' : BlockChain bits) (b : Block bits) (db db' : t.Db) (r : Result Store.Storage)
        → ◌>>=◌ {B = BlockChain bits × t.Db} r
            (λ s. ok (record bc { current_block = b; storage = s }, db))
          ≡ ok (bc', db')
        → bc'.partition_map ≡ bc.partition_map
    kept_map bc bc' b db db' panic h = absurd (ground (arith, h))
    kept_map bc bc' b db db' (ok s) h =
        ap (λ r. elim r [ ok p ↦ p.0.partition_map | panic ↦ bc.partition_map ]) (sym h)

    -- `AddAccounts` leaves the map of the shards.
    pub add_accounts-map :
        (ac : List Bytes) (states : List AccountState) (db db' : t.Db) (bc bc' : BlockChain bits)
        → add_accounts t c init_balance shard_num codec tx_tree_root ac states db bc ≡ ok (bc', db')
        → bc'.partition_map ≡ bc.partition_map
    unfolding add_accounts new_block
    add_accounts-map ac states db db' bc bc' h =
        elim (Result-cases
          (root_with_accounts t c init_balance shard_num codec tx_tree_root ac states db bc)) [
            | inl failed ↦ absurd (ground (arith, rw failed at h))
            | inr (r, rooted) ↦
                let bh : BlockHeader bits = record {
                  parent_block_hash = bc.current_block.hash;
                  state_root = r.0;
                  tx_root = tx_tree_root [];
                  bloom_filter = get_bloom_filter bits [];
                  number = (bc.current_block.header.number + 1) % 2 ^ 64;
                  time = 0;
                  miner = 0;
                } in
                let b : Block bits = record {
                  header = bh;
                  body = [];
                  hash = codec.hash_header bh;
                } in
                kept_map bc bc' b r.1 db' (Store.add_block bits codec b bc.storage) (rw rooted at h)
          ]
