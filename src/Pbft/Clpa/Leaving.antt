-- ===== src/Pbft/Clpa/Leaving.antt =====
-- `sendAccounts_and_Txs` of consensus_shard/pbft_all/accountTransfer_module.go as a whole.
use aster.Prelude.{
  ℕ, suc, ◌-◌, ◌<◌, ◌≡◌, refl, ap, sym, ◌∙◌, true, false, not, ◌&&◌, some, List, [], ◌∷◌, ◌++◌, map,
  Bytes, Map, ok, nat_eq, bytes_eq, ◌==◌, filter, All, lookup_or, length, get_elem?, arith,
  Bool-cases, inl, inr, append-nil, append_assoc,
}
use aster.Prelude.Int.{ℤ}
use aster.Core.Transaction.{Transaction}
use aster.Core.Account.{AccountState}
use aster.Core.TxPool.{TxPool}
use aster.Core.Block.{BitSets, BlockCodec}
use aster.Accounts.Tries.{StateTrie, AccountCodec}
use aster.Accounts.Reads.{Ledger, Reads, read}
use aster.Chain.{get_partition_map}
use aster.Chain.Transfer.{fetch_each, fetch_accounts}
use aster.Pbft.Clpa.{ClpaModule}
use aster.Pbft.Clpa.Transfer.{TransferOut, accounts_to_fetch, send_accounts_and_txs}
use aster.Pbft.Clpa.Moves.{IsAccepted, txs_to, addrs_to, goes_to, is_served, stays}
use aster.Pbft.Clpa.Sending.{send_to_shards-IsSplit}

-- The addresses that a map takes from a shard.
abbrev pub leaving : (Bytes → ℕ) → ℕ → Map Bytes ℕ → List Bytes
leaving home own m = map (λ e. e.0) (filter (λ e. not (e.1 == own) && home e.0 == own) m)

-- A node with another pool, and the pool with what stays in the queue.
abbrev pub with_pool : {bits : BitSets} → TxPool → ClpaModule bits → ClpaModule bits
with_pool pool x =
    let node = x.pbft_node in record x { pbft_node = record node { txpool = some pool } }

abbrev pub kept_pool :
    {bits : BitSets} → ClpaModule bits → Map Bytes ℕ → (Bytes → ℕ) → TxPool → TxPool
kept_pool x m home pool =
    let own = x.pbft_node.shard_id in
    record pool {
      tx_queue = filter (stays m (leaving home own m) own 0 x.pbft_node.shard_nums) pool.tx_queue;
    }

module _ (shard_num own : ℕ) (old : Map Bytes ℕ) (home : Bytes → ℕ) where
  accounts_to_fetch_lem :
      (es : Map Bytes ℕ) (to_fetch : List Bytes)
      → All (λ e. get_partition_map shard_num old e.0 ≡ ok (home e.0)) es
      → accounts_to_fetch shard_num own old es to_fetch ≡ ok (to_fetch ++ leaving home own es)
  unfolding accounts_to_fetch
  accounts_to_fetch_lem [] to_fetch _ = ap (λ xs. ok xs) (sym (append-nil to_fetch))
  accounts_to_fetch_lem ((key, val) ∷ es) to_fetch (here, more) = elim (Bool-cases (val == own)) [
    | inl stays ↦ rw stays (accounts_to_fetch_lem es to_fetch more)
    | inr moves ↦ elim (Bool-cases (home key == own)) [
      | inr away ↦ rw (moves, here, away) (accounts_to_fetch_lem es to_fetch more)
      | inl ours ↦
          rw (moves, here, ours)
            (accounts_to_fetch_lem es (to_fetch ++ key ∷ []) more
              ∙ ap (λ xs. ok xs) (append_assoc to_fetch (key ∷ []) (leaving home own es)))
    ]
  ]

last-cons :
    {A : Type 0} (x : A) (xs : List A) (a : A)
    → get_elem? xs (length xs - 1) ≡ some a
    → (length xs == 0) ≡ false
last-cons x [] a h = absurd (ground (arith, h))
last-cons x (y ∷ xs) a h = ground arith

module _ (t : StateTrie) (c : AccountCodec) (init_balance : ℤ) (shard_num : ℕ) where
  fetch_each_lem :
      (ac : List Bytes) (st : t.Trie) (l : Ledger)
      → Reads t c init_balance st l
      → (states : List AccountState) × (fetch_each t c init_balance shard_num st ac ≡ ok states)
        × (length states ≡ length ac)
  unfolding fetch_each
  fetch_each_lem [] st l reads = ([], refl, refl)
  fetch_each_lem (addr ∷ ac) st l reads =
      let (a, at, bal) = read t c init_balance st l reads addr 0 in
      let (rest, done, len) = fetch_each_lem ac st l reads in
      (a ∷ rest, rw (at, done) refl, ap (λ n. suc n) len)

  module _ {bits : BitSets} (codec : BlockCodec bits)
      (tx_tree_root : List Transaction → Bytes) where
    -- `sendAccounts_and_Txs` changes nothing but the queue.
    pub send_accounts_and_txs-filter :
        (db : t.Db) (x : ClpaModule bits) (m : Map Bytes ℕ) (home : Bytes → ℕ) (pool : TxPool)
        (st : t.Trie) (l : Ledger) (sid : ℕ)
        → get_elem? x.cdm.modified_map (length x.cdm.modified_map - 1) ≡ some m
        → x.pbft_node.txpool ≡ some pool
        → t.open_trie x.pbft_node.cur_chain.current_block.header.state_root db ≡ some st
        → Reads t c init_balance st l
        → All
            (λ e.
              get_partition_map shard_num x.pbft_node.cur_chain.partition_map e.0 ≡ ok (home e.0))
            m
        → sid < x.pbft_node.shard_nums
        → (sid == x.pbft_node.shard_id) ≡ false
        → (out : List TransferOut) × (send_accounts_and_txs t c init_balance shard_num codec
              tx_tree_root db x
            ≡ ok (with_pool (kept_pool x m home pool) x, out))
          × (txs_to sid out
              ≡ filter (goes_to m (leaving home x.pbft_node.shard_id m) sid) pool.tx_queue)
          × (addrs_to sid out
              ≡ filter (λ k. lookup_or 0 k m == sid) (leaving home x.pbft_node.shard_id m))
          × All (IsAccepted m) out
    unfolding send_accounts_and_txs fetch_accounts
    send_accounts_and_txs-filter db x m home pool st l sid last pooled opens reads placed below
          apart =
        let node = x.pbft_node in
        let own = node.shard_id in
        let gone = leaving home own m in
        let some_map : (length x.cdm.modified_map == 0) ≡ false =
          last-cons m x.cdm.modified_map m last in
        let picked =
          accounts_to_fetch_lem shard_num own node.cur_chain.partition_map home m [] placed in
        let (states, fetched, len) = fetch_each_lem gone st l reads in
        let (out, done, txs, ads, fit) =
          send_to_shards-IsSplit m gone own 0 node.shard_nums sid states pool.tx_queue len in
        let served : is_served m gone own 0 node.shard_nums sid ≡ true =
          ground (arith, below, apart) in
        (
          out,
          rw (some_map, last, picked, opens, fetched, pooled, done) refl,
          rw served at txs,
          rw served at ads,
          fit,
        )

    -- With the last map that has come, a leader sends each transaction of its queue to the shard to
    -- which the map moves its sender, or its recipient if it is relayed, and each in the order of the
    -- queue; the others stay. The leader of the other shard gets the addresses that move there, and
    -- accepts the message if its round has the same map. The state trie reads, and the addresses of the
    -- map have a shard.
    pub send_accounts_and_txs_lem :
        (db : t.Db) (x : ClpaModule bits) (m : Map Bytes ℕ) (home : Bytes → ℕ) (pool : TxPool)
        (st : t.Trie) (l : Ledger) (sid : ℕ)
        → get_elem? x.cdm.modified_map (length x.cdm.modified_map - 1) ≡ some m
        → x.pbft_node.txpool ≡ some pool
        → t.open_trie x.pbft_node.cur_chain.current_block.header.state_root db ≡ some st
        → Reads t c init_balance st l
        → All
            (λ e.
              get_partition_map shard_num x.pbft_node.cur_chain.partition_map e.0 ≡ ok (home e.0))
            m
        → sid < x.pbft_node.shard_nums
        → (sid == x.pbft_node.shard_id) ≡ false
        → (x' : ClpaModule bits) × (out : List TransferOut) × (pool' : TxPool)
          × (send_accounts_and_txs t c init_balance shard_num codec tx_tree_root db x
              ≡ ok (x', out))
          × (x'.pbft_node.txpool ≡ some pool')
          × (pool'.tx_queue
              ≡ filter
                  (stays m
                    (leaving home x.pbft_node.shard_id m)
                    x.pbft_node.shard_id
                    0
                    x.pbft_node.shard_nums)
                  pool.tx_queue)
          × (txs_to sid out
              ≡ filter (goes_to m (leaving home x.pbft_node.shard_id m) sid) pool.tx_queue)
          × (addrs_to sid out
              ≡ filter (λ k. lookup_or 0 k m == sid) (leaving home x.pbft_node.shard_id m))
          × All (IsAccepted m) out
    send_accounts_and_txs_lem db x m home pool st l sid last pooled opens reads placed below apart =
        let kept = kept_pool x m home pool in
        let (out, done, txs, ads, fit) =
          send_accounts_and_txs-filter db x m home pool st l sid last pooled opens reads placed
            below apart in
        (with_pool kept x, out, kept, done, refl, refl, txs, ads, fit)
