-- ===== src/Chain.antt =====
-- Package `chain`: the chain of chain/blockchain_MemoryMPT.go and chain/blockchain_rollback.go, and
-- the parts of chain/blockchain.go that are the same there.
pub mod Bloom
pub mod Growth
pub mod Rollback
pub mod Status
pub mod Transfer
pub mod Moved
use aster.Prelude.{
  ℕ, zero, suc, ◌+◌, ◌-◌, ◌%◌, ◌^◌, Bool, true, false, not, ◌&&◌, Option, none, some, List, [], ◌∷◌,
  Bytes, Map, Result, ok, panic, ◌>>=◌, nat_eq, bytes_eq, ◌==◌, if◌then◌else◌, lookup, insert,
  has_key, ltb,
}
use aster.Prelude.Int.{ℤ, pos, negsuc}
use aster.Core.Transaction.{Transaction}
use aster.Core.TxPool.{TxPool, pack_txs}
use aster.Core.Block.{BitSets, BlockHeader, Block, BlockCodec, new_block}
use aster.Storage as Store
use aster.Storage.{Storage}
use aster.Utils.{addr2_shard, mod_bytes}

-- The fields that the methods read or write.
pub record BlockChain (bits : BitSets) : Type 0 where
  pub current_block : Block bits
  pub storage : Storage
  pub partition_map : Map Bytes ℕ
  pub precessed_txpool : TxPool
  pub shard_id : ℕ
  pub block_size : ℕ

-- `Update_PartitionMap`
unfoldable pub update_partition_map :
    {bits : BitSets} → Bytes → ℕ → BlockChain bits → BlockChain bits
update_partition_map key val bc = record bc { partition_map = insert key val bc.partition_map }

-- `uint64(n)` of an `int`.
abbrev pub to_uint64 : ℤ → ℕ
to_uint64 (pos n) = n
to_uint64 (negsuc k) = 2 ^ 64 - 1 - k

-- `Get_PartitionMap`, for `shard_num` shards.
unfoldable pub get_partition_map : ℕ → Map Bytes ℕ → Bytes → Result ℕ
get_partition_map shard_num m key = elim (lookup key m) [
  | none ↦ do s ← addr2_shard shard_num key; ok (to_uint64 s)
  | some v ↦ ok v
]

module _ (bits : BitSets) where
  -- The loop of `GetBloomFilter`.
  unfoldable pub set_all : bits.BitSet → List Transaction → bits.BitSet
  set_all bs [] = bs
  set_all bs (tx ∷ txs) = set_all (bits.set bs (mod_bytes tx.tx_hash 2048)) txs

  unfoldable pub get_bloom_filter : List Transaction → bits.BitSet
  unfolding set_all
  get_bloom_filter txs = set_all (bits.new 2048) txs

pub data BlockError : Type 0 where
  wrong_parent wrong_tx_root : BlockError

-- `bytes.Compare(a, b) <= 0`
unfoldable pub bytes_le : Bytes → Bytes → Bool
bytes_le [] b = true
bytes_le (x ∷ a) [] = false
bytes_le (x ∷ a) (y ∷ b) =
    let rest = bytes_le a b in if ltb x y then true else if x == y then rest else false

module _ (bits : BitSets) (codec : BlockCodec bits) where
  -- `AddBlock`: whether the block was accepted.
  unfoldable pub add_block : Option (Block bits) → BlockChain bits → Result (BlockChain bits × Bool)
  add_block none bc = ok (bc, false)
  add_block (some b) bc =
      if not (b.header.number == (bc.current_block.header.number + 1) % 2 ^ 64)
      then ok (bc, false)
      else if not (b.header.parent_block_hash == bc.current_block.hash)
      then ok (bc, false)
      else do
        s ← Store.add_block bits codec b bc.storage
        ok (record bc { current_block = b; storage = s }, true)

  -- `IsValidBlock`, over the root of the transactions' trie; `none` is no error.
  unfoldable pub is_valid_block :
      (List Transaction → Bytes) → Block bits → BlockChain bits → Option BlockError
  is_valid_block tx_tree_root b bc =
      if not (b.header.parent_block_hash == bc.current_block.hash)
      then some wrong_parent
      else if not (tx_tree_root b.body == b.header.tx_root)
      then some wrong_tx_root
      else none

  -- `GenerateBlock2`: the block, and what is left of the pool.
  unfoldable pub generate_block2 :
      (List Transaction → Bytes)
      → ℕ
      → ℕ
      → List Transaction
      → BlockChain bits
      → Block bits × List Transaction
  unfolding pack_txs new_block
  generate_block2 tx_tree_root now miner pool bc =
      let (txs, rest) = pack_txs bc.block_size (record { tx_queue = pool; relay_pool = none }) in
      let bh : BlockHeader bits = record {
        parent_block_hash = bc.current_block.hash;
        state_root = [];
        tx_root = tx_tree_root txs;
        bloom_filter = get_bloom_filter bits txs;
        number = (bc.current_block.header.number + 1) % 2 ^ 64;
        time = now;
        miner = miner;
      } in
      let b = new_block bits bh txs in (record b { hash = codec.hash_header bh }, rest.tx_queue)

  -- The loop of `JudgeForkValid_RollBack` from height `height` down to that of the new block, at
  -- most `fuel` rounds; `ok none` is the early `return false`, `panic` that the loop goes on. Below
  -- height 0 the height wraps around and the walk goes on to the parent of the first block.
  unfoldable pub walk_back : ℕ → ℕ → ℕ → Bytes → Storage → Result (Option (Block bits))
  walk_back zero target height query s = panic
  walk_back (suc fuel) target height query s = do
    found ← Store.get_block bits codec query s
    elim found [
      | none ↦ ok none
      | some block ↦
          let parent = block.header.parent_block_hash in
          let deeper = walk_back fuel target (height - 1) parent s in
          let past = Store.get_block bits codec parent s in
          if height == target
          then if target == 0
            then (do next ← past; elim next [ none ↦ ok none | some _ ↦ panic ])
            else ok (some block)
          else deeper
    ]

  -- The tests that follow: the same parent, and a smaller hash.
  unfoldable pub wins : Block bits → Block bits → Bool
  wins b old =
      b.header.parent_block_hash == old.header.parent_block_hash && not (bytes_le old.hash b.hash)

  -- `bc.CurrentBlock = ParentBlock`, then `bc.AddBlock(b)`, whose result is dropped.
  unfoldable pub replace_top :
      Block bits → Block bits → BlockChain bits → Result (BlockChain bits × Bool)
  replace_top parent b bc = do
    (bc', added) ← add_block (some b) (record bc { current_block = parent })
    ok (bc', true)

  -- `JudgeForkValid_RollBack`
  unfoldable pub judge_fork_valid_roll_back :
      Block bits → BlockChain bits → Result (BlockChain bits × Bool)
  unfolding walk_back wins replace_top
  judge_fork_valid_roll_back b bc =
      if ltb bc.current_block.header.number b.header.number then ok (bc, false) else do
        found ←
            walk_back (bc.current_block.header.number + 2) b.header.number
              bc.current_block.header.number bc.current_block.hash bc.storage
        elim found [
          | none ↦ ok (bc, false)
          | some old ↦ if not (wins b old) then ok (bc, false) else do
            parent ← Store.get_block bits codec b.header.parent_block_hash bc.storage
            elim parent [ none ↦ ok (bc, false) | some p ↦ replace_top p b bc ]
        ]

  -- `JudgeForkValid_RollBack_withMap`, with the map of heights that it updates.
  unfoldable pub judge_fork_valid_roll_back_with_map :
      Block bits
      → Map ℕ Bytes
      → Map Bytes (Block bits)
      → BlockChain bits
      → Result (BlockChain bits × Map ℕ Bytes × Bool)
  unfolding wins replace_top
  judge_fork_valid_roll_back_with_map b heights blocks bc =
      if ltb bc.current_block.header.number b.header.number
      then ok (bc, heights, false)
      else elim (lookup b.header.number heights) [
        | none ↦ ok (bc, heights, false)
        | some h ↦ elim (lookup h blocks) [
          | none ↦ ok (bc, heights, false)
          | some old ↦
              if not (wins b old)
              then ok (bc, heights, false)
              else elim (lookup b.header.parent_block_hash blocks) [
                | none ↦ ok (bc, heights, false)
                | some p ↦ do
                  (bc', done) ← replace_top p b bc
                  ok (bc', insert b.header.number b.hash heights, done)
              ]
        ]
      ]
