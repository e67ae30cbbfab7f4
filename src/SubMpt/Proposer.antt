-- ===== src/SubMpt/Proposer.antt =====
-- consensus_shard/subMPT/proposer.go and proposerListen.go: the proposer, which hands the pending
-- transactions to its followers, gathers those they have executed and makes a block of them. The
-- goroutines of a batch run in an order that is an argument; `params.FollowerNum` and
-- `poollencount`, which are global variables, are fields.
pub mod Distribution
pub mod Schedule
pub mod Polls
pub mod Agreement
pub mod Gather
pub mod Seal
use aster.Prelude.{
  ℕ, ◌+◌, ◌%◌, ◌^◌, Bool, true, false, not, ◌&&◌, Option, none, some, List, [], ◌∷◌, ◌++◌, map,
  Bytes, Map, Result, ok, panic, ◌>>=◌, nat_eq, bytes_eq, ◌==◌, if◌then◌else◌, length, take, drop,
  get_elem?, lookup, insert, delete, has_key, lookup_or, ltb, leb,
}
use aster.Core.Transaction.{Transaction}
use aster.Core.Block.{BitSets, BlockHeader, Block, BlockCodec, new_block}
use aster.Chain.{BlockChain, add_block, get_bloom_filter}
use aster.SubMpt.Messages.{
  AllocateTxMsgs, PrecessedTxMsgs, FollowerJoinMsgs, AllocFidMsgs, ResponseDataMsgs, ReadyMsgs,
}
use aster.SubMpt.Routing.{route}

-- The fields that the operations read or write. `ip_node_table` has the followers'
-- addresses by proposer; `hash_ring` is the consistent hash of package `local`.
pub record ProposerNode (bits : BitSets) (Ring : Type 0) : Type 0 where
  pub node_id : ℕ
  pub shard_id : ℕ
  pub follower_ids : List ℕ
  pub ip_node_table : Map ℕ (Map ℕ Bytes)
  pub cur_chain : BlockChain bits
  pub stop : Bool
  pub block_hash_gen_done : Map Bytes Bool
  pub pending_txpool : List Transaction
  pub allocated_txpool : Map Bytes Transaction
  pub processed_txpool : List Transaction
  pub epoch_id : ℕ
  pub gather_map : Map ℕ (Map ℕ Bytes)
  pub verify_block : Option (Block bits)
  -- `VerifyLock`, which nothing unlocks.
  pub verify_lock : Bool
  pub hash_ring : Ring
  pub receive_request_data_map : Map ℕ ResponseDataMsgs
  pub ready_map : Map ℕ Bool
  pub follower_num : ℕ
  pub poollencount : ℕ

-- `allocMap[dest] = append(allocMap[dest], tx)`
unfoldable pub append_to : ℕ → Transaction → Map ℕ (List Transaction) → Map ℕ (List Transaction)
append_to dest tx alloc = insert dest (lookup_or [] dest alloc ++ tx ∷ []) alloc

-- What the goroutine of one transaction adds.
unfoldable pub place :
    Transaction → Option (ℕ × ℕ) → Map ℕ (List Transaction) → Map ℕ (List Transaction)
place tx none alloc = alloc
place tx (some (dest_id1, dest_id2)) alloc =
    if dest_id1 == dest_id2
    then append_to dest_id1 tx alloc
    else append_to dest_id2 tx (append_to dest_id1 tx alloc)

-- The goroutines of `SchedulingTxs` and of `VerifyingBlock`, in the order in which they take the lock.
unfoldable pub distribute :
    ℕ → List Transaction → Map ℕ (List Transaction) → Result (Map ℕ (List Transaction))
distribute n [] alloc = ok alloc
distribute n (tx ∷ txs) alloc = do dest ← route n tx; distribute n txs (place tx dest alloc)

-- `make(map[int][]*core.Transaction)`, with an empty list for every follower.
unfoldable pub empty_alloc : List ℕ → Map ℕ (List Transaction)
empty_alloc [] = []
empty_alloc (f ∷ fs) = insert f [] (empty_alloc fs)

-- `FollowersIP`
unfoldable pub followers_ip : Map ℕ Bytes → List ℕ → Map ℕ Bytes
followers_ip table [] = []
followers_ip table (f ∷ fs) = insert f (lookup_or [] f table) (followers_ip table fs)

-- `AllocatedTxpool[string(tx.TxHash)] = tx`, for every transaction of a message.
unfoldable pub record_allocated : List Transaction → Map Bytes Transaction → Map Bytes Transaction
record_allocated [] pool = pool
record_allocated (tx ∷ txs) pool = record_allocated txs (insert tx.tx_hash tx pool)

-- What a call of `SchedulingTxs` leads to: nothing to do, with a new signal in a second; the tenth
-- empty poll, which sends to the unbuffered `stopchan`; or the messages with their addresses.
pub data Scheduled : Type 0 where
  polled : Scheduled
  stuck_on_stopchan : Scheduled
  dealt : List (Bytes × AllocateTxMsgs) → Scheduled

module _ {bits : BitSets} {Ring : Type 0} where
  -- `TxAllocate`: the messages sent before, with this one if the follower is ready.
  unfoldable pub tx_allocate :
      ℕ
      → Bytes
      → List Transaction
      → ℕ
      → ProposerNode bits Ring
      → ProposerNode bits Ring × List (Bytes × AllocateTxMsgs)
  unfolding record_allocated
  tx_allocate follower_id follower_ip txs epoch p =
      if not (has_key follower_id p.ready_map) then (p, []) else (
        record p { allocated_txpool = record_allocated txs p.allocated_txpool },
        (
          follower_ip,
          record {
            txs = txs;
            proposer_id = p.shard_id;
            follower_id = follower_id;
            epoch_id = epoch;
          },
        )
            ∷ [],
      )

  unfoldable pub allocate_all :
      Map ℕ Bytes
      → Map ℕ (List Transaction)
      → ℕ
      → ProposerNode bits Ring
      → ProposerNode bits Ring × List (Bytes × AllocateTxMsgs)
  unfolding tx_allocate
  allocate_all [] alloc epoch p = (p, [])
  allocate_all ((fid, fip) ∷ ips) alloc epoch p =
      let (p1, sent) = tx_allocate fid fip (lookup_or [] fid alloc) epoch p in
      let (p2, rest) = allocate_all ips alloc epoch p1 in (p2, sent ++ rest)

  -- The part that `SchedulingTxs` and `VerifyingBlock` share, but for the entry of the table.
  unfoldable pub deal :
      ℕ
      → List Transaction
      → ProposerNode bits Ring
      → Result (ProposerNode bits Ring × List (Bytes × AllocateTxMsgs))
  unfolding allocate_all
  deal proposer txs p = do
    alloc ← distribute (length p.follower_ids) txs (empty_alloc p.follower_ids)
    let epoch = (p.epoch_id + 1) % 2 ^ 32
    ok (
        allocate_all (followers_ip (lookup_or [] proposer p.ip_node_table) p.follower_ids) alloc
          epoch (record p { epoch_id = epoch }))

  -- `closeProposerNode`, as far as the node's own fields go.
  unfoldable pub close_proposer_node : ProposerNode bits Ring → ProposerNode bits Ring
  close_proposer_node p = record p { stop = true }

  -- `SchedulingTxs`, for `params.MaxBlockSize_global`; `order` is how the goroutines are scheduled.
  unfoldable pub scheduling_txs :
      ℕ
      → (List Transaction → List Transaction)
      → ProposerNode bits Ring
      → Result (ProposerNode bits Ring × Scheduled)
  unfolding deal
  scheduling_txs max_block_size order p =
      let len = length p.pending_txpool in
      let polls = p.poollencount + 1 in
      let tx_size = if ltb len max_block_size then len else max_block_size in
      if len == 0
      then if leb 10 polls
        then ok (close_proposer_node (record p { poollencount = polls }), stuck_on_stopchan)
        else ok (record p { poollencount = polls }, polled)
      else do
        (p', sent) ←
            deal p.node_id (order (take tx_size p.pending_txpool))
              (record p { poollencount = 0; pending_txpool = drop tx_size p.pending_txpool })
        ok (p', dealt sent)

  -- `VerifyingBlock`, which takes the entry of the shard's number.
  unfoldable pub verifying_block :
      (List Transaction → List Transaction)
      → Block bits
      → ProposerNode bits Ring
      → Result (ProposerNode bits Ring × List (Bytes × AllocateTxMsgs))
  unfolding deal
  verifying_block order block p = deal p.shard_id (order block.body) p

  -- `handleBlockMsg`: the first takes the lock for good, the next one waits for ever, which is `none`.
  unfoldable pub handle_block_msg :
      (List Transaction → List Transaction)
      → Block bits
      → ProposerNode bits Ring
      → Result (Option (ProposerNode bits Ring × List (Bytes × AllocateTxMsgs)))
  unfolding verifying_block
  handle_block_msg order block p = if p.verify_lock then ok none else do
    done ← verifying_block order block (record p { verify_block = some block; verify_lock = true })
    ok (some done)

  -- `handleFollowerJoin`: `add_node` is `ConsistentHash.AddNode`, whose error is dropped. A write to
  -- the missing table of a node panics.
  unfoldable pub handle_follower_join :
      (ℕ → Ring → Ring)
      → FollowerJoinMsgs
      → ProposerNode bits Ring
      → Result (ProposerNode bits Ring × Bytes × AllocFidMsgs)
  handle_follower_join add_node msg p = elim (lookup p.node_id p.ip_node_table) [
    | none ↦ panic
    | some table ↦
        let new_node_id = length p.follower_ids in
        let fid_msg : AllocFidMsgs = record { fid = new_node_id } in
        ok (
          record p {
            ip_node_table = insert p.node_id (insert new_node_id msg.ip_port table) p.ip_node_table;
            hash_ring = add_node new_node_id p.hash_ring;
            follower_num = p.follower_num + 1;
            follower_ids = p.follower_ids ++ new_node_id ∷ [];
          },
          msg.ip_port,
          fid_msg,
        )
  ]

  unfoldable pub handle_follower_response :
      ResponseDataMsgs → ProposerNode bits Ring → ProposerNode bits Ring
  handle_follower_response msg p = record p {
    receive_request_data_map = insert msg.fid msg p.receive_request_data_map;
  }

  unfoldable pub handle_follower_ready : ReadyMsgs → ProposerNode bits Ring → ProposerNode bits Ring
  handle_follower_ready msg p = record p { ready_map = insert msg.fid true p.ready_map }
