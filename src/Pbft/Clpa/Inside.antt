-- ===== src/Pbft/Clpa/Inside.antt =====
-- consensus_shard/pbft_all/pbftInside_moduleCLPA.go: the operations of the consensus on blocks and on
-- transfers of accounts, but for `HandleinPropose`, which stands in Proposal.
use aster.Prelude.{
  ℕ, ◌+◌, ◌-◌, ◌%◌, ◌^◌, Bool, true, false, not, ◌&&◌, Option, none, some, List, [], ◌∷◌, ◌++◌,
  Bytes, Map, Result, ok, panic, ◌>>=◌, or_panic, nat_eq, bytes_eq, ◌==◌, if◌then◌else◌, length,
  insert, ltb, leb,
}
use aster.Prelude.Int.{ℤ, pos}
use aster.Core.Transaction.{Transaction}
use aster.Core.TxPool.{relay_map, add_relay_tx, clear_relay_pool}
use aster.Core.Block.{BitSets, Block, BlockCodec}
use aster.Accounts.Tries.{StateTrie, AccountCodec}
use aster.Chain.{get_partition_map, add_block, is_valid_block}
use aster.Message.BlockInfo as Info
use aster.Pbft.Messages.{Request, PrePrepare, SendOldMessage}
use aster.Pbft.Relay.{RelayOut, Sorted, relayed, relay_messages}
use aster.Pbft.Relay.OldBlocks.{block_request}
use aster.Pbft.Clpa.{AccountTransferMsg, ClpaModule}
use aster.Pbft.Clpa.Transfer.{partition_req, account_transfer_do}

-- `int(cphm.cdm.AccountTransferRound)` is taken to be below 2^63.
-- What a commit sends: the messages of relays, and the block's figures.
pub data CommitOut : Type 0 where
  relay_out : RelayOut → CommitOut
  block_info : Info.BlockInfoMsg → CommitOut

unfoldable pub relays_out : List RelayOut → List CommitOut
relays_out [] = []
relays_out (o ∷ os) = CommitOut.relay_out o ∷ relays_out os

-- One round of the loop over the block's transactions.
unfoldable pub clpa_sort_tx : ℕ → Map Bytes ℕ → ℕ → Transaction → Sorted → Result Sorted
clpa_sort_tx shard_num m shard_id tx s = do
  ssid ← get_partition_map shard_num m tx.sender
  rsid ← get_partition_map shard_num m tx.recipient
  if not tx.relayed && not (ssid == shard_id)
      then panic
      else if tx.relayed && not (rsid == shard_id)
      then panic
      else if not tx.relayed && not (rsid == shard_id)
      then (do
        pool ← add_relay_tx (relayed tx) rsid s.pool
        ok (record s {
          pool = pool;
          relay1_txs = s.relay1_txs ++ relayed tx ∷ [];
          body = s.body ++ relayed tx ∷ [];
        }))
      else ok (record s { executed_txs = s.executed_txs ++ tx ∷ []; body = s.body ++ tx ∷ [] })

unfoldable pub clpa_sort_txs : ℕ → Map Bytes ℕ → ℕ → List Transaction → Sorted → Result Sorted
unfolding clpa_sort_tx
clpa_sort_txs shard_num m shard_id [] s = ok s
clpa_sort_txs shard_num m shard_id (tx ∷ txs) s = do
  s' ← clpa_sort_tx shard_num m shard_id tx s
  clpa_sort_txs shard_num m shard_id txs s'

module _ (bits : BitSets) (codec : BlockCodec bits) (shard_num : ℕ) where
  -- `HandleinPrePrepare`: whether the request is accepted, and the pool of requests.
  unfoldable pub clpa_pre_prepare :
      (List Transaction → Bytes)
      → PrePrepare
      → Map Bytes Request
      → ClpaModule bits
      → Result (Bool × Map Bytes Request)
  clpa_pre_prepare tx_tree_root m pool x =
      let accepted = ok (true, insert m.digest m.request_msg pool) in
      if m.request_msg.request_type == partition_req then accepted else (do
        b ← or_panic (codec.decode_block m.request_msg.content)
        elim (is_valid_block bits codec tx_tree_root b x.pbft_node.cur_chain) [
          | some err ↦ ok (false, pool)
          | none ↦ accepted
        ])

  -- The part of `HandleinCommit` for the main node.
  unfoldable pub clpa_relay_block :
      ℕ → Request → Block bits → Bool → ClpaModule bits → Result (ClpaModule bits × List CommitOut)
  unfolding clpa_sort_txs relay_messages relays_out
  clpa_relay_block now r block added x = do
    let node = x.pbft_node
    pool ← or_panic node.txpool
    s ← clpa_sort_txs shard_num node.cur_chain.partition_map node.shard_id block.body (record {
      pool = record pool { relay_pool = some [] };
      body = [];
      relay1_txs = [];
      executed_txs = [];
    })
    let top = record block { body = s.body }
    let info : Info.BlockInfoMsg = record {
      block_body_length = pos (length block.body);
      excuted_txs = s.executed_txs;
      epoch = pos x.cdm.account_transfer_round;
      propose_time = r.req_time;
      commit_time = now;
      sender_shard_id = node.shard_id;
      relay1_tx_num = length s.relay1_txs;
      relay1_txs = s.relay1_txs;
      broker1_tx_num = 0;
      broker1_txs = [];
      broker2_tx_num = 0;
      broker2_txs = [];
    }
    let chain = node.cur_chain
    ok (
      record x {
        pbft_node = record node {
          cur_chain = if added then record chain { current_block = top } else chain;
          txpool = some (clear_relay_pool s.pool);
        };
      },
      relays_out
            (relay_messages node.shard_nums 0 node.shard_id node.sequence_id (relay_map s.pool))
          ++ CommitOut.block_info info ∷ [],
    )

  module _ (t : StateTrie) (c : AccountCodec) (init_balance : ℤ)
      (tx_tree_root : List Transaction → Bytes) (decode : Bytes → Option AccountTransferMsg) where
    -- `HandleinCommit`, on the request of the pool.
    unfoldable pub clpa_commit :
        ℕ → Request → t.Db → ClpaModule bits → Result (ClpaModule bits × t.Db × List CommitOut)
    unfolding clpa_relay_block account_transfer_do
    clpa_commit now r db x =
        if r.request_type == partition_req
        then (do
          atm ← or_panic (decode r.content)
          (x', db') ← account_transfer_do t c init_balance shard_num codec tx_tree_root atm db x
          ok (x', db', []))
        else (do
          block ← or_panic (codec.decode_block r.content)
          (bc, added) ← add_block bits codec (some block) x.pbft_node.cur_chain
          let node = x.pbft_node
          let x1 = record x { pbft_node = record node { cur_chain = bc } }
          if node.node_id == node.view
              then (do (x2, out) ← clpa_relay_block now r block added x1; ok (x2, db, out))
              else ok (x1, db, []))

    -- A type that is not that of a block is taken for a transfer.
    unfoldable pub clpa_add_old : Request → t.Db → ClpaModule bits → Result (ClpaModule bits × t.Db)
    unfolding account_transfer_do
    clpa_add_old r db x =
        if r.request_type == block_request
        then (do
          b ← or_panic (codec.decode_block r.content)
          (bc, added) ← add_block bits codec (some b) x.pbft_node.cur_chain
          let node = x.pbft_node
          ok (record x { pbft_node = record node { cur_chain = bc } }, db))
        else (do
          atm ← or_panic (decode r.content)
          account_transfer_do t c init_balance shard_num codec tx_tree_root atm db x)

    -- The loop over the heights, on the requests from a height on.
    unfoldable pub clpa_add_all_old :
        ℕ → ℕ → List Request → t.Db → ClpaModule bits → Result (ClpaModule bits × t.Db)
    unfolding clpa_add_old
    clpa_add_all_old height end [] db x = if leb height end then panic else ok (x, db)
    clpa_add_all_old height end (r ∷ rs) db x =
        if leb height end
        then (do
          (x', db') ← clpa_add_old r db x
          clpa_add_all_old ((height + 1) % 2 ^ 64) end rs db' x')
        else ok (x, db)

    -- `HandleforSequentialRequest`; the number of heights is an `int`, negative from 2^63 on.
    unfoldable pub clpa_sequential_request :
        SendOldMessage → t.Db → ClpaModule bits → Result (ClpaModule bits × t.Db)
    unfolding clpa_add_all_old
    clpa_sequential_request som db x =
        let n = (som.seq_end_height + 2 ^ 64 - som.seq_start_height + 1) % 2 ^ 64 in
        if ltb n (2 ^ 63) && n == length som.old_request
        then (do
          (x', db') ← clpa_add_all_old som.seq_start_height som.seq_end_height som.old_request db x
          let node = x'.pbft_node
          ok (
            record x' {
              pbft_node = record node { sequence_id = (som.seq_end_height + 1) % 2 ^ 64 };
            },
            db',
          ))
        else ok (x, db)
