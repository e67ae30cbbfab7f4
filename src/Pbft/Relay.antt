-- ===== src/Pbft/Relay.antt =====
-- The relay of cross-shard transactions: consensus_shard/pbft_all/pbftInside_module.go, the commit of
-- `RawRelayPbftExtraHandleMod`, and pbftOutside_module.go, the arrival at the other shard. Proposal
-- has the rounds before the commit, OldBlocks the answer to a node that was left behind. The node is
-- one with which no client waits for a transaction: `txRequest2Client` is empty, so that the commit
-- does not call `TxOnChainVerify`.
pub mod Sent
pub mod Sorting
pub mod Delivery
pub mod Proposal
pub mod OldBlocks
use aster.Prelude.{
  ℕ, zero, suc, ◌+◌, ◌-◌, ◌%◌, ◌^◌, Bool, true, false, not, Option, none, some, List, [], ◌∷◌, ◌++◌,
  map, Bytes, Map, Result, ok, panic, ◌>>=◌, or_panic, nat_eq, bytes_eq, ◌==◌, if◌then◌else◌,
  length, get_elem?, lookup, insert, delete, lookup_or,
}
use aster.Core.Transaction.{Transaction}
use aster.Core.Block.{BitSets, Block, BlockCodec}
use aster.Core.TxPool.{TxPool, relay_map, add_relay_tx, clear_relay_pool, add_txs_to_pool}
use aster.Chain.{BlockChain, add_block, get_partition_map}
use aster.Pbft.Messages.{Request, SendOldMessage}

pub record RelayMsg : Type 0 where
  pub txs : List Transaction
  pub sender_shard_id : ℕ
  pub sender_seq : ℕ

pub record BlockInfoMsg : Type 0 where
  pub block_body_length : ℕ
  pub executed_txs : List Transaction
  pub relay1_txs : List Transaction
  pub relay1_tx_num : ℕ
  pub sender_shard_id : ℕ
  pub propose_time : ℕ
  pub commit_time : ℕ

-- What the main node sends: a relay message to a shard, and the block's figures.
pub data RelayOut : Type 0 where
  relay : ℕ → RelayMsg → RelayOut
  block_info : BlockInfoMsg → RelayOut

-- The node's fields that the module reads or writes; `txpool` is `none` for the nil pointer.
pub record RelayModule (bits : BitSets) : Type 0 where
  pub cur_chain : BlockChain bits
  pub txpool : Option TxPool
  pub shard_id : ℕ
  pub node_id : ℕ
  pub view : ℕ
  pub shard_nums : ℕ
  pub sequence_id : ℕ
  pub seq_id_map : Map ℕ ℕ

-- `ntx.Relayed = true`, where `ntx` is the block's own transaction.
abbrev pub relayed : Transaction → Transaction
relayed tx = record tx { relayed = true }

-- What the loop over the block's transactions has put together.
pub record Sorted : Type 0 where
  pub pool : TxPool
  pub body : List Transaction
  pub relay1_txs : List Transaction
  pub executed_txs : List Transaction

-- One round of the loop.
unfoldable pub sort_tx : ℕ → Map Bytes ℕ → ℕ → Transaction → Sorted → Result Sorted
sort_tx shard_num m shard_id tx s = do
  rsid ← get_partition_map shard_num m tx.recipient
  if rsid == shard_id
      then ok (record s { executed_txs = s.executed_txs ++ tx ∷ []; body = s.body ++ tx ∷ [] })
      else (do
        pool ← add_relay_tx (relayed tx) rsid s.pool
        ok (record s {
          pool = pool;
          relay1_txs = s.relay1_txs ++ relayed tx ∷ [];
          body = s.body ++ relayed tx ∷ [];
        }))

unfoldable pub sort_txs : ℕ → Map Bytes ℕ → ℕ → List Transaction → Sorted → Result Sorted
unfolding sort_tx
sort_txs shard_num m shard_id [] s = ok s
sort_txs shard_num m shard_id (tx ∷ txs) s = do
  s' ← sort_tx shard_num m shard_id tx s
  sort_txs shard_num m shard_id txs s'

-- The relay messages to the shards `sid`, …, `sid + n - 1`, but for the own one.
unfoldable pub relay_messages : ℕ → ℕ → ℕ → ℕ → Map ℕ (List Transaction) → List RelayOut
relay_messages zero sid shard_id seq pool = []
relay_messages (suc n) sid shard_id seq pool =
    let rest = relay_messages n (sid + 1) shard_id seq pool in
    if sid == shard_id
    then rest
    else RelayOut.relay sid
        (record { txs = lookup_or [] sid pool; sender_shard_id = shard_id; sender_seq = seq })
      ∷ rest

module _ (bits : BitSets) (codec : BlockCodec bits) (shard_num : ℕ) where
  -- The part of `HandleinCommit` for the main node, with its `Txpool`. The block is the current one
  -- if it was accepted, and then shares its transactions with it.
  unfoldable pub relay_block :
      ℕ
      → Request
      → Block bits
      → Bool
      → RelayModule bits
      → Option TxPool
      → Result (RelayModule bits × List RelayOut)
  unfolding sort_txs relay_messages
  relay_block now r block added x none = panic
  relay_block now r block added x (some pool) = do
    s ← sort_txs shard_num x.cur_chain.partition_map x.shard_id block.body (record {
      pool = record pool { relay_pool = some [] };
      body = [];
      relay1_txs = [];
      executed_txs = [];
    })
    let top = record block { body = s.body }
    let info : BlockInfoMsg = record {
      block_body_length = length block.body;
      executed_txs = s.executed_txs;
      relay1_txs = s.relay1_txs;
      relay1_tx_num = length s.relay1_txs;
      sender_shard_id = x.shard_id;
      propose_time = r.req_time;
      commit_time = now;
    }
    let chain = x.cur_chain
    ok (
      record x {
        cur_chain = if added then record chain { current_block = top } else chain;
        txpool = some (clear_relay_pool s.pool);
      },
      relay_messages x.shard_nums 0 x.shard_id x.sequence_id (relay_map s.pool)
          ++ RelayOut.block_info info ∷ [],
    )

  -- `HandleinCommit`, on the request of the pool.
  unfoldable pub relay_commit :
      ℕ → Request → RelayModule bits → Result (RelayModule bits × List RelayOut)
  unfolding relay_block
  relay_commit now r x = do
    block ← or_panic (codec.decode_block r.content)
    (bc, added) ← add_block bits codec (some block) x.cur_chain
    let x' = record x { cur_chain = bc }
    if x.node_id == x.view then relay_block now r block added x' x.txpool else ok (x', [])

-- The transactions with the readings of the clock, from the `i`th on.
abbrev pub timed : (ℕ → ℕ) → ℕ → List Transaction → List (ℕ × Transaction)
timed readings i [] = []
timed readings i (tx ∷ txs) = (readings i, tx) ∷ timed readings (i + 1) txs

module _ {bits : BitSets} where
  -- `handleRelay` and `handleInjectTx`; the nil pool panics.
  unfoldable pub handle_relay : (ℕ → ℕ) → RelayMsg → RelayModule bits → Result (RelayModule bits)
  handle_relay readings m x = do
    pool ← or_panic x.txpool
    ok (record x {
      txpool = some (add_txs_to_pool (timed readings 0 m.txs) pool);
      seq_id_map = insert m.sender_shard_id m.sender_seq x.seq_id_map;
    })

  unfoldable pub handle_inject_tx :
      (ℕ → ℕ) → List Transaction → RelayModule bits → Result (RelayModule bits)
  handle_inject_tx readings txs x = do
    pool ← or_panic x.txpool
    ok (record x { txpool = some (add_txs_to_pool (timed readings 0 txs) pool) })
