-- ===== src/Pbft/Relay/Delivery.antt =====
-- The relay transactions of a block, in consensus_shard/pbft_all/pbftInside_module.go and
-- pbftOutside_module.go: to which shard the main node sends each of them, and their arrival.
use aster.Prelude.{
  lookup-insert, beq_refl, insert, ◌>>=◌, ℕ, ◌≡◌, ◌<◌, refl, Bool, false, none, some, List, [], ◌∷◌,
  ◌++◌, map, Result, ok, nat_eq, bytes_eq, ◌==◌, if◌then◌else◌, length, lookup, filter, append-nil,
}
use aster.Core.Transaction.{Transaction}
use aster.Core.Block.{BitSets, Block, BlockCodec}
use aster.Core.TxPool.{stamp, add_txs_to_pool, TxPool, relay_map, clear_relay_pool}
use aster.Chain.{BlockChain}
use aster.Pbft.Messages.{Request}
use aster.Core.TxPool.Queue.{tx_queue-add_txs_to_pool}
use aster.Pbft.Relay.{
  timed, handle_relay, RelayMsg, RelayOut, BlockInfoMsg, RelayModule, relayed, relay_messages,
  relay_block,
}
use aster.Pbft.Relay.Sent.{
  sent_to, sent_to-append, sent_to-all_relays, infos, infos-append, infos-relay_messages, relay_of,
}
use aster.Pbft.Relay.Sorting.{HaveHomes, marked, away, due_messages, all_due, sort_txs_lem}

module _ (bits : BitSets) (codec : BlockCodec bits) (shard_num : ℕ) where
  -- The figures of a block that the main node reports.
  abbrev pub reported :
      ℕ → Request → Block bits → RelayModule bits → (Transaction → ℕ) → BlockInfoMsg
  reported now r block x home = record {
    block_body_length = length block.body;
    executed_txs = filter (λ tx. home tx == x.shard_id) block.body;
    relay1_txs = away x.shard_id home block.body;
    relay1_tx_num = length (away x.shard_id home block.body);
    sender_shard_id = x.shard_id;
    propose_time = r.req_time;
    commit_time = now;
  }

  -- The chain after the block: an accepted block is its current one and has its transactions marked.
  abbrev pub kept : Block bits → Bool → BlockChain bits → ℕ → (Transaction → ℕ) → BlockChain bits
  kept block added bc own home =
      if added
      then record bc { current_block = record block { body = marked own home block.body } }
      else bc

  -- When the shard of every recipient is found and the pool is there, the main node finishes, and
  -- shard `t` is sent each transaction of the block whose recipient is there, once, in the block's
  -- order and marked as relayed, and nothing if it is the node's own. One report goes out, with the
  -- transactions that end here and the relayed ones. An accepted block has its relayed
  -- transactions marked on the chain. The queue is as before, and the relay map is nil.
  pub relay_block_lem :
      (home : Transaction → ℕ) (t now : ℕ) (r : Request) (block : Block bits) (added : Bool)
      (x : RelayModule bits) (pool : TxPool)
      → HaveHomes shard_num x.cur_chain.partition_map home block.body
      → t < x.shard_nums
      → (x' : RelayModule bits) × (out : List RelayOut) × (relay_block bits codec shard_num now r
            block added x
            (some pool)
          ≡ ok (x', out))
        × (sent_to t out ≡ due_messages x.shard_id home t x.sequence_id block.body)
        × (infos out ≡ reported now r block x home ∷ [])
        × (x'.cur_chain ≡ kept block added x.cur_chain x.shard_id home)
        × (x'.txpool ≡ some (record { tx_queue = pool.tx_queue; relay_pool = none }))
  unfolding relay_block clear_relay_pool
  relay_block_lem home t now r block added x pool placed below =
      let (s', run, h) =
        sort_txs_lem shard_num x.cur_chain.partition_map x.shard_id home t block.body
          (record {
            pool = record pool { relay_pool = some [] };
            body = [];
            relay1_txs = [];
            executed_txs = [];
          })
          [] refl placed in
      let relays = relay_messages x.shard_nums 0 x.shard_id x.sequence_id (relay_map s'.pool) in
      let info : BlockInfoMsg = record {
        block_body_length = length block.body;
        executed_txs = s'.executed_txs;
        relay1_txs = s'.relay1_txs;
        relay1_tx_num = length s'.relay1_txs;
        sender_shard_id = x.shard_id;
        propose_time = r.req_time;
        commit_time = now;
      } in
      let bc = x.cur_chain in
      let report = RelayOut.block_info info ∷ [] in
      (
        record x {
          cur_chain =
              if added then record bc { current_block = record block { body = s'.body } } else bc;
          txpool = some (clear_relay_pool s'.pool);
        },
        relays ++ report,
        rw (run, relay_block) refl,
        rw
            (
              sent_to-append t relays report,
              sent_to-all_relays t x.shard_nums x.shard_id x.sequence_id (relay_map s'.pool) below,
              append-nil (
                  if t == x.shard_id
                  then []
                  else relay_of t x.shard_id x.sequence_id (relay_map s'.pool) ∷ []),
            )
            (all_due t x.shard_id x.sequence_id home block.body s'.pool h.relay),
        rw
            (
              infos-append relays report,
              infos-relay_messages x.shard_nums 0 x.shard_id x.sequence_id (relay_map s'.pool),
              h.executed_txs,
              h.relay1_txs,
            )
            refl,
        rw h.body refl,
        rw h.queue refl,
      )

module _ {bits : BitSets} (readings : ℕ → ℕ) where
  -- The relay messages reach a node one after the other.
  unfoldable pub receive : List RelayMsg → RelayModule bits → Result (RelayModule bits)
  receive [] y = ok y
  receive (msg ∷ msgs) y = do y' ← handle_relay readings msg y; receive msgs y'

  receive_one :
      (msg : RelayMsg) (y : RelayModule bits) (q : TxPool)
      → y.txpool ≡ some q
      → (y' : RelayModule bits) × (q' : TxPool) × (receive (msg ∷ []) y ≡ ok y')
        × (y'.txpool ≡ some q')
        × (q'.tx_queue ≡ q.tx_queue ++ map (λ e. stamp e.0 e.1) (timed readings 0 msg.txs))
        × (y'.seq_id_map ≡ insert msg.sender_shard_id msg.sender_seq y.seq_id_map)
  unfolding receive handle_relay
  receive_one msg y q e = (
    record y {
      txpool = some (add_txs_to_pool (timed readings 0 msg.txs) q);
      seq_id_map = insert msg.sender_shard_id msg.sender_seq y.seq_id_map;
    },
    add_txs_to_pool (timed readings 0 msg.txs) q,
    rw (e, receive) refl,
    refl,
    tx_queue-add_txs_to_pool (timed readings 0 msg.txs) q,
    refl,
  )

module _ (bits : BitSets) (codec : BlockCodec bits) (shard_num : ℕ) where
  -- Under the same conditions, a node of another shard `t` that has a pool and is brought what was
  -- sent to `t` has the block's transactions with a recipient there at the end of its queue, once,
  -- in the block's order, marked as relayed and stamped with its own clock, and the sender's
  -- sequence number under the sender's shard.
  pub relay_block-receive :
      (home : Transaction → ℕ) (t now : ℕ) (readings : ℕ → ℕ) (r : Request) (block : Block bits)
      (added : Bool) (x y : RelayModule bits) (pool q : TxPool)
      → HaveHomes shard_num x.cur_chain.partition_map home block.body
      → t < x.shard_nums
      → (t == x.shard_id) ≡ false
      → y.txpool ≡ some q
      → (x' : RelayModule bits) × (out : List RelayOut) × (y' : RelayModule bits) × (q' : TxPool)
        × (relay_block bits codec shard_num now r block added x (some pool) ≡ ok (x', out))
        × (receive readings (sent_to t out) y ≡ ok y')
        × (y'.txpool ≡ some q')
        × (q'.tx_queue
            ≡ q.tx_queue
              ++ map
                  (λ e. stamp e.0 e.1)
                  (timed readings 0 (map relayed (filter (λ tx. home tx == t) block.body))))
        × (lookup x.shard_id y'.seq_id_map ≡ some x.sequence_id)
  relay_block-receive home t now readings r block added x y pool q placed below other there =
      let (x', out, ran, sent, reported', kept', pool') =
        relay_block_lem bits codec shard_num home t now r block added x pool placed below in
      let msg : RelayMsg = record {
        txs = map relayed (filter (λ tx. home tx == t) block.body);
        sender_shard_id = x.shard_id;
        sender_seq = x.sequence_id;
      } in
      let (y', q', received, pooled, queue, seqs) = receive_one readings msg y q there in
      (
        x',
        out,
        y',
        q',
        ran,
        rw (sent, other) received,
        pooled,
        queue,
        rw
            (
              seqs,
              lookup-insert x.shard_id x.shard_id x.sequence_id y.seq_id_map,
              beq_refl x.shard_id,
            )
            refl,
      )
