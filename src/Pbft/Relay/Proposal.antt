-- ===== src/Pbft/Relay/Proposal.antt =====
-- The proposal of a block in consensus_shard/pbft_all/pbftInside_module.go: `HandleinPropose` on the
-- main node and `HandleinPrePrepare` on the others.
use aster.Prelude.{
  ℕ, ◌+◌, ◌%◌, ◌^◌, ◌≡◌, ◌≢◌, refl, Bool, true, false, none, some, List, [], ◌∷◌, ◌++◌, Bytes, Map,
  Result, ok, ◌>>=◌, or_panic, nat_eq, bytes_eq, ◌==◌, length, min, insert, All, beq_refl,
}
use aster.Prelude.Int.{ℤ}
use aster.Core.Transaction.{Transaction}
use aster.Core.Block.{BitSets, BlockHeader, Block, BlockCodec, new_block}
use aster.Core.TxPool.{TxPool, pack_txs}
use aster.Core.TxPool.Queue.{pack_txs_lem}
use aster.Accounts.Tries.{StateTrie, AccountCodec}
use aster.Accounts.Reads.{Ledger, Reads}
use aster.Storage as Store
use aster.Chain.{get_bloom_filter, BlockChain, is_valid_block}
use aster.Chain.Growth.{IsNext, add_block_next}
use aster.Chain.Status.{ArePlaced, generate_block, get_update_status_trie_lem}
use aster.Pbft.Messages.{Request, PrePrepare}
use aster.Pbft.Relay.{RelayModule, relay_commit}

module _ (t : StateTrie) (c : AccountCodec) (init_balance : ℤ) (shard_num : ℕ) (bits : BitSets)
    (codec : BlockCodec bits) (tx_tree_root : List Transaction → Bytes) where
  -- `HandleinPropose`, with two readings of the clock; the request's type is the text "Block".
  unfoldable pub handle_in_propose :
      ℕ → ℕ → t.Db → RelayModule bits → Result (RelayModule bits × t.Db × Request)
  handle_in_propose now now' db x = do
    (bc, db', b) ← generate_block t c init_balance shard_num codec tx_tree_root now 0 db x.cur_chain
    let r : Request = record {
      request_type = 66 ∷ 108 ∷ 111 ∷ 99 ∷ 107 ∷ [];
      content = codec.encode_block b;
      req_time = now';
    }
    ok (record x { cur_chain = bc }, db', r)

module _ (bits : BitSets) (codec : BlockCodec bits) (tx_tree_root : List Transaction → Bytes) where
  -- `HandleinPrePrepare`: whether the block is valid, and the pool of requests.
  unfoldable pub handle_in_pre_prepare :
      PrePrepare → Map Bytes Request → RelayModule bits → Result (Bool × Map Bytes Request)
  handle_in_pre_prepare m pool x = do
    b ← or_panic (codec.decode_block m.request_msg.content)
    ok (elim (is_valid_block bits codec tx_tree_root b x.cur_chain) [
      | some err ↦ (false, pool)
      | none ↦ (true, insert m.digest m.request_msg pool)
    ])

module _ (t : StateTrie) (c : AccountCodec) (init_balance : ℤ) (shard_num : ℕ) (bits : BitSets)
    (codec : BlockCodec bits) (tx_tree_root : List Transaction → Bytes) where
  -- What makes a proposal possible: the state trie opens and reads, and the addresses of the
  -- transactions that a block takes are placed.
  pub record CanPropose (db : t.Db) (bc : BlockChain bits) : Type 0 where
    pub trie : t.Trie
    pub ledger : Ledger
    pub opens : t.open_trie bc.current_block.header.state_root db ≡ some trie
    pub reads : Reads t c init_balance trie ledger
    pub placed :
        All
          (ArePlaced t c init_balance shard_num bc.partition_map)
          (pack_txs bc.block_size bc.precessed_txpool).0

  generate_block-IsNext :
      (now miner : ℕ) (db : t.Db) (bc bc2 : BlockChain bits)
      → CanPropose db bc
      → bc2.current_block ≡ bc.current_block
      → (pool : TxPool) × (b : Block bits) × (generate_block t c init_balance shard_num codec
            tx_tree_root now miner db bc
          ≡ ok (record bc { precessed_txpool = pool }, db, b))
        × (is_valid_block bits codec tx_tree_root b bc2 ≡ none)
        × IsNext bits codec b bc2
        × (b.hash ≡ codec.hash_header b.header)
        × (b.body ++ pool.tx_queue ≡ bc.precessed_txpool.tx_queue)
        × (length b.body ≡ min bc.block_size (length bc.precessed_txpool.tx_queue))
  unfolding generate_block is_valid_block new_block
  generate_block-IsNext now miner db bc bc2 can same =
      let (txs, pool) = pack_txs bc.block_size bc.precessed_txpool in
      let (split, size, relay) = pack_txs_lem bc.block_size bc.precessed_txpool in
      let bh : BlockHeader bits = record {
        parent_block_hash = bc.current_block.hash;
        state_root = bc.current_block.header.state_root;
        tx_root = tx_tree_root txs;
        bloom_filter = get_bloom_filter bits txs;
        number = (bc.current_block.header.number + 1) % 2 ^ 64;
        time = now;
        miner = miner;
      } in
      (
        pool,
        record { header = bh; body = txs; hash = codec.hash_header bh },
        rw
            (get_update_status_trie_lem t c init_balance shard_num txs db bc can.trie can.ledger
              can.opens can.reads can.placed)
            refl,
        rw (same, beq_refl bc.current_block.hash, beq_refl (tx_tree_root txs)) refl,
        record { height = rw same refl; parent = rw same refl },
        refl,
        split,
        size,
      )

  -- A block that the main node proposes is accepted by every other node that has the same current
  -- block: the pre-prepare keeps the request under its digest, and the commit of the request makes the
  -- block the current one of the node, which sends nothing. The block has the oldest
  -- transactions that wait, as many as it takes, and the others still wait. The hash function is
  -- never to give the empty text.
  pub handle_in_propose_lem :
      (now now' now'' seq : ℕ) (digest : Bytes) (db : t.Db) (x y : RelayModule bits)
      (pool : Map Bytes Request)
      → CanPropose db x.cur_chain
      → ((h : BlockHeader bits) → codec.hash_header h ≢ [])
      → y.cur_chain.current_block ≡ x.cur_chain.current_block
      → (y.node_id == y.view) ≡ false
      → (x' : RelayModule bits) × (r : Request) × (b : Block bits) × (y' : RelayModule bits)
        × (handle_in_propose t c init_balance shard_num bits codec tx_tree_root now now' db x
            ≡ ok (x', db, r))
        × (handle_in_pre_prepare bits codec tx_tree_root
              (record { request_msg = r; digest = digest; seq_id = seq })
              pool
              y
            ≡ ok (true, insert digest r pool))
        × (relay_commit bits codec shard_num now'' r y ≡ ok (y', []))
        × (y'.cur_chain.current_block ≡ b)
        × (b.body ++ x'.cur_chain.precessed_txpool.tx_queue ≡ x.cur_chain.precessed_txpool.tx_queue)
        × (length b.body
            ≡ min x.cur_chain.block_size (length x.cur_chain.precessed_txpool.tx_queue))
  unfolding handle_in_propose handle_in_pre_prepare relay_commit
  handle_in_propose_lem now now' now'' seq digest db x y pool can hashes same replica =
      let (p, b, made, valid, next, hash, split, size) =
        generate_block-IsNext now 0 db x.cur_chain y.cur_chain can same in
      let added = add_block_next bits codec b y.cur_chain next (rw hash (hashes b.header)) in
      let decoded = codec.decode_block-encode_block b in
      let bc = y.cur_chain in
      (
        record x { cur_chain = record x.cur_chain { precessed_txpool = p } },
        record {
          request_type = 66 ∷ 108 ∷ 111 ∷ 99 ∷ 107 ∷ [];
          content = codec.encode_block b;
          req_time = now';
        },
        b,
        record y {
          cur_chain = record bc {
            current_block = b;
            storage = Store.added bits codec b bc.storage;
          };
        },
        rw made refl,
        rw (decoded, valid) refl,
        rw (decoded, added, replica) refl,
        refl,
        split,
        size,
      )
