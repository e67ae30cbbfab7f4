-- ===== src/SubMpt/Proposer/Seal.antt =====
-- `blockGenerate` of consensus_shard/subMPT/proposer.go: the processed transactions become a block.
use aster.Prelude.{
  ℕ, ◌+◌, ◌%◌, ◌^◌, ◌<◌, ◌≡◌, ◌≢◌, refl, inl, inr, Bool, true, false, not, Option, none, some, List,
  [], ◌∷◌, Bytes, Result, ok, panic, ◌>>=◌, nat_eq, bytes_eq, ◌==◌, if◌then◌else◌, insert, has_key,
  beq_refl, beq_of_eq, beq_ne, Bool-cases, contains,
}
use aster.Core.Transaction.{Transaction}
use aster.Core.Block.{BitSets, BlockHeader, Block, BlockCodec, new_block}
use aster.Chain.{BlockChain, add_block, get_bloom_filter, is_valid_block, wrong_tx_root}
use aster.Chain.Bloom.{hash_bits, test-get_bloom_filter}
use aster.Chain.Growth.{IsNext, IsLinked, add_block-IsLinked}
use aster.Storage as Store
use aster.SubMpt.Proposer.{ProposerNode}

-- `[]byte("123")`, which stands for both roots.
abbrev pub fixed_root : Bytes
fixed_root = 49 ∷ 50 ∷ 51 ∷ []

module _ (bits : BitSets) (codec : BlockCodec bits) where
  -- The block that `blockGenerate` builds at time `now` on the current one.
  unfoldable pub next_block : ℕ → List Transaction → BlockChain bits → Block bits
  unfolding new_block
  next_block now txs bc =
      let bh : BlockHeader bits = record {
        parent_block_hash = bc.current_block.hash;
        state_root = fixed_root;
        tx_root = fixed_root;
        bloom_filter = get_bloom_filter bits txs;
        number = (bc.current_block.header.number + 1) % 2 ^ 64;
        time = now;
        miner = 0;
      } in
      let b = new_block bits bh txs in record b { hash = codec.hash_header bh }

  parent-next_block :
      (now : ℕ) (txs : List Transaction) (bc : BlockChain bits)
      → (next_block now txs bc).header.parent_block_hash ≡ bc.current_block.hash
  unfolding next_block new_block
  parent-next_block now txs bc = refl

  next_block_lem :
      (now : ℕ) (txs : List Transaction) (bc : BlockChain bits)
      → ((next_block now txs bc).body ≡ txs)
        × IsNext bits codec (next_block now txs bc) bc
        × ((i : ℕ)
            → bits.test (next_block now txs bc).header.bloom_filter i
              ≡ contains (hash_bits bits txs) i)
  unfolding next_block new_block
  next_block_lem now txs bc =
      (refl, record { height = refl; parent = refl }, λ i. test-get_bloom_filter bits txs i)

  -- The block that `blockGenerate` makes is no valid one to `IsValidBlock`, unless the root of its
  -- transactions' trie is the three bytes "123" that stand for it.
  pub is_valid_block-next_block :
      (tx_tree_root : List Transaction → Bytes) (now : ℕ) (txs : List Transaction)
      (bc : BlockChain bits)
      → tx_tree_root txs ≢ fixed_root
      → is_valid_block bits codec tx_tree_root (next_block now txs bc) bc ≡ some wrong_tx_root
  unfolding is_valid_block next_block new_block
  is_valid_block-next_block tx_tree_root now txs bc ne =
      rw (beq_refl bc.current_block.hash, beq_ne (tx_tree_root txs) fixed_root ne)

module _ (bits : BitSets) (codec : BlockCodec bits) {Ring : Type 0} where
  -- What follows on the building of the block. The test of the parent's hash, which panics, is on
  -- the hash that was just copied.
  unfoldable pub append_block :
      Block bits → ProposerNode bits Ring → Result (ProposerNode bits Ring × Option (Block bits))
  append_block block p =
      if not (block.header.parent_block_hash == p.cur_chain.current_block.hash) then panic else do
        (bc, added) ← add_block bits codec (some block) p.cur_chain
        ok (
          record p {
            processed_txpool = [];
            block_hash_gen_done = insert block.header.parent_block_hash true p.block_hash_gen_done;
            cur_chain = bc;
          },
          some block,
        )

  -- The rest of `blockGenerate`, for the transactions of the processed pool.
  unfoldable pub seal :
      ℕ
      → List Transaction
      → ProposerNode bits Ring
      → Result (ProposerNode bits Ring × Option (Block bits))
  unfolding append_block
  seal now [] p = ok (p, none)
  seal now (tx ∷ txs) p = append_block (next_block bits codec now (tx ∷ txs) p.cur_chain) p

  unfoldable pub block_generate :
      ℕ → ProposerNode bits Ring → Result (ProposerNode bits Ring × Option (Block bits))
  unfolding seal
  block_generate now p =
      if has_key p.cur_chain.current_block.hash p.block_hash_gen_done
      then ok (p, none)
      else seal now p.processed_txpool p

  append_block_lem :
      (b : Block bits) (p : ProposerNode bits Ring) (bc : BlockChain bits) (done : Bool)
      → b.header.parent_block_hash ≡ p.cur_chain.current_block.hash
      → add_block bits codec (some b) p.cur_chain ≡ ok (bc, done)
      → append_block b p
        ≡ ok (
          record p {
            processed_txpool = [];
            block_hash_gen_done = insert b.header.parent_block_hash true p.block_hash_gen_done;
            cur_chain = bc;
          },
          some b,
        )
  unfolding append_block
  append_block_lem b p bc done same e =
      rw (beq_of_eq b.header.parent_block_hash p.cur_chain.current_block.hash same, e)

  seal_some :
      (now : ℕ) (txs : List Transaction) (p : ProposerNode bits Ring)
      → txs ≢ []
      → seal now txs p ≡ append_block (next_block bits codec now txs p.cur_chain) p
  unfolding seal
  seal_some now [] p h = absurd (h refl)
  seal_some now (tx ∷ txs) p h = refl

  -- With nothing processed, or a block already made on the current one, nothing happens.
  block_generate_idle :
      (now : ℕ) (p : ProposerNode bits Ring)
      → p.processed_txpool ≡ []
      → block_generate now p ≡ ok (p, none)
  unfolding block_generate seal
  block_generate_idle now p e =
      elim (Bool-cases (has_key p.cur_chain.current_block.hash p.block_hash_gen_done)) [
        | inl done ↦ rw done
        | inr fresh ↦ rw (fresh, e, seal)
      ]

  -- `blockGenerate` on a linked chain, with something processed and no block made on the current
  -- one yet, seals all of the processed pool, in order, into the next block, under a filter that
  -- finds each of its transactions; the block becomes the current one and the chain stays linked.
  -- The hash is to be new and not empty, and the height below 2^64. A further call, at whatever
  -- time, then makes no block.
  pub block_generate_lem :
      (now later : ℕ) (p : ProposerNode bits Ring)
      → p.processed_txpool ≢ []
      → has_key p.cur_chain.current_block.hash p.block_hash_gen_done ≡ false
      → (next_block bits codec now p.processed_txpool p.cur_chain).hash ≢ []
      → Store.get_block bits codec
          (next_block bits codec now p.processed_txpool p.cur_chain).hash
          p.cur_chain.storage
        ≡ ok none
      → p.cur_chain.current_block.header.number + 1 < 2 ^ 64
      → IsLinked bits codec p.cur_chain
      → (q : ProposerNode bits Ring) × (b : Block bits) × (block_generate now p ≡ ok (q, some b))
        × (b.body ≡ p.processed_txpool)
        × (q.processed_txpool ≡ [])
        × (q.cur_chain.current_block ≡ b)
        × IsNext bits codec b p.cur_chain
        × IsLinked bits codec q.cur_chain
        × ((i : ℕ) → bits.test b.header.bloom_filter i ≡ contains (hash_bits bits b.body) i)
        × (block_generate later q ≡ ok (q, none))
  unfolding block_generate next_block
  block_generate_lem now later p some_done fresh ne new small link =
      let b = next_block bits codec now p.processed_txpool p.cur_chain in
      let (body, next, filter) = next_block_lem bits codec now p.processed_txpool p.cur_chain in
      let (bc, accepted, top, linked) =
        add_block-IsLinked bits codec b p.cur_chain next ne new small link in
      let q = record p {
        processed_txpool = [];
        block_hash_gen_done = insert b.header.parent_block_hash true p.block_hash_gen_done;
        cur_chain = bc;
      } in
      (
        q,
        b,
        rw (
          fresh,
          seal_some now p.processed_txpool p some_done,
          append_block_lem b p bc true next.parent accepted,
        ),
        body,
        refl,
        top,
        next,
        linked,
        filter,
        block_generate_idle later q refl,
      )
