-- ===== src/Tests/Proposers.antt =====
-- The proposer of consensus_shard/subMPT on two followers and two transactions.
use aster.Prelude.{
  ℕ, suc, ◌+◌, ◌%◌, ◌^◌, ◌≡◌, ◌≢◌, refl, Bool, true, false, not, ◌&&◌, ◌||◌, none, some, List, [],
  ◌∷◌, ◌++◌, Bytes, Map, ok, arith, nat_eq, bytes_eq, ◌==◌, if◌then◌else◌, length, has_key, lookup,
  lookup_or, contains, bytes_beq,
}
use aster.Core.Transaction.{Transaction}
use aster.Core.Block.{Block, new_block}
use aster.Storage as Store
use aster.Chain.Bloom.{hash_bits}
use aster.Chain.Growth.{IsNext, IsLinked}
use aster.SubMpt.Messages.{AllocateTxMsgs, PrecessedTxMsgs}
use aster.SubMpt.Proposer.{ProposerNode, scheduling_txs, record_allocated, dealt, followers_ip}
use aster.SubMpt.Proposer.Schedule.{messages, is_sent, scheduling_txs_lem}
use aster.SubMpt.Proposer.Gather.{
  handle_processed_txs, IsKeyed, nil-IsKeyed, record_allocated-IsKeyed, Gathers, roots,
  handle_processed_txs_lem,
}
use aster.SubMpt.Proposer.Seal.{next_block, block_generate, block_generate_lem}
use aster.Tests.Sets.{set_of_bits}
use aster.Tests.Encodings.{block_codec, hash_header-block_codec}
use aster.Tests.Samples.{there, two, two-IsRoutable, genesis}
use aster.Tests.Chains.{chain, chain-IsLinked, not_stored}

abbrev node : ProposerNode set_of_bits ℕ
node = record {
  node_id = 0;
  shard_id = 0;
  follower_ids = 0 ∷ 1 ∷ [];
  ip_node_table = (0, (0, 5 ∷ []) ∷ (1, 6 ∷ []) ∷ []) ∷ [];
  cur_chain = chain;
  stop = false;
  block_hash_gen_done = [];
  pending_txpool = two;
  allocated_txpool = [];
  processed_txpool = [];
  epoch_id = 1;
  gather_map = [];
  verify_block = none;
  verify_lock = false;
  hash_ring = 0;
  receive_request_data_map = [];
  ready_map = (0, true) ∷ (1, true) ∷ [];
  follower_num = 2;
  poollencount = 0;
}

abbrev as_they_come : List Transaction → List Transaction
as_they_come txs = txs

scheduling_txs_example :
    (q : ProposerNode set_of_bits ℕ) × (sent : List (Bytes × AllocateTxMsgs)) × (scheduling_txs 9
        as_they_come node
      ≡ ok (q, dealt sent))
    × (two ++ q.pending_txpool ≡ two)
    × (sent
        ≡ messages 2 0
            ((1 + 1) % 2 ^ 32)
            node.ready_map
            two
            (followers_ip (lookup_or [] 0 node.ip_node_table) node.follower_ids))
    × ((h : Bytes)
        → has_key h q.allocated_txpool ≡ (has_key h node.allocated_txpool || is_sent h sent))
    × (q.processed_txpool ≡ [])
    × (q.epoch_id ≡ (1 + 1) % 2 ^ 32)
scheduling_txs_example = scheduling_txs_lem 9 as_they_come node (ground arith) two-IsRoutable

abbrev idle : ProposerNode set_of_bits ℕ
idle = record node { pending_txpool = []; poollencount = 7 }

abbrev allocated : Map Bytes Transaction
allocated = record_allocated two []

allocated-IsKeyed : IsKeyed allocated
allocated-IsKeyed = record_allocated-IsKeyed two [] nil-IsKeyed

abbrev busy : ProposerNode set_of_bits ℕ
busy = record node { pending_txpool = []; allocated_txpool = allocated }

abbrev answer : PrecessedTxMsgs
answer = record {
  txs = two;
  tx_hashs = there.tx_hash ∷ [];
  proofs = [];
  follower_id = 0;
  epoch_id = 2;
  state_root = 1 ∷ [];
}

handle_processed_txs_example :
    (q : ProposerNode set_of_bits ℕ) × (go : Bool) × (handle_processed_txs answer busy ≡ ok (q, go))
    × Gathers (there.tx_hash ∷ []) allocated q.allocated_txpool [] q.processed_txpool
    × ((epoch : ℕ)
        → length (roots epoch q) ≡ (
            if epoch == 2 && not (has_key 0 (roots epoch busy))
            then suc (length (roots epoch busy))
            else length (roots epoch busy)))
    × (go ≡ (length (roots 2 q) == 2 && node.shard_id == 0))
handle_processed_txs_example = handle_processed_txs_lem answer busy allocated-IsKeyed (omega arith)

abbrev done : ProposerNode set_of_bits ℕ
done = record node { pending_txpool = []; processed_txpool = two }

no_block_on : has_key done.cur_chain.current_block.hash done.block_hash_gen_done ≡ false
unfolding has_key lookup
no_block_on = refl

hash_next : (next_block set_of_bits block_codec 4 two chain).hash ≡ 2 ∷ 9 ∷ []
unfolding next_block new_block
hash_next = hash_header-block_codec _

has_hash_next : (next_block set_of_bits block_codec 4 two chain).hash ≢ []
has_hash_next = rw hash_next (ground arith)

not_genesis : (2 ∷ 9 ∷ [] == genesis.hash) ≡ false
unfolding bytes_beq
not_genesis = refl

is_new :
    Store.get_block set_of_bits block_codec
      (next_block set_of_bits block_codec 4 two chain).hash
      chain.storage
    ≡ ok none
is_new = rw hash_next (not_stored (2 ∷ 9 ∷ []) not_genesis)

block_generate_example :
    (q : ProposerNode set_of_bits ℕ) × (b : Block set_of_bits) × (block_generate set_of_bits
        block_codec 4 done
      ≡ ok (q, some b))
    × (b.body ≡ two)
    × (q.processed_txpool ≡ [])
    × (q.cur_chain.current_block ≡ b)
    × IsNext set_of_bits block_codec b chain
    × IsLinked set_of_bits block_codec q.cur_chain
    × ((i : ℕ)
        → set_of_bits.test b.header.bloom_filter i ≡ contains (hash_bits set_of_bits b.body) i)
    × (block_generate set_of_bits block_codec 5 q ≡ ok (q, none))
block_generate_example =
    block_generate_lem set_of_bits block_codec 4 5 done (ground arith) no_block_on has_hash_next
      is_new (omega arith) chain-IsLinked

abbrev first_hash : List Transaction → Bytes
first_hash txs = 3 ∷ []
