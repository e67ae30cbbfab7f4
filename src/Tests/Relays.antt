-- ===== src/Tests/Relays.antt =====
-- Two shards of consensus_shard/pbft_all that relay: "0" is in shard 0 and "1" in shard 1.
use aster.Prelude.{
  ℕ, ◌+◌, ◌≡◌, refl, true, none, some, List, [], ◌∷◌, ◌++◌, map, filter, ok, nat_eq, bytes_eq, ◌==◌,
  if◌then◌else◌, lookup, bytes_beq, arith,
}
use aster.Core.Transaction.{Transaction}
use aster.Core.Block.{Block}
use aster.Core.TxPool.{TxPool, stamp}
use aster.Chain.{get_partition_map}
use aster.Pbft.Messages.{Request}
use aster.Pbft.Relay.{RelayOut, RelayModule, relayed, timed, relay_block, relay_commit}
use aster.Pbft.Relay.Sent.{sent_to, infos}
use aster.Pbft.Relay.Sorting.{HaveHomes, due_messages}
use aster.Pbft.Relay.Delivery.{reported, kept, receive, relay_block_lem, relay_block-receive}
use aster.Tests.Sets.{set_of_bits}
use aster.Tests.Encodings.{block_codec}
use aster.Tests.Samples.{alice, two, genesis}
use aster.Prelude.{foldl}
use aster.Pbft.Messages.{SendOldMessage}
use aster.Chain.Growth.{IsLinked}
use aster.Pbft.Relay.OldBlocks.{
  asked, grown, Extends, handle_for_sequential_request, handle_for_sequential_request_lem,
}
use aster.Tests.States.{shards, there_placed, back_placed}
use aster.Core.TxPool.{pack_txs}
use aster.Chain.Status.{ArePlaced}
use aster.Core.Block.{BlockHeader}
use aster.Prelude.{◌≢◌, insert, length, min, All}
use aster.Prelude.Int.{pos}
use aster.Pbft.Relay.Proposal.{
  CanPropose, handle_in_propose, handle_in_pre_prepare, handle_in_propose_lem,
}
use aster.Tests.Encodings.{account_codec, hash_header-block_codec}
use aster.Tests.Samples.{tries, flat, flat-Reads}
use aster.Tests.Chains.{chain, first, first-IsNext, not_stored, not_genesis, chain-IsLinked}

-- "0" and its shard; every other address counts as "1".
abbrev home : Transaction → ℕ
home tx = if tx.recipient == alice then 0 else 1

abbrev block : Block set_of_bits
block = record genesis { body = two }

two-HaveHomes : HaveHomes 2 shards home two
unfolding get_partition_map lookup bytes_beq
two-HaveHomes = (refl, (refl, tt))

abbrev no_txs : TxPool
no_txs = record { tx_queue = []; relay_pool = none }

abbrev node : RelayModule set_of_bits
node = record {
  cur_chain = record chain { partition_map = shards };
  txpool = some no_txs;
  shard_id = 0;
  node_id = 0;
  view = 0;
  shard_nums = 2;
  sequence_id = 4;
  seq_id_map = [];
}

-- The main node of the other shard.
abbrev other : RelayModule set_of_bits
other = record node { shard_id = 1 }

abbrev request : Request
request = record { request_type = []; content = block_codec.encode_block first; req_time = 3 }

relay_block_example :
    (x' : RelayModule set_of_bits) × (out : List RelayOut) × (relay_block set_of_bits block_codec 2
        6 request block true node
        (some no_txs)
      ≡ ok (x', out))
    × (sent_to 1 out ≡ due_messages 0 home 1 4 two)
    × (infos out ≡ reported set_of_bits block_codec 2 6 request block node home ∷ [])
    × (x'.cur_chain ≡ kept set_of_bits block_codec 2 block true node.cur_chain 0 home)
    × (x'.txpool ≡ some (record { tx_queue = []; relay_pool = none }))
relay_block_example =
    relay_block_lem set_of_bits block_codec 2 home 1 6 request block true node no_txs two-HaveHomes
      (ground arith)

relay_block-receive_example :
    (x' : RelayModule set_of_bits) × (out : List RelayOut) × (y' : RelayModule set_of_bits)
    × (q' : TxPool) × (relay_block set_of_bits block_codec 2 6 request block true node (some no_txs)
        ≡ ok (x', out))
    × (receive (λ i. i + 1) (sent_to 1 out) other ≡ ok y')
    × (y'.txpool ≡ some q')
    × (q'.tx_queue
        ≡ []
          ++ map
              (λ e. stamp e.0 e.1)
              (timed (λ i. i + 1) 0 (map relayed (filter (λ tx. home tx == 1) two))))
    × (lookup 0 y'.seq_id_map ≡ some 4)
relay_block-receive_example =
    relay_block-receive set_of_bits block_codec 2 home 1 6 (λ i. i + 1) request block true node
      other no_txs no_txs two-HaveHomes (ground arith) refl refl

-- The main node with two transactions that wait, and another node of its shard.
abbrev main_node : RelayModule set_of_bits
main_node = record node {
  cur_chain = record chain {
    partition_map = shards;
    precessed_txpool = record { tx_queue = two; relay_pool = none };
  };
}

abbrev replica : RelayModule set_of_bits
replica = record node { node_id = 1 }

two_placed :
    All
      (ArePlaced tries account_codec (pos 100) 2 shards)
      (pack_txs 10 (record { tx_queue = two; relay_pool = none })).0
unfolding pack_txs
two_placed = (there_placed, (back_placed, tt))

main_node-CanPropose :
    CanPropose tries account_codec
      (pos 100)
      2
      set_of_bits
      block_codec
      (λ txs. 6 ∷ [])
      []
      main_node.cur_chain
main_node-CanPropose = record {
  trie = [];
  ledger = flat;
  opens = refl;
  reads = flat-Reads;
  placed = two_placed;
}

hashes : (h : BlockHeader set_of_bits) → block_codec.hash_header h ≢ []
hashes h = ground (arith, hash_header-block_codec h)

handle_in_propose_example :
    (x' : RelayModule set_of_bits) × (r : Request) × (b : Block set_of_bits) × (y' : RelayModule
      set_of_bits)
    × (handle_in_propose tries account_codec
          (pos 100)
          2
          set_of_bits
          block_codec
          (λ txs. 6 ∷ [])
          8
          9
          []
          main_node
        ≡ ok (x', [], r))
    × (handle_in_pre_prepare set_of_bits block_codec
          (λ txs. 6 ∷ [])
          (record { request_msg = r; digest = 2 ∷ []; seq_id = 1 })
          []
          replica
        ≡ ok (true, insert (2 ∷ []) r []))
    × (relay_commit set_of_bits block_codec 2 10 r replica ≡ ok (y', []))
    × (y'.cur_chain.current_block ≡ b)
    × (b.body ++ x'.cur_chain.precessed_txpool.tx_queue ≡ two)
    × (length b.body ≡ min 10 (length two))
handle_in_propose_example =
    handle_in_propose_lem tries account_codec (pos 100) 2 set_of_bits block_codec (λ txs. 6 ∷ []) 8
      9 10 1 (2 ∷ []) [] main_node replica [] main_node-CanPropose hashes refl refl

-- A node at the genesis block, and the answer with the first block.
abbrev late : RelayModule set_of_bits
late = record node { cur_chain = chain }

abbrev missed : List (ℕ × Block set_of_bits)
missed = (3, first) ∷ []

abbrev answer : SendOldMessage
answer = record {
  seq_start_height = 1;
  seq_end_height = 1;
  old_request = map (asked set_of_bits block_codec) missed;
  sender_node = 2;
}

missed-Extends : Extends set_of_bits block_codec (first ∷ []) chain
missed-Extends = (first-IsNext, ground arith, not_stored first.hash not_genesis, omega arith, tt)

handle_for_sequential_request_example :
    (x' : RelayModule set_of_bits) × (handle_for_sequential_request set_of_bits block_codec answer
        late
      ≡ ok x')
    × IsLinked set_of_bits block_codec x'.cur_chain
    × (if ◌==◌ {K = ℕ} 2 2
        then (x'.cur_chain ≡ foldl (grown set_of_bits block_codec) chain (first ∷ []))
          × (x'.sequence_id ≡ 2)
        else x' ≡ late)
handle_for_sequential_request_example =
    handle_for_sequential_request_lem set_of_bits block_codec missed late answer refl (omega arith)
      (omega arith) missed-Extends chain-IsLinked
