-- ===== src/Tests/Transfers.antt =====
-- Two shards between which the account "0" moves, with its transactions.
use aster.Prelude.{
  ℕ, ◌≡◌, inl, inr, refl, false, true, none, some, List, [], ◌∷◌, Bytes, bytes_eq, nat_eq, ◌==◌,
  Map, lookup, lookup_or, filter, All, ok, panic, arith, bytes_beq, length, insert, if◌then◌else◌,
  has_key, DistinctKeys,
}
use aster.Prelude.Int.{pos}
use aster.Core.Transaction.{Transaction}
use aster.Core.Account.{AccountState}
use aster.Core.TxPool.{TxPool, add_txs_to_pool}
use aster.Core.Block.{BlockHeader}
use aster.Prelude.{◌≢◌}
use aster.Accounts.Reads.{Reads}
use aster.Chain.{BlockChain, get_partition_map, update_partition_map}
use aster.Chain.Growth.{IsNext}
use aster.Chain.Transfer.{fetch_accounts, add_accounts}
use aster.Chain.Moved.{merged, IsPlaced, add_accounts-fetch_accounts}
use aster.Pbft.Relay.{Sorted, timed, sort_txs}
use aster.Pbft.Clpa.{AccountTransferMsg, AccountStateAndTx, DataSupportClpa, ClpaModule}
use aster.Pbft.Clpa.Transfer.{
  TransferOut, partition_req, update_partition_maps, send_accounts_and_txs, propose_partition,
  account_transfer_do,
}
use aster.Pbft.Clpa.Moves.{IsArrival, IsAccepted, txs_to, addrs_to, goes_to, stays}
use aster.Pbft.Clpa.Leaving.{leaving, send_accounts_and_txs_lem}
use aster.Pbft.Clpa.Arrival.{arrived, propose_partition_lem, account_transfer_do_lem}
use aster.Pbft.Clpa.Inside.{clpa_sort_txs}
use aster.Pbft.Clpa.Sorting.{AreHomes, all_own, clpa_sort_txs-sort_txs}
use aster.Tests.Sets.{set_of_bits}
use aster.Tests.Encodings.{account_codec, block_codec, hash_header-block_codec}
use aster.Tests.Samples.{alice, there, two, tries, flat, flat-Reads}
use aster.Tests.Chains.{chain}
use aster.Tests.States.{shards}

abbrev pub tx_root : List Transaction → Bytes
tx_root txs = []

-- "0" goes from shard 0 to shard 1.
abbrev moves : Map Bytes ℕ
moves = (alice, 1) ∷ []

abbrev pub home : Bytes → ℕ
home key = if key == alice then 0 else 1

abbrev pub queue : TxPool
queue = record { tx_queue = two; relay_pool = none }

abbrev pub support : DataSupportClpa
support = record {
  modified_map = moves ∷ [];
  account_transfer_round = 0;
  received_new_account_state = [];
  received_new_tx = [];
  account_state_tx = [];
  partition_on = true;
  partition_ready = [];
  ready_seq = [];
  collect_over = false;
}

abbrev pub leader : ClpaModule set_of_bits
leader = record {
  cdm = support;
  pbft_node = record {
    cur_chain = record chain { partition_map = shards };
    txpool = some queue;
    shard_id = 0;
    node_id = 0;
    view = 0;
    shard_nums = 2;
    sequence_id = 4;
    seq_id_map = [];
  };
}

moves_placed : All (λ e. get_partition_map 2 shards e.0 ≡ ok (home e.0)) moves
unfolding get_partition_map lookup bytes_beq
moves_placed = (refl, tt)

send_accounts_and_txs_example :
    (x' : ClpaModule set_of_bits) × (out : List TransferOut) × (pool' : TxPool)
    × (send_accounts_and_txs tries account_codec (pos 100) 2 block_codec tx_root [] leader
        ≡ ok (x', out))
    × (x'.pbft_node.txpool ≡ some pool')
    × (pool'.tx_queue ≡ filter (stays moves (leaving home 0 moves) 0 0 2) two)
    × (txs_to 1 out ≡ filter (goes_to moves (leaving home 0 moves) 1) two)
    × (addrs_to 1 out ≡ filter (λ k. lookup_or 0 k moves == 1) (leaving home 0 moves))
    × All (IsAccepted moves) out
send_accounts_and_txs_example =
    send_accounts_and_txs_lem tries account_codec (pos 100) 2 block_codec tx_root [] leader moves
      home queue [] flat 1 refl refl refl flat-Reads moves_placed (omega arith) refl

-- What shard 0 sends.
abbrev message : AccountStateAndTx
message = record {
  addrs = alice ∷ [];
  account_state =
      (record { ac_address = []; nonce = 0; balance = pos 100; storage_root = []; code_hash = [] })
      ∷ [];
  txs = there ∷ [];
  from_shard = 0;
}

-- The leader of shard 1 that has it.
abbrev receiver : ClpaModule set_of_bits
receiver = record {
  cdm = record support { account_state_tx = (0, message) ∷ []; collect_over = true };
  pbft_node = record {
    cur_chain = record chain { partition_map = shards; shard_id = 1 };
    txpool = some queue;
    shard_id = 1;
    node_id = 0;
    view = 0;
    shard_nums = 2;
    sequence_id = 4;
    seq_id_map = [];
  };
}

message_fit : IsArrival moves 1 message
unfolding lookup_or lookup bytes_beq
message_fit = (refl, (refl, tt))

abbrev pub encode : AccountTransferMsg → Bytes
encode atm = atm.at_id ∷ []

propose_partition_example :
    (x' : ClpaModule set_of_bits) × (atm : AccountTransferMsg) × (propose_partition encode
        (λ i. i)
        5
        receiver
      ≡ ok (x', record { request_type = partition_req; content = encode atm; req_time = 5 }))
    × (x'.pbft_node.txpool
        ≡ some (add_txs_to_pool (timed (λ i. i) 0 (arrived ((0, message) ∷ []))) queue))
    × (atm.modified_map ≡ moves)
    × (atm.at_id ≡ 1)
    × (length atm.account_state ≡ length atm.addrs)
propose_partition_example =
    propose_partition_lem encode (λ i. i) 5 receiver moves queue refl refl refl (message_fit, tt)

-- Shard 1 once the map is its own.
abbrev arriving : BlockChain set_of_bits
arriving = update_partition_maps moves receiver.pbft_node.cur_chain

arriving-IsPlaced :
    All (IsPlaced tries account_codec (pos 100) 2 arriving.partition_map (λ k. 1)) (alice ∷ [])
unfolding get_partition_map update_partition_maps update_partition_map lookup insert bytes_beq
arriving-IsPlaced = (refl, tt)

never_empty : (h : BlockHeader set_of_bits) → block_codec.hash_header h ≢ []
never_empty h e = absurd (ground (arith, hash_header-block_codec h, e))

add_accounts_example :
    (states : List AccountState) × (bc' : BlockChain set_of_bits) × (db' : Map Bytes Bytes)
    × (st' : Map Bytes Bytes) × (fetch_accounts tries account_codec
          (pos 100)
          2
          block_codec
          tx_root
          []
          chain
          (alice ∷ [])
        ≡ ok states)
    × (add_accounts tries account_codec
          (pos 100)
          2
          block_codec
          tx_root
          (alice ∷ [])
          states
          []
          arriving
        ≡ ok (bc', db'))
    × IsNext set_of_bits block_codec bc'.current_block arriving
    × (tries.open_trie bc'.current_block.header.state_root db' ≡ some st')
    × Reads tries account_codec
        (pos 100)
        st'
        (merged (λ k. 1 == arriving.shard_id) (alice ∷ []) flat flat)
add_accounts_example =
    add_accounts-fetch_accounts tries account_codec (pos 100) 2 block_codec tx_root (alice ∷ []) []
      [] chain arriving [] [] flat flat (λ k. 1) refl refl flat-Reads flat-Reads arriving-IsPlaced
      (inr (inl refl)) (λ root d. (d, refl)) never_empty

moved_in :
    (states : List AccountState) × (bc' : BlockChain set_of_bits) × (db' : Map Bytes Bytes)
    × (add_accounts tries account_codec
          (pos 100)
          2
          block_codec
          tx_root
          (alice ∷ [])
          states
          []
          arriving
        ≡ ok (bc', db'))
moved_in =
    let (states, bc', db', st', fetched, added, next, opens, reads) =
      add_accounts-fetch_accounts tries account_codec (pos 100) 2 block_codec tx_root (alice ∷ [])
        [] [] chain arriving [] [] flat flat (λ k. 1) refl refl flat-Reads flat-Reads
        arriving-IsPlaced (inr (inl refl)) (λ root d. (d, refl)) never_empty in
    (states, bc', db', added)

-- The request that the leader of shard 1 has proposed.
abbrev transfer : AccountTransferMsg
transfer = record {
  modified_map = moves;
  addrs = alice ∷ [];
  account_state = moved_in.0;
  at_id = 1;
}

moves_distinct : DistinctKeys moves
unfolding has_key lookup
moves_distinct = (refl, tt)

account_transfer_do_example :
    (x' : ClpaModule set_of_bits) × (account_transfer_do tries account_codec
        (pos 100)
        2
        block_codec
        tx_root
        transfer
        []
        receiver
      ≡ ok (x', moved_in.2))
    × (lookup alice x'.pbft_node.cur_chain.partition_map
        ≡ (elim (lookup alice moves) [ none ↦ lookup alice shards | some v ↦ some v ]))
    × (x'.cdm.account_transfer_round ≡ length x'.cdm.modified_map)
    × (x'.cdm.account_state_tx ≡ [])
    × (x'.cdm.received_new_account_state ≡ [])
    × (x'.cdm.received_new_tx ≡ [])
    × (x'.cdm.partition_ready ≡ [])
    × (x'.cdm.partition_on ≡ false)
    × (x'.cdm.collect_over ≡ false)
account_transfer_do_example =
    account_transfer_do_lem tries account_codec (pos 100) 2 block_codec tx_root transfer []
      moved_in.2 receiver moved_in.1 alice moves_distinct moved_in.3 (inl refl)

abbrev sorting : Sorted
sorting = record {
  pool = record queue { relay_pool = some [] };
  body = [];
  relay1_txs = [];
  executed_txs = [];
}

two_homes : All (AreHomes 2 shards home 0) two
unfolding get_partition_map lookup bytes_beq
two_homes = (record { from = refl; to = refl }, (record { from = refl; to = refl }, tt))

clpa_sort_txs_example :
    clpa_sort_txs 2 shards 0 two sorting
    ≡ (if all_own 2 shards home 0 two then sort_txs 2 shards 0 two sorting else panic)
clpa_sort_txs_example = clpa_sort_txs-sort_txs 2 shards home 0 two sorting two_homes
