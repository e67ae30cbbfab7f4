-- ===== src/Tests/Rounds.antt =====
-- A round in which two shards exchange the accounts "0" and "1".
use aster.Prelude.{
  ℕ, ◌+◌, ◌==◌, Bool, ◌≡◌, refl, some, List, [], ◌∷◌, Bytes, bytes_eq, nat_eq, Map, lookup,
  lookup_or, filter, contains, All, ok, arith, bytes_beq,
}
use aster.Prelude.Int.{pos}
use aster.Core.Transaction.{Transaction}
use aster.Core.TxPool.{TxPool, add_txs_to_pool}
use aster.Chain.{get_partition_map}
use aster.Pbft.Relay.{timed}
use aster.Pbft.Clpa.{AccountTransferMsg, PartitionReady, AccountStateAndTx, ClpaModule}
use aster.Pbft.Clpa.Transfer.{TransferOut, partition_req, send_accounts_and_txs}
use aster.Pbft.Clpa.Moves.{txs_to, goes_to}
use aster.Pbft.Clpa.Leaving.{leaving, kept_pool, with_pool, send_accounts_and_txs-filter}
use aster.Pbft.Clpa.Conservation.{carried, found, found-send_accounts_and_txs}
use aster.Pbft.Clpa.Proposal.{ClpaMsg, ClpaProposal, clpa_handle_in_propose}
use aster.Pbft.Clpa.Proposal.Waiting.{all_arrivals}
use aster.Pbft.Clpa.Proposal.Collecting.{transfers, transferred}
use aster.Pbft.Clpa.Proposal.Ending.{IsRound, AreOfOthers}
use aster.Pbft.Clpa.Proposal.Rounds.{clpa_handle_in_propose_lem}
use aster.Tests.Sets.{set_of_bits}
use aster.Tests.Encodings.{account_codec, block_codec}
use aster.Tests.Samples.{alice, bob, back, tries, flat, flat-Reads}
use aster.Tests.States.{shards}
use aster.Tests.Transfers.{tx_root, home, queue, leader, encode}

abbrev exchange : Map Bytes ℕ
exchange = (alice, 1) ∷ (bob, 0) ∷ []

-- The leader of shard 0, which has a relay message of shard 1 with the number 3.
abbrev proposer : ClpaModule set_of_bits
proposer =
    let cdm = leader.cdm in
    let node = leader.pbft_node in
    record {
      cdm = record cdm { modified_map = exchange ∷ [] };
      pbft_node = record node { seq_id_map = (1, 3) ∷ [] };
    }

abbrev ready : PartitionReady
ready = record { from_shard = 1; now_seq_id = 4 }

abbrev sent : AccountStateAndTx
sent = record {
  addrs = bob ∷ [];
  account_state =
      (record { ac_address = []; nonce = 0; balance = pos 100; storage_root = []; code_hash = [] })
      ∷ [];
  txs = back ∷ [];
  from_shard = 1;
}

-- A second without messages, then one of each kind.
abbrev arrivals : List (List ClpaMsg)
arrivals = [] ∷ (ClpaMsg.partition_ready ready ∷ []) ∷ (ClpaMsg.account_state_and_tx sent ∷ []) ∷ []

proposer-IsRound : IsRound proposer exchange
proposer-IsRound = record {
  on = refl;
  round = refl;
  last = refl;
  unready = refl;
  uncollected = refl;
  without_txs = refl;
  collecting = refl;
  inside = omega arith;
}

arrivals-AreOfOthers : AreOfOthers proposer exchange (λ sid. 4) (all_arrivals arrivals)
unfolding contains lookup_or lookup bytes_beq
arrivals-AreOfOthers = record {
  leaders = (refl, (refl, tt));
  ready_new = (refl, tt);
  ready_all = refl;
  ready_seq = (refl, tt);
  relays = ((refl, refl), tt);
  transfers_new = (refl, tt);
  transfers_all = refl;
  accepted = ((refl, (refl, tt)), tt);
}

exchange_placed : All (λ e. get_partition_map 2 shards e.0 ≡ ok (home e.0)) exchange
unfolding get_partition_map lookup bytes_beq
exchange_placed = (refl, (refl, tt))

clpa_handle_in_propose_example :
    (x' : ClpaModule set_of_bits) × (out : List TransferOut) × (atm : AccountTransferMsg)
    × (later : List (List ClpaMsg)) × (clpa_handle_in_propose tries account_codec
          (pos 100)
          2
          block_codec
          tx_root
          encode
          5
          6
          (λ i. i)
          arrivals
          []
          proposer
        ≡ ok (
            ClpaProposal.proposes x' [] out
              (record { request_type = partition_req; content = encode atm; req_time = 6 })
              later))
    × (txs_to 1 out ≡ filter (goes_to exchange (leaving home 0 exchange) 1) queue.tx_queue)
    × (x'.pbft_node.txpool
        ≡ some (
            add_txs_to_pool
              (timed (λ i. i) 0 (transferred (transfers (all_arrivals arrivals))))
              (kept_pool proposer exchange home queue)))
    × (atm.modified_map ≡ exchange)
    × (atm.at_id ≡ 1)
clpa_handle_in_propose_example =
    clpa_handle_in_propose_lem tries account_codec (pos 100) 2 block_codec tx_root encode 5 6
      (λ i. i) arrivals [] proposer exchange (λ sid. 4) home queue [] flat 1 proposer-IsRound
      arrivals-AreOfOthers refl refl flat-Reads exchange_placed (omega arith) refl

-- What the leader sends.
messages :
    (out : List TransferOut) × (send_accounts_and_txs tries account_codec
        (pos 100)
        2
        block_codec
        tx_root
        []
        proposer
      ≡ ok (with_pool (kept_pool proposer exchange home queue) proposer, out))
messages =
    let (out, done, txs, ads, fit) =
      send_accounts_and_txs-filter tries account_codec (pos 100) 2 block_codec tx_root [] proposer
        exchange home queue [] flat 1 refl refl refl flat-Reads exchange_placed (omega arith)
        refl in
    (out, done)

abbrev is_from_alice : Transaction → Bool
is_from_alice tx = tx.sender == alice

found-send_accounts_and_txs_example :
    (pool' : TxPool) × (some (kept_pool proposer exchange home queue) ≡ some pool')
    × (found is_from_alice (carried messages.0) + found is_from_alice pool'.tx_queue
        ≡ found is_from_alice queue.tx_queue)
found-send_accounts_and_txs_example =
    found-send_accounts_and_txs tries account_codec (pos 100) 2 block_codec tx_root is_from_alice []
      proposer (with_pool (kept_pool proposer exchange home queue) proposer) messages.0 queue refl
      messages.1
