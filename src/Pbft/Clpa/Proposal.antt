-- ===== src/Pbft/Clpa/Proposal.antt =====
-- `HandleinPropose` of consensus_shard/pbft_all/pbftInside_moduleCLPA.go with its two waits, and
-- `HandleMessageOutsidePBFT` of pbftOutside_moduleCLPA.go, which the waits are for. Messages are handled
-- while the leader sleeps, one second after the other.
pub mod Waiting
pub mod Collecting
pub mod Ending
pub mod Progress
pub mod Rounds
use aster.Prelude.{
  ℕ, Bool, true, Option, none, some, List, [], ◌∷◌, ◌++◌, Bytes, Map, Result, ok, ◌>>=◌,
  if◌then◌else◌,
}
use aster.Prelude.Int.{ℤ}
use aster.Core.Transaction.{Transaction}
use aster.Core.Block.{BitSets, BlockCodec}
use aster.Accounts.Tries.{StateTrie, AccountCodec}
use aster.Pbft.Messages.{Request}
use aster.Pbft.Relay.{RelayMsg}
use aster.Pbft.Relay.Proposal.{handle_in_propose}
use aster.Pbft.Clpa.{
  AccountTransferMsg, PartitionReady, AccountStateAndTx, ClpaModule, clpa_handle_relay,
  clpa_handle_inject_tx, handle_partition_msg, handle_partition_ready,
  handle_account_state_and_tx_msg,
}
use aster.Pbft.Clpa.Transfer.{
  TransferOut, send_partition_ready, get_partition_ready, get_collect_over, send_accounts_and_txs,
  propose_partition,
}

-- The messages from outside, with the readings of the clock where the pool takes in transactions.
pub data ClpaMsg : Type 0 where
  relay : (ℕ → ℕ) → RelayMsg → ClpaMsg
  inject : (ℕ → ℕ) → List Transaction → ClpaMsg
  partition : Map Bytes ℕ → ClpaMsg
  account_state_and_tx : AccountStateAndTx → ClpaMsg
  partition_ready : PartitionReady → ClpaMsg

-- What `HandleinPropose` comes to: it still waits after the last arrival, or it proposes a request, with
-- what it has sent and the arrivals that are still to come.
pub data ClpaProposal (bits : BitSets) (db : Type 0) : Type 0 where
  waits : ClpaModule bits → List TransferOut → ClpaProposal bits db
  proposes :
      ClpaModule bits → db → List TransferOut → Request → List (List ClpaMsg) → ClpaProposal bits db

module _ {bits : BitSets} where
  unfoldable pub handle_message_outside : ClpaMsg → ClpaModule bits → Result (ClpaModule bits)
  unfolding clpa_handle_relay clpa_handle_inject_tx handle_partition_msg handle_partition_ready
      handle_account_state_and_tx_msg
  handle_message_outside (ClpaMsg.relay readings m) x = clpa_handle_relay readings m x
  handle_message_outside (ClpaMsg.inject readings txs) x = clpa_handle_inject_tx readings txs x
  handle_message_outside (ClpaMsg.partition m) x = ok (handle_partition_msg m x)
  handle_message_outside (ClpaMsg.account_state_and_tx at) x =
      ok (handle_account_state_and_tx_msg at x)
  handle_message_outside (ClpaMsg.partition_ready pr) x = ok (handle_partition_ready pr x)

  unfoldable pub receive_all : List ClpaMsg → ClpaModule bits → Result (ClpaModule bits)
  unfolding handle_message_outside
  receive_all [] x = ok x
  receive_all (m ∷ ms) x = do x' ← handle_message_outside m x; receive_all ms x'

  -- `for !done() { time.Sleep(time.Second) }`: whether it is over, the node, and what is still to come.
  unfoldable pub wait_for :
      (ClpaModule bits → Bool)
      → List (List ClpaMsg)
      → ClpaModule bits
      → Result (Bool × ClpaModule bits × List (List ClpaMsg))
  unfolding receive_all
  wait_for done [] x = ok (done x, x, [])
  wait_for done (now ∷ later) x =
      if done x
      then ok (true, x, now ∷ later)
      else (do x' ← receive_all now x; wait_for done later x')

  module _ (t : StateTrie) (c : AccountCodec) (init_balance : ℤ) (shard_num : ℕ)
      (codec : BlockCodec bits) (tx_tree_root : List Transaction → Bytes)
      (encode : AccountTransferMsg → Bytes) where
    -- `HandleinPropose`, with the readings of the clock for a block, for a request and for the pool.
    unfoldable pub clpa_handle_in_propose :
        ℕ
        → ℕ
        → (ℕ → ℕ)
        → List (List ClpaMsg)
        → t.Db
        → ClpaModule bits
        → Result (ClpaProposal bits t.Db)
    unfolding wait_for
    clpa_handle_in_propose now now' readings arrivals db x =
        if x.cdm.partition_on
        then (do
          let (x1, ready) = send_partition_ready x
          (all_ready, x2, later) ← wait_for get_partition_ready arrivals x1
          if all_ready
              then (do
                (x3, out) ←
                    send_accounts_and_txs t c init_balance shard_num codec tx_tree_root db x2
                (over, x4, rest) ← wait_for get_collect_over later x3
                if over
                    then (do
                      (x5, r) ← propose_partition encode readings now' x4
                      ok (ClpaProposal.proposes x5 db (ready ++ out) r rest))
                    else ok (ClpaProposal.waits x4 (ready ++ out)))
              else ok (ClpaProposal.waits x2 ready))
        else (do
          (node, db', r) ←
              handle_in_propose t c init_balance shard_num bits codec tx_tree_root now now' db
                x.pbft_node
          ok (ClpaProposal.proposes (record x { pbft_node = node }) db' [] r arrivals))
