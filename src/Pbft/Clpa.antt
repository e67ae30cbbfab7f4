-- ===== src/Pbft/Clpa.antt =====
-- The node that moves accounts: consensus_shard/pbft_all/dataSupport/clpaData_Extra.go,
-- message/message_CLPA.go and pbftOutside_moduleCLPA.go of consensus_shard/pbft_all. Transfer has the
-- messages between the leaders, accountTransfer_module.go. JSON is decoded.
pub mod Transfer
pub mod Moves
pub mod Sending
pub mod Leaving
pub mod Conservation
pub mod Arrival
pub mod Inside
pub mod Sorting
pub mod Proposal
use aster.Prelude.{
  ℕ, suc, ◌-◌, Bool, true, false, Option, none, some, List, [], ◌∷◌, ◌++◌, Bytes, Map, Result, ok,
  panic, ◌>>=◌, or_panic, nat_eq, ◌==◌, if◌then◌else◌, length, insert,
}
use aster.Core.Transaction.{Transaction}
use aster.Core.Account.{AccountState}
use aster.Core.Block.{BitSets}
use aster.Pbft.Relay.{RelayMsg, RelayModule, handle_relay, handle_inject_tx}

pub record AccountTransferMsg : Type 0 where
  pub modified_map : Map Bytes ℕ
  pub addrs : List Bytes
  pub account_state : List AccountState
  pub at_id : ℕ

pub record PartitionReady : Type 0 where
  pub from_shard : ℕ
  pub now_seq_id : ℕ

pub record AccountStateAndTx : Type 0 where
  pub addrs : List Bytes
  pub account_state : List AccountState
  pub txs : List Transaction
  pub from_shard : ℕ

-- `Data_supportCLPA`
pub record DataSupportClpa : Type 0 where
  pub modified_map : List (Map Bytes ℕ)
  pub account_transfer_round : ℕ
  pub received_new_account_state : Map Bytes AccountState
  pub received_new_tx : List Transaction
  pub account_state_tx : Map ℕ AccountStateAndTx
  pub partition_on : Bool
  pub partition_ready : Map ℕ Bool
  pub ready_seq : Map ℕ ℕ
  pub collect_over : Bool

-- `NewCLPADataSupport`
unfoldable pub new_clpa_data_support : DataSupportClpa
new_clpa_data_support = record {
  modified_map = [];
  account_transfer_round = 0;
  received_new_account_state = [];
  received_new_tx = [];
  account_state_tx = [];
  partition_on = false;
  partition_ready = [];
  ready_seq = [];
  collect_over = false;
}

-- The pointers `cdm` and `pbftNode`, which the inside and the outside module share.
pub record ClpaModule (bits : BitSets) : Type 0 where
  pub cdm : DataSupportClpa
  pub pbft_node : RelayModule bits

module _ {bits : BitSets} where
  -- `handleRelay` and `handleInjectTx`
  unfoldable pub clpa_handle_relay : (ℕ → ℕ) → RelayMsg → ClpaModule bits → Result (ClpaModule bits)
  unfolding handle_relay
  clpa_handle_relay readings m x = do
    node ← handle_relay readings m x.pbft_node
    ok (record x { pbft_node = node })

  unfoldable pub clpa_handle_inject_tx :
      (ℕ → ℕ) → List Transaction → ClpaModule bits → Result (ClpaModule bits)
  unfolding handle_inject_tx
  clpa_handle_inject_tx readings txs x = do
    node ← handle_inject_tx readings txs x.pbft_node
    ok (record x { pbft_node = node })

  unfoldable pub handle_partition_msg : Map Bytes ℕ → ClpaModule bits → ClpaModule bits
  handle_partition_msg partition_modified x =
      let cdm = x.cdm in
      record x {
        cdm = record cdm {
          modified_map = cdm.modified_map ++ partition_modified ∷ [];
          partition_on = true;
        };
      }

  unfoldable pub handle_partition_ready : PartitionReady → ClpaModule bits → ClpaModule bits
  handle_partition_ready pr x =
      let cdm = x.cdm in
      record x {
        cdm = record cdm {
          partition_ready = insert pr.from_shard true cdm.partition_ready;
          ready_seq = insert pr.from_shard pr.now_seq_id cdm.ready_seq;
        };
      }

  unfoldable pub handle_account_state_and_tx_msg :
      AccountStateAndTx → ClpaModule bits → ClpaModule bits
  handle_account_state_and_tx_msg at x =
      let cdm = x.cdm in
      let pool = insert at.from_shard at cdm.account_state_tx in
      let over = if suc (length pool) == x.pbft_node.shard_nums then true else cdm.collect_over in
      record x { cdm = record cdm { account_state_tx = pool; collect_over = over } }
