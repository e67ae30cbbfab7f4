-- ===== src/SubMpt/Messages.antt =====
-- message/message_subMPT.go: the messages between a proposer and its followers. A message is
-- modelled after its JSON is decoded, so every transaction in it is an object of its own.
use aster.Prelude.{ℕ, List, Bytes}
use aster.Core.Account.{AccountState}
use aster.Core.Transaction.{Transaction}

pub record AllocateTxMsgs : Type 0 where
  pub txs : List Transaction
  pub proposer_id : ℕ
  pub follower_id : ℕ
  pub epoch_id : ℕ

pub record PrecessedTxMsgs : Type 0 where
  pub txs : List Transaction
  pub tx_hashs : List Bytes
  pub proofs : Bytes
  pub follower_id : ℕ
  pub epoch_id : ℕ
  pub state_root : Bytes

pub record FollowerJoinMsgs : Type 0 where
  pub ip_port : Bytes

pub record RequestDataMsgs : Type 0 where
  pub keys : List Bytes

pub record ResponseDataMsgs : Type 0 where
  pub fid : ℕ
  pub keys : List Bytes
  pub value : List AccountState

pub record ReadyMsgs : Type 0 where
  pub fid : ℕ

pub record AllocateDataMsgs : Type 0 where
  pub keys : List Bytes
  pub value : List AccountState

pub record AllocFidMsgs : Type 0 where
  pub fid : ℕ

pub record ExecuteTimeMsg : Type 0 where
  pub follower_id : ℕ
  pub txs : ℕ
  pub microseconds : ℕ

-- What a follower sends to its proposer.
pub data FollowerMsg : Type 0 where
  execute_time : ExecuteTimeMsg → FollowerMsg
  precessed : PrecessedTxMsgs → FollowerMsg
  response_data : ResponseDataMsgs → FollowerMsg
  ready : ReadyMsgs → FollowerMsg
