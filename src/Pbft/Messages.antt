-- ===== src/Pbft/Messages.antt =====
-- The consensus messages of message/message.go, after their JSON is decoded. A node is its number.
use aster.Prelude.{ℕ, List, Bytes}

pub record Request : Type 0 where
  pub request_type : Bytes
  pub content : Bytes
  pub req_time : ℕ

pub record PrePrepare : Type 0 where
  pub request_msg : Request
  pub digest : Bytes
  pub seq_id : ℕ

pub record Prepare : Type 0 where
  pub digest : Bytes
  pub seq_id : ℕ
  pub sender_node : ℕ

pub record Commit : Type 0 where
  pub digest : Bytes
  pub seq_id : ℕ
  pub sender_node : ℕ

pub record RequestOldMessage : Type 0 where
  pub seq_start_height : ℕ
  pub seq_end_height : ℕ
  pub server_node : ℕ
  pub sender_node : ℕ

pub record SendOldMessage : Type 0 where
  pub seq_start_height : ℕ
  pub seq_end_height : ℕ
  pub old_request : List Request
  pub sender_node : ℕ

pub data PbftMsg : Type 0 where
  pre_prepare : PrePrepare → PbftMsg
  prepare : Prepare → PbftMsg
  commit : Commit → PbftMsg
  request_old : RequestOldMessage → PbftMsg
  send_old : SendOldMessage → PbftMsg

-- What a node does next: a round of its proposing loop, or a message that has come.
pub data Event : Type 0 where
  propose : Event
  message : PbftMsg → Event
