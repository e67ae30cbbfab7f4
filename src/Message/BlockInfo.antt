-- ===== src/Message/BlockInfo.antt =====
-- message/message.go: `BlockInfoMsg`, which a shard's leader sends for each block.
use aster.Prelude.{ℕ, List}
use aster.Prelude.Int.{ℤ}
use aster.Core.Transaction.{Transaction}

pub record BlockInfoMsg : Type 0 where
  pub block_body_length : ℤ
  pub excuted_txs : List Transaction
  pub epoch : ℤ
  pub propose_time : ℕ
  pub commit_time : ℕ
  pub sender_shard_id : ℕ
  pub relay1_tx_num : ℕ
  pub relay1_txs : List Transaction
  pub broker1_tx_num : ℕ
  pub broker1_txs : List Transaction
  pub broker2_tx_num : ℕ
  pub broker2_txs : List Transaction
