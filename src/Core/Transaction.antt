-- ===== src/Core/Transaction.antt =====
-- core/transaction.go: the transaction and its two constructors. A time is a number of ticks, with
-- 0 for Go's zero time; gob encoding and SHA-256 are parameters.
use aster.Prelude.{ℕ, [], Bool, false, Bytes}
use aster.Prelude.Int.{ℤ, pos}

pub record Transaction : Type 0 where
  pub id : ℤ
  pub sender : Bytes
  pub recipient : Bytes
  pub nonce : ℕ
  pub signature : Bytes
  pub value : ℤ
  pub tx_hash : Bytes
  pub time : ℕ
  pub allocate_time : ℕ
  pub execution_time : ℕ
  pub relayed : Bool
  pub has_broker : Bool
  pub sender_is_broker : Bool
  pub original_sender : Bytes
  pub final_recipient : Bytes
  pub raw_tx_hash : Bytes

-- The literal that both constructors begin with.
unfoldable pub unsigned : Bytes → Bytes → ℤ → ℕ → ℕ → Transaction
unsigned sender recipient value nonce time = record {
  id = pos 0;
  sender = sender;
  recipient = recipient;
  nonce = nonce;
  signature = [];
  value = value;
  tx_hash = [];
  time = time;
  allocate_time = 0;
  execution_time = 0;
  relayed = false;
  has_broker = false;
  sender_is_broker = false;
  original_sender = [];
  final_recipient = [];
  raw_tx_hash = [];
}

module _ (sha256 : Bytes → Bytes) (encode_tx : Transaction → Bytes) where
  -- `NewTransaction4`; `NewTransaction` is the same at the time of the call.
  unfoldable pub new_transaction4 : Bytes → Bytes → ℤ → ℕ → ℕ → Transaction
  unfolding unsigned
  new_transaction4 sender recipient value nonce propose_time =
      let tx = unsigned sender recipient value nonce propose_time in
      record tx {
        tx_hash = sha256 (encode_tx tx);
        relayed = false;
        final_recipient = [];
        original_sender = [];
        raw_tx_hash = [];
        has_broker = false;
        sender_is_broker = false;
      }

  unfoldable pub new_transaction : ℕ → Bytes → Bytes → ℤ → ℕ → Transaction
  unfolding unsigned
  new_transaction now sender recipient value nonce =
      let tx = unsigned sender recipient value nonce now in
      record tx {
        tx_hash = sha256 (encode_tx tx);
        relayed = false;
        final_recipient = [];
        original_sender = [];
        raw_tx_hash = [];
        has_broker = false;
        sender_is_broker = false;
      }
