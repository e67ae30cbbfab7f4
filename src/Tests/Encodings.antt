-- ===== src/Tests/Encodings.antt =====
-- Encodings for the tests: concrete functions in place of gob's, for accounts, transactions, headers
-- and blocks.
use aster.Prelude.{
  ℕ, ◌+◌, ◌≡◌, ◌≢◌, refl, sym, ◌∙◌, ap, Bool, Option, none, some, List, [], ◌∷◌, append-nil, Bytes,
  arith,
}
use aster.Prelude.Int.{ℤ}
use aster.Core.Account.{AccountState}
use aster.Core.Transaction.{Transaction}
use aster.Core.Block.{BlockHeader, Block, BlockCodec}
use aster.Accounts.Tries.{AccountCodec}
use aster.Tests.Sets.{set_of_bits}
use aster.Tests.Codecs.{Codec, nat, via, both, list, bytes, bool, int}

account_of : Bytes × (ℕ × (ℤ × (Bytes × Bytes))) → AccountState
account_of p = record {
  ac_address = p.0;
  nonce = p.1.0;
  balance = p.1.1.0;
  storage_root = p.1.1.1.0;
  code_hash = p.1.1.1.1;
}

of_account : AccountState → Bytes × (ℕ × (ℤ × (Bytes × Bytes)))
of_account x = (x.ac_address, (x.nonce, (x.balance, (x.storage_root, x.code_hash))))

account_of-of_account : (x : AccountState) → account_of (of_account x) ≡ x
unfolding account_of of_account
account_of-of_account x = refl

account : Codec (AccountState)
account =
    via account_of of_account account_of-of_account
      (both bytes (both nat (both int (both bytes bytes))))

transaction_of :
    ℤ
      × (Bytes
          × (Bytes
              × (ℕ
                  × (Bytes
                      × (ℤ
                          × (Bytes
                              × (ℕ
                                  × (ℕ
                                      × (ℕ
                                          × (Bool
                                              × (Bool
                                                  × (Bool × (Bytes × (Bytes × Bytes))))))))))))))
    → Transaction
transaction_of p = record {
  id = p.0;
  sender = p.1.0;
  recipient = p.1.1.0;
  nonce = p.1.1.1.0;
  signature = p.1.1.1.1.0;
  value = p.1.1.1.1.1.0;
  tx_hash = p.1.1.1.1.1.1.0;
  time = p.1.1.1.1.1.1.1.0;
  allocate_time = p.1.1.1.1.1.1.1.1.0;
  execution_time = p.1.1.1.1.1.1.1.1.1.0;
  relayed = p.1.1.1.1.1.1.1.1.1.1.0;
  has_broker = p.1.1.1.1.1.1.1.1.1.1.1.0;
  sender_is_broker = p.1.1.1.1.1.1.1.1.1.1.1.1.0;
  original_sender = p.1.1.1.1.1.1.1.1.1.1.1.1.1.0;
  final_recipient = p.1.1.1.1.1.1.1.1.1.1.1.1.1.1.0;
  raw_tx_hash = p.1.1.1.1.1.1.1.1.1.1.1.1.1.1.1;
}

of_transaction :
    Transaction
    → ℤ
      × (Bytes
          × (Bytes
              × (ℕ
                  × (Bytes
                      × (ℤ
                          × (Bytes
                              × (ℕ
                                  × (ℕ
                                      × (ℕ
                                          × (Bool
                                              × (Bool
                                                  × (Bool × (Bytes × (Bytes × Bytes))))))))))))))
of_transaction x = (
  x.id,
  (
    x.sender,
    (
      x.recipient,
      (
        x.nonce,
        (
          x.signature,
          (
            x.value,
            (
              x.tx_hash,
              (
                x.time,
                (
                  x.allocate_time,
                  (
                    x.execution_time,
                    (
                      x.relayed,
                      (
                        x.has_broker,
                        (
                          x.sender_is_broker,
                          (x.original_sender, (x.final_recipient, x.raw_tx_hash)),
                        ),
                      ),
                    ),
                  ),
                ),
              ),
            ),
          ),
        ),
      ),
    ),
  ),
)

transaction_of-of_transaction : (x : Transaction) → transaction_of (of_transaction x) ≡ x
unfolding transaction_of of_transaction
transaction_of-of_transaction x = refl

transaction : Codec (Transaction)
transaction = via transaction_of of_transaction transaction_of-of_transaction (
    both int (
      both bytes (
        both bytes (
          both nat (
            both bytes (
              both int (
                both bytes (
                  both nat (
                    both nat (
                      both nat (
                        both bool (both bool (both bool (both bytes (both bytes bytes)))))))))))))))

header_of : Bytes × (Bytes × (Bytes × (List ℕ × (ℕ × (ℕ × ℕ))))) → BlockHeader set_of_bits
header_of p = record {
  parent_block_hash = p.0;
  state_root = p.1.0;
  tx_root = p.1.1.0;
  bloom_filter = p.1.1.1.0;
  number = p.1.1.1.1.0;
  time = p.1.1.1.1.1.0;
  miner = p.1.1.1.1.1.1;
}

of_header : BlockHeader set_of_bits → Bytes × (Bytes × (Bytes × (List ℕ × (ℕ × (ℕ × ℕ)))))
of_header x = (
  x.parent_block_hash,
  (x.state_root, (x.tx_root, (x.bloom_filter, (x.number, (x.time, x.miner))))),
)

header_of-of_header : (x : BlockHeader set_of_bits) → header_of (of_header x) ≡ x
unfolding header_of of_header
header_of-of_header x = refl

header : Codec (BlockHeader set_of_bits)
header =
    via header_of of_header header_of-of_header
      (both bytes (both bytes (both bytes (both (list nat) (both nat (both nat nat))))))

block_of : BlockHeader set_of_bits × (List Transaction × Bytes) → Block set_of_bits
block_of p = record { header = p.0; body = p.1.0; hash = p.1.1 }

of_block : Block set_of_bits → BlockHeader set_of_bits × (List Transaction × Bytes)
of_block x = (x.header, (x.body, x.hash))

block_of-of_block : (x : Block set_of_bits) → block_of (of_block x) ≡ x
unfolding block_of of_block
block_of-of_block x = refl

block : Codec (Block set_of_bits)
block = via block_of of_block block_of-of_block (both header (both (list transaction) bytes))

-- A text that was read to its end.
whole : {A : Type 0} → Option (A × Bytes) → Option A
whole none = none
whole (some (a, rest)) = some a

decode : {A : Type 0} → Codec A → Bytes → Option A
unfolding whole
decode c bs = whole (c.read bs)

decode-write : {A : Type 0} (c : Codec A) (a : A) → decode c (c.write a) ≡ some a
unfolding decode whole
decode-write c a =
    ap (λ bs. whole (c.read bs)) (sym (append-nil (c.write a))) ∙ ap whole (c.read-write a [])

-- A byte before the text keeps an encoding from being empty.
cons_nonempty : (n : ℕ) (bs : Bytes) → n ∷ bs ≢ []
cons_nonempty n bs = ground arith

decode_account : Bytes → Option AccountState
decode_account [] = none
decode_account (n ∷ bs) = decode account bs

decode_account-write : (a : AccountState) → decode_account (0 ∷ account.write a) ≡ some a
unfolding decode_account
decode_account-write a = decode-write account a

pub account_codec : AccountCodec
account_codec = record {
  encode = λ a. 0 ∷ account.write a;
  decode = decode_account;
  decode-encode = decode_account-write;
  encode-ne-nil = λ a. cons_nonempty 0 (account.write a);
}

-- The hash of a header is made of its height and its parent's hash.
hash_of : BlockHeader set_of_bits → Bytes
hash_of h = (h.number + 1) ∷ h.parent_block_hash

pub block_codec : BlockCodec set_of_bits
block_codec = record {
  encode_block = block.write;
  decode_block = decode block;
  encode_header = header.write;
  decode_header = decode header;
  hash_header = hash_of;
  decode_block-encode_block = decode-write block;
  decode_header-encode_header = decode-write header;
}

pub hash_header-block_codec :
    (h : BlockHeader set_of_bits) → block_codec.hash_header h ≡ (h.number + 1) ∷ h.parent_block_hash
unfolding block_codec hash_of
hash_header-block_codec h = refl
