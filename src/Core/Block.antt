-- ===== src/Core/Block.antt =====
-- core/block.go: headers and blocks. The Bloom filter's bitset is a third-party package: a
-- parameter with the behaviour of `New`, `Set` and `Test`; so are gob encoding and SHA-256.
use aster.Prelude.{
  ℕ, ◌≡◌, Bool, true, false, Option, some, List, [], Bytes, nat_eq, ◌==◌, if◌then◌else◌,
}
use aster.Core.Transaction.{Transaction}

pub record BitSets : Type 1 where
  pub BitSet : Type 0
  pub new : ℕ → BitSet
  pub set : BitSet → ℕ → BitSet
  pub test : BitSet → ℕ → Bool
  pub test-new : (n i : ℕ) → test (new n) i ≡ false
  pub test-set : (b : BitSet) (i j : ℕ) → test (set b i) j ≡ (if j == i then true else test b j)

pub record BlockHeader (bits : BitSets) : Type 0 where
  pub parent_block_hash : Bytes
  pub state_root : Bytes
  pub tx_root : Bytes
  pub bloom_filter : bits.BitSet
  pub number : ℕ
  pub time : ℕ
  pub miner : ℕ

pub record Block (bits : BitSets) : Type 0 where
  pub header : BlockHeader bits
  pub body : List Transaction
  pub hash : Bytes

-- `NewBlock`
unfoldable pub new_block : (bits : BitSets) → BlockHeader bits → List Transaction → Block bits
new_block bits bh bb = record { header = bh; body = bb; hash = [] }

-- `Encode`, `DecodeB` and `Hash`.
pub record BlockCodec (bits : BitSets) : Type 0 where
  pub encode_block : Block bits → Bytes
  pub decode_block : Bytes → Option (Block bits)
  pub encode_header : BlockHeader bits → Bytes
  pub decode_header : Bytes → Option (BlockHeader bits)
  pub hash_header : BlockHeader bits → Bytes
  pub decode_block-encode_block : (b : Block bits) → decode_block (encode_block b) ≡ some b
  pub decode_header-encode_header :
      (h : BlockHeader bits) → decode_header (encode_header h) ≡ some h
