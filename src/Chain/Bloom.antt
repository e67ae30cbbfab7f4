-- ===== src/Chain/Bloom.antt =====
-- The Bloom filter of a block of package `chain`.
use aster.Prelude.{ℕ, ◌≡◌, ◌||◌, List, [], ◌∷◌, map, nat_eq, contains, arith}
use aster.Core.Transaction.{Transaction}
use aster.Core.Block.{BitSets}
use aster.Utils.{mod_bytes}
use aster.Chain.{set_all, get_bloom_filter}

module _ (bits : BitSets) where
  -- The bits of the transactions' hashes.
  abbrev pub hash_bits : List Transaction → List ℕ
  hash_bits = map (λ tx. mod_bytes tx.tx_hash 2048)

  test-set_all :
      (bs : bits.BitSet) (txs : List Transaction) (i : ℕ)
      → bits.test (set_all bits bs txs) i ≡ (bits.test bs i || contains (hash_bits txs) i)
  unfolding set_all contains
  test-set_all bs [] i = ground arith
  test-set_all bs (tx ∷ txs) i =
      let j = mod_bytes tx.tx_hash 2048 in
      ground (arith, test-set_all (bits.set bs j) txs i, bits.test-set bs j i)

  -- The filter of a block holds the bit of each of its transactions' hashes, and no other bit.
  pub test-get_bloom_filter :
      (txs : List Transaction) (i : ℕ)
      → bits.test (get_bloom_filter bits txs) i ≡ contains (hash_bits txs) i
  unfolding get_bloom_filter
  test-get_bloom_filter txs i =
      ground (arith, test-set_all (bits.new 2048) txs i, bits.test-new 2048 i)
