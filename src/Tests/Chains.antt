-- ===== src/Tests/Chains.antt =====
-- The chain on its first blocks.
use aster.Prelude.{
  ◌-◌, ◌≡◌, refl, true, false, none, some, [], ◌∷◌, Bytes, Map, ok, arith, nat_eq, bytes_eq, ◌==◌,
  if◌then◌else◌, lookup, beq_refl, bytes_beq,
}
use aster.Core.Block.{Block}
use aster.Storage as Store
use aster.Storage.{Storage, add_block_lem}
use aster.Chain.{BlockChain, add_block, wins, judge_fork_valid_roll_back}
use aster.Chain.Growth.{IsNext, Linked, IsLinked, add_block-IsLinked}
use aster.Chain.Rollback.{IsBelow, IsOn, judge_fork_valid_roll_back_lem}
use aster.Tests.Sets.{set_of_bits}
use aster.Tests.Encodings.{block_codec}
use aster.Tests.Samples.{genesis, no_blocks, block_on}

abbrev pub chain : BlockChain set_of_bits
chain = record {
  current_block = genesis;
  storage = Store.added set_of_bits block_codec genesis no_blocks;
  partition_map = [];
  precessed_txpool = record { tx_queue = []; relay_pool = none };
  shard_id = 0;
  block_size = 10;
}

genesis_stored :
    Store.get_block set_of_bits block_codec genesis.hash chain.storage ≡ ok (some genesis)
genesis_stored = rw (
  Store.get_block-added set_of_bits block_codec genesis no_blocks genesis.hash,
  beq_refl genesis.hash,
)

pub chain-IsLinked : IsLinked set_of_bits block_codec chain
unfolding Linked
chain-IsLinked = record { stored = genesis_stored; linked = (genesis, genesis_stored, refl, refl) }

-- A hash other than the genesis block's is not in the store.
pub not_stored :
    (h : Bytes)
    → (h == genesis.hash) ≡ false
    → Store.get_block set_of_bits block_codec h chain.storage ≡ ok none
not_stored h e =
    rw (Store.get_block-added set_of_bits block_codec genesis no_blocks h, e)
      (unfold Store.get_block lookup in refl)

abbrev pub first : Block set_of_bits
first = block_on 1 (4 ∷ []) (9 ∷ [])

add_block_example :
    (s' : Storage) × (Store.add_block set_of_bits block_codec first chain.storage ≡ ok s')
    × (Store.get_block set_of_bits block_codec first.hash s' ≡ (
        if first.hash == first.hash
        then ok (some first)
        else Store.get_block set_of_bits block_codec first.hash chain.storage))
    × (Store.get_block_header set_of_bits block_codec first.hash s' ≡ (
        if first.hash == first.hash
        then ok (some first.header)
        else Store.get_block_header set_of_bits block_codec first.hash chain.storage))
    × (Store.get_newest_block_hash s' ≡ some first.hash)
add_block_example =
    add_block_lem set_of_bits block_codec first chain.storage first.hash (ground arith)

pub first-IsNext : IsNext set_of_bits block_codec first chain
first-IsNext = record { height = refl; parent = refl }

pub not_genesis : (4 ∷ [] == genesis.hash) ≡ false
unfolding bytes_beq
not_genesis = refl

add_block-IsLinked_example :
    (bc' : BlockChain set_of_bits) × (add_block set_of_bits block_codec (some first) chain
      ≡ ok (bc', true))
    × (bc'.current_block ≡ first)
    × IsLinked set_of_bits block_codec bc'
add_block-IsLinked_example =
    add_block-IsLinked set_of_bits block_codec first chain first-IsNext (ground arith)
      (not_stored (4 ∷ []) not_genesis) (omega arith) chain-IsLinked

-- The chain after the first block.
abbrev longer : BlockChain set_of_bits
longer = record chain {
  current_block = first;
  storage = Store.added set_of_bits block_codec first chain.storage;
}

not_first : (genesis.hash == first.hash) ≡ false
unfolding bytes_beq
not_first = refl

genesis_kept :
    Store.get_block set_of_bits block_codec genesis.hash longer.storage ≡ ok (some genesis)
genesis_kept =
    rw (Store.get_block-added set_of_bits block_codec first chain.storage genesis.hash, not_first)
      genesis_stored

first_stored : Store.get_block set_of_bits block_codec first.hash longer.storage ≡ ok (some first)
first_stored = rw (
  Store.get_block-added set_of_bits block_codec first chain.storage first.hash,
  beq_refl first.hash,
)

longer-IsLinked : IsLinked set_of_bits block_codec longer
unfolding Linked
longer-IsLinked = record {
  stored = first_stored;
  linked = (first, first_stored, refl, refl, (genesis, genesis_kept, refl, refl));
}

-- Another block on the first one's parent, with a smaller hash.
abbrev rival : Block set_of_bits
rival = block_on 1 (3 ∷ []) (9 ∷ [])

judge_fork_valid_roll_back_example :
    (old : Block set_of_bits) × (below : Block set_of_bits) × IsOn set_of_bits block_codec
      longer.storage 1 old below
    × IsBelow set_of_bits block_codec longer.storage old
        (longer.current_block.header.number - 1)
        longer.current_block.hash
    × (judge_fork_valid_roll_back set_of_bits block_codec rival longer ≡ (
        if wins set_of_bits block_codec rival old
        then ok (
          record longer {
            current_block = rival;
            storage = Store.added set_of_bits block_codec rival longer.storage;
          },
          true,
        )
        else ok (longer, false)))
judge_fork_valid_roll_back_example =
    judge_fork_valid_roll_back_lem set_of_bits block_codec rival longer longer-IsLinked
      (omega arith) (omega arith) (omega arith) (ground arith)

abbrev blocks : Map Bytes (Block set_of_bits)
blocks = (4 ∷ [], first) ∷ (9 ∷ [], genesis) ∷ []
