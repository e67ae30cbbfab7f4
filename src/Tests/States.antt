-- ===== src/Tests/States.antt =====
-- The update of the state trie by a block of package `chain`.
use aster.Prelude.{
  ℕ, ◌≡◌, refl, false, not, ◌&&◌, ◌||◌, List, [], ◌∷◌, Bytes, Map, ok, nat_eq, bytes_eq, ◌==◌,
  lookup, bytes_beq,
}
use aster.Prelude.Int.{pos}
use aster.Chain.{BlockChain, get_partition_map}
use aster.Chain.Status.{
  get_update_status_trie, update_tx, ArePlaced, settled, update_tx_lem, get_update_status_trie_lem,
}
use aster.Accounts.Reads.{Reads}
use aster.Tests.Sets.{set_of_bits}
use aster.Tests.Encodings.{account_codec}
use aster.Tests.Chains.{chain}
use aster.Tests.Samples.{alice, bob, there, back, two, tries, flat, flat-Reads}

-- Both addresses are mapped to a shard.
abbrev pub shards : Map Bytes ℕ
shards = (alice, 0) ∷ (bob, 1) ∷ []

pub alice_shard : get_partition_map 2 shards alice ≡ ok 0
unfolding get_partition_map lookup bytes_beq
alice_shard = refl

pub bob_shard : get_partition_map 2 shards bob ≡ ok 1
unfolding get_partition_map lookup bytes_beq
bob_shard = refl

abbrev pub there_placed : ArePlaced tries account_codec (pos 100) 2 shards there
there_placed = record { sender = (0, alice_shard); recipient = (1, bob_shard) }

abbrev pub back_placed : ArePlaced tries account_codec (pos 100) 2 shards back
back_placed = record { sender = (1, bob_shard); recipient = (0, alice_shard) }

update_tx_example :
    (st' : List (Bytes × Bytes)) × (update_tx tries account_codec (pos 100) 2 0 shards 0 [] there
      ≡ ok st')
    × Reads tries account_codec (pos 100) st' (
        settled tries account_codec
          (pos 100)
          2
          (not false && (◌==◌ {K = ℕ} 0 0 || false))
          (◌==◌ {K = ℕ} 1 0 || false)
          flat
          there)
update_tx_example =
    update_tx_lem tries account_codec (pos 100) 2 0 shards 0 [] flat there there_placed flat-Reads

abbrev placed_chain : BlockChain set_of_bits
placed_chain = record chain { partition_map = shards }

get_update_status_trie_example :
    get_update_status_trie tries account_codec (pos 100) 2 two [] placed_chain ≡ ok ([], [])
get_update_status_trie_example =
    get_update_status_trie_lem tries account_codec (pos 100) 2 two [] placed_chain [] flat refl
      flat-Reads (there_placed, (back_placed, tt))
