-- ===== src/Tests/Samples.antt =====
-- The values that the tests share: addresses, transactions, a state trie as an association list.
use aster.Prelude.{
  ℕ, ◌≡◌, refl, ap, sym, false, none, some, List, [], ◌∷◌, Bytes, Map, lookup, insert, bytes_eq,
  lookup-insert_self, lookup-insert_ne, arith, All, true,
}
use aster.Prelude.Int.{ℤ, pos}
use aster.Core.Transaction.{Transaction}
use aster.Core.Block.{BlockHeader, Block}
use aster.Storage.{Storage}
use aster.Accounts.Tries.{StateTrie}
use aster.Accounts.{account_at, new_account}
use aster.Accounts.Reads.{Ledger, Reads}
use aster.SubMpt.Routing.{IsRoutable}
use aster.SubMpt.Follower.{FollowerNode}
use aster.SubMpt.Follower.Batch.{Holds}
use aster.Tests.Sets.{set_of_bits}
use aster.Tests.Encodings.{account_codec}

-- The texts "0" and "1".
abbrev pub alice : Bytes
alice = 48 ∷ []

abbrev pub bob : Bytes
bob = 49 ∷ []

abbrev pub payment : ℕ → Bytes → Bytes → ℤ → Transaction
payment h from to v = record {
  id = pos 0;
  sender = from;
  recipient = to;
  nonce = 0;
  signature = [];
  value = v;
  tx_hash = h ∷ [];
  time = 1;
  allocate_time = 0;
  execution_time = 0;
  relayed = false;
  has_broker = false;
  sender_is_broker = false;
  original_sender = [];
  final_recipient = [];
  raw_tx_hash = [];
}

-- From "0" to "1", and back.
abbrev pub there : Transaction
there = payment 7 alice bob (pos 5)

abbrev pub back : Transaction
back = payment 8 bob alice (pos 2)

abbrev pub two : List Transaction
two = there ∷ back ∷ []

pub there-IsRoutable : IsRoutable 2 there
there-IsRoutable = record {
  followers = ground arith;
  sender = ground arith;
  recipient = ground arith;
}

pub back-IsRoutable : IsRoutable 2 back
back-IsRoutable = record {
  followers = ground arith;
  sender = ground arith;
  recipient = ground arith;
}

pub two-IsRoutable : All (IsRoutable 2) two
two-IsRoutable = (there-IsRoutable, (back-IsRoutable, tt))

pub never : (true ≡ false) → ⊥
never h = absurd (ground (arith, h))

-- The database holds the one committed trie; every root names it.
abbrev pub tries : StateTrie
tries = record {
  Trie = Map Bytes Bytes;
  Db = Map Bytes Bytes;
  open_trie = λ root d. some d;
  get = λ t k. lookup k t;
  update = λ t k v. insert k v t;
  has_nodes = λ t. true;
  has_nodes-update = λ t k v ne h. absurd (never h);
  commit = λ t d. (1 ∷ [], t);
  get-update_self = λ t k v h. lookup-insert_self k v t;
  get-update_ne = λ t j k v h. lookup-insert_ne k j v t h;
  open_trie-commit = λ t d written. (t, refl, λ k. refl);
  hold = λ t d. (1 ∷ [], t);
  commit_root = λ root d. some d;
  open_trie-hold = λ t d d' root written h.
      (d', refl, λ k. ap (λ o. elim o [ none ↦ none | some m ↦ lookup k m ]) (sym h));
}

abbrev pub flat : Ledger
flat k = pos 100

pub flat-Reads : Reads tries account_codec (pos 100) [] flat
unfolding Reads account_at new_account lookup
flat-Reads = λ k nonce. (new_account tries account_codec (pos 100) nonce, refl, refl)

-- Follower `id` of two, with no account made yet.
abbrev pub follower : ℕ → FollowerNode tries
follower id = record {
  follower_id = id;
  follower_num = 2;
  state_root = [];
  triedb = [];
  stop = false;
}

pub follower-Holds : (id : ℕ) → Holds tries account_codec (pos 100) (follower id) flat
follower-Holds id = ([], refl, flat-Reads)

abbrev pub header_at : ℕ → Bytes → BlockHeader set_of_bits
header_at n parent = record {
  parent_block_hash = parent;
  state_root = [];
  tx_root = [];
  bloom_filter = [];
  number = n;
  time = 0;
  miner = 0;
}

-- A block of height `n` with hash `h` on the block with hash `parent`.
abbrev pub block_on : ℕ → Bytes → Bytes → Block set_of_bits
block_on n h parent = record { header = header_at n parent; body = []; hash = h }

abbrev pub genesis : Block set_of_bits
genesis = block_on 0 (9 ∷ []) []

abbrev pub no_blocks : Storage
no_blocks = record { block_bucket = []; block_header_bucket = []; newest_block_hash = none }
