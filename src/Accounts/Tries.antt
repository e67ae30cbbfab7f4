-- ===== src/Accounts/Tries.antt =====
-- What consensus_shard/subMPT and chain use of package `trie` (a copy of go-ethereum's trie) and
-- of the gob encoding of an account: parameters, with the documented behaviour that is relied on.
use aster.Prelude.{◌≡◌, ◌≢◌, Bool, true, false, Option, some, [], Bytes}
use aster.Core.Account.{AccountState}

pub record StateTrie : Type 1 where
  pub Trie : Type 0
  -- The trie database over the key-value store.
  pub Db : Type 0
  -- `trie.New(trie.TrieID(root), triedb)`, with `none` for an error.
  pub open_trie : Bytes → Db → Option Trie
  pub get : Trie → Bytes → Option Bytes
  pub update : Trie → Bytes → Bytes → Trie
  -- Whether `st.Commit` gives a set of nodes and not nil, which it gives for a trie that is clean: not
  -- empty, and not changed since it was opened. A write that changes nothing leaves a trie clean.
  pub has_nodes : Trie → Bool
  -- `st.Commit`, `triedb.Update` and `triedb.Commit` for a trie with nodes: the new root and database.
  pub commit : Trie → Db → Bytes × Db
  pub get-update_self : (t : Trie) (k v : Bytes) → v ≢ [] → get (update t k v) k ≡ some v
  pub get-update_ne : (t : Trie) (j k v : Bytes) → j ≢ k → get (update t k v) j ≡ get t j
  pub has_nodes-update :
      (t : Trie) (k v : Bytes)
      → v ≢ []
      → has_nodes (update t k v) ≡ false
      → (has_nodes t ≡ false) × (get t k ≡ some v)
  pub open_trie-commit :
      (t : Trie) (d : Db)
      → has_nodes t ≡ true
      → (t' : Trie) × (open_trie (commit t d).0 (commit t d).1 ≡ some t')
        × ((k : Bytes) → get t' k ≡ get t k)
  -- `st.Commit` and `triedb.Update` alone, and `triedb.Commit` of a root, with `none` for an error.
  pub hold : Trie → Db → Bytes × Db
  pub commit_root : Bytes → Db → Option Db
  pub open_trie-hold :
      (t : Trie) (d d' : Db) (root : Bytes)
      → has_nodes t ≡ true
      → commit_root root (hold t d).1 ≡ some d'
      → (t' : Trie) × (open_trie (hold t d).0 d' ≡ some t') × ((k : Bytes) → get t' k ≡ get t k)

-- `AccountState.Encode` and `DecodeAS`.
pub record AccountCodec : Type 0 where
  pub encode : AccountState → Bytes
  pub decode : Bytes → Option AccountState
  pub decode-encode : (a : AccountState) → decode (encode a) ≡ some a
  pub encode-ne-nil : (a : AccountState) → encode a ≢ []
