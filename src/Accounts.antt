-- ===== src/Accounts.antt =====
-- How consensus_shard/subMPT/follower.go and package `chain` read and write an account of the state
-- trie; the code is the same in all places.
pub mod Tries
pub mod Reads
pub mod Changes
use aster.Prelude.{
  ℕ, Bool, Option, none, some, List, [], Bytes, Result, ok, panic, ◌>>=◌, or_panic, if◌then◌else◌,
}
use aster.Prelude.Int.{ℤ, ltb_ℤ}
use aster.Core.Account.{AccountState, deduct, deposit}
use aster.Core.Transaction.{Transaction}
use aster.Accounts.Tries.{StateTrie, AccountCodec}

-- `trie.NewWithNodeSet(ns)` panics on the nil that `st.Commit` gives for a clean trie.
unfoldable pub commit_trie : (t : StateTrie) → t.Trie → t.Db → Result (Bytes × t.Db)
commit_trie t st db = if t.has_nodes st then ok (t.commit st db) else panic

module _ (t : StateTrie) (c : AccountCodec) (init_balance : ℤ) where
  -- A missing account is made on the spot, with the initial balance.
  unfoldable pub new_account : ℕ → AccountState
  new_account nonce = record {
    ac_address = [];
    nonce = nonce;
    balance = init_balance;
    storage_root = [];
    code_hash = [];
  }

  unfoldable pub account_at : t.Trie → Bytes → ℕ → Result AccountState
  unfolding new_account
  account_at st key nonce = elim (t.get st key) [
    | none ↦ ok (new_account nonce)
    | some enc ↦ or_panic (c.decode enc)
  ]

  -- The sender's half of a transfer; `none` is the `continue` on a balance that is too low.
  unfoldable pub charge_sender : ℕ → t.Trie → Transaction → Result (Option t.Trie)
  charge_sender i st tx = do
    s_state ← account_at st tx.sender i
    if ltb_ℤ s_state.balance tx.value
        then ok none
        else ok (some (t.update st tx.sender (c.encode (deduct s_state tx.value).0)))

  unfoldable pub credit_recipient : ℕ → t.Trie → Transaction → Result t.Trie
  credit_recipient i st tx = do
    r_state ← account_at st tx.recipient i
    ok (t.update st tx.recipient (c.encode (deposit r_state tx.value)))
