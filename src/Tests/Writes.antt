-- ===== src/Tests/Writes.antt =====
-- A state trie that keeps whether a write has changed it, and a follower whose stored state has one
-- account.
use aster.Prelude.{
  ℕ, ◌≡◌, ◌≢◌, refl, ap, sym, ◌∙◌, Bool, true, false, not, ◌||◌, none, some, [], ◌∷◌, Bytes,
  bytes_eq, ◌==◌, Map, lookup, insert, lookup-insert_self, lookup-insert_ne, Option-cases,
  Bool-cases, if◌then◌else◌, ok, panic, inl, inr, arith, bytes_beq, eq_of_beq,
}
use aster.Prelude.Int.{pos, ◌+ℤ◌, ◌-ℤ◌}
use aster.Core.Account.{AccountState}
use aster.Accounts.Tries.{StateTrie}
use aster.Accounts.{account_at, new_account}
use aster.Accounts.Reads.{Reads}
use aster.SubMpt.Messages.{AllocateTxMsgs}
use aster.SubMpt.Follower.{FollowerNode, handle_allocated_txs}
use aster.SubMpt.Follower.Batch.{Holds, answer, handle_allocated_txs_lem}
use aster.Core.Transaction.{Transaction}
use aster.SubMpt.Routing.{route, prefix, IsRoutable}
use aster.Utils.{hex_digit}
use aster.SubMpt.Follower.Ledger.{execute, execute_all, is_executed}
use aster.SubMpt.Follower.Idle.{handle_allocated_txs_idle}
use aster.Tests.Encodings.{account_codec}
use aster.Tests.Samples.{alice, bob, flat, payment}

abbrev MarkedTrie : Type 0
MarkedTrie = Bool × Map Bytes Bytes

-- Whether the value at a key is this one.
abbrev has_value : Bytes → Bytes → Map Bytes Bytes → Bool
has_value k v m = elim (lookup k m) [ none ↦ false | some w ↦ w == v ]

abbrev mark : MarkedTrie → Bytes → Bytes → MarkedTrie
mark (b, m) k v = (b || not (has_value k v m), insert k v m)

abbrev is_blank : Map Bytes Bytes → Bool
is_blank [] = true
is_blank (x ∷ m) = false

unmarked :
    (b : Bool) (m : Map Bytes Bytes) (k v : Bytes)
    → (b || not (has_value k v m)) ≡ false
    → (b ≡ false) × (lookup k m ≡ some v)
unmarked b m k v h = elim (Option-cases (lookup k m)) [
  | inl absent ↦ absurd (ground (arith, h, absent))
  | inr (w, found) ↦
      let same : (w == v) ≡ true = ground (arith, h, found) in
      (ground (arith, h), found ∙ ap (λ x. some x) (eq_of_beq w v same))
]

abbrev marked_tries : StateTrie
marked_tries = record {
  Trie = MarkedTrie;
  Db = Map Bytes Bytes;
  open_trie = λ root d. some (is_blank d, d);
  get = λ t k. lookup k t.1;
  update = mark;
  has_nodes = λ t. t.0;
  has_nodes-update = λ t k v ne h. unmarked t.0 t.1 k v h;
  commit = λ t d. (1 ∷ [], t.1);
  get-update_self = λ t k v h. lookup-insert_self k v t.1;
  get-update_ne = λ t j k v h. lookup-insert_ne k j v t.1 h;
  open_trie-commit = λ t d written. ((is_blank t.1, t.1), refl, λ k. refl);
  hold = λ t d. (1 ∷ [], t.1);
  commit_root = λ root d. some d;
  open_trie-hold = λ t d d' root written h. (
    (is_blank d', d'),
    refl,
    λ k. ap (λ o. elim o [ none ↦ none | some m ↦ lookup k m ]) (sym h),
  );
}

-- The account "0" with its initial balance is stored, and no other.
abbrev account : AccountState
account = record {
  ac_address = [];
  nonce = 0;
  balance = pos 100;
  storage_root = [];
  code_hash = [];
}

abbrev stored : Map Bytes Bytes
stored = (alice, account_codec.encode account) ∷ []

lookup-stored :
    (k : Bytes)
    → lookup k stored ≡ (if k == alice then some (account_codec.encode account) else none)
unfolding lookup
lookup-stored k = refl

stored-Reads : Reads marked_tries account_codec (pos 100) (false, stored) flat
unfolding Reads account_at new_account
stored-Reads k nonce = elim (Bool-cases (k == alice)) [
  | inl here ↦ (
    account,
    rw (account_at, lookup-stored k, here, account_codec.decode-encode account) refl,
    refl,
  )
  | inr other ↦ (
    new_account marked_tries account_codec (pos 100) nonce,
    rw (account_at, lookup-stored k, other) refl,
    refl,
  )
]

abbrev keeper : FollowerNode marked_tries
keeper = record {
  follower_id = 0;
  follower_num = 2;
  state_root = [];
  triedb = stored;
  stop = false;
}

abbrev keeper_holds : Holds marked_tries account_codec (pos 100) keeper flat
keeper_holds = ((false, stored), refl, stored-Reads)

-- A payment that the balance covers, and one that it does not.
abbrev small : Transaction
small = payment 7 alice bob (pos 5)

abbrev large : Transaction
large = payment 9 alice bob (pos 500)

abbrev msg : Transaction → AllocateTxMsgs
msg tx = record { txs = tx ∷ []; proposer_id = 0; follower_id = 0; epoch_id = 2 }

abbrev clock : ℕ → ℕ
clock i = i

small-IsRoutable : IsRoutable 2 small
small-IsRoutable = record {
  followers = ground arith;
  sender = ground arith;
  recipient = ground arith;
}

large-IsRoutable : IsRoutable 2 large
large-IsRoutable = record {
  followers = ground arith;
  sender = ground arith;
  recipient = ground arith;
}

small_changes : execute_all 2 0 flat (small ∷ []) alice ≢ flat alice
unfolding execute_all execute route prefix hex_digit bytes_beq ◌+ℤ◌ ◌-ℤ◌
small_changes e =
    let after : execute_all 2 0 flat (small ∷ []) alice ≡ pos 95 = refl in
    absurd (ground (arith, sym after ∙ e))

large_idle : is_executed 2 0 flat large ≡ false
unfolding is_executed route prefix hex_digit
large_idle = refl

handle_allocated_txs_example :
    (f' : FollowerNode marked_tries) × (handle_allocated_txs marked_tries account_codec
        (pos 100)
        clock
        clock
        3
        (msg small)
        keeper
      ≡ ok (
        f',
        answer marked_tries account_codec (pos 100) clock clock 3 (msg small) keeper flat f',
      ))
    × Holds marked_tries account_codec (pos 100) f' (execute_all 2 0 flat (small ∷ []))
handle_allocated_txs_example =
    handle_allocated_txs_lem marked_tries account_codec (pos 100) clock clock 3 (msg small) keeper
      flat (small-IsRoutable, tt) keeper_holds (inr (inr (alice, small_changes)))

handle_allocated_txs_idle_example :
    handle_allocated_txs marked_tries account_codec (pos 100) clock clock 3 (msg large) keeper
    ≡ panic
handle_allocated_txs_idle_example =
    handle_allocated_txs_idle marked_tries account_codec (pos 100) clock clock 3 (msg large) keeper
      flat (large-IsRoutable, tt) keeper_holds refl (ground arith) (large_idle, tt)
