-- ===== src/SubMpt/Follower/Migration.antt =====
-- The move of accounts between followers of consensus_shard/subMPT: `handleProposerRequest` reads
-- them at one follower, `handleProposerAllocateData` writes them at another.
use aster.Prelude.{
  ◌≡◌, refl, some, List, [], ◌∷◌, Bytes, ok, bytes_eq, ◌==◌, if◌then◌else◌, arith, contains,
  bytes_beq_iff,
}
use aster.Prelude.Int.{ℤ}
use aster.Core.Account.{AccountState}
use aster.SubMpt.Messages.{FollowerMsg}
use aster.Accounts.Tries.{StateTrie, AccountCodec}
use aster.SubMpt.Follower.{
  FollowerNode, fetch_accounts, request_accounts, store_accounts, handle_proposer_request,
  handle_proposer_allocate_data,
}
use aster.Accounts.Reads.{Ledger, Reads, read, update-Reads, Reads-ext}
use aster.Accounts.Changes.{
  Keeps, Keeps-refl, Keeps-trans, update-Keeps, IsWritten, IsWritten-has_nodes,
}
use aster.SubMpt.Follower.Batch.{Holds, committed-Reads}

-- The accounts have the balances of the ledger at the keys, one by one.
abbrev pub Match : Ledger → List Bytes → List AccountState → Type 0
Match l [] [] = Unit
Match l (k ∷ ks) (a ∷ acs) = (a.balance ≡ l k) × Match l ks acs
Match l _ _ = ⊥

-- The ledger `l`, with the balances of `from` at the keys.
unfoldable pub overlay : Ledger → Ledger → List Bytes → Ledger
overlay l from ks j = if contains ks j then from j else l j

module _ (t : StateTrie) (c : AccountCodec) (init_balance : ℤ) where
  fetch_accounts_lem :
      (st : t.Trie) (l : Ledger) (ks : List Bytes)
      → Reads t c init_balance st l
      → (acs : List AccountState) × (fetch_accounts t c init_balance st ks ≡ ok acs)
        × Match l ks acs
  unfolding fetch_accounts
  fetch_accounts_lem st l [] r = ([], refl, tt)
  fetch_accounts_lem st l (k ∷ ks) r =
      let (a, at, bal) = read t c init_balance st l r k 0 in
      let (acs, got, same) = fetch_accounts_lem st l ks r in (a ∷ acs, rw (at, got), (bal, same))

  overlay-cons :
      (l from : Ledger) (a : AccountState) (k : Bytes) (ks : List Bytes) (j : Bytes)
      → a.balance ≡ from k
      → overlay l from (k ∷ ks) j ≡ overlay (λ i. if i == k then a.balance else l i) from ks j
  unfolding overlay contains
  overlay-cons l from a k ks j e = ground (arith, bytes_beq_iff j k, bytes_beq_iff k j)

  store_accounts_lem :
      (st : t.Trie) (l from : Ledger) (ks : List Bytes) (acs : List AccountState)
      → Reads t c init_balance st l
      → Match from ks acs
      → (st' : t.Trie) × (store_accounts t c init_balance st ks acs ≡ ok st')
        × Reads t c init_balance st' (overlay l from ks)
        × Keeps t st st'
  unfolding store_accounts
  store_accounts_lem st l from [] [] r m = (
    st,
    refl,
    Reads-ext t c init_balance st l (overlay l from []) r (λ j. unfold overlay contains in refl),
    Keeps-refl t st,
  )
  store_accounts_lem st l from [] (a ∷ acs) r m = absurd m
  store_accounts_lem st l from (k ∷ ks) [] r m = absurd m
  store_accounts_lem st l from (k ∷ ks) (a ∷ acs) r m =
      let l1 = λ (i : Bytes). if i == k then a.balance else l i in
      let r1 = update-Reads t c init_balance st l l1 k a r (λ j. refl) in
      let (st', stored, r', kept) =
        store_accounts_lem (t.update st k (c.encode a)) l1 from ks acs r1 m.1 in
      (
        st',
        stored,
        Reads-ext t c init_balance st' (overlay l1 from ks) (overlay l from (k ∷ ks)) r'
            (λ j. overlay-cons l from a k ks j m.0),
        Keeps-trans t st (t.update st k (c.encode a)) st'
            (update-Keeps t st k (c.encode a) (c.encode-ne-nil a)) kept,
      )

  request_accounts_lem :
      (f : FollowerNode t) (st : t.Trie) (ks : List Bytes) (acs : List AccountState)
      → t.open_trie f.state_root f.triedb ≡ some st
      → fetch_accounts t c init_balance st ks ≡ ok acs
      → request_accounts t c init_balance f ks ≡ ok acs
  unfolding request_accounts
  request_accounts_lem f st [] acs opened got = unfold fetch_accounts in got
  request_accounts_lem f st (k ∷ ks) acs opened got = rw opened got

  -- A follower that is asked for accounts answers with as many as it was asked for and does not
  -- change; when another follower stores that answer, its balances at those keys become the first
  -- one's, and all others stay as they were. This changes a balance of the other follower, or its stored
  -- trie has nodes to commit, as an empty one has.
  pub migrate_lem :
      (a b : FollowerNode t) (la lb : Ledger) (ks : List Bytes)
      → Holds t c init_balance a la
      → (holds : Holds t c init_balance b lb)
      → IsWritten t c init_balance holds.0 lb (overlay lb la ks)
      → (acs : List AccountState) × (b' : FollowerNode t) × (handle_proposer_request t c
            init_balance
            (record { keys = ks })
            a
          ≡ ok (
            a,
            FollowerMsg.response_data (record { fid = a.follower_id; keys = ks; value = acs }) ∷ [],
          ))
        × (handle_proposer_allocate_data t c init_balance (record { keys = ks; value = acs }) b
            ≡ ok (b', FollowerMsg.ready (record { fid = b.follower_id }) ∷ []))
        × Holds t c init_balance b' (overlay lb la ks)
  unfolding handle_proposer_request handle_proposer_allocate_data
  migrate_lem a b la lb ks (sa, oa, ra) (sb, ob, rb) changes =
      let (acs, got, same) = fetch_accounts_lem sa la ks ra in
      let (sb', stored, rb', kept) = store_accounts_lem sb lb la ks acs rb same in
      let written =
        IsWritten-has_nodes t c init_balance sb sb' lb (overlay lb la ks) kept rb rb' changes in
      (
        acs,
        record b { state_root = (t.commit sb' b.triedb).0; triedb = (t.commit sb' b.triedb).1 },
        rw (request_accounts_lem a sa ks acs oa got),
        rw (ob, stored, written),
        committed-Reads t c init_balance sb' b.triedb (overlay lb la ks) written rb',
      )
