-- ===== src/SubMpt/Proposer/Gather.antt =====
-- `GatherTxs` and `handleProcessedTxs` of consensus_shard/subMPT.
use aster.Prelude.{
  ℕ, suc, ◌+◌, ◌≤◌, ◌≡◌, refl, sym, ◌∙◌, inl, inr, Bool, true, ◌&&◌, ◌||◌, Option, none, some, List,
  [], ◌∷◌, ◌++◌, Bytes, Map, Result, ok, ◌>>=◌, or_panic, nat_eq, bytes_eq, ◌==◌, if◌then◌else◌,
  length, get_elem?, lookup, insert, delete, has_key, lookup_or, arith, Option-cases, Bool-cases,
  length-append, length-insert, lookup-delete, lookup-insert, insert-DistinctKeys, has_key-delete,
  has_key_of_lookup, has_key_of_none, length-delete, length-delete_absent, delete-DistinctKeys,
  DistinctKeys, contains, not, get_elem?-lt, has_key-beq, ap, eq_of_beq, beq_refl, lookup_or-insert,
}
use aster.Core.Transaction.{Transaction}
use aster.Core.Block.{BitSets}
use aster.SubMpt.Messages.{PrecessedTxMsgs}
use aster.SubMpt.Proposer.{ProposerNode, record_allocated}
use aster.SubMpt.Proposer.Schedule.{has_hash}

-- The loop of `GatherTxs` from index `i` on, over the allocated and the processed pool. The times
-- are those of the message's transaction at the index of the hash.
unfoldable pub gather_loop :
    ℕ
    → List Bytes
    → List Transaction
    → Map Bytes Transaction
    → List Transaction
    → Result (Map Bytes Transaction × List Transaction)
gather_loop i [] txs allocated processed = ok (allocated, processed)
gather_loop i (h ∷ hs) txs allocated processed = elim (lookup h allocated) [
  | none ↦ gather_loop (i + 1) hs txs (delete h allocated) processed
  | some tx ↦ do
    m ← or_panic (get_elem? txs i)
    gather_loop (i + 1) hs txs (delete h allocated) (
        processed
        ++ record tx { allocate_time = m.allocate_time; execution_time = m.execution_time } ∷ [])
]

module _ {bits : BitSets} {Ring : Type 0} where
  unfoldable pub gather_txs :
      PrecessedTxMsgs → ProposerNode bits Ring → Result (ProposerNode bits Ring)
  gather_txs msg p = do
    (a, d) ← gather_loop 0 msg.tx_hashs msg.txs p.allocated_txpool p.processed_txpool
    ok (record p { allocated_txpool = a; processed_txpool = d })

  -- `handleProcessedTxs`: the proposer, and whether it starts `blockGenerate`.
  unfoldable pub handle_processed_txs :
      PrecessedTxMsgs → ProposerNode bits Ring → Result (ProposerNode bits Ring × Bool)
  unfolding gather_txs
  handle_processed_txs msg p = do
    p1 ← gather_txs msg p
    let roots = insert msg.follower_id msg.state_root (lookup_or [] msg.epoch_id p1.gather_map)
    ok (
      record p1 { gather_map = insert msg.epoch_id roots p1.gather_map },
      length roots == p1.follower_num && p1.shard_id == 0,
    )

-- An allocated pool as `TxAllocate` builds it: one entry for a hash, whose transaction has it.
pub record IsKeyed (a : Map Bytes Transaction) : Type 0 where
  pub distinct : DistinctKeys a
  pub hash : (h : Bytes) (tx : Transaction) → lookup h a ≡ some tx → tx.tx_hash ≡ h

delete-IsKeyed : (h : Bytes) (a : Map Bytes Transaction) → IsKeyed a → IsKeyed (delete h a)
delete-IsKeyed h a k = record {
  distinct = delete-DistinctKeys h a k.distinct;
  hash = λ j tx e. ground (arith, lookup-delete h j a, k.hash j tx);
}

pub nil-IsKeyed : IsKeyed []
unfolding lookup
nil-IsKeyed = record { distinct = tt; hash = λ h tx e. ground arith }

abbrev hash_or : Option Transaction → Bytes
hash_or none = []
hash_or (some tx) = tx.tx_hash

insert-IsKeyed :
    (tx : Transaction) (a : Map Bytes Transaction) → IsKeyed a → IsKeyed (insert tx.tx_hash tx a)
insert-IsKeyed tx a k = record {
  distinct = insert-DistinctKeys tx.tx_hash tx a k.distinct;
  hash = λ h t e. elim (Bool-cases (h == tx.tx_hash)) [
    | inl same ↦
        let found : some tx ≡ some t = rw (lookup-insert tx.tx_hash h tx a, same) at e in
        sym (ap hash_or found) ∙ sym (eq_of_beq h tx.tx_hash same)
    | inr other ↦ k.hash h t (rw (lookup-insert tx.tx_hash h tx a, other) at e)
  ];
}

-- What `TxAllocate` records keeps the pool so.
pub record_allocated-IsKeyed :
    (txs : List Transaction) (a : Map Bytes Transaction)
    → IsKeyed a
    → IsKeyed (record_allocated txs a)
unfolding record_allocated
record_allocated-IsKeyed [] a k = k
record_allocated-IsKeyed (tx ∷ txs) a k =
    record_allocated-IsKeyed txs (insert tx.tx_hash tx a) (insert-IsKeyed tx a k)

has_hash-append :
    (h : Bytes) (xs ys : List Transaction)
    → has_hash h (xs ++ ys) ≡ (has_hash h xs || has_hash h ys)
unfolding has_hash
has_hash-append h [] ys = refl
has_hash-append h (x ∷ xs) ys = ground (arith, has_hash-append h xs ys)

has_hash-one : (h : Bytes) (tx : Transaction) → has_hash h (tx ∷ []) ≡ (h == tx.tx_hash)
unfolding has_hash
has_hash-one h tx = ground arith

-- What a run of the loop from the pools `a` and `d` ends in.
pub record Gathers (hs : List Bytes) (a a' : Map Bytes Transaction) (d d' : List Transaction)
    : Type 0 where
  pub count : length a' + length d' ≡ length a + length d
  pub keyed : IsKeyed a'
  pub allocated : (h : Bytes) → has_key h a' ≡ (has_key h a && not (contains hs h))
  pub processed : (h : Bytes) → has_hash h d' ≡ (has_hash h d || contains hs h && has_key h a)

gather_loop_lem :
    (i : ℕ) (hs : List Bytes) (txs : List Transaction) (a : Map Bytes Transaction)
    (d : List Transaction)
    → IsKeyed a
    → i + length hs ≤ length txs
    → (a' : Map Bytes Transaction) × (d' : List Transaction) × (gather_loop i hs txs a d
        ≡ ok (a', d'))
      × Gathers hs a a' d d'
unfolding gather_loop contains
gather_loop_lem i [] txs a d k le = (
  a,
  d,
  refl,
  record { count = refl; keyed = k; allocated = λ h. ground arith; processed = λ h. ground arith },
)
gather_loop_lem i (h ∷ hs) txs a d k le = elim (Option-cases (lookup h a)) [
  | inl missing ↦
      let absent = has_key_of_none h a missing in
      let (a', d', run, g) =
        gather_loop_lem (i + 1) hs txs (delete h a) d (delete-IsKeyed h a k) (omega arith) in
      (
        a',
        d',
        rw (missing, gather_loop) run,
        record {
          count = omega (arith, length-delete_absent h a absent, g.count);
          keyed = g.keyed;
          allocated = λ j. ground (arith, g.allocated j, has_key-delete h j a, has_key-beq j h a);
          processed = λ j. ground (arith, g.processed j, has_key-delete h j a, has_key-beq j h a);
        },
      )
  | inr (tx, found) ↦
      let here = has_key_of_lookup h a found in
      let (m, got) = get_elem?-lt txs i (omega arith) in
      let tx' = record tx { allocate_time = m.allocate_time; execution_time = m.execution_time } in
      let (a', d', run, g) =
        gather_loop_lem (i + 1) hs txs (delete h a) (d ++ tx' ∷ []) (delete-IsKeyed h a k)
          (omega arith) in
      (
        a',
        d',
        rw (found, got, gather_loop) run,
        record {
          count =
              omega (arith, length-delete h a k.distinct here, g.count, length-append d (tx' ∷ []));
          keyed = g.keyed;
          allocated = λ j. ground (arith, g.allocated j, has_key-delete h j a);
          processed = λ j. ground (
            arith,
            g.processed j,
            has_key-delete h j a,
            has_key-beq j h a,
            has_hash-append j d (tx' ∷ []),
            has_hash-one j tx',
            ap (λ x. j == x) (k.hash h tx found),
          );
        },
      )
]

module _ {bits : BitSets} {Ring : Type 0} where
  -- The state roots that have come in for an epoch, by follower.
  abbrev pub roots : ℕ → ProposerNode bits Ring → Map ℕ Bytes
  roots epoch p = lookup_or [] epoch p.gather_map

  roots-beq : (e e' : ℕ) (p : ProposerNode bits Ring) → (e == e') ≡ true → roots e p ≡ roots e' p
  roots-beq e e' p same = ap (λ x. roots x p) (eq_of_beq e e' same)

  -- A follower's message moves from the allocated to the processed pool exactly the transactions
  -- whose hashes it has and that were allocated: none is lost, none is there twice. It counts once
  -- for its follower and epoch, and starts `blockGenerate` exactly when it makes the count that of
  -- the followers, on shard 0. It panics only if it has fewer transactions than hashes.
  pub handle_processed_txs_lem :
      (msg : PrecessedTxMsgs) (p : ProposerNode bits Ring)
      → IsKeyed p.allocated_txpool
      → length msg.tx_hashs ≤ length msg.txs
      → (q : ProposerNode bits Ring) × (go : Bool) × (handle_processed_txs msg p ≡ ok (q, go))
        × Gathers msg.tx_hashs p.allocated_txpool q.allocated_txpool p.processed_txpool
            q.processed_txpool
        × ((epoch : ℕ)
            → length (roots epoch q) ≡ (
                if epoch == msg.epoch_id && not (has_key msg.follower_id (roots epoch p))
                then suc (length (roots epoch p))
                else length (roots epoch p)))
        × (go ≡ (length (roots msg.epoch_id q) == p.follower_num && p.shard_id == 0))
  unfolding handle_processed_txs gather_txs
  handle_processed_txs_lem msg p k le =
      let (a, d, run, g) =
        gather_loop_lem 0 msg.tx_hashs msg.txs p.allocated_txpool p.processed_txpool k
          (omega (arith, le)) in
      let now_roots = insert msg.follower_id msg.state_root (roots msg.epoch_id p) in
      let gather_map' = insert msg.epoch_id now_roots p.gather_map in
      (
        record p { allocated_txpool = a; processed_txpool = d; gather_map = gather_map' },
        length now_roots == p.follower_num && p.shard_id == 0,
        rw (run, handle_processed_txs),
        g,
        λ epoch. ground (
          arith,
          lookup_or-insert [] msg.epoch_id epoch now_roots p.gather_map,
          length-insert msg.follower_id msg.state_root (roots msg.epoch_id p),
          roots-beq epoch msg.epoch_id p,
        ),
        rw (
          lookup_or-insert [] msg.epoch_id msg.epoch_id now_roots p.gather_map,
          beq_refl msg.epoch_id,
        ),
      )
