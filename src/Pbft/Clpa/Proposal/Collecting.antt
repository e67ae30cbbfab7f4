-- ===== src/Pbft/Clpa/Proposal/Collecting.antt =====
-- What a leader has noted of the other leaders' messages before `getPartitionReady` and
-- `getCollectOver` of accountTransfer_module.go.
use aster.Prelude.{
  ℕ, suc, ◌+◌, ◌-◌, ◌%◌, ◌^◌, ◌≤◌, ◌<◌, ◌≡◌, refl, ap, sym, ◌∙◌, Bool, true, false, some, List, [],
  ◌∷◌, ◌++◌, map, Map, nat_eq, ◌==◌, if◌then◌else◌, insert, lookup, has_key, has_key-insert,
  length-insert, lookup-insert, length, contains, All, All-insert, arith, Bool-cases, inl, inr,
  append-nil, append_assoc, ◌⊎◌, eq_of_beq,
}
use aster.Core.Transaction.{Transaction}
use aster.Pbft.Clpa.{PartitionReady, AccountStateAndTx, DataSupportClpa}
use aster.Pbft.Clpa.Transfer.{seqs_ready}
use aster.Pbft.Clpa.Arrival.{arrived}
use aster.Pbft.Clpa.Proposal.{ClpaMsg}
use aster.Pbft.Clpa.Proposal.Waiting.{noted, all_noted}

-- The ready messages, and the messages with accounts.
abbrev pub readies : List ClpaMsg → List PartitionReady
readies [] = []
readies (ClpaMsg.partition_ready pr ∷ ms) = pr ∷ readies ms
readies (other ∷ ms) = readies ms

abbrev pub transfers : List ClpaMsg → List AccountStateAndTx
transfers [] = []
transfers (ClpaMsg.account_state_and_tx at ∷ ms) = at ∷ transfers ms
transfers (other ∷ ms) = transfers ms

abbrev pub transferred : List AccountStateAndTx → List Transaction
transferred [] = []
transferred (at ∷ ats) = at.txs ++ transferred ats

-- Shards that are not among those seen, each once.
abbrev pub AreNew : List ℕ → List ℕ → Type 0
AreNew seen [] = Unit
AreNew seen (sid ∷ sids) = (contains seen sid ≡ false) × AreNew (sid ∷ seen) sids

abbrev pub AreSeen : {V : Type 0} → List ℕ → Map ℕ V → Type 0
AreSeen seen m = (j : ℕ) → has_key j m ≡ contains seen j

pub AreSeen-insert :
    {V : Type 0} (seen : List ℕ) (k : ℕ) (v : V) (m : Map ℕ V)
    → AreSeen seen m
    → AreSeen (k ∷ seen) (insert k v m)
unfolding contains
AreSeen-insert seen k v m h j = ground (arith, has_key-insert k j v m, h j)

length-insert_new :
    {V : Type 0} (k : ℕ) (v : V) (m : Map ℕ V)
    → has_key k m ≡ false
    → length (insert k v m) ≡ suc (length m)
length-insert_new k v m h = ground (arith, length-insert k v m, h)

arrived-insert :
    (k : ℕ) (at : AccountStateAndTx) (m : Map ℕ AccountStateAndTx)
    → has_key k m ≡ false
    → arrived (insert k at m) ≡ arrived m ++ at.txs
unfolding insert has_key lookup
arrived-insert k at [] h = append-nil at.txs
arrived-insert k at ((j, a) ∷ m) h = elim (Bool-cases (k == j)) [
  | inl same ↦ absurd (ground (arith, h, same))
  | inr other ↦ rw other (
      ap (λ xs. a.txs ++ xs) (arrived-insert k at m (rw (has_key, other) at h))
      ∙ sym (append_assoc a.txs (arrived m) at.txs))
]

-- What the ready messages and the messages with accounts leave in the four fields.
abbrev pub marked : List PartitionReady → Map ℕ Bool → Map ℕ Bool
marked [] m = m
marked (pr ∷ prs) m = marked prs (insert pr.from_shard true m)

abbrev pub seqs : List PartitionReady → Map ℕ ℕ → Map ℕ ℕ
seqs [] m = m
seqs (pr ∷ prs) m = seqs prs (insert pr.from_shard pr.now_seq_id m)

abbrev pub pooled : List AccountStateAndTx → Map ℕ AccountStateAndTx → Map ℕ AccountStateAndTx
pooled [] m = m
pooled (at ∷ ats) m = pooled ats (insert at.from_shard at m)

abbrev pub over : ℕ → List AccountStateAndTx → Map ℕ AccountStateAndTx → Bool → Bool
over n [] m b = b
over n (at ∷ ats) m b =
    let m' = insert at.from_shard at m in over n ats m' (if suc (length m') == n then true else b)

pub all_noted_lem :
    (n : ℕ) (ms : List ClpaMsg) (cdm : DataSupportClpa)
    → all_noted n ms cdm ≡ record cdm {
      partition_ready = marked (readies ms) cdm.partition_ready;
      ready_seq = seqs (readies ms) cdm.ready_seq;
      account_state_tx = pooled (transfers ms) cdm.account_state_tx;
      collect_over = over n (transfers ms) cdm.account_state_tx cdm.collect_over;
    }
all_noted_lem n [] cdm = refl
all_noted_lem n (ClpaMsg.relay readings m ∷ ms) cdm = all_noted_lem n ms cdm
all_noted_lem n (ClpaMsg.inject readings txs ∷ ms) cdm = all_noted_lem n ms cdm
all_noted_lem n (ClpaMsg.partition m ∷ ms) cdm = all_noted_lem n ms cdm
all_noted_lem n (ClpaMsg.account_state_and_tx at ∷ ms) cdm =
    all_noted_lem n ms (noted n (ClpaMsg.account_state_and_tx at) cdm)
all_noted_lem n (ClpaMsg.partition_ready pr ∷ ms) cdm =
    all_noted_lem n ms (noted n (ClpaMsg.partition_ready pr) cdm)

pub length-marked :
    (prs : List PartitionReady) (seen : List ℕ) (m : Map ℕ Bool)
    → AreSeen seen m
    → AreNew seen (map (λ pr. pr.from_shard) prs)
    → length (marked prs m) ≡ length m + length prs
length-marked [] seen m known new = omega arith
length-marked (pr ∷ prs) seen m known (fresh, new) =
    let sid = pr.from_shard in
    omega (
      arith,
      length-marked prs (sid ∷ seen) (insert sid true m) (AreSeen-insert seen sid true m known) new,
      length-insert_new sid true m (known sid ∙ fresh),
    )

-- The sequence numbers are those of the messages.
pub lookup-seqs :
    (seq : ℕ → ℕ) (j : ℕ) (prs : List PartitionReady) (m : Map ℕ ℕ)
    → All (λ pr. pr.now_seq_id ≡ seq pr.from_shard) prs
    → (contains (map (λ pr. pr.from_shard) prs) j ≡ true) ⊎ (lookup j m ≡ some (seq j))
    → lookup j (seqs prs m) ≡ some (seq j)
unfolding contains
lookup-seqs seq j [] m _ (inl wrong) = absurd (ground (arith, wrong))
lookup-seqs seq j [] m _ (inr found) = found
lookup-seqs seq j (pr ∷ prs) m (right, more) h =
    let m' = insert pr.from_shard pr.now_seq_id m in
    elim (Bool-cases (j == pr.from_shard)) [
      | inl same ↦
          let e = eq_of_beq j pr.from_shard same in
          lookup-seqs seq j prs m' more (
            inr (
              lookup-insert pr.from_shard j pr.now_seq_id m
              ∙ (rw same (ap (λ v. some v) (right ∙ ap seq (sym e))))))
      | inr other ↦ lookup-seqs seq j prs m' more (elim h [
        | inl later ↦ inl (rw other at later)
        | inr found ↦ inr (lookup-insert pr.from_shard j pr.now_seq_id m ∙ rw other found)
      ])
    ]

pub seqs_ready_lem :
    (seq : ℕ → ℕ) (ready_seq : Map ℕ ℕ) (seq_id_map : Map ℕ ℕ)
    → All
        (λ e. (lookup e.0 ready_seq ≡ some (seq e.0)) × ((seq e.0 + (2 ^ 64 - 1)) % 2 ^ 64 ≡ e.1))
        seq_id_map
    → seqs_ready seq_id_map ready_seq true ≡ true
unfolding seqs_ready
seqs_ready_lem seq ready_seq [] _ = refl
seqs_ready_lem seq ready_seq ((sid, val) ∷ rest) ((found, next), more) =
    let e : ((seq sid + (2 ^ 64 - 1)) % 2 ^ 64 == val) ≡ true = ground (arith, next) in
    rw (found, e) (seqs_ready_lem seq ready_seq rest more)

pub length-pooled :
    (ats : List AccountStateAndTx) (seen : List ℕ) (m : Map ℕ AccountStateAndTx)
    → AreSeen seen m
    → AreNew seen (map (λ at. at.from_shard) ats)
    → (length (pooled ats m) ≡ length m + length ats)
      × (arrived (pooled ats m) ≡ arrived m ++ transferred ats)
length-pooled [] seen m known new = (omega arith, sym (append-nil (arrived m)))
length-pooled (at ∷ ats) seen m known (fresh, new) =
    let sid = at.from_shard in
    let absent = known sid ∙ fresh in
    let (len, txs) =
      length-pooled ats (sid ∷ seen) (insert sid at m) (AreSeen-insert seen sid at m known) new in
    (
      omega (arith, len, length-insert_new sid at m absent),
      txs
          ∙ ap (λ xs. xs ++ transferred ats) (arrived-insert sid at m absent)
          ∙ append_assoc (arrived m) at.txs (transferred ats),
    )

pub All-pooled :
    (P : AccountStateAndTx → Type 0) (ats : List AccountStateAndTx) (m : Map ℕ AccountStateAndTx)
    → All (λ e. P e.1) m
    → All P ats
    → All (λ e. P e.1) (pooled ats m)
All-pooled P [] m h _ = h
All-pooled P (at ∷ ats) m h (here, more) =
    All-pooled P ats (insert at.from_shard at m) (All-insert (λ e. P e.1) at.from_shard at m here h)
      more

-- The collection is over once as many messages have come as there are other shards, and not before.
pub over_lem :
    (n : ℕ) (ats : List AccountStateAndTx) (seen : List ℕ) (m : Map ℕ AccountStateAndTx) (b : Bool)
    → AreSeen seen m
    → AreNew seen (map (λ at. at.from_shard) ats)
    → suc (length m + length ats) ≡ n
    → (0 < length ats) ⊎ (b ≡ true)
    → over n ats m b ≡ true
over_lem n [] seen m b known new full (inl wrong) = absurd (omega (arith, wrong))
over_lem n [] seen m b known new full (inr done) = done
over_lem n (at ∷ ats) seen m b known (fresh, new) full h =
    let sid = at.from_shard in
    let m' = insert sid at m in
    let len = length-insert_new sid at m (known sid ∙ fresh) in
    over_lem n ats (sid ∷ seen) m' (if suc (length m') == n then true else b)
      (AreSeen-insert seen sid at m known) new (omega (arith, len, full))
      (elim (Bool-cases (length ats == 0)) [
        | inl last ↦
            let e : (suc (length m') == n) ≡ true = ground (arith, last, len, full) in
            inr (rw e refl)
        | inr more ↦ inl (ground (arith, more))
      ])

pub over-length :
    (n : ℕ) (ats : List AccountStateAndTx) (m : Map ℕ AccountStateAndTx) (b : Bool)
    → ((b ≡ true) → n ≤ suc (length m))
    → over n ats m b ≡ true
    → n ≤ suc (length (pooled ats m))
over-length n [] m b h done = h done
over-length n (at ∷ ats) m b h done =
    let m' = insert at.from_shard at m in
    let longer : length m ≤ length m' = ground (arith, length-insert at.from_shard at m) in
    over-length n ats m' (if suc (length m') == n then true else b)
      (λ e. elim (Bool-cases (suc (length m') == n)) [
        | inl full ↦ ground (arith, full)
        | inr other ↦ let bound = h (rw other at e) in omega (arith, bound, longer)
      ])
      done
