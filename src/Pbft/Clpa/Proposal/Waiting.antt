-- ===== src/Pbft/Clpa/Proposal/Waiting.antt =====
-- The waits of `HandleinPropose` in pbftInside_moduleCLPA.go, while the other leaders' messages arrive.
use aster.Prelude.{
  ℕ, suc, ◌≡◌, refl, ap, sym, ◌∙◌, Bool, true, false, List, [], ◌∷◌, ◌++◌, ok, nat_eq, ◌==◌,
  if◌then◌else◌, insert, length, All, All-append_left, All-append_right, arith, Bool-cases, inl,
  inr, append_assoc,
}
use aster.Core.Block.{BitSets}
use aster.Pbft.Clpa.{
  DataSupportClpa, ClpaModule, handle_partition_ready, handle_account_state_and_tx_msg,
}
use aster.Pbft.Clpa.Proposal.{ClpaMsg, receive_all, wait_for}

-- Whether a message is one that the leaders send each other for a transfer.
abbrev pub is_leaders : ClpaMsg → Bool
is_leaders (ClpaMsg.relay readings m) = false
is_leaders (ClpaMsg.inject readings txs) = false
is_leaders (ClpaMsg.partition m) = false
is_leaders (ClpaMsg.account_state_and_tx at) = true
is_leaders (ClpaMsg.partition_ready pr) = true

abbrev pub all_arrivals : List (List ClpaMsg) → List ClpaMsg
all_arrivals [] = []
all_arrivals (now ∷ later) = now ++ all_arrivals later

-- What a leader notes of such a message, among `n` shards.
abbrev pub noted : ℕ → ClpaMsg → DataSupportClpa → DataSupportClpa
noted n (ClpaMsg.relay readings m) cdm = cdm
noted n (ClpaMsg.inject readings txs) cdm = cdm
noted n (ClpaMsg.partition m) cdm = cdm
noted n (ClpaMsg.account_state_and_tx at) cdm =
    let pool = insert at.from_shard at cdm.account_state_tx in
    record cdm {
      account_state_tx = pool;
      collect_over = if suc (length pool) == n then true else cdm.collect_over;
    }
noted n (ClpaMsg.partition_ready pr) cdm = record cdm {
  partition_ready = insert pr.from_shard true cdm.partition_ready;
  ready_seq = insert pr.from_shard pr.now_seq_id cdm.ready_seq;
}

abbrev pub all_noted : ℕ → List ClpaMsg → DataSupportClpa → DataSupportClpa
all_noted n [] cdm = cdm
all_noted n (m ∷ ms) cdm = all_noted n ms (noted n m cdm)

pub all_noted-append :
    (n : ℕ) (ms ms' : List ClpaMsg) (cdm : DataSupportClpa)
    → all_noted n (ms ++ ms') cdm ≡ all_noted n ms' (all_noted n ms cdm)
all_noted-append n [] ms' cdm = refl
all_noted-append n (m ∷ ms) ms' cdm = all_noted-append n ms ms' (noted n m cdm)

module _ {bits : BitSets} where
  -- The node once it has noted messages.
  abbrev pub informed : List ClpaMsg → ClpaModule bits → ClpaModule bits
  informed ms x = record x { cdm = all_noted x.pbft_node.shard_nums ms x.cdm }

  receive_all_lem :
      (ms : List ClpaMsg) (x : ClpaModule bits)
      → All (λ m. is_leaders m ≡ true) ms
      → receive_all ms x ≡ ok (informed ms x)
  unfolding receive_all handle_partition_ready handle_account_state_and_tx_msg
  receive_all_lem [] x _ = refl
  receive_all_lem (ClpaMsg.relay readings m ∷ ms) x (wrong, more) = absurd (ground (arith, wrong))
  receive_all_lem (ClpaMsg.inject readings txs ∷ ms) x (wrong, more) =
      absurd (ground (arith, wrong))
  receive_all_lem (ClpaMsg.partition m ∷ ms) x (wrong, more) = absurd (ground (arith, wrong))
  receive_all_lem (ClpaMsg.account_state_and_tx at ∷ ms) x (_, more) =
      receive_all_lem ms (informed (ClpaMsg.account_state_and_tx at ∷ []) x) more
  receive_all_lem (ClpaMsg.partition_ready pr ∷ ms) x (_, more) =
      receive_all_lem ms (informed (ClpaMsg.partition_ready pr ∷ []) x) more

  -- A wait that is over after all arrivals is over after some of them; the others are still to come.
  pub wait_for_lem :
      (done : ClpaModule bits → Bool) (arrivals : List (List ClpaMsg)) (x : ClpaModule bits)
      → All (λ m. is_leaders m ≡ true) (all_arrivals arrivals)
      → done (informed (all_arrivals arrivals) x) ≡ true
      → (ms : List ClpaMsg) × (later : List (List ClpaMsg)) × (wait_for done arrivals x
          ≡ ok (true, informed ms x, later))
        × (ms ++ all_arrivals later ≡ all_arrivals arrivals)
        × (done (informed ms x) ≡ true)
  unfolding wait_for
  wait_for_lem done [] x _ over = ([], [], rw over refl, refl, over)
  wait_for_lem done (now ∷ rest) x leaders over = elim (Bool-cases (done x)) [
    | inl already ↦ ([], now ∷ rest, rw already refl, refl, already)
    | inr still ↦
        let n = x.pbft_node.shard_nums in
        let received =
          receive_all_lem now x
            (All-append_left (λ m. is_leaders m ≡ true) now (all_arrivals rest) leaders) in
        let over' : done (informed (all_arrivals rest) (informed now x)) ≡ true =
          ap (λ d. done (record x { cdm = d }))
            (sym (all_noted-append n now (all_arrivals rest) x.cdm))
          ∙ over in
        let (ms, later, waited, split, ended) =
          wait_for_lem done rest (informed now x)
            (All-append_right (λ m. is_leaders m ≡ true) now (all_arrivals rest) leaders) over' in
        let joined = all_noted-append n now ms x.cdm in
        (
          now ++ ms,
          later,
          rw (still, received, waited, joined) refl,
          append_assoc now ms (all_arrivals later) ∙ ap (λ xs. now ++ xs) split,
          rw joined ended,
        )
  ]
