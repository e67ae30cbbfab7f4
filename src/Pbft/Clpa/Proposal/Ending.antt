-- ===== src/Pbft/Clpa/Proposal/Ending.antt =====
-- The messages of a round in which the accounts move, for `HandleinPropose` of
-- pbftInside_moduleCLPA.go.
use aster.Prelude.{
  ℕ, suc, ◌+◌, ◌-◌, ◌%◌, ◌^◌, ◌<◌, ◌≡◌, refl, ap, sym, ◌∙◌, true, false, some, List, [], ◌∷◌, ◌++◌,
  map, Bytes, Map, nat_eq, bytes_eq, lookup, has_key, length, length-append, get_elem?, contains,
  All, arith, append-nil,
}
use aster.Core.Block.{BitSets}
use aster.Pbft.Clpa.{AccountStateAndTx, ClpaModule}
use aster.Pbft.Clpa.Moves.{IsArrival}
use aster.Pbft.Clpa.Proposal.{ClpaMsg}
use aster.Pbft.Clpa.Proposal.Waiting.{is_leaders}
use aster.Pbft.Clpa.Proposal.Collecting.{
  readies, transfers, AreNew, over, length-pooled, over-length,
}

transfers-append : (ms ms' : List ClpaMsg) → transfers (ms ++ ms') ≡ transfers ms ++ transfers ms'
transfers-append [] ms' = refl
transfers-append (ClpaMsg.relay readings m ∷ ms) ms' = transfers-append ms ms'
transfers-append (ClpaMsg.inject readings txs ∷ ms) ms' = transfers-append ms ms'
transfers-append (ClpaMsg.partition m ∷ ms) ms' = transfers-append ms ms'
transfers-append (ClpaMsg.account_state_and_tx at ∷ ms) ms' =
    ap (λ xs. at ∷ xs) (transfers-append ms ms')
transfers-append (ClpaMsg.partition_ready pr ∷ ms) ms' = transfers-append ms ms'

AreNew-append_left :
    (seen : List ℕ) (ats ats' : List AccountStateAndTx)
    → AreNew seen (map (λ at. at.from_shard) (ats ++ ats'))
    → AreNew seen (map (λ at. at.from_shard) ats)
AreNew-append_left seen [] ats' h = tt
AreNew-append_left seen (at ∷ ats) ats' (fresh, h) =
    (fresh, AreNew-append_left (at.from_shard ∷ seen) ats ats' h)

-- The start of a round with the map `m`: the partition is on, the round's map is the last one, and
-- nothing has come yet.
pub record IsRound {bits : BitSets} (x : ClpaModule bits) (m : Map Bytes ℕ) : Type 0 where
  pub on : x.cdm.partition_on ≡ true
  pub round : get_elem? x.cdm.modified_map x.cdm.account_transfer_round ≡ some m
  pub last : suc x.cdm.account_transfer_round ≡ length x.cdm.modified_map
  pub unready : x.cdm.partition_ready ≡ []
  pub uncollected : x.cdm.account_state_tx ≡ []
  pub without_txs : x.cdm.received_new_tx ≡ []
  pub collecting : x.cdm.collect_over ≡ false
  pub inside : x.pbft_node.shard_id < x.pbft_node.shard_nums

-- The messages of the leaders of all other shards, one of each kind: `seq` is the sequence number of a
-- shard, one above that of its last relay message, and the accounts are ones that the map accepts.
pub record AreOfOthers {bits : BitSets} (x : ClpaModule bits) (m : Map Bytes ℕ) (seq : ℕ → ℕ)
    (ms : List ClpaMsg) : Type 0 where
  pub leaders : All (λ a. is_leaders a ≡ true) ms
  pub ready_new : AreNew (x.pbft_node.shard_id ∷ []) (map (λ pr. pr.from_shard) (readies ms))
  pub ready_all : suc (length (readies ms)) ≡ x.pbft_node.shard_nums
  pub ready_seq : All (λ pr. pr.now_seq_id ≡ seq pr.from_shard) (readies ms)
  pub relays :
      All
        (λ e.
          (contains (map (λ pr. pr.from_shard) (readies ms)) e.0 ≡ true)
          × ((seq e.0 + (2 ^ 64 - 1)) % 2 ^ 64 ≡ e.1))
        x.pbft_node.seq_id_map
  pub transfers_new : AreNew [] (map (λ at. at.from_shard) (transfers ms))
  pub transfers_all : suc (length (transfers ms)) ≡ x.pbft_node.shard_nums
  pub accepted : All (IsArrival m x.pbft_node.shard_id) (transfers ms)

pub nothing-AreSeen : (V : Type 0) (j : ℕ) → has_key {V = V} j [] ≡ contains [] j
unfolding has_key lookup contains
nothing-AreSeen V j = refl

empty_of_length : {A : Type 0} (xs : List A) → length xs ≡ 0 → xs ≡ []
empty_of_length [] h = refl
empty_of_length (x ∷ xs) h = absurd (omega (arith, h))

-- A collection that is over has all messages.
pub collected :
    (n : ℕ) (ms ms' : List ClpaMsg)
    → AreNew [] (map (λ at. at.from_shard) (transfers (ms ++ ms')))
    → suc (length (transfers (ms ++ ms'))) ≡ n
    → over n (transfers ms) [] false ≡ true
    → transfers ms ≡ transfers (ms ++ ms')
collected n ms ms' new full done =
    let e = transfers-append ms ms' in
    let bound = over-length n (transfers ms) [] false (λ w. absurd (ground (arith, w))) done in
    let (len, txs) =
      length-pooled (transfers ms) [] [] (nothing-AreSeen AccountStateAndTx)
        (AreNew-append_left [] (transfers ms) (transfers ms') (rw e at new)) in
    let sum = length-append (transfers ms) (transfers ms') in
    let none_left : length (transfers ms') ≡ 0 =
      omega (arith, bound, len, sum, full, ap length e) in
    sym (
      e
      ∙ ap (λ xs. transfers ms ++ xs) (empty_of_length (transfers ms') none_left)
      ∙ append-nil (transfers ms))
