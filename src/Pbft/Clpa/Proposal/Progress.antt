-- ===== src/Pbft/Clpa/Proposal/Progress.antt =====
-- That each of the two waits of `HandleinPropose` in pbftInside_moduleCLPA.go ends.
use aster.Prelude.{
  ℕ, ◌-◌, ◌<◌, ◌≡◌, refl, ap, sym, ◌∙◌, Bool, true, false, some, List, [], ◌∷◌, ◌++◌, Bytes, Map,
  ok, nat_eq, bytes_eq, ◌==◌, insert, length, get_elem?, All-map, All-append_right, arith, inl,
  append_assoc,
}
use aster.Core.TxPool.{TxPool}
use aster.Core.Block.{BitSets}
use aster.Pbft.Clpa.{AccountStateAndTx, ClpaModule}
use aster.Pbft.Clpa.Transfer.{get_partition_ready, get_collect_over}
use aster.Pbft.Clpa.Leaving.{with_pool}
use aster.Pbft.Clpa.Proposal.{ClpaMsg, wait_for}
use aster.Pbft.Clpa.Proposal.Waiting.{
  is_leaders, all_arrivals, all_noted, all_noted-append, informed, wait_for_lem,
}
use aster.Pbft.Clpa.Proposal.Collecting.{
  readies, transfers, AreSeen-insert, marked, seqs, pooled, over, all_noted_lem, length-marked,
  lookup-seqs, seqs_ready_lem, over_lem,
}
use aster.Pbft.Clpa.Proposal.Ending.{IsRound, AreOfOthers, nothing-AreSeen, collected}

module _ {bits : BitSets} (x : ClpaModule bits) (m : Map Bytes ℕ) (seq : ℕ → ℕ)
    (ms : List ClpaMsg) where
  -- The node once it has sent that it is ready.
  abbrev pub started : ClpaModule bits
  started =
      let cdm = x.cdm in
      record x {
        cdm = record cdm { partition_ready = insert x.pbft_node.shard_id true cdm.partition_ready };
      }

  pub all_ready :
      IsRound x m → AreOfOthers x m seq ms → get_partition_ready (informed ms started) ≡ true
  unfolding get_partition_ready insert
  all_ready start others =
      let own = x.pbft_node.shard_id in
      let n = x.pbft_node.shard_nums in
      let len =
        length-marked (readies ms) (own ∷ []) ((own, true) ∷ [])
          (AreSeen-insert [] own true [] (nothing-AreSeen Bool)) others.ready_new in
      let full : (length (marked (readies ms) ((own, true) ∷ [])) == n) ≡ true =
        ground (arith, len, others.ready_all) in
      let agree = seqs_ready_lem seq (seqs (readies ms) x.cdm.ready_seq) x.pbft_node.seq_id_map (
        All-map
          (λ e h.
            (lookup-seqs seq e.0 (readies ms) x.cdm.ready_seq others.ready_seq (inl h.0), h.1))
          x.pbft_node.seq_id_map others.relays) in
      rw (all_noted_lem n ms started.cdm, start.unready, full, agree) refl

  pub all_over :
      IsRound x m
      → AreOfOthers x m seq ms
      → 0 < length (transfers ms)
      → (all_noted x.pbft_node.shard_nums ms started.cdm).collect_over ≡ true
  all_over start others several =
      let n = x.pbft_node.shard_nums in
      rw (all_noted_lem n ms started.cdm, start.uncollected, start.collecting)
        (over_lem n (transfers ms) [] [] false (nothing-AreSeen AccountStateAndTx)
          others.transfers_new (omega (arith, others.transfers_all)) (inl several))

  -- What messages leave as it was.
  pub round_kept :
      (seen : List ClpaMsg)
      → IsRound x m
      → let cdm = all_noted x.pbft_node.shard_nums seen started.cdm in
        (get_elem? cdm.modified_map cdm.account_transfer_round ≡ some m)
        × (get_elem? cdm.modified_map (length cdm.modified_map - 1) ≡ some m)
        × (cdm.received_new_tx ≡ [])
        × (length cdm.modified_map ≡ length x.cdm.modified_map)
  round_kept seen start =
      let short : length x.cdm.modified_map - 1 ≡ x.cdm.account_transfer_round =
        omega (arith, start.last) in
      rw (all_noted_lem x.pbft_node.shard_nums seen started.cdm)
        (start.round, rw short start.round, start.without_txs, refl)

  -- A collection that is over has the messages of all others.
  pub all_in :
      (seen rest : List ClpaMsg)
      → IsRound x m
      → AreOfOthers x m seq ms
      → seen ++ rest ≡ ms
      → (all_noted x.pbft_node.shard_nums seen started.cdm).collect_over ≡ true
      → (all_noted x.pbft_node.shard_nums seen started.cdm).account_state_tx
        ≡ pooled (transfers ms) []
  all_in seen rest start others whole done =
      let n = x.pbft_node.shard_nums in
      let e = all_noted_lem n seen started.cdm in
      let ended : over n (transfers seen) [] false ≡ true =
        rw (e, start.uncollected, start.collecting) at done in
      let complete : transfers seen ≡ transfers ms =
        collected n seen rest (rw whole others.transfers_new) (rw whole others.transfers_all) ended
        ∙ ap transfers whole in
      rw (e, start.uncollected, complete) refl

  -- The second wait, once some messages have come in the first.
  pub second_wait :
      (kept : TxPool) (ms1 : List ClpaMsg) (later : List (List ClpaMsg))
      → IsRound x m
      → AreOfOthers x m seq ms
      → 1 < x.pbft_node.shard_nums
      → ms1 ++ all_arrivals later ≡ ms
      → (ms2 : List ClpaMsg) × (rest : List (List ClpaMsg)) × (wait_for get_collect_over later
            (with_pool kept (informed ms1 started))
          ≡ ok (true, informed ms2 (with_pool kept (informed ms1 started)), rest))
        × let cdm = (informed ms2 (informed ms1 started)).cdm in
          (cdm.account_state_tx ≡ pooled (transfers ms) [])
          × (get_elem? cdm.modified_map cdm.account_transfer_round ≡ some m)
          × (cdm.received_new_tx ≡ [])
          × (length cdm.modified_map ≡ length x.cdm.modified_map)
  unfolding get_collect_over
  second_wait kept ms1 later start others several split =
      let n = x.pbft_node.shard_nums in
      let some_left : 0 < length (transfers ms) = omega (arith, others.transfers_all, several) in
      let (ms2, rest, waited, split', done) =
        wait_for_lem get_collect_over later (with_pool kept (informed ms1 started))
          (All-append_right (λ a. is_leaders a ≡ true) ms1 (all_arrivals later)
            (rw split others.leaders))
          (rw (← all_noted-append n ms1 (all_arrivals later) started.cdm, split)
            (all_over start others some_left)) in
      let seen = ms1 ++ ms2 in
      let joined = all_noted-append n ms1 ms2 started.cdm in
      let whole : seen ++ all_arrivals rest ≡ ms =
        append_assoc ms1 ms2 (all_arrivals rest) ∙ ap (λ xs. ms1 ++ xs) split' ∙ split in
      let (round, _, blank, maps) = round_kept seen start in
      (
        ms2,
        rest,
        waited,
        (
          ap (λ d. d.account_state_tx) (sym joined)
              ∙ all_in seen (all_arrivals rest) start others whole
                  (ap (λ d. d.collect_over) joined ∙ done),
          ap (λ d. get_elem? d.modified_map d.account_transfer_round) (sym joined) ∙ round,
          ap (λ d. d.received_new_tx) (sym joined) ∙ blank,
          ap (λ d. length d.modified_map) (sym joined) ∙ maps,
        ),
      )
