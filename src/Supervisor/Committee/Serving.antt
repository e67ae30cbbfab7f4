-- ===== src/Supervisor/Committee/Serving.antt =====
-- What the two loops of supervisor/committee/committee_clpa.go do to a sound committee.
use aster.Prelude.{
  ℕ, ◌+◌, ◌*◌, ◌^◌, ◌<◌, ◌≤◌, ◌≡◌, refl, Bool, not, ◌&&◌, ◌||◌, List, [], ◌∷◌, ◌++◌, Bytes,
  bytes_eq, nat_eq, ◌==◌, lookup, All, All-map, All-append, Result, ok, if◌then◌else◌, arith,
  Bool-cases, Option-cases, inl, inr, length, length-append, leb, count,
}
use aster.Prelude.Int.{int_eq}
use aster.Core.Transaction.{Transaction}
use aster.Partition.Graph.{Graph}
use aster.Partition.Clpa.{Floats}
use aster.Partition.Members.{vertices}
use aster.Partition.Building.{IsAddressed}
use aster.Supervisor.Signal.{stop_gap_reset}
use aster.Supervisor.Sending.Totals.{IsRoutable, tx_sending-injected}
use aster.Supervisor.Committee.{
  Sent, ClpaCommittee, Control, Clock, Order, second, fetch_modified_map, send_all, clpa_map_send,
  repartition_if_due, send_batch, take_tx,
}
use aster.Supervisor.Committee.Sound.{IsBelow, lookup-IsBelow, IsSound, repartition-IsSound}
use aster.Supervisor.Committee.Traffic.{
  txs_in, maps_in, txs_in-append, txs_in-send_all, txs_in-clpa_map_send, maps_in-append,
  maps_in-send_all, maps_in-clpa_map_send,
}

module _ (n : ℕ) where
  -- An order that visits vertices of the graph, one in one entry of its map.
  abbrev pub IsOrder : Order → Type 0
  IsOrder order = (g : Graph) (i : ℕ) → All (λ x. count x (vertices g) ≡ 1) (order g i)

  module _ {F : Floats} where
    abbrev pub IsHeld : Control F → Type 0
    IsHeld st = IsSound n st.ccm × All (λ tx. IsAddressed n n tx.sender) st.txlist

    -- A result that holds, whose maps are sound, and for which the transactions add up.
    abbrev pub IsServed : Control F → Result (Control F × List Sent) → Type 0
    IsServed st r =
        (st' : Control F) × (sent : List Sent) × (r ≡ ok (st', sent))
        × IsHeld st'
        × All (IsBelow n) (maps_in sent)
        × (txs_in sent + length st'.txlist + st.ccm.now_data_num
            ≡ length st.txlist + st'.ccm.now_data_num)

    pub routable :
        (inject_speed : ℕ) (ccm : ClpaCommittee F) (key : Bytes)
        → IsSound n ccm
        → IsAddressed n n key
        → IsRoutable (fetch_modified_map n ccm.modified_map) inject_speed n key
    unfolding fetch_modified_map
    routable inject_speed ccm key sound (i, read, i_in) =
        elim (Option-cases (lookup key ccm.modified_map)) [
          | inl absent ↦ (i, rw (fetch_modified_map, absent, read) refl, i_in)
          | inr (val, found) ↦ (
            val,
            rw (fetch_modified_map, found) refl,
            lookup-IsBelow n key val ccm.modified_map sound.below found,
          )
        ]

    -- The map that the committee keeps is sound after a change that leaves it and the graph.
    pub rebuilt :
        (ccm ccm' : ClpaCommittee F)
        → ccm'.clpa_graph ≡ ccm.clpa_graph
        → ccm'.modified_map ≡ ccm.modified_map
        → IsSound n ccm
        → IsSound n ccm'
    rebuilt ccm ccm' graph same sound = record {
      below = rw same sound.below;
      es = sound.es;
      built = rw graph sound.built;
      proper = sound.proper;
    }

    send_batch-IsServed :
        (inject_speed : ℕ) (clock : Clock) (st : Control F)
        → 0 < inject_speed
        → IsHeld st
        → IsServed st (send_batch inject_speed n clock st)
    unfolding send_batch
    send_batch-IsServed inject_speed clock st speed (sound, addressed) =
        let ccm = st.ccm in
        let (its, done, total) =
          tx_sending-injected (fetch_modified_map n ccm.modified_map) inject_speed n st.txlist speed
            (All-map (λ tx h. routable inject_speed ccm tx.sender sound h) st.txlist addressed) in
        elim (Bool-cases
          (length st.txlist == ccm.batch_data_num || ccm.now_data_num == ccm.data_total_num)) [
            | inl full ↦
                let last =
                  if ccm.clpa_last_running_time == 0
                  then clock.started
                  else ccm.clpa_last_running_time in
                let ccm' = record ccm {
                  clpa_last_running_time = last;
                  ss = stop_gap_reset ccm.ss;
                } in
                (
                  record st { ccm = ccm'; txlist = [] },
                  send_all its,
                  rw (full, done) refl,
                  (rebuilt ccm ccm' refl refl sound, tt),
                  maps_in-send_all (IsBelow n) its,
                  omega (arith, txs_in-send_all its, total),
                )
            | inr early ↦ (st, [], rw early refl, (sound, addressed), tt, omega arith)
          ]

    -- The same for what changes the committee alone.
    abbrev pub IsRun : ClpaCommittee F → Result (ClpaCommittee F × List Sent) → Type 0
    IsRun ccm r =
        (ccm' : ClpaCommittee F) × (sent : List Sent) × (r ≡ ok (ccm', sent))
        × IsSound n ccm'
        × All (IsBelow n) (maps_in sent)
        × (txs_in sent ≡ 0)
        × (ccm'.now_data_num ≡ ccm.now_data_num)

    pub repartition_if_due-IsRun :
        (running : Bool) (clock : Clock) (order : Order) (ccm : ClpaCommittee F)
        → 0 < n
        → n ≤ 2 ^ 63
        → IsOrder order
        → IsSound n ccm
        → IsRun ccm (repartition_if_due n running clock order ccm)
    unfolding repartition_if_due
    repartition_if_due-IsRun running clock order ccm some_shard fits once sound =
        let g = ccm.clpa_graph.net_graph in
        let (ccm', mmap, done, mmap_in, sound', num) =
          repartition-IsSound n order clock.finished ccm some_shard fits (once g) sound in
        elim (Bool-cases
          (running && leb (ccm.clpa_last_running_time + ccm.clpa_freq * second) clock.checked)) [
            | inl due ↦ (
              ccm',
              clpa_map_send 0 n mmap,
              rw due done,
              sound',
              maps_in-clpa_map_send (IsBelow n) 0 n mmap mmap_in,
              txs_in-clpa_map_send 0 n mmap,
              num,
            )
            | inr early ↦ (ccm, [], rw early refl, sound, tt, refl, refl)
          ]

    pub take_tx-IsServed :
        (inject_speed : ℕ) (clock : Clock) (order : Order) (tx : Transaction) (st : Control F)
        → 0 < inject_speed
        → 0 < n
        → n ≤ 2 ^ 63
        → IsOrder order
        → IsAddressed n n tx.sender
        → IsHeld st
        → IsServed st (take_tx inject_speed n clock order tx st)
    unfolding take_tx
    take_tx-IsServed inject_speed clock order tx st speed some_shard fits once fit
          (sound, addressed) =
        let ccm = st.ccm in
        let ccm0 = record ccm { now_data_num = ccm.now_data_num + 1 } in
        let read = record st { ccm = ccm0; txlist = st.txlist ++ tx ∷ [] } in
        let (st1, sent1, done1, (sound1, addressed1), maps1, num1) =
          send_batch-IsServed inject_speed clock read speed (
            rebuilt ccm ccm0 refl refl sound,
            All-append (λ t. IsAddressed n n t.sender) st.txlist (tx ∷ []) addressed (fit, tt),
          ) in
        let (ccm2, sent2, done2, sound2, maps2, silent2, same2) =
          repartition_if_due-IsRun (not (st1.ccm.clpa_last_running_time == 0)) clock order st1.ccm
            some_shard fits once sound1 in
        (
          record st1 { ccm = ccm2; reading = not (ccm2.now_data_num == ccm2.data_total_num) },
          sent1 ++ sent2,
          rw (done1, done2) refl,
          (sound2, addressed1),
          maps_in-append (IsBelow n) sent1 sent2 maps1 maps2,
          omega (
            arith,
            txs_in-append sent1 sent2,
            num1,
            silent2,
            same2,
            length-append st.txlist (tx ∷ []),
          ),
        )
