-- ===== src/Supervisor/Committee/History.antt =====
-- Histories of the committee of supervisor/committee/committee_clpa.go: any events in any order.
use aster.Prelude.{
  ℕ, ◌+◌, ◌^◌, ◌<◌, ◌≤◌, ◌≡◌, ◌⊎◌, refl, ◌∙◌, true, false, ◌||◌, none, some, List, [], ◌∷◌, ◌++◌,
  Bytes, bytes_eq, nat_eq, ◌==◌, All, Result, ok, if◌then◌else◌, arith, Bool-cases, inl, inr,
  length,
}
use aster.Prelude.Int.{pos, int_eq}
use aster.Core.Transaction.{Transaction}
use aster.Partition.Clpa.{Floats}
use aster.Partition.Building.{IsAddressed}
use aster.Supervisor.Signal.{StopSignal, stop_gap_inc, stop_gap_reset, gap_enough}
use aster.Supervisor.Loading.{data2tx}
use aster.Supervisor.Committee.{
  new_control, Sent, Control, CommitteeEvent, Clock, Order, fetch_modified_map, new_clpa_committee,
  handle_block_infos, read_row, step, steps,
}
use aster.Supervisor.Committee.Sound.{
  IsBelow, IsEdge, new_clpa_committee-IsSound, handle_block_info-IsSound,
}
use aster.Supervisor.Committee.Traffic.{
  chosen, refused, txs_in, maps_in, txs_in-append, maps_in-append,
}
use aster.Supervisor.Committee.Serving.{
  IsOrder, IsHeld, IsServed, routable, rebuilt, repartition_if_due-IsRun, take_tx-IsServed,
}

module _ (sha256 : Bytes → Bytes) (encode_tx : Transaction → Bytes) (n : ℕ) where
  -- A row that is read, and if it is a transaction, its sender has a shard.
  abbrev pub IsRow : List Bytes → Type 0
  IsRow row =
      (now nonce : ℕ)
      → (data2tx sha256 encode_tx now row nonce ≡ ok none)
        ⊎ ((tx : Transaction) × (data2tx sha256 encode_tx now row nonce ≡ ok (some tx))
            × IsAddressed n n tx.sender)

  -- What the committee relies on.
  abbrev pub IsFit : CommitteeEvent → Type 0
  IsFit (CommitteeEvent.row_read clock order row) = IsOrder n order × IsRow row
  IsFit CommitteeEvent.rows_over = All IsRow []
  IsFit (CommitteeEvent.waited clock order) = IsOrder n order
  IsFit (CommitteeEvent.block_info b) = All (IsEdge n) b.excuted_txs

  module _ {F : Floats} where
    read_row-IsServed :
        (inject_speed : ℕ) (clock : Clock) (order : Order) (row : List Bytes) (st : Control F)
        → 0 < inject_speed
        → 0 < n
        → n ≤ 2 ^ 63
        → IsOrder n order
        → IsRow row
        → IsHeld n st
        → IsServed n st (read_row sha256 encode_tx inject_speed n clock order row st)
    unfolding read_row
    read_row-IsServed inject_speed clock order row st speed some_shard fits once legal held =
        elim (legal clock.created st.ccm.now_data_num) [
          | inl skipped ↦ (st, [], rw skipped refl, held, tt, omega arith)
          | inr (tx, read, fit) ↦
              let (st', sent, done, held', maps, num) =
                take_tx-IsServed n inject_speed clock order tx st speed some_shard fits once fit
                  held in
              (st', sent, rw read done, held', maps, num)
        ]

    step-IsServed :
        (inject_speed : ℕ) (e : CommitteeEvent) (st : Control F)
        → 0 < inject_speed
        → 0 < n
        → n ≤ 2 ^ 63
        → IsFit e
        → IsHeld n st
        → IsServed n st (step sha256 encode_tx inject_speed n e st)
    unfolding step handle_block_infos
    step-IsServed inject_speed (CommitteeEvent.row_read clock order row) st speed some_shard fits
          (once, legal) held =
        let now_reads = read_row sha256 encode_tx inject_speed n clock order row st in
        let stays : Result (Control F × List Sent) = ok (st, []) in
        let (st', sent, done, held', maps, num) =
          read_row-IsServed inject_speed clock order row st speed some_shard fits once legal held in
        elim (Bool-cases st.reading) [
          | inr over ↦ (st, [], refused st.reading now_reads stays over, held, tt, omega arith)
          | inl going ↦
              (st', sent, chosen st.reading now_reads stays going ∙ done, held', maps, num)
        ]
    step-IsServed inject_speed CommitteeEvent.rows_over st speed some_shard fits _ held =
        (record st { reading = false }, [], refl, held, tt, omega arith)
    step-IsServed inject_speed (CommitteeEvent.waited clock order) st speed some_shard fits once
          (sound, addressed) =
        let (ccm, sent, done, sound', maps, silent, same) =
          repartition_if_due-IsRun n true clock order st.ccm some_shard fits once sound in
        elim (Bool-cases (st.reading || gap_enough st.ccm.ss)) [
          | inl idle ↦ (st, [], rw idle refl, (sound, addressed), tt, omega arith)
          | inr busy ↦ (
            record st { ccm = ccm },
            sent,
            rw (busy, done) refl,
            (sound', addressed),
            maps,
            omega (arith, silent, same),
          )
        ]
    step-IsServed inject_speed (CommitteeEvent.block_info b) st speed some_shard fits fit
          (sound, addressed) =
        let ss =
          if b.block_body_length == pos 0
          then stop_gap_inc st.ccm.ss
          else stop_gap_reset st.ccm.ss in
        let ccm0 = record st.ccm { ss = ss } in
        let (ccm, done, sound', same) =
          handle_block_info-IsSound n b ccm0 fit (rebuilt n st.ccm ccm0 refl refl sound) in
        (record st { ccm = ccm }, [], rw done refl, (sound', addressed), tt, omega (arith, same))

    -- From a state that holds, any events do not panic when each is fit: the state holds again, the maps
    -- that were sent name shards of the system, and the transactions that were injected and those that
    -- wait are those that waited before and those that were read.
    pub steps-IsServed :
        (inject_speed : ℕ) (events : List CommitteeEvent) (st : Control F)
        → 0 < inject_speed
        → 0 < n
        → n ≤ 2 ^ 63
        → All IsFit events
        → IsHeld n st
        → IsServed n st (steps sha256 encode_tx inject_speed n events st)
    unfolding steps
    steps-IsServed inject_speed [] st speed some_shard fits _ held =
        (st, [], refl, held, tt, omega arith)
    steps-IsServed inject_speed (e ∷ events) st speed some_shard fits (fit, more) held =
        let (st1, sent1, done1, held1, maps1, num1) =
          step-IsServed inject_speed e st speed some_shard fits fit held in
        let (st2, sent2, done2, held2, maps2, num2) =
          steps-IsServed inject_speed events st1 speed some_shard fits more held1 in
        (
          st2,
          sent1 ++ sent2,
          rw (done1, done2) refl,
          held2,
          maps_in-append (IsBelow n) sent1 sent2 maps1 maps2,
          omega (arith, txs_in-append sent1 sent2, num1, num2),
        )

    pub steps-new_clpa_committee :
        (inject_speed data_num batch_num clpa_frequency : ℕ) (ss : StopSignal)
        (events : List CommitteeEvent) (key : Bytes)
        → 0 < inject_speed
        → 0 < n
        → n ≤ 2 ^ 63
        → All IsFit events
        → IsAddressed n n key
        → (st : Control F) × (sent : List Sent) × (sid : ℕ) × (steps sha256 encode_tx inject_speed n
              events
              (new_control (new_clpa_committee n ss data_num batch_num clpa_frequency))
            ≡ ok (st, sent))
          × All (IsBelow n) (maps_in sent)
          × (txs_in sent + length st.txlist ≡ st.ccm.now_data_num)
          × (fetch_modified_map n st.ccm.modified_map key ≡ ok sid)
          × (sid < n)
    unfolding new_clpa_committee
    steps-new_clpa_committee inject_speed data_num batch_num clpa_frequency ss events key speed
          some_shard fits fit addressed =
        let ccm = new_clpa_committee n ss data_num batch_num clpa_frequency in
        let (st, sent, done, (sound, waiting), maps, num) =
          steps-IsServed inject_speed events (new_control ccm) speed some_shard fits fit
            (new_clpa_committee-IsSound n ss data_num batch_num clpa_frequency some_shard, tt) in
        let (sid, routed, sid_in) = routable n inject_speed st.ccm key sound addressed in
        (st, sent, sid, done, maps, omega (arith, num), routed, sid_in)
