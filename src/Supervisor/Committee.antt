-- ===== src/Supervisor/Committee.antt =====
-- supervisor/committee/committee_clpa.go, and the part of `handleBlockInfos` in supervisor/supervisor.go
-- that does not measure. The loops of `MsgSendingControl` and the messages of the leaders take turns,
-- under the committee's lock, in an order that is a list of events. A time is a number of nanoseconds,
-- 0 for Go's zero time; each event holds what the clock reads. The numbers of transactions are taken
-- to be no negative ones.
pub mod Sound
pub mod Traffic
pub mod Serving
pub mod History
use aster.Prelude.{
  ℕ, zero, suc, ◌+◌, ◌-◌, ◌*◌, ◌^◌, Bool, true, false, not, ◌&&◌, ◌||◌, Option, none, some, List,
  [], ◌∷◌, ◌++◌, Bytes, bytes_eq, nat_eq, ◌==◌, Map, lookup, insert, Result, ok, panic, ◌>>=◌,
  if◌then◌else◌, length, leb, ltb,
}
use aster.Prelude.Int.{ℤ, pos, sub_ℕ, int_eq}
use aster.Core.Transaction.{Transaction}
use aster.Message.BlockInfo.{BlockInfoMsg}
use aster.Utils.{addr2_shard}
use aster.Chain.{to_uint64}
use aster.Partition.Graph.{Vertex, Graph}
use aster.Partition.Clpa.{Floats, ClpaState, add_edge}
use aster.Partition.Propagation.{clpa_partition}
use aster.Partition.Building.{init_clpa_state}
use aster.Supervisor.Signal.{StopSignal, stop_gap_inc, stop_gap_reset, gap_enough}
use aster.Supervisor.Loading.{data2tx}
use aster.Supervisor.Sending.{InjectTxs, tx_sending}

-- `int(v)` of a `uint64`.
abbrev pub to_int : ℕ → ℤ
to_int v = if ltb v (2 ^ 63) then pos v else sub_ℕ 0 (2 ^ 64 - v)

-- A second of `time.Duration`.
abbrev pub second : ℕ
second = 1000000000

-- `PartitionModifiedMap`, to the leader of one shard, or transactions.
pub data Sent : Type 0 where
  inject : InjectTxs → Sent
  partition_modified : ℕ → Map Bytes ℕ → Sent

pub record ClpaCommittee (F : Floats) : Type 0 where
  pub data_total_num : ℕ
  pub now_data_num : ℕ
  pub batch_data_num : ℕ
  pub clpa_graph : ClpaState F
  pub modified_map : Map Bytes ℕ
  pub clpa_last_running_time : ℕ
  pub clpa_freq : ℕ
  -- The pointer `Ss`, which the supervisor shares.
  pub ss : StopSignal

-- A committee with the local variable `txlist`, and whether the first loop still reads rows.
pub record Control (F : Floats) : Type 0 where
  pub ccm : ClpaCommittee F
  pub txlist : List Transaction
  pub reading : Bool

-- What the clock reads for a new transaction, for the first batch, for the test of the frequency and
-- after a partition.
pub record Clock : Type 0 where
  pub created : ℕ
  pub started : ℕ
  pub checked : ℕ
  pub finished : ℕ

-- The vertices in the order of each iteration of a partition.
abbrev pub Order : Type 0
Order = Graph → ℕ → List Vertex

pub data CommitteeEvent : Type 0 where
  row_read : Clock → Order → List Bytes → CommitteeEvent
  rows_over : CommitteeEvent
  waited : Clock → Order → CommitteeEvent
  block_info : BlockInfoMsg → CommitteeEvent

unfoldable pub fetch_modified_map : ℕ → Map Bytes ℕ → Bytes → Result ℕ
fetch_modified_map params_shard_num m key = elim (lookup key m) [
  | none ↦ do s ← addr2_shard params_shard_num key; ok (to_uint64 s)
  | some val ↦ ok val
]

unfoldable pub send_all : List InjectTxs → List Sent
send_all [] = []
send_all (it ∷ its) = Sent.inject it ∷ send_all its

-- The loop of `clpaMapSend` over the shards, from `i` on.
unfoldable pub clpa_map_send : ℕ → ℕ → Map Bytes ℕ → List Sent
clpa_map_send i zero m = []
clpa_map_send i (suc n) m = Sent.partition_modified i m ∷ clpa_map_send (i + 1) n m

-- `for key, val := range mmap`
unfoldable pub update_map : Map Bytes ℕ → Map Bytes ℕ → Map Bytes ℕ
update_map [] m = m
update_map ((key, val) ∷ rest) m = update_map rest (insert key val m)

unfoldable pub place_all : Map Bytes ℕ → Map Vertex ℤ → Map Vertex ℤ
place_all [] m = m
place_all ((key, val) ∷ rest) m = place_all rest (insert key (to_int val) m)

module _ {F : Floats} where
  -- `new(partition.CLPAState)` and `Init_CLPAState(0.5, 100, n)`
  unfoldable pub new_clpa : ℕ → ClpaState F
  unfolding init_clpa_state
  new_clpa n = init_clpa_state (F.divide (F.of_int (pos 1)) (F.of_int (pos 2))) 100 n (record {
    net_graph = record { vertex_set = []; edge_set = none };
    partition_map = [];
    edges2_shard = [];
    vertexs_num_in_shard = [];
    weight_penalty = F.of_int (pos 0);
    min_edges2_shard = pos 0;
    max_iterations = 0;
    cross_shard_edge_num = pos 0;
    shard_num = 0;
  })

  -- `NewCLPACommitteeModule`
  unfoldable pub new_clpa_committee : ℕ → StopSignal → ℕ → ℕ → ℕ → ClpaCommittee F
  unfolding new_clpa
  new_clpa_committee params_shard_num ss data_num batch_num clpa_frequency = record {
    data_total_num = data_num;
    now_data_num = 0;
    batch_data_num = batch_num;
    clpa_graph = new_clpa params_shard_num;
    modified_map = [];
    clpa_last_running_time = 0;
    clpa_freq = clpa_frequency;
    ss = ss;
  }

  -- The local variables of `MsgSendingControl` at first.
  abbrev pub new_control : ClpaCommittee F → Control F
  new_control ccm = record { ccm = ccm; txlist = []; reading = true }

  unfoldable pub clpa_reset : ℕ → ClpaCommittee F → ClpaCommittee F
  unfolding new_clpa place_all
  clpa_reset params_shard_num ccm =
      let cs = new_clpa params_shard_num in
      record ccm {
        clpa_graph = record cs { partition_map = place_all ccm.modified_map cs.partition_map };
      }

  -- The body that both loops run under the lock, up to the new time.
  unfoldable pub repartition :
      ℕ → Order → ℕ → ClpaCommittee F → Result (ClpaCommittee F × List Sent)
  unfolding clpa_reset clpa_map_send update_map
  repartition params_shard_num order finished ccm = do
    (cs, mmap, cross) ← clpa_partition (order ccm.clpa_graph.net_graph) ccm.clpa_graph
    let ccm' = record ccm { clpa_graph = cs; modified_map = update_map mmap ccm.modified_map }
    ok (
      record (clpa_reset params_shard_num ccm') { clpa_last_running_time = finished },
      clpa_map_send 0 params_shard_num mmap,
    )

  unfoldable pub add_edges : ℕ → List Transaction → ClpaState F → Result (ClpaState F)
  unfolding add_edge
  add_edges params_shard_num [] cs = ok cs
  add_edges params_shard_num (tx ∷ txs) cs = do
    cs' ← add_edge params_shard_num tx.sender tx.recipient cs
    add_edges params_shard_num txs cs'

  -- `HandleBlockInfo`
  unfoldable pub handle_block_info : ℕ → BlockInfoMsg → ClpaCommittee F → Result (ClpaCommittee F)
  unfolding add_edges
  handle_block_info params_shard_num b ccm = if b.block_body_length == pos 0 then ok ccm else (do
    cs ← add_edges params_shard_num b.excuted_txs ccm.clpa_graph
    ok (record ccm { clpa_graph = cs }))

  -- `handleBlockInfos` up to the measures.
  unfoldable pub handle_block_infos : ℕ → BlockInfoMsg → ClpaCommittee F → Result (ClpaCommittee F)
  unfolding handle_block_info
  handle_block_infos params_shard_num bim ccm =
      let ss =
        if bim.block_body_length == pos 0 then stop_gap_inc ccm.ss else stop_gap_reset ccm.ss in
      handle_block_info params_shard_num bim (record ccm { ss = ss })

  -- The test of the frequency, which the first loop makes only once the time is set.
  unfoldable pub repartition_if_due :
      ℕ → Bool → Clock → Order → ClpaCommittee F → Result (ClpaCommittee F × List Sent)
  unfolding repartition
  repartition_if_due params_shard_num running clock order ccm =
      if running && leb (ccm.clpa_last_running_time + ccm.clpa_freq * second) clock.checked
      then repartition params_shard_num order clock.finished ccm
      else ok (ccm, [])

  -- The batch, if it is full or the last one.
  unfoldable pub send_batch : ℕ → ℕ → Clock → Control F → Result (Control F × List Sent)
  unfolding fetch_modified_map send_all
  send_batch inject_speed params_shard_num clock st =
      let ccm = st.ccm in
      let last =
        if ccm.clpa_last_running_time == 0 then clock.started else ccm.clpa_last_running_time in
      if length st.txlist == ccm.batch_data_num || ccm.now_data_num == ccm.data_total_num
      then (do
        its ←
            tx_sending (fetch_modified_map params_shard_num ccm.modified_map) inject_speed
              params_shard_num st.txlist
        ok (
          record st {
            ccm = record ccm { clpa_last_running_time = last; ss = stop_gap_reset ccm.ss };
            txlist = [];
          },
          send_all its,
        ))
      else ok (st, [])

  -- What the first loop does with a transaction that was read.
  unfoldable pub take_tx :
      ℕ → ℕ → Clock → Order → Transaction → Control F → Result (Control F × List Sent)
  unfolding send_batch repartition_if_due
  take_tx inject_speed params_shard_num clock order tx st = do
    let ccm = st.ccm
    let read = record st {
      ccm = record ccm { now_data_num = ccm.now_data_num + 1 };
      txlist = st.txlist ++ tx ∷ [];
    }
    (st1, sent1) ← send_batch inject_speed params_shard_num clock read
    (ccm2, sent2) ←
        repartition_if_due params_shard_num (not (st1.ccm.clpa_last_running_time == 0)) clock order
          st1.ccm
    ok (
      record st1 { ccm = ccm2; reading = not (ccm2.now_data_num == ccm2.data_total_num) },
      sent1 ++ sent2,
    )

  module _ (sha256 : Bytes → Bytes) (encode_tx : Transaction → Bytes)
      (inject_speed params_shard_num : ℕ) where
    unfoldable pub read_row :
        Clock → Order → List Bytes → Control F → Result (Control F × List Sent)
    unfolding data2tx take_tx
    read_row clock order row st = do
      read ← data2tx sha256 encode_tx clock.created row st.ccm.now_data_num
      elim read [
        | none ↦ ok (st, [])
        | some tx ↦ take_tx inject_speed params_shard_num clock order tx st
      ]

    -- One event; an event of the loop that does not run is without effect.
    unfoldable pub step : CommitteeEvent → Control F → Result (Control F × List Sent)
    unfolding read_row repartition_if_due handle_block_infos
    step (row_read clock order row) st =
        if st.reading then read_row clock order row st else ok (st, [])
    step rows_over st = ok (record st { reading = false }, [])
    step (waited clock order) st = if st.reading || gap_enough st.ccm.ss then ok (st, []) else (do
      (ccm, sent) ← repartition_if_due params_shard_num true clock order st.ccm
      ok (record st { ccm = ccm }, sent))
    step (block_info b) st = do
      ccm ← handle_block_infos params_shard_num b st.ccm
      ok (record st { ccm = ccm }, [])

    unfoldable pub steps : List CommitteeEvent → Control F → Result (Control F × List Sent)
    unfolding step
    steps [] st = ok (st, [])
    steps (e ∷ es) st = do
      (st1, sent1) ← step e st
      (st2, sent2) ← steps es st1
      ok (st2, sent1 ++ sent2)
