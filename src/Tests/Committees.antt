-- ===== src/Tests/Committees.antt =====
-- The committee that partitions two shards anew, with a block, a row and a partition, and the measures.
use aster.Prelude.{
  ℕ, ◌+◌, ◌<◌, ◌≡◌, refl, inl, inr, List, [], ◌∷◌, Bytes, bytes_eq, nat_eq, ◌==◌, count, filter,
  All, Bool-cases, ok, arith, bytes_beq, length, if◌then◌else◌, nat_beq_iff,
}
use aster.Prelude.Int.{pos}
use aster.Core.Transaction.{Transaction, new_transaction, unsigned}
use aster.Message.BlockInfo.{BlockInfoMsg}
use aster.Utils.{addr2_shard, parse_uint, last16, parse_digits, hex_digit, int_mod}
use aster.Partition.Graph.{Vertex}
use aster.Partition.Members.{vertices}
use aster.Partition.Building.{IsAddressed}
use aster.Supervisor.Signal.{new_stop_signal}
use aster.Supervisor.Loading.{data2tx, is_transfer, set_string, set_string_digits, parse_decimal}
use aster.Supervisor.Sending.{InjectTxs, tx_sending, relay_route}
use aster.Supervisor.Sending.Delivery.{delivered, is_for, IsRouted, tx_sending_lem}
use aster.Supervisor.Committee.{
  Sent, Control, new_control, Clock, Order, CommitteeEvent, fetch_modified_map, new_clpa_committee,
  steps,
}
use aster.Supervisor.Committee.Sound.{IsBelow, IsEdge}
use aster.Supervisor.Committee.Traffic.{txs_in, maps_in}
use aster.Supervisor.Measures.{
  CrossTxRate, AvgTps, new_cross_tx_rate, new_avg_tps, update_cross_tx_rate, update_avg_tps,
}
use aster.Supervisor.Measures.Agreement.{measured, IsCounted, measured-measured}
use aster.Supervisor.Committee.History.{IsRow, IsFit, steps-new_clpa_committee}
use aster.Tests.Partitions.{whole}
use aster.Tests.Samples.{alice, bob, two}

alice-IsAddressed : IsAddressed 2 2 alice
unfolding addr2_shard parse_uint last16 parse_digits hex_digit int_mod
alice-IsAddressed = (0, refl, omega arith)

bob-IsAddressed : IsAddressed 2 2 bob
unfolding addr2_shard parse_uint last16 parse_digits hex_digit int_mod
bob-IsAddressed = (1, refl, omega arith)

abbrev sender_home : Bytes → ℕ
sender_home key = if key == alice then 0 else 1

two-IsRouted : All (IsRouted (relay_route 2) 1 2 sender_home) two
unfolding relay_route addr2_shard parse_uint last16 parse_digits hex_digit int_mod bytes_beq
two-IsRouted = (refl, (refl, tt))

tx_sending_example :
    (sent : List InjectTxs) × (tx_sending (relay_route 2) 1 2 two ≡ ok sent)
    × (delivered 1 sent ≡ filter (is_for (relay_route 2) 1 2 sender_home 1) two)
tx_sending_example =
    tx_sending_lem (relay_route 2) 1 2 sender_home 1 two (omega arith) (omega arith) two-IsRouted

-- The block of "0" and "1" that pay each other.
abbrev info : BlockInfoMsg
info = record {
  block_body_length = pos 2;
  excuted_txs = two;
  epoch = pos 0;
  propose_time = 1;
  commit_time = 2;
  sender_shard_id = 0;
  relay1_tx_num = 0;
  relay1_txs = [];
  broker1_tx_num = 0;
  broker1_txs = [];
  broker2_tx_num = 0;
  broker2_txs = [];
}

two_edges : All (IsEdge 2) two
unfolding bytes_beq
two_edges =
    ((alice-IsAddressed, bob-IsAddressed, refl), ((bob-IsAddressed, alice-IsAddressed, refl), tt))

-- The vertices that the graph has once.
abbrev once_each : Order
once_each g i = filter (λ x. count x (vertices g) == 1) (vertices g)

filtered-once : (vs xs : List Vertex) → All (λ x. count x vs ≡ 1) (filter (λ x. count x vs == 1) xs)
filtered-once vs [] = tt
filtered-once vs (x ∷ xs) = elim (Bool-cases (count x vs == 1)) [
  | inl once ↦ rw once ((nat_beq_iff (count x vs) 1).0 once, filtered-once vs xs)
  | inr other ↦ rw other (filtered-once vs xs)
]

-- "0x" and sixteen digits, the last of them given.
abbrev address : ℕ → Bytes
address c =
    b'0' ∷ b'x' ∷ 48 ∷ 48 ∷ 48 ∷ 48 ∷ 48 ∷ 48 ∷ 48 ∷ 48 ∷ 48 ∷ 48 ∷ 48 ∷ 48 ∷ 48 ∷ 48 ∷ 48 ∷ c ∷ []

abbrev row : List Bytes
row = [] ∷ [] ∷ [] ∷ address 48 ∷ address 49 ∷ [] ∷ (b'0' ∷ []) ∷ (b'0' ∷ []) ∷ (b'7' ∷ []) ∷ []

abbrev sha256 : Bytes → Bytes
sha256 bs = bs

abbrev encode_tx : Transaction → Bytes
encode_tx tx = tx.sender

row_legal : IsRow sha256 encode_tx 2 row
unfolding data2tx is_transfer set_string set_string_digits parse_decimal bytes_beq addr2_shard
    parse_uint last16 parse_digits hex_digit int_mod new_transaction unsigned
row_legal now nonce = inr (
  new_transaction sha256 encode_tx now
      (48 ∷ 48 ∷ 48 ∷ 48 ∷ 48 ∷ 48 ∷ 48 ∷ 48 ∷ 48 ∷ 48 ∷ 48 ∷ 48 ∷ 48 ∷ 48 ∷ 48 ∷ 48 ∷ [])
      (48 ∷ 48 ∷ 48 ∷ 48 ∷ 48 ∷ 48 ∷ 48 ∷ 48 ∷ 48 ∷ 48 ∷ 48 ∷ 48 ∷ 48 ∷ 48 ∷ 48 ∷ 49 ∷ []) (pos 7)
      nonce,
  refl,
  (0, refl, omega arith),
)

abbrev clock : Clock
clock = record { created = 1; started = 2; checked = 3; finished = 4 }

-- A block, a row, the end of the rows, and a partition.
abbrev events : List CommitteeEvent
events =
    CommitteeEvent.block_info info
    ∷ CommitteeEvent.row_read clock once_each row
    ∷ CommitteeEvent.rows_over
    ∷ CommitteeEvent.waited clock once_each
    ∷ []

events-IsFit : All (IsFit sha256 encode_tx 2) events
events-IsFit = (
  two_edges,
  (
    ((λ g i. filtered-once (vertices g) (vertices g)), row_legal),
    (tt, ((λ g i. filtered-once (vertices g) (vertices g)), tt)),
  ),
)

steps_example :
    (st : Control whole) × (sent : List Sent) × (sid : ℕ) × (steps sha256 encode_tx 1 2 events
        (new_control (new_clpa_committee 2 (new_stop_signal 3) 10 1 0))
      ≡ ok (st, sent))
    × All (IsBelow 2) (maps_in sent)
    × (txs_in sent + length st.txlist ≡ st.ccm.now_data_num)
    × (fetch_modified_map 2 st.ccm.modified_map bob ≡ ok sid)
    × (sid < 2)
steps_example =
    steps-new_clpa_committee sha256 encode_tx 2 1 10 1 0 (new_stop_signal 3) events bob
      (omega arith) (omega arith) (ground arith) events-IsFit bob-IsAddressed

-- "info", and a later block whose transactions are relayed too.
abbrev infos : List BlockInfoMsg
infos =
    info
    ∷ record {
      block_body_length = pos 2;
      excuted_txs = two;
      epoch = pos 1;
      propose_time = 3;
      commit_time = 4;
      sender_shard_id = 0;
      relay1_tx_num = 2;
      relay1_txs = two;
      broker1_tx_num = 0;
      broker1_txs = [];
      broker2_tx_num = 0;
      broker2_txs = [];
    }
    ∷ []

infos-IsCounted : All IsCounted infos
infos-IsCounted = ((0, refl, refl), ((1, refl, refl), tt))

measured_example :
    (x : CrossTxRate) × (y : AvgTps) × (measured update_cross_tx_rate infos new_cross_tx_rate
      ≡ ok x)
    × (measured update_avg_tps infos new_avg_tps ≡ ok y)
    × (y.excuted_tx_num ≡ x.tot_tx_num)
    × (y.relay_tx ≡ x.relay_tx_record)
measured_example = measured-measured infos infos-IsCounted
