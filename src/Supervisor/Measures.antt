-- ===== src/Supervisor/Measures.antt =====
-- supervisor/measure: measure_avgTPS_relay.go and measure_CrossTxRate_Relay.go, up to the quotients that
-- they output. A count of transactions is a number of halves, which float64 holds exactly below 2^52. A
-- time is a number of ticks, 0 for Go's zero time.
pub mod Counting
pub mod Agreement
use aster.Prelude.{
  ℕ, zero, suc, ◌||◌, Bool, true, List, [], ◌∷◌, ◌++◌, Bytes, bytes_eq, nat_eq, ◌==◌, Map, insert,
  has_key, Result, ok, panic, ◌>>=◌, if◌then◌else◌, ltb, length,
}
use aster.Prelude.Int.{ℤ, pos, negsuc, pos_part, ◌+ℤ◌, ◌-ℤ◌, int_eq}
use aster.Core.Transaction.{Transaction}
use aster.Message.BlockInfo.{BlockInfoMsg}
use aster.Partition.Arrays.{add_at}

-- `TestCrossTxRate_Relay`
pub record CrossTxRate : Type 0 where
  pub epoch_id : ℤ
  pub tot_tx_num : List ℤ
  pub tot_cross_tx_num : List ℤ
  pub relay_tx_record : Map Bytes Bool

-- `TestModule_avgTPS_Relay`
pub record AvgTps : Type 0 where
  pub epoch_id : ℤ
  pub excuted_tx_num : List ℤ
  pub relay_tx : Map Bytes Bool
  pub start_time : List ℕ
  pub end_time : List ℕ

unfoldable pub new_cross_tx_rate : CrossTxRate
new_cross_tx_rate = record {
  epoch_id = negsuc 0;
  tot_tx_num = [];
  tot_cross_tx_num = [];
  relay_tx_record = [];
}

unfoldable pub new_avg_tps : AvgTps
new_avg_tps = record {
  epoch_id = negsuc 0;
  excuted_tx_num = [];
  relay_tx = [];
  start_time = [];
  end_time = [];
}

-- How often the loop `for epochID < epochid` runs, and what it appends.
abbrev pub rounds : ℤ → ℤ → ℕ
rounds epoch_id epochid = pos_part (epochid -ℤ epoch_id)

unfoldable pub extend : {A : Type 0} → ℕ → A → List A → List A
extend zero x xs = xs
extend (suc n) x xs = extend n x (xs ++ x ∷ [])

-- The loop over the transactions that are relayed, on the record, the total and the cross-shard count.
unfoldable pub count_relay1 :
    ℤ
    → List Transaction
    → Map Bytes Bool × List ℤ × List ℤ
    → Result (Map Bytes Bool × List ℤ × List ℤ)
count_relay1 e [] c = ok c
count_relay1 e (r1tx ∷ txs) (m, tot, cross) = do
  cross' ← add_at e (pos 1) cross
  tot' ← add_at e (pos 1) tot
  count_relay1 e txs (insert r1tx.tx_hash true m, tot', cross')

-- The loop over the transactions that are executed.
unfoldable pub count_executed :
    ℤ → Map Bytes Bool → List Transaction → List ℤ × List ℤ → Result (List ℤ × List ℤ)
count_executed e m [] c = ok c
count_executed e m (tx ∷ txs) (tot, cross) =
    if has_key tx.tx_hash m
    then (do
      tot' ← add_at e (pos 1) tot
      cross' ← add_at e (pos 1) cross
      count_executed e m txs (tot', cross'))
    else (do tot' ← add_at e (pos 2) tot; count_executed e m txs (tot', cross))

-- `UpdateMeasureRecord` of the rate of cross-shard transactions.
unfoldable pub update_cross_tx_rate : BlockInfoMsg → CrossTxRate → Result CrossTxRate
unfolding extend count_relay1 count_executed
update_cross_tx_rate b x = if b.block_body_length == pos 0 then ok x else (do
  let n = rounds x.epoch_id b.epoch
  (m, tot, cross) ←
      count_relay1 b.epoch b.relay1_txs
        (x.relay_tx_record, extend n (pos 0) x.tot_tx_num, extend n (pos 0) x.tot_cross_tx_num)
  (tot', cross') ← count_executed b.epoch m b.excuted_txs (tot, cross)
  ok (record {
    epoch_id = x.epoch_id +ℤ pos n;
    tot_tx_num = tot';
    tot_cross_tx_num = cross';
    relay_tx_record = m;
  }))

unfoldable pub mark_relay : List Transaction → Map Bytes Bool → Map Bytes Bool
mark_relay [] m = m
mark_relay (tx ∷ txs) m = mark_relay txs (insert tx.tx_hash true m)

unfoldable pub count_tps : ℤ → Map Bytes Bool → List Transaction → List ℤ → Result (List ℤ)
count_tps e m [] tot = ok tot
count_tps e m (tx ∷ txs) tot = do
  tot' ← add_at e (if has_key tx.tx_hash m then pos 1 else pos 2) tot
  count_tps e m txs tot'

-- A time at an index, kept or replaced.
unfoldable pub set_time : (ℕ → ℕ) → ℕ → List ℕ → Result (List ℕ)
set_time f i [] = panic
set_time f zero (x ∷ xs) = ok (f x ∷ xs)
set_time f (suc i) (x ∷ xs) = do ys ← set_time f i xs; ok (x ∷ ys)

unfoldable pub time_at : (ℕ → ℕ) → ℤ → List ℕ → Result (List ℕ)
unfolding set_time
time_at f (pos i) xs = set_time f i xs
time_at f (negsuc i) xs = panic

abbrev pub earlier : ℕ → ℕ → ℕ
earlier time old = if old == 0 || ltb time old then time else old

abbrev pub later : ℕ → ℕ → ℕ
later time old = if old == 0 || ltb old time then time else old

-- `UpdateMeasureRecord` of the transactions per second.
unfoldable pub update_avg_tps : BlockInfoMsg → AvgTps → Result AvgTps
unfolding extend mark_relay count_tps time_at
update_avg_tps b x = if b.block_body_length == pos 0 then ok x else (do
  let n = rounds x.epoch_id b.epoch
  let m = mark_relay b.relay1_txs x.relay_tx
  tot ← add_at b.epoch (pos b.relay1_tx_num) (extend n (pos 0) x.excuted_tx_num)
  tot' ← count_tps b.epoch m b.excuted_txs tot
  starts ← time_at (earlier b.propose_time) b.epoch (extend n 0 x.start_time)
  ends ← time_at (later b.commit_time) b.epoch (extend n 0 x.end_time)
  ok (record {
    epoch_id = x.epoch_id +ℤ pos n;
    excuted_tx_num = tot';
    relay_tx = m;
    start_time = starts;
    end_time = ends;
  }))
