-- ===== src/Supervisor/Measures/Agreement.antt =====
-- What the two measures of supervisor/measure that count in halves agree on, over any blocks.
use aster.Prelude.{
  ℕ, Bool, Map, Bytes, zero, suc, ◌+◌, ◌<◌, ◌≡◌, refl, ap, sym, ◌∙◌, List, [], ◌∷◌, bytes_eq,
  nat_eq, ◌==◌, Result, ok, ◌>>=◌, length, All, arith, Bool-cases, inl, inr,
}
use aster.Prelude.Int.{ℤ, pos, negsuc, ◌+ℤ◌, int_eq, int_laws}
use aster.Message.BlockInfo.{BlockInfoMsg}
use aster.Supervisor.Measures.{
  CrossTxRate, AvgTps, new_cross_tx_rate, new_avg_tps, rounds, extend, update_cross_tx_rate,
  mark_relay, time_at, earlier, later, update_avg_tps,
}
use aster.Supervisor.Measures.Counting.{
  bumped, add_at-bumped, length-bumped, length-extend, count_relay1_lem, count_executed-count_tps,
  set_time_lem,
}

-- A measure over several blocks.
abbrev pub measured :
    {S : Type 0} → (BlockInfoMsg → S → Result S) → List BlockInfoMsg → S → Result S
measured update [] x = ok x
measured update (b ∷ bs) x = do x' ← update b x; measured update bs x'

-- The epoch is no negative one, and the number of relayed transactions is right.
abbrev pub IsCounted : BlockInfoMsg → Type 0
IsCounted b = (e : ℕ) × (b.epoch ≡ pos e) × (b.relay1_tx_num ≡ length b.relay1_txs)

-- The last epoch of so many.
abbrev last_epoch : ℕ → ℤ
last_epoch zero = negsuc 0
last_epoch (suc l) = pos l

-- The measures after the same blocks.
pub record AreAgreed (x : CrossTxRate) (y : AvgTps) : Type 0 where
  pub epoch : y.epoch_id ≡ x.epoch_id
  pub totals : y.excuted_tx_num ≡ x.tot_tx_num
  pub relays : y.relay_tx ≡ x.relay_tx_record
  pub last : x.epoch_id ≡ last_epoch (length x.tot_tx_num)
  pub crosses : length x.tot_cross_tx_num ≡ length x.tot_tx_num
  pub starts : length y.start_time ≡ length x.tot_tx_num
  pub ends : length y.end_time ≡ length x.tot_tx_num

-- The arrays reach to the epoch.
reached : (e l : ℕ) → e < l + rounds (last_epoch l) (pos e)
reached e zero = omega int_laws
reached e (suc l) = omega int_laws

further : (n l : ℕ) → last_epoch l +ℤ pos n ≡ last_epoch (l + n)
further n (suc l) =
    let next : suc (l + n) ≡ suc l + n = omega arith in
    let sum : pos l +ℤ pos n ≡ pos (l + n) = omega int_laws in sum ∙ ap last_epoch next
further zero zero = omega int_laws
further (suc n) zero =
    let next : suc n ≡ 0 + suc n = omega arith in
    let sum : negsuc 0 +ℤ pos (suc n) ≡ pos n = omega int_laws in sum ∙ ap last_epoch next

-- The measures after a block, with their new arrays.
abbrev next_rate : ℕ → CrossTxRate → List ℤ → List ℤ → Map Bytes Bool → CrossTxRate
next_rate n x tot cross m = record {
  epoch_id = x.epoch_id +ℤ pos n;
  tot_tx_num = tot;
  tot_cross_tx_num = cross;
  relay_tx_record = m;
}

abbrev next_tps : ℕ → CrossTxRate → List ℤ → List ℕ → List ℕ → Map Bytes Bool → AvgTps
next_tps n x tot starts ends m = record {
  epoch_id = x.epoch_id +ℤ pos n;
  excuted_tx_num = tot;
  relay_tx = m;
  start_time = starts;
  end_time = ends;
}

-- Arrays that are longer by the same number agree again.
next_rate-next_tps :
    (n : ℕ) (x : CrossTxRate) (y : AvgTps) (tot cross : List ℤ) (starts ends : List ℕ)
    (m : Map Bytes Bool)
    → AreAgreed x y
    → length tot ≡ length x.tot_tx_num + n
    → length cross ≡ length x.tot_tx_num + n
    → length starts ≡ length x.tot_tx_num + n
    → length ends ≡ length x.tot_tx_num + n
    → AreAgreed (next_rate n x tot cross m) (next_tps n x tot starts ends m)
next_rate-next_tps n x y tot cross starts ends m agreed tot_len cross_len starts_len ends_len =
    record {
      epoch = refl;
      totals = refl;
      relays = refl;
      last =
          ap (λ z. z +ℤ pos n) agreed.last
          ∙ further n (length x.tot_tx_num)
          ∙ ap last_epoch (sym tot_len);
      crosses = cross_len ∙ sym tot_len;
      starts = starts_len ∙ sym tot_len;
      ends = ends_len ∙ sym tot_len;
    }

-- The length of an array that is extended.
extended :
    {A : Type 0} → (n l : ℕ) (z : A) (xs : List A) → length xs ≡ l → length (extend n z xs) ≡ l + n
extended n l z xs len = length-extend n z xs ∙ ap (λ k. k + n) len

update_cross_tx_rate-update_avg_tps :
    (b : BlockInfoMsg) (x : CrossTxRate) (y : AvgTps)
    → IsCounted b
    → AreAgreed x y
    → (x' : CrossTxRate) × (y' : AvgTps) × (update_cross_tx_rate b x ≡ ok x')
      × (update_avg_tps b y ≡ ok y')
      × AreAgreed x' y'
unfolding update_cross_tx_rate update_avg_tps time_at
update_cross_tx_rate-update_avg_tps b x y (e, epoch, num) agreed =
    elim (Bool-cases (b.block_body_length == pos 0)) [
      | inl blank ↦ (x, y, rw blank refl, rw blank refl, agreed)
      | inr full ↦
          let n = rounds x.epoch_id (pos e) in
          let l = length x.tot_tx_num in
          let tot = extend n (pos 0) x.tot_tx_num in
          let cross = extend n (pos 0) x.tot_cross_tx_num in
          let in_range : e < l + n = rw agreed.last (reached e l) in
          let tot_len = extended n l (pos 0) x.tot_tx_num refl in
          let cross_len = extended n l (pos 0) x.tot_cross_tx_num agreed.crosses in
          let starts_len = extended n l 0 y.start_time agreed.starts in
          let ends_len = extended n l 0 y.end_time agreed.ends in
          let r = pos (length b.relay1_txs) in
          let m = mark_relay b.relay1_txs x.relay_tx_record in
          let tot_len1 = length-bumped e r tot ∙ tot_len in
          let cross_len1 = length-bumped e r cross ∙ cross_len in
          let tot_in : e < length tot = rw tot_len in_range in
          let cross_in : e < length cross = rw cross_len in_range in
          let relayed =
            count_relay1_lem e b.relay1_txs x.relay_tx_record tot cross tot_in cross_in in
          let raised = add_at-bumped e r tot tot_in in
          let (tot2, cross2, run, run', len, len') =
            count_executed-count_tps e m b.excuted_txs (bumped e r tot) (bumped e r cross)
              (rw tot_len1 in_range) (rw cross_len1 in_range) in
          let (starts', set, starts_len') =
            set_time_lem (earlier b.propose_time) e (extend n 0 y.start_time)
              (rw starts_len in_range) in
          let (ends', set', ends_len') =
            set_time_lem (later b.commit_time) e (extend n 0 y.end_time) (rw ends_len in_range) in
          (
            next_rate n x tot2 cross2 m,
            next_tps n x tot2 starts' ends' m,
            rw (full, epoch, relayed, run) refl,
            rw
                (
                  full, epoch, agreed.epoch, agreed.totals, agreed.relays, num, raised, run', set,
                  set',
                )
                refl,
            next_rate-next_tps n x y tot2 cross2 starts' ends' m agreed (len ∙ tot_len1)
                (len' ∙ cross_len1) (starts_len' ∙ starts_len) (ends_len' ∙ ends_len),
          )
    ]

measured_lem :
    (bs : List BlockInfoMsg) (x : CrossTxRate) (y : AvgTps)
    → All IsCounted bs
    → AreAgreed x y
    → (x' : CrossTxRate) × (y' : AvgTps) × (measured update_cross_tx_rate bs x ≡ ok x')
      × (measured update_avg_tps bs y ≡ ok y')
      × AreAgreed x' y'
measured_lem [] x y _ agreed = (x, y, refl, refl, agreed)
measured_lem (b ∷ bs) x y (counted, more) agreed =
    let (x1, y1, one, one', agreed1) = update_cross_tx_rate-update_avg_tps b x y counted agreed in
    let (x2, y2, rest, rest', agreed2) = measured_lem bs x1 y1 more agreed1 in
    (x2, y2, rw one rest, rw one' rest', agreed2)

-- Over any blocks whose epochs are no negative ones and whose number of relayed transactions is right,
-- the measures of transactions per second and of the rate of cross-shard transactions do not panic, and
-- count the same halves of transactions in each epoch.
pub measured-measured :
    (bs : List BlockInfoMsg)
    → All IsCounted bs
    → (x : CrossTxRate) × (y : AvgTps) × (measured update_cross_tx_rate bs new_cross_tx_rate ≡ ok x)
      × (measured update_avg_tps bs new_avg_tps ≡ ok y)
      × (y.excuted_tx_num ≡ x.tot_tx_num)
      × (y.relay_tx ≡ x.relay_tx_record)
unfolding new_cross_tx_rate new_avg_tps
measured-measured bs counted =
    let start : AreAgreed new_cross_tx_rate new_avg_tps = record {
      epoch = refl;
      totals = refl;
      relays = refl;
      last = refl;
      crosses = refl;
      starts = refl;
      ends = refl;
    } in
    let (x, y, run, run', agreed) = measured_lem bs new_cross_tx_rate new_avg_tps counted start in
    (x, y, run, run', agreed.totals, agreed.relays)
