-- ===== src/Supervisor/Sending/Totals.antt =====
-- How many transactions `txSending` of supervisor/committee sends.
use aster.Prelude.{
  ℕ, zero, suc, ◌+◌, ◌%◌, ◌<◌, ◌≡◌, refl, ap, ◌∙◌, Bool, true, false, List, [], ◌∷◌, ◌++◌, length,
  length-append, Bytes, nat_eq, ◌==◌, Map, insert, lookup_or, lookup_or-nil, Result, ok,
  if◌then◌else◌, All, arith, Bool-cases, inl, inr,
}
use aster.Core.Transaction.{Transaction}
use aster.Partition.Counts.{
  sum_below, sum_below-add, sum_below_ext, sum_below_zero, sum_below-point, point,
}
use aster.Supervisor.Sending.Delivery.{filed}
use aster.Supervisor.Sending.{InjectTxs, inject, is_due, send_from, tx_sending}

-- The number of transactions in some messages.
abbrev pub injected : List InjectTxs → ℕ
injected [] = 0
injected (s ∷ ss) = length s.txs + injected ss

pub injected-append : (ss ts : List InjectTxs) → injected (ss ++ ts) ≡ injected ss + injected ts
injected-append [] ts = omega arith
injected-append (s ∷ ss) ts = omega (arith, injected-append ss ts)

abbrev filed_num : Map ℕ (List Transaction) → ℕ → ℕ
filed_num m sid = length (lookup_or [] sid m)

injected-inject :
    (from n : ℕ) (m : Map ℕ (List Transaction))
    → injected (inject from n m) ≡ sum_below n (λ k. filed_num m (from + k))
unfolding inject
injected-inject from zero m = refl
injected-inject from (suc n) m =
    let e : from + 0 ≡ from = omega arith in
    omega (
      arith,
      injected-inject (from + 1) n m,
      sum_below_ext n (λ k. filed_num m (from + 1 + k)) (λ k. filed_num m (from + suc k))
          (λ k. ap (filed_num m) (omega arith)),
      ap (filed_num m) e,
    )

injected-inject_all :
    (n : ℕ) (m : Map ℕ (List Transaction)) → injected (inject 0 n m) ≡ sum_below n (filed_num m)
injected-inject_all n m =
    injected-inject 0 n m
    ∙ sum_below_ext n (λ k. filed_num m (0 + k)) (filed_num m) (λ k. ap (filed_num m) (omega arith))

nothing_filed : (n : ℕ) → sum_below n (filed_num []) ≡ 0
nothing_filed n =
    sum_below_ext n (filed_num []) (λ k. 0)
      (λ k. rw (lookup_or-nil {V = List Transaction} [] k) refl)
    ∙ sum_below_zero n

length_one :
    (b : Bool) (tx : Transaction) → length (if b then tx ∷ [] else []) ≡ (if b then 1 else 0)
length_one true tx = refl
length_one false tx = refl

one_filed :
    (n i : ℕ) (tx : Transaction) (m : Map ℕ (List Transaction))
    → i < n
    → sum_below n (filed_num (insert i (lookup_or [] i m ++ tx ∷ []) m))
      ≡ suc (sum_below n (filed_num m))
one_filed n i tx m h =
    let m' = insert i (lookup_or [] i m ++ tx ∷ []) m in
    let each : (k : ℕ) → filed_num m' k ≡ filed_num m k + point i k = λ k.
      ap (λ xs. length xs) (filed k i tx m)
      ∙ length-append (lookup_or [] k m) (if i == k then tx ∷ [] else [])
      ∙ ap (λ l. filed_num m k + l) (length_one (i == k) tx) in
    omega (
      arith,
      sum_below_ext n (filed_num m') (λ k. filed_num m k + point i k) each,
      sum_below-add n (filed_num m) (point i),
      sum_below-point n i h,
    )

module _ (route : Bytes → Result ℕ) (inject_speed n : ℕ) where
  -- A route to one of the shards.
  abbrev pub IsRoutable : Bytes → Type 0
  IsRoutable key = (sid : ℕ) × (route key ≡ ok sid) × (sid < n)

  send_from-injected :
      (idx : ℕ) (txs : List Transaction) (m : Map ℕ (List Transaction))
      → 0 < idx
      → 0 < inject_speed
      → All (λ tx. IsRoutable tx.sender) txs
      → (sent : List InjectTxs) × (send_from route inject_speed n idx txs m ≡ ok sent)
        × (injected sent ≡ sum_below n (filed_num m) + length txs)
  unfolding send_from is_due
  send_from-injected idx [] m past speed _ =
      let fine : (inject_speed == 0) ≡ false = ground (arith, speed) in
      let later : (idx == 0) ≡ false = ground (arith, past) in
      (inject 0 n m, rw (later, fine) refl, omega (arith, injected-inject_all n m))
  send_from-injected idx (tx ∷ txs) m past speed ((to, here, to_in), more) =
      let fine : (inject_speed == 0) ≡ false = ground (arith, speed) in
      let later : (idx == 0) ≡ false = ground (arith, past) in
      let next =
        λ (left : Map ℕ (List Transaction)). insert to (lookup_or [] to left ++ tx ∷ []) left in
      elim (Bool-cases (idx % inject_speed == 0)) [
        | inl due ↦
            let (rest, done, got) =
              send_from-injected (idx + 1) txs (next []) (omega arith) speed more in
            (
              inject 0 n m ++ rest,
              rw (later, fine, due, here, done) refl,
              omega (
                arith,
                injected-append (inject 0 n m) rest,
                injected-inject_all n m,
                got,
                one_filed n to tx [] to_in,
                nothing_filed n,
              ),
            )
        | inr early ↦
            let (rest, done, got) =
              send_from-injected (idx + 1) txs (next m) (omega arith) speed more in
            (
              rest,
              rw (later, fine, early, here, done) refl,
              omega (arith, got, one_filed n to tx m to_in),
            )
      ]

  -- `txSending` sends as many transactions as it is given, when each sender has a route to one of the
  -- shards and the injection speed is not 0.
  pub tx_sending-injected :
      (txlist : List Transaction)
      → 0 < inject_speed
      → All (λ tx. IsRoutable tx.sender) txlist
      → (sent : List InjectTxs) × (tx_sending route inject_speed n txlist ≡ ok sent)
        × (injected sent ≡ length txlist)
  unfolding tx_sending send_from is_due
  tx_sending-injected [] speed _ = ([], refl, refl)
  tx_sending-injected (tx ∷ txs) speed ((to, here, to_in), more) =
      let (rest, done, got) =
        send_from-injected 1 txs (insert to (lookup_or [] to [] ++ tx ∷ []) []) (omega arith) speed
          more in
      (rest, rw (here, done) refl, omega (arith, got, one_filed n to tx [] to_in, nothing_filed n))
