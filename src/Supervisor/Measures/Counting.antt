-- ===== src/Supervisor/Measures/Counting.antt =====
-- The two measures of supervisor/measure that count a transaction between shards in halves, against each
-- other.
use aster.Prelude.{
  ℕ, zero, suc, ◌+◌, ◌<◌, ◌≡◌, refl, ap, ◌∙◌, Bool, true, List, [], ◌∷◌, ◌++◌, Bytes, bytes_eq,
  nat_eq, Map, insert, has_key, ok, length, length-append, arith, Bool-cases, inl, inr,
}
use aster.Prelude.Int.{ℤ, pos, ◌+ℤ◌, int_eq, int_laws, add-zero}
use aster.Core.Transaction.{Transaction}
use aster.Partition.Arrays.{add_nth, add_at}
use aster.Supervisor.Measures.{
  extend, count_relay1, count_executed, mark_relay, count_tps, set_time,
}

abbrev pub bumped : ℕ → ℤ → List ℤ → List ℤ
bumped i d [] = []
bumped zero d (x ∷ xs) = (x +ℤ d) ∷ xs
bumped (suc i) d (x ∷ xs) = x ∷ bumped i d xs

pub length-bumped : (i : ℕ) (d : ℤ) (xs : List ℤ) → length (bumped i d xs) ≡ length xs
length-bumped i d [] = refl
length-bumped zero d (x ∷ xs) = refl
length-bumped (suc i) d (x ∷ xs) = ap (λ n. suc n) (length-bumped i d xs)

bumped-bumped : (i : ℕ) (d e : ℤ) (xs : List ℤ) → bumped i e (bumped i d xs) ≡ bumped i (d +ℤ e) xs
bumped-bumped i d e [] = refl
bumped-bumped zero d e (x ∷ xs) = ap (λ y. y ∷ xs) (omega int_laws)
bumped-bumped (suc i) d e (x ∷ xs) = ap (λ ys. x ∷ ys) (bumped-bumped i d e xs)

bumped_none : (i : ℕ) (xs : List ℤ) → bumped i (pos 0) xs ≡ xs
bumped_none i [] = refl
bumped_none zero (x ∷ xs) = ap (λ y. y ∷ xs) (add-zero x)
bumped_none (suc i) (x ∷ xs) = ap (λ ys. x ∷ ys) (bumped_none i xs)

add_nth-bumped : (i : ℕ) (d : ℤ) (xs : List ℤ) → i < length xs → add_nth i d xs ≡ ok (bumped i d xs)
unfolding add_nth
add_nth-bumped i d [] h = absurd (omega (arith, h))
add_nth-bumped zero d (x ∷ xs) h = refl
add_nth-bumped (suc i) d (x ∷ xs) h = rw (add_nth-bumped i d xs (omega (arith, h))) refl

pub add_at-bumped :
    (i : ℕ) (d : ℤ) (xs : List ℤ) → i < length xs → add_at (pos i) d xs ≡ ok (bumped i d xs)
unfolding add_at
add_at-bumped i d xs h = add_nth-bumped i d xs h

pub length-extend :
    {A : Type 0} (n : ℕ) (x : A) (xs : List A) → length (extend n x xs) ≡ length xs + n
unfolding extend
length-extend zero x xs = omega arith
length-extend (suc n) x xs =
    omega (arith, length-extend n x (xs ++ x ∷ []), length-append xs (x ∷ []))

pub count_relay1_lem :
    (e : ℕ) (txs : List Transaction) (m : Map Bytes Bool) (tot cross : List ℤ)
    → e < length tot
    → e < length cross
    → count_relay1 (pos e) txs (m, tot, cross)
      ≡ ok (mark_relay txs m, bumped e (pos (length txs)) tot, bumped e (pos (length txs)) cross)
unfolding count_relay1 mark_relay
count_relay1_lem e [] m tot cross h h' = rw (bumped_none e tot, bumped_none e cross) refl
count_relay1_lem e (tx ∷ txs) m tot cross h h' =
    let tot' = bumped e (pos 1) tot in
    let cross' = bumped e (pos 1) cross in
    let one_more : pos 1 +ℤ pos (length txs) ≡ pos (suc (length txs)) = omega int_laws in
    rw
      (
        add_at-bumped e (pos 1) cross h',
        add_at-bumped e (pos 1) tot h,
        count_relay1_lem e txs (insert tx.tx_hash true m) tot' cross'
            (rw (length-bumped e (pos 1) tot) h) (rw (length-bumped e (pos 1) cross) h'),
        bumped-bumped e (pos 1) (pos (length txs)) tot,
        bumped-bumped e (pos 1) (pos (length txs)) cross,
        one_more,
      )
      refl

-- Both loops over the transactions that are executed have the same total.
pub count_executed-count_tps :
    (e : ℕ) (m : Map Bytes Bool) (txs : List Transaction) (tot cross : List ℤ)
    → e < length tot
    → e < length cross
    → (tot' : List ℤ) × (cross' : List ℤ) × (count_executed (pos e) m txs (tot, cross)
        ≡ ok (tot', cross'))
      × (count_tps (pos e) m txs tot ≡ ok tot')
      × (length tot' ≡ length tot)
      × (length cross' ≡ length cross)
unfolding count_executed count_tps
count_executed-count_tps e m [] tot cross h h' = (tot, cross, refl, refl, refl, refl)
count_executed-count_tps e m (tx ∷ txs) tot cross h h' = elim (Bool-cases (has_key tx.tx_hash m)) [
  | inl relayed ↦
      let tot1 = bumped e (pos 1) tot in
      let cross1 = bumped e (pos 1) cross in
      let same_tot = length-bumped e (pos 1) tot in
      let same_cross = length-bumped e (pos 1) cross in
      let (tot', cross', run, run', len, len') =
        count_executed-count_tps e m txs tot1 cross1 (rw same_tot h) (rw same_cross h') in
      (
        tot',
        cross',
        rw (relayed, add_at-bumped e (pos 1) tot h, add_at-bumped e (pos 1) cross h') run,
        rw (relayed, add_at-bumped e (pos 1) tot h) run',
        len ∙ same_tot,
        len' ∙ same_cross,
      )
  | inr whole ↦
      let tot1 = bumped e (pos 2) tot in
      let same_tot = length-bumped e (pos 2) tot in
      let (tot', cross', run, run', len, len') =
        count_executed-count_tps e m txs tot1 cross (rw same_tot h) h' in
      (
        tot',
        cross',
        rw (whole, add_at-bumped e (pos 2) tot h) run,
        rw (whole, add_at-bumped e (pos 2) tot h) run',
        len ∙ same_tot,
        len',
      )
]

pub set_time_lem :
    (f : ℕ → ℕ) (i : ℕ) (xs : List ℕ)
    → i < length xs
    → (ys : List ℕ) × (set_time f i xs ≡ ok ys) × (length ys ≡ length xs)
unfolding set_time
set_time_lem f i [] h = absurd (omega (arith, h))
set_time_lem f zero (x ∷ xs) h = (f x ∷ xs, refl, refl)
set_time_lem f (suc i) (x ∷ xs) h =
    let (ys, done, len) = set_time_lem f i xs (omega (arith, h)) in
    (x ∷ ys, rw done refl, ap (λ n. suc n) len)
