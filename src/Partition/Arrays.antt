-- ===== src/Partition/Arrays.antt =====
-- Go's `[]int` as a list of integers: reading and adding at an index that may be out of range, and an
-- array as the values of a function.
use aster.Prelude.{
  ℕ, zero, suc, ◌<◌, ◌≡◌, refl, ap, List, [], ◌∷◌, Result, ok, panic, ◌>>=◌, or_panic, get_elem?,
  nat_eq, ◌==◌, if◌then◌else◌, arith, length,
}
use aster.Prelude.Int.{ℤ, pos, negsuc, ◌+ℤ◌}

unfoldable pub at : List ℤ → ℤ → Result ℤ
at xs (pos i) = or_panic (get_elem? xs i)
at xs (negsuc i) = panic

unfoldable pub add_nth : ℕ → ℤ → List ℤ → Result (List ℤ)
add_nth i d [] = panic
add_nth zero d (x ∷ xs) = ok ((x +ℤ d) ∷ xs)
add_nth (suc i) d (x ∷ xs) = do ys ← add_nth i d xs; ok (x ∷ ys)

-- `xs[i] += d`
unfoldable pub add_at : ℤ → ℤ → List ℤ → Result (List ℤ)
unfolding add_nth
add_at (pos i) d xs = add_nth i d xs
add_at (negsuc i) d xs = panic

-- The values of a function at the indices below `n`.
abbrev pub tabulate : ℕ → (ℕ → ℤ) → List ℤ
tabulate zero f = []
tabulate (suc n) f = f 0 ∷ tabulate n (λ i. f (suc i))

pub length-tabulate : (n : ℕ) (f : ℕ → ℤ) → length (tabulate n f) ≡ n
length-tabulate zero f = refl
length-tabulate (suc n) f = ap (λ m. suc m) (length-tabulate n (λ i. f (suc i)))

abbrev pub bump : ℕ → ℤ → (ℕ → ℤ) → ℕ → ℤ
bump i d f k = if k == i then f k +ℤ d else f k

-- Two functions that agree below `n` have the same values there.
pub tabulate_ext :
    (n : ℕ) (f g : ℕ → ℤ) → ((i : ℕ) → i < n → f i ≡ g i) → tabulate n f ≡ tabulate n g
tabulate_ext zero f g h = refl
tabulate_ext (suc n) f g h =
    let rest = tabulate_ext n (λ i. f (suc i)) (λ i. g (suc i)) (λ i l. h (suc i) (omega arith)) in
    rw (h 0 (omega arith), rest)

add_nth-tabulate :
    (n i : ℕ) (d : ℤ) (f : ℕ → ℤ)
    → i < n
    → add_nth i d (tabulate n f) ≡ ok (tabulate n (bump i d f))
unfolding add_nth
add_nth-tabulate zero i d f h = absurd (omega arith)
add_nth-tabulate (suc n) zero d f h =
    let rest : tabulate n (λ i. f (suc i)) ≡ tabulate n (λ i. bump 0 d f (suc i)) =
      tabulate_ext n (λ i. f (suc i)) (λ i. bump 0 d f (suc i)) (λ i l. ground arith) in
    rw rest
add_nth-tabulate (suc n) (suc i) d f h =
    let rest : tabulate n (bump i d (λ k. f (suc k))) ≡ tabulate n (λ k. bump (suc i) d f (suc k)) =
      tabulate_ext n (bump i d (λ k. f (suc k))) (λ k. bump (suc i) d f (suc k))
        (λ k l. ground arith) in
    rw (add_nth-tabulate n i d (λ k. f (suc k)) (omega arith), rest) (ground arith)

pub add_at-tabulate :
    (n i : ℕ) (d : ℤ) (f : ℕ → ℤ)
    → i < n
    → add_at (pos i) d (tabulate n f) ≡ ok (tabulate n (bump i d f))
unfolding add_at
add_at-tabulate = add_nth-tabulate

pub at-tabulate : (n i : ℕ) (f : ℕ → ℤ) → i < n → at (tabulate n f) (pos i) ≡ ok (f i)
unfolding at
at-tabulate zero i f h = absurd (omega arith)
at-tabulate (suc n) zero f h = refl
at-tabulate (suc n) (suc i) f h = at-tabulate n i (λ k. f (suc k)) (omega arith)
