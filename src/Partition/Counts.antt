-- ===== src/Partition/Counts.antt =====
-- `ComputeEdges2Shard` of partition/partition_CLPA.go against the edges of the graph.
use aster.Prelude.{
  ℕ, zero, suc, ◌+◌, ◌<◌, ◌≡◌, refl, ap, sym, ◌∙◌, ◌||◌, List, [], ◌∷◌, nat_eq, ◌==◌, Map, ok,
  if◌then◌else◌, arith, Bool-cases, inl, inr,
}
use mathlib.Core.Path.{fun_ext}
use aster.Prelude.Int.{ℤ, pos, ◌+ℤ◌, div2, int_eq, int_laws, add-zero}
use aster.Partition.Graph.{Vertex}
use aster.Partition.Arrays.{tabulate, tabulate_ext, bump, add_at-tabulate}
use aster.Partition.Edges.{sum_near, total}
use aster.Partition.Clpa.{shard_of, zeros, add_halves, sum_of, count_edge, count_list, count_edges}

-- How many edges have an end in a shard, and how many have their ends in two shards.
abbrev pub touching : (Vertex → ℕ) → ℕ → List (Vertex × Vertex) → ℕ
touching home k [] = 0
touching home k ((u, v) ∷ es) = (if home u == k || home v == k then 1 else 0) + touching home k es

abbrev pub crossing : (Vertex → ℕ) → List (Vertex × Vertex) → ℕ
crossing home [] = 0
crossing home ((u, v) ∷ es) = (if home u == home v then 0 else 1) + crossing home es

abbrev pub sum_below : ℕ → (ℕ → ℕ) → ℕ
sum_below zero c = 0
sum_below (suc n) c = c 0 + sum_below n (λ k. c (suc k))

pub sum_below-add :
    (n : ℕ) (a b : ℕ → ℕ) → sum_below n (λ k. a k + b k) ≡ sum_below n a + sum_below n b
sum_below-add zero a b = omega arith
sum_below-add (suc n) a b = omega (arith, sum_below-add n (λ k. a (suc k)) (λ k. b (suc k)))

pub sum_below_ext : (n : ℕ) (a b : ℕ → ℕ) → ((k : ℕ) → a k ≡ b k) → sum_below n a ≡ sum_below n b
sum_below_ext zero a b h = refl
sum_below_ext (suc n) a b h =
    omega (arith, h 0, sum_below_ext n (λ k. a (suc k)) (λ k. b (suc k)) (λ k. h (suc k)))

pub sum_below_zero : (n : ℕ) → sum_below n (λ k. 0) ≡ 0
sum_below_zero zero = refl
sum_below_zero (suc n) = omega (arith, sum_below_zero n)

abbrev pub point : ℕ → ℕ → ℕ
point i k = if i == k then 1 else 0

pub sum_below-point : (n i : ℕ) → i < n → sum_below n (point i) ≡ 1
sum_below-point zero i h = absurd (omega arith)
sum_below-point (suc n) zero h =
    omega
      (arith, sum_below_ext n (λ k. point 0 (suc k)) (λ k. 0) (λ k. ground arith), sum_below_zero n)
sum_below-point (suc n) (suc i) h = ground (
  arith,
  sum_below_ext n (λ k. point (suc i) (suc k)) (point i) (λ k. ground arith),
  sum_below-point n i (omega arith),
)

pub zeros-tabulate : (n : ℕ) → zeros n ≡ tabulate n (λ k. pos 0)
unfolding zeros
zeros-tabulate zero = refl
zeros-tabulate (suc n) = ap (λ xs. pos 0 ∷ xs) (zeros-tabulate n)

pub add_halves-tabulate :
    (n : ℕ) (f g : ℕ → ℤ)
    → add_halves (tabulate n f) (tabulate n g) ≡ tabulate n (λ k. f k +ℤ div2 (g k))
unfolding add_halves
add_halves-tabulate zero f g = refl
add_halves-tabulate (suc n) f g =
    ap (λ xs. (f 0 +ℤ div2 (g 0)) ∷ xs) (add_halves-tabulate n (λ k. f (suc k)) (λ k. g (suc k)))

pub pos-add : (a b : ℕ) → pos a +ℤ pos b ≡ pos (a + b)
pos-add a b = omega int_laws

pub sum_of-tabulate :
    (n : ℕ) (c : ℕ → ℕ) → sum_of (tabulate n (λ k. pos (c k))) ≡ pos (sum_below n c)
unfolding sum_of
sum_of-tabulate zero c = refl
sum_of-tabulate (suc n) c =
    rw (sum_of-tabulate n (λ k. c (suc k))) (pos-add (c 0) (sum_below n (λ k. c (suc k))))

add_assoc : (z : ℤ) (a b : ℕ) → (z +ℤ pos a) +ℤ pos b ≡ z +ℤ pos (a + b)
add_assoc z a b = omega int_laws

-- What the two arrays count for a neighbour `u` of `v`.
abbrev pub cut_at : (Vertex → ℕ) → ℕ → Vertex → Vertex → ℕ
cut_at home k v u = if home v == home u then 0 else (if home u == k then 1 else 0)

abbrev pub inner_at : (Vertex → ℕ) → ℕ → Vertex → Vertex → ℕ
inner_at home k v u = if home v == home u then (if home u == k then 1 else 0) else 0

-- Every vertex is in a shard below `n`.
abbrev pub IsHome : ℕ → Map Vertex ℤ → (Vertex → ℕ) → Type 0
IsHome n m home = (v : Vertex) → (shard_of m v ≡ pos (home v)) × (home v < n)

pub bump-point :
    (n i : ℕ) (f : ℕ → ℤ)
    → tabulate n (bump i (pos 1) f) ≡ tabulate n (λ k. f k +ℤ pos (if i == k then 1 else 0))
bump-point n i f =
    tabulate_ext n (bump i (pos 1) f) (λ k. f k +ℤ pos (if i == k then 1 else 0))
      (λ k l. ground (arith, add-zero (f k)))

add-none : (n : ℕ) (f : ℕ → ℤ) → tabulate n f ≡ tabulate n (λ k. f k +ℤ pos 0)
add-none n f = tabulate_ext n f (λ k. f k +ℤ pos 0) (λ k l. sym (add-zero (f k)))

module _ (n : ℕ) (m : Map Vertex ℤ) (home : Vertex → ℕ) (placed : IsHome n m home) where
  same_shard : (v u : Vertex) → (shard_of m v == shard_of m u) ≡ (home v == home u)
  same_shard v u = rw ((placed v).0, (placed u).0) (ground arith)

  abbrev pub arrays : (ℕ → ℤ) → (ℕ → ℤ) → (ℕ → ℕ) → (ℕ → ℕ) → List ℤ × List ℤ
  arrays f g a b = (tabulate n (λ k. f k +ℤ pos (a k)), tabulate n (λ k. g k +ℤ pos (b k)))

  count_edge_lem :
      (v u : Vertex) (f g : ℕ → ℤ)
      → count_edge m v u (tabulate n f, tabulate n g)
        ≡ ok (arrays f g (λ k. cut_at home k v u) (λ k. inner_at home k v u))
  unfolding count_edge
  count_edge_lem v u f g = elim (Bool-cases (home v == home u)) [
    | inl here ↦ rw (
      same_shard v u,
      here,
      (placed u).0,
      add_at-tabulate n (home u) (pos 1) g (placed u).1,
      bump-point n (home u) g,
      add-none n f,
    )
    | inr away ↦ rw (
      same_shard v u,
      away,
      (placed u).0,
      add_at-tabulate n (home u) (pos 1) f (placed u).1,
      bump-point n (home u) f,
      add-none n g,
    )
  ]

  -- Two rounds of counting are one.
  arrays-arrays :
      (f g : ℕ → ℤ) (a b a' b' : ℕ → ℕ)
      → arrays (λ k. f k +ℤ pos (a k)) (λ k. g k +ℤ pos (b k)) a' b'
        ≡ arrays f g (λ k. a k + a' k) (λ k. b k + b' k)
  arrays-arrays f g a b a' b' =
      rw (fun_ext (λ k. add_assoc (f k) (a k) (a' k)), fun_ext (λ k. add_assoc (g k) (b k) (b' k)))

  count_list_lem :
      (v : Vertex) (us : List Vertex) (f g : ℕ → ℤ)
      → count_list m v us (tabulate n f, tabulate n g)
        ≡ ok
            (arrays f g (λ k. sum_near (cut_at home k v) us) (λ k. sum_near (inner_at home k v) us))
  unfolding count_list
  count_list_lem v [] f g = rw (add-none n f, add-none n g)
  count_list_lem v (u ∷ us) f g =
      let a = λ (k : ℕ). cut_at home k v u in
      let b = λ (k : ℕ). inner_at home k v u in
      rw (count_edge_lem v u f g) (
        count_list_lem v us (λ k. f k +ℤ pos (a k)) (λ k. g k +ℤ pos (b k))
        ∙ ap (λ c. ok c)
            (arrays-arrays f g a b (λ k. sum_near (cut_at home k v) us)
              (λ k. sum_near (inner_at home k v) us)))

  pub count_edges_lem :
      (adj : Map Vertex (List Vertex)) (f g : ℕ → ℤ)
      → count_edges m adj (tabulate n f, tabulate n g)
        ≡ ok (arrays f g (λ k. total (cut_at home k) adj) (λ k. total (inner_at home k) adj))
  unfolding count_edges
  count_edges_lem [] f g = rw (add-none n f, add-none n g)
  count_edges_lem ((v, us) ∷ adj) f g =
      let a = λ (k : ℕ). sum_near (cut_at home k v) us in
      let b = λ (k : ℕ). sum_near (inner_at home k v) us in
      rw (count_list_lem v us f g) (
        count_edges_lem adj (λ k. f k +ℤ pos (a k)) (λ k. g k +ℤ pos (b k))
        ∙ ap (λ c. ok c)
            (arrays-arrays f g a b (λ k. total (cut_at home k) adj)
              (λ k. total (inner_at home k) adj)))
