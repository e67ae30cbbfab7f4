-- ===== src/Partition/Population.antt =====
-- The vertices in each shard while one moves, partition/partition_CLPA.go.
use aster.Prelude.{
  ℕ, ◌+◌, ◌<◌, ◌≤◌, ◌≡◌, refl, ap, sym, ◌∙◌, true, false, List, [], ◌∷◌, bytes_eq, nat_eq, ◌==◌,
  Map, ok, if◌then◌else◌, arith, Bool-cases, inl, inr, lookup_or, lookup_or-insert, insert, beq_sym,
  count, min,
}
use mathlib.Core.Path.{fun_ext}
use aster.Prelude.Int.{ℤ, pos, negsuc, int_eq, int_laws}
use aster.Partition.Graph.{Vertex}
use aster.Partition.Arrays.{add_at, tabulate, add_at-tabulate}
use aster.Partition.Counts.{IsHome}
use aster.Partition.Recount.{shift, bump_up, bump_down}
use aster.Partition.Recompute.{moved_home}

-- How many of the vertices are in a shard.
abbrev pub population : (Vertex → ℕ) → ℕ → List Vertex → ℕ
population home k [] = 0
population home k (v ∷ vs) = (if home v == k then 1 else 0) + population home k vs

population_moved :
    (home : Vertex → ℕ) (x : Vertex) (b k : ℕ) (vs : List Vertex)
    → population (moved_home x b home) k vs + (if k == home x then count x vs else 0)
      ≡ population home k vs + (if k == b then count x vs else 0)
unfolding count
population_moved home x b k [] = ground arith
population_moved home x b k (v ∷ vs) = elim (Bool-cases (x == v)) [
  | inl same ↦
      let ev : (v == x) ≡ true = rw (beq_sym v x) same in
      let hv : home v ≡ home x = ap home (sym ((bytes_eq.same_iff x v).0 same)) in
      rw (same, ev, hv) (ground (arith, population_moved home x b k vs))
  | inr other ↦
      let ev : (v == x) ≡ false = rw (beq_sym v x) other in
      rw (other, ev) (ground (arith, population_moved home x b k vs))
]

pub IsHome-insert :
    (n : ℕ) (m : Map Vertex ℤ) (home : Vertex → ℕ) (x : Vertex) (b : ℕ)
    → IsHome n m home
    → b < n
    → IsHome n (insert x (pos b) m) (moved_home x b home)
IsHome-insert n m home x b placed b_in v = elim (Bool-cases (v == x)) [
  | inl same ↦ rw (lookup_or-insert (pos 0) x v (pos b) m, same) (refl, b_in)
  | inr other ↦ rw (lookup_or-insert (pos 0) x v (pos b) m, other) (placed v)
]

settled : (p u d p' : ℕ) → p + u ≡ p' + d → shift (shift (pos p) 0 d) u 0 ≡ pos p'
settled p u d p' h = omega int_laws

pub members_moved :
    (n : ℕ) (home : Vertex → ℕ) (x : Vertex) (b : ℕ) (vs : List Vertex)
    → home x < n
    → b < n
    → count x vs ≡ 1
    → (left : List ℤ) × (add_at
          (pos (home x))
          (negsuc 0)
          (tabulate n (λ k. pos (population home k vs)))
        ≡ ok left)
      × (add_at (pos b) (pos 1) left
          ≡ ok (tabulate n (λ k. pos (population (moved_home x b home) k vs))))
members_moved n home x b vs x_in b_in once =
    let f = λ (k : ℕ). pos (population home k vs) in
    let taken : ℕ → ℕ = λ k. (if k == home x then 1 else 0) in
    let given : ℕ → ℕ = λ k. (if k == b then 1 else 0) in
    let f1 = λ (k : ℕ). shift (f k) 0 (taken k) in
    let balance : (k : ℕ) → shift (f1 k) (given k) 0 ≡ pos (population (moved_home x b home) k vs) =
      λ k.
        settled (population home k vs) (given k) (taken k) (population (moved_home x b home) k vs)
          (sym (rw once at (population_moved home x b k vs))) in
    (
      tabulate n f1,
      add_at-tabulate n (home x) (negsuc 0) f x_in ∙ ap (λ xs. ok xs) (bump_down n (home x) f),
      add_at-tabulate n b (pos 1) f1 b_in
          ∙ ap (λ xs. ok xs) (bump_up n b f1)
          ∙ (rw (fun_ext balance) refl),
    )

module _ (vs : List Vertex) (start : Vertex → ℕ) where
  pub still_alive :
      (home : Vertex → ℕ) (x : Vertex) (b k : ℕ)
      → count x vs ≡ 1
      → 1 < population home (home x) vs
      → min 1 (population start k vs) ≤ population home k vs
      → min 1 (population start k vs) ≤ population (moved_home x b home) k vs
  still_alive home x b k once crowded alive =
      let balance = rw once at (population_moved home x b k vs) in
      elim (Bool-cases (k == home x)) [
        | inl left ↦
            let e : population home k vs ≡ population home (home x) vs =
              ap (λ j. population home j vs) ((nat_eq.same_iff k (home x)).0 left) in
            ground (arith, balance, e)
        | inr other ↦ ground (arith, balance)
      ]

  pub moved_by :
      (home : Vertex → ℕ) (x : Vertex) (b : ℕ) (v : Vertex) (res : Map Vertex ℕ)
      → home v ≡ lookup_or (start v) v res
      → moved_home x b home v ≡ lookup_or (start v) v (insert x b res)
  moved_by home x b v res h = rw (lookup_or-insert (start v) x v b res, h)
