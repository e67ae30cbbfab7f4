-- ===== src/Partition/Members.antt =====
-- A vertex that is new to a graph of partition/partition_CLPA.go: the vertices, their homes and the
-- population of the shards.
use aster.Prelude.{
  ◌<◌, lookup_or-nil, ℕ, ◌+◌, ◌≡◌, refl, ap, true, false, List, [], ◌∷◌, ◌++◌, map, Bool, bytes_eq,
  nat_eq, ◌==◌, Map, if◌then◌else◌, arith, Bool-cases, inl, inr, lookup, lookup_or-insert, insert,
  has_key, has_key-insert, beq_refl, beq_sym, count, count-append,
}
use mathlib.Core.Path.{fun_ext}
use aster.Prelude.Int.{ℤ, pos, pos_part, ◌+ℤ◌}
use aster.Partition.Graph.{Vertex, Graph}
use aster.Partition.Clpa.{shard_of}
use aster.Partition.Counts.{IsHome, pos-add}
use aster.Partition.Population.{population}
use aster.Partition.Recompute.{moved_home}

-- The vertices in the order in which they came.
abbrev pub vertices : Graph → List Vertex
vertices g = map (λ e. e.0) g.vertex_set

abbrev pub homes : Map Vertex ℤ → Vertex → ℕ
homes m v = pos_part (shard_of m v)

pub keys-insert :
    (v : Vertex) (m : Map Vertex Bool)
    → has_key v m ≡ false
    → map (λ e. e.0) (insert v true m) ≡ map (λ e. e.0) m ++ v ∷ []
unfolding has_key lookup insert
keys-insert v [] h = refl
keys-insert v ((i, b) ∷ m) h = elim (Bool-cases (v == i)) [
  | inl same ↦ ground (arith, same, h)
  | inr other ↦
      let h' : has_key v m ≡ false = ground (arith, h, other) in
      rw other (ap (λ vs. i ∷ vs) (keys-insert v m h'))
]

pub population-append :
    (home : Vertex → ℕ) (k : ℕ) (vs : List Vertex) (v : Vertex)
    → population home k (vs ++ v ∷ []) ≡ population home k vs + (if home v == k then 1 else 0)
population-append home k [] v = omega arith
population-append home k (w ∷ vs) v = omega (arith, population-append home k vs v)

-- The population does not depend on the home of a vertex that is not there.
pub population_absent :
    (home : Vertex → ℕ) (x : Vertex) (b k : ℕ) (vs : List Vertex)
    → count x vs ≡ 0
    → population (moved_home x b home) k vs ≡ population home k vs
unfolding count
population_absent home x b k [] h = refl
population_absent home x b k (v ∷ vs) h = elim (Bool-cases (x == v)) [
  | inl same ↦ ground (arith, same, h)
  | inr other ↦
      let ev : (v == x) ≡ false = rw (beq_sym v x) other in
      rw ev (
        ap (λ p. (if home v == k then 1 else 0) + p)
          (population_absent home x b k vs (rw other at h)))
]

pub homes-insert :
    (v : Vertex) (i : ℕ) (m : Map Vertex ℤ) → homes (insert v (pos i) m) ≡ moved_home v i (homes m)
homes-insert v i m = fun_ext (λ w. elim (Bool-cases (w == v)) [
  | inl same ↦ rw (lookup_or-insert (pos 0) v w (pos i) m, same) refl
  | inr other ↦ rw (lookup_or-insert (pos 0) v w (pos i) m, other) refl
])

pub members_added :
    (v : Vertex) (i : ℕ) (m : Map Vertex ℤ) (vs : Map Vertex Bool)
    → count v (map (λ e. e.0) vs) ≡ 0
    → has_key v vs ≡ false
    → (k : ℕ)
    → pos (population (homes m) k (map (λ e. e.0) vs)) +ℤ pos (if i == k then 1 else 0)
      ≡ pos (population (homes (insert v (pos i) m)) k (map (λ e. e.0) (insert v true vs)))
members_added v i m vs none_yet fresh k =
    let old = map (λ e. e.0) vs in
    let home' = moved_home v i (homes m) in
    rw
      (
        keys-insert v vs fresh,
        homes-insert v i m,
        population-append home' k old v,
        beq_refl v,
        population_absent (homes m) v i k old none_yet,
      )
      (pos-add (population (homes m) k old) (if i == k then 1 else 0))

pub single_added :
    (v w : Vertex) (vs : Map Vertex Bool)
    → has_key v vs ≡ false
    → count w (map (λ e. e.0) vs) ≡ (if has_key w vs then 1 else 0)
    → count w (map (λ e. e.0) (insert v true vs)) ≡ (if has_key w (insert v true vs) then 1 else 0)
unfolding count
single_added v w vs fresh single =
    let old = map (λ e. e.0) vs in
    rw (keys-insert v vs fresh, count-append w old (v ∷ []), single, has_key-insert v w true vs)
      (elim (Bool-cases (w == v)) [
        | inl same ↦
            let absent : has_key w vs ≡ false = rw ((bytes_eq.same_iff w v).0 same) fresh in
            rw (same, absent) (omega arith)
        | inr other ↦ rw other (omega arith)
      ])

pub empty-IsHome : (n : ℕ) → 0 < n → IsHome n [] (homes [])
empty-IsHome n some_shard v = rw (lookup_or-nil {V = ℤ} (pos 0) v) (refl, some_shard)
