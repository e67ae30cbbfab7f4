-- ===== src/Partition/Compute.antt =====
-- `ComputeEdges2Shard` of partition/partition_CLPA.go against the edges of the graph.
use aster.Prelude.{
  ℕ, ◌+◌, ◌*◌, ◌/◌, ◌<◌, ◌≡◌, refl, ap, List, [], ◌∷◌, nat_eq, ◌==◌, ok, if◌then◌else◌, arith,
  Bool-cases, inl, inr,
}
use mathlib.Core.Path.{fun_ext}
use aster.Prelude.Int.{pos, ◌+ℤ◌, div2, int_eq, zero-add}
use aster.Partition.Graph.{Vertex, edges}
use aster.Partition.Arrays.{tabulate}
use aster.Partition.Edges.{joined, total, sum_edges, total-joined}
use aster.Partition.Clpa.{
  Floats, ClpaState, sum_of, min_of, count_edges, zeros, compute_edges2_shard,
}
use aster.Partition.Counts.{
  touching, crossing, sum_below, sum_below-add, sum_below_zero, sum_below-point, zeros-tabulate,
  add_halves-tabulate, pos-add, sum_of-tabulate, cut_at, inner_at, IsHome, count_edges_lem,
}

abbrev within : (Vertex → ℕ) → ℕ → List (Vertex × Vertex) → ℕ
within home k [] = 0
within home k ((u, v) ∷ es) =
    (if home u == home v then (if home v == k then 1 else 0) else 0) + within home k es

inner_lem :
    (home : Vertex → ℕ) (k : ℕ) (es : List (Vertex × Vertex))
    → sum_edges (inner_at home k) es ≡ 2 * within home k es
inner_lem home k [] = refl
inner_lem home k ((u, v) ∷ es) = ground (arith, inner_lem home k es)

touching_lem :
    (home : Vertex → ℕ) (k : ℕ) (es : List (Vertex × Vertex))
    → sum_edges (cut_at home k) es + within home k es ≡ touching home k es
touching_lem home k [] = refl
touching_lem home k ((u, v) ∷ es) = ground (arith, touching_lem home k es)

module _ (n : ℕ) (home : Vertex → ℕ) (below : (v : Vertex) → home v < n) where
  cut_once :
      (u v : Vertex) → sum_below n (λ k. cut_at home k u v) ≡ (if home u == home v then 0 else 1)
  cut_once u v = elim (Bool-cases (home u == home v)) [
    | inl here ↦ rw here (sum_below_zero n)
    | inr away ↦ rw away (sum_below-point n (home v) (below v))
  ]

  crossing_lem :
      (es : List (Vertex × Vertex))
      → sum_below n (λ k. sum_edges (cut_at home k) es) ≡ 2 * crossing home es
  crossing_lem [] = rw (sum_below_zero n)
  crossing_lem ((u, v) ∷ es) =
      let there = λ (k : ℕ). cut_at home k u v in
      let back = λ (k : ℕ). cut_at home k v u in
      let rest = λ (k : ℕ). sum_edges (cut_at home k) es in
      ground (
        arith,
        sum_below-add n (λ k. there k + back k) rest,
        sum_below-add n there back,
        cut_once u v,
        cut_once v u,
        crossing_lem es,
      )

from_zero :
    (w : Vertex → Vertex → ℕ) (es : List (Vertex × Vertex))
    → pos 0 +ℤ pos (total w (joined es)) ≡ pos (sum_edges w es)
from_zero w es = rw (total-joined w es) (zero-add (pos (sum_edges w es)))

halves : (a b c : ℕ) → a + b ≡ c → pos a +ℤ div2 (pos (2 * b)) ≡ pos c
halves a b c h = rw (pos-add a (2 * b / 2)) (ap (λ x. pos x) (omega arith))

halves_lem :
    (home : Vertex → ℕ) (k : ℕ) (es : List (Vertex × Vertex))
    → pos (sum_edges (cut_at home k) es) +ℤ div2 (pos (sum_edges (inner_at home k) es))
      ≡ pos (touching home k es)
halves_lem home k es = rw (inner_lem home k es) (
    halves (sum_edges (cut_at home k) es) (within home k es) (touching home k es)
      (touching_lem home k es))

module _ {F : Floats} where
  -- The state with the counts of its edges.
  abbrev pub counted : (Vertex → ℕ) → List (Vertex × Vertex) → ClpaState F → ClpaState F
  counted home es cs =
      let e = tabulate cs.shard_num (λ k. pos (touching home k es)) in
      record cs {
        edges2_shard = e;
        cross_shard_edge_num = pos (crossing home es);
        min_edges2_shard = min_of (pos 0x7fffffff) e;
      }

  -- On a graph of these edges, and with every vertex in a shard, `ComputeEdges2Shard` does not panic.
  -- It counts for each shard the edges that have an end there, those inside it once, and the edges
  -- between two shards once.
  pub compute_edges2_shard_lem :
      (home : Vertex → ℕ) (es : List (Vertex × Vertex)) (cs : ClpaState F)
      → edges cs.net_graph ≡ joined es
      → IsHome cs.shard_num cs.partition_map home
      → compute_edges2_shard cs ≡ ok (counted home es cs)
  unfolding compute_edges2_shard
  compute_edges2_shard_lem home es cs graph placed =
      let n = cs.shard_num in
      let cut = λ (k : ℕ). sum_edges (cut_at home k) es in
      let inner = λ (k : ℕ). sum_edges (inner_at home k) es in
      let start : zeros n ≡ tabulate n (λ k. pos 0) = zeros-tabulate n in
      let counts : count_edges cs.partition_map (joined es) (zeros n, zeros n)
          ≡ ok (tabulate n (λ k. pos (cut k)), tabulate n (λ k. pos (inner k))) =
        rw
          (
            start,
            count_edges_lem n cs.partition_map home placed (joined es) (λ k. pos 0) (λ k. pos 0),
          )
          (rw
            (
              fun_ext (λ k. from_zero (cut_at home k) es),
              fun_ext (λ k. from_zero (inner_at home k) es),
            )
            refl) in
      let ends : tabulate n (λ k. pos (cut k) +ℤ div2 (pos (inner k)))
          ≡ tabulate n (λ k. pos (touching home k es)) =
        rw (fun_ext (λ k. halves_lem home k es)) refl in
      let across : div2 (sum_of (tabulate n (λ k. pos (cut k)))) ≡ pos (crossing home es) =
        rw (sum_of-tabulate n cut, crossing_lem n home (λ v. (placed v).1) es)
          (ap (λ x. pos x) (omega arith)) in
      rw
        (graph, counts, add_halves-tabulate n (λ k. pos (cut k)) (λ k. pos (inner k)), ends, across)
        refl
