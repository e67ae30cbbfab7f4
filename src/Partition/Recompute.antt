-- ===== src/Partition/Recompute.antt =====
-- `changeShardRecompute` of partition/partition_CLPA.go against `ComputeEdges2Shard`.
use aster.Prelude.{
  ℕ, ◌+◌, ◌<◌, ◌≡◌, refl, ◌∙◌, true, false, List, [], ◌∷◌, bytes_eq, nat_eq, ◌==◌, ok,
  if◌then◌else◌, arith, Bool-cases, inl, inr, lookup_or, All, beq_sym, beq_refl,
}
use mathlib.Core.Path.{fun_ext}
use aster.Prelude.Int.{pos, int_eq, int_laws}
use aster.Partition.Graph.{Vertex, edges}
use aster.Partition.Arrays.{tabulate}
use aster.Partition.Edges.{joined, sum_near, sum_edges, sum_near-joined, if_same}
use aster.Partition.Clpa.{
  ClpaState, Floats, shard_of, min_of, recount_edges, change_shard_recompute,
}
use aster.Partition.Compute.{counted}
use aster.Partition.Counts.{touching, crossing, IsHome}
use aster.Partition.Recount.{shift, up, down, one_at, recount_edges_lem}

-- The homes after `x` has moved to shard `b`.
abbrev pub moved_home : Vertex → ℕ → (Vertex → ℕ) → Vertex → ℕ
moved_home x b home v = if v == x then b else home v

-- The two counts before and after the move of `x` from `a` to `b`.
module _ (home : Vertex → ℕ) (x : Vertex) (a b : ℕ) (from : home x ≡ a)
    (differ : (a == b) ≡ false) where
  home_here : (u : Vertex) → (x == u) ≡ true → home u ≡ a
  home_here u same = rw (← (bytes_eq.same_iff x u).0 same) from

  touching_moved :
      (k : ℕ) (es : List (Vertex × Vertex))
      → All (λ e. (e.0 == e.1) ≡ false) es
      → touching home k es + sum_edges (λ u v. if_same x u (up b k (moved_home x b home v))) es
        ≡ touching (moved_home x b home) k es
          + sum_edges (λ u v. if_same x u (down a k (moved_home x b home v))) es
  touching_moved k [] h = omega arith
  touching_moved k ((u, v) ∷ es) (proper, h) = elim (Bool-cases (x == u)) [
    | inl left ↦
        let eu : (u == x) ≡ true = rw (beq_sym u x) left in
        let ev : (v == x) ≡ false = rw ((bytes_eq.same_iff x u).0 left, beq_sym v u) proper in
        let ev' : (x == v) ≡ false = rw (beq_sym x v) ev in
        let hu : home u ≡ a = home_here u left in
        rw (left, ev', eu, ev, hu) (ground (arith, touching_moved k es h))
    | inr left ↦ elim (Bool-cases (x == v)) [
      | inl right ↦
          let ev : (v == x) ≡ true = rw (beq_sym v x) right in
          let eu : (u == x) ≡ false = rw (beq_sym u x) left in
          let hv : home v ≡ a = home_here v right in
          rw (left, right, eu, ev, hv) (ground (arith, touching_moved k es h))
      | inr right ↦
          let ev : (v == x) ≡ false = rw (beq_sym v x) right in
          let eu : (u == x) ≡ false = rw (beq_sym u x) left in
          rw (left, right, eu, ev) (ground (arith, touching_moved k es h))
    ]
  ]

  crossing_moved :
      (es : List (Vertex × Vertex))
      → All (λ e. (e.0 == e.1) ≡ false) es
      → crossing home es + sum_edges (λ u v. if_same x u (one_at a (moved_home x b home v))) es
        ≡ crossing (moved_home x b home) es
          + sum_edges (λ u v. if_same x u (one_at b (moved_home x b home v))) es
  crossing_moved [] h = omega arith
  crossing_moved ((u, v) ∷ es) (proper, h) = elim (Bool-cases (x == u)) [
    | inl left ↦
        let eu : (u == x) ≡ true = rw (beq_sym u x) left in
        let ev : (v == x) ≡ false = rw ((bytes_eq.same_iff x u).0 left, beq_sym v u) proper in
        let ev' : (x == v) ≡ false = rw (beq_sym x v) ev in
        let hu : home u ≡ a = home_here u left in
        rw (left, ev', eu, ev, hu) (ground (arith, crossing_moved es h))
    | inr left ↦ elim (Bool-cases (x == v)) [
      | inl right ↦
          let ev : (v == x) ≡ true = rw (beq_sym v x) right in
          let eu : (u == x) ≡ false = rw (beq_sym u x) left in
          let hv : home v ≡ a = home_here v right in
          rw (left, right, eu, ev, hv) (ground (arith, crossing_moved es h))
      | inr right ↦
          let ev : (v == x) ≡ false = rw (beq_sym v x) right in
          let eu : (u == x) ≡ false = rw (beq_sym u x) left in
          rw (left, right, eu, ev) (ground (arith, crossing_moved es h))
    ]
  ]

settle : (t u d t' : ℕ) → t + u ≡ t' + d → shift (pos t) u d ≡ pos t'
settle t u d t' h = omega int_laws

module _ {F : Floats} where
  abbrev pub recounted : (Vertex → ℕ) → List (Vertex × Vertex) → ClpaState F → ClpaState F
  recounted home es cs =
      let done = counted home es cs in
      record done { min_edges2_shard = min_of (pos 0x7ffffffff) done.edges2_shard }

  -- After the vertex `x` has moved from shard `a` to another shard `b`, `changeShardRecompute` makes the
  -- counts of the old homes those of the new homes, on a graph without edges from a vertex to itself.
  pub change_shard_recompute_lem :
      (home : Vertex → ℕ) (x : Vertex) (a b : ℕ) (es : List (Vertex × Vertex)) (cs : ClpaState F)
      → edges cs.net_graph ≡ joined es
      → All (λ e. (e.0 == e.1) ≡ false) es
      → home x ≡ a
      → (a == b) ≡ false
      → a < cs.shard_num
      → IsHome cs.shard_num cs.partition_map (moved_home x b home)
      → cs.edges2_shard ≡ tabulate cs.shard_num (λ k. pos (touching home k es))
      → cs.cross_shard_edge_num ≡ pos (crossing home es)
      → change_shard_recompute x (pos a) cs ≡ ok (recounted (moved_home x b home) es cs)
  unfolding change_shard_recompute
  change_shard_recompute_lem home x a b es cs graph proper from differ a_in placed e c =
      let n = cs.shard_num in
      let home' = moved_home x b home in
      let at_b : home' x ≡ b = rw (beq_refl x) refl in
      let b_in : b < n = rw at_b at (placed x).1 in
      let shard_b : shard_of cs.partition_map x ≡ pos b = rw ((placed x).0, at_b) refl in
      let us = lookup_or [] x (joined es) in
      let near_settles : (k : ℕ)
          → shift (pos (touching home k es)) (sum_near (λ u. up b k (home' u)) us)
              (sum_near (λ u. down a k (home' u)) us)
            ≡ pos (touching home' k es) =
        λ k. settle (touching home k es) _ _ (touching home' k es) (
          rw
            (
              sum_near-joined (λ u. up b k (home' u)) x es,
              sum_near-joined (λ u. down a k (home' u)) x es,
            )
            (touching_moved home x a b from differ k es proper)) in
      let cross_settles : shift (pos (crossing home es)) (sum_near (λ u. one_at a (home' u)) us)
            (sum_near (λ u. one_at b (home' u)) us)
          ≡ pos (crossing home' es) =
        settle (crossing home es) _ _ (crossing home' es) (
          rw
            (
              sum_near-joined (λ u. one_at a (home' u)) x es,
              sum_near-joined (λ u. one_at b (home' u)) x es,
            )
            (crossing_moved home x a b from differ es proper)) in
      let done : recount_edges cs.partition_map (pos b) (pos a) us
            (tabulate n (λ k. pos (touching home k es)), pos (crossing home es))
          ≡ ok (tabulate n (λ k. pos (touching home' k es)), pos (crossing home' es)) =
        recount_edges_lem n a b a_in b_in differ cs.partition_map home' placed us
          (λ k. pos (touching home k es)) (pos (crossing home es))
        ∙ (rw (fun_ext near_settles, cross_settles) refl) in
      rw (graph, shard_b, e, c, done) refl
