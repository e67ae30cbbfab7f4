-- ===== src/Partition/Outcome.antt =====
-- `CLPA_Partition` of partition/partition_CLPA.go as a whole.
use aster.Prelude.{
  ℕ, ◌≡◌, ◌≤◌, ◌<◌, refl, sym, false, List, [], All, bytes_eq, nat_eq, ◌==◌, Map, ok, lookup_or,
  lookup_or-nil, count, min, arith,
}
use aster.Prelude.Int.{pos}
use aster.Partition.Graph.{Vertex, edges}
use aster.Partition.Arrays.{tabulate}
use aster.Partition.Edges.{joined}
use aster.Partition.Clpa.{Floats, ClpaState, compute_edges2_shard}
use aster.Partition.Propagation.{Run, sweeps, clpa_partition}
use aster.Partition.Counts.{touching, crossing, IsHome}
use aster.Partition.Compute.{counted, compute_edges2_shard_lem}
use aster.Partition.Population.{population}
use aster.Partition.Sweeps.{IsKept, sweeps-IsKept}

module _ {F : Floats} where
  -- A state before the partition: a graph with the edges `es`, none of them from a vertex to itself,
  -- the vertices `vs` counted in their shards, and every vertex in a shard.
  pub record IsReady (es : List (Vertex × Vertex)) (vs : List Vertex) (home : Vertex → ℕ)
      (cs : ClpaState F) : Type 0 where
    pub graph : edges cs.net_graph ≡ joined es
    pub proper : All (λ e. (e.0 == e.1) ≡ false) es
    pub placed : IsHome cs.shard_num cs.partition_map home
    pub members : cs.vertexs_num_in_shard ≡ tabulate cs.shard_num (λ k. pos (population home k vs))

  -- The loop's variables at first.
  abbrev pub begun : ClpaState F → Run F
  begun cs = record { cs = cs; res = []; update_treshold = [] }

  begun-IsKept :
      (es : List (Vertex × Vertex)) (vs : List Vertex) (home : Vertex → ℕ) (cs : ClpaState F)
      → IsReady es vs home cs
      → IsKept cs.net_graph cs.shard_num es vs home home (begun (counted home es cs))
  begun-IsKept es vs home cs ready = record {
    graph = refl;
    shards = refl;
    placed = ready.placed;
    ends = refl;
    across = refl;
    members = ready.members;
    alive = λ k. omega arith;
    moves = λ v. sym (lookup_or-nil (home v) v);
    res_in = tt;
  }

  -- However often the iterations run, and in whatever orders they visit the vertices, the counts that
  -- `changeShardRecompute` has kept up to date are those that `ComputeEdges2Shard` finds afresh.
  pub sweeps-compute_edges2_shard :
      (order : ℕ → List Vertex) (rounds : ℕ) (es : List (Vertex × Vertex)) (vs : List Vertex)
      (home : Vertex → ℕ) (cs : ClpaState F)
      → ((i : ℕ) → All (λ x. count x vs ≡ 1) (order i))
      → IsReady es vs home cs
      → (cs1 : ClpaState F) × (r : Run F) × (cs2 : ClpaState F) × (compute_edges2_shard cs ≡ ok cs1)
        × (sweeps order 0 rounds (begun cs1) ≡ ok r)
        × (compute_edges2_shard r.cs ≡ ok cs2)
        × (cs2.edges2_shard ≡ r.cs.edges2_shard)
        × (cs2.cross_shard_edge_num ≡ r.cs.cross_shard_edge_num)
        × (cs2.partition_map ≡ r.cs.partition_map)
  sweeps-compute_edges2_shard order rounds es vs home cs once ready =
      let (r, home', done, kept) =
        sweeps-IsKept cs.net_graph cs.shard_num es vs home ready.graph ready.proper order once 0
          rounds home (begun (counted home es cs)) (begun-IsKept es vs home cs ready) in
      (
        counted home es cs,
        r,
        counted home' es r.cs,
        compute_edges2_shard_lem home es cs ready.graph ready.placed,
        done,
        compute_edges2_shard_lem home' es r.cs (rw kept.graph ready.graph)
            (rw kept.shards kept.placed),
        rw kept.shards (sym kept.ends),
        sym kept.across,
        refl,
      )

  -- `CLPA_Partition` ends without a panic. Every vertex is in a shard at the end; the second result is
  -- the number of edges between two shards, and the arrays count the edges and the vertices of each.
  -- A shard that had a vertex still has one, and a vertex is where the first result says, or where it
  -- was if it is not named there; the shards that it names are below their number.
  pub clpa_partition_lem :
      (order : ℕ → List Vertex) (es : List (Vertex × Vertex)) (vs : List Vertex) (home : Vertex → ℕ)
      (cs : ClpaState F) (k : ℕ) (v : Vertex)
      → ((i : ℕ) → All (λ x. count x vs ≡ 1) (order i))
      → IsReady es vs home cs
      → (cs' : ClpaState F) × (res : Map Vertex ℕ) × (home' : Vertex → ℕ) × (clpa_partition order cs
          ≡ ok (cs', res, pos (crossing home' es)))
        × IsHome cs.shard_num cs'.partition_map home'
        × (cs'.edges2_shard ≡ tabulate cs.shard_num (λ i. pos (touching home' i es)))
        × (cs'.vertexs_num_in_shard ≡ tabulate cs.shard_num (λ i. pos (population home' i vs)))
        × (min 1 (population home k vs) ≤ population home' k vs)
        × (home' v ≡ lookup_or (home v) v res)
        × All (λ e. e.1 < cs.shard_num) res
  unfolding clpa_partition
  clpa_partition_lem order es vs home cs k v once ready =
      let (r, home', done, kept) =
        sweeps-IsKept cs.net_graph cs.shard_num es vs home ready.graph ready.proper order once 0
          cs.max_iterations home (begun (counted home es cs)) (begun-IsKept es vs home cs ready) in
      (
        counted home' es r.cs,
        r.res,
        home',
        rw
            (
              compute_edges2_shard_lem home es cs ready.graph ready.placed,
              done,
              compute_edges2_shard_lem home' es r.cs (rw kept.graph ready.graph)
                  (rw kept.shards kept.placed),
            )
            refl,
        kept.placed,
        rw kept.shards refl,
        kept.members,
        kept.alive k,
        kept.moves v,
        kept.res_in,
      )
