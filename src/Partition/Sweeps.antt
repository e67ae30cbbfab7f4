-- ===== src/Partition/Sweeps.antt =====
-- What the iterations of `CLPA_Partition` keep, partition/partition_CLPA.go.
use aster.Prelude.{
  All, All-insert, zero, suc, ◌∷◌, ◌+◌, ok, ℕ, ◌+◌, ◌<◌, ◌≤◌, ◌≡◌, refl, false, List, [], bytes_eq,
  nat_eq, ◌==◌, ok, arith, Bool-cases, inl, inr, lookup_or, insert, All, ltb→lt, count, leb, ltb,
  min,
}
use aster.Prelude.Int.{ℤ, pos, int_eq, ltb_ℤ}
use aster.Partition.Graph.{Vertex, Graph, edges}
use aster.Partition.Arrays.{at, tabulate, at-tabulate}
use aster.Partition.Edges.{joined}
use aster.Partition.Clpa.{Floats, shard_of, change_shard_recompute}
use aster.Partition.Propagation.{Best, weigh_all, Run, move_vertex, choose, visit, sweep, sweeps}
use aster.Partition.Counts.{touching, crossing, IsHome}
use aster.Partition.Recount.{pos_same}
use aster.Partition.Recompute.{moved_home, recounted, change_shard_recompute_lem}
use aster.Partition.Population.{population, IsHome-insert, members_moved, still_alive, moved_by}
use aster.Partition.Best.{weigh_all-BestIn}

module _ {F : Floats} where
  -- The state between two vertices: the vertices `vs` of a graph with the edges `es` were at `start`
  -- and are at `home`.
  pub record IsKept (g : Graph) (n : ℕ) (es : List (Vertex × Vertex)) (vs : List Vertex)
      (start home : Vertex → ℕ) (r : Run F) : Type 0 where
    pub graph : r.cs.net_graph ≡ g
    pub shards : r.cs.shard_num ≡ n
    pub placed : IsHome n r.cs.partition_map home
    pub ends : r.cs.edges2_shard ≡ tabulate n (λ k. pos (touching home k es))
    pub across : r.cs.cross_shard_edge_num ≡ pos (crossing home es)
    pub members : r.cs.vertexs_num_in_shard ≡ tabulate n (λ k. pos (population home k vs))
    pub alive : (k : ℕ) → min 1 (population start k vs) ≤ population home k vs
    pub moves : (v : Vertex) → home v ≡ lookup_or (start v) v r.res
    pub res_in : All (λ e. e.1 < n) r.res

visit_chosen :
    {F : Floats} (x : Vertex) (r r' : Run F) (b : Best F) (now best : ℤ)
    → leb 50 (lookup_or 0 x r.update_treshold) ≡ false
    → weigh_all x r.cs (lookup_or [] x (edges r.cs.net_graph)) (record {
      scores = [];
      max_score = F.lowest;
      max_score_shard = shard_of r.cs.partition_map x;
    })
      ≡ ok b
    → shard_of r.cs.partition_map x ≡ now
    → b.max_score_shard ≡ best
    → choose x now best r ≡ ok r'
    → visit x r ≡ ok r'
unfolding visit
visit_chosen x r r' b now best seldom weighed here found done =
    rw (seldom, weighed, here, found) done

above_one : (p : ℕ) → ltb_ℤ (pos 1) (pos p) ≡ ltb 1 p
above_one p = ground arith

module _ {F : Floats} (g : Graph) (n : ℕ) (es : List (Vertex × Vertex)) (vs : List Vertex)
    (start : Vertex → ℕ) (built : edges g ≡ joined es)
    (proper : All (λ e. (e.0 == e.1) ≡ false) es) where
  move_vertex-IsKept :
      (home : Vertex → ℕ) (x : Vertex) (b : ℕ) (r : Run F)
      → count x vs ≡ 1
      → b < n
      → (home x == b) ≡ false
      → 1 < population home (home x) vs
      → IsKept g n es vs start home r
      → (r' : Run F) × (move_vertex x (pos (home x)) (pos b) r ≡ ok r')
        × IsKept g n es vs start (moved_home x b home) r'
  unfolding move_vertex
  move_vertex-IsKept home x b r once b_in differ crowded kept =
      let (left, taken, given) = members_moved n home x b vs (kept.placed x).1 b_in once in
      let home' = moved_home x b home in
      let cs = r.cs in
      let cs1 = record cs {
        partition_map = insert x (pos b) cs.partition_map;
        vertexs_num_in_shard = tabulate n (λ k. pos (population home' k vs));
      } in
      let placed' = IsHome-insert n cs.partition_map home x b kept.placed b_in in
      let changed : change_shard_recompute x (pos (home x)) cs1 ≡ ok (recounted home' es cs1) =
        change_shard_recompute_lem home x (home x) b es cs1 (rw kept.graph built) proper refl differ
          (rw kept.shards (kept.placed x).1) (rw kept.shards placed') (rw kept.shards kept.ends)
          kept.across in
      (
        record {
          cs = recounted home' es cs1;
          res = insert x b r.res;
          update_treshold = insert x (lookup_or 0 x r.update_treshold + 1) r.update_treshold;
        },
        rw (kept.members, taken, given, changed) refl,
        record {
          graph = kept.graph;
          shards = kept.shards;
          placed = placed';
          ends = rw kept.shards refl;
          across = refl;
          members = refl;
          alive = λ k. still_alive vs start home x b k once crowded (kept.alive k);
          moves = λ v. moved_by vs start home x b v r.res (kept.moves v);
          res_in = All-insert (λ e. e.1 < n) x b r.res b_in kept.res_in;
        },
      )

  -- What `visit` does when the scores are weighed, with best shard `j`.
  chosen-IsKept :
      (home : Vertex → ℕ) (x : Vertex) (j : ℕ) (r : Run F)
      → count x vs ≡ 1
      → j < n
      → IsKept g n es vs start home r
      → (r' : Run F) × (home' : Vertex → ℕ) × (choose x (pos (home x)) (pos j) r ≡ ok r')
        × IsKept g n es vs start home' r'
  unfolding choose
  chosen-IsKept home x j r once j_in kept =
      let crowd = population home (home x) vs in
      let members : at r.cs.vertexs_num_in_shard (pos (home x)) ≡ ok (pos crowd) =
        rw kept.members
          (at-tabulate n (home x) (λ k. pos (population home k vs)) (kept.placed x).1) in
      elim (Bool-cases (home x == j)) [
        | inl stay ↦ (r, home, rw (pos_same (home x) j, stay) refl, kept)
        | inr go ↦ elim (Bool-cases (ltb 1 crowd)) [
          | inl crowded ↦
              let (r', moved, kept') =
                move_vertex-IsKept home x j r once j_in go (ltb→lt 1 crowd crowded) kept in
              (
                r',
                moved_home x j home,
                rw (pos_same (home x) j, go, members, above_one crowd, crowded) moved,
                kept',
              )
          | inr alone ↦
              (r, home, rw (pos_same (home x) j, go, members, above_one crowd, alone) refl, kept)
        ]
      ]

  -- One vertex: it stays, or goes to the shard of a neighbour.
  visit-IsKept :
      (home : Vertex → ℕ) (x : Vertex) (r : Run F)
      → count x vs ≡ 1
      → IsKept g n es vs start home r
      → (r' : Run F) × (home' : Vertex → ℕ) × (visit x r ≡ ok r') × IsKept g n es vs start home' r'
  unfolding visit
  visit-IsKept home x r once kept = elim (Bool-cases (leb 50 (lookup_or 0 x r.update_treshold))) [
    | inl often ↦ (r, home, rw often refl, kept)
    | inr seldom ↦
        let f = λ (k : ℕ). pos (touching home k es) in
        let (x_home, x_in) = kept.placed x in
        let (b, weighed, found) =
          weigh_all-BestIn x r.cs f home (lookup_or [] x (edges r.cs.net_graph))
            (record {
              scores = [];
              max_score = F.lowest;
              max_score_shard = shard_of r.cs.partition_map x;
            })
            (rw kept.shards kept.ends) (rw kept.shards kept.placed)
            (home x, x_home, rw kept.shards x_in) in
        let (j, best, j_in) = found in
        let (r', home', done, kept') =
          chosen-IsKept home x j r once (rw (← kept.shards) j_in) kept in
        (
          r',
          home',
          visit_chosen x r r' b (pos (home x)) (pos j) seldom weighed x_home best done,
          kept',
        )
  ]

  sweep-IsKept :
      (home : Vertex → ℕ) (xs : List Vertex) (r : Run F)
      → All (λ x. count x vs ≡ 1) xs
      → IsKept g n es vs start home r
      → (r' : Run F) × (home' : Vertex → ℕ) × (sweep xs r ≡ ok r') × IsKept g n es vs start home' r'
  unfolding sweep
  sweep-IsKept home [] r once kept = (r, home, refl, kept)
  sweep-IsKept home (x ∷ xs) r (here, once) kept =
      let (r1, home1, done, kept1) = visit-IsKept home x r here kept in
      let (r2, home2, rest, kept2) = sweep-IsKept home1 xs r1 once kept1 in
      (r2, home2, rw done rest, kept2)

  pub sweeps-IsKept :
      (order : ℕ → List Vertex)
      → ((i : ℕ) → All (λ x. count x vs ≡ 1) (order i))
      → (i rounds : ℕ) (home : Vertex → ℕ) (r : Run F) → IsKept g n es vs start home r
      → (r' : Run F) × (home' : Vertex → ℕ) × (sweeps order i rounds r ≡ ok r')
        × IsKept g n es vs start home' r'
  unfolding sweeps
  sweeps-IsKept order once i zero home r kept = (r, home, refl, kept)
  sweeps-IsKept order once i (suc rounds) home r kept =
      let (r1, home1, done, kept1) = sweep-IsKept home (order i) r (once i) kept in
      let (r2, home2, rest, kept2) = sweeps-IsKept order once (i + 1) rounds home1 r1 kept1 in
      (r2, home2, rw done rest, kept2)
