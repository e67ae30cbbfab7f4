-- ===== src/Partition/Propagation.antt =====
-- The label propagation of partition/partition_CLPA.go: `getShard_score` and `CLPA_Partition`.
use aster.Prelude.{
  ℕ, zero, suc, ◌+◌, not, List, [], ◌∷◌, bytes_eq, nat_eq, ◌==◌, Map, insert, has_key, lookup_or,
  Result, ok, ◌>>=◌, if◌then◌else◌, length, leb,
}
use aster.Prelude.Int.{ℤ, pos, negsuc, ltb_ℤ, int_eq}
use aster.Chain.{to_uint64}
use aster.Partition.Graph.{Vertex, edges}
use aster.Partition.Arrays.{at, add_at}
use aster.Partition.Clpa.{Floats, ClpaState, shard_of, compute_edges2_shard, change_shard_recompute}

-- The number of neighbours in a shard.
unfoldable pub edges_to : Map Vertex ℤ → ℤ → List Vertex → ℕ
edges_to m s [] = 0
edges_to m s (u ∷ us) = if shard_of m u == s then suc (edges_to m s us) else edges_to m s us

-- The neighbours' shards with their scores, the best score and its shard.
pub record Best (F : Floats) : Type 0 where
  pub scores : Map ℤ F.Float
  pub max_score : F.Float
  pub max_score_shard : ℤ

-- The loop's variables: the state, `res` and `updateTreshold`.
pub record Run (F : Floats) : Type 0 where
  pub cs : ClpaState F
  pub res : Map Vertex ℕ
  pub update_treshold : Map Vertex ℕ

module _ {F : Floats} where
  unfoldable pub get_shard_score : Vertex → ℤ → ClpaState F → Result F.Float
  unfolding edges_to
  get_shard_score v u_shard cs = do
    let near = lookup_or [] v (edges cs.net_graph)
    e ← at cs.edges2_shard u_shard
    ok (
        F.times
          (F.divide (F.of_int (pos (edges_to cs.partition_map u_shard near)))
            (F.of_int (pos (length near))))
          (F.minus (F.of_int (pos 1))
            (F.divide (F.times cs.weight_penalty (F.of_int e)) (F.of_int cs.min_edges2_shard))))

  unfoldable pub weigh : Vertex → ClpaState F → ℤ → Best F → Result (Best F)
  unfolding get_shard_score
  weigh v cs u_shard b = if has_key u_shard b.scores then ok b else (do
    score ← get_shard_score v u_shard cs
    let scores = insert u_shard score b.scores
    if F.ltb_float b.max_score score
        then ok (record { scores = scores; max_score = score; max_score_shard = u_shard })
        else ok (record b { scores = scores }))

  -- The loop over the neighbours.
  unfoldable pub weigh_all : Vertex → ClpaState F → List Vertex → Best F → Result (Best F)
  unfolding weigh
  weigh_all v cs [] b = ok b
  weigh_all v cs (u ∷ us) b = do
    b' ← weigh v cs (shard_of cs.partition_map u) b
    weigh_all v cs us b'

  -- The move of a vertex from shard `now` to `best`.
  unfoldable pub move_vertex : Vertex → ℤ → ℤ → Run F → Result (Run F)
  move_vertex v now best r = do
    let cs = r.cs
    left ← add_at now (negsuc 0) cs.vertexs_num_in_shard
    nums ← add_at best (pos 1) left
    cs' ←
        change_shard_recompute v now (record cs {
          partition_map = insert v best cs.partition_map;
          vertexs_num_in_shard = nums;
        })
    ok (record {
      cs = cs';
      res = insert v (to_uint64 best) r.res;
      update_treshold = insert v (lookup_or 0 v r.update_treshold + 1) r.update_treshold;
    })

  -- The move to the best shard, if it is another one and the vertex is not alone in its own.
  unfoldable pub choose : Vertex → ℤ → ℤ → Run F → Result (Run F)
  unfolding move_vertex
  choose v now best r =
      if not (now == best)
      then (do
        num ← at r.cs.vertexs_num_in_shard now
        if ltb_ℤ (pos 1) num then move_vertex v now best r else ok r)
      else ok r

  -- One vertex in one iteration.
  unfoldable pub visit : Vertex → Run F → Result (Run F)
  unfolding weigh_all choose
  visit v r = if leb 50 (lookup_or 0 v r.update_treshold) then ok r else (do
    let now = shard_of r.cs.partition_map v
    b ←
        weigh_all v r.cs (lookup_or [] v (edges r.cs.net_graph))
          (record { scores = []; max_score = F.lowest; max_score_shard = now })
    choose v now b.max_score_shard r)

  unfoldable pub sweep : List Vertex → Run F → Result (Run F)
  unfolding visit
  sweep [] r = ok r
  sweep (v ∷ vs) r = do r' ← visit v r; sweep vs r'

  -- The iterations, `i` being the first and `n` their number.
  unfoldable pub sweeps : (ℕ → List Vertex) → ℕ → ℕ → Run F → Result (Run F)
  unfolding sweep
  sweeps order i zero r = ok r
  sweeps order i (suc n) r = do r' ← sweep (order i) r; sweeps order (i + 1) n r'

  -- `CLPA_Partition`: the state, and the two results.
  unfoldable pub clpa_partition :
      (ℕ → List Vertex) → ClpaState F → Result (ClpaState F × Map Vertex ℕ × ℤ)
  unfolding sweeps
  clpa_partition order cs = do
    cs1 ← compute_edges2_shard cs
    r ← sweeps order 0 cs.max_iterations (record { cs = cs1; res = []; update_treshold = [] })
    cs2 ← compute_edges2_shard r.cs
    ok (cs2, r.res, cs2.cross_shard_edge_num)
