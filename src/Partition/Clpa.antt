-- ===== src/Partition/Clpa.antt =====
-- The partition by constrained label propagation, partition/partition_CLPA.go. The number of shards and
-- of iterations is taken to be no negative one. `float64` is a parameter. A `range` over the vertices
-- visits them in an order that is an argument, one for each iteration. `GraphHash` is not used.
use aster.Prelude.{
  ℕ, zero, suc, Bool, not, ◌&&◌, none, some, List, [], ◌∷◌, bytes_eq, nat_eq, ◌==◌, Map, lookup,
  insert, has_key, lookup_or, Result, ok, ◌>>=◌, if◌then◌else◌,
}
use aster.Prelude.Int.{ℤ, pos, negsuc, ◌+ℤ◌, ltb_ℤ, div2, int_eq}
use aster.Utils.{addr2_shard}
use aster.Partition.Graph as Net
use aster.Partition.Graph.{Vertex, Graph, edges, copy_graph}
use aster.Partition.Arrays.{add_at}

-- `float64` and what the scores use of it.
pub record Floats : Type 1 where
  pub Float : Type 0
  pub of_int : ℤ → Float
  pub minus : Float → Float → Float
  pub times : Float → Float → Float
  pub divide : Float → Float → Float
  pub ltb_float : Float → Float → Bool
  pub lowest : Float

pub record ClpaState (F : Floats) : Type 0 where
  pub net_graph : Graph
  pub partition_map : Map Vertex ℤ
  pub edges2_shard : List ℤ
  pub vertexs_num_in_shard : List ℤ
  pub weight_penalty : F.Float
  pub min_edges2_shard : ℤ
  pub max_iterations : ℕ
  pub cross_shard_edge_num : ℤ
  pub shard_num : ℕ

-- `cs.PartitionMap[v]`
abbrev pub shard_of : Map Vertex ℤ → Vertex → ℤ
shard_of m v = lookup_or (pos 0) v m

-- `make([]int, n)`
unfoldable pub zeros : ℕ → List ℤ
zeros zero = []
zeros (suc n) = pos 0 ∷ zeros n

-- The value that is left of two arrays as long as each other: `Edges2Shard[idx] += interEdge[idx] / 2`.
unfoldable pub add_halves : List ℤ → List ℤ → List ℤ
add_halves [] ys = []
add_halves (x ∷ xs) [] = x ∷ xs
add_halves (x ∷ xs) (y ∷ ys) = (x +ℤ div2 y) ∷ add_halves xs ys

unfoldable pub min_of : ℤ → List ℤ → ℤ
min_of m [] = m
min_of m (x ∷ xs) = min_of (if ltb_ℤ x m then x else m) xs

unfoldable pub sum_of : List ℤ → ℤ
sum_of [] = pos 0
sum_of (x ∷ xs) = x +ℤ sum_of xs

-- The inner body of `ComputeEdges2Shard`, on the arrays `Edges2Shard` and `interEdge`.
unfoldable pub count_edge :
    Map Vertex ℤ → Vertex → Vertex → List ℤ × List ℤ → Result (List ℤ × List ℤ)
count_edge m v u (cut, inter) =
    if not (shard_of m v == shard_of m u)
    then (do cut' ← add_at (shard_of m u) (pos 1) cut; ok (cut', inter))
    else (do inter' ← add_at (shard_of m u) (pos 1) inter; ok (cut, inter'))

unfoldable pub count_list :
    Map Vertex ℤ → Vertex → List Vertex → List ℤ × List ℤ → Result (List ℤ × List ℤ)
unfolding count_edge
count_list m v [] c = ok c
count_list m v (u ∷ us) c = do c' ← count_edge m v u c; count_list m v us c'

unfoldable pub count_edges :
    Map Vertex ℤ → Map Vertex (List Vertex) → List ℤ × List ℤ → Result (List ℤ × List ℤ)
unfolding count_list
count_edges m [] c = ok c
count_edges m ((v, us) ∷ rest) c = do c' ← count_list m v us c; count_edges m rest c'

-- One neighbour of the vertex that has moved from shard `old` to `new`, on `Edges2Shard` and
-- `CrossShardEdgeNum`.
unfoldable pub recount_edge : ℤ → ℤ → ℤ → List ℤ × ℤ → Result (List ℤ × ℤ)
recount_edge new old near (e, cross) =
    if not (near == new) && not (near == old)
    then (do e' ← add_at new (pos 1) e; e'' ← add_at old (negsuc 0) e'; ok (e'', cross))
    else if near == new
    then (do e' ← add_at old (negsuc 0) e; ok (e', cross +ℤ negsuc 0))
    else (do e' ← add_at new (pos 1) e; ok (e', cross +ℤ pos 1))

unfoldable pub recount_edges : Map Vertex ℤ → ℤ → ℤ → List Vertex → List ℤ × ℤ → Result (List ℤ × ℤ)
unfolding recount_edge
recount_edges m new old [] c = ok c
recount_edges m new old (u ∷ us) c = do
  c' ← recount_edge new old (shard_of m u) c
  recount_edges m new old us c'

module _ {F : Floats} where
  -- `params.ShardNum`, which `Addr2Shard` reads, is an argument, and not the state's `ShardNum`.
  unfoldable pub add_vertex : ℕ → Vertex → ClpaState F → Result (ClpaState F)
  add_vertex params_shard_num v cs = do
    s ← elim (lookup v cs.partition_map) [
      | none ↦ addr2_shard params_shard_num v
      | some val ↦ ok val
    ]
    nums ← add_at s (pos 1) cs.vertexs_num_in_shard
    ok (record cs {
      net_graph = Net.add_vertex v cs.net_graph;
      partition_map = insert v s cs.partition_map;
      vertexs_num_in_shard = nums;
    })

  unfoldable pub ensure_vertex : ℕ → Vertex → ClpaState F → Result (ClpaState F)
  unfolding add_vertex
  ensure_vertex params_shard_num v cs =
      if has_key v cs.net_graph.vertex_set then ok cs else add_vertex params_shard_num v cs

  unfoldable pub add_edge : ℕ → Vertex → Vertex → ClpaState F → Result (ClpaState F)
  unfolding ensure_vertex
  add_edge params_shard_num u v cs = do
    cs1 ← ensure_vertex params_shard_num u cs
    cs2 ← ensure_vertex params_shard_num v cs1
    ok (record cs2 { net_graph = Net.add_edge u v cs2.net_graph })

  unfoldable pub compute_edges2_shard : ClpaState F → Result (ClpaState F)
  unfolding zeros count_edges sum_of add_halves min_of
  compute_edges2_shard cs = do
    (cut, inter) ←
        count_edges cs.partition_map (edges cs.net_graph) (zeros cs.shard_num, zeros cs.shard_num)
    let e = add_halves cut inter
    ok (record cs {
      edges2_shard = e;
      cross_shard_edge_num = div2 (sum_of cut);
      min_edges2_shard = min_of (pos 0x7fffffff) e;
    })

  unfoldable pub change_shard_recompute : Vertex → ℤ → ClpaState F → Result (ClpaState F)
  unfolding recount_edges min_of
  change_shard_recompute v old cs = do
    (e, cross) ←
        recount_edges cs.partition_map (shard_of cs.partition_map v) old
          (lookup_or [] v (edges cs.net_graph)) (cs.edges2_shard, cs.cross_shard_edge_num)
    ok (record cs {
      edges2_shard = e;
      cross_shard_edge_num = cross;
      min_edges2_shard = min_of (pos 0x7ffffffff) e;
    })
