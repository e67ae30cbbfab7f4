-- ===== src/Partition/Starting.antt =====
-- The two initial partitions, the copy of a state and `EraseEdges`, partition/partition_CLPA.go. A range
-- over the vertices is in the order of the list.
use aster.Prelude.{
  ℕ, zero, suc, ◌+◌, ◌-◌, ◌%◌, Bool, Option, none, some, List, [], ◌∷◌, Bytes, bytes_eq, nat_eq,
  ◌==◌, Map, insert, Result, ok, panic, ◌>>=◌, or_panic, if◌then◌else◌, length, drop, ltb,
}
use aster.Prelude.Int.{ℤ, pos, negsuc, sub_ℕ}
use aster.Utils.{parse_uint}
use aster.Partition.Graph.{Vertex, copy_graph}
use aster.Partition.Arrays.{add_at}
use aster.Partition.Clpa.{Floats, ClpaState, shard_of, zeros, compute_edges2_shard}

-- `strconv.ParseInt(s, 16, 64)` of eight bytes, which cannot overflow: a sign at most, then digits.
unfoldable pub parse_int : Bytes → Option ℤ
parse_int [] = none
parse_int (c ∷ s) =
    if c == b'-'
    then elim (parse_uint s) [ none ↦ none | some n ↦ some (sub_ℕ 0 n) ]
    else if c == b'+'
    then elim (parse_uint s) [ none ↦ none | some n ↦ some (pos n) ]
    else elim (parse_uint (c ∷ s)) [ none ↦ none | some n ↦ some (pos n) ]

-- `z % n`, which has the sign of `z`.
unfoldable pub rem_int : ℤ → ℕ → Result ℤ
rem_int z zero = panic
rem_int (pos a) (suc n) = ok (pos (a % suc n))
rem_int (negsuc k) (suc n) = ok (sub_ℕ 0 (suc k % suc n))

-- The last eight bytes; a text that is shorter panics.
unfoldable pub last8 : Bytes → Result Bytes
last8 addr = if ltb (length addr) 8 then panic else ok (drop (length addr - 8) addr)

-- The loop of `Init_Partition`.
unfoldable pub place_by_address :
    ℕ → Map Vertex Bool → Map Vertex ℤ × List ℤ → Result (Map Vertex ℤ × List ℤ)
unfolding last8 parse_int rem_int
place_by_address n [] placed = ok placed
place_by_address n ((v, b) ∷ vs) (m, nums) = do
  va ← last8 v
  num ← or_panic (parse_int va)
  s ← rem_int num n
  nums' ← add_at s (pos 1) nums
  place_by_address n vs (insert v s m, nums')

-- The loop of `Stable_Init_Partition`, from the count `cnt` on.
unfoldable pub place_in_turn :
    ℕ → ℕ → Map Vertex Bool → Map Vertex ℤ × List ℤ → Result (Map Vertex ℤ × List ℤ)
unfolding rem_int
place_in_turn n cnt [] placed = ok placed
place_in_turn n cnt ((v, b) ∷ vs) (m, nums) = do
  s ← rem_int (pos cnt) n
  nums' ← add_at s (pos 1) nums
  place_in_turn n (cnt + 1) vs (insert v s m, nums')

-- `copy(make([]int, n), xs)`
unfoldable pub copy_ints : ℕ → List ℤ → List ℤ
copy_ints zero xs = []
copy_ints (suc n) [] = pos 0 ∷ copy_ints n []
copy_ints (suc n) (x ∷ xs) = x ∷ copy_ints n xs

-- The loop of `CopyCLPA` over the map of the shards.
unfoldable pub copy_places : Map Vertex ℤ → Map Vertex ℤ → Map Vertex ℤ → Map Vertex ℤ
copy_places src [] dst = dst
copy_places src ((v, s) ∷ rest) dst = copy_places src rest (insert v (shard_of src v) dst)

module _ {F : Floats} where
  unfoldable pub init_partition : ClpaState F → Result (ClpaState F)
  unfolding place_by_address
  init_partition cs = do
    (m, nums) ← place_by_address cs.shard_num cs.net_graph.vertex_set ([], zeros cs.shard_num)
    compute_edges2_shard (record cs { partition_map = m; vertexs_num_in_shard = nums })

  -- `ok none` is the error "too many shards".
  unfoldable pub stable_init_partition : ClpaState F → Result (Option (ClpaState F))
  unfolding place_in_turn
  stable_init_partition cs =
      if ltb (length cs.net_graph.vertex_set) cs.shard_num then ok none else (do
        (m, nums) ← place_in_turn cs.shard_num 0 cs.net_graph.vertex_set ([], zeros cs.shard_num)
        cs' ← compute_edges2_shard (record cs { partition_map = m; vertexs_num_in_shard = nums })
        ok (some cs'))

  -- `CopyCLPA`, up to the slice of the vertices' numbers, which both states share.
  unfoldable pub copy_clpa : ClpaState F → ClpaState F → ClpaState F
  unfolding copy_graph copy_places copy_ints
  copy_clpa dst src = record dst {
    net_graph = copy_graph dst.net_graph src.net_graph;
    partition_map = copy_places src.partition_map src.partition_map [];
    edges2_shard = copy_ints src.shard_num src.edges2_shard;
    vertexs_num_in_shard = src.vertexs_num_in_shard;
    weight_penalty = src.weight_penalty;
    min_edges2_shard = src.min_edges2_shard;
    max_iterations = src.max_iterations;
    shard_num = src.shard_num;
  }

  unfoldable pub erase_edges : ClpaState F → ClpaState F
  erase_edges cs = let g = cs.net_graph in record cs { net_graph = record g { edge_set = some [] } }
