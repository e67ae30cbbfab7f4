-- ===== src/Tests/Partitions.antt =====
-- The partition of a path of three vertices into two shards.
use aster.Prelude.{
  ℕ, ◌-◌, ◌*◌, ◌/◌, ◌≤◌, ◌<◌, ◌≡◌, refl, false, true, some, List, [], ◌∷◌, Bytes, bytes_eq, nat_eq,
  ◌==◌, Map, insert, lookup_or, count, min, All, ok, arith, ltb, bytes_beq,
}
use aster.Prelude.Int.{ℤ, pos, pos_part}
use aster.Prelude.{DistinctKeys, has_key, lookup}
use aster.Partition.Members.{vertices}
use aster.Partition.Starting.{stable_init_partition}
use aster.Partition.Turns.{stable_init_partition-IsReady}
use aster.Partition.Graph.{Vertex}
use aster.Partition.Arrays.{tabulate}
use aster.Partition.Edges.{joined}
use aster.Partition.Clpa.{Floats, ClpaState, compute_edges2_shard}
use aster.Partition.Propagation.{Run, sweeps, clpa_partition}
use aster.Partition.Counts.{IsHome, touching, crossing}
use aster.Partition.Population.{population, IsHome-insert}
use aster.Partition.Recompute.{moved_home}
use aster.Partition.Outcome.{IsReady, begun, sweeps-compute_edges2_shard, clpa_partition_lem}
use aster.Partition.Members.{empty-IsHome, homes}
use aster.Tests.Samples.{alice, bob}

-- Whole numbers for `float64`.
abbrev pub whole : Floats
whole = record {
  Float = ℕ;
  of_int = λ z. pos_part z;
  minus = λ a b. a - b;
  times = λ a b. a * b;
  divide = λ a b. a / b;
  ltb_float = λ a b. ltb a b;
  lowest = 0;
}

-- The text "2".
abbrev carol : Bytes
carol = 50 ∷ []

abbrev path : List (Vertex × Vertex)
path = (bob, carol) ∷ (alice, bob) ∷ []

abbrev people : List Vertex
people = alice ∷ bob ∷ carol ∷ []

abbrev none_home : Vertex → ℕ
none_home = homes []

-- Bob and carol are in shard 1.
abbrev home : Vertex → ℕ
home = moved_home bob 1 (moved_home carol 1 none_home)

abbrev places : Map Vertex ℤ
places = insert bob (pos 1) (insert carol (pos 1) [])

home-IsHome : IsHome 2 places home
home-IsHome =
    IsHome-insert 2 (insert carol (pos 1) []) (moved_home carol 1 none_home) bob 1
      (IsHome-insert 2 [] none_home carol 1 (empty-IsHome 2 (omega arith)) (omega arith))
      (omega arith)

abbrev state : ClpaState whole
state = record {
  net_graph = record {
    vertex_set = (alice, true) ∷ (bob, true) ∷ (carol, true) ∷ [];
    edge_set = some (joined path);
  };
  partition_map = places;
  edges2_shard = [];
  vertexs_num_in_shard = tabulate 2 (λ k. pos (population home k people));
  weight_penalty = 0;
  min_edges2_shard = pos 0;
  max_iterations = 2;
  cross_shard_edge_num = pos 0;
  shard_num = 2;
}

path-proper : All (λ e. ◌==◌ {K = Bytes} e.0 e.1 ≡ false) path
unfolding bytes_beq
path-proper = (refl, (refl, tt))

state-IsReady : IsReady path people home state
state-IsReady = record { graph = refl; proper = path-proper; placed = home-IsHome; members = refl }

-- Each iteration visits the vertices in the same order.
abbrev order : ℕ → List Vertex
order i = people

order-once : (i : ℕ) → All (λ x. count x people ≡ 1) (order i)
unfolding count bytes_beq
order-once i = (refl, (refl, (refl, tt)))

sweeps_example :
    (cs1 : ClpaState whole) × (r : Run whole) × (cs2 : ClpaState whole) × (compute_edges2_shard
        state
      ≡ ok cs1)
    × (sweeps order 0 3 (begun cs1) ≡ ok r)
    × (compute_edges2_shard r.cs ≡ ok cs2)
    × (cs2.edges2_shard ≡ r.cs.edges2_shard)
    × (cs2.cross_shard_edge_num ≡ r.cs.cross_shard_edge_num)
    × (cs2.partition_map ≡ r.cs.partition_map)
sweeps_example = sweeps-compute_edges2_shard order 3 path people home state order-once state-IsReady

clpa_partition_example :
    (cs' : ClpaState whole) × (res : Map Vertex ℕ) × (home' : Vertex → ℕ) × (clpa_partition order
        state
      ≡ ok (cs', res, pos (crossing home' path)))
    × IsHome 2 cs'.partition_map home'
    × (cs'.edges2_shard ≡ tabulate 2 (λ i. pos (touching home' i path)))
    × (cs'.vertexs_num_in_shard ≡ tabulate 2 (λ i. pos (population home' i people)))
    × (min 1 (population home 1 people) ≤ population home' 1 people)
    × (home' carol ≡ lookup_or (home carol) carol res)
    × All (λ e. e.1 < 2) res
clpa_partition_example =
    clpa_partition_lem order path people home state 1 carol order-once state-IsReady

state-distinct : DistinctKeys state.net_graph.vertex_set
unfolding has_key lookup bytes_beq
state-distinct = (refl, (refl, (refl, tt)))

stable_init_partition_example :
    (cs' : ClpaState whole) × (home' : Vertex → ℕ) × (stable_init_partition state ≡ ok (some cs'))
    × IsReady path (vertices cs'.net_graph) home' cs'
    × (1 ≤ population home' 1 (vertices cs'.net_graph))
    × (cs'.edges2_shard ≡ tabulate 2 (λ i. pos (touching home' i path)))
    × (cs'.cross_shard_edge_num ≡ pos (crossing home' path))
stable_init_partition_example =
    stable_init_partition-IsReady path state 1 refl path-proper state-distinct (omega arith)
      (ground arith) (omega arith)
