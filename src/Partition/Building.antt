-- ===== src/Partition/Building.antt =====
-- A state of partition/partition_CLPA.go that is set up and given edges.
use aster.Prelude.{
  ℕ, ◌<◌, ◌≡◌, refl, ap, sym, subst, ◌∙◌, true, false, none, some, List, [], ◌∷◌, bytes_eq, nat_eq,
  ◌==◌, Map, ok, if◌then◌else◌, arith, Bool-cases, Option-cases, inl, inr, lookup, lookup_or-some,
  insert, has_key, has_key-insert, has_key-beq, beq_refl, count,
}
use mathlib.Core.Path.{fun_ext}
use aster.Prelude.Int.{ℤ, pos, ◌+ℤ◌}
use aster.Utils.{addr2_shard}
use aster.Partition.Graph as Net
use aster.Partition.Graph.{Vertex, Graph, edges}
use aster.Partition.Arrays.{tabulate, add_at-tabulate}
use aster.Partition.Members.{vertices, homes, homes-insert, members_added, single_added}
use aster.Partition.Edges.{joined}
use aster.Partition.Clpa.{Floats, ClpaState, shard_of, zeros, add_vertex, ensure_vertex, add_edge}
use aster.Partition.Counts.{IsHome, bump-point}
use aster.Partition.Population.{population, IsHome-insert}

module _ {F : Floats} where
  -- `Init_CLPAState`, on a new state or an old one.
  unfoldable pub init_clpa_state : F.Float → ℕ → ℕ → ClpaState F → ClpaState F
  unfolding zeros
  init_clpa_state wp m_iter sn cs = record cs {
    weight_penalty = wp;
    max_iterations = m_iter;
    shard_num = sn;
    vertexs_num_in_shard = zeros sn;
    partition_map = [];
  }

module _ (params_shard_num n : ℕ) where
  -- `Addr2Shard` gives the address a shard.
  abbrev pub IsAddressed : Vertex → Type 0
  IsAddressed v = (i : ℕ) × (addr2_shard params_shard_num v ≡ ok (pos i)) × (i < n)

  -- The shard that `AddVertex` gives.
  given_shard :
      (v : Vertex) (m : Map Vertex ℤ)
      → IsHome n m (homes m)
      → IsAddressed v
      → (i : ℕ) × ((elim (lookup v m) [ none ↦ addr2_shard params_shard_num v | some val ↦ ok val ])
          ≡ ok (pos i))
        × (i < n)
  given_shard v m placed (i, read, i_in) = elim (Option-cases (lookup v m)) [
    | inl absent ↦ (i, rw absent read, i_in)
    | inr (val, found) ↦
        let (here, h_in) = placed v in
        let e : shard_of m v ≡ val = lookup_or-some (pos 0) v m found in
        (homes m v, rw found (ap (λ z. ok z) (sym e ∙ here)), h_in)
  ]

module _ {F : Floats} (params_shard_num n : ℕ) where
  -- A state that was built from the edges `es`, the last first.
  pub record IsBuilt (es : List (Vertex × Vertex)) (cs : ClpaState F) : Type 0 where
    pub shards : cs.shard_num ≡ n
    pub graph : edges cs.net_graph ≡ joined es
    pub placed : IsHome n cs.partition_map (homes cs.partition_map)
    pub members :
        cs.vertexs_num_in_shard
        ≡ tabulate n (λ k. pos (population (homes cs.partition_map) k (vertices cs.net_graph)))
    pub single :
        (v : Vertex)
        → count v (vertices cs.net_graph) ≡ (if has_key v cs.net_graph.vertex_set then 1 else 0)

  add_vertex-IsBuilt :
      (es : List (Vertex × Vertex)) (v : Vertex) (cs : ClpaState F)
      → IsAddressed params_shard_num n v
      → has_key v cs.net_graph.vertex_set ≡ false
      → IsBuilt es cs
      → (cs' : ClpaState F) × (add_vertex params_shard_num v cs ≡ ok cs')
        × IsBuilt es cs'
        × (cs'.net_graph ≡ Net.add_vertex v cs.net_graph)
  unfolding add_vertex Net.add_vertex
  add_vertex-IsBuilt es v cs addressed fresh built =
      let m = cs.partition_map in
      let (i, given, i_in) = given_shard params_shard_num n v m built.placed addressed in
      let home = homes m in
      let vs = vertices cs.net_graph in
      let nums = λ (k : ℕ). pos (population home k vs) in
      let home' = homes (insert v (pos i) m) in
      let members' : (k : ℕ)
          → nums k +ℤ pos (if i == k then 1 else 0)
            ≡ pos (population home' k (vertices (Net.add_vertex v cs.net_graph))) =
        members_added v i m cs.net_graph.vertex_set (rw fresh at (built.single v)) fresh in
      (
        record cs {
          net_graph = Net.add_vertex v cs.net_graph;
          partition_map = insert v (pos i) m;
          vertexs_num_in_shard =
              tabulate n (λ k. pos (population home' k (vertices (Net.add_vertex v cs.net_graph))));
        },
        rw
            (
              given,
              built.members,
              add_at-tabulate n i (pos 1) nums i_in,
              bump-point n i nums,
              fun_ext members',
            )
            refl,
        record {
          shards = built.shards;
          graph = built.graph;
          placed =
              subst (IsHome n (insert v (pos i) m)) (sym (homes-insert v i m))
                (IsHome-insert n m home v i built.placed i_in);
          members = refl;
          single = λ w. single_added v w cs.net_graph.vertex_set fresh (built.single w);
        },
        refl,
      )

  ensure_vertex-IsBuilt :
      (es : List (Vertex × Vertex)) (v : Vertex) (cs : ClpaState F)
      → IsAddressed params_shard_num n v
      → IsBuilt es cs
      → (cs' : ClpaState F) × (ensure_vertex params_shard_num v cs ≡ ok cs')
        × IsBuilt es cs'
        × (has_key v cs'.net_graph.vertex_set ≡ true)
        × ((w : Vertex)
            → has_key w cs'.net_graph.vertex_set
              ≡ (if w == v then true else has_key w cs.net_graph.vertex_set))
  unfolding ensure_vertex Net.add_vertex
  ensure_vertex-IsBuilt es v cs addressed built =
      elim (Bool-cases (has_key v cs.net_graph.vertex_set)) [
        | inl old ↦ (
          cs,
          rw old refl,
          built,
          old,
          λ w. ground (arith, has_key-beq w v cs.net_graph.vertex_set, old),
        )
        | inr new ↦
            let (cs', added, built', net) = add_vertex-IsBuilt es v cs addressed new built in
            (
              cs',
              rw new added,
              built',
              rw (net, has_key-insert v v true cs.net_graph.vertex_set, beq_refl v),
              λ w. rw net (has_key-insert v w true cs.net_graph.vertex_set),
            )
      ]

  -- `AddEdge` between two addresses that have a shard adds the edge, and the vertices that are new to
  -- the counts of their shards.
  pub add_edge-IsBuilt :
      (es : List (Vertex × Vertex)) (u v : Vertex) (cs : ClpaState F)
      → IsAddressed params_shard_num n u
      → IsAddressed params_shard_num n v
      → IsBuilt es cs
      → (cs' : ClpaState F) × (add_edge params_shard_num u v cs ≡ ok cs')
        × IsBuilt ((u, v) ∷ es) cs'
  unfolding add_edge Net.add_edge Net.ensure_vertex joined
  add_edge-IsBuilt es u v cs at_u at_v built =
      let (cs1, first, built1, has1, keys1) = ensure_vertex-IsBuilt es u cs at_u built in
      let (cs2, second, built2, has2, keys2) = ensure_vertex-IsBuilt es v cs1 at_v built1 in
      let has_u : has_key u cs2.net_graph.vertex_set ≡ true = ground (arith, keys2 u, has1) in
      let g' : Net.add_edge u v cs2.net_graph ≡ record {
        vertex_set = cs2.net_graph.vertex_set;
        edge_set = some (joined ((u, v) ∷ es));
      } =
        rw (has_u, has2, built2.graph) refl in
      (
        record cs2 {
          net_graph = record {
            vertex_set = cs2.net_graph.vertex_set;
            edge_set = some (joined ((u, v) ∷ es));
          };
        },
        rw (first, second, g') refl,
        record {
          shards = built2.shards;
          graph = refl;
          placed = built2.placed;
          members = built2.members;
          single = built2.single;
        },
      )
