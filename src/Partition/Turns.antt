-- ===== src/Partition/Turns.antt =====
-- `Stable_Init_Partition` of partition/partition_CLPA.go: the vertices are dealt to the shards in turn.
use aster.Prelude.{
  ℕ, zero, suc, ◌+◌, ◌%◌, ◌≤◌, ◌<◌, ◌≡◌, refl, ap, sym, subst, ◌∙◌, Bool, true, false, some, List,
  [], ◌∷◌, map, bytes_eq, nat_eq, ◌==◌, Map, insert, ok, if◌then◌else◌, length, ltb, has_key,
  DistinctKeys, All, lookup, lookup_or-insert, arith, Bool-cases, inl, inr, nat_beq_iff, beq_refl,
}
use mathlib.Core.Path.{fun_ext}
use native.Mathlib.Nat.{mod-eq_of_lt}
use aster.Prelude.Int.{ℤ, pos, ◌+ℤ◌}
use aster.Partition.Graph.{Vertex, edges}
use aster.Partition.Arrays.{tabulate, add_at-tabulate}
use aster.Partition.Edges.{joined}
use aster.Partition.Clpa.{Floats, ClpaState}
use aster.Partition.Counts.{touching, crossing, IsHome, bump-point, zeros-tabulate, pos-add}
use aster.Partition.Compute.{counted, compute_edges2_shard_lem}
use aster.Partition.Population.{population, IsHome-insert}
use aster.Partition.Outcome.{IsReady}
use aster.Partition.Members.{vertices, homes, homes-insert, empty-IsHome}
use aster.Partition.Starting.{rem_int, place_in_turn, stable_init_partition}

-- How many of `l` vertices, dealt from the count `cnt` on, shard `k` gets.
abbrev dealt : ℕ → ℕ → ℕ → ℕ → ℕ
dealt n cnt zero k = 0
dealt n cnt (suc l) k = (if cnt % n == k then 1 else 0) + dealt n (cnt + 1) l k

dealt_some : (n cnt l k : ℕ) → cnt ≤ k → k < cnt + l → k < n → 1 ≤ dealt n cnt l k
dealt_some n cnt zero k low high h = absurd (omega (arith, low, high))
dealt_some n cnt (suc l) k low high h = elim (Bool-cases (cnt == k)) [
  | inl same ↦
      let e : cnt ≡ k = (nat_beq_iff cnt k).0 same in
      let turn : (cnt % n == k) ≡ true = rw (e, mod-eq_of_lt h) (beq_refl k) in
      rw turn (omega arith)
  | inr other ↦
      let later : cnt + 1 ≤ k = ground (arith, low, other) in
      omega (arith, dealt_some n (cnt + 1) l k later (omega (arith, high)) h)
]

-- The map after the vertices were dealt.
abbrev placed : ℕ → ℕ → Map Vertex Bool → Map Vertex ℤ → Map Vertex ℤ
placed n cnt [] m = m
placed n cnt ((v, b) ∷ vs) m = placed n (cnt + 1) vs (insert v (pos (cnt % n)) m)

rem_int-pos : (a n : ℕ) → 0 < n → rem_int (pos a) n ≡ ok (pos (a % n))
unfolding rem_int
rem_int-pos a zero h = absurd (omega (arith, h))
rem_int-pos a (suc n) h = refl

module _ (n : ℕ) (some_shard : 0 < n) where
  turn_in : (cnt : ℕ) → cnt % n < n
  turn_in cnt = omega (arith, some_shard)

  place_in_turn_lem :
      (cnt : ℕ) (vs : Map Vertex Bool) (m : Map Vertex ℤ) (c : ℕ → ℕ)
      → place_in_turn n cnt vs (m, tabulate n (λ k. pos (c k)))
        ≡ ok (placed n cnt vs m, tabulate n (λ k. pos (c k + dealt n cnt (length vs) k)))
  unfolding place_in_turn
  place_in_turn_lem cnt [] m c =
      ap (λ f. ok (m, tabulate n f)) (fun_ext (λ k. ap (λ x. pos x) (omega arith)))
  place_in_turn_lem cnt ((v, b) ∷ vs) m c =
      let nums : ℕ → ℤ = λ k. pos (c k) in
      let c' : ℕ → ℕ = λ k. c k + (if cnt % n == k then 1 else 0) in
      let merge : (k : ℕ) → nums k +ℤ pos (if cnt % n == k then 1 else 0) ≡ pos (c' k) =
        λ k. pos-add (c k) (if cnt % n == k then 1 else 0) in
      rw
        (
          rem_int-pos cnt n some_shard,
          add_at-tabulate n (cnt % n) (pos 1) nums (turn_in cnt),
          bump-point n (cnt % n) nums,
          fun_ext merge,
          place_in_turn_lem (cnt + 1) vs (insert v (pos (cnt % n)) m) c',
        )
        (ap (λ f. ok (placed n (cnt + 1) vs (insert v (pos (cnt % n)) m), tabulate n f))
          (fun_ext (λ k. ap (λ x. pos x) (omega arith))))

  placed-IsHome :
      (cnt : ℕ) (vs : Map Vertex Bool) (m : Map Vertex ℤ)
      → IsHome n m (homes m)
      → IsHome n (placed n cnt vs m) (homes (placed n cnt vs m))
  placed-IsHome cnt [] m h = h
  placed-IsHome cnt ((v, b) ∷ vs) m h = placed-IsHome (cnt + 1) vs (insert v (pos (cnt % n)) m) (
      subst (IsHome n (insert v (pos (cnt % n)) m)) (sym (homes-insert v (cnt % n) m))
        (IsHome-insert n m (homes m) v (cnt % n) h (turn_in cnt)))

  -- A vertex that is not dealt stays where it was.
  placed_absent :
      (cnt : ℕ) (w : Vertex) (vs : Map Vertex Bool) (m : Map Vertex ℤ)
      → has_key w vs ≡ false
      → homes (placed n cnt vs m) w ≡ homes m w
  unfolding has_key lookup
  placed_absent cnt w [] m h = refl
  placed_absent cnt w ((v, b) ∷ vs) m h = elim (Bool-cases (w == v)) [
    | inl same ↦ absurd (ground (arith, h, same))
    | inr other ↦
        let m' = insert v (pos (cnt % n)) m in
        let gone : has_key w vs ≡ false = ground (arith, h, other) in
        placed_absent (cnt + 1) w vs m' gone
        ∙ rw (lookup_or-insert (pos 0) v w (pos (cnt % n)) m, other) refl
  ]

  population-placed :
      (cnt k : ℕ) (vs : Map Vertex Bool) (m : Map Vertex ℤ)
      → DistinctKeys vs
      → population (homes (placed n cnt vs m)) k (map (λ e. e.0) vs) ≡ dealt n cnt (length vs) k
  population-placed cnt k [] m _ = refl
  population-placed cnt k ((v, b) ∷ vs) m (fresh, more) =
      let m' = insert v (pos (cnt % n)) m in
      let here : homes (placed n (cnt + 1) vs m') v ≡ cnt % n =
        placed_absent (cnt + 1) v vs m' fresh
        ∙ rw (lookup_or-insert (pos 0) v v (pos (cnt % n)) m, beq_refl v) refl in
      rw (here, population-placed (cnt + 1) k vs m' more) refl

module _ {F : Floats} where
  -- With a shard, and as many vertices as shards or more, each once in a graph built from edges without
  -- one from a vertex to itself, `Stable_Init_Partition` does not panic and gives no error: no shard is
  -- empty, the state is ready to be partitioned, and it counts for each shard the edges with an end
  -- there, and the edges between two shards, each once.
  pub stable_init_partition-IsReady :
      (es : List (Vertex × Vertex)) (cs : ClpaState F) (k : ℕ)
      → edges cs.net_graph ≡ joined es
      → All (λ e. (e.0 == e.1) ≡ false) es
      → DistinctKeys cs.net_graph.vertex_set
      → 0 < cs.shard_num
      → cs.shard_num ≤ length cs.net_graph.vertex_set
      → k < cs.shard_num
      → (cs' : ClpaState F) × (home : Vertex → ℕ) × (stable_init_partition cs ≡ ok (some cs'))
        × IsReady es (vertices cs'.net_graph) home cs'
        × (1 ≤ population home k (vertices cs'.net_graph))
        × (cs'.edges2_shard ≡ tabulate cs.shard_num (λ i. pos (touching home i es)))
        × (cs'.cross_shard_edge_num ≡ pos (crossing home es))
  unfolding stable_init_partition
  stable_init_partition-IsReady es cs k graph proper distinct some_shard enough k_in =
      let n = cs.shard_num in
      let vs = cs.net_graph.vertex_set in
      let m = placed n 0 vs [] in
      let home = homes m in
      let fine : ltb (length vs) n ≡ false = ground (arith, enough) in
      let dealing = place_in_turn_lem n some_shard 0 vs [] (λ k. 0) in
      let at_home = placed-IsHome n some_shard 0 vs [] (empty-IsHome n some_shard) in
      let turns : (k : ℕ) → population home k (map (λ e. e.0) vs) ≡ dealt n 0 (length vs) k =
        λ k. population-placed n some_shard 0 k vs [] distinct in
      let nums = tabulate n (λ k. pos (0 + dealt n 0 (length vs) k)) in
      let cs0 = record cs { partition_map = m; vertexs_num_in_shard = nums } in
      (
        counted home es cs0,
        home,
        rw (fine, zeros-tabulate n, dealing, compute_edges2_shard_lem home es cs0 graph at_home)
            refl,
        record {
          graph = graph;
          proper = proper;
          placed = at_home;
          members =
              ap (λ f. tabulate n f) (fun_ext (λ k. ap (λ x. pos x) (omega (arith, turns k))));
        },
        rw (turns k)
            (dealt_some n 0 (length vs) k (omega arith) (omega (arith, k_in, enough)) k_in),
        refl,
        refl,
      )
