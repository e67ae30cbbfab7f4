-- ===== src/Partition/Graph.antt =====
-- The graph of the transactions, partition/graph.go. A vertex is its address. A nil `VertexSet` reads
-- as an empty one, and is made before it is written; a nil `EdgeSet` is `none`.
use aster.Prelude.{
  Bool, true, Option, none, some, List, [], ◌∷◌, ◌++◌, Bytes, bytes_eq, Map, insert, has_key,
  lookup_or, if◌then◌else◌,
}

abbrev pub Vertex : Type 0
Vertex = Bytes

pub record Graph : Type 0 where
  pub vertex_set : Map Vertex Bool
  pub edge_set : Option (Map Vertex (List Vertex))

unfoldable pub add_vertex : Vertex → Graph → Graph
add_vertex v g = record g { vertex_set = insert v true g.vertex_set }

abbrev pub edges : Graph → Map Vertex (List Vertex)
edges g = elim g.edge_set [ none ↦ [] | some m ↦ m ]

-- `g.EdgeSet[u] = append(g.EdgeSet[u], v)`
unfoldable pub append_edge : Vertex → Vertex → Map Vertex (List Vertex) → Map Vertex (List Vertex)
append_edge u v m = insert u (lookup_or [] u m ++ v ∷ []) m

-- The vertex, added if it is missing.
unfoldable pub ensure_vertex : Vertex → Graph → Graph
unfolding add_vertex
ensure_vertex v g = if has_key v g.vertex_set then g else add_vertex v g

unfoldable pub add_edge : Vertex → Vertex → Graph → Graph
unfolding ensure_vertex append_edge
add_edge u v g =
    let g' = ensure_vertex v (ensure_vertex u g) in
    record g' { edge_set = some (append_edge v u (append_edge u v (edges g'))) }

-- The two loops of `CopyGraph` over the vertices of the source.
unfoldable pub copy_vertices : Map Vertex Bool → Map Vertex Bool → Map Vertex Bool
copy_vertices [] to = to
copy_vertices ((v, b) ∷ vs) to = copy_vertices vs (insert v true to)

unfoldable pub copy_edges :
    Map Vertex Bool → Map Vertex (List Vertex) → Map Vertex (List Vertex) → Map Vertex (List Vertex)
copy_edges [] from to = to
copy_edges ((v, b) ∷ vs) from to = copy_edges vs from (insert v (lookup_or [] v from) to)

-- `CopyGraph`: the copy, of which the edges stay as they are when the source has none.
unfoldable pub copy_graph : Graph → Graph → Graph
unfolding copy_vertices copy_edges
copy_graph dst src = record {
  vertex_set = copy_vertices src.vertex_set [];
  edge_set = elim src.edge_set [
    | none ↦ dst.edge_set
    | some m ↦ some (copy_edges src.vertex_set m [])
  ];
}
