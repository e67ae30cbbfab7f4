-- ===== src/Partition/Edges.antt =====
-- Sums over the adjacency lists of partition/graph.go, as sums over the edges that were added.
use aster.Prelude.{
  ℕ, ◌+◌, ◌≡◌, refl, List, [], ◌∷◌, ◌++◌, bytes_eq, ◌==◌, Map, insert, lookup_or, if◌then◌else◌,
  arith, lookup_or-insert, lookup_or-nil, lookup_or-cons, ap, Bool-cases, inl, inr,
}
use aster.Partition.Graph.{Vertex, append_edge}

-- The adjacency lists after some edges, the last first.
unfoldable pub joined : List (Vertex × Vertex) → Map Vertex (List Vertex)
joined [] = []
joined ((u, v) ∷ es) = append_edge v u (append_edge u v (joined es))

abbrev pub sum_near : (Vertex → ℕ) → List Vertex → ℕ
sum_near f [] = 0
sum_near f (u ∷ us) = f u + sum_near f us

abbrev pub total : (Vertex → Vertex → ℕ) → Map Vertex (List Vertex) → ℕ
total w [] = 0
total w ((v, us) ∷ m) = sum_near (w v) us + total w m

abbrev pub sum_edges : (Vertex → Vertex → ℕ) → List (Vertex × Vertex) → ℕ
sum_edges w [] = 0
sum_edges w ((u, v) ∷ es) = w u v + w v u + sum_edges w es

sum_near-append :
    (f : Vertex → ℕ) (us : List Vertex) (v : Vertex)
    → sum_near f (us ++ v ∷ []) ≡ sum_near f us + f v
sum_near-append f [] v = omega arith
sum_near-append f (u ∷ us) v = omega (arith, sum_near-append f us v)

-- A write trades the sum over the old list of its key for that over the new one.
total-insert :
    (w : Vertex → Vertex → ℕ) (u : Vertex) (us : List Vertex) (m : Map Vertex (List Vertex))
    → total w (insert u us m) + sum_near (w u) (lookup_or [] u m) ≡ total w m + sum_near (w u) us
unfolding insert
total-insert w u us [] = rw (lookup_or-nil {V = List Vertex} [] u) (omega arith)
total-insert w u us ((i, vs) ∷ m) = elim (Bool-cases (u == i)) [
  | inl same ↦
      let e : u ≡ i = (bytes_eq.same_iff u i).0 same in
      let old : lookup_or [] u ((i, vs) ∷ m) ≡ vs = rw (lookup_or-cons [] u i vs m, same) in
      let moved : sum_near (w u) vs ≡ sum_near (w i) vs = ap (λ j. sum_near (w j) vs) e in
      rw (same, old, moved) (omega arith)
  | inr other ↦
      let old : lookup_or [] u ((i, vs) ∷ m) ≡ lookup_or [] u m =
        rw (lookup_or-cons [] u i vs m, other) in
      rw (other, old) (omega (arith, total-insert w u us m))
]

total-append_edge :
    (w : Vertex → Vertex → ℕ) (u v : Vertex) (m : Map Vertex (List Vertex))
    → total w (append_edge u v m) ≡ total w m + w u v
unfolding append_edge
total-append_edge w u v m =
    let old = lookup_or [] u m in
    omega (arith, total-insert w u (old ++ v ∷ []) m, sum_near-append (w u) old v)

pub total-joined :
    (w : Vertex → Vertex → ℕ) (es : List (Vertex × Vertex)) → total w (joined es) ≡ sum_edges w es
unfolding joined
total-joined w [] = refl
total-joined w ((u, v) ∷ es) = omega (
  arith,
  total-append_edge w v u (append_edge u v (joined es)),
  total-append_edge w u v (joined es),
  total-joined w es,
)

abbrev pub if_same : Vertex → Vertex → ℕ → ℕ
if_same x u n = if x == u then n else 0

sum_near-append_edge :
    (f : Vertex → ℕ) (x u v : Vertex) (m : Map Vertex (List Vertex))
    → sum_near f (lookup_or [] x (append_edge u v m))
      ≡ sum_near f (lookup_or [] x m) + if_same x u (f v)
unfolding append_edge
sum_near-append_edge f x u v m = elim (Bool-cases (x == u)) [
  | inl same ↦
      rw
        (
          lookup_or-insert [] u x (lookup_or [] u m ++ v ∷ []) m,
          same,
          (bytes_eq.same_iff x u).0 same,
        )
        (sum_near-append f (lookup_or [] u m) v)
  | inr other ↦ rw (lookup_or-insert [] u x (lookup_or [] u m ++ v ∷ []) m, other) (omega arith)
]

-- A sum over the neighbours of `x`.
pub sum_near-joined :
    (f : Vertex → ℕ) (x : Vertex) (es : List (Vertex × Vertex))
    → sum_near f (lookup_or [] x (joined es)) ≡ sum_edges (λ u v. if_same x u (f v)) es
unfolding joined
sum_near-joined f x [] = rw (lookup_or-nil {V = List Vertex} [] x)
sum_near-joined f x ((u, v) ∷ es) = omega (
  arith,
  sum_near-append_edge f x v u (append_edge u v (joined es)),
  sum_near-append_edge f x u v (joined es),
  sum_near-joined f x es,
)
