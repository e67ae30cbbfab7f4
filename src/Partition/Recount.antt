-- ===== src/Partition/Recount.antt =====
-- The loop of `changeShardRecompute` in partition/partition_CLPA.go, as sums over the neighbours.
use aster.Prelude.{
  ℕ, ◌+◌, ◌<◌, ◌≡◌, refl, ap, ◌∙◌, false, List, [], ◌∷◌, bytes_eq, nat_eq, ◌==◌, Map, ok,
  if◌then◌else◌, arith, Bool-cases, inl, inr,
}
use mathlib.Core.Path.{fun_ext}
use aster.Prelude.Int.{ℤ, pos, negsuc, ◌+ℤ◌, ◌-ℤ◌, int_eq, int_laws}
use aster.Partition.Graph.{Vertex}
use aster.Partition.Arrays.{tabulate, tabulate_ext, bump, add_at-tabulate}
use aster.Partition.Edges.{sum_near}
use aster.Partition.Clpa.{recount_edge, recount_edges}
use aster.Partition.Counts.{IsHome}

abbrev pub shift : ℤ → ℕ → ℕ → ℤ
shift z up down = (z +ℤ pos up) -ℤ pos down

shift-shift : (z : ℤ) (u d u' d' : ℕ) → shift (shift z u d) u' d' ≡ shift z (u + u') (d + d')
shift-shift z u d u' d' = omega int_laws

shift_both : (z : ℤ) (u d : ℕ) → shift (shift z u 0) 0 d ≡ shift z u d
shift_both z u d = omega int_laws

shift_none : (z : ℤ) → shift z 0 0 ≡ z
shift_none z = omega int_laws

-- What one neighbour in shard `s` adds and takes when a vertex goes from `a` to `b`.
abbrev pub up : ℕ → ℕ → ℕ → ℕ
up b k s = if s == b then 0 else (if k == b then 1 else 0)

abbrev pub down : ℕ → ℕ → ℕ → ℕ
down a k s = if s == a then 0 else (if k == a then 1 else 0)

abbrev pub one_at : ℕ → ℕ → ℕ
one_at i s = if s == i then 1 else 0

pub pos_same : (s i : ℕ) → (pos s == pos i) ≡ (s == i)
pos_same s i = ground arith

pub bump_up :
    (n i : ℕ) (f : ℕ → ℤ)
    → tabulate n (bump i (pos 1) f) ≡ tabulate n (λ k. shift (f k) (if k == i then 1 else 0) 0)
bump_up n i f =
    tabulate_ext n (bump i (pos 1) f) (λ k. shift (f k) (if k == i then 1 else 0) 0)
      (λ k l. elim (Bool-cases (k == i)) [
        | inl same ↦ rw same (omega int_laws)
        | inr other ↦ rw other (omega int_laws)
      ])

pub bump_down :
    (n i : ℕ) (f : ℕ → ℤ)
    → tabulate n (bump i (negsuc 0) f) ≡ tabulate n (λ k. shift (f k) 0 (if k == i then 1 else 0))
bump_down n i f =
    tabulate_ext n (bump i (negsuc 0) f) (λ k. shift (f k) 0 (if k == i then 1 else 0))
      (λ k l. elim (Bool-cases (k == i)) [
        | inl same ↦ rw same (omega int_laws)
        | inr other ↦ rw other (omega int_laws)
      ])

one_up : (c : ℤ) → c +ℤ pos 1 ≡ shift c 1 0
one_up c = omega int_laws

one_down : (c : ℤ) → c +ℤ negsuc 0 ≡ shift c 0 1
one_down c = omega int_laws

module _ (n a b : ℕ) (a_in : a < n) (b_in : b < n) (differ : (a == b) ≡ false) where
  recount_edge_lem :
      (s : ℕ) (f : ℕ → ℤ) (c : ℤ)
      → recount_edge (pos b) (pos a) (pos s) (tabulate n f, c)
        ≡ ok (
          tabulate n (λ k. shift (f k) (up b k s) (down a k s)),
          shift c (one_at a s) (one_at b s),
        )
  unfolding recount_edge
  recount_edge_lem s f c = elim (Bool-cases (s == b)) [
    | inl new ↦
        let elsewhere : (s == a) ≡ false = ground arith in
        rw (
          pos_same s b,
          new,
          add_at-tabulate n a (negsuc 0) f a_in,
          elsewhere,
          bump_down n a f,
          one_down c,
        )
    | inr other ↦ elim (Bool-cases (s == a)) [
      | inl old ↦
          rw
            (
              pos_same s b,
              pos_same s a,
              other,
              old,
              add_at-tabulate n b (pos 1) f b_in,
              bump_up n b f,
            )
            (ap (λ z. ok (tabulate n (λ k. shift (f k) (if k == b then 1 else 0) 0), z)) (one_up c))
      | inr third ↦
          rw
            (
              pos_same s b,
              pos_same s a,
              other,
              third,
              add_at-tabulate n b (pos 1) f b_in,
              bump_up n b f,
              add_at-tabulate n a (negsuc 0) (λ k. shift (f k) (if k == b then 1 else 0) 0) a_in,
              bump_down n a (λ k. shift (f k) (if k == b then 1 else 0) 0),
            )
            (rw
              (
                fun_ext (λ k. shift_both (f k) (if k == b then 1 else 0) (if k == a then 1 else 0)),
                shift_none c,
              )
              refl)
    ]
  ]

  pub recount_edges_lem :
      (m : Map Vertex ℤ) (home : Vertex → ℕ)
      → IsHome n m home
      → (us : List Vertex) (f : ℕ → ℤ) (c : ℤ)
      → recount_edges m (pos b) (pos a) us (tabulate n f, c)
        ≡ ok (
          tabulate n (λ k.
              shift
                (f k)
                (sum_near (λ u. up b k (home u)) us)
                (sum_near (λ u. down a k (home u)) us)),
          shift c (sum_near (λ u. one_at a (home u)) us) (sum_near (λ u. one_at b (home u)) us),
        )
  unfolding recount_edges
  recount_edges_lem m home placed [] f c = rw (fun_ext (λ k. shift_none (f k)), shift_none c)
  recount_edges_lem m home placed (u ∷ us) f c =
      let s = home u in
      rw ((placed u).0, recount_edge_lem s f c)
        (recount_edges_lem m home placed us (λ k. shift (f k) (up b k s) (down a k s))
            (shift c (one_at a s) (one_at b s))
          ∙ (rw
              (
                fun_ext (λ k.
                    shift-shift (f k) (up b k s) (down a k s) (sum_near (λ w. up b k (home w)) us)
                      (sum_near (λ w. down a k (home w)) us)),
                shift-shift c (one_at a s) (one_at b s) (sum_near (λ w. one_at a (home w)) us)
                    (sum_near (λ w. one_at b (home w)) us),
              )
              refl))
