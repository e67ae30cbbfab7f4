-- ===== src/Prelude/Maps.antt =====
-- Go's maps as association lists. A `range` over a map visits the entries in the order of the
-- list; Go leaves that order open, and theorems about such a loop hold for every list.
use Prim.Native.Nat.{suc}
use mathlib.Core.Path.{◌≡◌, refl, ap, ◌∙◌}
use mathlib.Core.Logic.{◌≢◌, inl, inr}
use mathlib.Core.Bool.{Bool, true, false}
use mathlib.Core.Option.{Option, none, some}
use mathlib.Core.List.{List, [], ◌∷◌}
use native.Mathlib.Omega.{arith}
use aster.Prelude.Tests.{Comparable, ◌==◌, if◌then◌else◌, beq_refl, beq_ne, Bool-cases}
use aster.Prelude.Lists.{length, All}

abbrev pub Map {ℓ κ} : Type ℓ → Type κ → Type (ℓ ⊔ κ)
Map K V = List (K × V)

module _ {ℓ κ} {K : Type ℓ} {V : Type κ} ⦃e : Comparable K⦄ where
  -- `m[k]`, with `none` for a missing key.
  unfoldable pub lookup : K → Map K V → Option V
  lookup k [] = none
  lookup k ((i, u) ∷ m) = if k == i then some u else lookup k m

  -- `m[k] = v`
  unfoldable pub insert : K → V → Map K V → Map K V
  insert k v [] = (k, v) ∷ []
  insert k v ((i, u) ∷ rest) = if k == i then (k, v) ∷ rest else (i, u) ∷ insert k v rest

  -- `delete(m, k)`, which takes out every entry of the key.
  unfoldable pub delete : K → Map K V → Map K V
  delete k [] = []
  delete k ((j, w) ∷ m) = if k == j then delete k m else (j, w) ∷ delete k m

  -- `_, ok := m[k]`
  unfoldable pub has_key : K → Map K V → Bool
  has_key k m = elim (lookup k m) [ none ↦ false | some _ ↦ true ]

  -- A missing key reads as the zero value.
  unfoldable pub lookup_or : V → K → Map K V → V
  lookup_or d k m = elim (lookup k m) [ none ↦ d | some v ↦ v ]

  pub lookup-insert :
      (k j : K) (v : V) (m : Map K V)
      → lookup j (insert k v m) ≡ (if j == k then some v else lookup j m)
  unfolding lookup insert
  lookup-insert k j v [] = refl
  lookup-insert k j v ((i, w) ∷ m) =
      ground (
        arith,
        e.same_iff k j,
        e.same_iff j k,
        e.same_iff k i,
        e.same_iff j i,
        lookup-insert k j v m,
      )

  pub lookup-insert_self : (k : K) (v : V) (m : Map K V) → lookup k (insert k v m) ≡ some v
  lookup-insert_self k v m = rw (lookup-insert k k v m, beq_refl k)

  pub lookup-insert_ne :
      (k j : K) (v : V) (m : Map K V) → j ≢ k → lookup j (insert k v m) ≡ lookup j m
  lookup-insert_ne k j v m h = rw (lookup-insert k j v m, beq_ne j k h)

  pub lookup-delete :
      (k j : K) (m : Map K V) → lookup j (delete k m) ≡ (if j == k then none else lookup j m)
  unfolding lookup delete
  lookup-delete k j [] = elim (Bool-cases (j == k)) [ inl h ↦ rw h | inr h ↦ rw h ]
  lookup-delete k j ((i, w) ∷ m) =
      ground
        (arith, e.same_iff k j, e.same_iff j k, e.same_iff k i, e.same_iff j i, lookup-delete k j m)

  -- A write adds an entry only for a new key.
  pub length-insert :
      (k : K) (v : V) (m : Map K V)
      → length (insert k v m) ≡ (if has_key k m then length m else suc (length m))
  unfolding insert has_key lookup
  length-insert k v [] = refl
  length-insert k v ((j, w) ∷ m) = ground (arith, length-insert k v m)

  pub lookup_or-insert :
      (d : V) (k j : K) (v : V) (m : Map K V)
      → lookup_or d j (insert k v m) ≡ (if j == k then v else lookup_or d j m)
  unfolding lookup_or
  lookup_or-insert d k j v m = ground (arith, lookup-insert k j v m)

  pub has_key-insert :
      (k j : K) (v : V) (m : Map K V)
      → has_key j (insert k v m) ≡ (if j == k then true else has_key j m)
  unfolding has_key
  has_key-insert k j v m = ground (arith, lookup-insert k j v m)

  pub lookup_or-delete :
      (d : V) (k j : K) (m : Map K V)
      → lookup_or d j (delete k m) ≡ (if j == k then d else lookup_or d j m)
  unfolding lookup_or
  lookup_or-delete d k j m = ground (arith, lookup-delete k j m)

  pub lookup_or-nil : (d : V) (k : K) → lookup_or d k [] ≡ d
  unfolding lookup_or lookup
  lookup_or-nil d k = refl

  pub lookup_or-cons :
      (d : V) (j k : K) (v : V) (m : Map K V)
      → lookup_or d j ((k, v) ∷ m) ≡ (if j == k then v else lookup_or d j m)
  unfolding lookup_or lookup
  lookup_or-cons d j k v m = ground arith

  pub lookup_or_absent : (d : V) (k : K) (m : Map K V) → has_key k m ≡ false → lookup_or d k m ≡ d
  unfolding lookup_or has_key
  lookup_or_absent d k m h = ground arith

  pub lookup_or-some :
      (d : V) (k : K) (m : Map K V) {v : V} → lookup k m ≡ some v → lookup_or d k m ≡ v
  unfolding lookup_or
  lookup_or-some d k m h = ground arith

  -- No key stands twice, as in every map that Go builds.
  abbrev pub DistinctKeys : Map K V → Type 0
  DistinctKeys [] = Unit
  DistinctKeys ((k, v) ∷ m) = (has_key k m ≡ false) × DistinctKeys m

  pub has_key-delete :
      (k j : K) (m : Map K V) → has_key j (delete k m) ≡ (if j == k then false else has_key j m)
  unfolding has_key
  has_key-delete k j m = ground (arith, lookup-delete k j m)

  pub has_key_of_lookup : (k : K) (m : Map K V) {v : V} → lookup k m ≡ some v → has_key k m ≡ true
  unfolding has_key
  has_key_of_lookup k m h = ground arith

  pub has_key_of_none : (k : K) (m : Map K V) → lookup k m ≡ none → has_key k m ≡ false
  unfolding has_key
  has_key_of_none k m h = ground arith

  pub length-delete_absent :
      (k : K) (m : Map K V) → has_key k m ≡ false → length (delete k m) ≡ length m
  unfolding has_key lookup delete
  length-delete_absent k [] h = refl
  length-delete_absent k ((j, w) ∷ m) h = ground (arith, length-delete_absent k m)

  -- A deletion takes out the one entry of its key.
  pub length-delete :
      (k : K) (m : Map K V)
      → DistinctKeys m
      → has_key k m ≡ true
      → suc (length (delete k m)) ≡ length m
  unfolding has_key lookup delete
  length-delete k [] d h = ground arith
  length-delete k ((j, w) ∷ m) (fresh, d) h = elim (Bool-cases (k == j)) [
    | inl same ↦ ground (arith, e.same_iff k j, length-delete_absent k m)
    | inr other ↦ ground (arith, length-delete k m d)
  ]

  pub delete-DistinctKeys : (k : K) (m : Map K V) → DistinctKeys m → DistinctKeys (delete k m)
  unfolding delete
  delete-DistinctKeys k [] d = d
  delete-DistinctKeys k ((j, w) ∷ m) (fresh, d) = elim (Bool-cases (k == j)) [
    | inl same ↦ rw same (delete-DistinctKeys k m d)
    | inr other ↦ rw other (ground (arith, has_key-delete k j m), delete-DistinctKeys k m d)
  ]

  pub has_key-beq : (j k : K) (m : Map K V) → (j == k) ≡ true → has_key j m ≡ has_key k m
  has_key-beq j k m same = ap (λ x. has_key x m) ((e.same_iff j k).0 same)

  pub insert-DistinctKeys :
      (k : K) (v : V) (m : Map K V) → DistinctKeys m → DistinctKeys (insert k v m)
  unfolding insert has_key lookup
  insert-DistinctKeys k v [] d = (refl, tt)
  insert-DistinctKeys k v ((j, w) ∷ m) (fresh, d) = elim (Bool-cases (k == j)) [
    | inl same ↦ rw same (ap (λ x. has_key x m) ((e.same_iff k j).0 same) ∙ fresh, d)
    | inr other ↦ rw other (
      ground (arith, has_key-insert k j v m, e.same_iff j k, e.same_iff k j, fresh),
      insert-DistinctKeys k v m d,
    )
  ]

  -- A write keeps what holds of all entries and of the one written.
  pub All-insert {ι} :
      (P : K × V → Type ι) (k : K) (v : V) (m : Map K V) → P (k, v) → All P m → All P (insert k v m)
  unfolding insert
  All-insert P k v [] h hs = (h, tt)
  All-insert P k v ((j, w) ∷ m) h (here, hs) = elim (Bool-cases (k == j)) [
    | inl same ↦ rw same (h, hs)
    | inr other ↦ rw other (here, All-insert P k v m h hs)
  ]
