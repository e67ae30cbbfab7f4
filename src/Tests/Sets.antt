-- ===== src/Tests/Sets.antt =====
-- A bitset for the tests: the list of the bits that are set, in place of the third-party package.
use aster.Prelude.{
  ℕ, ◌≡◌, refl, true, false, List, [], ◌∷◌, nat_eq, ◌==◌, if◌then◌else◌, contains, arith,
}
use aster.Core.Block.{BitSets}

pub set_of_bits-set :
    (b : List ℕ) (i j : ℕ) → contains (i ∷ b) j ≡ (if j == i then true else contains b j)
unfolding contains
set_of_bits-set b i j = ground arith

pub set_of_bits-new : (n i : ℕ) → contains {A = ℕ} [] i ≡ false
unfolding contains
set_of_bits-new n i = refl

abbrev pub set_of_bits : BitSets
set_of_bits = record {
  BitSet = List ℕ;
  new = λ n. [];
  set = λ b i. i ∷ b;
  test = λ b i. contains b i;
  test-new = set_of_bits-new;
  test-set = set_of_bits-set;
}
