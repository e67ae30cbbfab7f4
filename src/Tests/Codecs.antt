-- ===== src/Tests/Codecs.antt =====
-- Readers and writers of byte strings for the tests, with the proofs that what is written is read.
use aster.Prelude.{
  ℕ, zero, suc, ◌≡◌, refl, ◌∙◌, ap, Bool, true, false, Option, none, some, List, [], ◌∷◌, ◌++◌,
  append_assoc, Bytes, length,
}
use aster.Prelude.Int.{ℤ, pos, negsuc}

pub record Codec (A : Type 0) : Type 0 where
  pub write : A → Bytes
  pub read : Bytes → Option (A × Bytes)
  pub read-write : (a : A) (rest : Bytes) → read (write a ++ rest) ≡ some (a, rest)

read_nat : Bytes → Option (ℕ × Bytes)
read_nat [] = none
read_nat (n ∷ rest) = some (n, rest)

pub nat : Codec ℕ
unfolding read_nat
nat = record { write = λ n. n ∷ []; read = read_nat; read-write = λ a rest. refl }

-- Through a bijection.
module _ {A B : Type 0} (f : A → B) (g : B → A) (h : (b : B) → f (g b) ≡ b) (c : Codec A) where
  read_via : Option (A × Bytes) → Option (B × Bytes)
  read_via none = none
  read_via (some (a, rest)) = some (f a, rest)

  pub via : Codec B
  unfolding read_via
  via = record {
    write = λ b. c.write (g b);
    read = λ bs. read_via (c.read bs);
    read-write = λ b rest. ap read_via (c.read-write (g b) rest) ∙ ap (λ x. some (x, rest)) (h b);
  }

module _ {A B : Type 0} (a : Codec A) (b : Codec B) where
  read_second : A → Option (B × Bytes) → Option ((A × B) × Bytes)
  read_second x none = none
  read_second x (some (y, rest)) = some ((x, y), rest)

  read_first : Option (A × Bytes) → Option ((A × B) × Bytes)
  unfolding read_second
  read_first none = none
  read_first (some (x, rest)) = read_second x (b.read rest)

  pub both : Codec (A × B)
  unfolding read_first read_second
  both = record {
    write = λ p. a.write p.0 ++ b.write p.1;
    read = λ bs. read_first (a.read bs);
    read-write = λ p rest.
        ap (λ bs. read_first (a.read bs)) (append_assoc (a.write p.0) (b.write p.1) rest)
        ∙ ap read_first (a.read-write p.0 (b.write p.1 ++ rest))
        ∙ ap (read_second p.0) (b.read-write p.1 rest);
  }

module _ {A : Type 0} (c : Codec A) where
  write_all : List A → Bytes
  write_all [] = []
  write_all (x ∷ xs) = c.write x ++ write_all xs

  cons_to : A → Option (List A × Bytes) → Option (List A × Bytes)
  cons_to x none = none
  cons_to x (some (xs, rest)) = some (x ∷ xs, rest)

  read_n : ℕ → Bytes → Option (List A × Bytes)
  unfolding cons_to
  read_n zero bs = some ([], bs)
  read_n (suc n) bs = elim (c.read bs) [ none ↦ none | some (x, rest) ↦ cons_to x (read_n n rest) ]

  read_n-write_all :
      (xs : List A) (rest : Bytes) → read_n (length xs) (write_all xs ++ rest) ≡ some (xs, rest)
  unfolding read_n write_all cons_to
  read_n-write_all [] rest = refl
  read_n-write_all (x ∷ xs) rest =
      rw (append_assoc (c.write x) (write_all xs) rest, c.read-write x (write_all xs ++ rest))
        (rw (read_n-write_all xs rest))

  read_list : Bytes → Option (List A × Bytes)
  unfolding read_n
  read_list [] = none
  read_list (n ∷ bs) = read_n n bs

  pub list : Codec (List A)
  unfolding read_list write_all
  list = record {
    write = λ xs. length xs ∷ write_all xs;
    read = read_list;
    read-write = read_n-write_all;
  }

pub bytes : Codec Bytes
unfolding list
bytes = list nat

bool_of : ℕ → Bool
bool_of zero = false
bool_of (suc n) = true

of_bool : Bool → ℕ
of_bool false = 0
of_bool true = 1

bool_of-of_bool : (b : Bool) → bool_of (of_bool b) ≡ b
unfolding bool_of of_bool
bool_of-of_bool false = refl
bool_of-of_bool true = refl

pub bool : Codec Bool
unfolding via
bool = via bool_of of_bool bool_of-of_bool nat

int_of : Bool × ℕ → ℤ
int_of (true, n) = pos n
int_of (false, n) = negsuc n

of_int : ℤ → Bool × ℕ
of_int (pos n) = (true, n)
of_int (negsuc n) = (false, n)

int_of-of_int : (z : ℤ) → int_of (of_int z) ≡ z
unfolding int_of of_int
int_of-of_int (pos n) = refl
int_of-of_int (negsuc n) = refl

pub int : Codec ℤ
unfolding via both
int = via int_of of_int int_of-of_int (both bool nat)
