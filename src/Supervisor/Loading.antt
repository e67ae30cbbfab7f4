-- ===== src/Supervisor/Loading.antt =====
-- supervisor/committee/committee_relay.go: `data2tx`, which reads one row of the data file.
use aster.Prelude.{
  ℕ, ◌+◌, ◌-◌, ◌*◌, Bool, false, not, ◌&&◌, Option, none, some, List, [], ◌∷◌, Bytes, bytes_eq,
  nat_eq, ◌==◌, Result, ok, ◌>>=◌, or_panic, if◌then◌else◌, length, drop, get_elem?, leb, ltb,
}
use aster.Prelude.Int.{ℤ, pos, sub_ℕ}
use aster.Core.Transaction.{Transaction, new_transaction}

-- `data[i]`
abbrev pub field : ℕ → List Bytes → Result Bytes
field i row = or_panic (get_elem? row i)

-- `new(big.Int).SetString(s, 10)`: a sign at most, then digits.
unfoldable pub parse_decimal : ℕ → Bytes → Option ℕ
parse_decimal acc [] = some acc
parse_decimal acc (c ∷ s) =
    let rest = parse_decimal (acc * 10 + (c - 48)) s in
    if leb b'0' c && leb c b'9' then rest else none

unfoldable pub set_string_digits : Bytes → Option ℕ
unfolding parse_decimal
set_string_digits [] = none
set_string_digits (c ∷ s) = parse_decimal 0 (c ∷ s)

unfoldable pub set_string : Bytes → Option ℤ
unfolding set_string_digits
set_string [] = none
set_string (c ∷ s) =
    if c == b'-'
    then elim (set_string_digits s) [ none ↦ none | some n ↦ some (sub_ℕ 0 n) ]
    else if c == b'+'
    then elim (set_string_digits s) [ none ↦ none | some n ↦ some (pos n) ]
    else elim (set_string_digits (c ∷ s)) [ none ↦ none | some n ↦ some (pos n) ]

-- The conjunction that `data2tx` tests. A field that is missing panics once it is read.
unfoldable pub is_transfer : List Bytes → Result Bool
is_transfer row = do
  a ← field 6 row
  if not (a == b'0' ∷ []) then ok false else (do
    b ← field 7 row
    from ← field 3 row
    to ← field 4 row
    ok (b == b'0' ∷ [] && ltb 16 (length from) && ltb 16 (length to) && not (from == to)))

module _ (sha256 : Bytes → Bytes) (encode_tx : Transaction → Bytes) where
  -- `data2tx`, `now` being the time that `NewTransaction` reads.
  unfoldable pub data2tx : ℕ → List Bytes → ℕ → Result (Option Transaction)
  unfolding is_transfer set_string new_transaction
  data2tx now row nonce = do
    legal ← is_transfer row
    if legal
        then (do
          amount ← field 8 row
          val ← or_panic (set_string amount)
          from ← field 3 row
          to ← field 4 row
          ok (some (new_transaction sha256 encode_tx now (drop 2 from) (drop 2 to) val nonce)))
        else ok none
