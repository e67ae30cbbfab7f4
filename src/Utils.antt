-- ===== src/Utils.antt =====
-- Package `utils`: utils/utils_partition.go, and the digits that `strconv` reads.
pub mod Shards
use aster.Prelude.{
  ℕ, ◌+◌, ◌-◌, ◌*◌, ◌%◌, ◌^◌, Bool, true, false, ◌&&◌, Option, none, some, List, [], ◌∷◌, Bytes,
  Result, ok, panic, ◌>>=◌, or_panic, nat_eq, ◌==◌, leb, ltb, if◌then◌else◌, length, drop,
}
use aster.Prelude.Int.{ℤ, pos, negsuc, sub_ℕ}

-- The value of one hexadecimal digit. `strconv.ParseInt` reads a text of one byte to base 16 so: a
-- sign or an underscore alone is no number.
unfoldable pub hex_digit : ℕ → Option ℕ
hex_digit c =
    if leb b'0' c && leb c b'9'
    then some (c - 48)
    else if leb b'a' c && leb c b'f'
    then some (c - 87)
    else if leb b'A' c && leb c b'F'
    then some (c - 55)
    else none

-- `strconv.ParseUint(s, 16, 64)` of at most 16 digits, which cannot overflow.
unfoldable pub parse_digits : ℕ → Bytes → Option ℕ
parse_digits acc [] = some acc
parse_digits acc (c ∷ s) = elim (hex_digit c) [
  | none ↦ none
  | some d ↦ parse_digits (acc * 16 + d) s
]

unfoldable pub parse_uint : Bytes → Option ℕ
unfolding parse_digits
parse_uint [] = none
parse_uint (c ∷ s) = parse_digits 0 (c ∷ s)

unfoldable pub last16 : Bytes → Bytes
last16 addr = if ltb 16 (length addr) then drop (length addr - 16) addr else addr

-- Go's `int(num) % n` for a `uint64` and a positive `n`: from 2^63 on `int(num)` is negative, and
-- so is the remainder.
unfoldable pub int_mod : ℕ → ℕ → ℤ
int_mod num n = if ltb num (2 ^ 63) then pos (num % n) else sub_ℕ 0 ((2 ^ 64 - num) % n)

-- `Addr2Shard`
unfoldable pub addr2_shard : ℕ → Bytes → Result ℤ
addr2_shard shard_num addr = do
  num ← or_panic (parse_uint (last16 addr))
  if shard_num == 0 then panic else ok (int_mod num shard_num)

-- `ModBytes`: the bytes as a big-endian number, modulo `mod`.
unfoldable pub big_endian : ℕ → Bytes → ℕ
big_endian acc [] = acc
big_endian acc (b ∷ bs) = big_endian (acc * 256 + b) bs

unfoldable pub mod_bytes : Bytes → ℕ → ℕ
unfolding big_endian
mod_bytes s m = big_endian 0 s % m
