-- ===== src/Utils/Shards.antt =====
-- The range of `Addr2Shard` of utils/utils_partition.go.
use aster.Prelude.{
  ℕ, ◌-◌, ◌%◌, ◌^◌, ◌<◌, ◌≤◌, ◌≡◌, ◌≢◌, false, some, Bytes, ok, nat_eq, ◌==◌, arith,
}
use aster.Prelude.Int.{pos, negsuc}
use aster.Utils.{parse_uint, last16, int_mod, addr2_shard}

int_mod_small : (num n : ℕ) → num < 2 ^ 63 → int_mod num n ≡ pos (num % n)
unfolding int_mod
int_mod_small num n h = ground arith

int_mod_large :
    (num n : ℕ)
    → 2 ^ 63 ≤ num
    → (2 ^ 64 - num) % n ≢ 0
    → int_mod num n ≡ negsuc ((2 ^ 64 - num) % n - 1)
unfolding int_mod
int_mod_large num n h k = ground arith

nonzero : (n : ℕ) → n ≢ 0 → (n == 0) ≡ false
nonzero n h = ground arith

mod_lt : (a n : ℕ) → n ≢ 0 → a % n < n
mod_lt a n h = omega arith

-- While the last sixteen digits stand for less than 2^63, the result is the remainder, a number of
-- a shard.
pub addr2_shard_small :
    (n : ℕ) (addr : Bytes) (num : ℕ)
    → n ≢ 0
    → parse_uint (last16 addr) ≡ some num
    → num < 2 ^ 63
    → (addr2_shard n addr ≡ ok (pos (num % n))) × (num % n < n)
unfolding addr2_shard
addr2_shard_small n addr num nz read small =
    (rw (read, addr2_shard) (rw (nonzero n nz, int_mod_small num n small)), mod_lt num n nz)

-- From 2^63 on, and unless the remainder is zero, the result is negative: no shard has that number.
pub addr2_shard_negative :
    (n : ℕ) (addr : Bytes) (num : ℕ)
    → n ≢ 0
    → parse_uint (last16 addr) ≡ some num
    → 2 ^ 63 ≤ num
    → (2 ^ 64 - num) % n ≢ 0
    → (k : ℕ) × (addr2_shard n addr ≡ ok (negsuc k)) × (k < n)
unfolding addr2_shard
addr2_shard_negative n addr num nz read large rest =
    let r = (2 ^ 64 - num) % n in
    let below : r < n = mod_lt (2 ^ 64 - num) n nz in
    (r - 1, rw (read, addr2_shard) (rw (nonzero n nz, int_mod_large num n large rest)), omega arith)
