-- ===== src/Core/Account.antt =====
-- core/account.go: the state of an account and the two operations on its balance.
use aster.Prelude.{ℕ, Bool, true, false, if◌then◌else◌, Bytes}
use aster.Prelude.Int.{ℤ, ◌+ℤ◌, ◌-ℤ◌, ltb_ℤ}

pub record AccountState : Type 0 where
  pub ac_address : Bytes
  pub nonce : ℕ
  pub balance : ℤ
  pub storage_root : Bytes
  pub code_hash : Bytes

-- `Deduct`: the new state, and whether the balance covered the amount.
unfoldable pub deduct : AccountState → ℤ → AccountState × Bool
deduct s val =
    if ltb_ℤ s.balance val then (s, false) else (record s { balance = s.balance -ℤ val }, true)

unfoldable pub deposit : AccountState → ℤ → AccountState
deposit s value = record s { balance = s.balance +ℤ value }
