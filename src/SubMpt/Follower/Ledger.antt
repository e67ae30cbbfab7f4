-- ===== src/SubMpt/Follower/Ledger.antt =====
-- The abstract view of a follower of consensus_shard/subMPT: a balance for every address. It
-- knows neither tries nor encodings, and says what executing a transaction is to do.
use aster.Prelude.{
  ℕ, Bool, true, false, ◌&&◌, Option, none, some, List, [], ◌∷◌, Bytes, Result, ok, panic, nat_eq,
  bytes_eq, ◌==◌, if◌then◌else◌,
}
use aster.Prelude.Int.{pos, ◌+ℤ◌, ◌-ℤ◌, ltb_ℤ}
use aster.Core.Transaction.{Transaction}
use aster.SubMpt.Routing.{route}
use aster.Accounts.Reads.{Ledger}

-- `f` holds the sender's account, or the recipient's.
abbrev pub is_payer : ℕ → Option (ℕ × ℕ) → Bool
is_payer f none = false
is_payer f (some (d1, d2)) = d1 == f

abbrev pub is_payee : ℕ → Option (ℕ × ℕ) → Bool
is_payee f none = false
is_payee f (some (d1, d2)) = d2 == f

-- Whether follower `f` executes a transaction that is placed so: it is well formed, and a sender
-- that is held here can pay.
abbrev pub accepts : ℕ → Option (ℕ × ℕ) → Ledger → Transaction → Bool
accepts f none l tx = false
accepts f (some (d1, d2)) l tx = if d1 == f && ltb_ℤ (l tx.sender) tx.value then false else true

-- The balances after it: the value leaves a sender that is held here, and reaches a recipient
-- that is held here.
abbrev pub transferred : ℕ → Option (ℕ × ℕ) → Ledger → Transaction → Ledger
transferred f dest l tx k =
    l k
    -ℤ (if is_payer f dest && k == tx.sender then tx.value else pos 0)
    +ℤ (if is_payee f dest && k == tx.recipient then tx.value else pos 0)

abbrev pub placed : Result (Option (ℕ × ℕ)) → Option (ℕ × ℕ)
placed (ok dest) = dest
placed panic = none

unfoldable pub is_executed : ℕ → ℕ → Ledger → Transaction → Bool
is_executed n f l tx = accepts f (placed (route n tx)) l tx

unfoldable pub execute : ℕ → ℕ → Ledger → Transaction → Ledger
execute n f l tx =
    if accepts f (placed (route n tx)) l tx then transferred f (placed (route n tx)) l tx else l

-- A batch, in order: the balances after it, and the hashes of what was executed.
unfoldable pub execute_all : ℕ → ℕ → Ledger → List Transaction → Ledger
execute_all n f l [] = l
execute_all n f l (tx ∷ txs) = execute_all n f (execute n f l tx) txs

unfoldable pub executed_hashes : ℕ → ℕ → Ledger → List Transaction → List Bytes
executed_hashes n f l [] = []
executed_hashes n f l (tx ∷ txs) =
    let rest = executed_hashes n f (execute n f l tx) txs in
    if is_executed n f l tx then tx.tx_hash ∷ rest else rest
