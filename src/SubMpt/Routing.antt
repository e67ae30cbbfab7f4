-- ===== src/SubMpt/Routing.antt =====
-- The placement of a transaction, as `SchedulingTxs`, `VerifyingBlock` and `ProcessTxs` of
-- consensus_shard/subMPT all compute it: by the first hexadecimal digit of either address.
use aster.Prelude.{
  ℕ, ◌%◌, ◌<◌, ◌≡◌, ◌≢◌, refl, Option, none, some, [], ◌∷◌, arith, Bytes, Result, ok, panic, ◌>>=◌,
  nat_eq, ◌==◌, if◌then◌else◌,
}
use aster.Core.Transaction.{Transaction}
use aster.Utils.{hex_digit}

-- `addr[:1]`, which panics on an empty address.
unfoldable pub prefix : Bytes → Result ℕ
prefix [] = panic
prefix (c ∷ _) = ok c

-- The followers of the sender and of the recipient among `n`; `ok none` where a prefix is no
-- digit. A remainder by zero panics.
unfoldable pub route : ℕ → Transaction → Result (Option (ℕ × ℕ))
route n tx = do
  c1 ← prefix tx.sender
  c2 ← prefix tx.recipient
  elim (hex_digit c1) [
    | none ↦ ok none
    | some dec1 ↦ elim (hex_digit c2) [
      | none ↦ ok none
      | some dec2 ↦ if n == 0 then panic else ok (some (dec1 % n, dec2 % n))
    ]
  ]

-- Both addresses are non-empty and there is a follower, so that no placement panics.
pub record IsRoutable (n : ℕ) (tx : Transaction) : Type 0 where
  pub followers : n ≢ 0
  pub sender : tx.sender ≢ []
  pub recipient : tx.recipient ≢ []

-- A placement is among the followers' numbers, and panics on no routable transaction.
pub route-lt :
    (n : ℕ) (tx : Transaction) {d1 d2 : ℕ} → route n tx ≡ ok (some (d1, d2)) → (d1 < n) × (d2 < n)
unfolding route prefix
route-lt n tx h = ground arith

place_total :
    (n : ℕ) (o1 o2 : Option ℕ)
    → n ≢ 0
    → (r : Option (ℕ × ℕ)) × (elim o1 [
      | none ↦ ok none
      | some dec1 ↦ elim o2 [
        | none ↦ ok none
        | some dec2 ↦ if n == 0 then panic else ok (some (dec1 % n, dec2 % n))
      ]
    ]
        ≡ ok r)
place_total n none o2 h = (none, refl)
place_total n (some d1) none h = (none, refl)
place_total n (some d1) (some d2) h = (some (d1 % n, d2 % n), ground arith)

prefix_total : (a : Bytes) → a ≢ [] → (c : ℕ) × (prefix a ≡ ok c)
unfolding prefix
prefix_total [] h = absurd (h refl)
prefix_total (c ∷ a) h = (c, refl)

-- A routable transaction is placed, or recognised as having an address that is no number, without a
-- panic.
pub route_total :
    (n : ℕ) (tx : Transaction) → IsRoutable n tx → (r : Option (ℕ × ℕ)) × (route n tx ≡ ok r)
unfolding route
route_total n tx h =
    let (c1, e1) = prefix_total tx.sender h.sender in
    let (c2, e2) = prefix_total tx.recipient h.recipient in
    rw (e1, e2, route) (place_total n (hex_digit c1) (hex_digit c2) h.followers)
