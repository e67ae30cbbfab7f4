-- ===== src/SubMpt/Follower/Conservation.antt =====
-- What executing a transaction of consensus_shard/subMPT does to the sum of the balances.
use aster.Prelude.{
  ℕ, ◌≡◌, ◌≢◌, refl, ◌∙◌, ap, inl, inr, Bool, true, false, ◌&&◌, Option, none, some, List, [], ◌∷◌,
  Bytes, ok, nat_eq, bytes_eq, ◌==◌, if◌then◌else◌, arith, Bool-cases, contains, All, eq_of_beq,
  beq_refl, bytes_beq_iff,
}
use aster.Prelude.Int.{ℤ, pos, ◌+ℤ◌, ◌-ℤ◌, ◌≤ℤ◌, ltb_ℤ, int_laws, sub-zero, add-zero, zero-add}
use aster.Core.Transaction.{Transaction}
use aster.SubMpt.Routing.{route}
use aster.Accounts.Reads.{Ledger}
use aster.SubMpt.Follower.Ledger.{
  accepts, transferred, placed, is_payer, is_payee, is_executed, execute, execute_all,
}

-- No address stands twice.
abbrev pub Distinct : List Bytes → Type 0
Distinct [] = Unit
Distinct (k ∷ ks) = (contains ks k ≡ false) × Distinct ks

unfoldable pub total : Ledger → List Bytes → ℤ
total l [] = pos 0
total l (k ∷ ks) = l k +ℤ total l ks

-- The amount `v` at address `a`, and nothing elsewhere.
abbrev at_address : Bool → Bytes → ℤ → Bytes → ℤ
at_address b a v k = if b && k == a then v else pos 0

total-at_address_absent :
    (b : Bool) (a : Bytes) (v : ℤ) (ks : List Bytes)
    → contains ks a ≡ false
    → total (at_address b a v) ks ≡ pos 0
unfolding total contains
total-at_address_absent b a v [] h = refl
total-at_address_absent b a v (k ∷ ks) h = ground (
  arith,
  total-at_address_absent b a v ks,
  bytes_beq_iff a k,
  bytes_beq_iff k a,
  add-zero (pos 0),
)

total-at_address :
    (b : Bool) (a : Bytes) (v : ℤ) (ks : List Bytes)
    → Distinct ks
    → contains ks a ≡ true
    → total (at_address b a v) ks ≡ (if b then v else pos 0)
unfolding total contains
total-at_address b a v [] d h = ground arith
total-at_address b a v (k ∷ ks) d h = elim (Bool-cases (a == k)) [
  | inl here ↦
      let e : a ≡ k = eq_of_beq a k here in
      ground (arith, total-at_address_absent b k v ks d.0, beq_refl k, add-zero v, add-zero (pos 0))
  | inr there ↦ ground (
    arith,
    total-at_address b a v ks d.1,
    bytes_beq_iff a k,
    bytes_beq_iff k a,
    zero-add v,
    zero-add (pos 0),
  )
]

total_moved :
    (l out into : Ledger) (ks : List Bytes)
    → total (λ k. l k -ℤ out k +ℤ into k) ks ≡ total l ks -ℤ total out ks +ℤ total into ks
unfolding total
total_moved l out into [] = omega int_laws
total_moved l out into (k ∷ ks) = rw (total_moved l out into ks) (omega int_laws)

-- What leaves and what enters the accounts that follower `f` of `n` holds.
unfoldable pub paid : ℕ → ℕ → Ledger → Transaction → ℤ
paid n f l tx = if is_executed n f l tx && is_payer f (placed (route n tx)) then tx.value else pos 0

unfoldable pub received : ℕ → ℕ → Ledger → Transaction → ℤ
received n f l tx =
    if is_executed n f l tx && is_payee f (placed (route n tx)) then tx.value else pos 0

-- Over any addresses without repetition that include the two of the transaction, the sum of a
-- follower's balances changes by what it receives less what it pays.
pub total-execute :
    (n f : ℕ) (l : Ledger) (tx : Transaction) (ks : List Bytes)
    → Distinct ks
    → contains ks tx.sender ≡ true
    → contains ks tx.recipient ≡ true
    → total (execute n f l tx) ks ≡ total l ks -ℤ paid n f l tx +ℤ received n f l tx
unfolding execute paid received is_executed
total-execute n f l tx ks d hs hr =
    let dest = placed (route n tx) in
    elim (Bool-cases (accepts f dest l tx)) [
      | inl yes' ↦ rw yes' (
          total_moved l (at_address (is_payer f dest) tx.sender tx.value)
            (at_address (is_payee f dest) tx.recipient tx.value) ks
          ∙ ap
              (λ q.
                total l ks -ℤ q +ℤ total (at_address (is_payee f dest) tx.recipient tx.value) ks)
              (total-at_address (is_payer f dest) tx.sender tx.value ks d hs)
          ∙ ap (λ q. total l ks -ℤ (if is_payer f dest then tx.value else pos 0) +ℤ q)
              (total-at_address (is_payee f dest) tx.recipient tx.value ks d hr))
      | inr no' ↦ rw no' (omega int_laws)
    ]

-- Both addresses of every transaction are among `ks`.
abbrev pub Covers : List Bytes → List Transaction → Type 0
Covers ks [] = Unit
Covers ks (tx ∷ txs) =
    (contains ks tx.sender ≡ true) × (contains ks tx.recipient ≡ true) × Covers ks txs

-- A transaction whose two accounts are both held by follower `f` of `n`.
abbrev pub IsLocal : ℕ → ℕ → Transaction → Type 0
IsLocal n f tx = route n tx ≡ ok (some (f, f))

abbrev pub AllLocal : ℕ → ℕ → List Transaction → Type 0
AllLocal n f [] = Unit
AllLocal n f (tx ∷ txs) = IsLocal n f tx × AllLocal n f txs

paid_local :
    (n f : ℕ) (l : Ledger) (tx : Transaction) → IsLocal n f tx → paid n f l tx ≡ received n f l tx
unfolding paid received
paid_local n f l tx here = rw here

total-execute_local :
    (n f : ℕ) (l : Ledger) (tx : Transaction) (ks : List Bytes)
    → Distinct ks
    → contains ks tx.sender ≡ true
    → contains ks tx.recipient ≡ true
    → IsLocal n f tx
    → total (execute n f l tx) ks ≡ total l ks
total-execute_local n f l tx ks d hs hr here =
    total-execute n f l tx ks d hs hr
    ∙ ap (λ q. total l ks -ℤ q +ℤ received n f l tx) (paid_local n f l tx here)
    ∙ (omega int_laws)

-- A batch of transactions between accounts of one follower moves money and makes or destroys none.
pub total-execute_all :
    (n f : ℕ) (l : Ledger) (txs : List Transaction) (ks : List Bytes)
    → Distinct ks
    → Covers ks txs
    → AllLocal n f txs
    → total (execute_all n f l txs) ks ≡ total l ks
unfolding execute_all
total-execute_all n f l [] ks d h here = refl
total-execute_all n f l (tx ∷ txs) ks d h here =
    total-execute_all n f (execute n f l tx) txs ks d h.2 here.1
    ∙ total-execute_local n f l tx ks d h.0 h.1 here.0

-- Where the sender and the recipient belong to different followers and the sender's balance is too
-- low, the sender's follower refuses the transaction, but the recipient's follower executes it and
-- credits the value: over the two ledgers the money appears from nowhere.
pub execute_unpaid :
    (n d1 d2 : ℕ) (l1 l2 : Ledger) (tx : Transaction)
    → route n tx ≡ ok (some (d1, d2))
    → d1 ≢ d2
    → ltb_ℤ (l1 tx.sender) tx.value ≡ true
    → (is_executed n d1 l1 tx ≡ false)
      × (execute n d1 l1 tx ≡ l1)
      × (is_executed n d2 l2 tx ≡ true)
      × (execute n d2 l2 tx tx.recipient ≡ l2 tx.recipient +ℤ tx.value)
unfolding execute is_executed
execute_unpaid n d1 d2 l1 l2 tx e ne short =
    rw e (ground (arith, beq_refl tx.recipient, sub-zero (l2 tx.recipient)))

-- No balance is negative.
abbrev pub IsSolvent : Ledger → Type 0
IsSolvent l = (k : Bytes) → pos 0 ≤ℤ l k

nonneg_moved : (a out into : ℤ) → out ≤ℤ a → pos 0 ≤ℤ into → pos 0 ≤ℤ a -ℤ out +ℤ into
nonneg_moved a out into h k = omega int_laws

transferred_nonneg :
    (f : ℕ) (dest : Option (ℕ × ℕ)) (l : Ledger) (tx : Transaction) (k : Bytes)
    → pos 0 ≤ℤ tx.value
    → pos 0 ≤ℤ l k
    → pos 0 ≤ℤ (if accepts f dest l tx then transferred f dest l tx else l) k
transferred_nonneg f none l tx k v s = s
transferred_nonneg f (some (d1, d2)) l tx k v s =
    let out = if d1 == f && k == tx.sender then tx.value else pos 0 in
    let into = if d2 == f && k == tx.recipient then tx.value else pos 0 in
    ground (arith, bytes_beq_iff k tx.sender, nonneg_moved (l k) out into)

-- A batch of transactions with amounts of zero or more leaves no balance below zero, if none was.
pub execute_all-IsSolvent :
    (n f : ℕ) (l : Ledger) (txs : List Transaction)
    → All (λ tx. pos 0 ≤ℤ tx.value) txs
    → IsSolvent l
    → IsSolvent (execute_all n f l txs)
unfolding execute_all execute
execute_all-IsSolvent n f l [] h s = s
execute_all-IsSolvent n f l (tx ∷ txs) h s =
    execute_all-IsSolvent n f (execute n f l tx) txs h.1
      (λ k. transferred_nonneg f (placed (route n tx)) l tx k h.0 (s k))
