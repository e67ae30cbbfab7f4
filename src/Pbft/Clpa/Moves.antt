-- ===== src/Pbft/Clpa/Moves.antt =====
-- `sendAccounts_and_Txs` of consensus_shard/pbft_all/accountTransfer_module.go: which transactions go
-- where.
use aster.Prelude.{
  ℕ, suc, ◌+◌, ◌≡◌, refl, ap, Bool, true, false, not, ◌&&◌, List, [], ◌∷◌, ◌++◌, Bytes, Map, ok,
  nat_eq, bytes_eq, ◌==◌, if◌then◌else◌, filter, All, contains, lookup_or, leb, ltb, length, arith,
  Bool-cases, inl, inr, eq_of_beq,
}
use aster.Core.Transaction.{Transaction}
use aster.Core.Account.{AccountState}
use aster.Pbft.Clpa.{AccountStateAndTx}
use aster.Pbft.Clpa.Transfer.{TransferOut, accounts_for, is_sent, fetch_txs}

-- The address that a transaction waits for: the sender's, then the recipient's.
abbrev pub owner : Transaction → Bytes
owner tx = if tx.relayed then tx.recipient else tx.sender

-- The transactions that are sent to the leader of a shard, and the addresses.
abbrev pub txs_to : ℕ → List TransferOut → List Transaction
txs_to sid [] = []
txs_to sid (TransferOut.partition_ready i pr ∷ out) = txs_to sid out
txs_to sid (TransferOut.account_state_and_tx i at ∷ out) =
    (if i == sid then at.txs else []) ++ txs_to sid out

abbrev pub addrs_to : ℕ → List TransferOut → List Bytes
addrs_to sid [] = []
addrs_to sid (TransferOut.partition_ready i pr ∷ out) = addrs_to sid out
addrs_to sid (TransferOut.account_state_and_tx i at ∷ out) =
    (if i == sid then at.addrs else []) ++ addrs_to sid out

pub contains-filter :
    (p : Bytes → Bool) (k : Bytes) (xs : List Bytes)
    → contains (filter p xs) k ≡ contains xs k && p k
unfolding contains
contains-filter p k [] = refl
contains-filter p k (x ∷ xs) = elim (Bool-cases (k == x)) [
  | inl same ↦
      let e : k ≡ x = eq_of_beq k x same in ground (arith, same, ap p e, contains-filter p k xs)
  | inr other ↦ ground (arith, other, contains-filter p k xs)
]

pub fetch_txs_lem :
    (addr_set : List Bytes) (txs : List Transaction)
    → fetch_txs addr_set txs
      ≡ (filter (is_sent addr_set) txs, filter (λ tx. not (is_sent addr_set tx)) txs)
unfolding fetch_txs
fetch_txs_lem addr_set [] = refl
fetch_txs_lem addr_set (tx ∷ txs) =
    rw (fetch_txs_lem addr_set txs) (elim (Bool-cases (is_sent addr_set tx)) [
      | inl sent ↦ rw sent refl
      | inr kept ↦ rw kept refl
    ])

-- What a leader of shard `sid` accepts under a map: an account for each address, and transactions that
-- wait for addresses that the map gives to the shard.
abbrev pub IsArrival : Map Bytes ℕ → ℕ → AccountStateAndTx → Type 0
IsArrival m sid at =
    (length at.account_state ≡ length at.addrs) × All (λ tx. lookup_or 0 (owner tx) m ≡ sid) at.txs

-- Each message is accepted where it goes.
abbrev pub IsAccepted : Map Bytes ℕ → TransferOut → Type 0
IsAccepted m (TransferOut.partition_ready i pr) = All (λ k. lookup_or 0 k m ≡ i) []
IsAccepted m (TransferOut.account_state_and_tx i at) = IsArrival m i at

module _ (m : Map Bytes ℕ) (to_fetch : List Bytes) where
  abbrev pub dest : Bytes → ℕ
  dest key = lookup_or 0 key m

  abbrev pub goes_to : ℕ → Transaction → Bool
  goes_to i tx = contains to_fetch (owner tx) && dest (owner tx) == i

  pub accounts_for_lem :
      (i : ℕ) (addrs : List Bytes) (states : List AccountState)
      → length states ≡ length addrs
      → (sts : List AccountState) × (accounts_for i m addrs states
          ≡ ok (filter (λ k. dest k == i) addrs, sts))
        × (length sts ≡ length (filter (λ k. dest k == i) addrs))
  unfolding accounts_for
  accounts_for_lem i [] [] h = ([], refl, refl)
  accounts_for_lem i [] (a ∷ states) h = ([], refl, refl)
  accounts_for_lem i (addr ∷ addrs) [] h = absurd (omega (arith, h))
  accounts_for_lem i (addr ∷ addrs) (a ∷ states) h =
      let (sts, done, len) = accounts_for_lem i addrs states (omega (arith, h)) in
      elim (Bool-cases (dest addr == i)) [
        | inl there ↦ (a ∷ sts, rw (done, there) refl, rw there (ap (λ n. suc n) len))
        | inr other ↦ (sts, rw (done, other) refl, rw other len)
      ]

  pub is_sent-goes_to :
      (i : ℕ) (tx : Transaction) → is_sent (filter (λ k. dest k == i) to_fetch) tx ≡ goes_to i tx
  is_sent-goes_to i tx = ground (
    arith,
    contains-filter (λ k. dest k == i) tx.sender to_fetch,
    contains-filter (λ k. dest k == i) tx.recipient to_fetch,
  )

  pub goes_to-dest :
      (i : ℕ) (txs : List Transaction) → All (λ tx. dest (owner tx) ≡ i) (filter (goes_to i) txs)
  goes_to-dest i [] = tt
  goes_to-dest i (tx ∷ txs) = elim (Bool-cases (goes_to i tx)) [
    | inl goes ↦ rw goes (ground (arith, goes), goes_to-dest i txs)
    | inr other ↦ rw other (goes_to-dest i txs)
  ]

  module _ (shard_id : ℕ) where
    -- A shard of the loop from `i` on, `n` rounds.
    abbrev pub is_served : ℕ → ℕ → ℕ → Bool
    is_served i n sid = leb i sid && ltb sid (i + n) && not (sid == shard_id)

    abbrev pub stays : ℕ → ℕ → Transaction → Bool
    stays i n tx = not (contains to_fetch (owner tx) && is_served i n (dest (owner tx)))

    pub served_later :
        (i n sid : ℕ) → (i == sid) ≡ false → is_served (i + 1) n sid ≡ is_served i (suc n) sid
    served_later i n sid h = ground (arith, h)

    pub served_now :
        (i n sid : ℕ) → (i == sid) ≡ true → (i == shard_id) ≡ false → is_served i (suc n) sid ≡ true
    served_now i n sid h h' = ground (arith, h, h')

    pub not_again : (i n sid : ℕ) → (i == sid) ≡ true → is_served (i + 1) n sid ≡ false
    not_again i n sid h = ground (arith, h)

    pub own_skipped :
        (i n sid : ℕ) → (i == shard_id) ≡ true → is_served (i + 1) n sid ≡ is_served i (suc n) sid
    own_skipped i n sid h = ground (arith, h)

    -- One round leaves what neither goes to its shard nor to a later one.
    pub stays_on :
        (i n : ℕ) (tx : Transaction)
        → (i == shard_id) ≡ false
        → (not (goes_to i tx) && stays (i + 1) n tx) ≡ stays i (suc n) tx
    stays_on i n tx h = elim (Bool-cases (i == dest (owner tx))) [
      | inl same ↦
          let same' : (dest (owner tx) == i) ≡ true = ground (arith, same) in
          rw (served_now i n (dest (owner tx)) same h, same') (ground arith)
      | inr other ↦
          let other' : (dest (owner tx) == i) ≡ false = ground (arith, other) in
          rw (served_later i n (dest (owner tx)) other, other') (ground arith)
    ]
