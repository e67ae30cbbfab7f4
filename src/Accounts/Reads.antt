-- ===== src/Accounts/Reads.antt =====
-- A state trie read as a ledger, and what the two halves of a transfer do to it.
use aster.Prelude.{
  ℕ, ◌≡◌, ◌≢◌, sym, ◌∙◌, inl, inr, true, false, none, some, Bytes, ok, bytes_eq, ◌==◌,
  if◌then◌else◌, arith, Bool-cases, eq_of_beq, ne_of_beq,
}
use aster.Prelude.Int.{ℤ, ◌+ℤ◌, ◌-ℤ◌, ltb_ℤ}
use aster.Core.Account.{AccountState, deduct, deposit}
use aster.Core.Transaction.{Transaction}
use aster.Accounts.Tries.{StateTrie, AccountCodec}
use aster.Accounts.{account_at, charge_sender, credit_recipient}

-- A balance for every address.
abbrev pub Ledger : Type 0
Ledger = Bytes → ℤ

-- The ledger after the sender has paid, and after the recipient was credited.
abbrev pub debited : Ledger → Transaction → Ledger
debited l tx k = if k == tx.sender then l tx.sender -ℤ tx.value else l k

abbrev pub credited : Ledger → Transaction → Ledger
credited l tx k = if k == tx.recipient then l tx.recipient +ℤ tx.value else l k

module _ (t : StateTrie) (c : AccountCodec) (init_balance : ℤ) where
  -- Every account of the trie reads, with the balance that the ledger says.
  unfoldable pub Reads : t.Trie → Ledger → Type 0
  Reads st l =
      (k : Bytes) (nonce : ℕ)
      → (a : AccountState) × (account_at t c init_balance st k nonce ≡ ok a) × (a.balance ≡ l k)

  pub read :
      (st : t.Trie) (l : Ledger)
      → Reads st l
      → (k : Bytes) (nonce : ℕ)
      → (a : AccountState) × (account_at t c init_balance st k nonce ≡ ok a) × (a.balance ≡ l k)
  unfolding Reads
  read st l r = r

  account_at-update_self :
      (st : t.Trie) (k : Bytes) (a : AccountState) (nonce : ℕ)
      → account_at t c init_balance (t.update st k (c.encode a)) k nonce ≡ ok a
  unfolding account_at
  account_at-update_self st k a nonce =
      rw (t.get-update_self st k (c.encode a) (c.encode-ne-nil a), account_at)
        (rw (c.decode-encode a))

  account_at-update_ne :
      (st : t.Trie) (j k v : Bytes) (nonce : ℕ)
      → j ≢ k
      → account_at t c init_balance (t.update st k v) j nonce
        ≡ account_at t c init_balance st j nonce
  unfolding account_at
  account_at-update_ne st j k v nonce h = rw (t.get-update_ne st j k v h, account_at)

  -- Writing an account changes the ledger at its address.
  pub update-Reads :
      (st : t.Trie) (l l' : Ledger) (k : Bytes) (a : AccountState)
      → Reads st l
      → ((j : Bytes) → l' j ≡ (if j == k then a.balance else l j))
      → Reads (t.update st k (c.encode a)) l'
  unfolding Reads
  update-Reads st l l' k a r e j nonce = elim (Bool-cases (j == k)) [
    | inl same ↦
        let here : j ≡ k = eq_of_beq j k same in
        (a, rw here (account_at-update_self st k a nonce), ground (arith, e j))
    | inr other ↦
        let (b, at, bal) = r j nonce in
        (
          b,
          account_at-update_ne st j k (c.encode a) nonce (ne_of_beq j k other) ∙ at,
          ground (arith, e j),
        )
  ]

  pub Reads-ext :
      (st : t.Trie) (l l' : Ledger) → Reads st l → ((j : Bytes) → l' j ≡ l j) → Reads st l'
  unfolding Reads
  Reads-ext st l l' r e j nonce = let (b, at, bal) = r j nonce in (b, at, bal ∙ sym (e j))

  pub charge_sender_short :
      (i : ℕ) (st : t.Trie) (l : Ledger) (tx : Transaction)
      → Reads st l
      → ltb_ℤ (l tx.sender) tx.value ≡ true
      → charge_sender t c init_balance i st tx ≡ ok none
  unfolding Reads charge_sender
  charge_sender_short i st l tx r short =
      let (a, at, bal) = r tx.sender i in rw (at, charge_sender) (rw bal (rw short))

  pub charge_sender_covered :
      (i : ℕ) (st : t.Trie) (l : Ledger) (tx : Transaction)
      → Reads st l
      → ltb_ℤ (l tx.sender) tx.value ≡ false
      → (st' : t.Trie) × (charge_sender t c init_balance i st tx ≡ ok (some st'))
        × Reads st' (debited l tx)
  unfolding charge_sender deduct
  charge_sender_covered i st l tx r covered =
      let (a, at, bal) = read st l r tx.sender i in
      let short : ltb_ℤ a.balance tx.value ≡ false = rw bal covered in
      let a' = record a { balance = a.balance -ℤ tx.value } in
      (
        t.update st tx.sender (c.encode a'),
        rw (at, charge_sender) (rw (short, deduct)),
        update-Reads st l (debited l tx) tx.sender a' r (λ j. rw bal),
      )

  pub credit_recipient_lem :
      (i : ℕ) (st : t.Trie) (l : Ledger) (tx : Transaction)
      → Reads st l
      → (st' : t.Trie) × (credit_recipient t c init_balance i st tx ≡ ok st')
        × Reads st' (credited l tx)
  unfolding credit_recipient deposit
  credit_recipient_lem i st l tx r =
      let (a, at, bal) = read st l r tx.recipient i in
      (
        t.update st tx.recipient (c.encode (record a { balance = a.balance +ℤ tx.value })),
        rw (at, credit_recipient),
        update-Reads st l (credited l tx) tx.recipient
            (record a { balance = a.balance +ℤ tx.value }) r (λ j. rw bal),
      )
