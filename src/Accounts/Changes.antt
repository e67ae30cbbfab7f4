-- ===== src/Accounts/Changes.antt =====
-- When a state trie has nodes to commit: once a write has changed it.
use aster.Prelude.{
  ℕ, ◌≡◌, ◌≢◌, refl, ap, sym, ◌∙◌, true, false, Option, none, some, [], Bytes, Result, ok, panic,
  bytes_eq, ◌==◌, arith, Bool-cases, Result-cases, inl, inr, ◌⊎◌, eq_of_beq, ne_of_beq,
}
use aster.Prelude.Int.{ℤ, ltb_ℤ}
use aster.Core.Account.{deduct, deposit}
use aster.Core.Transaction.{Transaction}
use aster.Accounts.Tries.{StateTrie, AccountCodec}
use aster.Accounts.{account_at, charge_sender, credit_recipient}
use aster.Accounts.Reads.{Ledger, Reads, read}

module _ (t : StateTrie) where
  -- If the later trie has no nodes to commit, then neither has the earlier one, and both read the same.
  abbrev pub Keeps : t.Trie → t.Trie → Type 0
  Keeps st st' =
      t.has_nodes st' ≡ false → (t.has_nodes st ≡ false) × ((k : Bytes) → t.get st' k ≡ t.get st k)

  pub Keeps-refl : (st : t.Trie) → Keeps st st
  Keeps-refl st h = (h, λ k. refl)

  pub Keeps-trans : (st st1 st2 : t.Trie) → Keeps st st1 → Keeps st1 st2 → Keeps st st2
  Keeps-trans st st1 st2 one two h =
      let (clean, same) = two h in
      let (clean', same') = one clean in (clean', λ k. same k ∙ same' k)

  pub update-Keeps : (st : t.Trie) (k v : Bytes) → v ≢ [] → Keeps st (t.update st k v)
  update-Keeps st k v ne h =
      let (clean, same) = t.has_nodes-update st k v ne h in
      (
        clean,
        λ j. elim (Bool-cases (j == k)) [
          | inl here ↦
              let e = eq_of_beq j k here in
              ap (λ i. t.get (t.update st k v) i) e
              ∙ t.get-update_self st k v ne
              ∙ sym same
              ∙ ap (λ i. t.get st i) (sym e)
          | inr other ↦ t.get-update_ne st j k v (ne_of_beq j k other)
        ],
      )

  -- The trie of a result, where there is one.
  abbrev pub KeepsIn : (A B : Type 0) → t.Trie → Result (t.Trie × A × B) → Type 0
  KeepsIn A B st panic = Unit
  KeepsIn A B st (ok (st', x, y)) = Keeps st st'

  abbrev pub KeepsIf : t.Trie → Result (Option t.Trie) → Type 0
  KeepsIf st panic = Unit
  KeepsIf st (ok none) = Unit
  KeepsIf st (ok (some st')) = Keeps st st'

  abbrev pub KeepsOk : t.Trie → Result t.Trie → Type 0
  KeepsOk st panic = Unit
  KeepsOk st (ok st') = Keeps st st'

  module _ (c : AccountCodec) (init_balance : ℤ) where
    pub charge_sender-Keeps :
        (i : ℕ) (st : t.Trie) (tx : Transaction)
        → KeepsIf st (charge_sender t c init_balance i st tx)
    unfolding charge_sender
    charge_sender-Keeps i st tx = elim (Result-cases (account_at t c init_balance st tx.sender i)) [
      | inl bad ↦ rw bad tt
      | inr (a, at) ↦ elim (Bool-cases (ltb_ℤ a.balance tx.value)) [
        | inl short ↦ rw (at, short) tt
        | inr covered ↦
            rw (at, covered)
              (update-Keeps st tx.sender (c.encode (deduct a tx.value).0)
                (c.encode-ne-nil (deduct a tx.value).0))
      ]
    ]

    pub credit_recipient-Keeps :
        (i : ℕ) (st : t.Trie) (tx : Transaction)
        → KeepsOk st (credit_recipient t c init_balance i st tx)
    unfolding credit_recipient
    credit_recipient-Keeps i st tx =
        elim (Result-cases (account_at t c init_balance st tx.recipient i)) [
          | inl bad ↦ rw bad tt
          | inr (a, at) ↦ rw at (
              update-Keeps st tx.recipient (c.encode (deposit a tx.value))
                (c.encode-ne-nil (deposit a tx.value)))
        ]

    -- The trie had nodes to commit already, as an empty one has, or some balance has changed.
    abbrev pub IsWritten : t.Trie → Ledger → Ledger → Type 0
    IsWritten st l l' = (t.has_nodes st ≡ true) ⊎ ((k : Bytes) × (l' k ≢ l k))

    pub IsWritten-has_nodes :
        (st st' : t.Trie) (l l' : Ledger)
        → Keeps st st'
        → Reads t c init_balance st l
        → Reads t c init_balance st' l'
        → IsWritten st l l'
        → t.has_nodes st' ≡ true
    unfolding account_at
    IsWritten-has_nodes st st' l l' kept r r' h = elim (Bool-cases (t.has_nodes st')) [
      | inl written ↦ written
      | inr clean ↦
          let (clean', same) = kept clean in
          elim h [
            | inl written ↦ absurd (ground (arith, clean', written))
            | inr (k, changed) ↦
                let (a, at, bal) = read t c init_balance st l r k 0 in
                let (a', at', bal') = read t c init_balance st' l' r' k 0 in
                let e : ok a' ≡ ok a = sym at' ∙ rw (same k, account_at) refl ∙ at in
                absurd (
                  changed
                    (sym bal' ∙ ap (λ r. elim r [ ok x ↦ x.balance | panic ↦ a.balance ]) e ∙ bal))
          ]
    ]
