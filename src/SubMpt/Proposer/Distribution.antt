-- ===== src/SubMpt/Proposer/Distribution.antt =====
-- How the goroutines of `SchedulingTxs` and `VerifyingBlock` of consensus_shard/subMPT/proposer.go
-- deal a batch out: every follower gets the transactions of its accounts.
use aster.Prelude.{
  ℕ, ◌≡◌, refl, sym, ◌∙◌, inl, inr, Bool, ◌||◌, Option, none, some, List, [], ◌∷◌, ◌++◌,
  append_assoc, append-nil, Map, ok, nat_eq, bytes_eq, if◌then◌else◌, arith, filter, All, lookup_or,
  lookup_or-insert, lookup_or-nil, insert, Bool-cases,
}
use aster.Core.Transaction.{Transaction}
use aster.SubMpt.Routing.{route, IsRoutable, route_total}
use aster.SubMpt.Proposer.{append_to, place, distribute, empty_alloc}
use aster.SubMpt.Follower.Ledger.{is_payer, is_payee, placed}

-- Follower `f` of `n` holds the sender's account or the recipient's.
unfoldable pub goes_to : ℕ → ℕ → Transaction → Bool
goes_to n f tx = is_payer f (placed (route n tx)) || is_payee f (placed (route n tx))

place_lem :
    (f : ℕ) (tx : Transaction) (dest : Option (ℕ × ℕ)) (alloc : Map ℕ (List Transaction))
    → lookup_or [] f (place tx dest alloc)
      ≡ lookup_or [] f alloc ++ (if is_payer f dest || is_payee f dest then tx ∷ [] else [])
unfolding place append_to
place_lem f tx none alloc = rw (append-nil (lookup_or [] f alloc))
place_lem f tx (some (d1, d2)) alloc = ground (
  arith,
  append-nil (lookup_or [] f alloc),
  lookup_or-insert [] d1 f (lookup_or [] d1 alloc ++ tx ∷ []) alloc,
  lookup_or-insert [] d1 d2 (lookup_or [] d1 alloc ++ tx ∷ []) alloc,
  lookup_or-insert [] d2 f
      (lookup_or [] d2 (insert d1 (lookup_or [] d1 alloc ++ tx ∷ []) alloc) ++ tx ∷ [])
      (insert d1 (lookup_or [] d1 alloc ++ tx ∷ []) alloc),
)

goes_to-placed :
    (n f : ℕ) (tx : Transaction) (dest : Option (ℕ × ℕ))
    → route n tx ≡ ok dest
    → (is_payer f dest || is_payee f dest) ≡ goes_to n f tx
unfolding goes_to
goes_to-placed n f tx dest e = rw e

append_filter :
    (p : Transaction → Bool) (tx : Transaction) (xs txs : List Transaction)
    → (xs ++ (if p tx then tx ∷ [] else [])) ++ filter p txs ≡ xs ++ filter p (tx ∷ txs)
append_filter p tx xs txs = elim (Bool-cases (p tx)) [
  | inl kept ↦ rw (kept, append_assoc xs (tx ∷ []) (filter p txs))
  | inr gone ↦ rw (gone, append-nil xs)
]

-- Every follower gets the transactions of its accounts, in order.
pub distribute_lem :
    (n : ℕ) (txs : List Transaction) (alloc : Map ℕ (List Transaction))
    → All (IsRoutable n) txs
    → (alloc' : Map ℕ (List Transaction)) × (distribute n txs alloc ≡ ok alloc')
      × ((f : ℕ) → lookup_or [] f alloc' ≡ lookup_or [] f alloc ++ filter (goes_to n f) txs)
unfolding distribute
distribute_lem n [] alloc h = (alloc, refl, λ f. sym (append-nil (lookup_or [] f alloc)))
distribute_lem n (tx ∷ txs) alloc (h, hs) =
    let (dest, e) = route_total n tx h in
    let (alloc', run, is) = distribute_lem n txs (place tx dest alloc) hs in
    (
      alloc',
      rw (e, distribute) run,
      λ f.
          is f
          ∙ rw (place_lem f tx dest alloc, goes_to-placed n f tx dest e)
              (append_filter (goes_to n f) tx (lookup_or [] f alloc) txs),
    )

pub lookup_or-empty_alloc : (f : ℕ) (fs : List ℕ) → lookup_or [] f (empty_alloc fs) ≡ []
unfolding empty_alloc
lookup_or-empty_alloc f [] = lookup_or-nil [] f
lookup_or-empty_alloc f (g ∷ gs) =
    ground (arith, lookup_or-insert [] g f [] (empty_alloc gs), lookup_or-empty_alloc f gs)
