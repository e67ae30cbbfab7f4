-- ===== src/SubMpt/Proposer/Agreement.antt =====
-- The proposer's dealing (consensus_shard/subMPT/proposer.go) against the followers' execution
-- (follower.go): what a follower is not sent could not have changed its balances.
use mathlib.Core.Path.{fun_ext}
use aster.Prelude.{
  ℕ, ◌≡◌, refl, inl, inr, Bool, false, ◌||◌, Option, List, [], ◌∷◌, ok, nat_eq, bytes_eq, arith,
  filter, Bool-cases, Bytes, All,
}
use aster.Prelude.Int.{ℤ, sub-zero, add-zero}
use aster.Core.Transaction.{Transaction}
use aster.SubMpt.Routing.{route, IsRoutable}
use aster.SubMpt.Follower.Ledger.{
  is_payer, is_payee, placed, accepts, transferred, execute, execute_all,
}
use aster.SubMpt.Proposer.Distribution.{goes_to}
use aster.Accounts.Reads.{Ledger}
use aster.Accounts.Tries.{StateTrie, AccountCodec}
use aster.SubMpt.Messages.{AllocateTxMsgs, FollowerMsg}
use aster.SubMpt.Follower.{FollowerNode, handle_allocated_txs}
use aster.SubMpt.Follower.Batch.{Holds, IsCommitted, handle_allocated_txs_lem}

transferred_untouched :
    (f : ℕ) (dest : Option (ℕ × ℕ)) (l : Ledger) (tx : Transaction) (k : Bytes)
    → (is_payer f dest || is_payee f dest) ≡ false
    → transferred f dest l tx k ≡ l k
transferred_untouched f dest l tx k h = ground (arith, sub-zero (l k), add-zero (l k))

execute_untouched :
    (n f : ℕ) (l : Ledger) (tx : Transaction) → goes_to n f tx ≡ false → execute n f l tx ≡ l
unfolding execute goes_to
execute_untouched n f l tx h = elim (Bool-cases (accepts f (placed (route n tx)) l tx)) [
  | inl done ↦ rw done (fun_ext (λ k. transferred_untouched f (placed (route n tx)) l tx k h))
  | inr refused ↦ rw refused
]

execute_all-goes_to :
    (n f : ℕ) (l : Ledger) (txs : List Transaction)
    → execute_all n f l (filter (goes_to n f) txs) ≡ execute_all n f l txs
unfolding execute_all
execute_all-goes_to n f l [] = refl
execute_all-goes_to n f l (tx ∷ txs) = elim (Bool-cases (goes_to n f tx)) [
  | inl mine ↦ rw mine (execute_all-goes_to n f (execute n f l tx) txs)
  | inr other ↦ rw (other, execute_untouched n f l tx other) (execute_all-goes_to n f l txs)
]

All-filter :
    (n f : ℕ) (p : Transaction → Bool) (txs : List Transaction)
    → All (IsRoutable n) txs
    → All (IsRoutable n) (filter p txs)
All-filter n f p [] h = tt
All-filter n f p (tx ∷ txs) (h, hs) = elim (Bool-cases (p tx)) [
  | inl kept ↦ rw kept (h, All-filter n f p txs hs)
  | inr gone ↦ rw gone (All-filter n f p txs hs)
]

module _ (t : StateTrie) (c : AccountCodec) (init_balance : ℤ) where
  -- A follower that handles only those transactions of a routable batch that the proposer deals to
  -- it stands, at every address, at the balance that it would have after the whole batch. There are none
  -- of them or they change a balance, or the stored trie has nodes to commit, as an empty one has.
  pub handle_dealt_txs :
      (allocated executed : ℕ → ℕ) (elapsed proposer_id epoch_id : ℕ) (txs : List Transaction)
      (f : FollowerNode t) (l : Ledger)
      → All (IsRoutable f.follower_num) txs
      → (holds : Holds t c init_balance f l)
      → IsCommitted t c init_balance f l (filter (goes_to f.follower_num f.follower_id) txs) holds.0
      → let msg : AllocateTxMsgs = record {
        txs = filter (goes_to f.follower_num f.follower_id) txs;
        proposer_id = proposer_id;
        follower_id = f.follower_id;
        epoch_id = epoch_id;
      } in
        (f' : FollowerNode t) × (sent : List FollowerMsg) × (handle_allocated_txs t c init_balance
            allocated executed elapsed msg f
          ≡ ok (f', sent))
        × Holds t c init_balance f' (execute_all f.follower_num f.follower_id l txs)
  handle_dealt_txs allocated executed elapsed proposer_id epoch_id txs f l h holds commits =
      let n = f.follower_num in
      let id = f.follower_id in
      let msg : AllocateTxMsgs = record {
        txs = filter (goes_to n id) txs;
        proposer_id = proposer_id;
        follower_id = id;
        epoch_id = epoch_id;
      } in
      let (f', done, holds') =
        handle_allocated_txs_lem t c init_balance allocated executed elapsed msg f l
          (All-filter n id (goes_to n id) txs h) holds commits in
      (f', _, done, rw (execute_all-goes_to n id l txs) at holds')
