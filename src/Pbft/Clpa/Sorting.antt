-- ===== src/Pbft/Clpa/Sorting.antt =====
-- The loop over a block's transactions in `HandleinCommit` of
-- consensus_shard/pbft_all/pbftInside_moduleCLPA.go, against that of pbftInside_module.go.
use aster.Prelude.{
  ℕ, ◌≡◌, refl, Bool, true, false, not, ◌&&◌, List, [], ◌∷◌, Bytes, Map, Result, ok, panic, ◌>>=◌,
  nat_eq, ◌==◌, if◌then◌else◌, All, Bool-cases, inl, inr,
}
use aster.Core.Transaction.{Transaction}
use aster.Chain.{get_partition_map}
use aster.Pbft.Relay.{Sorted, sort_tx, sort_txs}
use aster.Pbft.Clpa.Inside.{clpa_sort_tx, clpa_sort_txs}

three_ways :
    {A : Type 0} (r f t : Bool) (stop relay run : A)
    → (if not r && not f
        then stop
        else if r && not t
        then stop
        else if not r && not t
        then relay
        else run)
      ≡ (if (if r then t else f) then (if t then run else relay) else stop)
three_ways true f true stop relay run = refl
three_ways true f false stop relay run = refl
three_ways false true true stop relay run = refl
three_ways false true false stop relay run = refl
three_ways false false t stop relay run = refl

after :
    (r : Result Sorted) (b : Bool) (f g : Sorted → Result Sorted)
    → ((s : Sorted) → f s ≡ (if b then g s else panic))
    → (r >>= f) ≡ (if b then (r >>= g) else panic)
after panic true f g h = refl
after panic false f g h = refl
after (ok s) b f g h = h s

module _ (shard_num : ℕ) (m : Map Bytes ℕ) (home : Bytes → ℕ) (own : ℕ) where
  -- Both addresses of a transaction have a shard.
  pub record AreHomes (tx : Transaction) : Type 0 where
    pub from : get_partition_map shard_num m tx.sender ≡ ok (home tx.sender)
    pub to : get_partition_map shard_num m tx.recipient ≡ ok (home tx.recipient)

  -- A transaction belongs to the shard of its sender, and once it is relayed to that of its recipient.
  abbrev pub is_own : Transaction → Bool
  is_own tx = if tx.relayed then home tx.recipient == own else home tx.sender == own

  abbrev pub all_own : List Transaction → Bool
  all_own [] = true
  all_own (tx ∷ txs) = is_own tx && all_own txs

  clpa_sort_tx_lem :
      (tx : Transaction) (s : Sorted)
      → AreHomes tx
      → clpa_sort_tx shard_num m own tx s
        ≡ (if is_own tx then sort_tx shard_num m own tx s else panic)
  unfolding clpa_sort_tx sort_tx
  clpa_sort_tx_lem tx s homes =
      rw (homes.from, homes.to)
        (three_ways tx.relayed (home tx.sender == own) (home tx.recipient == own) panic _ _)

  -- The loop sorts the transactions of a block as that of the module for relays alone does, if each
  -- belongs to the shard, and else it panics. The addresses of the transactions have a shard.
  pub clpa_sort_txs-sort_txs :
      (txs : List Transaction) (s : Sorted)
      → All AreHomes txs
      → clpa_sort_txs shard_num m own txs s
        ≡ (if all_own txs then sort_txs shard_num m own txs s else panic)
  unfolding clpa_sort_txs sort_txs
  clpa_sort_txs-sort_txs [] s _ = refl
  clpa_sort_txs-sort_txs (tx ∷ txs) s (here, more) =
      rw (clpa_sort_tx_lem tx s here) (elim (Bool-cases (is_own tx)) [
        | inl ours ↦ rw ours (
            after (sort_tx shard_num m own tx s) (all_own txs)
              (λ s'. clpa_sort_txs shard_num m own txs s') (λ s'. sort_txs shard_num m own txs s')
              (λ s'. clpa_sort_txs-sort_txs txs s' more))
        | inr other ↦ rw other refl
      ])
