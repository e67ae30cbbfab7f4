-- ===== src/SubMpt/Proposer/Polls.antt =====
-- `SchedulingTxs` of consensus_shard/subMPT/proposer.go when nothing is pending.
use aster.Prelude.{
  ℕ, zero, suc, ◌+◌, ◌<◌, ◌≡◌, refl, ap, true, false, List, [], ◌∷◌, Result, ok, ◌>>=◌, nat_eq,
  ◌==◌, arith, length, leb,
}
use aster.Core.Transaction.{Transaction}
use aster.Core.Block.{BitSets}
use aster.SubMpt.Proposer.{
  ProposerNode, scheduling_txs, Scheduled, polled, stuck_on_stopchan, close_proposer_node,
}

unfoldable pub quiet : ℕ → List Scheduled
quiet zero = stuck_on_stopchan ∷ []
quiet (suc k) = polled ∷ quiet k

length_nil : (txs : List Transaction) → txs ≡ [] → (length txs == 0) ≡ true
length_nil [] h = refl
length_nil (tx ∷ txs) h = ground arith

module _ {bits : BitSets} {Ring : Type 0} where
  -- The polls of a proposer that gets no transactions any more.
  unfoldable pub polls :
      ℕ
      → ℕ
      → (List Transaction → List Transaction)
      → ProposerNode bits Ring
      → Result (ProposerNode bits Ring × List Scheduled)
  polls zero max_block_size order p = ok (p, [])
  polls (suc k) max_block_size order p = do
    (p1, first) ← scheduling_txs max_block_size order p
    (p2, rest) ← polls k max_block_size order p1
    ok (p2, first ∷ rest)

  poll_last :
      (max_block_size : ℕ) (order : List Transaction → List Transaction)
      (p : ProposerNode bits Ring)
      → p.pending_txpool ≡ []
      → p.poollencount ≡ 9
      → scheduling_txs max_block_size order p
        ≡ ok (record p { poollencount = 10; stop = true }, stuck_on_stopchan)
  unfolding scheduling_txs close_proposer_node
  poll_last max_block_size order p none_left e =
      let tenth : leb 10 (p.poollencount + 1) ≡ true = ground arith in
      let ten : p.poollencount + 1 ≡ 10 = omega arith in
      rw (length_nil p.pending_txpool none_left, tenth)
        (ap (λ n. ok (record p { poollencount = n; stop = true }, stuck_on_stopchan)) ten)

  poll_again :
      (max_block_size : ℕ) (order : List Transaction → List Transaction)
      (p : ProposerNode bits Ring)
      → p.pending_txpool ≡ []
      → p.poollencount < 9
      → scheduling_txs max_block_size order p
        ≡ ok (record p { poollencount = p.poollencount + 1 }, polled)
  unfolding scheduling_txs
  poll_again max_block_size order p none_left h =
      let more : leb 10 (p.poollencount + 1) ≡ false = ground arith in
      rw (length_nil p.pending_txpool none_left, more)

  -- With nothing pending, the polls up to the tenth in a row change only the counter; the tenth
  -- stops the node and then sends to `stopchan`, from the goroutine that alone receives from it.
  pub polls_lem :
      (k max_block_size : ℕ) (order : List Transaction → List Transaction)
      (p : ProposerNode bits Ring)
      → p.pending_txpool ≡ []
      → p.poollencount + k ≡ 9
      → polls (suc k) max_block_size order p
        ≡ ok (record p { poollencount = 10; stop = true }, quiet k)
  unfolding polls quiet
  polls_lem zero max_block_size order p none_left e =
      rw (poll_last max_block_size order p none_left (omega arith))
  polls_lem (suc k) max_block_size order p none_left e = rw (
    poll_again max_block_size order p none_left (omega arith),
    polls_lem k max_block_size order (record p { poollencount = p.poollencount + 1 }) none_left
        (omega arith),
    polls,
  )
