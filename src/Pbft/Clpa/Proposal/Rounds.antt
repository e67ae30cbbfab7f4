-- ===== src/Pbft/Clpa/Proposal/Rounds.antt =====
-- `HandleinPropose` of pbftInside_moduleCLPA.go in a round in which the accounts move, from the start to
-- the request.
use aster.Prelude.{
  ℕ, zero, suc, ◌+◌, ◌<◌, ◌≡◌, refl, ap, sym, ◌∙◌, true, false, some, List, [], ◌++◌, filter, Bytes,
  Map, ok, nat_eq, bytes_eq, ◌==◌, length, All, arith, Bool-cases, inl, inr, subst,
}
use aster.Prelude.Int.{ℤ}
use aster.Core.Transaction.{Transaction}
use aster.Core.TxPool.{TxPool, add_txs_to_pool}
use aster.Core.Block.{BitSets, BlockCodec}
use aster.Accounts.Tries.{StateTrie, AccountCodec}
use aster.Accounts.Reads.{Ledger, Reads}
use aster.Chain.{get_partition_map}
use aster.Pbft.Relay.{timed}
use aster.Pbft.Clpa.{AccountTransferMsg, PartitionReady, AccountStateAndTx, ClpaModule}
use aster.Pbft.Clpa.Transfer.{
  TransferOut, partition_req, ready_messages, send_partition_ready, get_partition_ready,
  get_collect_over, send_accounts_and_txs, propose_partition,
}
use aster.Pbft.Clpa.Moves.{IsArrival, txs_to, goes_to}
use aster.Pbft.Clpa.Leaving.{leaving, with_pool, kept_pool, send_accounts_and_txs-filter}
use aster.Pbft.Clpa.Arrival.{arrived, propose_partition_lem}
use aster.Pbft.Clpa.Proposal.{ClpaMsg, ClpaProposal, wait_for, clpa_handle_in_propose}
use aster.Pbft.Messages.{Request}
use aster.Pbft.Clpa.Proposal.Waiting.{all_arrivals, informed, wait_for_lem}
use aster.Pbft.Clpa.Proposal.Collecting.{transfers, transferred, length-pooled, All-pooled}
use aster.Pbft.Clpa.Proposal.Ending.{IsRound, AreOfOthers, nothing-AreSeen}
use aster.Pbft.Clpa.Proposal.Progress.{started, all_ready, round_kept, second_wait}

txs_to-ready_messages :
    (sid i n : ℕ) (pr : PartitionReady) (out : List TransferOut)
    → txs_to sid (ready_messages i n pr ++ out) ≡ txs_to sid out
unfolding ready_messages
txs_to-ready_messages sid i zero pr out = refl
txs_to-ready_messages sid i (suc n) pr out = elim (Bool-cases (i == pr.from_shard)) [
  | inl own ↦ rw own (txs_to-ready_messages sid (i + 1) n pr out)
  | inr other ↦ rw other (txs_to-ready_messages sid (i + 1) n pr out)
]

module _ {bits : BitSets} (t : StateTrie) (c : AccountCodec) (init_balance : ℤ) (shard_num : ℕ)
    (codec : BlockCodec bits) (tx_tree_root : List Transaction → Bytes)
    (encode : AccountTransferMsg → Bytes) where
  -- The steps of a round one after the other.
  in_steps :
      (now now' : ℕ) (readings : ℕ → ℕ) (arrivals later rest : List (List ClpaMsg)) (db : t.Db)
      (x x2 x3 x4 x5 : ClpaModule bits) (out : List TransferOut) (r : Request)
      → x.cdm.partition_on ≡ true
      → wait_for get_partition_ready arrivals (send_partition_ready x).0 ≡ ok (true, x2, later)
      → send_accounts_and_txs t c init_balance shard_num codec tx_tree_root db x2 ≡ ok (x3, out)
      → wait_for get_collect_over later x3 ≡ ok (true, x4, rest)
      → propose_partition encode readings now' x4 ≡ ok (x5, r)
      → clpa_handle_in_propose t c init_balance shard_num codec tx_tree_root encode now now'
          readings arrivals db x
        ≡ ok (ClpaProposal.proposes x5 db ((send_partition_ready x).1 ++ out) r rest)
  unfolding clpa_handle_in_propose
  in_steps now now' readings arrivals later rest db x x2 x3 x4 x5 out r on ready sent ended made =
      rw (ready, sent, ended, made, on) refl

  -- In a round in which the accounts move by the map `m`, `HandleinPropose` ends once the messages of the
  -- leaders of all other shards have come, in whatever order and seconds. It sends the leader of another
  -- shard the transactions that go there, in the order of the queue; the transactions that the messages
  -- bring go to the end of those that stay, in the order of the messages; and it proposes a request with
  -- the map, and the number of maps as the next round. No other messages come, each leader sends one
  -- message of each kind, its sequence number is one above that of its last relay message, its
  -- accounts and transactions are ones that the map accepts, the state trie reads, and the addresses of
  -- the map have a shard.
  pub clpa_handle_in_propose_lem :
      (now now' : ℕ) (readings : ℕ → ℕ) (arrivals : List (List ClpaMsg)) (db : t.Db)
      (x : ClpaModule bits) (m : Map Bytes ℕ) (seq : ℕ → ℕ) (home : Bytes → ℕ) (pool : TxPool)
      (st : t.Trie) (l : Ledger) (sid : ℕ)
      → IsRound x m
      → AreOfOthers x m seq (all_arrivals arrivals)
      → x.pbft_node.txpool ≡ some pool
      → t.open_trie x.pbft_node.cur_chain.current_block.header.state_root db ≡ some st
      → Reads t c init_balance st l
      → All
          (λ e. get_partition_map shard_num x.pbft_node.cur_chain.partition_map e.0 ≡ ok (home e.0))
          m
      → sid < x.pbft_node.shard_nums
      → (sid == x.pbft_node.shard_id) ≡ false
      → (x' : ClpaModule bits) × (out : List TransferOut) × (atm : AccountTransferMsg)
        × (later : List (List ClpaMsg)) × (clpa_handle_in_propose t c init_balance shard_num codec
              tx_tree_root encode now now' readings arrivals db x
            ≡ ok (
                ClpaProposal.proposes x' db out
                  (record { request_type = partition_req; content = encode atm; req_time = now' })
                  later))
        × (txs_to sid out
            ≡ filter (goes_to m (leaving home x.pbft_node.shard_id m) sid) pool.tx_queue)
        × (x'.pbft_node.txpool
            ≡ some (
                add_txs_to_pool
                  (timed readings 0 (transferred (transfers (all_arrivals arrivals))))
                  (kept_pool x m home pool)))
        × (atm.modified_map ≡ m)
        × (atm.at_id ≡ length x.cdm.modified_map)
  unfolding send_partition_ready get_collect_over
  clpa_handle_in_propose_lem now now' readings arrivals db x m seq home pool st l sid start others
        held opens reads placed below apart =
      let n = x.pbft_node.shard_nums in
      let own = x.pbft_node.shard_id in
      let ms = all_arrivals arrivals in
      let x1 = started x m seq ms in
      let (ms1, later, waited, split, _) =
        wait_for_lem get_partition_ready arrivals x1 others.leaders
          (all_ready x m seq ms start others) in
      let x2 = informed ms1 x1 in
      let (out, sent, txs, ads, fit) =
        send_accounts_and_txs-filter t c init_balance shard_num codec tx_tree_root db x2 m home pool
          st l sid (round_kept x m seq ms ms1 start).1 held opens reads placed below apart in
      let kept = kept_pool x m home pool in
      let several : 1 < n = ground (arith, start.inside, below, apart) in
      let (ms2, rest, waited', (full, round, blank, maps)) =
        second_wait x m seq ms kept ms1 later start others several split in
      let (len, came) =
        length-pooled (transfers ms) [] [] (nothing-AreSeen AccountStateAndTx)
          others.transfers_new in
      let (x5, atm, proposed, queue, same, number, fitting) =
        propose_partition_lem encode readings now' (informed ms2 (with_pool kept x2)) m kept round
          refl blank
          (subst (λ p. All (λ e. IsArrival m own e.1) p) (sym full)
            (All-pooled (IsArrival m own) (transfers ms) [] tt others.accepted)) in
      (
        x5,
        ready_messages 0 n (record { from_shard = own; now_seq_id = x.pbft_node.sequence_id })
            ++ out,
        atm,
        rest,
        in_steps now now' readings arrivals later rest db x x2 (with_pool kept x2)
            (informed ms2 (with_pool kept x2)) x5 out _ start.on waited sent waited' proposed,
        txs_to-ready_messages sid 0 n _ out ∙ txs,
        queue
            ∙ ap (λ txs. some (add_txs_to_pool (timed readings 0 txs) kept))
                (ap arrived full ∙ came),
        same,
        number ∙ maps,
      )
