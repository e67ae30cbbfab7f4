-- ===== src/SubMpt/Proposer/Schedule.antt =====
-- What a batch is dealt out as: `SchedulingTxs`, `VerifyingBlock` and `TxAllocate` of
-- consensus_shard/subMPT/proposer.go, against the executions of follower.go.
use aster.Prelude.{
  ℕ, ◌+◌, ◌%◌, ◌^◌, ◌≡◌, ◌≢◌, refl, ◌∙◌, inl, inr, Bool, false, ◌||◌, List, [], ◌∷◌, ◌++◌, Bytes,
  Map, ok, nat_eq, bytes_eq, ◌==◌, if◌then◌else◌, arith, length, take, drop, take-append-drop, min,
  filter, All, lookup_or, has_key, has_key-insert, insert, ltb, Bool-cases,
}
use aster.Core.Transaction.{Transaction}
use aster.Core.Block.{BitSets}
use aster.SubMpt.Messages.{AllocateTxMsgs}
use aster.SubMpt.Routing.{IsRoutable}
use aster.SubMpt.Proposer.Distribution.{goes_to, distribute_lem, lookup_or-empty_alloc}
use aster.SubMpt.Proposer.{
  ProposerNode, empty_alloc, followers_ip, record_allocated, tx_allocate, allocate_all, deal,
  scheduling_txs, dealt,
}

-- The messages of a batch: one for every follower that is ready, with the transactions of its
-- accounts.
unfoldable pub messages :
    ℕ → ℕ → ℕ → Map ℕ Bool → List Transaction → Map ℕ Bytes → List (Bytes × AllocateTxMsgs)
messages n shard epoch ready txs [] = []
messages n shard epoch ready txs ((fid, fip) ∷ ips) =
    let rest = messages n shard epoch ready txs ips in
    if has_key fid ready
    then (
      fip,
      record {
        txs = filter (goes_to n fid) txs;
        proposer_id = shard;
        follower_id = fid;
        epoch_id = epoch;
      },
    )
      ∷ rest
    else rest

-- Whether a transaction with this hash is in a list, or in one of the messages.
unfoldable pub has_hash : Bytes → List Transaction → Bool
has_hash h [] = false
has_hash h (tx ∷ txs) = h == tx.tx_hash || has_hash h txs

unfoldable pub is_sent : Bytes → List (Bytes × AllocateTxMsgs) → Bool
is_sent h [] = false
is_sent h ((ip, m) ∷ ms) = has_hash h m.txs || is_sent h ms

has_key-record_allocated :
    (h : Bytes) (txs : List Transaction) (pool : Map Bytes Transaction)
    → has_key h (record_allocated txs pool) ≡ (has_key h pool || has_hash h txs)
unfolding record_allocated has_hash
has_key-record_allocated h [] pool = ground arith
has_key-record_allocated h (tx ∷ txs) pool = ground (
  arith,
  has_key-record_allocated h txs (insert tx.tx_hash tx pool),
  has_key-insert tx.tx_hash h tx pool,
)

is_sent-append :
    (h : Bytes) (ms ns : List (Bytes × AllocateTxMsgs))
    → is_sent h (ms ++ ns) ≡ (is_sent h ms || is_sent h ns)
unfolding is_sent
is_sent-append h [] ns = refl
is_sent-append h ((ip, m) ∷ ms) ns = ground (arith, is_sent-append h ms ns)

-- As many of the transactions as a block may hold, the oldest first.
abbrev pub batch : ℕ → List Transaction → List Transaction
batch max_block_size txs = take (min max_block_size (length txs)) txs

size_lem : (n max : ℕ) → (if ltb n max then n else max) ≡ min max n
size_lem n max = ground arith

length_ne : (txs : List Transaction) → txs ≢ [] → (length txs == 0) ≡ false
length_ne [] h = absurd (h refl)
length_ne (tx ∷ txs) h = ground arith

module _ {bits : BitSets} {Ring : Type 0} where
  -- From `p` to `q` exactly the transactions in the messages `sent` become allocated, and nothing
  -- else of the pools changes.
  pub record Records (p q : ProposerNode bits Ring) (sent : List (Bytes × AllocateTxMsgs))
      : Type 0 where
    pub allocated :
        (h : Bytes)
        → has_key h q.allocated_txpool ≡ (has_key h p.allocated_txpool || is_sent h sent)
    pub pending : q.pending_txpool ≡ p.pending_txpool
    pub processed : q.processed_txpool ≡ p.processed_txpool
    pub epoch_id : q.epoch_id ≡ p.epoch_id

  Records-trans :
      (p q r : ProposerNode bits Ring) (ms ns : List (Bytes × AllocateTxMsgs))
      → Records p q ms
      → Records q r ns
      → Records p r (ms ++ ns)
  Records-trans p q r ms ns a b = record {
    allocated = λ h. ground (arith, a.allocated h, b.allocated h, is_sent-append h ms ns);
    pending = b.pending ∙ a.pending;
    processed = b.processed ∙ a.processed;
    epoch_id = b.epoch_id ∙ a.epoch_id;
  }

  -- What one message does, and that it is the one of the batch.
  tx_allocate_lem :
      (n : ℕ) (txs : List Transaction) (epoch fid : ℕ) (fip : Bytes) (ips : Map ℕ Bytes)
      (p : ProposerNode bits Ring)
      → (let (q, sent) = tx_allocate fid fip (filter (goes_to n fid) txs) epoch p in
          (sent ++ messages n q.shard_id epoch q.ready_map txs ips
            ≡ messages n p.shard_id epoch p.ready_map txs ((fid, fip) ∷ ips))
          × Records p q sent)
  unfolding tx_allocate messages is_sent
  tx_allocate_lem n txs epoch fid fip ips p = elim (Bool-cases (has_key fid p.ready_map)) [
    | inl ready ↦
        rw (ready, tx_allocate)
          (
            refl,
            record {
              allocated = λ h. ground (
                arith,
                has_key-record_allocated h (filter (goes_to n fid) txs) p.allocated_txpool,
              );
              pending = refl;
              processed = refl;
              epoch_id = refl;
            },
          )
    | inr unready ↦
        rw (unready, tx_allocate)
          (
            refl,
            record {
              allocated = λ h. ground arith;
              pending = refl;
              processed = refl;
              epoch_id = refl;
            },
          )
  ]

  allocate_all_lem :
      (n : ℕ) (txs : List Transaction) (alloc : Map ℕ (List Transaction)) (epoch : ℕ)
      (ips : Map ℕ Bytes) (p : ProposerNode bits Ring)
      → ((f : ℕ) → lookup_or [] f alloc ≡ filter (goes_to n f) txs)
      → ((allocate_all ips alloc epoch p).1 ≡ messages n p.shard_id epoch p.ready_map txs ips)
        × Records p (allocate_all ips alloc epoch p).0 (allocate_all ips alloc epoch p).1
  unfolding allocate_all messages is_sent
  allocate_all_lem n txs alloc epoch [] p is = (
    refl,
    record { allocated = λ h. ground arith; pending = refl; processed = refl; epoch_id = refl },
  )
  allocate_all_lem n txs alloc epoch ((fid, fip) ∷ ips) p is =
      let (one, records) = tx_allocate_lem n txs epoch fid fip ips p in
      let step = tx_allocate fid fip (filter (goes_to n fid) txs) epoch p in
      let (all, more) = allocate_all_lem n txs alloc epoch ips step.0 is in
      rw (is fid, allocate_all)
        (
          rw all one,
          Records-trans p step.0 (allocate_all ips alloc epoch step.0).0 step.1
              (allocate_all ips alloc epoch step.0).1 records more,
        )

  deal_lem :
      (proposer : ℕ) (txs : List Transaction) (p : ProposerNode bits Ring)
      → All (IsRoutable (length p.follower_ids)) txs
      → (q : ProposerNode bits Ring) × (sent : List (Bytes × AllocateTxMsgs)) × (deal proposer txs p
          ≡ ok (q, sent))
        × (sent
            ≡ messages
                (length p.follower_ids)
                p.shard_id
                ((p.epoch_id + 1) % 2 ^ 32)
                p.ready_map
                txs
                (followers_ip (lookup_or [] proposer p.ip_node_table) p.follower_ids))
        × Records (record p { epoch_id = (p.epoch_id + 1) % 2 ^ 32 }) q sent
  unfolding deal
  deal_lem proposer txs p h =
      let n = length p.follower_ids in
      let p' = record p { epoch_id = (p.epoch_id + 1) % 2 ^ 32 } in
      let ips = followers_ip (lookup_or [] proposer p.ip_node_table) p.follower_ids in
      let (alloc, run, is) = distribute_lem n txs (empty_alloc p.follower_ids) h in
      let dealt_to : (f : ℕ) → lookup_or [] f alloc ≡ filter (goes_to n f) txs =
        λ f. is f ∙ rw (lookup_or-empty_alloc f p.follower_ids) refl in
      let (sent, records) = allocate_all_lem n txs alloc p'.epoch_id ips p' dealt_to in
      (
        (allocate_all ips alloc p'.epoch_id p').0,
        (allocate_all ips alloc p'.epoch_id p').1,
        rw run,
        sent,
        records,
      )

  -- With something pending, and no placement that panics, `SchedulingTxs` takes the oldest
  -- transactions, at most a block's worth, and leaves the rest in order. Every follower that is
  -- ready gets one message, with the transactions of the batch that touch its accounts, under the
  -- next epoch; exactly what stands in the messages is recorded as allocated, so that a transaction
  -- whose followers are all unready is in no pool any more.
  pub scheduling_txs_lem :
      (max_block_size : ℕ) (order : List Transaction → List Transaction)
      (p : ProposerNode bits Ring)
      → p.pending_txpool ≢ []
      → All (IsRoutable (length p.follower_ids)) (order (batch max_block_size p.pending_txpool))
      → (q : ProposerNode bits Ring) × (sent : List (Bytes × AllocateTxMsgs)) × (scheduling_txs
            max_block_size order p
          ≡ ok (q, dealt sent))
        × (batch max_block_size p.pending_txpool ++ q.pending_txpool ≡ p.pending_txpool)
        × (sent
            ≡ messages
                (length p.follower_ids)
                p.shard_id
                ((p.epoch_id + 1) % 2 ^ 32)
                p.ready_map
                (order (batch max_block_size p.pending_txpool))
                (followers_ip (lookup_or [] p.node_id p.ip_node_table) p.follower_ids))
        × ((h : Bytes)
            → has_key h q.allocated_txpool ≡ (has_key h p.allocated_txpool || is_sent h sent))
        × (q.processed_txpool ≡ p.processed_txpool)
        × (q.epoch_id ≡ (p.epoch_id + 1) % 2 ^ 32)
  unfolding scheduling_txs
  scheduling_txs_lem max_block_size order p some_pending h =
      let m = min max_block_size (length p.pending_txpool) in
      let p' = record p { poollencount = 0; pending_txpool = drop m p.pending_txpool } in
      let (q, sent, run, is, records) =
        deal_lem p.node_id (order (batch max_block_size p.pending_txpool)) p' h in
      (
        q,
        sent,
        rw (
          length_ne p.pending_txpool some_pending,
          size_lem (length p.pending_txpool) max_block_size,
          run,
          scheduling_txs,
        ),
        rw records.pending (take-append-drop m p.pending_txpool),
        is,
        records.allocated,
        records.processed,
        records.epoch_id,
      )
