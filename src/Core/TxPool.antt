-- ===== src/Core/TxPool.antt =====
-- core/txpool.go: the transaction queue and the relay pool, each method under the pool's lock. A
-- method that calls `time.Now` takes the reading as its first argument. The relay map is nil after
-- `ClearRelayPool`, and a write to a nil map panics.
pub mod Queue
pub mod Relay
pub mod Transfer
use aster.Prelude.{
  ℕ, ◌-◌, ◌^◌, Bool, true, false, ◌&&◌, Option, none, some, List, [], ◌∷◌, ◌++◌, map, length, take,
  drop, Bytes, Map, Result, ok, panic, nat_eq, bytes_eq, ◌==◌, ltb, if◌then◌else◌, lookup, insert,
  has_key, lookup_or,
}
use aster.Core.Transaction.{Transaction}

pub record TxPool : Type 0 where
  pub tx_queue : List Transaction
  -- `none` is the nil map.
  pub relay_pool : Option (Map ℕ (List Transaction))

unfoldable pub new_tx_pool : TxPool
new_tx_pool = record { tx_queue = []; relay_pool = some [] }

abbrev pub stamp : ℕ → Transaction → Transaction
stamp now tx = record tx { time = now }

-- `AddTx2Pool`
unfoldable pub add_tx_to_pool : ℕ → Transaction → TxPool → TxPool
add_tx_to_pool now tx p =
    let tx' = if tx.time == 0 then stamp now tx else tx in
    record p { tx_queue = p.tx_queue ++ tx' ∷ [] }

-- `AddTxs2Pool`; every transaction has its own reading of the clock.
unfoldable pub add_txs_to_pool : List (ℕ × Transaction) → TxPool → TxPool
add_txs_to_pool [] p = p
add_txs_to_pool ((now, tx) ∷ txs) p =
    add_txs_to_pool txs (record p { tx_queue = p.tx_queue ++ stamp now tx ∷ [] })

-- `AddTxs2Pool_Head`
unfoldable pub add_txs_to_pool_head : List Transaction → TxPool → TxPool
add_txs_to_pool_head txs p = record p { tx_queue = txs ++ p.tx_queue }

unfoldable pub pack_txs : ℕ → TxPool → List Transaction × TxPool
pack_txs max_txs p =
    let n = length p.tx_queue in
    let tx_num = if ltb n max_txs then n else max_txs in
    (take tx_num p.tx_queue, record p { tx_queue = drop tx_num p.tx_queue })

unfoldable pub get_tx_queue_len : TxPool → ℕ
get_tx_queue_len p = length p.tx_queue

unfoldable pub clear_relay_pool : TxPool → TxPool
clear_relay_pool p = record p { relay_pool = none }

-- Reading a nil map finds nothing.
abbrev pub relay_map : TxPool → Map ℕ (List Transaction)
relay_map p = elim p.relay_pool [ none ↦ [] | some m ↦ m ]

-- The two statements by which the pool appends to the list of a shard: make it if it is missing,
-- then append.
unfoldable pub append_relayed :
    ℕ → Transaction → Map ℕ (List Transaction) → Map ℕ (List Transaction)
append_relayed shard_id tx m =
    let m' = if has_key shard_id m then m else insert shard_id [] m in
    insert shard_id (lookup_or [] shard_id m' ++ tx ∷ []) m'

unfoldable pub add_relay_tx : Transaction → ℕ → TxPool → Result TxPool
unfolding append_relayed
add_relay_tx tx shard_id p = elim p.relay_pool [
  | none ↦ panic
  | some m ↦ ok (record p { relay_pool = some (append_relayed shard_id tx m) })
]

-- `int(minRelaySize)` of 2^63 or more is negative, and no length is below it.
abbrev pub below_int : ℕ → ℕ → Bool
below_int n u = ltb u (2 ^ 63) && ltb n u

-- `PackRelayTxs`; `none` is the result `nil, false`.
unfoldable pub pack_relay_txs : ℕ → ℕ → ℕ → TxPool → Option (List Transaction) × TxPool
pack_relay_txs shard_id min_relay_size max_relay_size p =
    let m = relay_map p in
    elim (lookup shard_id m) [
      | none ↦ (none, p)
      | some txs ↦
          if below_int (length txs) min_relay_size
          then (none, p)
          else let n = length txs in
            let tx_num = if ltb n max_relay_size then n else max_relay_size in
            (
              some (take tx_num txs),
              record p { relay_pool = some (insert shard_id (drop tx_num txs) m) },
            )
    ]

-- The first loop of `TransferTxs`: what is transferred and what stays, so far.
unfoldable pub transfer_queue :
    Bytes
    → List Transaction
    → List Transaction
    → List Transaction
    → List Transaction × List Transaction
transfer_queue addr [] moved kept = (moved, kept)
transfer_queue addr (tx ∷ txs) moved kept =
    let here = tx.sender == addr in
    transfer_queue addr txs (if here then moved ++ tx ∷ [] else moved)
      (if here then kept else kept ++ tx ∷ [])

-- The inner loop over the relay pool of one shard.
unfoldable pub transfer_shard :
    Bytes
    → ℕ
    → List Transaction
    → List Transaction
    → Map ℕ (List Transaction)
    → List Transaction × Map ℕ (List Transaction)
unfolding append_relayed
transfer_shard addr shard_id [] moved kept = (moved, kept)
transfer_shard addr shard_id (tx ∷ txs) moved kept =
    let here = tx.sender == addr in
    transfer_shard addr shard_id txs (if here then moved ++ tx ∷ [] else moved)
      (if here then kept else append_relayed shard_id tx kept)

-- The outer loop.
unfoldable pub transfer_relay :
    Bytes
    → Map ℕ (List Transaction)
    → List Transaction
    → Map ℕ (List Transaction)
    → List Transaction × Map ℕ (List Transaction)
unfolding transfer_shard
transfer_relay addr [] moved kept = (moved, kept)
transfer_relay addr ((shard_id, txs) ∷ m) moved kept =
    let (moved', kept') = transfer_shard addr shard_id txs moved kept in
    transfer_relay addr m moved' kept'

unfoldable pub transfer_txs : Bytes → TxPool → List Transaction × TxPool
unfolding transfer_queue transfer_relay
transfer_txs addr p =
    let (moved, queue) = transfer_queue addr p.tx_queue [] [] in
    let (moved', relay) = transfer_relay addr (relay_map p) moved [] in
    (moved', record { tx_queue = queue; relay_pool = some relay })
