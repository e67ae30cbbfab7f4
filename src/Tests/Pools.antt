-- ===== src/Tests/Pools.antt =====
-- The transaction pool, the framing of messages, the shards of addresses and the Bloom filter.
use aster.Prelude.{
  ℕ, ◌<◌, ◌≡◌, refl, some, [], ◌∷◌, ◌++◌, Bytes, ok, arith, nat_eq, bytes_eq, filter, DistinctKeys,
  has_key, lookup,
}
use aster.Prelude.Int.{negsuc}
use aster.Core.TxPool.{TxPool, transfer_txs, relay_map}
use aster.Core.TxPool.Queue.{Call, run, arrivals, run-arrivals}
use aster.Core.TxPool.Relay.{relayed_to}
use aster.Core.TxPool.Transfer.{relay_txs, is_from, is_not_from, transfer_txs_lem}
use aster.Message.{merge_message, split_message}
use aster.Message.Framing.{split_message-merge_message}
use aster.Utils.{addr2_shard, parse_uint, last16, parse_digits, hex_digit}
use aster.Utils.Shards.{addr2_shard_negative}
use aster.Tests.Samples.{bob, there, back}

-- One transaction waits for this shard, one for shard 1.
abbrev pool : TxPool
pool = record { tx_queue = there ∷ []; relay_pool = some ((1, back ∷ []) ∷ []) }

run-arrivals_example :
    (run (Call.add 3 back ∷ Call.pack 1 ∷ []) pool).0
      ++ (run (Call.add 3 back ∷ Call.pack 1 ∷ []) pool).1.tx_queue
    ≡ (there ∷ []) ++ arrivals (Call.add 3 back ∷ Call.pack 1 ∷ [])
run-arrivals_example = run-arrivals (Call.add 3 back ∷ Call.pack 1 ∷ []) pool

distinct : DistinctKeys (relay_map pool)
unfolding has_key lookup
distinct = (refl, tt)

transfer_txs_example :
    ((transfer_txs bob pool).0
      ≡ filter (is_from bob) (there ∷ []) ++ filter (is_from bob) (relay_txs (relay_map pool)))
    × ((transfer_txs bob pool).1.tx_queue ≡ filter (is_not_from bob) (there ∷ []))
    × (relayed_to 1 (transfer_txs bob pool).1 ≡ filter (is_not_from bob) (relayed_to 1 pool))
transfer_txs_example = transfer_txs_lem bob 1 pool distinct

-- The type "stop" and two bytes.
abbrev stop : Bytes
stop = 115 ∷ 116 ∷ 111 ∷ 112 ∷ []

split_message-merge_message_example :
    (m : Bytes) × (merge_message stop (1 ∷ 0 ∷ []) ≡ ok m)
    × (split_message m ≡ ok (stop, 1 ∷ 0 ∷ []))
split_message-merge_message_example =
    split_message-merge_message stop (1 ∷ 0 ∷ []) (omega arith)
      (ground arith, (ground arith, (ground arith, (ground arith, tt))))

read_bob : parse_uint (last16 bob) ≡ some 1
unfolding parse_uint parse_digits last16 hex_digit
read_bob = refl

-- The text "8000000000000001".
abbrev high : Bytes
high = 56 ∷ 48 ∷ 48 ∷ 48 ∷ 48 ∷ 48 ∷ 48 ∷ 48 ∷ 48 ∷ 48 ∷ 48 ∷ 48 ∷ 48 ∷ 48 ∷ 48 ∷ 49 ∷ []

read_high : parse_uint (last16 high) ≡ some 9223372036854775809
unfolding parse_uint parse_digits last16 hex_digit
read_high = refl

addr2_shard_negative_example : (k : ℕ) × (addr2_shard 4 high ≡ ok (negsuc k)) × (k < 4)
addr2_shard_negative_example =
    addr2_shard_negative 4 high 9223372036854775809 (ground arith) read_high (omega arith)
      (omega arith)
