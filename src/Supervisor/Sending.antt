-- ===== src/Supervisor/Sending.antt =====
-- supervisor/committee: `txSending` of committee_relay.go and committee_clpa.go, which differ in the
-- shard of a sender, here the argument `route`.
pub mod Delivery
pub mod Totals
use aster.Prelude.{
  ℕ, zero, suc, ◌+◌, ◌%◌, Bool, true, false, ◌||◌, List, [], ◌∷◌, ◌++◌, Bytes, nat_eq, ◌==◌, Map,
  insert, lookup_or, Result, ok, panic, ◌>>=◌, if◌then◌else◌, ltb,
}
use aster.Prelude.Int.{ℤ}
use aster.Core.Transaction.{Transaction}
use aster.Chain.{to_uint64}
use aster.Utils.{addr2_shard}

-- `InjectTxs`
pub record InjectTxs : Type 0 where
  pub txs : List Transaction
  pub to_shard_id : ℕ

-- The loop over the shards, from `sid` on.
unfoldable pub inject : ℕ → ℕ → Map ℕ (List Transaction) → List InjectTxs
inject sid zero m = []
inject sid (suc n) m = record { txs = lookup_or [] sid m; to_shard_id = sid } ∷ inject (sid + 1) n m

-- The condition to send, at the index `idx`; a remainder by 0 panics.
unfoldable pub is_due : ℕ → ℕ → List Transaction → Result Bool
is_due inject_speed idx [] =
    if idx == 0 then ok false else if inject_speed == 0 then panic else ok true
is_due inject_speed idx (tx ∷ txs) =
    if idx == 0 then ok false else if inject_speed == 0 then panic else ok (idx % inject_speed == 0)

module _ (route : Bytes → Result ℕ) (inject_speed shard_num : ℕ) where
  -- The loop from the index `idx` on, with the transactions that are left and `sendToShard`.
  unfoldable pub send_from :
      ℕ → List Transaction → Map ℕ (List Transaction) → Result (List InjectTxs)
  unfolding inject is_due
  send_from idx [] to_shard = do
    due ← is_due inject_speed idx []
    ok (if due then inject 0 shard_num to_shard else [])
  send_from idx (tx ∷ txs) to_shard = do
    due ← is_due inject_speed idx (tx ∷ txs)
    let sent = if due then inject 0 shard_num to_shard else []
    let left = if due then [] else to_shard
    sid ← route tx.sender
    rest ← send_from (idx + 1) txs (insert sid (lookup_or [] sid left ++ tx ∷ []) left)
    ok (sent ++ rest)

  -- `txSending`
  unfoldable pub tx_sending : List Transaction → Result (List InjectTxs)
  unfolding send_from
  tx_sending txlist = send_from 0 txlist []

-- The route of the committee for relays.
unfoldable pub relay_route : ℕ → Bytes → Result ℕ
relay_route params_shard_num sender = do s ← addr2_shard params_shard_num sender; ok (to_uint64 s)
