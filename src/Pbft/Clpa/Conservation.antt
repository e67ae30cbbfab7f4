-- ===== src/Pbft/Clpa/Conservation.antt =====
-- The transactions of the queue in `sendAccounts_and_Txs`,
-- consensus_shard/pbft_all/accountTransfer_module.go.
use aster.Prelude.{
  ℕ, zero, suc, ◌+◌, ◌-◌, ◌≡◌, refl, Bool, some, List, [], ◌∷◌, ◌++◌, Bytes, Map, Result, ok, panic,
  or_panic, nat_eq, ◌==◌, if◌then◌else◌, filter, filter-append, length, length-append, get_elem?,
  arith, Bool-cases, Result-cases, subst, inl, inr,
}
use aster.Prelude.Int.{ℤ}
use aster.Core.Transaction.{Transaction}
use aster.Core.Account.{AccountState}
use aster.Core.TxPool.{TxPool}
use aster.Core.Block.{BitSets, BlockCodec}
use aster.Accounts.Tries.{StateTrie, AccountCodec}
use aster.Chain.Transfer.{fetch_accounts}
use aster.Pbft.Clpa.{ClpaModule}
use aster.Pbft.Clpa.Transfer.{
  TransferOut, accounts_to_fetch, accounts_for, fetch_txs, send_to_shards, send_accounts_and_txs,
}

-- All transactions that messages carry.
abbrev pub carried : List TransferOut → List Transaction
carried [] = []
carried (TransferOut.partition_ready i pr ∷ out) = carried out
carried (TransferOut.account_state_and_tx i at ∷ out) = at.txs ++ carried out

module _ (p : Transaction → Bool) where
  -- How many transactions a test finds.
  abbrev pub found : List Transaction → ℕ
  found txs = length (filter p txs)

  found-append : (xs ys : List Transaction) → found (xs ++ ys) ≡ found xs + found ys
  found-append xs ys = rw (filter-append p xs ys) (length-append (filter p xs) (filter p ys))

  found-fetch_txs :
      (addr_set : List Bytes) (txs : List Transaction)
      → found (fetch_txs addr_set txs).0 + found (fetch_txs addr_set txs).1 ≡ found txs
  unfolding fetch_txs
  found-fetch_txs addr_set [] = omega arith
  found-fetch_txs addr_set (tx ∷ txs) = ground (arith, found-fetch_txs addr_set txs)

  -- What is sent and what stays has as many of them as the queue had.
  abbrev IsKept : List Transaction → Result (List Transaction × List TransferOut) → Type 0
  IsKept queue panic = Unit
  IsKept queue (ok (queue', out)) = found (carried out) + found queue' ≡ found queue

  send_to_shards-IsKept :
      (i n shard_id : ℕ) (m : Map Bytes ℕ) (to_fetch : List Bytes) (states : List AccountState)
      (queue : List Transaction)
      → IsKept queue (send_to_shards i n shard_id m to_fetch states queue)
  unfolding send_to_shards
  send_to_shards-IsKept i zero shard_id m to_fetch states queue = omega arith
  send_to_shards-IsKept i (suc n) shard_id m to_fetch states queue =
      elim (Bool-cases (i == shard_id)) [
        | inl own ↦ rw own (send_to_shards-IsKept (i + 1) n shard_id m to_fetch states queue)
        | inr other ↦ elim (Result-cases (accounts_for i m to_fetch states)) [
          | inl bad ↦ rw (other, bad) tt
          | inr ((ads, sts), picked) ↦
              let (sent, queue1) = fetch_txs ads queue in
              let ih = send_to_shards-IsKept (i + 1) n shard_id m to_fetch states queue1 in
              elim (Result-cases (send_to_shards (i + 1) n shard_id m to_fetch states queue1)) [
                | inl bad ↦ rw (other, picked, bad) tt
                | inr ((queue2, out), rest) ↦
                    let later : found (carried out) + found queue2 ≡ found queue1 = rw rest at ih in
                    rw (other, picked, rest)
                      (omega
                        (arith, later, found-fetch_txs ads queue, found-append sent (carried out)))
              ]
        ]
      ]

module _ {bits : BitSets} (t : StateTrie) (c : AccountCodec) (init_balance : ℤ) (shard_num : ℕ)
    (codec : BlockCodec bits) (tx_tree_root : List Transaction → Bytes) where
  abbrev AreKept :
      (Transaction → Bool) → TxPool → Result (ClpaModule bits × List TransferOut) → Type 0
  AreKept p pool panic = Unit
  AreKept p pool (ok (x', out)) =
      (pool' : TxPool) × (x'.pbft_node.txpool ≡ some pool')
      × (found p (carried out) + found p pool'.tx_queue ≡ found p pool.tx_queue)

  send_accounts_and_txs-AreKept :
      (p : Transaction → Bool) (db : t.Db) (x : ClpaModule bits) (pool : TxPool)
      → x.pbft_node.txpool ≡ some pool
      → AreKept p pool (send_accounts_and_txs t c init_balance shard_num codec tx_tree_root db x)
  unfolding send_accounts_and_txs
  send_accounts_and_txs-AreKept p db x pool pooled =
      let node = x.pbft_node in
      let bc = node.cur_chain in
      let maps = x.cdm.modified_map in
      let last = if length maps == 0 then panic else or_panic (get_elem? maps (length maps - 1)) in
      elim (Result-cases last) [
        | inl bad ↦ rw bad tt
        | inr (m, e1) ↦
            elim (Result-cases (accounts_to_fetch shard_num node.shard_id bc.partition_map m [])) [
              | inl bad ↦ rw (e1, bad) tt
              | inr (gone, e2) ↦
                  elim (Result-cases
                    (fetch_accounts t c init_balance shard_num codec tx_tree_root db bc gone)) [
                      | inl bad ↦ rw (e1, e2, bad) tt
                      | inr (states, e3) ↦
                          let sends =
                            send_to_shards 0 node.shard_nums node.shard_id m gone states
                              pool.tx_queue in
                          let kept =
                            send_to_shards-IsKept p 0 node.shard_nums node.shard_id m gone states
                              pool.tx_queue in
                          elim (Result-cases sends) [
                            | inl bad ↦ rw (e1, e2, e3, pooled, bad) tt
                            | inr ((queue, out), e4) ↦
                                rw (e1, e2, e3, pooled, e4)
                                  (record pool { tx_queue = queue }, refl, rw e4 at kept)
                          ]
                    ]
            ]
      ]

  -- Whenever `sendAccounts_and_Txs` does not panic, it loses no transaction and makes none: of the
  -- transactions with any property, as many are in the messages to all leaders and in the queue that
  -- stays as there were in the queue.
  pub found-send_accounts_and_txs :
      (p : Transaction → Bool) (db : t.Db) (x x' : ClpaModule bits) (out : List TransferOut)
      (pool : TxPool)
      → x.pbft_node.txpool ≡ some pool
      → send_accounts_and_txs t c init_balance shard_num codec tx_tree_root db x ≡ ok (x', out)
      → (pool' : TxPool) × (x'.pbft_node.txpool ≡ some pool')
        × (found p (carried out) + found p pool'.tx_queue ≡ found p pool.tx_queue)
  found-send_accounts_and_txs p db x x' out pool pooled done =
      subst (AreKept p pool) done (send_accounts_and_txs-AreKept p db x pool pooled)
