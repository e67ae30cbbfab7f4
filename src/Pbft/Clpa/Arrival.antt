-- ===== src/Pbft/Clpa/Arrival.antt =====
-- `proposePartition` and `accountTransfer_do` of consensus_shard/pbft_all/accountTransfer_module.go.
use aster.Prelude.{
  ℕ, suc, ◌≡◌, refl, ap, sym, ◌∙◌, true, false, none, some, List, [], ◌∷◌, ◌++◌, map, Bytes, Map,
  ok, nat_eq, bytes_eq, ◌==◌, if◌then◌else◌, All, All-append, lookup, lookup_or, lookup-insert,
  insert, length, get_elem?, arith, Bool-cases, Option-cases, inl, inr, append-nil, append_assoc,
  DistinctKeys, length-map, length-append, ◌⊎◌, has_key,
}
use aster.Prelude.Int.{ℤ}
use aster.Core.Transaction.{Transaction}
use aster.Core.Account.{AccountState}
use aster.Core.TxPool.{TxPool, add_txs_to_pool}
use aster.Core.Block.{BitSets, BlockCodec}
use aster.Accounts.Tries.{StateTrie, AccountCodec}
use aster.Chain.{BlockChain, update_partition_map}
use aster.Chain.Transfer.{add_accounts}
use aster.Chain.Moved.{add_accounts-map}
use aster.Pbft.Relay.{timed}
use aster.Pbft.Clpa.{AccountTransferMsg, AccountStateAndTx, ClpaModule}
use aster.Pbft.Clpa.Transfer.{
  receive_accounts, collect, check_txs, update_partition_maps, propose_partition,
  account_transfer_do, partition_req,
}
use aster.Pbft.Clpa.Moves.{IsArrival, owner}

lookup_absent : (k : Bytes) (m : Map Bytes ℕ) → has_key k m ≡ false → lookup k m ≡ none
unfolding has_key
lookup_absent k m h = elim (Option-cases (lookup k m)) [
  | inl absent ↦ absent
  | inr (v, found) ↦ absurd (ground (arith, h, found))
]

-- The transactions of the messages that were collected.
abbrev pub arrived : Map ℕ AccountStateAndTx → List Transaction
arrived [] = []
arrived ((sid, at) ∷ rest) = at.txs ++ arrived rest

receive_accounts_lem :
    (addrs : List Bytes) (states : List AccountState) (accounts : Map Bytes AccountState)
    → length states ≡ length addrs
    → (accounts' : Map Bytes AccountState) × (receive_accounts addrs states accounts ≡ ok accounts')
unfolding receive_accounts
receive_accounts_lem [] states accounts h = (accounts, refl)
receive_accounts_lem (addr ∷ addrs) [] accounts h = absurd (omega (arith, h))
receive_accounts_lem (addr ∷ addrs) (a ∷ states) accounts h =
    receive_accounts_lem addrs states (insert addr a accounts) (omega (arith, h))

module _ (m : Map Bytes ℕ) (own : ℕ) where
  abbrev IsOwn : Transaction → Type 0
  IsOwn tx = lookup_or 0 (owner tx) m ≡ own

  collect_lem :
      (pool : Map ℕ AccountStateAndTx) (accounts : Map Bytes AccountState) (txs : List Transaction)
      → All (λ e. IsArrival m own e.1) pool
      → (accounts' : Map Bytes AccountState) × (collect pool accounts txs
          ≡ ok (accounts', txs ++ arrived pool))
  unfolding collect
  collect_lem [] accounts txs _ = (accounts, ap (λ xs. ok (accounts, xs)) (sym (append-nil txs)))
  collect_lem ((sid, at) ∷ rest) accounts txs ((len, fit), more) =
      let (accounts1, received) = receive_accounts_lem at.addrs at.account_state accounts len in
      let (accounts2, done) = collect_lem rest accounts1 (txs ++ at.txs) more in
      (
        accounts2,
        rw (received, done)
            (ap (λ xs. ok (accounts2, xs)) (append_assoc txs at.txs (arrived rest))),
      )

  arrived-IsOwn :
      (pool : Map ℕ AccountStateAndTx)
      → All (λ e. IsArrival m own e.1) pool
      → All IsOwn (arrived pool)
  arrived-IsOwn [] _ = tt
  arrived-IsOwn ((sid, at) ∷ rest) ((len, fit), more) =
      All-append IsOwn at.txs (arrived rest) fit (arrived-IsOwn rest more)

  check_txs_lem : (txs : List Transaction) → All IsOwn txs → check_txs own (some m) txs ≡ ok txs
  unfolding check_txs
  check_txs_lem [] _ = refl
  check_txs_lem (tx ∷ txs) (here, more) = elim (Bool-cases tx.relayed) [
    | inl relayed ↦
        let ours : (lookup_or 0 tx.recipient m == own) ≡ true = ground (arith, here, relayed) in
        rw (relayed, ours, check_txs_lem txs more) refl
    | inr fresh ↦
        let ours : (lookup_or 0 tx.sender m == own) ≡ true = ground (arith, here, fresh) in
        rw (fresh, ours, check_txs_lem txs more) refl
  ]

next_round :
    (at_id : ℕ) (maps : List (Map Bytes ℕ)) (m : Map Bytes ℕ)
    → (at_id ≡ length maps) ⊎ (at_id ≡ suc (length maps))
    → at_id ≡ length (if length maps == at_id then maps else maps ++ m ∷ [])
next_round at_id maps m (inl same) =
    let e : (length maps == at_id) ≡ true = ground (arith, same) in rw e same
next_round at_id maps m (inr one) =
    let e : (length maps == at_id) ≡ false = ground (arith, one) in
    rw e (omega (arith, one, length-append maps (m ∷ [])))

module _ {bits : BitSets} where
  -- When the messages of the other leaders are accepted by the map of the round, `proposePartition`
  -- does not panic: the transactions that have come go to the end of the queue, in the order of the
  -- messages, and the request has the map, and the number of maps as the next round.
  pub propose_partition_lem :
      (encode : AccountTransferMsg → Bytes) (readings : ℕ → ℕ) (now : ℕ) (x : ClpaModule bits)
      (m : Map Bytes ℕ) (pool : TxPool)
      → get_elem? x.cdm.modified_map x.cdm.account_transfer_round ≡ some m
      → x.pbft_node.txpool ≡ some pool
      → x.cdm.received_new_tx ≡ []
      → All (λ e. IsArrival m x.pbft_node.shard_id e.1) x.cdm.account_state_tx
      → (x' : ClpaModule bits) × (atm : AccountTransferMsg) × (propose_partition encode readings now
            x
          ≡ ok (x', record { request_type = partition_req; content = encode atm; req_time = now }))
        × (x'.pbft_node.txpool
            ≡ some (add_txs_to_pool (timed readings 0 (arrived x.cdm.account_state_tx)) pool))
        × (atm.modified_map ≡ m)
        × (atm.at_id ≡ length x.cdm.modified_map)
        × (length atm.account_state ≡ length atm.addrs)
  unfolding propose_partition
  propose_partition_lem encode readings now x m pool round pooled blank fit =
      let cdm = x.cdm in
      let node = x.pbft_node in
      let (accounts, collected) =
        collect_lem m node.shard_id cdm.account_state_tx cdm.received_new_account_state [] fit in
      let txs = arrived cdm.account_state_tx in
      let checked =
        check_txs_lem m node.shard_id txs
          (arrived-IsOwn m node.shard_id cdm.account_state_tx fit) in
      (
        record {
          cdm = record cdm { received_new_account_state = accounts; received_new_tx = txs };
          pbft_node = record node { txpool = some (add_txs_to_pool (timed readings 0 txs) pool) };
        },
        record {
          modified_map = m;
          addrs = map (λ e. e.0) accounts;
          account_state = map (λ e. e.1) accounts;
          at_id = length cdm.modified_map;
        },
        rw (blank, collected, round, checked, pooled) refl,
        refl,
        refl,
        refl,
        length-map (λ e. e.1) accounts ∙ sym (length-map (λ e. e.0) accounts),
      )

  update_partition_maps_lem :
      (m : Map Bytes ℕ) (key : Bytes) (bc : BlockChain bits)
      → DistinctKeys m
      → lookup key (update_partition_maps m bc).partition_map
        ≡ (elim (lookup key m) [ none ↦ lookup key bc.partition_map | some v ↦ some v ])
  unfolding update_partition_maps update_partition_map lookup
  update_partition_maps_lem [] key bc _ = refl
  update_partition_maps_lem ((k, v) ∷ rest) key bc (fresh, more) =
      let ih = update_partition_maps_lem rest key (update_partition_map k v bc) more in
      elim (Bool-cases (key == k)) [
        | inl same ↦
            let e : key ≡ k = (bytes_eq.same_iff key k).0 same in
            let absent : lookup key rest ≡ none =
              ap (λ j. lookup j rest) e ∙ lookup_absent k rest fresh in
            rw (same, ih, absent, lookup-insert k key v bc.partition_map, same) refl
        | inr other ↦ elim (Option-cases (lookup key rest)) [
          | inl absent ↦ rw (other, ih, absent, lookup-insert k key v bc.partition_map, other) refl
          | inr (w, found) ↦ rw (other, ih, found) refl
        ]
      ]

  module _ (t : StateTrie) (c : AccountCodec) (init_balance : ℤ) (shard_num : ℕ)
      (codec : BlockCodec bits) (tx_tree_root : List Transaction → Bytes) where
    pub account_transfer_do_lem :
        (atm : AccountTransferMsg) (db db' : t.Db) (x : ClpaModule bits) (bc : BlockChain bits)
        (key : Bytes)
        → DistinctKeys atm.modified_map
        → add_accounts t c init_balance shard_num codec tx_tree_root atm.addrs atm.account_state db
            (update_partition_maps atm.modified_map x.pbft_node.cur_chain)
          ≡ ok (bc, db')
        → (atm.at_id ≡ length x.cdm.modified_map) ⊎ (atm.at_id ≡ suc (length x.cdm.modified_map))
        → (x' : ClpaModule bits) × (account_transfer_do t c init_balance shard_num codec
              tx_tree_root atm db x
            ≡ ok (x', db'))
          × (lookup key x'.pbft_node.cur_chain.partition_map ≡ (elim (lookup key atm.modified_map) [
            | none ↦ lookup key x.pbft_node.cur_chain.partition_map
            | some v ↦ some v
          ]))
          × (x'.cdm.account_transfer_round ≡ length x'.cdm.modified_map)
          × (x'.cdm.account_state_tx ≡ [])
          × (x'.cdm.received_new_account_state ≡ [])
          × (x'.cdm.received_new_tx ≡ [])
          × (x'.cdm.partition_ready ≡ [])
          × (x'.cdm.partition_on ≡ false)
          × (x'.cdm.collect_over ≡ false)
    unfolding account_transfer_do
    account_transfer_do_lem atm db db' x bc key distinct added number =
        let cdm = x.cdm in
        let node = x.pbft_node in
        let maps =
          if length cdm.modified_map == atm.at_id
          then cdm.modified_map
          else cdm.modified_map ++ atm.modified_map ∷ [] in
        (
          record {
            pbft_node = record node { cur_chain = bc };
            cdm = record {
              modified_map = maps;
              account_transfer_round = atm.at_id;
              received_new_account_state = [];
              received_new_tx = [];
              account_state_tx = [];
              partition_on = false;
              partition_ready = [];
              ready_seq = cdm.ready_seq;
              collect_over = false;
            };
          },
          rw added refl,
          ap (λ m. lookup key m)
                (add_accounts-map t c init_balance shard_num codec tx_tree_root atm.addrs
                  atm.account_state db db' (update_partition_maps atm.modified_map node.cur_chain)
                  bc added)
              ∙ update_partition_maps_lem atm.modified_map key node.cur_chain distinct,
          next_round atm.at_id cdm.modified_map atm.modified_map number,
          refl,
          refl,
          refl,
          refl,
          refl,
          refl,
        )
