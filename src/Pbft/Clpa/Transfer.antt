-- ===== src/Pbft/Clpa/Transfer.antt =====
-- consensus_shard/pbft_all/accountTransfer_module.go: what the leaders send each other when the shards
-- are partitioned anew, and the transfer that every node of a shard makes.
use aster.Prelude.{
  ℕ, zero, suc, ◌+◌, ◌-◌, ◌%◌, ◌^◌, Bool, true, false, not, ◌&&◌, ◌||◌, Option, none, some, List,
  [], ◌∷◌, ◌++◌, map, Bytes, Map, Result, ok, panic, ◌>>=◌, or_panic, nat_eq, bytes_eq, ◌==◌,
  if◌then◌else◌, length, insert, lookup, lookup_or, contains, get_elem?,
}
use aster.Prelude.Int.{ℤ}
use aster.Core.Transaction.{Transaction}
use aster.Core.Account.{AccountState}
use aster.Core.TxPool.{add_txs_to_pool}
use aster.Core.Block.{BitSets, BlockCodec}
use aster.Accounts.Tries.{StateTrie, AccountCodec}
use aster.Chain.{BlockChain, get_partition_map, update_partition_map}
use aster.Chain.Transfer.{fetch_accounts, add_accounts}
use aster.Pbft.Messages.{Request}
use aster.Pbft.Relay.{timed}
use aster.Pbft.Clpa.{AccountTransferMsg, PartitionReady, AccountStateAndTx, ClpaModule}

-- `PartitionReq`, the text.
abbrev pub partition_req : Bytes
partition_req = 80 ∷ 97 ∷ 114 ∷ 116 ∷ 105 ∷ 116 ∷ 105 ∷ 111 ∷ 110 ∷ 82 ∷ 101 ∷ 113 ∷ []

-- A message with the shard to whose leader it goes.
pub data TransferOut : Type 0 where
  partition_ready : ℕ → PartitionReady → TransferOut
  account_state_and_tx : ℕ → AccountStateAndTx → TransferOut

-- The loop of `sendPartitionReady`, from `sid` on.
unfoldable pub ready_messages : ℕ → ℕ → PartitionReady → List TransferOut
ready_messages sid zero pr = []
ready_messages sid (suc n) pr =
    let rest = ready_messages (sid + 1) n pr in
    if sid == pr.from_shard then rest else TransferOut.partition_ready sid pr ∷ rest

-- The loop of `getPartitionReady`, with the flag.
unfoldable pub seqs_ready : Map ℕ ℕ → Map ℕ ℕ → Bool → Bool
seqs_ready [] ready_seq flag = flag
seqs_ready ((sid, val) ∷ rest) ready_seq flag =
    seqs_ready rest ready_seq (elim (lookup sid ready_seq) [
      | none ↦ false
      | some rval ↦ if not ((rval + (2 ^ 64 - 1)) % 2 ^ 64 == val) then false else flag
    ])

-- The addresses of this shard that the map moves to another one.
unfoldable pub accounts_to_fetch :
    ℕ → ℕ → Map Bytes ℕ → Map Bytes ℕ → List Bytes → Result (List Bytes)
accounts_to_fetch shard_num shard_id m [] to_fetch = ok to_fetch
accounts_to_fetch shard_num shard_id m ((key, val) ∷ rest) to_fetch =
    if not (val == shard_id)
    then (do
      s ← get_partition_map shard_num m key
      accounts_to_fetch shard_num shard_id m rest
          (if s == shard_id then to_fetch ++ key ∷ [] else to_fetch))
    else accounts_to_fetch shard_num shard_id m rest to_fetch

-- The addresses that go to shard `i`, with their accounts.
unfoldable pub accounts_for :
    ℕ → Map Bytes ℕ → List Bytes → List AccountState → Result (List Bytes × List AccountState)
accounts_for i m [] states = ok ([], [])
accounts_for i m (addr ∷ addrs) [] =
    if lookup_or 0 addr m == i then panic else accounts_for i m addrs []
accounts_for i m (addr ∷ addrs) (a ∷ states) = do
  (ads, sts) ← accounts_for i m addrs states
  if lookup_or 0 addr m == i then ok (addr ∷ ads, a ∷ sts) else ok (ads, sts)

-- `condition1 || condition2`
abbrev pub is_sent : List Bytes → Transaction → Bool
is_sent addr_set ptx =
    (contains addr_set ptx.sender && not ptx.relayed)
    || (contains addr_set ptx.recipient && ptx.relayed)

-- The loop with the two pointers: what is sent, and what stays in the queue.
unfoldable pub fetch_txs : List Bytes → List Transaction → List Transaction × List Transaction
fetch_txs addr_set [] = ([], [])
fetch_txs addr_set (ptx ∷ txs) =
    let (tx_send, kept) = fetch_txs addr_set txs in
    if is_sent addr_set ptx then (ptx ∷ tx_send, kept) else (tx_send, ptx ∷ kept)

-- The loop over the shards from `i` on, on the queue.
unfoldable pub send_to_shards :
    ℕ
    → ℕ
    → ℕ
    → Map Bytes ℕ
    → List Bytes
    → List AccountState
    → List Transaction
    → Result (List Transaction × List TransferOut)
unfolding accounts_for fetch_txs
send_to_shards i zero shard_id m to_fetch states queue = ok (queue, [])
send_to_shards i (suc n) shard_id m to_fetch states queue =
    if i == shard_id then send_to_shards (i + 1) n shard_id m to_fetch states queue else (do
      (ads, sts) ← accounts_for i m to_fetch states
      (queue', out) ← send_to_shards (i + 1) n shard_id m to_fetch states (fetch_txs ads queue).1
      ok (
        queue',
        TransferOut.account_state_and_tx i (record {
          addrs = ads;
          account_state = sts;
          txs = (fetch_txs ads queue).0;
          from_shard = shard_id;
        })
            ∷ out,
      ))

-- `ReceivedNewAccountState[addr] = at.AccountState[i]` for each address.
unfoldable pub receive_accounts :
    List Bytes → List AccountState → Map Bytes AccountState → Result (Map Bytes AccountState)
receive_accounts [] states m = ok m
receive_accounts (addr ∷ addrs) [] m = panic
receive_accounts (addr ∷ addrs) (a ∷ states) m = receive_accounts addrs states (insert addr a m)

-- The loop of `proposePartition` over the messages that were collected.
unfoldable pub collect :
    Map ℕ AccountStateAndTx
    → Map Bytes AccountState
    → List Transaction
    → Result (Map Bytes AccountState × List Transaction)
unfolding receive_accounts
collect [] accounts txs = ok (accounts, txs)
collect ((sid, at) ∷ rest) accounts txs = do
  accounts' ← receive_accounts at.addrs at.account_state accounts
  collect rest accounts' (txs ++ at.txs)

-- The loop that panics on a transaction of another shard; a round without a map panics.
unfoldable pub check_txs : ℕ → Option (Map Bytes ℕ) → List Transaction → Result (List Transaction)
check_txs shard_id m [] = ok []
check_txs shard_id m (tx ∷ txs) = do
  round ← or_panic m
  if not tx.relayed && not (lookup_or 0 tx.sender round == shard_id)
      then panic
      else if tx.relayed && not (lookup_or 0 tx.recipient round == shard_id)
      then panic
      else (do rest ← check_txs shard_id m txs; ok (tx ∷ rest))

unfoldable pub update_partition_maps :
    {bits : BitSets} → Map Bytes ℕ → BlockChain bits → BlockChain bits
unfolding update_partition_map
update_partition_maps [] bc = bc
update_partition_maps ((key, val) ∷ rest) bc =
    update_partition_maps rest (update_partition_map key val bc)

module _ {bits : BitSets} where
  unfoldable pub send_partition_ready : ClpaModule bits → ClpaModule bits × List TransferOut
  unfolding ready_messages
  send_partition_ready x =
      let cdm = x.cdm in
      let node = x.pbft_node in
      (
        record x {
          cdm = record cdm { partition_ready = insert node.shard_id true cdm.partition_ready };
        },
        ready_messages 0 node.shard_nums
            (record { from_shard = node.shard_id; now_seq_id = node.sequence_id }),
      )

  unfoldable pub get_partition_ready : ClpaModule bits → Bool
  unfolding seqs_ready
  get_partition_ready x =
      length x.cdm.partition_ready == x.pbft_node.shard_nums
      && seqs_ready x.pbft_node.seq_id_map x.cdm.ready_seq true

  unfoldable pub get_collect_over : ClpaModule bits → Bool
  get_collect_over x = x.cdm.collect_over

  -- `proposePartition`, with the readings of the clock for the pool and for the request.
  unfoldable pub propose_partition :
      (AccountTransferMsg → Bytes)
      → (ℕ → ℕ)
      → ℕ
      → ClpaModule bits
      → Result (ClpaModule bits × Request)
  unfolding collect check_txs
  propose_partition encode readings now x = do
    let cdm = x.cdm
    let round = get_elem? cdm.modified_map cdm.account_transfer_round
    (accounts, txs) ←
        collect cdm.account_state_tx cdm.received_new_account_state cdm.received_new_tx
    checked ← check_txs x.pbft_node.shard_id round txs
    pool ← or_panic x.pbft_node.txpool
    modified ← or_panic round
    let atm : AccountTransferMsg = record {
      modified_map = modified;
      addrs = map (λ e. e.0) accounts;
      account_state = map (λ e. e.1) accounts;
      at_id = length cdm.modified_map;
    }
    let node = x.pbft_node
    ok (
      record {
        cdm = record cdm { received_new_account_state = accounts; received_new_tx = txs };
        pbft_node = record node { txpool = some (add_txs_to_pool (timed readings 0 txs) pool) };
      },
      record { request_type = partition_req; content = encode atm; req_time = now },
    )

  module _ (t : StateTrie) (c : AccountCodec) (init_balance : ℤ) (shard_num : ℕ)
      (codec : BlockCodec bits) (tx_tree_root : List Transaction → Bytes) where
    -- `sendAccounts_and_Txs`, on the last map.
    unfoldable pub send_accounts_and_txs :
        t.Db → ClpaModule bits → Result (ClpaModule bits × List TransferOut)
    unfolding accounts_to_fetch send_to_shards
    send_accounts_and_txs db x = do
      let node = x.pbft_node
      let bc = node.cur_chain
      last ←
          if length x.cdm.modified_map == 0
          then panic
          else or_panic (get_elem? x.cdm.modified_map (length x.cdm.modified_map - 1))
      to_fetch ← accounts_to_fetch shard_num node.shard_id bc.partition_map last []
      states ← fetch_accounts t c init_balance shard_num codec tx_tree_root db bc to_fetch
      pool ← or_panic node.txpool
      (queue, out) ←
          send_to_shards 0 node.shard_nums node.shard_id last to_fetch states pool.tx_queue
      ok (
        record x { pbft_node = record node { txpool = some (record pool { tx_queue = queue }) } },
        out,
      )

    -- `accountTransfer_do`
    unfoldable pub account_transfer_do :
        AccountTransferMsg → t.Db → ClpaModule bits → Result (ClpaModule bits × t.Db)
    unfolding update_partition_maps
    account_transfer_do atm db x = do
      let node = x.pbft_node
      let cdm = x.cdm
      (bc, db') ←
          add_accounts t c init_balance shard_num codec tx_tree_root atm.addrs atm.account_state db
            (update_partition_maps atm.modified_map node.cur_chain)
      let maps =
          if length cdm.modified_map == atm.at_id
          then cdm.modified_map
          else cdm.modified_map ++ atm.modified_map ∷ []
      ok (
        record {
          pbft_node = record node { cur_chain = bc };
          cdm = record {
            modified_map = maps;
            account_transfer_round = atm.at_id;
            received_new_account_state = [];
            received_new_tx = [];
            account_state_tx = [];
            partition_on = false;
            partition_ready = [];
            ready_seq = cdm.ready_seq;
            collect_over = false;
          };
        },
        db',
      )
