-- ===== src/Pbft.antt =====
-- Package `consensus_shard/pbft_all`: the consensus of a shard. A handler takes a decoded message
-- and gives the node and what it sends. What a block, a partition or a relay needs is the module
-- behind the interface `ExtraOpInConsensus`, a parameter of the model. `SenderNode` is a pointer
-- that decoding allocates, so a vote is counted under an address of its own; addresses are numbered
-- in the order of their allocation.
pub mod Messages
pub mod OldRequests
pub mod Relay
pub mod Clpa
pub mod Runs
pub mod Votes
pub mod Marks
pub mod Once
pub mod CatchUp
use aster.Prelude.{
  ℕ, zero, suc, ◌+◌, ◌-◌, ◌*◌, ◌/◌, ◌%◌, ◌^◌, Bool, true, false, not, ◌&&◌, Option, none, some,
  List, [], ◌∷◌, ◌++◌, Bytes, Map, Result, ok, panic, ◌>>=◌, nat_eq, bytes_eq, ◌==◌, if◌then◌else◌,
  length, lookup, insert, has_key, lookup_or, ltb, leb,
}
use aster.Pbft.Messages.{
  Request, PrePrepare, Prepare, Commit, RequestOldMessage, SendOldMessage, PbftMsg, Event,
}

-- `ExtraOpInConsensus`, over the state `X` of the module behind it. `HandleinCommit` reads the
-- request from the pool, where it is present at the call.
pub record ExtraOps (X : Type 0) : Type 0 where
  pub handle_in_propose : X → Result (X × Request)
  pub handle_in_pre_prepare : PrePrepare → X → Result (X × Bool)
  pub handle_in_prepare : Prepare → X → Result X
  pub handle_in_commit : Request → Commit → X → Result X
  pub handle_request_for_old_seq : RequestOldMessage → X → Result X
  pub handle_for_sequential_request : SendOldMessage → X → Result X

-- The fields that the handlers read or write, with the two locks that outlive a handler.
pub record PbftNode (X : Type 0) : Type 0 where
  pub shard_id : ℕ
  pub node_id : ℕ
  pub malicious_nums : ℕ
  pub view : ℕ
  pub sequence_id : ℕ
  pub request_pool : Map Bytes Request
  pub cnt_prepare_confirm : Map Bytes (Map ℕ Bool)
  pub cnt_commit_confirm : Map Bytes (Map ℕ Bool)
  pub is_commit_bordcast : Map Bytes Bool
  pub is_reply : Map Bytes Bool
  pub height2digest : Map ℕ Bytes
  pub sequence_lock : Bool
  pub ask_for_lock : Bool
  pub next_address : ℕ
  pub ihm : X

-- `NewPbftNode`, for the height of the current block and `node_nums` of at least 1.
unfoldable pub new_pbft_node : {X : Type 0} → ℕ → ℕ → ℕ → ℕ → X → PbftNode X
new_pbft_node shard_id node_id node_nums height x = record {
  shard_id = shard_id;
  node_id = node_id;
  malicious_nums = (node_nums - 1) / 3;
  view = 0;
  sequence_id = (height + 1) % 2 ^ 64;
  request_pool = [];
  cnt_prepare_confirm = [];
  cnt_commit_confirm = [];
  is_commit_bordcast = [];
  is_reply = [];
  height2digest = [];
  sequence_lock = false;
  ask_for_lock = false;
  next_address = 0;
  ihm = x;
}

-- `set2DMap`: the vote of the sender at address `val`.
unfoldable pub set_2d_map : Bytes → ℕ → Map Bytes (Map ℕ Bool) → Map Bytes (Map ℕ Bool)
set_2d_map key val m = insert key (insert val true (lookup_or [] key m)) m

-- How many votes a digest has.
unfoldable pub votes : Bytes → Map Bytes (Map ℕ Bool) → ℕ
votes key m = length (lookup_or [] key m)

-- What a handler comes to: the node and the messages it sends, or `none` where it waits for a lock
-- for ever.
abbrev pub Handled : Type 0 → Type 0
Handled X = Result (Option (PbftNode X × List PbftMsg))

module _ {X : Type 0} (ops : ExtraOps X) (get_digest : Request → Bytes) where
  -- One round of the loop of `Propose`, which the main node alone enters.
  unfoldable pub propose : PbftNode X → Handled X
  propose p =
      if not (p.view == p.node_id)
      then ok (some (p, []))
      else if p.sequence_lock
      then ok none
      else do
        (x, r) ← ops.handle_in_propose p.ihm
        let digest = get_digest r
        ok (
            some (
              record p {
                sequence_lock = true;
                ihm = x;
                request_pool = insert digest r p.request_pool;
                height2digest = insert p.sequence_id digest p.height2digest;
              },
              PbftMsg.pre_prepare
                    (record { request_msg = r; digest = digest; seq_id = p.sequence_id })
                  ∷ [],
            ))

  -- Putting a request into the pool, under its height.
  unfoldable pub keep_request : ℕ → Request → PbftNode X → PbftNode X
  keep_request seq r p = record p {
    request_pool = insert (get_digest r) r p.request_pool;
    height2digest = insert seq (get_digest r) p.height2digest;
  }

  unfoldable pub prepare_msg : Bool → PrePrepare → PbftNode X → List PbftMsg
  prepare_msg false m p = []
  prepare_msg true m p =
      PbftMsg.prepare (record { digest = m.digest; seq_id = m.seq_id; sender_node = p.node_id })
      ∷ []

  unfoldable pub handle_pre_prepare : PrePrepare → PbftNode X → Handled X
  unfolding keep_request prepare_msg
  handle_pre_prepare m p =
      if not (get_digest m.request_msg == m.digest)
      then ok (some (p, []))
      else if ltb p.sequence_id m.seq_id
      then ok (some (keep_request m.seq_id m.request_msg p, []))
      else do
        (x, flag) ← ops.handle_in_pre_prepare m p.ihm
        ok (some (keep_request m.seq_id m.request_msg (record p { ihm = x }), prepare_msg flag m p))

  -- `cnt >= specifiedcnt`, where `specifiedcnt` is 2f for the main node and 2f - 1 for the others.
  unfoldable pub is_prepared : ℕ → PbftNode X → Bool
  is_prepared cnt p = leb (2 * p.malicious_nums) (if p.node_id == p.view then cnt else cnt + 1)

  -- The end of `handlePrepare`.
  unfoldable pub broadcast_commit : Prepare → PbftNode X → PbftNode X × List PbftMsg
  broadcast_commit m p =
      if is_prepared (votes m.digest p.cnt_prepare_confirm) p
        && not (lookup_or false m.digest p.is_commit_bordcast)
      then (
        record p { is_commit_bordcast = insert m.digest true p.is_commit_bordcast },
        PbftMsg.commit (record { digest = m.digest; seq_id = m.seq_id; sender_node = p.node_id })
            ∷ [],
      )
      else (p, [])

  unfoldable pub handle_prepare : Prepare → PbftNode X → Handled X
  unfolding broadcast_commit
  handle_prepare m p0 =
      let address = p0.next_address in
      let p = record p0 { next_address = address + 1 } in
      if not (has_key m.digest p.request_pool)
      then ok (some (p, []))
      else if ltb p.sequence_id m.seq_id
      then ok (some (p, []))
      else do
        x ← ops.handle_in_prepare m p.ihm
        let cnt = set_2d_map m.digest address p.cnt_prepare_confirm
        ok (some (broadcast_commit m (record p { ihm = x; cnt_prepare_confirm = cnt })))

  -- The main node's `sequenceLock.Unlock`, which is a fatal error on a free lock.
  unfoldable pub unlock_sequence : PbftNode X → List PbftMsg → Handled X
  unlock_sequence p out =
      if not (p.node_id == p.view)
      then ok (some (p, out))
      else if p.sequence_lock
      then ok (some (record p { sequence_lock = false }, out))
      else panic

  -- The end of a round: a node without the request asks the main node for what it lacks, waiting
  -- while it has asked already; the others run the module's commit.
  unfoldable pub end_round : Commit → Option Request → PbftNode X → Handled X
  unfolding unlock_sequence
  end_round m none p =
      if p.ask_for_lock
      then ok none
      else unlock_sequence
          (record p { is_reply = insert m.digest true p.is_reply; ask_for_lock = true })
          (PbftMsg.request_old (record {
            seq_start_height = (p.sequence_id + 1) % 2 ^ 64;
            seq_end_height = m.seq_id;
            server_node = p.view;
            sender_node = p.node_id;
          })
            ∷ [])
  end_round m (some r) p = do
    x ← ops.handle_in_commit r m p.ihm
    unlock_sequence
        (record p {
          ihm = x;
          is_reply = insert m.digest true p.is_reply;
          sequence_id = (p.sequence_id + 1) % 2 ^ 64;
        })
        []

  unfoldable pub handle_commit : Commit → PbftNode X → Handled X
  unfolding end_round
  handle_commit m p0 =
      let cnt = set_2d_map m.digest p0.next_address p0.cnt_commit_confirm in
      let p = record p0 { next_address = p0.next_address + 1; cnt_commit_confirm = cnt } in
      if leb (2 * p.malicious_nums) (votes m.digest cnt)
        && not (lookup_or false m.digest p.is_reply)
      then end_round m (lookup m.digest p.request_pool) p
      else ok (some (p, []))
