-- ===== src/Pbft/OldRequests.antt =====
-- How a node that was left behind gets what it lacks: `handleRequestOldSeq` and `handleSendOldSeq` of
-- consensus_shard/pbft_all/messageHandle.go.
use aster.Prelude.{
  ℕ, zero, suc, ◌+◌, ◌-◌, ◌%◌, ◌^◌, true, false, not, Option, none, some, List, [], ◌∷◌, Bytes, ok,
  panic, ◌>>=◌, nat_eq, bytes_eq, ◌==◌, if◌then◌else◌, lookup, insert,
}
use aster.Pbft.Messages.{Request, PrePrepare, RequestOldMessage, SendOldMessage, PbftMsg}
use aster.Pbft.{ExtraOps, PbftNode, Handled, keep_request, prepare_msg}

module _ {X : Type 0} (ops : ExtraOps X) (get_digest : Request → Bytes) where
  -- The loop of `handleRequestOldSeq` over `n` heights from `height` on, with its two breaks.
  unfoldable pub old_requests : ℕ → ℕ → PbftNode X → List Request
  old_requests zero height p = []
  old_requests (suc n) height p =
      let rest = old_requests n (height + 1) p in
      elim (lookup height p.height2digest) [
        | none ↦ []
        | some d ↦ elim (lookup d p.request_pool) [ none ↦ [] | some r ↦ r ∷ rest ]
      ]

  -- `handleRequestOldSeq`, which the main node alone answers.
  unfoldable pub handle_request_old_seq : RequestOldMessage → PbftNode X → Handled X
  unfolding old_requests
  handle_request_old_seq m p =
      let n = m.seq_end_height + 1 - m.seq_start_height in
      if not (p.view == p.node_id) then ok (some (p, [])) else do
        x ← ops.handle_request_for_old_seq m p.ihm
        ok (
            some (
              record p { ihm = x },
              PbftMsg.send_old (record {
                seq_start_height = m.seq_start_height;
                seq_end_height = m.seq_end_height;
                old_request = old_requests n m.seq_start_height p;
                sender_node = p.node_id;
              })
                  ∷ [],
            ))

  -- The loop of `handleSendOldSeq`, whose height wraps around.
  unfoldable pub keep_old : ℕ → List Request → PbftNode X → PbftNode X
  unfolding keep_request
  keep_old height [] p = p
  keep_old height (r ∷ rs) p =
      let p' = keep_request ops get_digest height r p in
      keep_old ((height + 1) % 2 ^ 64) rs
        (record p' { is_reply = insert (get_digest r) true p'.is_reply })

  -- The request of the next height, if it has come already.
  unfoldable pub next_request : PbftNode X → Option Request
  next_request p = elim (lookup p.sequence_id p.height2digest) [
    | none ↦ none
    | some d ↦ lookup d p.request_pool
  ]

  unfoldable pub prepare_next : Option Request → PbftNode X → Handled X
  unfolding prepare_msg
  prepare_next none p = ok (some (p, []))
  prepare_next (some r) p = do
    let m : PrePrepare = record { request_msg = r; digest = get_digest r; seq_id = p.sequence_id }
    (x, flag) ← ops.handle_in_pre_prepare m p.ihm
    ok (some (record p { ihm = x }, prepare_msg ops get_digest flag m p))

  -- `askForLock.Unlock`, a fatal error on a free lock.
  unfoldable pub unlock_ask : Option (PbftNode X × List PbftMsg) → Handled X
  unlock_ask none = ok none
  unlock_ask (some (p, out)) =
      if p.ask_for_lock then ok (some (record p { ask_for_lock = false }, out)) else panic

  unfoldable pub handle_send_old_seq : SendOldMessage → PbftNode X → Handled X
  unfolding keep_old next_request prepare_next unlock_ask
  handle_send_old_seq m p = do
    x ← ops.handle_for_sequential_request m p.ihm
    let p1 = keep_old m.seq_start_height m.old_request (record p { ihm = x })
    let p2 = record p1 { sequence_id = (m.seq_end_height + 1) % 2 ^ 64 }
    done ← prepare_next (next_request p2) p2
    unlock_ask done
