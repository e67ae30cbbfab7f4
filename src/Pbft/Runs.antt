-- ===== src/Pbft/Runs.antt =====
-- Sequences of steps of a node of consensus_shard/pbft_all, which handles one at a time: its
-- `tcpPoolLock` is held through a handler.
use aster.Prelude.{◌≡◌, Option, none, some, List, [], ◌∷◌, ◌++◌, Bytes, ok, ◌>>=◌}
use aster.Pbft.Messages.{Request, PbftMsg, Event}
use aster.Pbft.{
  ExtraOps, PbftNode, Handled, propose, handle_pre_prepare, handle_prepare, handle_commit,
}
use aster.Pbft.OldRequests.{handle_request_old_seq, handle_send_old_seq}

abbrev pub prepend :
    {X : Type 0}
    → List PbftMsg
    → Option (PbftNode X × List PbftMsg)
    → Option (PbftNode X × List PbftMsg)
prepend out none = none
prepend out (some (p, more)) = some (p, out ++ more)

module _ {X : Type 0} (ops : ExtraOps X) (get_digest : Request → Bytes) where
  -- `handleMessage`, over the messages that are handled here; `Propose` is a step of its own.
  unfoldable pub handle_event : Event → PbftNode X → Handled X
  unfolding propose handle_pre_prepare handle_prepare handle_commit handle_request_old_seq
      handle_send_old_seq
  handle_event Event.propose p = propose ops get_digest p
  handle_event (Event.message (PbftMsg.pre_prepare m)) p = handle_pre_prepare ops get_digest m p
  handle_event (Event.message (PbftMsg.prepare m)) p = handle_prepare ops get_digest m p
  handle_event (Event.message (PbftMsg.commit m)) p = handle_commit ops get_digest m p
  handle_event (Event.message (PbftMsg.request_old m)) p = handle_request_old_seq ops get_digest m p
  handle_event (Event.message (PbftMsg.send_old m)) p = handle_send_old_seq ops get_digest m p

  -- The steps one after the other, with all that is sent.
  unfoldable pub run : List Event → PbftNode X → Handled X
  run [] p = ok (some (p, []))
  run (e ∷ es) p = do
    step ← handle_event e p
    elim step [ none ↦ ok none | some (q, out) ↦ (do rest ← run es q; ok (prepend out rest)) ]

  pub run-cons :
      (e : Event) (es : List Event) (p q : PbftNode X) (out : List PbftMsg)
      → handle_event e p ≡ ok (some (q, out))
      → run (e ∷ es) p ≡ (run es q >>= λ rest. ok (prepend out rest))
  unfolding run
  run-cons e es p q out h = rw h
