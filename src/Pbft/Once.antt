-- ===== src/Pbft/Once.antt =====
-- A node of consensus_shard/pbft_all over any sequence of steps: what it does once for a digest.
use aster.Prelude.{
  ℕ, ◌+◌, ◌*◌, ◌%◌, ◌^◌, ◌≤◌, ◌≡◌, refl, inl, inr, Bool, true, false, not, ◌&&◌, Option, none, some,
  List, [], ◌∷◌, Bytes, ok, ◌>>=◌, nat_eq, bytes_eq, ◌==◌, lookup, insert, lookup_or,
  lookup_or-insert, ltb, leb, has_key, arith, Bool-cases, Result-cases, subst,
}
use aster.Pbft.Messages.{
  Request, PrePrepare, Prepare, Commit, RequestOldMessage, SendOldMessage, PbftMsg, Event,
}
use aster.Pbft.{
  ExtraOps, PbftNode, set_2d_map, votes, propose, keep_request, prepare_msg, handle_pre_prepare,
  is_prepared, broadcast_commit, handle_prepare, unlock_sequence, end_round, handle_commit,
}
use aster.Pbft.OldRequests.{
  handle_request_old_seq, keep_old, prepare_next, unlock_ask, handle_send_old_seq,
}
use aster.Pbft.Marks.{commits, commits-append, Marks, Marks-quiet, Marks-bind, Marks-bind_bind}
use aster.Pbft.Runs.{handle_event, run}

module _ {X : Type 0} (ops : ExtraOps X) (get_digest : Request → Bytes) where
  broadcast_commit-Marks :
      (d : Bytes) (m : Prepare) (p : PbftNode X)
      → Marks d p (ok (some (broadcast_commit ops get_digest m p)))
  unfolding broadcast_commit commits
  broadcast_commit-Marks d m p =
      let sent = lookup_or false m.digest p.is_commit_bordcast in
      let ready = is_prepared ops get_digest (votes m.digest p.cnt_prepare_confirm) p in
      elim (Bool-cases (ready && not sent)) [
        | inr quiet ↦ rw quiet (omega arith)
        | inl go ↦
            let was : sent ≡ false = ground arith in
            rw go (
              ground (
                arith,
                lookup_or-insert false m.digest d true p.is_commit_bordcast,
                bytes_eq.same_iff d m.digest,
                was,
              ))
      ]

  unlock_sequence-Marks :
      (d : Bytes) (p q : PbftNode X) (out : List PbftMsg)
      → q.is_commit_bordcast ≡ p.is_commit_bordcast
      → commits d out ≡ 0
      → Marks d p (unlock_sequence ops get_digest q out)
  unfolding unlock_sequence
  unlock_sequence-Marks d p q out same silent = elim (Bool-cases (q.node_id == q.view)) [
    | inr other ↦ rw other (Marks-quiet d p q out same silent)
    | inl main ↦ elim (Bool-cases q.sequence_lock) [
      | inl held ↦
          rw (main, held) (Marks-quiet d p (record q { sequence_lock = false }) out same silent)
      | inr free ↦ rw (main, free) tt
    ]
  ]

  end_round-Marks :
      (d : Bytes) (m : Commit) (r : Option Request) (p q : PbftNode X)
      → q.is_commit_bordcast ≡ p.is_commit_bordcast
      → Marks d p (end_round ops get_digest m r q)
  unfolding end_round commits
  end_round-Marks d m none p q same = elim (Bool-cases q.ask_for_lock) [
    | inl waits ↦ rw waits tt
    | inr free ↦ rw free (
        unlock_sequence-Marks d p
          (record q { is_reply = insert m.digest true q.is_reply; ask_for_lock = true }) _ same
          refl)
  ]
  end_round-Marks d m (some r) p q same = Marks-bind d p (ops.handle_in_commit r m q.ihm) _ (λ x.
      unlock_sequence-Marks d p
        (record q { ihm = x; is_reply = insert m.digest true q.is_reply; sequence_id = _ }) [] same
        refl)

  keep_old-is_commit_bordcast :
      (height : ℕ) (rs : List Request) (p : PbftNode X)
      → (keep_old ops get_digest height rs p).is_commit_bordcast ≡ p.is_commit_bordcast
  unfolding keep_old keep_request
  keep_old-is_commit_bordcast height [] p = refl
  keep_old-is_commit_bordcast height (r ∷ rs) p =
      let p' = keep_request ops get_digest height r p in
      keep_old-is_commit_bordcast ((height + 1) % 2 ^ 64) rs
        (record p' { is_reply = insert (get_digest r) true p'.is_reply })

  commits-prepare_msg :
      (d : Bytes) (b : Bool) (m : PrePrepare) (p : PbftNode X)
      → commits d (prepare_msg ops get_digest b m p) ≡ 0
  unfolding prepare_msg commits
  commits-prepare_msg d true m p = refl
  commits-prepare_msg d false m p = refl

  unlock_ask-Marks :
      (d : Bytes) (p : PbftNode X) (s : Option (PbftNode X × List PbftMsg))
      → Marks d p (ok s)
      → Marks d p (unlock_ask ops get_digest s)
  unfolding unlock_ask
  unlock_ask-Marks d p none h = tt
  unlock_ask-Marks d p (some (q, out)) h = elim (Bool-cases q.ask_for_lock) [
    | inl held ↦ rw held h
    | inr free ↦ rw free tt
  ]

  prepare_next-Marks :
      (d : Bytes) (r : Option Request) (p q : PbftNode X)
      → q.is_commit_bordcast ≡ p.is_commit_bordcast
      → Marks d p (prepare_next ops get_digest r q >>= unlock_ask ops get_digest)
  unfolding prepare_next commits
  prepare_next-Marks d none p q same =
      unlock_ask-Marks d p (some (q, [])) (Marks-quiet d p q [] same refl)
  prepare_next-Marks d (some r) p q same =
      let m : PrePrepare = record {
        request_msg = r;
        digest = get_digest r;
        seq_id = q.sequence_id;
      } in
      Marks-bind_bind d p (ops.handle_in_pre_prepare m q.ihm) _ _ (λ (x, flag).
        unlock_ask-Marks d p (some (record q { ihm = x }, prepare_msg ops get_digest flag m q)) (
          Marks-quiet d p (record q { ihm = x }) (prepare_msg ops get_digest flag m q) same
            (commits-prepare_msg d flag m q)))

  propose-Marks : (d : Bytes) (p : PbftNode X) → Marks d p (propose ops get_digest p)
  unfolding propose commits
  propose-Marks d p = elim (Bool-cases (p.view == p.node_id)) [
    | inr other ↦ rw other (omega arith)
    | inl main ↦ elim (Bool-cases p.sequence_lock) [
      | inl held ↦ rw (main, held) tt
      | inr free ↦
          rw (main, free) (Marks-bind d p (ops.handle_in_propose p.ihm) _ (λ x. omega arith))
    ]
  ]

  handle_pre_prepare-Marks :
      (d : Bytes) (m : PrePrepare) (p : PbftNode X)
      → Marks d p (handle_pre_prepare ops get_digest m p)
  unfolding handle_pre_prepare keep_request commits
  handle_pre_prepare-Marks d m p = elim (Bool-cases (get_digest m.request_msg == m.digest)) [
    | inr wrong ↦ rw wrong (omega arith)
    | inl right ↦ elim (Bool-cases (ltb p.sequence_id m.seq_id)) [
      | inl early ↦ rw (right, early) (omega arith)
      | inr due ↦
          rw (right, due)
            (Marks-bind d p (ops.handle_in_pre_prepare m p.ihm) _
              (λ (x, flag). rw (commits-prepare_msg d flag m p) (omega arith)))
    ]
  ]

  handle_prepare-Marks :
      (d : Bytes) (m : Prepare) (p : PbftNode X) → Marks d p (handle_prepare ops get_digest m p)
  unfolding handle_prepare commits
  handle_prepare-Marks d m p = elim (Bool-cases (has_key m.digest p.request_pool)) [
    | inr unknown ↦ rw unknown (omega arith)
    | inl known ↦ elim (Bool-cases (ltb p.sequence_id m.seq_id)) [
      | inl early ↦ rw (known, early) (omega arith)
      | inr due ↦
          rw (known, due)
            (Marks-bind d p (ops.handle_in_prepare m p.ihm) _ (λ x.
              broadcast_commit-Marks d m
                (record p { ihm = x; cnt_prepare_confirm = _; next_address = _ })))
    ]
  ]

  handle_commit-Marks :
      (d : Bytes) (m : Commit) (p : PbftNode X) → Marks d p (handle_commit ops get_digest m p)
  unfolding handle_commit commits
  handle_commit-Marks d m p =
      let cnt = set_2d_map m.digest p.next_address p.cnt_commit_confirm in
      let q = record p { next_address = p.next_address + 1; cnt_commit_confirm = cnt } in
      let done = leb (2 * p.malicious_nums) (votes m.digest cnt) in
      elim (Bool-cases (done && not (lookup_or false m.digest p.is_reply))) [
        | inl ends ↦ rw ends (end_round-Marks d m (lookup m.digest p.request_pool) p q refl)
        | inr goes_on ↦ rw goes_on (omega arith)
      ]

  handle_request_old_seq-Marks :
      (d : Bytes) (m : RequestOldMessage) (p : PbftNode X)
      → Marks d p (handle_request_old_seq ops get_digest m p)
  unfolding handle_request_old_seq commits
  handle_request_old_seq-Marks d m p = elim (Bool-cases (p.view == p.node_id)) [
    | inr other ↦ rw other (omega arith)
    | inl main ↦
        rw main (Marks-bind d p (ops.handle_request_for_old_seq m p.ihm) _ (λ x. omega arith))
  ]

  handle_send_old_seq-Marks :
      (d : Bytes) (m : SendOldMessage) (p : PbftNode X)
      → Marks d p (handle_send_old_seq ops get_digest m p)
  unfolding handle_send_old_seq
  handle_send_old_seq-Marks d m p =
      Marks-bind d p (ops.handle_for_sequential_request m p.ihm) _ (λ x.
        prepare_next-Marks d _ p _
          (keep_old-is_commit_bordcast m.seq_start_height m.old_request (record p { ihm = x })))

  handle_event-Marks :
      (d : Bytes) (e : Event) (p : PbftNode X) → Marks d p (handle_event ops get_digest e p)
  unfolding handle_event
  handle_event-Marks d Event.propose p = propose-Marks d p
  handle_event-Marks d (Event.message (PbftMsg.pre_prepare m)) p = handle_pre_prepare-Marks d m p
  handle_event-Marks d (Event.message (PbftMsg.prepare m)) p = handle_prepare-Marks d m p
  handle_event-Marks d (Event.message (PbftMsg.commit m)) p = handle_commit-Marks d m p
  handle_event-Marks d (Event.message (PbftMsg.request_old m)) p =
      handle_request_old_seq-Marks d m p
  handle_event-Marks d (Event.message (PbftMsg.send_old m)) p = handle_send_old_seq-Marks d m p

  run-Marks : (d : Bytes) (es : List Event) (p : PbftNode X) → Marks d p (run ops get_digest es p)
  unfolding run commits
  run-Marks d [] p = omega arith
  run-Marks d (e ∷ es) p = elim (Result-cases (handle_event ops get_digest e p)) [
    | inl stops ↦ rw stops tt
    | inr (none, waits) ↦ rw waits tt
    | inr (some (q, out), steps) ↦
        let one = subst (Marks d p) steps (handle_event-Marks d e p) in
        elim (Result-cases (run ops get_digest es q)) [
          | inl stops ↦ rw steps (rw stops tt)
          | inr (none, waits) ↦ rw steps (rw waits tt)
          | inr (some (q', more), ran) ↦
              let rest = subst (Marks d q) ran (run-Marks d es q) in
              rw steps (rw ran (omega (arith, one, rest, commits-append d out more)))
        ]
  ]

  -- Over any sequence of steps a node broadcasts at most one commit for a digest, and then none
  -- if it had marked the digest before.
  pub commits-run :
      (d : Bytes) (es : List Event) (p q : PbftNode X) (out : List PbftMsg)
      → run ops get_digest es p ≡ ok (some (q, out))
      → (commits d out ≤ 1) × (lookup_or false d p.is_commit_bordcast ≡ true → commits d out ≡ 0)
  commits-run d es p q out ran =
      let counted = subst (Marks d p) ran (run-Marks d es p) in
      (ground (arith, counted), λ was. ground (arith, counted, was))
