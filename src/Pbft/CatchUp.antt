-- ===== src/Pbft/CatchUp.antt =====
-- A node that was left behind, in consensus_shard/pbft_all/messageHandle.go: `handleSendOldSeq`.
use aster.Prelude.{
  ℕ, ◌+◌, ◌*◌, ◌%◌, ◌^◌, ◌≡◌, refl, true, false, not, ◌&&◌, none, some, List, [], ◌∷◌, Bytes, ok,
  nat_eq, bytes_eq, lookup_or, lookup_or-insert, has_key, has_key-insert, leb, arith, All, All-map,
  ◌∙◌, beq_refl,
}
use aster.Pbft.Messages.{Request, Commit, SendOldMessage}
use aster.Pbft.{ExtraOps, PbftNode, set_2d_map, votes, keep_request, handle_commit}
use aster.Pbft.OldRequests.{keep_old, next_request, prepare_next, unlock_ask, handle_send_old_seq}

module _ {X : Type 0} (ops : ExtraOps X) (get_digest : Request → Bytes) where
  -- A request is in the pool and its round is over.
  pub record IsDone (p : PbftNode X) (d : Bytes) : Type 0 where
    pub pooled : has_key d p.request_pool ≡ true
    pub replied : lookup_or false d p.is_reply ≡ true

  keep_old-stays :
      (height : ℕ) (rs : List Request) (p : PbftNode X) (d : Bytes)
      → IsDone p d
      → IsDone (keep_old ops get_digest height rs p) d
  unfolding keep_old keep_request
  keep_old-stays height [] p d h = h
  keep_old-stays height (r ∷ rs) p d h = keep_old-stays ((height + 1) % 2 ^ 64) rs _ d (record {
    pooled = ground (arith, has_key-insert (get_digest r) d r p.request_pool, h.pooled);
    replied = ground (arith, lookup_or-insert false (get_digest r) d true p.is_reply, h.replied);
  })

  keep_old_lem :
      (height : ℕ) (rs : List Request) (p : PbftNode X)
      → All (λ r. IsDone (keep_old ops get_digest height rs p) (get_digest r)) rs
  unfolding keep_old keep_request
  keep_old_lem height [] p = tt
  keep_old_lem height (r ∷ rs) p =
      let d = get_digest r in
      (
        keep_old-stays ((height + 1) % 2 ^ 64) rs _ d (record {
          pooled = ground (arith, has_key-insert d d r p.request_pool, beq_refl d);
          replied = ground (arith, lookup_or-insert false d d true p.is_reply, beq_refl d);
        }),
        keep_old_lem ((height + 1) % 2 ^ 64) rs _,
      )

  keep_old-ask_for_lock :
      (height : ℕ) (rs : List Request) (p : PbftNode X)
      → (keep_old ops get_digest height rs p).ask_for_lock ≡ p.ask_for_lock
  unfolding keep_old keep_request
  keep_old-ask_for_lock height [] p = refl
  keep_old-ask_for_lock height (r ∷ rs) p = keep_old-ask_for_lock ((height + 1) % 2 ^ 64) rs _

  -- The node with the old requests, at the height after the last of them.
  abbrev pub caught_up : SendOldMessage → X → PbftNode X → PbftNode X
  caught_up m x p =
      record (keep_old ops get_digest m.seq_start_height m.old_request (record p { ihm = x })) {
        sequence_id = (m.seq_end_height + 1) % 2 ^ 64;
      }

  replied_lem :
      (c : Commit) (q : PbftNode X)
      → lookup_or false c.digest q.is_reply ≡ true
      → (q' : PbftNode X) × (handle_commit ops get_digest c q ≡ ok (some (q', [])))
        × (q'.ihm ≡ q.ihm)
        × (q'.sequence_id ≡ q.sequence_id)
  unfolding handle_commit
  replied_lem c q h =
      let cnt = set_2d_map c.digest q.next_address q.cnt_commit_confirm in
      let done = leb (2 * q.malicious_nums) (votes c.digest cnt) in
      let off : (done && not (lookup_or false c.digest q.is_reply)) ≡ false = ground arith in
      (record q { next_address = q.next_address + 1; cnt_commit_confirm = cnt }, rw off, refl, refl)

  abbrev pub late : Bytes → ℕ × ℕ → Commit
  late d (seq, sender) = record { digest = d; seq_id = seq; sender_node = sender }

  -- With the answer to what it asked for, and no request yet for the height after, a node goes to
  -- that height and may ask again; all the requests of the answer are in its pool, and a commit for
  -- one of them that comes later neither runs the module's commit nor moves the height.
  pub handle_send_old_seq_lem :
      (m : SendOldMessage) (p : PbftNode X) (x : X)
      → ops.handle_for_sequential_request m p.ihm ≡ ok x
      → p.ask_for_lock ≡ true
      → next_request ops get_digest (caught_up m x p) ≡ none
      → (q : PbftNode X) × (handle_send_old_seq ops get_digest m p ≡ ok (some (q, [])))
        × (q.sequence_id ≡ (m.seq_end_height + 1) % 2 ^ 64)
        × (q.ask_for_lock ≡ false)
        × All (λ r. has_key (get_digest r) q.request_pool ≡ true) m.old_request
        × All
            (λ r.
              (c : ℕ × ℕ)
              → (q' : PbftNode X) × (handle_commit ops get_digest (late (get_digest r) c) q
                  ≡ ok (some (q', [])))
                × (q'.ihm ≡ q.ihm)
                × (q'.sequence_id ≡ q.sequence_id))
            m.old_request
  unfolding handle_send_old_seq prepare_next unlock_ask
  handle_send_old_seq_lem m p x done asked fresh =
      let q = record (caught_up m x p) { ask_for_lock = false } in
      let held = keep_old-ask_for_lock m.seq_start_height m.old_request (record p { ihm = x }) in
      let all = keep_old_lem m.seq_start_height m.old_request (record p { ihm = x }) in
      (
        q,
        rw (done, prepare_next) (rw (fresh, prepare_next) (rw (held ∙ asked) refl)),
        refl,
        refl,
        All-map (λ r h. h.pooled) m.old_request all,
        All-map (λ r h c. replied_lem (late (get_digest r) c) q h.replied) m.old_request all,
      )
