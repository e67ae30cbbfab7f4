-- ===== src/Pbft/Votes.antt =====
-- The votes of consensus_shard/pbft_all: `set2DMap` of toolFuncs.go and the counts of
-- messageHandle.go.
use aster.Prelude.{
  ℕ, suc, ◌+◌, ◌*◌, ◌%◌, ◌^◌, ◌≤◌, ◌<◌, ◌≡◌, ◌≢◌, refl, Bool, true, false, some, List, [], ◌∷◌, map,
  Bytes, Map, ok, nat_eq, bytes_eq, ◌==◌, if◌then◌else◌, length, lookup, insert, has_key, lookup_or,
  lookup_or-insert, length-insert, has_key-insert, leb, arith, beq_ne, beq_refl,
}
use aster.Pbft.Messages.{Request, Commit, PbftMsg, Event}
use aster.Pbft.{ExtraOps, PbftNode, set_2d_map, votes, handle_commit, end_round, unlock_sequence}
use aster.Pbft.Runs.{handle_event, run}

-- No vote is counted under an address that is yet to be allocated.
abbrev pub IsBelow : ℕ → Map Bytes (Map ℕ Bool) → Type 0
IsBelow n cnt = (d : Bytes) (a : ℕ) → n ≤ a → has_key a (lookup_or [] d cnt) ≡ false

pub votes-set_2d_map :
    (d e : Bytes) (n : ℕ) (cnt : Map Bytes (Map ℕ Bool))
    → IsBelow n cnt
    → votes e (set_2d_map d n cnt) ≡ (if e == d then suc (votes e cnt) else votes e cnt)
unfolding votes set_2d_map
votes-set_2d_map d e n cnt below = ground (
  arith,
  lookup_or-insert [] d e (insert n true (lookup_or [] d cnt)) cnt,
  length-insert n true (lookup_or [] d cnt),
  below d n (omega arith),
  bytes_eq.same_iff e d,
)

pub set_2d_map-IsBelow :
    (d : Bytes) (n : ℕ) (cnt : Map Bytes (Map ℕ Bool))
    → IsBelow n cnt
    → IsBelow (n + 1) (set_2d_map d n cnt)
unfolding set_2d_map
set_2d_map-IsBelow d n cnt below e a le = ground (
  arith,
  lookup_or-insert [] d e (insert n true (lookup_or [] d cnt)) cnt,
  has_key-insert n a true (lookup_or [] d cnt),
  below d a (omega arith),
  below e a (omega arith),
)

module _ {X : Type 0} (ops : ExtraOps X) (get_digest : Request → Bytes) where
  -- What a commit does before the count is reached.
  abbrev voted : Commit → PbftNode X → PbftNode X
  voted m p = record p {
    next_address = p.next_address + 1;
    cnt_commit_confirm = set_2d_map m.digest p.next_address p.cnt_commit_confirm;
  }

  handle_commit_early :
      (m : Commit) (p : PbftNode X)
      → IsBelow p.next_address p.cnt_commit_confirm
      → suc (votes m.digest p.cnt_commit_confirm) < 2 * p.malicious_nums
      → handle_commit ops get_digest m p ≡ ok (some (voted m p, []))
  unfolding handle_commit
  handle_commit_early m p below few =
      let cnt = votes m.digest (set_2d_map m.digest p.next_address p.cnt_commit_confirm) in
      let n : cnt ≡ suc (votes m.digest p.cnt_commit_confirm) = ground (
        arith,
        votes-set_2d_map m.digest m.digest p.next_address p.cnt_commit_confirm below,
        beq_refl m.digest,
      ) in
      let short : leb (2 * p.malicious_nums) cnt ≡ false = ground (arith, n) in rw short

  -- What the commit does that makes the count, on a node that is not the main one.
  abbrev ended : Commit → X → PbftNode X → PbftNode X
  ended m x p = record p {
    next_address = p.next_address + 1;
    cnt_commit_confirm = set_2d_map m.digest p.next_address p.cnt_commit_confirm;
    ihm = x;
    is_reply = insert m.digest true p.is_reply;
    sequence_id = (p.sequence_id + 1) % 2 ^ 64;
  }

  handle_commit_last :
      (m : Commit) (p : PbftNode X) (r : Request) (x : X)
      → IsBelow p.next_address p.cnt_commit_confirm
      → suc (votes m.digest p.cnt_commit_confirm) ≡ 2 * p.malicious_nums
      → lookup m.digest p.request_pool ≡ some r
      → lookup_or false m.digest p.is_reply ≡ false
      → p.node_id ≢ p.view
      → ops.handle_in_commit r m p.ihm ≡ ok x
      → handle_commit ops get_digest m p ≡ ok (some (ended m x p, []))
  unfolding handle_commit end_round unlock_sequence
  handle_commit_last m p r x below last pooled fresh other done =
      let cnt = votes m.digest (set_2d_map m.digest p.next_address p.cnt_commit_confirm) in
      let n : cnt ≡ suc (votes m.digest p.cnt_commit_confirm) = ground (
        arith,
        votes-set_2d_map m.digest m.digest p.next_address p.cnt_commit_confirm below,
        beq_refl m.digest,
      ) in
      let enough : leb (2 * p.malicious_nums) cnt ≡ true = ground (arith, n) in
      rw (enough, fresh, pooled, end_round)
        (rw (done, unlock_sequence) (rw (beq_ne p.node_id p.view other)))

  -- A commit for `d`, of some height and sender.
  abbrev pub commit_for : Bytes → ℕ × ℕ → Event
  commit_for d (seq, sender) =
      Event.message (PbftMsg.commit (record { digest = d; seq_id = seq; sender_node = sender }))

  pub run-commits :
      (d : Bytes) (c : ℕ × ℕ) (cs : List (ℕ × ℕ)) (p : PbftNode X) (r : Request) (x : X)
      → IsBelow p.next_address p.cnt_commit_confirm
      → votes d p.cnt_commit_confirm + length (c ∷ cs) ≡ 2 * p.malicious_nums
      → lookup d p.request_pool ≡ some r
      → lookup_or false d p.is_reply ≡ false
      → p.node_id ≢ p.view
      → ((m : Commit) → ops.handle_in_commit r m p.ihm ≡ ok x)
      → (q : PbftNode X) × (run ops get_digest (map (commit_for d) (c ∷ cs)) p ≡ ok (some (q, [])))
        × (q.ihm ≡ x)
        × (q.sequence_id ≡ (p.sequence_id + 1) % 2 ^ 64)
        × (lookup_or false d q.is_reply ≡ true)
  unfolding run handle_event
  run-commits d (seq, sender) [] p r x below count pooled fresh other done =
      let m : Commit = record { digest = d; seq_id = seq; sender_node = sender } in
      (
        ended m x p,
        rw (handle_commit_last m p r x below (omega arith) pooled fresh other (done m)),
        refl,
        refl,
        rw (lookup_or-insert false d d true p.is_reply, beq_refl d),
      )
  run-commits d (seq, sender) (c ∷ cs) p r x below count pooled fresh other done =
      let m : Commit = record { digest = d; seq_id = seq; sender_node = sender } in
      let p' = voted m p in
      let n = votes-set_2d_map d d p.next_address p.cnt_commit_confirm below in
      let next : votes d p'.cnt_commit_confirm + length (c ∷ cs) ≡ 2 * p'.malicious_nums =
        ground (arith, n, beq_refl d) in
      let (q, ran, is, seq', replied) =
        run-commits d c cs p' r x (set_2d_map-IsBelow d p.next_address p.cnt_commit_confirm below)
          next pooled fresh other done in
      (q, rw (handle_commit_early m p below (omega arith)) (rw ran), is, seq', replied)
