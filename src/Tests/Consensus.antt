-- ===== src/Tests/Consensus.antt =====
-- Four nodes of consensus_shard/pbft_all, of which one may be faulty; the module behind them counts
-- the requests that it has run.
use aster.Prelude.{
  ℕ, ◌+◌, ◌*◌, ◌%◌, ◌^◌, ◌≤◌, ◌≡◌, refl, true, false, none, some, List, [], ◌∷◌, map, Bytes, ok,
  arith, All, nat_eq, bytes_eq, has_key, lookup, insert, lookup_or, bytes_beq,
}
use aster.Pbft.Messages.{Request, SendOldMessage, PbftMsg, Event}
use aster.Pbft.{
  ExtraOps, PbftNode, handle_commit, votes, handle_prepare, broadcast_commit, is_prepared,
  set_2d_map, keep_request,
}
use aster.Pbft.OldRequests.{handle_send_old_seq, next_request, keep_old}
use aster.Pbft.Runs.{handle_event, run}
use aster.Pbft.Votes.{IsBelow, commit_for, run-commits}
use aster.Pbft.Marks.{commits}
use aster.Pbft.Once.{commits-run}
use aster.Pbft.CatchUp.{caught_up, late, handle_send_old_seq_lem}

abbrev ops : ExtraOps ℕ
ops = record {
  handle_in_propose = λ x. ok (x, record { request_type = []; content = x ∷ []; req_time = 0 });
  handle_in_pre_prepare = λ m x. ok (x, true);
  handle_in_prepare = λ m x. ok x;
  handle_in_commit = λ r m x. ok (x + 1);
  handle_request_for_old_seq = λ m x. ok x;
  handle_for_sequential_request = λ m x. ok (x + 1);
}

abbrev digest_of : Request → Bytes
digest_of r = r.content

abbrev request : Request
request = record { request_type = []; content = 5 ∷ []; req_time = 0 }

-- Node 1, with the request and no vote.
abbrev node : PbftNode ℕ
node = record {
  shard_id = 0;
  node_id = 1;
  malicious_nums = 1;
  view = 0;
  sequence_id = 1;
  request_pool = (5 ∷ [], request) ∷ [];
  cnt_prepare_confirm = [];
  cnt_commit_confirm = [];
  is_commit_bordcast = [];
  is_reply = [];
  height2digest = [];
  sequence_lock = false;
  ask_for_lock = false;
  next_address = 0;
  ihm = 0;
}

below : IsBelow 0 node.cnt_commit_confirm
unfolding has_key lookup lookup_or
below d a le = refl

no_votes : votes (5 ∷ []) node.cnt_commit_confirm + 2 ≡ 2 * 1
unfolding votes lookup_or lookup
no_votes = refl

pooled : lookup (5 ∷ []) node.request_pool ≡ some request
unfolding lookup bytes_beq
pooled = refl

not_replied : lookup_or false (5 ∷ []) node.is_reply ≡ false
unfolding lookup_or lookup
not_replied = refl

run-commits_example :
    (q : PbftNode ℕ) × (run ops digest_of
        (map (commit_for ops digest_of (5 ∷ [])) ((1, 3) ∷ (1, 3) ∷ []))
        node
      ≡ ok (some (q, [])))
    × (q.ihm ≡ 1)
    × (q.sequence_id ≡ (1 + 1) % 2 ^ 64)
    × (lookup_or false (5 ∷ []) q.is_reply ≡ true)
run-commits_example =
    run-commits ops digest_of (5 ∷ []) (1, 3) ((1, 3) ∷ []) node request 1 below no_votes pooled
      not_replied (ground arith) (λ m. refl)

abbrev prepare : Event
prepare = Event.message (PbftMsg.prepare (record { digest = 5 ∷ []; seq_id = 1; sender_node = 2 }))

abbrev prepares : List Event
prepares = prepare ∷ prepare ∷ []

abbrev asked : PbftNode ℕ
asked = record node { ask_for_lock = true; request_pool = [] }

abbrev old : SendOldMessage
old = record {
  seq_start_height = 1;
  seq_end_height = 1;
  old_request = request ∷ [];
  sender_node = 0;
}

-- Two prepares are counted, and the commit is sent at the first.
abbrev prepared : PbftNode ℕ
prepared = record node {
  cnt_prepare_confirm = (5 ∷ [], (0, true) ∷ (1, true) ∷ []) ∷ [];
  is_commit_bordcast = (5 ∷ [], true) ∷ [];
  next_address = 2;
}

abbrev sent : List PbftMsg
sent = PbftMsg.commit (record { digest = 5 ∷ []; seq_id = 1; sender_node = 1 }) ∷ []

prepares-run : run ops digest_of prepares node ≡ ok (some (prepared, sent))
unfolding run handle_event handle_prepare broadcast_commit is_prepared set_2d_map votes has_key
    lookup insert lookup_or bytes_beq
prepares-run = refl

commits-run_example :
    (commits (5 ∷ []) sent ≤ 1)
    × (lookup_or false (5 ∷ []) node.is_commit_bordcast ≡ true → commits (5 ∷ []) sent ≡ 0)
commits-run_example = commits-run ops digest_of (5 ∷ []) prepares node prepared sent prepares-run

nothing_next : next_request ops digest_of (caught_up ops digest_of old 1 asked) ≡ none
unfolding next_request keep_old keep_request lookup insert
nothing_next = refl

handle_send_old_seq_example :
    (q : PbftNode ℕ) × (handle_send_old_seq ops digest_of old asked ≡ ok (some (q, [])))
    × (q.sequence_id ≡ (1 + 1) % 2 ^ 64)
    × (q.ask_for_lock ≡ false)
    × All (λ r. has_key (digest_of r) q.request_pool ≡ true) (request ∷ [])
    × All
        (λ r.
          (c : ℕ × ℕ)
          → (q' : PbftNode ℕ) × (handle_commit ops digest_of (late ops digest_of (digest_of r) c) q
              ≡ ok (some (q', [])))
            × (q'.ihm ≡ q.ihm)
            × (q'.sequence_id ≡ q.sequence_id))
        (request ∷ [])
handle_send_old_seq_example =
    handle_send_old_seq_lem ops digest_of old asked 1 refl refl nothing_next
