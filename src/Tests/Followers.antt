-- ===== src/Tests/Followers.antt =====
-- The followers of consensus_shard/subMPT on two accounts.
use aster.Prelude.{
  inl, inr, ℕ, ◌+◌, ◌≡◌, refl, true, false, some, List, [], ◌∷◌, Bytes, ok, arith, bytes_eq, All,
}
use aster.Prelude.Int.{pos, ◌+ℤ◌}
use aster.Core.Account.{AccountState}
use aster.Core.Transaction.{Transaction}
use aster.Accounts.Reads.{Ledger, Reads}
use aster.SubMpt.Messages.{AllocateTxMsgs, FollowerMsg}
use aster.SubMpt.Routing.{route, prefix, IsRoutable}
use aster.Utils.{hex_digit}
use aster.SubMpt.Follower.{
  FollowerNode, handle_allocated_txs, process_tx, handle_proposer_request,
  handle_proposer_allocate_data,
}
use aster.SubMpt.Follower.Ledger.{execute, execute_all, is_executed}
use aster.SubMpt.Follower.Execution.{timed, process_tx_lem}
use aster.SubMpt.Follower.Batch.{Holds}
use aster.SubMpt.Follower.Conservation.{Distinct, Covers, total, IsSolvent}
use aster.SubMpt.Follower.Money.{
  handle_allocated_txs-total, handle_allocated_txs-IsSolvent, process_tx_unpaid,
}
use aster.SubMpt.Follower.Migration.{overlay, migrate_lem}
use aster.SubMpt.Proposer.Distribution.{goes_to}
use aster.SubMpt.Proposer.Agreement.{handle_dealt_txs}
use aster.Tests.Encodings.{account_codec}
use aster.Tests.Samples.{
  alice, bob, there, back, two, there-IsRoutable, two-IsRoutable, tries, flat, flat-Reads, follower,
  follower-Holds, payment,
}
use aster.Prelude.{filter, contains, bytes_beq}

abbrev msg : AllocateTxMsgs
msg = record { txs = two; proposer_id = 0; follower_id = 0; epoch_id = 2 }

abbrev clock : ℕ → ℕ
clock i = 10 + i

route-there : route 2 there ≡ ok (some (0, 1))
unfolding route prefix hex_digit
route-there = refl

process_tx_example :
    (st' : List (Bytes × Bytes)) × (process_tx tries account_codec (pos 100) 2 0 0 4 [] there
      ≡ ok (st', timed 4 (is_executed 2 0 flat there) there, is_executed 2 0 flat there))
    × Reads tries account_codec (pos 100) st' (execute 2 0 flat there)
process_tx_example =
    process_tx_lem tries account_codec (pos 100) 2 0 0 4 [] flat there there-IsRoutable flat-Reads

-- With one follower, both accounts are its own.
local_there : route 1 there ≡ ok (some (0, 0))
unfolding route prefix hex_digit
local_there = refl

local_back : route 1 back ≡ ok (some (0, 0))
unfolding route prefix hex_digit
local_back = refl

abbrev both : List Bytes
both = alice ∷ bob ∷ []

distinct : Distinct both
unfolding contains bytes_beq
distinct = (refl, (refl, tt))

covers : Covers both two
unfolding contains bytes_beq
covers = (refl, refl, (refl, refl, tt))

-- The only follower, and a batch for it.
abbrev lone : FollowerNode tries
lone = record (follower 0) { follower_num = 1 }

lone-IsRoutable : All (IsRoutable 1) two
lone-IsRoutable = (
  record { followers = ground arith; sender = ground arith; recipient = ground arith },
  (record { followers = ground arith; sender = ground arith; recipient = ground arith }, tt),
)

handle_allocated_txs-total_example :
    (f' : FollowerNode tries) × (sent : List FollowerMsg) × (l' : Ledger) × (handle_allocated_txs
        tries account_codec
        (pos 100)
        clock
        clock
        3
        msg
        lone
      ≡ ok (f', sent))
    × Holds tries account_codec (pos 100) f' l'
    × (total l' both ≡ total flat both)
handle_allocated_txs-total_example =
    handle_allocated_txs-total tries account_codec (pos 100) clock clock 3 msg lone flat both
      lone-IsRoutable ([], refl, flat-Reads) (inr (inl refl)) distinct covers
      (local_there, (local_back, tt))

handle_allocated_txs-IsSolvent_example :
    (f' : FollowerNode tries) × (sent : List FollowerMsg) × (l' : Ledger) × (handle_allocated_txs
        tries account_codec
        (pos 100)
        clock
        clock
        3
        msg
        (follower 0)
      ≡ ok (f', sent))
    × Holds tries account_codec (pos 100) f' l'
    × IsSolvent l'
handle_allocated_txs-IsSolvent_example =
    handle_allocated_txs-IsSolvent tries account_codec (pos 100) clock clock 3 msg (follower 0) flat
      two-IsRoutable (follower-Holds 0) (inr (inl refl)) (omega arith, (omega arith, tt))
      (λ k. omega arith)

-- A payment of more than any account has.
abbrev large : Transaction
large = payment 9 alice bob (pos 500)

route-large : route 2 large ≡ ok (some (0, 1))
unfolding route prefix hex_digit
route-large = refl

large-IsRoutable : IsRoutable 2 large
large-IsRoutable = record {
  followers = ground arith;
  sender = ground arith;
  recipient = ground arith;
}

process_tx_unpaid_example :
    (st1' : List (Bytes × Bytes)) × (st2' : List (Bytes × Bytes)) × (l2' : Ledger) × (process_tx
        tries account_codec
        (pos 100)
        2
        0
        0
        4
        []
        large
      ≡ ok (st1', large, false))
    × Reads tries account_codec (pos 100) st1' flat
    × (process_tx tries account_codec (pos 100) 2 1 0 4 [] large
        ≡ ok (st2', record large { execution_time = 4 }, true))
    × Reads tries account_codec (pos 100) st2' l2'
    × (l2' bob ≡ pos 100 +ℤ pos 500)
process_tx_unpaid_example =
    process_tx_unpaid tries account_codec (pos 100) 2 0 1 0 4 [] [] flat flat large large-IsRoutable
      flat-Reads flat-Reads route-large (ground arith) refl

migrate_example :
    (acs : List AccountState) × (b' : FollowerNode tries) × (handle_proposer_request tries
        account_codec
        (pos 100)
        (record { keys = both })
        (follower 0)
      ≡ ok (
        follower 0,
        FollowerMsg.response_data (record { fid = 0; keys = both; value = acs }) ∷ [],
      ))
    × (handle_proposer_allocate_data tries account_codec
          (pos 100)
          (record { keys = both; value = acs })
          (follower 1)
        ≡ ok (b', FollowerMsg.ready (record { fid = 1 }) ∷ []))
    × Holds tries account_codec (pos 100) b' (overlay flat flat both)
migrate_example =
    migrate_lem tries account_codec (pos 100) (follower 0) (follower 1) flat flat both
      (follower-Holds 0) (follower-Holds 1) (inl refl)

handle_dealt_txs_example :
    (f' : FollowerNode tries) × (sent : List FollowerMsg) × (handle_allocated_txs tries
        account_codec
        (pos 100)
        clock
        clock
        3
        (record { txs = filter (goes_to 2 1) two; proposer_id = 0; follower_id = 1; epoch_id = 2 })
        (follower 1)
      ≡ ok (f', sent))
    × Holds tries account_codec (pos 100) f' (execute_all 2 1 flat two)
handle_dealt_txs_example =
    handle_dealt_txs tries account_codec (pos 100) clock clock 3 0 2 two (follower 1) flat
      two-IsRoutable (follower-Holds 1) (inr (inl refl))
