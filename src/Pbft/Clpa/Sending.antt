-- ===== src/Pbft/Clpa/Sending.antt =====
-- The loop over the shards in `sendAccounts_and_Txs`, consensus_shard/pbft_all/accountTransfer_module.go.
use aster.Prelude.{
  ℕ, zero, suc, ◌+◌, ◌≡◌, refl, ap, sym, ◌∙◌, false, not, ◌&&◌, List, [], ◌∷◌, ◌++◌, Bytes, Map, ok,
  nat_eq, bytes_eq, ◌==◌, if◌then◌else◌, filter, All, contains, length, arith, Bool-cases, inl, inr,
  append-nil, nat_beq_iff, filter-filter, filter_ext, filter_all,
}
use mathlib.Core.Path.{fun_ext}
use aster.Core.Transaction.{Transaction}
use aster.Core.Account.{AccountState}
use aster.Pbft.Clpa.{AccountStateAndTx}
use aster.Pbft.Clpa.Transfer.{TransferOut, fetch_txs, send_to_shards}
use aster.Pbft.Clpa.Moves.{
  IsAccepted, goes_to-dest, owner, txs_to, addrs_to, fetch_txs_lem, dest, goes_to, accounts_for_lem,
  is_sent-goes_to, is_served, stays, served_later, served_now, not_again, own_skipped, stays_on,
}

module _ (m : Map Bytes ℕ) (to_fetch : List Bytes) (shard_id : ℕ) where
  abbrev pub IsSplit : ℕ → ℕ → List AccountState → List Transaction → ℕ → Type 0
  IsSplit i n states queue sid =
      (out : List TransferOut) × (send_to_shards i n shard_id m to_fetch states queue
        ≡ ok (filter (stays m to_fetch shard_id i n) queue, out))
      × (txs_to sid out ≡ (
          if is_served m to_fetch shard_id i n sid
          then filter (goes_to m to_fetch sid) queue
          else []))
      × (addrs_to sid out ≡ (
          if is_served m to_fetch shard_id i n sid
          then filter (λ k. dest m to_fetch k == sid) to_fetch
          else []))
      × All (IsAccepted m) out

  -- What is left for a later shard after the round of shard `i`.
  later_txs :
      (i sid : ℕ) (queue : List Transaction)
      → (i == sid) ≡ false
      → filter (goes_to m to_fetch sid) (filter (λ tx. not (goes_to m to_fetch i tx)) queue)
        ≡ filter (goes_to m to_fetch sid) queue
  later_txs i sid queue apart =
      filter-filter (goes_to m to_fetch sid) (λ tx. not (goes_to m to_fetch i tx)) queue
      ∙ filter_ext (λ tx. not (goes_to m to_fetch i tx) && goes_to m to_fetch sid tx)
          (goes_to m to_fetch sid) queue (λ tx. ground (arith, apart))

  left_after :
      (i n : ℕ) (queue : List Transaction)
      → (i == shard_id) ≡ false
      → filter
          (stays m to_fetch shard_id (i + 1) n)
          (filter (λ tx. not (goes_to m to_fetch i tx)) queue)
        ≡ filter (stays m to_fetch shard_id i (suc n)) queue
  left_after i n queue other =
      filter-filter (stays m to_fetch shard_id (i + 1) n) (λ tx. not (goes_to m to_fetch i tx))
        queue
      ∙ filter_ext (λ tx. not (goes_to m to_fetch i tx) && stays m to_fetch shard_id (i + 1) n tx)
          (stays m to_fetch shard_id i (suc n)) queue
          (λ tx. stays_on m to_fetch shard_id i n tx other)

  -- The round's two parts of the queue.
  round_txs :
      (i : ℕ) (queue : List Transaction)
      → fetch_txs (filter (λ k. dest m to_fetch k == i) to_fetch) queue
        ≡ (filter (goes_to m to_fetch i) queue, filter (λ tx. not (goes_to m to_fetch i tx)) queue)
  round_txs i queue =
      let ads = filter (λ k. dest m to_fetch k == i) to_fetch in
      fetch_txs_lem ads queue
      ∙ ap (λ p. (filter p queue, filter (λ tx. not (p tx)) queue))
          (fun_ext (λ tx. is_sent-goes_to m to_fetch i tx))

  -- The part of the shard `i` and those of the later ones.
  all_parts :
      {A : Type 0} (f : ℕ → List A) (g rest : List A) (i n sid : ℕ)
      → (i == shard_id) ≡ false
      → rest ≡ (if is_served m to_fetch shard_id (i + 1) n sid then g else [])
      → ((i == sid) ≡ false → g ≡ f sid)
      → (if i == sid then f i else []) ++ rest
        ≡ (if is_served m to_fetch shard_id i (suc n) sid then f sid else [])
  all_parts f g rest i n sid other h later = elim (Bool-cases (i == sid)) [
    | inl same ↦
        let e : i ≡ sid = (nat_beq_iff i sid).0 same in
        rw
          (
            h,
            not_again m to_fetch shard_id i n sid same,
            served_now m to_fetch shard_id i n sid same other,
            same,
          )
          (append-nil (f i) ∙ ap f e)
    | inr apart ↦ rw (h, served_later m to_fetch shard_id i n sid apart, apart, later apart) refl
  ]

  none_served : (i sid : ℕ) → is_served m to_fetch shard_id i 0 sid ≡ false
  none_served i sid = ground arith

  pub send_to_shards-IsSplit :
      (i n sid : ℕ) (states : List AccountState) (queue : List Transaction)
      → length states ≡ length to_fetch
      → IsSplit i n states queue sid
  unfolding send_to_shards
  send_to_shards-IsSplit i zero sid states queue h =
      let all =
        filter_all (stays m to_fetch shard_id i 0) queue
          (λ tx. rw (none_served i (dest m to_fetch (owner tx))) (ground arith)) in
      (
        [],
        ap (λ q. ok (q, [])) (sym all),
        rw (none_served i sid) refl,
        rw (none_served i sid) refl,
        tt,
      )
  send_to_shards-IsSplit i (suc n) sid states queue h = elim (Bool-cases (i == shard_id)) [
    | inl own ↦
        let (out, done, txs, ads, fit) = send_to_shards-IsSplit (i + 1) n sid states queue h in
        (
          out,
          rw (own, done)
              (ap (λ q. ok (q, out))
                (filter_ext (stays m to_fetch shard_id (i + 1) n)
                  (stays m to_fetch shard_id i (suc n)) queue
                  (λ tx.
                    ap (λ b. not (contains to_fetch (owner tx) && b))
                      (own_skipped m to_fetch shard_id i n (dest m to_fetch (owner tx)) own)))),
          rw (txs, own_skipped m to_fetch shard_id i n sid own) refl,
          rw (ads, own_skipped m to_fetch shard_id i n sid own) refl,
          fit,
        )
    | inr other ↦
        let queue' = filter (λ tx. not (goes_to m to_fetch i tx)) queue in
        let (sts, picked, len) = accounts_for_lem m to_fetch i to_fetch states h in
        let (out, done, txs, ads, fit) = send_to_shards-IsSplit (i + 1) n sid states queue' h in
        let mine = filter (λ k. dest m to_fetch k == i) to_fetch in
        let at : AccountStateAndTx = record {
          addrs = mine;
          account_state = sts;
          txs = filter (goes_to m to_fetch i) queue;
          from_shard = shard_id;
        } in
        (
          TransferOut.account_state_and_tx i at ∷ out,
          rw (other, picked, round_txs i queue, done)
              (ap (λ q. ok (q, TransferOut.account_state_and_tx i at ∷ out))
                (left_after i n queue other)),
          all_parts (λ k. filter (goes_to m to_fetch k) queue)
              (filter (goes_to m to_fetch sid) queue') (txs_to sid out) i n sid other txs
              (later_txs i sid queue),
          all_parts (λ k. filter (λ a. dest m to_fetch a == k) to_fetch)
              (filter (λ a. dest m to_fetch a == sid) to_fetch) (addrs_to sid out) i n sid other ads
              (λ apart. refl),
          ((len, goes_to-dest m to_fetch i queue), fit),
        )
  ]
