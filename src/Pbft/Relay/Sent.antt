-- ===== src/Pbft/Relay/Sent.antt =====
-- What the main node sends after a commit, in consensus_shard/pbft_all/pbftInside_module.go: the
-- relay messages to a shard and the reports.
use aster.Prelude.{
  ℕ, zero, suc, ◌+◌, ◌≡◌, ◌<◌, refl, ap, not, ◌&&◌, List, [], ◌∷◌, ◌++◌, Map, nat_eq, bytes_eq,
  ◌==◌, if◌then◌else◌, lookup_or, ltb, leb, arith,
}
use aster.Core.Transaction.{Transaction}
use aster.Pbft.Relay.{RelayMsg, RelayOut, BlockInfoMsg, relay_messages}

-- The relay messages to a shard among what is sent.
abbrev pub sent_to : ℕ → List RelayOut → List RelayMsg
sent_to t [] = []
sent_to t (RelayOut.relay s m ∷ out) = if s == t then m ∷ sent_to t out else sent_to t out
sent_to t (RelayOut.block_info i ∷ out) = sent_to t out

-- The reports among what is sent.
abbrev pub infos : List RelayOut → List BlockInfoMsg
infos [] = []
infos (RelayOut.relay s m ∷ out) = infos out
infos (RelayOut.block_info i ∷ out) = i ∷ infos out

pub infos-append : (xs ys : List RelayOut) → infos (xs ++ ys) ≡ infos xs ++ infos ys
infos-append [] ys = refl
infos-append (RelayOut.relay s m ∷ xs) ys = infos-append xs ys
infos-append (RelayOut.block_info i ∷ xs) ys = ap (λ is. i ∷ is) (infos-append xs ys)

pub infos-relay_messages :
    (n sid own seq : ℕ) (m : Map ℕ (List Transaction)) → infos (relay_messages n sid own seq m) ≡ []
unfolding relay_messages
infos-relay_messages zero sid own seq m = refl
infos-relay_messages (suc n) sid own seq m =
    ground (arith, infos-relay_messages n (sid + 1) own seq m)

pub sent_to-append :
    (t : ℕ) (xs ys : List RelayOut) → sent_to t (xs ++ ys) ≡ sent_to t xs ++ sent_to t ys
sent_to-append t [] ys = refl
sent_to-append t (RelayOut.relay s m ∷ xs) ys = ground (arith, sent_to-append t xs ys)
sent_to-append t (RelayOut.block_info i ∷ xs) ys = sent_to-append t xs ys

-- The relay message to shard `t`, from the relay map.
abbrev pub relay_of : ℕ → ℕ → ℕ → Map ℕ (List Transaction) → RelayMsg
relay_of t own seq m = record { txs = lookup_or [] t m; sender_shard_id = own; sender_seq = seq }

sent_to-relay_messages :
    (t n sid own seq : ℕ) (m : Map ℕ (List Transaction))
    → sent_to t (relay_messages n sid own seq m)
      ≡ (if leb sid t && (ltb t (sid + n) && not (t == own)) then relay_of t own seq m ∷ [] else [])
unfolding relay_messages
sent_to-relay_messages t zero sid own seq m = ground arith
sent_to-relay_messages t (suc n) sid own seq m =
    ground (arith, sent_to-relay_messages t n (sid + 1) own seq m)

pub sent_to-all_relays :
    (t n own seq : ℕ) (m : Map ℕ (List Transaction))
    → t < n
    → sent_to t (relay_messages n 0 own seq m)
      ≡ (if t == own then [] else relay_of t own seq m ∷ [])
sent_to-all_relays t n own seq m below = ground (arith, sent_to-relay_messages t n 0 own seq m)
