-- ===== src/Supervisor/Committee/Traffic.antt =====
-- The messages that the committee of supervisor/committee/committee_clpa.go has sent, as numbers of
-- transactions and as maps.
use aster.Prelude.{
  ℕ, zero, suc, ◌+◌, ◌≡◌, refl, Bool, true, false, List, [], ◌∷◌, ◌++◌, Bytes, bytes_eq, nat_eq,
  Map, All, if◌then◌else◌, arith, length,
}
use aster.Prelude.Int.{int_eq}
use aster.Supervisor.Sending.{InjectTxs}
use aster.Supervisor.Sending.Totals.{injected}
use aster.Supervisor.Committee.{Sent, send_all, clpa_map_send}

pub chosen {ℓ} : {A : Type ℓ} (b : Bool) (x y : A) → b ≡ true → (if b then x else y) ≡ x
chosen b x y h = rw h refl

pub refused {ℓ} : {A : Type ℓ} (b : Bool) (x y : A) → b ≡ false → (if b then x else y) ≡ y
refused b x y h = rw h refl

-- The transactions that were injected, and the maps that were sent.
abbrev pub txs_in : List Sent → ℕ
txs_in [] = 0
txs_in (Sent.inject it ∷ ss) = length it.txs + txs_in ss
txs_in (Sent.partition_modified i m ∷ ss) = txs_in ss

abbrev pub maps_in : List Sent → List (Map Bytes ℕ)
maps_in [] = []
maps_in (Sent.inject it ∷ ss) = maps_in ss
maps_in (Sent.partition_modified i m ∷ ss) = m ∷ maps_in ss

pub txs_in-append : (ss ts : List Sent) → txs_in (ss ++ ts) ≡ txs_in ss + txs_in ts
txs_in-append [] ts = omega arith
txs_in-append (Sent.inject it ∷ ss) ts = omega (arith, txs_in-append ss ts)
txs_in-append (Sent.partition_modified i m ∷ ss) ts = txs_in-append ss ts

pub txs_in-send_all : (its : List InjectTxs) → txs_in (send_all its) ≡ injected its
unfolding send_all
txs_in-send_all [] = refl
txs_in-send_all (it ∷ its) = omega (arith, txs_in-send_all its)

pub txs_in-clpa_map_send : (i n : ℕ) (m : Map Bytes ℕ) → txs_in (clpa_map_send i n m) ≡ 0
unfolding clpa_map_send
txs_in-clpa_map_send i zero m = refl
txs_in-clpa_map_send i (suc n) m = txs_in-clpa_map_send (i + 1) n m

module _ (P : Map Bytes ℕ → Type 0) where
  pub maps_in-append :
      (ss ts : List Sent) → All P (maps_in ss) → All P (maps_in ts) → All P (maps_in (ss ++ ts))
  maps_in-append [] ts _ hs = hs
  maps_in-append (Sent.inject it ∷ ss) ts gs hs = maps_in-append ss ts gs hs
  maps_in-append (Sent.partition_modified i m ∷ ss) ts (g, gs) hs = (g, maps_in-append ss ts gs hs)

  pub maps_in-send_all : (its : List InjectTxs) → All P (maps_in (send_all its))
  unfolding send_all
  maps_in-send_all [] = tt
  maps_in-send_all (it ∷ its) = maps_in-send_all its

  pub maps_in-clpa_map_send :
      (i n : ℕ) (m : Map Bytes ℕ) → P m → All P (maps_in (clpa_map_send i n m))
  unfolding clpa_map_send
  maps_in-clpa_map_send i zero m h = tt
  maps_in-clpa_map_send i (suc n) m h = (h, maps_in-clpa_map_send (i + 1) n m h)
