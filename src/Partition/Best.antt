-- ===== src/Partition/Best.antt =====
-- The choice of the best shard in `CLPA_Partition`, partition/partition_CLPA.go.
use aster.Prelude.{
  ℕ, ◌<◌, ◌≡◌, refl, List, [], ◌∷◌, bytes_eq, nat_eq, ok, arith, Bool-cases, inl, inr, insert,
  has_key, Result-cases,
}
use aster.Prelude.Int.{ℤ, pos, int_eq}
use aster.Partition.Graph.{Vertex}
use aster.Partition.Arrays.{at, tabulate, at-tabulate}
use aster.Partition.Clpa.{ClpaState, Floats}
use aster.Partition.Propagation.{Best, get_shard_score, weigh, weigh_all}
use aster.Partition.Counts.{IsHome}

module _ {F : Floats} where
  get_shard_score-ok :
      (v : Vertex) (i : ℕ) (cs : ClpaState F) (f : ℕ → ℤ)
      → cs.edges2_shard ≡ tabulate cs.shard_num f
      → i < cs.shard_num
      → (score : F.Float) × (get_shard_score v (pos i) cs ≡ ok score)
  unfolding get_shard_score
  get_shard_score-ok v i cs f e i_in =
      let found : at cs.edges2_shard (pos i) ≡ ok (f i) =
        rw e (at-tabulate cs.shard_num i f i_in) in
      elim (Result-cases (get_shard_score v (pos i) cs)) [
        | inl failed ↦ ground (arith, found, failed)
        | inr got ↦ got
      ]

  -- The best shard so far is a shard.
  abbrev pub BestIn : ℕ → Best F → Type 0
  BestIn n b = (j : ℕ) × (b.max_score_shard ≡ pos j) × (j < n)

  weigh-BestIn :
      (v : Vertex) (cs : ClpaState F) (f : ℕ → ℤ) (i : ℕ) (b : Best F)
      → cs.edges2_shard ≡ tabulate cs.shard_num f
      → i < cs.shard_num
      → BestIn cs.shard_num b
      → (b' : Best F) × (weigh v cs (pos i) b ≡ ok b') × BestIn cs.shard_num b'
  unfolding weigh
  weigh-BestIn v cs f i b e i_in best = elim (Bool-cases (has_key (pos i) b.scores)) [
    | inl old ↦ (b, rw old refl, best)
    | inr new ↦
        let (score, scored) = get_shard_score-ok v i cs f e i_in in
        let scores = insert (pos i) score b.scores in
        elim (Bool-cases (F.ltb_float b.max_score score)) [
          | inl better ↦ (
            record { scores = scores; max_score = score; max_score_shard = pos i },
            rw (new, scored, better) refl,
            (i, refl, i_in),
          )
          | inr worse ↦ (record b { scores = scores }, rw (new, scored, worse) refl, best)
        ]
  ]

  pub weigh_all-BestIn :
      (v : Vertex) (cs : ClpaState F) (f : ℕ → ℤ) (home : Vertex → ℕ) (us : List Vertex)
      (b : Best F)
      → cs.edges2_shard ≡ tabulate cs.shard_num f
      → IsHome cs.shard_num cs.partition_map home
      → BestIn cs.shard_num b
      → (b' : Best F) × (weigh_all v cs us b ≡ ok b') × BestIn cs.shard_num b'
  unfolding weigh_all
  weigh_all-BestIn v cs f home [] b e placed best = (b, refl, best)
  weigh_all-BestIn v cs f home (u ∷ us) b e placed best =
      let (b1, once, best1) = weigh-BestIn v cs f (home u) b e (placed u).1 best in
      let (b2, rest, best2) = weigh_all-BestIn v cs f home us b1 e placed best1 in
      (b2, rw ((placed u).0, once) rest, best2)
