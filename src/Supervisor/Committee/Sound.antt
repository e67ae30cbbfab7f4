-- ===== src/Supervisor/Committee/Sound.antt =====
-- The committee's graph and map stay sound, supervisor/committee/committee_clpa.go.
use aster.Prelude.{
  ℕ, ◌^◌, ◌<◌, ◌≤◌, ◌≡◌, refl, ap, sym, subst, ◌∙◌, true, false, some, List, [], ◌∷◌, Bytes,
  bytes_eq, nat_eq, ◌==◌, Map, lookup, insert, All, All-insert, ok, arith, Bool-cases, inl, inr,
  ltb, has_key, count,
}
use aster.Prelude.Int.{ℤ, pos, int_eq}
use aster.Core.Transaction.{Transaction}
use aster.Message.BlockInfo.{BlockInfoMsg}
use aster.Partition.Graph.{Vertex}
use aster.Partition.Arrays.{tabulate}
use aster.Partition.Edges.{joined}
use aster.Partition.Clpa.{Floats, ClpaState}
use aster.Partition.Counts.{IsHome, zeros-tabulate}
use aster.Partition.Population.{population, IsHome-insert}
use aster.Partition.Outcome.{IsReady, clpa_partition_lem}
use aster.Partition.Members.{empty-IsHome, vertices, homes, homes-insert}
use aster.Partition.Building.{init_clpa_state, IsBuilt, IsAddressed, add_edge-IsBuilt}
use aster.Supervisor.Signal.{StopSignal}
use aster.Supervisor.Committee.{
  new_clpa_committee, ClpaCommittee, Order, to_int, update_map, place_all, clpa_map_send, new_clpa,
  clpa_reset, repartition, add_edges, handle_block_info,
}

module _ (n : ℕ) where
  abbrev pub IsBelow : Map Bytes ℕ → Type 0
  IsBelow m = All (λ e. e.1 < n) m

  update_map-IsBelow :
      (mmap m : Map Bytes ℕ) → IsBelow mmap → IsBelow m → IsBelow (update_map mmap m)
  unfolding update_map
  update_map-IsBelow [] m tt old = old
  update_map-IsBelow ((key, val) ∷ rest) m (here, more) old =
      update_map-IsBelow rest (insert key val m) more (All-insert (λ e. e.1 < n) key val m here old)

  pub lookup-IsBelow :
      (key : Bytes) (val : ℕ) (m : Map Bytes ℕ) → IsBelow m → lookup key m ≡ some val → val < n
  unfolding lookup
  lookup-IsBelow key val [] below found = absurd (ground (arith, found))
  lookup-IsBelow key val ((i, v) ∷ m) (here, more) found = elim (Bool-cases (key == i)) [
    | inl same ↦ ground (arith, same, found, here)
    | inr other ↦ lookup-IsBelow key val m more (rw other at found)
  ]

  place_all-IsHome :
      (mm : Map Bytes ℕ) (m : Map Vertex ℤ)
      → n ≤ 2 ^ 63
      → IsBelow mm
      → IsHome n m (homes m)
      → IsHome n (place_all mm m) (homes (place_all mm m))
  unfolding place_all
  place_all-IsHome [] m fits tt placed = placed
  place_all-IsHome ((key, val) ∷ rest) m fits (here, more) placed =
      let small : ltb val (2 ^ 63) ≡ true = ground (arith, fits, here) in
      place_all-IsHome rest (insert key (to_int val) m) fits more (
        rw small (
          subst (IsHome n (insert key (pos val) m)) (sym (homes-insert key val m))
            (IsHome-insert n m (homes m) key val placed here)))

  -- A transaction between two different addresses that have a shard.
  abbrev pub IsEdge : Transaction → Type 0
  IsEdge tx =
      IsAddressed n n tx.sender
      × IsAddressed n n tx.recipient
      × ((tx.sender == tx.recipient) ≡ false)

module _ {F : Floats} (n : ℕ) where
  new_clpa-IsBuilt :
      (m : Map Vertex ℤ)
      → IsHome n m (homes m)
      → IsBuilt n n [] (record (new_clpa {F = F} n) { partition_map = m })
  unfolding new_clpa init_clpa_state joined count has_key lookup
  new_clpa-IsBuilt m placed = record {
    shards = refl;
    graph = refl;
    placed = placed;
    members = zeros-tabulate n;
    single = λ v. refl;
  }

  -- The values of the committee's map are shards, and its graph was built from edges none of which is
  -- from a vertex to itself.
  pub record IsSound (ccm : ClpaCommittee F) : Type 0 where
    pub below : IsBelow n ccm.modified_map
    pub es : List (Vertex × Vertex)
    pub built : IsBuilt n n es ccm.clpa_graph
    pub proper : All (λ e. (e.0 == e.1) ≡ false) es

  pub clpa_reset-IsSound :
      (ccm : ClpaCommittee F)
      → 0 < n
      → n ≤ 2 ^ 63
      → IsBelow n ccm.modified_map
      → IsSound (clpa_reset n ccm)
  unfolding clpa_reset
  clpa_reset-IsSound ccm some_shard fits below = record {
    below = below;
    es = [];
    built =
        new_clpa-IsBuilt (place_all ccm.modified_map [])
          (place_all-IsHome n ccm.modified_map [] fits below (empty-IsHome n some_shard));
    proper = tt;
  }

  abbrev IsGrown : ClpaState F → Type 0
  IsGrown cs =
      (es : List (Vertex × Vertex)) × IsBuilt n n es cs × All (λ e. (e.0 == e.1) ≡ false) es

  add_edges-IsGrown :
      (txs : List Transaction) (cs : ClpaState F)
      → All (IsEdge n) txs
      → IsGrown cs
      → (cs' : ClpaState F) × (add_edges n txs cs ≡ ok cs') × IsGrown cs'
  unfolding add_edges
  add_edges-IsGrown [] cs _ grown = (cs, refl, grown)
  add_edges-IsGrown (tx ∷ txs) cs ((from, to, apart), more) (es, built, proper) =
      let (cs1, added, built1) = add_edge-IsBuilt n n es tx.sender tx.recipient cs from to built in
      let (cs2, done, grown) =
        add_edges-IsGrown txs cs1 more ((tx.sender, tx.recipient) ∷ es, built1, (apart, proper)) in
      (cs2, rw added done, grown)

  pub handle_block_info-IsSound :
      (b : BlockInfoMsg) (ccm : ClpaCommittee F)
      → All (IsEdge n) b.excuted_txs
      → IsSound ccm
      → (ccm' : ClpaCommittee F) × (handle_block_info n b ccm ≡ ok ccm')
        × IsSound ccm'
        × (ccm'.now_data_num ≡ ccm.now_data_num)
  unfolding handle_block_info
  handle_block_info-IsSound b ccm fit sound = elim (Bool-cases (b.block_body_length == pos 0)) [
    | inl blank ↦ (ccm, rw blank refl, sound, refl)
    | inr full ↦
        let (cs, done, (es, built, proper)) =
          add_edges-IsGrown b.excuted_txs ccm.clpa_graph fit
            (sound.es, sound.built, sound.proper) in
        (
          record ccm { clpa_graph = cs },
          rw (full, done) refl,
          record { below = sound.below; es = es; built = built; proper = proper },
          refl,
        )
  ]

  -- The committee's graph is ready to be partitioned.
  IsSound-IsReady :
      (ccm : ClpaCommittee F) (sound : IsSound ccm)
      → IsReady sound.es
          (vertices ccm.clpa_graph.net_graph)
          (homes ccm.clpa_graph.partition_map)
          ccm.clpa_graph
  IsSound-IsReady ccm sound =
      let m = ccm.clpa_graph.partition_map in
      let shards = sym sound.built.shards in
      let home = homes m in
      let nums : ℕ → ℤ = λ k. pos (population home k (vertices ccm.clpa_graph.net_graph)) in
      record {
        graph = sound.built.graph;
        proper = sound.proper;
        placed = subst (λ k. IsHome k m (homes m)) shards sound.built.placed;
        members = sound.built.members ∙ ap (λ k. tabulate k nums) shards;
      }

  pub repartition-IsSound :
      (order : Order) (finished : ℕ) (ccm : ClpaCommittee F)
      → 0 < n
      → n ≤ 2 ^ 63
      → ((i : ℕ)
          → All
              (λ x. count x (vertices ccm.clpa_graph.net_graph) ≡ 1)
              (order ccm.clpa_graph.net_graph i))
      → IsSound ccm
      → (ccm' : ClpaCommittee F) × (mmap : Map Bytes ℕ) × (repartition n order finished ccm
          ≡ ok (ccm', clpa_map_send 0 n mmap))
        × IsBelow n mmap
        × IsSound ccm'
        × (ccm'.now_data_num ≡ ccm.now_data_num)
  unfolding repartition clpa_reset
  repartition-IsSound order finished ccm some_shard fits once sound =
      let cs = ccm.clpa_graph in
      let (cs', mmap, home', done, placed, ends, members, alive, moves, res_in) =
        clpa_partition_lem (order cs.net_graph) sound.es (vertices cs.net_graph)
          (homes cs.partition_map) cs 0 [] once (IsSound-IsReady ccm sound) in
      let mmap_in : IsBelow n mmap =
        subst (λ k. All (λ e. e.1 < k) mmap) sound.built.shards res_in in
      let ccm' = record ccm { clpa_graph = cs'; modified_map = update_map mmap ccm.modified_map } in
      let reset =
        clpa_reset-IsSound ccm' some_shard fits
          (update_map-IsBelow n mmap ccm.modified_map mmap_in sound.below) in
      (
        record (clpa_reset n ccm') { clpa_last_running_time = finished },
        mmap,
        rw done refl,
        mmap_in,
        record { below = reset.below; es = reset.es; built = reset.built; proper = reset.proper },
        refl,
      )

  pub new_clpa_committee-IsSound :
      (ss : StopSignal) (data_num batch_num clpa_frequency : ℕ)
      → 0 < n
      → IsSound (new_clpa_committee n ss data_num batch_num clpa_frequency)
  unfolding new_clpa_committee
  new_clpa_committee-IsSound ss data_num batch_num clpa_frequency some_shard = record {
    below = tt;
    es = [];
    built = new_clpa-IsBuilt [] (empty-IsHome n some_shard);
    proper = tt;
  }
