-- ===== src/Chain/Rollback.antt =====
-- chain/blockchain_rollback.go: whether a block that came late replaces one of the chain.
use aster.Prelude.{
  ℕ, zero, suc, ◌+◌, ◌-◌, ◌^◌, ◌≤◌, ◌<◌, ◌≡◌, ◌≢◌, sym, ◌∙◌, inl, inr, true, false, some, [], Bytes,
  Map, ok, nat_eq, bytes_eq, ◌==◌, if◌then◌else◌, lookup, insert, ltb, arith, Bool-cases, eq_of_beq,
  subst,
}
use aster.Core.Block.{BitSets, Block, BlockCodec}
use aster.Storage as Store
use aster.Storage.{Storage}
use aster.Chain.{
  BlockChain, walk_back, wins, replace_top, judge_fork_valid_roll_back,
  judge_fork_valid_roll_back_with_map,
}
use aster.Chain.Growth.{IsNext, Linked, IsLinked, add_block_next}

module _ (bits : BitSets) (codec : BlockCodec bits) where
  -- A block of height `n` that the store has, and the one below it.
  pub record IsOn (s : Storage) (n : ℕ) (old below : Block bits) : Type 0 where
    pub height : old.header.number ≡ n
    pub stored : Store.get_block bits codec old.hash s ≡ ok (some old)
    pub parent : Store.get_block bits codec old.header.parent_block_hash s ≡ ok (some below)
    pub parent_hash : below.hash ≡ old.header.parent_block_hash
    pub parent_height : below.header.number + 1 ≡ n

  -- The block that stands so many blocks below the top of the chain, whose hash is given.
  pub data IsBelow (s : Storage) (old : Block bits) : ℕ → Bytes → Type 0 where
    top : {h : Bytes} → Store.get_block bits codec h s ≡ ok (some old) → IsBelow s old 0 h
    lower :
        {n : ℕ} {h : Bytes} (b : Block bits)
        → Store.get_block bits codec h s ≡ ok (some b)
        → IsBelow s old n b.header.parent_block_hash
        → IsBelow s old (suc n) h

  Linked-block :
      (s : Storage) (n : ℕ) (h : Bytes)
      → Linked bits codec s n h
      → (b : Block bits) × (Store.get_block bits codec h s ≡ ok (some b))
        × (b.hash ≡ h)
        × (b.header.number ≡ n)
  unfolding Linked
  Linked-block s zero h (b, got, same, num) = (b, got, same, num)
  Linked-block s (suc n) h (b, got, same, num, rest) = (b, got, same, num)

  -- On a linked chain the walk from the top finds the block of every height but 0, with fuel for
  -- one more round than the height.
  walk_back_lem :
      (fuel target n : ℕ) (h : Bytes) (s : Storage)
      → Linked bits codec s n h
      → 0 < target
      → target ≤ n
      → n < fuel
      → (old : Block bits) × (below : Block bits) × (walk_back bits codec fuel target n h s
          ≡ ok (some old))
        × IsOn s target old below
        × IsBelow s old (n - target) h
  unfolding walk_back Linked
  walk_back_lem zero target n h s linked low high enough = absurd (omega (arith, enough))
  walk_back_lem (suc fuel) target zero h s linked low high enough =
      absurd (omega (arith, low, high))
  walk_back_lem (suc fuel) target (suc n) h s (b, got, same, num, rest) low high enough =
      elim (Bool-cases (suc n == target)) [
        | inl here ↦
            let (below, got', same', num') = Linked-block s n b.header.parent_block_hash rest in
            let level : suc n ≡ target = eq_of_beq (suc n) target here in
            let depth : 0 ≡ suc n - target = omega (arith, level) in
            let top : (target == 0) ≡ false = ground arith in
            (
              b,
              below,
              rw (got, here, top, walk_back),
              record {
                height = num ∙ level;
                stored = subst (λ k. Store.get_block bits codec k s ≡ ok (some b)) (sym same) got;
                parent = got';
                parent_hash = same';
                parent_height = omega (arith, num', level);
              },
              subst (λ d. IsBelow s b d h) depth (IsBelow.top got),
            )
        | inr there ↦
            let lower : target ≤ n = ground arith in
            let (old, below, walked, on, chained) =
              walk_back_lem fuel target n b.header.parent_block_hash s rest low lower
                (omega arith) in
            let back : suc n - 1 ≡ n = omega arith in
            let depth : suc (n - target) ≡ suc n - target = omega (arith, lower) in
            (
              old,
              below,
              rw (got, there, back, walk_back) walked,
              on,
              subst (λ d. IsBelow s old d h) depth (IsBelow.lower b got chained),
            )
      ]

  replace_top_lem :
      (b p : Block bits) (bc : BlockChain bits)
      → b.header.parent_block_hash ≡ p.hash
      → p.header.number + 1 ≡ b.header.number
      → b.header.number < 2 ^ 64
      → b.hash ≢ []
      → replace_top bits codec p b bc
        ≡ ok (record bc { current_block = b; storage = Store.added bits codec b bc.storage }, true)
  unfolding replace_top
  replace_top_lem b p bc parent height small ne =
      let next : IsNext bits codec b (record bc { current_block = p }) = record {
        height = omega arith;
        parent = parent;
      } in
      rw (add_block_next bits codec b (record bc { current_block = p }) next ne)

  wins-parent :
      (b old : Block bits)
      → wins bits codec b old ≡ true
      → b.header.parent_block_hash ≡ old.header.parent_block_hash
  unfolding wins
  wins-parent b old h =
      eq_of_beq b.header.parent_block_hash old.header.parent_block_hash (ground arith)

  -- On a linked chain `JudgeForkValid_RollBack` ends, for a block of a height from 1 to that of the
  -- chain and with a hash: it compares the block with the chain's one of that height, which stands as
  -- many blocks below the top as the heights differ, and replaces
  -- the top of the chain by the block if the two have one parent and the block the smaller hash, and
  -- only then. Otherwise nothing changes.
  pub judge_fork_valid_roll_back_lem :
      (b : Block bits) (bc : BlockChain bits)
      → IsLinked bits codec bc
      → 0 < b.header.number
      → b.header.number ≤ bc.current_block.header.number
      → bc.current_block.header.number < 2 ^ 64
      → b.hash ≢ []
      → (old : Block bits) × (below : Block bits) × IsOn bc.storage b.header.number old below
        × IsBelow bc.storage old
            (bc.current_block.header.number - b.header.number)
            bc.current_block.hash
        × (judge_fork_valid_roll_back bits codec b bc ≡ (
            if wins bits codec b old
            then ok (
              record bc { current_block = b; storage = Store.added bits codec b bc.storage },
              true,
            )
            else ok (bc, false)))
  unfolding judge_fork_valid_roll_back
  judge_fork_valid_roll_back_lem b bc link low high small ne =
      let n = bc.current_block.header.number in
      let (old, below, walked, on, chained) =
        walk_back_lem (n + 2) b.header.number n bc.current_block.hash bc.storage link.linked low
          high (omega arith) in
      let not_above : ltb n b.header.number ≡ false = ground arith in
      (
        old,
        below,
        on,
        chained,
        elim (Bool-cases (wins bits codec b old)) [
          | inr loses ↦ rw (not_above, walked) (rw loses)
          | inl won ↦
              let same = wins-parent b old won in
              let parent =
                subst (λ k. Store.get_block bits codec k bc.storage ≡ ok (some below)) (sym same)
                  on.parent in
              rw (not_above, walked)
                (rw won (
                  rw parent (
                    replace_top_lem b below bc (same ∙ sym on.parent_hash) on.parent_height
                      (omega arith) ne)))
        ],
      )

  -- `JudgeForkValid_RollBack_withMap`, when the maps have the block of that height and the parent,
  -- one lower: the same, and the map of heights then leads to the block.
  pub judge_fork_valid_roll_back_with_map_lem :
      (b old below : Block bits) (heights : Map ℕ Bytes) (blocks : Map Bytes (Block bits))
      (bc : BlockChain bits) (h : Bytes)
      → b.header.number ≤ bc.current_block.header.number
      → lookup b.header.number heights ≡ some h
      → lookup h blocks ≡ some old
      → lookup b.header.parent_block_hash blocks ≡ some below
      → below.hash ≡ b.header.parent_block_hash
      → below.header.number + 1 ≡ b.header.number
      → b.header.number < 2 ^ 64
      → b.hash ≢ []
      → judge_fork_valid_roll_back_with_map bits codec b heights blocks bc ≡ (
          if wins bits codec b old
          then ok (
            record bc { current_block = b; storage = Store.added bits codec b bc.storage },
            insert b.header.number b.hash heights,
            true,
          )
          else ok (bc, heights, false))
  unfolding judge_fork_valid_roll_back_with_map
  judge_fork_valid_roll_back_with_map_lem b old below heights blocks bc h high at_height known
        parent same height small ne =
      let not_above : ltb bc.current_block.header.number b.header.number ≡ false = ground arith in
      elim (Bool-cases (wins bits codec b old)) [
        | inr loses ↦ rw (not_above, at_height) (rw known (rw loses))
        | inl won ↦
            rw (not_above, at_height)
              (rw known
                (rw won (rw parent (rw (replace_top_lem b below bc (sym same) height small ne)))))
      ]
