-- ===== src/Chain/Growth.antt =====
-- `AddBlock` and `GenerateBlock2` of chain/blockchain_MemoryMPT.go: the chain grows block by block.
use aster.Prelude.{
  ℕ, zero, suc, ◌+◌, ◌<◌, ◌%◌, ◌^◌, ◌≡◌, ◌≢◌, refl, sym, inl, inr, true, false, none, some, [],
  Bytes, ok, nat_eq, bytes_eq, ◌==◌, arith, Bool-cases, eq_of_beq, beq_refl, beq_of_eq, subst,
}
use aster.Core.Block.{BitSets, Block, BlockCodec}
use aster.Storage as Store
use aster.Storage.{Storage}
use aster.Chain.{BlockChain, add_block}

module _ (bits : BitSets) (codec : BlockCodec bits) where
  -- The next block of a chain: one higher, on top of the current one.
  pub record IsNext (b : Block bits) (bc : BlockChain bits) : Type 0 where
    pub height : b.header.number ≡ (bc.current_block.header.number + 1) % 2 ^ 64
    pub parent : b.header.parent_block_hash ≡ bc.current_block.hash

  -- From the hash `h` the store leads down, block by block, to one of height 0.
  unfoldable pub Linked : Storage → ℕ → Bytes → Type 0
  Linked s zero h =
      (b : Block bits) × (Store.get_block bits codec h s ≡ ok (some b))
      × (b.hash ≡ h)
      × (b.header.number ≡ 0)
  Linked s (suc n) h =
      (b : Block bits) × (Store.get_block bits codec h s ≡ ok (some b))
      × (b.hash ≡ h)
      × (b.header.number ≡ suc n)
      × Linked s n b.header.parent_block_hash

  -- The current block is on top of a linked chain.
  pub record IsLinked (bc : BlockChain bits) : Type 0 where
    pub stored :
        Store.get_block bits codec bc.current_block.hash bc.storage ≡ ok (some bc.current_block)
    pub linked : Linked bc.storage bc.current_block.header.number bc.current_block.hash

  -- A store that reads the same at every hash it has a block for.
  Keeps : Storage → Storage → Type 0
  Keeps s s' =
      (h : Bytes) (b : Block bits)
      → Store.get_block bits codec h s ≡ ok (some b)
      → Store.get_block bits codec h s' ≡ ok (some b)

  Linked-Keeps : (s s' : Storage) (n : ℕ) (h : Bytes) → Keeps s s' → Linked s n h → Linked s' n h
  unfolding Linked Keeps
  Linked-Keeps s s' zero h k (b, got, same, num) = (b, k h b got, same, num)
  Linked-Keeps s s' (suc n) h k (b, got, same, num, rest) =
      (b, k h b got, same, num, Linked-Keeps s s' n b.header.parent_block_hash k rest)

  -- A block that is not the next one is refused and changes nothing.
  pub add_block_refuses :
      (b : Block bits) (bc : BlockChain bits)
      → ¬ IsNext b bc
      → add_block bits codec (some b) bc ≡ ok (bc, false)
  unfolding add_block
  add_block_refuses b bc other =
      let h = bc.current_block.header.number in
      elim (Bool-cases (b.header.number == (h + 1) % 2 ^ 64)) [
        | inr low ↦ rw low
        | inl high ↦ elim (Bool-cases (b.header.parent_block_hash == bc.current_block.hash)) [
          | inr apart ↦ rw (high, apart)
          | inl joined ↦ absurd (
              other (record {
                height = eq_of_beq b.header.number ((h + 1) % 2 ^ 64) high;
                parent = eq_of_beq b.header.parent_block_hash bc.current_block.hash joined;
              }))
        ]
      ]

  pub add_block_next :
      (b : Block bits) (bc : BlockChain bits)
      → IsNext b bc
      → b.hash ≢ []
      → add_block bits codec (some b) bc
        ≡ ok (record bc { current_block = b; storage = Store.added bits codec b bc.storage }, true)
  unfolding add_block
  add_block_next b bc next ne =
      let h = (bc.current_block.header.number + 1) % 2 ^ 64 in
      let parent = bc.current_block.hash in
      rw (
        beq_of_eq b.header.number h next.height,
        beq_of_eq b.header.parent_block_hash parent next.parent,
        Store.add_block-added bits codec b bc.storage ne,
      )

  Keeps-added :
      (b : Block bits) (s : Storage)
      → Store.get_block bits codec b.hash s ≡ ok none
      → Keeps s (Store.added bits codec b s)
  unfolding Keeps
  Keeps-added b s fresh h c got = elim (Bool-cases (h == b.hash)) [
    | inl same ↦
        let e : h ≡ b.hash = eq_of_beq h b.hash same in
        let gone : Store.get_block bits codec h s ≡ ok none = rw e fresh in cc
    | inr other ↦ rw (Store.get_block-added bits codec b s h, other) got
  ]

  -- The next block, with a hash that is new and not empty, is accepted and becomes the current one;
  -- the chain below it stays linked.
  pub add_block-IsLinked :
      (b : Block bits) (bc : BlockChain bits)
      → IsNext b bc
      → b.hash ≢ []
      → Store.get_block bits codec b.hash bc.storage ≡ ok none
      → bc.current_block.header.number + 1 < 2 ^ 64
      → IsLinked bc
      → (bc' : BlockChain bits) × (add_block bits codec (some b) bc ≡ ok (bc', true))
        × (bc'.current_block ≡ b)
        × IsLinked bc'
  unfolding Linked
  add_block-IsLinked b bc next ne fresh small link =
      let s' = Store.added bits codec b bc.storage in
      let n = bc.current_block.header.number in
      let height : b.header.number ≡ suc n = omega arith in
      let got : Store.get_block bits codec b.hash s' ≡ ok (some b) =
        rw (Store.get_block-added bits codec b bc.storage b.hash, beq_refl b.hash) in
      let below : Linked s' n b.header.parent_block_hash = subst (Linked s' n) (sym next.parent) (
        Linked-Keeps bc.storage s' n bc.current_block.hash (Keeps-added b bc.storage fresh)
          link.linked) in
      let linked : Linked s' b.header.number b.hash =
        subst (λ m. Linked s' m b.hash) (sym height) (b, got, refl, height, below) in
      (
        record bc { current_block = b; storage = s' },
        add_block_next b bc next ne,
        refl,
        record { stored = got; linked = linked },
      )
