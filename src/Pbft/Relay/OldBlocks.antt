-- ===== src/Pbft/Relay/OldBlocks.antt =====
-- The blocks that a node missed: `HandleforSequentialRequest` of
-- consensus_shard/pbft_all/pbftInside_module.go.
use aster.Prelude.{
  ℕ, ◌+◌, ◌-◌, ◌%◌, ◌^◌, ◌<◌, ◌≤◌, ◌≡◌, ◌≢◌, refl, sym, ap, ◌∙◌, subst, true, false, none, some,
  List, [], ◌∷◌, map, foldl, Bytes, Result, ok, panic, ◌>>=◌, or_panic, nat_eq, bytes_eq, ◌==◌,
  length, ltb, leb, ◌&&◌, if◌then◌else◌, arith, beq_refl, Bool-cases, inl, inr, length-map,
}
use aster.Core.Block.{BitSets, Block, BlockCodec}
use aster.Storage as Store
use aster.Chain.{BlockChain, add_block}
use aster.Chain.Growth.{IsNext, IsLinked, add_block_next, add_block-IsLinked}
use aster.Pbft.Messages.{Request, SendOldMessage}
use aster.Pbft.Relay.{RelayModule}

-- The text "Block".
abbrev pub block_request : Bytes
block_request = 66 ∷ 108 ∷ 111 ∷ 99 ∷ 107 ∷ []

module _ (bits : BitSets) (codec : BlockCodec bits) where
  unfoldable pub add_old : Request → BlockChain bits → Result (BlockChain bits)
  add_old r bc =
      if r.request_type == block_request
      then (do
        b ← or_panic (codec.decode_block r.content)
        (bc', added) ← add_block bits codec (some b) bc
        ok bc')
      else ok bc

  -- The loop from a height to the last one, on the requests from that height on; a height that
  -- wraps is at most the last one again, and the index runs on.
  unfoldable pub add_all_old : ℕ → ℕ → List Request → BlockChain bits → Result (BlockChain bits)
  unfolding add_old
  add_all_old height end [] bc = if leb height end then panic else ok bc
  add_all_old height end (r ∷ rs) bc =
      if leb height end
      then (do bc' ← add_old r bc; add_all_old ((height + 1) % 2 ^ 64) end rs bc')
      else ok bc

  -- `HandleforSequentialRequest`; the number of heights is an `int`, negative from 2^63 on.
  unfoldable pub handle_for_sequential_request :
      SendOldMessage → RelayModule bits → Result (RelayModule bits)
  unfolding add_all_old
  handle_for_sequential_request m x =
      let n = (m.seq_end_height + 2 ^ 64 - m.seq_start_height + 1) % 2 ^ 64 in
      if ltb n (2 ^ 63) && n == length m.old_request
      then (do
        bc ← add_all_old m.seq_start_height m.seq_end_height m.old_request x.cur_chain
        ok (record x { cur_chain = bc; sequence_id = (m.seq_end_height + 1) % 2 ^ 64 }))
      else ok x

  abbrev pub grown : BlockChain bits → Block bits → BlockChain bits
  grown bc b = record bc { current_block = b; storage = Store.added bits codec b bc.storage }

  -- Each block is the next one of the chain that the blocks before it make, with a new hash.
  abbrev pub Extends : List (Block bits) → BlockChain bits → Type 0
  Extends [] bc = Unit
  Extends (b ∷ bs) bc =
      IsNext bits codec b bc
      × (b.hash ≢ [])
      × (Store.get_block bits codec b.hash bc.storage ≡ ok none)
      × (bc.current_block.header.number + 1 < 2 ^ 64)
      × Extends bs (grown bc b)

  -- The request that a block was proposed with, at some time.
  abbrev pub asked : ℕ × Block bits → Request
  asked (time, b) = record {
    request_type = block_request;
    content = codec.encode_block b;
    req_time = time;
  }

  add_old-asked :
      (e : ℕ × Block bits) (bc : BlockChain bits)
      → IsNext bits codec e.1 bc
      → e.1.hash ≢ []
      → add_old (asked e) bc ≡ ok (grown bc e.1)
  unfolding add_old
  add_old-asked (time, b) bc next ne =
      rw
        (
          beq_refl block_request,
          codec.decode_block-encode_block b,
          add_block_next bits codec b bc next ne,
        )
        refl

  add_all_old-asked :
      (height end : ℕ) (es : List (ℕ × Block bits)) (bc : BlockChain bits)
      → height + length es ≡ end + 1
      → end + 1 < 2 ^ 64
      → Extends (map (λ e. e.1) es) bc
      → add_all_old height end (map asked es) bc ≡ ok (foldl grown bc (map (λ e. e.1) es))
  unfolding add_all_old
  add_all_old-asked height end [] bc count small ext = ground arith
  add_all_old-asked height end (e ∷ es) bc count small (next, ne, fresh, low, ext) =
      let below : leb height end ≡ true = ground arith in
      let up : (height + 1) % 2 ^ 64 ≡ height + 1 = omega arith in
      rw (below, add_old-asked e bc next ne, up)
        (add_all_old-asked (height + 1) end es (grown bc e.1) (omega arith) small ext)

  grown-IsLinked :
      (bs : List (Block bits)) (bc : BlockChain bits)
      → Extends bs bc
      → IsLinked bits codec bc
      → IsLinked bits codec (foldl grown bc bs)
  grown-IsLinked [] bc ext link = link
  grown-IsLinked (b ∷ bs) bc (next, ne, fresh, low, ext) link =
      let (bc', done, current, link') = add_block-IsLinked bits codec b bc next ne fresh low link in
      let same : bc' ≡ grown bc b =
        ap (λ r. elim r [ panic ↦ bc | ok (c, a) ↦ c ])
          (sym done ∙ add_block_next bits codec b bc next ne) in
      grown-IsLinked bs (grown bc b) ext (subst (IsLinked bits codec) same link')

  -- An answer with the requests of blocks that follow on the node's chain, as many as its heights
  -- say, adds them all in order: the chain stays linked, and the node goes to the height after. An
  -- answer with another number of requests changes nothing. The heights are in order and below 2^63.
  pub handle_for_sequential_request_lem :
      (es : List (ℕ × Block bits)) (x : RelayModule bits) (m : SendOldMessage)
      → m.old_request ≡ map asked es
      → m.seq_start_height ≤ m.seq_end_height
      → m.seq_end_height + 1 < 2 ^ 63
      → Extends (map (λ e. e.1) es) x.cur_chain
      → IsLinked bits codec x.cur_chain
      → (x' : RelayModule bits) × (handle_for_sequential_request m x ≡ ok x')
        × IsLinked bits codec x'.cur_chain
        × (if m.seq_start_height + length es == m.seq_end_height + 1
            then (x'.cur_chain ≡ foldl grown x.cur_chain (map (λ e. e.1) es))
              × (x'.sequence_id ≡ m.seq_end_height + 1)
            else x' ≡ x)
  unfolding handle_for_sequential_request
  handle_for_sequential_request_lem es x m reqs order small ext link =
      let start = m.seq_start_height in
      let end = m.seq_end_height in
      let n = (end + 2 ^ 64 - start + 1) % 2 ^ 64 in
      let heights : n ≡ end + 1 - start = omega arith in
      let count : length (map asked es) ≡ length es = length-map asked es in
      elim (Bool-cases (start + length es == end + 1)) [
        | inl all ↦
            let test : (ltb n (2 ^ 63) && n == length (map asked es)) ≡ true =
              rw (heights, count) (ground arith) in
            let sum : start + length es ≡ end + 1 = ground arith in
            (
              record x {
                cur_chain = foldl grown x.cur_chain (map (λ e. e.1) es);
                sequence_id = (end + 1) % 2 ^ 64;
              },
              rw (reqs, test, add_all_old-asked start end es x.cur_chain sum (omega arith) ext)
                  refl,
              grown-IsLinked (map (λ e. e.1) es) x.cur_chain ext link,
              rw all (refl, omega arith),
            )
        | inr part ↦
            let test : (ltb n (2 ^ 63) && n == length (map asked es)) ≡ false =
              rw (heights, count) (ground arith) in
            (x, rw (reqs, test) refl, link, rw part refl)
      ]
