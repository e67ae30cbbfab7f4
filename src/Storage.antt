-- ===== src/Storage.antt =====
-- storage/storage.go: the block store over three buckets of a bolt database. The database itself is
-- a map for each bucket; `Put` refuses an empty key, on which the code panics.
use aster.Prelude.{
  ◌≡◌, ◌≢◌, refl, Option, none, some, [], ◌∷◌, Bytes, Map, Result, ok, panic, ◌>>=◌, or_panic,
  bytes_eq, ◌==◌, if◌then◌else◌, lookup, insert, lookup-insert, inl, inr, Bool-cases,
}
use aster.Core.Block.{BitSets, BlockHeader, Block, BlockCodec}

pub record Storage : Type 0 where
  pub block_bucket : Map Bytes Bytes
  pub block_header_bucket : Map Bytes Bytes
  -- The only key of its bucket, "OnlyNewestBlock".
  pub newest_block_hash : Option Bytes

-- `bucket.Put`
unfoldable pub put : Bytes → Bytes → Map Bytes Bytes → Result (Map Bytes Bytes)
put [] v m = panic
put (k ∷ ks) v m = ok (insert (k ∷ ks) v m)

unfoldable pub update_newest_block : Bytes → Storage → Storage
update_newest_block h s = record s { newest_block_hash = some h }

unfoldable pub get_newest_block_hash : Storage → Option Bytes
get_newest_block_hash s = s.newest_block_hash

module _ (bits : BitSets) (codec : BlockCodec bits) where
  unfoldable pub add_block_header : Bytes → BlockHeader bits → Storage → Result Storage
  add_block_header blockhash bh s = do
    m ← put blockhash (codec.encode_header bh) s.block_header_bucket
    ok (record s { block_header_bucket = m })

  unfoldable pub add_block : Block bits → Storage → Result Storage
  unfolding add_block_header update_newest_block
  add_block b s = do
    m ← put b.hash (codec.encode_block b) s.block_bucket
    s' ← add_block_header b.hash b.header (record s { block_bucket = m })
    ok (update_newest_block b.hash s')

  -- `ok none` is the error "the block is not existed".
  unfoldable pub get_block : Bytes → Storage → Result (Option (Block bits))
  get_block bhash s = elim (lookup bhash s.block_bucket) [
    | none ↦ ok none
    | some enc ↦ do b ← or_panic (codec.decode_block enc); ok (some b)
  ]

  unfoldable pub get_block_header : Bytes → Storage → Result (Option (BlockHeader bits))
  get_block_header bhash s = elim (lookup bhash s.block_header_bucket) [
    | none ↦ ok none
    | some enc ↦ do bh ← or_panic (codec.decode_header enc); ok (some bh)
  ]

  -- The store after `AddBlock`.
  pub added : Block bits → Storage → Storage
  added b s = record {
    block_bucket = insert b.hash (codec.encode_block b) s.block_bucket;
    block_header_bucket = insert b.hash (codec.encode_header b.header) s.block_header_bucket;
    newest_block_hash = some b.hash;
  }

  put_lem : (k v : Bytes) (m : Map Bytes Bytes) → k ≢ [] → put k v m ≡ ok (insert k v m)
  unfolding put
  put_lem [] v m h = absurd (h refl)
  put_lem (k ∷ ks) v m h = refl

  pub get_block-added :
      (b : Block bits) (s : Storage) (h : Bytes)
      → get_block h (added b s) ≡ (if h == b.hash then ok (some b) else get_block h s)
  unfolding get_block added
  get_block-added b s h = elim (Bool-cases (h == b.hash)) [
    | inl same ↦
        rw (lookup-insert b.hash h (codec.encode_block b) s.block_bucket, same, get_block)
          (rw (codec.decode_block-encode_block b))
    | inr other ↦
        rw (lookup-insert b.hash h (codec.encode_block b) s.block_bucket, other, get_block)
  ]

  get_block_header-added :
      (b : Block bits) (s : Storage) (h : Bytes)
      → get_block_header h (added b s)
        ≡ (if h == b.hash then ok (some b.header) else get_block_header h s)
  unfolding get_block_header added
  get_block_header-added b s h = elim (Bool-cases (h == b.hash)) [
    | inl same ↦
        rw
          (
            lookup-insert b.hash h (codec.encode_header b.header) s.block_header_bucket,
            same,
            get_block_header,
          )
          (rw (codec.decode_header-encode_header b.header))
    | inr other ↦ rw (
      lookup-insert b.hash h (codec.encode_header b.header) s.block_header_bucket,
      other,
      get_block_header,
    )
  ]

  pub add_block-added :
      (b : Block bits) (s : Storage) → b.hash ≢ [] → add_block b s ≡ ok (added b s)
  unfolding add_block added
  add_block-added b s ne = rw (
    put_lem b.hash (codec.encode_block b) s.block_bucket ne,
    put_lem b.hash (codec.encode_header b.header) s.block_header_bucket ne,
    add_block,
  )

  -- Adding a block with a hash that is not empty succeeds: the block, its header and the newest
  -- hash are then read back, and every other hash reads as before.
  pub add_block_lem :
      (b : Block bits) (s : Storage) (h : Bytes)
      → b.hash ≢ []
      → (s' : Storage) × (add_block b s ≡ ok s')
        × (get_block h s' ≡ (if h == b.hash then ok (some b) else get_block h s))
        × (get_block_header h s'
            ≡ (if h == b.hash then ok (some b.header) else get_block_header h s))
        × (get_newest_block_hash s' ≡ some b.hash)
  unfolding get_newest_block_hash added
  add_block_lem b s h ne =
      (added b s, add_block-added b s ne, get_block-added b s h, get_block_header-added b s h, refl)
