-- ===== src/Message.antt =====
-- Package `message`: the framing of messages in message/message.go.
pub mod Framing
pub mod BlockInfo
use aster.Prelude.{
  ℕ, zero, suc, Bool, not, List, [], ◌∷◌, ◌++◌, Bytes, Result, ok, panic, ◌>>=◌, nat_eq, ◌==◌,
  filter, take, drop, length, ltb, if◌then◌else◌,
}

-- `prefixMSGtypeLen`
abbrev pub prefix_msg_type_len : ℕ
prefix_msg_type_len = 30

-- `b[i] = v` for the bytes of the type, over `n` zero bytes; an index out of range panics.
unfoldable pub write_type : ℕ → Bytes → Result Bytes
write_type zero [] = ok []
write_type zero (v ∷ t) = panic
write_type (suc n) [] = do rest ← write_type n []; ok (0 ∷ rest)
write_type (suc n) (v ∷ t) = do rest ← write_type n t; ok (v ∷ rest)

unfoldable pub merge_message : Bytes → Bytes → Result Bytes
merge_message msg_type content = do b ← write_type prefix_msg_type_len msg_type; ok (b ++ content)

-- A message shorter than the type field panics.
unfoldable pub split_message : Bytes → Result (Bytes × Bytes)
split_message message =
    if ltb (length message) prefix_msg_type_len
    then panic
    else ok (
      filter (λ v. not (v == 0)) (take prefix_msg_type_len message),
      drop prefix_msg_type_len message,
    )
