-- ===== src/Message/Framing.antt =====
-- `SplitMessage` of message/message.go undoes `MergeMessage`.
use aster.Prelude.{
  ℕ, zero, suc, ◌<◌, ◌≤◌, ◌≡◌, ◌≢◌, refl, not, [], ◌∷◌, ◌++◌, Bytes, ok, panic, nat_eq, ◌==◌,
  filter, take, drop, length, All, arith, length-append, ap,
}
use aster.Message.{write_type, merge_message, split_message, prefix_msg_type_len}

-- The type field: as many bytes as it has, which are the type's followed by zeros.
record Field (n : ℕ) (t b : Bytes) : Type 0 where
  size : length b ≡ n
  pruned : filter (λ v. not (v == 0)) b ≡ t

write_type_lem :
    (n : ℕ) (t : Bytes)
    → length t ≤ n
    → All (λ v. v ≢ 0) t
    → (b : Bytes) × (write_type n t ≡ ok b) × Field n t b
unfolding write_type
write_type_lem zero [] h nz = ([], refl, record { size = refl; pruned = refl })
write_type_lem zero (v ∷ t) h nz = absurd (omega arith)
write_type_lem (suc n) [] h nz =
    let (b, wrote, f) = write_type_lem n [] (omega arith) tt in
    (0 ∷ b, rw wrote, record { size = ap suc f.size; pruned = f.pruned })
write_type_lem (suc n) (v ∷ t) h nz =
    let (b, wrote, f) = write_type_lem n t (omega arith) nz.1 in
    (v ∷ b, rw wrote, record { size = ap suc f.size; pruned = ground (arith, f.pruned, nz.0) })

take-append : (b content : Bytes) (n : ℕ) → length b ≡ n → take n (b ++ content) ≡ b
take-append [] content zero h = refl
take-append [] content (suc n) h = absurd (omega arith)
take-append (v ∷ b) content zero h = absurd (omega arith)
take-append (v ∷ b) content (suc n) h = ap (◌∷◌ v) (take-append b content n (omega arith))

drop-append : (b content : Bytes) (n : ℕ) → length b ≡ n → drop n (b ++ content) ≡ content
drop-append [] content zero h = refl
drop-append [] content (suc n) h = absurd (omega arith)
drop-append (v ∷ b) content zero h = absurd (omega arith)
drop-append (v ∷ b) content (suc n) h = drop-append b content n (omega arith)

write_type_long : (n : ℕ) (t : Bytes) → n < length t → write_type n t ≡ panic
unfolding write_type
write_type_long zero [] h = absurd (omega arith)
write_type_long zero (v ∷ t) h = refl
write_type_long (suc n) [] h = absurd (omega arith)
write_type_long (suc n) (v ∷ t) h = rw (write_type_long n t (omega arith))

-- A message type of at most 30 bytes, none of them zero, and any content come back from the frame.
pub split_message-merge_message :
    (t content : Bytes)
    → length t ≤ 30
    → All (λ v. v ≢ 0) t
    → (m : Bytes) × (merge_message t content ≡ ok m) × (split_message m ≡ ok (t, content))
unfolding merge_message split_message
split_message-merge_message t content h nz =
    let (b, wrote, f) = write_type_lem prefix_msg_type_len t h nz in
    (
      b ++ content,
      rw (wrote, merge_message),
      rw (take-append b content 30 f.size, drop-append b content 30 f.size, f.pruned)
          (ground (arith, length-append b content, f.size)),
    )
