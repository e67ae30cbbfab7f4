-- ===== src/Pbft/Marks.antt =====
-- The commits that a node of consensus_shard/pbft_all sends, against its map `isCommitBordcast`.
use aster.Prelude.{
  ℕ, suc, ◌+◌, ◌≡◌, false, none, some, List, [], ◌∷◌, ◌++◌, Bytes, Result, ok, panic, ◌>>=◌, nat_eq,
  bytes_eq, ◌==◌, if◌then◌else◌, lookup_or, arith,
}
use aster.Pbft.Messages.{PbftMsg}
use aster.Pbft.{PbftNode, Handled}

-- How many commits for a digest are among the messages.
unfoldable pub commits : Bytes → List PbftMsg → ℕ
commits d [] = 0
commits d (PbftMsg.commit m ∷ ms) = if d == m.digest then suc (commits d ms) else commits d ms
commits d (PbftMsg.pre_prepare m ∷ ms) = commits d ms
commits d (PbftMsg.prepare m ∷ ms) = commits d ms
commits d (PbftMsg.request_old m ∷ ms) = commits d ms
commits d (PbftMsg.send_old m ∷ ms) = commits d ms

pub commits-append :
    (d : Bytes) (ms ns : List PbftMsg) → commits d (ms ++ ns) ≡ commits d ms + commits d ns
unfolding commits
commits-append d [] ns = omega arith
commits-append d (PbftMsg.commit m ∷ ms) ns = ground (arith, commits-append d ms ns)
commits-append d (PbftMsg.pre_prepare m ∷ ms) ns = commits-append d ms ns
commits-append d (PbftMsg.prepare m ∷ ms) ns = commits-append d ms ns
commits-append d (PbftMsg.request_old m ∷ ms) ns = commits-append d ms ns
commits-append d (PbftMsg.send_old m ∷ ms) ns = commits-append d ms ns

-- 1 once the commit for a digest is marked as sent.
abbrev pub marked : {X : Type 0} → Bytes → PbftNode X → ℕ
marked d p = if lookup_or false d p.is_commit_bordcast then 1 else 0

-- A step's commits for the digest are those by which the mark went up.
abbrev pub Marks : {X : Type 0} → Bytes → PbftNode X → Handled X → Type 0
Marks d p panic = Unit
Marks d p (ok none) = Unit
Marks d p (ok (some (q, out))) = marked d p + commits d out ≡ marked d q

-- A step that leaves the marks alone and sends no commit.
pub Marks-quiet :
    {X : Type 0} (d : Bytes) (p q : PbftNode X) (out : List PbftMsg)
    → q.is_commit_bordcast ≡ p.is_commit_bordcast
    → commits d out ≡ 0
    → Marks d p (ok (some (q, out)))
Marks-quiet d p q out same silent = rw (same, silent) (omega arith)

-- `>>=` on a step that may panic.
pub Marks-bind :
    {X A : Type 0} (d : Bytes) (p : PbftNode X) (r : Result A) (f : A → Handled X)
    → ((a : A) → Marks d p (f a))
    → Marks d p (r >>= f)
Marks-bind d p (ok a) f h = h a
Marks-bind d p panic f h = tt

pub Marks-bind_bind :
    {X A B : Type 0} (d : Bytes) (p : PbftNode X) (r : Result A) (g : A → Result B)
    (f : B → Handled X)
    → ((a : A) → Marks d p (g a >>= f))
    → Marks d p ((r >>= g) >>= f)
Marks-bind_bind d p (ok a) g f h = h a
Marks-bind_bind d p panic g f h = tt
