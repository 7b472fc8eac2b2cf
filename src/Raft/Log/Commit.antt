-- ===== src/Raft/Log/Commit.antt =====
-- No operation of the log takes its commit index back.
use basalt.Prelude.{
  ℕ, ◌≤◌, ◌≡◌, ◌∙◌, Option, some, List, [], ◌∷◌, arith, inl, inr, Option-cases, length, min, add64,
}
use basalt.Raft.Types.{Entry, ◌>>=◌}
use basalt.Raft.Log.{
  RaftLog, append, commit_to, maybe_append, reconcile, truncate_from, compact_to, applied_to,
}

pub append-committed :
    (ents : List Entry) (l m : RaftLog) → append ents l ≡ some m → m.committed ≡ l.committed
unfolding append
append-committed [] l m h = ground arith
append-committed (e ∷ es) l m h = ground arith

truncate_from-committed :
    (i : ℕ) (l m : RaftLog) → truncate_from i l ≡ some m → m.committed ≡ l.committed
unfolding truncate_from
truncate_from-committed i l m h = ground arith

commit_to-up : (i : ℕ) (l m : RaftLog) → commit_to i l ≡ some m → l.committed ≤ m.committed
unfolding commit_to
commit_to-up i l m h = ground arith

replace-committed :
    (i : ℕ) (ents : List Entry) (l m : RaftLog)
    → (do cut ← truncate_from i l; append ents cut) ≡ some m
    → m.committed ≡ l.committed
replace-committed i ents l m h = elim (Option-cases (truncate_from i l)) [
  | inl e ↦ absurd (ground arith)
  | inr (cut, e) ↦ append-committed ents cut m (ground arith) ∙ truncate_from-committed i l cut e
]

reconcile-committed :
    (ents : List Entry) (l m : RaftLog) → reconcile ents l ≡ some m → m.committed ≡ l.committed
unfolding reconcile
reconcile-committed [] l m h = ground arith
reconcile-committed (e ∷ es) l m h = ground (
  arith,
  reconcile-committed es l m,
  append-committed (e ∷ es) l m,
  replace-committed e.index (e ∷ es) l m,
)

pub maybe_append-committed :
    (index term commit : ℕ) (ents : List Entry) (l m : RaftLog) (r : Option ℕ)
    → maybe_append index term commit ents l ≡ some (r, m)
    → l.committed ≤ m.committed
unfolding maybe_append
maybe_append-committed index term commit ents l m r h = elim (Option-cases (reconcile ents l)) [
  | inl e ↦ ground arith
  | inr (k, e) ↦ ground (
    arith,
    reconcile-committed ents l k,
    commit_to-up (min commit (add64 index (length ents))) k m,
  )
]

pub compact_to-committed :
    (index : ℕ) (l m : RaftLog) → compact_to index l ≡ some m → m.committed ≡ l.committed
unfolding compact_to
compact_to-committed index l m h = ground arith

pub applied_to-committed :
    (i : ℕ) (l m : RaftLog) → applied_to i l ≡ some m → m.committed ≡ l.committed
unfolding applied_to
applied_to-committed i l m h = ground arith
