-- ===== src/Raft/Log/Compact.antt =====
-- compactTo: the prefix folded into the snapshot boundary.
use basalt.Prelude.{
  ℕ, ◌+◌, ◌-◌, ◌≤◌, ◌<◌, max, ◌≡◌, ◌⊎◌, refl, some, arith, length, drop, length-drop, inl, inr,
  get_elem?-drop,
}
use basalt.Raft.Log.{RaftLog, last_index, term, compact_to}
use basalt.Raft.Log.WellFormed.{IsWellFormed, last_index-eq, Indexed-drop, term-some}
use native.Mathlib.Decide.{dec_le}

abbrev compacted : RaftLog → ℕ → ℕ → RaftLog
compacted l index t = record l {
  entries = drop (index - l.offset + 1) l.entries;
  offset = index + 1;
  snap_index = index;
  snap_term = t;
}

compact_to_cases :
    (index : ℕ) (l m : RaftLog)
    → IsWellFormed l
    → compact_to index l ≡ some m
    → (m ≡ l) × (index ≤ l.snap_index)
      ⊎ (m ≡ compacted l index m.snap_term)
        × (l.snap_index < index)
        × (index ≤ l.applied)
        × (term l index ≡ some m.snap_term)
unfolding compact_to
compact_to_cases index l m w h = ground (arith, w.applied_committed, w.committed_last, w.room)

compacted-IsWellFormed :
    (l : RaftLog) (index t : ℕ)
    → IsWellFormed l
    → l.snap_index < index
    → index ≤ l.applied
    → IsWellFormed (compacted l index t)
compacted-IsWellFormed l index t w lo hi =
    let len : length (drop (index - l.offset + 1) l.entries)
        ≡ length l.entries - (index - l.offset + 1) =
      length-drop (index - l.offset + 1) l.entries in
    let start : l.offset + (index - l.offset + 1) ≡ index + 1 = omega (arith, w.offset_next) in
    record {
      offset_next = refl;
      snap_applied = hi;
      applied_committed = w.applied_committed;
      committed_last = omega (arith, w.committed_last, w.offset_next, w.applied_committed);
      room = omega (arith, w.room, w.offset_next, w.applied_committed, w.committed_last);
      indexed = rw start at (Indexed-drop l.offset (index - l.offset + 1) l.entries w.indexed);
    }

compacted-term :
    (l : RaftLog) (index t i : ℕ)
    → IsWellFormed l
    → l.snap_index < index
    → index ≤ l.applied
    → term l index ≡ some t
    → index ≤ i
    → term (compacted l index t) i ≡ term l i
unfolding term last_index
compacted-term l index t i w lo hi ht hle = ground (
  arith,
  w.offset_next,
  w.applied_committed,
  w.committed_last,
  w.room,
  length-drop (index - l.offset + 1) l.entries,
  get_elem?-drop (index - l.offset + 1) l.entries (i - (index + 1)),
)

-- Compaction keeps the invariant.
pub compact_to-IsWellFormed :
    (index : ℕ) (l m : RaftLog) → IsWellFormed l → compact_to index l ≡ some m → IsWellFormed m
compact_to-IsWellFormed index l m w h = elim (compact_to_cases index l m w h) [
  | inl (e, _) ↦ rw e w
  | inr (e, lo, hi, _) ↦ rw e (compacted-IsWellFormed l index m.snap_term w lo hi)
]

-- `m` is `l` with the prefix through `index` folded into the boundary.
pub record Compacted (index : ℕ) (l m : RaftLog) : Type 0 where
  pub well_formed : IsWellFormed m
  pub boundary : m.snap_index ≡ max index l.snap_index
  pub same_committed : m.committed ≡ l.committed
  pub same_applied : m.applied ≡ l.applied
  pub same_last : last_index m ≡ last_index l
  pub same_terms : (i : ℕ) → m.snap_index ≤ i → term m i ≡ term l i

compacted-Compacted :
    (l : RaftLog) (index t : ℕ)
    → IsWellFormed l
    → l.snap_index < index
    → index ≤ l.applied
    → term l index ≡ some t
    → Compacted index l (compacted l index t)
compacted-Compacted l index t w lo hi ht =
    let w' : IsWellFormed (compacted l index t) = compacted-IsWellFormed l index t w lo hi in
    record {
      well_formed = w';
      boundary = omega arith;
      same_committed = refl;
      same_applied = refl;
      same_last = omega (
        arith,
        last_index-eq l w,
        last_index-eq (compacted l index t) w',
        length-drop (index - l.offset + 1) l.entries,
        w.offset_next,
        w.applied_committed,
        w.committed_last,
      );
      same_terms = λ i h. compacted-term l index t i w lo hi ht h;
    }

compact_to-eq :
    (index t : ℕ) (l : RaftLog)
    → IsWellFormed l
    → l.snap_index < index
    → index ≤ l.applied
    → term l index ≡ some t
    → compact_to index l ≡ some (compacted l index t)
unfolding compact_to
compact_to-eq index t l w lo hi ht = ground (arith, w.applied_committed, w.committed_last, w.room)

compact_to_stale : (index : ℕ) (l : RaftLog) → index ≤ l.snap_index → compact_to index l ≡ some l
unfolding compact_to
compact_to_stale index l h = ground arith

-- On a well-formed log, compaction up to an applied index succeeds; the result is well formed, has
-- its boundary at the higher of that index and the old boundary, keeps the commit, applied and last
-- indices, and answers for the term of every index from its boundary on as before.
pub compact_to_lem :
    (index : ℕ) (l : RaftLog)
    → IsWellFormed l
    → index ≤ l.applied
    → (m : RaftLog) × (compact_to index l ≡ some m) × Compacted index l m
compact_to_lem index l w h = elim (dec_le index l.snap_index) [
  | yes stale ↦ (
    l,
    compact_to_stale index l stale,
    record {
      well_formed = w;
      boundary = omega arith;
      same_committed = refl;
      same_applied = refl;
      same_last = refl;
      same_terms = λ i _. refl;
    },
  )
  | no fresh ↦
      let (t, ht) =
        term-some l index w (omega arith) (omega (arith, w.applied_committed, w.committed_last)) in
      (
        compacted l index t,
        compact_to-eq index t l w (omega arith) h ht,
        compacted-Compacted l index t w (omega arith) h ht,
      )
]
