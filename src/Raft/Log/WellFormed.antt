-- ===== src/Raft/Log/WellFormed.antt =====
-- The invariant of the log and the operations that keep it.
use mathlib.Core.Option
use mathlib.Core.List.{append-nil}
use basalt.Prelude.{
  ℕ, zero, suc, ◌+◌, ◌-◌, ◌^◌, ◌≤◌, ◌<◌, ◌≡◌, none, some, List, [], ◌∷◌, ◌++◌, arith, length,
  get_elem?, take, drop, length-append, length-take, inl, inr, Option-cases, get_elem?-some,
}
use basalt.Raft.Types.{Entry, Indexed}
use basalt.Raft.Log.{RaftLog, last_index, term, append, commit_to, applied_to}

-- snapIndex <= applied <= committed <= lastIndex, the entries are consecutive from offset, which is
-- snapIndex+1, and the next index fits a uint64.
pub record IsWellFormed (l : RaftLog) : Type 0 where
  pub offset_next : l.offset ≡ l.snap_index + 1
  pub snap_applied : l.snap_index ≤ l.applied
  pub applied_committed : l.applied ≤ l.committed
  pub committed_last : l.committed ≤ l.snap_index + length l.entries
  pub room : l.snap_index + length l.entries + 1 < 2 ^ 64
  pub indexed : Indexed l.offset l.entries

pub last_index-eq : (l : RaftLog) → IsWellFormed l → last_index l ≡ l.snap_index + length l.entries
unfolding last_index
last_index-eq l w = omega arith

Indexed-append :
    (k : ℕ) (xs ys : List Entry) → Indexed k xs → Indexed (k + length xs) ys → Indexed k (xs ++ ys)
Indexed-append k [] ys hx hy = let e : k + 0 ≡ k = omega arith in rw e at hy
Indexed-append k (x ∷ xs) ys hx hy =
    let e : k + suc (length xs) ≡ suc k + length xs = omega arith in
    (hx.0, Indexed-append (suc k) xs ys hx.1 (rw e at hy))

Indexed-take : (k n : ℕ) (xs : List Entry) → Indexed k xs → Indexed k (take n xs)
Indexed-take k zero xs h = tt
Indexed-take k (suc n) [] h = tt
Indexed-take k (suc n) (x ∷ xs) h = (h.0, Indexed-take (suc k) n xs h.1)

pub Indexed-drop : (k n : ℕ) (xs : List Entry) → Indexed k xs → Indexed (k + n) (drop n xs)
Indexed-drop k zero xs h = let e : k + 0 ≡ k = omega arith in rw e h
Indexed-drop k (suc n) [] h = tt
Indexed-drop k (suc n) (x ∷ xs) h =
    let e : k + suc n ≡ suc k + n = omega arith in rw e (Indexed-drop (suc k) n xs h.1)

-- `term` above the snapshot boundary reads the entries.
pub term-entries :
    (l : RaftLog) (i : ℕ)
    → IsWellFormed l
    → l.snap_index < i
    → i ≤ l.snap_index + length l.entries
    → term l i ≡ Option.map (λ e. e.term) (get_elem? l.entries (i - l.offset))
unfolding term
term-entries l i w lo hi = ground (arith, last_index-eq l w)

pub term-none :
    (l : RaftLog) (i : ℕ)
    → IsWellFormed l
    → l.snap_index < i
    → term l i ≡ none
    → l.snap_index + length l.entries < i
unfolding term
term-none l i w lo h = ground (
  arith,
  last_index-eq l w,
  λ (q : i - l.offset < length l.entries). get_elem?-some l.entries (i - l.offset) q,
)

pub term-some :
    (l : RaftLog) (i : ℕ)
    → IsWellFormed l
    → l.snap_index ≤ i
    → i ≤ l.snap_index + length l.entries
    → (t : ℕ) × (term l i ≡ some t)
unfolding term
term-some l i w lo hi = elim (Option-cases (term l i)) [
  | inl e ↦ absurd (
      ground (
        arith,
        last_index-eq l w,
        λ (q : i - l.offset < length l.entries). get_elem?-some l.entries (i - l.offset) q,
      ))
  | inr r ↦ r
]

pub term_bound :
    (l : RaftLog) (i t : ℕ)
    → IsWellFormed l
    → term l i ≡ some t
    → (l.snap_index ≤ i) × (i ≤ l.snap_index + length l.entries)
unfolding term
term_bound l i t w h = ground (arith, last_index-eq l w)

-- Behind a well-formed log, consecutive entries with room for them.
pub extend-IsWellFormed :
    (l : RaftLog) (ents : List Entry)
    → IsWellFormed l
    → Indexed (l.snap_index + length l.entries + 1) ents
    → l.snap_index + length l.entries + length ents + 1 < 2 ^ 64
    → IsWellFormed (record l { entries = l.entries ++ ents })
extend-IsWellFormed l ents w hi hr =
    let e : l.snap_index + length l.entries + 1 ≡ l.offset + length l.entries =
      omega (arith, w.offset_next) in
    record {
      offset_next = w.offset_next;
      snap_applied = w.snap_applied;
      applied_committed = w.applied_committed;
      committed_last = omega (arith, w.committed_last, length-append l.entries ents);
      room = omega (arith, length-append l.entries ents);
      indexed = Indexed-append l.offset l.entries ents w.indexed (rw e at hi);
    }

-- A cut above the commit index.
pub cut-IsWellFormed :
    (l : RaftLog) (i : ℕ)
    → IsWellFormed l
    → l.committed < i
    → IsWellFormed (record l { entries = take (i - l.offset) l.entries })
cut-IsWellFormed l i w hc = record {
  offset_next = w.offset_next;
  snap_applied = w.snap_applied;
  applied_committed = w.applied_committed;
  committed_last =
      omega (arith, w.committed_last, w.offset_next, length-take (i - l.offset) l.entries);
  room = omega (arith, w.room, length-take (i - l.offset) l.entries);
  indexed = Indexed-take l.offset (i - l.offset) l.entries w.indexed;
}

pub append-result :
    (ents : List Entry) (l m : RaftLog)
    → append ents l ≡ some m
    → (m.entries ≡ l.entries ++ ents) × (m ≡ record l { entries = m.entries })
unfolding append
append-result [] l m h = ground (arith, append-nil l.entries)
append-result (e ∷ es) l m h = ground arith

-- Appending the next entries does not panic.
pub append-some :
    (ents : List Entry) (l : RaftLog)
    → IsWellFormed l
    → Indexed (l.snap_index + length l.entries + 1) ents
    → append ents l ≡ some (record l { entries = l.entries ++ ents })
unfolding append
append-some [] l w hi = ground (arith, append-nil l.entries)
append-some (e ∷ es) l w hi = ground (arith, last_index-eq l w)

pub commit_to-IsWellFormed :
    (i : ℕ) (l m : RaftLog) → IsWellFormed l → commit_to i l ≡ some m → IsWellFormed m
unfolding commit_to
commit_to-IsWellFormed i l m w h = ground (arith, last_index-eq l w)

pub applied_to-IsWellFormed :
    (i : ℕ) (l m : RaftLog) → IsWellFormed l → applied_to i l ≡ some m → IsWellFormed m
unfolding applied_to
applied_to-IsWellFormed i l m w h = ground arith
