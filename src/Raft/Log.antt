-- ===== src/Raft/Log.antt =====
-- internal/raft/log.go: the in-memory log. `none` stands for a panic, except in `term`, where it
-- is ok=false. A slice index that the guard above it keeps in range is not checked again.
pub mod WellFormed
pub mod Compact
pub mod Merge
pub mod Commit
use mathlib.Core.Option
use basalt.Prelude.{
  ℕ, ◌+◌, ◌-◌, min, Option, none, some, List, [], ◌∷◌, ◌++◌, Bool, ◌||◌, ltb, leb, ◌==◌,
  if◌then◌else◌, not, length, get_elem?, take, drop, add64, sub64,
}
use basalt.Raft.Types.{Entry, ◌>>=◌}

pub record RaftLog : Type 0 where
  pub entries : List Entry
  pub offset : ℕ
  pub snap_index : ℕ
  pub snap_term : ℕ
  pub committed : ℕ
  pub applied : ℕ

abbrev pub new_log : RaftLog
new_log = record {
  entries = [];
  offset = 1;
  snap_index = 0;
  snap_term = 0;
  committed = 0;
  applied = 0;
}

abbrev pub first_index : RaftLog → ℕ
first_index l = l.offset

unfoldable pub last_index : RaftLog → ℕ
last_index l = sub64 (l.offset + length l.entries) 1

unfoldable pub term : RaftLog → ℕ → Option ℕ
term l i =
    if i == l.snap_index
    then some l.snap_term
    else if ltb i l.offset || ltb (last_index l) i
    then none
    else Option.map (λ e. e.term) (get_elem? l.entries (i - l.offset))

unfoldable pub compact_to : ℕ → RaftLog → Option RaftLog
compact_to index l =
    if leb index l.snap_index then some l else if ltb l.applied index then none else do
      t ← term l index
      some (record l {
        entries = drop (index - l.offset + 1) l.entries;
        offset = add64 index 1;
        snap_index = index;
        snap_term = t;
      })

unfoldable pub last_term : RaftLog → Option ℕ
last_term l = term l (last_index l)

unfoldable pub append : List Entry → RaftLog → Option RaftLog
append [] l = some l
append (e ∷ es) l =
    if e.index == add64 (last_index l) 1
    then some (record l { entries = l.entries ++ (e ∷ es) })
    else none

unfoldable pub truncate_from : ℕ → RaftLog → Option RaftLog
truncate_from i l =
    if leb i l.committed
    then none
    else if ltb i l.offset
    then none
    else some (record l { entries = take (i - l.offset) l.entries })

unfoldable pub slice : ℕ → ℕ → RaftLog → Option (List Entry)
slice lo hi l =
    if ltb lo l.offset || ltb (add64 (last_index l) 1) hi || ltb hi lo
    then none
    else some (take (hi - lo) (drop (lo - l.offset) l.entries))

unfoldable pub commit_to : ℕ → RaftLog → Option RaftLog
commit_to i l =
    if leb i l.committed
    then some l
    else if ltb (last_index l) i
    then none
    else some (record l { committed = i })

unfoldable pub applied_to : ℕ → RaftLog → Option RaftLog
applied_to i l =
    if ltb i l.applied || ltb l.committed i then none else some (record l { applied = i })

unfoldable pub is_up_to_date : ℕ → ℕ → RaftLog → Option Bool
is_up_to_date index term l = do
  t ← last_term l
  some (if term == t then leb (last_index l) index else ltb t term)

-- The loop of maybeAppend: the first entry that the log lacks or contradicts replaces the rest.
unfoldable pub reconcile : List Entry → RaftLog → Option RaftLog
reconcile [] l = some l
reconcile (e ∷ es) l =
    let rest = reconcile es l in
    let added = append (e ∷ es) l in
    let replaced = (do cut ← truncate_from e.index l; append (e ∷ es) cut) in
    elim (term l e.index) [ none ↦ added | some t ↦ if t == e.term then rest else replaced ]

-- The answer is `none` on ok=false and otherwise lastNew.
unfoldable pub maybe_append : ℕ → ℕ → ℕ → List Entry → RaftLog → Option (Option ℕ × RaftLog)
maybe_append prev_index prev_term commit ents l =
    let last_new = add64 prev_index (length ents) in
    let accepted = (do
      merged ← reconcile ents l
      done ← commit_to (min commit last_new) merged
      some (some last_new, done)) in
    elim (term l prev_index) [
      | none ↦ some (none, l)
      | some t ↦ if t == prev_term then accepted else some (none, l)
    ]
