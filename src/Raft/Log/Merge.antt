-- ===== src/Raft/Log/Merge.antt =====
-- maybeAppend: what an accepted AppendEntries does to the log.
use mathlib.Core.Option
use basalt.Prelude.{
  ℕ, suc, ◌+◌, ◌-◌, ◌^◌, ◌≤◌, ◌<◌, min, max, ◌≡◌, ◌≢◌, refl, ap, ◌∙◌, Option, none, some, List, [],
  ◌∷◌, ◌++◌, arith, length, get_elem?, take, length-append, length-take, All, inl, inr,
  Option-cases, get_elem?-take, get_elem?-append_left, get_elem?-append_right, Bool-cases, ◌==◌,
  ==_iff, false,
}
use mathlib.Core.Path.{fun_ext}
use native.Mathlib.Decide.{dec_lt}
use basalt.Raft.Types.{Entry, Indexed, ◌>>=◌}
use basalt.Raft.Log.{
  RaftLog, last_index, term, append, truncate_from, commit_to, reconcile, maybe_append,
}
use basalt.Raft.Log.WellFormed.{
  IsWellFormed, last_index-eq, term-entries, term-none, term_bound, extend-IsWellFormed,
  cut-IsWellFormed, append-some,
}

-- `m` is the log `l` in which `ents` stand from index `k` on.
pub record Merged (k : ℕ) (ents : List Entry) (l m : RaftLog) : Type 0 where
  pub well_formed : IsWellFormed m
  pub same_snap_index : m.snap_index ≡ l.snap_index
  pub same_snap_term : m.snap_term ≡ l.snap_term
  pub same_committed : m.committed ≡ l.committed
  pub same_applied : m.applied ≡ l.applied
  pub reaches : k + length ents ≤ m.snap_index + length m.entries + 1
  pub below : (i : ℕ) → i < k → term m i ≡ term l i
  pub held : All (λ e. term m e.index ≡ some e.term) ents

extend-term :
    (l : RaftLog) (ents : List Entry) (j : ℕ)
    → IsWellFormed (record l { entries = l.entries ++ ents })
    → j < length ents
    → term (record l { entries = l.entries ++ ents }) (l.snap_index + length l.entries + 1 + j)
      ≡ Option.map (λ e. e.term) (get_elem? ents j)
extend-term l ents j w h =
    let i : ℕ = l.snap_index + length l.entries + 1 + j in
    let e : i - l.offset ≡ length l.entries + j = omega (arith, w.offset_next) in
    rw
      (term-entries (record l { entries = l.entries ++ ents }) i w (omega arith)
        (omega (arith, length-append l.entries ents)))
      (rw e (rw (get_elem?-append_right l.entries ents j)))

extend-term_below :
    (l : RaftLog) (ents : List Entry) (i : ℕ)
    → IsWellFormed l
    → IsWellFormed (record l { entries = l.entries ++ ents })
    → i ≤ l.snap_index + length l.entries
    → term (record l { entries = l.entries ++ ents }) i ≡ term l i
unfolding term
extend-term_below l ents i w w' h = ground (
  arith,
  last_index-eq l w,
  last_index-eq (record l { entries = l.entries ++ ents }) w',
  length-append l.entries ents,
  get_elem?-append_left l.entries ents (i - l.offset),
)

All-of_terms :
    (f : ℕ → Option ℕ) (k : ℕ) (ents : List Entry)
    → Indexed k ents
    → ((j : ℕ) → j < length ents → f (k + j) ≡ Option.map (λ e. e.term) (get_elem? ents j))
    → All (λ e. f e.index ≡ some e.term) ents
All-of_terms f k [] hi h = tt
All-of_terms f k (e ∷ es) hi h =
    let z : k + 0 ≡ k = omega arith in
    let first : f (k + 0) ≡ some e.term = h 0 (omega arith) in
    (
      rw hi.0 (rw z at first),
      All-of_terms f (suc k) es hi.1
          (λ j lt. let s : suc k + j ≡ k + suc j = omega arith in rw s (h (suc j) (omega arith))),
    )

-- Entries behind the last one of a well-formed log.
extend-Merged :
    (k : ℕ) (ents : List Entry) (l : RaftLog)
    → IsWellFormed l
    → k ≡ l.snap_index + length l.entries + 1
    → Indexed k ents
    → k + length ents < 2 ^ 64
    → Merged k ents l (record l { entries = l.entries ++ ents })
extend-Merged k ents l w hk hi hr =
    let w' : IsWellFormed (record l { entries = l.entries ++ ents }) =
      extend-IsWellFormed l ents w (rw hk at hi) (omega arith) in
    record {
      well_formed = w';
      same_snap_index = refl;
      same_snap_term = refl;
      same_committed = refl;
      same_applied = refl;
      reaches = omega (arith, length-append l.entries ents);
      below = λ i lt. extend-term_below l ents i w w' (omega arith);
      held =
          All-of_terms (term (record l { entries = l.entries ++ ents })) k ents hi
            (λ j lt. rw hk (extend-term l ents j w' lt));
    }

cut-term :
    (l : RaftLog) (k i : ℕ)
    → IsWellFormed l
    → l.committed < k
    → i < k
    → term (record l { entries = take (k - l.offset) l.entries }) i ≡ term l i
unfolding term
cut-term l k i w hc h = ground (
  arith,
  w.offset_next,
  w.applied_committed,
  w.snap_applied,
  w.committed_last,
  last_index-eq l w,
  last_index-eq (record l { entries = take (k - l.offset) l.entries }) (cut-IsWellFormed l k w hc),
  length-take (k - l.offset) l.entries,
  get_elem?-take (k - l.offset) l.entries (i - l.offset),
)

-- No entry contradicts a committed one.
abbrev pub Agrees : RaftLog → List Entry → Type 0
Agrees l ents = All (λ e. e.index ≤ l.committed → term l e.index ≡ some e.term) ents

Agrees-above :
    (l : RaftLog) (k : ℕ) (ents : List Entry) → Indexed k ents → l.committed < k → Agrees l ents
Agrees-above l k [] hi h = tt
Agrees-above l k (e ∷ es) hi h =
    (λ le. absurd (omega (arith, hi.0)), Agrees-above l (suc k) es hi.1 (omega arith))

-- What replaces a conflicting suffix.
replace-Merged :
    (k : ℕ) (ents : List Entry) (l : RaftLog)
    → IsWellFormed l
    → Indexed k ents
    → l.committed < k
    → k ≤ l.snap_index + length l.entries + 1
    → k + length ents < 2 ^ 64
    → (m : RaftLog) × ((do cut ← truncate_from k l; append ents cut) ≡ some m) × Merged k ents l m
unfolding truncate_from
replace-Merged k ents l w hi hc hk hr =
    let cut : RaftLog = record l { entries = take (k - l.offset) l.entries } in
    let w' : IsWellFormed cut = cut-IsWellFormed l k w hc in
    let end : k ≡ cut.snap_index + length cut.entries + 1 = omega (
      arith,
      length-take (k - l.offset) l.entries,
      w.offset_next,
      w.snap_applied,
      w.applied_committed,
    ) in
    let d : Merged k ents cut (record cut { entries = cut.entries ++ ents }) =
      extend-Merged k ents cut w' end hi hr in
    (
      record cut { entries = cut.entries ++ ents },
      ground (
        arith,
        append-some ents cut w' (rw end at hi),
        w.offset_next,
        w.snap_applied,
        w.applied_committed,
      ),
      record {
        well_formed = d.well_formed;
        same_snap_index = refl;
        same_snap_term = refl;
        same_committed = refl;
        same_applied = refl;
        reaches = d.reaches;
        below = λ i lt. d.below i lt ∙ cut-term l k i w hc lt;
        held = d.held;
      },
    )

conflict_late :
    (l : RaftLog) (e : Entry) (t : ℕ)
    → term l e.index ≡ some t
    → (t == e.term) ≡ false
    → (e.index ≤ l.committed → term l e.index ≡ some e.term)
    → l.committed < e.index
conflict_late l e t found differs agree = elim (dec_lt l.committed e.index) [
  | yes late ↦ late
  | no early ↦ ground (arith, agree (omega arith))
]

reconcile_lem :
    (ents : List Entry) (k : ℕ) (l : RaftLog)
    → IsWellFormed l
    → Indexed k ents
    → l.snap_index < k
    → k ≤ l.snap_index + length l.entries + 1
    → k + length ents < 2 ^ 64
    → Agrees l ents
    → (m : RaftLog) × (reconcile ents l ≡ some m) × Merged k ents l m
unfolding reconcile
reconcile_lem [] k l w hi lo hk hr ha = (
  l,
  refl,
  record {
    well_formed = w;
    same_snap_index = refl;
    same_snap_term = refl;
    same_committed = refl;
    same_applied = refl;
    reaches = omega arith;
    below = λ i _. refl;
    held = tt;
  },
)
reconcile_lem (e ∷ es) k l w hi lo hk hr ha = elim (Option-cases (term l e.index)) [
  | inl missing ↦
      let end : k ≡ l.snap_index + length l.entries + 1 =
        omega (arith, hi.0, term-none l e.index w (omega (arith, hi.0)) missing) in
      (
        record l { entries = l.entries ++ (e ∷ es) },
        ground (arith, missing, append-some (e ∷ es) l w (rw end at hi)),
        extend-Merged k (e ∷ es) l w end hi hr,
      )
  | inr (t, found) ↦ elim (Bool-cases (t == e.term)) [
    | inl same ↦
        let (m, q, d) =
          reconcile_lem es (suc k) l w hi.1 (omega arith)
            (omega (arith, hi.0, term_bound l e.index t w found)) (omega arith) ha.1 in
        (
          m,
          ground (arith, found, same, q),
          record {
            well_formed = d.well_formed;
            same_snap_index = d.same_snap_index;
            same_snap_term = d.same_snap_term;
            same_committed = d.same_committed;
            same_applied = d.same_applied;
            reaches = omega (arith, d.reaches);
            below = λ i lt. d.below i (omega arith);
            held = (
              d.below e.index (omega (arith, hi.0)) ∙ found ∙ ap some ((==_iff t e.term).0 same),
              d.held,
            );
          },
        )
    | inr differs ↦
        let late : l.committed < e.index = conflict_late l e t found differs ha.0 in
        let (m, q, d) = replace-Merged k (e ∷ es) l w hi (omega (arith, hi.0)) hk hr in
        (m, ground (arith, found, differs, q, hi.0), d)
  ]
]

-- AppendEntries from index prev_index + 1 on, accepted by the log `l` with the answer `m`.
pub record Accepted (prev_index commit : ℕ) (ents : List Entry) (l m : RaftLog) : Type 0 where
  pub well_formed : IsWellFormed m
  pub same_snapshot : (m.snap_index ≡ l.snap_index) × (m.snap_term ≡ l.snap_term)
  pub same_applied : m.applied ≡ l.applied
  pub advanced : m.committed ≡ max l.committed (min commit (prev_index + length ents))
  pub below : (i : ℕ) → i ≤ prev_index → term m i ≡ term l i
  pub held : All (λ e. term m e.index ≡ some e.term) ents

commit_to-eq :
    (i : ℕ) (l : RaftLog)
    → IsWellFormed l
    → i ≤ l.snap_index + length l.entries
    → commit_to i l ≡ some (record l { committed = max l.committed i })
unfolding commit_to
commit_to-eq i l w h = ground (arith, last_index-eq l w)

committed-term : (l : RaftLog) (c i : ℕ) → term (record l { committed = c }) i ≡ term l i
unfolding term last_index
committed-term l c i = refl

committed-IsWellFormed :
    (l : RaftLog) (i : ℕ)
    → IsWellFormed l
    → i ≤ l.snap_index + length l.entries
    → IsWellFormed (record l { committed = max l.committed i })
committed-IsWellFormed l i w h = record {
  offset_next = w.offset_next;
  snap_applied = w.snap_applied;
  applied_committed = omega (arith, w.applied_committed);
  committed_last = omega (arith, w.committed_last);
  room = w.room;
  indexed = w.indexed;
}

commit-Merged :
    (prev_index commit : ℕ) (ents : List Entry) (l m : RaftLog)
    → Merged (prev_index + 1) ents l m
    → Accepted prev_index commit ents l
        (record m { committed = max m.committed (min commit (prev_index + length ents)) })
commit-Merged prev_index commit ents l m d =
    let c : ℕ = max m.committed (min commit (prev_index + length ents)) in
    record {
      well_formed =
          committed-IsWellFormed m (min commit (prev_index + length ents)) d.well_formed
            (omega (arith, d.reaches));
      same_snapshot = (d.same_snap_index, d.same_snap_term);
      same_applied = d.same_applied;
      advanced = omega (arith, d.same_committed);
      below = λ i le. committed-term m c i ∙ d.below i (omega arith);
      held = rw (fun_ext (committed-term m c)) d.held;
    }

-- When a well-formed log holds the previous entry with its term, the entries follow it, their
-- indices fit a word and none contradicts a committed entry, maybeAppend succeeds with the index of
-- the last new entry; the new log is well formed, holds every new entry's term at its index, keeps
-- the terms up to the previous entry, the snapshot boundary and the applied index, and commits up to
-- the leader's commit index or the last new entry, never less than before.
pub maybe_append_accepts :
    (prev_index prev_term commit : ℕ) (ents : List Entry) (l : RaftLog)
    → IsWellFormed l
    → term l prev_index ≡ some prev_term
    → Indexed (prev_index + 1) ents
    → prev_index + length ents + 1 < 2 ^ 64
    → Agrees l ents
    → (m : RaftLog) × (maybe_append prev_index prev_term commit ents l
        ≡ some (some (prev_index + length ents), m))
      × Accepted prev_index commit ents l m
unfolding maybe_append
maybe_append_accepts prev_index prev_term commit ents l w ht hi hr ha =
    let (lo, hi') = term_bound l prev_index prev_term w ht in
    let (m, q, d) =
      reconcile_lem ents (prev_index + 1) l w hi (omega arith) (omega arith) (omega arith) ha in
    (
      record m { committed = max m.committed (min commit (prev_index + length ents)) },
      ground (
        arith,
        ht,
        q,
        commit_to-eq (min commit (prev_index + length ents)) m d.well_formed
            (omega (arith, d.reaches)),
      ),
      commit-Merged prev_index commit ents l m d,
    )

-- A log without the previous entry at its term answers ok=false and stays as it is.
pub maybe_append_rejects :
    (prev_index prev_term commit : ℕ) (ents : List Entry) (l : RaftLog)
    → term l prev_index ≢ some prev_term
    → maybe_append prev_index prev_term commit ents l ≡ some (none, l)
unfolding maybe_append
maybe_append_rejects prev_index prev_term commit ents l h = ground arith
