-- ===== src/Manifest/Version/WellFormed.antt =====
-- internal/manifest/version.go
-- The well-formed versions, and that an edit keeps a version well formed.
use basalt.Prelude.{
  ℕ, zero, suc, ◌≤◌, ◌≡◌, sym, ap, ◌∙◌, some, List, [], ◌∷◌, ◌++◌, arith, Bool-cases, Option-cases,
  inl, inr, length,
}
use basalt.Manifest.Edit.{FileMeta, DeletedFile, VersionEdit, num_levels}
use basalt.Manifest.Version.{
  Version, remove_file, delete_at, delete_all, append_at, add_all, settle_deeper, settle,
  apply_edit, is_live, sort_smallest, sort_newest, edited,
}
use basalt.Manifest.Version.Steps.{apply_edit-Edited}
use basalt.Manifest.Version.Counts.{tally, tally-apply_edit, tally-delete_all, tally-add_all}
use basalt.Manifest.Version.Everywhere.{AllAt, All-delete_all, All-add_all}
use basalt.Manifest.Version.Newest.{NewestFirst, settle-NewestFirst}
use basalt.Manifest.Version.Disjoint.{Sits, DisjointBelow, all_in_order_lem, settle_lem}

-- All levels are there, every file is in order and at its level, no number is live twice, level 0 is
-- by descending number, and in the levels below it each file ends before the files behind it begin.
pub record IsVersion (v : Version) : Type 0 where
  pub levels : length v.files ≡ num_levels
  pub placed : AllAt Sits 0 v.files
  pub once : (n : ℕ) → tally n v.files ≤ 1
  pub newest : NewestFirst v.files
  pub disjoint : DisjointBelow v.files

length-delete_at :
    (level n : ℕ) (ls ls' : List (List FileMeta))
    → delete_at level n ls ≡ some ls'
    → length ls' ≡ length ls
unfolding delete_at
length-delete_at level n [] ls' h = absurd (ground (arith, h))
length-delete_at zero n (fs ∷ ls) ls' h = elim (Option-cases (remove_file n fs)) [
  | inl gone ↦ absurd (ground (arith, gone, h))
  | inr (rest, e) ↦
      let now : rest ∷ ls ≡ ls' = ground (arith, e, h) in sym (ap (length {A = List FileMeta}) now)
]
length-delete_at (suc level) n (fs ∷ ls) ls' h = elim (Option-cases (delete_at level n ls)) [
  | inl gone ↦ absurd (ground (arith, gone, h))
  | inr (rest, e) ↦
      let now : fs ∷ rest ≡ ls' = ground (arith, e, h) in
      sym (ap (length {A = List FileMeta}) now) ∙ ap suc (length-delete_at level n ls rest e)
]

length-delete_all :
    (ds : List DeletedFile) (ls ls' : List (List FileMeta))
    → delete_all ds ls ≡ some ls'
    → length ls' ≡ length ls
unfolding delete_all
length-delete_all [] ls ls' h =
    let now : ls ≡ ls' = ground (arith, h) in sym (ap (length {A = List FileMeta}) now)
length-delete_all (d ∷ ds) ls ls' h = elim (Option-cases (delete_at d.level d.file_num ls)) [
  | inl gone ↦ absurd (ground (arith, gone, h))
  | inr (mid, e) ↦
      let rest : delete_all ds mid ≡ some ls' = ground (arith, e, h) in
      length-delete_all ds mid ls' rest ∙ length-delete_at d.level d.file_num ls mid e
]

length-append_at :
    (level : ℕ) (f : FileMeta) (ls ls' : List (List FileMeta))
    → append_at level f ls ≡ some ls'
    → length ls' ≡ length ls
unfolding append_at
length-append_at level f [] ls' h = absurd (ground (arith, h))
length-append_at zero f (fs ∷ ls) ls' h =
    let now : (fs ++ (f ∷ [])) ∷ ls ≡ ls' = ground (arith, h) in
    sym (ap (length {A = List FileMeta}) now)
length-append_at (suc level) f (fs ∷ ls) ls' h = elim (Option-cases (append_at level f ls)) [
  | inl gone ↦ absurd (ground (arith, gone, h))
  | inr (rest, e) ↦
      let now : fs ∷ rest ≡ ls' = ground (arith, e, h) in
      sym (ap (length {A = List FileMeta}) now) ∙ ap suc (length-append_at level f ls rest e)
]

length-add_all :
    (fs : List FileMeta) (ls ls' : List (List FileMeta))
    → add_all fs ls ≡ some ls'
    → length ls' ≡ length ls
unfolding add_all
length-add_all [] ls ls' h =
    let now : ls ≡ ls' = ground (arith, h) in sym (ap (length {A = List FileMeta}) now)
length-add_all (f ∷ fs) ls ls' h = elim (Bool-cases (is_live f.file_num ls)) [
  | inl live ↦ absurd (ground (arith, live, h))
  | inr fresh ↦ elim (Option-cases (append_at f.level f ls)) [
    | inl gone ↦ absurd (ground (arith, fresh, gone, h))
    | inr (mid, e) ↦
        let rest : add_all fs mid ≡ some ls' = ground (arith, fresh, e, h) in
        length-add_all fs mid ls' rest ∙ length-append_at f.level f ls mid e
  ]
]

length-settle_deeper :
    (ls ls' : List (List FileMeta)) → settle_deeper ls ≡ some ls' → length ls' ≡ length ls
unfolding settle_deeper
length-settle_deeper [] ls' h =
    let now : [] ≡ ls' = ground (arith, h) in sym (ap (length {A = List FileMeta}) now)
length-settle_deeper (fs ∷ ls) ls' h = elim (Option-cases (settle_deeper ls)) [
  | inl stops ↦ absurd (ground (arith, stops, h))
  | inr (rest, e) ↦
      let now : sort_smallest fs ∷ rest ≡ ls' = ground (arith, e, h) in
      sym (ap (length {A = List FileMeta}) now) ∙ ap suc (length-settle_deeper ls rest e)
]

length-settle : (ls ls' : List (List FileMeta)) → settle ls ≡ some ls' → length ls' ≡ length ls
unfolding settle
length-settle [] ls' h =
    let now : [] ≡ ls' = ground (arith, h) in sym (ap (length {A = List FileMeta}) now)
length-settle (fs ∷ ls) ls' h = elim (Option-cases (settle_deeper ls)) [
  | inl stops ↦ absurd (ground (arith, stops, h))
  | inr (rest, e) ↦
      let now : sort_newest fs ∷ rest ≡ ls' = ground (arith, e, h) in
      sym (ap (length {A = List FileMeta}) now) ∙ ap suc (length-settle_deeper ls rest e)
]

-- An edit that applyEdit accepts keeps a version well formed: it has all its levels, every file
-- stands at its level with its smallest key not behind its largest one, no file number is live
-- twice, level 0 is by descending file number, and in every level below it each file ends before
-- all the files behind it begin, so that the files of a level have disjoint ranges in ascending
-- order.
pub apply_edit-IsVersion :
    (v v' : Version) (e : VersionEdit) → IsVersion v → apply_edit v e ≡ edited v' → IsVersion v'
apply_edit-IsVersion v v' e w h =
    let s = apply_edit-Edited v v' e h in
    let kept = All-delete_all Sits e.delete_files v.files s.kept w.placed s.deletes in
    let added =
      All-add_all Sits e.add_files s.kept s.added (all_in_order_lem e.add_files s.checks) kept
        s.adds in
    let (a, d) = settle_lem s.added v'.files added s.settles in
    record {
      levels =
          length-settle s.added v'.files s.settles
          ∙ length-add_all e.add_files s.kept s.added s.adds
          ∙ length-delete_all e.delete_files v.files s.kept s.deletes
          ∙ w.levels;
      placed = a;
      once = λ n. (tally-apply_edit n v v' e (w.once n) h).1;
      newest =
          settle-NewestFirst s.added v'.files
            (λ n.
              (tally-add_all n e.add_files s.kept s.added s.adds (
                omega
                  (arith, w.once n, tally-delete_all n e.delete_files v.files s.kept s.deletes))).1)
            s.settles;
      disjoint = d;
    }
