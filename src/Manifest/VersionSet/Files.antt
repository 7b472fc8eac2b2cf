-- ===== src/Manifest/VersionSet/Files.antt =====
-- internal/manifest/version_set.go
-- The files of a version as the log holds them.
use basalt.Prelude.{
  ℕ, suc, ◌≡◌, refl, subst, some, List, [], ◌∷◌, ◌++◌, arith, All, Option-cases, inl, inr,
}
use basalt.Manifest.Edit.{FileMeta, VersionEdit}
use basalt.Manifest.Edit.Fields.{IsFileMeta, IsEdit}
use basalt.Manifest.Version.{
  Version, apply_edit, snapshot, all_files, settle, settle_deeper, sort_newest, sort_smallest,
  edited,
}
use basalt.Manifest.Version.Steps.{apply_edit-Edited}
use basalt.Manifest.Version.Everywhere.{
  AllAt, All-delete_all, All-add_all, All-sort_newest, All-sort_smallest,
}
use basalt.Manifest.VersionSet.Stamps.{IsFileAt}

-- The files behind an edit fit the log, where those of the version and of the edit do.

All-settle_deeper :
    (k : ℕ) (ls ls' : List (List FileMeta))
    → AllAt IsFileAt k ls
    → settle_deeper ls ≡ some ls'
    → AllAt IsFileAt k ls'
unfolding settle_deeper
All-settle_deeper k [] ls' w h =
    let now : [] ≡ ls' = ground (arith, h) in subst (AllAt IsFileAt k) now tt
All-settle_deeper k (fs ∷ ls) ls' (p, w) h = elim (Option-cases (settle_deeper ls)) [
  | inl stops ↦ absurd (ground (arith, stops, h))
  | inr (rest, e) ↦
      let now : sort_smallest fs ∷ rest ≡ ls' = ground (arith, e, h) in
      subst (AllAt IsFileAt k) now
        (All-sort_smallest IsFileMeta fs p, All-settle_deeper (suc k) ls rest w e)
]

All-settle :
    (ls ls' : List (List FileMeta))
    → AllAt IsFileAt 0 ls
    → settle ls ≡ some ls'
    → AllAt IsFileAt 0 ls'
unfolding settle
All-settle [] ls' w h = let now : [] ≡ ls' = ground (arith, h) in subst (AllAt IsFileAt 0) now tt
All-settle (fs ∷ ls) ls' (p, w) h = elim (Option-cases (settle_deeper ls)) [
  | inl stops ↦ absurd (ground (arith, stops, h))
  | inr (rest, e) ↦
      let now : sort_newest fs ∷ rest ≡ ls' = ground (arith, e, h) in
      subst (AllAt IsFileAt 0) now
        (All-sort_newest IsFileMeta fs p, All-settle_deeper 1 ls rest w e)
]

pub apply_edit-files :
    (v v' : Version) (e : VersionEdit)
    → AllAt IsFileAt 0 v.files
    → All IsFileMeta e.add_files
    → apply_edit v e ≡ edited v'
    → AllAt IsFileAt 0 v'.files
apply_edit-files v v' e w adds h =
    let s = apply_edit-Edited v v' e h in
    All-settle s.added v'.files
      (All-add_all IsFileAt e.add_files s.kept s.added adds
        (All-delete_all IsFileAt e.delete_files v.files s.kept w s.deletes) s.adds)
      s.settles

All-append :
    (fs gs : List FileMeta) → All IsFileMeta fs → All IsFileMeta gs → All IsFileMeta (fs ++ gs)
All-append [] gs w v = v
All-append (f ∷ fs) gs (p, w) v = (p, All-append fs gs w v)

All-all_files :
    (k : ℕ) (ls : List (List FileMeta)) → AllAt IsFileAt k ls → All IsFileMeta (all_files ls)
unfolding all_files
All-all_files k [] w = tt
All-all_files k (fs ∷ ls) (p, w) = All-append fs (all_files ls) p (All-all_files (suc k) ls w)

pub snapshot-IsEdit : (v : Version) → AllAt IsFileAt 0 v.files → IsEdit (snapshot v)
unfolding snapshot
snapshot-IsEdit v w = record {
  log_number = (omega arith, inr refl);
  next_file_num = (omega arith, inr refl);
  last_seq = (omega arith, inr refl);
  adds = All-all_files 0 v.files w;
  deletes = tt;
}
