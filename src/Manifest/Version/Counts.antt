-- ===== src/Manifest/Version/Counts.antt =====
-- internal/manifest/version.go
-- Which file numbers an edit takes out of a version and which it brings in.
use basalt.Prelude.{
  ℕ, zero, suc, ◌+◌, ◌≤◌, ◌≡◌, refl, subst, ap, some, List, [], ◌∷◌, ◌++◌, arith, ◌==◌, false,
  Bool-cases, Option-cases, inl, inr, if◌then◌else◌,
}
use basalt.Manifest.Edit.{FileMeta, DeletedFile, VersionEdit}
use basalt.Manifest.Version.{
  Version, numbered, is_live, remove_file, delete_at, delete_all, append_at, add_all,
  insert_smallest, sort_smallest, insert_newest, sort_newest, settle_deeper, settle, apply_edit,
  edited,
}
use basalt.Manifest.Version.Steps.{apply_edit-Edited}

module _ (n : ℕ) where
  unfoldable pub one : ℕ → ℕ
  one m = if m == n then 1 else 0

  -- How many files of a level, and of all levels, have the number n.
  unfoldable pub count : List FileMeta → ℕ
  count [] = 0
  count (f ∷ fs) = one f.file_num + count fs

  unfoldable pub tally : List (List FileMeta) → ℕ
  tally [] = 0
  tally (fs ∷ ls) = count fs + tally ls

  -- How many deletions name it.
  unfoldable pub deletions : List DeletedFile → ℕ
  deletions [] = 0
  deletions (d ∷ ds) = one d.file_num + deletions ds

  count-remove_file :
      (m : ℕ) (fs fs' : List FileMeta) → remove_file m fs ≡ some fs' → count fs' + one m ≡ count fs
  unfolding remove_file count one
  count-remove_file m [] fs' h = absurd (ground (arith, h))
  count-remove_file m (f ∷ fs) fs' h = elim (Bool-cases (f.file_num == m)) [
    | inl e ↦ let now : fs ≡ fs' = ground (arith, e, h) in ground (arith, e, ap count now)
    | inr e ↦ elim (Option-cases (remove_file m fs)) [
      | inl gone ↦ absurd (ground (arith, e, gone, h))
      | inr (rest, e') ↦
          let now : f ∷ rest ≡ fs' = ground (arith, e, e', h) in
          omega (arith, ap count now, count-remove_file m fs rest e')
    ]
  ]

  tally-delete_at :
      (level m : ℕ) (ls ls' : List (List FileMeta))
      → delete_at level m ls ≡ some ls'
      → tally ls' + one m ≡ tally ls
  unfolding delete_at tally
  tally-delete_at level m [] ls' h = absurd (ground (arith, h))
  tally-delete_at zero m (fs ∷ ls) ls' h = elim (Option-cases (remove_file m fs)) [
    | inl gone ↦ absurd (ground (arith, gone, h))
    | inr (rest, e) ↦
        let now : rest ∷ ls ≡ ls' = ground (arith, e, h) in
        omega (arith, ap tally now, count-remove_file m fs rest e)
  ]
  tally-delete_at (suc level) m (fs ∷ ls) ls' h = elim (Option-cases (delete_at level m ls)) [
    | inl gone ↦ absurd (ground (arith, gone, h))
    | inr (rest, e) ↦
        let now : fs ∷ rest ≡ ls' = ground (arith, e, h) in
        omega (arith, ap tally now, tally-delete_at level m ls rest e)
  ]

  pub tally-delete_all :
      (ds : List DeletedFile) (ls ls' : List (List FileMeta))
      → delete_all ds ls ≡ some ls'
      → tally ls' + deletions ds ≡ tally ls
  unfolding delete_all deletions
  tally-delete_all [] ls ls' h =
      let now : ls ≡ ls' = ground (arith, h) in omega (arith, ap tally now)
  tally-delete_all (d ∷ ds) ls ls' h = elim (Option-cases (delete_at d.level d.file_num ls)) [
    | inl gone ↦ absurd (ground (arith, gone, h))
    | inr (mid, e) ↦
        let rest : delete_all ds mid ≡ some ls' = ground (arith, e, h) in
        omega (arith, tally-delete_at d.level d.file_num ls mid e, tally-delete_all ds mid ls' rest)
  ]

  pub count-append : (fs gs : List FileMeta) → count (fs ++ gs) ≡ count fs + count gs
  unfolding count
  count-append [] gs = omega arith
  count-append (f ∷ fs) gs = omega (arith, count-append fs gs)

  tally-append_at :
      (level : ℕ) (f : FileMeta) (ls ls' : List (List FileMeta))
      → append_at level f ls ≡ some ls'
      → tally ls' ≡ tally ls + one f.file_num
  unfolding append_at tally count
  tally-append_at level f [] ls' h = absurd (ground (arith, h))
  tally-append_at zero f (fs ∷ ls) ls' h =
      let now : (fs ++ (f ∷ [])) ∷ ls ≡ ls' = ground (arith, h) in
      omega (arith, ap tally now, count-append fs (f ∷ []))
  tally-append_at (suc level) f (fs ∷ ls) ls' h = elim (Option-cases (append_at level f ls)) [
    | inl gone ↦ absurd (ground (arith, gone, h))
    | inr (rest, e) ↦
        let now : fs ∷ rest ≡ ls' = ground (arith, e, h) in
        omega (arith, ap tally now, tally-append_at level f ls rest e)
  ]

  numbered-count : (fs : List FileMeta) → numbered n fs ≡ false → count fs ≡ 0
  unfolding numbered count one
  numbered-count [] h = omega arith
  numbered-count (f ∷ fs) h = ground (arith, h, numbered-count fs)

  is_live-tally : (ls : List (List FileMeta)) → is_live n ls ≡ false → tally ls ≡ 0
  unfolding is_live tally
  is_live-tally [] h = omega arith
  is_live-tally (fs ∷ ls) h = ground (arith, h, numbered-count fs, is_live-tally ls)

  fresh_once :
      (m : ℕ) (ls : List (List FileMeta))
      → is_live m ls ≡ false
      → tally ls ≤ 1
      → tally ls + one m ≤ 1
  unfolding one
  fresh_once m ls h l = elim (Bool-cases (m == n)) [
    | inr other ↦ ground (arith, other, l)
    | inl same ↦
        let e : m ≡ n = ground (arith, same) in
        let none_yet = is_live-tally ls (subst (λ t. is_live t ls ≡ false) e h) in
        ground (arith, same, none_yet)
  ]

  -- A number that is live at most once before the files are added is so behind them.
  pub tally-add_all :
      (fs : List FileMeta) (ls ls' : List (List FileMeta))
      → add_all fs ls ≡ some ls'
      → tally ls ≤ 1
      → (tally ls' ≡ tally ls + count fs) × (tally ls' ≤ 1)
  unfolding add_all count
  tally-add_all [] ls ls' h l =
      let now : ls ≡ ls' = ground (arith, h) in
      (omega (arith, ap tally now), omega (arith, ap tally now, l))
  tally-add_all (f ∷ fs) ls ls' h l = elim (Bool-cases (is_live f.file_num ls)) [
    | inl live ↦ absurd (ground (arith, live, h))
    | inr fresh ↦ elim (Option-cases (append_at f.level f ls)) [
      | inl gone ↦ absurd (ground (arith, fresh, gone, h))
      | inr (mid, e) ↦
          let more = tally-append_at f.level f ls mid e in
          let once : tally mid ≤ 1 = omega (arith, more, fresh_once f.file_num ls fresh l) in
          let rest : add_all fs mid ≡ some ls' = ground (arith, fresh, e, h) in
          let (a, b) = tally-add_all fs mid ls' rest once in (omega (arith, a, more), b)
    ]
  ]

  count-insert_smallest :
      (f : FileMeta) (fs : List FileMeta) → count (insert_smallest f fs) ≡ one f.file_num + count fs
  unfolding insert_smallest count
  count-insert_smallest f [] = refl
  count-insert_smallest f (g ∷ gs) = ground (arith, count-insert_smallest f gs)

  count-sort_smallest : (fs : List FileMeta) → count (sort_smallest fs) ≡ count fs
  unfolding sort_smallest count
  count-sort_smallest [] = refl
  count-sort_smallest (f ∷ fs) =
      omega (arith, count-insert_smallest f (sort_smallest fs), count-sort_smallest fs)

  count-insert_newest :
      (f : FileMeta) (fs : List FileMeta) → count (insert_newest f fs) ≡ one f.file_num + count fs
  unfolding insert_newest count
  count-insert_newest f [] = refl
  count-insert_newest f (g ∷ gs) = ground (arith, count-insert_newest f gs)

  pub count-sort_newest : (fs : List FileMeta) → count (sort_newest fs) ≡ count fs
  unfolding sort_newest count
  count-sort_newest [] = refl
  count-sort_newest (f ∷ fs) =
      omega (arith, count-insert_newest f (sort_newest fs), count-sort_newest fs)

  tally-settle_deeper :
      (ls ls' : List (List FileMeta)) → settle_deeper ls ≡ some ls' → tally ls' ≡ tally ls
  unfolding settle_deeper tally
  tally-settle_deeper [] ls' h =
      let now : [] ≡ ls' = ground (arith, h) in omega (arith, ap tally now)
  tally-settle_deeper (fs ∷ ls) ls' h = elim (Option-cases (settle_deeper ls)) [
    | inl stops ↦ absurd (ground (arith, stops, h))
    | inr (rest, e) ↦
        let now : sort_smallest fs ∷ rest ≡ ls' = ground (arith, e, h) in
        omega (arith, ap tally now, count-sort_smallest fs, tally-settle_deeper ls rest e)
  ]

  tally-settle : (ls ls' : List (List FileMeta)) → settle ls ≡ some ls' → tally ls' ≡ tally ls
  unfolding settle tally
  tally-settle [] ls' h = let now : [] ≡ ls' = ground (arith, h) in omega (arith, ap tally now)
  tally-settle (fs ∷ ls) ls' h = elim (Option-cases (settle_deeper ls)) [
    | inl stops ↦ absurd (ground (arith, stops, h))
    | inr (rest, e) ↦
        let now : sort_newest fs ∷ rest ≡ ls' = ground (arith, e, h) in
        omega (arith, ap tally now, count-sort_newest fs, tally-settle_deeper ls rest e)
  ]

  -- An edit that applyEdit accepts changes the live files by what it names: for every file number
  -- that is live at most once, the files with it after the edit and the deletions that name it are
  -- as many as the files with it before and the additions of it, and it is live at most once again.
  pub tally-apply_edit :
      (v v' : Version) (e : VersionEdit)
      → tally v.files ≤ 1
      → apply_edit v e ≡ edited v'
      → (tally v'.files + deletions e.delete_files ≡ tally v.files + count e.add_files)
        × (tally v'.files ≤ 1)
  tally-apply_edit v v' e l h =
      let s = apply_edit-Edited v v' e h in
      let d = tally-delete_all e.delete_files v.files s.kept s.deletes in
      let (a, b) = tally-add_all e.add_files s.kept s.added s.adds (omega (arith, d, l)) in
      let t = tally-settle s.added v'.files s.settles in
      (omega (arith, d, a, t), omega (arith, b, t))
