-- ===== src/Manifest/Version/Everywhere.antt =====
-- internal/manifest/version.go
-- What holds of all files of a version and of an edit holds of all files behind the edit.
use basalt.Prelude.{
  ℕ, zero, suc, ◌+◌, ◌≡◌, subst, some, List, [], ◌∷◌, ◌++◌, All, arith, ltb, ◌==◌, Bool-cases,
  Option-cases, inl, inr,
}
use basalt.Keys.Before.{before}
use basalt.Manifest.Edit.{FileMeta, DeletedFile}
use basalt.Manifest.Version.{
  remove_file, delete_at, delete_all, append_at, add_all, insert_smallest, sort_smallest,
  insert_newest, sort_newest, is_live,
}

module _ (P : FileMeta → Type 0) where
  All-insert_smallest :
      (f : FileMeta) (fs : List FileMeta) → P f → All P fs → All P (insert_smallest f fs)
  unfolding insert_smallest
  All-insert_smallest f [] p w = (p, tt)
  All-insert_smallest f (g ∷ gs) p (q, w) = elim (Bool-cases (before f.smallest g.smallest)) [
    | inl e ↦
        let now : f ∷ g ∷ gs ≡ insert_smallest f (g ∷ gs) = ground (arith, e) in
        subst (All P) now (p, (q, w))
    | inr e ↦
        let now : g ∷ insert_smallest f gs ≡ insert_smallest f (g ∷ gs) = ground (arith, e) in
        subst (All P) now (q, All-insert_smallest f gs p w)
  ]

  pub All-sort_smallest : (fs : List FileMeta) → All P fs → All P (sort_smallest fs)
  unfolding sort_smallest
  All-sort_smallest [] w = tt
  All-sort_smallest (f ∷ fs) (p, w) =
      All-insert_smallest f (sort_smallest fs) p (All-sort_smallest fs w)

  pub All-insert_newest :
      (f : FileMeta) (fs : List FileMeta) → P f → All P fs → All P (insert_newest f fs)
  unfolding insert_newest
  All-insert_newest f [] p w = (p, tt)
  All-insert_newest f (g ∷ gs) p (q, w) = elim (Bool-cases (ltb g.file_num f.file_num)) [
    | inl e ↦
        let now : f ∷ g ∷ gs ≡ insert_newest f (g ∷ gs) = ground (arith, e) in
        subst (All P) now (p, (q, w))
    | inr e ↦
        let now : g ∷ insert_newest f gs ≡ insert_newest f (g ∷ gs) = ground (arith, e) in
        subst (All P) now (q, All-insert_newest f gs p w)
  ]

  pub All-sort_newest : (fs : List FileMeta) → All P fs → All P (sort_newest fs)
  unfolding sort_newest
  All-sort_newest [] w = tt
  All-sort_newest (f ∷ fs) (p, w) = All-insert_newest f (sort_newest fs) p (All-sort_newest fs w)

  pub All-remove_file :
      (n : ℕ) (fs fs' : List FileMeta) → All P fs → remove_file n fs ≡ some fs' → All P fs'
  unfolding remove_file
  All-remove_file n [] fs' w h = absurd (ground (arith, h))
  All-remove_file n (f ∷ fs) fs' (p, w) h = elim (Bool-cases (f.file_num == n)) [
    | inl e ↦ let now : fs ≡ fs' = ground (arith, e, h) in subst (All P) now w
    | inr e ↦ elim (Option-cases (remove_file n fs)) [
      | inl gone ↦ absurd (ground (arith, e, gone, h))
      | inr (rest, e') ↦
          let now : f ∷ rest ≡ fs' = ground (arith, e, e', h) in
          subst (All P) now (p, All-remove_file n fs rest w e')
    ]
  ]

  All_with_last : (fs : List FileMeta) (f : FileMeta) → All P fs → P f → All P (fs ++ (f ∷ []))
  All_with_last [] f w p = (p, tt)
  All_with_last (g ∷ gs) f (q, w) p = (q, All_with_last gs f w p)

-- Every file with the number of its level, which the first list has.
abbrev pub AllAt : (ℕ → FileMeta → Type 0) → ℕ → List (List FileMeta) → Type 0
AllAt P k [] = Unit
AllAt P k (fs ∷ ls) = All (P k) fs × AllAt P (suc k) ls

module _ (P : ℕ → FileMeta → Type 0) where
  All-delete_at :
      (level n k : ℕ) (ls ls' : List (List FileMeta))
      → AllAt P k ls
      → delete_at level n ls ≡ some ls'
      → AllAt P k ls'
  unfolding delete_at
  All-delete_at level n k [] ls' w h = absurd (ground (arith, h))
  All-delete_at zero n k (fs ∷ ls) ls' (p, w) h = elim (Option-cases (remove_file n fs)) [
    | inl gone ↦ absurd (ground (arith, gone, h))
    | inr (rest, e) ↦
        let now : rest ∷ ls ≡ ls' = ground (arith, e, h) in
        subst (AllAt P k) now (All-remove_file (P k) n fs rest p e, w)
  ]
  All-delete_at (suc level) n k (fs ∷ ls) ls' (p, w) h =
      elim (Option-cases (delete_at level n ls)) [
        | inl gone ↦ absurd (ground (arith, gone, h))
        | inr (rest, e) ↦
            let now : fs ∷ rest ≡ ls' = ground (arith, e, h) in
            subst (AllAt P k) now (p, All-delete_at level n (suc k) ls rest w e)
      ]

  pub All-delete_all :
      (ds : List DeletedFile) (ls ls' : List (List FileMeta))
      → AllAt P 0 ls
      → delete_all ds ls ≡ some ls'
      → AllAt P 0 ls'
  unfolding delete_all
  All-delete_all [] ls ls' w h = let now : ls ≡ ls' = ground (arith, h) in subst (AllAt P 0) now w
  All-delete_all (d ∷ ds) ls ls' w h = elim (Option-cases (delete_at d.level d.file_num ls)) [
    | inl gone ↦ absurd (ground (arith, gone, h))
    | inr (mid, e) ↦
        All-delete_all ds mid ls' (All-delete_at d.level d.file_num 0 ls mid w e)
          (ground (arith, e, h))
  ]

  All-append_at :
      (level k : ℕ) (f : FileMeta) (ls ls' : List (List FileMeta))
      → P (level + k) f
      → AllAt P k ls
      → append_at level f ls ≡ some ls'
      → AllAt P k ls'
  unfolding append_at
  All-append_at level k f [] ls' p w h = absurd (ground (arith, h))
  All-append_at zero k f (fs ∷ ls) ls' p (q, w) h =
      let now : (fs ++ (f ∷ [])) ∷ ls ≡ ls' = ground (arith, h) in
      let here : P k f = subst (λ t. P t f) (omega arith) p in
      subst (AllAt P k) now (All_with_last (P k) fs f q here, w)
  All-append_at (suc level) k f (fs ∷ ls) ls' p (q, w) h =
      elim (Option-cases (append_at level f ls)) [
        | inl gone ↦ absurd (ground (arith, gone, h))
        | inr (rest, e) ↦
            let now : fs ∷ rest ≡ ls' = ground (arith, e, h) in
            let there : P (level + suc k) f = subst (λ t. P t f) (omega arith) p in
            subst (AllAt P k) now (q, All-append_at level (suc k) f ls rest there w e)
      ]

  pub All-add_all :
      (fs : List FileMeta) (ls ls' : List (List FileMeta))
      → All (λ (f : FileMeta). P f.level f) fs
      → AllAt P 0 ls
      → add_all fs ls ≡ some ls'
      → AllAt P 0 ls'
  unfolding add_all
  All-add_all [] ls ls' p w h = let now : ls ≡ ls' = ground (arith, h) in subst (AllAt P 0) now w
  All-add_all (f ∷ fs) ls ls' (p, ps) w h = elim (Bool-cases (is_live f.file_num ls)) [
    | inl live ↦ absurd (ground (arith, live, h))
    | inr fresh ↦ elim (Option-cases (append_at f.level f ls)) [
      | inl gone ↦ absurd (ground (arith, fresh, gone, h))
      | inr (mid, e) ↦
          let here : P (f.level + 0) f = subst (λ t. P t f) (omega arith) p in
          All-add_all fs mid ls' ps (All-append_at f.level 0 f ls mid here w e)
            (ground (arith, fresh, e, h))
    ]
  ]
