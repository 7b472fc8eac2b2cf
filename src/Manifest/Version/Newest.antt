-- ===== src/Manifest/Version/Newest.antt =====
-- internal/manifest/version.go
-- The order of level 0.
use basalt.Prelude.{
  ℕ, ◌≤◌, ◌<◌, ◌≡◌, subst, some, List, [], ◌∷◌, arith, ltb, false, Bool-cases, Option-cases, inl,
  inr, All,
}
use basalt.Manifest.Edit.{FileMeta}
use basalt.Manifest.Version.{insert_newest, sort_newest, settle_deeper, settle}
use basalt.Manifest.Version.Everywhere.{All-insert_newest}
use basalt.Manifest.Version.Counts.{one, count, tally, count-sort_newest}

abbrev pub Under : ℕ → FileMeta → Type 0
Under n f = f.file_num < n

-- The files by descending number.
abbrev pub Newest : List FileMeta → Type 0
Newest [] = Unit
Newest (f ∷ fs) = All (Under f.file_num) fs × Newest fs

abbrev pub NewestFirst : List (List FileMeta) → Type 0
NewestFirst [] = Unit
NewestFirst (fs ∷ ls) = Newest fs

All-Under : (m n : ℕ) (fs : List FileMeta) → m ≤ n → All (Under m) fs → All (Under n) fs
All-Under m n [] l w = tt
All-Under m n (f ∷ fs) l (p, w) = (omega (arith, p, l), All-Under m n fs l w)

one_own : (n : ℕ) → one n n ≡ 1
unfolding one
one_own n = ground arith

apart_numbers :
    (f g : FileMeta) (gs : List FileMeta)
    → ltb g.file_num f.file_num ≡ false
    → count f.file_num (g ∷ gs) ≡ 0
    → (f.file_num < g.file_num) × (count f.file_num gs ≡ 0)
unfolding count one
apart_numbers f g gs e c = (ground (arith, e, c), ground (arith, e, c))

insert_newest-Newest :
    (f : FileMeta) (fs : List FileMeta)
    → count f.file_num fs ≡ 0
    → Newest fs
    → Newest (insert_newest f fs)
unfolding insert_newest
insert_newest-Newest f [] c w = (tt, tt)
insert_newest-Newest f (g ∷ gs) c (p, w) = elim (Bool-cases (ltb g.file_num f.file_num)) [
  | inl e ↦
      let now : f ∷ g ∷ gs ≡ insert_newest f (g ∷ gs) = ground (arith, e) in
      let below : g.file_num < f.file_num = ground (arith, e) in
      subst Newest now
        ((below, All-Under g.file_num f.file_num gs (omega (arith, below)) p), (p, w))
  | inr e ↦
      let now : g ∷ insert_newest f gs ≡ insert_newest f (g ∷ gs) = ground (arith, e) in
      let (above, absent) = apart_numbers f g gs e c in
      subst Newest now
        (All-insert_newest (Under g.file_num) f gs above p, insert_newest-Newest f gs absent w)
]

pub sort_newest-Newest : (fs : List FileMeta) → ((n : ℕ) → count n fs ≤ 1) → Newest (sort_newest fs)
unfolding sort_newest count
sort_newest-Newest [] u = tt
sort_newest-Newest (f ∷ fs) u =
    insert_newest-Newest f (sort_newest fs)
      (omega (arith, u f.file_num, one_own f.file_num, count-sort_newest f.file_num fs))
      (sort_newest-Newest fs (λ n. omega (arith, u n)))

-- Where no number is live twice, level 0 is settled by descending number.
pub settle-NewestFirst :
    (ls ls' : List (List FileMeta))
    → ((n : ℕ) → tally n ls ≤ 1)
    → settle ls ≡ some ls'
    → NewestFirst ls'
unfolding settle tally
settle-NewestFirst [] ls' u h = let now : [] ≡ ls' = ground (arith, h) in subst NewestFirst now tt
settle-NewestFirst (fs ∷ ls) ls' u h = elim (Option-cases (settle_deeper ls)) [
  | inl stops ↦ absurd (ground (arith, stops, h))
  | inr (rest, e) ↦
      let now : sort_newest fs ∷ rest ≡ ls' = ground (arith, e, h) in
      subst NewestFirst now (sort_newest-Newest fs (λ n. omega (arith, u n)))
]
