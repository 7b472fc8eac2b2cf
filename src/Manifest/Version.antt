-- ===== src/Manifest/Version.antt =====
-- internal/manifest/version.go: the tables of each level and the application of an edit.
pub mod Steps
pub mod Counts
pub mod Everywhere
pub mod Newest
pub mod Disjoint
pub mod WellFormed
pub mod Snapshot
use basalt.Prelude.{
  ℕ, zero, suc, ◌+◌, Option, none, some, List, [], ◌∷◌, ◌++◌, Bool, true, false, ltb, ◌==◌, ◌||◌,
  not, ◌>>=◌, if◌then◌else◌, Ordering, Bytes,
}
use basalt.Keys.{compare_keys}
use basalt.Keys.Before.{before}
use basalt.Manifest.Edit.{FileMeta, DeletedFile, VersionEdit, no_edit}

-- One list of files for each of the num_levels levels.
pub record Version : Type 0 where
  pub files : List (List FileMeta)

abbrev pub no_version : Version
no_version = record { files = [] ∷ [] ∷ [] ∷ [] ∷ [] ∷ [] ∷ [] ∷ [] }

-- Whether a number is among the files of a level, and of all levels.
unfoldable pub numbered : ℕ → List FileMeta → Bool
numbered n [] = false
numbered n (f ∷ fs) = (f.file_num == n) || numbered n fs

unfoldable pub is_live : ℕ → List (List FileMeta) → Bool
is_live n [] = false
is_live n (fs ∷ ls) = numbered n fs || is_live n ls

-- The first file with the number is taken out; `none` where there is none.
unfoldable pub remove_file : ℕ → List FileMeta → Option (List FileMeta)
remove_file n [] = none
remove_file n (f ∷ fs) =
    let rest = remove_file n fs in
    if f.file_num == n then some fs else (rest >>= λ fs'. some (f ∷ fs'))

-- `none` also where the level is out of range.
unfoldable pub delete_at : ℕ → ℕ → List (List FileMeta) → Option (List (List FileMeta))
delete_at level n [] = none
delete_at zero n (fs ∷ ls) = remove_file n fs >>= λ fs'. some (fs' ∷ ls)
delete_at (suc level) n (fs ∷ ls) = delete_at level n ls >>= λ ls'. some (fs ∷ ls')

unfoldable pub delete_all : List DeletedFile → List (List FileMeta) → Option (List (List FileMeta))
delete_all [] ls = some ls
delete_all (d ∷ ds) ls = delete_at d.level d.file_num ls >>= delete_all ds

unfoldable pub append_at : ℕ → FileMeta → List (List FileMeta) → Option (List (List FileMeta))
append_at level f [] = none
append_at zero f (fs ∷ ls) = some ((fs ++ (f ∷ [])) ∷ ls)
append_at (suc level) f (fs ∷ ls) = append_at level f ls >>= λ ls'. some (fs ∷ ls')

unfoldable pub add_all : List FileMeta → List (List FileMeta) → Option (List (List FileMeta))
add_all [] ls = some ls
add_all (f ∷ fs) ls =
    if is_live f.file_num ls then none else (append_at f.level f ls >>= add_all fs)

unfoldable pub not_gt : Ordering → Bool
not_gt Ordering.gt = false
not_gt Ordering.lt = true
not_gt Ordering.eq = true

-- Smallest is not behind largest; `none` is Compare's panic on a key without a trailer.
unfoldable pub in_order : FileMeta → Option Bool
in_order f = do o ← compare_keys f.smallest f.largest; some (not_gt o)

-- The first file that fails the test refuses the edit, before the test of the next one.
unfoldable pub all_in_order : List FileMeta → Option Bool
all_in_order [] = some true
all_in_order (f ∷ fs) = do ok ← in_order f; if ok then all_in_order fs else some false

-- sort.Slice as an insertion sort: level 0 by descending number, the others by smallest key. Files
-- whose bounds have been compared have trailers, so Compare does not panic in the sort.
unfoldable pub insert_newest : FileMeta → List FileMeta → List FileMeta
insert_newest f [] = f ∷ []
insert_newest f (g ∷ gs) =
    let rest = insert_newest f gs in if ltb g.file_num f.file_num then f ∷ g ∷ gs else g ∷ rest

unfoldable pub sort_newest : List FileMeta → List FileMeta
sort_newest [] = []
sort_newest (f ∷ fs) = insert_newest f (sort_newest fs)

unfoldable pub insert_smallest : FileMeta → List FileMeta → List FileMeta
insert_smallest f [] = f ∷ []
insert_smallest f (g ∷ gs) =
    let rest = insert_smallest f gs in if before f.smallest g.smallest then f ∷ g ∷ gs else g ∷ rest

unfoldable pub sort_smallest : List FileMeta → List FileMeta
sort_smallest [] = []
sort_smallest (f ∷ fs) = insert_smallest f (sort_smallest fs)

-- No file reaches the next one.
unfoldable pub apart : List FileMeta → Bool
apart [] = true
apart (f ∷ []) = true
apart (f ∷ g ∷ gs) =
    let rest = apart (g ∷ gs) in if before f.largest g.smallest then rest else false

unfoldable pub settle_deeper : List (List FileMeta) → Option (List (List FileMeta))
settle_deeper [] = some []
settle_deeper (fs ∷ ls) =
    let rest = settle_deeper ls in
    if apart (sort_smallest fs) then (rest >>= λ ls'. some (sort_smallest fs ∷ ls')) else none

unfoldable pub settle : List (List FileMeta) → Option (List (List FileMeta))
settle [] = some []
settle (fs ∷ ls) = settle_deeper ls >>= λ ls'. some (sort_newest fs ∷ ls')

-- A new version, an error or a panic.
pub data EditResult : Type 0 where
  edited : Version → EditResult
  refused : EditResult
  crashes : EditResult

-- The part of applyEdit behind the checks.
unfoldable pub settle_edit : List (List FileMeta) → EditResult
settle_edit added = elim (settle added) [
  | none ↦ refused
  | some settled ↦ edited (record { files = settled })
]

unfoldable pub apply_edit : Version → VersionEdit → EditResult
apply_edit v e = elim (delete_all e.delete_files v.files >>= add_all e.add_files) [
  | none ↦ refused
  | some added ↦ elim (all_in_order e.add_files) [
    | none ↦ crashes
    | some false ↦ refused
    | some true ↦ settle_edit added
  ]
]

unfoldable pub all_files : List (List FileMeta) → List FileMeta
all_files [] = []
all_files (fs ∷ ls) = fs ++ all_files ls

unfoldable pub snapshot : Version → VersionEdit
snapshot v = record no_edit { add_files = all_files v.files }
