-- ===== src/Manifest/Version/Snapshot.antt =====
-- internal/manifest/version.go
-- A snapshot, applied to the empty version, gives the version back.
use mathlib.Core.List.{append_assoc, append-nil}
use basalt.Prelude.{
  ℕ, zero, suc, ◌+◌, ◌≤◌, ◌≡◌, refl, subst, sym, ap, ◌∙◌, some, List, [], ◌∷◌, ◌++◌, arith, true,
  Bool-cases, inl, inr, All, length, length-append,
}
use basalt.Keys.Before.{before, before_behind}
use basalt.Manifest.Edit.{FileMeta}
use basalt.Manifest.Version.{
  Version, numbered, is_live, append_at, add_all, insert_smallest, sort_smallest, delete_all,
  no_version, all_in_order, insert_newest, sort_newest, apart, settle_deeper, settle, apply_edit,
  all_files, snapshot, edited, settle_edit,
}
use basalt.Manifest.Version.Everywhere.{AllAt}
use basalt.Manifest.Version.Newest.{Under, Newest, NewestFirst}
use basalt.Manifest.Version.WellFormed.{IsVersion}
use basalt.Manifest.Version.Disjoint.{
  InOrder, Sits, All-InOrder, Reaches, Disjoint, DisjointBelow, InOrder-HasTrailer, in_order_lem,
}
use basalt.Manifest.Version.Counts.{one, count, tally, count-append}

abbrev blank : List (List FileMeta) → List (List FileMeta)
blank [] = []
blank (fs ∷ ls) = [] ∷ blank ls

empties : ℕ → List (List FileMeta)
empties zero = []
empties (suc n) = [] ∷ empties n

blank-length : (ls : List (List FileMeta)) → blank ls ≡ empties (length ls)
unfolding empties
blank-length [] = refl
blank-length (fs ∷ ls) = ap (λ t. [] ∷ t) (blank-length ls)

append_at_lem :
    (front : List (List FileMeta)) (f : FileMeta) (fs : List FileMeta) (back : List (List FileMeta))
    → append_at (length front) f (front ++ (fs ∷ back)) ≡ some (front ++ ((fs ++ (f ∷ [])) ∷ back))
unfolding append_at
append_at_lem [] f fs back = refl
append_at_lem (gs ∷ front) f fs back = ground (arith, append_at_lem front f fs back)

count-numbered : (n : ℕ) (fs : List FileMeta) → numbered n fs ≡ true → 1 ≤ count n fs
unfolding numbered count one
count-numbered n [] h = absurd (ground (arith, h))
count-numbered n (f ∷ fs) h = ground (arith, h, count-numbered n fs)

live_tally : (n : ℕ) (ls : List (List FileMeta)) → is_live n ls ≡ true → 1 ≤ tally n ls
unfolding is_live tally
live_tally n [] h = absurd (ground (arith, h))
live_tally n (fs ∷ ls) h = ground (arith, h, count-numbered n fs, live_tally n ls)

tally-append : (n : ℕ) (ks ls : List (List FileMeta)) → tally n (ks ++ ls) ≡ tally n ks + tally n ls
unfolding tally
tally-append n [] ls = omega arith
tally-append n (fs ∷ ks) ls = omega (arith, tally-append n ks ls)

tally-blank : (n : ℕ) (ls : List (List FileMeta)) → tally n (blank ls) ≡ 0
unfolding tally count
tally-blank n [] = omega arith
tally-blank n (fs ∷ ls) = omega (arith, tally-blank n ls)

count_own : (f : FileMeta) (fs : List FileMeta) → 1 ≤ count f.file_num (f ∷ fs)
unfolding count one
count_own f fs = ground arith

count_moved :
    (n : ℕ) (front : List (List FileMeta)) (acc : List FileMeta) (f : FileMeta)
    (back : List (List FileMeta)) (fs : List FileMeta)
    → tally n (front ++ ((acc ++ (f ∷ [])) ∷ back)) + count n fs
      ≡ tally n (front ++ (acc ∷ back)) + count n (f ∷ fs)
unfolding tally count
count_moved n front acc f back fs = omega (
  arith,
  tally-append n front ((acc ++ (f ∷ [])) ∷ back),
  tally-append n front (acc ∷ back),
  count-append n acc (f ∷ []),
)

-- Files of one level, none of them live, are added to it in their order.
add_all_level :
    (front : List (List FileMeta)) (acc : List FileMeta) (back : List (List FileMeta))
    (fs more : List FileMeta)
    → All (Sits (length front)) fs
    → ((n : ℕ) → tally n (front ++ (acc ∷ back)) + count n fs ≤ 1)
    → add_all (fs ++ more) (front ++ (acc ∷ back)) ≡ add_all more (front ++ ((acc ++ fs) ∷ back))
unfolding add_all
add_all_level front acc back [] more w u =
    ap (λ t. add_all more (front ++ (t ∷ back))) (sym (append-nil acc))
add_all_level front acc back (f ∷ fs) more ((o, p), w) u =
    elim (Bool-cases (is_live f.file_num (front ++ (acc ∷ back)))) [
      | inl live ↦ absurd (
          omega (
            arith,
            u f.file_num,
            live_tally f.file_num (front ++ (acc ∷ back)) live,
            count_own f fs,
          ))
      | inr fresh ↦
          let at : append_at f.level f (front ++ (acc ∷ back))
              ≡ some (front ++ ((acc ++ (f ∷ [])) ∷ back)) =
            subst
              (λ t.
                append_at t f (front ++ (acc ∷ back)) ≡ some (front ++ ((acc ++ (f ∷ [])) ∷ back)))
              (sym p) (append_at_lem front f acc back) in
          let first : add_all (f ∷ (fs ++ more)) (front ++ (acc ∷ back))
              ≡ add_all (fs ++ more) (front ++ ((acc ++ (f ∷ [])) ∷ back)) =
            ground (arith, fresh, at) in
          first
          ∙ add_all_level front (acc ++ (f ∷ [])) back fs more w
              (λ n. omega (arith, u n, count_moved n front acc f back fs))
          ∙ ap (λ t. add_all more (front ++ (t ∷ back))) (append_assoc acc (f ∷ []) fs)
    ]

tally_room :
    (n : ℕ) (front : List (List FileMeta)) (fs : List FileMeta) (ls : List (List FileMeta))
    → tally n (front ++ ([] ∷ blank ls)) + count n fs ≤ tally n (front ++ (fs ∷ ls))
unfolding tally count
tally_room n front fs ls =
    omega (
      arith,
      tally-append n front ([] ∷ blank ls),
      tally-append n front (fs ∷ ls),
      tally-blank n ls,
    )

-- The files of all levels, added to as many empty levels.
add_all_files :
    (front ls : List (List FileMeta))
    → AllAt Sits (length front) ls
    → ((n : ℕ) → tally n (front ++ ls) ≤ 1)
    → add_all (all_files ls) (front ++ blank ls) ≡ some (front ++ ls)
unfolding all_files
add_all_files front [] w u = unfold add_all in refl
add_all_files front (fs ∷ ls) (p, w) u =
    let len : length (front ++ (fs ∷ [])) ≡ suc (length front) =
      omega (arith, length-append front (fs ∷ [])) in
    let w' = subst (λ t. AllAt Sits t ls) (sym len) w in
    add_all_level front [] (blank ls) fs (all_files ls) p
      (λ n. omega (arith, u n, tally_room n front fs ls))
    ∙ ap (add_all (all_files ls)) (sym (append_assoc front (fs ∷ []) (blank ls)))
    ∙ add_all_files (front ++ (fs ∷ [])) ls w'
        (λ n. subst (λ t. tally n t ≤ 1) (sym (append_assoc front (fs ∷ []) ls)) (u n))
    ∙ ap some (append_assoc front (fs ∷ []) ls)

all_in_order-append :
    (fs gs : List FileMeta)
    → All InOrder fs
    → all_in_order gs ≡ some true
    → all_in_order (fs ++ gs) ≡ some true
unfolding all_in_order
all_in_order-append [] gs w h = h
all_in_order-append (f ∷ fs) gs (p, w) h = ground (arith, p, all_in_order-append fs gs w h)

all_in_order-all_files :
    (k : ℕ) (ls : List (List FileMeta)) → AllAt Sits k ls → all_in_order (all_files ls) ≡ some true
unfolding all_files
all_in_order-all_files k [] w = unfold all_in_order in refl
all_in_order-all_files k (fs ∷ ls) (p, w) =
    all_in_order-append fs (all_files ls) (All-InOrder k fs p) (all_in_order-all_files (suc k) ls w)

insert_newest_first :
    (f : FileMeta) (fs : List FileMeta) → All (Under f.file_num) fs → insert_newest f fs ≡ f ∷ fs
unfolding insert_newest
insert_newest_first f [] w = refl
insert_newest_first f (g ∷ gs) (p, w) = ground (arith, p)

sort_newest_sorted : (fs : List FileMeta) → Newest fs → sort_newest fs ≡ fs
unfolding sort_newest
sort_newest_sorted [] w = refl
sort_newest_sorted (f ∷ fs) (p, w) =
    ap (insert_newest f) (sort_newest_sorted fs w) ∙ insert_newest_first f fs p

-- A file that is not crossed and ends before another one begins before it.
starts_before :
    (f g : FileMeta)
    → InOrder f
    → InOrder g
    → Reaches f.largest g
    → before f.smallest g.smallest ≡ true
starts_before f g wf wg p =
    let (fs, fl) = InOrder-HasTrailer f wf in
    let (gs, gl) = InOrder-HasTrailer g wg in
    before_behind f.smallest f.largest g.smallest fs fl gs (in_order_lem f wf) p

insert_smallest_first :
    (f : FileMeta) (fs : List FileMeta)
    → InOrder f
    → All InOrder fs
    → All (Reaches f.largest) fs
    → insert_smallest f fs ≡ f ∷ fs
unfolding insert_smallest
insert_smallest_first f [] wf w p = refl
insert_smallest_first f (g ∷ gs) wf (wg, w) (p, ps) = ground (arith, starts_before f g wf wg p)

sort_smallest_sorted : (fs : List FileMeta) → All InOrder fs → Disjoint fs → sort_smallest fs ≡ fs
unfolding sort_smallest
sort_smallest_sorted [] w d = refl
sort_smallest_sorted (f ∷ fs) (wf, w) (p, d) =
    ap (insert_smallest f) (sort_smallest_sorted fs w d) ∙ insert_smallest_first f fs wf w p

Disjoint-apart : (fs : List FileMeta) → Disjoint fs → apart fs ≡ true
unfolding apart
Disjoint-apart [] d = refl
Disjoint-apart (f ∷ []) d = refl
Disjoint-apart (f ∷ g ∷ gs) ((p, ps), d) = ground (arith, p, Disjoint-apart (g ∷ gs) d)

settle_deeper_settled :
    (k : ℕ) (ls : List (List FileMeta))
    → AllAt Sits k ls
    → All Disjoint ls
    → settle_deeper ls ≡ some ls
unfolding settle_deeper
settle_deeper_settled k [] w d = refl
settle_deeper_settled k (fs ∷ ls) (p, w) (q, d) =
    let same = sort_smallest_sorted fs (All-InOrder k fs p) q in
    ground (arith, same, ap apart same, Disjoint-apart fs q, settle_deeper_settled (suc k) ls w d)

settle_settled :
    (ls : List (List FileMeta))
    → AllAt Sits 0 ls
    → DisjointBelow ls
    → NewestFirst ls
    → settle ls ≡ some ls
unfolding settle
settle_settled [] w d n = refl
settle_settled (fs ∷ ls) (p, w) d n =
    ground (arith, sort_newest_sorted fs n, settle_deeper_settled 1 ls w d)

-- The snapshot of a well-formed version, applied to the empty version, is accepted and gives the
-- version back, with the order of the files in every level.
pub apply_edit-snapshot :
    (v : Version) → IsVersion v → apply_edit no_version (snapshot v) ≡ edited v
unfolding apply_edit settle_edit snapshot delete_all
apply_edit-snapshot v w =
    let start : no_version.files ≡ blank v.files =
      unfold empties in sym (blank-length v.files ∙ ap empties w.levels) in
    let added = ap (add_all (all_files v.files)) start ∙ add_all_files [] v.files w.placed w.once in
    let checked = all_in_order-all_files 0 v.files w.placed in
    let settled = settle_settled v.files w.placed w.disjoint w.newest in
    ground (arith, added, checked, settled)
