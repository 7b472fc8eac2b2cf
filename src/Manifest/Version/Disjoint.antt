-- ===== src/Manifest/Version/Disjoint.antt =====
-- internal/manifest/version.go
-- The levels below level 0 of the version that applyEdit gives.
use basalt.Prelude.{
  ℕ, suc, ◌≡◌, ◌≢◌, refl, subst, some, List, [], ◌∷◌, All, arith, true, Bool-cases, Option-cases,
  inl, inr, Ordering, Bytes,
}
use basalt.Keys.{compare_keys}
use basalt.Keys.Before.{before, HasTrailer, before_trans, before_step, compare_keys-HasTrailer}
use basalt.Manifest.Edit.{FileMeta}
use basalt.Manifest.Version.Everywhere.{AllAt, All-sort_smallest, All-sort_newest}
use basalt.Manifest.Version.{
  in_order, all_in_order, sort_smallest, sort_newest, apart, settle_deeper, settle, not_gt,
}

abbrev pub InOrder : FileMeta → Type 0
InOrder f = in_order f ≡ some true

-- Every file is before all that stand behind it, each of them with its whole range.
abbrev pub Reaches : Bytes → FileMeta → Type 0
Reaches key g = before key g.smallest ≡ true

abbrev pub Disjoint : List FileMeta → Type 0
Disjoint [] = Unit
Disjoint (f ∷ fs) = All (Reaches f.largest) fs × Disjoint fs

abbrev pub DisjointBelow : List (List FileMeta) → Type 0
DisjointBelow [] = Unit
DisjointBelow (fs ∷ ls) = All Disjoint ls

pub InOrder-HasTrailer : (f : FileMeta) → InOrder f → HasTrailer f.smallest × HasTrailer f.largest
unfolding in_order
InOrder-HasTrailer f h = elim (Option-cases (compare_keys f.smallest f.largest)) [
  | inl panic ↦ absurd (ground (arith, panic, h))
  | inr (o, e) ↦ compare_keys-HasTrailer f.smallest f.largest o e
]

pub in_order_lem : (f : FileMeta) → InOrder f → compare_keys f.smallest f.largest ≢ some Ordering.gt
unfolding in_order not_gt
in_order_lem f h e = ground (arith, h, e)

-- What is before a file that is before another one is before the other one.
reaches_on :
    (f g h : FileMeta)
    → InOrder f
    → InOrder g
    → InOrder h
    → before f.largest g.smallest ≡ true
    → before g.largest h.smallest ≡ true
    → before f.largest h.smallest ≡ true
reaches_on f g h wf wg wh p q =
    let (gs, gl) = InOrder-HasTrailer g wg in
    let fl = (InOrder-HasTrailer f wf).1 in
    let hs = (InOrder-HasTrailer h wh).0 in
    before_trans f.largest g.largest h.smallest fl gl hs
      (before_step f.largest g.smallest g.largest fl gs gl p (in_order_lem g wg)) q

apart-cons :
    (f g : FileMeta) (gs : List FileMeta)
    → apart (f ∷ g ∷ gs) ≡ true
    → (before f.largest g.smallest ≡ true) × (apart (g ∷ gs) ≡ true)
unfolding apart
apart-cons f g gs h = (ground (arith, h), ground (arith, h))

All-Reaches :
    (f g : FileMeta) (gs : List FileMeta)
    → InOrder f
    → InOrder g
    → All InOrder gs
    → before f.largest g.smallest ≡ true
    → All (Reaches g.largest) gs
    → All (Reaches f.largest) gs
All-Reaches f g [] wf wg w p a = tt
All-Reaches f g (h ∷ hs) wf wg (wh, w) p (q, a) =
    (reaches_on f g h wf wg wh p q, All-Reaches f g hs wf wg w p a)

apart-Disjoint : (fs : List FileMeta) → All InOrder fs → apart fs ≡ true → Disjoint fs
apart-Disjoint [] w h = tt
apart-Disjoint (f ∷ []) w h = (tt, tt)
apart-Disjoint (f ∷ g ∷ gs) (wf, (wg, w)) h =
    let (p, rest) = apart-cons f g gs h in
    let (a, d) = apart-Disjoint (g ∷ gs) (wg, w) rest in
    ((p, All-Reaches f g gs wf wg w p a), (a, d))

-- A file in order, at its level.
abbrev pub Sits : ℕ → FileMeta → Type 0
Sits k f = InOrder f × (f.level ≡ k)

pub All-InOrder : (k : ℕ) (fs : List FileMeta) → All (Sits k) fs → All InOrder fs
All-InOrder k [] w = tt
All-InOrder k (f ∷ fs) ((p, q), w) = (p, All-InOrder k fs w)

-- The added files, each at the level that it names.
pub all_in_order_lem :
    (fs : List FileMeta) → all_in_order fs ≡ some true → All (λ (f : FileMeta). Sits f.level f) fs
unfolding all_in_order
all_in_order_lem [] h = tt
all_in_order_lem (f ∷ fs) h =
    let now : in_order f ≡ some true = ground (arith, h) in
    let later : all_in_order fs ≡ some true = ground (arith, h) in
    ((now, refl), all_in_order_lem fs later)

settle_deeper_lem :
    (k : ℕ) (ls ls' : List (List FileMeta))
    → AllAt Sits k ls
    → settle_deeper ls ≡ some ls'
    → AllAt Sits k ls' × All Disjoint ls'
unfolding settle_deeper
settle_deeper_lem k [] ls' w h =
    let now : [] ≡ ls' = ground (arith, h) in
    (subst (AllAt Sits k) now tt, subst (All Disjoint) now tt)
settle_deeper_lem k (fs ∷ ls) ls' (p, w) h = elim (Bool-cases (apart (sort_smallest fs))) [
  | inr overlap ↦ absurd (ground (arith, overlap, h))
  | inl clear ↦ elim (Option-cases (settle_deeper ls)) [
    | inl stops ↦ absurd (ground (arith, clear, stops, h))
    | inr (rest, e) ↦
        let now : sort_smallest fs ∷ rest ≡ ls' = ground (arith, clear, e, h) in
        let (a, d) = settle_deeper_lem (suc k) ls rest w e in
        let q = All-sort_smallest (Sits k) fs p in
        (
          subst (AllAt Sits k) now (q, a),
          subst (All Disjoint) now
              (apart-Disjoint (sort_smallest fs) (All-InOrder k (sort_smallest fs) q) clear, d),
        )
  ]
]

pub settle_lem :
    (ls ls' : List (List FileMeta))
    → AllAt Sits 0 ls
    → settle ls ≡ some ls'
    → AllAt Sits 0 ls' × DisjointBelow ls'
unfolding settle
settle_lem [] ls' w h =
    let now : [] ≡ ls' = ground (arith, h) in
    (subst (AllAt Sits 0) now tt, subst DisjointBelow now tt)
settle_lem (fs ∷ ls) ls' (p, w) h = elim (Option-cases (settle_deeper ls)) [
  | inl stops ↦ absurd (ground (arith, stops, h))
  | inr (rest, e) ↦
      let now : sort_newest fs ∷ rest ≡ ls' = ground (arith, e, h) in
      let (a, d) = settle_deeper_lem 1 ls rest w e in
      (subst (AllAt Sits 0) now (All-sort_newest (Sits 0) fs p, a), subst DisjointBelow now d)
]
