-- ===== src/Raft/Quorum.antt =====
-- Two quorums of one set of voters overlap.
use basalt.Prelude.{
  ℕ, suc, ◌+◌, ◌≤◌, ◌≡◌, refl, List, [], ◌∷◌, Bool, true, false, arith, inl, inr, Bool-cases, ◌==◌,
  if◌then◌else◌, length, contains, remove,
}
use basalt.Raft.Node.{Node, quorum}

-- No number occurs twice.
abbrev pub Distinct : List ℕ → Type 0
Distinct [] = Unit
Distinct (x ∷ xs) = (contains xs x ≡ false) × Distinct xs

-- Every number of the first list is in the second.
abbrev pub Within : List ℕ → List ℕ → Type 0
Within xs ys = (a : ℕ) → contains xs a ≡ true → contains ys a ≡ true

contains-remove :
    (a v : ℕ) (xs : List ℕ) → contains (remove v xs) a ≡ (if v == a then false else contains xs a)
unfolding contains remove
contains-remove a v [] = ground arith
contains-remove a v (x ∷ xs) = ground (arith, contains-remove a v xs)

Distinct-remove : (v : ℕ) (xs : List ℕ) → Distinct xs → Distinct (remove v xs)
unfolding remove contains
Distinct-remove v [] d = tt
Distinct-remove v (x ∷ xs) d = ground (arith, Distinct-remove v xs d.1, contains-remove x v xs)

-- Taking a number out of a list without repetition shortens it by one, if it was there.
length-remove :
    (v : ℕ) (xs : List ℕ)
    → Distinct xs
    → length xs ≡ (if contains xs v then suc (length (remove v xs)) else length (remove v xs))
unfolding remove contains
length-remove v [] d = refl
length-remove v (x ∷ xs) d = ground (arith, length-remove v xs d.1)

nothing-Within : (xs : List ℕ) → Within xs [] → length xs ≡ 0
unfolding contains
nothing-Within [] w = refl
nothing-Within (x ∷ xs) w = cc (w x (ground arith))

Within-remove : (v : ℕ) (xs vs : List ℕ) → Within xs (v ∷ vs) → Within (remove v xs) vs
unfolding contains
Within-remove v xs vs w a h = ground (arith, contains-remove a v xs, w a)

-- Disjoint lists within a third are together no longer than it.
disjoint_length :
    (vs xs ys : List ℕ)
    → Distinct xs
    → Distinct ys
    → Within xs vs
    → Within ys vs
    → ((a : ℕ) → contains xs a ≡ true → contains ys a ≡ false)
    → length xs + length ys ≤ length vs
disjoint_length [] xs ys dx dy wx wy apart =
    omega (arith, nothing-Within xs wx, nothing-Within ys wy)
disjoint_length (v ∷ vs) xs ys dx dy wx wy apart = ground (
  arith,
  length-remove v xs dx,
  length-remove v ys dy,
  apart v,
  disjoint_length vs (remove v xs) (remove v ys) (Distinct-remove v xs dx) (Distinct-remove v ys dy)
      (Within-remove v xs vs wx) (Within-remove v ys vs wy)
      (λ a h. ground (arith, contains-remove a v xs, contains-remove a v ys, apart a)),
)

shared : List ℕ → List ℕ → Bool
shared xs [] = false
shared xs (y ∷ ys) = if contains xs y then true else shared xs ys

shared-false :
    (xs ys : List ℕ) (a : ℕ) → shared xs ys ≡ false → contains xs a ≡ true → contains ys a ≡ false
unfolding shared contains
shared-false xs [] a h c = refl
shared-false xs (y ∷ ys) a h c = ground (arith, shared-false xs ys a)

shared-true :
    (xs ys : List ℕ)
    → shared xs ys ≡ true
    → (a : ℕ) × (contains xs a ≡ true) × (contains ys a ≡ true)
unfolding shared contains
shared-true xs [] h = cc
shared-true xs (y ∷ ys) h = elim (Bool-cases (contains xs y)) [
  | inl c ↦ (y, c, ground arith)
  | inr c ↦ let (a, p, q) = shared-true xs ys (ground arith) in (a, p, ground arith)
]

-- Two sets of voters of a node that are each at least its quorum have a member in common.
pub quorums_overlap :
    (n : Node) (xs ys : List ℕ)
    → Distinct xs
    → Distinct ys
    → Within xs n.voters
    → Within ys n.voters
    → quorum n ≤ length xs
    → quorum n ≤ length ys
    → (a : ℕ) × (contains xs a ≡ true) × (contains ys a ≡ true)
unfolding quorum
quorums_overlap n xs ys dx dy wx wy qx qy = elim (Bool-cases (shared xs ys)) [
  | inl s ↦ shared-true xs ys s
  | inr s ↦
      absurd (
        omega (arith, disjoint_length n.voters xs ys dx dy wx wy (λ a h. shared-false xs ys a s h)))
]
