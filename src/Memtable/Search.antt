-- ===== src/Memtable/Search.antt =====
-- findGE against a linear search.
use mathlib.Core.List.{append_assoc}
use basalt.Prelude.{
  subst, ℕ, zero, suc, ◌-◌, ◌<◌, ◌≡◌, refl, sym, ap, ◌∙◌, List, [], ◌∷◌, ◌++◌, arith, true, false,
  ltb, Bytes, Bool-cases, inl, inr,
}
use basalt.Keys.Before.{before, HasTrailer, before_trans}
use basalt.Memtable.{SkipNode, MemTable, advance, descend, find_ge}

-- The nodes are in Compare order, without repetition, hold trailers and are on level 0.
abbrev pub Below : Bytes → List SkipNode → Type 0
Below key [] = Unit
Below key (n ∷ rest) = (before key n.key ≡ true) × Below key rest

abbrev pub Sorted : List SkipNode → Type 0
Sorted [] = Unit
Sorted (n ∷ rest) = HasTrailer n.key × (0 < n.height) × Below n.key rest × Sorted rest

-- The reference: the first node that is not before the key, and what is behind it.
unfoldable pub linear_search : Bytes → List SkipNode → List SkipNode
linear_search key [] = []
linear_search key (n ∷ rest) = elim (before n.key key) [
  | true ↦ linear_search key rest
  | false ↦ n ∷ rest
]

Sorted-behind : (front rest : List SkipNode) → Sorted (front ++ rest) → Sorted rest
Sorted-behind [] rest w = w
Sorted-behind (f ∷ front) rest w = Sorted-behind front rest w.3

Below-behind :
    (key : Bytes) (front : List SkipNode) (n : SkipNode) (rest : List SkipNode)
    → Below key (front ++ (n ∷ rest))
    → before key n.key ≡ true
Below-behind key [] n rest w = w.0
Below-behind key (f ∷ front) n rest w = Below-behind key front n rest w.1

-- A node before the key has nothing in front of it that the search would stop at.
search_skips :
    (key : Bytes) (front : List SkipNode) (n : SkipNode) (rest : List SkipNode)
    → HasTrailer key
    → Sorted (front ++ (n ∷ rest))
    → before n.key key ≡ true
    → linear_search key (front ++ (n ∷ rest)) ≡ linear_search key rest
unfolding linear_search
search_skips key [] n rest k w h = ground (arith, h)
search_skips key (f ∷ front) n rest k w h =
    let behind = Sorted-behind front (n ∷ rest) w.3 in
    let skips : before f.key key ≡ true =
      before_trans f.key n.key key w.0 behind.0 k (Below-behind f.key front n rest w.2) h in
    ground (arith, skips, search_skips key front n rest k w.3 h)

more_front :
    (start front rest : List SkipNode) (n : SkipNode)
    → start ≡ front ++ (n ∷ rest)
    → start ≡ (front ++ (n ∷ [])) ++ rest
more_front start front rest n e = e ∙ sym (append_assoc front (n ∷ []) rest)

abbrev Found : Bytes → List SkipNode → List SkipNode → Type 0
Found key start back = (linear_search key back ≡ linear_search key start) × Sorted back

-- Moving along a level goes past nothing that the search would stop at.
advance-Found :
    (level : ℕ) (key : Bytes) (front start rest : List SkipNode)
    → HasTrailer key
    → start ≡ front ++ rest
    → Sorted start
    → Found key start (advance level key start rest)
unfolding advance
advance-Found level key front start [] k e w = (refl, w)
advance-Found level key front start (n ∷ rest) k e w = elim (Bool-cases (ltb level n.height)) [
  | inr short ↦
      let step : advance level key start (n ∷ rest) ≡ advance level key start rest =
        ground (arith, short) in
      subst (Found key start) (sym step) (
        advance-Found level key (front ++ (n ∷ [])) start rest k (more_front start front rest n e)
          w)
  | inl linked ↦ elim (Bool-cases (before n.key key)) [
    | inr stops ↦
        let step : advance level key start (n ∷ rest) ≡ start = ground (arith, linked, stops) in
        subst (Found key start) (sym step) (refl, w)
    | inl moves ↦
        let step : advance level key start (n ∷ rest) ≡ advance level key rest rest =
          ground (arith, linked, moves) in
        let all = subst Sorted e w in
        let here = Sorted-behind front (n ∷ rest) all in
        let (same, sorted) = advance-Found level key [] rest rest k refl here.3 in
        subst (Found key start) (sym step) (
          same ∙ sym (ap (linear_search key) e ∙ search_skips key front n rest k all moves),
          sorted,
        )
  ]
]

-- On level 0, where every node is linked, the moves are the search.
advance-bottom :
    (key : Bytes) (start : List SkipNode)
    → Sorted start
    → advance zero key start start ≡ linear_search key start
unfolding advance linear_search
advance-bottom key [] w = refl
advance-bottom key (n ∷ rest) w = ground (arith, w.1, advance-bottom key rest w.3)

descend-linear_search :
    (level : ℕ) (key : Bytes) (start : List SkipNode)
    → HasTrailer key
    → Sorted start
    → descend level key start ≡ linear_search key start
unfolding descend
descend-linear_search zero key start k w = advance-bottom key start w
descend-linear_search (suc level) key start k w =
    let (same, sorted) = advance-Found (suc level) key [] start start k refl w in
    descend-linear_search level key (advance (suc level) key start start) k sorted ∙ same

-- On nodes in Compare order and a key with a trailer, findGE finds what a linear search of all the
-- nodes finds, whatever the heights: the first node that is not before the key.
pub find_ge-linear_search :
    (key : Bytes) (m : MemTable)
    → HasTrailer key
    → Sorted m.nodes
    → find_ge key m ≡ linear_search key m.nodes
unfolding find_ge
find_ge-linear_search key m k w = descend-linear_search (m.height - 1) key m.nodes k w
