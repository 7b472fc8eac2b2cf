-- ===== src/Memtable/Insert.antt =====
-- Add: where it puts a node, and that it keeps the order.
use basalt.Prelude.{
  ℕ, zero, suc, ◌+◌, ◌-◌, ◌<◌, ◌≤◌, ◌≡◌, refl, sym, ap, subst, ◌∙◌, Option, none, some, List, [],
  ◌∷◌, ◌++◌, arith, Bool, true, false, ltb, ◌==◌, if◌then◌else◌, Ordering, Bytes, length, take,
  length-append, All, Bool-cases, inl, inr, ◌>>=◌,
}
use basalt.Keys.{append_internal_key}
use basalt.Keys.Before.{before, HasTrailer, before_trans, before_total}
use basalt.Memtable.{SkipNode, MemTable, max_height, grow_height, random_height, duplicate}
use basalt.Memtable.Search.{Below, Sorted, linear_search}

-- The key of a version that was added.
pub record Encodes (n : SkipNode) : Type 0 where
  pub user : Bytes
  pub seq : ℕ
  pub kind : ℕ
  pub key_is : append_internal_key [] user seq kind ≡ some n.key

pub record IsTable (m : MemTable) : Type 0 where
  pub sorted : Sorted m.nodes
  pub encoded : All Encodes m.nodes
  pub heights : All (λ n. n.height ≤ m.height) m.nodes
  pub height_in : (1 ≤ m.height) × (m.height ≤ max_height)

abbrev pub AllBefore : Bytes → List SkipNode → Type 0
AllBefore key nodes = All (λ n. before n.key key ≡ true) nodes

-- A list splits where the search stops.
pub record Split (key : Bytes) (nodes : List SkipNode) : Type 0 where
  pub front : List SkipNode
  pub whole : nodes ≡ front ++ linear_search key nodes
  pub in_front : AllBefore key front

pub Split-at : (key : Bytes) (nodes : List SkipNode) → Split key nodes
unfolding linear_search
Split-at key [] = record { front = []; whole = refl; in_front = tt }
Split-at key (n ∷ rest) = elim (Bool-cases (before n.key key)) [
  | inl moves ↦
      let s = Split-at key rest in
      let step : linear_search key (n ∷ rest) ≡ linear_search key rest = ground (arith, moves) in
      record {
        front = n ∷ s.front;
        whole = ap (λ t. n ∷ t) s.whole ∙ ap (λ t. n ∷ (s.front ++ t)) (sym step);
        in_front = (moves, s.in_front);
      }
  | inr stops ↦
      let step : linear_search key (n ∷ rest) ≡ n ∷ rest = ground (arith, stops) in
      record { front = []; whole = sym step; in_front = tt }
]

pub linear_search_head :
    (key : Bytes) (nodes : List SkipNode) (n : SkipNode) (rest : List SkipNode)
    → linear_search key nodes ≡ n ∷ rest
    → before n.key key ≡ false
unfolding linear_search
linear_search_head key [] n rest e = absurd (ground arith)
linear_search_head key (m ∷ nodes) n rest e = elim (Bool-cases (before m.key key)) [
  | inl moves ↦ linear_search_head key nodes n rest (ground (arith, moves))
  | inr stops ↦
      let same : m ≡ n = ground (arith, stops) in subst (λ t. before t.key key ≡ false) same stops
]

pub take_front :
    (front back : List SkipNode)
    → take (length (front ++ back) - length back) (front ++ back) ≡ front
take_front front back =
    let n : length (front ++ back) - length back ≡ length front =
      omega (arith, length-append front back) in
    rw n (basalt.Prelude.take-append_left front back)

Below_trans :
    (a b : Bytes) (rest : List SkipNode)
    → HasTrailer a
    → HasTrailer b
    → before a b ≡ true
    → Below b rest
    → Sorted rest
    → Below a rest
Below_trans a b [] ha hb h w s = tt
Below_trans a b (n ∷ rest) ha hb h w s =
    (before_trans a b n.key ha hb s.0 h w.0, Below_trans a b rest ha hb h w.1 s.3)

Below-append :
    (a : Bytes) (front : List SkipNode) (n : SkipNode) (back : List SkipNode)
    → Below a (front ++ back)
    → before a n.key ≡ true
    → Below a (front ++ (n ∷ back))
Below-append a [] n back w h = (h, w)
Below-append a (f ∷ front) n back w h = (w.0, Below-append a front n back w.1 h)

pub Sorted-insert :
    (front : List SkipNode) (n : SkipNode) (back : List SkipNode)
    → Sorted (front ++ back)
    → AllBefore n.key front
    → HasTrailer n.key
    → 0 < n.height
    → Below n.key back
    → Sorted (front ++ (n ∷ back))
Sorted-insert [] n back s w k h b = (k, h, b, s)
Sorted-insert (f ∷ front) n back s w k h b =
    (s.0, s.1, Below-append f.key front n back s.2 w.0, Sorted-insert front n back s.3 w.1 k h b)

pub Sorted-back : (front back : List SkipNode) → Sorted (front ++ back) → Sorted back
Sorted-back [] back s = s
Sorted-back (f ∷ front) back s = Sorted-back front back s.3

-- What the duplicate test leaves behind the key.
pub Below-found :
    (key : Bytes) (found : List SkipNode)
    → HasTrailer key
    → Sorted found
    → duplicate key found ≡ false
    → ((n : SkipNode) (rest : List SkipNode) → found ≡ n ∷ rest → before n.key key ≡ false)
    → Below key found
unfolding duplicate
Below-found key [] k s d h = tt
Below-found key (n ∷ rest) k s d h =
    let stops = h n rest refl in
    let first : before key n.key ≡ true = elim (Bool-cases (before key n.key)) [
      | inl p ↦ p
      | inr q ↦ absurd (ground (arith, before_total n.key key s.0 k stops q))
    ] in
    (first, Below_trans key n.key rest k s.0 first s.2 s.3)

grow_height_bounds :
    (k h : ℕ) (draw : ℕ → ℕ) → (h ≤ grow_height k h draw) × (grow_height k h draw ≤ h + k)
unfolding grow_height
grow_height_bounds zero h draw = omega arith
grow_height_bounds (suc k) h draw = ground (arith, grow_height_bounds k (suc h) draw)

pub random_height_bounds :
    (draw : ℕ → ℕ) → (1 ≤ random_height draw) × (random_height draw ≤ max_height)
unfolding random_height
random_height_bounds draw = omega (arith, grow_height_bounds 11 1 draw)

pub All-insert {ℓ κ} :
    {A : Type ℓ} (P : A → Type κ) (front : List A) (n : A) (back : List A)
    → All P (front ++ back)
    → P n
    → All P (front ++ (n ∷ back))
All-insert P [] n back w h = (h, w)
All-insert P (f ∷ front) n back w h = (w.0, All-insert P front n back w.1 h)

pub All-map {ℓ κ μ} :
    {A : Type ℓ} (P : A → Type κ) (Q : A → Type μ) (xs : List A)
    → ((a : A) → P a → Q a)
    → All P xs
    → All Q xs
All-map P Q [] f w = tt
All-map P Q (x ∷ xs) f w = (f x w.0, All-map P Q xs f w.1)
