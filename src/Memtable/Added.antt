-- ===== src/Memtable/Added.antt =====
-- Add as an insertion into the sorted list of nodes.
use basalt.Prelude.{
  ℕ, ◌-◌, ◌<◌, ◌≤◌, ◌≡◌, refl, sym, ap, subst, ◌∙◌, some, List, [], ◌∷◌, ◌++◌, arith, false, ltb,
  if◌then◌else◌, Bytes, length, take, All, Bool-cases, Option-cases, inl, inr,
}
use basalt.Keys.{append_internal_key, trailer}
use basalt.Keys.Codec.{length-encoded}
use basalt.Keys.Before.{HasTrailer}
use basalt.Memtable.{SkipNode, MemTable, max_height, random_height, find_ge, duplicate, splice, add}
use basalt.Memtable.Search.{Below, Sorted, linear_search, find_ge-linear_search}
use basalt.Memtable.Insert.{
  Encodes, IsTable, AllBefore, Split-at, linear_search_head, take_front, Sorted-insert, Sorted-back,
  Below-found, random_height_bounds, All-insert, All-map,
}

pub append_internal_key-HasTrailer :
    (u : Bytes) (s k : ℕ) (key : Bytes) → append_internal_key [] u s k ≡ some key → HasTrailer key
unfolding append_internal_key
append_internal_key-HasTrailer u s k key h = ground (arith, length-encoded u (trailer s k))

-- What Add does, as an insertion.
pub record Added (draw : ℕ → ℕ) (u : Bytes) (s k : ℕ) (v : Bytes) (m m' : MemTable) : Type 0 where
  pub key : Bytes
  pub height : ℕ
  pub front : List SkipNode
  pub back : List SkipNode
  pub key_is : append_internal_key [] u s k ≡ some key
  pub was : m.nodes ≡ front ++ back
  pub now : m'.nodes ≡ front ++ (record { key = key; value = v; height = height } ∷ back)
  pub in_front : AllBefore key front
  pub behind : Below key back
  pub drawn : height ≡ random_height draw
  pub height_in : (1 ≤ height) × (height ≤ max_height)
  pub top : m'.height ≡ (if ltb m.height height then height else m.height)
  pub grown : m.size < m'.size

module _ (draw : ℕ → ℕ) (u : Bytes) (s k : ℕ) (v : Bytes) (m : MemTable) (w : IsTable m) where
  splice-Added :
      (key : Bytes)
      → append_internal_key [] u s k ≡ some key
      → duplicate key (find_ge key m) ≡ false
      → Added draw u s k v m (splice draw key v m)
  unfolding splice
  splice-Added key e d =
      let trailered = append_internal_key-HasTrailer u s k key e in
      let same : find_ge key m ≡ linear_search key m.nodes =
        find_ge-linear_search key m trailered w.sorted in
      let parts = Split-at key m.nodes in
      let back : List SkipNode = linear_search key m.nodes in
      let cut : take (length m.nodes - length (find_ge key m)) m.nodes ≡ parts.front =
        ap (λ t. take (length m.nodes - length t) m.nodes) same
        ∙ ap (λ t. take (length t - length back) t) parts.whole
        ∙ take_front parts.front back in
      let n : SkipNode = record { key = key; value = v; height = random_height draw } in
      record {
        key = key;
        height = random_height draw;
        front = parts.front;
        back = back;
        key_is = e;
        was = parts.whole;
        now = ap (λ t. t ++ (n ∷ find_ge key m)) cut ∙ ap (λ t. parts.front ++ (n ∷ t)) same;
        in_front = parts.in_front;
        behind =
            Below-found key back trailered
              (Sorted-back parts.front back (subst Sorted parts.whole w.sorted))
              (ap (duplicate key) (sym same) ∙ d) (linear_search_head key m.nodes);
        drawn = refl;
        height_in = random_height_bounds draw;
        top = refl;
        grown = omega arith;
      }

  pub add-Added : (m' : MemTable) → add draw u s k v m ≡ some m' → Added draw u s k v m m'
  unfolding add
  add-Added m' h = elim (Option-cases (append_internal_key [] u s k)) [
    | inl refused ↦ absurd (ground (arith, refused))
    | inr (key, e) ↦ elim (Bool-cases (duplicate key (find_ge key m))) [
      | inl twice ↦ absurd (ground (arith, e, twice))
      | inr fresh ↦
          let same : splice draw key v m ≡ m' = ground (arith, e, fresh) in
          subst (Added draw u s k v m) same (splice-Added key e fresh)
    ]
  ]

-- An Add that does not panic keeps the order of the nodes, the keys that encode versions and the
-- heights, and the table grows.
pub add-IsTable :
    (draw : ℕ → ℕ) (u : Bytes) (s k : ℕ) (v : Bytes) (m m' : MemTable)
    → IsTable m
    → add draw u s k v m ≡ some m'
    → IsTable m' × (m.size < m'.size)
add-IsTable draw u s k v m m' w h =
    let a = add-Added draw u s k v m w m' h in
    let n : SkipNode = record { key = a.key; value = v; height = a.height } in
    let taller : m.height ≤ m'.height = ground (arith, a.top) in
    let tall : a.height ≤ m'.height = ground (arith, a.top) in
    (
      record {
        sorted = subst Sorted (sym a.now) (
            Sorted-insert a.front n a.back (subst Sorted a.was w.sorted) a.in_front
              (append_internal_key-HasTrailer u s k a.key a.key_is) a.height_in.0 a.behind);
        encoded = subst (All Encodes) (sym a.now) (
            All-insert Encodes a.front n a.back (subst (All Encodes) a.was w.encoded)
              (record { user = u; seq = s; kind = k; key_is = a.key_is }));
        heights = subst (All (λ n. n.height ≤ m'.height)) (sym a.now) (
            All-insert (λ n. n.height ≤ m'.height) a.front n a.back
              (subst (All (λ n. n.height ≤ m'.height)) a.was (
                All-map (λ n. n.height ≤ m.height) (λ n. n.height ≤ m'.height) m.nodes
                  (λ n p. omega (arith, p, taller)) w.heights))
              tall);
        height_in = ground (arith, a.top, w.height_in, a.height_in);
      },
      a.grown,
    )
