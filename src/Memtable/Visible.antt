-- ===== src/Memtable/Visible.antt =====
-- What Get sees after an Add.
use basalt.Prelude.{
  ℕ, ◌<◌, ◌≤◌, ◌≡◌, ◌⊎◌, refl, none, some, List, [], ◌∷◌, ◌++◌, arith, Bool, true, false, leb, ◌&&◌,
  if◌then◌else◌, Bytes, All, Bool-cases, inl, inr, Ordering, bytes_compare,
}
use basalt.Keys.{append_internal_key, decode_internal_key, max_kind, max_seq, InternalKey, ok}
use basalt.Keys.Codec.{decode-append_internal_key}
use basalt.Keys.Order.{version_order, compare_keys-append_internal_key}
use basalt.Keys.Before.{before, HasTrailer, before_trans, bytes_compare-eq}
use basalt.Memtable.{SkipNode, answer}
use basalt.Memtable.Search.{Below, Sorted, linear_search}
use basalt.Memtable.Insert.{Encodes, AllBefore}

abbrev pub same_bytes : Bytes → Bytes → Bool
same_bytes a b = elim (bytes_compare a b) [ Ordering.eq ↦ true | _ ↦ false ]

-- The order of two encoded versions, in their parts.
abbrev pub version_before : Bytes → ℕ → ℕ → Bytes → ℕ → ℕ → Bool
version_before u s k v t l = elim (version_order u s k v t l) [ Ordering.lt ↦ true | _ ↦ false ]

pub before-encoded :
    (u : Bytes) (s k : ℕ) (v : Bytes) (t l : ℕ) (a b : Bytes)
    → append_internal_key [] u s k ≡ some a
    → append_internal_key [] v t l ≡ some b
    → before a b ≡ version_before u s k v t l
unfolding before
before-encoded u s k v t l a b p q =
    ground (arith, compare_keys-append_internal_key u s k v t l a b p q)

pub encoded_in_range :
    (u : Bytes) (s k : ℕ) (a : Bytes)
    → append_internal_key [] u s k ≡ some a
    → (s ≤ max_seq) × (k ≤ max_kind)
unfolding append_internal_key
encoded_in_range u s k a h = ground arith

pub search-append :
    (key : Bytes) (front back : List SkipNode)
    → AllBefore key front
    → linear_search key (front ++ back) ≡ linear_search key back
unfolding linear_search
search-append key [] back w = refl
search-append key (f ∷ front) back w = ground (arith, w.0, search-append key front back w.1)

-- The search either passes all of the front or stops in it, whatever stands behind.
pub stops_in :
    (key : Bytes) (front : List SkipNode)
    → AllBefore key front
      ⊎ ((g : SkipNode) × (rest : List SkipNode) × (before g.key key ≡ false)
          × ((back : List SkipNode) → linear_search key (front ++ back) ≡ g ∷ (rest ++ back))
          × ((P : SkipNode → Type 0) → All P front → P g))
unfolding linear_search
stops_in key [] = inl tt
stops_in key (f ∷ front) = elim (Bool-cases (before f.key key)) [
  | inr stops ↦ inr (f, front, stops, λ (back : List SkipNode). ground (arith, stops), λ P w. w.0)
  | inl moves ↦ elim (stops_in key front) [
    | inl all ↦ inl (moves, all)
    | inr (g, rest, stops, found, member) ↦ inr (
      g,
      rest,
      stops,
      λ (back : List SkipNode). ground (arith, moves, found back),
      λ P w. member P w.1,
    )
  ]
]

pub answer-encoded :
    (user : Bytes) (n : SkipNode) (rest : List SkipNode) (u : Bytes) (s k : ℕ)
    → append_internal_key [] u s k ≡ some n.key
    → answer user (n ∷ rest) ≡ (if same_bytes u user then some (some (n.value, k)) else some none)
unfolding answer
answer-encoded user n rest u s k e = ground (arith, decode-append_internal_key [] u s k n.key e)

-- No version of the user key in the node is as new as `s`.
abbrev pub Older : Bytes → ℕ → SkipNode → Type 0
Older u s n = (ik : InternalKey) → decode_internal_key n.key ≡ ok ik → ik.user_key ≡ u → ik.seq < s

module _ (u : Bytes) (s k : ℕ) (user : Bytes) (q : ℕ) (sk : Bytes) (n : SkipNode)
    (n_is : append_internal_key [] u s k ≡ some n.key)
    (seek_is : append_internal_key [] user q max_kind ≡ some sk) where
  -- The version is passed over: it is not one that the snapshot sees.
  pub passed : before n.key sk ≡ true → (same_bytes u user && leb s q) ≡ false
  unfolding version_order
  passed h = ground (
    arith,
    before-encoded u s k user q max_kind n.key sk n_is seek_is,
    encoded_in_range u s k n.key n_is,
    bytes_compare-eq u user,
  )

  -- The search stops at a version in front: it is not one that the snapshot sees.
  pub hidden :
      (g : SkipNode)
      → Encodes g
      → Older u s g
      → before g.key n.key ≡ true
      → before g.key sk ≡ false
      → (same_bytes u user && leb s q) ≡ false
  unfolding version_order
  hidden g e old p r = ground (
    arith,
    before-encoded e.user e.seq e.kind u s k g.key n.key e.key_is n_is,
    before-encoded e.user e.seq e.kind user q max_kind g.key sk e.key_is seek_is,
    encoded_in_range e.user e.seq e.kind g.key e.key_is,
    bytes_compare-eq u user,
    bytes_compare-eq e.user u,
    old (record { user_key = e.user; seq = e.seq; kind = e.kind })
        (decode-append_internal_key [] e.user e.seq e.kind g.key e.key_is),
  )

  -- The search stops at the version of another user key: what stands behind does not answer.
  pub unanswered :
      (back : List SkipNode)
      → All Encodes back
      → Below n.key back
      → before n.key sk ≡ false
      → same_bytes u user ≡ false
      → answer user back ≡ some none
  unfolding version_order
  unanswered [] w b h d = unfold answer in refl
  unanswered (f ∷ back) w b h d =
      let e = w.0 in
      ground (
        arith,
        answer-encoded user f back e.user e.seq e.kind e.key_is,
        before-encoded u s k e.user e.seq e.kind n.key f.key n_is e.key_is,
        before-encoded u s k user q max_kind n.key sk n_is seek_is,
        bytes_compare-eq e.user user,
      )

  -- A version that the search stops at and that is of the user key is seen by the snapshot.
  pub seen : before n.key sk ≡ false → same_bytes u user ≡ true → leb s q ≡ true
  unfolding version_order
  seen h d = ground (arith, before-encoded u s k user q max_kind n.key sk n_is seek_is)

pub not_before :
    (key sk : Bytes) (back : List SkipNode)
    → HasTrailer key
    → HasTrailer sk
    → Sorted back
    → Below key back
    → before key sk ≡ false
    → linear_search sk back ≡ back
unfolding linear_search
not_before key sk [] hk hs w b h = refl
not_before key sk (f ∷ back) hk hs w b h = elim (Bool-cases (before f.key sk)) [
  | inl p ↦ absurd (ground (arith, before_trans key f.key sk hk w.0 hs b.0 p))
  | inr p ↦ ground (arith, p)
]
