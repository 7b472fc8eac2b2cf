-- ===== src/Memtable/Latest.antt =====
-- What Get answers after an Add.
use basalt.Prelude.{
  ℕ, ◌<◌, ◌≤◌, ◌≡◌, refl, subst, none, some, List, [], ◌∷◌, ◌++◌, arith, true, leb, ◌&&◌,
  if◌then◌else◌, Bytes, All, Bool-cases, Option-cases, inl, inr,
}
use basalt.Keys.{append_internal_key, append_seek_key, max_kind, max_seq}
use basalt.Keys.Before.{before}
use basalt.Memtable.{SkipNode, MemTable, add, get, answer}
use basalt.Memtable.Search.{Below, Sorted, linear_search, find_ge-linear_search}
use basalt.Memtable.Insert.{Encodes, IsTable, AllBefore, Sorted-back}
use basalt.Memtable.Added.{add-Added, add-IsTable, append_internal_key-HasTrailer}
use basalt.Memtable.Visible.{
  same_bytes, Older, search-append, stops_in, answer-encoded, not_before, passed, hidden,
  unanswered, seen,
}

answer-head :
    (user : Bytes) (g : SkipNode) (xs ys : List SkipNode)
    → answer user (g ∷ xs) ≡ answer user (g ∷ ys)
unfolding answer
answer-head user g xs ys = refl

found_after :
    (u : Bytes) (s k : ℕ) (user : Bytes) (q : ℕ) (sk : Bytes) (n : SkipNode)
    (front back : List SkipNode)
    → append_internal_key [] u s k ≡ some n.key
    → append_internal_key [] user q max_kind ≡ some sk
    → Sorted (front ++ back)
    → All Encodes front
    → All Encodes back
    → All (Older u s) front
    → AllBefore n.key front
    → Below n.key back
    → answer user (linear_search sk (front ++ (n ∷ back))) ≡ (
        if same_bytes u user && leb s q
        then some (some (n.value, k))
        else answer user (linear_search sk (front ++ back)))
found_after u s k user q sk n front back n_is seek_is w ef eb old b l =
    let hn = append_internal_key-HasTrailer u s k n.key n_is in
    let hs = append_internal_key-HasTrailer user q max_kind sk seek_is in
    elim (stops_in sk front) [
      | inr (g, rest, stops, found, member) ↦
          let hid =
            hidden u s k user q sk n n_is seek_is g (member Encodes ef) (member (Older u s) old)
              (member (λ g. before g.key n.key ≡ true) b) stops in
          ground (
            arith,
            hid,
            found (n ∷ back),
            found back,
            answer-head user g (rest ++ (n ∷ back)) (rest ++ back),
          )
      | inl all ↦
          let past = search-append sk front (n ∷ back) all in
          let past' = search-append sk front back all in
          elim (Bool-cases (before n.key sk)) [
            | inl p ↦
                let skip : linear_search sk (n ∷ back) ≡ linear_search sk back =
                  unfold linear_search in ground (arith, p) in
                ground (arith, past, past', skip, passed u s k user q sk n n_is seek_is p)
            | inr p ↦
                let stop : linear_search sk (n ∷ back) ≡ n ∷ back =
                  unfold linear_search in ground (arith, p) in
                let stay = not_before n.key sk back hn hs (Sorted-back front back w) l p in
                ground (
                  arith,
                  past,
                  past',
                  stop,
                  stay,
                  answer-encoded user n back u s k n_is,
                  unanswered u s k user q sk n n_is seek_is back eb l p,
                  seen u s k user q sk n n_is seek_is p,
                )
          ]
    ]

All-front {ℓ κ} :
    {A : Type ℓ} (P : A → Type κ) (front back : List A) → All P (front ++ back) → All P front
All-front P [] back w = tt
All-front P (f ∷ front) back w = (w.0, All-front P front back w.1)

All-back {ℓ κ} :
    {A : Type ℓ} (P : A → Type κ) (front back : List A) → All P (front ++ back) → All P back
All-back P [] back w = w
All-back P (f ∷ front) back w = All-back P front back w.1

seek_in_range : (user : Bytes) (q : ℕ) → append_internal_key [] user q max_kind ≡ none → max_seq < q
unfolding append_internal_key
seek_in_range user q h = ground arith

-- Adding a version (u, s, k) with a value, newer than all the versions of its user key in a
-- well-formed table, changes what Get answers for exactly this user key and the snapshots that see
-- it: they get the value and the kind, every other user key and snapshot gets what it got before.
-- Snapshots are at most MaxSeq.
pub get-add :
    (draw : ℕ → ℕ) (u : Bytes) (s k : ℕ) (v : Bytes) (m m' : MemTable) (user : Bytes) (q : ℕ)
    → IsTable m
    → add draw u s k v m ≡ some m'
    → All (Older u s) m.nodes
    → q ≤ max_seq
    → get user q m' ≡ (if same_bytes u user && leb s q then some (some (v, k)) else get user q m)
unfolding get append_seek_key
get-add draw u s k v m m' user q w h old in_range =
    elim (Option-cases (append_internal_key [] user q max_kind)) [
      | inl refused ↦ absurd (omega (arith, seek_in_range user q refused, in_range))
      | inr (sk, seek_is) ↦
          let a = add-Added draw u s k v m w m' h in
          let w' = add-IsTable draw u s k v m m' w h in
          let n : SkipNode = record { key = a.key; value = v; height = a.height } in
          let hs = append_internal_key-HasTrailer user q max_kind sk seek_is in
          let parts = subst (All Encodes) a.was w.encoded in
          let main =
            found_after u s k user q sk n a.front a.back a.key_is seek_is
              (subst Sorted a.was w.sorted) (All-front Encodes a.front a.back parts)
              (All-back Encodes a.front a.back parts)
              (All-front (Older u s) a.front a.back (subst (All (Older u s)) a.was old)) a.in_front
              a.behind in
          ground (
            arith,
            seek_is,
            find_ge-linear_search sk m hs w.sorted,
            find_ge-linear_search sk m' hs w'.0.sorted,
            a.was,
            a.now,
            main,
          )
    ]
