-- ===== src/Raft/Commitment.antt =====
-- maybeCommit: the commit index moves to the highest index that a quorum of the voters matches.
use basalt.Prelude.{
  ℕ, zero, suc, ◌+◌, ◌-◌, ◌≤◌, ◌<◌, ◌≡◌, refl, subst, some, List, [], ◌∷◌, true, arith, map, leb,
  if◌then◌else◌, get_elem?, min, put, All, lookup,
}
use mathlib.Core.Path.{ap₂}
use native.Mathlib.Decide.{dec_le}
use basalt.Raft.Log
use basalt.Raft.Log.{commit_to}
use basalt.Raft.Node.{Node, quorum, is_leader}
use basalt.Raft.Replicate.{
  index_of, insert_descending, sort_descending, sorted_matches, maybe_commit,
}

-- How many numbers of a list are at least `c`.
pub count_ge : ℕ → List ℕ → ℕ
count_ge c [] = 0
count_ge c (x ∷ xs) = let rest = count_ge c xs in if leb c x then suc rest else rest

-- How many voters match the log of the leader through index `c`.
unfoldable pub matching : ℕ → Node → ℕ
unfolding count_ge
matching c n = count_ge c (map (λ p. index_of p n.match) n.voters)

count_ge-insert_descending :
    (c x : ℕ) (xs : List ℕ) → count_ge c (insert_descending x xs) ≡ count_ge c (x ∷ xs)
unfolding count_ge insert_descending
count_ge-insert_descending c x [] = refl
count_ge-insert_descending c x (y ∷ ys) = ground (arith, count_ge-insert_descending c x ys)

count_ge_cons :
    (c x : ℕ) (xs : List ℕ)
    → count_ge c (x ∷ xs) ≡ (if leb c x then suc (count_ge c xs) else count_ge c xs)
unfolding count_ge
count_ge_cons c x xs = refl

count_ge-sort_descending : (c : ℕ) (xs : List ℕ) → count_ge c (sort_descending xs) ≡ count_ge c xs
unfolding sort_descending
count_ge-sort_descending c [] = refl
count_ge-sort_descending c (x ∷ xs) = ground (
  arith,
  count_ge-insert_descending c x (sort_descending xs),
  count_ge-sort_descending c xs,
  count_ge_cons c x (sort_descending xs),
  count_ge_cons c x xs,
)

-- Descending lists, with a bound for the head.
abbrev Below : ℕ → List ℕ → Type 0
Below b [] = Unit
Below b (x ∷ xs) = (x ≤ b) × Below x xs

insert_descending-Below :
    (b x : ℕ) (xs : List ℕ) → x ≤ b → Below b xs → Below b (insert_descending x xs)
unfolding insert_descending
insert_descending-Below b x [] hx h = (hx, tt)
insert_descending-Below b x (y ∷ ys) hx h = ground (arith, insert_descending-Below y x ys)

count_ge_none : (c b : ℕ) (xs : List ℕ) → Below b xs → b < c → count_ge c xs ≡ 0
unfolding count_ge
count_ge_none c b [] h lt = refl
count_ge_none c b (x ∷ xs) h lt = ground (arith, count_ge_none c x xs)

-- In a descending list the element at position k is the highest number that more than k
-- elements reach.
nth_reached :
    (b k c : ℕ) (xs : List ℕ) → Below b xs → get_elem? xs k ≡ some c → (k < count_ge c xs) × (c ≤ b)
unfolding count_ge
nth_reached b k c [] h e = cc
nth_reached b zero c (x ∷ xs) h e = ground arith
nth_reached b (suc k) c (x ∷ xs) h e = ground (arith, nth_reached x k c xs h.1 e)

nth_highest :
    (b k c d : ℕ) (xs : List ℕ) → Below b xs → get_elem? xs k ≡ some c → k < count_ge d xs → d ≤ c
unfolding count_ge
nth_highest b k c d [] h e r = cc
nth_highest b zero c d (x ∷ xs) h e r = elim (dec_le d x) [
  | yes le ↦ ground arith
  | no gt ↦ absurd (ground (arith, count_ge_none d x xs h.1))
]
nth_highest b (suc k) c d (x ∷ xs) h e r = ground (arith, nth_highest x k c d xs h.1)

sort_descending-Below : (b : ℕ) (xs : List ℕ) → All (λ x. x ≤ b) xs → Below b (sort_descending xs)
unfolding sort_descending
sort_descending-Below b [] h = tt
sort_descending-Below b (x ∷ xs) h =
    insert_descending-Below b x (sort_descending xs) h.0 (sort_descending-Below b xs h.1)

All-le_trans : (a b : ℕ) (xs : List ℕ) → a ≤ b → All (λ x. x ≤ a) xs → All (λ x. x ≤ b) xs
All-le_trans a b [] h all = tt
All-le_trans a b (x ∷ xs) h all = (omega (arith, all.0), All-le_trans a b xs h all.1)

bounded : (xs : List ℕ) → (b : ℕ) × All (λ x. x ≤ b) xs
bounded [] = (0, tt)
bounded (x ∷ xs) =
    let (b, all) = bounded xs in (x + b, (omega arith, All-le_trans b (x + b) xs (omega arith) all))

-- The element at position k of the sorted list is reached by more than k of the list, and is the
-- highest number of which that holds.
sort_descending_nth :
    (k c : ℕ) (xs : List ℕ)
    → get_elem? (sort_descending xs) k ≡ some c
    → (k < count_ge c xs) × ((d : ℕ) → k < count_ge d xs → d ≤ c)
sort_descending_nth k c xs e =
    let (b, all) = bounded xs in
    let down : Below b (sort_descending xs) = sort_descending-Below b xs all in
    (
      omega
          (arith, (nth_reached b k c (sort_descending xs) down e).0, count_ge-sort_descending c xs),
      λ d r.
          nth_highest b k c d (sort_descending xs) down e
            (omega (arith, count_ge-sort_descending d xs)),
    )

-- The leader with its own match brought up to its persisted entries.
abbrev own_match : Node → Node
own_match n = record n { match = put n.id (min n.stabled (Log.last_index n.log)) n.match }

maybe_commit_advance :
    (n m : Node)
    → maybe_commit n ≡ some (true, m)
    → (get_elem? (sorted_matches (own_match n)) (quorum n - 1) ≡ some m.log.committed)
      × (n.log.committed < m.log.committed)
      × (Log.term n.log m.log.committed ≡ some n.term)
      × (m.match ≡ (own_match n).match)
      × (m.voters ≡ n.voters)
      × (is_leader n.role ≡ true)
unfolding maybe_commit commit_to
maybe_commit_advance n m h = ground arith

index_of-put_self : (k v : ℕ) (m : List (ℕ × ℕ)) → index_of k (put k v m) ≡ v
unfolding index_of lookup put
index_of-put_self k v [] = ground arith
index_of-put_self k v ((j, w) ∷ m) = ground (arith, index_of-put_self k v m)

-- When a commit is reported, the node leads and its commit index has grown to an index of the
-- current term that at least a quorum of the voters match (the leader's own match being its
-- persisted entries), and no higher index is matched by a quorum.
pub maybe_commit-quorum :
    (n m : Node)
    → maybe_commit n ≡ some (true, m)
    → (is_leader n.role ≡ true)
      × (n.log.committed < m.log.committed)
      × (Log.term n.log m.log.committed ≡ some n.term)
      × (index_of n.id m.match ≡ min n.stabled (Log.last_index n.log))
      × (quorum n ≤ matching m.log.committed m)
      × ((d : ℕ) → quorum n ≤ matching d m → d ≤ m.log.committed)
unfolding matching sorted_matches quorum
maybe_commit-quorum n m h =
    let (nth, up, current, matches, voters, leads) = maybe_commit_advance n m h in
    let values : List ℕ = map (λ p. index_of p (own_match n).match) n.voters in
    let (reached, highest) = sort_descending_nth (quorum n - 1) m.log.committed values nth in
    (
      leads,
      up,
      current,
      rw matches (index_of-put_self n.id (min n.stabled (Log.last_index n.log)) n.match),
      rw (matches, voters) (omega (arith, reached)),
      λ d r. highest d (
          omega (
            arith,
            subst (λ t. quorum n ≤ count_ge d t)
                (ap₂ (λ (t : List (ℕ × ℕ)) (v : List ℕ). map (λ p. index_of p t) v) matches voters)
                r,
          )),
    )
