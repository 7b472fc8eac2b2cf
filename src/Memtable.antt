-- ===== src/Memtable.antt =====
-- internal/memtable/memtable.go: the write buffer, a skiplist. A node is linked on the levels below
-- its height, in one order on all of them, so the chain of a level is the nodes above it, taken
-- from the chain of level 0: `nodes`. The links that a search follows from a node are the ones
-- behind it in this list. Numbers drawn by math/rand are a parameter. Concurrent readers are not
-- modelled: each operation is one step.
pub mod Search
pub mod Insert
pub mod Added
pub mod Levels
pub mod Visible
pub mod Latest
mod Tests
use basalt.Prelude.{
  ℕ, zero, suc, ◌+◌, ◌-◌, ◌*◌, Option, none, some, List, [], ◌∷◌, ◌++◌, Bool, true, false, ltb,
  ◌==◌, if◌then◌else◌, Ordering, Bytes, length, take, bytes_compare, ◌>>=◌,
}
use basalt.Keys.{
  append_internal_key, append_seek_key, decode_internal_key, compare_keys, ok, err, InternalKey,
}
use basalt.Keys.Before.{before}

abbrev pub max_height : ℕ
max_height = 12

abbrev pub branch_factor : ℕ
branch_factor = 4

abbrev pub node_overhead : ℕ
node_overhead = 64

abbrev pub ptr_size : ℕ
ptr_size = 8

pub record SkipNode : Type 0 where
  pub key : Bytes
  pub value : Bytes
  pub height : ℕ

pub record MemTable : Type 0 where
  pub nodes : List SkipNode
  pub height : ℕ
  pub size : ℕ

abbrev pub new_table : MemTable
new_table = record { nodes = []; height = 1; size = 0 }

-- The loop of randomHeight from height `h` on, `k` levels below the highest; `draw` gives the
-- numbers below branchFactor.
unfoldable pub grow_height : ℕ → ℕ → (ℕ → ℕ) → ℕ
grow_height zero h draw = h
grow_height (suc k) h draw = elim (draw h == 0) [ true ↦ grow_height k (suc h) draw | false ↦ h ]

unfoldable pub random_height : (ℕ → ℕ) → ℕ
random_height draw = grow_height (max_height - 1) 1 draw

-- The moves of findGE along one level: `start` is what stands behind the node x, and the second
-- list what of it is still to be looked at. A node of too small a height is not linked there.
unfoldable pub advance : ℕ → Bytes → List SkipNode → List SkipNode → List SkipNode
advance level key start [] = start
advance level key start (n ∷ rest) = elim (ltb level n.height) [
  | false ↦ advance level key start rest
  | true ↦ elim (before n.key key) [ true ↦ advance level key rest rest | false ↦ start ]
]

-- From level `level` down to level 0.
unfoldable pub descend : ℕ → Bytes → List SkipNode → List SkipNode
descend zero key start = advance zero key start start
descend (suc level) key start = descend level key (advance (suc level) key start start)

-- The node that findGE returns is the first of this list, nil where it is empty.
unfoldable pub find_ge : Bytes → MemTable → List SkipNode
find_ge key m = descend (m.height - 1) key m.nodes

unfoldable pub duplicate : Bytes → List SkipNode → Bool
duplicate key [] = false
duplicate key (n ∷ rest) = elim (compare_keys n.key key) [ some Ordering.eq ↦ true | _ ↦ false ]

-- The part of Add behind the duplicate test. Its loop links the node on each level below `h` behind
-- the predecessor of that level; here one insertion into the chain of level 0 stands for the loop,
-- since the chains of the other levels are taken from that one. Memtable/Levels relates the two.
unfoldable pub splice : (ℕ → ℕ) → Bytes → Bytes → MemTable → MemTable
splice draw key value m =
    let found = find_ge key m in
    let h = random_height draw in
    let n : SkipNode = record { key = key; value = value; height = h } in
    record {
      nodes = take (length m.nodes - length found) m.nodes ++ (n ∷ found);
      height = if ltb m.height h then h else m.height;
      size = m.size + (length key + length value + node_overhead + h * ptr_size);
    }

-- `none` is the panic on a duplicate key or on a sequence number or kind out of range.
unfoldable pub add : (ℕ → ℕ) → Bytes → ℕ → ℕ → Bytes → MemTable → Option MemTable
add draw user_key seq kind value m = do
  key ← append_internal_key [] user_key seq kind
  if duplicate key (find_ge key m) then none else some (splice draw key value m)

-- What Get answers: the value and the kind, where a version was found.
unfoldable pub answer : Bytes → List SkipNode → Option (Option (Bytes × ℕ))
answer user_key [] = some none
answer user_key (n ∷ rest) = elim (decode_internal_key n.key) [
  | err e ↦ none
  | ok ik ↦ elim (bytes_compare ik.user_key user_key) [
    | Ordering.eq ↦ some (some (n.value, ik.kind))
    | _ ↦ some none
  ]
]

-- The outer `none` is a panic, the inner one ok=false.
unfoldable pub get : Bytes → ℕ → MemTable → Option (Option (Bytes × ℕ))
get user_key seq m = do seek ← append_seek_key [] user_key seq; answer user_key (find_ge seek m)

-- The iterator: what is left, the current entry first.
unfoldable pub first : MemTable → List SkipNode
first m = m.nodes

unfoldable pub seek_ge : Bytes → MemTable → List SkipNode
seek_ge key m = find_ge key m

unfoldable pub next : List SkipNode → Option (List SkipNode)
next [] = none
next (n ∷ rest) = some rest
