-- ===== src/Memtable/Tests.antt =====
-- The theorems on the memtable at concrete inputs: the heights are all 1.
use basalt.Prelude.{
  ℕ, ◌<◌, ◌≡◌, refl, Option, some, none, [], ◌∷◌, arith, ◌&&◌, leb, if◌then◌else◌, Bytes, le_bytes,
  le_value, bytes_compare,
}
use basalt.Keys.{append_internal_key, compare_keys, decode_internal_key, user_key, trailer_of}
use basalt.Keys.Before.{before}
use basalt.Memtable.{
  SkipNode, MemTable, new_table, grow_height, random_height, advance, descend, find_ge, duplicate,
  splice, add, get,
}
use basalt.Memtable.Search.{linear_search, find_ge-linear_search}
use basalt.Memtable.Insert.{IsTable}
use basalt.Memtable.Added.{add-IsTable}
use basalt.Memtable.Visible.{same_bytes}
use basalt.Memtable.Latest.{get-add}

abbrev low : ℕ → ℕ
low i = 1

abbrev key_of : Option Bytes → Bytes
key_of none = []
key_of (some k) = k

-- The key "a" with the value 7 at sequence number 3.
abbrev node_a : SkipNode
node_a = record { key = 97 ∷ 1 ∷ 3 ∷ 0 ∷ 0 ∷ 0 ∷ 0 ∷ 0 ∷ 0 ∷ []; value = 7 ∷ []; height = 1 }

abbrev one_key : MemTable
one_key = record { nodes = node_a ∷ []; height = 1; size = 82 }

-- A deletion of "a" at sequence number 4 goes in front.
abbrev two_keys : MemTable
two_keys = record {
  nodes =
      record { key = 97 ∷ 0 ∷ 4 ∷ 0 ∷ 0 ∷ 0 ∷ 0 ∷ 0 ∷ 0 ∷ []; value = []; height = 1 }
      ∷ node_a
      ∷ [];
  height = 1;
  size = 163;
}

first_add : add low (97 ∷ []) 3 1 (7 ∷ []) new_table ≡ some one_key
unfolding add splice duplicate find_ge descend advance random_height grow_height append_internal_key
    le_bytes
first_add = refl

second_add : add low (97 ∷ []) 4 0 [] one_key ≡ some two_keys
unfolding add splice duplicate find_ge descend advance random_height grow_height append_internal_key
    le_bytes compare_keys before user_key trailer_of le_value bytes_compare
second_add = refl

new_table-IsTable : IsTable new_table
new_table-IsTable = record { sorted = tt; encoded = tt; heights = tt; height_in = omega arith }

add-IsTable_example : IsTable one_key × (0 < one_key.size)
add-IsTable_example =
    add-IsTable low (97 ∷ []) 3 1 (7 ∷ []) new_table one_key new_table-IsTable first_add

find_ge-linear_search_example : find_ge node_a.key one_key ≡ linear_search node_a.key one_key.nodes
find_ge-linear_search_example =
    find_ge-linear_search node_a.key one_key (omega arith)
      (add-IsTable low (97 ∷ []) 3 1 (7 ∷ []) new_table one_key new_table-IsTable
        first_add).0.sorted

get-add_example : get (97 ∷ []) 9 two_keys ≡ (
    if same_bytes (97 ∷ []) (97 ∷ []) && leb 4 9
    then some (some ([], 0))
    else get (97 ∷ []) 9 one_key)
get-add_example =
    get-add low (97 ∷ []) 4 0 [] one_key two_keys (97 ∷ []) 9
      (add-IsTable low (97 ∷ []) 3 1 (7 ∷ []) new_table one_key new_table-IsTable first_add).0
      second_add
      ((λ ik h e. unfold decode_internal_key trailer_of le_value in ground (arith, h)), tt)
      (omega arith)
