-- ===== src/Shard.antt =====
-- internal/shard/shard.go: the versioned assignment of hash slots to groups. `none` is the panic on
-- a slot out of range. The arrays are lists of num_slots elements.
pub mod Assign
mod Tests
use basalt.Prelude.{
  ℕ, zero, suc, ◌+◌, ◌%◌, ◌≡◌, Option, none, some, List, [], ◌∷◌, map, Bool, true, false, ltb, leb,
  ◌==◌, if◌then◌else◌, Bytes, length, get_elem?, set, add64,
}
use basalt.Wal.Record.{crc_update}

abbrev pub num_slots : ℕ
num_slots = 256

unfoldable pub slot_of : Bytes → ℕ
slot_of key = crc_update 0 key % num_slots

pub record ShardMap : Type 0 where
  pub epoch : ℕ
  pub slots : List ℕ
  pub migrating : List Bool

unfoldable pub group : ℕ → ShardMap → Option ℕ
group slot m = if leb num_slots slot then none else get_elem? m.slots slot

unfoldable pub is_migrating : ℕ → ShardMap → Option Bool
is_migrating slot m = if leb num_slots slot then none else get_elem? m.migrating slot

-- Lookup and IsKeyMigrating; the slot of a key is in range.
unfoldable pub lookup_group : Bytes → ShardMap → Option ℕ
lookup_group key m = get_elem? m.slots (slot_of key)

unfoldable pub is_key_migrating : Bytes → ShardMap → Option Bool
is_key_migrating key m = get_elem? m.migrating (slot_of key)

-- The slots from `s` on that the group owns, ascending.
unfoldable pub owned_from : ℕ → ℕ → List ℕ → List ℕ
owned_from g s [] = []
owned_from g s (o ∷ os) = let rest = owned_from g (suc s) os in if o == g then s ∷ rest else rest

unfoldable pub slots_for : ℕ → ShardMap → List ℕ
slots_for g m = owned_from g 0 m.slots

unfoldable pub with_migrating : ℕ → Bool → ShardMap → Option ShardMap
with_migrating slot frozen m =
    if leb num_slots slot
    then none
    else some (record m { migrating = set m.migrating slot frozen; epoch = add64 m.epoch 1 })

unfoldable pub with_slot : ℕ → ℕ → ShardMap → Option ShardMap
with_slot slot g m =
    if leb num_slots slot
    then none
    else some (record m {
      slots = set m.slots slot g;
      migrating = set m.migrating slot false;
      epoch = add64 m.epoch 1;
    })

unfoldable pub with_reassign : ℕ → ℕ → ShardMap → ShardMap
with_reassign from to m = record m {
  slots = map (λ g. if g == from then to else g) m.slots;
  epoch = add64 m.epoch 1;
}

-- sort.Slice by <.
unfoldable pub insert_ascending : ℕ → List ℕ → List ℕ
insert_ascending x [] = x ∷ []
insert_ascending x (y ∷ ys) = if ltb y x then y ∷ insert_ascending x ys else x ∷ y ∷ ys

unfoldable pub sort_ascending : List ℕ → List ℕ
sort_ascending [] = []
sort_ascending (x ∷ xs) = insert_ascending x (sort_ascending xs)

-- An element of a list that the index is within.
unfoldable pub element : List ℕ → ℕ → ℕ
element g i = elim (get_elem? g i) [ none ↦ 0 | some x ↦ x ]

-- The slots from `s` on, `k` of them; without groups they stay 0.
unfoldable pub spread : ℕ → ℕ → List ℕ → List ℕ
spread zero s g = []
spread (suc k) s g = (if length g == 0 then 0 else element g (s % length g)) ∷ spread k (suc s) g

unfoldable pub repeat_false : ℕ → List Bool
repeat_false zero = []
repeat_false (suc k) = false ∷ repeat_false k

unfoldable pub new_shard_map : List ℕ → ShardMap
new_shard_map groups = record {
  epoch = 1;
  slots = spread num_slots 0 (sort_ascending groups);
  migrating = repeat_false num_slots;
}
