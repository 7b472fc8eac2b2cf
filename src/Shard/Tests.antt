-- ===== src/Shard/Tests.antt =====
-- The theorems on shard maps at concrete inputs: three groups, the slot 7 and the group 2 moved.
use basalt.Prelude.{ℕ, ◌<◌, ◌≡◌, ◌≢◌, some, [], ◌∷◌, arith, true, false, ◌==◌, if◌then◌else◌, add64}
use basalt.Shard.{
  ShardMap, num_slots, group, is_migrating, slots_for, with_migrating, with_slot, with_reassign,
  new_shard_map,
}
use basalt.Shard.Assign.{
  IsShardMap, new_shard_map-IsShardMap, with_slot-with_migrating, slots_for-with_reassign,
}

abbrev three_groups : ShardMap
three_groups = new_shard_map (3 ∷ 1 ∷ 2 ∷ [])

with_slot-with_migrating_example :
    (frozen : ShardMap) × (moved : ShardMap) × (with_migrating 7 true three_groups ≡ some frozen)
    × (with_slot 7 3 frozen ≡ some moved)
    × IsShardMap moved
    × (is_migrating 7 frozen ≡ some true)
    × (group 7 frozen ≡ group 7 three_groups)
    × (moved.epoch ≡ add64 (add64 three_groups.epoch 1) 1)
    × ((s : ℕ) → s < num_slots → group s moved ≡ (if s == 7 then some 3 else group s three_groups))
    × ((s : ℕ)
        → s < num_slots
        → is_migrating s moved ≡ (if s == 7 then some false else is_migrating s three_groups))
with_slot-with_migrating_example =
    with_slot-with_migrating three_groups 7 3 (new_shard_map-IsShardMap (3 ∷ 1 ∷ 2 ∷ []))
      (omega arith)

slots_for-with_reassign_example :
    (slots_for 2 (with_reassign 2 3 three_groups) ≡ [])
    × ((g : ℕ)
        → g ≢ 2
        → g ≢ 3
        → slots_for g (with_reassign 2 3 three_groups) ≡ slots_for g three_groups)
slots_for-with_reassign_example = slots_for-with_reassign three_groups 2 3 (omega arith)
