-- ===== src/Shard/Assign.antt =====
-- internal/shard/shard.go: what a handoff of a slot and a reassignment of a group change.
use basalt.Prelude.{
  ℕ, zero, suc, ◌<◌, ◌≡◌, ◌≢◌, refl, ap, ◌∙◌, some, List, [], ◌∷◌, map, arith, true, false, ◌==◌,
  if◌then◌else◌, length, get_elem?, set, add64,
}
use basalt.Shard.{
  ShardMap, num_slots, group, is_migrating, owned_from, slots_for, with_migrating, with_slot,
  with_reassign, spread, repeat_false, sort_ascending, new_shard_map,
}

pub record IsShardMap (m : ShardMap) : Type 0 where
  pub all_slots : length m.slots ≡ num_slots
  pub all_flags : length m.migrating ≡ num_slots

length-spread : (k s : ℕ) (g : List ℕ) → length (spread k s g) ≡ k
unfolding spread
length-spread zero s g = refl
length-spread (suc k) s g = ap suc (length-spread k (suc s) g)

length-repeat_false : (k : ℕ) → length (repeat_false k) ≡ k
unfolding repeat_false
length-repeat_false zero = refl
length-repeat_false (suc k) = ap suc (length-repeat_false k)

pub new_shard_map-IsShardMap : (groups : List ℕ) → IsShardMap (new_shard_map groups)
unfolding new_shard_map
new_shard_map-IsShardMap groups = record {
  all_slots = length-spread num_slots 0 (sort_ascending groups);
  all_flags = length-repeat_false num_slots;
}

length-set {ℓ} : {A : Type ℓ} (xs : List A) (i : ℕ) (v : A) → length (set xs i v) ≡ length xs
length-set [] i v = refl
length-set (x ∷ xs) zero v = refl
length-set (x ∷ xs) (suc i) v = ap suc (length-set xs i v)

get_elem?-set {ℓ} :
    {A : Type ℓ} (xs : List A) (i j : ℕ) (v : A)
    → j < length xs
    → get_elem? (set xs i v) j ≡ (if j == i then some v else get_elem? xs j)
get_elem?-set [] i j v h = absurd (omega arith)
get_elem?-set (x ∷ xs) zero zero v h = ground arith
get_elem?-set (x ∷ xs) zero (suc j) v h = ground arith
get_elem?-set (x ∷ xs) (suc i) zero v h = ground arith
get_elem?-set (x ∷ xs) (suc i) (suc j) v h = ground (arith, get_elem?-set xs i j v (omega arith))

-- Freezing a slot for a handoff and then flipping it to its new owner succeeds on every slot: the
-- slot belongs to the new group and is no longer frozen, every other slot keeps its group and its
-- flag, and the epoch has gone up twice.
pub with_slot-with_migrating :
    (m : ShardMap) (slot to : ℕ)
    → IsShardMap m
    → slot < num_slots
    → (frozen : ShardMap) × (moved : ShardMap) × (with_migrating slot true m ≡ some frozen)
      × (with_slot slot to frozen ≡ some moved)
      × IsShardMap moved
      × (is_migrating slot frozen ≡ some true)
      × (group slot frozen ≡ group slot m)
      × (moved.epoch ≡ add64 (add64 m.epoch 1) 1)
      × ((s : ℕ) → s < num_slots → group s moved ≡ (if s == slot then some to else group s m))
      × ((s : ℕ)
          → s < num_slots
          → is_migrating s moved ≡ (if s == slot then some false else is_migrating s m))
unfolding with_slot with_migrating is_migrating group
with_slot-with_migrating m slot to w h =
    let frozen : ShardMap = record m {
      migrating = set m.migrating slot true;
      epoch = add64 m.epoch 1;
    } in
    let moved : ShardMap = record frozen {
      slots = set m.slots slot to;
      migrating = set frozen.migrating slot false;
      epoch = add64 frozen.epoch 1;
    } in
    let flags : length (set m.migrating slot true) ≡ length m.migrating =
      length-set m.migrating slot true in
    (
      frozen,
      moved,
      ground arith,
      ground arith,
      record {
        all_slots = length-set m.slots slot to ∙ w.all_slots;
        all_flags = length-set frozen.migrating slot false ∙ flags ∙ w.all_flags;
      },
      ground (arith, get_elem?-set m.migrating slot slot true (omega (arith, w.all_flags))),
      refl,
      refl,
      λ s k. ground (arith, get_elem?-set m.slots slot s to (omega (arith, w.all_slots))),
      λ s k. ground (
        arith,
        get_elem?-set frozen.migrating slot s false (omega (arith, flags, w.all_flags)),
        get_elem?-set m.migrating slot s true (omega (arith, w.all_flags)),
      ),
    )

owned_from-none :
    (from to s : ℕ) (os : List ℕ)
    → from ≢ to
    → owned_from from s (map (λ g. if g == from then to else g) os) ≡ []
unfolding owned_from
owned_from-none from to s [] h = refl
owned_from-none from to s (o ∷ os) h = ground (arith, owned_from-none from to (suc s) os h)

owned_from-kept :
    (from to g s : ℕ) (os : List ℕ)
    → g ≢ from
    → g ≢ to
    → owned_from g s (map (λ o. if o == from then to else o) os) ≡ owned_from g s os
unfolding owned_from
owned_from-kept from to g s [] h k = refl
owned_from-kept from to g s (o ∷ os) h k = ground (arith, owned_from-kept from to g (suc s) os h k)

-- Moving every slot of one group to another leaves the first without slots, and every group that is
-- neither of the two with the slots that it had.
pub slots_for-with_reassign :
    (m : ShardMap) (from to : ℕ)
    → from ≢ to
    → (slots_for from (with_reassign from to m) ≡ [])
      × ((g : ℕ) → g ≢ from → g ≢ to → slots_for g (with_reassign from to m) ≡ slots_for g m)
unfolding slots_for with_reassign
slots_for-with_reassign m from to h =
    (owned_from-none from to 0 m.slots h, λ g a b. owned_from-kept from to g 0 m.slots a b)
