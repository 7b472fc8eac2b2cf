-- ===== src/Machine/Stops.antt =====
-- raftsm.go
-- When Apply takes all entries, and where it stops otherwise.
use basalt.Prelude.{ℕ, ◌≡◌, Option, none, some, List, [], ◌∷◌, ◌++◌, true, false, ◌==◌, add64}
use basalt.Raft.Types.{Entry}
use basalt.Wal.Batch.{Op}
use basalt.Machine.{
  Command, command_of, plan, applied_op, StateMachine, ApplyError, apply_gap, bad_command,
  engine_error, Applied,
}

-- Each entry's index follows the one before it.
abbrev pub Follows : ℕ → List Entry → Type 0
Follows last [] = Unit
Follows last (e ∷ es) = (e.index ≡ add64 last 1) × Follows e.index es

-- An entry without a command, or with one that decodes.
abbrev pub Readable : Entry → Type 0
Readable e = (c : Option Command) × (command_of e ≡ some c)

-- Each command of the entries, a duplicate too, with the index of its entry.
unfoldable pub reports : List Entry → List Applied
reports [] = []
reports (e ∷ es) = elim (command_of e) [
  | none ↦ reports es
  | some none ↦ reports es
  | some (some c) ↦ record { client_id = c.client_id; seq = c.seq; index = e.index } ∷ reports es
]

module _ {D : Type 0} (apply_raft : List Op → D → Option D) where
  -- What is wrong with the entry that Apply stops at.
  abbrev pub AtFault : ApplyError → Entry → StateMachine D → Type 0
  AtFault apply_gap e sm = (e.index == add64 sm.applied 1) ≡ false
  AtFault bad_command e sm = ((e.index == add64 sm.applied 1) ≡ true) × (command_of e ≡ none)
  AtFault engine_error e sm =
      ((e.index == add64 sm.applied 1) ≡ true)
      × (c : Option Command) × (command_of e ≡ some c)
      × (apply_raft ((plan sm.sessions c).ops ++ (applied_op e ∷ [])) sm.db ≡ none)
