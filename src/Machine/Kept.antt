-- ===== src/Machine/Kept.antt =====
-- Which commands of a log take effect, each at most once.
use basalt.Prelude.{ℕ, Option, none, some, List, [], ◌∷◌, ◌++◌, Bool, ltb, ◌||◌, if◌then◌else◌, put}
use basalt.Raft.Types.{Entry}
use basalt.Wal.Batch.{Op}
use basalt.Machine.{Command, no_dedup, session_of, command_of}

-- The specification: a command takes effect if its client is outside the deduplicated ones, or its
-- sequence number is above all those of the client that took effect before.
unfoldable pub takes_effect : List (ℕ × ℕ) → Command → Bool
takes_effect sessions c = no_dedup c.client_id || ltb (session_of c.client_id sessions) c.seq

unfoldable pub sessions_after : List (ℕ × ℕ) → Option Command → List (ℕ × ℕ)
sessions_after sessions none = sessions
sessions_after sessions (some c) =
    if no_dedup c.client_id
    then sessions
    else if ltb (session_of c.client_id sessions) c.seq
    then put c.client_id c.seq sessions
    else sessions

unfoldable pub kept_first : List (ℕ × ℕ) → Option Command → List Command
kept_first sessions none = []
kept_first sessions (some c) = if takes_effect sessions c then c ∷ [] else []

abbrev pub carried : Option (Option Command) → Option Command
carried none = none
carried (some c) = c

-- The commands of the entries that take effect, in order.
unfoldable pub kept : List (ℕ × ℕ) → List Entry → List Command
kept sessions [] = []
kept sessions (e ∷ es) =
    kept_first sessions (carried (command_of e))
    ++ kept (sessions_after sessions (carried (command_of e))) es

unfoldable pub ops_of : List Command → List Op
ops_of [] = []
ops_of (c ∷ cs) = c.batch.ops ++ ops_of cs
