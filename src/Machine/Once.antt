-- ===== src/Machine/Once.antt =====
-- raftsm.go
-- Apply hands the ops of a command to the engine at most once. The engine here keeps the batches that
-- it is given.
use basalt.Prelude.{
  ℕ, Option, none, some, List, [], ◌∷◌, ◌++◌, ◌==◌, if◌then◌else◌, ltb, length, ◌<◌, ◌&&◌,
}
use basalt.Raft.Types.{Entry}
use basalt.Wal.Batch.{Op}
use basalt.Machine.{Command, command_of}
use basalt.Machine.Kept.{carried}

-- An engine that keeps its batches, in order.
unfoldable pub keep_batch : List Op → List (List Op) → Option (List (List Op))
keep_batch ops batches = some (batches ++ (ops ∷ []))

-- Where the command is one of the client's and the batch holds more than the applied record, its
-- sequence number in front of others.
unfoldable pub executed : ℕ → Option Command → List Op → List ℕ → List ℕ
executed client none batch seqs = seqs
executed client (some c) batch seqs =
    if (c.client_id == client) && ltb 1 (length batch) then c.seq ∷ seqs else seqs

-- The sequence numbers of the client's commands that the batches of the entries carry out.
unfoldable pub executions : ℕ → List Entry → List (List Op) → List ℕ
executions client [] batches = []
executions client (e ∷ es) [] = []
executions client (e ∷ es) (batch ∷ batches) =
    executed client (carried (command_of e)) batch (executions client es batches)

abbrev pub Ascending : ℕ → List ℕ → Type 0
Ascending low [] = Unit
Ascending low (s ∷ ss) = (low < s) × Ascending s ss
