-- ===== src/Machine/OnEngine.antt =====
-- raftsm.go, db.go
-- The engine keeps what the state machine asks of it.
use basalt.Prelude.{
  ◌≡◌, ℕ, Option, none, some, List, true, arith, Bytes, ◌+◌, ◌^◌, ◌%◌, ◌<◌, length, All, false,
}
use basalt.Wal.Batch.{Op}
use basalt.Engine.{Db, Written, written, rejected, waits, panics, write, get}
use basalt.Engine.Settled.{IsDb}
use basalt.Engine.Rooms.{write-Wrote}
use basalt.Engine.{has_prefix, reserved_prefix}
use basalt.Engine.Writes.{reply_after}
use basalt.Raft.Types.{Entry}
use basalt.Machine.{StateMachine, Applied, done, apply, recover_applied, applied_key}
use basalt.Machine.Kept.{kept, ops_of}
use basalt.Machine.Applies.{apply-kept, apply-applied, apply-Recorded}
use basalt.Machine.Interface.{Promises}

module _ {ℓ} {T : Type ℓ} (draws : ℕ → ℕ → ℕ)
    (table_get : T → Bytes → ℕ → Option (Option (Bytes × ℕ))) where
  unfoldable pub succeeded : Written T → Option (Db T)
  succeeded (written db) = some db
  succeeded (rejected x db) = none
  succeeded waits = none
  succeeded panics = none

  -- applyRaft.
  unfoldable pub apply_raft : List Op → Db T → Option (Db T)
  apply_raft ops db = succeeded (write draws ops true db)

  Written-cases : (w : Written T) (db : Db T) → succeeded w ≡ some db → w ≡ written db
  unfolding succeeded
  Written-cases (written d) db h = ground (arith, h)
  Written-cases (rejected x d) db h = absurd (ground (arith, h))
  Written-cases waits db h = absurd (ground (arith, h))
  Written-cases panics db h = absurd (ground (arith, h))

  pub apply_raft-Promises : Promises apply_raft (get table_get) (IsDb table_get)
  unfolding apply_raft
  apply_raft-Promises = record {
    keeps = λ ops db db' w h.
        (write-Wrote table_get draws ops true db db' w
          (Written-cases (write draws ops true db) db' h)).is_db;
    reads = λ ops db db' key w h.
        (write-Wrote table_get draws ops true db db' w
            (Written-cases (write draws ops true db) db' h)).reads
          key;
  }

  -- On a sound engine, Apply that succeeds leaves a sound engine in which every key outside of the
  -- reserved range reads what the ops of the commands that take effect say, in the order of the
  -- log: a duplicate of a command changes no such key.
  pub apply-engine :
      (key : Bytes) (entries : List Entry) (sm sm' : StateMachine (Db T)) (outs : List Applied)
      → has_prefix reserved_prefix key ≡ false
      → IsDb table_get sm.db
      → apply apply_raft entries sm ≡ done sm' outs
      → IsDb table_get sm'.db
        × (get table_get key sm'.db
            ≡ reply_after key (ops_of (kept sm.sessions entries)) (get table_get key sm.db))
  apply-engine key entries sm sm' outs free w h =
      apply-kept apply_raft-Promises key entries sm sm' outs free w h

  -- Where the engine is sound and its applied record says what the state machine says (a missing
  -- record says 0), the applied index is a word and the terms of the entries are words, an Apply
  -- that succeeds leaves this so: what NewStateMachine would read back is the index and the term of
  -- the state machine, and that index has gone up by the number of the entries.
  pub apply-recover_applied :
      (entries : List Entry) (sm sm' : StateMachine (Db T)) (outs : List Applied)
      → IsDb table_get sm.db
      → sm.applied < 2 ^ 64
      → recover_applied (get table_get applied_key sm.db) ≡ some (sm.applied, sm.term)
      → All (λ (e : Entry). e.term < 2 ^ 64) entries
      → apply apply_raft entries sm ≡ done sm' outs
      → (recover_applied (get table_get applied_key sm'.db) ≡ some (sm'.applied, sm'.term))
        × (sm'.applied ≡ (sm.applied + length entries) % 2 ^ 64)
  apply-recover_applied entries sm sm' outs w fits r terms h = (
    apply-Recorded apply_raft-Promises entries sm sm' outs w r terms h,
    apply-applied apply_raft-Promises entries sm sm' outs fits h,
  )
