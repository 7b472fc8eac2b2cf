-- ===== src/Machine/Interface.antt =====
-- What the state machine asks of an engine.
use basalt.Prelude.{◌≡◌, Option, some, List, Bytes}
use basalt.Wal.Batch.{Op}
use basalt.Engine.{Reply}
use basalt.Engine.Writes.{reply_after}

-- The operations are applyRaft and get; `Sound` is the engine's own invariant.
pub record Promises {ℓ} {D : Type ℓ} (apply_raft : List Op → D → Option D)
    (read : Bytes → D → Reply) (Sound : D → Type ℓ) : Type ℓ where
  pub keeps : (ops : List Op) (d d' : D) → Sound d → apply_raft ops d ≡ some d' → Sound d'
  pub reads :
      (ops : List Op) (d d' : D) (key : Bytes)
      → Sound d
      → apply_raft ops d ≡ some d'
      → read key d' ≡ reply_after key ops (read key d)
