-- ===== src/Engine/Rejects.antt =====
-- db.go
-- What a write that is refused leaves.
use basalt.Prelude.{
  ℕ, ◌≡◌, ◌≢◌, refl, ap, subst, ◌∙◌, Option, some, List, [], arith, Bool, true, false, ◌&&◌, not,
  inl, inr, Option-cases, Bool-cases, add64, Bytes,
}
use basalt.Wal.Batch.{Op, encode}
use basalt.Wal.Segments.{append, rotate_writer}
use basalt.Engine.{
  Db, Written, written, rejected, waits, panics, WriteFailure, Room, room, no_room, must_wait,
  add_ops, get, search, seal, make_room, publish, log_and_add, write, any_reserved,
}
use basalt.Engine.Settled.{IsDb}
use basalt.Engine.Rooms.{Same, make_room-Same, Room-cases, Appended-cases}

module _ {ℓ} {T : Type ℓ} (table_get : T → Bytes → ℕ → Option (Option (Bytes × ℕ))) where
  unchanged-Same : (db : Db T) → IsDb table_get db → db.closed ≡ false → Same table_get db db
  unchanged-Same db w opened = record { is_db = w; opened = opened; reads = λ key. refl }

  -- The fields that a failure sets are none that a read looks at.
  failed-Same :
      (db : Db T) (bound : ℕ)
      → IsDb table_get db
      → db.closed ≡ false
      → Same table_get db (record db { imm_bound = bound; failed = true })
  unfolding basalt.Engine.get search
  failed-Same db bound w opened = record {
    is_db = record { mem = w.mem; imm = w.imm; l0 = w.l0; deeper = w.deeper; seq_in = w.seq_in };
    opened = opened;
    reads = λ key. refl;
  }

  no_room-Same :
      (db db' : Db T)
      → IsDb table_get db
      → db.closed ≡ false
      → make_room db ≡ no_room db'
      → Same table_get db db'
  unfolding make_room seal
  no_room-Same db db' w opened h = elim (Option-cases db.wal) [
    | inl off ↦ absurd (ground (arith, off, h))
    | inr (wal, on) ↦ elim (Option-cases (rotate_writer wal)) [
      | inr (wal', turned) ↦ absurd (ground (arith, on, turned, h))
      | inl stuck ↦
          subst (Same table_get db) (ground (arith, on, stuck, h)) (failed-Same db 0 w opened)
    ]
  ]

  publish_accepts :
      (draws : ℕ → ℕ → ℕ) (ops : List Op) (db db' : Db T) (x : WriteFailure)
      → publish draws ops db ≢ rejected x db'
  unfolding publish
  publish_accepts draws ops db db' x h =
      elim (Option-cases (add_ops draws (add64 db.seq 1) ops db.mem)) [
        | inl panic ↦ absurd (ground (arith, panic, h))
        | inr (m, e) ↦ absurd (ground (arith, e, h))
      ]

  log_and_add_rejects :
      (draws : ℕ → ℕ → ℕ) (ops : List Op) (db db' : Db T) (x : WriteFailure)
      → IsDb table_get db
      → db.closed ≡ false
      → log_and_add draws ops db ≡ rejected x db'
      → Same table_get db db'
  unfolding log_and_add
  log_and_add_rejects draws ops db db' x w opened h = elim (Option-cases db.wal) [
    | inl off ↦ absurd (publish_accepts draws ops db db' x (ground (arith, off, h)))
    | inr (wal, on) ↦
        elim (Appended-cases
          (append (encode (record { base_seq = add64 db.seq 1; ops = ops }) []) wal)) [
            | inl (id, wal', e) ↦ absurd (
                publish_accepts draws ops (record db { wal = some wal' }) db' x
                  (ground (arith, on, e, h)))
            | inr (inl e) ↦ absurd (ground (arith, on, e, h))
            | inr (inr (inl e)) ↦
                subst (Same table_get db) (ground (arith, on, e, h)) (unchanged-Same db w opened)
            | inr (inr (inr e)) ↦
                subst (Same table_get db) (ground (arith, on, e, h))
                  (failed-Same db db.imm_bound w opened)
          ]
  ]

  -- A write that an open and sound engine refuses, for a reserved key, an earlier failure, a log
  -- that cannot rotate or a batch too large for it, leaves the engine open and sound, and every
  -- read as it was, also where the memtable was sealed before the refusal.
  pub write-Same :
      (draws : ℕ → ℕ → ℕ) (ops : List Op) (allow_reserved : Bool) (db db' : Db T) (x : WriteFailure)
      → IsDb table_get db
      → db.closed ≡ false
      → write draws ops allow_reserved db ≡ rejected x db'
      → Same table_get db db'
  unfolding write
  write-Same draws ops allow_reserved db db' x w opened h =
      elim (Bool-cases (not allow_reserved && any_reserved ops)) [
        | inl reserved ↦
            subst (Same table_get db) (ground (arith, reserved, h)) (unchanged-Same db w opened)
        | inr free ↦ elim (Bool-cases db.failed) [
          | inl dead ↦
              subst (Same table_get db) (ground (arith, free, opened, dead, h))
                (unchanged-Same db w opened)
          | inr alive ↦ elim (Room-cases table_get (make_room db)) [
            | inr (inr e) ↦ absurd (ground (arith, free, opened, alive, e, h))
            | inr (inl (mid, e)) ↦
                no_room-Same db db' w opened
                  (e ∙ ap no_room (ground (arith, free, opened, alive, e, h)))
            | inl (mid, e) ↦
                let s = make_room-Same table_get db mid w opened e in
                let r =
                  log_and_add_rejects draws ops mid db' x s.is_db s.opened
                    (ground (arith, free, opened, alive, e, h)) in
                record {
                  is_db = r.is_db;
                  opened = r.opened;
                  reads = λ key. r.reads key ∙ s.reads key;
                }
          ]
        ]
      ]
