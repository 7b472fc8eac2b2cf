-- ===== src/Engine/Rooms.antt =====
-- Sealing the memtable for the flush, making room, and write as a whole.
use basalt.Prelude.{
  ℕ, ◌≤◌, ◌≡◌, ◌⊎◌, refl, sym, ap, subst, ◌∙◌, Option, none, some, List, [], arith, Bool, false,
  ltb, Bytes, Option-cases, inl, inr, add64, Bool-cases,
}
use basalt.Keys.{max_seq, append_internal_key, append_seek_key}
use basalt.Memtable
use basalt.Memtable.{MemTable, SkipNode, new_table, find_ge, descend, advance, answer}
use basalt.Wal.Batch.{Op, encode}
use basalt.Wal.Segments.{
  Writer, append, Appended, appended, refused, writer_closed, record_too_large, rotate_writer,
}
use basalt.Engine.{
  Db, Written, written, rejected, waits, panics, Room, room, no_room, must_wait, Reply, found,
  not_found, closed, read_failed, add_ops, finish, search, get, or_else, imm_get, seal, make_room,
  publish, log_and_add, write, apply, any_reserved,
}
use basalt.Engine.Settled.{Upto, IsDb, behind}
use basalt.Engine.Writes.{reply_after}
use basalt.Engine.Commits.{reply_of, get_open, publish-get}

-- An empty memtable answers nothing.

empty_table : (key : Bytes) (q : ℕ) → q ≤ max_seq → Memtable.get key q new_table ≡ some none
unfolding basalt.Memtable.get append_seek_key append_internal_key find_ge descend advance answer
empty_table key q h = ground arith

pub new_table-Upto : (p : ℕ) → Upto p new_table
new_table-Upto p = record {
  table = record { sorted = tt; encoded = tt; heights = tt; height_in = omega arith };
  upto = tt;
}

pub Appended-cases :
    (a : Option Appended)
    → ((id : ℕ) × (w : Writer) × (a ≡ some (appended id w)))
      ⊎ (a ≡ none)
      ⊎ (a ≡ some (refused record_too_large))
      ⊎ (a ≡ some (refused writer_closed))
Appended-cases none = inr (inl refl)
Appended-cases (some (appended id w)) = inl (id, w, refl)
Appended-cases (some (refused record_too_large)) = inr (inr (inl refl))
Appended-cases (some (refused writer_closed)) = inr (inr (inr refl))

module _ {ℓ} {T : Type ℓ} (table_get : T → Bytes → ℕ → Option (Option (Bytes × ℕ))) where
  -- The engine is sound and answers every read as before.
  pub record Same (db db' : Db T) : Type ℓ where
    pub is_db : IsDb table_get db'
    pub opened : db'.closed ≡ false
    pub reads : (key : Bytes) → get table_get key db' ≡ get table_get key db

  abbrev sealed : Db T → ℕ → Option Writer → Db T
  sealed db bound wal = record db {
    mem = new_table;
    imm = some db.mem;
    imm_seq = db.seq;
    imm_bound = bound;
    wal = wal;
  }

  sealed_search :
      (key : Bytes) (db : Db T) (bound : ℕ) (wal : Option Writer)
      → db.imm ≡ none
      → db.seq ≤ max_seq
      → or_else
          (Memtable.get key db.seq new_table)
          (behind table_get key db.seq (sealed db bound wal))
        ≡ or_else (Memtable.get key db.seq db.mem) (behind table_get key db.seq db)
  unfolding behind or_else imm_get
  sealed_search key db bound wal idle h = ground (arith, idle, empty_table key db.seq h)

  sealed-Same :
      (db : Db T) (bound : ℕ) (wal : Option Writer)
      → IsDb table_get db
      → db.closed ≡ false
      → db.imm ≡ none
      → Same db (sealed db bound wal)
  sealed-Same db bound wal w opened idle = record {
    is_db = record {
      mem = new_table-Upto db.seq;
      imm = w.mem;
      l0 = w.l0;
      deeper = w.deeper;
      seq_in = w.seq_in;
    };
    opened = opened;
    reads = λ key.
        get_open table_get key (sealed db bound wal) opened
        ∙ ap reply_of (sealed_search key db bound wal idle w.seq_in)
        ∙ sym (get_open table_get key db opened);
  }

  -- Sealing the memtable, where none is in flight, leaves all reads as they are.
  pub seal-Same :
      (db db' : Db T)
      → IsDb table_get db
      → db.closed ≡ false
      → db.imm ≡ none
      → seal db ≡ room db'
      → Same db db'
  unfolding seal
  seal-Same db db' w opened idle h = elim (Option-cases db.wal) [
    | inl off ↦ subst (Same db) (ground (arith, off, h)) (sealed-Same db 0 none w opened idle)
    | inr (wal, on) ↦ elim (Option-cases (rotate_writer wal)) [
      | inl stuck ↦ absurd (ground (arith, on, stuck))
      | inr (wal', turned) ↦
          subst (Same db) (ground (arith, on, turned, h))
            (sealed-Same db wal'.id (some wal') w opened idle)
    ]
  ]

  pub make_room-Same :
      (db db' : Db T)
      → IsDb table_get db
      → db.closed ≡ false
      → make_room db ≡ room db'
      → Same db db'
  unfolding make_room
  make_room-Same db db' w opened h = elim (Bool-cases (ltb db.mem.size db.mem_table_size)) [
    | inl fits ↦
        subst (Same db) (ground (arith, fits, h))
          (record { is_db = w; opened = opened; reads = λ key. refl })
    | inr full ↦ elim (Option-cases db.imm) [
      | inl idle ↦ seal-Same db db' w opened idle (ground (arith, full, idle, h))
      | inr (m, busy) ↦ absurd (ground (arith, full, busy))
    ]
  ]

  pub Room-cases :
      (r : Room T)
      → ((db : Db T) × (r ≡ room db)) ⊎ ((db : Db T) × (r ≡ no_room db)) ⊎ (r ≡ must_wait)
  Room-cases (room db) = inl (db, refl)
  Room-cases (no_room db) = inr (inl (db, refl))
  Room-cases must_wait = inr (inr refl)

  logged-Same :
      (db : Db T) (wal : Option Writer)
      → IsDb table_get db
      → db.closed ≡ false
      → Same db (record db { wal = wal })
  unfolding basalt.Engine.get search
  logged-Same db wal w opened = record {
    is_db = record { mem = w.mem; imm = w.imm; l0 = w.l0; deeper = w.deeper; seq_in = w.seq_in };
    opened = opened;
    reads = λ key. refl;
  }

  -- What a write promises of the engine behind it.
  pub record Wrote (ops : List Op) (db db' : Db T) : Type ℓ where
    pub is_db : IsDb table_get db'
    pub opened : db'.closed ≡ false
    pub reads : (key : Bytes) → get table_get key db' ≡ reply_after key ops (get table_get key db)

  publish-Wrote :
      (draws : ℕ → ℕ → ℕ) (ops : List Op) (db mid db' : Db T)
      → Same db mid
      → publish draws ops mid ≡ written db'
      → Wrote ops db db'
  publish-Wrote draws ops db mid db' s h =
      let (d, o, r) = publish-get table_get draws ops mid db' s.is_db s.opened h in
      record {
        is_db = d;
        opened = o;
        reads = λ key. r key ∙ ap (reply_after key ops) (s.reads key);
      }

  log_and_add-Wrote :
      (draws : ℕ → ℕ → ℕ) (ops : List Op) (db db' : Db T)
      → IsDb table_get db
      → db.closed ≡ false
      → log_and_add draws ops db ≡ written db'
      → Wrote ops db db'
  unfolding log_and_add
  log_and_add-Wrote draws ops db db' w opened h = elim (Option-cases db.wal) [
    | inl off ↦
        publish-Wrote draws ops db db db'
          (record { is_db = w; opened = opened; reads = λ key. refl }) (ground (arith, off, h))
    | inr (wal, on) ↦
        elim (Appended-cases
          (append (encode (record { base_seq = add64 db.seq 1; ops = ops }) []) wal)) [
            | inl (id, wal', e) ↦
                publish-Wrote draws ops db (record db { wal = some wal' }) db'
                  (logged-Same db (some wal') w opened) (ground (arith, on, e, h))
            | inr (inl e) ↦ absurd (ground (arith, on, e, h))
            | inr (inr (inl e)) ↦ absurd (ground (arith, on, e, h))
            | inr (inr (inr e)) ↦ absurd (ground (arith, on, e, h))
          ]
  ]

  -- On a sound engine, a write that succeeds leaves a sound engine, in which every key reads what
  -- the last op on it says, a tombstone as not found, and a key without an op what it read before;
  -- it does so whether or not the memtable was sealed first, with the log or without.
  pub write-Wrote :
      (draws : ℕ → ℕ → ℕ) (ops : List Op) (allow_reserved : Bool) (db db' : Db T)
      → IsDb table_get db
      → write draws ops allow_reserved db ≡ written db'
      → Wrote ops db db'
  unfolding write
  write-Wrote draws ops allow_reserved db db' w h = elim (Bool-cases db.closed) [
    | inl shut ↦ absurd (ground (arith, shut, h))
    | inr opened ↦ elim (Room-cases (make_room db)) [
      | inl (mid, e) ↦
          let s = make_room-Same db mid w opened e in
          let r = log_and_add-Wrote draws ops mid db' s.is_db s.opened (ground (arith, e, h)) in
          record {
            is_db = r.is_db;
            opened = r.opened;
            reads = λ key. r.reads key ∙ ap (reply_after key ops) (s.reads key);
          }
      | inr (inl (mid, e)) ↦ absurd (ground (arith, opened, e, h))
      | inr (inr e) ↦ absurd (ground (arith, opened, e, h))
    ]
  ]
