-- ===== src/Engine/Tests.antt =====
-- The theorems on the engine at concrete inputs: a table is the list of nodes that it was written
-- from, and the memtable is sealed before each write that finds it with an entry.
use basalt.Prelude.{
  ℕ, ◌<◌, ◌≤◌, ◌≡◌, refl, Option, some, none, List, [], ◌∷◌, ◌++◌, arith, Bool, true, false, Bytes,
  le_bytes, le_value, bytes_compare, ◌>>=◌, put_uvarint,
}
use basalt.Keys.{
  append_internal_key, append_seek_key, compare_keys, user_key, trailer_of, append_length_prefixed,
}
use basalt.Keys.Before.{before}
use basalt.Memtable.{
  SkipNode, new_table, grow_height, random_height, advance, descend, find_ge, duplicate, splice,
  add, answer,
}
use basalt.Memtable.Search.{linear_search}
use basalt.Wal.Batch.{Op, encode, encode_ops, encode_op}
use basalt.Wal.Record.{append_record, record_crc, crc_update}
use basalt.Wal.Segments.{
  open_writer, append, rotate_writer, rotate, open_segment, write_newest, repair_newest,
  with_defaults,
}
use basalt.Engine.{
  Db, Written, written, rejected, waits, panics, batch_too_large, add_ops, seal, make_room, publish,
  log_and_add, write, any_reserved, has_prefix,
}
use basalt.Engine.Settled.{IsDb}
use basalt.Engine.Rooms.{Wrote, Same, write-Wrote, new_table-Upto}
use basalt.Engine.Rejects.{write-Same}

run_get : List SkipNode → Bytes → ℕ → Option (Option (Bytes × ℕ))
run_get nodes user q = do seek ← append_seek_key [] user q; answer user (linear_search seek nodes)

abbrev fresh : Db (List SkipNode)
fresh = record {
  mem = new_table;
  imm = none;
  l0 = [];
  deeper = [];
  seq = 0;
  imm_seq = 0;
  imm_bound = 0;
  wal = some (open_writer (record { segment_size = 1000; max_record_size = 1000 }) []);
  log_number = 0;
  last_seq = 0;
  mem_table_size = 1;
  l0_stop_threshold = 12;
  failed = false;
  closing = false;
  closed = false;
}

fresh-IsDb : IsDb run_get fresh
fresh-IsDb = record { mem = new_table-Upto 0; imm = tt; l0 = tt; deeper = tt; seq_in = omega arith }

abbrev draws : ℕ → ℕ → ℕ
draws s h = 1

abbrev first_ops : List Op
first_ops =
    record { kind = 1; user_key = 97 ∷ []; value = 7 ∷ [] }
    ∷ record { kind = 1; user_key = 98 ∷ []; value = 8 ∷ [] }
    ∷ []

abbrev second_ops : List Op
second_ops = record { kind = 0; user_key = 97 ∷ []; value = [] } ∷ []

abbrev db_of : Written (List SkipNode) → Db (List SkipNode)
db_of (written db) = db
db_of (rejected e db) = db
db_of waits = fresh
db_of panics = fresh

abbrev filled : Db (List SkipNode)
filled = db_of (write draws first_ops false fresh)

abbrev sealed : Db (List SkipNode)
sealed = db_of (write draws second_ops false filled)

opened : ℕ
unfolding write any_reserved has_prefix make_room seal log_and_add publish add_ops add splice
    duplicate find_ge descend advance random_height grow_height append_internal_key le_bytes
    compare_keys before user_key trailer_of le_value bytes_compare append append_record record_crc
    crc_update encode encode_ops encode_op append_length_prefixed put_uvarint rotate_writer rotate
    open_segment write_newest open_writer repair_newest with_defaults basalt.Prelude.uvarint_bytes
opened = 0

fills : write draws first_ops false fresh ≡ written filled
unfolding opened
fills = refl

seals : write draws second_ops false filled ≡ written sealed
unfolding opened
seals = refl

write-Wrote_example : Wrote run_get second_ops filled sealed
write-Wrote_example =
    write-Wrote run_get draws second_ops false filled sealed
      (write-Wrote run_get draws first_ops false fresh filled fresh-IsDb fills).is_db seals

-- A log that takes small records only: the write seals the memtable, and is then refused.
abbrev small_log : Db (List SkipNode)
small_log = record filled {
  wal = some (open_writer (record { segment_size = 1000; max_record_size = 4 }) []);
}

small_log-IsDb : IsDb run_get small_log
small_log-IsDb =
    let w = (write-Wrote run_get draws first_ops false fresh filled fresh-IsDb fills).is_db in
    record { mem = w.mem; imm = w.imm; l0 = w.l0; deeper = w.deeper; seq_in = w.seq_in }

abbrev turned_away : Db (List SkipNode)
turned_away = db_of (write draws second_ops false small_log)

turns_away : write draws second_ops false small_log ≡ rejected batch_too_large turned_away
unfolding opened
turns_away = refl

write-Same_example : Same run_get small_log turned_away
write-Same_example =
    write-Same run_get draws second_ops false small_log turned_away batch_too_large small_log-IsDb
      (write-Wrote run_get draws first_ops false fresh filled fresh-IsDb fills).opened turns_away
