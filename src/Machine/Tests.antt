-- ===== src/Machine/Tests.antt =====
-- The theorems on the state machine at concrete inputs: an engine without a log and without tables,
-- and a log that carries one command twice.
use basalt.Prelude.{
  ℕ, ◌<◌, ◌+◌, ◌%◌, ◌^◌, ◌≤◌, ◌≡◌, refl, Option, some, none, List, [], ◌∷◌, ◌++◌, arith, Bool, true,
  false, Bytes, le_bytes, le_value, bytes_compare, take, drop, ◌>>=◌, put_uvarint, uvarint,
}
use basalt.Keys.{
  append_internal_key, append_seek_key, compare_keys, user_key, trailer_of, append_length_prefixed,
  decode_length_prefixed,
}
use basalt.Keys.Before.{before}
use basalt.Memtable.{
  SkipNode, MemTable, new_table, grow_height, random_height, advance, descend, find_ge, duplicate,
  splice, add, answer,
}
use basalt.Memtable
use basalt.Wal.Batch.{Op, encode, encode_ops, encode_op, decode_batch, decode_ops, decode_op}
use basalt.Raft.Types.{Entry, entry_normal}
use basalt.Engine.{
  Db, search, imm_get, or_else, l0_get, deeper_get, add_ops, get, make_room, publish, log_and_add,
  write, any_reserved, has_prefix,
}
use basalt.Engine.Settled.{IsDb}
use basalt.Engine.Rooms.{new_table-Upto}
use basalt.Engine.Writes.{reply_after}
use basalt.Machine.{
  StateMachine, Outcome, done, stopped, Applied, Command, apply, apply_entry, encode_command,
  decode_command, command_of, plan, plan_command, no_dedup, session_of, session_op, session_key,
  reversed, applied_op, record_session, report, recover_applied, applied_key,
}
use basalt.Machine.Kept.{kept, ops_of}
use basalt.Machine.Once.{keep_batch}
use basalt.Machine.OnEngine.{apply_raft, succeeded, apply-engine, apply-recover_applied}

no_table : Unit {0} → Bytes → ℕ → Option (Option (Bytes × ℕ))
no_table t u q = some none

abbrev fresh : Db (Unit {0})
fresh = record {
  mem = new_table;
  imm = none;
  l0 = [];
  deeper = [];
  seq = 0;
  imm_seq = 0;
  imm_bound = 0;
  wal = none;
  log_number = 0;
  last_seq = 0;
  mem_table_size = 10000;
  l0_stop_threshold = 12;
  failed = false;
  closing = false;
  closed = false;
}

fresh-IsDb : IsDb no_table fresh
fresh-IsDb = record { mem = new_table-Upto 0; imm = tt; l0 = tt; deeper = tt; seq_in = omega arith }

abbrev draws : ℕ → ℕ → ℕ
draws s h = 1

abbrev command : Command
command = record {
  client_id = 5;
  seq = 1;
  batch = record {
    base_seq = 0;
    ops = record { kind = 1; user_key = 97 ∷ []; value = 7 ∷ [] } ∷ [];
  };
}

-- The command, carried twice.
abbrev log : List Entry
log =
    record { type = entry_normal; index = 1; term = 1; payload = some (encode_command command) }
    ∷ record { type = entry_normal; index = 2; term = 1; payload = some (encode_command command) }
    ∷ []

abbrev start : StateMachine (Db (Unit {0}))
start = record { db = fresh; applied = 0; term = 0; sessions = [] }

abbrev machine_of : Outcome (Db (Unit {0})) → StateMachine (Db (Unit {0}))
machine_of (done sm outs) = sm
machine_of (stopped x sm) = sm

abbrev reports_of : Outcome (Db (Unit {0})) → List Applied
reports_of (done sm outs) = outs
reports_of (stopped x sm) = []

abbrev result : Outcome (Db (Unit {0}))
result = apply (apply_raft draws no_table) log start

applies : apply (apply_raft draws no_table) log start ≡ done (machine_of result) (reports_of result)
unfolding write any_reserved has_prefix make_room log_and_add publish add_ops add splice duplicate
    find_ge descend advance random_height grow_height append_internal_key le_bytes compare_keys
    before user_key trailer_of le_value bytes_compare encode encode_ops encode_op
    append_length_prefixed put_uvarint apply_raft succeeded basalt.Prelude.uvarint_bytes apply
    apply_entry encode_command decode_command command_of plan plan_command no_dedup session_of
    session_op session_key reversed applied_op record_session report decode_batch decode_ops
    decode_op uvarint decode_length_prefixed basalt.Prelude.uvarint_within basalt.Prelude.lookup
    basalt.Prelude.put
applies = refl

apply-engine_example :
    IsDb no_table (machine_of result).db
    × (get no_table (97 ∷ []) (machine_of result).db
        ≡ reply_after (97 ∷ []) (ops_of (kept [] log)) (get no_table (97 ∷ []) fresh))
apply-engine_example =
    apply-engine draws no_table (97 ∷ []) log start (machine_of result) (reports_of result)
      (unfold has_prefix in refl) fresh-IsDb applies

-- A fresh engine has no applied record.
fresh_recorded : recover_applied (get no_table applied_key fresh) ≡ some (0, 0)
unfolding recover_applied get search imm_get or_else l0_get deeper_get no_table basalt.Memtable.get
    append_seek_key append_internal_key find_ge descend advance answer le_bytes
fresh_recorded = refl

apply-recover_applied_example :
    (recover_applied (get no_table applied_key (machine_of result).db)
      ≡ some ((machine_of result).applied, (machine_of result).term))
    × ((machine_of result).applied ≡ 2 % 2 ^ 64)
apply-recover_applied_example =
    apply-recover_applied draws no_table log start (machine_of result) (reports_of result)
      fresh-IsDb (omega arith) fresh_recorded (omega arith, (omega arith, tt)) applies

abbrev late : Entry
late = record { type = entry_normal; index = 5; term = 1; payload = none }

abbrev gapped : Outcome (Db (Unit {0}))
gapped = apply (apply_raft draws no_table) (log ++ (late ∷ [])) start

-- A state machine on an engine that keeps its batches.
abbrev recording : StateMachine (List (List Op))
recording = record { db = []; applied = 0; term = 0; sessions = [] }

abbrev recorded : Outcome (List (List Op))
recorded = apply keep_batch log recording

abbrev recorder_of : Outcome (List (List Op)) → StateMachine (List (List Op))
recorder_of (done sm outs) = sm
recorder_of (stopped x sm) = sm

abbrev recorded_of : Outcome (List (List Op)) → List Applied
recorded_of (done sm outs) = outs
recorded_of (stopped x sm) = []
