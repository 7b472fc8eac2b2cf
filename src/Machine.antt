-- ===== src/Machine.antt =====
-- raftsm.go: the state machine that applies committed entries to the engine, each command once. The
-- engine is a parameter, `apply_raft`, with `none` on an error; a module below takes what it
-- promises, and another one shows that the engine keeps the promise.
pub mod Interface
pub mod Kept
pub mod Steps
pub mod Once
pub mod Stops
pub mod Applies
pub mod OnEngine
mod Tests
use basalt.Prelude.{
  ℕ, suc, ◌+◌, ◌^◌, ◌%◌, Option, none, some, List, [], ◌∷◌, ◌++◌, Bool, true, false, ltb, leb, ◌==◌,
  not, if◌then◌else◌, Bytes, length, take, drop, le_bytes, le_value, add64, lookup, put,
}
use basalt.Keys.{kind_put}
use basalt.Raft.Types.{Entry, entry_normal, entry_conf_change}
use basalt.Wal.Batch.{Op, Batch, decode_batch}
use basalt.Wal.Batch
use basalt.Engine.{reserved_prefix, Reply, found, not_found, closed, read_failed}

-- "applied" and "session/" behind the reserved prefix.
abbrev pub applied_key : Bytes
applied_key = reserved_prefix ++ (97 ∷ 112 ∷ 112 ∷ 108 ∷ 105 ∷ 101 ∷ 100 ∷ [])

abbrev pub session_prefix : Bytes
session_prefix = reserved_prefix ++ (115 ∷ 101 ∷ 115 ∷ 115 ∷ 105 ∷ 111 ∷ 110 ∷ 47 ∷ [])

-- binary.BigEndian: the bytes of a word, highest first.
unfoldable pub reversed : Bytes → Bytes → Bytes
reversed [] done = done
reversed (b ∷ bs) done = reversed bs (b ∷ done)

unfoldable pub session_key : ℕ → Bytes
session_key client = session_prefix ++ reversed (le_bytes 8 client) []

-- The highest bit of a client id.
abbrev pub no_dedup_client : ℕ
no_dedup_client = 2 ^ 63

unfoldable pub no_dedup : ℕ → Bool
no_dedup client = leb no_dedup_client (client % 2 ^ 64)

pub record Command : Type 0 where
  pub client_id : ℕ
  pub seq : ℕ
  pub batch : Batch

unfoldable pub encode_command : Command → Bytes
encode_command c = Batch.encode c.batch (le_bytes 8 c.client_id ++ le_bytes 8 c.seq)

-- `none` is an error.
unfoldable pub decode_command : Bytes → Option Command
decode_command bytes = if ltb (length bytes) 16 then none else elim (decode_batch (drop 16 bytes)) [
  | none ↦ none
  | some b ↦ some (record {
    client_id = le_value (take 8 bytes);
    seq = le_value (take 8 (drop 8 bytes));
    batch = b;
  })
]

pub record Applied : Type 0 where
  pub client_id : ℕ
  pub seq : ℕ
  pub index : ℕ

pub record StateMachine {ℓ} (D : Type ℓ) : Type ℓ where
  pub db : D
  pub applied : ℕ
  pub term : ℕ
  pub sessions : List (ℕ × ℕ)

-- A missing session reads as 0.
unfoldable pub session_of : ℕ → List (ℕ × ℕ) → ℕ
session_of client sessions = elim (lookup client sessions) [ none ↦ 0 | some s ↦ s ]

-- What Apply makes of one entry: the ops in front of the applied record, the session to record, and
-- the command to report.
pub record Plan : Type 0 where
  pub ops : List Op
  pub session : Option (ℕ × ℕ)
  pub command : Option (ℕ × ℕ)

abbrev pub no_plan : Plan
no_plan = record { ops = []; session = none; command = none }

unfoldable pub session_op : ℕ → ℕ → Op
session_op client seq = record {
  kind = kind_put;
  user_key = session_key client;
  value = le_bytes 8 seq;
}

unfoldable pub plan_command : List (ℕ × ℕ) → Command → Plan
plan_command sessions c =
    if no_dedup c.client_id
    then record { ops = c.batch.ops; session = none; command = some (c.client_id, c.seq) }
    else if ltb (session_of c.client_id sessions) c.seq
    then record {
      ops = c.batch.ops ++ (session_op c.client_id c.seq ∷ []);
      session = some (c.client_id, c.seq);
      command = some (c.client_id, c.seq);
    }
    else record { ops = []; session = none; command = some (c.client_id, c.seq) }

-- The command of an entry, where it carries one; the outer `none` is a decoding error.
unfoldable pub command_of : Entry → Option (Option Command)
command_of e = elim e.payload [
  | none ↦ some none
  | some bytes ↦ elim e.type [
    | entry_conf_change ↦ some none
    | entry_normal ↦ elim (decode_command bytes) [ none ↦ none | some c ↦ some (some c) ]
  ]
]

unfoldable pub plan : List (ℕ × ℕ) → Option Command → Plan
plan sessions none = no_plan
plan sessions (some c) = plan_command sessions c

unfoldable pub applied_op : Entry → Op
applied_op e = record {
  kind = kind_put;
  user_key = applied_key;
  value = le_bytes 8 e.index ++ le_bytes 8 e.term;
}

unfoldable pub record_session : Option (ℕ × ℕ) → List (ℕ × ℕ) → List (ℕ × ℕ)
record_session none sessions = sessions
record_session (some (client, seq)) sessions = put client seq sessions

unfoldable pub report : ℕ → Option (ℕ × ℕ) → List Applied
report index none = []
report index (some (client, seq)) = record { client_id = client; seq = seq; index = index } ∷ []

pub data ApplyError : Type 0 where
  apply_gap bad_command engine_error : ApplyError

-- What Apply leaves: the state machine and what it returns.
pub data Outcome {ℓ} (D : Type ℓ) : Type ℓ where
  done : StateMachine D → List Applied → Outcome D
  stopped : ApplyError → StateMachine D → Outcome D

module _ {ℓ} {D : Type ℓ} (apply_raft : List Op → D → Option D) where
  -- One round of the loop of Apply.
  unfoldable pub apply_entry : Entry → StateMachine D → Outcome D
  apply_entry e sm =
      if not (e.index == add64 sm.applied 1) then stopped apply_gap sm else elim (command_of e) [
        | none ↦ stopped bad_command sm
        | some c ↦
            let p = plan sm.sessions c in
            elim (apply_raft (p.ops ++ (applied_op e ∷ [])) sm.db) [
              | none ↦ stopped engine_error sm
              | some db ↦
                  done
                    (record {
                      db = db;
                      applied = e.index;
                      term = e.term;
                      sessions = record_session p.session sm.sessions;
                    })
                    (report e.index p.command)
            ]
      ]

  unfoldable pub apply : List Entry → StateMachine D → Outcome D
  apply [] sm = done sm []
  apply (e ∷ es) sm = elim (apply_entry e sm) [
    | stopped x s ↦ stopped x s
    | done s out ↦ elim (apply es s) [
      | stopped x s' ↦ stopped x s'
      | done s' outs ↦ done s' (out ++ outs)
    ]
  ]

-- The first part of NewStateMachine: the applied index and term from the engine; `none` is an error.
unfoldable pub recover_applied : Reply → Option (ℕ × ℕ)
recover_applied not_found = some (0, 0)
recover_applied closed = none
recover_applied read_failed = none
recover_applied (found v) =
    if length v == 16 then some (le_value (take 8 v), le_value (take 8 (drop 8 v))) else none
