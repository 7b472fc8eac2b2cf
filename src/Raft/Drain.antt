-- ===== src/Raft/Drain.antt =====
-- internal/raft/raft.go: what the owner drains and acknowledges: HasReady, Ready, Advance; and the
-- snapshot boundary: RestoreSnapshot, CompactTo, Entries.
use basalt.Prelude.{
  ℕ, min, Option, none, some, List, [], ◌∷◌, Bool, true, false, ltb, leb, ◌==◌, if◌then◌else◌,
  length, contains, map, add64, ◌&&◌, ◌||◌, not, Bytes,
}
use mathlib.Core.List.{get_last?}
use basalt.Raft.Types.{
  Entry, entry_normal, entry_conf_change, HardState, message, msg_app_resp, Ready, ReadState,
  follower, ◌>>=◌,
}
use basalt.Raft.Log
use basalt.Raft.Node.{Node, send, hard_state}
use basalt.Raft.Conf.{decode_conf_change, apply_conf_change}
use basalt.Raft.Replicate.{maybe_commit}

abbrev pub same_hard : HardState → HardState → Bool
same_hard a b = (a.term == b.term) && (a.vote == b.vote) && (a.commit == b.commit)

unfoldable pub select_reads : ℕ → List ReadState → List ReadState
select_reads applied [] = []
select_reads applied (r ∷ rs) =
    let rest = select_reads applied rs in if leb r.index applied then r ∷ rest else rest

unfoldable pub ready_read_states : Node → List ReadState
ready_read_states n = select_reads n.log.applied n.read_ready

unfoldable pub has_ready : Node → Bool
has_ready n =
    ltb 0 (length n.msgs)
    || not (same_hard (hard_state n) n.prev_hard)
    || ltb n.stabled (Log.last_index n.log)
    || ltb n.log.applied (min n.log.committed n.stabled)
    || ltb 0 (length (ready_read_states n))

unfoldable pub ready : Node → Option (Ready × Node)
ready n =
    let apply_to = min n.log.committed n.stabled in
    do
      entries ←
          if ltb n.stabled (Log.last_index n.log)
          then Log.slice (add64 n.stabled 1) (add64 (Log.last_index n.log) 1) n.log
          else some []
      committed ←
          if ltb n.log.applied apply_to
          then Log.slice (add64 n.log.applied 1) (add64 apply_to 1) n.log
          else some []
      some (
        record {
          hard_state = if same_hard (hard_state n) n.prev_hard then none else some (hard_state n);
          entries = entries;
          committed_entries = committed;
          messages = n.msgs;
          read_states = ready_read_states n;
        },
        record n { msgs = [] },
      )

abbrev pub bytes_of : Option Bytes → Bytes
bytes_of none = []
bytes_of (some bytes) = bytes

-- A committed or recovered entry's membership change, if it holds one.
unfoldable pub apply_entry : Entry → Node → Node
apply_entry e n = elim e.type [
  | entry_normal ↦ n
  | entry_conf_change ↦ elim (decode_conf_change (bytes_of e.payload)) [
    | none ↦ n
    | some cc ↦ apply_conf_change cc n
  ]
]

unfoldable pub apply_entries : List Entry → Node → Node
apply_entries [] n = n
apply_entries (e ∷ es) n = apply_entries es (apply_entry e n)

unfoldable pub unserved : List ℕ → List ReadState → List ReadState
unserved served [] = []
unserved served (r ∷ rs) =
    let rest = unserved served rs in if contains served r.id then rest else r ∷ rest

unfoldable pub advance_entries : List Entry → Node → Option Node
advance_entries ents n = elim (get_last? ents) [
  | none ↦ some n
  | some e ↦ do (_, m) ← maybe_commit (record n { stabled = e.index }); some m
]

unfoldable pub advance_committed : List Entry → Node → Option Node
advance_committed ents n = elim (get_last? ents) [
  | none ↦ some n
  | some e ↦ do
    log ← Log.applied_to e.index n.log
    some (record (apply_entries ents n) { log = log })
]

unfoldable pub advance : Ready → Node → Option Node
advance rd n = do
  stable ←
      advance_entries rd.entries
        (record n { prev_hard = elim rd.hard_state [ none ↦ n.prev_hard | some hs ↦ hs ] })
  done ← advance_committed rd.committed_entries stable
  some (record done { read_ready = unserved (map (λ r. r.id) rd.read_states) done.read_ready })

unfoldable pub restore_snapshot : ℕ → ℕ → Node → Bool × Node
restore_snapshot index term n =
    let restored = record n {
      log = record {
        entries = [];
        offset = add64 index 1;
        snap_index = index;
        snap_term = term;
        committed = index;
        applied = index;
      };
      stabled = index;
      role = follower;
    } in
    if leb index n.log.committed && leb index n.log.snap_index
    then (false, n)
    else if leb index n.log.applied
    then (false, n)
    else if n.lead == 0
    then (true, restored)
    else (true, send (record (message msg_app_resp n.lead) { log_index = index }) restored)

unfoldable pub compact_to : ℕ → Node → Option Node
compact_to index n = do log ← Log.compact_to index n.log; some (record n { log = log })

-- The live suffix of the log, which Storage.Rewrite persists.
unfoldable pub entries : Node → Option (List Entry)
entries n = Log.slice (Log.first_index n.log) (add64 (Log.last_index n.log) 1) n.log
