-- ===== src/Raft/Start.antt =====
-- internal/raft/raft.go: NewNode, NewNodeConfig and RestoreNode.
use basalt.Prelude.{
  ℕ, Option, none, some, List, [], ◌∷◌, Bool, false, ltb, ◌==◌, if◌then◌else◌, contains, insert,
  add64,
}
use basalt.Raft.Types.{Entry, entry_normal, entry_conf_change, HardState, follower, ◌>>=◌}
use basalt.Raft.Log
use basalt.Raft.Log.{RaftLog, new_log}
use basalt.Raft.Node.{Node, hard_state, reset_election_timer}
use basalt.Raft.Conf.{decode_conf_change, apply_conf_change, rebuild_peers}
use basalt.Raft.Drain.{bytes_of}

pub record Config : Type 0 where
  pub id : ℕ
  pub peers : List ℕ
  pub election_tick : ℕ
  pub heartbeat_tick : ℕ
  pub rand : Option (ℕ → ℕ → ℕ)
  pub lease_read : Bool

pub record Recovered : Type 0 where
  pub hard_state : HardState
  pub snap_index : ℕ
  pub snap_term : ℕ
  pub entries : List Entry

abbrev pub no_hard_state : HardState
no_hard_state = record { term = 0; vote = 0; commit = 0 }

abbrev pub nothing_recovered : Recovered
nothing_recovered = record {
  hard_state = no_hard_state;
  snap_index = 0;
  snap_term = 0;
  entries = [];
}

-- The keys of the voters map that the loop over cfg.Peers fills.
unfoldable pub insert_all : List ℕ → List ℕ → List ℕ
insert_all [] set = set
insert_all (p ∷ ps) set = insert_all ps (insert p set)

-- A snapshot boundary, the entries and the commit index, put back into an empty log.
unfoldable pub recover_log : Recovered → Option RaftLog
recover_log rec = do
  let based =
      if ltb 0 rec.snap_index
      then record {
        entries = [];
        offset = add64 rec.snap_index 1;
        snap_index = rec.snap_index;
        snap_term = rec.snap_term;
        committed = rec.snap_index;
        applied = rec.snap_index;
      }
      else new_log
  filled ← Log.append rec.entries based
  if ltb 0 rec.hard_state.commit then Log.commit_to rec.hard_state.commit filled else some filled

-- The loop over the recovered entries, from index `i` on.
unfoldable pub recover_members : ℕ → List Entry → Node → Node
recover_members i [] n = n
recover_members i (e ∷ es) n = recover_members (add64 i 1) es (elim e.type [
  | entry_normal ↦ n
  | entry_conf_change ↦ elim (decode_conf_change (bytes_of e.payload)) [
    | none ↦ n
    | some cc ↦
        let m = apply_conf_change cc n in
        if ltb m.log.applied i then record m { pending_conf_index = i } else m
  ]
])

abbrev pub blank : Config → HardState → RaftLog → Node
blank cfg hs log = record {
  id = cfg.id;
  peers = [];
  role = follower;
  term = hs.term;
  vote = hs.vote;
  lead = 0;
  voters = insert_all cfg.peers [];
  learners = [];
  pending_conf_index = 0;
  transferee = 0;
  log = log;
  votes = [];
  pre_votes = [];
  next = [];
  match = [];
  msgs = [];
  stabled = Log.last_index log;
  prev_hard = no_hard_state;
  election_tick = if cfg.election_tick == 0 then 10 else cfg.election_tick;
  heartbeat_tick = if cfg.heartbeat_tick == 0 then 1 else cfg.heartbeat_tick;
  rand = cfg.rand;
  rand_calls = 0;
  rand_seq = 0;
  election_elapsed = 0;
  heartbeat_elapse = 0;
  random_timeout = 0;
  read_ready = [];
  round_reads = [];
  pending_reads = [];
  read_acks = [];
  lease_acks = none;
  lease_elapsed = 0;
  use_lease = cfg.lease_read;
}

unfoldable pub restore_node : Config → Recovered → ℕ → Option Node
unfolding insert_all
restore_node cfg rec applied_index =
    if contains cfg.peers cfg.id
    then (do
      log ← recover_log rec
      if ltb log.committed applied_index
          then none
          else if ltb applied_index rec.snap_index
          then none
          else let joined =
              recover_members log.offset log.entries (
                rebuild_peers
                  (blank cfg rec.hard_state (record log { applied = applied_index }))) in
            some (reset_election_timer (record joined { prev_hard = hard_state joined })))
    else none

unfoldable pub new_node_config : Config → Option Node
unfolding restore_node
new_node_config cfg = restore_node cfg nothing_recovered 0

unfoldable pub new_node : ℕ → List ℕ → Option Node
unfolding new_node_config
new_node id peers = new_node_config (record {
  id = id;
  peers = peers;
  election_tick = 0;
  heartbeat_tick = 0;
  rand = none;
  lease_read = false;
})
