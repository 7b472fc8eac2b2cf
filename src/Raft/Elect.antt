-- ===== src/Raft/Elect.antt =====
-- internal/raft/raft.go: elections and leadership transfer.
use basalt.Prelude.{
  ℕ, ◌+◌, Option, none, some, [], ◌∷◌, Bool, true, false, ltb, leb, ◌==◌, if◌then◌else◌, length,
  contains, insert, map, add64, ◌&&◌, ◌||◌, not,
}
use basalt.Raft.Types.{
  Entry, entry_normal, Message, MessageType, message, msg_vote, msg_vote_resp, msg_pre_vote,
  msg_pre_vote_resp, msg_timeout_now, leader, ◌>>=◌,
}
use basalt.Raft.Log
use basalt.Raft.Log.{RaftLog}
use basalt.Raft.Node.{
  Node, send, quorum, is_leader, is_candidate, become_candidate, become_pre_candidate,
  reset_election_timer,
}
use basalt.Raft.Replicate.{for_peers, maybe_commit, bcast_heartbeat, send_append, index_of}

-- The no-op entry of a new leader.
abbrev pub no_op : Node → Entry
no_op n = record {
  type = entry_normal;
  index = add64 (Log.last_index n.log) 1;
  term = n.term;
  payload = none;
}

-- The state of a new leader, with the log that holds its no-op.
abbrev pub promoted : RaftLog → Node → Node
promoted log n = record n {
  role = leader;
  lead = n.id;
  transferee = 0;
  heartbeat_elapse = 0;
  lease_elapsed = 0;
  lease_acks = none;
  round_reads = [];
  pending_reads = [];
  read_acks = [];
  next = map (λ p. (p, add64 (Log.last_index n.log) 1)) n.peers;
  match = map (λ p. (p, 0)) n.peers;
  log = log;
}

unfoldable pub become_leader : Node → Option Node
become_leader n =
    if is_candidate n.role
    then (do
      log ← Log.append (no_op n ∷ []) n.log
      (_, m) ← maybe_commit (promoted log n)
      bcast_heartbeat m)
    else none

unfoldable pub bcast_vote : MessageType → ℕ → Node → Option Node
bcast_vote t term n =
    for_peers
      (λ p m. do
        last_term ← Log.last_term m.log
        some (
            send
              (record (message t p) {
                term = term;
                log_index = Log.last_index m.log;
                log_term = last_term;
              })
              m))
      n.peers n

unfoldable pub start_election : Node → Option Node
start_election n = do
  m ← become_candidate n
  if leb (quorum m) (length m.votes) then become_leader m else bcast_vote msg_vote m.term m

unfoldable pub campaign : Node → Option Node
campaign n =
    if contains n.voters n.id
    then (do
      m ← become_pre_candidate n
      if leb (quorum m) (length m.pre_votes)
          then start_election m
          else bcast_vote msg_pre_vote (add64 m.term 1) m)
    else some n

unfoldable pub transfer_leader : ℕ → Node → Option (Bool × Node)
transfer_leader target n =
    let chosen = record n { transferee = target } in
    if not (is_leader n.role) || (target == n.id) || not (contains n.voters target)
    then some (false, n)
    else if leb (Log.last_index n.log) (index_of target n.match)
    then some (true, send (message msg_timeout_now target) chosen)
    else (do m ← send_append target chosen; some (true, m))

unfoldable pub tick : Node → Option Node
tick n =
    let beat = record n { lease_elapsed = n.lease_elapsed + 1; heartbeat_elapse = 0 } in
    let waited = record n { election_elapsed = n.election_elapsed + 1 } in
    if is_leader n.role
    then (if leb n.heartbeat_tick (n.heartbeat_elapse + 1)
        then bcast_heartbeat beat
        else some (record n {
          lease_elapsed = n.lease_elapsed + 1;
          heartbeat_elapse = n.heartbeat_elapse + 1;
        }))
    else if leb n.random_timeout (n.election_elapsed + 1)
    then campaign waited
    else some waited

unfoldable pub handle_pre_vote : Message → Node → Option Node
handle_pre_vote m n =
    let answer = λ (grant : Bool).
      send (record (message msg_pre_vote_resp m.from) { term = m.term; reject = not grant }) n in
    if ltb n.term m.term
    then (do fresh ← Log.is_up_to_date m.log_index m.log_term n.log; some (answer fresh))
    else some (answer false)

-- Only a voter's grant counts.
unfoldable pub counted_pre_vote : Message → Node → Node
counted_pre_vote m n =
    if not m.reject && contains n.voters m.from
    then record n { pre_votes = insert m.from n.pre_votes }
    else n

unfoldable pub counted_vote : Message → Node → Node
counted_vote m n =
    if not m.reject && contains n.voters m.from
    then record n { votes = insert m.from n.votes }
    else n

unfoldable pub handle_pre_vote_resp : Message → Node → Option Node
handle_pre_vote_resp m n =
    let counted = counted_pre_vote m n in
    if not (is_candidate n.role) || ltb 0 (length n.votes)
    then some n
    else if leb (quorum counted) (length counted.pre_votes)
    then start_election counted
    else some counted

unfoldable pub handle_vote : Message → Node → Option Node
handle_vote m n =
    let answer = λ (grant : Bool) (v : Node).
      send (record (message msg_vote_resp m.from) { reject = not grant }) v in
    if (n.vote == 0) || (n.vote == m.from)
    then (do
      fresh ← Log.is_up_to_date m.log_index m.log_term n.log
      some (answer fresh (if fresh then reset_election_timer (record n { vote = m.from }) else n)))
    else some (answer false n)

unfoldable pub handle_vote_resp : Message → Node → Option Node
handle_vote_resp m n =
    let counted = counted_vote m n in
    if not (is_candidate n.role)
    then some n
    else if leb (quorum counted) (length counted.votes)
    then become_leader counted
    else some counted
