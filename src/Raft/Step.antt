-- ===== src/Raft/Step.antt =====
-- internal/raft/raft.go: Step and its handlers, and the proposals (ProposeConfChange is of conf.go).
use basalt.Prelude.{
  ℕ, max, Option, none, some, List, [], ◌∷◌, Bool, true, false, ltb, leb, ◌==◌, if◌then◌else◌,
  length, contains, insert, put, add64, Bytes, ◌&&◌, ◌||◌, not,
}
use basalt.Raft.Types.{
  Entry, entry_normal, entry_conf_change, Message, MessageType, message, msg_prop, msg_vote,
  msg_vote_resp, msg_app, msg_app_resp, msg_pre_vote, msg_pre_vote_resp, msg_snap, msg_timeout_now,
  follower, ◌>>=◌,
}
use basalt.Raft.Log
use basalt.Raft.Node.{
  Node, send, quorum, is_leader, become_follower, reset_election_timer, round_active,
}
use basalt.Raft.Conf.{ConfChange, encode}
use basalt.Raft.Replicate.{send_append, bcast_append, maybe_commit, index_of}
use basalt.Raft.Reads.{renew_lease_ack, confirm_read_round}
use basalt.Raft.Elect.{
  start_election, handle_pre_vote, handle_pre_vote_resp, handle_vote, handle_vote_resp,
}

pub data RaftError : Type 0 where
  not_leader conf_in_flight : RaftError

unfoldable pub handle_app : Message → Node → Option Node
handle_app m n =
    let heard = reset_election_timer (record n { role = follower; lead = m.from }) in
    do
      (answer, log) ← Log.maybe_append m.log_index m.log_term m.commit m.entries heard.log
      let kept = record heard { log = log }
      some (elim answer [
        | none ↦
            let after = add64 (Log.last_index log) 1 in
            send
              (record (message msg_app_resp m.from) {
                reject = true;
                log_index = if ltb m.log_index after then m.log_index else after;
              })
              kept
        | some last_new ↦ send (record (message msg_app_resp m.from) { log_index = last_new }) kept
      ])

-- The first part of a successful answer: the follower's progress, and the commit index.
unfoldable pub record_match : Message → Node → Option Node
record_match m n =
    if ltb (index_of m.from n.match) m.log_index
    then (do
      (advanced, c) ← maybe_commit (record n {
        match = put m.from m.log_index n.match;
        next = put m.from (add64 m.log_index 1) n.next;
      })
      if advanced then bcast_append c else some c)
    else some n

-- The second part: the ack counts for the lease and for a read round in flight.
unfoldable pub record_ack : ℕ → Node → Option Node
record_ack from n =
    let renewed = renew_lease_ack from n in
    let counted = record renewed { read_acks = insert from renewed.read_acks } in
    if not (round_active renewed)
    then some renewed
    else if leb (quorum counted) (length counted.read_acks)
    then confirm_read_round counted
    else some counted

-- A transfer target that has caught up gets the timeout.
unfoldable pub hand_over : ℕ → Node → Node
hand_over from n =
    if (n.transferee == from) && leb (Log.last_index n.log) (index_of from n.match)
    then send (message msg_timeout_now from) n
    else n

unfoldable pub handle_app_resp : Message → Node → Option Node
handle_app_resp m n =
    if not (is_leader n.role)
    then some n
    else if m.reject
    then send_append m.from (
        if ltb m.log_index (index_of m.from n.next)
        then record n { next = put m.from (max m.log_index 1) n.next }
        else n)
    else if ltb m.log_index (index_of m.from n.match)
    then some n
    else do
      matched ← record_match m n
      acked ← record_ack m.from matched
      some (hand_over m.from acked)

-- The proposed entries, stamped with the next indices and the term.
unfoldable pub stamp : ℕ → ℕ → List Entry → List Entry
stamp index term [] = []
stamp index term (e ∷ es) =
    record { type = entry_normal; index = index; term = term; payload = e.payload }
    ∷ stamp (add64 index 1) term es

-- The end of a proposal: commit what can be, and replicate at once.
unfoldable pub publish : Node → Option (Option RaftError × Node)
publish n = do (_, c) ← maybe_commit n; sent ← bcast_append c; some (none, sent)

unfoldable pub handle_propose : Message → Node → Option (Option RaftError × Node)
handle_propose m n =
    if not (is_leader n.role) || not (n.transferee == 0) then some (some not_leader, n) else do
      log ← Log.append (stamp (add64 (Log.last_index n.log) 1) n.term m.entries) n.log
      publish (record n { log = log })

-- The second switch of Step, at the node's own term.
unfoldable pub dispatch : Message → Node → Option Node
dispatch m n = elim m.type [
  | msg_vote ↦ handle_vote m n
  | msg_vote_resp ↦ handle_vote_resp m n
  | msg_app ↦ handle_app m n
  | msg_app_resp ↦ handle_app_resp m n
  | msg_timeout_now ↦ if contains n.voters n.id then start_election n else some n
  | msg_prop ↦ some n
  | msg_pre_vote ↦ some n
  | msg_pre_vote_resp ↦ some n
  | msg_snap ↦ some n
]

abbrev pub is_app : MessageType → Bool
is_app msg_app = true
is_app _ = false

abbrev pub is_vote : MessageType → Bool
is_vote msg_vote = true
is_vote _ = false

-- The comparison of terms, and then the handler.
unfoldable pub step_term : Message → Node → Option Node
step_term m n =
    if ltb n.term m.term
    then (do f ← become_follower m.term (if is_app m.type then m.from else 0) n; dispatch m f)
    else if ltb m.term n.term
    then some (
        if is_vote m.type
        then send (record (message msg_vote_resp m.from) { reject = true }) n
        else n)
    else dispatch m n

abbrev fine : Option Node → Option (Option RaftError × Node)
fine o = do n ← o; some (none, n)

unfoldable pub step : Message → Node → Option (Option RaftError × Node)
step m n = elim m.type [
  | msg_prop ↦ handle_propose m n
  | msg_pre_vote ↦ fine (handle_pre_vote m n)
  | msg_pre_vote_resp ↦ fine (handle_pre_vote_resp m n)
  | _ ↦ fine (step_term m n)
]

unfoldable pub propose : Option Bytes → Node → Option (Option RaftError × Node)
propose payload n =
    step
      (record (message msg_prop 0) {
        entries = record { type = entry_normal; index = 0; term = 0; payload = payload } ∷ [];
      })
      n

unfoldable pub propose_conf_change : ConfChange → Node → Option (Option RaftError × Node)
propose_conf_change cc n =
    let index = add64 (Log.last_index n.log) 1 in
    if not (is_leader n.role)
    then some (some not_leader, n)
    else if ltb n.log.applied n.pending_conf_index
    then some (some conf_in_flight, n)
    else do
      log ←
          Log.append
            (record {
              type = entry_conf_change;
              index = index;
              term = n.term;
              payload = some (encode cc);
            }
              ∷ [])
            n.log
      publish (record n { log = log; pending_conf_index = index })
