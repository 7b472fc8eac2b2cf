-- ===== src/Raft/Safety/Handlers.antt =====
-- Every public operation of a node keeps `Evolves`.
use basalt.Prelude.{
  ℕ, ◌≤◌, ◌≡◌, refl, ap, subst, Option, some, List, [], ◌∷◌, arith, inl, inr, Bool-cases,
  Option-cases, ◌==◌, leb, ltb, ◌||◌, not, if◌then◌else◌, insert, length, put, max, add64,
}
use basalt.Raft.Types.{Entry, entry_conf_change, Message, ◌>>=◌, >>=-eq-some}
use basalt.Raft.Log
use basalt.Raft.Log.{RaftLog, append, maybe_append, applied_to}
use basalt.Raft.Log.Commit.{append-committed, maybe_append-committed}
use basalt.Raft.Node.{
  Node, send, quorum, reset_election_timer, is_leader, become_follower, round_active,
}
use basalt.Raft.Conf.{ConfChange, encode}
use basalt.Raft.Replicate.{bcast_append, maybe_commit, index_of}
use basalt.Raft.Reads.{renew_lease_ack}
use basalt.Raft.Step.{
  RaftError, handle_app, record_match, record_ack, hand_over, handle_app_resp, stamp, publish,
  handle_propose, dispatch, is_app, step_term, step, propose_conf_change,
}
use basalt.Raft.Safety.Steady.{
  Steady, Steady-view, Steady-trans, bcast_append-Steady, maybe_commit-Steady, send_append-Steady,
  confirm_read_round-Steady, renew_lease_ack-Steady,
}
use basalt.Raft.Safety.Evolve.{
  Evolves, Evolves-refl, Evolves-view, Evolves-trans, Steady→Evolves, become_follower-Evolves,
}
use basalt.Raft.Safety.Campaign.{
  start_election-Evolves, handle_pre_vote-Evolves, handle_pre_vote_resp-Evolves,
  handle_vote-Evolves, handle_vote_resp-Evolves,
}

handle_app-Evolves : (msg : Message) (n m : Node) → handle_app msg n ≡ some m → Evolves n m
unfolding handle_app reset_election_timer send
handle_app-Evolves msg n m h =
    let ((r, log), e, rest) =
      >>=-eq-some (maybe_append msg.log_index msg.log_term msg.commit msg.entries n.log) _ h in
    let up : n.log.committed ≤ log.committed =
      maybe_append-committed msg.log_index msg.log_term msg.commit msg.entries n.log log r e in
    let same : (m.term ≡ n.term) × (m.vote ≡ n.vote) × (m.log ≡ log) = ground arith in
    record {
      term_up = omega (arith, same.0);
      vote_kept = λ _ _. same.1;
      commit_up = omega (arith, ap (λ (l : RaftLog). l.committed) same.2);
    }

pub record_match-Steady : (msg : Message) (n m : Node) → record_match msg n ≡ some m → Steady n m
unfolding record_match
record_match-Steady msg n m h =
    let noted : Node = record n {
      match = put msg.from msg.log_index n.match;
      next = put msg.from (add64 msg.log_index 1) n.next;
    } in
    elim (Bool-cases (ltb (index_of msg.from n.match) msg.log_index)) [
      | inr stale ↦ Steady-view n m (ground arith)
      | inl ahead ↦ elim (Option-cases (maybe_commit noted)) [
        | inl e ↦ absurd (ground arith)
        | inr ((b, c), e) ↦ Steady-trans n noted m (Steady-view n noted refl) (
            Steady-trans noted c m (maybe_commit-Steady b noted c e) (elim (Bool-cases b) [
              | inl t ↦ bcast_append-Steady c m (ground arith)
              | inr f ↦ Steady-view c m (ground arith)
            ]))
      ]
    ]

pub record_ack-Steady : (from : ℕ) (n m : Node) → record_ack from n ≡ some m → Steady n m
unfolding record_ack
record_ack-Steady from n m h =
    let renewed : Node = renew_lease_ack from n in
    let counted : Node = record renewed { read_acks = insert from renewed.read_acks } in
    Steady-trans n renewed m (renew_lease_ack-Steady from n)
      (elim (Bool-cases (round_active renewed)) [
        | inr idle ↦ Steady-view renewed m (ground arith)
        | inl active ↦ elim (Bool-cases (leb (quorum counted) (length counted.read_acks))) [
          | inl full ↦
              Steady-trans renewed counted m (Steady-view renewed counted refl)
                (confirm_read_round-Steady counted m (ground arith))
          | inr open_round ↦ Steady-view renewed m (ground arith)
        ]
      ])

hand_over-Steady : (from : ℕ) (n : Node) → Steady n (hand_over from n)
unfolding hand_over send
hand_over-Steady from n = Steady-view n (hand_over from n) (ground arith)

pub handle_app_resp-Steady :
    (msg : Message) (n m : Node) → handle_app_resp msg n ≡ some m → Steady n m
unfolding handle_app_resp
handle_app_resp-Steady msg n m h =
    let backed : Node =
      if ltb msg.log_index (index_of msg.from n.next)
      then record n { next = put msg.from (max msg.log_index 1) n.next }
      else n in
    elim (Bool-cases (is_leader n.role)) [
      | inr idle ↦ Steady-view n m (ground arith)
      | inl leads ↦ elim (Bool-cases msg.reject) [
        | inl rejected ↦
            Steady-trans n backed m (Steady-view n backed (ground arith))
              (send_append-Steady msg.from backed m (ground arith))
        | inr accepted ↦ elim (Bool-cases (ltb msg.log_index (index_of msg.from n.match))) [
          | inl stale ↦ Steady-view n m (ground arith)
          | inr fresh ↦
              let done : (do
                matched ← record_match msg n
                acked ← record_ack msg.from matched
                some (hand_over msg.from acked))
                  ≡ some m =
                ground arith in
              let (k, e, rest) = >>=-eq-some (record_match msg n) _ done in
              let (a, f, last) = >>=-eq-some (record_ack msg.from k) _ rest in
              Steady-trans n k m (record_match-Steady msg n k e) (
                Steady-trans k a m (record_ack-Steady msg.from k a f)
                  (subst (Steady a) (ground arith) (hand_over-Steady msg.from a)))
        ]
      ]
    ]

pub publish-Steady : (r : Option RaftError) (n m : Node) → publish n ≡ some (r, m) → Steady n m
unfolding publish
publish-Steady r n m h =
    let ((b, c), e, rest) = >>=-eq-some (maybe_commit n) _ h in
    let (s, f, last) = >>=-eq-some (bcast_append c) _ rest in
    let same : s ≡ m = ground arith in
    Steady-trans n c m (maybe_commit-Steady b n c e) (bcast_append-Steady c m (rw same at f))

-- A log with entries appended, and its replication.
appended-Evolves :
    (ents : List Entry) (log : RaftLog) (r : Option RaftError) (n k m : Node)
    → append ents n.log ≡ some log
    → (k.term ≡ n.term) × (k.vote ≡ n.vote) × (k.log ≡ log)
    → publish k ≡ some (r, m)
    → Evolves n m
appended-Evolves ents log r n k m a (t, v, l) e =
    Evolves-trans n k m
      (record {
        term_up = omega (arith, t);
        vote_kept = λ _ _. v;
        commit_up =
            omega (arith, append-committed ents n.log log a, ap (λ (x : RaftLog). x.committed) l);
      })
      (Steady→Evolves k m (publish-Steady r k m e))

handle_propose-Evolves :
    (msg : Message) (n m : Node) (r : Option RaftError)
    → handle_propose msg n ≡ some (r, m)
    → Evolves n m
unfolding handle_propose
handle_propose-Evolves msg n m r h =
    let ents : List Entry = stamp (add64 (Log.last_index n.log) 1) n.term msg.entries in
    elim (Bool-cases (not (is_leader n.role) || not (n.transferee == 0))) [
      | inl refused ↦ Evolves-view n m (ground arith)
      | inr leads ↦ elim (Option-cases (append ents n.log)) [
        | inl e ↦ absurd (ground arith)
        | inr (log, a) ↦
            appended-Evolves ents log r n (record n { log = log }) m a (refl, refl, refl)
              (ground arith)
      ]
    ]

-- A configuration change is proposed as other entries are.
pub propose_conf_change-Evolves :
    (cc : ConfChange) (n m : Node) (r : Option RaftError)
    → propose_conf_change cc n ≡ some (r, m)
    → Evolves n m
unfolding propose_conf_change
propose_conf_change-Evolves change n m r h =
    let index : ℕ = add64 (Log.last_index n.log) 1 in
    let ents : List Entry =
      record {
        type = entry_conf_change;
        index = index;
        term = n.term;
        payload = some (encode change);
      }
      ∷ [] in
    elim (Bool-cases (not (is_leader n.role) || ltb n.log.applied n.pending_conf_index)) [
      | inl refused ↦ Evolves-view n m (ground arith)
      | inr leads ↦ elim (Option-cases (append ents n.log)) [
        | inl e ↦ absurd (ground arith)
        | inr (log, a) ↦
            appended-Evolves ents log r n (record n { log = log; pending_conf_index = index }) m a
              (refl, refl, refl) (ground arith)
      ]
    ]

dispatch-Evolves : (msg : Message) (n m : Node) → dispatch msg n ≡ some m → Evolves n m
unfolding dispatch
dispatch-Evolves msg n m h = ground (
  arith,
  Evolves-refl n,
  handle_vote-Evolves msg n m,
  handle_vote_resp-Evolves msg n m,
  handle_app-Evolves msg n m,
  start_election-Evolves n m,
  λ (q : handle_app_resp msg n ≡ some m). Steady→Evolves n m (handle_app_resp-Steady msg n m q),
)

step_term-Evolves : (msg : Message) (n m : Node) → step_term msg n ≡ some m → Evolves n m
unfolding step_term
step_term-Evolves msg n m h = elim (Bool-cases (ltb n.term msg.term)) [
  | inl newer ↦
      let stepped : (do
        f ← become_follower msg.term (if is_app msg.type then msg.from else 0) n
        dispatch msg f)
          ≡ some m =
        ground arith in
      let (f, e, rest) =
        >>=-eq-some (become_follower msg.term (if is_app msg.type then msg.from else 0) n) _
          stepped in
      Evolves-trans n f m
        (become_follower-Evolves msg.term (if is_app msg.type then msg.from else 0) n f e)
        (dispatch-Evolves msg f m rest)
  | inr older ↦ elim (Bool-cases (ltb msg.term n.term)) [
    | inl stale ↦ Evolves-view n m (unfold send in ground arith)
    | inr same ↦ dispatch-Evolves msg n m (ground arith)
  ]
]

-- Step, on any message, keeps the term from going back, a vote cast within a term, and the commit
-- index from going back.
pub step-Evolves :
    (msg : Message) (n m : Node) (r : Option RaftError) → step msg n ≡ some (r, m) → Evolves n m
unfolding step
step-Evolves msg n m r h = ground (
  arith,
  handle_propose-Evolves msg n m r,
  handle_pre_vote-Evolves msg n m,
  handle_pre_vote_resp-Evolves msg n m,
  step_term-Evolves msg n m,
)
