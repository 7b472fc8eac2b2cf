-- ===== src/Raft/Safety/Steady.antt =====
-- Sending, committing and serving reads leave a node's term, vote, role, members and entries alone.
use basalt.Prelude.{
  ℕ, zero, suc, ◌≤◌, ◌≡◌, refl, Option, some, List, [], ◌∷◌, Bool, arith, if◌then◌else◌, ◌++◌, inl,
  inr, ◌⊎◌, ap, Bool-cases, Option-cases, ◌==◌,
}
use basalt.Raft.Types.{Message, Role}
use basalt.Raft.Log.{RaftLog, commit_to}
use basalt.Raft.Log.WellFormed.{IsWellFormed, commit_to-IsWellFormed}
use basalt.Raft.Node.{Node, send, round_active}
use basalt.Raft.Replicate.{send_append, for_peers, bcast_append, bcast_heartbeat, maybe_commit}
use basalt.Raft.Reads.{
  to_read_states, renew_lease_ack, confirm_with, maybe_start_read_round, confirm_read_round,
  read_fuel,
}

-- From `n` to `m` at most the commit index of the log moved, and up.
pub record Steady (n m : Node) : Type 0 where
  pub same_id : m.id ≡ n.id
  pub same_term : m.term ≡ n.term
  pub same_vote : m.vote ≡ n.vote
  pub same_role : m.role ≡ n.role
  pub same_voters : m.voters ≡ n.voters
  pub same_learners : m.learners ≡ n.learners
  pub same_votes : m.votes ≡ n.votes
  pub same_stabled : m.stabled ≡ n.stabled
  pub same_entries : m.log ≡ record n.log { committed = m.log.committed }
  pub commit_up : n.log.committed ≤ m.log.committed
  pub keeps_log : IsWellFormed n.log → IsWellFormed m.log

-- The parts of a node that only elections, appends and members change.
abbrev pub View : Type 0
View = ℕ × ℕ × ℕ × Role × List ℕ × List ℕ × List ℕ × ℕ × RaftLog

abbrev pub view : Node → View
view n = (n.id, n.term, n.vote, n.role, n.voters, n.learners, n.votes, n.stabled, n.log)

pub Steady-view : (n m : Node) → view m ≡ view n → Steady n m
Steady-view n m e =
    let log : m.log ≡ n.log = ap (λ (v : View). v.8) e in
    record {
      same_id = ap (λ (v : View). v.0) e;
      same_term = ap (λ (v : View). v.1) e;
      same_vote = ap (λ (v : View). v.2) e;
      same_role = ap (λ (v : View). v.3) e;
      same_voters = ap (λ (v : View). v.4) e;
      same_learners = ap (λ (v : View). v.5) e;
      same_votes = ap (λ (v : View). v.6) e;
      same_stabled = ap (λ (v : View). v.7) e;
      same_entries = ground (arith, log);
      commit_up = omega (arith, ap (λ (l : RaftLog). l.committed) log);
      keeps_log = λ w. rw log w;
    }

pub Steady-refl : (n : Node) → Steady n n
Steady-refl n = Steady-view n n refl

pub Steady-trans : (n m k : Node) → Steady n m → Steady m k → Steady n k
Steady-trans n m k a b = record {
  same_id = cc (a.same_id, b.same_id);
  same_term = cc (a.same_term, b.same_term);
  same_vote = cc (a.same_vote, b.same_vote);
  same_role = cc (a.same_role, b.same_role);
  same_voters = cc (a.same_voters, b.same_voters);
  same_learners = cc (a.same_learners, b.same_learners);
  same_votes = cc (a.same_votes, b.same_votes);
  same_stabled = cc (a.same_stabled, b.same_stabled);
  same_entries = ground (arith, a.same_entries, b.same_entries);
  commit_up = omega (arith, a.commit_up, b.commit_up);
  keeps_log = λ w. b.keeps_log (a.keeps_log w);
}

pub send-Steady : (msg : Message) (n : Node) → Steady n (send msg n)
unfolding send
send-Steady msg n = Steady-view n (send msg n) refl

pub send_append-Steady : (to : ℕ) (n m : Node) → send_append to n ≡ some m → Steady n m
unfolding send_append send
send_append-Steady to n m h = Steady-view n m (ground arith)

module _ (f : ℕ → Node → Option Node)
    (each : (p : ℕ) (n m : Node) → f p n ≡ some m → Steady n m) where
  pub for_peers-Steady : (ps : List ℕ) (n m : Node) → for_peers f ps n ≡ some m → Steady n m
  unfolding for_peers
  for_peers-Steady [] n m h = Steady-view n m (ground arith)
  for_peers-Steady (p ∷ ps) n m h = elim (Bool-cases (p == n.id)) [
    | inl own ↦ for_peers-Steady ps n m (ground arith)
    | inr peer ↦ elim (Option-cases (f p n)) [
      | inl e ↦ absurd (ground arith)
      | inr (k, e) ↦ Steady-trans n k m (each p n k e) (for_peers-Steady ps k m (ground arith))
    ]
  ]

pub bcast_append-Steady : (n m : Node) → bcast_append n ≡ some m → Steady n m
unfolding bcast_append
bcast_append-Steady n m h = for_peers-Steady send_append send_append-Steady n.peers n m h

pub bcast_heartbeat-Steady : (n m : Node) → bcast_heartbeat n ≡ some m → Steady n m
unfolding bcast_heartbeat
bcast_heartbeat-Steady n m h =
    let armed : Node = if round_active n then record n { read_acks = n.id ∷ [] } else n in
    Steady-trans n armed m (Steady-view n armed (ground arith)) (bcast_append-Steady armed m h)

-- The log of a node after a commit is that of the same commit from the log before.
maybe_commit-view :
    (b : Bool) (n m : Node)
    → maybe_commit n ≡ some (b, m)
    → (view m ≡ view (record n { log = m.log })) × (commit_to m.log.committed n.log ≡ some m.log)
unfolding maybe_commit commit_to
maybe_commit-view b n m h = ground arith

commit_to-cases :
    (i : ℕ) (l m : RaftLog)
    → commit_to i l ≡ some m
    → (m ≡ record l { committed = m.committed }) × (l.committed ≤ m.committed)
unfolding commit_to
commit_to-cases i l m h = ground arith

pub maybe_commit-Steady : (b : Bool) (n m : Node) → maybe_commit n ≡ some (b, m) → Steady n m
maybe_commit-Steady b n m h =
    let (e, c) = maybe_commit-view b n m h in
    let (same, up) = commit_to-cases m.log.committed n.log m.log c in
    record {
      same_id = ap (λ (v : View). v.0) e;
      same_term = ap (λ (v : View). v.1) e;
      same_vote = ap (λ (v : View). v.2) e;
      same_role = ap (λ (v : View). v.3) e;
      same_voters = ap (λ (v : View). v.4) e;
      same_learners = ap (λ (v : View). v.5) e;
      same_votes = ap (λ (v : View). v.6) e;
      same_stabled = ap (λ (v : View). v.7) e;
      same_entries = same;
      commit_up = up;
      keeps_log = λ w. commit_to-IsWellFormed m.log.committed n.log m.log w c;
    }

pub renew_lease_ack-Steady : (from : ℕ) (n : Node) → Steady n (renew_lease_ack from n)
unfolding renew_lease_ack
renew_lease_ack-Steady from n = Steady-view n (renew_lease_ack from n) (ground arith)

confirm_with-Steady :
    (drain : Node → Option Node) (each : (n m : Node) → drain n ≡ some m → Steady n m) (n m : Node)
    → confirm_with drain n ≡ some m
    → Steady n m
unfolding confirm_with
confirm_with-Steady drain each n m h =
    let confirmed : Node = record n {
      read_ready = n.read_ready ++ to_read_states n.round_reads;
      round_reads = [];
      read_acks = [];
    } in
    Steady-trans n confirmed m (Steady-view n confirmed refl) (each confirmed m h)

maybe_start_cases :
    (fuel : ℕ) (n m : Node)
    → maybe_start_read_round (suc fuel) n ≡ some m
    → (m ≡ n)
      ⊎ (confirm_with
            (maybe_start_read_round fuel)
            (record n { round_reads = n.pending_reads; pending_reads = []; read_acks = n.id ∷ [] })
          ≡ some m)
      ⊎ (bcast_heartbeat
            (record n { round_reads = n.pending_reads; pending_reads = []; read_acks = n.id ∷ [] })
          ≡ some m)
unfolding maybe_start_read_round
maybe_start_cases fuel n m h = ground arith

pub maybe_start_read_round-Steady :
    (fuel : ℕ) (n m : Node) → maybe_start_read_round fuel n ≡ some m → Steady n m
unfolding maybe_start_read_round
maybe_start_read_round-Steady zero n m h = cc
maybe_start_read_round-Steady (suc fuel) n m h =
    let begun : Node = record n {
      round_reads = n.pending_reads;
      pending_reads = [];
      read_acks = n.id ∷ [];
    } in
    elim (maybe_start_cases fuel n m h) [
      | inl e ↦ Steady-view n m (ground arith)
      | inr (inl c) ↦ Steady-trans n begun m (Steady-view n begun refl) (
          confirm_with-Steady (maybe_start_read_round fuel) (maybe_start_read_round-Steady fuel)
            begun m c)
      | inr (inr c) ↦
          Steady-trans n begun m (Steady-view n begun refl) (bcast_heartbeat-Steady begun m c)
    ]

pub confirm_read_round-Steady : (n m : Node) → confirm_read_round n ≡ some m → Steady n m
unfolding confirm_read_round
confirm_read_round-Steady n m h =
    confirm_with-Steady (maybe_start_read_round read_fuel) (maybe_start_read_round-Steady read_fuel)
      n m h
