-- ===== src/Raft/Safety/Campaign.antt =====
-- Elections and votes keep `Evolves`.
use basalt.Prelude.{
  ℕ, ◌+◌, ◌≡◌, refl, some, [], ◌∷◌, Bool, true, arith, inl, inr, Bool-cases, Option-cases, leb, ltb,
  ◌||◌, not, contains, length, add64,
}
use basalt.Raft.Types.{Message, MessageType, ◌>>=◌, >>=-eq-some, msg_pre_vote, msg_vote}
use basalt.Raft.Log.{RaftLog, append}
use basalt.Raft.Node.{
  Node, send, quorum, reset_election_timer, is_leader, is_candidate, become_candidate,
  become_pre_candidate,
}
use basalt.Raft.Replicate.{bcast_heartbeat, maybe_commit}
use basalt.Raft.Elect.{
  no_op, promoted, become_leader, bcast_vote, start_election, campaign, tick, handle_pre_vote,
  handle_pre_vote_resp, handle_vote, handle_vote_resp, counted_vote, counted_pre_vote,
}
use basalt.Raft.Safety.Steady.{
  Steady, Steady-view, for_peers-Steady, bcast_heartbeat-Steady, maybe_commit-Steady,
}
use basalt.Raft.Log.Commit.{append-committed}
use basalt.Raft.Safety.Evolve.{
  Evolves, Evolves-view, Evolves-trans, Steady→Evolves, become_candidate-Evolves,
  become_pre_candidate-Evolves,
}

-- What a won election does, step by step.
pub become_leader_parts :
    (n m : Node)
    → become_leader n ≡ some m
    → (log : RaftLog) × (b : Bool) × (k : Node) × (is_candidate n.role ≡ true)
      × (append (no_op n ∷ []) n.log ≡ some log)
      × (maybe_commit (promoted log n) ≡ some (b, k))
      × (bcast_heartbeat k ≡ some m)
unfolding become_leader
become_leader_parts n m h = elim (Bool-cases (is_candidate n.role)) [
  | inl c ↦
      let started : (do
        log ← append (no_op n ∷ []) n.log
        (_, k) ← maybe_commit (promoted log n)
        bcast_heartbeat k)
          ≡ some m =
        ground arith in
      let (log, a, rest) = >>=-eq-some (append (no_op n ∷ []) n.log) _ started in
      let ((b, k), e, last) = >>=-eq-some (maybe_commit (promoted log n)) _ rest in
      (log, b, k, c, a, e, last)
  | inr c ↦ absurd (ground arith)
]

promoted-Evolves :
    (n : Node) (log : RaftLog) → append (no_op n ∷ []) n.log ≡ some log → Evolves n (promoted log n)
promoted-Evolves n log a = record {
  term_up = omega arith;
  vote_kept = λ _ _. refl;
  commit_up = omega (arith, append-committed (no_op n ∷ []) n.log log a);
}

pub become_leader-Evolves : (n m : Node) → become_leader n ≡ some m → Evolves n m
become_leader-Evolves n m h =
    let (log, b, k, c, a, e, last) = become_leader_parts n m h in
    Evolves-trans n (promoted log n) m (promoted-Evolves n log a) (
      Evolves-trans (promoted log n) k m
        (Steady→Evolves (promoted log n) k (maybe_commit-Steady b (promoted log n) k e))
        (Steady→Evolves k m (bcast_heartbeat-Steady k m last)))

pub bcast_vote-Steady :
    (t : MessageType) (term : ℕ) (n m : Node) → bcast_vote t term n ≡ some m → Steady n m
unfolding bcast_vote send
bcast_vote-Steady t term n m h =
    for_peers-Steady _ (λ p a b q. Steady-view a b (ground arith)) n.peers n m h

pub start_election-Evolves : (n m : Node) → start_election n ≡ some m → Evolves n m
unfolding start_election
start_election-Evolves n m h =
    let (c, e, rest) = >>=-eq-some (become_candidate n) _ h in
    Evolves-trans n c m (become_candidate-Evolves n c e)
      (elim (Bool-cases (leb (quorum c) (length c.votes))) [
        | inl won ↦ become_leader-Evolves c m (ground arith)
        | inr asked ↦ Steady→Evolves c m (bcast_vote-Steady msg_vote c.term c m (ground arith))
      ])

pub campaign-Evolves : (n m : Node) → campaign n ≡ some m → Evolves n m
unfolding campaign
campaign-Evolves n m h = elim (Bool-cases (contains n.voters n.id)) [
  | inr learner ↦ Evolves-view n m (ground arith)
  | inl voter ↦ elim (Option-cases (become_pre_candidate n)) [
    | inl e ↦ absurd (ground arith)
    | inr (c, e) ↦
        Evolves-trans n c m (become_pre_candidate-Evolves n c e)
          (elim (Bool-cases (leb (quorum c) (length c.pre_votes))) [
            | inl won ↦ start_election-Evolves c m (ground arith)
            | inr asked ↦
                Steady→Evolves c m
                  (bcast_vote-Steady msg_pre_vote (add64 c.term 1) c m (ground arith))
          ])
  ]
]

pub tick-Evolves : (n m : Node) → tick n ≡ some m → Evolves n m
unfolding tick
tick-Evolves n m h =
    let beat : Node = record n { lease_elapsed = n.lease_elapsed + 1; heartbeat_elapse = 0 } in
    let waited : Node = record n { election_elapsed = n.election_elapsed + 1 } in
    elim (Bool-cases (is_leader n.role)) [
      | inl l ↦ elim (Bool-cases (leb n.heartbeat_tick (n.heartbeat_elapse + 1))) [
        | inl due ↦
            Evolves-trans n beat m (Evolves-view n beat refl)
              (Steady→Evolves beat m (bcast_heartbeat-Steady beat m (ground arith)))
        | inr early ↦ Evolves-view n m (ground arith)
      ]
      | inr f ↦ elim (Bool-cases (leb n.random_timeout (n.election_elapsed + 1))) [
        | inl due ↦
            Evolves-trans n waited m (Evolves-view n waited refl)
              (campaign-Evolves waited m (ground arith))
        | inr early ↦ Evolves-view n m (ground arith)
      ]
    ]

pub handle_pre_vote-Evolves :
    (msg : Message) (n m : Node) → handle_pre_vote msg n ≡ some m → Evolves n m
unfolding handle_pre_vote send
handle_pre_vote-Evolves msg n m h = Evolves-view n m (ground arith)

pub handle_vote-Evolves : (msg : Message) (n m : Node) → handle_vote msg n ≡ some m → Evolves n m
unfolding handle_vote send reset_election_timer
handle_vote-Evolves msg n m h = ground arith

counted_pre_vote-Evolves : (msg : Message) (n : Node) → Evolves n (counted_pre_vote msg n)
unfolding counted_pre_vote
counted_pre_vote-Evolves msg n = Evolves-view n (counted_pre_vote msg n) (ground arith)

counted_vote-Evolves : (msg : Message) (n : Node) → Evolves n (counted_vote msg n)
unfolding counted_vote
counted_vote-Evolves msg n = Evolves-view n (counted_vote msg n) (ground arith)

pub handle_pre_vote_resp-Evolves :
    (msg : Message) (n m : Node) → handle_pre_vote_resp msg n ≡ some m → Evolves n m
unfolding handle_pre_vote_resp
handle_pre_vote_resp-Evolves msg n m h =
    let counted : Node = counted_pre_vote msg n in
    elim (Bool-cases (not (is_candidate n.role) || ltb 0 (length n.votes))) [
      | inl idle ↦ Evolves-view n m (ground arith)
      | inr probing ↦
          Evolves-trans n counted m (counted_pre_vote-Evolves msg n)
            (elim (Bool-cases (leb (quorum counted) (length counted.pre_votes))) [
              | inl won ↦ start_election-Evolves counted m (ground arith)
              | inr asked ↦ Evolves-view counted m (ground arith)
            ])
    ]

pub handle_vote_resp-Evolves :
    (msg : Message) (n m : Node) → handle_vote_resp msg n ≡ some m → Evolves n m
unfolding handle_vote_resp
handle_vote_resp-Evolves msg n m h =
    let counted : Node = counted_vote msg n in
    elim (Bool-cases (is_candidate n.role)) [
      | inr idle ↦ Evolves-view n m (ground arith)
      | inl running ↦
          Evolves-trans n counted m (counted_vote-Evolves msg n)
            (elim (Bool-cases (leb (quorum counted) (length counted.votes))) [
              | inl won ↦ become_leader-Evolves counted m (ground arith)
              | inr asked ↦ Evolves-view counted m (ground arith)
            ])
    ]
