-- ===== src/Raft/Safety/Elected.antt =====
-- A node becomes the leader only by the votes of a quorum.
use basalt.Prelude.{
  ℕ, ◌+◌, ◌≤◌, ◌≡◌, refl, Option, none, some, List, [], ◌∷◌, All, insert, subst, true, false, arith,
  inl, inr, ◌⊎◌, Bool-cases, Option-cases, ◌==◌, leb, ltb, ◌||◌, not, if◌then◌else◌, contains,
  length, add64,
}
use basalt.Raft.Types.{Entry, Message, msg_vote, msg_pre_vote, >>=-eq-some}
use basalt.Raft.Log
use basalt.Raft.Log.{RaftLog, append, maybe_append, applied_to}
use basalt.Raft.Node.{
  Node, send, quorum, reset, become_candidate, become_pre_candidate, is_candidate,
  reset_election_timer, is_leader, become_follower,
}
use basalt.Raft.Elect.{
  start_election, handle_pre_vote, handle_pre_vote_resp, handle_vote, handle_vote_resp, tick,
  campaign, promoted, become_leader, counted_vote, counted_pre_vote,
}
use basalt.Raft.Step.{
  RaftError, handle_app, handle_app_resp, stamp, handle_propose, dispatch, is_app, step_term, step,
}
use basalt.Raft.Safety.Steady.{Steady, Steady-trans, maybe_commit-Steady}
use basalt.Raft.Safety.Steady.{bcast_heartbeat-Steady}
use basalt.Raft.Safety.Campaign.{become_leader_parts, bcast_vote-Steady}
use basalt.Raft.Quorum.{Distinct}
use basalt.Raft.Safety.Tally.{Grants, Tally-tick, Tally-step}
use basalt.Raft.Safety.Handlers.{handle_app_resp-Steady, publish-Steady}

-- What a node takes: a message, or a tick.
abbrev pub Takes : Option Message → Node → Node → Type 0
Takes none n m = tick n ≡ some m
Takes (some msg) n m = (r : Option RaftError) × (step msg n ≡ some (r, m))

-- A vote that was counted before, the node's own, or one that the message grants: an answer to a
-- request for votes of this term that is no rejection, from a voter.
abbrev pub Backed : Option Message → Node → ℕ → Type 0
Backed none n v = (contains n.votes v ≡ true) ⊎ (v ≡ n.id)
Backed (some msg) n v =
    (contains n.votes v ≡ true) ⊎ (v ≡ n.id) ⊎ ((v ≡ msg.from) × Grants n.voters n.term msg)

-- If `m` leads, then `n` did already or a quorum of votes has been counted.
pub Wins : Node → Node → Type 0
Wins n m = is_leader m.role ≡ true → (is_leader n.role ≡ true) ⊎ (quorum m ≤ length m.votes)

Steady→Wins : (n m : Node) → Steady n m → Wins n m
unfolding Wins
Steady→Wins n m s l = inl (rw (← s.same_role) l)

-- From a node that does not lead, or in its place.
Wins-from : (n k m : Node) → is_leader k.role ≡ false → Wins k m → Wins n m
unfolding Wins
Wins-from n k m f w l = elim (w l) [ inl t ↦ cc (t, f) | inr q ↦ inr q ]

Wins-same : (n k m : Node) → k.role ≡ n.role → Wins k m → Wins n m
unfolding Wins
Wins-same n k m e w l = elim (w l) [ inl t ↦ inl (rw (← e) t) | inr q ↦ inr q ]

Wins-view : (n m : Node) → m.role ≡ n.role → Wins n m
unfolding Wins
Wins-view n m e l = inl (rw (← e) l)

become_leader-Wins : (n m : Node) → quorum n ≤ length n.votes → become_leader n ≡ some m → Wins n m
unfolding Wins quorum
become_leader-Wins n m q h l =
    let (log, b, k, c, a, e, last) = become_leader_parts n m h in
    let s : Steady (promoted log n) m =
      Steady-trans (promoted log n) k m (maybe_commit-Steady b (promoted log n) k e)
        (bcast_heartbeat-Steady k m last) in
    inr (rw (s.same_votes, s.same_voters) q)

become_candidate_role : (n m : Node) → become_candidate n ≡ some m → is_leader m.role ≡ false
unfolding become_candidate reset reset_election_timer
become_candidate_role n m h = ground arith

start_election-Wins : (n m : Node) → start_election n ≡ some m → Wins n m
unfolding start_election
start_election-Wins n m h =
    let (c, e, rest) = >>=-eq-some (become_candidate n) _ h in
    Wins-from n c m (become_candidate_role n c e)
      (elim (Bool-cases (leb (quorum c) (length c.votes))) [
        | inl won ↦ become_leader-Wins c m (ground arith) (ground arith)
        | inr asked ↦ Steady→Wins c m (bcast_vote-Steady msg_vote c.term c m (ground arith))
      ])

become_pre_candidate_role :
    (n m : Node) → become_pre_candidate n ≡ some m → is_leader m.role ≡ false
unfolding become_pre_candidate reset_election_timer
become_pre_candidate_role n m h = ground arith

pub campaign-Wins : (n m : Node) → campaign n ≡ some m → Wins n m
unfolding campaign
campaign-Wins n m h = elim (Bool-cases (contains n.voters n.id)) [
  | inr learner ↦ Wins-view n m (ground arith)
  | inl voter ↦ elim (Option-cases (become_pre_candidate n)) [
    | inl e ↦ absurd (ground arith)
    | inr (c, e) ↦
        Wins-from n c m (become_pre_candidate_role n c e)
          (elim (Bool-cases (leb (quorum c) (length c.pre_votes))) [
            | inl won ↦ start_election-Wins c m (ground arith)
            | inr asked ↦
                Steady→Wins c m (bcast_vote-Steady msg_pre_vote (add64 c.term 1) c m (ground arith))
          ])
  ]
]

handle_app_role :
    (msg : Message) (n m : Node) → handle_app msg n ≡ some m → is_leader m.role ≡ false
unfolding handle_app reset_election_timer send
handle_app_role msg n m h =
    let ((r, log), e, rest) =
      >>=-eq-some (maybe_append msg.log_index msg.log_term msg.commit msg.entries n.log) _ h in
    ground arith

handle_vote_role : (msg : Message) (n m : Node) → handle_vote msg n ≡ some m → m.role ≡ n.role
unfolding handle_vote send reset_election_timer
handle_vote_role msg n m h = ground arith

handle_vote_resp-Wins : (msg : Message) (n m : Node) → handle_vote_resp msg n ≡ some m → Wins n m
unfolding handle_vote_resp
handle_vote_resp-Wins msg n m h =
    let counted : Node = counted_vote msg n in
    let role : counted.role ≡ n.role = unfold counted_vote in ground arith in
    elim (Bool-cases (is_candidate n.role)) [
      | inr idle ↦ Wins-view n m (ground arith)
      | inl running ↦
          Wins-same n counted m role
            (elim (Bool-cases (leb (quorum counted) (length counted.votes))) [
              | inl won ↦ become_leader-Wins counted m (ground arith) (ground arith)
              | inr asked ↦ Wins-view counted m (ground arith)
            ])
    ]

handle_pre_vote_resp-Wins :
    (msg : Message) (n m : Node) → handle_pre_vote_resp msg n ≡ some m → Wins n m
unfolding handle_pre_vote_resp
handle_pre_vote_resp-Wins msg n m h =
    let counted : Node = counted_pre_vote msg n in
    let role : counted.role ≡ n.role = unfold counted_pre_vote in ground arith in
    elim (Bool-cases (not (is_candidate n.role) || ltb 0 (length n.votes))) [
      | inl idle ↦ Wins-view n m (ground arith)
      | inr probing ↦
          Wins-same n counted m role
            (elim (Bool-cases (leb (quorum counted) (length counted.pre_votes))) [
              | inl won ↦ start_election-Wins counted m (ground arith)
              | inr asked ↦ Wins-view counted m (ground arith)
            ])
    ]

Wins-not_leading : (n m : Node) → is_leader m.role ≡ false → Wins n m
unfolding Wins
Wins-not_leading n m f l = cc (l, f)

dispatch-Wins : (msg : Message) (n m : Node) → dispatch msg n ≡ some m → Wins n m
unfolding dispatch
dispatch-Wins msg n m h = ground (
  arith,
  Wins-view n n refl,
  λ (q : handle_vote msg n ≡ some m). Wins-view n m (handle_vote_role msg n m q),
  handle_vote_resp-Wins msg n m,
  λ (q : handle_app msg n ≡ some m). Wins-not_leading n m (handle_app_role msg n m q),
  start_election-Wins n m,
  λ (q : handle_app_resp msg n ≡ some m). Steady→Wins n m (handle_app_resp-Steady msg n m q),
)

become_follower_role :
    (term lead : ℕ) (n m : Node) → become_follower term lead n ≡ some m → is_leader m.role ≡ false
unfolding become_follower
become_follower_role term lead n m h =
    let (k, e, rest) = >>=-eq-some (reset term n) _ h in ground arith

step_term-Wins : (msg : Message) (n m : Node) → step_term msg n ≡ some m → Wins n m
unfolding step_term
step_term-Wins msg n m h = elim (Bool-cases (ltb n.term msg.term)) [
  | inl newer ↦
      let lead : ℕ = if is_app msg.type then msg.from else 0 in
      elim (Option-cases (become_follower msg.term lead n)) [
        | inl e ↦ absurd (ground arith)
        | inr (f, e) ↦
            Wins-from n f m (become_follower_role msg.term lead n f e)
              (dispatch-Wins msg f m (ground arith))
      ]
  | inr older ↦ elim (Bool-cases (ltb msg.term n.term)) [
    | inl stale ↦ Wins-view n m (unfold send in ground arith)
    | inr same ↦ dispatch-Wins msg n m (ground arith)
  ]
]

handle_propose-Wins :
    (msg : Message) (n m : Node) (r : Option RaftError)
    → handle_propose msg n ≡ some (r, m)
    → Wins n m
unfolding handle_propose
handle_propose-Wins msg n m r h =
    let ents : List Entry = stamp (add64 (Log.last_index n.log) 1) n.term msg.entries in
    elim (Bool-cases (not (is_leader n.role) || not (n.transferee == 0))) [
      | inl refused ↦ Wins-view n m (ground arith)
      | inr leads ↦ elim (Option-cases (append ents n.log)) [
        | inl e ↦ absurd (ground arith)
        | inr (log, a) ↦
            Wins-same n (record n { log = log }) m refl
              (Steady→Wins (record n { log = log }) m
                (publish-Steady r (record n { log = log }) m (ground arith)))
      ]
    ]

handle_pre_vote_role :
    (msg : Message) (n m : Node) → handle_pre_vote msg n ≡ some m → m.role ≡ n.role
unfolding handle_pre_vote send
handle_pre_vote_role msg n m h = ground arith

tick-Wins : (n m : Node) → tick n ≡ some m → Wins n m
unfolding tick Wins
tick-Wins n m h =
    let beat : Node = record n { lease_elapsed = n.lease_elapsed + 1; heartbeat_elapse = 0 } in
    let waited : Node = record n { election_elapsed = n.election_elapsed + 1 } in
    elim (Bool-cases (is_leader n.role)) [
      | inl l ↦ λ _. inl l
      | inr f ↦ elim (Bool-cases (leb n.random_timeout (n.election_elapsed + 1))) [
        | inl due ↦ Wins-same n waited m refl (campaign-Wins waited m (ground arith))
        | inr early ↦ Wins-view n m (ground arith)
      ]
    ]

wins : (n m : Node) (input : Option Message) → Takes input n m → Wins n m
unfolding step
wins n m none h = tick-Wins n m h
wins n m (some msg) (r, h) = ground (
  arith,
  handle_propose-Wins msg n m r,
  λ (q : handle_pre_vote msg n ≡ some m). Wins-view n m (handle_pre_vote_role msg n m q),
  handle_pre_vote_resp-Wins msg n m,
  step_term-Wins msg n m,
)

insert-Backed :
    (msg : Message) (n : Node) (votes : List ℕ)
    → Grants n.voters n.term msg
    → All (Backed (some msg) n) votes
    → All (Backed (some msg) n) (insert msg.from votes)
unfolding insert
insert-Backed msg n [] g w = (inr (inr (refl, g)), tt)
insert-Backed msg n (v ∷ votes) g (p, w) = elim (Bool-cases (v == msg.from)) [
  | inl there ↦
      let now : v ∷ votes ≡ insert msg.from (v ∷ votes) = ground (arith, there) in
      subst (All (Backed (some msg) n)) now (p, w)
  | inr other ↦
      let now : v ∷ insert msg.from votes ≡ insert msg.from (v ∷ votes) = ground (arith, other) in
      subst (All (Backed (some msg) n)) now (p, insert-Backed msg n votes g w)
]

contains-insert :
    (a b : ℕ) (xs : List ℕ)
    → (a == b) ≡ false
    → contains xs b ≡ false
    → contains (insert a xs) b ≡ false
unfolding contains insert
contains-insert a b [] d h = ground (arith, d)
contains-insert a b (x ∷ xs) d h = ground (arith, d, h, contains-insert a b xs d)

insert-Distinct : (a : ℕ) (xs : List ℕ) → Distinct xs → Distinct (insert a xs)
unfolding insert contains
insert-Distinct a [] d = (refl, tt)
insert-Distinct a (x ∷ xs) (p, d) = elim (Bool-cases (x == a)) [
  | inl there ↦
      let now : x ∷ xs ≡ insert a (x ∷ xs) = ground (arith, there) in subst Distinct now (p, d)
  | inr other ↦
      let now : x ∷ insert a xs ≡ insert a (x ∷ xs) = ground (arith, other) in
      subst Distinct now (contains-insert a x xs (ground (arith, other)) p, insert-Distinct a xs d)
]

Backed-before :
    (input : Option Message) (n : Node) (votes : List ℕ)
    → ((v : ℕ) → contains votes v ≡ true → contains n.votes v ≡ true)
    → All (Backed input n) votes
unfolding contains
Backed-before none n [] w = tt
Backed-before (some msg) n [] w = tt
Backed-before none n (v ∷ votes) w =
    (inl (w v (ground arith)), Backed-before none n votes (λ u h. w u (ground (arith, h))))
Backed-before (some msg) n (v ∷ votes) w =
    (inl (w v (ground arith)), Backed-before (some msg) n votes (λ u h. w u (ground (arith, h))))

-- The counted votes are distinct and backed.
abbrev Counted : Option Message → Node → List ℕ → Type 0
Counted input n votes = Distinct votes × All (Backed input n) votes

-- After a message or a tick the votes that a node has counted are distinct if they were so before,
-- and each of them was counted before, is the node's own, or is the one that the message grants: an
-- answer to a request for votes in the node's term that is no rejection, from one of its voters.
pub votes-Backed :
    (n m : Node) (input : Option Message)
    → Takes input n m
    → Distinct n.votes
    → Distinct m.votes × All (Backed input n) m.votes
unfolding contains
votes-Backed n m none h d =
    (Tally-tick n.id n.voters (Counted none n) (tt, tt) ((refl, tt), (inr refl, tt)) n m h
      (record {
        same_id = refl;
        same_voters = refl;
        votes = (d, Backed-before none n n.votes (λ v c. c));
      })).votes
votes-Backed n m (some msg) (r, h) d =
    (Tally-step n.id n.voters (Counted (some msg) n) (tt, tt) ((refl, tt), (inr (inl refl), tt)) msg
      n.term (λ votes g (e, w). (insert-Distinct msg.from votes e, insert-Backed msg n votes g w)) n
      m r refl h
      (record {
        same_id = refl;
        same_voters = refl;
        votes = (d, Backed-before (some msg) n n.votes (λ v c. c));
      })).votes

-- A node that leads after a message or a tick, its counted votes having been distinct, led before
-- it, or has as many distinct votes as a quorum of its voters, each of which was counted before, is
-- the node's own, or is granted by the message, which answers a request for votes in the node's
-- term without a rejection and comes from one of its voters.
pub leader_has_quorum :
    (n m : Node) (input : Option Message)
    → Takes input n m
    → Distinct n.votes
    → is_leader m.role ≡ true
    → (is_leader n.role ≡ true)
      ⊎ ((quorum m ≤ length m.votes) × Distinct m.votes × All (Backed input n) m.votes)
unfolding Wins
leader_has_quorum n m input h d l = elim (wins n m input h l) [
  | inl led ↦ inl led
  | inr q ↦ let (e, w) = votes-Backed n m input h d in inr (q, e, w)
]
