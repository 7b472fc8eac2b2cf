-- ===== src/Raft/Safety/Tally.antt =====
-- internal/raft/raft.go
-- Which votes a message or a tick adds to those that a node has counted.
use basalt.Prelude.{
  ℕ, ◌+◌, ◌≡◌, refl, sym, subst, ap, ◌∙◌, Option, some, List, [], ◌∷◌, true, false, arith, inl, inr,
  Bool-cases, Option-cases, ◌==◌, leb, ltb, ◌||◌, ◌&&◌, not, if◌then◌else◌, contains, insert,
  length, add64,
}
use basalt.Raft.Types.{Entry, Message, msg_vote, msg_vote_resp, msg_pre_vote, >>=-eq-some}
use basalt.Raft.Log
use basalt.Raft.Log.{RaftLog, append, maybe_append, applied_to}
use basalt.Raft.Node.{
  Node, send, quorum, reset, become_candidate, become_pre_candidate, is_candidate,
  reset_election_timer, is_leader, become_follower,
}
use basalt.Raft.Elect.{
  start_election, handle_pre_vote, handle_pre_vote_resp, handle_vote, handle_vote_resp, tick,
  campaign, promoted, become_leader, counted_vote, counted_pre_vote,
}
use basalt.Raft.Step.{
  RaftError, handle_app, handle_app_resp, stamp, handle_propose, dispatch, is_app, step_term, step,
}
use basalt.Raft.Safety.Steady.{Steady, Steady-trans, maybe_commit-Steady}
use basalt.Raft.Safety.Steady.{bcast_heartbeat-Steady}
use basalt.Raft.Safety.Campaign.{become_leader_parts, bcast_vote-Steady}
use basalt.Raft.Safety.Handlers.{handle_app_resp-Steady, publish-Steady}

-- The message grants its sender's vote to a candidate with these voters in this term.
pub record Grants (voters : List ℕ) (term : ℕ) (msg : Message) : Type 0 where
  pub is_answer : msg.type ≡ msg_vote_resp
  pub granted : msg.reject ≡ false
  pub by_voter : contains voters msg.from ≡ true
  pub in_term : msg.term ≡ term

abbrev Ballot : Type 0
Ballot = ℕ × List ℕ × List ℕ

abbrev ballot : Node → Ballot
ballot n = (n.id, n.voters, n.votes)

-- A property of the counted votes that the ways of counting one keep.
module _ (id : ℕ) (voters : List ℕ) (P : List ℕ → Type 0) (nothing : P []) (own : P (id ∷ [])) where
  pub record Tally (n : Node) : Type 0 where
    pub same_id : n.id ≡ id
    pub same_voters : n.voters ≡ voters
    pub votes : P n.votes

  Tally-ballot : (n m : Node) → ballot m ≡ ballot n → Tally n → Tally m
  Tally-ballot n m e t = record {
    same_id = ap (λ (b : Ballot). b.0) e ∙ t.same_id;
    same_voters = ap (λ (b : Ballot). b.1) e ∙ t.same_voters;
    votes = subst P (sym (ap (λ (b : Ballot). b.2) e)) t.votes;
  }

  Tally-Steady : (n m : Node) → Steady n m → Tally n → Tally m
  Tally-Steady n m s t = record {
    same_id = s.same_id ∙ t.same_id;
    same_voters = s.same_voters ∙ t.same_voters;
    votes = subst P (sym s.same_votes) t.votes;
  }

  Tally-become_leader : (n m : Node) → become_leader n ≡ some m → Tally n → Tally m
  Tally-become_leader n m h t =
      let (log, b, k, c, a, e, last) = become_leader_parts n m h in
      Tally-Steady (promoted log n) m
        (Steady-trans (promoted log n) k m (maybe_commit-Steady b (promoted log n) k e)
          (bcast_heartbeat-Steady k m last))
        (Tally-ballot n (promoted log n) refl t)

  become_candidate-ballot :
      (n m : Node) → become_candidate n ≡ some m → ballot m ≡ (n.id, n.voters, n.id ∷ [])
  unfolding become_candidate reset reset_election_timer insert
  become_candidate-ballot n m h = ground arith

  Tally-become_candidate : (n m : Node) → become_candidate n ≡ some m → Tally n → Tally m
  Tally-become_candidate n m h t =
      let e = become_candidate-ballot n m h in
      record {
        same_id = ap (λ (b : Ballot). b.0) e ∙ t.same_id;
        same_voters = ap (λ (b : Ballot). b.1) e ∙ t.same_voters;
        votes = subst P (ap (λ i. i ∷ []) (sym t.same_id) ∙ sym (ap (λ (b : Ballot). b.2) e)) own;
      }

  Tally-start_election : (n m : Node) → start_election n ≡ some m → Tally n → Tally m
  unfolding start_election
  Tally-start_election n m h t =
      let (c, e, rest) = >>=-eq-some (become_candidate n) _ h in
      let t' = Tally-become_candidate n c e t in
      elim (Bool-cases (leb (quorum c) (length c.votes))) [
        | inl won ↦ Tally-become_leader c m (ground arith) t'
        | inr asked ↦ Tally-Steady c m (bcast_vote-Steady msg_vote c.term c m (ground arith)) t'
      ]

  become_pre_candidate-ballot : (n m : Node) → become_pre_candidate n ≡ some m → ballot m ≡ ballot n
  unfolding become_pre_candidate reset_election_timer
  become_pre_candidate-ballot n m h = ground arith

  Tally-campaign : (n m : Node) → campaign n ≡ some m → Tally n → Tally m
  unfolding campaign
  Tally-campaign n m h t = elim (Bool-cases (contains n.voters n.id)) [
    | inr learner ↦ Tally-ballot n m (ground arith) t
    | inl voter ↦ elim (Option-cases (become_pre_candidate n)) [
      | inl e ↦ absurd (ground arith)
      | inr (c, e) ↦
          let t' = Tally-ballot n c (become_pre_candidate-ballot n c e) t in
          elim (Bool-cases (leb (quorum c) (length c.pre_votes))) [
            | inl won ↦ Tally-start_election c m (ground arith) t'
            | inr asked ↦
                Tally-Steady c m
                  (bcast_vote-Steady msg_pre_vote (add64 c.term 1) c m (ground arith)) t'
          ]
    ]
  ]

  pub Tally-tick : (n m : Node) → tick n ≡ some m → Tally n → Tally m
  unfolding tick
  Tally-tick n m h t =
      let beat : Node = record n { lease_elapsed = n.lease_elapsed + 1; heartbeat_elapse = 0 } in
      let waited : Node = record n { election_elapsed = n.election_elapsed + 1 } in
      elim (Bool-cases (is_leader n.role)) [
        | inl l ↦ elim (Bool-cases (leb n.heartbeat_tick (n.heartbeat_elapse + 1))) [
          | inl due ↦
              Tally-Steady beat m (bcast_heartbeat-Steady beat m (ground arith))
                (Tally-ballot n beat refl t)
          | inr early ↦ Tally-ballot n m (ground arith) t
        ]
        | inr f ↦ elim (Bool-cases (leb n.random_timeout (n.election_elapsed + 1))) [
          | inl due ↦ Tally-campaign waited m (ground arith) (Tally-ballot n waited refl t)
          | inr early ↦ Tally-ballot n m (ground arith) t
        ]
      ]

  handle_app-ballot : (msg : Message) (n m : Node) → handle_app msg n ≡ some m → ballot m ≡ ballot n
  unfolding handle_app reset_election_timer send
  handle_app-ballot msg n m h =
      let ((r, log), e, rest) =
        >>=-eq-some (maybe_append msg.log_index msg.log_term msg.commit msg.entries n.log) _ h in
      ground arith

  handle_vote-ballot :
      (msg : Message) (n m : Node) → handle_vote msg n ≡ some m → ballot m ≡ ballot n
  unfolding handle_vote send reset_election_timer
  handle_vote-ballot msg n m h = ground arith

  handle_pre_vote-ballot :
      (msg : Message) (n m : Node) → handle_pre_vote msg n ≡ some m → ballot m ≡ ballot n
  unfolding handle_pre_vote send
  handle_pre_vote-ballot msg n m h = ground arith

  Tally-handle_pre_vote_resp :
      (msg : Message) (n m : Node) → handle_pre_vote_resp msg n ≡ some m → Tally n → Tally m
  unfolding handle_pre_vote_resp
  Tally-handle_pre_vote_resp msg n m h t =
      let counted : Node = counted_pre_vote msg n in
      let same : ballot counted ≡ ballot n = unfold counted_pre_vote in ground arith in
      let t' = Tally-ballot n counted same t in
      elim (Bool-cases (not (is_candidate n.role) || ltb 0 (length n.votes))) [
        | inl idle ↦ Tally-ballot n m (ground arith) t
        | inr probing ↦ elim (Bool-cases (leb (quorum counted) (length counted.pre_votes))) [
          | inl won ↦ Tally-start_election counted m (ground arith) t'
          | inr asked ↦ Tally-ballot counted m (ground arith) t'
        ]
      ]

  Tally-handle_propose :
      (msg : Message) (n m : Node) (r : Option RaftError)
      → handle_propose msg n ≡ some (r, m)
      → Tally n
      → Tally m
  unfolding handle_propose
  Tally-handle_propose msg n m r h t =
      let ents : List Entry = stamp (add64 (Log.last_index n.log) 1) n.term msg.entries in
      elim (Bool-cases (not (is_leader n.role) || not (n.transferee == 0))) [
        | inl refused ↦ Tally-ballot n m (ground arith) t
        | inr leads ↦ elim (Option-cases (append ents n.log)) [
          | inl e ↦ absurd (ground arith)
          | inr (log, a) ↦
              Tally-Steady (record n { log = log }) m
                (publish-Steady r (record n { log = log }) m (ground arith))
                (Tally-ballot n (record n { log = log }) refl t)
        ]
      ]

  become_follower-ballot :
      (term lead : ℕ) (n m : Node)
      → become_follower term lead n ≡ some m
      → (ballot m ≡ (n.id, n.voters, [])) × (is_candidate m.role ≡ false)
  unfolding become_follower reset reset_election_timer
  become_follower-ballot term lead n m h = (ground arith, ground arith)

  Tally-become_follower :
      (term lead : ℕ) (n m : Node) → become_follower term lead n ≡ some m → Tally n → Tally m
  Tally-become_follower term lead n m h t =
      let e = (become_follower-ballot term lead n m h).0 in
      record {
        same_id = ap (λ (b : Ballot). b.0) e ∙ t.same_id;
        same_voters = ap (λ (b : Ballot). b.1) e ∙ t.same_voters;
        votes = subst P (sym (ap (λ (b : Ballot). b.2) e)) nothing;
      }

  -- A message whose grant, if it is one for this node, keeps the property.
  module _ (msg : Message) (term : ℕ)
      (grant : (votes : List ℕ)
        → Grants voters term msg
        → P votes
        → P (insert msg.from votes)) where
    Tally-counted_vote :
        (n : Node)
        → msg.type ≡ msg_vote_resp
        → msg.term ≡ term
        → Tally n
        → Tally (counted_vote msg n)
    unfolding counted_vote
    Tally-counted_vote n is_answer in_term t =
        elim (Bool-cases (not msg.reject && contains n.voters msg.from)) [
          | inr ignored ↦
              Tally-ballot n (counted_vote msg n) (unfold counted_vote in ground arith) t
          | inl counts ↦
              let g : Grants voters term msg = record {
                is_answer = is_answer;
                granted = ground arith;
                by_voter = subst (λ vs. contains vs msg.from ≡ true) t.same_voters (ground arith);
                in_term = in_term;
              } in
              let voted : Node = record n { votes = insert msg.from n.votes } in
              let t' : Tally voted = record {
                same_id = t.same_id;
                same_voters = t.same_voters;
                votes = grant n.votes g t.votes;
              } in
              Tally-ballot voted (counted_vote msg n) (unfold counted_vote in ground arith) t'
        ]

    Tally-handle_vote_resp :
        (n m : Node)
        → msg.type ≡ msg_vote_resp
        → (is_candidate n.role ≡ true → msg.term ≡ term)
        → handle_vote_resp msg n ≡ some m
        → Tally n
        → Tally m
    unfolding handle_vote_resp
    Tally-handle_vote_resp n m is_answer in_term h t = elim (Bool-cases (is_candidate n.role)) [
      | inr idle ↦ Tally-ballot n m (ground arith) t
      | inl running ↦
          let counted : Node = counted_vote msg n in
          let t' = Tally-counted_vote n is_answer (in_term running) t in
          elim (Bool-cases (leb (quorum counted) (length counted.votes))) [
            | inl won ↦ Tally-become_leader counted m (ground arith) t'
            | inr asked ↦ Tally-ballot counted m (ground arith) t'
          ]
    ]

    Tally-dispatch :
        (n m : Node)
        → (is_candidate n.role ≡ true → msg.term ≡ term)
        → dispatch msg n ≡ some m
        → Tally n
        → Tally m
    unfolding dispatch
    Tally-dispatch n m in_term h t = ground (
      arith,
      t,
      λ (q : handle_vote msg n ≡ some m). Tally-ballot n m (handle_vote-ballot msg n m q) t,
      λ (a : msg.type ≡ msg_vote_resp) (q : handle_vote_resp msg n ≡ some m).
          Tally-handle_vote_resp n m a in_term q t,
      λ (q : handle_app msg n ≡ some m). Tally-ballot n m (handle_app-ballot msg n m q) t,
      λ (q : start_election n ≡ some m). Tally-start_election n m q t,
      λ (q : handle_app_resp msg n ≡ some m). Tally-Steady n m (handle_app_resp-Steady msg n m q) t,
    )

    Tally-step_term : (n m : Node) → n.term ≡ term → step_term msg n ≡ some m → Tally n → Tally m
    unfolding step_term
    Tally-step_term n m now h t = elim (Bool-cases (ltb n.term msg.term)) [
      | inl newer ↦
          let lead : ℕ = if is_app msg.type then msg.from else 0 in
          elim (Option-cases (become_follower msg.term lead n)) [
            | inl e ↦ absurd (ground arith)
            | inr (f, e) ↦
                Tally-dispatch f m
                  (λ c. absurd (cc (c, (become_follower-ballot msg.term lead n f e).1)))
                  (ground arith) (Tally-become_follower msg.term lead n f e t)
          ]
      | inr older ↦ elim (Bool-cases (ltb msg.term n.term)) [
        | inl stale ↦ Tally-ballot n m (unfold send in ground arith) t
        | inr same ↦
            let equal : msg.term ≡ term = ground (arith, older, same, now) in
            Tally-dispatch n m (λ c. equal) (ground arith) t
      ]
    ]

    pub Tally-step :
        (n m : Node) (r : Option RaftError)
        → n.term ≡ term
        → step msg n ≡ some (r, m)
        → Tally n
        → Tally m
    unfolding step
    Tally-step n m r now h t = ground (
      arith,
      λ (q : handle_propose msg n ≡ some (r, m)). Tally-handle_propose msg n m r q t,
      λ (q : handle_pre_vote msg n ≡ some m). Tally-ballot n m (handle_pre_vote-ballot msg n m q) t,
      λ (q : handle_pre_vote_resp msg n ≡ some m). Tally-handle_pre_vote_resp msg n m q t,
      λ (q : step_term msg n ≡ some m). Tally-step_term n m now q t,
    )
