-- ===== src/Raft/Safety/Evolve.antt =====
-- No operation takes a node's term back, changes a vote that was cast within a term, or takes the
-- commit index back.
use basalt.Prelude.{ℕ, ◌≤◌, ◌<◌, ◌≡◌, ◌≢◌, refl, ap, some, arith, inl, inr, ◌⊎◌}
use basalt.Raft.Log.{RaftLog}
use basalt.Raft.Node.{
  Node, reset_election_timer, reset, become_follower, become_candidate, become_pre_candidate,
}
use basalt.Raft.Safety.Steady.{Steady}

pub record Evolves (n m : Node) : Type 0 where
  pub term_up : n.term ≤ m.term
  pub vote_kept : m.term ≡ n.term → n.vote ≢ 0 → m.vote ≡ n.vote
  pub commit_up : n.log.committed ≤ m.log.committed

pub Evolves-refl : (n : Node) → Evolves n n
Evolves-refl n = record { term_up = omega arith; vote_kept = λ _ _. refl; commit_up = omega arith }

pub Evolves-trans : (n m k : Node) → Evolves n m → Evolves m k → Evolves n k
Evolves-trans n m k a b = record {
  term_up = omega (arith, a.term_up, b.term_up);
  vote_kept = λ e v.
      let first : m.term ≡ n.term = omega (arith, a.term_up, b.term_up) in
      let kept : m.vote ≡ n.vote = a.vote_kept first v in
      cc (kept, b.vote_kept (omega (arith, a.term_up, b.term_up)) (λ z. v (cc (kept, z))));
  commit_up = omega (arith, a.commit_up, b.commit_up);
}

pub Steady→Evolves : (n m : Node) → Steady n m → Evolves n m
Steady→Evolves n m s = record {
  term_up = omega (arith, s.same_term);
  vote_kept = λ _ _. s.same_vote;
  commit_up = s.commit_up;
}

-- The same term, vote and commit index.
abbrev pub hard_view : Node → ℕ × ℕ × ℕ
hard_view n = (n.term, n.vote, n.log.committed)

pub Evolves-view : (n m : Node) → hard_view m ≡ hard_view n → Evolves n m
Evolves-view n m e = record {
  term_up = omega (arith, ap (λ (v : ℕ × ℕ × ℕ). v.0) e);
  vote_kept = λ _ _. ap (λ (v : ℕ × ℕ × ℕ). v.1) e;
  commit_up = omega (arith, ap (λ (v : ℕ × ℕ × ℕ). v.2) e);
}

-- A node at a term at least as high, with the old vote unless the term is new.
abbrev Renews : Node → Node → Type 0
Renews n m = (m.log ≡ n.log) × ((m.term ≡ n.term) × (m.vote ≡ n.vote) ⊎ (n.term < m.term))

Renews→Evolves : (n m : Node) → Renews n m → Evolves n m
Renews→Evolves n m (log, inl (t, v)) = record {
  term_up = omega (arith, t);
  vote_kept = λ _ _. v;
  commit_up = omega (arith, ap (λ (l : RaftLog). l.committed) log);
}
Renews→Evolves n m (log, inr t) = record {
  term_up = omega (arith, t);
  vote_kept = λ e _. absurd (omega (arith, t));
  commit_up = omega (arith, ap (λ (l : RaftLog). l.committed) log);
}

pub become_follower-Evolves :
    (term lead : ℕ) (n m : Node) → become_follower term lead n ≡ some m → Evolves n m
unfolding become_follower reset reset_election_timer
become_follower-Evolves term lead n m h = Renews→Evolves n m (ground arith)

pub become_candidate-Evolves : (n m : Node) → become_candidate n ≡ some m → Evolves n m
unfolding become_candidate reset reset_election_timer
become_candidate-Evolves n m h = Renews→Evolves n m (ground arith)

pub become_pre_candidate-Evolves : (n m : Node) → become_pre_candidate n ≡ some m → Evolves n m
unfolding become_pre_candidate reset_election_timer
become_pre_candidate-Evolves n m h = Evolves-view n m (ground arith)
