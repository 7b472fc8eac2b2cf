-- ===== src/Raft/Tests.antt =====
-- The theorems on the raft core at concrete inputs: a cluster of three nodes, a one-node cluster.
use basalt.Raft.Reads.{read_index, to_read_states, maybe_start_read_round, read_fuel}
use basalt.Raft.Reads.Rounds.{read_index_at_once, read_fuel_enough, begun_round}
use basalt.Prelude.{
  ℕ, ◌≤◌, ◌<◌, ◌≡◌, ◌⊎◌, refl, inl, inr, Option, none, some, List, [], ◌∷◌, ◌++◌, true, false,
  arith, length, min, contains, insert, lookup, put, All, Bool-cases, ==_iff, ◌==◌, subst,
}
use mathlib.Core.Option
use mathlib.Core.Option.{get_or}
use basalt.Raft.Types.{
  leader, Entry, entry_normal, Message, message, msg_vote_resp, msg_pre_vote_resp,
}
use basalt.Raft.Log.{
  RaftLog, new_log, term, compact_to, maybe_append, last_index, append, slice, commit_to, last_term,
  is_up_to_date,
}
use basalt.Raft.Log.WellFormed.{IsWellFormed}
use basalt.Raft.Log.Compact.{Compacted, compact_to_lem}
use basalt.Raft.Log.Merge.{Accepted, maybe_append_accepts}
use basalt.Raft.Node.{
  Node, quorum, is_leader, splitmix, intn, reset_election_timer, reset, become_follower,
  become_candidate, become_pre_candidate, send, hard_state, round_active,
}
use basalt.Raft.Conf.{rebuild_peers, init_progress}
use basalt.Raft.Replicate.{
  maybe_commit, index_of, send_append, for_peers, bcast_append, bcast_heartbeat, insert_descending,
  sort_descending, sorted_matches,
}
use basalt.Raft.Commitment.{matching, maybe_commit-quorum}
use basalt.Raft.Quorum.{Distinct, Within, quorums_overlap}
use basalt.Raft.Elect.{
  campaign, become_leader, bcast_vote, start_election, handle_pre_vote, counted_pre_vote,
  counted_vote, handle_pre_vote_resp, handle_vote, handle_vote_resp,
}
use basalt.Raft.Step.{step, dispatch, step_term}
use basalt.Raft.Start.{blank, no_hard_state, new_node, recover_log, recover_members}
use basalt.Raft.Safety.Evolve.{Evolves}
use basalt.Raft.Safety.Runs.{Move, Runs, here, next, campaigns, steps, Runs-Evolves}
use basalt.Raft.Safety.Elected.{leader_has_quorum, votes-Backed, Backed}

abbrev entry_of : ℕ → ℕ → Entry
entry_of i t = record { type = entry_normal; index = i; term = t; payload = some (i ∷ []) }

-- A log of three entries of term 1, of which the first is committed and applied.
abbrev three : RaftLog
three = record {
  entries = entry_of 1 1 ∷ entry_of 2 1 ∷ entry_of 3 1 ∷ [];
  offset = 1;
  snap_index = 0;
  snap_term = 0;
  committed = 1;
  applied = 1;
}

three-IsWellFormed : IsWellFormed three
three-IsWellFormed = record {
  offset_next = refl;
  snap_applied = omega arith;
  applied_committed = omega arith;
  committed_last = omega arith;
  room = omega arith;
  indexed = omega arith;
}

three_terms : (term three 1 ≡ some 1) × (term three 4 ≡ none) × (term three 0 ≡ some 0)
unfolding term last_index
three_terms = (refl, refl, refl)

-- A new leader's entry at index 2 replaces the two that are not committed.
maybe_append_accepts_example :
    (m : RaftLog) × (maybe_append 1 1 2 (entry_of 2 2 ∷ []) three ≡ some (some 2, m))
    × Accepted 1 2 (entry_of 2 2 ∷ []) three m
maybe_append_accepts_example =
    maybe_append_accepts 1 1 2 (entry_of 2 2 ∷ []) three three-IsWellFormed three_terms.0 (refl, tt)
      (omega arith) (λ h. absurd (omega arith), tt)

compact_to_lem_example : (m : RaftLog) × (compact_to 1 three ≡ some m) × Compacted 1 three m
compact_to_lem_example = compact_to_lem 1 three three-IsWellFormed (omega arith)

abbrev nobody : Node
nobody =
    blank
      (record {
        id = 1;
        peers = 1 ∷ 2 ∷ 3 ∷ [];
        election_tick = 10;
        heartbeat_tick = 1;
        rand = none;
        lease_read = false;
      })
      no_hard_state new_log

-- Opens the whole core, so that the tests compute.
opened : ℕ
unfolding new_node campaign step splitmix intn reset_election_timer quorum reset become_follower
    become_candidate become_pre_candidate send hard_state round_active rebuild_peers init_progress
    index_of send_append for_peers bcast_append bcast_heartbeat insert_descending sort_descending
    sorted_matches maybe_commit become_leader bcast_vote start_election handle_pre_vote
    counted_pre_vote counted_vote handle_pre_vote_resp handle_vote handle_vote_resp dispatch
    step_term recover_log recover_members last_index term append slice commit_to last_term
    is_up_to_date contains insert lookup put matching
opened = 0

abbrev node_of : Option Node → Node
node_of o = get_or o nobody

abbrev fresh : Node
unfolding opened
fresh = node_of (new_node 1 (1 ∷ 2 ∷ 3 ∷ []))

abbrev probing : Node
unfolding opened
probing = node_of (campaign fresh)

abbrev grant_pre_vote : Message
grant_pre_vote = record (message msg_pre_vote_resp 1) { from = 2; term = 1 }

abbrev grant_vote : Message
grant_vote = record (message msg_vote_resp 1) { from = 2; term = 1 }

abbrev running : Node
unfolding opened
running = node_of (Option.map (λ p. p.1) (step grant_pre_vote probing))

abbrev leading : Node
unfolding opened
leading = node_of (Option.map (λ p. p.1) (step grant_vote running))

probes : Move fresh probing
unfolding opened
probes = campaigns refl

wins_probe : Move probing running
unfolding opened
wins_probe = steps grant_pre_vote none refl

wins_vote : Move running leading
unfolding opened
wins_vote = steps grant_vote none refl

runs : Runs fresh leading
runs = next (next (next here probes) wins_probe) wins_vote

Runs-Evolves_example : Evolves fresh leading
Runs-Evolves_example = Runs-Evolves fresh leading runs

elected : (step grant_vote running ≡ some (none, leading)) × (is_leader leading.role ≡ true)
unfolding opened
elected = (refl, refl)

running_votes : Distinct running.votes
unfolding opened
running_votes = (refl, tt)

votes-Backed_example : Distinct leading.votes × All (Backed (some grant_vote) running) leading.votes
votes-Backed_example =
    votes-Backed running leading (some grant_vote) (none, elected.0) running_votes

leader_has_quorum_example :
    (is_leader running.role ≡ true)
    ⊎ ((quorum leading ≤ length leading.votes)
        × Distinct leading.votes
        × All (Backed (some grant_vote) running) leading.votes)
leader_has_quorum_example =
    leader_has_quorum running leading (some grant_vote) (none, elected.0) running_votes elected.1

-- The leader has persisted its no-op, and node 2 has acknowledged it.
abbrev matched : Node
unfolding opened
matched = record leading { stabled = 1; match = (1, 1) ∷ (2, 1) ∷ (3, 0) ∷ [] }

abbrev committed : Node
unfolding opened
committed = record matched { log = record leading.log { committed = 1 } }

commits : maybe_commit matched ≡ some (true, committed)
unfolding opened
commits = refl

maybe_commit-quorum_example :
    (is_leader matched.role ≡ true)
    × (matched.log.committed < committed.log.committed)
    × (term matched.log committed.log.committed ≡ some matched.term)
    × (index_of matched.id committed.match ≡ min matched.stabled (last_index matched.log))
    × (quorum matched ≤ matching committed.log.committed committed)
    × ((d : ℕ) → quorum matched ≤ matching d committed → d ≤ committed.log.committed)
maybe_commit-quorum_example = maybe_commit-quorum matched committed commits

within_voters :
    (xs : List ℕ) (a : ℕ)
    → All (λ x. contains fresh.voters x ≡ true) xs
    → contains xs a ≡ true
    → contains fresh.voters a ≡ true
unfolding opened
within_voters [] a h c = cc
within_voters (x ∷ xs) a h c = elim (Bool-cases (x == a)) [
  | inl e ↦ subst (λ t. contains fresh.voters t ≡ true) ((==_iff x a).0 e) h.0
  | inr e ↦ within_voters xs a h.1 (ground arith)
]

low-Distinct : Distinct (1 ∷ 2 ∷ [])
unfolding opened
low-Distinct = (refl, (refl, tt))

high-Distinct : Distinct (2 ∷ 3 ∷ [])
unfolding opened
high-Distinct = (refl, (refl, tt))

low-Within : Within (1 ∷ 2 ∷ []) fresh.voters
unfolding opened
low-Within a c = within_voters (1 ∷ 2 ∷ []) a (refl, (refl, tt)) c

high-Within : Within (2 ∷ 3 ∷ []) fresh.voters
unfolding opened
high-Within a c = within_voters (2 ∷ 3 ∷ []) a (refl, (refl, tt)) c

two_of_three : (quorum fresh ≤ 2) × (quorum fresh ≤ 2)
unfolding opened
two_of_three = omega arith

quorums_overlap_example :
    (a : ℕ) × (contains (1 ∷ 2 ∷ []) a ≡ true) × (contains (2 ∷ 3 ∷ []) a ≡ true)
quorums_overlap_example =
    quorums_overlap fresh (1 ∷ 2 ∷ []) (2 ∷ 3 ∷ []) low-Distinct high-Distinct low-Within
      high-Within (two_of_three.0) (two_of_three.1)

-- The committed leader with a lease that was just renewed.
abbrev leasing : Node
leasing = record committed { use_lease = true; lease_elapsed = 0 }

leasing_facts :
    (leasing.role ≡ leader)
    × (term leasing.log leasing.log.committed ≡ some leasing.term)
    × (leasing.round_reads ≡ [])
    × (leasing.lease_elapsed < leasing.election_tick)
unfolding opened
leasing_facts = (refl, refl, refl, omega arith)

read_index_at_once_example :
    read_index 42 leasing
    ≡ some (
      true,
      record leasing {
        read_ready =
            leasing.read_ready
            ++ to_read_states
                (leasing.pending_reads ++ (record { id = 42; index = leasing.log.committed } ∷ []));
        round_reads = [];
        pending_reads = [];
        read_acks = [];
      },
    )
read_index_at_once_example =
    read_index_at_once 42 leasing leasing_facts.0 leasing_facts.1 leasing_facts.2
      (inl (refl, leasing_facts.3))

-- A leader without a lease, with a read queued.
abbrev asking : Node
asking = record leasing {
  use_lease = false;
  pending_reads = record { id = 42; index = leasing.log.committed } ∷ [];
}

abbrev heartbeats : Node
unfolding opened
heartbeats = node_of (bcast_heartbeat (begun_round asking))

beats : bcast_heartbeat (begun_round asking) ≡ some heartbeats
unfolding opened
beats = refl

read_fuel_enough_example :
    (m : Node) × (maybe_start_read_round read_fuel asking ≡ some m)
    × (maybe_start_read_round 5 asking ≡ some m)
read_fuel_enough_example = read_fuel_enough 5 asking heartbeats (omega arith) beats
