-- ===== src/Raft/Reads/Rounds.antt =====
-- internal/raft/raft.go: how far maybeStartReadRound and confirmReadRound call one another, and
-- the reads that are served at once.
use basalt.Prelude.{
  ℕ, zero, suc, ◌<◌, ◌≤◌, ◌≡◌, ◌⊎◌, refl, sym, ◌∙◌, some, [], ◌∷◌, ◌++◌, arith, true, false, length,
  ◌||◌, ◌&&◌, ◌==◌, not, ltb, leb, Bool-cases, length-append, inl, inr,
}
use basalt.Raft.Types.{leader}
use basalt.Raft.Log
use basalt.Raft.Node.{Node, quorum, round_active, is_leader}
use basalt.Raft.Replicate.{bcast_heartbeat}
use basalt.Raft.Reads.{confirm_with, to_read_states, maybe_start_read_round, read_fuel, read_index}

-- Nothing queued, nothing to start.
idle : (k : ℕ) (n : Node) → n.pending_reads ≡ [] → maybe_start_read_round (suc k) n ≡ some n
unfolding maybe_start_read_round
idle k n h = ground (arith, h)

-- The round of a leader that needs no answers, and its drain.
confirm_begun :
    (k : ℕ) (n : Node)
    → n.pending_reads ≡ []
    → confirm_with (maybe_start_read_round (suc k)) n ≡ confirm_with (maybe_start_read_round 1) n
unfolding confirm_with
confirm_begun k n h =
    let confirmed : Node = record n {
      read_ready = n.read_ready ++ to_read_states n.round_reads;
      round_reads = [];
      read_acks = [];
    } in
    idle k confirmed h ∙ sym (idle 0 confirmed h)

enough : (k : ℕ) (n : Node) → maybe_start_read_round (suc (suc k)) n ≡ maybe_start_read_round 2 n
unfolding maybe_start_read_round
enough k n =
    let begun : Node = record n {
      round_reads = n.pending_reads;
      pending_reads = [];
      read_acks = n.id ∷ [];
    } in
    ground (arith, confirm_begun k begun refl)

-- A leader that holds a lease, or is a quorum alone.
abbrev pub ServesAlone : Node → Type 0
ServesAlone n = ((n.use_lease ≡ true) × (n.lease_elapsed < n.election_tick)) ⊎ (quorum n ≤ 1)

drained :
    (n : Node)
    → n.pending_reads ≡ []
    → confirm_with (maybe_start_read_round 1) n
      ≡ some (record n {
        read_ready = n.read_ready ++ to_read_states n.round_reads;
        round_reads = [];
        read_acks = [];
      })
unfolding confirm_with
drained n h =
    idle 0
      (record n {
        read_ready = n.read_ready ++ to_read_states n.round_reads;
        round_reads = [];
        read_acks = [];
      })
      h

-- The node with a round begun for all queued reads.
abbrev pub begun_round : Node → Node
begun_round n = record n {
  round_reads = n.pending_reads;
  pending_reads = [];
  read_acks = n.id ∷ [];
}

abbrev confirmed_round : Node → Node
confirmed_round n = record n {
  read_ready = n.read_ready ++ to_read_states n.pending_reads;
  round_reads = [];
  pending_reads = [];
  read_acks = [];
}

returns :
    (n k : Node)
    → bcast_heartbeat (begun_round n) ≡ some k
    → (m : Node) × (maybe_start_read_round 2 n ≡ some m)
unfolding maybe_start_read_round
returns n k h =
    let drain = drained (begun_round n) refl in
    elim (Bool-cases (round_active n || (length n.pending_reads == 0) || not (is_leader n.role))) [
      | inl nothing ↦ (n, ground (arith, nothing))
      | inr starts ↦ elim (Bool-cases (n.use_lease && ltb n.lease_elapsed n.election_tick)) [
        | inl lease ↦ (confirmed_round n, ground (arith, starts, lease, drain))
        | inr no_lease ↦
            elim (Bool-cases (leb (quorum (begun_round n)) (length (begun_round n).read_acks))) [
              | inl alone ↦ (confirmed_round n, ground (arith, starts, no_lease, alone, drain))
              | inr asks ↦ (k, ground (arith, starts, no_lease, asks, h))
            ]
      ]
    ]

-- Where the heartbeats that begin a round for the queued reads can be sent, the calls of
-- maybeStartReadRound and confirmReadRound from one another come to an end with the fuel that is
-- given, and with any more fuel at the same node.
pub read_fuel_enough :
    (fuel : ℕ) (n k : Node)
    → read_fuel ≤ fuel
    → bcast_heartbeat (begun_round n) ≡ some k
    → (m : Node) × (maybe_start_read_round read_fuel n ≡ some m)
      × (maybe_start_read_round fuel n ≡ some m)
read_fuel_enough zero n k f h = absurd (omega arith)
read_fuel_enough (suc zero) n k f h = absurd (omega arith)
read_fuel_enough (suc (suc fuel)) n k f h = let (m, e) = returns n k h in (m, e, enough fuel n ∙ e)

served :
    (n : Node)
    → n.role ≡ leader
    → n.round_reads ≡ []
    → 1 ≤ length n.pending_reads
    → ServesAlone n
    → maybe_start_read_round 2 n
      ≡ some (record n {
        read_ready = n.read_ready ++ to_read_states n.pending_reads;
        round_reads = [];
        pending_reads = [];
        read_acks = [];
      })
unfolding maybe_start_read_round
served n lead quiet queued alone =
    let begun : Node = record n {
      round_reads = n.pending_reads;
      pending_reads = [];
      read_acks = n.id ∷ [];
    } in
    let same : quorum begun ≡ quorum n = unfold quorum in refl in
    let idle_round : round_active n ≡ false = unfold round_active in ground (arith, quiet) in
    elim alone [
      | inl (lease, time) ↦ ground (arith, lead, idle_round, lease, time, drained begun refl)
      | inr one ↦ ground (arith, lead, idle_round, one, same, drained begun refl)
    ]

-- A leader that has no read round in flight, whose entry at its commit index is of its term, and
-- that holds a valid lease or is a quorum alone, serves ReadIndex at once: the read, at the commit
-- index, comes out behind the reads that were queued before it, in the order in which they came,
-- and no read stays queued or in flight.
pub read_index_at_once :
    (id : ℕ) (n : Node)
    → n.role ≡ leader
    → Log.term n.log n.log.committed ≡ some n.term
    → n.round_reads ≡ []
    → ServesAlone n
    → read_index id n
      ≡ some (
        true,
        record n {
          read_ready =
              n.read_ready
              ++ to_read_states
                  (n.pending_reads ++ (record { id = id; index = n.log.committed } ∷ []));
          round_reads = [];
          pending_reads = [];
          read_acks = [];
        },
      )
unfolding read_index
read_index_at_once id n lead current quiet alone =
    let queued : Node = record n {
      pending_reads = n.pending_reads ++ (record { id = id; index = n.log.committed } ∷ []);
    } in
    let some_queued : 1 ≤ length queued.pending_reads =
      omega
        (arith, length-append n.pending_reads (record { id = id; index = n.log.committed } ∷ [])) in
    ground (arith, lead, current, served queued lead quiet some_queued (unfold quorum in alone))
