-- ===== src/Raft/Reads.antt =====
-- internal/raft/raft.go: linearizable reads (ReadIndex) and the leader lease.
pub mod Rounds
use basalt.Prelude.{
  ℕ, zero, suc, Option, none, some, List, [], ◌∷◌, ◌++◌, map, Bool, true, false, ltb, leb, ◌==◌,
  if◌then◌else◌, length, insert, ◌&&◌, ◌||◌, not,
}
use basalt.Raft.Types.{ReadState, ◌>>=◌}
use basalt.Raft.Log
use basalt.Raft.Node.{Node, PendingRead, quorum, round_active, is_leader}
use basalt.Raft.Replicate.{bcast_heartbeat}

unfoldable pub renew_lease_ack : ℕ → Node → Node
renew_lease_ack from n =
    let acks = insert from (elim n.lease_acks [ none ↦ n.id ∷ [] | some acks ↦ acks ]) in
    if leb (quorum n) (length acks)
    then record n { lease_elapsed = 0; lease_acks = none }
    else record n { lease_acks = some acks }

unfoldable pub to_read_states : List PendingRead → List ReadState
to_read_states = map (λ r. record { id = r.id; index = r.index })

-- confirmReadRound, given what it calls at its end.
unfoldable pub confirm_with : (Node → Option Node) → Node → Option Node
confirm_with drain n = drain (record n {
  read_ready = n.read_ready ++ to_read_states n.round_reads;
  round_reads = [];
  read_acks = [];
})

-- maybeStartReadRound and confirmReadRound call one another: on fuel, `none` when it runs out.
unfoldable pub maybe_start_read_round : ℕ → Node → Option Node
maybe_start_read_round zero n = none
maybe_start_read_round (suc fuel) n =
    let begun = record n {
      round_reads = n.pending_reads;
      pending_reads = [];
      read_acks = n.id ∷ [];
    } in
    let confirmed = confirm_with (maybe_start_read_round fuel) begun in
    if round_active n || (length n.pending_reads == 0) || not (is_leader n.role)
    then some n
    else if n.use_lease && ltb n.lease_elapsed n.election_tick
    then confirmed
    else if leb (quorum begun) (length begun.read_acks)
    then confirmed
    else bcast_heartbeat begun

-- Two rounds are enough: the first one takes every queued read.
abbrev pub read_fuel : ℕ
read_fuel = 2

unfoldable pub confirm_read_round : Node → Option Node
confirm_read_round n = confirm_with (maybe_start_read_round read_fuel) n

unfoldable pub read_index : ℕ → Node → Option (Bool × Node)
read_index id n =
    if not (is_leader n.role) then some (false, n) else elim (Log.term n.log n.log.committed) [
      | none ↦ some (false, n)
      | some t ↦
          if t == n.term
          then (do
            m ← maybe_start_read_round read_fuel (record n {
              pending_reads = n.pending_reads ++ (record { id = id; index = n.log.committed } ∷ []);
            })
            some (true, m))
          else some (false, n)
    ]
