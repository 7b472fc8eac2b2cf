-- ===== src/Raft/Replicate.antt =====
-- internal/raft/raft.go: what a leader sends its followers, and how it advances the commit index.
use basalt.Prelude.{
  ℕ, ◌-◌, min, Option, none, some, List, [], ◌∷◌, map, Bool, true, false, ltb, leb, ◌==◌,
  if◌then◌else◌, length, get_elem?, lookup, put, add64, sub64,
}
use basalt.Raft.Types.{message, msg_app, msg_snap, ◌>>=◌}
use basalt.Raft.Log
use basalt.Raft.Node.{Node, send, round_active, quorum, is_leader}

-- A missing key of a map[uint64]uint64 reads as 0.
unfoldable pub index_of : ℕ → List (ℕ × ℕ) → ℕ
index_of k m = elim (lookup k m) [ none ↦ 0 | some v ↦ v ]

unfoldable pub send_append : ℕ → Node → Option Node
send_append to n =
    let next = index_of to n.next in
    let prev_index = sub64 next 1 in
    elim (Log.term n.log prev_index) [
      | none ↦
          let told =
            send
              (record (message msg_snap to) {
                log_index = n.log.snap_index;
                log_term = n.log.snap_term;
              })
              n in
          some (record told { next = put to (add64 n.log.snap_index 1) n.next })
      | some prev_term ↦ do
        ents ← Log.slice next (add64 (Log.last_index n.log) 1) n.log
        some (
            send
              (record (message msg_app to) {
                log_index = prev_index;
                log_term = prev_term;
                entries = ents;
                commit = min n.log.committed (add64 prev_index (length ents));
              })
              n)
    ]

-- A loop over the peers that leaves out the node itself.
unfoldable pub for_peers : (ℕ → Node → Option Node) → List ℕ → Node → Option Node
for_peers f [] n = some n
for_peers f (p ∷ ps) n = if p == n.id then for_peers f ps n else do m ← f p n; for_peers f ps m

unfoldable pub bcast_append : Node → Option Node
bcast_append n = for_peers send_append n.peers n

unfoldable pub bcast_heartbeat : Node → Option Node
bcast_heartbeat n = bcast_append (if round_active n then record n { read_acks = n.id ∷ [] } else n)

-- sort.Slice by >: the higher numbers first.
unfoldable pub insert_descending : ℕ → List ℕ → List ℕ
insert_descending x [] = x ∷ []
insert_descending x (y ∷ ys) = if ltb x y then y ∷ insert_descending x ys else x ∷ y ∷ ys

unfoldable pub sort_descending : List ℕ → List ℕ
sort_descending [] = []
sort_descending (x ∷ xs) = insert_descending x (sort_descending xs)

-- The match indices of the voters, highest first.
unfoldable pub sorted_matches : Node → List ℕ
sorted_matches n = sort_descending (map (λ p. index_of p n.match) n.voters)

unfoldable pub maybe_commit : Node → Option (Bool × Node)
maybe_commit n =
    if is_leader n.role
    then (let own = record n { match = put n.id (min n.stabled (Log.last_index n.log)) n.match } in
        do
          candidate ← get_elem? (sorted_matches own) (quorum n - 1)
          if leb candidate n.log.committed
              then some (false, own)
              else elim (Log.term n.log candidate) [
                | none ↦ some (false, own)
                | some t ↦
                    if t == n.term
                    then (do
                      done ← Log.commit_to candidate n.log
                      some (true, record own { log = done }))
                    else some (false, own)
              ])
    else some (false, n)
