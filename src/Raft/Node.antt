-- ===== src/Raft/Node.antt =====
-- internal/raft/raft.go: the state of a node, its timers and its role changes. An operation returns
-- the new node, or `none` where the code panics. A nil map reads as an empty one, except `leaseAcks`,
-- whose nil is `none`.
use basalt.Prelude.{
  ℕ, ◌+◌, ◌*◌, ◌/◌, ◌%◌, ◌^◌, Option, none, some, List, [], ◌∷◌, ◌++◌, Bool, true, false, ltb, ◌==◌,
  if◌then◌else◌, length, insert, add64,
}
use Prim.Native.Nat.{bit_xor}
use basalt.Raft.Types.{Role, follower, candidate, leader, Message, HardState, ReadState, ◌>>=◌}
use basalt.Raft.Log.{RaftLog}

pub record PendingRead : Type 0 where
  pub id : ℕ
  pub index : ℕ

-- `rand` is the injected source, as its answer to the k-th call with a bound; `rand_calls` counts
-- the calls that were made of it.
pub record Node : Type 0 where
  pub id : ℕ
  pub peers : List ℕ
  pub role : Role
  pub term : ℕ
  pub vote : ℕ
  pub lead : ℕ
  pub voters : List ℕ
  pub learners : List ℕ
  pub pending_conf_index : ℕ
  pub transferee : ℕ
  pub log : RaftLog
  pub votes : List ℕ
  pub pre_votes : List ℕ
  pub next : List (ℕ × ℕ)
  pub match : List (ℕ × ℕ)
  pub msgs : List Message
  pub stabled : ℕ
  pub prev_hard : HardState
  pub election_tick : ℕ
  pub heartbeat_tick : ℕ
  pub rand : Option (ℕ → ℕ → ℕ)
  pub rand_calls : ℕ
  pub rand_seq : ℕ
  pub election_elapsed : ℕ
  pub heartbeat_elapse : ℕ
  pub random_timeout : ℕ
  pub read_ready : List ReadState
  pub round_reads : List PendingRead
  pub pending_reads : List PendingRead
  pub read_acks : List ℕ
  pub lease_acks : Option (List ℕ)
  pub lease_elapsed : ℕ
  pub use_lease : Bool

abbrev pub is_leader : Role → Bool
is_leader leader = true
is_leader candidate = false
is_leader follower = false

abbrev pub is_candidate : Role → Bool
is_candidate candidate = true
is_candidate leader = false
is_candidate follower = false

-- The splitmix step: three xor-shifts and two products on 64 bits.
unfoldable pub splitmix : ℕ → ℕ
splitmix seq =
    let a = (bit_xor seq (seq / 2 ^ 30) * 0xbf58476d1ce4e5b9) % 2 ^ 64 in
    let b = (bit_xor a (a / 2 ^ 27) * 0x94d049bb133111eb) % 2 ^ 64 in bit_xor b (b / 2 ^ 31)

-- `hi` is the election tick, which a constructed node has positive.
unfoldable pub intn : ℕ → Node → ℕ × Node
intn hi n = if hi == 0 then (0, n) else elim n.rand [
  | some draw ↦ (draw n.rand_calls hi, record n { rand_calls = n.rand_calls + 1 })
  | none ↦
      let seq = add64 n.rand_seq 0x9e3779b97f4a7c15 in
      (splitmix seq % hi, record n { rand_seq = seq })
]

unfoldable pub reset_election_timer : Node → Node
reset_election_timer n =
    let (draw, drawn) = intn n.election_tick n in
    record n {
      rand_calls = drawn.rand_calls;
      rand_seq = drawn.rand_seq;
      election_elapsed = 0;
      random_timeout = n.election_tick + draw;
    }

unfoldable pub quorum : Node → ℕ
quorum n = length n.voters / 2 + 1

unfoldable pub reset : ℕ → Node → Option Node
reset term n =
    if ltb term n.term
    then none
    else some (
        reset_election_timer (record n {
          term = term;
          vote = if ltb n.term term then 0 else n.vote;
          lead = 0;
          votes = [];
          pre_votes = [];
        }))

unfoldable pub become_follower : ℕ → ℕ → Node → Option Node
become_follower term lead n = do m ← reset term n; some (record m { role = follower; lead = lead })

unfoldable pub become_candidate : Node → Option Node
become_candidate n = if is_leader n.role then none else do
  m ← reset (add64 n.term 1) n
  some (record m { role = candidate; vote = n.id; votes = insert n.id m.votes })

unfoldable pub become_pre_candidate : Node → Option Node
become_pre_candidate n =
    if is_leader n.role
    then none
    else some
        (reset_election_timer (record n { role = candidate; lead = 0; pre_votes = n.id ∷ [] }))

unfoldable pub send : Message → Node → Node
send m n = record n {
  msgs = n.msgs ++ (record m { from = n.id; term = if m.term == 0 then n.term else m.term } ∷ []);
}

unfoldable pub hard_state : Node → HardState
hard_state n = record { term = n.term; vote = n.vote; commit = n.log.committed }

unfoldable pub round_active : Node → Bool
round_active n = ltb 0 (length n.round_reads)
