-- ===== src/Raft/Safety/Runs.antt =====
-- Runs of a node: any sequence of the operations that its owner may call, RestoreSnapshot apart.
use basalt.Prelude.{
  ℕ, ◌≡◌, refl, sym, subst, Option, none, some, List, [], ◌∷◌, ◌++◌, Bool, arith, inl, inr,
  Bool-cases, Option-cases, ◌==◌, leb, ◌&&◌, ◌||◌, not, contains,
}
use mathlib.Core.List.{get_last?}
use basalt.Raft.Types.{Entry, Message, Ready, >>=-eq-some}
use basalt.Raft.Log
use basalt.Raft.Log.{RaftLog, append, maybe_append, applied_to}
use basalt.Raft.Log.Commit.{applied_to-committed, compact_to-committed}
use basalt.Raft.Node.{Node, send, is_leader}
use basalt.Raft.Conf.{ConfChange, apply_conf_change}
use basalt.Raft.Replicate.{maybe_commit, send_append, index_of}
use basalt.Raft.Reads.{read_index, maybe_start_read_round, read_fuel}
use basalt.Raft.Elect.{tick, transfer_leader}
use basalt.Raft.Step.{RaftError, step, propose_conf_change}
use basalt.Raft.Drain.{
  apply_entry, apply_entries, advance_entries, advance_committed, advance, ready, compact_to,
}
use basalt.Raft.Safety.Steady.{
  Steady, Steady-view, Steady-trans, maybe_commit-Steady, send_append-Steady,
  maybe_start_read_round-Steady,
}
use basalt.Raft.Safety.Evolve.{Evolves, Evolves-refl, Evolves-view, Evolves-trans, Steady→Evolves}
use basalt.Raft.Elect.{campaign}
use basalt.Raft.Conf.{rebuild_peers, init_progress}
use basalt.Raft.Log.{slice}
use basalt.Raft.Safety.Campaign.{campaign-Evolves, tick-Evolves}
use basalt.Raft.Safety.Handlers.{step-Evolves, propose_conf_change-Evolves}

read_index-Steady : (id : ℕ) (b : Bool) (n m : Node) → read_index id n ≡ some (b, m) → Steady n m
unfolding read_index
read_index-Steady id b n m h =
    let queued : Node = record n {
      pending_reads = n.pending_reads ++ (record { id = id; index = n.log.committed } ∷ []);
    } in
    elim (Option-cases (maybe_start_read_round read_fuel queued)) [
      | inl e ↦ Steady-view n m (ground arith)
      | inr (k, e) ↦ elim (Option-cases (Log.term n.log n.log.committed)) [
        | inl t ↦ Steady-view n m (ground arith)
        | inr (t, f) ↦ elim (Bool-cases (is_leader n.role && (t == n.term))) [
          | inl serves ↦ Steady-trans n queued m (Steady-view n queued refl) (
              subst (Steady queued) (ground arith)
                (maybe_start_read_round-Steady read_fuel queued k e))
          | inr refuses ↦ Steady-view n m (ground arith)
        ]
      ]
    ]

transfer_leader-Steady :
    (target : ℕ) (b : Bool) (n m : Node) → transfer_leader target n ≡ some (b, m) → Steady n m
unfolding transfer_leader send
transfer_leader-Steady target b n m h =
    let chosen : Node = record n { transferee = target } in
    elim (Option-cases (send_append target chosen)) [
      | inl e ↦ Steady-view n m (ground arith)
      | inr (k, e) ↦
          elim (Bool-cases (
            not (is_leader n.role)
            || (target == n.id)
            || not (contains n.voters target)
            || leb (Log.last_index n.log) (index_of target n.match))) [
              | inl at_once ↦ Steady-view n m (ground arith)
              | inr pushed ↦
                  Steady-trans n chosen m (Steady-view n chosen refl)
                    (subst (Steady chosen) (ground arith) (send_append-Steady target chosen k e))
            ]
    ]

ready-Evolves : (rd : Ready) (n m : Node) → ready n ≡ some (rd, m) → Evolves n m
unfolding ready
ready-Evolves rd n m h = Evolves-view n m (ground arith)

advance_entries-Evolves :
    (ents : List Entry) (n m : Node) → advance_entries ents n ≡ some m → Evolves n m
unfolding advance_entries
advance_entries-Evolves ents n m h = elim (Option-cases (get_last? ents)) [
  | inl e ↦ Evolves-view n m (ground arith)
  | inr (x, e) ↦
      let stable : Node = record n { stabled = x.index } in
      elim (Option-cases (maybe_commit stable)) [
        | inl f ↦ absurd (ground arith)
        | inr ((b, c), f) ↦ Evolves-trans n stable m (Evolves-view n stable refl) (
            subst (Evolves stable) (ground arith)
              (Steady→Evolves stable c (maybe_commit-Steady b stable c f)))
      ]
]

apply_entry-Evolves : (x : Entry) (n : Node) → Evolves n (apply_entry x n)
unfolding apply_entry apply_conf_change rebuild_peers init_progress
apply_entry-Evolves x n = Evolves-view n (apply_entry x n) (ground arith)

apply_entries-Evolves : (ents : List Entry) (n : Node) → Evolves n (apply_entries ents n)
unfolding apply_entries
apply_entries-Evolves [] n = Evolves-refl n
apply_entries-Evolves (x ∷ xs) n =
    Evolves-trans n (apply_entry x n) (apply_entries xs (apply_entry x n)) (apply_entry-Evolves x n)
      (apply_entries-Evolves xs (apply_entry x n))

advance_committed-Evolves :
    (ents : List Entry) (n m : Node) → advance_committed ents n ≡ some m → Evolves n m
unfolding advance_committed
advance_committed-Evolves ents n m h = elim (Option-cases (get_last? ents)) [
  | inl e ↦ Evolves-view n m (ground arith)
  | inr (x, e) ↦ elim (Option-cases (applied_to x.index n.log)) [
    | inl f ↦ absurd (ground arith)
    | inr (log, f) ↦
        let applied : Node = apply_entries ents n in
        let same : m ≡ record applied { log = log } = ground arith in
        let up : Evolves n applied = apply_entries-Evolves ents n in
        subst (Evolves n) (sym same) (record {
          term_up = up.term_up;
          vote_kept = up.vote_kept;
          commit_up = omega (arith, applied_to-committed x.index n.log log f);
        })
  ]
]

advance-Evolves : (rd : Ready) (n m : Node) → advance rd n ≡ some m → Evolves n m
unfolding advance
advance-Evolves rd n m h =
    let hard : Node = record n {
      prev_hard = elim rd.hard_state [ none ↦ n.prev_hard | some hs ↦ hs ];
    } in
    let (k, e, rest) = >>=-eq-some (advance_entries rd.entries hard) _ h in
    let (d, f, last) = >>=-eq-some (advance_committed rd.committed_entries k) _ rest in
    Evolves-trans n hard m (Evolves-view n hard refl) (
      Evolves-trans hard k m (advance_entries-Evolves rd.entries hard k e) (
        Evolves-trans k d m (advance_committed-Evolves rd.committed_entries k d f)
          (Evolves-view d m (ground arith))))

compact_to-Evolves : (index : ℕ) (n m : Node) → compact_to index n ≡ some m → Evolves n m
unfolding compact_to
compact_to-Evolves index n m h =
    let (log, e, last) = >>=-eq-some (Log.compact_to index n.log) _ h in
    Evolves-view n m (ground (arith, compact_to-committed index n.log log e))

-- What the owner of a node may call, with any arguments.
pub data Move (n m : Node) : Type 0 where
  steps : (msg : Message) (r : Option RaftError) → step msg n ≡ some (r, m) → Move n m
  ticks : tick n ≡ some m → Move n m
  campaigns : campaign n ≡ some m → Move n m
  transfers : (target : ℕ) (b : Bool) → transfer_leader target n ≡ some (b, m) → Move n m
  reads : (id : ℕ) (b : Bool) → read_index id n ≡ some (b, m) → Move n m
  reconfigures :
      (cc : ConfChange) (r : Option RaftError) → propose_conf_change cc n ≡ some (r, m) → Move n m
  drains : (rd : Ready) → ready n ≡ some (rd, m) → Move n m
  advances : (rd : Ready) → advance rd n ≡ some m → Move n m
  compacts : (index : ℕ) → compact_to index n ≡ some m → Move n m

pub data Runs (n : Node) : Node → Type 0 where
  here : Runs n n
  next : {m k : Node} → Runs n m → Move m k → Runs n k

pub Move-Evolves : (n m : Node) → Move n m → Evolves n m
Move-Evolves n m (steps msg r h) = step-Evolves msg n m r h
Move-Evolves n m (ticks h) = tick-Evolves n m h
Move-Evolves n m (campaigns h) = campaign-Evolves n m h
Move-Evolves n m (transfers target b h) = Steady→Evolves n m (transfer_leader-Steady target b n m h)
Move-Evolves n m (reads id b h) = Steady→Evolves n m (read_index-Steady id b n m h)
Move-Evolves n m (reconfigures change r h) = propose_conf_change-Evolves change n m r h
Move-Evolves n m (drains rd h) = ready-Evolves rd n m h
Move-Evolves n m (advances rd h) = advance-Evolves rd n m h
Move-Evolves n m (compacts index h) = compact_to-Evolves index n m h

-- Over any run of a node, whatever messages and arguments it is given, the term does not go back,
-- a vote that was cast is the vote as long as the term is the same, and the commit index does not
-- go back.
pub Runs-Evolves : (n m : Node) → Runs n m → Evolves n m
Runs-Evolves n m here = Evolves-refl n
Runs-Evolves n m (next {m = k} r s) = Evolves-trans n k m (Runs-Evolves n k r) (Move-Evolves k m s)
