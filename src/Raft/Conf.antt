-- ===== src/Raft/Conf.antt =====
-- internal/raft/conf.go: configuration changes and the member sets. (ProposeConfChange stands in
-- Step, with the other proposals.)
use basalt.Prelude.{
  ℕ, Option, none, some, [], ◌∷◌, ◌++◌, ◌==◌, if◌then◌else◌, length, contains, insert, remove,
  lookup, put, delete, add64, Bytes, le_bytes, le_value, ◌||◌, not,
}
use basalt.Raft.Log
use basalt.Raft.Node.{Node, is_leader}

-- `ConfChangeType` is a uint8: a decoded one may be any byte.
abbrev pub conf_add_node : ℕ
conf_add_node = 0

abbrev pub conf_remove_node : ℕ
conf_remove_node = 1

abbrev pub conf_add_learner : ℕ
conf_add_learner = 2

pub record ConfChange : Type 0 where
  pub type : ℕ
  pub node : ℕ

unfoldable pub encode : ConfChange → Bytes
encode cc = cc.type ∷ le_bytes 8 cc.node

unfoldable pub decode_conf_change : Bytes → Option ConfChange
decode_conf_change [] = none
decode_conf_change (b ∷ bs) =
    if length bs == 8 then some (record { type = b; node = le_value bs }) else none

unfoldable pub rebuild_peers : Node → Node
rebuild_peers n = record n { peers = n.voters ++ n.learners }

unfoldable pub init_progress : ℕ → Node → Node
init_progress id n = if not (is_leader n.role) || (id == n.id) then n else elim (lookup id n.next) [
  | some _ ↦ n
  | none ↦ record n {
    next = put id (add64 (Log.last_index n.log) 1) n.next;
    match = put id 0 n.match;
  }
]

unfoldable pub apply_conf_change : ConfChange → Node → Node
unfolding rebuild_peers init_progress
apply_conf_change cc n = rebuild_peers (
    if cc.type == conf_add_node
    then init_progress cc.node
        (record n { learners = remove cc.node n.learners; voters = insert cc.node n.voters })
    else if cc.type == conf_add_learner
    then (if contains n.voters cc.node
        then n
        else init_progress cc.node (record n { learners = insert cc.node n.learners }))
    else if cc.type == conf_remove_node
    then record n {
      voters = remove cc.node n.voters;
      learners = remove cc.node n.learners;
      next = delete cc.node n.next;
      match = delete cc.node n.match;
      transferee = if n.transferee == cc.node then 0 else n.transferee;
    }
    else n)
