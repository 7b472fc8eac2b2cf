-- ===== src/Raft/Types.antt =====
-- internal/raft/raft.go: roles, messages, log entries, the hard state. `data` of an entry is `none`
-- where the slice is nil.
pub use basalt.Prelude.{◌>>=◌, >>=-eq-some}
use basalt.Prelude.{ℕ, suc, ◌≡◌, Option, List, [], ◌∷◌, Bool, false, Bytes}

pub data Role : Type 0 where
  follower candidate leader : Role

pub data MessageType : Type 0 where
  msg_prop msg_vote msg_vote_resp msg_app msg_app_resp msg_pre_vote msg_pre_vote_resp : MessageType
  msg_snap msg_timeout_now : MessageType

pub data EntryType : Type 0 where
  entry_normal entry_conf_change : EntryType

pub record Entry : Type 0 where
  pub type : EntryType
  pub index : ℕ
  pub term : ℕ
  pub payload : Option Bytes

pub record HardState : Type 0 where
  pub term : ℕ
  pub vote : ℕ
  pub commit : ℕ

pub record Message : Type 0 where
  pub type : MessageType
  pub from : ℕ
  pub to : ℕ
  pub term : ℕ
  pub log_index : ℕ
  pub log_term : ℕ
  pub entries : List Entry
  pub commit : ℕ
  pub reject : Bool

-- The zero value of a Go composite literal, with the type and the addressee filled in.
abbrev pub message : MessageType → ℕ → Message
message t to = record {
  type = t;
  from = 0;
  to = to;
  term = 0;
  log_index = 0;
  log_term = 0;
  entries = [];
  commit = 0;
  reject = false;
}

pub record ReadState : Type 0 where
  pub id : ℕ
  pub index : ℕ

pub record Ready : Type 0 where
  pub hard_state : Option HardState
  pub entries : List Entry
  pub committed_entries : List Entry
  pub messages : List Message
  pub read_states : List ReadState

-- The entries have consecutive indices, the first one `k`.
abbrev pub Indexed : ℕ → List Entry → Type 0
Indexed k [] = Unit
Indexed k (e ∷ es) = (e.index ≡ k) × Indexed (suc k) es
