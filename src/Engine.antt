-- ===== src/Engine.antt =====
-- db.go: the write path and point reads. Sorted tables are a parameter: `table_get` is the Get of an
-- open table, with `none` on an error. A step here is a critical section under mu; where the source
-- waits for the background flush, the answer is `waits`.
pub mod Settled
pub mod Writes
pub mod Commits
pub mod Rooms
pub mod Rejects
mod Tests
use basalt.Prelude.{
  ℕ, suc, ◌+◌, ◌<◌, Option, none, some, List, [], ◌∷◌, ◌++◌, Bool, true, false, ltb, leb, not, ◌&&◌,
  ◌||◌, ◌==◌, if◌then◌else◌, Ordering, Bytes, length, bytes_compare, add64, ◌>>=◌,
}
use basalt.Keys.{kind_delete}
use basalt.Memtable.{MemTable, SkipNode, new_table}
use basalt.Memtable
use basalt.Wal.Batch.{Op, Batch, encode}
use basalt.Wal.Segments.{
  Writer, append, appended, refused, writer_closed, record_too_large, rotate_writer,
  delete_segments_below,
}

-- An open table of a level below level 0, with the user keys of its bounds.
pub record TableFile {ℓ} (T : Type ℓ) : Type ℓ where
  pub smallest : Bytes
  pub largest : Bytes
  pub table : T

pub record Db {ℓ} (T : Type ℓ) : Type ℓ where
  pub mem : MemTable
  pub imm : Option MemTable
  pub l0 : List T
  pub deeper : List (List (TableFile T))
  pub seq : ℕ
  pub imm_seq : ℕ
  pub imm_bound : ℕ
  pub wal : Option Writer
  pub log_number : ℕ
  pub last_seq : ℕ
  pub mem_table_size : ℕ
  pub l0_stop_threshold : ℕ
  pub failed : Bool
  pub closing : Bool
  pub closed : Bool

pub data WriteFailure : Type 0 where
  reserved_key db_closed engine_failed batch_too_large : WriteFailure

pub data Written {ℓ} (T : Type ℓ) : Type ℓ where
  written : Db T → Written T
  rejected : WriteFailure → Db T → Written T
  waits : Written T
  panics : Written T

pub data Room {ℓ} (T : Type ℓ) : Type ℓ where
  room : Db T → Room T
  no_room : Db T → Room T
  must_wait : Room T

pub data Reply : Type 0 where
  found : Bytes → Reply
  not_found closed read_failed : Reply

-- "\x00!raft/"
abbrev pub reserved_prefix : Bytes
reserved_prefix = 0 ∷ 33 ∷ 114 ∷ 97 ∷ 102 ∷ 116 ∷ 47 ∷ []

-- bytes.HasPrefix.
unfoldable pub has_prefix : Bytes → Bytes → Bool
has_prefix p [] = length p == 0
has_prefix [] (y ∷ ys) = true
has_prefix (x ∷ xs) (y ∷ ys) = let rest = has_prefix xs ys in if x == y then rest else false

unfoldable pub any_reserved : List Op → Bool
any_reserved [] = false
any_reserved (op ∷ ops) = has_prefix reserved_prefix op.user_key || any_reserved ops

-- The loop of write over the ops, from sequence number `s` on; `draws` gives the numbers that
-- randomHeight draws for the op of a sequence number.
unfoldable pub add_ops : (ℕ → ℕ → ℕ) → ℕ → List Op → MemTable → Option MemTable
add_ops draws s [] m = some m
add_ops draws s (op ∷ ops) m = do
  m' ← Memtable.add (draws s) op.user_key s op.kind op.value m
  add_ops draws (add64 s 1) ops m'

-- finish, and ErrNotFound on a tombstone.
unfoldable pub finish : Bytes → ℕ → Reply
finish v kind = if kind == kind_delete then not_found else found v

-- The flushing memtable, where there is one.
unfoldable pub imm_get : Bytes → ℕ → Option MemTable → Option (Option (Bytes × ℕ))
imm_get key seq none = some none
imm_get key seq (some m) = Memtable.get key seq m

-- An answer, or what the next source answers.
unfoldable pub or_else :
    Option (Option (Bytes × ℕ)) → Option (Option (Bytes × ℕ)) → Option (Option (Bytes × ℕ))
or_else none next = none
or_else (some (some hit)) next = some (some hit)
or_else (some none) next = next

module _ {ℓ} {T : Type ℓ} (table_get : T → Bytes → ℕ → Option (Option (Bytes × ℕ))) where
  -- The tables of level 0, newest first.
  unfoldable pub l0_get : Bytes → ℕ → List T → Option (Option (Bytes × ℕ))
  l0_get key seq [] = some none
  l0_get key seq (t ∷ ts) = elim (table_get t key seq) [
    | none ↦ none
    | some (some hit) ↦ some (some hit)
    | some none ↦ l0_get key seq ts
  ]

  -- One deeper level: the first file whose largest key is not below the key is asked, if its
  -- smallest key is not above. sort.Search finds that file where the bounds ascend.
  unfoldable pub level_get : Bytes → ℕ → List (TableFile T) → Option (Option (Bytes × ℕ))
  level_get key seq [] = some none
  level_get key seq (f ∷ fs) =
      let rest = level_get key seq fs in
      elim (bytes_compare f.largest key) [
        | Ordering.lt ↦ rest
        | _ ↦ elim (bytes_compare f.smallest key) [
          | Ordering.gt ↦ some none
          | _ ↦ table_get f.table key seq
        ]
      ]

  unfoldable pub deeper_get : Bytes → ℕ → List (List (TableFile T)) → Option (Option (Bytes × ℕ))
  deeper_get key seq [] = some none
  deeper_get key seq (l ∷ ls) = elim (level_get key seq l) [
    | none ↦ none
    | some (some hit) ↦ some (some hit)
    | some none ↦ deeper_get key seq ls
  ]

  unfoldable pub search : Bytes → ℕ → Db T → Option (Option (Bytes × ℕ))
  search key seq db = or_else (Memtable.get key seq db.mem) (
      or_else (imm_get key seq db.imm)
        (or_else (l0_get key seq db.l0) (deeper_get key seq db.deeper)))

  -- DB.get.
  unfoldable pub get : Bytes → Db T → Reply
  get key db = if db.closed then closed else elim (search key db.seq db) [
    | none ↦ read_failed
    | some none ↦ not_found
    | some (some (v, kind)) ↦ finish v kind
  ]

module _ {ℓ} {T : Type ℓ} where
  -- sealLocked; where the writer cannot rotate, the engine fails.
  unfoldable pub seal : Db T → Room T
  seal db =
      let sealed = λ (bound : ℕ) (w : Option Writer). record db {
        mem = new_table;
        imm = some db.mem;
        imm_seq = db.seq;
        imm_bound = bound;
        wal = w;
      } in
      elim db.wal [
        | none ↦ room (sealed 0 none)
        | some w ↦ elim (rotate_writer w) [
          | none ↦ no_room (record db { imm_bound = 0; failed = true })
          | some w' ↦ room (sealed w'.id (some w'))
        ]
      ]

  unfoldable pub make_room : Db T → Room T
  make_room db = if ltb db.mem.size db.mem_table_size then room db else elim db.imm [
    | some m ↦ must_wait
    | none ↦
        if leb db.l0_stop_threshold (length db.l0) && not db.closing then must_wait else seal db
  ]

  -- The ops go to the memtable and the sequence number is published.
  unfoldable pub publish : (ℕ → ℕ → ℕ) → List Op → Db T → Written T
  publish draws ops db = elim (add_ops draws (add64 db.seq 1) ops db.mem) [
    | none ↦ panics
    | some m ↦ written (record db { mem = m; seq = add64 db.seq (length ops) })
  ]

  -- The part of write behind makeRoomLocked.
  unfoldable pub log_and_add : (ℕ → ℕ → ℕ) → List Op → Db T → Written T
  log_and_add draws ops db = elim db.wal [
    | none ↦ publish draws ops db
    | some w ↦ elim (append (encode (record { base_seq = add64 db.seq 1; ops = ops }) []) w) [
      | none ↦ panics
      | some (appended id w') ↦ publish draws ops (record db { wal = some w' })
      | some (refused record_too_large) ↦ rejected batch_too_large db
      | some (refused writer_closed) ↦ rejected engine_failed (record db { failed = true })
    ]
  ]

  unfoldable pub write : (ℕ → ℕ → ℕ) → List Op → Bool → Db T → Written T
  write draws ops allow_reserved db =
      if not allow_reserved && any_reserved ops
      then rejected reserved_key db
      else if db.closed
      then rejected db_closed db
      else if db.failed
      then rejected engine_failed db
      else elim (make_room db) [
        | must_wait ↦ waits
        | no_room db' ↦ rejected engine_failed db'
        | room db' ↦ log_and_add draws ops db'
      ]

  -- Apply; an empty batch is a no-op.
  unfoldable pub apply : (ℕ → ℕ → ℕ) → List Op → Db T → Written T
  apply draws ops db = if length ops == 0 then written db else write draws ops false db
