-- ===== src/Manifest/VersionSet.antt =====
-- internal/manifest/version_set.go: the version set and its manifest log. The file that CURRENT names
-- is its bytes; every file operation succeeds, and a crash may leave a part of one more record at
-- the end of the file.
pub mod Logged
pub mod Stamps
pub mod Files
pub mod Durable
mod Tests
use basalt.Prelude.{
  ℕ, suc, ◌+◌, ◌^◌, Option, none, some, List, [], ◌∷◌, ◌++◌, Bool, true, false, ltb, leb, ◌==◌,
  ◌&&◌, ◌||◌, not, if◌then◌else◌, Bytes, length, take, drop, le_value, add64, ◌⊎◌, inl, inr,
}
use basalt.Wal.Record.{append_record, record_header_len, scan_records, Visit, go_on, fail}
use basalt.Manifest.Edit.{
  VersionEdit, set_log_number, set_next_file_num, set_last_seq, encode, decode_edit,
}
use basalt.Manifest.Version.{Version, no_version, apply_edit, snapshot, edited, refused, crashes}

pub record VersionSet : Type 0 where
  pub cur : Version
  pub log_number : ℕ
  pub next_file_num : ℕ
  pub last_seq : ℕ
  pub manifest_num : ℕ
  pub file : Bytes
  pub size : ℕ
  pub snapshot_size : ℕ
  pub rotate_size : ℕ
  pub failed : Bool

-- What replay builds up.
pub record Replayed : Type 0 where
  pub version : Version
  pub log_number : ℕ
  pub next_file_num : ℕ
  pub last_seq : ℕ

-- The state that Open starts a replay from.
abbrev pub fresh : Replayed
fresh = record { version = no_version; log_number = 0; next_file_num = 1; last_seq = 0 }

-- How a replay ends early: by an error, or by the panic of applyEdit.
pub data Mishap : Type 0 where
  corrupt : Mishap
  crashed : Mishap

-- The function that replay gives to ScanRecords. A panic stops the scan as an error does.
unfoldable pub replay_edit : Replayed → Bytes → Visit Replayed Mishap
replay_edit s payload = elim (decode_edit payload) [
  | none ↦ fail corrupt
  | some e ↦ elim (apply_edit s.version e) [
    | refused ↦ fail corrupt
    | crashes ↦ fail crashed
    | edited v ↦ go_on (record {
      version = v;
      log_number = if e.has_log_number then e.log_number else s.log_number;
      next_file_num = if e.has_next_file_num then e.next_file_num else s.next_file_num;
      last_seq = if e.has_last_seq then e.last_seq else s.last_seq;
    })
  ]
]

-- A damaged record with bytes behind its declared end is no torn tail.
unfoldable pub damaged : Bytes → Bool
damaged tail =
    if ltb (length tail) record_header_len
    then false
    else ltb (record_header_len + le_value (take 4 (drop 4 tail))) (length tail)

unfoldable pub beyond : ℕ → Replayed → Replayed
beyond num s = record s {
  next_file_num = if leb s.next_file_num num then add64 num 1 else s.next_file_num;
}

unfoldable pub replay : ℕ → Bytes → Mishap ⊎ Replayed
replay num buf =
    let scanned = scan_records replay_edit fresh buf in
    elim scanned.error [
      | some e ↦ inl e
      | none ↦
          if damaged (drop scanned.clean_len buf)
          then inl corrupt
          else inr (beyond num scanned.state)
    ]

unfoldable pub rotation : VersionSet → VersionEdit
rotation vs =
    set_last_seq vs.last_seq (
      set_next_file_num (add64 vs.next_file_num 1) (set_log_number vs.log_number (snapshot vs.cur)))

-- `none` is the panic of AppendRecord.
unfoldable pub rotate : VersionSet → Option VersionSet
rotate vs = elim (append_record [] (encode (rotation vs) [])) [
  | none ↦ none
  | some rec ↦ some (record vs {
    next_file_num = add64 vs.next_file_num 1;
    manifest_num = vs.next_file_num;
    file = rec;
    size = length rec;
    snapshot_size = length rec;
  })
]

-- The edit with the counters that it leaves out.
unfoldable pub stamp : VersionEdit → VersionSet → VersionEdit
stamp e vs =
    let logged = if e.has_log_number then e else set_log_number vs.log_number e in
    let sequenced = if logged.has_last_seq then logged else set_last_seq vs.last_seq logged in
    set_next_file_num vs.next_file_num sequenced

pub data Applied : Type 0 where
  applied : VersionSet → Applied
  failing : VersionSet → Applied
  panics : Applied

unfoldable pub commit : VersionEdit → Version → Bytes → VersionSet → VersionSet
commit stamped v rec vs = record vs {
  cur = v;
  log_number = stamped.log_number;
  last_seq = stamped.last_seq;
  file = vs.file ++ rec;
  size = vs.size + length rec;
}

unfoldable pub rotate_when_due : VersionSet → Applied
rotate_when_due vs =
    if leb (vs.rotate_size + vs.snapshot_size) vs.size
    then elim (rotate vs) [ none ↦ panics | some vs' ↦ applied vs' ]
    else applied vs

-- The part of Apply behind the checks of the counters.
unfoldable pub log_edit : VersionEdit → VersionSet → Applied
log_edit e vs = elim (apply_edit vs.cur e) [
  | crashes ↦ panics
  | refused ↦ failing (record vs { failed = true })
  | edited v ↦ elim (append_record [] (encode (stamp e vs) [])) [
    | none ↦ panics
    | some rec ↦ rotate_when_due (commit (stamp e vs) v rec vs)
  ]
]

unfoldable pub apply : VersionEdit → VersionSet → Applied
apply e vs =
    if vs.failed
    then failing vs
    else if e.has_log_number && ltb e.log_number vs.log_number
    then failing (record vs { failed = true })
    else if e.has_last_seq && ltb e.last_seq vs.last_seq
    then failing (record vs { failed = true })
    else log_edit e vs

unfoldable pub alloc_file_num : VersionSet → ℕ × VersionSet
alloc_file_num vs = (vs.next_file_num, record vs { next_file_num = add64 vs.next_file_num 1 })

unfoldable pub advance_last_seq : ℕ → VersionSet → VersionSet
advance_last_seq n vs = if ltb vs.last_seq n then record vs { last_seq = n } else vs
