-- ===== src/Raft/Storage.antt =====
-- internal/raft/storage.go: the file of typed records that keeps a node's hard state, snapshot
-- boundary and entries. The file is its bytes; every write succeeds, and a crash leaves a prefix of
-- the bytes. `none` is the panic of AppendRecord on a record that is too large; `fail` is an error.
pub mod Codec
pub mod Recovery
pub mod Saves
pub mod Rewriting
mod Tests
use basalt.Prelude.{
  ℕ, zero, suc, ◌+◌, ◌-◌, ◌^◌, Option, none, some, List, [], ◌∷◌, ◌++◌, Bool, true, false, ◌||◌,
  not, ltb, leb, ◌==◌, if◌then◌else◌, Bytes, length, take, drop, set, le_bytes, le_value, add64,
}
use mathlib.Core.List.{get_last?}
use basalt.Wal.Record.{append_record, Visit, go_on, fail, scan_records}
use basalt.Raft.Types.{EntryType, entry_normal, entry_conf_change, Entry, HardState, Ready, ◌>>=◌}
use basalt.Raft.Start.{Recovered, nothing_recovered}
use basalt.Raft.Drain.{bytes_of}

pub record Storage : Type 0 where
  pub file : Bytes
  pub last_index : ℕ

-- The errors of a replay; `slice_bounds` is the run-time panic of a slice expression.
pub data StorageError : Type 0 where
  empty_record bad_hard_state bad_compact compact_not_at_start bad_truncate : StorageError
  entry_below_snapshot truncate_below_snapshot gap short_entries truncated_header : StorageError
  data_overruns trailing_bytes unknown_record slice_bounds : StorageError

abbrev pub rec_hard_state : ℕ
rec_hard_state = 1

abbrev pub rec_entries : ℕ
rec_entries = 2

abbrev pub rec_truncate : ℕ
rec_truncate = 3

abbrev pub rec_compact : ℕ
rec_compact = 4

unfoldable pub type_byte : EntryType → ℕ
type_byte entry_normal = 0
type_byte entry_conf_change = 1

-- A byte that encodeEntries does not write is read as a normal entry's.
unfoldable pub type_of_byte : ℕ → EntryType
type_of_byte b = if b == 1 then entry_conf_change else entry_normal

unfoldable pub encode_entry : Entry → Bytes
encode_entry e =
    let data_bytes = bytes_of e.payload in
    type_byte e.type
    ∷ (le_bytes 8 e.index ++ (le_bytes 8 e.term ++ (le_bytes 4 (length data_bytes) ++ data_bytes)))

unfoldable pub encode_all : List Entry → Bytes
encode_all [] = []
encode_all (e ∷ es) = encode_entry e ++ encode_all es

unfoldable pub encode_entries : List Entry → Bytes
encode_entries ents = le_bytes 4 (length ents) ++ encode_all ents

-- One round of the loop of decodeEntries. The header is the type byte and twenty bytes more.
unfoldable pub decode_entry : Bytes → Visit (Entry × Bytes) StorageError
decode_entry [] = fail truncated_header
decode_entry (b ∷ body) =
    let dl = le_value (take 4 (drop 16 body)) in
    let rest = drop 20 body in
    if ltb (length body) 20
    then fail truncated_header
    else if ltb (length rest) dl
    then fail data_overruns
    else go_on (
      record {
        type = type_of_byte b;
        index = le_value (take 8 body);
        term = le_value (take 8 (drop 8 body));
        payload = if dl == 0 then none else some (take dl rest);
      },
      drop dl rest,
    )

-- The loop, `n` rounds of it.
unfoldable pub decode_all : ℕ → Bytes → Visit (List Entry × Bytes) StorageError
decode_all zero body = go_on ([], body)
decode_all (suc n) body = elim (decode_entry body) [
  | fail x ↦ fail x
  | go_on (e, body') ↦ elim (decode_all n body') [
    | fail x ↦ fail x
    | go_on (es, end) ↦ go_on (e ∷ es, end)
  ]
]

unfoldable pub decode_entries : Bytes → Visit (List Entry) StorageError
decode_entries body =
    if ltb (length body) 4
    then fail short_entries
    else elim (decode_all (le_value (take 4 body)) (drop 4 body)) [
      | fail x ↦ fail x
      | go_on (ents, end) ↦ if length end == 0 then go_on ents else fail trailing_bytes
    ]

-- One entry of a recEntries record: it replaces what stands at its index and behind it.
unfoldable pub place_entry : Entry → Recovered → Visit Recovered StorageError
place_entry e rec =
    let pos = e.index - rec.snap_index in
    if leb e.index rec.snap_index
    then fail entry_below_snapshot
    else if leb pos (length rec.entries)
    then go_on (record rec { entries = take pos (set rec.entries (pos - 1) e) })
    else if pos == length rec.entries + 1
    then go_on (record rec { entries = rec.entries ++ (e ∷ []) })
    else fail gap

unfoldable pub place_entries : List Entry → Recovered → Visit Recovered StorageError
place_entries [] rec = go_on rec
place_entries (e ∷ es) rec = elim (place_entry e rec) [
  | fail x ↦ fail x
  | go_on placed ↦ place_entries es placed
]

unfoldable pub apply_hard_state : Bytes → Recovered → Visit Recovered StorageError
apply_hard_state body rec =
    if length body == 24
    then go_on (record rec {
      hard_state = record {
        term = le_value (take 8 body);
        vote = le_value (take 8 (drop 8 body));
        commit = le_value (take 8 (drop 16 body));
      };
    })
    else fail bad_hard_state

unfoldable pub apply_compact : Bytes → Recovered → Visit Recovered StorageError
apply_compact body rec =
    if not (length body == 16)
    then fail bad_compact
    else if not (length rec.entries == 0) || not (rec.snap_index == 0)
    then fail compact_not_at_start
    else go_on (record rec {
      snap_index = le_value (take 8 body);
      snap_term = le_value (take 8 (drop 8 body));
    })

unfoldable pub apply_entries_record : Bytes → Recovered → Visit Recovered StorageError
apply_entries_record body rec = elim (decode_entries body) [
  | fail x ↦ fail x
  | go_on ents ↦ place_entries ents rec
]

-- The conversion int(pos-1) is negative from 2^63 on, and then the slice expression panics.
unfoldable pub apply_truncate : Bytes → Recovered → Visit Recovered StorageError
apply_truncate body rec =
    let from = le_value body in
    let kept = from - rec.snap_index - 1 in
    if not (length body == 8)
    then fail bad_truncate
    else if leb from rec.snap_index
    then fail truncate_below_snapshot
    else if leb (2 ^ 63) kept
    then fail slice_bounds
    else if ltb kept (length rec.entries)
    then go_on (record rec { entries = take kept rec.entries })
    else go_on rec

unfoldable pub apply_record : Recovered → Bytes → Visit Recovered StorageError
apply_record rec [] = fail empty_record
apply_record rec (tag ∷ body) =
    if tag == rec_hard_state
    then apply_hard_state body rec
    else if tag == rec_compact
    then apply_compact body rec
    else if tag == rec_entries
    then apply_entries_record body rec
    else if tag == rec_truncate
    then apply_truncate body rec
    else fail unknown_record

-- The file that does not exist is the empty one.
unfoldable pub open_storage : Bytes → Visit (Storage × Recovered) StorageError
open_storage buf =
    let scanned = scan_records apply_record nothing_recovered buf in
    elim scanned.error [
      | some x ↦ fail x
      | none ↦
          let rec = scanned.state in
          go_on (record { file = buf; last_index = add64 rec.snap_index (length rec.entries) }, rec)
    ]

-- appendRecord.
unfoldable pub write_record : ℕ → Bytes → Storage → Option Storage
write_record tag body s = do
  rec ← append_record [] (tag ∷ body)
  some (record s { file = s.file ++ rec })

unfoldable pub hard_state_bytes : HardState → Bytes
hard_state_bytes hs = le_bytes 8 hs.term ++ (le_bytes 8 hs.vote ++ le_bytes 8 hs.commit)

unfoldable pub save_hard_state : HardState → Storage → Option Storage
save_hard_state hs s = write_record rec_hard_state (hard_state_bytes hs) s

unfoldable pub record_truncation : ℕ → Storage → Option Storage
record_truncation from s = write_record rec_truncate (le_bytes 8 from) s

-- The index of the last of several entries.
unfoldable pub final_index : Entry → List Entry → ℕ
final_index e [] = e.index
final_index e (f ∷ es) = final_index f es

unfoldable pub append_entries : List Entry → Storage → Option Storage
append_entries [] s = some s
append_entries (e ∷ es) s = do
  cut ← if leb e.index s.last_index then record_truncation e.index s else some s
  written ← write_record rec_entries (encode_entries (e ∷ es)) cut
  some (record written { last_index = final_index e es })

-- The second half of SaveReady: the hard state, if there is one, and the sync. The Boolean tells
-- whether the file was synced.
unfoldable pub save_rest : Option HardState → List Entry → Storage → Option (Bool × Storage)
save_rest none ents s = some (ltb 0 (length ents), s)
save_rest (some hs) ents s = do saved ← save_hard_state hs s; some (true, saved)

unfoldable pub save_ready : Ready → Storage → Option (Bool × Storage)
save_ready rd s = do
  appended ← append_entries rd.entries s
  save_rest rd.hard_state rd.entries appended

-- The image that Rewrite puts in the place of the file.
unfoldable pub rewrite_image : HardState → ℕ → ℕ → List Entry → Option Bytes
rewrite_image hs snap_index snap_term ents = do
  compacted ← append_record [] (rec_compact ∷ (le_bytes 8 snap_index ++ le_bytes 8 snap_term))
  stated ← append_record compacted (rec_hard_state ∷ hard_state_bytes hs)
  if length ents == 0 then some stated else append_record stated (rec_entries ∷ encode_entries ents)

unfoldable pub rewrite_file : HardState → ℕ → ℕ → List Entry → Storage → Option Storage
rewrite_file hs snap_index snap_term ents s = do
  image ← rewrite_image hs snap_index snap_term ents
  some (record { file = image; last_index = add64 snap_index (length ents) })
