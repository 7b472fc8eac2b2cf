-- ===== src/Wal/Segments.antt =====
-- internal/wal writer.go, reader.go, wal.go: the segment files of the log and their writer. A
-- directory is its segments in the order of their ids, each with its bytes; other files and the
-- spelling of the names are left out. Every file operation succeeds; a crash may cut the newest
-- segment at any byte behind what was synced.
pub mod Held
pub mod Restart
use basalt.Prelude.{
  ℕ, zero, suc, ◌+◌, ◌-◌, ◌*◌, ◌^◌, Option, none, some, List, [], ◌∷◌, ◌++◌, Bool, true, false, ltb,
  leb, ◌==◌, not, if◌then◌else◌, Bytes, length, add64, take,
}
use basalt.Wal.Record.{append_record, scan_records, Scanned, Visit, go_on, fail}

pub record Segment : Type 0 where
  pub id : ℕ
  pub file : Bytes

pub record Options : Type 0 where
  pub segment_size : ℕ
  pub max_record_size : ℕ

-- The writer with the directory that it writes to. A writer whose file operations succeed never
-- fails for good, so `err` has no field.
pub record Writer : Type 0 where
  pub dir : List Segment
  pub opts : Options
  pub id : ℕ
  pub size : ℕ
  pub closed : Bool

pub data WriteError : Type 0 where
  writer_closed record_too_large : WriteError

pub data Appended : Type 0 where
  appended : ℕ → Writer → Appended
  refused : WriteError → Appended

-- The defaults and the cap that OpenWriter puts in; a negative option is 0 here, which it replaces
-- as well.
unfoldable pub with_defaults : Options → Options
with_defaults o =
    let size = if o.segment_size == 0 then 4 * 2 ^ 20 else o.segment_size in
    let most = if o.max_record_size == 0 then 64 * 2 ^ 20 else o.max_record_size in
    record {
      segment_size = size;
      max_record_size = if ltb (2 ^ 32 - 1) most then 2 ^ 32 - 1 else most;
    }

-- The longest prefix of whole records: ScanRecords without a visitor.
abbrev pub no_visitor : Unit {0} → Bytes → Visit (Unit {0}) (Unit {0})
no_visitor s p = go_on s

unfoldable pub clean_length : Bytes → ℕ
clean_length buf = (scan_records no_visitor tt buf).clean_len

unfoldable pub repair_torn_tail : Segment → Segment
repair_torn_tail s = record s { file = take (clean_length s.file) s.file }

-- The newest segment repaired, and the id behind it; 1 in an empty directory.
unfoldable pub repair_newest : List Segment → List Segment × ℕ
repair_newest [] = ([], 1)
repair_newest (s ∷ []) = (repair_torn_tail s ∷ [], add64 s.id 1)
repair_newest (s ∷ t ∷ ss) = let (rest, id) = repair_newest (t ∷ ss) in (s ∷ rest, id)

unfoldable pub open_segment : Writer → Writer
open_segment w = record w { dir = w.dir ++ (record { id = w.id; file = [] } ∷ []); size = 0 }

unfoldable pub open_writer : Options → List Segment → Writer
open_writer opts dir =
    let (repaired, id) = repair_newest dir in
    open_segment
      (record { dir = repaired; opts = with_defaults opts; id = id; size = 0; closed = false })

-- A write to the open file, which is the newest segment.
unfoldable pub write_newest : Bytes → List Segment → List Segment
write_newest p [] = []
write_newest p (s ∷ []) = record s { file = s.file ++ p } ∷ []
write_newest p (s ∷ t ∷ ss) = s ∷ write_newest p (t ∷ ss)

unfoldable pub rotate : Writer → Writer
rotate w = open_segment (record w { id = add64 w.id 1 })

-- `none` is the panic of AppendRecord, which the bound on the size keeps out.
unfoldable pub append : Bytes → Writer → Option Appended
append payload w =
    if w.closed
    then some (refused writer_closed)
    else if ltb w.opts.max_record_size (length payload)
    then some (refused record_too_large)
    else elim (append_record [] payload) [
      | none ↦ none
      | some rec ↦
          let written = record w { dir = write_newest rec w.dir; size = w.size + length rec } in
          some (
            appended w.id
              (if leb w.opts.segment_size written.size then rotate written else written))
    ]

-- Rotate; `none` is the error of a closed writer.
unfoldable pub rotate_writer : Writer → Option Writer
rotate_writer w = if w.closed then none else some (rotate w)

unfoldable pub close_writer : Writer → Writer
close_writer w = record w { closed = true }

unfoldable pub delete_segments_below : ℕ → List Segment → List Segment
delete_segments_below upto [] = []
delete_segments_below upto (s ∷ ss) =
    let rest = delete_segments_below upto ss in if ltb s.id upto then rest else s ∷ rest

pub data ReplayError {ℓ} (E : Type ℓ) : Type ℓ where
  missing_segment : ℕ → ReplayError E
  corrupt_segment : ℕ → ReplayError E
  visitor_failed : E → ReplayError E

-- Whether a segment is missing between `prev` and `id`, and which one.
unfoldable pub gap_behind : Option ℕ → ℕ → Bool
gap_behind none id = false
gap_behind (some p) id = not (id == p + 1)

unfoldable pub due_behind : Option ℕ → ℕ
due_behind none = 0
due_behind (some p) = p + 1

module _ {ℓ κ} {S : Type ℓ} {E : Type κ} (fn : S → Bytes → Visit S E) where
  -- The loop of Replay over the segments behind one with the id `prev`.
  unfoldable pub replay_from : Option ℕ → S → List Segment → Visit S (ReplayError E)
  replay_from prev s [] = go_on s
  replay_from prev s (seg ∷ segs) =
      let scanned = scan_records fn s seg.file in
      let rest = replay_from (some seg.id) scanned.state segs in
      if gap_behind prev seg.id
      then fail (missing_segment (due_behind prev))
      else elim scanned.error [
        | some e ↦ fail (visitor_failed e)
        | none ↦
            if scanned.clean_len == length seg.file
            then rest
            else if length segs == 0
            then go_on scanned.state
            else fail (corrupt_segment seg.id)
      ]

  unfoldable pub replay : S → List Segment → Visit S (ReplayError E)
  replay s segs = replay_from none s segs
