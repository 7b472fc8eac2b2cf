-- ===== src/Wal/Segments/Restart.antt =====
-- What Replay visits and what OpenWriter repairs, after a crash.
use mathlib.Core.List.{append-nil}
use basalt.Prelude.{
  ℕ, suc, ◌+◌, ◌<◌, ◌≤◌, ◌^◌, ◌≡◌, refl, sym, ap, ◌∙◌, Option, none, some, List, [], ◌∷◌, ◌++◌,
  arith, false, Bytes, length, length-append, All, take, take-append_left,
}
use basalt.Wal.Record.{Visit, go_on, scan_records, next_record}
use basalt.Wal.Record.Scan.{
  Fits, frame, frames, run, run_step, scan_records-frames, scan_records_torn, length-frame,
}
use basalt.Wal.Segments.{
  Segment, Options, Writer, with_defaults, no_visitor, clean_length, repair_torn_tail,
  repair_newest, open_segment, open_writer, gap_behind, replay_from, replay, append, appended,
}
use basalt.Wal.Segments.Held.{Holds, fresh-Holds, WriterHolds, append-WriterHolds}

-- What a crash leaves of a record that was being written: a proper prefix of it, or nothing.
pub record Torn (front : Bytes) : Type 0 where
  pub payload : Bytes
  pub missing : ℕ
  pub more : Bytes
  pub fits : Fits payload
  pub split : frame payload ≡ front ++ (missing ∷ more)

module _ {ℓ κ} {S : Type ℓ} {E : Type κ} (fn : S → Bytes → Visit S E) where
  run-append :
      (s : S) (ps qs : List Bytes) (end : S)
      → run fn s (ps ++ qs) ≡ go_on end
      → (mid : S) × (run fn s ps ≡ go_on mid) × (run fn mid qs ≡ go_on end)
  unfolding run
  run-append s [] qs end r = (s, refl, r)
  run-append s (p ∷ ps) qs end r =
      let (s', f, r') = run_step fn s p (ps ++ qs) r in
      let (mid, a, b) = run-append s' ps qs end r' in (mid, ground (arith, f, a), b)

  -- A segment of whole records.
  scan_whole :
      (s end : S) (ps : List Bytes)
      → All Fits ps
      → run fn s ps ≡ go_on end
      → scan_records fn s (frames ps)
        ≡ record { state = end; clean_len = length (frames ps); error = none }
  scan_whole s end ps w r =
      ap (scan_records fn s) (sym (append-nil (frames ps)))
      ∙ scan_records-frames fn ps [] s end w (unfold next_record in refl) r

  replay_from-Holds :
      (tail : Bytes) (k : ℕ) (prev : Option ℕ) (dir : List Segment) (ps : List Bytes) (s end : S)
      → Torn tail
      → gap_behind prev k ≡ false
      → Holds tail k dir ps
      → run fn s ps ≡ go_on end
      → replay_from fn prev s dir ≡ go_on end
  unfolding replay_from
  replay_from-Holds tail k prev [] ps s end t g h r =
      let q : run fn s [] ≡ go_on end = ap (run fn s) (sym h.0) ∙ r in
      unfold run in ground (arith, q)
  replay_from-Holds tail k prev (seg ∷ []) ps s end t g (id, file, fits) r =
      let e =
        ap (scan_records fn s) file
        ∙ scan_records_torn fn ps t.payload tail t.missing t.more s end fits t.fits t.split r in
      ground (arith, ap (gap_behind prev) id, g, e)
  replay_from-Holds tail k prev (seg ∷ seg' ∷ segs) ps s end t g
        (id, qs, rs, split, file, fits, more) r =
      let (mid, a, b) = run-append s qs rs end (ap (run fn s) (sym split) ∙ r) in
      let e = ap (scan_records fn s) file ∙ scan_whole s mid qs fits a in
      let next : gap_behind (some seg.id) (k + 1) ≡ false =
        unfold gap_behind in ground (arith, id) in
      let ih =
        replay_from-Holds tail (k + 1) (some seg.id) (seg' ∷ segs) rs mid end t next more b in
      ground (arith, ap (gap_behind prev) id, g, e, ap (length {A = ℕ}) file, ih)

  -- Where the visits of the payloads that the segments hold succeed, Replay visits them in order
  -- and succeeds, whatever a crash left of one more record at the end of the newest segment.
  pub replay-Holds :
      (tail : Bytes) (k : ℕ) (dir : List Segment) (ps : List Bytes) (s end : S)
      → Torn tail
      → Holds tail k dir ps
      → run fn s ps ≡ go_on end
      → replay fn s dir ≡ go_on end
  unfolding replay
  replay-Holds tail k dir ps s end t h r =
      replay_from-Holds tail k none dir ps s end t (unfold gap_behind in refl) h r

run-no_visitor : (ps : List Bytes) → run no_visitor tt ps ≡ go_on tt
unfolding run
run-no_visitor [] = refl
run-no_visitor (p ∷ ps) = run-no_visitor ps

-- The repair cuts a segment behind its whole records.
repair_torn_tail-frames :
    (seg : Segment) (ps : List Bytes) (tail : Bytes)
    → Torn tail
    → All Fits ps
    → seg.file ≡ frames ps ++ tail
    → repair_torn_tail seg ≡ record { id = seg.id; file = frames ps }
unfolding repair_torn_tail clean_length
repair_torn_tail-frames seg ps tail t fits file =
    let e =
      ap (scan_records no_visitor tt) file
      ∙ scan_records_torn no_visitor ps t.payload tail t.missing t.more tt tt fits t.fits t.split
          (run-no_visitor ps) in
    let cut : take (length (frames ps)) seg.file ≡ frames ps =
      ap (take (length (frames ps))) file ∙ take-append_left (frames ps) tail in
    ground (arith, e, cut)

cons-Holds :
    (k : ℕ) (seg : Segment) (segs : List Segment) (ps qs rs : List Bytes)
    → 0 < length segs
    → seg.id ≡ k
    → ps ≡ qs ++ rs
    → seg.file ≡ frames qs
    → All Fits qs
    → Holds [] (k + 1) segs rs
    → Holds [] k (seg ∷ segs) ps
cons-Holds k seg [] ps qs rs l id split file fits more = absurd (omega arith)
cons-Holds k seg (t ∷ ss) ps qs rs l id split file fits more = (id, qs, rs, split, file, fits, more)

repair_newest-Holds :
    (tail : Bytes) (k : ℕ) (dir : List Segment) (ps : List Bytes)
    → Torn tail
    → 0 < length dir
    → k + length dir < 2 ^ 64
    → Holds tail k dir ps
    → Holds [] k (repair_newest dir).0 ps
      × ((repair_newest dir).1 ≡ k + length dir)
      × (length (repair_newest dir).0 ≡ length dir)
unfolding repair_newest
repair_newest-Holds tail k [] ps t l ids h = absurd (omega arith)
repair_newest-Holds tail k (seg ∷ []) ps t l ids (id, file, fits) =
    let e = repair_torn_tail-frames seg ps tail t fits file in
    (
      (ground (arith, id, e), ap (λ (s : Segment). s.file) e ∙ sym (append-nil (frames ps)), fits),
      omega (arith, id, ids),
      refl,
    )
repair_newest-Holds tail k (seg ∷ seg' ∷ segs) ps t l ids (id, qs, rs, split, file, fits, more) =
    let (held, next, len) =
      repair_newest-Holds tail (k + 1) (seg' ∷ segs) rs t (omega arith) (omega (arith, ids)) more in
    (
      cons-Holds k seg (repair_newest (seg' ∷ segs)).0 ps qs rs (omega (arith, len)) id split file
          fits held,
      omega (arith, next),
      ap suc len,
    )

-- In a directory with segments, where the id behind the newest one fits a word, the writer that
-- OpenWriter gives holds what the segments held, whatever a crash left of one more record at the
-- end of the newest one: the torn record is cut off. The writer is open, and its segment is a fresh
-- one behind the others.
pub open_writer-WriterHolds :
    (opts : Options) (tail : Bytes) (k : ℕ) (dir : List Segment) (ps : List Bytes)
    → Torn tail
    → 0 < length dir
    → k + length dir < 2 ^ 64
    → Holds tail k dir ps
    → WriterHolds (open_writer opts dir) ps
unfolding open_writer open_segment with_defaults
open_writer-WriterHolds opts tail k dir ps t l ids h =
    let (held, next, len) = repair_newest-Holds tail k dir ps t l ids h in
    let repaired = (repair_newest dir).0 in
    let id = (repair_newest dir).1 in
    record {
      first = k;
      holds = fresh-Holds k id repaired ps (omega (arith, next, len)) held;
      newest =
          omega (arith, next, len, length-append repaired (record { id = id; file = [] } ∷ []));
      opened = omega (arith, length-append repaired (record { id = id; file = [] } ∷ []));
      running = refl;
      bounded = ground arith;
    }

-- A fresh directory.
pub open_writer_empty : (opts : Options) → WriterHolds (open_writer opts []) []
unfolding open_writer open_segment with_defaults repair_newest frames
open_writer_empty opts = record {
  first = 1;
  holds = (refl, refl, tt);
  newest = refl;
  opened = omega arith;
  running = refl;
  bounded = ground arith;
}

nonempty : (xs : Bytes) → 0 < length xs → (x : ℕ) × (ys : Bytes) × (xs ≡ x ∷ ys)
nonempty [] l = absurd (omega arith)
nonempty (x ∷ ys) l = (x, ys, refl)

-- No byte of a next record was written.
pub empty_tail : Torn []
empty_tail =
    let (x, more, e) = nonempty (frame []) (omega (arith, length-frame [])) in
    record { payload = []; missing = x; more = more; fits = omega arith; split = e }

-- Where the id of the newest segment and the two behind it fit a word, after a crash that left a
-- part of a record, or none, at the end of the newest segment, opening a writer and appending a
-- payload within its bound succeeds, and a later Replay visits exactly the payloads held before the
-- crash and the new one, in order, where these visits succeed.
pub replay-restart {ℓ κ} :
    {S : Type ℓ} {E : Type κ} (fn : S → Bytes → Visit S E) (opts : Options) (tail : Bytes) (k : ℕ)
    (dir : List Segment) (ps : List Bytes) (p : Bytes) (s end : S)
    → Torn tail
    → 0 < length dir
    → k + length dir + 1 < 2 ^ 64
    → Holds tail k dir ps
    → length p ≤ (with_defaults opts).max_record_size
    → run fn s (ps ++ (p ∷ [])) ≡ go_on end
    → (id : ℕ) × (w : Writer) × (append p (open_writer opts dir) ≡ some (appended id w))
      × (replay fn s w.dir ≡ go_on end)
unfolding open_writer open_segment
replay-restart fn opts tail k dir ps p s end t l ids h room r =
    let below : k + length dir < 2 ^ 64 = omega (arith, ids) in
    let opened = open_writer-WriterHolds opts tail k dir ps t l below h in
    let (_, next, _) = repair_newest-Holds tail k dir ps t l below h in
    let (w, e, held) =
      append-WriterHolds p (open_writer opts dir) ps opened (omega (arith, next, ids)) room in
    (
      (open_writer opts dir).id,
      w,
      e,
      replay-Holds fn [] held.first w.dir (ps ++ (p ∷ [])) s end empty_tail held.holds r,
    )
