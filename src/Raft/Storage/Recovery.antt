-- ===== src/Raft/Storage/Recovery.antt =====
-- internal/raft/storage.go: what opening the file recovers, after each of the writes.
use mathlib.Core.List.{append-nil, append_assoc}
use basalt.Prelude.{
  ℕ, ◌+◌, ◌<◌, ◌^◌, ◌≡◌, refl, sym, ap, ◌∙◌, some, List, [], ◌∷◌, ◌++◌, arith, Bytes, length, All,
}
use basalt.Wal.Record.{next_record, go_on}
use basalt.Wal.Record.Scan.{
  Fits, frame, frames, run, run_step, append_record-frame, scan_records-frames, scan_records_torn,
}
use basalt.Raft.Start.{Recovered, nothing_recovered}
use basalt.Raft.Storage.{Storage, apply_record, open_storage, write_record}

-- The file is made of whole records whose replay gives `rec`.
pub record Holds (file : Bytes) (rec : Recovered) : Type 0 where
  pub payloads : List Bytes
  pub all_fit : All Fits payloads
  pub file_is : file ≡ frames payloads
  pub replays : run apply_record nothing_recovered payloads ≡ go_on rec

-- The index that the storage keeps is the last one of what it holds.
pub record Stores (s : Storage) (rec : Recovered) : Type 0 where
  pub holds : Holds s.file rec
  pub last_is : s.last_index ≡ rec.snap_index + length rec.entries
  pub in_range : rec.snap_index + length rec.entries < 2 ^ 63

run-append :
    (start : Recovered) (ps : List Bytes) (p : Bytes) (mid end : Recovered)
    → run apply_record start ps ≡ go_on mid
    → apply_record mid p ≡ go_on end
    → run apply_record start (ps ++ (p ∷ [])) ≡ go_on end
unfolding run
run-append start [] p mid end r e = ground (arith, e)
run-append start (q ∷ ps) p mid end r e =
    let (next, f, r') = run_step apply_record start q ps r in
    ground (arith, f, run-append next ps p mid end r' e)

frames-append : (ps : List Bytes) (p : Bytes) → frames (ps ++ (p ∷ [])) ≡ frames ps ++ frame p
unfolding frames
frames-append [] p = append-nil (frame p)
frames-append (q ∷ ps) p =
    ap (λ t. frame q ++ t) (frames-append ps p) ∙ sym (append_assoc (frame q) (frames ps) (frame p))

All-append : (ps : List Bytes) (p : Bytes) → All Fits ps → Fits p → All Fits (ps ++ (p ∷ []))
All-append [] p w h = (h, tt)
All-append (q ∷ ps) p w h = (w.0, All-append ps p w.1 h)

-- One record more, and what its replay makes of the state.
pub Holds-frame :
    (file p : Bytes) (rec end : Recovered)
    → Fits p
    → apply_record rec p ≡ go_on end
    → Holds file rec
    → Holds (file ++ frame p) end
Holds-frame file p rec end h e w = record {
  payloads = w.payloads ++ (p ∷ []);
  all_fit = All-append w.payloads p w.all_fit h;
  file_is = ap (λ t. t ++ frame p) w.file_is ∙ sym (frames-append w.payloads p);
  replays = run-append nothing_recovered w.payloads p rec end w.replays e;
}

pub write_record-frame :
    (tag : ℕ) (body : Bytes) (s : Storage)
    → Fits (tag ∷ body)
    → write_record tag body s ≡ some (record s { file = s.file ++ frame (tag ∷ body) })
unfolding write_record
write_record-frame tag body s h = ground (arith, append_record-frame [] (tag ∷ body) h)

-- Opening a storage's file gives the storage back, with the state that it holds.
pub open_storage-Stores :
    (s : Storage) (rec : Recovered) → Stores s rec → open_storage s.file ≡ go_on (s, rec)
unfolding open_storage
open_storage-Stores s rec w =
    let r =
      scan_records-frames apply_record w.holds.payloads [] nothing_recovered rec w.holds.all_fit
        (unfold next_record in refl) w.holds.replays in
    ground (arith, r, append-nil (frames w.holds.payloads), w.holds.file_is, w.last_is, w.in_range)

-- When a storage's file is made of whole records whose replay gives a state, its last index is
-- the last one of that state and a crash leaves a proper prefix of one more record behind the file,
-- opening the file succeeds with the same state and last index.
pub open_storage_torn :
    (s : Storage) (rec : Recovered) (p front : Bytes) (x : ℕ) (back : Bytes)
    → Stores s rec
    → Fits p
    → frame p ≡ front ++ (x ∷ back)
    → open_storage (s.file ++ front) ≡ go_on (record s { file = s.file ++ front }, rec)
unfolding open_storage
open_storage_torn s rec p front x back w h e =
    let r =
      scan_records_torn apply_record w.holds.payloads p front x back nothing_recovered rec
        w.holds.all_fit h e w.holds.replays in
    ground (arith, r, w.holds.file_is, w.last_is, w.in_range)
