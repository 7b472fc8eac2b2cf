-- ===== src/Manifest/VersionSet/Logged.antt =====
-- internal/manifest/version_set.go
-- The manifest log holds the state of the version set.
use mathlib.Core.List.{append-nil}
use basalt.Prelude.{
  ℕ, ◌≤◌, ◌≡◌, refl, sym, ap, ◌∙◌, some, List, [], ◌∷◌, ◌++◌, arith, true, false, ltb, Bytes,
  length, length-append, take, drop, drop-append_left, le_value, All, Bool-cases, inl, inr,
}
use basalt.Wal.Record.{append_record, scan_records, go_on}
use basalt.Wal.Record.Scan.{
  Fits, frame, frames, run, append_record-frame, scan_records_torn, length-frame,
  frame-length_field, take-drop-append, run_step,
}
use basalt.Wal.Segments.Held.{frames-append}
use basalt.Wal.Segments.Restart.{Torn}
use basalt.Manifest.Edit.{VersionEdit, encode}
use basalt.Manifest.Edit.Fields.{IsEdit}
use basalt.Manifest.Edit.RoundTrip.{decode_edit-encode}
use basalt.Manifest.Version.{Version, apply_edit, edited}
use basalt.Manifest.VersionSet.{Replayed, fresh, replay_edit, damaged, beyond, replay}

-- The file is whole records whose replay gives the state.
pub record Logs (file : Bytes) (s : Replayed) : Type 0 where
  pub payloads : List Bytes
  pub file_is : file ≡ frames payloads
  pub fit : All Fits payloads
  pub runs : run replay_edit fresh payloads ≡ go_on s

-- What a crash leaves of a record is not taken for damage.
Torn-damaged : (tail : Bytes) → Torn tail → damaged tail ≡ false
unfolding damaged
Torn-damaged tail t = elim (Bool-cases (ltb (length tail) 8)) [
  | inl short ↦ ground (arith, short)
  | inr long ↦
      let enough : 8 ≤ length tail = ground (arith, long) in
      let rest = t.missing ∷ t.more in
      let field = take-drop-append tail t.missing t.more enough in
      let declared : le_value (take 4 (drop 4 tail)) ≡ length t.payload =
        ap le_value (sym field)
        ∙ ap (λ b. le_value (take 4 (drop 4 b))) (sym t.split)
        ∙ frame-length_field t.payload t.fits in
      let size = ap (length {A = ℕ}) t.split in
      ground (arith, declared, size, length-frame t.payload, length-append tail rest)
]

-- A replay of such a file, whatever a crash left of one more record.
pub replay-Logs :
    (num : ℕ) (file tail : Bytes) (s : Replayed)
    → Logs file s
    → Torn tail
    → replay num (file ++ tail) ≡ inr (beyond num s)
unfolding replay
replay-Logs num file tail s l t =
    let e =
      ap (λ b. scan_records replay_edit fresh (b ++ tail)) l.file_is
      ∙ scan_records_torn replay_edit l.payloads t.payload tail t.missing t.more fresh s l.fit
          t.fits t.split l.runs in
    let cut : drop (length (frames l.payloads)) (file ++ tail) ≡ tail =
      ap (λ b. drop (length (frames l.payloads)) (b ++ tail)) l.file_is
      ∙ drop-append_left (frames l.payloads) tail in
    ground (arith, e, ap damaged cut, Torn-damaged tail t)

run-append_one :
    (s mid end : Replayed) (ps : List Bytes) (p : Bytes)
    → run replay_edit s ps ≡ go_on mid
    → replay_edit mid p ≡ go_on end
    → run replay_edit s (ps ++ (p ∷ [])) ≡ go_on end
unfolding run
run-append_one s mid end [] p r f =
    let same : s ≡ mid = ground (arith, r) in ground (arith, ap (λ t. replay_edit t p) same, f)
run-append_one s mid end (q ∷ ps) p r f =
    let (s', g, r') = run_step replay_edit s q ps r in
    ground (arith, g, run-append_one s' mid end ps p r' f)

append_record-length : (p rec : Bytes) → append_record [] p ≡ some rec → Fits p
unfolding append_record
append_record-length p rec h = ground (arith, h)

append_record-Fits : (p rec : Bytes) → append_record [] p ≡ some rec → Fits p × (rec ≡ frame p)
append_record-Fits p rec h =
    let fits = append_record-length p rec h in
    (fits, ground (arith, h, append_record-frame [] p fits))

empty_log : Logs [] fresh
unfolding frames run
empty_log = record { payloads = []; file_is = refl; fit = tt; runs = refl }

All-append_one : (ps : List Bytes) (p : Bytes) → All Fits ps → Fits p → All Fits (ps ++ (p ∷ []))
All-append_one [] p w f = (f, tt)
All-append_one (q ∷ ps) p (g, w) f = (g, All-append_one ps p w f)

-- Appending the record of an edit that the replayed state takes.
pub Logs-append :
    (file rec p : Bytes) (s s' : Replayed)
    → Logs file s
    → append_record [] p ≡ some rec
    → replay_edit s p ≡ go_on s'
    → Logs (file ++ rec) s'
unfolding frames
Logs-append file rec p s s' l a f =
    let (fits, is) = append_record-Fits p rec a in
    record {
      payloads = l.payloads ++ (p ∷ []);
      file_is =
          ap (λ t. t ++ rec) l.file_is
          ∙ ap (λ t. frames l.payloads ++ t) (is ∙ sym (append-nil (frame p)))
          ∙ sym (frames-append l.payloads (p ∷ []));
      fit = All-append_one l.payloads p l.fit fits;
      runs = run-append_one fresh s s' l.payloads p l.runs f;
    }

-- A file of one record.
pub lone_record :
    (rec p : Bytes) (s : Replayed)
    → append_record [] p ≡ some rec
    → replay_edit fresh p ≡ go_on s
    → Logs rec s
lone_record rec p s a f = Logs-append [] rec p fresh s empty_log a f

-- The state that the record of an edit gives.
pub replay_edit-encode :
    (s : Replayed) (e : VersionEdit) (v : Version)
    → IsEdit e
    → apply_edit s.version e ≡ edited v
    → e.has_log_number ≡ true
    → e.has_next_file_num ≡ true
    → e.has_last_seq ≡ true
    → replay_edit s (encode e [])
      ≡ go_on (record {
        version = v;
        log_number = e.log_number;
        next_file_num = e.next_file_num;
        last_seq = e.last_seq;
      })
unfolding replay_edit
replay_edit-encode s e v w a l n q = ground (arith, decode_edit-encode e w, a, l, n, q)
