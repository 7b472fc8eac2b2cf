-- ===== src/Wal/Segments/Held.antt =====
-- What a directory of segments holds, and what Append and Rotate add to it.
use mathlib.Core.List.{append-nil, append_assoc}
use basalt.Prelude.{
  add64, ℕ, suc, ◌+◌, ◌<◌, ◌≤◌, ◌^◌, ◌≡◌, refl, sym, ap, subst, ◌∙◌, some, List, [], ◌∷◌, ◌++◌,
  arith, false, leb, Bytes, length, length-append, All, Bool-cases, inl, inr,
}
use basalt.Wal.Record.Scan.{Fits, frame, frames, append_record-frame}
use basalt.Wal.Segments.{Segment, Writer, appended, open_segment, write_newest, rotate, append}

-- The segments from id `k` on hold the payloads, in order, each in whole records; behind the
-- records of the newest one stands `tail`.
abbrev pub Holds : Bytes → ℕ → List Segment → List Bytes → Type 0
Holds tail k [] ps = (ps ≡ []) × (tail ≡ [])
Holds tail k (s ∷ []) ps = (s.id ≡ k) × (s.file ≡ frames ps ++ tail) × All Fits ps
Holds tail k (s ∷ t ∷ ss) ps =
    (s.id ≡ k)
    × (qs : List Bytes) × (rs : List Bytes) × (ps ≡ qs ++ rs)
    × (s.file ≡ frames qs)
    × All Fits qs
    × Holds tail (k + 1) (t ∷ ss) rs

pub frames-append : (ps qs : List Bytes) → frames (ps ++ qs) ≡ frames ps ++ frames qs
unfolding frames
frames-append [] qs = refl
frames-append (p ∷ ps) qs =
    ap (λ t. frame p ++ t) (frames-append ps qs)
    ∙ sym (append_assoc (frame p) (frames ps) (frames qs))

frames_one : (p : Bytes) → frames (p ∷ []) ≡ frame p
unfolding frames
frames_one p = append-nil (frame p)

All-concat {ℓ κ} :
    {A : Type ℓ} (P : A → Type κ) (xs ys : List A) → All P xs → All P ys → All P (xs ++ ys)
All-concat P [] ys v w = w
All-concat P (x ∷ xs) ys v w = (v.0, All-concat P xs ys v.1 w)

pub write_newest-Holds :
    (k : ℕ) (dir : List Segment) (ps : List Bytes) (p : Bytes)
    → 0 < length dir
    → Fits p
    → Holds [] k dir ps
    → Holds [] k (write_newest (frame p) dir) (ps ++ (p ∷ []))
unfolding write_newest
write_newest-Holds k [] ps p l f h = absurd (omega arith)
write_newest-Holds k (s ∷ []) ps p l f (id, file, fits) =
    let e : s.file ++ frame p ≡ frames (ps ++ (p ∷ [])) ++ [] =
      ap (λ t. t ++ frame p) (file ∙ append-nil (frames ps))
      ∙ sym (
          append-nil (frames (ps ++ (p ∷ [])))
          ∙ frames-append ps (p ∷ [])
          ∙ ap (λ t. frames ps ++ t) (frames_one p)) in
    (id, e, All-concat Fits ps (p ∷ []) fits (f, tt))
write_newest-Holds k (s ∷ t ∷ []) ps p l f (id, qs, rs, split, file, fits, more) = (
  id,
  qs,
  rs ++ (p ∷ []),
  ap (λ t. t ++ (p ∷ [])) split ∙ append_assoc qs rs (p ∷ []),
  file,
  fits,
  write_newest-Holds (k + 1) (t ∷ []) rs p (omega arith) f more,
)
write_newest-Holds k (s ∷ t ∷ u ∷ ss) ps p l f (id, qs, rs, split, file, fits, more) = (
  id,
  qs,
  rs ++ (p ∷ []),
  ap (λ t. t ++ (p ∷ [])) split ∙ append_assoc qs rs (p ∷ []),
  file,
  fits,
  write_newest-Holds (k + 1) (t ∷ u ∷ ss) rs p (omega arith) f more,
)

-- A fresh segment behind the others.
pub fresh-Holds :
    (k id : ℕ) (dir : List Segment) (ps : List Bytes)
    → id ≡ k + length dir
    → Holds [] k dir ps
    → Holds [] k (dir ++ (record { id = id; file = [] } ∷ [])) ps
unfolding frames
fresh-Holds k id [] ps n (e, t) =
    (omega arith, ap (λ t. frames t ++ []) (sym e), subst (All Fits) (sym e) tt)
fresh-Holds k id (s ∷ []) ps n (own, file, fits) =
    (own, ps, [], sym (append-nil ps), file ∙ append-nil (frames ps), fits, (omega arith, refl, tt))
fresh-Holds k id (s ∷ t ∷ ss) ps n (own, qs, rs, split, file, fits, more) =
    (own, qs, rs, split, file, fits, fresh-Holds (k + 1) id (t ∷ ss) rs (omega arith) more)

pub length-write_newest :
    (p : Bytes) (dir : List Segment) → length (write_newest p dir) ≡ length dir
unfolding write_newest
length-write_newest p [] = refl
length-write_newest p (s ∷ []) = refl
length-write_newest p (s ∷ t ∷ ss) = ap suc (length-write_newest p (t ∷ ss))

-- An open writer whose directory holds the payloads.
pub record WriterHolds (w : Writer) (ps : List Bytes) : Type 0 where
  pub first : ℕ
  pub holds : Holds [] first w.dir ps
  pub newest : w.id + 1 ≡ first + length w.dir
  pub opened : 0 < length w.dir
  pub running : w.closed ≡ false
  pub bounded : w.opts.max_record_size < 2 ^ 32

pub rotate-WriterHolds :
    (w : Writer) (ps : List Bytes)
    → w.id + 1 < 2 ^ 64
    → WriterHolds w ps
    → WriterHolds (rotate w) ps
unfolding rotate open_segment
rotate-WriterHolds w ps room h =
    let next : add64 w.id 1 ≡ w.id + 1 = omega (arith, room) in
    let fresh : List Segment = record { id = add64 w.id 1; file = [] } ∷ [] in
    record {
      first = h.first;
      holds = fresh-Holds h.first (add64 w.id 1) w.dir ps (next ∙ h.newest) h.holds;
      newest = omega (arith, next, h.newest, length-append w.dir fresh);
      opened = omega (arith, length-append w.dir fresh);
      running = h.running;
      bounded = h.bounded;
    }

written-WriterHolds :
    (w : Writer) (ps : List Bytes) (p : Bytes) (size : ℕ)
    → Fits p
    → WriterHolds w ps
    → WriterHolds (record w { dir = write_newest (frame p) w.dir; size = size }) (ps ++ (p ∷ []))
written-WriterHolds w ps p size f h = record {
  first = h.first;
  holds = write_newest-Holds h.first w.dir ps p h.opened f h.holds;
  newest = omega (arith, h.newest, length-write_newest (frame p) w.dir);
  opened = omega (arith, h.opened, length-write_newest (frame p) w.dir);
  running = h.running;
  bounded = h.bounded;
}

-- On an open writer, Append of a payload within the bound adds it to what the directory holds,
-- whether it rotates or not, and answers the id of the segment that was the newest.
pub append-WriterHolds :
    (p : Bytes) (w : Writer) (ps : List Bytes)
    → WriterHolds w ps
    → w.id + 1 < 2 ^ 64
    → length p ≤ w.opts.max_record_size
    → (w' : Writer) × (append p w ≡ some (appended w.id w')) × WriterHolds w' (ps ++ (p ∷ []))
unfolding append
append-WriterHolds p w ps h ids l =
    let fits : Fits p = omega (arith, h.bounded) in
    let size : ℕ = w.size + length (frame p) in
    let next : Writer = record w { dir = write_newest (frame p) w.dir; size = size } in
    let held = written-WriterHolds w ps p size fits h in
    elim (Bool-cases (leb w.opts.segment_size size)) [
      | inl full ↦ (
        rotate next,
        ground (arith, h.running, append_record-frame [] p fits, full),
        rotate-WriterHolds next (ps ++ (p ∷ [])) ids held,
      )
      | inr room ↦ (next, ground (arith, h.running, append_record-frame [] p fits, room), held)
    ]
