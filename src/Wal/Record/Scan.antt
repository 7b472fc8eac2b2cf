-- ===== src/Wal/Record/Scan.antt =====
-- What reading records back gives, with the torn tail of a crash behind them.
use mathlib.Core.List.{append_assoc}
use basalt.Prelude.{
  ℕ, zero, suc, ◌+◌, ◌-◌, ◌^◌, ◌≤◌, ◌<◌, ◌≡◌, refl, ap, sym, ◌∙◌, none, some, List, [], ◌∷◌, ◌++◌,
  arith, Bytes, length, take, drop, All, length-append, take-append_left, drop-append_left,
  le_bytes, le_value, le_value-le_bytes, length-le_bytes, inl, inr, Option-cases,
}
use basalt.Wal.Record.{
  record_crc, append_record, next_record, Visit, Visit-cases, go_on, fail, scan_loop, scan_records,
}

abbrev pub Fits : Bytes → Type 0
Fits payload = length payload < 2 ^ 32

-- The bytes of one record, and of several.
unfoldable pub frame : Bytes → Bytes
frame payload =
    le_bytes 4 (record_crc (le_bytes 4 (length payload)) payload)
    ++ (le_bytes 4 (length payload) ++ payload)

unfoldable pub frames : List Bytes → Bytes
frames [] = []
frames (p ∷ ps) = frame p ++ frames ps

pub append_record-frame :
    (dst payload : Bytes) → Fits payload → append_record dst payload ≡ some (dst ++ frame payload)
unfolding append_record frame
append_record-frame dst payload h = ground arith

record_crc-lt : (len_buf payload : Bytes) → record_crc len_buf payload < 2 ^ 32
unfolding record_crc
record_crc-lt len_buf payload = omega arith

pub length-frame : (p : Bytes) → length (frame p) ≡ length p + 8
unfolding frame
length-frame p = omega (
  arith,
  length-append (le_bytes 4 (record_crc (le_bytes 4 (length p)) p)) (le_bytes 4 (length p) ++ p),
  length-append (le_bytes 4 (length p)) p,
  length-le_bytes 4 (record_crc (le_bytes 4 (length p)) p),
  length-le_bytes 4 (length p),
)

-- Four bytes, four bytes and the rest, as the parser cuts them.
cuts :
    (c l : ℕ) (body : Bytes)
    → (take 4 (le_bytes 4 c ++ (le_bytes 4 l ++ body)) ≡ le_bytes 4 c)
      × (take 4 (drop 4 (le_bytes 4 c ++ (le_bytes 4 l ++ body))) ≡ le_bytes 4 l)
      × (drop 8 (le_bytes 4 c ++ (le_bytes 4 l ++ body)) ≡ body)
unfolding le_bytes
cuts c l body = (refl, refl, refl)

-- A record is read back, and what follows it is left.
pub next_record-frame : (p rest : Bytes) → Fits p → next_record (frame p ++ rest) ≡ some (p, rest)
unfolding next_record frame
next_record-frame p rest h =
    let c : ℕ = record_crc (le_bytes 4 (length p)) p in
    let (crc, len, body) = cuts c (length p) (p ++ rest) in
    rw (append_assoc (le_bytes 4 c) (le_bytes 4 (length p) ++ p) rest) (
      rw (append_assoc (le_bytes 4 (length p)) p rest) (
        ground (
          arith,
          crc,
          len,
          body,
          length-append (le_bytes 4 c) (le_bytes 4 (length p) ++ (p ++ rest)),
          length-append (le_bytes 4 (length p)) (p ++ rest),
          length-append p rest,
          length-le_bytes 4 c,
          length-le_bytes 4 (length p),
          le_value-le_bytes 4 c (record_crc-lt (le_bytes 4 (length p)) p),
          le_value-le_bytes 4 (length p) h,
          take-append_left p rest,
          drop-append_left p rest,
        )))

-- A parsed record is no longer than the buffer that it was parsed from.
next_record-length :
    (buf payload rest : Bytes)
    → next_record buf ≡ some (payload, rest)
    → (8 ≤ length buf) × (le_value (take 4 (drop 4 buf)) + 8 ≤ length buf)
unfolding next_record
next_record-length buf payload rest h = ground arith

pub take-drop-append :
    (front : Bytes) (x : ℕ) (back : Bytes)
    → 8 ≤ length front
    → take 4 (drop 4 (front ++ (x ∷ back))) ≡ take 4 (drop 4 front)
take-drop-append (a ∷ b ∷ c ∷ d ∷ e ∷ f ∷ g ∷ h ∷ front) x back le = refl
take-drop-append [] x back le = absurd (omega arith)
take-drop-append (a ∷ []) x back le = absurd (omega arith)
take-drop-append (a ∷ b ∷ []) x back le = absurd (omega arith)
take-drop-append (a ∷ b ∷ c ∷ []) x back le = absurd (omega arith)
take-drop-append (a ∷ b ∷ c ∷ d ∷ []) x back le = absurd (omega arith)
take-drop-append (a ∷ b ∷ c ∷ d ∷ e ∷ []) x back le = absurd (omega arith)
take-drop-append (a ∷ b ∷ c ∷ d ∷ e ∷ f ∷ []) x back le = absurd (omega arith)
take-drop-append (a ∷ b ∷ c ∷ d ∷ e ∷ f ∷ g ∷ []) x back le = absurd (omega arith)

pub frame-length_field : (p : Bytes) → Fits p → le_value (take 4 (drop 4 (frame p))) ≡ length p
unfolding frame
frame-length_field p h =
    ap le_value (cuts (record_crc (le_bytes 4 (length p)) p) (length p) p).1
    ∙ le_value-le_bytes 4 (length p) h

-- No proper prefix of a record is a record: a torn write is recognised.
pub next_record_torn :
    (p front : Bytes) (x : ℕ) (back : Bytes)
    → Fits p
    → frame p ≡ front ++ (x ∷ back)
    → next_record front ≡ none
next_record_torn p front x back h e = elim (Option-cases (next_record front)) [
  | inl torn ↦ torn
  | inr ((payload, rest), r) ↦
      let (eight, fits) = next_record-length front payload rest r in
      let field : le_value (take 4 (drop 4 front)) ≡ length p =
        ap le_value (sym (take-drop-append front x back eight))
        ∙ ap (λ t. le_value (take 4 (drop 4 t))) (sym e)
        ∙ frame-length_field p h in
      absurd (
        omega (arith, field, length-frame p, ap (length {A = ℕ}) e, length-append front (x ∷ back)))
]

length-frames : (ps : List Bytes) → length ps ≤ length (frames ps)
unfolding frames
length-frames [] = omega arith
length-frames (p ∷ ps) =
    omega (arith, length-frames ps, length-append (frame p) (frames ps), length-frame p)

module _ {ℓ κ} {S : Type ℓ} {E : Type κ} (fn : S → Bytes → Visit S E) where
  -- The visits of the payloads in order, up to the first error.
  unfoldable pub run : S → List Bytes → Visit S E
  run s [] = go_on s
  run s (p ∷ ps) = elim (fn s p) [ fail e ↦ fail e | go_on s' ↦ run s' ps ]

  pub run_step :
      (s : S) (p : Bytes) (ps : List Bytes) {end : S}
      → run s (p ∷ ps) ≡ go_on end
      → (s' : S) × (fn s p ≡ go_on s') × (run s' ps ≡ go_on end)
  unfolding run
  run_step s p ps {end} h = elim (Visit-cases (fn s p)) [
    | inl (x, e) ↦ absurd (ground (arith, e))
    | inr (s', e) ↦ (s', e, ground (arith, e))
  ]

  scan_loop_step :
      (buf p next : Bytes) (fuel done : ℕ) (s s' : S)
      → next_record buf ≡ some (p, next)
      → fn s p ≡ go_on s'
      → scan_loop fn (suc fuel) done s buf
        ≡ scan_loop fn fuel (done + (length buf - length next)) s' next
  unfolding scan_loop
  scan_loop_step buf p next fuel done s s' e f = rw (e, f, scan_loop)

  scan_loop_stop :
      (tail : Bytes) (fuel done : ℕ) (s : S)
      → next_record tail ≡ none
      → scan_loop fn fuel done s tail ≡ record { state = s; clean_len = done; error = none }
  unfolding scan_loop
  scan_loop_stop tail zero done s e = refl
  scan_loop_stop tail (suc fuel) done s e = rw (e, scan_loop)

  scan_loop-frames :
      (ps : List Bytes) (tail : Bytes) (fuel done : ℕ) (s end : S)
      → All Fits ps
      → next_record tail ≡ none
      → run s ps ≡ go_on end
      → length ps ≤ fuel
      → scan_loop fn fuel done s (frames ps ++ tail)
        ≡ record { state = end; clean_len = done + length (frames ps); error = none }
  unfolding frames
  scan_loop-frames [] tail fuel done s end w torn r h =
      let e : done + 0 ≡ done = omega arith in
      let same : s ≡ end = unfold run in cc in
      rw (e, sym same) (scan_loop_stop tail fuel done s torn)
  scan_loop-frames (p ∷ ps) tail zero done s end w torn r h = absurd (omega arith)
  scan_loop-frames (p ∷ ps) tail (suc fuel) done s end w torn r h =
      let (s', f, r') = run_step s p ps r in
      let e : next_record (frame p ++ (frames ps ++ tail)) ≡ some (p, frames ps ++ tail) =
        next_record-frame p (frames ps ++ tail) w.0 in
      let len : done
            + (length (frame p ++ (frames ps ++ tail)) - length (frames ps ++ tail))
            + length (frames ps)
          ≡ done + length (frame p ++ frames ps) =
        omega (
          arith,
          length-append (frame p) (frames ps ++ tail),
          length-append (frame p) (frames ps),
        ) in
      rw (append_assoc (frame p) (frames ps) tail) (
        scan_loop_step (frame p ++ (frames ps ++ tail)) p (frames ps ++ tail) fuel done s s' e f
        ∙ scan_loop-frames ps tail fuel
            (done + (length (frame p ++ (frames ps ++ tail)) - length (frames ps ++ tail))) s' end
            w.1 torn r' (omega arith)
        ∙ ap (λ n. record { state = end; clean_len = n; error = none }) len)

  -- Scanning complete records with bytes behind them that are no record visits exactly the
  -- payloads, in order, and reports the length of the records as the clean prefix.
  pub scan_records-frames :
      (ps : List Bytes) (tail : Bytes) (s end : S)
      → All Fits ps
      → next_record tail ≡ none
      → run s ps ≡ go_on end
      → scan_records fn s (frames ps ++ tail)
        ≡ record { state = end; clean_len = length (frames ps); error = none }
  unfolding scan_records
  scan_records-frames ps tail s end w torn r =
      scan_loop-frames ps tail (length (frames ps ++ tail)) 0 s end w torn r
        (omega (arith, length-append (frames ps) tail, length-frames ps))
      ∙ ap (λ n. record { state = end; clean_len = n; error = none })
          (let e : 0 + length (frames ps) ≡ length (frames ps) = omega arith in e)

  -- Where the visits of the payloads of whole records succeed, a log of these records whose next
  -- record was torn by a crash, at any byte, is read as the log before it: the payloads are
  -- visited in order, no error is reported and the clean prefix ends where the whole records end.
  pub scan_records_torn :
      (ps : List Bytes) (p front : Bytes) (x : ℕ) (back : Bytes) (s end : S)
      → All Fits ps
      → Fits p
      → frame p ≡ front ++ (x ∷ back)
      → run s ps ≡ go_on end
      → scan_records fn s (frames ps ++ front)
        ≡ record { state = end; clean_len = length (frames ps); error = none }
  scan_records_torn ps p front x back s end w fits e r =
      scan_records-frames ps front s end w (next_record_torn p front x back fits e) r
