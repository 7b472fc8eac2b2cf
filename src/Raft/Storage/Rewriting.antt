-- ===== src/Raft/Storage/Rewriting.antt =====
-- internal/raft/storage.go: the image that Rewrite leaves, and what opening it recovers.
use basalt.Prelude.{
  ℕ, ◌+◌, ◌<◌, ◌^◌, ◌≡◌, refl, subst, some, List, [], ◌∷◌, ◌++◌, arith, Bytes, IsU64, length, take,
  drop, All, le_bytes, le_value-le_bytes,
}
use basalt.Wal.Record.{append_record, go_on}
use basalt.Wal.Record.Scan.{Fits, frame, frames, run, append_record-frame}
use basalt.Raft.Types.{Entry, HardState, Indexed}
use basalt.Raft.Start.{Recovered, nothing_recovered}
use basalt.Raft.Storage.{
  Storage, rec_hard_state, rec_entries, rec_compact, encode_entries, apply_compact, apply_record,
  open_storage, hard_state_bytes, rewrite_image, rewrite_file,
}
use basalt.Raft.Storage.Codec.{IsStorable}
use basalt.Raft.Storage.Recovery.{Holds, Stores, Holds-frame, open_storage-Stores}
use basalt.Raft.Storage.Saves.{
  IsWords, length-hard_state_bytes, apply_record-hard_state, apply_record-entries,
}

cuts :
    (a b : ℕ)
    → (take 8 (le_bytes 8 a ++ le_bytes 8 b) ≡ le_bytes 8 a)
      × (take 8 (drop 8 (le_bytes 8 a ++ le_bytes 8 b)) ≡ le_bytes 8 b)
      × (length (le_bytes 8 a ++ le_bytes 8 b) ≡ 16)
unfolding le_bytes
cuts a b = (refl, refl, refl)

abbrev bounded : ℕ → ℕ → Recovered
bounded index term = record nothing_recovered { snap_index = index; snap_term = term }

apply_record-compact :
    (index term : ℕ)
    → IsU64 index
    → IsU64 term
    → apply_record nothing_recovered (rec_compact ∷ (le_bytes 8 index ++ le_bytes 8 term))
      ≡ go_on (bounded index term)
unfolding apply_record apply_compact
apply_record-compact index term h k =
    let (a, b, len) = cuts index term in
    ground (arith, a, b, len, le_value-le_bytes 8 index h, le_value-le_bytes 8 term k)

-- What Rewrite is given: words, and consecutive entries behind the boundary that fit one record.
pub record IsImage (hs : HardState) (index term : ℕ) (ents : List Entry) : Type 0 where
  pub words : IsWords hs
  pub term_fits : IsU64 term
  pub consecutive : Indexed (index + 1) ents
  pub few : length ents < 2 ^ 32
  pub storable : All IsStorable ents
  pub fits : Fits (rec_entries ∷ encode_entries ents)
  pub in_range : index + length ents < 2 ^ 63

-- The state that the image stands for.
abbrev pub imaged : HardState → ℕ → ℕ → List Entry → Recovered
imaged hs index term ents = record {
  hard_state = hs;
  snap_index = index;
  snap_term = term;
  entries = ents;
}

-- The boundary and the hard state, the first two records.
stated-Holds :
    (hs : HardState) (index term : ℕ) (ents : List Entry)
    → IsImage hs index term ents
    → Holds
        (frame (rec_compact ∷ (le_bytes 8 index ++ le_bytes 8 term))
          ++ frame (rec_hard_state ∷ hard_state_bytes hs))
        (imaged hs index term [])
stated-Holds hs index term ents w =
    let p : Bytes = rec_compact ∷ (le_bytes 8 index ++ le_bytes 8 term) in
    let q : Bytes = rec_hard_state ∷ hard_state_bytes hs in
    let (a, b, len) = cuts index term in
    let empty : Holds [] nothing_recovered = record {
      payloads = [];
      all_fit = tt;
      file_is = unfold frames in refl;
      replays = unfold run in refl;
    } in
    Holds-frame (frame p) q (bounded index term) (imaged hs index term [])
      (omega (arith, length-hard_state_bytes hs))
      (apply_record-hard_state (bounded index term) hs w.words)
      (Holds-frame [] p nothing_recovered (bounded index term) (omega (arith, len))
        (apply_record-compact index term (omega (arith, w.in_range)) w.term_fits) empty)

append-first :
    (index term : ℕ)
    → append_record [] (rec_compact ∷ (le_bytes 8 index ++ le_bytes 8 term))
      ≡ some (frame (rec_compact ∷ (le_bytes 8 index ++ le_bytes 8 term)))
append-first index term =
    let (a, b, len) = cuts index term in
    append_record-frame [] (rec_compact ∷ (le_bytes 8 index ++ le_bytes 8 term))
      (omega (arith, len))

append-second :
    (index term : ℕ) (hs : HardState)
    → append_record
        (frame (rec_compact ∷ (le_bytes 8 index ++ le_bytes 8 term)))
        (rec_hard_state ∷ hard_state_bytes hs)
      ≡ some (
          frame (rec_compact ∷ (le_bytes 8 index ++ le_bytes 8 term))
          ++ frame (rec_hard_state ∷ hard_state_bytes hs))
append-second index term hs =
    append_record-frame (frame (rec_compact ∷ (le_bytes 8 index ++ le_bytes 8 term)))
      (rec_hard_state ∷ hard_state_bytes hs) (omega (arith, length-hard_state_bytes hs))

image-Holds :
    (hs : HardState) (index term : ℕ) (ents : List Entry)
    → IsImage hs index term ents
    → (image : Bytes) × (rewrite_image hs index term ents ≡ some image)
      × Holds image (imaged hs index term ents)
unfolding rewrite_image
image-Holds hs index term [] w = (
  frame (rec_compact ∷ (le_bytes 8 index ++ le_bytes 8 term))
      ++ frame (rec_hard_state ∷ hard_state_bytes hs),
  ground (arith, append-first index term, append-second index term hs),
  stated-Holds hs index term [] w,
)
image-Holds hs index term (e ∷ es) w =
    let stated : Bytes =
      frame (rec_compact ∷ (le_bytes 8 index ++ le_bytes 8 term))
      ++ frame (rec_hard_state ∷ hard_state_bytes hs) in
    let r : Bytes = rec_entries ∷ encode_entries (e ∷ es) in
    let next : index + 1 ≡ index + 0 + 1 = omega arith in
    (
      stated ++ frame r,
      ground (
        arith,
        append-first index term,
        append-second index term hs,
        append_record-frame stated r w.fits,
      ),
      Holds-frame stated r (imaged hs index term []) (imaged hs index term (e ∷ es)) w.fits
          (apply_record-entries (e ∷ es) (imaged hs index term []) w.few w.storable
            (subst (λ k. Indexed k (e ∷ es)) next w.consecutive))
          (stated-Holds hs index term (e ∷ es) w),
    )

-- Where the hard state and the boundary are words and the entries are consecutive behind the
-- boundary and fit one record, Rewrite succeeds, and opening the new file gives the storage with
-- its last index and exactly the hard state, the boundary and the entries that were given.
pub open_storage-rewrite_file :
    (hs : HardState) (index term : ℕ) (ents : List Entry) (s : Storage)
    → IsImage hs index term ents
    → (s' : Storage) × (rewrite_file hs index term ents s ≡ some s')
      × Stores s' (imaged hs index term ents)
      × (open_storage s'.file ≡ go_on (s', imaged hs index term ents))
unfolding rewrite_file
open_storage-rewrite_file hs index term ents s w =
    let (image, e, held) = image-Holds hs index term ents w in
    let s' : Storage = record { file = image; last_index = index + length ents } in
    let kept : Stores s' (imaged hs index term ents) = record {
      holds = held;
      last_is = refl;
      in_range = w.in_range;
    } in
    (
      s',
      ground (arith, e, w.in_range),
      kept,
      open_storage-Stores s' (imaged hs index term ents) kept,
    )
