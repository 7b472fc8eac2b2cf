-- ===== src/Raft/Storage/Saves.antt =====
-- internal/raft/storage.go: what the file holds after SaveHardState, AppendEntries, SaveReady and
-- Rewrite.
use mathlib.Core.List.{append-nil, append_assoc}
use basalt.Prelude.{
  ℕ, suc, ◌+◌, ◌-◌, ◌≤◌, ◌<◌, ◌^◌, ◌≡◌, refl, sym, ap, subst, Option, none, some, List, [], ◌∷◌,
  ◌++◌, arith, Bytes, IsU64, length, take, drop, All, length-append, length-take, take_all,
  le_bytes, le_value-le_bytes, length-le_bytes, leb, ltb, if◌then◌else◌, Bool, true, Bool-cases,
  inl, inr,
}
use basalt.Wal.Record.{go_on}
use basalt.Wal.Record.Scan.{Fits, frame}
use basalt.Raft.Types.{Entry, HardState, Ready, Indexed}
use basalt.Raft.Start.{Recovered}
use basalt.Raft.Storage.{
  Storage, rec_hard_state, rec_entries, rec_truncate, encode_entries, place_entry, place_entries,
  apply_hard_state, apply_entries_record, apply_truncate, apply_record, open_storage,
  hard_state_bytes, save_hard_state, record_truncation, final_index, append_entries, save_rest,
  save_ready,
}
use basalt.Raft.Storage.Codec.{IsStorable, decode_entries-encode_entries}
use basalt.Raft.Storage.Recovery.{
  Holds, Stores, Holds-frame, write_record-frame, open_storage-Stores,
}

pub record IsWords (hs : HardState) : Type 0 where
  pub term_fits : IsU64 hs.term
  pub vote_fits : IsU64 hs.vote
  pub commit_fits : IsU64 hs.commit

cuts :
    (a b c : ℕ)
    → (take 8 (le_bytes 8 a ++ (le_bytes 8 b ++ le_bytes 8 c)) ≡ le_bytes 8 a)
      × (take 8 (drop 8 (le_bytes 8 a ++ (le_bytes 8 b ++ le_bytes 8 c))) ≡ le_bytes 8 b)
      × (take 8 (drop 16 (le_bytes 8 a ++ (le_bytes 8 b ++ le_bytes 8 c))) ≡ le_bytes 8 c)
      × (length (le_bytes 8 a ++ (le_bytes 8 b ++ le_bytes 8 c)) ≡ 24)
unfolding le_bytes
cuts a b c = (refl, refl, refl, refl)

pub apply_record-hard_state :
    (rec : Recovered) (hs : HardState)
    → IsWords hs
    → apply_record rec (rec_hard_state ∷ hard_state_bytes hs)
      ≡ go_on (record rec { hard_state = hs })
unfolding apply_record apply_hard_state hard_state_bytes
apply_record-hard_state rec hs w =
    let (a, b, c, len) = cuts hs.term hs.vote hs.commit in
    ground (
      arith,
      a,
      b,
      c,
      len,
      le_value-le_bytes 8 hs.term w.term_fits,
      le_value-le_bytes 8 hs.vote w.vote_fits,
      le_value-le_bytes 8 hs.commit w.commit_fits,
    )

pub length-hard_state_bytes : (hs : HardState) → length (hard_state_bytes hs) ≡ 24
unfolding hard_state_bytes le_bytes
length-hard_state_bytes hs = refl

pub save_hard_state-Stores :
    (hs : HardState) (s : Storage) (rec : Recovered)
    → IsWords hs
    → Stores s rec
    → (s' : Storage) × (save_hard_state hs s ≡ some s') × Stores s' (record rec { hard_state = hs })
unfolding save_hard_state
save_hard_state-Stores hs s rec h w =
    let p : Bytes = rec_hard_state ∷ hard_state_bytes hs in
    let fits : Fits p = omega (arith, length-hard_state_bytes hs) in
    (
      record s { file = s.file ++ frame p },
      write_record-frame rec_hard_state (hard_state_bytes hs) s fits,
      record {
        holds =
            Holds-frame s.file p rec (record rec { hard_state = hs }) fits
              (apply_record-hard_state rec hs h) w.holds;
        last_is = w.last_is;
        in_range = w.in_range;
      },
    )

-- Entries that follow what is held are put behind it.
place_entries-append :
    (es : List Entry) (rec : Recovered)
    → Indexed (rec.snap_index + length rec.entries + 1) es
    → place_entries es rec ≡ go_on (record rec { entries = rec.entries ++ es })
unfolding place_entries place_entry
place_entries-append [] rec w = ground (arith, append-nil rec.entries)
place_entries-append (e ∷ es) rec w =
    let next : Recovered = record rec { entries = rec.entries ++ (e ∷ []) } in
    let more : Indexed (next.snap_index + length next.entries + 1) es =
      subst (λ k. Indexed k es) (omega (arith, length-append rec.entries (e ∷ []))) w.1 in
    ground (arith, w.0, place_entries-append es next more, append_assoc rec.entries (e ∷ []) es)

pub apply_record-entries :
    (es : List Entry) (rec : Recovered)
    → length es < 2 ^ 32
    → All IsStorable es
    → Indexed (rec.snap_index + length rec.entries + 1) es
    → apply_record rec (rec_entries ∷ encode_entries es)
      ≡ go_on (record rec { entries = rec.entries ++ es })
unfolding apply_record apply_entries_record
apply_record-entries es rec h w k =
    ground (arith, decode_entries-encode_entries es h w, place_entries-append es rec k)

apply_record-truncate :
    (from : ℕ) (rec : Recovered)
    → rec.snap_index < from
    → from ≤ rec.snap_index + length rec.entries
    → rec.snap_index + length rec.entries < 2 ^ 63
    → apply_record rec (rec_truncate ∷ le_bytes 8 from)
      ≡ go_on (record rec { entries = take (from - rec.snap_index - 1) rec.entries })
unfolding apply_record apply_truncate
apply_record-truncate from rec above held range =
    ground (arith, length-le_bytes 8 from, le_value-le_bytes 8 from (omega arith))

final_index-Indexed :
    (e : Entry) (es : List Entry) (k : ℕ) → Indexed k (e ∷ es) → final_index e es ≡ k + length es
unfolding final_index
final_index-Indexed e [] k w = omega (arith, w.0)
final_index-Indexed e (f ∷ es) k w = omega (arith, final_index-Indexed f es (suc k) w.1)

-- What the entries of a Ready must be: consecutive, above the snapshot boundary, without a gap
-- behind what is held, and small enough for one record.
pub record FollowOn (e : Entry) (es : List Entry) (rec : Recovered) : Type 0 where
  pub above : rec.snap_index < e.index
  pub reaches : e.index ≤ rec.snap_index + length rec.entries + 1
  pub consecutive : Indexed e.index (e ∷ es)
  pub few : length (e ∷ es) < 2 ^ 32
  pub storable : All IsStorable (e ∷ es)
  pub fits : Fits (rec_entries ∷ encode_entries (e ∷ es))
  pub in_range : e.index + length es < 2 ^ 63

abbrev pub Follow : List Entry → Recovered → Type 0
Follow [] rec = Unit
Follow (e ∷ es) rec = FollowOn e es rec

-- The entries below the first of the new ones.
abbrev pub cut_at : ℕ → Recovered → Recovered
cut_at index rec = record rec { entries = take (index - rec.snap_index - 1) rec.entries }

-- The specification of AppendEntries: the new entries replace what stands at their indices and
-- everything behind.
abbrev pub saved_entries : List Entry → Recovered → Recovered
saved_entries [] rec = rec
saved_entries (e ∷ es) rec = record rec {
  entries = take (e.index - rec.snap_index - 1) rec.entries ++ (e ∷ es);
}

-- The specification of SaveReady.
abbrev pub saved_state : Option HardState → Recovered → Recovered
saved_state none rec = rec
saved_state (some hs) rec = record rec { hard_state = hs }

-- The truncation record of AppendEntries, where one is needed.
truncated :
    (e : Entry) (es : List Entry) (s : Storage) (rec : Recovered)
    → FollowOn e es rec
    → Stores s rec
    → (cut : Storage) × ((if leb e.index s.last_index then record_truncation e.index s else some s)
        ≡ some cut)
      × Holds cut.file (cut_at e.index rec)
unfolding record_truncation
truncated e es s rec h w = elim (Bool-cases (leb e.index s.last_index)) [
  | inl overlaps ↦
      let p : Bytes = rec_truncate ∷ le_bytes 8 e.index in
      let fits : Fits p = omega (arith, length-le_bytes 8 e.index) in
      (
        record s { file = s.file ++ frame p },
        ground (arith, overlaps, write_record-frame rec_truncate (le_bytes 8 e.index) s fits),
        Holds-frame s.file p rec (cut_at e.index rec) fits
            (apply_record-truncate e.index rec h.above (ground (arith, overlaps, w.last_is))
              w.in_range)
            w.holds,
      )
  | inr behind ↦
      let all : take (e.index - rec.snap_index - 1) rec.entries ≡ rec.entries =
        take_all (e.index - rec.snap_index - 1) rec.entries
          (ground (arith, behind, w.last_is, h.reaches)) in
      (
        s,
        ground (arith, behind),
        subst (Holds s.file) (ap (λ es. record rec { entries = es }) (sym all)) w.holds,
      )
]

pub append_entries-Stores :
    (es : List Entry) (s : Storage) (rec : Recovered)
    → Follow es rec
    → Stores s rec
    → (s' : Storage) × (append_entries es s ≡ some s') × Stores s' (saved_entries es rec)
unfolding append_entries
append_entries-Stores [] s rec h w = (s, refl, w)
append_entries-Stores (e ∷ es) s rec h w =
    let (cut, c, held) = truncated e es s rec h w in
    let base : Recovered = cut_at e.index rec in
    let p : Bytes = rec_entries ∷ encode_entries (e ∷ es) in
    let len : rec.snap_index + length base.entries + 1 ≡ e.index =
      omega (arith, length-take (e.index - rec.snap_index - 1) rec.entries, h.above, h.reaches) in
    let joined : length (base.entries ++ (e ∷ es)) ≡ length base.entries + length (e ∷ es) =
      length-append base.entries (e ∷ es) in
    (
      record { file = cut.file ++ frame p; last_index = final_index e es },
      ground (arith, c, write_record-frame rec_entries (encode_entries (e ∷ es)) cut h.fits),
      record {
        holds =
            Holds-frame cut.file p base (saved_entries (e ∷ es) rec) h.fits
              (apply_record-entries (e ∷ es) base h.few h.storable
                (subst (λ k. Indexed k (e ∷ es)) (sym len) h.consecutive))
              held;
        last_is = omega (arith, joined, len, final_index-Indexed e es e.index h.consecutive);
        in_range = omega (arith, joined, len, h.in_range);
      },
    )

abbrev pub WordsIn : Option HardState → Type 0
WordsIn none = Unit
WordsIn (some hs) = IsWords hs

-- Whether a Ready has something to persist.
abbrev pub changes : List Entry → Option HardState → Bool
changes es none = ltb 0 (length es)
changes es (some hs) = true

save_rest-Stores :
    (o : Option HardState) (es : List Entry) (s : Storage) (rec : Recovered)
    → WordsIn o
    → Stores s rec
    → (s' : Storage) × (save_rest o es s ≡ some (changes es o, s')) × Stores s' (saved_state o rec)
unfolding save_rest
save_rest-Stores none es s rec h w = (s, refl, w)
save_rest-Stores (some hs) es s rec h w =
    let (s', e, w') = save_hard_state-Stores hs s rec h w in (s', ground (arith, e), w')

-- Persisting a Ready whose entries are consecutive, above the snapshot boundary and without a gap
-- behind what is held, and whose numbers fit, succeeds and syncs exactly when there is something
-- to persist. Opening the file afterwards gives the storage with its last index and the state held
-- before, the new entries in the place of those from their first index on and the new hard state,
-- if there is one, in the place of the old.
pub open_storage-save_ready :
    (rd : Ready) (s : Storage) (rec : Recovered)
    → Follow rd.entries rec
    → WordsIn rd.hard_state
    → Stores s rec
    → (s' : Storage) × (save_ready rd s ≡ some (changes rd.entries rd.hard_state, s'))
      × Stores s' (saved_state rd.hard_state (saved_entries rd.entries rec))
      × (open_storage s'.file
          ≡ go_on (s', saved_state rd.hard_state (saved_entries rd.entries rec)))
unfolding save_ready
open_storage-save_ready rd s rec h k w =
    let (mid, a, held) = append_entries-Stores rd.entries s rec h w in
    let (s', b, kept) =
      save_rest-Stores rd.hard_state rd.entries mid (saved_entries rd.entries rec) k held in
    (
      s',
      rw a b,
      kept,
      open_storage-Stores s' (saved_state rd.hard_state (saved_entries rd.entries rec)) kept,
    )
