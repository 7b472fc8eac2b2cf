-- ===== src/Raft/Storage/Codec.antt =====
-- internal/raft/storage.go: encodeEntries and decodeEntries.
use mathlib.Core.List.{append-nil, append_assoc}
use basalt.Prelude.{
  ℕ, ◌<◌, ◌^◌, ◌≡◌, ◌≢◌, refl, Option, none, some, List, [], ◌∷◌, ◌++◌, arith, Bytes, IsU64, length,
  take, drop, All, length-append, take-append_left, drop-append_left, le_bytes, le_value-le_bytes,
  length-le_bytes, take-le_bytes, drop-le_bytes, if◌then◌else◌, ◌==◌,
}
use basalt.Wal.Record.{go_on}
use basalt.Raft.Types.{Entry, EntryType, entry_normal, entry_conf_change}
use basalt.Raft.Drain.{bytes_of}
use basalt.Raft.Storage.{
  type_byte, type_of_byte, encode_entry, encode_all, encode_entries, decode_entry, decode_all,
  decode_entries,
}

-- An entry that the format represents: words, a length of four bytes, and no payload that is empty
-- and yet not nil.
pub record IsStorable (e : Entry) : Type 0 where
  pub index_fits : IsU64 e.index
  pub term_fits : IsU64 e.term
  pub payload_fits : length (bytes_of e.payload) < 2 ^ 32
  pub nil_or_more : e.payload ≢ some []

type_of_byte-type_byte : (t : EntryType) → type_of_byte (type_byte t) ≡ t
unfolding type_of_byte type_byte
type_of_byte-type_byte entry_normal = refl
type_of_byte-type_byte entry_conf_change = refl

-- The header, cut at its fields.
cuts :
    (i t l : ℕ) (body : Bytes)
    → (take 8 (le_bytes 8 i ++ (le_bytes 8 t ++ (le_bytes 4 l ++ body))) ≡ le_bytes 8 i)
      × (take 8 (drop 8 (le_bytes 8 i ++ (le_bytes 8 t ++ (le_bytes 4 l ++ body)))) ≡ le_bytes 8 t)
      × (take 4 (drop 16 (le_bytes 8 i ++ (le_bytes 8 t ++ (le_bytes 4 l ++ body)))) ≡ le_bytes 4 l)
      × (drop 20 (le_bytes 8 i ++ (le_bytes 8 t ++ (le_bytes 4 l ++ body))) ≡ body)
unfolding le_bytes
cuts i t l body = (refl, refl, refl, refl)

payload_again :
    (p : Option Bytes)
    → p ≢ some []
    → (if length (bytes_of p) == 0 then none else some (bytes_of p)) ≡ p
payload_again none h = refl
payload_again (some []) h = absurd (h refl)
payload_again (some (b ∷ bs)) h = ground arith

encode_entry_more :
    (e : Entry) (rest : Bytes)
    → encode_entry e ++ rest
      ≡ type_byte e.type
        ∷ (le_bytes 8 e.index
            ++ (le_bytes 8 e.term
                ++ (le_bytes 4 (length (bytes_of e.payload)) ++ (bytes_of e.payload ++ rest))))
unfolding encode_entry
encode_entry_more e rest =
    let p : Bytes = bytes_of e.payload in
    rw (
      append_assoc (le_bytes 8 e.index) (le_bytes 8 e.term ++ (le_bytes 4 (length p) ++ p)) rest,
      append_assoc (le_bytes 8 e.term) (le_bytes 4 (length p) ++ p) rest,
      append_assoc (le_bytes 4 (length p)) p rest,
    )

decode_entry-encode_entry :
    (e : Entry) (rest : Bytes)
    → IsStorable e
    → decode_entry (encode_entry e ++ rest) ≡ go_on (e, rest)
decode_entry-encode_entry e rest w =
    let p : Bytes = bytes_of e.payload in
    let (index, term, len, body) = cuts e.index e.term (length p) (p ++ rest) in
    rw (encode_entry_more e rest) (
      unfold decode_entry in
      ground (
        arith,
        index,
        term,
        len,
        body,
        payload_again e.payload w.nil_or_more,
        type_of_byte-type_byte e.type,
        le_value-le_bytes 8 e.index w.index_fits,
        le_value-le_bytes 8 e.term w.term_fits,
        le_value-le_bytes 4 (length p) w.payload_fits,
        take-append_left p rest,
        drop-append_left p rest,
        length-append p rest,
        length-append (le_bytes 8 e.index)
            (le_bytes 8 e.term ++ (le_bytes 4 (length p) ++ (p ++ rest))),
        length-append (le_bytes 8 e.term) (le_bytes 4 (length p) ++ (p ++ rest)),
        length-append (le_bytes 4 (length p)) (p ++ rest),
        length-le_bytes 8 e.index,
        length-le_bytes 8 e.term,
        length-le_bytes 4 (length p),
      ))

decode_all-encode_all :
    (es : List Entry) (rest : Bytes)
    → All IsStorable es
    → decode_all (length es) (encode_all es ++ rest) ≡ go_on (es, rest)
unfolding decode_all encode_all
decode_all-encode_all [] rest w = refl
decode_all-encode_all (e ∷ es) rest w = rw (append_assoc (encode_entry e) (encode_all es) rest) (
    ground (
      arith,
      decode_entry-encode_entry e (encode_all es ++ rest) w.0,
      decode_all-encode_all es rest w.1,
    ))

-- Fewer than 2^32 entries that the format represents decode from their encoding.
pub decode_entries-encode_entries :
    (es : List Entry)
    → length es < 2 ^ 32
    → All IsStorable es
    → decode_entries (encode_entries es) ≡ go_on es
unfolding decode_entries encode_entries
decode_entries-encode_entries es h w = ground (
  arith,
  length-append (le_bytes 4 (length es)) (encode_all es),
  length-le_bytes 4 (length es),
  take-le_bytes 4 (length es) (encode_all es),
  drop-le_bytes 4 (length es) (encode_all es),
  le_value-le_bytes 4 (length es) h,
  append-nil (encode_all es),
  decode_all-encode_all es [] w,
)
