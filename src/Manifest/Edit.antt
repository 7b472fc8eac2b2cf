-- ===== src/Manifest/Edit.antt =====
-- internal/manifest/edit.go: version edits and their encoding.
pub mod Fields
pub mod RoundTrip
use basalt.Prelude.{
  ℕ, zero, suc, ◌<◌, ◌≤◌, ◌≡◌, Option, none, some, List, [], ◌∷◌, ◌++◌, Bool, true, false, ltb, leb,
  ◌==◌, ◌||◌, if◌then◌else◌, Bytes, IsU64, length, All, put_uvarint, uvarint,
}
use basalt.Keys.{append_length_prefixed, decode_length_prefixed, trailer_len}

abbrev pub num_levels : ℕ
num_levels = 7

pub record FileMeta : Type 0 where
  pub level : ℕ
  pub file_num : ℕ
  pub size : ℕ
  pub smallest : Bytes
  pub largest : Bytes

pub record DeletedFile : Type 0 where
  pub level : ℕ
  pub file_num : ℕ

pub record VersionEdit : Type 0 where
  pub has_log_number : Bool
  pub log_number : ℕ
  pub has_next_file_num : Bool
  pub next_file_num : ℕ
  pub has_last_seq : Bool
  pub last_seq : ℕ
  pub add_files : List FileMeta
  pub delete_files : List DeletedFile

-- The zero value.
abbrev pub no_edit : VersionEdit
no_edit = record {
  has_log_number = false;
  log_number = 0;
  has_next_file_num = false;
  next_file_num = 0;
  has_last_seq = false;
  last_seq = 0;
  add_files = [];
  delete_files = [];
}

unfoldable pub set_log_number : ℕ → VersionEdit → VersionEdit
set_log_number v e = record e { has_log_number = true; log_number = v }

unfoldable pub set_next_file_num : ℕ → VersionEdit → VersionEdit
set_next_file_num v e = record e { has_next_file_num = true; next_file_num = v }

unfoldable pub set_last_seq : ℕ → VersionEdit → VersionEdit
set_last_seq v e = record e { has_last_seq = true; last_seq = v }

abbrev pub tag_log_number : ℕ
tag_log_number = 1

abbrev pub tag_next_file_num : ℕ
tag_next_file_num = 2

abbrev pub tag_last_seq : ℕ
tag_last_seq = 3

abbrev pub tag_add_file : ℕ
tag_add_file = 4

abbrev pub tag_delete_file : ℕ
tag_delete_file = 5

-- A counter, where it is there.
unfoldable pub encode_counter : Bool → ℕ → ℕ → Bytes
encode_counter false tag v = []
encode_counter true tag v = put_uvarint tag ++ put_uvarint v

unfoldable pub encode_add : FileMeta → Bytes
encode_add f =
    put_uvarint tag_add_file
    ++ (put_uvarint f.level
        ++ (put_uvarint f.file_num
            ++ (put_uvarint f.size
                ++ (append_length_prefixed [] f.smallest ++ append_length_prefixed [] f.largest))))

unfoldable pub encode_adds : List FileMeta → Bytes
encode_adds [] = []
encode_adds (f ∷ fs) = encode_add f ++ encode_adds fs

unfoldable pub encode_delete : DeletedFile → Bytes
encode_delete d = put_uvarint tag_delete_file ++ (put_uvarint d.level ++ put_uvarint d.file_num)

unfoldable pub encode_deletes : List DeletedFile → Bytes
encode_deletes [] = []
encode_deletes (d ∷ ds) = encode_delete d ++ encode_deletes ds

unfoldable pub encode : VersionEdit → Bytes → Bytes
encode e dst =
    dst
    ++ (encode_counter e.has_log_number tag_log_number e.log_number
        ++ (encode_counter e.has_next_file_num tag_next_file_num e.next_file_num
            ++ (encode_counter e.has_last_seq tag_last_seq e.last_seq
                ++ (encode_adds e.add_files ++ encode_deletes e.delete_files))))

-- `none` is ErrCorrupt, in every function that decodes.
unfoldable pub decode_level : Bytes → Option (ℕ × Bytes)
decode_level buf = elim (uvarint buf) [
  | none ↦ none
  | some (l, rest) ↦ if leb num_levels l then none else some (l, rest)
]

-- The cases of the switch in decodeEdit.
unfoldable pub decode_counter : (ℕ → VersionEdit) → Bytes → Option (VersionEdit × Bytes)
decode_counter set_to buf = elim (uvarint buf) [
  | none ↦ none
  | some (v, rest) ↦ some (set_to v, rest)
]

unfoldable pub decode_add : VersionEdit → Bytes → Option (VersionEdit × Bytes)
decode_add e buf = elim (decode_level buf) [
  | none ↦ none
  | some (level, r1) ↦ elim (uvarint r1) [
    | none ↦ none
    | some (file_num, r2) ↦ elim (uvarint r2) [
      | none ↦ none
      | some (size, r3) ↦ elim (decode_length_prefixed r3) [
        | none ↦ none
        | some (s, r4) ↦ elim (decode_length_prefixed r4) [
          | none ↦ none
          | some (l, r5) ↦
              let added : FileMeta = record {
                level = level;
                file_num = file_num;
                size = size;
                smallest = s;
                largest = l;
              } in
              if ltb (length s) trailer_len || ltb (length l) trailer_len
              then none
              else some (record e { add_files = e.add_files ++ (added ∷ []) }, r5)
        ]
      ]
    ]
  ]
]

unfoldable pub decode_delete : VersionEdit → Bytes → Option (VersionEdit × Bytes)
decode_delete e buf = elim (decode_level buf) [
  | none ↦ none
  | some (level, r1) ↦ elim (uvarint r1) [
    | none ↦ none
    | some (file_num, r2) ↦
        let deleted : DeletedFile = record { level = level; file_num = file_num } in
        some (record e { delete_files = e.delete_files ++ (deleted ∷ []) }, r2)
  ]
]

-- One round of the loop of decodeEdit.
unfoldable pub decode_field : VersionEdit → Bytes → Option (VersionEdit × Bytes)
decode_field e buf = elim (uvarint buf) [
  | none ↦ none
  | some (tag, rest) ↦
      if tag == tag_log_number
      then decode_counter (λ v. set_log_number v e) rest
      else if tag == tag_next_file_num
      then decode_counter (λ v. set_next_file_num v e) rest
      else if tag == tag_last_seq
      then decode_counter (λ v. set_last_seq v e) rest
      else if tag == tag_add_file
      then decode_add e rest
      else if tag == tag_delete_file
      then decode_delete e rest
      else none
]

-- The loop, at most `fuel` rounds of it; `none` also when they do not suffice.
unfoldable pub decode_fields : ℕ → VersionEdit → Bytes → Option VersionEdit
decode_fields fuel e [] = some e
decode_fields zero e (b ∷ buf) = none
decode_fields (suc fuel) e (b ∷ buf) = elim (decode_field e (b ∷ buf)) [
  | none ↦ none
  | some (e', rest) ↦ decode_fields fuel e' rest
]

-- Every round reads a tag, one byte at least.
unfoldable pub decode_edit : Bytes → Option VersionEdit
decode_edit payload = decode_fields (length payload) no_edit payload
