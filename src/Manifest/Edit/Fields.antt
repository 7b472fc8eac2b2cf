-- ===== src/Manifest/Edit/Fields.antt =====
-- One round of decodeEdit reads back one field that encode wrote.
use mathlib.Core.List.{append_assoc}
use basalt.Prelude.{
  ℕ, ◌<◌, ◌≤◌, ◌≡◌, ◌⊎◌, refl, some, [], ◌∷◌, ◌++◌, arith, Bool, true, Bytes, IsU64, length, All,
  put_uvarint, uvarint, uvarint-put_uvarint,
}
use basalt.Keys.{append_length_prefixed, trailer_len}
use basalt.Keys.Codec.{decode-append_length_prefixed}
use basalt.Manifest.Edit.{
  FileMeta, DeletedFile, VersionEdit, num_levels, set_log_number, set_next_file_num, set_last_seq,
  tag_log_number, tag_next_file_num, tag_last_seq, tag_add_file, tag_delete_file, encode_add,
  encode_delete, decode_level, decode_counter, decode_add, decode_delete, decode_field,
}

-- A file of an existing level whose numbers fit and whose bounds hold a trailer.
pub record IsFileMeta (f : FileMeta) : Type 0 where
  pub level_in : f.level < num_levels
  pub file_num_fits : IsU64 f.file_num
  pub size_fits : IsU64 f.size
  pub smallest_fits : IsU64 (length f.smallest)
  pub largest_fits : IsU64 (length f.largest)
  pub smallest_key : trailer_len ≤ length f.smallest
  pub largest_key : trailer_len ≤ length f.largest

pub record IsDeletedFile (d : DeletedFile) : Type 0 where
  pub level_in : d.level < num_levels
  pub file_num_fits : IsU64 d.file_num

-- A counter is a word, and the zero value where it is absent.
abbrev pub IsCounter : Bool → ℕ → Type 0
IsCounter has v = IsU64 v × ((has ≡ true) ⊎ (v ≡ 0))

pub record IsEdit (e : VersionEdit) : Type 0 where
  pub log_number : IsCounter e.has_log_number e.log_number
  pub next_file_num : IsCounter e.has_next_file_num e.next_file_num
  pub last_seq : IsCounter e.has_last_seq e.last_seq
  pub adds : All IsFileMeta e.add_files
  pub deletes : All IsDeletedFile e.delete_files

-- The two numbers of a counter are read one after the other.
counter_bytes :
    (tag v : ℕ) (rest : Bytes)
    → IsU64 tag
    → IsU64 v
    → (uvarint ((put_uvarint tag ++ put_uvarint v) ++ rest) ≡ some (tag, put_uvarint v ++ rest))
      × (uvarint (put_uvarint v ++ rest) ≡ some (v, rest))
counter_bytes tag v rest h k = (
  rw (append_assoc (put_uvarint tag) (put_uvarint v) rest)
      (uvarint-put_uvarint tag (put_uvarint v ++ rest) h),
  uvarint-put_uvarint v rest k,
)

pub decode_field-log_number :
    (e : VersionEdit) (v : ℕ) (rest : Bytes)
    → IsU64 v
    → decode_field e ((put_uvarint tag_log_number ++ put_uvarint v) ++ rest)
      ≡ some (set_log_number v e, rest)
unfolding decode_field decode_counter
decode_field-log_number e v rest h =
    ground (arith, counter_bytes tag_log_number v rest (omega arith) h)

pub decode_field-next_file_num :
    (e : VersionEdit) (v : ℕ) (rest : Bytes)
    → IsU64 v
    → decode_field e ((put_uvarint tag_next_file_num ++ put_uvarint v) ++ rest)
      ≡ some (set_next_file_num v e, rest)
unfolding decode_field decode_counter
decode_field-next_file_num e v rest h =
    ground (arith, counter_bytes tag_next_file_num v rest (omega arith) h)

pub decode_field-last_seq :
    (e : VersionEdit) (v : ℕ) (rest : Bytes)
    → IsU64 v
    → decode_field e ((put_uvarint tag_last_seq ++ put_uvarint v) ++ rest)
      ≡ some (set_last_seq v e, rest)
unfolding decode_field decode_counter
decode_field-last_seq e v rest h = ground (arith, counter_bytes tag_last_seq v rest (omega arith) h)

pub decode_level-put_uvarint :
    (l : ℕ) (rest : Bytes) → l < num_levels → decode_level (put_uvarint l ++ rest) ≡ some (l, rest)
unfolding decode_level
decode_level-put_uvarint l rest h = ground (arith, uvarint-put_uvarint l rest (omega arith))

encode_add_more :
    (f : FileMeta) (rest : Bytes)
    → encode_add f ++ rest
      ≡ put_uvarint tag_add_file
        ++ (put_uvarint f.level
            ++ (put_uvarint f.file_num
                ++ (put_uvarint f.size
                    ++ (append_length_prefixed [] f.smallest
                        ++ (append_length_prefixed [] f.largest ++ rest)))))
unfolding encode_add
encode_add_more f rest =
    let keys : Bytes =
      append_length_prefixed [] f.smallest ++ append_length_prefixed [] f.largest in
    let sized : Bytes = put_uvarint f.size ++ keys in
    let numbered : Bytes = put_uvarint f.file_num ++ sized in
    rw
      (
        append_assoc (put_uvarint tag_add_file) (put_uvarint f.level ++ numbered) rest,
        append_assoc (put_uvarint f.level) numbered rest,
        append_assoc (put_uvarint f.file_num) sized rest,
        append_assoc (put_uvarint f.size) keys rest,
        append_assoc (append_length_prefixed [] f.smallest) (append_length_prefixed [] f.largest)
            rest,
      )
      refl

pub decode_field-add :
    (e : VersionEdit) (f : FileMeta) (rest : Bytes)
    → IsFileMeta f
    → decode_field e (encode_add f ++ rest)
      ≡ some (record e { add_files = e.add_files ++ (f ∷ []) }, rest)
decode_field-add e f rest w =
    let r5 : Bytes = append_length_prefixed [] f.largest ++ rest in
    let r4 : Bytes = append_length_prefixed [] f.smallest ++ r5 in
    let r3 : Bytes = put_uvarint f.size ++ r4 in
    let r2 : Bytes = put_uvarint f.file_num ++ r3 in
    rw (encode_add_more f rest) (
      unfold decode_field decode_add in
      ground (
        arith,
        uvarint-put_uvarint tag_add_file (put_uvarint f.level ++ r2) (omega arith),
        decode_level-put_uvarint f.level r2 w.level_in,
        uvarint-put_uvarint f.file_num r3 w.file_num_fits,
        uvarint-put_uvarint f.size r4 w.size_fits,
        decode-append_length_prefixed f.smallest r5 w.smallest_fits,
        decode-append_length_prefixed f.largest rest w.largest_fits,
        w.smallest_key,
        w.largest_key,
      ))

pub decode_field-delete :
    (e : VersionEdit) (d : DeletedFile) (rest : Bytes)
    → IsDeletedFile d
    → decode_field e (encode_delete d ++ rest)
      ≡ some (record e { delete_files = e.delete_files ++ (d ∷ []) }, rest)
unfolding decode_field decode_delete encode_delete
decode_field-delete e d rest w =
    let numbered : Bytes = put_uvarint d.file_num in
    rw
      (
        append_assoc (put_uvarint tag_delete_file) (put_uvarint d.level ++ numbered) rest,
        append_assoc (put_uvarint d.level) numbered rest,
      )
      (ground (
        arith,
        uvarint-put_uvarint tag_delete_file (put_uvarint d.level ++ (numbered ++ rest))
            (omega arith),
        decode_level-put_uvarint d.level (numbered ++ rest) w.level_in,
        uvarint-put_uvarint d.file_num rest w.file_num_fits,
      ))
