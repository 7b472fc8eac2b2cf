-- ===== src/Manifest/VersionSet/Tests.antt =====
-- The theorems on the version set at a concrete input: a set that Open made, and the flush of a table.
use basalt.Prelude.{
  ℕ, ◌<◌, ◌≤◌, ◌≡◌, refl, Option, some, none, List, [], ◌∷◌, ◌++◌, arith, Bool, true, false, Bytes,
  inl, inr, bytes_compare, le_bytes, le_value, put_uvarint, uvarint,
}
use basalt.Keys.{compare_keys, user_key, trailer_of, append_length_prefixed}
use basalt.Keys.Before.{before}
use basalt.Wal.Record.{append_record, record_crc, crc_update}
use basalt.Wal.Segments.Restart.{empty_tail}
use basalt.Manifest.Edit.{
  FileMeta, VersionEdit, no_edit, encode, encode_counter, encode_add, encode_adds, encode_delete,
  encode_deletes, set_log_number, set_next_file_num, set_last_seq,
}
use basalt.Manifest.Edit.Fields.{IsEdit}
use basalt.Manifest.Version.{
  no_version, snapshot, all_files, apply_edit, numbered, is_live, remove_file, delete_at,
  delete_all, append_at, add_all, in_order, all_in_order, insert_newest, sort_newest,
  insert_smallest, sort_smallest, apart, settle_deeper, settle, not_gt, settle_edit,
}
use basalt.Manifest.Version.Counts.{tally, count}
use basalt.Manifest.VersionSet.{
  VersionSet, Replayed, replay, rotation, rotate, stamp, Applied, applied, failing, panics, commit,
  rotate_when_due, log_edit, apply,
}
use basalt.Manifest.VersionSet.Stamps.{Sound}
use basalt.Manifest.VersionSet.Durable.{Durable-Agrees, rotate-Durable, replay-apply}

-- Open in a fresh directory, before the rotation.
abbrev unwritten : VersionSet
unwritten = record {
  cur = no_version;
  log_number = 0;
  next_file_num = 1;
  last_seq = 0;
  manifest_num = 0;
  file = [];
  size = 0;
  snapshot_size = 0;
  rotate_size = 1000;
  failed = false;
}

no_version_once : (n : ℕ) → tally n no_version.files ≤ 1
unfolding tally count
no_version_once n = ground arith

unwritten-Sound : Sound unwritten
unwritten-Sound = record {
  is_version = record {
    levels = refl;
    placed = (tt, (tt, (tt, (tt, (tt, (tt, (tt, tt)))))));
    once = no_version_once;
    newest = tt;
    disjoint = (tt, (tt, (tt, (tt, (tt, (tt, tt))))));
  };
  files = (tt, (tt, (tt, (tt, (tt, (tt, (tt, tt)))))));
  log_word = omega arith;
  next_word = omega arith;
  seq_word = omega arith;
}

abbrev set_of : Option VersionSet → VersionSet
set_of none = unwritten
set_of (some vs) = vs

abbrev set_behind : Applied → VersionSet
set_behind (applied vs) = vs
set_behind (failing vs) = vs
set_behind panics = unwritten

abbrev table : FileMeta
table = record {
  level = 0;
  file_num = 2;
  size = 4096;
  smallest = 97 ∷ 1 ∷ 5 ∷ 0 ∷ 0 ∷ 0 ∷ 0 ∷ 0 ∷ 0 ∷ [];
  largest = 98 ∷ 1 ∷ 4 ∷ 0 ∷ 0 ∷ 0 ∷ 0 ∷ 0 ∷ 0 ∷ [];
}

-- A flush: the table, and the log number behind it.
abbrev flush : VersionEdit
flush = record no_edit { has_log_number = true; log_number = 3; add_files = table ∷ [] }

flush-IsEdit : IsEdit flush
flush-IsEdit = record {
  log_number = (omega arith, inl refl);
  next_file_num = (omega arith, inr refl);
  last_seq = (omega arith, inr refl);
  adds = (
    record {
      level_in = omega arith;
      file_num_fits = omega arith;
      size_fits = omega arith;
      smallest_fits = omega arith;
      largest_fits = omega arith;
      smallest_key = omega arith;
      largest_key = omega arith;
    },
    tt,
  );
  deletes = tt;
}

abbrev opened : VersionSet
opened = set_of (rotate unwritten)

opens : rotate unwritten ≡ some opened
unfolding rotate rotation snapshot all_files set_log_number set_next_file_num set_last_seq encode
    encode_counter encode_add encode_adds encode_delete encode_deletes append_length_prefixed
    put_uvarint append_record record_crc crc_update le_bytes basalt.Prelude.uvarint_bytes
opens = refl

abbrev flushed : VersionSet
flushed = set_behind (apply flush opened)

flushes : apply flush opened ≡ applied flushed
unfolding opens apply log_edit rotate_when_due commit stamp apply_edit settle_edit not_gt numbered
    is_live remove_file delete_at delete_all append_at add_all in_order all_in_order insert_newest
    sort_newest insert_smallest sort_smallest apart settle_deeper settle before compare_keys
    user_key trailer_of bytes_compare le_value
flushes = refl

replay-apply_example :
    (s : Replayed) × (replay flushed.manifest_num (flushed.file ++ []) ≡ inr s)
    × (s.version ≡ flushed.cur)
    × (s.log_number ≡ flushed.log_number)
    × (s.last_seq ≡ flushed.last_seq)
replay-apply_example =
    replay-apply flush opened flushed []
      (Durable-Agrees opened (rotate-Durable unwritten opened unwritten-Sound opens)) flush-IsEdit
      flushes empty_tail
