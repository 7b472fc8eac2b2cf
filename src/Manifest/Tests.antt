-- ===== src/Manifest/Tests.antt =====
-- The theorems on the manifest at concrete inputs.
use basalt.Prelude.{
  ℕ, ◌≡◌, refl, inl, inr, some, [], ◌∷◌, arith, ◌+◌, ◌≤◌, bytes_compare, le_value, true, false,
  Bytes,
}
use basalt.Manifest.Edit.{FileMeta, VersionEdit, encode, decode_edit}
use basalt.Manifest.Edit.Fields.{IsFileMeta, IsEdit}
use basalt.Keys.{compare_keys, user_key, trailer_of}
use basalt.Keys.Before.{before}
use basalt.Manifest.Version.{
  Version, apply_edit, snapshot, no_version, numbered, is_live, remove_file, delete_at, delete_all,
  append_at, add_all, in_order, all_in_order, insert_newest, sort_newest, insert_smallest,
  sort_smallest, apart, settle_deeper, settle, edited, not_gt, settle_edit,
}
use basalt.Manifest.Version.Disjoint.{InOrder}
use basalt.Manifest.Version.WellFormed.{IsVersion, apply_edit-IsVersion}
use basalt.Manifest.Version.Snapshot.{apply_edit-snapshot}
use basalt.Manifest.Version.Counts.{one, count, tally, deletions, tally-apply_edit}
use basalt.Manifest.Edit.RoundTrip.{decode_edit-encode}

abbrev low : Bytes
low = 97 ∷ 1 ∷ 5 ∷ 0 ∷ 0 ∷ 0 ∷ 0 ∷ 0 ∷ 0 ∷ []

abbrev high : Bytes
high = 98 ∷ 1 ∷ 4 ∷ 0 ∷ 0 ∷ 0 ∷ 0 ∷ 0 ∷ 0 ∷ []

abbrev table : FileMeta
table = record { level = 1; file_num = 300; size = 4096; smallest = low; largest = high }

-- A compaction of table 12 of level 0 into table 300 of level 1, without a log number.
abbrev compacts : VersionEdit
compacts = record {
  has_log_number = false;
  log_number = 0;
  has_next_file_num = true;
  next_file_num = 301;
  has_last_seq = true;
  last_seq = 70000;
  add_files = table ∷ [];
  delete_files = record { level = 0; file_num = 12 } ∷ [];
}

table-IsFileMeta : IsFileMeta table
table-IsFileMeta = record {
  level_in = omega arith;
  file_num_fits = omega arith;
  size_fits = omega arith;
  smallest_fits = omega arith;
  largest_fits = omega arith;
  smallest_key = omega arith;
  largest_key = omega arith;
}

compacts-IsEdit : IsEdit compacts
compacts-IsEdit = record {
  log_number = (omega arith, inr refl);
  next_file_num = (omega arith, inl refl);
  last_seq = (omega arith, inl refl);
  adds = (table-IsFileMeta, tt);
  deletes = (record { level_in = omega arith; file_num_fits = omega arith }, tt);
}

decode_edit-encode_example : decode_edit (encode compacts []) ≡ some compacts
decode_edit-encode_example = decode_edit-encode compacts compacts-IsEdit

-- Table 12 in level 0, with a table of a higher range in level 1.
abbrev flushed_table : FileMeta
flushed_table = record { level = 0; file_num = 12; size = 4096; smallest = low; largest = high }

abbrev higher : FileMeta
higher = record {
  level = 1;
  file_num = 9;
  size = 4096;
  smallest = 99 ∷ 1 ∷ 5 ∷ 0 ∷ 0 ∷ 0 ∷ 0 ∷ 0 ∷ 0 ∷ [];
  largest = 100 ∷ 1 ∷ 5 ∷ 0 ∷ 0 ∷ 0 ∷ 0 ∷ 0 ∷ 0 ∷ [];
}

abbrev two_levels : Version
two_levels = record { files = (flushed_table ∷ []) ∷ (higher ∷ []) ∷ [] ∷ [] ∷ [] ∷ [] ∷ [] ∷ [] }

abbrev compacted : Version
compacted = record { files = [] ∷ (table ∷ higher ∷ []) ∷ [] ∷ [] ∷ [] ∷ [] ∷ [] ∷ [] }

compacts_them : apply_edit two_levels compacts ≡ edited compacted
unfolding apply_edit settle_edit not_gt numbered is_live remove_file delete_at delete_all append_at
    add_all in_order all_in_order insert_newest sort_newest insert_smallest sort_smallest apart
    settle_deeper settle before compare_keys user_key trailer_of bytes_compare le_value
compacts_them = refl

flushed_table-InOrder : InOrder flushed_table × InOrder higher
unfolding in_order not_gt compare_keys user_key trailer_of bytes_compare le_value
flushed_table-InOrder = (refl, refl)

two_levels_once : (n : ℕ) → tally n two_levels.files ≤ 1
unfolding tally count one
two_levels_once n = ground arith

two_levels-IsVersion : IsVersion two_levels
two_levels-IsVersion = record {
  levels = refl;
  placed = (
    ((flushed_table-InOrder.0, refl), tt),
    (((flushed_table-InOrder.1, refl), tt), (tt, (tt, (tt, (tt, (tt, tt)))))),
  );
  once = two_levels_once;
  newest = (tt, tt);
  disjoint = ((tt, tt), (tt, (tt, (tt, (tt, (tt, tt))))));
}

apply_edit-IsVersion_example : IsVersion compacted
apply_edit-IsVersion_example =
    apply_edit-IsVersion two_levels compacted compacts two_levels-IsVersion compacts_them

tally-apply_edit_example :
    (tally 300 compacted.files + deletions 300 compacts.delete_files
      ≡ tally 300 two_levels.files + count 300 compacts.add_files)
    × (tally 300 compacted.files ≤ 1)
tally-apply_edit_example =
    tally-apply_edit 300 two_levels compacted compacts (two_levels_once 300) compacts_them

apply_edit-snapshot_example : apply_edit no_version (snapshot two_levels) ≡ edited two_levels
apply_edit-snapshot_example = apply_edit-snapshot two_levels two_levels-IsVersion
