-- ===== src/Raft/Storage/Tests.antt =====
-- The theorems on the raft storage at concrete inputs.
use basalt.Prelude.{
  ℕ, ◌≡◌, refl, inl, inr, some, none, List, [], ◌∷◌, ◌++◌, arith, Bytes, length, take, le_bytes,
  le_value, Bool, true, put_uvarint,
}
use basalt.Wal.Record.{
  record_crc, crc_update, Visit, go_on, fail, scan_records, scan_loop, next_record,
}
use basalt.Wal.Record.Scan.{frame, frames, run}
use basalt.Raft.Types.{Entry, entry_normal, entry_conf_change, HardState, Ready}
use basalt.Raft.Start.{Recovered, nothing_recovered, no_hard_state}
use basalt.Raft.Storage.{
  Storage, rec_compact, rec_entries, rec_truncate, rec_hard_state, type_byte, type_of_byte,
  encode_entry, encode_all, encode_entries, decode_entry, decode_all, decode_entries, place_entry,
  place_entries, apply_compact, apply_entries_record, apply_record, open_storage, save_ready,
  rewrite_file, hard_state_bytes,
}
use basalt.Raft.Storage.Codec.{IsStorable}
use basalt.Raft.Storage.Recovery.{Stores, open_storage_torn}
use basalt.Raft.Storage.Saves.{FollowOn, IsWords, open_storage-save_ready}
use basalt.Raft.Storage.Rewriting.{IsImage, imaged, open_storage-rewrite_file}

abbrev third : Entry
third = record { type = entry_normal; index = 3; term = 1; payload = some (7 ∷ []) }

abbrev fourth : Entry
fourth = record { type = entry_normal; index = 4; term = 1; payload = none }

-- A conflicting entry of a later term.
abbrev changed : Entry
changed = record { type = entry_conf_change; index = 4; term = 2; payload = some (9 ∷ 9 ∷ []) }

-- A snapshot at index 2 of term 1, and two entries.
abbrev two_payloads : List Bytes
two_payloads =
    (rec_compact ∷ (le_bytes 8 2 ++ le_bytes 8 1))
    ∷ (rec_entries ∷ encode_entries (third ∷ fourth ∷ []))
    ∷ []

abbrev stored : Storage
stored = record { file = frames two_payloads; last_index = 4 }

abbrev held : Recovered
held = record {
  hard_state = no_hard_state;
  snap_index = 2;
  snap_term = 1;
  entries = third ∷ fourth ∷ [];
}

two_payloads-run : run apply_record nothing_recovered two_payloads ≡ go_on held
unfolding run apply_record apply_compact apply_entries_record decode_entries decode_all decode_entry
    encode_entries encode_all encode_entry type_byte type_of_byte le_bytes le_value place_entries
    place_entry
two_payloads-run = refl

fits : basalt.Prelude.All basalt.Wal.Record.Scan.Fits two_payloads
unfolding encode_entries encode_all encode_entry type_byte le_bytes
fits = (omega arith, (omega arith, tt))

stored-Stores : Stores stored held
stored-Stores = record {
  holds = record {
    payloads = two_payloads;
    all_fit = fits;
    file_is = refl;
    replays = two_payloads-run;
  };
  last_is = refl;
  in_range = omega arith;
}

abbrev hard : HardState
hard = record { term = 2; vote = 5; commit = 3 }

hard-IsWords : IsWords hard
hard-IsWords = record {
  term_fits = omega arith;
  vote_fits = omega arith;
  commit_fits = omega arith;
}

changed-IsStorable : IsStorable changed
changed-IsStorable = record {
  index_fits = omega arith;
  term_fits = omega arith;
  payload_fits = omega arith;
  nil_or_more = λ h. ground (arith, h);
}

abbrev overwriting : Ready
overwriting = record {
  hard_state = some hard;
  entries = changed ∷ [];
  committed_entries = [];
  messages = [];
  read_states = [];
}

changed-FollowOn : FollowOn changed [] held
unfolding encode_entries encode_all encode_entry type_byte le_bytes
changed-FollowOn = record {
  above = omega arith;
  reaches = omega arith;
  consecutive = (refl, tt);
  few = omega arith;
  storable = (changed-IsStorable, tt);
  fits = omega arith;
  in_range = omega arith;
}

-- Opening gives the third entry, the changed fourth and the new hard state.
open_storage-save_ready_example :
    (s' : Storage) × (save_ready overwriting stored ≡ some (true, s'))
    × Stores s' (record held { hard_state = hard; entries = third ∷ changed ∷ [] })
    × (open_storage s'.file
        ≡ go_on (s', record held { hard_state = hard; entries = third ∷ changed ∷ [] }))
open_storage-save_ready_example =
    open_storage-save_ready overwriting stored held changed-FollowOn hard-IsWords stored-Stores

abbrev image : List Entry
image = changed ∷ []

image-IsImage : IsImage hard 3 1 image
unfolding encode_entries encode_all encode_entry type_byte le_bytes
image-IsImage = record {
  words = hard-IsWords;
  term_fits = omega arith;
  consecutive = (refl, tt);
  few = omega arith;
  storable = (changed-IsStorable, tt);
  fits = omega arith;
  in_range = omega arith;
}

open_storage-rewrite_file_example :
    (s' : Storage) × (rewrite_file hard 3 1 image stored ≡ some s')
    × Stores s' (imaged hard 3 1 image)
    × (open_storage s'.file ≡ go_on (s', imaged hard 3 1 image))
open_storage-rewrite_file_example = open_storage-rewrite_file hard 3 1 image stored image-IsImage

abbrev cut_record : Bytes
cut_record = rec_truncate ∷ le_bytes 8 4

split_record : frame cut_record ≡ take 16 (frame cut_record) ++ (0 ∷ [])
unfolding frame record_crc crc_update le_bytes
split_record = refl

open_storage_torn_example :
    open_storage (stored.file ++ take 16 (frame cut_record))
    ≡ go_on (record stored { file = stored.file ++ take 16 (frame cut_record) }, held)
open_storage_torn_example =
    open_storage_torn stored held cut_record (take 16 (frame cut_record)) 0 [] stored-Stores
      (unfold le_bytes in omega arith) split_record

-- A hard state that is written behind a torn record is not read back.
torn_then_saved :
    scan_records apply_record nothing_recovered
      (take 16 (frame cut_record) ++ frame (rec_hard_state ∷ hard_state_bytes hard))
    ≡ record { state = nothing_recovered; clean_len = 0; error = none }
unfolding scan_records scan_loop next_record frame record_crc crc_update le_bytes le_value
    hard_state_bytes
torn_then_saved = refl
