-- ===== src/Wal/Tests.antt =====
-- The theorems on the write-ahead log at concrete inputs.
use basalt.Prelude.{
  List, ℕ, ◌≡◌, refl, inl, inr, some, none, [], ◌∷◌, ◌++◌, arith, Bool, true, ◌+◌, ◌==◌,
  if◌then◌else◌, Bytes, length, take, le_bytes,
}
use basalt.Wal.Segments.{
  Segment, Options, Writer, with_defaults, open_writer, append, appended, replay,
}
use basalt.Wal.Segments.Held.{Holds, WriterHolds}
use basalt.Wal.Segments.Restart.{Torn, open_writer-WriterHolds, replay-Holds, replay-restart}
use basalt.Wal.Batch.{Batch, IsBatch, encode, decode_batch}
use basalt.Wal.Batch.RoundTrip.{decode_batch-encode}
use basalt.Wal.Record.{record_crc, crc_update, scan_records, Visit, go_on, fail}
use basalt.Wal.Record.Scan.{frame, frames, run, scan_records_torn}

-- A put of "a" and a delete of "b", from sequence number 300 on.
abbrev two_ops : Batch
two_ops = record {
  base_seq = 300;
  ops =
      record { kind = 1; user_key = 97 ∷ []; value = 7 ∷ 8 ∷ [] }
      ∷ record { kind = 0; user_key = 98 ∷ []; value = [] }
      ∷ [];
}

two_ops-IsBatch : IsBatch two_ops
two_ops-IsBatch = record {
  seq_fits = omega arith;
  count_fits = omega arith;
  all_ops = (
    record { kinds = inl refl; key_fits = omega arith; value_fits = omega arith },
    (record { kinds = inr (refl, refl); key_fits = omega arith; value_fits = omega arith }, tt),
  );
}

decode_batch-encode_example : decode_batch (encode two_ops []) ≡ some two_ops
decode_batch-encode_example = decode_batch-encode two_ops two_ops-IsBatch

abbrev sum_lengths : ℕ → Bytes → Visit ℕ Bool
sum_lengths n p = if length p == 0 then fail true else go_on (n + length p)

-- The record of three bytes, and its first ten bytes: one byte is missing.
abbrev five : Bytes
five = 5 ∷ 6 ∷ 7 ∷ []

split_frame : frame five ≡ take 10 (frame five) ++ (7 ∷ [])
unfolding frame record_crc crc_update le_bytes
split_frame = refl

sums : run sum_lengths 0 (five ∷ []) ≡ go_on 3
unfolding run
sums = refl

scan_records_torn_example :
    scan_records sum_lengths 0 (frames (five ∷ []) ++ take 10 (frame five))
    ≡ record { state = 3; clean_len = length (frames (five ∷ [])); error = none }
scan_records_torn_example =
    scan_records_torn sum_lengths (five ∷ []) five (take 10 (frame five)) 7 [] 0 3 (omega arith, tt)
      (omega arith) split_frame sums

abbrev small : Options
small = record { segment_size = 4; max_record_size = 100 }

-- Two segments: one whole record, and one whole record with ten bytes of a next one.
abbrev crashed : List Segment
crashed =
    record { id = 6; file = frames (five ∷ []) }
    ∷ record { id = 7; file = frames (five ∷ []) ++ take 10 (frame five) }
    ∷ []

crashed-Holds : Holds (take 10 (frame five)) 6 crashed (five ∷ five ∷ [])
crashed-Holds =
    (refl, five ∷ [], five ∷ [], refl, refl, (omega arith, tt), (refl, refl, (omega arith, tt)))

five_tail : Torn (take 10 (frame five))
five_tail = record {
  payload = five;
  missing = 7;
  more = [];
  fits = omega arith;
  split = split_frame;
}

sums_three : run sum_lengths 0 (five ∷ five ∷ five ∷ []) ≡ go_on 9
unfolding run
sums_three = refl

sums_two : run sum_lengths 0 (five ∷ five ∷ []) ≡ go_on 6
unfolding run
sums_two = refl

replay-Holds_example : replay sum_lengths 0 crashed ≡ go_on 6
replay-Holds_example =
    replay-Holds sum_lengths (take 10 (frame five)) 6 crashed (five ∷ five ∷ []) 0 6 five_tail
      crashed-Holds sums_two

open_writer-WriterHolds_example : WriterHolds (open_writer small crashed) (five ∷ five ∷ [])
open_writer-WriterHolds_example =
    open_writer-WriterHolds small (take 10 (frame five)) 6 crashed (five ∷ five ∷ []) five_tail
      (omega arith) (omega arith) crashed-Holds

replay-restart_example :
    (id : ℕ) × (w : Writer) × (append five (open_writer small crashed) ≡ some (appended id w))
    × (replay sum_lengths 0 w.dir ≡ go_on 9)
replay-restart_example =
    replay-restart sum_lengths small (take 10 (frame five)) 6 crashed (five ∷ five ∷ []) five 0 9
      five_tail (omega arith) (omega arith) crashed-Holds (unfold with_defaults in omega arith)
      sums_three
