-- ===== src/Wal/Runs/Segments.antt =====
-- Concrete segments.
use selfstack.Prelude.{
  ◌≡◌, List, [], ◌∷◌, ◌++◌, ok, err, Error, length, take, All, true, arith, All-append,
}
use selfstack.Bytes.{IsByte}
use selfstack.Wal.Record.{Record, IsWellFormed, encode}
use selfstack.Wal.Reader.{
  read_record, got, read_records_from_lsn, read_all_records, new_segment_writer, write_all,
  verify_segment_checksum, finalize, LsnRange, get_segment_lsn_range,
}
use selfstack.Wal.Reader.Step.{read_record-encode}
use selfstack.Wal.Reader.Sound.{read_record_sound}
use selfstack.Wal.Reader.Whole.{encode_all, from_lsn_on, write_all-read}
use selfstack.Wal.Reader.Range.{IsRangeOf, get_segment_lsn_range_lem}
use selfstack.Wal.Tail.{valid_record, repaired}
use selfstack.Wal.Tail.Agree.{outcome, valid_record-read_record}
use selfstack.Wal.Tail.Repair.{readable, repaired_lem, fitting, crash_repair}
use selfstack.Wal.Writer.Held.{encode-IsByte}
use selfstack.Wal.Runs.Records.{
  tombstone, checkpoint, tombstone-IsWellFormed, checkpoint-IsWellFormed,
}

abbrev pub two_records : List Record
two_records = tombstone ∷ checkpoint ∷ []

pub two_records-IsWellFormed : All IsWellFormed two_records
two_records-IsWellFormed = (tombstone-IsWellFormed, (checkpoint-IsWellFormed, tt))

pub tombstone-IsByte : All IsByte (encode tombstone)
tombstone-IsByte =
    encode-IsByte tombstone (omega arith) (omega arith)
      (omega arith, (omega arith, (omega arith, tt)))

checkpoint-IsByte : All IsByte (encode checkpoint)
checkpoint-IsByte = encode-IsByte checkpoint (omega arith) (omega arith) (
  omega arith,
  (
    omega arith,
    (omega arith, (omega arith, (omega arith, (omega arith, (omega arith, (omega arith, tt)))))),
  ),
)

pub two_records-IsByte : All IsByte (encode_all two_records)
unfolding encode_all
two_records-IsByte =
    All-append IsByte (encode tombstone) _ tombstone-IsByte
      (All-append IsByte (encode checkpoint) [] checkpoint-IsByte tt)

two_records-read : read_record (encode tombstone ++ (7 ∷ [])) ≡ got tombstone (7 ∷ [])
two_records-read = read_record-encode tombstone (7 ∷ []) tombstone-IsWellFormed

read_record_sound_example :
    IsWellFormed tombstone × (encode tombstone ++ (7 ∷ []) ≡ encode tombstone ++ (7 ∷ []))
read_record_sound_example =
    read_record_sound (encode tombstone ++ (7 ∷ [])) tombstone (7 ∷ [])
      (All-append IsByte (encode tombstone) (7 ∷ []) tombstone-IsByte (omega arith, tt))
      two_records-read

write_all-read_example :
    (read_records_from_lsn (write_all new_segment_writer two_records).file 6
      ≡ ok (from_lsn_on 6 two_records))
    × (verify_segment_checksum
          (write_all new_segment_writer two_records).file
          (finalize (write_all new_segment_writer two_records))
        ≡ true)
    × ((write_all new_segment_writer two_records).offset
        ≡ length (write_all new_segment_writer two_records).file)
write_all-read_example = write_all-read two_records 6 two_records-IsWellFormed

valid_record-read_record_example :
    valid_record (encode tombstone ++ (7 ∷ []))
    ≡ outcome (read_record (encode tombstone ++ (7 ∷ [])))
valid_record-read_record_example = valid_record-read_record (encode tombstone ++ (7 ∷ []))

repaired_lem_example :
    (repaired (encode tombstone ++ (7 ∷ [])) ≡ encode_all (readable (encode tombstone ++ (7 ∷ []))))
    × (read_all_records (repaired (encode tombstone ++ (7 ∷ [])))
        ≡ ok (readable (encode tombstone ++ (7 ∷ []))))
    × (repaired (repaired (encode tombstone ++ (7 ∷ []))) ≡ repaired (encode tombstone ++ (7 ∷ [])))
repaired_lem_example =
    repaired_lem (encode tombstone ++ (7 ∷ []))
      (All-append IsByte (encode tombstone) (7 ∷ []) tombstone-IsByte (omega arith, tt))

crash_repair_example :
    read_all_records (repaired (take 40 (encode_all two_records))) ≡ ok (fitting 40 two_records)
crash_repair_example = crash_repair two_records 40 two_records-IsWellFormed two_records-IsByte

get_segment_lsn_range_lem_example :
    ((rs : List Record)
      → read_all_records (encode_all two_records) ≡ ok rs
      → (s : LsnRange) × (get_segment_lsn_range (encode_all two_records) ≡ ok s) × IsRangeOf rs s)
    × ((e : Error)
        → read_all_records (encode_all two_records) ≡ err e
        → get_segment_lsn_range (encode_all two_records) ≡ err e)
get_segment_lsn_range_lem_example = get_segment_lsn_range_lem (encode_all two_records)
