-- ===== src/Wal/Compactor.antt =====
-- internal/scope/db/wal/compactor.go: the records of several segments merged into one segment.
pub mod Kept
pub mod Segments
pub mod Output
pub mod Merged
pub mod Preserve
pub mod Ran
pub mod Run
pub mod Triple
pub mod Steady
pub mod Stages
pub mod Statuses
pub mod Settled
pub mod Calm
pub mod Undone
pub mod Atomic
pub mod Succeeds
pub mod Progress
pub mod Course
pub mod Said
pub mod Remains
pub mod Crash
use selfstack.Prelude.{
  ℕ, suc, ◌+◌, ◌≤◌, ◌<◌, ◌≡◌, List, [], ◌∷◌, ◌++◌, Bool, true, false, ◌||◌, not, Option, none, some,
  Result, ok, err, Error, ◌>>=◌, ◌>>◌, guard, length, ltb, leb, ◌==◌, if◌then◌else◌,
  segment_checksum_mismatch, io_failed,
}
use selfstack.Prelude.Maps.{Map, lookup, insert, erase, bytes_eq}
use selfstack.Bytes.{Bytes}
use selfstack.Wal.Record.{
  Record, record_type_insert, record_type_update, record_type_delete, record_type_checkpoint,
}
use selfstack.Wal.Payload.{Json, decode_doc_payload, decode_delete_payload}
use selfstack.Wal.Reader.{
  new_segment_iterator_from_lsn, collect, verify_segment_checksum, SegmentWriter,
  new_segment_writer, write_all,
}

-- The three maps of `mergeRecords`.
pub record Merge : Type 0 where
  pub records : Map Bytes Record
  pub tombstones : Map Bytes Record
  pub record_lsn : Map Bytes ℕ

abbrev pub empty_merge : Merge
empty_merge = record { records = []; tombstones = []; record_lsn = [] }

-- existingLSN, exists := recordLSN[docID]; !exists || rec.LSN > existingLSN
unfoldable pub newer : Bytes → ℕ → Map Bytes ℕ → Bool
newer doc_id lsn record_lsn = elim (lookup doc_id record_lsn) [
  | none ↦ true
  | some seen ↦ ltb seen lsn
]

-- The records are values here, so the copy of the payload is not seen.
unfoldable pub keep_latest : Bytes → Record → Merge → Merge
keep_latest doc_id rec m =
    if newer doc_id rec.lsn m.record_lsn
    then (if rec.type == record_type_delete
        then record {
          records = erase doc_id m.records;
          tombstones = insert doc_id rec m.tombstones;
          record_lsn = insert doc_id rec.lsn m.record_lsn;
        }
        else record {
          records = insert doc_id rec m.records;
          tombstones = erase doc_id m.tombstones;
          record_lsn = insert doc_id rec.lsn m.record_lsn;
        })
    else m

-- The switch on the record's type: `none` is `continue`.
unfoldable pub record_doc_id : Json → Record → Result (Option Bytes)
record_doc_id json rec =
    if rec.type == record_type_insert || rec.type == record_type_update
    then decode_doc_payload json rec.payload >>= (λ d. ok (some d.0))
    else if rec.type == record_type_delete
    then decode_delete_payload rec.payload >>= (λ doc_id. ok (some doc_id))
    else ok none

unfoldable pub merge_record : Json → Record → Merge → Result Merge
merge_record json rec m =
    record_doc_id json rec
    >>= (λ found. elim found [ none ↦ ok m | some doc_id ↦ ok (keep_latest doc_id rec m) ])

unfoldable pub merge_all : Json → List Record → Merge → Result Merge
merge_all json [] m = ok m
merge_all json (rec ∷ recs) m = merge_record json rec m >>= merge_all json recs

-- A segment as the manifest names it: its file's content, `none` if it cannot be opened, and the
-- checksum that is recorded for it.
pub record SegmentInput : Type 0 where
  pub file : Option Bytes
  pub checksum : Option ℕ

-- The error that ended the iterator, after the body of the loop has run on what it yielded.
abbrev pub unless_error : Option Error → Merge → Result Merge
unless_error none m = ok m
unless_error (some e) m = err e

-- `seg.Checksum != nil` and `VerifySegmentChecksum`
abbrev pub checksum_holds : Option ℕ → Bytes → Bool
checksum_holds none file = true
checksum_holds (some expected) file = verify_segment_checksum file expected

unfoldable pub merge_file : Json → Option ℕ → Option Bytes → Merge → Result Merge
merge_file json checksum none m = err io_failed
merge_file json checksum (some file) m =
    let (records, error) = collect (suc (length file)) (new_segment_iterator_from_lsn file 0) in
    guard (checksum_holds checksum file) segment_checksum_mismatch
    >> (merge_all json records m >>= unless_error error)

unfoldable pub merge_segment : Json → SegmentInput → Merge → Result Merge
merge_segment json seg m = merge_file json seg.checksum seg.file m

unfoldable pub merge_segments : Json → List SegmentInput → Merge → Result Merge
merge_segments json [] m = ok m
merge_segments json (seg ∷ segs) m = merge_segment json seg m >>= merge_segments json segs

unfoldable pub merge_records : Json → List SegmentInput → Result Merge
merge_records json segs = merge_segments json segs empty_merge

-- for docID, rec := range tombstoneRecords { allRecords[docID] = rec }
unfoldable pub add_all : Map Bytes Record → Map Bytes Record → Map Bytes Record
add_all [] m = m
add_all ((doc_id, rec) ∷ rest) m = add_all rest (insert doc_id rec m)

unfoldable pub combined : Merge → Map Bytes Record
combined m = add_all m.tombstones (add_all m.records [])

-- sort.Slice by LSN, by insertion; its order on equal LSNs is left open by the library.
unfoldable pub insert_by_lsn : Record → List Record → List Record
insert_by_lsn rec [] = rec ∷ []
insert_by_lsn rec (x ∷ xs) = if ltb x.lsn rec.lsn then x ∷ insert_by_lsn rec xs else rec ∷ x ∷ xs

unfoldable pub sort_by_lsn : Map Bytes Record → List Record
sort_by_lsn [] = []
sort_by_lsn ((doc_id, rec) ∷ rest) = insert_by_lsn rec (sort_by_lsn rest)

-- The records that `compactSegments` writes.
unfoldable pub compacted_records : Merge → List Record
compacted_records m = sort_by_lsn (combined m)

-- minLSN and maxLSN: those of the first and of the last record written.
unfoldable pub min_lsn : List Record → ℕ
min_lsn [] = 0
min_lsn (r ∷ rs) = r.lsn

unfoldable pub max_lsn : List Record → ℕ → ℕ
max_lsn [] last = last
max_lsn (r ∷ rs) last = max_lsn rs r.lsn

-- The merged segment in its file, with what is registered of it. Where no record is left the code
-- writes no segment; the one here is empty then.
unfoldable pub compacted_segment : Merge → SegmentWriter
compacted_segment m = write_all new_segment_writer (compacted_records m)
