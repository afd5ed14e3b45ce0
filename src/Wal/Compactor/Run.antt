-- ===== src/Wal/Compactor/Run.antt =====
-- internal/scope/db/wal/compactor.go: `Compact`, `ForceCompact` and `compactSegments` over the
-- segment directory, the directory for temporary files and the tables of the database. The outcomes
-- of the calls of the operating system and of the database are an input. A run keeps the worlds that
-- it goes through, one after each change, since a crash may stop it at any of them.
use selfstack.Prelude.{
  ℕ, ◌+◌, ◌^◌, ◌%◌, List, [], ◌∷◌, length, take, Option, none, some, Result, ok, err, ◌>>◌, guard,
  io_failed, ltb, ◌==◌, if◌then◌else◌,
}
use selfstack.Prelude.Maps.{Map, lookup, insert, erase, bytes_eq}
use selfstack.Prelude.Sorting.{sort_slice}
use selfstack.Bytes.{Bytes}
use selfstack.Wal.Record.{Record}
use selfstack.Wal.Payload.{Json}
use selfstack.Wal.Reader.{finalize}
use selfstack.Wal.Manifest.{SegmentInfo, sealed, compacting, archived}
use selfstack.Wal.Manifest.Postgres.{
  Tables, by_id, pg_update_segment_status, pg_archive_segments, pg_create_compacted_segment,
  pg_get_sealed_wal_segments, update_rows, is_wal_row,
}
use selfstack.Wal.Roller.{compacted_segment_filename}
use selfstack.Wal.Compactor.{
  Merge, SegmentInput, merge_records, combined, compacted_records, compacted_segment, min_lsn,
  max_lsn,
}
use selfstack.Wal.Compactor.Ran.{
  CompactorConfig, CompactIo, World, Ran, done, failed, change, and_then, on_error, returned,
  stated,
}

unfoldable pub mark : CompactIo → SegmentInfo → World → Ran (Unit {0})
mark io s w =
    stated (pg_update_segment_status (io.marks s.segment_id) s.segment_id compacting w.tables) w

unfoldable pub mark_all : CompactIo → List SegmentInfo → World → Ran (Unit {0})
mark_all io [] w = done w
mark_all io (s ∷ ss) w = and_then (mark io s w) (λ w _. mark_all io ss w)

-- _ = c.manifest.UpdateSegmentStatus(...)
unfoldable pub unmark : CompactIo → SegmentInfo → World → Ran (Unit {0})
unmark io s w =
    elim (pg_update_segment_status (io.unmarks s.segment_id) s.segment_id sealed w.tables) [
      | ok t ↦ change (record w { tables = t })
      | err e ↦ done w
    ]

unfoldable pub rollback_to_sealed : CompactIo → List SegmentInfo → World → Ran (Unit {0})
rollback_to_sealed io [] w = done w
rollback_to_sealed io (s ∷ ss) w = and_then (unmark io s w) (λ w _. rollback_to_sealed io ss w)

-- _ = os.Remove(name), in the segment directory and in the other one.
unfoldable pub remove_file : CompactIo → Bytes → World → Ran (Unit {0})
remove_file io name w =
    if io.removes name then change (record w { dir = erase name w.dir }) else done w

unfoldable pub remove_tmp : CompactIo → World → Ran (Unit {0})
remove_tmp io w =
    if io.removes_tmp then change (record w { tmp = erase io.tmp_name w.tmp }) else done w

unfoldable pub remove_files : CompactIo → List SegmentInfo → World → Ran (Unit {0})
remove_files io [] w = done w
remove_files io (s ∷ ss) w = and_then (remove_file io s.filename w) (λ w _. remove_files io ss w)

abbrev pub inputs : List SegmentInfo → World → List SegmentInput
inputs [] w = []
inputs (s ∷ ss) w = record { file = lookup s.filename w.dir; checksum = s.checksum } ∷ inputs ss w

abbrev pub segment_ids : List SegmentInfo → List ℕ
segment_ids [] = []
segment_ids (s ∷ ss) = s.segment_id ∷ segment_ids ss

-- Where no record is left.
unfoldable pub archive_only : CompactIo → List SegmentInfo → World → Ran (Unit {0})
archive_only io segs w =
    and_then
      (on_error (stated (pg_archive_segments io.archives_all (segment_ids segs) w.tables) w)
        (rollback_to_sealed io segs))
      (λ w _. remove_files io segs w)

unfoldable pub create_tmp : CompactIo → World → Ran (Unit {0})
create_tmp io w =
    if io.creates
    then change (record w { tmp = insert io.tmp_name [] w.tmp })
    else failed io_failed w

-- The loop of `Write` and then `Finalize`.
unfoldable pub fill_tmp : CompactIo → Merge → World → Ran (Unit {0})
fill_tmp io m w =
    if io.writes
    then and_then (change (record w { tmp = insert io.tmp_name (compacted_segment m).file w.tmp }))
        (λ w _. if io.finalizes then done w else failed io_failed w)
    else and_then (change (record w { tmp = insert io.tmp_name io.left_over w.tmp }))
        (λ w _. failed io_failed w)

-- segments[len(segments)-1].SegmentID + 1
unfoldable pub new_segment_id : List SegmentInfo → ℕ
new_segment_id [] = 0
new_segment_id (s ∷ []) = (s.segment_id + 1) % 2 ^ 64
new_segment_id (s ∷ next ∷ ss) = new_segment_id (next ∷ ss)

abbrev pub final_name : List SegmentInfo → Bytes
final_name segs = compacted_segment_filename (new_segment_id segs)

-- The statements of the transaction, on the tables as it sees them.
unfoldable pub archive_in_tx : CompactIo → List SegmentInfo → Tables → Result Tables
archive_in_tx io [] t = ok t
archive_in_tx io (s ∷ ss) t =
    guard (io.archives s.segment_id) io_failed
    >> archive_in_tx io ss (record t {
      segments =
          (update_rows (λ key seg. is_wal_row s.segment_id key)
            (λ seg. record seg { status = archived }) t.segments).0;
    })

unfoldable pub register_in_tx : CompactIo → List SegmentInfo → Merge → Tables → Result Tables
register_in_tx io segs m t =
    let written = compacted_records m in
    let sw = compacted_segment m in
    pg_create_compacted_segment io.registers (new_segment_id segs) (final_name segs) sw.offset
      (length written) (min_lsn written) (max_lsn written 0) (finalize sw) t

abbrev pub rename_to : CompactIo → Bytes → Option Bytes → World → Ran (Unit {0})
rename_to io name none w = failed io_failed w
rename_to io name (some file) w =
    if io.renames
    then change (record w { dir = insert name file w.dir; tmp = erase io.tmp_name w.tmp })
    else failed io_failed w

unfoldable pub rename : CompactIo → List SegmentInfo → World → Ran (Unit {0})
rename io segs w = rename_to io (final_name segs) (lookup io.tmp_name w.tmp) w

unfoldable pub begin_tx : CompactIo → World → Ran (Unit {0})
begin_tx io w = if io.begins then done w else failed io_failed w

unfoldable pub commit : CompactIo → Tables → World → Ran (Unit {0})
commit io t w = if io.commits then change (record w { tables = t }) else failed io_failed w

-- The temporary file, or the final one, is removed before the segments go back to sealed. A
-- transaction that is rolled back has changed nothing.
unfoldable pub drop_tmp : CompactIo → List SegmentInfo → World → Ran (Unit {0})
drop_tmp io segs w = and_then (remove_tmp io w) (λ w _. rollback_to_sealed io segs w)

unfoldable pub drop_final : CompactIo → List SegmentInfo → World → Ran (Unit {0})
drop_final io segs w =
    and_then (remove_file io (final_name segs) w) (λ w _. rollback_to_sealed io segs w)

-- From the rename on.
unfoldable pub swap : CompactIo → List SegmentInfo → Merge → Tables → World → Ran (Unit {0})
swap io segs m t w = and_then (on_error (rename io segs w) (drop_tmp io segs)) (λ w _.
    and_then (on_error (returned (register_in_tx io segs m t) w) (drop_final io segs)) (λ w t'.
      and_then (on_error (commit io t' w) (drop_final io segs)) (λ w _. remove_files io segs w)))

unfoldable pub write_and_swap : CompactIo → List SegmentInfo → Merge → World → Ran (Unit {0})
write_and_swap io segs m w =
    and_then (on_error (create_tmp io w) (rollback_to_sealed io segs)) (λ w _.
      and_then (on_error (fill_tmp io m w) (drop_tmp io segs)) (λ w _.
        and_then (on_error (begin_tx io w) (drop_tmp io segs)) (λ w _.
          and_then (on_error (returned (archive_in_tx io segs w.tables) w) (drop_tmp io segs))
            (λ w t. swap io segs m t w))))

abbrev pub write_or_archive :
    CompactIo → List SegmentInfo → Merge → Map Bytes Record → World → Ran (Unit {0})
write_or_archive io segs m [] w = archive_only io segs w
write_or_archive io segs m (e ∷ es) w = write_and_swap io segs m w

unfoldable pub compact_segments : Json → CompactIo → List SegmentInfo → World → Ran (Unit {0})
compact_segments json io segs w =
    if length segs == 0
    then done w
    else and_then (on_error (mark_all io segs w) (rollback_to_sealed io segs)) (λ w _.
      and_then
        (on_error (returned (merge_records json (inputs segs w)) w) (rollback_to_sealed io segs))
        (λ w m. write_or_archive io segs m (combined m) w))

unfoldable pub compact : Json → CompactorConfig → CompactIo → World → Ran (Unit {0})
compact json config io w = elim (pg_get_sealed_wal_segments io.lists w.tables) [
  | err e ↦ failed e w
  | ok found ↦
      let segs = sort_slice by_id found in
      if ltb (length found) config.min_segments_to_compact
      then done w
      else compact_segments json io
          (if ltb config.max_segments_per_compaction (length segs)
            then take config.max_segments_per_compaction segs
            else segs)
          w
]

unfoldable pub force_compact : Json → CompactIo → World → Ran (Unit {0})
force_compact json io w = elim (pg_get_sealed_wal_segments io.lists w.tables) [
  | err e ↦ failed e w
  | ok found ↦ if ltb (length found) 2 then done w else compact_segments json io found w
]
