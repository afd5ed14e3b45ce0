-- ===== src/Wal/Runs/Merging.antt =====
-- Concrete runs of a compaction that has a record to write.
use selfstack.Prelude.{suc, ◌≡◌, refl, ap, ◌∙◌, [], ◌∷◌, length, true, none, ok, arith, All}
use selfstack.Prelude.Maps.{lookup, bytes_eq, insert, erase}
use selfstack.Bytes.{uint}
use selfstack.Wal.Payload.{decode_delete_payload, read_uint, read_exactly, read_some}
use selfstack.Wal.Reader.{read_full, collect, new_segment_iterator_from_lsn}
use selfstack.Wal.Reader.Scan.{kept, keep, collect-scan}
use selfstack.Wal.Reader.Whole.{scan-encode_all, length-encode_all}
use selfstack.Wal.Manifest.{sealed}
use selfstack.Wal.Manifest.Keys.{key_beq, key_eq}
use selfstack.Wal.Compactor.{
  Merge, merge_all, merge_record, merge_file, merge_segment, merge_segments, merge_records,
  record_doc_id, keep_latest, newer, empty_merge, combined,
}
use selfstack.Wal.Compactor.Run.{inputs, compact_segments, new_segment_id}
use selfstack.Wal.Compactor.Ran.{CompactIo}
use selfstack.Wal.Compactor.Triple.{Ensures}
use selfstack.Wal.Compactor.Statuses.{WasSealed}
use selfstack.Wal.Compactor.Settled.{compacted_key, Settled}
use selfstack.Wal.Compactor.Undone.{IsMidway, Compacted, Unchanged}
use selfstack.Wal.Compactor.Atomic.{compact_segments-IsAtomic}
use selfstack.Wal.Compactor.Succeeds.{IsWorking}
use selfstack.Wal.Compactor.Progress.{IsWritten, compact_segments_succeeds}
use selfstack.Wal.Runs.Records.{tombstone, tombstone-IsWellFormed, text_json, doc_a}
use selfstack.Wal.Runs.Compactions.{io, one, world, log_file, log_file-found, wal_names}
use selfstack.Wal.Runs.Files.{segment}

-- The runs of the compaction of one segment, with a commit that fails and with one that works.
abbrev all_work : CompactIo
all_work = record io { commits = true }

one-WasSealed : All (WasSealed world.tables) one
unfolding lookup key_beq
one-WasSealed = ((segment 1 sealed, refl, refl), tt)

compact_segments-IsAtomic_example :
    Ensures
      (IsMidway text_json io one world)
      (λ w _. Compacted text_json io one world w)
      (Unchanged text_json io one world)
      (compact_segments text_json io one world)
compact_segments-IsAtomic_example =
    compact_segments-IsAtomic text_json io one world one-WasSealed (refl, tt)

abbrev merged : Merge
merged = record { records = []; tombstones = (doc_a, tombstone) ∷ []; record_lsn = (doc_a, 5) ∷ [] }

log_file-collect :
    collect (suc (length log_file)) (new_segment_iterator_from_lsn log_file 0)
    ≡ (tombstone ∷ [], none)
unfolding kept
log_file-collect =
    collect-scan log_file 0 (suc (length log_file)) (omega arith)
    ∙ ap (keep 0) (
        scan-encode_all (tombstone ∷ []) (suc (length log_file)) (tombstone-IsWellFormed, tt)
          (omega (arith, length-encode_all (tombstone ∷ []))))

log_file-merge : merge_all text_json (tombstone ∷ []) empty_merge ≡ ok merged
unfolding merge_all merge_record record_doc_id decode_delete_payload keep_latest newer lookup insert
    erase read_uint read_exactly read_full read_some uint
log_file-merge = refl

no_row : lookup (compacted_key one) world.tables.segments ≡ none
unfolding lookup new_segment_id key_beq
no_row = refl

one-merged : merge_records text_json (inputs one world) ≡ ok merged
unfolding merge_records merge_segments merge_segment merge_file
one-merged = rw (log_file-found, log_file-collect, log_file-merge) refl

all_work-IsWorking : IsWorking all_work
all_work-IsWorking = record {
  marks = λ id. refl;
  unmarks = λ id. refl;
  archives_all = refl;
  creates = refl;
  writes = refl;
  finalizes = refl;
  begins = refl;
  archives = λ id. refl;
  renames = refl;
  registers = refl;
  commits = refl;
}

compact_segments_succeeds_example :
    let r = compact_segments text_json all_work one world in
    (r.result ≡ ok tt)
    × Settled world.tables one merged r.world.tables.segments
    × IsWritten one merged (combined merged) r.world tt
compact_segments_succeeds_example =
    compact_segments_succeeds all_work all_work-IsWorking text_json one world one-WasSealed no_row
      wal_names merged one-merged
