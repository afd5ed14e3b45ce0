-- ===== src/Wal/Runs/Files.antt =====
-- Concrete directories and manifests.
use selfstack.Prelude.{
  ◌⊎◌, ℕ, ◌+◌, ◌*◌, ◌<◌, ◌≡◌, refl, List, [], ◌∷◌, true, false, Option, none, some, ok, length, Any,
  ◌↔◌, arith,
}
use mathlib.Core.List.{Perm}
use selfstack.Prelude.Maps.{Map, lookup, IsFunctional, erase, bytes_eq}
use selfstack.Prelude.Sorting.{sort_slice, insert_sorted}
use selfstack.Bytes.{Bytes}
use selfstack.Wal.Writer.Naming.{segment_filename, padded, decimal}
use selfstack.Wal.Manifest.{
  SegmentInfo, SegmentStatus, active, sealed, archived, InMemoryManifest, get_segments_by_status,
  select,
}
use selfstack.Wal.Manifest.Keys.{wal, key_eq, key_beq}
use selfstack.Wal.Manifest.Postgres.{Rows, Tables, pg_seal_segment, or_missing, update_rows}
use selfstack.Wal.Manifest.Agree.{Follows, Differs, pg_step-memory_step}
use selfstack.Wal.Manifest.Steps.{seal_call, pg_step}
use selfstack.Wal.Roller.{
  DirEntry, entries, is_wal_segment, is_compacted_segment, get_segment_id,
  compacted_segment_filename, list_segment_files, find_latest_wal_segment, cleanup_old_segments,
  find_segments_in_range, delete_files,
}
use selfstack.Wal.Roller.Names.{get_segment_id-filename}
use selfstack.Wal.Roller.Listed.{IsWalName, IsSegmentName, IsListing}
use selfstack.Wal.Roller.Listing.{
  IsOrdered, IsLatest, list_segment_files_lem, find_latest_wal_segment-IsLatest,
}
use selfstack.Wal.Roller.Range.{Overlaps, find_segments_in_range_iff}
use selfstack.Wal.Roller.Retention.{Cleaned, cleanup-Cleaned, cleanup_again}

get_segment_id-filename_example :
    (get_segment_id (segment_filename 7) ≡ ok 7)
    × (get_segment_id (compacted_segment_filename 7) ≡ ok 7)
    × (is_wal_segment (segment_filename 7) ≡ true)
    × (is_compacted_segment (segment_filename 7) ≡ false)
    × (is_wal_segment (compacted_segment_filename 7) ≡ false)
    × (is_compacted_segment (compacted_segment_filename 7) ≡ true)
get_segment_id-filename_example = get_segment_id-filename 7 (omega arith)

-- Two WAL segments, a compacted one, and a directory.
abbrev listing : List DirEntry
listing =
    record { name = compacted_segment_filename 3; is_dir = false }
    ∷ record { name = segment_filename 12; is_dir = false }
    ∷ record { name = segment_filename 3; is_dir = false }
    ∷ record { name = 46 ∷ 116 ∷ 109 ∷ 112 ∷ []; is_dir = true }
    ∷ []

list_segment_files_example :
    (found : List Bytes) × IsListing IsSegmentName listing found
    × ((names : List Bytes) × (list_segment_files (entries listing) ≡ ok names)
        × Perm names found
        × IsOrdered names)
list_segment_files_example = list_segment_files_lem listing

find_latest_wal_segment_example :
    (found : List Bytes) × IsListing IsWalName listing found
    × IsLatest found (find_latest_wal_segment (entries listing))
find_latest_wal_segment_example = find_latest_wal_segment-IsLatest listing

-- A segment of the manifest.
abbrev pub segment : ℕ → SegmentStatus → SegmentInfo
segment id status = record {
  segment_id = id;
  segment_type = wal;
  filename = segment_filename id;
  size_bytes = 0;
  record_count = 0;
  min_lsn = some (10 * id);
  max_lsn = some (10 * id + 9);
  status = status;
  checksum = none;
}

abbrev three : List SegmentInfo
three = segment 1 sealed ∷ segment 2 sealed ∷ segment 3 active ∷ []

find_segments_in_range_example :
    Any (λ (s : SegmentInfo). s.segment_id ≡ 2) (find_segments_in_range 25 27 three)
    ↔ Any (λ (s : SegmentInfo). (s.segment_id ≡ 2) × Overlaps 25 27 s) three
find_segments_in_range_example =
    find_segments_in_range_iff 25 27 (omega arith) (λ s. s.segment_id ≡ 2) three (omega arith)

-- Two archived segments, of which one may stay.
abbrev two_archived : InMemoryManifest
two_archived = record {
  segments =
      (record { type = wal; id = 2 }, segment 2 archived)
      ∷ (record { type = wal; id = 1 }, segment 1 archived)
      ∷ [];
  state = record { current_segment_id = 3; next_lsn = 1; checkpoint_lsn = 0 };
}

abbrev both_files : Map Bytes Bytes
both_files = (segment_filename 1, 1 ∷ []) ∷ (segment_filename 2, 2 ∷ []) ∷ []

two_many : 1 < length (get_segments_by_status archived two_archived)
unfolding get_segments_by_status select
two_many = omega arith

cleaned_up :
    cleanup_old_segments (λ name. true) 1 (some two_archived) both_files
    ≡ ((segment_filename 2, 2 ∷ []) ∷ [], 1, none)
unfolding cleanup_old_segments delete_files get_segments_by_status select sort_slice insert_sorted
    lookup erase segment_filename padded decimal
cleaned_up = refl

cleanup-Cleaned_example :
    Cleaned
      (get_segments_by_status archived two_archived)
      1
      both_files
      ((segment_filename 2, 2 ∷ []) ∷ [])
      1
cleanup-Cleaned_example =
    cleanup-Cleaned (λ name. true) 1 two_archived both_files (omega arith) two_many
      ((segment_filename 2, 2 ∷ []) ∷ []) 1 cleaned_up

cleanup_again_example :
    (◌<◌ 0 1)
    × (cleanup_old_segments (λ name. true) 1 (some two_archived) ((segment_filename 2, 2 ∷ []) ∷ [])
        ≡ ((segment_filename 2, 2 ∷ []) ∷ [], 1, none))
cleanup_again_example =
    cleanup_again (λ name. true) 1 two_archived both_files (omega arith) two_many
      ((segment_filename 2, 2 ∷ []) ∷ []) 1 cleaned_up

-- The same row in both manifests.
abbrev row : SegmentStatus → Option ℕ → Rows
row status checksum =
    (record { type = wal; id = 1 }, record (segment 1 status) { checksum = checksum }) ∷ []

abbrev tables : SegmentStatus → Option ℕ → Tables
tables status checksum = record { segments = row status checksum; state = none }

abbrev in_process : InMemoryManifest
in_process = record {
  segments = row active none;
  state = record { current_segment_id = 1; next_lsn = 1; checkpoint_lsn = 0 };
}

sealed_in_tables : pg_step true (seal_call 1 7) (tables active none) ≡ ok (tables sealed (some 7))
unfolding pg_step pg_seal_segment or_missing update_rows key_beq
sealed_in_tables = refl

one_row : IsFunctional (row active none)
unfolding lookup
one_row = (refl, tt)

pg_step-memory_step_example :
    Follows (seal_call 1 7) in_process (tables sealed (some 7))
    ⊎ Differs (seal_call 1 7) in_process (tables active none) (tables sealed (some 7))
pg_step-memory_step_example =
    pg_step-memory_step (seal_call 1 7) true (tables active none) (tables sealed (some 7))
      in_process one_row refl sealed_in_tables
