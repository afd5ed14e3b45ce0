-- ===== src/Wal/Runs/Writers.antt =====
-- A concrete writer.
use selfstack.Prelude.{refl, List, [], ◌∷◌, true, false, none, some, All, arith, ◌≡◌}
use selfstack.Prelude.Maps.{lookup}
use selfstack.Bytes.{IsByte}
use selfstack.Wal.Manifest.{new_in_memory_manifest, wal_key, in_memory}
use selfstack.Wal.Manifest.Keys.{nat_eq, key_eq}
use selfstack.Wal.Writer.{WriterConfig, Io, WalWriter, rotate_locked, new_wal_writer}
use selfstack.Wal.Writer.Commands.{
  Command, append_call, append_with_sync_call, sync_call, tick, close_call, IsSound, run,
}
use selfstack.Wal.Writer.Held.{IsKept, AllBytes}
use selfstack.Wal.Writer.Order.{acknowledged_increase}
use selfstack.Wal.Writer.Increasing.{IsIncreasing}
use selfstack.Wal.Writer.Stuck.{IsStuck, AppendsFail, unregistered_rotation}
use selfstack.Wal.Writer.Durable.{acknowledged_are_durable}
use selfstack.Wal.Runs.Records.{tombstone_payload}

-- A sync after every second record, and rotation once a segment has 40 bytes.
abbrev config : WriterConfig
config = record { immediate = false; batch_size = 2; max_size = 40 }

abbrev works : Io
works = record {
  write_fails = none;
  sync_works = true;
  close_works = true;
  checksum_works = true;
  repair_works = true;
  open_works = true;
}

abbrev disk_full : Io
disk_full = record works { write_fails = some 0 }

abbrev calls : List Command
calls =
    append_call works 3 tombstone_payload
    ∷ append_call disk_full 3 tombstone_payload
    ∷ append_with_sync_call works 4 (5 ∷ [])
    ∷ tick works
    ∷ sync_call works
    ∷ append_call works 3 tombstone_payload
    ∷ close_call works
    ∷ []

calls-IsSound : All IsSound calls
calls-IsSound = (
  (tt, omega arith, tombstone),
  (
    (omega arith, omega arith, tombstone),
    ((tt, omega arith, (omega arith, tt)), (tt, (tt, ((tt, omega arith, tombstone), (tt, tt))))),
  ),
)
  where
    tombstone : All IsByte tombstone_payload
    tombstone = (omega arith, (omega arith, (omega arith, tt)))

no_files : AllBytes []
unfolding lookup
no_files id file found = cc

acknowledged_are_durable_example :
    let (w, acks) = run in_memory config calls (new_wal_writer in_memory works [] 1 1 none).0 in
    All (IsKept w.files) acks
acknowledged_are_durable_example =
    acknowledged_are_durable in_memory config works [] 1 1 none calls no_files (omega arith)
      calls-IsSound

abbrev fresh : WalWriter in_memory
fresh = record {
  files = (1, []) ∷ [];
  is_open = true;
  segment_id = 1;
  lsn = 1;
  offset = 0;
  pending_writes = 0;
  closed = false;
  manifest = none;
}

acknowledged_increase_example : IsIncreasing 1 (run in_memory config calls fresh).1
acknowledged_increase_example = acknowledged_increase in_memory config calls fresh (omega arith)

-- The writer of a store without a database: its manifest is empty.
abbrev unregistered : WalWriter in_memory
unregistered = record {
  files = (7, []) ∷ [];
  is_open = true;
  segment_id = 7;
  lsn = 12;
  offset = 0;
  pending_writes = 3;
  closed = false;
  manifest = some new_in_memory_manifest;
}

nothing_registered : lookup (wal_key 7) new_in_memory_manifest.segments ≡ none
unfolding lookup new_in_memory_manifest
nothing_registered = refl

unregistered_rotation_example :
    IsStuck (rotate_locked in_memory works unregistered)
    × AppendsFail config calls (rotate_locked in_memory works unregistered).0
unregistered_rotation_example =
    unregistered_rotation new_in_memory_manifest unregistered config works calls nothing_registered
      refl refl
