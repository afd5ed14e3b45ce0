-- ===== src/Db/WalStore/New.antt =====
-- internal/scope/db/walstore.go: `NewWALStore` on a directory of segments. What the database says of
-- the log's state is an input, `none` without a database or an answer; the state that is written back
-- to it and the compactor are left out.
use selfstack.Prelude.{ℕ, [], ◌∷◌, Bool, false, Option, none, some, Result, ok, err, if◌then◌else◌}
use selfstack.Prelude.Maps.{Map, bytes_beq}
use selfstack.Bytes.{Bytes}
use selfstack.Wal.Payload.{Json}
use selfstack.Wal.Recovery.{Progress}
use selfstack.Wal.Recovery.Directory.{dir_entries, recover_from_dir}
use selfstack.Wal.Manifest.{ManifestStore, WalState}
use selfstack.Wal.Roller.{entries, get_segment_id, find_latest_wal_segment}
use selfstack.Wal.Writer.{Io, WalWriter, new_wal_writer}
use selfstack.Wal.Writer.Naming.{segment_filename}
use selfstack.Db.MemIndex.{MemIndex, new_mem_index}
use selfstack.Db.MemIndex.Laws.{mem_document_index}
use selfstack.Db.WalStore.{WalStore, raised_max_lsn, initial_lsn, initial_segment_id}

-- The files that the writer gives a name, by their IDs.
abbrev pub own_file : Bytes → Bytes → Result ℕ → Map ℕ Bytes → Map ℕ Bytes
own_file name file (err e) files = files
own_file name file (ok id) files =
    if bytes_beq name (segment_filename id) then (id, file) ∷ files else files

unfoldable pub wal_files : Map Bytes Bytes → Map ℕ Bytes
wal_files [] = []
wal_files ((name, file) ∷ dir) = own_file name file (get_segment_id name) (wal_files dir)

-- latestSegID where there is no error; 0 where there is no segment.
unfoldable pub latest_segment_id : Result (Option (Bytes × ℕ)) → ℕ
latest_segment_id (err e) = 0
latest_segment_id (ok none) = 0
latest_segment_id (ok (some (name, id))) = id

-- `recoverAndGetStats`: the index, and `MaxLSN` with the manifest's state.
unfoldable pub recover_and_get_stats :
    (json : Json) → Option WalState → Map Bytes Bytes → Progress json mem_document_index × ℕ
recover_and_get_stats json state dir =
    let recovered = recover_from_dir json mem_document_index dir new_mem_index in
    (recovered, raised_max_lsn state recovered.stats)

module _ (M : ManifestStore) where
  -- `has_db`: the initial segment is registered, and an error of that is dropped.
  unfoldable pub registered : Bool → ℕ → M.State → M.State
  registered has_db id manifest =
      if has_db
      then (elim (M.create_segment id (segment_filename id) manifest) [
        | ok after ↦ after
        | err e ↦ manifest
      ])
      else manifest

  -- The store, once there is a writer.
  abbrev pub started : Bool → MemIndex → WalWriter M × Result (Unit {0}) → Result (WalStore M)
  started has_db index (w, err e) = err e
  started has_db index (w, ok u) = ok (record {
    index = index;
    writer = record w {
      manifest = elim w.manifest [
        | none ↦ none
        | some manifest ↦ some (registered has_db w.segment_id manifest)
      ];
    };
    closed = false;
  })

  unfoldable pub new_wal_store :
      Json → Io → Bool → Option WalState → Map Bytes Bytes → M.State → Result (WalStore M)
  new_wal_store json io has_db state dir manifest =
      let (recovered, max_lsn) = recover_and_get_stats json state dir in
      let latest = latest_segment_id (find_latest_wal_segment (entries (dir_entries dir))) in
      started has_db recovered.replay.index (
        new_wal_writer M io (wal_files dir) (initial_lsn state max_lsn)
          (initial_segment_id state latest) (some manifest))
