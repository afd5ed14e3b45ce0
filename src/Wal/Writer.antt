-- ===== src/Wal/Writer.antt =====
-- internal/scope/db/wal/writer.go: the log's writer. The outcomes of the calls of the operating
-- system are an input of each operation. Every operation is one critical section of the mutex.
-- The log's directory maps the ID of a segment to the content of its file.
pub mod Naming
pub mod Commands
pub mod Held
pub mod Rotation
pub mod Acknowledged
pub mod Durable
pub mod Exact
pub mod Added
pub mod Increasing
pub mod Order
pub mod Stuck
use selfstack.Prelude.{
  ℕ, ◌+◌, ◌%◌, ◌^◌, ◌≤◌, ◌<◌, List, [], ◌∷◌, ◌++◌, length, take, Bool, true, false, ◌&&◌, ◌||◌, not,
  Option, none, some, Result, ok, err, Error, io_failed, writer_closed, ltb, leb, ◌==◌,
  if◌then◌else◌,
}
use selfstack.Prelude.Maps.{Map, lookup, insert}
use selfstack.Bytes.{Bytes}
use selfstack.Wal.Record.{Record, new_record, encode}
use selfstack.Wal.Reader.{calculate_segment_checksum}
use selfstack.Wal.Tail.{repaired}
use selfstack.Wal.Manifest.{ManifestStore}
use selfstack.Wal.Manifest.Keys.{nat_eq}
use selfstack.Wal.Writer.Naming.{segment_filename}

-- `SyncPolicy` with `maxSize`; the interval is only that of the background goroutine.
pub record WriterConfig : Type 0 where
  pub immediate : Bool
  pub batch_size : ℕ
  pub max_size : ℕ

-- The outcome of each call that an operation makes. A `Write` that fails has written so many bytes.
pub record Io : Type 0 where
  pub write_fails : Option ℕ
  pub sync_works : Bool
  pub close_works : Bool
  pub checksum_works : Bool
  pub repair_works : Bool
  pub open_works : Bool

module _ (M : ManifestStore) where
  -- `is_open` is that of the operating system's file behind `file`.
  pub record WalWriter : Type 0 where
    pub files : Map ℕ Bytes
    pub is_open : Bool
    pub segment_id : ℕ
    pub lsn : ℕ
    pub offset : ℕ
    pub pending_writes : ℕ
    pub closed : Bool
    pub manifest : Option M.State

  -- A state with the value or the error that an operation returns.
  abbrev pub Outcome {ℓ} : Type ℓ → Type ℓ
  Outcome A = WalWriter × Result A

  -- if err != nil { return err }
  abbrev pub and_then {ℓ κ} :
      {A : Type ℓ} {B : Type κ} → Outcome A → (WalWriter → A → Outcome B) → Outcome B
  and_then (w, ok a) f = f w a
  and_then (w, err e) f = (w, err e)

  abbrev pub done : WalWriter → Outcome (Unit {0})
  done w = (w, ok tt)

  abbrev pub content : ℕ → Map ℕ Bytes → Bytes
  content id files = elim (lookup id files) [ none ↦ [] | some file ↦ file ]

  -- A file with content is scanned and, if its tail is corrupt, truncated.
  unfoldable pub truncated : WalWriter → WalWriter
  truncated w = record w {
    files = elim (lookup w.segment_id w.files) [
      | none ↦ w.files
      | some file ↦ insert w.segment_id (repaired file) w.files
    ];
  }

  unfoldable pub open_segment : Io → WalWriter → Outcome (Unit {0})
  open_segment io w =
      if ltb 0 (length (content w.segment_id w.files)) && not io.repair_works
      then (w, err io_failed)
      else (if io.open_works
          then (let file = content w.segment_id (truncated w).files in
              done (record w {
                files = insert w.segment_id file (truncated w).files;
                is_open = true;
                offset = length file;
              }))
          else (truncated w, err io_failed))

  -- `file` is never nil once there is a writer.
  unfoldable pub sync_locked : Io → WalWriter → Outcome (Unit {0})
  sync_locked io w =
      if w.pending_writes == 0
      then done w
      else (if io.sync_works && w.is_open
          then done (record w { pending_writes = 0 })
          else (w, err io_failed))

  -- `Close` gives the file up whether it reports an error or not.
  unfoldable pub close_file : Io → WalWriter → Outcome (Unit {0})
  close_file io w =
      if io.close_works && w.is_open
      then done (record w { is_open = false })
      else (record w { is_open = false }, err io_failed)

  -- The manifest after a call, or its error.
  abbrev pub keep_manifest : WalWriter → Result M.State → Outcome (Unit {0})
  keep_manifest w (ok m) = done (record w { manifest = some m })
  keep_manifest w (err e) = (w, err e)

  -- if w.manifest != nil, before the new segment has its ID
  unfoldable pub seal_in : Io → WalWriter → Option M.State → Outcome (Unit {0})
  seal_in io w none = done w
  seal_in io w (some m) =
      if io.checksum_works
      then keep_manifest w (
          M.seal_segment w.segment_id (calculate_segment_checksum (content w.segment_id w.files)) m)
      else (w, err io_failed)

  unfoldable pub next_segment : WalWriter → WalWriter
  next_segment w = record w { segment_id = (w.segment_id + 1) % 2 ^ 64 }

  -- if w.manifest != nil, after it
  unfoldable pub create_in : WalWriter → Option M.State → Outcome (Unit {0})
  create_in w none = done w
  create_in w (some m) =
      keep_manifest w (M.create_segment w.segment_id (segment_filename w.segment_id) m)

  unfoldable pub rotate_locked : Io → WalWriter → Outcome (Unit {0})
  rotate_locked io w = and_then (sync_locked io w) (λ w _. and_then (close_file io w) (λ w _.
      and_then (seal_in io w w.manifest)
        (λ w _. and_then (create_in (next_segment w) w.manifest) (λ w _. open_segment io w))))

  -- Writing to a file that is closed fails before a byte is written.
  unfoldable pub write_data : Io → Bytes → WalWriter → Outcome (Unit {0})
  write_data io bytes w =
      if w.is_open
      then elim io.write_fails [
        | none ↦ done (record w {
          files = insert w.segment_id (content w.segment_id w.files ++ bytes) w.files;
        })
        | some n ↦ (
          record w {
            files = insert w.segment_id (content w.segment_id w.files ++ take n bytes) w.files;
          },
          err io_failed,
        )
      ]
      else (w, err io_failed)

  -- The LSN is taken before anything can fail: AddUint64(&lsn, 1) - 1 is its old value.
  unfoldable pub take_lsn : WalWriter → WalWriter
  take_lsn w = record w { lsn = (w.lsn + 1) % 2 ^ 64 }

  unfoldable pub sync_due : WriterConfig → Io → WalWriter → Outcome (Unit {0})
  sync_due config io w =
      if config.immediate || ltb 0 config.batch_size && leb config.batch_size w.pending_writes
      then sync_locked io w
      else done w

  unfoldable pub rotate_due : WriterConfig → Io → WalWriter → Outcome (Unit {0})
  rotate_due config io w = if leb config.max_size w.offset then rotate_locked io w else done w

  -- The record that is written, or the error of `NewRecord`.
  abbrev pub or_fail : WalWriter → Result Record → (Record → Outcome ℕ) → Outcome ℕ
  or_fail w (ok rec) f = f rec
  or_fail w (err e) f = (w, err e)

  unfoldable pub append : WriterConfig → Io → ℕ → Bytes → WalWriter → Outcome ℕ
  append config io type payload w =
      if w.closed
      then (w, err writer_closed)
      else or_fail (take_lsn w) (new_record type w.lsn payload) (λ rec.
        and_then (write_data io (encode rec) (take_lsn w)) (λ w' _.
          and_then
            (sync_due config io (record w' {
              offset = w'.offset + length (encode rec);
              pending_writes = w'.pending_writes + 1;
            }))
            (λ w'' _. and_then (rotate_due config io w'') (λ w''' _. (w''', ok w.lsn)))))

  unfoldable pub sync_file : Io → WalWriter → Outcome (Unit {0})
  sync_file io w = if io.sync_works && w.is_open then done w else (w, err io_failed)

  unfoldable pub append_with_sync : WriterConfig → Io → ℕ → Bytes → WalWriter → Outcome ℕ
  append_with_sync config io type payload w =
      if w.closed
      then (w, err writer_closed)
      else or_fail (take_lsn w) (new_record type w.lsn payload) (λ rec.
        and_then (write_data io (encode rec) (take_lsn w)) (λ w' _.
          and_then (sync_file io w') (λ w' _.
            and_then
              (rotate_due config io
                (record w' { offset = w'.offset + length (encode rec); pending_writes = 0 }))
              (λ w'' _. (w'', ok w.lsn)))))

  -- The body of the background goroutine, on a tick.
  unfoldable pub background_sync : Io → WalWriter → WalWriter
  background_sync io w = if ltb 0 w.pending_writes then (sync_locked io w).0 else w

  -- The goroutine has stopped when the file is synced.
  unfoldable pub close : Io → WalWriter → Outcome (Unit {0})
  close io w =
      if w.closed
      then done w
      else and_then (sync_file io (record w { closed = true })) (λ w _. close_file io w)

  unfoldable pub new_wal_writer : Io → Map ℕ Bytes → ℕ → ℕ → Option M.State → Outcome (Unit {0})
  new_wal_writer io files initial_lsn initial_segment_id manifest = open_segment io (record {
    files = files;
    is_open = false;
    segment_id = initial_segment_id;
    lsn = initial_lsn;
    offset = 0;
    pending_writes = 0;
    closed = false;
    manifest = manifest;
  })
