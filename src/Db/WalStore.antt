-- ===== src/Db/WalStore.antt =====
-- internal/scope/db/walstore.go: the store over the log and the in-memory index. Each operation is
-- one critical section. The compactor and the state kept in Postgres are left out of the operations;
-- what Postgres says at the start is an input.
pub mod Opening
pub mod New
pub mod Found
pub mod Opened
pub mod Logged
pub mod Agreement
pub mod Written
pub mod Rebuild
pub mod Rising
pub mod Contents
pub mod Reopen
pub mod Recovered
use selfstack.Prelude.{
  ℕ, ◌+◌, ◌-◌, ◌%◌, ◌^◌, ◌≤◌, ◌<◌, List, [], ◌∷◌, Bool, true, false, ◌&&◌, Option, none, some,
  Result, ok, err, Error, ◌>>=◌, store_closed, ltb, leb, if◌then◌else◌,
}
use selfstack.Bytes.{Bytes}
use selfstack.Wal.Record.{
  record_type_insert, record_type_update, record_type_delete, record_type_checkpoint,
}
use selfstack.Wal.Payload.{
  Json, DocMetadata, encode_doc_payload, encode_delete_payload, encode_checkpoint_payload,
}
use selfstack.Wal.Recovery.{RecoveryStats}
use selfstack.Wal.Manifest.{ManifestStore, WalState}
use selfstack.Wal.Writer.{WriterConfig, Io, WalWriter, append, append_with_sync, sync_locked}
use selfstack.Wal.Writer as Writer
use selfstack.Db.MemIndex.{Document, MemIndex, set, delete, has}

-- if s.db != nil: `MaxLSN` is raised to what the manifest has handed out.
unfoldable pub raised_max_lsn : Option WalState → RecoveryStats → ℕ
raised_max_lsn none stats = stats.max_lsn
raised_max_lsn (some state) stats =
    if ltb (stats.max_lsn + 1) state.next_lsn then state.next_lsn - 1 else stats.max_lsn

-- The manifest's state, where there is a database, or 1; raised to be above all recovered records.
unfoldable pub initial_lsn : Option WalState → ℕ → ℕ
initial_lsn state max_lsn =
    let start : ℕ = elim state [ none ↦ 1 | some s ↦ s.next_lsn ] in
    if leb start max_lsn then (max_lsn + 1) % 2 ^ 64 else start

-- The latest WAL segment in the directory; 0 where there is none.
unfoldable pub initial_segment_id : Option WalState → ℕ → ℕ
initial_segment_id state latest_segment_id =
    let start : ℕ = elim state [ none ↦ 1 | some s ↦ s.current_segment_id ] in
    if leb start latest_segment_id then latest_segment_id else start

-- The metadata that goes into the payload.
unfoldable pub metadata_of : Document → DocMetadata
metadata_of doc = record {
  source = doc.source;
  title = doc.title;
  text = doc.text;
  metadata = doc.metadata;
  created_at = doc.created_at;
}

module _ (M : ManifestStore) where
  pub record WalStore : Type 0 where
    pub index : MemIndex
    pub writer : WalWriter M
    pub closed : Bool

  -- The writer's call, by the sync policy.
  unfoldable pub log : WriterConfig → Io → ℕ → Bytes → WalWriter M → WalWriter M × Result ℕ
  log config io type payload w =
      let synced = append_with_sync M config io type payload w in
      let batched = append M config io type payload w in
      if config.immediate then synced else batched

  -- if err != nil { return err }, or the change of the index
  abbrev pub finish_with :
      WalStore → MemIndex → WalWriter M × Result ℕ → WalStore × Result (Unit {0})
  finish_with s index (w, ok lsn) = (record s { writer = w; index = index }, ok tt)
  finish_with s index (w, err e) = (record s { writer = w }, err e)

  abbrev pub with_payload :
      WalStore
      → Result Bytes
      → (Bytes → WalStore × Result (Unit {0}))
      → WalStore × Result (Unit {0})
  with_payload s (ok payload) f = f payload
  with_payload s (err e) f = (s, err e)

  unfoldable pub add_type : Document → MemIndex → ℕ
  add_type doc index = if has doc.id index then record_type_update else record_type_insert

  unfoldable pub add : Json → WriterConfig → Io → Document → WalStore → WalStore × Result (Unit {0})
  add json config io doc s =
      if s.closed
      then (s, err store_closed)
      else with_payload s (encode_doc_payload json doc.id (metadata_of doc) doc.embedding)
          (λ payload.
            finish_with s (set doc.id doc s.index)
              (log config io (add_type doc s.index) payload s.writer))

  unfoldable pub delete_document :
      WriterConfig → Io → Bytes → WalStore → WalStore × Result (Unit {0})
  delete_document config io doc_id s =
      if s.closed
      then (s, err store_closed)
      else with_payload s (encode_delete_payload doc_id) (λ payload.
        finish_with s (delete doc_id s.index) (log config io record_type_delete payload s.writer))

  -- `Flush` does not look at `closed`.
  unfoldable pub flush : WriterConfig → Io → WalStore → WalStore × Result (Unit {0})
  flush config io s =
      let (w, r) = sync_locked M io s.writer in
      if config.immediate then (s, ok tt) else (record s { writer = w }, r)

  -- The store is closed even where the writer's `Close` fails.
  unfoldable pub close_store : Io → WalStore → WalStore × Result (Unit {0})
  close_store io s =
      let (w, r) = Writer.close M io s.writer in
      if s.closed then (s, ok tt) else (record s { writer = w; closed = true }, r)

  unfoldable pub write_checkpoint : WriterConfig → Io → WalStore → WalStore × Result (Unit {0})
  write_checkpoint config io s = with_payload s (encode_checkpoint_payload s.writer.lsn) (λ payload.
      finish_with s s.index (append_with_sync M config io record_type_checkpoint payload s.writer))
