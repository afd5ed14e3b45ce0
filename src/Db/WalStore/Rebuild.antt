-- ===== src/Db/WalStore/Rebuild.antt =====
-- The index of a WALStore, after any calls of Add and Delete, and the records that the calls log.
use selfstack.Prelude.{
  ℕ, ◌+◌, ◌^◌, ◌≤◌, ◌<◌, List, [], ◌∷◌, ◌++◌, length, Result, ok, err, if-both, arith, inl, inr,
  All,
}
use selfstack.Prelude.Maps.{bytes_eq}
use selfstack.Bytes.{Bytes}
use selfstack.Wal.Record.{Record, record_type_delete}
use selfstack.Wal.Payload.{Json, encode_doc_payload, encode_delete_payload}
use selfstack.Wal.Recovery.Latest.{Known, latest, latest-append}
use selfstack.Wal.Manifest.{ManifestStore}
use selfstack.Wal.Writer.{WriterConfig, Io, WalWriter}
use selfstack.Db.MemIndex.{Document, MemIndex, set, delete}
use selfstack.Db.WalStore.{
  WalStore, log, finish_with, with_payload, add_type, metadata_of, add, delete_document,
}
use selfstack.Db.WalStore.Agreement.{IsStorable, IsErasable, add-StoreAgrees, delete-StoreAgrees}
use selfstack.Db.WalStore.Logged.{IsLogged, log-IsLogged, StoreAgrees, logged}

pub data StoreCall : Type 0 where
  add_call : Io → Document → StoreCall
  delete_call : Io → Bytes → StoreCall

-- The document can be stored; the ID can be deleted.
abbrev pub IsPossible : Json → StoreCall → Type 0
IsPossible json (add_call io doc) = IsStorable json doc
IsPossible json (delete_call io doc_id) = IsErasable doc_id

module _ (json : Json) (M : ManifestStore) (config : WriterConfig) where
  -- A call, with the record that it logged if it returned no error.
  unfoldable pub store_step : StoreCall → WalStore M → WalStore M × List Record
  store_step (add_call io doc) s =
      let (s', r) = add M json config io doc s in
      (
        s',
        logged json M (add_type M doc s.index) s.writer.lsn
            (encode_doc_payload json doc.id (metadata_of doc) doc.embedding) r,
      )
  store_step (delete_call io doc_id) s =
      let (s', r) = delete_document M config io doc_id s in
      (s', logged json M record_type_delete s.writer.lsn (encode_delete_payload doc_id) r)

  unfoldable pub store_run : List StoreCall → WalStore M → WalStore M × List Record
  store_run [] s = (s, [])
  store_run (c ∷ cs) s =
      let (s', now) = store_step c s in let (s'', more) = store_run cs s' in (s'', now ++ more)

  finish_with-lsn :
      (io : Io) (type : ℕ) (payload : Bytes) (s : WalStore M) (index : MemIndex)
      (o : WalWriter M × Result ℕ)
      → IsLogged M config io type payload s.writer o
      → (finish_with M s index o).0.writer.lsn ≤ s.writer.lsn + 1
  unfolding IsLogged
  finish_with-lsn io type payload s index (w, err e) (made, inl same) = omega arith
  finish_with-lsn io type payload s index (w, err e) (made, inr next) = omega arith
  finish_with-lsn io type payload s index (w, ok lsn) (made, (next, same)) = omega arith

  with_payload-lsn :
      (io : Io) (type : ℕ) (s : WalStore M) (index : MemIndex) (encoded : Result Bytes)
      → (with_payload M s encoded
          (λ payload. finish_with M s index (log M config io type payload s.writer))).0.writer.lsn
        ≤ s.writer.lsn + 1
  with_payload-lsn io type s index (ok payload) =
      finish_with-lsn io type payload s index (log M config io type payload s.writer)
        (log-IsLogged M config io type payload s.writer)
  with_payload-lsn io type s index (err e) = omega arith

  pub store_step-lsn :
      (c : StoreCall) (s : WalStore M) → (store_step c s).0.writer.lsn ≤ s.writer.lsn + 1
  unfolding store_step add delete_document
  store_step-lsn (add_call io doc) s =
      if-both (λ (o : WalStore M × Result (Unit {0})). o.0.writer.lsn ≤ s.writer.lsn + 1) s.closed _
        _ (omega arith)
        (with_payload-lsn io (add_type M doc s.index) s (set doc.id doc s.index)
          (encode_doc_payload json doc.id (metadata_of doc) doc.embedding))
  store_step-lsn (delete_call io doc_id) s =
      if-both (λ (o : WalStore M × Result (Unit {0})). o.0.writer.lsn ≤ s.writer.lsn + 1) s.closed _
        _ (omega arith)
        (with_payload-lsn io record_type_delete s (delete doc_id s.index)
          (encode_delete_payload doc_id))

  store_step-StoreAgrees :
      (k : Bytes) (c : StoreCall) (s : WalStore M) (known : Known)
      → IsPossible json c
      → s.writer.lsn + 1 < 2 ^ 64
      → StoreAgrees json M k known s
      → StoreAgrees json M k (latest json k (store_step c s).1 known) (store_step c s).0
  unfolding store_step
  store_step-StoreAgrees k (add_call io doc) s known p small a =
      add-StoreAgrees json M config io k doc s p known small a
  store_step-StoreAgrees k (delete_call io doc_id) s known p small a =
      delete-StoreAgrees json M config io k doc_id s p known small a

  pub store_run-StoreAgrees :
      (k : Bytes) (cs : List StoreCall) (s : WalStore M) (known : Known)
      → All (IsPossible json) cs
      → s.writer.lsn + length cs < 2 ^ 64
      → StoreAgrees json M k known s
      → StoreAgrees json M k (latest json k (store_run cs s).1 known) (store_run cs s).0
  unfolding store_run
  store_run-StoreAgrees k [] s known ps small a = unfold latest in a
  store_run-StoreAgrees k (c ∷ cs) s known (p, ps) small a =
      let (s', now) = store_step c s in
      rw (latest-append json k now (store_run cs s').1 known) (
        store_run-StoreAgrees k cs s' _ ps (omega (arith, store_step-lsn c s))
          (store_step-StoreAgrees k c s known p (omega arith) a))
