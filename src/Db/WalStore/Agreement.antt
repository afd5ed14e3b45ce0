-- ===== src/Db/WalStore/Agreement.antt =====
-- The index of a store and the records that its calls log.
use selfstack.Prelude.{
  ◌+◌, ◌^◌, ◌≤◌, ◌<◌, ◌≡◌, refl, sym, ap, ◌∙◌, subst, ◌++◌, length, true, false, ◌||◌, Option, none,
  some, Result, ok, ◌>>=◌, ◌==◌, if◌then◌else◌, if-both, le→leb, arith, All,
}
use selfstack.Prelude.Maps.{bytes_eq, bytes_beq, lookup-insert, lookup-erase}
use selfstack.Bytes.{Bytes, IsByte, put_uint}
use selfstack.Wal.Record.{
  Record, new_record, record_type_insert, record_type_update, record_type_delete,
}
use selfstack.Wal.Payload.{
  Json, embedding_dim, max_doc_id_len, encode_doc_payload, decode_doc_payload,
  encode_delete_payload, decode_delete_payload,
}
use selfstack.Wal.Payload.RoundTrip.{Faithful, layout, encode-layout, decode-layout}
use selfstack.Wal.Payload.Delete.{delete_payload_round_trip}
use selfstack.Wal.Index.{RecoveredDoc, to_recovered_doc}
use selfstack.Wal.Recovery.Latest.{Known, change, latest}
use selfstack.Wal.Manifest.{ManifestStore}
use selfstack.Wal.Writer.{WriterConfig, Io}
use selfstack.Wal.Writer.Acknowledged.{new_record-fields}
use selfstack.Db.MemIndex.{Document, get, set, delete}
use selfstack.Db.MemIndex.Laws.{find_recovered}
use selfstack.Db.WalStore.{
  WalStore, log, finish_with, with_payload, add_type, metadata_of, add, delete_document,
}
use selfstack.Db.WalStore.Logged.{log-IsLogged, StoreAgrees, logged, finish_with-StoreAgrees}

-- A document whose payload can be decoded.
pub record IsStorable (json : Json) (doc : Document) : Type 0 where
  pub meta_json : Bytes
  pub faithful : Faithful json (metadata_of doc) meta_json
  pub dim : length doc.embedding ≡ embedding_dim
  pub words : All (λ x. x < 2 ^ 32) doc.embedding
  pub short : length doc.id ≤ max_doc_id_len
  pub id_bytes : All IsByte doc.id
  pub json_bytes : All IsByte meta_json

-- An ID that a tombstone can hold: the empty one cannot be decoded.
pub record IsErasable (doc_id : Bytes) : Type 0 where
  pub filled : 0 < length doc_id
  pub short : length doc_id ≤ max_doc_id_len
  pub id_bytes : All IsByte doc_id

module _ (json : Json) (M : ManifestStore) (config : WriterConfig) (io : Io) (k : Bytes) where
  module _ (doc : Document) (s : WalStore M) (storable : IsStorable json doc) where
    abbrev payload_of : Bytes
    payload_of =
        layout json doc.id (metadata_of doc) doc.embedding storable.meta_json storable.faithful
          storable.dim storable.words storable.short

    abbrev content_of : Option RecoveredDoc
    content_of = some (to_recovered_doc doc.id (metadata_of doc) doc.embedding)

    upsert-type :
        (rec : Record)
        → rec.type ≡ add_type M doc s.index
        → (rec.type == record_type_insert || rec.type == record_type_update) ≡ true
    unfolding add_type
    upsert-type rec e = ground (arith, e)

    add-change :
        (rec : Record)
        → new_record (add_type M doc s.index) s.writer.lsn payload_of ≡ ok rec
        → change json rec ≡ some (doc.id, content_of)
    unfolding change
    add-change rec made =
        let (t, _, p) =
          new_record-fields (add_type M doc s.index) s.writer.lsn payload_of rec made in
        let decoded =
          ap (decode_doc_payload json) p
          ∙ decode-layout json doc.id (metadata_of doc) doc.embedding storable.meta_json
              storable.faithful storable.dim storable.words storable.short in
        rw (change, upsert-type rec t, decoded) refl

    set-seen :
        find_recovered k (set doc.id doc s.index)
        ≡ (if bytes_beq doc.id k then content_of else find_recovered k s.index)
    unfolding find_recovered get set to_recovered_doc metadata_of
    set-seen = ground (arith, lookup-insert doc.id k doc s.index.docs)

    -- After an `Add`, failed or not, the index agrees with the log.
    pub add-StoreAgrees :
        (known : Known)
        → s.writer.lsn + 1 < 2 ^ 64
        → StoreAgrees json M k known s
        → let (s', r) = add M json config io doc s in
          StoreAgrees json M k
            (latest json k
              (logged json M
                (add_type M doc s.index)
                s.writer.lsn
                (encode_doc_payload json doc.id (metadata_of doc) doc.embedding)
                r)
              known)
            s'
    unfolding add
    add-StoreAgrees known small a =
        let type = add_type M doc s.index in
        let encoded = encode_doc_payload json doc.id (metadata_of doc) doc.embedding in
        let written = λ (payload : Bytes).
          finish_with M s (set doc.id doc s.index) (log M config io type payload s.writer) in
        let P = λ (e : Result Bytes) (o : WalStore M × Result (Unit {0})).
          StoreAgrees json M k (latest json k (logged json M type s.writer.lsn e o.1) known) o.0 in
        if-both (P encoded) s.closed _ _ (unfold latest in a) (
          subst (λ e. P e (with_payload M s e written))
            (sym (
              encode-layout json doc.id (metadata_of doc) doc.embedding storable.meta_json
                storable.faithful storable.dim storable.words storable.short))
            (finish_with-StoreAgrees json M config io type payload_of s (set doc.id doc s.index) k
              doc.id content_of add-change set-seen small known
              (log M config io type payload_of s.writer) a
              (log-IsLogged M config io type payload_of s.writer)))

  module _ (doc_id : Bytes) (s : WalStore M) (erasable : IsErasable doc_id) where
    abbrev tombstone_of : Bytes
    tombstone_of = put_uint 2 (length doc_id) ++ doc_id

    encode-tombstone : encode_delete_payload doc_id ≡ ok tombstone_of
    unfolding encode_delete_payload
    encode-tombstone = rw (le→leb (length doc_id) max_doc_id_len erasable.short) refl

    decode-tombstone : decode_delete_payload tombstone_of ≡ ok doc_id
    decode-tombstone =
        ap (λ e. e >>= decode_delete_payload) (sym encode-tombstone)
        ∙ delete_payload_round_trip doc_id
        ∙ rw (le→leb (length doc_id) max_doc_id_len erasable.short, filled) refl
      where
        filled : (length doc_id == 0) ≡ false
        filled = ground (arith, erasable.filled)

    delete-change :
        (rec : Record)
        → new_record record_type_delete s.writer.lsn tombstone_of ≡ ok rec
        → change json rec ≡ some (doc_id, none)
    unfolding change
    delete-change rec made =
        let (t, _, p) = new_record-fields record_type_delete s.writer.lsn tombstone_of rec made in
        let decoded = ap decode_delete_payload p ∙ decode-tombstone in rw (change, t, decoded) refl

    delete-seen :
        find_recovered k (delete doc_id s.index)
        ≡ (if bytes_beq doc_id k then none else find_recovered k s.index)
    unfolding find_recovered get delete
    delete-seen = ground (arith, lookup-erase doc_id k s.index.docs)

    pub delete-StoreAgrees :
        (known : Known)
        → s.writer.lsn + 1 < 2 ^ 64
        → StoreAgrees json M k known s
        → let (s', r) = delete_document M config io doc_id s in
          StoreAgrees json M k
            (latest json k
              (logged json M record_type_delete s.writer.lsn (encode_delete_payload doc_id) r)
              known)
            s'
    unfolding delete_document
    delete-StoreAgrees known small a =
        let written = λ (payload : Bytes).
          finish_with M s (delete doc_id s.index)
            (log M config io record_type_delete payload s.writer) in
        let P = λ (e : Result Bytes) (o : WalStore M × Result (Unit {0})).
          StoreAgrees json M k
            (latest json k (logged json M record_type_delete s.writer.lsn e o.1) known) o.0 in
        if-both (P (encode_delete_payload doc_id)) s.closed _ _ (unfold latest in a) (
          subst (λ e. P e (with_payload M s e written)) (sym encode-tombstone)
            (finish_with-StoreAgrees json M config io record_type_delete tombstone_of s
              (delete doc_id s.index) k doc_id none delete-change delete-seen small known
              (log M config io record_type_delete tombstone_of s.writer) a
              (log-IsLogged M config io record_type_delete tombstone_of s.writer)))
