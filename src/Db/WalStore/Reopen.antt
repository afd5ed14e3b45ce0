-- ===== src/Db/WalStore/Reopen.antt =====
-- Sequences of calls of Add and Delete of internal/scope/db/walstore.go, and the log behind them.
use selfstack.Prelude.{
  ◌<◌, ◌≡◌, refl, sym, ◌∙◌, List, [], ◌∷◌, ◌++◌, length, Result, ok, if-both, arith, All,
  All-append, subst, le→leb,
}
use selfstack.Prelude.Maps.{bytes_eq}
use selfstack.Bytes.{Bytes, IsByte, put_uint}
use selfstack.Bytes.LittleEndian.{put_uint-IsByte}
use selfstack.Wal.Record.{record_type_insert, record_type_update, record_type_delete}
use selfstack.Wal.Payload.{
  Json, encode_doc_payload, encode_delete_payload, put_floats, max_doc_id_len,
}
use selfstack.Wal.Payload.RoundTrip.{encode-layout}
use selfstack.Wal.Manifest.{ManifestStore}
use selfstack.Wal.Manifest.Keys.{nat_eq}
use selfstack.Wal.Writer.{WriterConfig, Io}
use selfstack.Wal.Writer.Commands.{Acknowledged, IsAtomic}
use selfstack.Db.MemIndex.{Document, set, delete, has}
use selfstack.Db.WalStore.{WalStore, add_type, metadata_of, add, delete_document}
use selfstack.Db.WalStore.Agreement.{IsStorable, IsErasable}
use selfstack.Db.WalStore.Logged.{logged}
use selfstack.Db.WalStore.Written.{
  put_floats-IsByte, IsClean, Holds, HoldsNow, with_payload-HoldsNow,
}
use selfstack.Db.WalStore.Rebuild.{StoreCall, add_call, delete_call, IsPossible, store_step}

module _ (json : Json) (M : ManifestStore) (config : WriterConfig) where
  -- The call as the program makes it.
  abbrev pub call : StoreCall → WalStore M → WalStore M × Result (Unit {0})
  call (add_call io doc) s = add M json config io doc s
  call (delete_call io doc_id) s = delete_document M config io doc_id s

  abbrev pub calls : List StoreCall → WalStore M → WalStore M
  calls [] s = s
  calls (c ∷ cs) s = calls cs (call c s).0

  abbrev pub io_of : StoreCall → Io
  io_of (add_call io doc) = io
  io_of (delete_call io doc_id) = io

  -- Each call can be encoded and decoded, its write is not torn, and it returns no error or leaves the
  -- files of the log as they were.
  abbrev pub AreClean : List StoreCall → WalStore M → Type 0
  AreClean [] s = Unit {0}
  AreClean (c ∷ cs) s =
      (IsPossible json c × IsAtomic (io_of c) × IsClean M s (call c s)) × AreClean cs (call c s).0

  doc-IsByte :
      (doc : Document) (payload : Bytes)
      → IsStorable json doc
      → encode_doc_payload json doc.id (metadata_of doc) doc.embedding ≡ ok payload
      → All IsByte payload
  doc-IsByte doc payload p e = subst (All IsByte) same (
      All-append IsByte (put_uint 2 (length doc.id)) _ (put_uint-IsByte 2 (length doc.id)) (
        All-append IsByte doc.id _ p.id_bytes (
          All-append IsByte (put_uint 4 (length p.meta_json)) _
            (put_uint-IsByte 4 (length p.meta_json))
            (All-append IsByte p.meta_json _ p.json_bytes (put_floats-IsByte doc.embedding)))))
    where
      ok_injective : (a b : Bytes) → ok a ≡ ok b → a ≡ b
      ok_injective a b e = cc

      same :
          put_uint 2 (length doc.id)
            ++ (doc.id
                ++ (put_uint 4 (length p.meta_json) ++ (p.meta_json ++ put_floats doc.embedding)))
          ≡ payload
      same = ok_injective _ payload (
          sym (
            encode-layout json doc.id (metadata_of doc) doc.embedding p.meta_json p.faithful p.dim
              p.words p.short)
          ∙ e)

  tombstone-IsByte :
      (doc_id payload : Bytes)
      → IsErasable doc_id
      → encode_delete_payload doc_id ≡ ok payload
      → All IsByte payload
  unfolding encode_delete_payload
  tombstone-IsByte doc_id payload p e = subst (All IsByte) same (
      All-append IsByte (put_uint 2 (length doc_id)) doc_id (put_uint-IsByte 2 (length doc_id))
        p.id_bytes)
    where
      same : put_uint 2 (length doc_id) ++ doc_id ≡ payload
      same = ground (arith, e, le→leb (length doc_id) max_doc_id_len p.short)

  pub call-HoldsNow :
      (c : StoreCall) (s : WalStore M) (acks : List Acknowledged)
      → IsPossible json c
      → IsAtomic (io_of c)
      → IsClean M s (call c s)
      → Holds M acks s.writer
      → HoldsNow M acks (store_step json M config c s).1 (call c s).0.writer
  unfolding store_step add delete_document add_type
  call-HoldsNow (add_call io doc) s acks p atomic clean h =
      let encoded = encode_doc_payload json doc.id (metadata_of doc) doc.embedding in
      let P = λ (o : WalStore M × Result (Unit {0})).
        IsClean M s o
        → HoldsNow M acks (logged json M (add_type M doc s.index) s.writer.lsn encoded o.1)
            o.0.writer in
      if-both P s.closed _ _ (λ _. (acks, h, refl))
        (with_payload-HoldsNow M json config io (add_type M doc s.index) acks s
          (set doc.id doc s.index) h encoded atomic small (λ payload e. doc-IsByte doc payload p e))
        clean
    where
      small : add_type M doc s.index < 256
      small =
          if-both (λ t. t < 256) (has doc.id s.index) record_type_update record_type_insert
            (omega arith) (omega arith)
  call-HoldsNow (delete_call io doc_id) s acks p atomic clean h =
      let encoded = encode_delete_payload doc_id in
      let P = λ (o : WalStore M × Result (Unit {0})).
        IsClean M s o
        → HoldsNow M acks (logged json M record_type_delete s.writer.lsn encoded o.1) o.0.writer in
      if-both P s.closed _ _ (λ _. (acks, h, refl))
        (with_payload-HoldsNow M json config io record_type_delete acks s (delete doc_id s.index) h
          encoded atomic (omega arith) (λ payload e. tombstone-IsByte doc_id payload p e))
        clean
