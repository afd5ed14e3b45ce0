-- ===== src/Wal/Recovery/Latest.antt =====
-- What a record says of a document, and what is known of one document after a list of records: the
-- content, or the absence, with the highest LSN.
use selfstack.Prelude.{
  ℕ, ◌≡◌, refl, List, [], ◌∷◌, ◌++◌, ◌||◌, Option, none, some, ok, err, leb, ◌==◌, if◌then◌else◌,
  arith, Result-cases, Bool-cases, inl, inr,
}
use selfstack.Prelude.Maps.{lookup, bytes_eq, bytes_beq, bytes_beq_iff, lookup-insert}
use selfstack.Bytes.{Bytes}
use selfstack.Wal.Record.{Record, record_type_insert, record_type_update, record_type_delete}
use selfstack.Wal.Payload.{Json, DocMetadata, Embedding, decode_doc_payload, decode_delete_payload}
use selfstack.Wal.Index.{RecoveredDoc, DocumentIndex, to_recovered_doc}
use selfstack.Wal.Recovery.{stale, Replay, apply_document, apply_tombstone, apply_record}

-- A change of one document: its new content, or its deletion.
abbrev pub Change : Type 0
Change = Bytes × Option RecoveredDoc

-- What is known of one document: nothing, or an LSN with the state that it left.
abbrev pub Known : Type 0
Known = Option (ℕ × Option RecoveredDoc)

-- A change counts if its LSN is higher than that of what is known.
unfoldable pub learn : ℕ → Option RecoveredDoc → Known → Known
learn lsn d none = some (lsn, d)
learn lsn d (some (seen, d')) = if leb lsn seen then some (seen, d') else some (lsn, d)

abbrev pub known_lsn : Known → Option ℕ
known_lsn none = none
known_lsn (some (lsn, d)) = some lsn

abbrev pub known_doc : Known → Option RecoveredDoc
known_doc none = none
known_doc (some (lsn, d)) = d

module _ (json : Json) where
  -- The change that a record stands for, if it can be decoded and is of a document.
  unfoldable pub change : Record → Option Change
  change rec =
      if rec.type == record_type_insert || rec.type == record_type_update
      then (elim (decode_doc_payload json rec.payload) [
        | ok (doc_id, meta, embedding) ↦
            some (doc_id, some (to_recovered_doc doc_id meta embedding))
        | err e ↦ none
      ])
      else if rec.type == record_type_delete
      then (elim (decode_delete_payload rec.payload) [
        | ok doc_id ↦ some (doc_id, none)
        | err e ↦ none
      ])
      else none

  unfoldable pub learn_change : Bytes → ℕ → Option Change → Known → Known
  learn_change k lsn none known = known
  learn_change k lsn (some (doc_id, d)) known =
      if bytes_beq doc_id k then learn lsn d known else known

  -- What is known of the document k after the records, in their order.
  unfoldable pub latest : Bytes → List Record → Known → Known
  latest k [] known = known
  latest k (rec ∷ recs) known = latest k recs (learn_change k rec.lsn (change rec) known)

  pub latest-append :
      (k : Bytes) (xs ys : List Record) (known : Known)
      → latest k (xs ++ ys) known ≡ latest k ys (latest k xs known)
  unfolding latest
  latest-append k [] ys known = refl
  latest-append k (x ∷ xs) ys known = latest-append k xs ys (learn_change k x.lsn (change x) known)

  module _ (I : DocumentIndex) where
    open I use {Index, find}

    -- What a recovery has of the document k is what is known of it.
    pub record Agrees (k : Bytes) (known : Known) (s : Replay json I) : Type 0 where
      pub lsn : lookup k s.doc_lsn ≡ known_lsn known
      pub doc : find k s.index ≡ known_doc known

    apply_document-Agrees :
        (k : Bytes) (known : Known) (s : Replay json I) (lsn : ℕ) (doc_id : Bytes)
        (meta : DocMetadata) (embedding : Embedding)
        → Agrees k known s
        → Agrees k
            (learn_change k lsn
              (some (doc_id, some (to_recovered_doc doc_id meta embedding)))
              known)
            (apply_document json I lsn (doc_id, meta, embedding) s)
    unfolding apply_document learn_change learn stale to_recovered_doc
    apply_document-Agrees k known s lsn doc_id meta embedding a = record {
      lsn =
          ground
            (arith, a.lsn, a.doc, lookup-insert doc_id k lsn s.doc_lsn, bytes_beq_iff doc_id k);
      doc = ground (
        arith,
        a.lsn,
        a.doc,
        bytes_beq_iff doc_id k,
        I.find-set_recovered (to_recovered_doc doc_id meta embedding) k s.index,
      );
    }

    apply_tombstone-Agrees :
        (k : Bytes) (known : Known) (s : Replay json I) (lsn : ℕ) (doc_id : Bytes)
        → Agrees k known s
        → Agrees k
            (learn_change k lsn (some (doc_id, none)) known)
            (apply_tombstone json I lsn doc_id s)
    unfolding apply_tombstone learn_change learn stale
    apply_tombstone-Agrees k known s lsn doc_id a = record {
      lsn =
          ground
            (arith, a.lsn, a.doc, lookup-insert doc_id k lsn s.doc_lsn, bytes_beq_iff doc_id k);
      doc = ground (arith, a.lsn, a.doc, bytes_beq_iff doc_id k, I.find-delete doc_id k s.index);
    }

    -- The state after a record: that before it, if the record cannot be decoded.
    abbrev pub applied : Record → Replay json I → Replay json I
    applied rec s = elim (apply_record json I rec s) [ ok s' ↦ s' | err e ↦ s ]

    pub applied-Agrees :
        (k : Bytes) (known : Known) (rec : Record) (s : Replay json I)
        → Agrees k known s
        → Agrees k (learn_change k rec.lsn (change rec) known) (applied rec s)
    unfolding apply_record change
    applied-Agrees k known rec s a =
        elim (Bool-cases (rec.type == record_type_insert || rec.type == record_type_update)) [
          | inl upsert ↦ elim (Result-cases (decode_doc_payload json rec.payload)) [
            | inl ((doc_id, meta, embedding), d) ↦
                rw (change, applied, apply_record, upsert, d)
                  (apply_document-Agrees k known s rec.lsn doc_id meta embedding a)
            | inr (e, d) ↦ rw (change, applied, apply_record, upsert, d) (unfold learn_change in a)
          ]
          | inr other ↦ elim (Bool-cases (rec.type == record_type_delete)) [
            | inl del ↦ elim (Result-cases (decode_delete_payload rec.payload)) [
              | inl (doc_id, d) ↦
                  rw (change, applied, apply_record, other, del, d)
                    (apply_tombstone-Agrees k known s rec.lsn doc_id a)
              | inr (e, d) ↦
                  rw (change, applied, apply_record, other, del, d) (unfold learn_change in a)
            ]
            | inr rest ↦ rw (change, applied, apply_record, other, rest) (unfold learn_change in a)
          ]
        ]
