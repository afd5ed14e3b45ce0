-- ===== src/Wal/Compactor/Kept.antt =====
-- What a merge keeps of each document is the record with the highest LSN.
use selfstack.Prelude.{
  ℕ, ◌≡◌, sym, ap, ◌∙◌, true, false, ◌||◌, Option, none, some, ok, bind-ok, ltb, leb, ◌==◌,
  if◌then◌else◌, arith, Result-cases, Bool-cases, inl, inr, ◌⊎◌, subst,
}
use selfstack.Prelude.Maps.{
  lookup, bytes_eq, bytes_beq, bytes_beq_iff, beq_refl, lookup-insert, lookup-erase,
}
use selfstack.Bytes.{Bytes}
use selfstack.Wal.Record.{Record, record_type_insert, record_type_update, record_type_delete}
use selfstack.Wal.Payload.{Json, decode_doc_payload, decode_delete_payload}
use selfstack.Wal.Index.{RecoveredDoc, to_recovered_doc}
use selfstack.Wal.Recovery.Latest.{Known, known_lsn, learn, learn_change, change}
use selfstack.Wal.Recovery.Highest.{told}
use selfstack.Wal.Compactor.{Merge, newer, keep_latest, record_doc_id, merge_record}

-- The record that is kept of a document: its tombstone, or else its live record.
abbrev pub entry : Bytes → Merge → Option Record
entry k m = elim (lookup k m.tombstones) [ some r ↦ some r | none ↦ lookup k m.records ]

entry-keep_latest :
    (k doc_id : Bytes) (rec : Record) (m : Merge)
    → entry k (keep_latest doc_id rec m) ≡ (
        if bytes_beq doc_id k
        then (if newer doc_id rec.lsn m.record_lsn then some rec else entry k m)
        else entry k m)
unfolding keep_latest
entry-keep_latest k doc_id rec m = ground (
  arith,
  lookup-insert doc_id k rec m.records,
  lookup-insert doc_id k rec m.tombstones,
  lookup-erase doc_id k m.records,
  lookup-erase doc_id k m.tombstones,
)

record_lsn-keep_latest :
    (k doc_id : Bytes) (rec : Record) (m : Merge)
    → lookup k (keep_latest doc_id rec m).record_lsn ≡ (
        if bytes_beq doc_id k
        then (if newer doc_id rec.lsn m.record_lsn then some rec.lsn else lookup k m.record_lsn)
        else lookup k m.record_lsn)
unfolding keep_latest
record_lsn-keep_latest k doc_id rec m = ground (arith, lookup-insert doc_id k rec.lsn m.record_lsn)

module _ (json : Json) (k : Bytes) where
  abbrev pub knows : Option Record → Known
  knows none = none
  knows (some r) = told json k r

  -- A merge holds what is known of the document.
  pub record Tracks (known : Known) (m : Merge) : Type 0 where
    pub lsn : lookup k m.record_lsn ≡ known_lsn known
    pub held : knows (entry k m) ≡ known

  -- The merge's test and the rule for what is known agree.
  newer-known :
      (known : Known) (lsn : ℕ) (m : Merge)
      → Tracks known m
      → newer k lsn m.record_lsn ≡ (elim known [ none ↦ true | some (seen, d) ↦ ltb seen lsn ])
  unfolding newer
  newer-known none lsn m t = ground (arith, t.lsn)
  newer-known (some (seen, d)) lsn m t = ground (arith, t.lsn)

  told-own :
      (rec : Record) (d : Option RecoveredDoc)
      → change json rec ≡ some (k, d)
      → told json k rec ≡ some (rec.lsn, d)
  unfolding told learn_change learn
  told-own rec d c = rw (c, beq_refl k)

  -- A record of the document.
  keep_latest-own :
      (known : Known) (rec : Record) (d : Option RecoveredDoc) (m : Merge)
      → change json rec ≡ some (k, d)
      → Tracks known m
      → Tracks (learn rec.lsn d known) (keep_latest k rec m)
  unfolding learn
  keep_latest-own none rec d m c t = record {
    lsn = rw (record_lsn-keep_latest k k rec m, beq_refl k, newer-known none rec.lsn m t);
    held =
        rw (entry-keep_latest k k rec m, beq_refl k, newer-known none rec.lsn m t)
          (told-own rec d c);
  }
  keep_latest-own (some (seen, d')) rec d m c t = elim (Bool-cases (ltb seen rec.lsn)) [
    | inl new ↦
        let old : leb rec.lsn seen ≡ false = ground arith in
        record {
          lsn =
              rw
                (record_lsn-keep_latest k k rec m, beq_refl k, newer-known _ rec.lsn m t, new, old);
          held =
              rw (entry-keep_latest k k rec m, beq_refl k, newer-known _ rec.lsn m t, new, old)
                (told-own rec d c);
        }
    | inr stale ↦
        let old : leb rec.lsn seen ≡ true = ground arith in
        record {
          lsn =
              rw
                (
                  record_lsn-keep_latest k k rec m,
                  beq_refl k,
                  newer-known _ rec.lsn m t,
                  stale,
                  old,
                )
                t.lsn;
          held =
              rw (entry-keep_latest k k rec m, beq_refl k, newer-known _ rec.lsn m t, stale, old)
                t.held;
        }
  ]

  pub keep_latest-Tracks :
      (known : Known) (rec : Record) (doc_id : Bytes) (d : Option RecoveredDoc) (m : Merge)
      → change json rec ≡ some (doc_id, d)
      → Tracks known m
      → Tracks (learn_change json k rec.lsn (change json rec) known) (keep_latest doc_id rec m)
  unfolding learn_change
  keep_latest-Tracks known rec doc_id d m c t = elim (Bool-cases (bytes_beq doc_id k)) [
    | inl same ↦
        let is : doc_id ≡ k = (bytes_beq_iff doc_id k).0 same in
        rw (c, same)
          (subst (λ id. Tracks (learn rec.lsn d known) (keep_latest id rec m)) (sym is)
            (keep_latest-own known rec d m (c ∙ ap (λ id. some (id, d)) is) t))
    | inr other ↦
        rw (c, other)
          (record {
            lsn = rw (record_lsn-keep_latest k doc_id rec m, other) t.lsn;
            held = rw (entry-keep_latest k doc_id rec m, other) t.held;
          })
  ]

-- The switch of `mergeRecords` decodes as recovery does.
record_doc_id-change :
    (json : Json) (rec : Record) (found : Option Bytes)
    → record_doc_id json rec ≡ ok found
    → ((found ≡ none) × (change json rec ≡ none))
      ⊎ ((doc_id : Bytes) × (d : Option RecoveredDoc) × (found ≡ some doc_id)
          × (change json rec ≡ some (doc_id, d)))
unfolding record_doc_id change
record_doc_id-change json rec found e =
    elim (Bool-cases (rec.type == record_type_insert || rec.type == record_type_update)) [
      | inl upsert ↦ elim (Result-cases (decode_doc_payload json rec.payload)) [
        | inl ((doc_id, meta, embedding), d) ↦ inr (
          doc_id,
          some (to_recovered_doc doc_id meta embedding),
          ground arith,
          rw (change, upsert, d),
        )
        | inr (x, d) ↦ ground arith
      ]
      | inr other ↦ elim (Bool-cases (rec.type == record_type_delete)) [
        | inl del ↦ elim (Result-cases (decode_delete_payload rec.payload)) [
          | inl (doc_id, d) ↦ inr (doc_id, none, ground arith, rw (change, other, del, d))
          | inr (x, d) ↦ ground arith
        ]
        | inr rest ↦ inl (ground arith, rw (change, other, rest))
      ]
    ]

-- What the loop does with a record: nothing, or the step for its document.
pub merge_record-inv :
    (json : Json) (rec : Record) (m m' : Merge)
    → merge_record json rec m ≡ ok m'
    → ((change json rec ≡ none) × (m' ≡ m))
      ⊎ ((doc_id : Bytes) × (d : Option RecoveredDoc) × (change json rec ≡ some (doc_id, d))
          × (m' ≡ keep_latest doc_id rec m))
unfolding merge_record
merge_record-inv json rec m m' e =
    let (found, f, rest) = bind-ok (record_doc_id json rec) _ e in
    elim (record_doc_id-change json rec found f) [
      | inl (none', c) ↦ inl (c, ground arith)
      | inr (doc_id, d, some', c) ↦ inr (doc_id, d, c, ground arith)
    ]
