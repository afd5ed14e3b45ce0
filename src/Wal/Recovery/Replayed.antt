-- ===== src/Wal/Recovery/Replayed.antt =====
-- internal/scope/db/wal/recovery.go: what a recovery along the manifest finds.
use selfstack.Prelude.{
  ℕ, ◌+◌, ◌≡◌, refl, ap, ◌∙◌, List, [], ◌∷◌, ◌++◌, ◌||◌, Option, none, some, Result, ok, err, Error,
  arith, inl, inr, Bool-cases, Result-cases, ltb, subst, ◌==◌, if◌then◌else◌,
}
use selfstack.Prelude.Maps.{lookup, bytes_eq}
use selfstack.Prelude.Sorting.{sort_slice}
use selfstack.Bytes.{Bytes}
use selfstack.Wal.Record.{Record, record_type_insert, record_type_update, record_type_delete}
use selfstack.Wal.Payload.{Json, decode_doc_payload, decode_delete_payload}
use selfstack.Wal.Manifest.{SegmentInfo, WalState}
use selfstack.Wal.Manifest.Postgres.{by_id}
use selfstack.Wal.Index.{DocumentIndex}
use selfstack.Wal.Compactor.{record_doc_id}
use selfstack.Wal.Recovery.{Progress, Replay, apply_record}
use selfstack.Wal.Recovery.Latest.{
  Known, known_doc, latest, latest-append, Agrees, applied, applied-Agrees, learn_change, change,
}
use selfstack.Wal.Recovery.ByManifest.{
  Directory, visit_all, fresh, replay_records, replay_active_wal, find_active_segment, recover,
}
use selfstack.Wal.Recovery.Visited.{records_behind, manifest_records, visit_all-Agrees}

-- The records in front of the first whose payload cannot be decoded.
unfoldable pub decodable : Json → List Record → List Record
decodable json [] = []
decodable json (rec ∷ recs) =
    let rest = decodable json recs in
    elim (record_doc_id json rec) [ ok found ↦ rec ∷ rest | err e ↦ [] ]

pub decodable-ok :
    (json : Json) (rec : Record) (recs : List Record) (found : Option Bytes)
    → record_doc_id json rec ≡ ok found
    → decodable json (rec ∷ recs) ≡ rec ∷ decodable json recs
unfolding decodable
decodable-ok json rec recs found e = rw (decodable, e) refl

pub decodable-err :
    (json : Json) (rec : Record) (recs : List Record) (x : Error)
    → record_doc_id json rec ≡ err x
    → decodable json (rec ∷ recs) ≡ []
unfolding decodable
decodable-err json rec recs x e = rw (decodable, e) refl

-- A record can be applied if it can be decoded, and is otherwise refused with the same error.
abbrev Applies : {A S : Type 0} → Result A → Result S → Type 0
Applies {A} {S} (ok a) applied = (s : S) × (applied ≡ ok s)
Applies (err e) applied = applied ≡ err e

apply-decodes :
    (json : Json) (I : DocumentIndex) (rec : Record) (r : Replay json I)
    → Applies (record_doc_id json rec) (apply_record json I rec r)
unfolding record_doc_id apply_record
apply-decodes json I rec r =
    elim (Bool-cases (rec.type == record_type_insert || rec.type == record_type_update)) [
      | inl upsert ↦ elim (Result-cases (decode_doc_payload json rec.payload)) [
        | inl (d, e) ↦ rw (Applies, record_doc_id, apply_record, upsert, e) (_, refl)
        | inr (x, e) ↦ rw (Applies, record_doc_id, apply_record, upsert, e) refl
      ]
      | inr other ↦ elim (Bool-cases (rec.type == record_type_delete)) [
        | inl del ↦ elim (Result-cases (decode_delete_payload rec.payload)) [
          | inl (d, e) ↦ rw (Applies, record_doc_id, apply_record, other, del, e) (_, refl)
          | inr (x, e) ↦ rw (Applies, record_doc_id, apply_record, other, del, e) refl
        ]
        | inr rest ↦ rw (Applies, record_doc_id, apply_record, other, rest) (r, refl)
      ]
    ]

module _ (json : Json) (I : DocumentIndex) (k : Bytes) where
  abbrev next_progress : Record → Progress json I → Replay json I → Progress json I
  next_progress rec p s = record {
    stats = record p.stats {
      max_lsn = if ltb p.stats.max_lsn rec.lsn then rec.lsn else p.stats.max_lsn;
    };
    replay = s;
  }

  applied-ok :
      (rec : Record) (p : Progress json I) (s : Replay json I)
      → apply_record json I rec p.replay ≡ ok s
      → applied json I rec p.replay ≡ s
  applied-ok rec p s e = rw (applied, e) refl

  replay_records-ok :
      (rec : Record) (recs : List Record) (n : ℕ) (p : Progress json I) (s : Replay json I)
      → apply_record json I rec p.replay ≡ ok s
      → replay_records json I (rec ∷ recs) n p
        ≡ replay_records json I recs (n + 1) (next_progress rec p s)
  unfolding replay_records
  replay_records-ok rec recs n p s e = rw (replay_records, e) refl

  replay_records-err :
      (rec : Record) (recs : List Record) (n : ℕ) (p : Progress json I) (x : Error)
      → apply_record json I rec p.replay ≡ err x
      → replay_records json I (rec ∷ recs) n p ≡ (p, n)
  unfolding replay_records
  replay_records-err rec recs n p x e = rw (replay_records, e) refl

  latest-decodable :
      (rec : Record) (recs : List Record) (known : Known) (found : Option Bytes)
      → record_doc_id json rec ≡ ok found
      → latest json k (decodable json (rec ∷ recs)) known
        ≡ latest json k (decodable json recs) (learn_change json k rec.lsn (change json rec) known)
  latest-decodable rec recs known found e =
      ap (λ t. latest json k t known) (decodable-ok json rec recs found e) ∙ (unfold latest in refl)

  replay_records-Agrees :
      (recs : List Record) (n : ℕ) (known : Known) (p : Progress json I)
      → Agrees json I k known p.replay
      → Agrees json I k
          (latest json k (decodable json recs) known)
          (replay_records json I recs n p).0.replay
  replay_records-Agrees [] n known p a = unfold decodable replay_records latest in a
  replay_records-Agrees (rec ∷ recs) n known p a =
      let decides = apply-decodes json I rec p.replay in
      elim (Result-cases (record_doc_id json rec)) [
        | inl (found, e) ↦
            let (s, e') = subst (λ t. Applies t (apply_record json I rec p.replay)) e decides in
            let step =
              subst (Agrees json I k (learn_change json k rec.lsn (change json rec) known))
                (applied-ok rec p s e') (applied-Agrees json I k known rec p.replay a) in
            rw (replay_records-ok rec recs n p s e', latest-decodable rec recs known found e)
              (replay_records-Agrees recs (n + 1) _ (next_progress rec p s) step)
        | inr (x, e) ↦
            let e' = subst (λ t. Applies t (apply_record json I rec p.replay)) e decides in
            rw (replay_records-err rec recs n p x e', decodable-err json rec recs x e)
              (unfold latest in a)
      ]

  replay_active-Agrees :
      (checkpoint_lsn : ℕ) (file : Option Bytes) (known : Known) (p : Progress json I)
      → Agrees json I k known p.replay
      → Agrees json I k
          (latest json k (decodable json (records_behind checkpoint_lsn file)) known)
          (replay_active_wal json I checkpoint_lsn file p).replay
  unfolding replay_active_wal records_behind
  replay_active-Agrees checkpoint_lsn none known p a = unfold decodable latest in a
  replay_active-Agrees checkpoint_lsn (some file) known p a =
      let agrees = replay_records-Agrees (records_behind checkpoint_lsn (some file)) 0 known p a in
      record { lsn = agrees.lsn; doc = agrees.doc }

  recover-visited :
      (state : WalState) (segs : List SegmentInfo) (dir : Directory) (index : I.Index)
      → (recover json I (ok (state, segs)) dir index).1 ≡ none
      → let sorted = sort_slice by_id segs in
        let visited = visit_all json I state.checkpoint_lsn dir sorted (fresh json I index) in
        (visited.1 ≡ none)
        × ((recover json I (ok (state, segs)) dir index).0
            ≡ replay_active_wal json I state.checkpoint_lsn
                (find_active_segment state sorted dir)
                visited.0)
  unfolding recover
  recover-visited state segs dir index done = ground arith

  pub recover_by_manifest-latest :
      (state : WalState) (segs : List SegmentInfo) (dir : Directory) (index : I.Index)
      → (recover json I (ok (state, segs)) dir index).1 ≡ none
      → ((j : Bytes) → I.find j index ≡ none)
      → let sorted = sort_slice by_id segs in
        let active = records_behind state.checkpoint_lsn (find_active_segment state sorted dir) in
        I.find k (recover json I (ok (state, segs)) dir index).0.replay.index
        ≡ known_doc (
            latest json k
              (manifest_records state.checkpoint_lsn dir sorted ++ decodable json active)
              none)
  recover_by_manifest-latest state segs dir index done empty =
      let sorted = sort_slice by_id segs in
      let (none_failed, replayed) = recover-visited state segs dir index done in
      let start : Agrees json I k none (fresh json I index).replay = record {
        lsn = unfold lookup in refl;
        doc = empty k;
      } in
      let visited =
        visit_all-Agrees json I state.checkpoint_lsn k dir sorted none (fresh json I index)
          none_failed start in
      let all =
        replay_active-Agrees state.checkpoint_lsn (find_active_segment state sorted dir) _ _
          visited in
      rw (replayed, latest-append json k (manifest_records state.checkpoint_lsn dir sorted) _ none)
        all.doc
