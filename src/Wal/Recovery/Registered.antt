-- ===== src/Wal/Recovery/Registered.antt =====
-- internal/scope/db/wal/recovery.go: a recovery along a manifest that names the active segment.
use selfstack.Prelude.{
  ℕ, ◌≡◌, refl, sym, ap, ◌∙◌, List, [], ◌∷◌, true, Option, none, some, ok, arith, inl, inr, ◌⊎◌,
  if-both, if-split, Result-cases, subst,
}
use selfstack.Prelude.Maps.{lookup, bytes_eq}
use selfstack.Prelude.Sorting.{sort_slice}
use selfstack.Bytes.{Bytes}
use selfstack.Wal.Record.{Record}
use selfstack.Wal.Payload.{Json}
use selfstack.Wal.Manifest.{SegmentInfo, archived, status_beq, WalState}
use selfstack.Wal.Manifest.Postgres.{by_id}
use selfstack.Wal.Index.{DocumentIndex}
use selfstack.Wal.Compactor.{record_doc_id}
use selfstack.Wal.Recovery.Latest.{known_doc, latest}
use selfstack.Wal.Index.{RecoveredDoc}
use selfstack.Wal.Recovery.Same.{Says, Says-append, latest-again}
use selfstack.Wal.Recovery.ByManifest.{Directory, find_listed, find_active_segment, recover}
use selfstack.Wal.Recovery.Visited.{records_behind, manifest_records}
use selfstack.Wal.Recovery.Replayed.{
  decodable, decodable-ok, decodable-err, recover_by_manifest-latest,
}
use selfstack.Wal.Manifest.{active}

-- The active file that the manifest names has been read with the other segments already.
module _ (json : Json) (k : Bytes) (checkpoint_lsn : ℕ) (dir : Directory) (l : ℕ)
    (d : Option RecoveredDoc) where
  decodable-Says :
      (recs : List Record) → Says json k l d (decodable json recs) → Says json k l d recs
  decodable-Says [] h = absurd (unfold decodable in h)
  decodable-Says (rec ∷ recs) h = elim (Result-cases (record_doc_id json rec)) [
    | inl (found, e) ↦ elim (subst (Says json k l d) (decodable-ok json rec recs found e) h) [
      | inl p ↦ inl p
      | inr later ↦ inr (decodable-Says recs later)
    ]
    | inr (x, e) ↦ absurd (subst (Says json k l d) (decodable-err json rec recs x e) h)
  ]

  manifest-later :
      (seg : SegmentInfo) (segs : List SegmentInfo)
      → Says json k l d (manifest_records checkpoint_lsn dir segs)
      → Says json k l d (manifest_records checkpoint_lsn dir (seg ∷ segs))
  unfolding manifest_records
  manifest-later seg segs h =
      if-both (Says json k l d) (status_beq seg.status archived) _ _ h
        (Says-append json k l d (records_behind checkpoint_lsn (lookup seg.filename dir)) _ (inr h))

  manifest-here :
      (seg : SegmentInfo) (segs : List SegmentInfo)
      → status_beq seg.status active ≡ true
      → Says json k l d (records_behind checkpoint_lsn (lookup seg.filename dir))
      → Says json k l d (manifest_records checkpoint_lsn dir (seg ∷ segs))
  unfolding manifest_records
  manifest-here seg segs live h =
      if-split (Says json k l d) (status_beq seg.status archived) _ _
        (λ gone. absurd (ground (arith, live, gone)))
        (λ kept.
          Says-append json k l d (records_behind checkpoint_lsn (lookup seg.filename dir)) _
            (inl h))

  listed-cases :
      (seg : SegmentInfo) (segs : List SegmentInfo) (file : Bytes)
      → find_listed (seg ∷ segs) dir ≡ some file
      → ((status_beq seg.status active ≡ true) × (lookup seg.filename dir ≡ some file))
        ⊎ (find_listed segs dir ≡ some file)
  unfolding find_listed
  listed-cases seg segs file e = ground arith

  listed-Says :
      (segs : List SegmentInfo) (file : Bytes)
      → find_listed segs dir ≡ some file
      → Says json k l d (records_behind checkpoint_lsn (some file))
      → Says json k l d (manifest_records checkpoint_lsn dir segs)
  listed-Says [] file e h = absurd (unfold find_listed in cc)
  listed-Says (seg ∷ segs) file e h = elim (listed-cases seg segs file e) [
    | inl (live, there) ↦
        manifest-here seg segs live
          (subst (λ f. Says json k l d (records_behind checkpoint_lsn f)) (sym there) h)
    | inr later ↦ manifest-later seg segs (listed-Says segs file later h)
  ]

find_active-listed :
    (state : WalState) (segs : List SegmentInfo) (dir : Directory) (file : Bytes)
    → find_listed segs dir ≡ some file
    → find_active_segment state segs dir ≡ some file
unfolding find_active_segment
find_active-listed state segs dir file listed = rw (find_active_segment, listed) refl

-- If the manifest names an active segment whose file is there, what `Recover` finds of a document,
-- if it returns no error, is what the record with the highest LSN says of it, among the records
-- behind the checkpoint of the segments that are not archived: that the active one is read twice
-- makes no difference.
pub recover_by_manifest-registered :
    (json : Json) (I : DocumentIndex) (state : WalState) (segs : List SegmentInfo) (dir : Directory)
    (index : I.Index) (k file : Bytes)
    → find_listed (sort_slice by_id segs) dir ≡ some file
    → (recover json I (ok (state, segs)) dir index).1 ≡ none
    → ((j : Bytes) → I.find j index ≡ none)
    → I.find k (recover json I (ok (state, segs)) dir index).0.replay.index
      ≡ known_doc
          (latest json k (manifest_records state.checkpoint_lsn dir (sort_slice by_id segs)) none)
recover_by_manifest-registered json I state segs dir index k file listed done empty =
    let sorted = sort_slice by_id segs in
    let active = find_active-listed state sorted dir file listed in
    recover_by_manifest-latest json I k state segs dir index done empty
    ∙ ap known_doc (
        latest-again json k (manifest_records state.checkpoint_lsn dir sorted)
          (decodable json
            (records_behind state.checkpoint_lsn (find_active_segment state sorted dir)))
          (λ l d s. listed-Says json k state.checkpoint_lsn dir l d sorted file listed (
            decodable-Says json k state.checkpoint_lsn dir l d _ (
              subst (λ f. Says json k l d (decodable json (records_behind state.checkpoint_lsn f)))
                active s))))
