-- ===== src/Wal/Compactor/Segments.antt =====
-- A merge over whole segments: it tracks every document through the records of all of them, and
-- its maps are tidy.
use selfstack.Prelude.{
  ℕ, ◌≡◌, refl, ap, ◌∙◌, List, [], ◌∷◌, Option, none, some, ok, Error, bind-ok, guard-ok, arith,
  Bool-cases, inl, inr, All, subst, ◌==◌, segment_checksum_mismatch,
}
use selfstack.Prelude.Maps.{
  lookup, bytes_eq, IsFunctional, insert-IsFunctional, erase-IsFunctional, All-insert, All-erase,
}
use selfstack.Bytes.{Bytes}
use selfstack.Wal.Record.{Record, record_type_delete}
use selfstack.Wal.Payload.{Json}
use selfstack.Wal.Index.{RecoveredDoc}
use selfstack.Wal.Recovery.Latest.{Known, latest, latest-append, learn_change, change}
use selfstack.Wal.Recovery.Whole.{segment_records, all_records}
use selfstack.Wal.Compactor.{
  Merge, merge_file, empty_merge, newer, keep_latest, merge_record, merge_all, SegmentInput,
  unless_error, merge_segment, merge_segments, merge_records,
}
use selfstack.Wal.Compactor.Kept.{Tracks, keep_latest-Tracks, merge_record-inv}

module _ (json : Json) where
  -- An entry's record is about the entry's document.
  abbrev pub IsOwn : Bytes × Record → Type 0
  IsOwn (doc_id, rec) = (d : Option RecoveredDoc) × (change json rec ≡ some (doc_id, d))

  pub record IsTidy (m : Merge) : Type 0 where
    pub records : IsFunctional m.records
    pub tombstones : IsFunctional m.tombstones
    pub own_records : All IsOwn m.records
    pub own_tombstones : All IsOwn m.tombstones

  keep_latest-IsTidy :
      (doc_id : Bytes) (rec : Record) (m : Merge)
      → IsOwn (doc_id, rec)
      → IsTidy m
      → IsTidy (keep_latest doc_id rec m)
  unfolding keep_latest
  keep_latest-IsTidy doc_id rec m own t = elim (Bool-cases (newer doc_id rec.lsn m.record_lsn)) [
    | inr stale ↦ rw stale t
    | inl new ↦ elim (Bool-cases (rec.type == record_type_delete)) [
      | inl del ↦
          rw (new, del)
            (record {
              records = erase-IsFunctional doc_id m.records t.records;
              tombstones = insert-IsFunctional doc_id rec m.tombstones t.tombstones;
              own_records = All-erase IsOwn doc_id m.records t.own_records;
              own_tombstones = All-insert IsOwn doc_id rec m.tombstones own t.own_tombstones;
            })
      | inr live ↦
          rw (new, live)
            (record {
              records = insert-IsFunctional doc_id rec m.records t.records;
              tombstones = erase-IsFunctional doc_id m.tombstones t.tombstones;
              own_records = All-insert IsOwn doc_id rec m.records own t.own_records;
              own_tombstones = All-erase IsOwn doc_id m.tombstones t.own_tombstones;
            })
    ]
  ]

  merge_all-keeps :
      (k : Bytes) (recs : List Record) (known : Known) (m m' : Merge)
      → merge_all json recs m ≡ ok m'
      → Tracks json k known m
      → IsTidy m
      → Tracks json k (latest json k recs known) m' × IsTidy m'
  unfolding merge_all latest
  merge_all-keeps k [] known m m' e t tidy =
      (subst (Tracks json k known) (same e) t, subst IsTidy (same e) tidy)
    where
      same : ok m ≡ ok m' → m ≡ m'
      same e = ground arith
  merge_all-keeps k (rec ∷ recs) known m m' e t tidy =
      let (mid, first, rest) = bind-ok (merge_record json rec m) (merge_all json recs) e in
      elim (merge_record-inv json rec m mid first) [
        | inl (c, same) ↦
            merge_all-keeps k recs _ mid m' rest (rw (c, same) (unfold learn_change in t))
              (rw same tidy)
        | inr (doc_id, d, c, same) ↦
            merge_all-keeps k recs _ mid m' rest
              (rw same (keep_latest-Tracks json k known rec doc_id d m c t))
              (rw same (keep_latest-IsTidy doc_id rec m (d, c) tidy))
      ]

  unless_error-ok : (error : Option Error) (m m' : Merge) → unless_error error m ≡ ok m' → m ≡ m'
  unless_error-ok none m m' e = ground arith
  unless_error-ok (some x) m m' e = cc

  -- A segment that is merged without an error has given all the records that can be read from it.
  pub merge_file-inv :
      (checksum : Option ℕ) (file : Option Bytes) (m m' : Merge)
      → merge_file json checksum file m ≡ ok m'
      → merge_all json (segment_records file) m ≡ ok m'
  unfolding merge_file segment_records
  merge_file-inv checksum none m m' e = cc
  merge_file-inv checksum (some file) m m' e =
      let (_, more) = guard-ok _ segment_checksum_mismatch _ e in
      let (mid, merged, last) = bind-ok (merge_all json (segment_records (some file)) m) _ more in
      merged ∙ ap ok (unless_error-ok _ mid m' last)

  abbrev pub files : List SegmentInput → List (Option Bytes)
  files [] = []
  files (seg ∷ segs) = seg.file ∷ files segs

  merge_segments-keeps :
      (k : Bytes) (segs : List SegmentInput) (known : Known) (m m' : Merge)
      → merge_segments json segs m ≡ ok m'
      → Tracks json k known m
      → IsTidy m
      → Tracks json k (latest json k (all_records (files segs)) known) m' × IsTidy m'
  unfolding merge_segments all_records merge_segment
  merge_segments-keeps k [] known m m' e t tidy =
      merge_all-keeps k [] known m m' (unfold merge_all in e) t tidy
  merge_segments-keeps k (seg ∷ segs) known m m' e t tidy =
      let (mid, first, rest) =
        bind-ok (merge_file json seg.checksum seg.file m) (merge_segments json segs) e in
      let (t', tidy') =
        merge_all-keeps k (segment_records seg.file) known m mid
          (merge_file-inv seg.checksum seg.file m mid first) t tidy in
      rw (latest-append json k (segment_records seg.file) (all_records (files segs)) known)
        (merge_segments-keeps k segs _ mid m' rest t' tidy')

  -- What a merge holds of a document is what is known of it after the records of all segments.
  pub merge_records-keeps :
      (k : Bytes) (segs : List SegmentInput) (m : Merge)
      → merge_records json segs ≡ ok m
      → Tracks json k (latest json k (all_records (files segs)) none) m × IsTidy m
  unfolding merge_records
  merge_records-keeps k segs m e = merge_segments-keeps k segs none empty_merge m e start tidy
    where
      start : Tracks json k none empty_merge
      start = record { lsn = unfold lookup in refl; held = unfold lookup in refl }

      tidy : IsTidy empty_merge
      tidy = record { records = tt; tombstones = tt; own_records = tt; own_tombstones = tt }
