-- ===== src/Wal/Compactor/Merged.antt =====
-- The records of the segments that are merged, and those that are kept of them.
use selfstack.Prelude.{
  suc, ◌≡◌, ap, ◌∙◌, List, [], ◌∷◌, Option, none, some, ok, bind-ok, length, ltb, ◌==◌, arith,
  Bool-cases, inl, inr, All, subst,
}
use selfstack.Prelude.Maps.{bytes_eq, Map, All-insert, All-erase}
use selfstack.Bytes.{Bytes, IsByte}
use selfstack.Wal.Record.{Record, IsWellFormed, record_type_delete}
use selfstack.Wal.Payload.{Json}
use selfstack.Wal.Reader.Scan.{scan, kept-zero, collect-scan}
use selfstack.Wal.Reader.Whole.{encode_all, scan-encode_all, scan_sound, length-encode_all}
use selfstack.Wal.Recovery.Whole.{segment_records}
use selfstack.Wal.Compactor.{
  Merge, SegmentInput, empty_merge, newer, keep_latest, merge_record, merge_all, merge_file,
  merge_segment, merge_segments, merge_records, add_all, combined, insert_by_lsn, sort_by_lsn,
  compacted_records,
}
use selfstack.Wal.Compactor.Kept.{merge_record-inv}
use selfstack.Wal.Compactor.Segments.{merge_file-inv}
use selfstack.Wal.Compactor.Output.{All-add_all}

pub segment_records-scan :
    (file : Bytes) → segment_records (some file) ≡ (scan (suc (length file)) file).0
unfolding segment_records
segment_records-scan file =
    ap (λ t. t.0) (collect-scan file 0 (suc (length file)) (omega arith)) ∙ kept-zero _

pub segment_records-encode_all :
    (rs : List Record) → All IsWellFormed rs → segment_records (some (encode_all rs)) ≡ rs
segment_records-encode_all rs w =
    segment_records-scan (encode_all rs)
    ∙ ap (λ t. t.0)
        (scan-encode_all rs (suc (length (encode_all rs))) w (omega (arith, length-encode_all rs)))

-- The bytes of a file, if it can be opened.
abbrev pub IsBytes : Option Bytes → Type 0
IsBytes none = Unit {0}
IsBytes (some file) = All IsByte file

pub segment_records-IsWellFormed :
    (segment : Option Bytes) → IsBytes segment → All IsWellFormed (segment_records segment)
segment_records-IsWellFormed none b = unfold segment_records in tt
segment_records-IsWellFormed (some file) b =
    rw (segment_records-scan file) ((scan_sound (suc (length file)) file b).2)

-- A property of all records that are merged is one of all that are kept.
module _ (json : Json) (P : Record → Type 0) where
  abbrev OfRecord : Bytes × Record → Type 0
  OfRecord e = P e.1

  record Holds (m : Merge) : Type 0 where
    pub records : All OfRecord m.records
    tombstones : All OfRecord m.tombstones

  keep_latest-Holds :
      (id : Bytes) (rec : Record) (m : Merge) → P rec → Holds m → Holds (keep_latest id rec m)
  unfolding keep_latest
  keep_latest-Holds id rec m p h = elim (Bool-cases (newer id rec.lsn m.record_lsn)) [
    | inr stale ↦ rw stale h
    | inl new ↦ elim (Bool-cases (rec.type == record_type_delete)) [
      | inl del ↦
          rw (new, del)
            (record {
              records = All-erase OfRecord id m.records h.records;
              tombstones = All-insert OfRecord id rec m.tombstones p h.tombstones;
            })
      | inr live ↦
          rw (new, live)
            (record {
              records = All-insert OfRecord id rec m.records p h.records;
              tombstones = All-erase OfRecord id m.tombstones h.tombstones;
            })
    ]
  ]

  merge_all-Holds :
      (recs : List Record) (m m' : Merge)
      → merge_all json recs m ≡ ok m'
      → All P recs
      → Holds m
      → Holds m'
  unfolding merge_all
  merge_all-Holds [] m m' e ps h = subst Holds (ground arith) h
  merge_all-Holds (rec ∷ recs) m m' e (p, ps) h =
      let (mid, first, rest) = bind-ok (merge_record json rec m) (merge_all json recs) e in
      elim (merge_record-inv json rec m mid first) [
        | inl (c, same) ↦ merge_all-Holds recs mid m' rest ps (rw same h)
        | inr (id, d, c, same) ↦
            merge_all-Holds recs mid m' rest ps (rw same (keep_latest-Holds id rec m p h))
      ]

  merge_segments-Holds :
      (segs : List SegmentInput) (m m' : Merge)
      → merge_segments json segs m ≡ ok m'
      → All (λ (s : SegmentInput). All P (segment_records s.file)) segs
      → Holds m
      → Holds m'
  unfolding merge_segments merge_segment
  merge_segments-Holds [] m m' e ps h = subst Holds (ground arith) h
  merge_segments-Holds (seg ∷ segs) m m' e (p, ps) h =
      let (mid, first, rest) =
        bind-ok (merge_file json seg.checksum seg.file m) (merge_segments json segs) e in
      merge_segments-Holds segs mid m' rest ps (
        merge_all-Holds (segment_records seg.file) m mid
          (merge_file-inv json seg.checksum seg.file m mid first) p h)

  insert-All : (r : Record) (rs : List Record) → P r → All P rs → All P (insert_by_lsn r rs)
  unfolding insert_by_lsn
  insert-All r [] p h = (p, tt)
  insert-All r (x ∷ xs) p (q, h) = elim (Bool-cases (ltb x.lsn r.lsn)) [
    | inl later ↦ rw later (q, insert-All r xs p h)
    | inr here ↦ rw here (p, (q, h))
  ]

  sort-All : (m : Map Bytes Record) → All OfRecord m → All P (sort_by_lsn m)
  unfolding sort_by_lsn
  sort-All [] h = tt
  sort-All ((id, r) ∷ m) (p, h) = insert-All r (sort_by_lsn m) p (sort-All m h)

  pub compacted-All :
      (segs : List SegmentInput) (m : Merge)
      → merge_records json segs ≡ ok m
      → All (λ (s : SegmentInput). All P (segment_records s.file)) segs
      → All P (compacted_records m)
  unfolding merge_records compacted_records combined
  compacted-All segs m e ps =
      let h =
        merge_segments-Holds segs empty_merge m e ps (record { records = tt; tombstones = tt }) in
      sort-All (combined m) (
        All-add_all OfRecord m.tombstones (add_all m.records []) h.tombstones
          (All-add_all OfRecord m.records [] h.records tt))
