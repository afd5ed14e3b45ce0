-- ===== src/Wal/Compactor/Settled.antt =====
-- The rows behind the transaction of a compaction.
use selfstack.Prelude.{
  ◌≡◌, refl, ◌∙◌, List, [], ◌∷◌, length, Bool, true, Option, some, ok, arith, inl, inr,
  if◌then◌else◌,
}
use selfstack.Prelude.Maps.{Map, lookup, lookup-insert}
use selfstack.Bytes.{Bytes}
use selfstack.Wal.Record.{Record}
use selfstack.Wal.Reader.{finalize}
use selfstack.Wal.Manifest.{SegmentInfo, sealed, archived, wal_key}
use selfstack.Wal.Manifest.Keys.{SegmentKey, key_eq, cmp}
use selfstack.Wal.Manifest.Postgres.{
  Rows, Tables, update_rows, is_wal_row, is_one_of, pg_archive_segments,
  pg_create_compacted_segment, insert_row,
}
use selfstack.Wal.Compactor.{
  Merge, combined, compacted_records, compacted_segment, min_lsn, max_lsn,
}
use selfstack.Wal.Compactor.Run.{
  segment_ids, archive_in_tx, register_in_tx, new_segment_id, final_name,
}
use selfstack.Wal.Compactor.Ran.{CompactIo}
use selfstack.Wal.Compactor.Statuses.{
  lookup-update_rows, with_status, changed, MarkedOf, MarkedAt, IsOf,
}

-- The row of the merged segment.
abbrev pub compacted_key : List SegmentInfo → SegmentKey
compacted_key segs = record { type = cmp; id = new_segment_id segs }

abbrev pub compacted_info : List SegmentInfo → Merge → SegmentInfo
compacted_info segs m = record {
  segment_id = new_segment_id segs;
  segment_type = cmp;
  filename = final_name segs;
  size_bytes = (compacted_segment m).offset;
  record_count = length (compacted_records m);
  min_lsn = some (min_lsn (compacted_records m));
  max_lsn = some (max_lsn (compacted_records m) 0);
  status = sealed;
  checksum = some (finalize (compacted_segment m));
}

-- A row that is archived if it is of one of the segments.
abbrev pub archived_row : List SegmentInfo → SegmentKey → Option SegmentInfo → Option SegmentInfo
archived_row segs key found =
    if is_one_of (segment_ids segs) key then changed (with_status archived) found else found

-- And the row of the merged segment, where a record is left.
abbrev pub settled_row :
    List SegmentInfo
    → Merge
    → Map Bytes Record
    → SegmentKey
    → Option SegmentInfo
    → Option SegmentInfo
settled_row segs m [] key found = archived_row segs key found
settled_row segs m (e ∷ es) key found =
    if key_eq.beq (compacted_key segs) key
    then some (compacted_info segs m)
    else archived_row segs key found

pub archive_in_tx-rows :
    (io : CompactIo) (segs : List SegmentInfo) (t t' : Tables) (key : SegmentKey)
    → archive_in_tx io segs t ≡ ok t'
    → lookup key t'.segments ≡ archived_row segs key (lookup key t.segments)
unfolding archive_in_tx
archive_in_tx-rows io [] t t' key e = ground arith
archive_in_tx-rows io (s ∷ ss) t t' key e = ground (
  arith,
  archive_in_tx-rows io ss
      (record t {
        segments =
            (update_rows (λ key seg. is_wal_row s.segment_id key) (with_status archived)
              t.segments).0;
      })
      t' key,
  lookup-update_rows (is_wal_row s.segment_id) (with_status archived) key t.segments,
)

register_in_tx-rows :
    (io : CompactIo) (segs : List SegmentInfo) (m : Merge) (t t' : Tables) (key : SegmentKey)
    → register_in_tx io segs m t ≡ ok t'
    → lookup key t'.segments ≡ (
        if key_eq.beq (compacted_key segs) key
        then some (compacted_info segs m)
        else lookup key t.segments)
unfolding register_in_tx pg_create_compacted_segment insert_row
register_in_tx-rows io segs m t t' key e =
    ground (arith, lookup-insert (compacted_key segs) key (compacted_info segs m) t.segments)

IsOf-is_one_of :
    (segs : List SegmentInfo) (key : SegmentKey)
    → IsOf segs key
    → is_one_of (segment_ids segs) key ≡ true
IsOf-is_one_of [] key one = elim one [ ]
IsOf-is_one_of (s ∷ ss) key (inl here) = ground (arith, key_eq.beq_iff key (wal_key s.segment_id))
IsOf-is_one_of (s ∷ ss) key (inr there) = ground (arith, IsOf-is_one_of ss key there)

-- Segments that are marked, or not yet, are archived alike.
marked-archived :
    (t₀ : Tables) (segs : List SegmentInfo) (key : SegmentKey) (rows : Rows)
    → MarkedAt t₀ segs key rows
    → archived_row segs key (lookup key rows) ≡ archived_row segs key (lookup key t₀.segments)
marked-archived t₀ segs key rows (inl same) = rw same refl
marked-archived t₀ segs key rows (inr (one, (row, before, status, now))) =
    rw (IsOf-is_one_of segs key one, before, now) refl

pg_archive_segments-rows :
    (works : Bool) (segs : List SegmentInfo) (t t' : Tables) (key : SegmentKey)
    → pg_archive_segments works (segment_ids segs) t ≡ ok t'
    → lookup key t'.segments ≡ archived_row segs key (lookup key t.segments)
unfolding pg_archive_segments
pg_archive_segments-rows works [] t t' key e = ground arith
pg_archive_segments-rows works (s ∷ ss) t t' key e = ground (
  arith,
  lookup-update_rows (is_one_of (segment_ids (s ∷ ss))) (with_status archived) key t.segments,
)

-- The rows of a compaction that has gone through.
abbrev pub Settled : Tables → List SegmentInfo → Merge → Rows → Type 0
Settled t₀ segs m rows =
    (key : SegmentKey)
    → lookup key rows ≡ settled_row segs m (combined m) key (lookup key t₀.segments)

pub archived-Settled :
    (works : Bool) (t₀ : Tables) (segs : List SegmentInfo) (m : Merge) (t t' : Tables)
    → MarkedOf t₀ segs t.segments
    → combined m ≡ []
    → pg_archive_segments works (segment_ids segs) t ≡ ok t'
    → Settled t₀ segs m t'.segments
archived-Settled works t₀ segs m t t' marked empty e key =
    pg_archive_segments-rows works segs t t' key e
    ∙ marked-archived t₀ segs key t.segments (marked key)
    ∙ (rw empty refl)

pub committed-Settled :
    (io : CompactIo) (t₀ : Tables) (segs : List SegmentInfo) (m : Merge) (x : Bytes × Record)
    (xs : Map Bytes Record) (t t₁ t' : Tables)
    → MarkedOf t₀ segs t.segments
    → combined m ≡ x ∷ xs
    → archive_in_tx io segs t ≡ ok t₁
    → register_in_tx io segs m t₁ ≡ ok t'
    → Settled t₀ segs m t'.segments
committed-Settled io t₀ segs m x xs t t₁ t' marked some_left e e' key =
    register_in_tx-rows io segs m t₁ t' key e'
    ∙ (rw
        (
          archive_in_tx-rows io segs t t₁ key e,
          marked-archived t₀ segs key t.segments (marked key),
          some_left,
        )
        refl)
