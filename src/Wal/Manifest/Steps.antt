-- ===== src/Wal/Manifest/Steps.antt =====
-- The calls of both implementations of ManifestStore, and those that change one row.
use selfstack.Prelude.{
  ℕ, ◌≡◌, refl, List, [], ◌∷◌, Bool, ◌&&◌, none, some, Result, ok, arith, Option-cases,
  if◌then◌else◌,
}
use selfstack.Prelude.Maps.{lookup, insert, IsFunctional}
use selfstack.Bytes.{Bytes}
use selfstack.Wal.Manifest.{
  SegmentStatus, active, sealed, status_beq, SegmentInfo, InMemoryManifest, wal_key, with_segment,
  create_segment, create_compacted_segment, seal_segment, update_segment_stats,
  update_wal_segment_status, archive_segments,
}
use selfstack.Wal.Manifest.Keys.{key_eq}
use selfstack.Wal.Manifest.Postgres.{
  Rows, Tables, update_rows, insert_row, is_wal_row, or_missing, pg_create_segment,
  pg_create_compacted_segment, pg_seal_segment, pg_update_segment_stats, pg_update_segment_status,
  pg_archive_segments,
}

-- An update of one key, under a further test of the row.
update_rows-key :
    (id : ℕ) (test : SegmentInfo → Bool) (change : SegmentInfo → SegmentInfo) (rows : Rows)
    → IsFunctional rows
    → update_rows (λ key seg. is_wal_row id key && test seg) change rows
      ≡ (elim (lookup (wal_key id) rows) [
        | none ↦ (rows, 0)
        | some seg ↦ if test seg then (insert (wal_key id) (change seg) rows, 1) else (rows, 0)
      ])
unfolding update_rows lookup insert
update_rows-key id test change [] f = refl
update_rows-key id test change ((key, seg) ∷ rows) (h, f) =
    ground (arith, update_rows-key id test change rows f, key_eq.beq_iff key (wal_key id))

-- The calls that change the segments.
pub data Call : Type 0 where
  create_call : ℕ → Bytes → Call
  create_compacted_call : ℕ → Bytes → ℕ → ℕ → ℕ → ℕ → ℕ → Call
  seal_call : ℕ → ℕ → Call
  stats_call : ℕ → ℕ → ℕ → ℕ → ℕ → Call
  status_call : ℕ → SegmentStatus → Call
  archive_call : List ℕ → Call

unfoldable pub pg_step : Bool → Call → Tables → Result Tables
pg_step works (create_call id name) t = pg_create_segment works id name t
pg_step works (create_compacted_call id name size n lo hi sum) t =
    pg_create_compacted_segment works id name size n lo hi sum t
pg_step works (seal_call id sum) t = pg_seal_segment works id sum t
pg_step works (stats_call id size n lo hi) t = pg_update_segment_stats works id size n lo hi t
pg_step works (status_call id status) t = pg_update_segment_status works id status t
pg_step works (archive_call ids) t = pg_archive_segments works ids t

unfoldable pub memory_step : Call → InMemoryManifest → Result InMemoryManifest
memory_step (create_call id name) m = create_segment id name m
memory_step (create_compacted_call id name size n lo hi sum) m =
    create_compacted_segment id name size n lo hi sum m
memory_step (seal_call id sum) m = seal_segment id sum m
memory_step (stats_call id size n lo hi) m = update_segment_stats id size n lo hi m
memory_step (status_call id status) m = update_wal_segment_status id status m
memory_step (archive_call ids) m = ok (archive_segments ids m)

-- A change of one row, without a further test.
pub update_rows-one :
    (id : ℕ) (change : SegmentInfo → SegmentInfo) (rows : Rows)
    → IsFunctional rows
    → update_rows (λ key seg. is_wal_row id key) change rows ≡ (elim (lookup (wal_key id) rows) [
      | none ↦ (rows, 0)
      | some seg ↦ (insert (wal_key id) (change seg) rows, 1)
    ])
unfolding update_rows lookup insert
update_rows-one id change [] f = refl
update_rows-one id change ((key, seg) ∷ rows) (h, f) =
    ground (arith, update_rows-one id change rows f, key_eq.beq_iff key (wal_key id))

module _ (works : Bool) (t t' : Tables) (f : IsFunctional t.segments) where
  pub seal-agrees :
      (id sum : ℕ)
      → pg_seal_segment works id sum t ≡ ok t'
      → (m : InMemoryManifest) → m.segments ≡ t.segments
      → seal_segment id sum m ≡ ok (record m { segments = t'.segments })
  unfolding pg_seal_segment or_missing seal_segment with_segment
  seal-agrees id sum e m same = ground (
    arith,
    update_rows-key id (λ seg. status_beq seg.status active)
        (λ seg. record seg { status = sealed; checksum = some sum }) t.segments f,
  )

  pub status-agrees :
      (id : ℕ) (status : SegmentStatus)
      → pg_update_segment_status works id status t ≡ ok t'
      → (m : InMemoryManifest) → m.segments ≡ t.segments
      → update_wal_segment_status id status m ≡ ok (record m { segments = t'.segments })
  unfolding pg_update_segment_status or_missing update_wal_segment_status with_segment
  status-agrees id status e m same =
      ground (arith, update_rows-one id (λ seg. record seg { status = status }) t.segments f)

  pub create-agrees :
      (id : ℕ) (name : Bytes)
      → pg_create_segment works id name t ≡ ok t'
      → (m : InMemoryManifest) → m.segments ≡ t.segments
      → (m' : InMemoryManifest) × (create_segment id name m ≡ ok m') × (m'.segments ≡ t'.segments)
  unfolding pg_create_segment insert_row create_segment
  create-agrees id name e m same =
      (_, refl, ground (arith, Option-cases (lookup (wal_key id) t.segments)))

  pub create_compacted-agrees :
      (id : ℕ) (name : Bytes) (size n lo hi sum : ℕ)
      → pg_create_compacted_segment works id name size n lo hi sum t ≡ ok t'
      → (m : InMemoryManifest) → m.segments ≡ t.segments
      → (m' : InMemoryManifest) × (create_compacted_segment id name size n lo hi sum m ≡ ok m')
        × (m'.segments ≡ t'.segments)
  unfolding pg_create_compacted_segment insert_row create_compacted_segment
  create_compacted-agrees id name size n lo hi sum e m same = (_, refl, ground arith)

  pub stats-agrees :
      (id size n lo hi : ℕ) {seg : SegmentInfo}
      → lookup (wal_key id) t.segments ≡ some seg
      → pg_update_segment_stats works id size n lo hi t ≡ ok t'
      → (m : InMemoryManifest) → m.segments ≡ t.segments
      → update_segment_stats id size n lo hi m ≡ ok (record m { segments = t'.segments })
  unfolding pg_update_segment_stats update_segment_stats with_segment
  stats-agrees id size n lo hi known e m same = ground (
    arith,
    update_rows-one id
        (λ seg. record seg {
          size_bytes = size;
          record_count = n;
          min_lsn = some lo;
          max_lsn = some hi;
        })
        t.segments f,
  )
