-- ===== src/Wal/Manifest/Agree.antt =====
-- internal/scope/db/wal/manifest.go: the two implementations of `ManifestStore` beside each other.
use selfstack.Prelude.{
  ℕ, ◌≡◌, refl, sym, ap, ◌∙◌, List, [], ◌∷◌, Bool, some, ok, err, arith, Option-cases, inl, inr,
  subst, none, not_found, ◌⊎◌,
}
use selfstack.Prelude.Maps.{lookup, IsFunctional, insert-IsFunctional}
use selfstack.Wal.Manifest.{
  archived, SegmentInfo, InMemoryManifest, wal_key, with_segment, archive_segments,
  update_segment_stats,
}
use selfstack.Wal.Manifest.Keys.{key_eq}
use selfstack.Wal.Manifest.Postgres.{
  Rows, Tables, update_rows, is_wal_row, is_one_of, pg_archive_segments, pg_update_segment_stats,
}
use selfstack.Wal.Manifest.Steps.{
  Call, create_call, create_compacted_call, seal_call, stats_call, status_call, archive_call,
  pg_step, memory_step, update_rows-one, seal-agrees, status-agrees, create-agrees,
  create_compacted-agrees, stats-agrees,
}

abbrev archive : SegmentInfo → SegmentInfo
archive seg = record seg { status = archived }

update_rows-none : (rows : Rows) → (update_rows (λ key seg. is_one_of [] key) archive rows).0 ≡ rows
unfolding update_rows
update_rows-none [] = refl
update_rows-none ((key, seg) ∷ rows) = ap (λ t. (key, seg) ∷ t) (update_rows-none rows)

update_rows-split :
    (id : ℕ) (ids : List ℕ) (rows : Rows)
    → (update_rows (λ key seg. is_one_of (id ∷ ids) key) archive rows).0
      ≡ (update_rows
          (λ key seg. is_one_of ids key)
          archive
          (update_rows (λ key seg. is_wal_row id key) archive rows).0).0
unfolding update_rows
update_rows-split id ids [] = refl
update_rows-split id ids ((key, seg) ∷ rows) = ground (arith, update_rows-split id ids rows)

abbrev archive_one : ℕ → InMemoryManifest → InMemoryManifest
archive_one id m = elim (with_segment id archive m) [ ok m' ↦ m' | err e ↦ m ]

archive_one-rows :
    (id : ℕ) (m : InMemoryManifest)
    → IsFunctional m.segments
    → ((archive_one id m).segments
        ≡ (update_rows (λ key seg. is_wal_row id key) archive m.segments).0)
      × IsFunctional (archive_one id m).segments
unfolding with_segment
archive_one-rows id m f = elim (Option-cases (lookup (wal_key id) m.segments)) [
  | inl gone ↦ (
    ground (arith, gone, update_rows-one id archive m.segments f),
    subst IsFunctional (ground (arith, gone)) f,
  )
  | inr (seg, here) ↦ (
    ground (arith, here, update_rows-one id archive m.segments f),
    subst IsFunctional (ground (arith, here))
        (insert-IsFunctional (wal_key id) (archive seg) m.segments f),
  )
]

archive_segments-rows :
    (ids : List ℕ) (m : InMemoryManifest)
    → IsFunctional m.segments
    → ((archive_segments ids m).segments
        ≡ (update_rows (λ key seg. is_one_of ids key) archive m.segments).0)
      × IsFunctional (archive_segments ids m).segments
archive_segments-rows [] m f =
    (unfold archive_segments in sym (update_rows-none m.segments), unfold archive_segments in f)
archive_segments-rows (id ∷ ids) m f =
    let (one, f') = archive_one-rows id m f in
    let (rest, f'') = archive_segments-rows ids (archive_one id m) f' in put id ids m rest one f''
  where
    put :
        (id : ℕ) (ids : List ℕ) (m : InMemoryManifest)
        → ((archive_segments ids (archive_one id m)).segments
            ≡ (update_rows (λ key seg. is_one_of ids key) archive (archive_one id m).segments).0)
        → ((archive_one id m).segments
            ≡ (update_rows (λ key seg. is_wal_row id key) archive m.segments).0)
        → IsFunctional (archive_segments ids (archive_one id m)).segments
        → ((archive_segments (id ∷ ids) m).segments
            ≡ (update_rows (λ key seg. is_one_of (id ∷ ids) key) archive m.segments).0)
          × IsFunctional (archive_segments (id ∷ ids) m).segments
    put id ids m rest one f'' = (
      unfold archive_segments in
          rest
          ∙ ap (λ rows. (update_rows (λ key seg. is_one_of ids key) archive rows).0) one
          ∙ sym (update_rows-split id ids m.segments),
      unfold archive_segments in f'',
    )

archive-agrees :
    (works : Bool) (t t' : Tables) (ids : List ℕ)
    → IsFunctional t.segments
    → pg_archive_segments works ids t ≡ ok t'
    → (m : InMemoryManifest) → m.segments ≡ t.segments
    → ((archive_segments ids m).segments ≡ t'.segments)
      × IsFunctional (archive_segments ids m).segments
unfolding pg_archive_segments
archive-agrees works t t' [] f e m same =
    let (rows, f') = archive_segments-rows [] m (subst IsFunctional (sym same) f) in
    (ground (arith, rows, update_rows-none m.segments), f')
archive-agrees works t t' (id ∷ ids) f e m same =
    let (rows, f') = archive_segments-rows (id ∷ ids) m (subst IsFunctional (sym same) f) in
    (ground (arith, rows), f')

-- Statistics of a segment that is not registered.
abbrev pub IsUnknown : Call → Tables → Type 0
IsUnknown (create_call id name) t = ⊥
IsUnknown (create_compacted_call id name size n lo hi sum) t = ⊥
IsUnknown (seal_call id sum) t = ⊥
IsUnknown (stats_call id size n lo hi) t = lookup (wal_key id) t.segments ≡ none
IsUnknown (status_call id status) t = ⊥
IsUnknown (archive_call ids) t = ⊥

-- The call returns no error and leaves the segments as in the tables.
abbrev pub Follows : Call → InMemoryManifest → Tables → Type 0
Follows c m t' = (m' : InMemoryManifest) × (memory_step c m ≡ ok m') × (m'.segments ≡ t'.segments)

-- The database takes the call for done and has changed nothing; in memory it is an error.
abbrev pub Differs : Call → InMemoryManifest → Tables → Tables → Type 0
Differs c m t t' = IsUnknown c t × (memory_step c m ≡ err not_found) × (t'.segments ≡ t.segments)

stats-differ :
    (works : Bool) (t t' : Tables) (m : InMemoryManifest) (id size n lo hi : ℕ)
    → IsFunctional t.segments
    → lookup (wal_key id) t.segments ≡ none
    → m.segments ≡ t.segments
    → pg_update_segment_stats works id size n lo hi t ≡ ok t'
    → (update_segment_stats id size n lo hi m ≡ err not_found) × (t'.segments ≡ t.segments)
unfolding pg_update_segment_stats update_segment_stats with_segment
stats-differ works t t' m id size n lo hi f gone same e = ground (
  arith,
  update_rows-one id
      (λ seg. record seg {
        size_bytes = size;
        record_count = n;
        min_lsn = some lo;
        max_lsn = some hi;
      })
      t.segments f,
)

-- What `PostgresManifest` does to the segments of the database when a call returns without an
-- error, `InMemoryManifest` does to the same segments, and it returns no error either; with one
-- exception: statistics of a segment that is not registered change no row and are no error for
-- `PostgresManifest`, while `InMemoryManifest` returns the error that there is no such segment.
-- There is one row for each type and ID.
pub pg_step-memory_step :
    (c : Call) (works : Bool) (t t' : Tables) (m : InMemoryManifest)
    → IsFunctional t.segments
    → m.segments ≡ t.segments
    → pg_step works c t ≡ ok t'
    → Follows c m t' ⊎ Differs c m t t'
unfolding pg_step memory_step
pg_step-memory_step (create_call id name) works t t' m f same e =
    inl (create-agrees works t t' f id name e m same)
pg_step-memory_step (create_compacted_call id name size n lo hi sum) works t t' m f same e =
    inl (create_compacted-agrees works t t' f id name size n lo hi sum e m same)
pg_step-memory_step (seal_call id sum) works t t' m f same e =
    inl (record m { segments = t'.segments }, seal-agrees works t t' f id sum e m same, refl)
pg_step-memory_step (stats_call id size n lo hi) works t t' m f same e =
    elim (Option-cases (lookup (wal_key id) t.segments)) [
      | inl gone ↦
          let (failed, kept) = stats-differ works t t' m id size n lo hi f gone same e in
          inr (gone, failed, kept)
      | inr (seg, known) ↦ inl (
        record m { segments = t'.segments },
        stats-agrees works t t' f id size n lo hi known e m same,
        refl,
      )
    ]
pg_step-memory_step (status_call id status) works t t' m f same e =
    inl (record m { segments = t'.segments }, status-agrees works t t' f id status e m same, refl)
pg_step-memory_step (archive_call ids) works t t' m f same e =
    inl (archive_segments ids m, refl, (archive-agrees works t t' ids f e m same).0)
