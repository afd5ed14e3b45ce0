-- ===== src/Wal/Manifest/Postgres.antt =====
-- internal/scope/db/wal/manifest.go: `PostgresManifest`. The two tables are the state and each SQL
-- statement is what it says of them; whether the database carries a statement out is an input, and
-- one that fails changes nothing. wal_segments has one row for each type and ID (migration 0003), so
-- its rows are a map from both. Time stamps and the serial column are left out.
use selfstack.Prelude.{
  ℕ, suc, List, [], ◌∷◌, Bool, true, false, ◌&&◌, ◌||◌, not, Option, none, some, Result, ok, err,
  Error, io_failed, not_found, not_active, ◌>>◌, ◌>>=◌, guard, ltb, ◌==◌, if◌then◌else◌,
}
use selfstack.Prelude.Maps.{Map, lookup, insert}
use selfstack.Prelude.Sorting.{sort_slice}
use selfstack.Bytes.{Bytes}
use selfstack.Wal.Manifest.{
  SegmentStatus, active, sealed, archived, status_beq, SegmentInfo, WalState, wal_key, select,
  is_wal,
}
use selfstack.Wal.Manifest.Keys.{SegmentType, type_beq, wal, cmp, SegmentKey, key_eq}

abbrev pub Rows : Type 0
Rows = Map SegmentKey SegmentInfo

pub record Tables : Type 0 where
  pub segments : Rows
  pub state : Option WalState

-- UPDATE wal_segments SET ... WHERE ..., with the number of rows that it changes.
unfoldable pub update_rows :
    (SegmentKey → SegmentInfo → Bool) → (SegmentInfo → SegmentInfo) → Rows → Rows × ℕ
update_rows test change [] = ([], 0)
update_rows test change ((key, seg) ∷ rows) =
    let (rest, n) = update_rows test change rows in
    if test key seg then ((key, change seg) ∷ rest, suc n) else ((key, seg) ∷ rest, n)

-- INSERT INTO wal_segments, which the unique constraint refuses for a row that is there.
unfoldable pub insert_row : SegmentKey → SegmentInfo → Tables → Result Tables
insert_row key seg t = elim (lookup key t.segments) [
  | some old ↦ err io_failed
  | none ↦ ok (record t { segments = insert key seg t.segments })
]

-- segment_id = $1 AND segment_type = 'wal'
abbrev pub is_wal_row : ℕ → SegmentKey → Bool
is_wal_row id key = key_eq.beq key (wal_key id)

-- segment_id = ANY($1) AND segment_type = 'wal'
abbrev pub is_one_of : List ℕ → SegmentKey → Bool
is_one_of [] key = false
is_one_of (id ∷ ids) key = is_wal_row id key || is_one_of ids key

-- if result.RowsAffected() == 0 { return error }
unfoldable pub or_missing : Error → Rows × ℕ → Tables → Result Tables
or_missing missing (rows, n) t = if n == 0 then err missing else ok (record t { segments = rows })

unfoldable pub pg_create_segment : Bool → ℕ → Bytes → Tables → Result Tables
pg_create_segment works id filename t =
    guard works io_failed
    >> insert_row (wal_key id)
        (record {
          segment_id = id;
          segment_type = wal;
          filename = filename;
          size_bytes = 0;
          record_count = 0;
          min_lsn = none;
          max_lsn = none;
          status = active;
          checksum = none;
        })
        t

-- A compacted segment is registered by the same columns here and by the compactor's transaction.
unfoldable pub pg_create_compacted_segment :
    Bool → ℕ → Bytes → ℕ → ℕ → ℕ → ℕ → ℕ → Tables → Result Tables
pg_create_compacted_segment works id filename size_bytes record_count min_lsn max_lsn checksum t =
    guard works io_failed
    >> insert_row (record { type = cmp; id = id })
        (record {
          segment_id = id;
          segment_type = cmp;
          filename = filename;
          size_bytes = size_bytes;
          record_count = record_count;
          min_lsn = some min_lsn;
          max_lsn = some max_lsn;
          status = sealed;
          checksum = some checksum;
        })
        t

unfoldable pub pg_seal_segment : Bool → ℕ → ℕ → Tables → Result Tables
pg_seal_segment works id checksum t =
    guard works io_failed
    >> or_missing not_active
        (update_rows (λ key seg. is_wal_row id key && status_beq seg.status active)
          (λ seg. record seg { status = sealed; checksum = some checksum }) t.segments)
        t

unfoldable pub pg_update_segment_stats : Bool → ℕ → ℕ → ℕ → ℕ → ℕ → Tables → Result Tables
pg_update_segment_stats works id size_bytes record_count min_lsn max_lsn t =
    guard works io_failed
    >> ok (record t {
      segments =
          (update_rows (λ key seg. is_wal_row id key)
            (λ seg. record seg {
              size_bytes = size_bytes;
              record_count = record_count;
              min_lsn = some min_lsn;
              max_lsn = some max_lsn;
            })
            t.segments).0;
    })

unfoldable pub pg_update_segment_status : Bool → ℕ → SegmentStatus → Tables → Result Tables
pg_update_segment_status works id status t =
    guard works io_failed
    >> or_missing not_found
        (update_rows (λ key seg. is_wal_row id key) (λ seg. record seg { status = status })
          t.segments)
        t

-- No ID is no statement. The IDs are cast to int64, as they are where they are stored.
unfoldable pub pg_archive_segments : Bool → List ℕ → Tables → Result Tables
pg_archive_segments works [] t = ok t
pg_archive_segments works (id ∷ ids) t =
    guard works io_failed
    >> ok (record t {
      segments =
          (update_rows (λ key seg. is_one_of (id ∷ ids) key)
            (λ seg. record seg { status = archived }) t.segments).0;
    })

-- ORDER BY segment_id ASC
abbrev pub by_id : SegmentInfo → SegmentInfo → Bool
by_id a b = ltb a.segment_id b.segment_id

-- ORDER BY segment_id DESC LIMIT 1; no row is no error.
unfoldable pub highest_id : List SegmentInfo → Option SegmentInfo
highest_id [] = none
highest_id (seg ∷ []) = some seg
highest_id (seg ∷ next ∷ segs) = highest_id (next ∷ segs)

unfoldable pub pg_get_active_segment : Bool → Tables → Result (Option SegmentInfo)
pg_get_active_segment works t =
    guard works io_failed
    >> ok (
        highest_id (
          sort_slice by_id
            (select (λ key seg. status_beq seg.status active && is_wal key) t.segments)))

unfoldable pub pg_get_sealed_wal_segments : Bool → Tables → Result (List SegmentInfo)
pg_get_sealed_wal_segments works t =
    guard works io_failed
    >> ok (
        sort_slice by_id
          (select (λ key seg. status_beq seg.status sealed && is_wal key) t.segments))

unfoldable pub pg_get_segments_by_status : Bool → SegmentStatus → Tables → Result (List SegmentInfo)
pg_get_segments_by_status works status t =
    guard works io_failed
    >> ok (sort_slice by_id (select (λ key seg. status_beq seg.status status) t.segments))

unfoldable pub pg_get_wal_state : Bool → Tables → Result WalState
pg_get_wal_state works t =
    guard works io_failed
    >> ok (elim t.state [
      | none ↦ record { current_segment_id = 1; next_lsn = 1; checkpoint_lsn = 0 }
      | some state ↦ state
    ])

-- INSERT ... ON CONFLICT (id) DO UPDATE; a new row has the checkpoint 0.
unfoldable pub pg_update_wal_state : Bool → ℕ → ℕ → Tables → Result Tables
pg_update_wal_state works current_segment_id next_lsn t =
    guard works io_failed
    >> ok (record t {
      state = some (record {
        current_segment_id = current_segment_id;
        next_lsn = next_lsn;
        checkpoint_lsn = elim t.state [ none ↦ 0 | some state ↦ state.checkpoint_lsn ];
      });
    })

-- An UPDATE of no row is no error.
unfoldable pub pg_update_checkpoint_lsn : Bool → ℕ → Tables → Result Tables
pg_update_checkpoint_lsn works lsn t =
    guard works io_failed
    >> ok (record t {
      state = elim t.state [
        | none ↦ none
        | some state ↦ some (record state { checkpoint_lsn = lsn })
      ];
    })

abbrev pub type_less : SegmentType → SegmentType → Bool
type_less cmp wal = true
type_less cmp cmp = false
type_less wal wal = false
type_less wal cmp = false

-- ORDER BY segment_type ASC, segment_id ASC, where 'cmp' is before 'wal'.
abbrev pub by_type_and_id : SegmentInfo → SegmentInfo → Bool
by_type_and_id a b =
    type_less a.segment_type b.segment_type
    || type_beq a.segment_type b.segment_type && ltb a.segment_id b.segment_id

unfoldable pub pg_get_recovery_info : Bool → Tables → Result (WalState × List SegmentInfo)
pg_get_recovery_info works t = pg_get_wal_state works t >>= (λ state. ok (
  state,
  sort_slice by_type_and_id (select (λ key seg. not (status_beq seg.status archived)) t.segments),
))
