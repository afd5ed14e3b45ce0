-- ===== src/Wal/Manifest.antt =====
-- internal/scope/db/wal/manifest.go: the interface `ManifestStore`, as far as the log's writer calls
-- it, and `InMemoryManifest`. Time stamps are left out, and so is the serial number `ID`.
pub mod Keys
pub mod Postgres
pub mod Steps
pub mod Agree
use selfstack.Prelude.{
  ℕ, ◌+◌, ◌≡◌, List, [], ◌∷◌, ◌++◌, Bool, true, false, ◌&&◌, not, Option, none, some, Result, ok,
  err, Error, not_found, map, ◌==◌, if◌then◌else◌,
}
use selfstack.Prelude.Maps.{Map, Eq, lookup, insert}
use selfstack.Bytes.{Bytes}
use selfstack.Wal.Manifest.Keys.{SegmentType, wal, cmp, SegmentKey, key_eq, nat_eq}

-- What `rotateLocked` calls: the state after a call, or the error that leaves it as it was.
pub record ManifestStore : Type 1 where
  pub State : Type 0
  pub create_segment : ℕ → Bytes → State → Result State
  pub seal_segment : ℕ → ℕ → State → Result State

pub data SegmentStatus : Type 0 where
  active sealed compacting archived : SegmentStatus

abbrev pub status_beq : SegmentStatus → SegmentStatus → Bool
status_beq active active = true
status_beq active sealed = false
status_beq active compacting = false
status_beq active archived = false
status_beq sealed active = false
status_beq sealed sealed = true
status_beq sealed compacting = false
status_beq sealed archived = false
status_beq compacting active = false
status_beq compacting sealed = false
status_beq compacting compacting = true
status_beq compacting archived = false
status_beq archived active = false
status_beq archived sealed = false
status_beq archived compacting = false
status_beq archived archived = true

-- The checksum is the number that the code prints as eight hexadecimal digits.
pub record SegmentInfo : Type 0 where
  pub segment_id : ℕ
  pub segment_type : SegmentType
  pub filename : Bytes
  pub size_bytes : ℕ
  pub record_count : ℕ
  pub min_lsn : Option ℕ
  pub max_lsn : Option ℕ
  pub status : SegmentStatus
  pub checksum : Option ℕ

pub record WalState : Type 0 where
  pub current_segment_id : ℕ
  pub next_lsn : ℕ
  pub checkpoint_lsn : ℕ

pub record InMemoryManifest : Type 0 where
  pub segments : Map SegmentKey SegmentInfo
  pub state : WalState

abbrev pub wal_key : ℕ → SegmentKey
wal_key id = record { type = wal; id = id }

unfoldable pub new_in_memory_manifest : InMemoryManifest
new_in_memory_manifest = record {
  segments = [];
  state = record { current_segment_id = 1; next_lsn = 1; checkpoint_lsn = 0 };
}

unfoldable pub create_segment : ℕ → Bytes → InMemoryManifest → Result InMemoryManifest
create_segment id filename m = ok (record m {
  segments =
      insert (wal_key id)
        (record {
          segment_id = id;
          segment_type = wal;
          filename = filename;
          size_bytes = 0;
          record_count = 0;
          min_lsn = none;
          max_lsn = none;
          status = active;
          checksum = none;
        })
        m.segments;
  state = record m.state { current_segment_id = id };
})

unfoldable pub create_compacted_segment :
    ℕ → Bytes → ℕ → ℕ → ℕ → ℕ → ℕ → InMemoryManifest → Result InMemoryManifest
create_compacted_segment id filename size_bytes record_count min_lsn max_lsn checksum m =
    ok (record m {
      segments =
          insert (record { type = cmp; id = id })
            (record {
              segment_id = id;
              segment_type = cmp;
              filename = filename;
              size_bytes = size_bytes;
              record_count = record_count;
              min_lsn = some min_lsn;
              max_lsn = some max_lsn;
              status = sealed;
              checksum = some checksum;
            })
            m.segments;
    })

-- seg, ok := m.segments[key]; if !ok { return error }, and a change of what the pointer points to.
unfoldable pub with_segment :
    ℕ → (SegmentInfo → SegmentInfo) → InMemoryManifest → Result InMemoryManifest
with_segment id change m = elim (lookup (wal_key id) m.segments) [
  | none ↦ err not_found
  | some seg ↦ ok (record m { segments = insert (wal_key id) (change seg) m.segments })
]

unfoldable pub seal_segment : ℕ → ℕ → InMemoryManifest → Result InMemoryManifest
seal_segment id checksum =
    with_segment id (λ seg. record seg { status = sealed; checksum = some checksum })

unfoldable pub update_segment_stats : ℕ → ℕ → ℕ → ℕ → ℕ → InMemoryManifest → Result InMemoryManifest
update_segment_stats id size_bytes record_count min_lsn max_lsn = with_segment id (λ seg.
    record seg {
      size_bytes = size_bytes;
      record_count = record_count;
      min_lsn = some min_lsn;
      max_lsn = some max_lsn;
    })

unfoldable pub update_wal_segment_status :
    ℕ → SegmentStatus → InMemoryManifest → Result InMemoryManifest
update_wal_segment_status id status = with_segment id (λ seg. record seg { status = status })

-- An ID that is not there is passed over.
unfoldable pub archive_segments : List ℕ → InMemoryManifest → InMemoryManifest
archive_segments [] m = m
archive_segments (id ∷ ids) m =
    archive_segments ids (elim (with_segment id (λ seg. record seg { status = archived }) m) [
      | ok m' ↦ m'
      | err e ↦ m
    ])

-- The segments that pass a test; Go visits a map in no fixed order, this is one of them.
unfoldable pub select :
    (SegmentKey → SegmentInfo → Bool) → Map SegmentKey SegmentInfo → List SegmentInfo
select test [] = []
select test ((key, seg) ∷ segs) =
    let rest = select test segs in if test key seg then seg ∷ rest else rest

abbrev pub is_wal : SegmentKey → Bool
is_wal key = elim key.type [ wal ↦ true | cmp ↦ false ]

unfoldable pub get_active_segment : InMemoryManifest → Option SegmentInfo
get_active_segment m =
    elim (select (λ key seg. is_wal key && status_beq seg.status active) m.segments) [
      | [] ↦ none
      | seg ∷ segs ↦ some seg
    ]

unfoldable pub get_segments_by_status : SegmentStatus → InMemoryManifest → List SegmentInfo
get_segments_by_status status m = select (λ key seg. status_beq seg.status status) m.segments

unfoldable pub get_sealed_wal_segments : InMemoryManifest → List SegmentInfo
get_sealed_wal_segments m =
    select (λ key seg. is_wal key && status_beq seg.status sealed) m.segments

unfoldable pub update_wal_state : ℕ → ℕ → InMemoryManifest → InMemoryManifest
update_wal_state current_segment_id next_lsn m = record m {
  state = record m.state { current_segment_id = current_segment_id; next_lsn = next_lsn };
}

unfoldable pub update_checkpoint_lsn : ℕ → InMemoryManifest → InMemoryManifest
update_checkpoint_lsn lsn m = record m { state = record m.state { checkpoint_lsn = lsn } }

unfoldable pub get_recovery_info : InMemoryManifest → WalState × List SegmentInfo
get_recovery_info m = (m.state, select (λ key seg. not (status_beq seg.status archived)) m.segments)

abbrev pub in_memory : ManifestStore
in_memory = record {
  State = InMemoryManifest;
  create_segment = create_segment;
  seal_segment = seal_segment;
}
