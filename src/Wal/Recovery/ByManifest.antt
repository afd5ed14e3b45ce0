-- ===== src/Wal/Recovery/ByManifest.antt =====
-- internal/scope/db/wal/recovery.go: `Recover`, along the segments that a manifest names. Files go by
-- their base names. An error may leave the index changed, so the state is returned with it.
use selfstack.Prelude.{
  ℕ, suc, ◌+◌, ◌^◌, ◌%◌, List, [], ◌∷◌, Option, none, some, Result, ok, err, Error, io_failed,
  segment_checksum_mismatch, missing_segment, length, ltb, if◌then◌else◌,
}
use selfstack.Prelude.Maps.{Map, lookup, bytes_eq}
use selfstack.Prelude.Sorting.{sort_slice}
use selfstack.Bytes.{Bytes}
use selfstack.Wal.Record.{Record}
use selfstack.Wal.Payload.{Json}
use selfstack.Wal.Reader.{new_segment_iterator_from_lsn, collect, verify_segment_checksum}
use selfstack.Wal.Writer.Naming.{segment_filename}
use selfstack.Wal.Manifest.{
  SegmentInfo, SegmentStatus, active, sealed, archived, status_beq, WalState,
}
use selfstack.Wal.Manifest.Postgres.{by_id}
use selfstack.Wal.Index.{DocumentIndex}
use selfstack.Wal.Recovery.{no_stats, Progress, apply_record, load_records}

abbrev pub Directory : Type 0
Directory = Map Bytes Bytes

-- info.State.CheckpointLSN + 1, in a uint64
abbrev pub behind : ℕ → ℕ
behind checkpoint_lsn = (checkpoint_lsn + 1) % 2 ^ 64

-- `verifySegment` of a sealed segment with a checksum; a file that cannot be read is an error.
unfoldable pub verify : SegmentInfo → Option Bytes → Option Error
verify seg file = elim seg.checksum [
  | none ↦ none
  | some expected ↦
      if status_beq seg.status sealed
      then (elim file [
        | none ↦ some io_failed
        | some bytes ↦
            if verify_segment_checksum bytes expected then none else some segment_checksum_mismatch
      ])
      else none
]

-- `findActiveSegment`: the first active segment that has a file.
unfoldable pub find_listed : List SegmentInfo → Directory → Option Bytes
find_listed [] dir = none
find_listed (seg ∷ segs) dir =
    let rest = find_listed segs dir in
    if status_beq seg.status active
    then (elim (lookup seg.filename dir) [ none ↦ rest | some file ↦ some file ])
    else rest

-- Where there is none, the file that is named after the current segment ID.
unfoldable pub find_active_segment : WalState → List SegmentInfo → Directory → Option Bytes
find_active_segment state segs dir = elim (find_listed segs dir) [
  | some file ↦ some file
  | none ↦ lookup (segment_filename state.current_segment_id) dir
]

module _ (json : Json) (I : DocumentIndex) where
  abbrev pub fresh : I.Index → Progress json I
  fresh index = record { stats = no_stats; replay = record { doc_lsn = []; index = index } }

  -- The loop over the records of a segment, and what follows it.
  unfoldable pub read_segment : ℕ → Bytes → Progress json I → Progress json I × Option Error
  read_segment checkpoint_lsn file p =
      let (records, error) =
        collect (suc (length file)) (new_segment_iterator_from_lsn file (behind checkpoint_lsn)) in
      let loaded = load_records json I records p in
      elim error [
        | some e ↦ (loaded, some e)
        | none ↦ (
          record loaded {
            stats = record loaded.stats { segments_loaded = loaded.stats.segments_loaded + 1 };
          },
          none,
        )
      ]

  -- A segment without a file is an error if it is sealed, and passed over otherwise.
  unfoldable pub read_file :
      ℕ → SegmentStatus → Option Bytes → Progress json I → Progress json I × Option Error
  read_file checkpoint_lsn status (some file) p = read_segment checkpoint_lsn file p
  read_file checkpoint_lsn status none p =
      (p, if status_beq status sealed then some missing_segment else none)

  unfoldable pub visit :
      ℕ → Directory → SegmentInfo → Progress json I → Progress json I × Option Error
  visit checkpoint_lsn dir seg p =
      if status_beq seg.status archived
      then (p, none)
      else (elim (verify seg (lookup seg.filename dir)) [
        | some e ↦ (p, some e)
        | none ↦ read_file checkpoint_lsn seg.status (lookup seg.filename dir) p
      ])

  -- The loop over the segments, which an error ends.
  unfoldable pub visit_all :
      ℕ → Directory → List SegmentInfo → Progress json I → Progress json I × Option Error
  visit_all checkpoint_lsn dir [] p = (p, none)
  visit_all checkpoint_lsn dir (seg ∷ segs) p =
      let (p', error) = visit checkpoint_lsn dir seg p in
      let rest = visit_all checkpoint_lsn dir segs p' in
      elim error [ some e ↦ (p', some e) | none ↦ rest ]

  -- `replayActiveWAL`: the records up to the first that cannot be applied, with their number. An
  -- error of the iterator is only printed.
  unfoldable pub replay_records : List Record → ℕ → Progress json I → Progress json I × ℕ
  replay_records [] n p = (p, n)
  replay_records (rec ∷ recs) n p = elim (apply_record json I rec p.replay) [
    | err e ↦ (p, n)
    | ok replay ↦ replay_records recs (n + 1) (record {
      stats = record p.stats {
        max_lsn = if ltb p.stats.max_lsn rec.lsn then rec.lsn else p.stats.max_lsn;
      };
      replay = replay;
    })
  ]

  unfoldable pub replay_active_wal : ℕ → Option Bytes → Progress json I → Progress json I
  replay_active_wal checkpoint_lsn none p = p
  replay_active_wal checkpoint_lsn (some file) p =
      let (p', replayed) =
        replay_records
          (collect (suc (length file))
            (new_segment_iterator_from_lsn file (behind checkpoint_lsn))).0
          0 p in
      record p' { stats = record p'.stats { wal_records_replayed = replayed } }

  unfoldable pub recover :
      Result (WalState × List SegmentInfo) → Directory → I.Index → Progress json I × Option Error
  recover (err e) dir index = (fresh index, some e)
  recover (ok (state, segs)) dir index =
      let sorted = sort_slice by_id segs in
      let (p, error) = visit_all state.checkpoint_lsn dir sorted (fresh index) in
      elim error [
        | some e ↦ (p, some e)
        | none ↦
            (replay_active_wal state.checkpoint_lsn (find_active_segment state sorted dir) p, none)
      ]
