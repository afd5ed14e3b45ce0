-- ===== src/Wal/Recovery.antt =====
-- internal/scope/db/wal/recovery.go: the index rebuilt from the records of the segments.
pub mod Latest
pub mod Whole
pub mod Highest
pub mod Same
pub mod Directory
pub mod ByManifest
pub mod Torn
pub mod Visited
pub mod Replayed
pub mod Registered
use selfstack.Prelude.{
  ℕ, suc, ◌+◌, ◌≤◌, ◌<◌, ◌≡◌, List, [], ◌∷◌, Bool, true, false, ◌||◌, Option, none, some, Result,
  ok, err, Error, ◌>>=◌, length, ltb, leb, ◌==◌, if◌then◌else◌,
}
use selfstack.Prelude.Maps.{Map, lookup, insert, bytes_eq}
use selfstack.Bytes.{Bytes}
use selfstack.Wal.Record.{
  Record, record_type_insert, record_type_update, record_type_delete, record_type_checkpoint,
}
use selfstack.Wal.Payload.{Json, DocMetadata, Embedding, decode_doc_payload, decode_delete_payload}
use selfstack.Wal.Reader.{new_segment_iterator_from_lsn, collect}
use selfstack.Wal.Index.{DocumentIndex, to_recovered_doc}

abbrev pub LsnMap : Type 0
LsnMap = Map Bytes ℕ

-- existingLSN, exists := docLSN[docID]; exists && existingLSN >= rec.LSN
unfoldable pub stale : Bytes → ℕ → LsnMap → Bool
stale doc_id lsn doc_lsn = elim (lookup doc_id doc_lsn) [ none ↦ false | some seen ↦ leb lsn seen ]

pub record RecoveryStats : Type 0 where
  pub segments_loaded : ℕ
  pub records_loaded : ℕ
  pub wal_records_replayed : ℕ
  pub tombstones_applied : ℕ
  pub corrupt_records : ℕ
  pub max_lsn : ℕ

abbrev pub no_stats : RecoveryStats
no_stats = record {
  segments_loaded = 0;
  records_loaded = 0;
  wal_records_replayed = 0;
  tombstones_applied = 0;
  corrupt_records = 0;
  max_lsn = 0;
}

module _ (json : Json) (I : DocumentIndex) where
  open I use {Index, set_recovered, delete}

  -- The map `docLSN` and the index, which a recovery changes together.
  pub record Replay : Type 0 where
    pub doc_lsn : LsnMap
    pub index : Index

  -- The two cases of the switch that change something, behind the decoding.
  unfoldable pub apply_document : ℕ → Bytes × DocMetadata × Embedding → Replay → Replay
  apply_document lsn (doc_id, meta, embedding) s =
      if stale doc_id lsn s.doc_lsn then s else record {
        doc_lsn = insert doc_id lsn s.doc_lsn;
        index = set_recovered (to_recovered_doc doc_id meta embedding) s.index;
      }

  unfoldable pub apply_tombstone : ℕ → Bytes → Replay → Replay
  apply_tombstone lsn doc_id s =
      if stale doc_id lsn s.doc_lsn
      then s
      else record { doc_lsn = insert doc_id lsn s.doc_lsn; index = delete doc_id s.index }

  -- A record that cannot be decoded changes nothing, nor does one of another type.
  unfoldable pub apply_record : Record → Replay → Result Replay
  apply_record rec s =
      if rec.type == record_type_insert || rec.type == record_type_update
      then decode_doc_payload json rec.payload >>= (λ d. ok (apply_document rec.lsn d s))
      else if rec.type == record_type_delete
      then decode_delete_payload rec.payload >>= (λ doc_id. ok (apply_tombstone rec.lsn doc_id s))
      else ok s

  pub record Progress : Type 0 where
    pub stats : RecoveryStats
    pub replay : Replay

  -- The body of the loop over the records of a segment.
  unfoldable pub load_record : Record → Progress → Progress
  load_record rec p =
      let seen = record p.stats {
        records_loaded = p.stats.records_loaded + 1;
        max_lsn = if ltb p.stats.max_lsn rec.lsn then rec.lsn else p.stats.max_lsn;
      } in
      elim (apply_record rec p.replay) [
        | err e ↦ record {
          stats = record seen { corrupt_records = seen.corrupt_records + 1 };
          replay = p.replay;
        }
        | ok replay ↦ record {
          stats =
              if rec.type == record_type_delete
              then record seen { tombstones_applied = seen.tombstones_applied + 1 }
              else seen;
          replay = replay;
        }
      ]

  unfoldable pub load_records : List Record → Progress → Progress
  load_records [] p = p
  load_records (rec ∷ recs) p = load_records recs (load_record rec p)

  -- One segment of `RecoverWithoutManifest`; `none` is a file that cannot be opened. The body of
  -- the loop does not touch the iterator, so the records may be read before it runs.
  unfoldable pub load_segment : Option Bytes → Progress → Progress
  load_segment none p = p
  load_segment (some file) p =
      let (records, error) = collect (suc (length file)) (new_segment_iterator_from_lsn file 0) in
      let loaded = load_records records p in
      elim error [
        | some e ↦ record loaded {
          stats = record loaded.stats { corrupt_records = loaded.stats.corrupt_records + 1 };
        }
        | none ↦ record loaded {
          stats = record loaded.stats { segments_loaded = loaded.stats.segments_loaded + 1 };
        }
      ]

  -- The segments in the order of `ListSegmentFiles`.
  unfoldable pub load_segments : List (Option Bytes) → Progress → Progress
  load_segments [] p = p
  load_segments (segment ∷ segments) p = load_segments segments (load_segment segment p)

  unfoldable pub recover_without_manifest : List (Option Bytes) → Index → Progress
  recover_without_manifest segments index =
      load_segments segments
        (record { stats = no_stats; replay = record { doc_lsn = []; index = index } })
