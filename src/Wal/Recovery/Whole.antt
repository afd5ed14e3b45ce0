-- ===== src/Wal/Recovery/Whole.antt =====
-- A whole recovery: what the index holds of each document, and the statistics.
use selfstack.Prelude.{
  suc, ◌+◌, ◌≤◌, ◌≡◌, refl, List, [], ◌∷◌, ◌++◌, Option, none, some, length, arith, Result-cases,
  Option-cases, inl, inr, All, All-append, All-weaken, length-append,
}
use selfstack.Prelude.Maps.{lookup}
use selfstack.Bytes.{Bytes}
use selfstack.Wal.Record.{Record}
use selfstack.Wal.Payload.{Json}
use selfstack.Wal.Reader.{new_segment_iterator_from_lsn, collect}
use selfstack.Wal.Index.{DocumentIndex}
use selfstack.Wal.Recovery.{
  Progress, apply_record, load_record, load_records, load_segment, load_segments,
  recover_without_manifest,
}
use selfstack.Wal.Recovery.Latest.{
  Known, known_doc, latest, latest-append, Agrees, applied, applied-Agrees,
}

-- The records that the iterator yields of a segment, before the error that may end it.
unfoldable pub segment_records : Option Bytes → List Record
segment_records none = []
segment_records (some file) = (collect (suc (length file)) (new_segment_iterator_from_lsn file 0)).0

-- All records of all segments, in the order in which they are read.
unfoldable pub all_records : List (Option Bytes) → List Record
all_records [] = []
all_records (segment ∷ segments) = segment_records segment ++ all_records segments

module _ (json : Json) (I : DocumentIndex) where
  open I use {Index, find}

  load_record-replay :
      (rec : Record) (p : Progress json I)
      → (load_record json I rec p).replay ≡ applied json I rec p.replay
  unfolding load_record
  load_record-replay rec p = elim (Result-cases (apply_record json I rec p.replay)) [
    | inl (s, e) ↦ rw (load_record, applied, e)
    | inr (x, e) ↦ rw (load_record, applied, e)
  ]

  pub load_records-Agrees :
      (k : Bytes) (recs : List Record) (known : Known) (p : Progress json I)
      → Agrees json I k known p.replay
      → Agrees json I k (latest json k recs known) (load_records json I recs p).replay
  unfolding latest load_records
  load_records-Agrees k [] known p a = a
  load_records-Agrees k (rec ∷ recs) known p a =
      load_records-Agrees k recs _ (load_record json I rec p)
        (rw (load_record-replay rec p) (applied-Agrees json I k known rec p.replay a))

  load_segment-replay :
      (segment : Option Bytes) (p : Progress json I)
      → (load_segment json I segment p).replay
        ≡ (load_records json I (segment_records segment) p).replay
  unfolding load_segment segment_records
  load_segment-replay none p = unfold load_records in refl
  load_segment-replay (some file) p =
      elim (Option-cases (collect (suc (length file)) (new_segment_iterator_from_lsn file 0)).1) [
        | inl e ↦ rw (load_segment, e)
        | inr (x, e) ↦ rw (load_segment, e)
      ]

  load_segments-Agrees :
      (k : Bytes) (segments : List (Option Bytes)) (known : Known) (p : Progress json I)
      → Agrees json I k known p.replay
      → Agrees json I k
          (latest json k (all_records segments) known)
          (load_segments json I segments p).replay
  unfolding all_records load_segments
  load_segments-Agrees k [] known p a = unfold latest in a
  load_segments-Agrees k (segment ∷ segments) known p a =
      rw (latest-append json k (segment_records segment) (all_records segments) known) (
        load_segments-Agrees k segments _ (load_segment json I segment p) (
          rw (load_segment-replay segment p)
            (load_records-Agrees k (segment_records segment) known p a)))

  -- After a recovery into an empty index, the index holds of every document the content of the
  -- record with the highest LSN among those that can be read and decoded, or nothing if that is a
  -- tombstone or there is none.
  pub recover-latest :
      (segments : List (Option Bytes)) (index : Index) (k : Bytes)
      → ((j : Bytes) → find j index ≡ none)
      → find k (recover_without_manifest json I segments index).replay.index
        ≡ known_doc (latest json k (all_records segments) none)
  unfolding recover_without_manifest lookup
  recover-latest segments index k empty =
      (load_segments-Agrees k segments none _ (record { lsn = refl; doc = empty k })).doc

-- Statistics: records are counted, and no LSN that was read exceeds `MaxLSN`, from which the next
-- LSN is taken.
module _ (json : Json) (I : DocumentIndex) where
  load_record-stats :
      (rec : Record) (p : Progress json I)
      → ((load_record json I rec p).stats.records_loaded ≡ p.stats.records_loaded + 1)
        × (p.stats.max_lsn ≤ (load_record json I rec p).stats.max_lsn)
        × (rec.lsn ≤ (load_record json I rec p).stats.max_lsn)
  unfolding load_record
  load_record-stats rec p = ground arith

  load_records-stats :
      (recs : List Record) (p : Progress json I)
      → ((load_records json I recs p).stats.records_loaded ≡ p.stats.records_loaded + length recs)
        × (p.stats.max_lsn ≤ (load_records json I recs p).stats.max_lsn)
        × All (λ r. r.lsn ≤ (load_records json I recs p).stats.max_lsn) recs
  unfolding load_records
  load_records-stats [] p = (omega arith, omega arith, tt)
  load_records-stats (rec ∷ recs) p =
      let (one, low, here) = load_record-stats rec p in
      let (many, low', all) = load_records-stats recs (load_record json I rec p) in
      (omega arith, omega arith, (omega arith, all))

  pub load_segment-stats :
      (segment : Option Bytes) (p : Progress json I)
      → ((load_segment json I segment p).stats.records_loaded
          ≡ (load_records json I (segment_records segment) p).stats.records_loaded)
        × ((load_segment json I segment p).stats.max_lsn
            ≡ (load_records json I (segment_records segment) p).stats.max_lsn)
  unfolding load_segment segment_records
  load_segment-stats none p = unfold load_records in (refl, refl)
  load_segment-stats (some file) p = ground arith

  load_segments-stats :
      (segments : List (Option Bytes)) (p : Progress json I)
      → ((load_segments json I segments p).stats.records_loaded
          ≡ p.stats.records_loaded + length (all_records segments))
        × (p.stats.max_lsn ≤ (load_segments json I segments p).stats.max_lsn)
        × All (λ r. r.lsn ≤ (load_segments json I segments p).stats.max_lsn) (all_records segments)
  unfolding load_segments all_records
  load_segments-stats [] p = (omega arith, omega arith, tt)
  load_segments-stats (segment ∷ segments) p =
      let (one, low, here) = load_records-stats (segment_records segment) p in
      let (count, high) = load_segment-stats segment p in
      let (many, low', all) = load_segments-stats segments (load_segment json I segment p) in
      let mid = (load_records json I (segment_records segment) p).stats.max_lsn in
      let last = (load_segments json I segments (load_segment json I segment p)).stats.max_lsn in
      (
        omega (arith, length-append (segment_records segment) (all_records segments)),
        omega arith,
        All-append (λ r. r.lsn ≤ last) (segment_records segment) (all_records segments)
            (All-weaken (λ r. r.lsn ≤ mid) (λ r. r.lsn ≤ last) (segment_records segment)
              (λ r h. omega arith) here)
            all,
      )

  -- A recovery counts every record that can be read, and `MaxLSN` is no less than the LSN of any.
  pub recover-stats :
      (segments : List (Option Bytes)) (index : I.Index)
      → let stats = (recover_without_manifest json I segments index).stats in
        (stats.records_loaded ≡ length (all_records segments))
        × All (λ r. r.lsn ≤ stats.max_lsn) (all_records segments)
  unfolding recover_without_manifest
  recover-stats segments index =
      let (count, _, all) = load_segments-stats segments _ in (omega arith, all)
