-- ===== src/Wal/Compactor/Crash.antt =====
-- Recovery from the directory that a compaction leaves, wherever it stops.
use selfstack.Prelude.{◌≡◌, List, true, none, All, All-weaken}
use selfstack.Prelude.Maps.{lookup, bytes_eq}
use selfstack.Bytes.{Bytes}
use selfstack.Wal.Payload.{Json}
use selfstack.Wal.Index.{DocumentIndex}
use selfstack.Wal.Manifest.{SegmentInfo}
use selfstack.Wal.Roller.Names.{final-other}
use selfstack.Wal.Roller.{is_wal_segment_file}
use selfstack.Wal.Recovery.Whole.{all_records}
use selfstack.Wal.Recovery.Same.{IsConsistent}
use selfstack.Wal.Recovery.Directory.{segment_contents, recover_from_dir}
use selfstack.Wal.Compactor.{SegmentInput}
use selfstack.Wal.Compactor.Merged.{IsBytes}
use selfstack.Wal.Compactor.Run.{inputs, final_name, compact_segments, new_segment_id}
use selfstack.Wal.Compactor.Ran.{CompactIo, World}
use selfstack.Wal.Compactor.Stages.{IsStage}
use selfstack.Wal.Compactor.Course.{compact_segments-stages}
use selfstack.Wal.Compactor.Remains.{stage-recovers}

-- A crash during a compaction loses nothing and brings nothing back: whichever of its calls fail,
-- in every world that it goes through and in the one that it ends in, recovery from the segment
-- directory finds of the document k what it found before the compaction. The merged files are named
-- as WAL segments and hold bytes, no file has the merged segment's name yet, and records about k in
-- the directory that share an LSN agree.
pub crash_safe :
    (json : Json) (I : DocumentIndex) (io : CompactIo) (segs : List SegmentInfo) (w₀ : World)
    (index : I.Index) (k : Bytes)
    → lookup (final_name segs) w₀.dir ≡ none
    → All (λ (s : SegmentInfo). is_wal_segment_file s.filename ≡ true) segs
    → All (λ (i : SegmentInput). IsBytes i.file) (inputs segs w₀)
    → IsConsistent json k (all_records (segment_contents w₀.dir))
    → ((j : Bytes) → I.find j index ≡ none)
    → let recovered = λ (w : World).
      I.find k (recover_from_dir json I w.dir index).replay.index
      ≡ I.find k (recover_from_dir json I w₀.dir index).replay.index in
      All recovered (compact_segments json io segs w₀).past
      × recovered (compact_segments json io segs w₀).world
crash_safe json I io segs w₀ index k absent names bytes consistent empty =
    let others =
      All-weaken _ _ segs (λ (s : SegmentInfo) h. final-other (new_segment_id segs) s.filename h)
        names in
    let stages = compact_segments-stages json io segs w₀ absent others in
    let safe = stage-recovers json io segs w₀ absent names bytes k consistent I index empty in
    (
      All-weaken (λ (w : World). IsStage json io segs w₀ w.dir) _
          (compact_segments json io segs w₀).past (λ w h. safe w.dir h) stages.along,
      safe (compact_segments json io segs w₀).world.dir stages.now,
    )
