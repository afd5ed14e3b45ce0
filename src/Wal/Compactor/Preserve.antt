-- ===== src/Wal/Compactor/Preserve.antt =====
-- Recovery before and after a compaction.
use selfstack.Prelude.{
  All-weaken, ◌≡◌, refl, sym, ap, ◌∙◌, List, [], ◌∷◌, ◌++◌, Option, none, some, ok, All,
  append_assoc,
}
use selfstack.Prelude.Maps.{bytes_eq}
use selfstack.Bytes.{Bytes}
use selfstack.Wal.Record.{Record, IsWellFormed}
use selfstack.Wal.Payload.{Json}
use selfstack.Wal.Reader.{new_segment_writer}
use selfstack.Wal.Reader.Whole.{file-write_all}
use selfstack.Wal.Index.{DocumentIndex}
use selfstack.Wal.Recovery.{recover_without_manifest}
use selfstack.Wal.Recovery.Latest.{known_doc, latest, latest-append}
use selfstack.Wal.Recovery.Whole.{segment_records, all_records, recover-latest}
use selfstack.Wal.Recovery.Highest.{join, join_assoc, latest-join, Apart, latest-swap}
use selfstack.Wal.Compactor.{
  Merge, SegmentInput, merge_records, compacted_records, compacted_segment,
}
use selfstack.Wal.Compactor.Segments.{files}
use selfstack.Wal.Compactor.Output.{latest-compacted}
use selfstack.Wal.Compactor.Merged.{
  segment_records-encode_all, IsBytes, segment_records-IsWellFormed, compacted-All,
}

all_records-append :
    (xs ys : List (Option Bytes)) → all_records (xs ++ ys) ≡ all_records xs ++ all_records ys
unfolding all_records
all_records-append [] ys = refl
all_records-append (x ∷ xs) ys =
    ap (λ rest. segment_records x ++ rest) (all_records-append xs ys)
    ∙ sym (append_assoc (segment_records x) (all_records xs) (all_records ys))

-- What segments say may be said after others whose LSNs are different.
latest-move :
    (json : Json) (k : Bytes) (xs ys mid before after : List Record)
    → latest json k xs none ≡ latest json k ys none
    → Apart ys mid
    → latest json k (before ++ (mid ++ (xs ++ after))) none
      ≡ latest json k (before ++ (ys ++ (mid ++ after))) none
latest-move json k xs ys mid before after same apart =
    let seen = latest json k before none in
    let said = latest json k ys none in
    let between = latest json k mid none in
    let swapped : join (join seen between) said ≡ join (join seen said) between =
      join_assoc seen between said
      ∙ ap (join seen) (sym (latest-swap json k ys mid apart))
      ∙ sym (join_assoc seen said between) in
    rw
      (
        latest-append json k before (mid ++ (xs ++ after)) none,
        latest-append json k before (ys ++ (mid ++ after)) none,
        latest-append json k mid (xs ++ after) seen,
        latest-append json k ys (mid ++ after) seen,
        latest-join json k mid seen,
        latest-join json k ys seen,
        latest-append json k xs after (join seen between),
        latest-append json k mid after (join seen said),
        latest-join json k xs (join seen between),
        latest-join json k mid (join seen said),
        same,
      )
      (ap (latest json k after) swapped)

pub compacted-records :
    (json : Json) (segs : List SegmentInput) (m : Merge)
    → merge_records json segs ≡ ok m
    → All (λ (s : SegmentInput). IsBytes s.file) segs
    → segment_records (some (compacted_segment m).file) ≡ compacted_records m
unfolding compacted_segment
compacted-records json segs m e b =
    ap (λ file. segment_records (some file))
      (file-write_all new_segment_writer (compacted_records m))
    ∙ segment_records-encode_all (compacted_records m) (
        compacted-All json IsWellFormed segs m e
          (All-weaken _ _ segs (λ s h. segment_records-IsWellFormed s.file h) b))

latest-compaction :
    (json : Json) (segs : List SegmentInput) (m : Merge) (before mid after : List (Option Bytes))
    (k : Bytes)
    → merge_records json segs ≡ ok m
    → All (λ (s : SegmentInput). IsBytes s.file) segs
    → Apart (all_records (files json segs)) (all_records mid)
    → latest json k
        (all_records (before ++ (mid ++ (some (compacted_segment m).file ∷ after))))
        none
      ≡ latest json k (all_records (before ++ (files json segs ++ (mid ++ after)))) none
unfolding all_records
latest-compaction json segs m before mid after k e b apart =
    rw
      (
        all_records-append before (mid ++ (some (compacted_segment m).file ∷ after)),
        all_records-append mid (some (compacted_segment m).file ∷ after),
        all_records-append before (files json segs ++ (mid ++ after)),
        all_records-append (files json segs) (mid ++ after),
        all_records-append mid after,
        compacted-records json segs m e b,
      )
      (latest-move json k (compacted_records m) (all_records (files json segs)) (all_records mid)
        (all_records before) (all_records after) (latest-compacted json k segs m e) apart)

-- A compaction does not change what recovery finds. When segments are merged without an error, a
-- recovery into an empty index finds of every document the same, whether it reads the segments or
-- the one that replaces them, whatever segments are read before and after. The new one may be read
-- later than they were, behind segments whose records have other LSNs than theirs.
pub compaction_preserves_recovery :
    (json : Json) (I : DocumentIndex) (segs : List SegmentInput) (m : Merge)
    (before mid after : List (Option Bytes)) (index : I.Index) (k : Bytes)
    → merge_records json segs ≡ ok m
    → All (λ (s : SegmentInput). IsBytes s.file) segs
    → Apart (all_records (files json segs)) (all_records mid)
    → ((j : Bytes) → I.find j index ≡ none)
    → I.find k
        (recover_without_manifest json I
          (before ++ (mid ++ (some (compacted_segment m).file ∷ after)))
          index).replay.index
      ≡ I.find k
          (recover_without_manifest json I
            (before ++ (files json segs ++ (mid ++ after)))
            index).replay.index
compaction_preserves_recovery json I segs m before mid after index k e b apart empty =
    recover-latest json I _ index k empty
    ∙ ap known_doc (latest-compaction json segs m before mid after k e b apart)
    ∙ sym (recover-latest json I _ index k empty)
