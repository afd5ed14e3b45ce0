-- ===== src/Wal/Runs/Recoveries.antt =====
-- Concrete recoveries and a concrete compaction.
use selfstack.Prelude.{
  suc, ◌≤◌, ◌≡◌, refl, List, [], ◌∷◌, ◌++◌, Option, none, some, ok, length, All, arith, ◌∙◌,
  append-nil,
}
use selfstack.Prelude.Maps.{lookup, insert, erase, bytes_eq}
use selfstack.Bytes.{Bytes, uint}
use selfstack.Wal.Payload.{decode_delete_payload, read_uint, read_exactly, read_some}
use selfstack.Wal.Reader.{read_full}
use selfstack.Wal.Reader.Scan.{collect-scan, kept-zero}
use selfstack.Wal.Reader.Whole.{encode_all, scan-encode_all, length-encode_all}
use selfstack.Wal.Recovery.{recover_without_manifest}
use selfstack.Wal.Recovery.Latest.{Known, known_doc}
use selfstack.Wal.Recovery.Whole.{all_records, recover-stats, segment_records}
use selfstack.Wal.Recovery.Highest.{IsHighest, recover-IsHighest, Apart}
use selfstack.Wal.Compactor.{
  Merge, SegmentInput, empty_merge, merge_record, record_doc_id, keep_latest, newer, merge_all,
  merge_file, merge_segment, merge_segments, merge_records, compacted_segment,
}
use selfstack.Wal.Compactor.Segments.{files}
use selfstack.Wal.Compactor.Preserve.{compaction_preserves_recovery}
use selfstack.Wal.Compactor.Merged.{segment_records-encode_all}
use selfstack.Db.MemIndex.{new_mem_index, get}
use selfstack.Db.MemIndex.Laws.{mem_document_index, find_recovered}
use selfstack.Wal.Record.{Record, IsWellFormed, new_record}
use selfstack.Wal.Record.RoundTrip.{new_record-IsWellFormed}
use selfstack.Wal.Runs.Records.{tombstone, text_json, doc_a, made}
use selfstack.Wal.Runs.Segments.{two_records, two_records-IsWellFormed, two_records-IsByte}

-- A segment with two records and a corrupt tail, and one that cannot be opened.
abbrev segments : List (Option Bytes)
segments = some (encode_all two_records ++ (1 ∷ 2 ∷ [])) ∷ none ∷ []

pub new_index-empty : (j : Bytes) → find_recovered j new_mem_index ≡ none
unfolding find_recovered get lookup new_mem_index
new_index-empty j = refl

recover-IsHighest_example :
    (known : Known) × IsHighest text_json doc_a (all_records segments) known
    × (find_recovered doc_a
          (recover_without_manifest text_json mem_document_index segments
            new_mem_index).replay.index
        ≡ known_doc known)
recover-IsHighest_example =
    recover-IsHighest text_json mem_document_index segments new_mem_index doc_a new_index-empty

recover-stats_example :
    let stats =
      (recover_without_manifest text_json mem_document_index segments new_mem_index).stats in
    (stats.records_loaded ≡ length (all_records segments))
    × All (λ r. r.lsn ≤ stats.max_lsn) (all_records segments)
recover-stats_example = recover-stats text_json mem_document_index segments new_mem_index

-- One segment is compacted.
abbrev inputs : List SegmentInput
inputs = record { file = some (encode_all two_records); checksum = none } ∷ []

abbrev merged : Merge
merged = record { records = []; tombstones = (doc_a, tombstone) ∷ []; record_lsn = (doc_a, 5) ∷ [] }

two_records-merged : merge_all text_json two_records empty_merge ≡ ok merged
unfolding merge_all merge_record record_doc_id keep_latest newer decode_delete_payload read_uint
    read_exactly read_full read_some uint lookup insert erase
two_records-merged = refl

inputs-merged : merge_records text_json inputs ≡ ok merged
unfolding merge_records merge_segments merge_segment merge_file
inputs-merged =
    rw
      (
        collect-scan (encode_all two_records) 0 (suc (length (encode_all two_records)))
            (omega arith),
        scan-encode_all two_records (suc (length (encode_all two_records))) two_records-IsWellFormed
            (omega (arith, length-encode_all two_records)),
        kept-zero two_records,
        two_records-merged,
      )
      refl

-- A segment that is read between the old segments and the new one.
abbrev later : Record
later = made 4 9 (5 ∷ [])

later-IsWellFormed : IsWellFormed later
unfolding new_record
later-IsWellFormed = new_record-IsWellFormed 4 9 (5 ∷ []) (omega arith) (omega arith) refl

abbrev between : List (Option Bytes)
between = some (encode_all (later ∷ [])) ∷ []

one_file : (rs : List Record) → All IsWellFormed rs → all_records (some (encode_all rs) ∷ []) ≡ rs
unfolding all_records
one_file rs w =
    append-nil (segment_records (some (encode_all rs))) ∙ segment_records-encode_all rs w

inputs-Apart : Apart (all_records (files text_json inputs)) (all_records between)
inputs-Apart =
    rw
      (
        one_file two_records two_records-IsWellFormed,
        one_file (later ∷ []) (later-IsWellFormed, tt),
      )
      ((omega arith, tt), ((omega arith, tt), tt))

compaction_preserves_recovery_example :
    find_recovered doc_a
      (recover_without_manifest text_json mem_document_index
        (none ∷ (between ++ (some (compacted_segment merged).file ∷ [])))
        new_mem_index).replay.index
    ≡ find_recovered doc_a
        (recover_without_manifest text_json mem_document_index
          (none ∷ (files text_json inputs ++ (between ++ [])))
          new_mem_index).replay.index
compaction_preserves_recovery_example =
    compaction_preserves_recovery text_json mem_document_index inputs merged (none ∷ []) between []
      new_mem_index doc_a inputs-merged (two_records-IsByte, tt) inputs-Apart new_index-empty
