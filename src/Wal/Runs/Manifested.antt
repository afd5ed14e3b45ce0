-- ===== src/Wal/Runs/Manifested.antt =====
-- Concrete recoveries along a manifest.
use selfstack.Prelude.{
  suc, ◌≡◌, ◌≢◌, refl, ◌∙◌, ap, List, [], ◌∷◌, none, some, ok, unexpected_eof, inl, length, arith,
}
use selfstack.Prelude.Maps.{lookup, bytes_eq}
use selfstack.Prelude.Sorting.{sort_slice, insert_sorted}
use selfstack.Bytes.{Bytes}
use selfstack.Wal.Reader.{
  new_segment_iterator_from_lsn, collect, next_loop, read_record, read_full, after_header,
}
use selfstack.Wal.Reader.Scan.{collect-scan}
use selfstack.Wal.Reader.Whole.{encode_all, scan-encode_all, length-encode_all}
use selfstack.Wal.Writer.Naming.{segment_filename, padded, decimal}
use selfstack.Wal.Manifest.{SegmentInfo, active, WalState}
use selfstack.Wal.Manifest.Postgres.{by_id}
use selfstack.Wal.Recovery.Latest.{known_doc, latest}
use selfstack.Wal.Recovery.ByManifest.{
  Directory, find_listed, read_segment, read_file, verify, visit, visit_all, recover,
}
use selfstack.Wal.Recovery.Torn.{torn_segment_fails}
use selfstack.Wal.Recovery.Visited.{manifest_records}
use selfstack.Wal.Recovery.Registered.{recover_by_manifest-registered}
use selfstack.Db.MemIndex.{new_mem_index}
use selfstack.Db.MemIndex.Laws.{mem_document_index, find_recovered}
use selfstack.Wal.Runs.Records.{tombstone, tombstone-IsWellFormed, text_json, doc_a}
use selfstack.Wal.Runs.Recoveries.{new_index-empty}
use selfstack.Wal.Runs.Files.{segment}

abbrev state : WalState
state = record { current_segment_id = 1; next_lsn = 1; checkpoint_lsn = 0 }

abbrev segs : List SegmentInfo
segs = segment 1 active ∷ []

-- Two bytes of a header that was never finished.
abbrev torn_dir : Directory
torn_dir = (segment_filename 1, 1 ∷ 2 ∷ []) ∷ []

torn_file : lookup (segment_filename 1) torn_dir ≡ some (1 ∷ 2 ∷ [])
unfolding lookup segment_filename padded decimal
torn_file = refl

torn_error : (collect 3 (new_segment_iterator_from_lsn (1 ∷ 2 ∷ []) 1)).1 ≡ some unexpected_eof
unfolding collect next_loop read_record read_full after_header
torn_error = refl

torn_read : (collect 3 (new_segment_iterator_from_lsn (1 ∷ 2 ∷ []) 1)).1 ≢ none
torn_read e = ground (arith, e, torn_error)

torn_segment_fails_example :
    (recover text_json mem_document_index (ok (state, segs)) torn_dir new_mem_index).1 ≢ none
torn_segment_fails_example =
    torn_segment_fails text_json mem_document_index state segs torn_dir new_mem_index
      (inl (refl, (1 ∷ 2 ∷ [], torn_file, torn_read)))

-- A whole segment.
abbrev log_file : Bytes
log_file = encode_all (tombstone ∷ [])

abbrev dir : Directory
dir = (segment_filename 1, log_file) ∷ []

log_file-found : lookup (segment_filename 1) dir ≡ some log_file
unfolding lookup segment_filename padded decimal
log_file-found = refl

log_file-read :
    (collect (suc (length log_file)) (new_segment_iterator_from_lsn log_file 1)).1 ≡ none
log_file-read =
    ap (λ t. t.1) (collect-scan log_file 1 (suc (length log_file)) (omega arith))
    ∙ ap (λ t. t.1)
        (scan-encode_all (tombstone ∷ []) (suc (length log_file)) (tombstone-IsWellFormed, tt)
          (omega (arith, length-encode_all (tombstone ∷ []))))

recovered : (recover text_json mem_document_index (ok (state, segs)) dir new_mem_index).1 ≡ none
unfolding recover visit_all visit verify read_file read_segment sort_slice insert_sorted
recovered = ground (arith, log_file-found, log_file-read)

listed : find_listed (sort_slice by_id segs) dir ≡ some log_file
unfolding find_listed sort_slice insert_sorted
listed = ground (arith, log_file-found)

recover_by_manifest-registered_example :
    find_recovered doc_a
      (recover text_json mem_document_index (ok (state, segs)) dir new_mem_index).0.replay.index
    ≡ known_doc (latest text_json doc_a (manifest_records 0 dir (sort_slice by_id segs)) none)
recover_by_manifest-registered_example =
    recover_by_manifest-registered text_json mem_document_index state segs dir new_mem_index doc_a
      log_file listed recovered new_index-empty
