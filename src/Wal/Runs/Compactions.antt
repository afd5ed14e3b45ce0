-- ===== src/Wal/Runs/Compactions.antt =====
-- Concrete runs of a compaction.
use selfstack.Prelude.{
  ◌≡◌, refl, sym, ◌∙◌, ap, List, [], ◌∷◌, true, false, none, some, All, All-append, inl, inr, subst,
  append-nil,
}
use selfstack.Prelude.Maps.{lookup, bytes_eq}
use selfstack.Prelude.Sorting.{sort_slice, insert_sorted}
use selfstack.Bytes.{Bytes, IsByte}
use selfstack.Wal.Record.{encode}
use selfstack.Wal.Reader.Whole.{encode_all}
use selfstack.Wal.Manifest.{SegmentInfo, sealed}
use selfstack.Wal.Manifest.Keys.{wal}
use selfstack.Wal.Writer.Naming.{segment_filename, padded, decimal}
use selfstack.Wal.Roller.{
  file_names, is_segment_file, is_wal_segment_file, list_segment_files, compacted_segment_filename,
}
use selfstack.Wal.Recovery.Whole.{all_records}
use selfstack.Wal.Recovery.Same.{IsConsistent}
use selfstack.Wal.Recovery.Directory.{segment_contents, recover_from_dir, dir_entries, opened}
use selfstack.Wal.Compactor.{SegmentInput}
use selfstack.Wal.Compactor.Merged.{IsBytes, segment_records-encode_all}
use selfstack.Wal.Compactor.Run.{inputs, final_name, new_segment_id, compact_segments}
use selfstack.Wal.Compactor.Ran.{CompactIo, World}
use selfstack.Wal.Compactor.Crash.{crash_safe}
use selfstack.Db.MemIndex.{new_mem_index}
use selfstack.Db.MemIndex.Laws.{mem_document_index, find_recovered}
use selfstack.Wal.Runs.Records.{tombstone, tombstone-IsWellFormed, text_json, doc_a}
use selfstack.Wal.Runs.Segments.{tombstone-IsByte}
use selfstack.Wal.Runs.Recoveries.{new_index-empty}
use selfstack.Wal.Runs.Files.{segment}

-- Every call works but the commit.
abbrev pub io : CompactIo
io = record {
  lists = true;
  marks = λ id. true;
  unmarks = λ id. true;
  archives_all = true;
  creates = true;
  writes = true;
  left_over = [];
  finalizes = true;
  begins = true;
  archives = λ id. true;
  renames = true;
  registers = true;
  commits = false;
  removes = λ name. true;
  removes_tmp = true;
  tmp_name = 116 ∷ [];
}

abbrev pub log_file : Bytes
log_file = encode_all (tombstone ∷ [])

-- One sealed segment with a tombstone.
abbrev pub one : List SegmentInfo
one = segment 1 sealed ∷ []

abbrev pub world : World
world = record {
  dir = (segment_filename 1, log_file) ∷ [];
  tmp = [];
  tables = record {
    segments = (record { type = wal; id = 1 }, segment 1 sealed) ∷ [];
    state = none;
  };
}

no_final : lookup (final_name one) world.dir ≡ none
unfolding lookup new_segment_id compacted_segment_filename segment_filename padded decimal
no_final = refl

pub wal_names : All (λ (s : SegmentInfo). is_wal_segment_file s.filename ≡ true) one
unfolding is_wal_segment_file segment_filename padded decimal
wal_names = (refl, tt)

pub log_file-found : lookup (segment_filename 1) world.dir ≡ some log_file
unfolding lookup segment_filename padded decimal
log_file-found = refl

pub log_file-IsByte : All IsByte log_file
unfolding encode_all
log_file-IsByte = All-append IsByte (encode tombstone) [] tombstone-IsByte tt

world-IsBytes : All (λ (i : SegmentInput). IsBytes i.file) (inputs one world)
world-IsBytes = (subst IsBytes (sym log_file-found) log_file-IsByte, tt)

pub world-contents : segment_contents world.dir ≡ some log_file ∷ []
unfolding segment_contents list_segment_files dir_entries opened file_names is_segment_file
    sort_slice insert_sorted lookup segment_filename padded decimal
world-contents = refl

world-records : all_records (segment_contents world.dir) ≡ tombstone ∷ []
unfolding all_records
world-records =
    ap all_records world-contents
    ∙ append-nil _
    ∙ segment_records-encode_all (tombstone ∷ []) (tombstone-IsWellFormed, tt)

one_record : (k : Bytes) → IsConsistent text_json k (tombstone ∷ [])
one_record k l d d' (inl (c, e)) (inl (c', e')) = cc
one_record k l d d' (inl p) (inr b) = absurd b
one_record k l d d' (inr a) q = absurd a

world-IsConsistent : IsConsistent text_json doc_a (all_records (segment_contents world.dir))
world-IsConsistent = subst (IsConsistent text_json doc_a) (sym world-records) (one_record doc_a)

crash_safe_example :
    let recovered = λ (w : World).
      find_recovered doc_a
        (recover_from_dir text_json mem_document_index w.dir new_mem_index).replay.index
      ≡ find_recovered doc_a
          (recover_from_dir text_json mem_document_index world.dir new_mem_index).replay.index in
    All recovered (compact_segments text_json io one world).past
    × recovered (compact_segments text_json io one world).world
crash_safe_example =
    crash_safe text_json mem_document_index io one world new_mem_index doc_a no_final wal_names
      world-IsBytes world-IsConsistent new_index-empty
