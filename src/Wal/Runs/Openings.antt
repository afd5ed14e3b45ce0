-- ===== src/Wal/Runs/Openings.antt =====
-- A concrete directory on which a store is opened.
use selfstack.Prelude.{◌≡◌, refl, sym, ap, ◌∙◌, [], ◌∷◌, true, none, some, ok, arith, subst, Option}
use selfstack.Prelude.Maps.{lookup, bytes_eq}
use selfstack.Prelude.Sorting.{sort_slice, insert_sorted}
use selfstack.Wal.Payload.{decode_delete_payload, read_uint, read_exactly, read_some}
use selfstack.Wal.Reader.{read_full}
use selfstack.Bytes.{uint}
use selfstack.Wal.Recovery.{
  Progress, no_stats, recover_without_manifest, load_segments, load_records, load_record,
  apply_record,
}
use selfstack.Wal.Recovery.Whole.{load_segment-stats}
use selfstack.Wal.Recovery.Directory.{dir_entries, recover_from_dir}
use selfstack.Wal.Compactor.Merged.{IsBytes, segment_records-encode_all}
use selfstack.Wal.Roller.{
  find_latest_wal_segment, list_wal_segment_files, latest_of, file_names, is_wal_segment_file,
  get_segment_id, scan_name, number_at, skip_space, read_digits,
}
use selfstack.Wal.Writer.Naming.{segment_filename, padded, decimal}
use selfstack.Wal.Manifest.{WalState, in_memory, new_in_memory_manifest}
use selfstack.Wal.Writer.{Io}
use selfstack.Db.MemIndex.{new_mem_index}
use selfstack.Db.MemIndex.Laws.{mem_document_index}
use selfstack.Db.WalStore.{WalStore, raised_max_lsn, initial_segment_id}
use selfstack.Db.WalStore.New.{latest_segment_id, recover_and_get_stats, new_wal_store}
use selfstack.Db.WalStore.Opened.{Continues, first_id, known_max_lsn, new_wal_store-Continues}
use selfstack.Wal.Runs.Records.{tombstone, tombstone-IsWellFormed, text_json}
use selfstack.Wal.Runs.Compactions.{
  world, log_file, log_file-found, log_file-IsByte, world-contents,
}

abbrev no_state : Option WalState
no_state = none

abbrev io : Io
io = record {
  write_fails = none;
  sync_works = true;
  close_works = true;
  checksum_works = true;
  repair_works = true;
  open_works = true;
}

abbrev start : Progress text_json mem_document_index
start = record { stats = no_stats; replay = record { doc_lsn = []; index = new_mem_index } }

tombstone-max : (load_records text_json mem_document_index (tombstone ∷ []) start).stats.max_lsn ≡ 5
unfolding load_records load_record apply_record decode_delete_payload read_uint read_exactly
    read_full read_some uint
tombstone-max = refl

log_file-max :
    (recover_without_manifest text_json mem_document_index
      (some log_file ∷ [])
      new_mem_index).stats.max_lsn
    ≡ 5
unfolding recover_without_manifest load_segments
log_file-max =
    (load_segment-stats text_json mem_document_index (some log_file) start).1
    ∙ ap (λ rs. (load_records text_json mem_document_index rs start).stats.max_lsn)
        (segment_records-encode_all (tombstone ∷ []) (tombstone-IsWellFormed, tt))
    ∙ tombstone-max

world-max : known_max_lsn text_json no_state world.dir ≡ 5
unfolding recover_and_get_stats raised_max_lsn recover_from_dir
world-max =
    ap
      (λ segments.
        (recover_without_manifest text_json mem_document_index segments
          new_mem_index).stats.max_lsn)
      world-contents
    ∙ log_file-max

first_id-one : first_id no_state world.dir ≡ 1
unfolding initial_segment_id latest_segment_id find_latest_wal_segment list_wal_segment_files
    latest_of file_names is_wal_segment_file dir_entries sort_slice insert_sorted get_segment_id
    segment_filename scan_name number_at skip_space padded decimal read_digits
first_id-one = refl

world-IsBytes : IsBytes (lookup (segment_filename (first_id no_state world.dir)) world.dir)
world-IsBytes =
    subst (λ id. IsBytes (lookup (segment_filename id) world.dir)) (sym first_id-one)
      (subst IsBytes (sym log_file-found) log_file-IsByte)

new_wal_store-Continues_example :
    (s : WalStore in_memory) × (new_wal_store in_memory text_json io true no_state world.dir
        new_in_memory_manifest
      ≡ ok s)
    × Continues in_memory world.dir s
new_wal_store-Continues_example =
    new_wal_store-Continues in_memory text_json io true no_state world.dir new_in_memory_manifest
      refl refl (rw world-max (omega arith)) (rw first_id-one (omega arith)) world-IsBytes
