-- ===== src/Db/WalStore/Opened.antt =====
-- A store that is opened goes on where the segments in its directory end.
use selfstack.Prelude.{
  ℕ, ◌+◌, ◌≤◌, ◌<◌, ◌^◌, ◌≡◌, refl, sym, ap, ◌∙◌, [], length, Bool, true, not, ◌&&◌, Option, none,
  some, ok, All, All-weaken, arith, if-split, ltb, subst,
}
use selfstack.Prelude.Maps.{Map, lookup, insert, bytes_eq, lookup-insert}
use selfstack.Bytes.{Bytes}
use selfstack.Wal.Payload.{Json}
use selfstack.Wal.Reader.{read_all_records, read_record, read_full, after_header}
use selfstack.Wal.Reader.Scan.{scan}
use selfstack.Wal.Recovery.Whole.{segment_records, all_records}
use selfstack.Wal.Recovery.Directory.{dir_entries, segment_contents, recover_from_dir}
use selfstack.Wal.Manifest.{ManifestStore, WalState}
use selfstack.Wal.Manifest.Keys.{nat_eq}
use selfstack.Wal.Roller.{
  entries, file_names, is_wal_segment_file, id_or_zero, find_latest_wal_segment,
}
use selfstack.Wal.Roller.Listing.{wal_files-IsLatest}
use selfstack.Wal.Tail.{repaired}
use selfstack.Wal.Tail.Repair.{repaired_lem}
use selfstack.Wal.Compactor.Merged.{IsBytes, segment_records-scan}
use selfstack.Wal.Writer.{Io, WalWriter, content, truncated, open_segment, new_wal_writer}
use selfstack.Wal.Writer.Naming.{segment_filename}
use selfstack.Db.MemIndex.{MemIndex, new_mem_index}
use selfstack.Db.MemIndex.Laws.{mem_document_index}
use selfstack.Db.WalStore.{WalStore, initial_segment_id}
use selfstack.Db.WalStore.Opening.{no_lsn_rewind}
use selfstack.Db.WalStore.New.{
  wal_files, latest_segment_id, recover_and_get_stats, started, new_wal_store,
}
use selfstack.Db.WalStore.Found.{lookup-wal_files, latest-highest}

unwrap : {A : Type 0} (a b : A) → ok a ≡ ok b → a ≡ b
unwrap a b e = cc

-- The highest LSN known at the start, and the segment to go on with.
abbrev pub known_max_lsn : Json → Option WalState → Map Bytes Bytes → ℕ
known_max_lsn json state dir = (recover_and_get_stats json state dir).1

abbrev pub first_id : Option WalState → Map Bytes Bytes → ℕ
first_id state dir =
    initial_segment_id state
      (latest_segment_id (find_latest_wal_segment (entries (dir_entries dir))))

module _ (M : ManifestStore) where
  -- The store's LSN is above all records in the directory, its segment is behind all others, and is
  -- read whole.
  abbrev pub Continues : Map Bytes Bytes → WalStore M → Type 0
  Continues dir s =
      All (λ r. r.lsn < s.writer.lsn) (all_records (segment_contents dir))
      × All (λ n. id_or_zero n ≤ s.writer.segment_id)
          (file_names is_wal_segment_file (dir_entries dir))
      × (read_all_records (content M s.writer.segment_id s.writer.files)
          ≡ ok (segment_records (lookup (segment_filename s.writer.segment_id) dir)))

  content-insert :
      (id : ℕ) (file : Bytes) (files : Map ℕ Bytes) → content M id (insert id file files) ≡ file
  content-insert id file files = ground (arith, lookup-insert id id file files)

  content-truncated :
      (w : WalWriter M) (found : Option Bytes)
      → lookup w.segment_id w.files ≡ found
      → content M w.segment_id (truncated M w).files ≡ repaired (content M w.segment_id w.files)
  unfolding truncated repaired
  content-truncated w none e =
      rw (content, truncated, e)
        (ap (λ (f : Option Bytes). elim f as (λ _. Bytes) [ none ↦ [] | some file ↦ file ]) e)
  content-truncated w (some file) e =
      rw (truncated, e)
        (content-insert w.segment_id (repaired file) w.files ∙ (rw (content, e) refl))

  started-ok :
      (has_db : Bool) (index : MemIndex) (w : WalWriter M) (s : WalStore M)
      → started M has_db index (w, ok tt) ≡ ok s
      → (s.writer.lsn ≡ w.lsn) × (s.writer.segment_id ≡ w.segment_id) × (s.writer.files ≡ w.files)
  started-ok has_db index w s h =
      subst
        (λ (s : WalStore M).
          (s.writer.lsn ≡ w.lsn)
          × (s.writer.segment_id ≡ w.segment_id)
          × (s.writer.files ≡ w.files))
        (unwrap _ s h) (refl, refl, refl)

  -- What the writer keeps, and the file of its segment, once it is open.
  abbrev IsOpen : WalWriter M → WalStore M → Type 0
  IsOpen w s =
      (s.writer.lsn ≡ w.lsn)
      × (s.writer.segment_id ≡ w.segment_id)
      × (content M w.segment_id s.writer.files ≡ repaired (content M w.segment_id w.files))

  open_segment-IsOpen :
      (io : Io) (has_db : Bool) (index : MemIndex) (w : WalWriter M) (s : WalStore M)
      → started M has_db index (open_segment M io w) ≡ ok s
      → IsOpen w s
  unfolding open_segment
  open_segment-IsOpen io has_db index w s h =
      if-split (λ r. started M has_db index r ≡ ok s → IsOpen w s)
        (ltb 0 (length (content M w.segment_id w.files)) && not io.repair_works) _ _
        (λ failed h. absurd (ground arith))
        (λ repairs.
          if-split (λ r. started M has_db index r ≡ ok s → IsOpen w s) io.open_works _ _
            (λ works h.
              let (lsn, id, files) = started-ok has_db index _ s h in
              (
                lsn,
                id,
                ap (content M w.segment_id) files
                    ∙ content-insert w.segment_id (content M w.segment_id (truncated M w).files)
                        (truncated M w).files
                    ∙ content-truncated w (lookup w.segment_id w.files) refl,
              ))
            (λ failed h. absurd (ground arith)))
        h

  open_segment-opens :
      (io : Io) (has_db : Bool) (index : MemIndex) (w : WalWriter M)
      → io.repair_works ≡ true
      → io.open_works ≡ true
      → (s : WalStore M) × (started M has_db index (open_segment M io w) ≡ ok s)
  unfolding open_segment
  open_segment-opens io has_db index w repairs opens =
      if-split (λ r. (s : WalStore M) × (started M has_db index r ≡ ok s))
        (ltb 0 (length (content M w.segment_id w.files)) && not io.repair_works) _ _
        (λ failed. absurd (ground arith))
        (λ passed.
          if-split (λ r. (s : WalStore M) × (started M has_db index r ≡ ok s)) io.open_works _ _
            (λ works. (_, refl)) (λ failed. absurd (ground arith)))

  abbrev or_empty : Option Bytes → Bytes
  or_empty none = []
  or_empty (some file) = file

  -- The repaired segment is read whole, with the records that recovery has read of it.
  repaired-read :
      (id : ℕ) (found : Option Bytes) (files : Map ℕ Bytes)
      → lookup id files ≡ found
      → IsBytes found
      → read_all_records (repaired (content M id files)) ≡ ok (segment_records found)
  unfolding segment_records scan read_record read_full after_header
  repaired-read id none files e b =
      let (whole, read, again) = repaired_lem [] tt in
      ap (λ found. read_all_records (repaired (or_empty found))) e ∙ read
  repaired-read id (some file) files e b =
      let (whole, read, again) = repaired_lem file b in
      ap (λ found. read_all_records (repaired (or_empty found))) e
      ∙ read
      ∙ ap ok (sym (segment_records-scan file))

  module _ (json : Json) (io : Io) (has_db : Bool) (state : Option WalState) (dir : Map Bytes Bytes)
      (manifest : M.State) where
    opened-Continues :
        (s : WalStore M)
        → new_wal_store M json io has_db state dir manifest ≡ ok s
        → known_max_lsn json state dir + 1 < 2 ^ 64
        → first_id state dir < 2 ^ 64
        → IsBytes (lookup (segment_filename (first_id state dir)) dir)
        → Continues dir s
    unfolding new_wal_store new_wal_writer recover_and_get_stats recover_from_dir
    opened-Continues s h small ids bytes =
        let (lsn, id, file) = open_segment-IsOpen io has_db _ _ s h in
        let i = s.writer.segment_id in
        (
          All-weaken _ _ (all_records (segment_contents dir))
              (λ r p. subst (λ l. r.lsn < l) (sym lsn) p)
              (no_lsn_rewind json mem_document_index state (segment_contents dir) new_mem_index
                small),
          All-weaken _ _ (file_names is_wal_segment_file (dir_entries dir))
              (λ n p. subst (λ i. id_or_zero n ≤ i) (sym id) p)
              (latest-highest state _ _ (wal_files-IsLatest (dir_entries dir))),
          ap (λ i. read_all_records (content M i s.writer.files)) id
              ∙ ap read_all_records file
              ∙ repaired-read (first_id state dir) _ (wal_files dir)
                  (lookup-wal_files (first_id state dir) dir ids) bytes
              ∙ ap (λ i. ok (segment_records (lookup (segment_filename i) dir))) (sym id),
        )

    -- Where the segment to go on with can be repaired and opened, and LSNs and segment IDs are left,
    -- NewWALStore returns a store: its writer's LSN is higher than that of every record in the
    -- directory, the ID of its segment is at least that of every WAL segment there, and its segment
    -- is then read without an error, with the records that recovery found in it.
    pub new_wal_store-Continues :
        io.repair_works ≡ true
        → io.open_works ≡ true
        → known_max_lsn json state dir + 1 < 2 ^ 64
        → first_id state dir < 2 ^ 64
        → IsBytes (lookup (segment_filename (first_id state dir)) dir)
        → (s : WalStore M) × (new_wal_store M json io has_db state dir manifest ≡ ok s)
          × Continues dir s
    new_wal_store-Continues repairs opens small ids bytes =
        let (s, h) = opened in (s, h, opened-Continues s h small ids bytes)
      where
        opened : (s : WalStore M) × (new_wal_store M json io has_db state dir manifest ≡ ok s)
        opened =
            unfold new_wal_store new_wal_writer in open_segment-opens io has_db _ _ repairs opens
