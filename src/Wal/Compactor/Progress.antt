-- ===== src/Wal/Compactor/Progress.antt =====
-- A compaction whose calls work comes to its end without an error.
use selfstack.Prelude.{
  ◌≡◌, refl, sym, ap, ◌∙◌, List, [], ◌∷◌, length, ◌==◌, none, some, Result, ok, err, arith,
  io_failed, inl, inr, if-split, if◌then◌else◌, All, All-weaken, subst, true, false,
}
use selfstack.Prelude.Maps.{
  Map, lookup, insert, erase, bytes_eq, bytes_beq, bytes_beq_iff, lookup-insert, lookup-erase,
}
use selfstack.Bytes.{Bytes}
use selfstack.Wal.Record.{Record}
use selfstack.Wal.Payload.{Json}
use selfstack.Wal.Manifest.{SegmentInfo, compacting, wal_key}
use selfstack.Wal.Manifest.Keys.{SegmentKey, key_eq}
use selfstack.Wal.Manifest.Postgres.{Tables, pg_update_segment_status}
use selfstack.Wal.Compactor.{
  Merge, merge_records, merge_segments, add_all, combined, compacted_segment,
}
use selfstack.Wal.Compactor.Run.{
  inputs, mark, mark_all, rollback_to_sealed, create_tmp, fill_tmp, rename, rename_to, begin_tx,
  commit, drop_tmp, drop_final, swap, write_and_swap, write_or_archive, compact_segments,
  final_name, new_segment_id,
}
use selfstack.Wal.Roller.{is_wal_segment_file}
use selfstack.Wal.Roller.Names.{final-other}
use selfstack.Wal.Compactor.Ran.{CompactIo, World, done, failed, change}
use selfstack.Wal.Compactor.Triple.{Ends}
use selfstack.Wal.Compactor.Succeeds.{
  Succeeds, IsWorking, if_works, on_error-Succeeds, then-Succeeds, returned-Succeeds, done-Succeeds,
  change-Succeeds, stated-Succeeds, remove_files-Succeeds, archive_only-Succeeds, archived_in_tx,
  registered_in_tx, archived_absent,
}
use selfstack.Wal.Compactor.Stages.{inputs-eq}
use selfstack.Wal.Compactor.Statuses.{
  WasSealed, IsOf, MarkedOf, mark-MarkedOf, status-set, sealed_row,
}
use selfstack.Wal.Compactor.Settled.{compacted_key, Settled}
use selfstack.Wal.Compactor.Undone.{Compacted, Unchanged}
use selfstack.Wal.Compactor.Atomic.{none_given, compact_segments-IsAtomic}

ok_injective : {A : Type 0} (a b : A) → ok a ≡ ok b → a ≡ b
ok_injective a b e = cc

-- Where a record is left, the merged segment is in the directory.
abbrev pub IsWritten : List SegmentInfo → Merge → Map Bytes Record → World → Unit {0} → Type 0
IsWritten segs m [] w u = Unit {0}
IsWritten segs m (x ∷ xs) w u = lookup (final_name segs) w.dir ≡ some (compacted_segment m).file

module _ (io : CompactIo) (works : IsWorking io) where
  module _ (segs : List SegmentInfo)
      (others : All (λ (s : SegmentInfo). bytes_beq s.filename (final_name segs) ≡ false) segs)
      (m : Merge) where
    -- The merged segment is in the directory under its name.
    abbrev HasFile : World → Unit {0} → Type 0
    HasFile w u = lookup (final_name segs) w.dir ≡ some (compacted_segment m).file

    HasFile-erase :
        (s : SegmentInfo) (w : World)
        → bytes_beq s.filename (final_name segs) ≡ false
        → HasFile w tt
        → HasFile (record w { dir = erase s.filename w.dir }) tt
    HasFile-erase s w other has =
        ground (arith, lookup-erase s.filename (final_name segs) w.dir, other, has)

    -- The temporary file holds the merged segment, and no row is in the way of its row.
    abbrev IsFilled : World → Type 0
    IsFilled w = lookup io.tmp_name w.tmp ≡ some (compacted_segment m).file

    abbrev IsAbsent : Tables → Type 0
    IsAbsent t = lookup (compacted_key segs) t.segments ≡ none

    abbrev Filled : World → Unit {0} → Type 0
    Filled w u = IsAbsent w.tables × IsFilled w

    abbrev Absent : World → Unit {0} → Type 0
    Absent w u = IsAbsent w.tables

    rename-Succeeds : (w : World) → IsFilled w → Succeeds HasFile (rename io segs w)
    unfolding rename
    rename-Succeeds w filled =
        subst (λ file. Succeeds HasFile (rename_to io (final_name segs) file w)) (sym filled)
          (if_works (Succeeds HasFile) io.renames _ _ works.renames
            (change-Succeeds HasFile _ here))
      where
        here :
            lookup (final_name segs) (insert (final_name segs) (compacted_segment m).file w.dir)
            ≡ some (compacted_segment m).file
        here = ground (
          arith,
          lookup-insert (final_name segs) (final_name segs) (compacted_segment m).file w.dir,
          bytes_beq_iff (final_name segs) (final_name segs),
        )

    commit-Succeeds : (t : Tables) (w : World) → HasFile w tt → Succeeds HasFile (commit io t w)
    unfolding commit
    commit-Succeeds t w has =
        if_works (Succeeds HasFile) io.commits _ _ works.commits (change-Succeeds HasFile _ has)

    create_tmp-Succeeds : (w : World) → IsAbsent w.tables → Succeeds Absent (create_tmp io w)
    unfolding create_tmp
    create_tmp-Succeeds w absent =
        if_works (Succeeds Absent) io.creates _ _ works.creates (change-Succeeds Absent _ absent)

    fill_tmp-Succeeds : (w : World) → IsAbsent w.tables → Succeeds Filled (fill_tmp io m w)
    unfolding fill_tmp
    fill_tmp-Succeeds w absent = if_works (Succeeds Filled) io.writes _ _ works.writes (
        then-Succeeds Filled Filled
          (change (record w { tmp = insert io.tmp_name (compacted_segment m).file w.tmp }))
          (λ w _. if io.finalizes then done w else failed io_failed w)
          (change-Succeeds Filled _ (absent, here))
          (λ w u filled.
            if_works (Succeeds Filled) io.finalizes (done w) (failed io_failed w) works.finalizes
              (done-Succeeds Filled w filled)))
      where
        here :
            lookup io.tmp_name (insert io.tmp_name (compacted_segment m).file w.tmp)
            ≡ some (compacted_segment m).file
        here = ground (
          arith,
          lookup-insert io.tmp_name io.tmp_name (compacted_segment m).file w.tmp,
          bytes_beq_iff io.tmp_name io.tmp_name,
        )

    begin_tx-Succeeds : (w : World) → Filled w tt → Succeeds Filled (begin_tx io w)
    unfolding begin_tx
    begin_tx-Succeeds w filled =
        if_works (Succeeds Filled) io.begins _ _ works.begins (done-Succeeds Filled w filled)

    swap-Succeeds :
        (t : Tables) (w : World) → IsAbsent t → IsFilled w → Succeeds HasFile (swap io segs m t w)
    unfolding swap
    swap-Succeeds t w absent filled =
        then-Succeeds HasFile HasFile _ _
          (on_error-Succeeds HasFile _ (drop_tmp io segs) (rename-Succeeds w filled))
          (λ w u has.
            let (t', e) = registered_in_tx io works segs m t absent in
            then-Succeeds (λ w t. HasFile w tt) HasFile _ _
              (on_error-Succeeds (λ w t. HasFile w tt) _ (drop_final io segs)
                (returned-Succeeds (λ w t. HasFile w tt) _ w t' e has))
              (λ w t' has.
                then-Succeeds HasFile HasFile _ _
                  (on_error-Succeeds HasFile _ (drop_final io segs) (commit-Succeeds t' w has))
                  (λ w u has.
                    remove_files-Succeeds io HasFile segs w
                      (All-weaken _ _ segs (λ s other w has. HasFile-erase s w other has) others)
                      has)))

    write_and_swap-Succeeds :
        (w : World) → IsAbsent w.tables → Succeeds HasFile (write_and_swap io segs m w)
    unfolding write_and_swap
    write_and_swap-Succeeds w absent =
        then-Succeeds Absent HasFile _ _
          (on_error-Succeeds Absent _ (rollback_to_sealed io segs) (create_tmp-Succeeds w absent))
          (λ w u absent.
            then-Succeeds Filled HasFile _ _
              (on_error-Succeeds Filled _ (drop_tmp io segs) (fill_tmp-Succeeds w absent))
              (λ w u filled.
                then-Succeeds Filled HasFile _ _
                  (on_error-Succeeds Filled _ (drop_tmp io segs) (begin_tx-Succeeds w filled))
                  (λ w u (absent, filled).
                    let (t, e) = archived_in_tx io works segs w.tables in
                    then-Succeeds (λ w t. IsAbsent t × IsFilled w) HasFile _ _
                      (on_error-Succeeds (λ w t. IsAbsent t × IsFilled w) _ (drop_tmp io segs)
                        (returned-Succeeds (λ w t. IsAbsent t × IsFilled w) _ w t e
                          (archived_absent io works segs w.tables t absent e, filled)))
                      (λ w t (absent, filled). swap-Succeeds t w absent filled))))

  write_or_archive-Succeeds :
      (segs : List SegmentInfo)
      (others : All (λ (s : SegmentInfo). bytes_beq s.filename (final_name segs) ≡ false) segs)
      (m : Merge) (written : Map Bytes Record) (w : World)
      → lookup (compacted_key segs) w.tables.segments ≡ none
      → Succeeds (IsWritten segs m written) (write_or_archive io segs m written w)
  write_or_archive-Succeeds segs others m [] w absent = archive_only-Succeeds io works segs w
  write_or_archive-Succeeds segs others m (x ∷ xs) w absent =
      write_and_swap-Succeeds segs others m w absent

  module _ (json : Json) (segs : List SegmentInfo) (w₀ : World)
      (before : All (WasSealed w₀.tables) segs)
      (absent : lookup (compacted_key segs) w₀.tables.segments ≡ none)
      (names : All (λ (s : SegmentInfo). is_wal_segment_file s.filename ≡ true) segs) where
    others : All (λ (s : SegmentInfo). bytes_beq s.filename (final_name segs) ≡ false) segs
    others =
        All-weaken _ _ segs (λ (s : SegmentInfo) h. final-other (new_segment_id segs) s.filename h)
          names

    abbrev Ready : World → Type 0
    Ready w = MarkedOf w₀.tables segs w.tables.segments × (w.dir ≡ w₀.dir)

    mark_all-Succeeds :
        (ss : List SegmentInfo) (w : World)
        → All (WasSealed w₀.tables) ss
        → ((key : SegmentKey) → IsOf ss key → IsOf segs key)
        → Ready w
        → Succeeds (λ w _. Ready w) (mark_all io ss w)
    unfolding mark_all mark
    mark_all-Succeeds [] w p among r = done-Succeeds (λ w _. Ready w) w r
    mark_all-Succeeds (s ∷ ss) w (p, ps) among (m, d) =
        let (row, found) = sealed_row w₀.tables s segs w.tables.segments p m in
        then-Succeeds (λ w _. Ready w) (λ w _. Ready w) _ _
          (stated-Succeeds (λ w _. Ready w) _ w _
            (ap (λ b. pg_update_segment_status b s.segment_id compacting w.tables)
                (works.marks s.segment_id)
              ∙ status-set s.segment_id compacting w.tables row found)
            (
              mark-MarkedOf w₀.tables segs s w.tables.segments
                  (among (wal_key s.segment_id) (inl refl)) p m,
              d,
            ))
          (λ w u r. mark_all-Succeeds ss w ps (λ key one. among key (inr one)) r)

    marked_absent : (w : World) → Ready w → lookup (compacted_key segs) w.tables.segments ≡ none
    marked_absent w (m, d) = elim (m (compacted_key segs)) [
      | inl same ↦ same ∙ absent
      | inr (one, (row, found, _, _)) ↦ absurd (ground arith)
    ]

    abbrev Merged : Merge → World → Merge → Type 0
    Merged m w m' = Ready w × (m' ≡ m)

    unmarked :
        (ss : List SegmentInfo) → All (λ (s : SegmentInfo). io.unmarks s.segment_id ≡ true) ss
    unmarked [] = tt
    unmarked (s ∷ ss) = (works.unmarks s.segment_id, unmarked ss)

    module _ (m : Merge) (merged : merge_records json (inputs segs w₀) ≡ ok m) where
      abbrev Out : World → Unit {0} → Type 0
      Out = IsWritten segs m (combined m)

      -- Without a segment there is no record.
      nothing_left : (length segs == 0) ≡ true → Out w₀ tt
      unfolding merge_records merge_segments combined add_all
      nothing_left e =
          let none_left : merge_records json (inputs [] w₀) ≡ ok m =
            subst (λ ss. merge_records json (inputs ss w₀) ≡ ok m)
              (none_given json io segs w₀ before (unmarked segs) segs e) merged in
          subst (λ m. IsWritten segs m (combined m) w₀ tt) (ok_injective _ _ none_left) tt

      run-Succeeds : Succeeds Out (compact_segments json io segs w₀)
      unfolding compact_segments
      run-Succeeds =
          if-split (Succeeds Out) (length segs == 0) _ _
            (λ empty. done-Succeeds Out w₀ (nothing_left empty))
            (λ _.
              then-Succeeds (λ w _. Ready w) Out _ _
                (on_error-Succeeds (λ w _. Ready w) _ (rollback_to_sealed io segs)
                  (mark_all-Succeeds segs w₀ before (λ key one. one) (λ key. inl refl, refl)))
                (λ w u r.
                  then-Succeeds (Merged m) Out _ _
                    (on_error-Succeeds (Merged m) _ (rollback_to_sealed io segs) (
                      returned-Succeeds (Merged m) _ w m
                        (ap (merge_records json) (inputs-eq segs w w₀ (λ n. ap (lookup n) r.1))
                          ∙ merged)
                        (r, refl)))
                    (λ w m' (r, same).
                      subst (λ m'. Succeeds Out (write_or_archive io segs m' (combined m') w))
                        (sym same)
                        (write_or_archive-Succeeds segs others m (combined m) w
                          (marked_absent w r)))))

      both :
          (w : World) (res : Result (Unit {0}))
          → Ends Out (λ w. ⊥) w res
          → Ends (λ w _. Compacted json io segs w₀ w) (Unchanged json io segs w₀) w res
          → (res ≡ ok tt) × Settled w₀.tables segs m w.tables.segments × Out w tt
      both w (ok u) out (m', e, settled) = (
        refl,
        subst (λ m. Settled w₀.tables segs m w.tables.segments) (ok_injective m' m (sym e ∙ merged))
            settled,
        out,
      )
      both w (err e) out h = absurd out

      -- Where every call works that marks, unmarks, archives, writes, renames, registers or commits, the
      -- rows are those of sealed segments, no row is in the way of the merged segment's, the
      -- names are those of WAL segments and the segments can be merged, the compaction returns no error; at its end the rows
      -- of the segments are archived, the merged segment is registered by what was written, if a record is
      -- left, with no other row changed, and its file is in the directory with the merged records.
      pub compact_segments_succeeds :
          let r = compact_segments json io segs w₀ in
          (r.result ≡ ok tt)
          × Settled w₀.tables segs m r.world.tables.segments
          × IsWritten segs m (combined m) r.world tt
      compact_segments_succeeds =
          let r = compact_segments json io segs w₀ in
          both r.world r.result run-Succeeds.ends
            (compact_segments-IsAtomic json io segs w₀ before (unmarked segs)).ends
