-- ===== src/Wal/Compactor/Course.antt =====
-- A compaction goes through the stages of the segment directory and no others.
use selfstack.Prelude.{
  ◌≡◌, refl, sym, ap, ◌∙◌, List, [], ◌∷◌, false, none, some, io_failed, arith, inl, inr, Bool-cases,
  if-both, length, ◌==◌, All, Any, All-weaken, subst,
}
use selfstack.Prelude.Maps.{
  Map, lookup, insert, erase, bytes_eq, bytes_beq, bytes_beq_iff, lookup-erase, lookup-insert,
  beq_sym,
}
use selfstack.Bytes.{Bytes}
use selfstack.Wal.Record.{Record}
use selfstack.Wal.Payload.{Json}
use selfstack.Wal.Manifest.{SegmentInfo}
use selfstack.Wal.Manifest.Postgres.{Tables, pg_archive_segments}
use selfstack.Wal.Compactor.{Merge, merge_records, combined, compacted_segment}
use selfstack.Wal.Compactor.Run.{
  inputs, mark_all, rollback_to_sealed, remove_file, remove_files, archive_only, create_tmp,
  fill_tmp, final_name, archive_in_tx, register_in_tx, rename, rename_to, begin_tx, commit,
  drop_tmp, drop_final, swap, write_and_swap, write_or_archive, compact_segments, segment_ids,
}
use selfstack.Wal.Compactor.Ran.{CompactIo, World, Ran, on_error, stated, returned}
use selfstack.Wal.Compactor.Triple.{
  Ensures, and_then-Ensures, on_error-Ensures, done-Ensures, change-Ensures, failed-Ensures,
  returned-Ensures, weaken-Ensures,
}
use selfstack.Wal.Compactor.Steady.{
  IsSteady, mark_all-IsSteady, rollback-IsSteady, drop_tmp-IsSteady, create_tmp-IsSteady,
  fill_tmp-Ensures, stated-IsSteady, IsFilled,
}
use selfstack.Wal.Compactor.Stages.{
  Dir, inputs-eq, Untouched, Swapped, Emptied, IsMerged, IsStage, remove_files-Ensures,
  Swapped-erase, Emptied-erase,
}

self_old :
    (segs : List SegmentInfo)
    → All (λ (s : SegmentInfo). Any (λ (t : SegmentInfo). t.filename ≡ s.filename) segs) segs
self_old [] = tt
self_old (s ∷ ss) = (
  inl refl,
  All-weaken (λ (x : SegmentInfo). Any (λ (t : SegmentInfo). t.filename ≡ x.filename) ss)
      (λ (x : SegmentInfo). Any (λ (t : SegmentInfo). t.filename ≡ x.filename) (s ∷ ss)) ss
      (λ x h. inr h) (self_old ss),
)

module _ (json : Json) (io : CompactIo) (segs : List SegmentInfo) (w₀ : World)
    (absent : lookup (final_name segs) w₀.dir ≡ none)
    (others : All (λ (s : SegmentInfo). bytes_beq s.filename (final_name segs) ≡ false) segs) where
  abbrev Stage : Dir → Type 0
  Stage d = IsStage json io segs w₀ d

  abbrev Inv : World → Type 0
  Inv w = Stage w.dir

  abbrev At : (Dir → Type 0) → World → Unit {0} → Type 0
  At D w u = D w.dir

  abbrev Same : Dir → Type 0
  Same d = Untouched json io segs w₀ d

  -- A step that leaves the directory as it was, with its clean-up.
  untouched_step :
      (r : Ran (Unit {0})) (c : World → Ran (Unit {0}))
      → IsSteady Same r
      → ((w : World) → Inv w → IsSteady Stage (c w))
      → Ensures Inv (At Same) Inv (on_error r c)
  untouched_step r c h clean =
      on_error-Ensures Inv (At Same) Inv Inv r c
        (weaken-Ensures r (λ w d. inl d) (λ w u d. d) (λ w d. inl d) h) (λ w inv _. clean w inv)

  rollback-Stage : (w : World) → Inv w → IsSteady Stage (rollback_to_sealed io segs w)
  rollback-Stage w inv = rollback-IsSteady Stage io segs w inv

  drop_tmp-Stage : (w : World) → Inv w → IsSteady Stage (drop_tmp io segs w)
  drop_tmp-Stage w inv = drop_tmp-IsSteady Stage io segs w inv

  archive_only-Ensures :
      (m : Merge) (w : World)
      → IsMerged json io segs w₀ m
      → combined m ≡ []
      → Same w.dir
      → Ensures Inv (At Stage) Inv (archive_only io segs w)
  unfolding archive_only
  archive_only-Ensures m w e empty d =
      and_then-Ensures Inv (At Same) Inv Inv (At Stage) _ _
        (untouched_step (stated (pg_archive_segments io.archives_all (segment_ids segs) w.tables) w)
          (rollback_to_sealed io segs) (stated-IsSteady Same _ w d) rollback-Stage)
        (λ w u inv d.
          weaken-Ensures (remove_files io segs w) (λ w p. p) (λ w u q. inr (m, e, inr q))
            (λ w q. inr (m, e, inr q))
            (remove_files-Ensures json io segs w₀ (Emptied json io segs w₀ m)
              (λ d q. inr (m, e, inr q)) (Emptied-erase json io segs w₀ m) segs w (self_old segs)
              others (empty, λ n. inl (d n))))

  module _ (m : Merge) (e : IsMerged json io segs w₀ m) where
    -- The merged segment is beside the others, which are as they were.
    abbrev Added : Dir → Type 0
    Added d =
        (lookup (final_name segs) d ≡ some (compacted_segment m).file)
        × ((n : Bytes) → bytes_beq n (final_name segs) ≡ false → lookup n d ≡ lookup n w₀.dir)

    Added-Stage : (d : Dir) → Added d → Stage d
    Added-Stage d (here, same) = inr (m, e, inl (here, λ n other. inl (same n other)))

    Added-insert :
        (d : Dir) → Same d → Added (insert (final_name segs) (compacted_segment m).file d)
    Added-insert d h = (
      ground (
        arith,
        lookup-insert (final_name segs) (final_name segs) (compacted_segment m).file d,
        bytes_beq_iff (final_name segs) (final_name segs),
      ),
      λ n other.
          lookup-insert (final_name segs) n (compacted_segment m).file d
          ∙ (rw (beq_sym (final_name segs) n, other) (h n)),
    )

    Added-erase : (d : Dir) → Added d → Same (erase (final_name segs) d)
    Added-erase d (here, same) n = elim (Bool-cases (bytes_beq (final_name segs) n)) [
      | inl is ↦
          lookup-erase (final_name segs) n d
          ∙ (rw is (
              sym (
                subst (λ x. lookup x w₀.dir ≡ none) ((bytes_beq_iff (final_name segs) n).0 is)
                  absent)))
      | inr other ↦
          lookup-erase (final_name segs) n d
          ∙ (rw other (same n (beq_sym n (final_name segs) ∙ other)))
    ]

    drop_final-Ensures :
        (w : World) → Added w.dir → Ensures Inv (At Stage) Inv (drop_final io segs w)
    unfolding drop_final remove_file
    drop_final-Ensures w a =
        and_then-Ensures Inv (At Stage) Inv Inv (At Stage) _ _
          (if-both (Ensures Inv (At Stage) Inv) (io.removes (final_name segs)) _ _
            (change-Ensures Inv (At Stage) Inv _ (inl (Added-erase w.dir a))
              (inl (Added-erase w.dir a)))
            (done-Ensures Inv (At Stage) Inv w (Added-Stage w.dir a) (Added-Stage w.dir a)))
          (λ w u inv d. rollback-Stage w inv)

    rename-Ensures :
        (w : World)
        → Same w.dir
        → lookup io.tmp_name w.tmp ≡ some (compacted_segment m).file
        → Ensures Inv (At Added) Inv (rename io segs w)
    unfolding rename
    rename-Ensures w d filled =
        subst (λ file. Ensures Inv (At Added) Inv (rename_to io (final_name segs) file w))
          (sym filled)
          (if-both (Ensures Inv (At Added) Inv) io.renames _ _
            (change-Ensures Inv (At Added) Inv _ (Added-Stage _ (Added-insert w.dir d))
              (Added-insert w.dir d))
            (failed-Ensures Inv (At Added) Inv w io_failed (inl d) (inl d)))

    -- An error behind the rename, with its clean-up.
    Added-step :
        {A : Type 0} (r : Ran A)
        → Ensures Inv (λ w _. Added w.dir) (λ w. Added w.dir) r
        → Ensures Inv (λ w _. Added w.dir) Inv (on_error r (drop_final io segs))
    Added-step r h =
        on_error-Ensures Inv (λ w _. Added w.dir) (λ w. Added w.dir) Inv r (drop_final io segs) h
          (λ w inv a. drop_final-Ensures w a)

    commit-Ensures :
        (t : Tables) (w : World)
        → Added w.dir
        → Ensures Inv (At Added) (λ w. Added w.dir) (commit io t w)
    unfolding commit
    commit-Ensures t w a =
        if-both (Ensures Inv (At Added) (λ w. Added w.dir)) io.commits _ _
          (change-Ensures Inv (At Added) (λ w. Added w.dir) _ (Added-Stage w.dir a) a)
          (failed-Ensures Inv (At Added) (λ w. Added w.dir) w io_failed (Added-Stage w.dir a) a)

    remove_old-Ensures :
        (w : World) → Added w.dir → Ensures Inv (At Stage) Inv (remove_files io segs w)
    remove_old-Ensures w (here, same) =
        weaken-Ensures (remove_files io segs w) (λ w p. p) (λ w u q. inr (m, e, inl q))
          (λ w q. inr (m, e, inl q))
          (remove_files-Ensures json io segs w₀ (Swapped json io segs w₀ m)
            (λ d q. inr (m, e, inl q)) (Swapped-erase json io segs w₀ m) segs w (self_old segs)
            others (here, λ n other. inl (same n other)))

    swap-Ensures :
        (t : Tables) (w : World)
        → Same w.dir
        → lookup io.tmp_name w.tmp ≡ some (compacted_segment m).file
        → Ensures Inv (At Stage) Inv (swap io segs m t w)
    unfolding swap
    swap-Ensures t w d filled =
        and_then-Ensures Inv (At Added) Inv Inv (At Stage) _ _
          (on_error-Ensures Inv (At Added) Inv Inv (rename io segs w) (drop_tmp io segs)
            (rename-Ensures w d filled) (λ w inv _. drop_tmp-Stage w inv))
          (λ w u inv a.
            and_then-Ensures Inv (λ w _. Added w.dir) Inv Inv (At Stage) _ _
              (Added-step (returned (register_in_tx io segs m t) w)
                (returned-Ensures Inv (λ w _. Added w.dir) (λ w. Added w.dir) _ w inv (λ t _. a) a))
              (λ w t inv a.
                and_then-Ensures Inv (At Added) Inv Inv (At Stage) _ _
                  (Added-step (commit io t w) (commit-Ensures t w a))
                  (λ w u inv a. remove_old-Ensures w a)))

    begin_tx-Ensures :
        (w : World)
        → Inv w
        → IsFilled Same io m w tt
        → Ensures Inv (IsFilled Same io m) Inv (begin_tx io w)
    unfolding begin_tx
    begin_tx-Ensures w inv q =
        if-both (Ensures Inv (IsFilled Same io m) Inv) io.begins _ _
          (done-Ensures Inv (IsFilled Same io m) Inv w inv q)
          (failed-Ensures Inv (IsFilled Same io m) Inv w io_failed inv inv)

    write_and_swap-Ensures :
        (w : World) → Same w.dir → Ensures Inv (At Stage) Inv (write_and_swap io segs m w)
    unfolding write_and_swap
    write_and_swap-Ensures w d =
        and_then-Ensures Inv (At Same) Inv Inv (At Stage) _ _
          (untouched_step (create_tmp io w) (rollback_to_sealed io segs)
            (create_tmp-IsSteady Same io w d) rollback-Stage)
          (λ w u inv d.
            and_then-Ensures Inv (IsFilled Same io m) Inv Inv (At Stage) _ _
              (on_error-Ensures Inv (IsFilled Same io m) Inv Inv (fill_tmp io m w)
                (drop_tmp io segs)
                (weaken-Ensures (fill_tmp io m w) (λ w d. inl d) (λ w u q. q) (λ w d. inl d)
                  (fill_tmp-Ensures Same io m w d))
                (λ w inv _. drop_tmp-Stage w inv))
              (λ w u inv q.
                and_then-Ensures Inv (IsFilled Same io m) Inv Inv (At Stage) _ _
                  (on_error-Ensures Inv (IsFilled Same io m) Inv Inv (begin_tx io w)
                    (drop_tmp io segs) (begin_tx-Ensures w inv q) (λ w inv _. drop_tmp-Stage w inv))
                  (λ w u inv q.
                    and_then-Ensures Inv (λ w t. IsFilled Same io m w tt) Inv Inv (At Stage) _ _
                      (on_error-Ensures Inv (λ w t. IsFilled Same io m w tt) Inv Inv
                        (returned (archive_in_tx io segs w.tables) w) (drop_tmp io segs)
                        (returned-Ensures Inv (λ w t. IsFilled Same io m w tt) Inv
                          (archive_in_tx io segs w.tables) w inv (λ t _. q) inv)
                        (λ w inv _. drop_tmp-Stage w inv))
                      (λ w t inv (d, filled). swap-Ensures t w d filled))))

  write_or_archive-Ensures :
      (m : Merge) (w : World) (written : Map Bytes Record)
      → IsMerged json io segs w₀ m
      → combined m ≡ written
      → Same w.dir
      → Ensures Inv (At Stage) Inv (write_or_archive io segs m written w)
  write_or_archive-Ensures m w [] e c d = archive_only-Ensures m w e c d
  write_or_archive-Ensures m w (x ∷ xs) e c d = write_and_swap-Ensures m e w d

  abbrev Merged : World → Merge → Type 0
  Merged w m = Same w.dir × IsMerged json io segs w₀ m

  -- All worlds that a compaction goes through, and the last one, are at one of the stages.
  pub compact_segments-stages : Ensures Inv (At Stage) Inv (compact_segments json io segs w₀)
  unfolding compact_segments
  compact_segments-stages =
      if-both (Ensures Inv (At Stage) Inv) (length segs == 0) _ _
        (done-Ensures Inv (At Stage) Inv w₀ (inl (λ n. refl)) (inl (λ n. refl)))
        (and_then-Ensures Inv (At Same) Inv Inv (At Stage) _ _
          (untouched_step (mark_all io segs w₀) (rollback_to_sealed io segs)
            (mark_all-IsSteady Same io segs w₀ (λ n. refl)) rollback-Stage)
          (λ w u inv d.
            and_then-Ensures Inv Merged Inv Inv (At Stage) _ _
              (on_error-Ensures Inv Merged Inv Inv (returned (merge_records json (inputs segs w)) w)
                (rollback_to_sealed io segs)
                (returned-Ensures Inv Merged Inv (merge_records json (inputs segs w)) w inv
                  (λ m e. (d, ap (merge_records json) (sym (inputs-eq segs w w₀ d)) ∙ e)) inv)
                (λ w inv _. rollback-Stage w inv))
              (λ w m inv (d, e). write_or_archive-Ensures m w (combined m) e refl d)))
