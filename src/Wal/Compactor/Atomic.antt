-- ===== src/Wal/Compactor/Atomic.antt =====
-- A compaction as the tables show it: the rows of all worlds that it goes through and of its end.
use selfstack.Prelude.{
  ◌≡◌, refl, sym, ap, ◌∙◌, List, [], ◌∷◌, length, ◌==◌, true, Result, ok, err, io_failed, arith,
  inl, inr, if-both, if-split, All, subst,
}
use selfstack.Prelude.Maps.{Map, lookup, bytes_eq}
use selfstack.Bytes.{Bytes}
use selfstack.Wal.Record.{Record}
use selfstack.Wal.Payload.{Json}
use selfstack.Wal.Manifest.{SegmentInfo}
use selfstack.Wal.Manifest.Postgres.{Tables, pg_archive_segments}
use selfstack.Wal.Compactor.{Merge, merge_records, combined, merge_segments, add_all, empty_merge}
use selfstack.Wal.Compactor.Run.{
  inputs, mark_all, rollback_to_sealed, remove_files, archive_only, create_tmp, fill_tmp,
  archive_in_tx, register_in_tx, rename, begin_tx, commit, drop_tmp, drop_final, swap,
  write_and_swap, write_or_archive, compact_segments, segment_ids,
}
use selfstack.Wal.Compactor.Ran.{CompactIo, World, Ran, on_error, and_then, stated, returned}
use selfstack.Wal.Compactor.Triple.{
  Ensures, and_then-Ensures, done-Ensures, change-Ensures, failed-Ensures, returned-Ensures,
}
use selfstack.Wal.Compactor.Stages.{inputs-eq}
use selfstack.Wal.Compactor.Calm.{
  remove_files-IsSure, create_tmp-IsCalm, fill_tmp-IsCalm, begin_tx-IsCalm, rename-IsCalm,
}
use selfstack.Wal.Compactor.Statuses.{WasSealed}
use selfstack.Wal.Compactor.Settled.{Settled, archived-Settled, committed-Settled}
use selfstack.Wal.Compactor.Undone.{
  Marked, MarkedIn, CompactedIn, Compacted, IsMidway, Unchanged, calm, sure, undo, undoing,
  drop_tmp-IsUndone, drop_final-IsUndone, mark_all-Ensures,
}

module _ (json : Json) (io : CompactIo) (segs : List SegmentInfo) (w₀ : World)
    (before : All (WasSealed w₀.tables) segs)
    (unmarks : All (λ (s : SegmentInfo). io.unmarks s.segment_id ≡ true) segs) where
  abbrev Inv : World → Type 0
  Inv w = IsMidway json io segs w₀ w

  abbrev M : World → Type 0
  M w = Marked json io segs w₀ w

  abbrev Fin : World → Type 0
  Fin w = Compacted json io segs w₀ w

  abbrev U : World → Type 0
  U w = Unchanged json io segs w₀ w

  -- It goes through, or what it has done is undone.
  abbrev pub IsAtomic : Ran (Unit {0}) → Type 0
  IsAtomic r = Ensures Inv (λ w _. Fin w) U r

  abbrev IsMerged : Merge → Type 0
  IsMerged m = merge_records json (inputs segs w₀) ≡ ok m

  roll_back : (w : World) → Inv w → M w → Ensures Inv (λ w _. U w) U (rollback_to_sealed io segs w)
  roll_back w inv d = undo json io segs w₀ before unmarks w inv d

  -- A step before the transaction is over, with its clean-up.
  undoing_step :
      {A : Type 0} (Q : World → A → Type 0) (r : Ran A) (c : World → Ran (Unit {0}))
      → Ensures Inv Q M r
      → ((w : World) → Inv w → M w → Ensures Inv (λ w _. U w) U (c w))
      → Ensures Inv Q U (on_error r c)
  undoing_step Q r c h clean = undoing json io segs w₀ before unmarks Q r c h clean

  no_tmp : (w : World) → Inv w → M w → Ensures Inv (λ w _. U w) U (drop_tmp io segs w)
  no_tmp = drop_tmp-IsUndone json io segs w₀ before unmarks

  no_final : (w : World) → Inv w → M w → Ensures Inv (λ w _. U w) U (drop_final io segs w)
  no_final = drop_final-IsUndone json io segs w₀ before unmarks

  remove_old : (w : World) → Fin w → IsAtomic (remove_files io segs w)
  remove_old w d =
      sure json io segs w₀ (remove_files io segs w)
        (remove_files-IsSure (CompactedIn json io segs w₀) io segs w d)

  stated-Fin :
      (r : Result Tables) (w : World)
      → M w
      → ((t : Tables) → r ≡ ok t → CompactedIn json io segs w₀ t)
      → Ensures Inv (λ w _. Fin w) M (stated r w)
  stated-Fin (ok t) w d h = change-Ensures Inv (λ w _. Fin w) M _ (inr (h t refl)) (h t refl)
  stated-Fin (err x) w d h = failed-Ensures Inv (λ w _. Fin w) M w x (inl d) d

  archive_only-IsAtomic :
      (m : Merge) (w : World)
      → IsMerged m
      → combined m ≡ []
      → M w
      → IsAtomic (archive_only io segs w)
  unfolding archive_only
  archive_only-IsAtomic m w e empty d =
      and_then-Ensures Inv (λ w _. Fin w) U U (λ w _. Fin w) _ _
        (undoing_step (λ w _. Fin w)
          (stated (pg_archive_segments io.archives_all (segment_ids segs) w.tables) w)
          (rollback_to_sealed io segs)
          (stated-Fin _ w d (λ t e'.
            (m, e, archived-Settled io.archives_all w₀.tables segs m w.tables t d empty e')))
          roll_back)
        (λ w u inv d. remove_old w d)

  module _ (m : Merge) (e : IsMerged m) where
    commit-Ensures :
        (t : Tables) (w : World)
        → M w
        → Settled w₀.tables segs m t.segments
        → Ensures Inv (λ w _. Fin w) M (commit io t w)
    unfolding commit
    commit-Ensures t w d s =
        if-both (Ensures Inv (λ w _. Fin w) M) io.commits _ _
          (change-Ensures Inv (λ w _. Fin w) M _ (inr (m, e, s)) (m, e, s))
          (failed-Ensures Inv (λ w _. Fin w) M w io_failed (inl d) d)

    -- t are the tables as the transaction has archived the segments in them.
    swap-IsAtomic :
        (t : Tables) (w : World)
        → M w
        → ((t' : Tables)
            → register_in_tx io segs m t ≡ ok t'
            → Settled w₀.tables segs m t'.segments)
        → IsAtomic (swap io segs m t w)
    unfolding swap
    swap-IsAtomic t w d settles =
        and_then-Ensures Inv (λ w _. M w) U U (λ w _. Fin w) _ _
          (undoing_step (λ w _. M w) (rename io segs w) (drop_tmp io segs)
            (calm json io segs w₀ (rename io segs w)
              (rename-IsCalm (MarkedIn json io segs w₀) io segs w d))
            no_tmp)
          (λ w u inv d.
            and_then-Ensures Inv (λ w t'. M w × Settled w₀.tables segs m t'.segments) U U
              (λ w _. Fin w) _ _
              (undoing_step (λ w t'. M w × Settled w₀.tables segs m t'.segments)
                (returned (register_in_tx io segs m t) w) (drop_final io segs)
                (returned-Ensures Inv (λ w t'. M w × Settled w₀.tables segs m t'.segments) M
                  (register_in_tx io segs m t) w inv (λ t' e'. (d, settles t' e')) d)
                no_final)
              (λ w t' inv (d, s).
                and_then-Ensures Inv (λ w _. Fin w) U U (λ w _. Fin w) _ _
                  (undoing_step (λ w _. Fin w) (commit io t' w) (drop_final io segs)
                    (commit-Ensures t' w d s) no_final)
                  (λ w u inv d. remove_old w d)))

    module _ (x : Bytes × Record) (xs : Map Bytes Record) (some_left : combined m ≡ x ∷ xs) where
      transaction-IsAtomic :
          (w : World)
          → Inv w
          → M w
          → IsAtomic (
              and_then
                (on_error (returned (archive_in_tx io segs w.tables) w) (drop_tmp io segs))
                (λ w t. swap io segs m t w))
      transaction-IsAtomic w inv d =
          and_then-Ensures Inv Q U U (λ w _. Fin w) _ _
            (undoing_step Q (returned (archive_in_tx io segs w.tables) w) (drop_tmp io segs)
              (returned-Ensures Inv Q M (archive_in_tx io segs w.tables) w inv
                (λ t e'. (
                  d,
                  λ t' e''.
                      committed-Settled io w₀.tables segs m x xs w.tables t t' d some_left e' e'',
                ))
                d)
              no_tmp)
            (λ w t inv (d, settles). swap-IsAtomic t w d settles)
        where
          Q : World → Tables → Type 0
          Q w t =
              M w
              × ((t' : Tables)
                  → register_in_tx io segs m t ≡ ok t'
                  → Settled w₀.tables segs m t'.segments)

      write_and_swap-IsAtomic : (w : World) → M w → IsAtomic (write_and_swap io segs m w)
      unfolding write_and_swap
      write_and_swap-IsAtomic w d =
          and_then-Ensures Inv (λ w _. M w) U U (λ w _. Fin w) _ _
            (undoing_step (λ w _. M w) (create_tmp io w) (rollback_to_sealed io segs)
              (calm json io segs w₀ (create_tmp io w)
                (create_tmp-IsCalm (MarkedIn json io segs w₀) io w d))
              roll_back)
            (λ w u inv d.
              and_then-Ensures Inv (λ w _. M w) U U (λ w _. Fin w) _ _
                (undoing_step (λ w _. M w) (fill_tmp io m w) (drop_tmp io segs)
                  (calm json io segs w₀ (fill_tmp io m w)
                    (fill_tmp-IsCalm (MarkedIn json io segs w₀) io m w d))
                  no_tmp)
                (λ w u inv d.
                  and_then-Ensures Inv (λ w _. M w) U U (λ w _. Fin w) _ _
                    (undoing_step (λ w _. M w) (begin_tx io w) (drop_tmp io segs)
                      (calm json io segs w₀ (begin_tx io w)
                        (begin_tx-IsCalm (MarkedIn json io segs w₀) io w d))
                      no_tmp)
                    (λ w u inv d. transaction-IsAtomic w inv d)))

  write_or_archive-IsAtomic :
      (m : Merge) (w : World) (written : Map Bytes Record)
      → IsMerged m
      → combined m ≡ written
      → M w
      → IsAtomic (write_or_archive io segs m written w)
  write_or_archive-IsAtomic m w [] e c d = archive_only-IsAtomic m w e c d
  write_or_archive-IsAtomic m w (x ∷ xs) e c d = write_and_swap-IsAtomic m e x xs c w d

  pub none_given : (ss : List SegmentInfo) → (length ss == 0) ≡ true → ss ≡ []
  none_given [] e = refl
  none_given (s ∷ ss) e = ground arith

  nothing_to_do : segs ≡ [] → Fin w₀
  unfolding merge_records merge_segments combined add_all
  nothing_to_do e =
      subst
        (λ ss.
          (m : Merge) × (merge_records json (inputs ss w₀) ≡ ok m)
          × Settled w₀.tables ss m w₀.tables.segments)
        (sym e) (empty_merge, refl, λ key. refl)

  -- A merge of segments whose rows are those of sealed segments, where the statements that set them
  -- back work: while it runs, and wherever a crash stops it, the rows are as before with some of the
  -- segments marked as compacting, or it has gone through; if it returns an error, every row is as
  -- before; else the rows of the segments are archived, the merged segment is registered by what was
  -- written, if a record is left, and no other row has changed.
  pub compact_segments-IsAtomic : IsAtomic (compact_segments json io segs w₀)
  unfolding compact_segments
  compact_segments-IsAtomic =
      if-split IsAtomic (length segs == 0) _ _
        (λ none_left.
          let d = nothing_to_do (none_given segs none_left) in
          done-Ensures Inv (λ w _. Fin w) U w₀ (inr d) d)
        (λ some_left.
          and_then-Ensures Inv (λ w _. M w × (w.dir ≡ w₀.dir)) U U (λ w _. Fin w) _ _
            (undoing_step (λ w _. M w × (w.dir ≡ w₀.dir)) (mark_all io segs w₀)
              (rollback_to_sealed io segs)
              (mark_all-Ensures json io segs w₀ before unmarks segs w₀ before (λ key one. one)
                (λ key. inl refl) refl)
              roll_back)
            (λ w u inv (d, same).
              and_then-Ensures Inv (λ w m. M w × IsMerged m) U U (λ w _. Fin w) _ _
                (undoing_step (λ w m. M w × IsMerged m)
                  (returned (merge_records json (inputs segs w)) w) (rollback_to_sealed io segs)
                  (returned-Ensures Inv (λ w m. M w × IsMerged m) M
                    (merge_records json (inputs segs w)) w inv
                    (λ m e. (
                      d,
                      ap (merge_records json) (sym (inputs-eq segs w w₀ (λ n. ap (lookup n) same)))
                          ∙ e,
                    ))
                    d)
                  roll_back)
                (λ w m inv (d, e). write_or_archive-IsAtomic m w (combined m) e refl d)))
