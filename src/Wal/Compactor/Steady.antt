-- ===== src/Wal/Compactor/Steady.antt =====
-- The steps of a compaction that leave the segment directory alone.
use selfstack.Prelude.{◌≡◌, List, [], ◌∷◌, some, Result, ok, err, arith, io_failed, if-both}
use selfstack.Prelude.Maps.{Map, lookup, insert, bytes_eq, bytes_beq_iff, lookup-insert}
use selfstack.Bytes.{Bytes}
use selfstack.Wal.Manifest.{SegmentInfo, sealed}
use selfstack.Wal.Manifest.Postgres.{Tables, pg_update_segment_status}
use selfstack.Wal.Compactor.{Merge, compacted_segment}
use selfstack.Wal.Compactor.Run.{
  mark, mark_all, unmark, rollback_to_sealed, remove_tmp, create_tmp, fill_tmp, drop_tmp,
}
use selfstack.Wal.Compactor.Ran.{CompactIo, World, Ran, done, change, and_then, stated}
use selfstack.Wal.Compactor.Triple.{
  Ensures, and_then-Ensures, done-Ensures, change-Ensures, failed-Ensures,
}

-- What holds of the directory goes on to hold.
module _ (D : Map Bytes Bytes → Type 0) where
  abbrev pub Held : World → Type 0
  Held w = D w.dir

  abbrev pub IsSteady : Ran (Unit {0}) → Type 0
  IsSteady r = Ensures Held (λ w _. D w.dir) Held r

  IsSteady-then :
      (r : Ran (Unit {0})) (f : World → Unit {0} → Ran (Unit {0}))
      → IsSteady r
      → ((w : World) (u : Unit {0}) → D w.dir → D w.dir → IsSteady (f w u))
      → IsSteady (and_then r f)
  IsSteady-then r f h next =
      and_then-Ensures Held (λ w _. D w.dir) Held Held (λ w _. D w.dir) r f h next

  pub stated-IsSteady : (r : Result Tables) (w : World) → D w.dir → IsSteady (stated r w)
  stated-IsSteady (ok t) w d =
      change-Ensures Held (λ w _. D w.dir) Held (record w { tables = t }) d d
  stated-IsSteady (err e) w d = failed-Ensures Held (λ w _. D w.dir) Held w e d d

  pub done-IsSteady : (w : World) → D w.dir → IsSteady (done w)
  done-IsSteady w d = done-Ensures Held (λ w _. D w.dir) Held w d d

  module _ (io : CompactIo) where
    pub mark_all-IsSteady :
        (ss : List SegmentInfo) (w : World) → D w.dir → IsSteady (mark_all io ss w)
    unfolding mark_all mark
    mark_all-IsSteady [] w d = done-IsSteady w d
    mark_all-IsSteady (s ∷ ss) w d =
        IsSteady-then (mark io s w) (λ w _. mark_all io ss w) (stated-IsSteady _ w d)
          (λ w u d _. mark_all-IsSteady ss w d)

    unmark-IsSteady : (s : SegmentInfo) (w : World) → D w.dir → IsSteady (unmark io s w)
    unfolding unmark
    unmark-IsSteady s w d =
        go (pg_update_segment_status (io.unmarks s.segment_id) s.segment_id sealed w.tables)
      where
        go :
            (r : Result Tables)
            → IsSteady (elim r as (λ _. Ran (Unit {0})) [
              | ok t ↦ change (record w { tables = t })
              | err e ↦ done w
            ])
        go (ok t) = change-Ensures Held (λ w _. D w.dir) Held (record w { tables = t }) d d
        go (err e) = done-IsSteady w d

    pub rollback-IsSteady :
        (ss : List SegmentInfo) (w : World) → D w.dir → IsSteady (rollback_to_sealed io ss w)
    unfolding rollback_to_sealed
    rollback-IsSteady [] w d = done-IsSteady w d
    rollback-IsSteady (s ∷ ss) w d =
        IsSteady-then (unmark io s w) (λ w _. rollback_to_sealed io ss w) (unmark-IsSteady s w d)
          (λ w u d _. rollback-IsSteady ss w d)

    remove_tmp-IsSteady : (w : World) → D w.dir → IsSteady (remove_tmp io w)
    unfolding remove_tmp
    remove_tmp-IsSteady w d =
        if-both IsSteady io.removes_tmp _ _ (change-Ensures Held (λ w _. D w.dir) Held _ d d)
          (done-IsSteady w d)

    pub drop_tmp-IsSteady :
        (segs : List SegmentInfo) (w : World) → D w.dir → IsSteady (drop_tmp io segs w)
    unfolding drop_tmp
    drop_tmp-IsSteady segs w d =
        IsSteady-then (remove_tmp io w) (λ w _. rollback_to_sealed io segs w)
          (remove_tmp-IsSteady w d) (λ w u d _. rollback-IsSteady segs w d)

    pub create_tmp-IsSteady : (w : World) → D w.dir → IsSteady (create_tmp io w)
    unfolding create_tmp
    create_tmp-IsSteady w d =
        if-both IsSteady io.creates _ _ (change-Ensures Held (λ w _. D w.dir) Held _ d d)
          (failed-Ensures Held (λ w _. D w.dir) Held w io_failed d d)

    -- The temporary file holds the merged segment.
    abbrev pub IsFilled : Merge → World → Unit {0} → Type 0
    IsFilled m w u = D w.dir × (lookup io.tmp_name w.tmp ≡ some (compacted_segment m).file)

    pub fill_tmp-Ensures :
        (m : Merge) (w : World) → D w.dir → Ensures Held (IsFilled m) Held (fill_tmp io m w)
    unfolding fill_tmp
    fill_tmp-Ensures m w d =
        if-both (Ensures Held (IsFilled m) Held) io.writes _ _
          (and_then-Ensures Held (IsFilled m) Held Held (IsFilled m)
            (change (record w { tmp = insert io.tmp_name (compacted_segment m).file w.tmp })) _
            (change-Ensures Held (IsFilled m) Held _ d (d, here))
            (λ w u p q.
              if-both (Ensures Held (IsFilled m) Held) io.finalizes _ _
                (done-Ensures Held (IsFilled m) Held w p q)
                (failed-Ensures Held (IsFilled m) Held w io_failed p p)))
          (and_then-Ensures Held (λ w _. D w.dir) Held Held (IsFilled m)
            (change (record w { tmp = insert io.tmp_name io.left_over w.tmp })) _
            (change-Ensures Held (λ w _. D w.dir) Held _ d d)
            (λ w u p q. failed-Ensures Held (IsFilled m) Held w io_failed p p))
      where
        here :
            lookup io.tmp_name (insert io.tmp_name (compacted_segment m).file w.tmp)
            ≡ some (compacted_segment m).file
        here = ground (
          arith,
          lookup-insert io.tmp_name io.tmp_name (compacted_segment m).file w.tmp,
          bytes_beq_iff io.tmp_name io.tmp_name,
        )
