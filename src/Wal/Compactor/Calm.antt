-- ===== src/Wal/Compactor/Calm.antt =====
-- The steps of a compaction that leave the tables alone.
use selfstack.Prelude.{
  List, [], ◌∷◌, Option, none, some, io_failed, if-both, if◌then◌else◌, Bool, true, false,
}
use selfstack.Prelude.Maps.{lookup, insert, bytes_eq}
use selfstack.Bytes.{Bytes}
use selfstack.Wal.Manifest.{SegmentInfo}
use selfstack.Wal.Manifest.Postgres.{Tables}
use selfstack.Wal.Compactor.{Merge, compacted_segment}
use selfstack.Wal.Compactor.Run.{
  remove_file, remove_tmp, remove_files, create_tmp, fill_tmp, final_name, rename, rename_to,
  begin_tx,
}
use selfstack.Wal.Compactor.Ran.{CompactIo, World, Ran, and_then, done, failed, change}
use selfstack.Wal.Compactor.Triple.{
  Ensures, and_then-Ensures, done-Ensures, change-Ensures, failed-Ensures,
}

-- What holds of the tables goes on to hold.
module _ (D : Tables → Type 0) where
  abbrev Held : World → Type 0
  Held w = D w.tables

  abbrev pub IsCalm : Ran (Unit {0}) → Type 0
  IsCalm r = Ensures Held (λ w _. D w.tables) Held r

  -- Nor does it end with an error.
  abbrev pub IsSure : Ran (Unit {0}) → Type 0
  IsSure r = Ensures Held (λ w _. D w.tables) (λ w. ⊥) r

  if_removed :
      (b : Bool) (w w' : World)
      → D w.tables
      → D w'.tables
      → IsSure (if b then change w else done w')
  if_removed true w w' d d' = change-Ensures Held (λ w _. D w.tables) (λ w. ⊥) w d d
  if_removed false w w' d d' = done-Ensures Held (λ w _. D w.tables) (λ w. ⊥) w' d' d'

  IsCalm-then :
      (r : Ran (Unit {0})) (f : World → Unit {0} → Ran (Unit {0}))
      → IsCalm r
      → ((w : World) (u : Unit {0}) → D w.tables → D w.tables → IsCalm (f w u))
      → IsCalm (and_then r f)
  IsCalm-then r f h next =
      and_then-Ensures Held (λ w _. D w.tables) Held Held (λ w _. D w.tables) r f h next

  change-IsCalm : (w : World) → D w.tables → IsCalm (change w)
  change-IsCalm w d = change-Ensures Held (λ w _. D w.tables) Held w d d

  done-IsCalm : (w : World) → D w.tables → IsCalm (done w)
  done-IsCalm w d = done-Ensures Held (λ w _. D w.tables) Held w d d

  failed-IsCalm : (w : World) → D w.tables → IsCalm (failed io_failed w)
  failed-IsCalm w d = failed-Ensures Held (λ w _. D w.tables) Held w io_failed d d

  module _ (io : CompactIo) where
    pub create_tmp-IsCalm : (w : World) → D w.tables → IsCalm (create_tmp io w)
    unfolding create_tmp
    create_tmp-IsCalm w d = if-both IsCalm io.creates _ _ (change-IsCalm _ d) (failed-IsCalm w d)

    pub fill_tmp-IsCalm : (m : Merge) (w : World) → D w.tables → IsCalm (fill_tmp io m w)
    unfolding fill_tmp
    fill_tmp-IsCalm m w d =
        if-both IsCalm io.writes _ _
          (IsCalm-then
            (change (record w { tmp = insert io.tmp_name (compacted_segment m).file w.tmp })) _
            (change-IsCalm _ d)
            (λ w u d _. if-both IsCalm io.finalizes _ _ (done-IsCalm w d) (failed-IsCalm w d)))
          (IsCalm-then (change (record w { tmp = insert io.tmp_name io.left_over w.tmp })) _
            (change-IsCalm _ d) (λ w u d _. failed-IsCalm w d))

    pub begin_tx-IsCalm : (w : World) → D w.tables → IsCalm (begin_tx io w)
    unfolding begin_tx
    begin_tx-IsCalm w d = if-both IsCalm io.begins _ _ (done-IsCalm w d) (failed-IsCalm w d)

    rename_to-IsCalm :
        (name : Bytes) (file : Option Bytes) (w : World)
        → D w.tables
        → IsCalm (rename_to io name file w)
    rename_to-IsCalm name none w d = failed-IsCalm w d
    rename_to-IsCalm name (some file) w d =
        if-both IsCalm io.renames _ _ (change-IsCalm _ d) (failed-IsCalm w d)

    pub rename-IsCalm :
        (segs : List SegmentInfo) (w : World) → D w.tables → IsCalm (rename io segs w)
    unfolding rename
    rename-IsCalm segs w d = rename_to-IsCalm (final_name segs) (lookup io.tmp_name w.tmp) w d

    pub remove_tmp-IsSure : (w : World) → D w.tables → IsSure (remove_tmp io w)
    unfolding remove_tmp
    remove_tmp-IsSure w d = if_removed io.removes_tmp _ w d d

    pub remove_file-IsSure :
        (name : Bytes) (w : World) → D w.tables → IsSure (remove_file io name w)
    unfolding remove_file
    remove_file-IsSure name w d = if_removed (io.removes name) _ w d d

    pub remove_files-IsSure :
        (ss : List SegmentInfo) (w : World) → D w.tables → IsSure (remove_files io ss w)
    unfolding remove_files
    remove_files-IsSure [] w d = done-Ensures Held (λ w _. D w.tables) (λ w. ⊥) w d d
    remove_files-IsSure (s ∷ ss) w d =
        and_then-Ensures Held (λ w _. D w.tables) (λ w. ⊥) (λ w. ⊥) (λ w _. D w.tables)
          (remove_file io s.filename w) (λ w _. remove_files io ss w)
          (remove_file-IsSure s.filename w d) (λ w u d _. remove_files-IsSure ss w d)
