-- ===== src/Wal/Compactor/Succeeds.antt =====
-- The parts of a compaction return no error where the calls work.
use selfstack.Prelude.{
  ℕ, ◌≡◌, refl, sym, ◌∙◌, List, [], ◌∷◌, Bool, true, false, Option, none, Result, ok, arith,
  if-both, if◌then◌else◌, subst, All,
}
use selfstack.Prelude.Maps.{lookup, insert, erase, bytes_eq}
use selfstack.Bytes.{Bytes}
use selfstack.Wal.Manifest.{SegmentInfo, archived}
use selfstack.Wal.Manifest.Keys.{SegmentKey, key_eq, cmp}
use selfstack.Wal.Manifest.Postgres.{
  Tables, update_rows, is_wal_row, pg_archive_segments, pg_create_compacted_segment, insert_row,
}
use selfstack.Wal.Compactor.{Merge}
use selfstack.Wal.Compactor.Run.{
  rollback_to_sealed, remove_file, remove_files, archive_only, archive_in_tx, register_in_tx,
  segment_ids,
}
use selfstack.Wal.Compactor.Ran.{
  CompactIo, World, Ran, on_error, and_then, done, change, stated, returned,
}
use selfstack.Wal.Compactor.Triple.{
  Ensures, and_then-Ensures, on_error-Ensures, done-Ensures, change-Ensures,
}
use selfstack.Wal.Compactor.Statuses.{with_status}
use selfstack.Wal.Compactor.Settled.{compacted_key, archive_in_tx-rows}

-- The run returns no error, and Q holds at its end.
abbrev pub Succeeds : {A : Type 0} → (World → A → Type 0) → Ran A → Type 0
Succeeds Q r = Ensures (λ w. Unit {0}) Q (λ w. ⊥) r

pub if_works :
    {A : Type 0} (P : A → Type 0) (b : Bool) (x y : A) → b ≡ true → P x → P (if b then x else y)
if_works P true x y e p = p
if_works P false x y e p = absurd (ground arith)

module _ {A : Type 0} (Q : World → A → Type 0) where
  pub on_error-Succeeds :
      (r : Ran A) (c : World → Ran (Unit {0})) → Succeeds Q r → Succeeds Q (on_error r c)
  on_error-Succeeds r c h =
      on_error-Ensures (λ w. Unit {0}) Q (λ w. ⊥) (λ w. ⊥) r c h (λ w _ e. absurd e)

  pub then-Succeeds :
      {B : Type 0} (Q' : World → B → Type 0) (r : Ran A) (f : World → A → Ran B)
      → Succeeds Q r
      → ((w : World) (a : A) → Q w a → Succeeds Q' (f w a))
      → Succeeds Q' (and_then r f)
  then-Succeeds Q' r f h next =
      and_then-Ensures (λ w. Unit {0}) Q (λ w. ⊥) (λ w. ⊥) Q' r f h (λ w a _ q. next w a q)

  pub returned-Succeeds :
      (r : Result A) (w : World) (a : A) → r ≡ ok a → Q w a → Succeeds Q (returned r w)
  returned-Succeeds r w a e q =
      subst (λ r. Succeeds Q (returned r w)) (sym e) (record { along = tt; now = tt; ends = q })

module _ (Q : World → Unit {0} → Type 0) where
  pub done-Succeeds : (w : World) → Q w tt → Succeeds Q (done w)
  done-Succeeds w q = done-Ensures (λ w. Unit {0}) Q (λ w. ⊥) w tt q

  pub change-Succeeds : (w : World) → Q w tt → Succeeds Q (change w)
  change-Succeeds w q = change-Ensures (λ w. Unit {0}) Q (λ w. ⊥) w tt q

  pub stated-Succeeds :
      (r : Result Tables) (w : World) (t : Tables)
      → r ≡ ok t
      → Q (record w { tables = t }) tt
      → Succeeds Q (stated r w)
  stated-Succeeds r w t e q = subst (λ r. Succeeds Q (stated r w)) (sym e) (change-Succeeds _ q)

-- Each call works.
pub record IsWorking (io : CompactIo) : Type 0 where
  pub marks : (id : ℕ) → io.marks id ≡ true
  pub unmarks : (id : ℕ) → io.unmarks id ≡ true
  pub archives_all : io.archives_all ≡ true
  pub creates : io.creates ≡ true
  pub writes : io.writes ≡ true
  pub finalizes : io.finalizes ≡ true
  pub begins : io.begins ≡ true
  pub archives : (id : ℕ) → io.archives id ≡ true
  pub renames : io.renames ≡ true
  pub registers : io.registers ≡ true
  pub commits : io.commits ≡ true

abbrev pub Ended : World → Unit {0} → Type 0
Ended w u = Unit {0}

module _ (io : CompactIo) where
  -- The removals keep what each of them keeps.
  pub remove_files-Succeeds :
      (Q : World → Unit {0} → Type 0) (ss : List SegmentInfo) (w : World)
      → All
          (λ (s : SegmentInfo).
            (w : World) → Q w tt → Q (record w { dir = erase s.filename w.dir }) tt)
          ss
      → Q w tt
      → Succeeds Q (remove_files io ss w)
  unfolding remove_files remove_file
  remove_files-Succeeds Q [] w keeps q = done-Succeeds Q w q
  remove_files-Succeeds Q (s ∷ ss) w (keep, keeps) q =
      then-Succeeds Q Q _ _
        (if-both (Succeeds Q) (io.removes s.filename) _ _ (change-Succeeds Q _ (keep w q))
          (done-Succeeds Q w q))
        (λ w u q. remove_files-Succeeds Q ss w keeps q)

  nothing_kept :
      (ss : List SegmentInfo)
      → All
          (λ (s : SegmentInfo).
            (w : World) → Ended w tt → Ended (record w { dir = erase s.filename w.dir }) tt)
          ss
  nothing_kept [] = tt
  nothing_kept (s ∷ ss) = (λ w e. tt, nothing_kept ss)

  module _ (works : IsWorking io) where
    inserted :
        (key : SegmentKey) (seg : SegmentInfo) (t : Tables)
        → lookup key t.segments ≡ none
        → (t' : Tables) × (insert_row key seg t ≡ ok t')
    unfolding insert_row
    inserted key seg t absent =
        (record t { segments = insert key seg t.segments }, rw (insert_row, absent) refl)

    archived_all :
        (b : Bool) (ids : List ℕ) (t : Tables)
        → b ≡ true
        → (t' : Tables) × (pg_archive_segments b ids t ≡ ok t')
    unfolding pg_archive_segments
    archived_all b [] t e = (t, refl)
    archived_all true (id ∷ ids) t e = (_, refl)
    archived_all false (id ∷ ids) t e = absurd (ground arith)

    pub archive_only-Succeeds :
        (segs : List SegmentInfo) (w : World) → Succeeds Ended (archive_only io segs w)
    unfolding archive_only
    archive_only-Succeeds segs w =
        let (t, e) = archived_all io.archives_all (segment_ids segs) w.tables works.archives_all in
        then-Succeeds Ended Ended _ _
          (on_error-Succeeds Ended _ (rollback_to_sealed io segs)
            (stated-Succeeds Ended _ w t e tt))
          (λ w u _. remove_files-Succeeds Ended segs w (nothing_kept segs) tt)

    pub archived_in_tx :
        (segs : List SegmentInfo) (t : Tables) → (t' : Tables) × (archive_in_tx io segs t ≡ ok t')
    unfolding archive_in_tx
    archived_in_tx [] t = (t, refl)
    archived_in_tx (s ∷ ss) t =
        let (t', e) = archived_in_tx ss (record t {
          segments =
              (update_rows (λ key seg. is_wal_row s.segment_id key) (with_status archived)
                t.segments).0;
        }) in
        (t', ground (arith, e, works.archives s.segment_id))

    registered_row :
        (b : Bool) (id : ℕ) (name : Bytes) (size n low high sum : ℕ) (t : Tables)
        → b ≡ true
        → lookup (record { type = cmp; id = id }) t.segments ≡ none
        → (t' : Tables) × (pg_create_compacted_segment b id name size n low high sum t ≡ ok t')
    unfolding pg_create_compacted_segment
    registered_row true id name size n low high sum t e absent =
        inserted (record { type = cmp; id = id }) _ t absent
    registered_row false id name size n low high sum t e absent = absurd (ground arith)

    pub registered_in_tx :
        (segs : List SegmentInfo) (m : Merge) (t : Tables)
        → lookup (compacted_key segs) t.segments ≡ none
        → (t' : Tables) × (register_in_tx io segs m t ≡ ok t')
    unfolding register_in_tx
    registered_in_tx segs m t absent =
        registered_row io.registers (compacted_key segs).id _ _ _ _ _ _ t works.registers absent

    -- The tables as the transaction sees them behind the archiving: no row of the merged segment.
    pub archived_absent :
        (segs : List SegmentInfo) (t t' : Tables)
        → lookup (compacted_key segs) t.segments ≡ none
        → archive_in_tx io segs t ≡ ok t'
        → lookup (compacted_key segs) t'.segments ≡ none
    archived_absent segs t t' absent e =
        archive_in_tx-rows io segs t t' (compacted_key segs) e
        ∙ (rw absent (if-both (λ (r : Option SegmentInfo). r ≡ none) _ _ _ refl refl))
