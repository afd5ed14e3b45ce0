-- ===== src/Wal/Compactor/Undone.antt =====
-- What a compaction does to the rows up to its transaction, and how an error is undone.
use selfstack.Prelude.{
  ◌≡◌, refl, sym, List, [], ◌∷◌, true, some, Result, ok, err, ◌⊎◌, inl, inr, All, subst,
}
use selfstack.Prelude.Maps.{lookup}
use selfstack.Wal.Payload.{Json}
use selfstack.Wal.Manifest.{SegmentInfo, sealed, compacting, wal_key}
use selfstack.Wal.Manifest.Keys.{SegmentKey, key_eq}
use selfstack.Wal.Manifest.Postgres.{Rows, Tables, pg_update_segment_status}
use selfstack.Wal.Compactor.{Merge, merge_records}
use selfstack.Wal.Compactor.Run.{
  inputs, mark, mark_all, unmark, rollback_to_sealed, remove_file, remove_tmp, final_name, drop_tmp,
  drop_final,
}
use selfstack.Wal.Compactor.Ran.{CompactIo, World, Ran, on_error, and_then, change, stated}
use selfstack.Wal.Compactor.Triple.{
  Ensures, and_then-Ensures, on_error-Ensures, done-Ensures, change-Ensures, failed-Ensures,
  weaken-Ensures,
}
use selfstack.Wal.Compactor.Calm.{IsCalm, IsSure, remove_tmp-IsSure, remove_file-IsSure}
use selfstack.Wal.Compactor.Statuses.{
  WasSealed, IsOf, MarkedOf, AsBefore, mark-MarkedOf, unmark-MarkedOf, status-set, status-went,
  MarkedAt, sealed_row, set_status,
}
use selfstack.Wal.Compactor.Settled.{Settled}

module _ (json : Json) (io : CompactIo) (segs : List SegmentInfo) (w₀ : World) where
  abbrev pub Marked : World → Type 0
  Marked w = MarkedOf w₀.tables segs w.tables.segments

  -- The outcome of a compaction that has gone through.
  abbrev pub Compacted : World → Type 0
  Compacted w =
      (m : Merge) × (merge_records json (inputs segs w₀) ≡ ok m)
      × Settled w₀.tables segs m w.tables.segments

  -- Its tables are as they were, with some of the segments marked, or it has gone through.
  abbrev pub IsMidway : World → Type 0
  IsMidway w = Marked w ⊎ Compacted w

  abbrev pub Unchanged : World → Type 0
  Unchanged w = AsBefore w₀.tables w.tables.segments

  abbrev pub MarkedIn : Tables → Type 0
  MarkedIn t = MarkedOf w₀.tables segs t.segments

  abbrev pub CompactedIn : Tables → Type 0
  CompactedIn t =
      (m : Merge) × (merge_records json (inputs segs w₀) ≡ ok m)
      × Settled w₀.tables segs m t.segments

  -- A step that leaves the tables alone, where they are marked or settled.
  pub calm : (r : Ran (Unit {0})) → IsCalm MarkedIn r → Ensures IsMidway (λ w _. Marked w) Marked r
  calm r h = weaken-Ensures r (λ w d. inl d) (λ w u d. d) (λ w d. d) h

  pub sure :
      (r : Ran (Unit {0}))
      → IsSure CompactedIn r
      → Ensures IsMidway (λ w _. Compacted w) Unchanged r
  sure r h = weaken-Ensures r (λ w d. inr d) (λ w u d. d) (λ w e. absurd e) h

  module _ (before : All (WasSealed w₀.tables) segs)
      (unmarks : All (λ (s : SegmentInfo). io.unmarks s.segment_id ≡ true) segs) where
    -- A clean-up leaves the rows as they were.
    abbrev pub IsUndone : Ran (Unit {0}) → Type 0
    IsUndone r = Ensures IsMidway (λ w _. Unchanged w) Unchanged r

    unmark-change :
        (s : SegmentInfo) (w : World) (r : SegmentInfo)
        → io.unmarks s.segment_id ≡ true
        → lookup (wal_key s.segment_id) w.tables.segments ≡ some r
        → unmark io s w
          ≡ change (record w {
            tables = record w.tables {
              segments = set_status s.segment_id sealed w.tables.segments;
            };
          })
    unfolding unmark
    unmark-change s w r works e =
        rw (unmark, works, status-set s.segment_id sealed w.tables r e) refl

    -- Setting the segments back one by one, where no other is marked.
    rollback-IsUndone :
        (ss : List SegmentInfo) (w : World)
        → All (WasSealed w₀.tables) ss
        → All (λ (s : SegmentInfo). io.unmarks s.segment_id ≡ true) ss
        → ((key : SegmentKey) → IsOf ss key → IsOf segs key)
        → MarkedOf w₀.tables ss w.tables.segments
        → IsUndone (rollback_to_sealed io ss w)
    unfolding rollback_to_sealed
    rollback-IsUndone [] w p q among m =
        done-Ensures IsMidway (λ w _. Unchanged w) Unchanged w (inl (λ key. inl (same key))) same
      where
        same : (key : SegmentKey) → lookup key w.tables.segments ≡ lookup key w₀.tables.segments
        same key = elim (m key) [ inl e ↦ e | inr (none_left, _) ↦ absurd none_left ]
    rollback-IsUndone (s ∷ ss) w (p, ps) (q, qs) among m =
        let (r, e) = sealed_row w₀.tables s (s ∷ ss) w.tables.segments p m in
        let after = unmark-MarkedOf w₀.tables s ss w.tables.segments p m in
        subst (λ r. IsUndone (and_then r (λ w _. rollback_to_sealed io ss w)))
          (sym (unmark-change s w r q e))
          (and_then-Ensures IsMidway (λ w _. MarkedOf w₀.tables ss w.tables.segments) Unchanged
            Unchanged (λ w _. Unchanged w) _ _
            (change-Ensures IsMidway (λ w _. MarkedOf w₀.tables ss w.tables.segments) Unchanged _
              (inl (λ key. wider _ key (after key))) after)
            (λ w u inv m. rollback-IsUndone ss w ps qs (λ key one. among key (inr one)) m))
      where
        wider :
            (rows : Rows) (key : SegmentKey)
            → MarkedAt w₀.tables ss key rows
            → MarkedAt w₀.tables segs key rows
        wider rows key (inl same) = inl same
        wider rows key (inr (one, marked)) = inr (among key (inr one), marked)

    pub undo : (w : World) → IsMidway w → Marked w → IsUndone (rollback_to_sealed io segs w)
    undo w inv m = rollback-IsUndone segs w before unmarks (λ key one. one) m

    -- A step that can fail only where nothing but marks has changed, and then is undone.
    pub undoing :
        {A : Type 0} (Q : World → A → Type 0) (r : Ran A) (c : World → Ran (Unit {0}))
        → Ensures IsMidway Q Marked r
        → ((w : World) → IsMidway w → Marked w → IsUndone (c w))
        → Ensures IsMidway Q Unchanged (on_error r c)
    undoing Q r c h clean = on_error-Ensures IsMidway Q Marked Unchanged r c h clean

    undo_after :
        (r : World → Ran (Unit {0}))
        → ((w : World) → Marked w → IsSure MarkedIn (r w))
        → (w : World) → IsMidway w
        → Marked w
        → IsUndone (and_then (r w) (λ w _. rollback_to_sealed io segs w))
    undo_after r h w inv m =
        and_then-Ensures IsMidway (λ w _. Marked w) Unchanged Unchanged (λ w _. Unchanged w) (r w) _
          (weaken-Ensures (r w) (λ w d. inl d) (λ w u d. d) (λ w e. absurd e) (h w m))
          (λ w u inv m. undo w inv m)

    pub drop_tmp-IsUndone : (w : World) → IsMidway w → Marked w → IsUndone (drop_tmp io segs w)
    unfolding drop_tmp
    drop_tmp-IsUndone = undo_after (remove_tmp io) (remove_tmp-IsSure MarkedIn io)

    pub drop_final-IsUndone : (w : World) → IsMidway w → Marked w → IsUndone (drop_final io segs w)
    unfolding drop_final
    drop_final-IsUndone =
        undo_after (remove_file io (final_name segs))
          (remove_file-IsSure MarkedIn io (final_name segs))

    pub mark_all-Ensures :
        (ss : List SegmentInfo) (w : World)
        → All (WasSealed w₀.tables) ss
        → ((key : SegmentKey) → IsOf ss key → IsOf segs key)
        → Marked w
        → w.dir ≡ w₀.dir
        → Ensures IsMidway (λ w _. Marked w × (w.dir ≡ w₀.dir)) Marked (mark_all io ss w)
    unfolding mark_all mark
    mark_all-Ensures [] w p among m d =
        done-Ensures IsMidway (λ w _. Marked w × (w.dir ≡ w₀.dir)) Marked w (inl m) (m, d)
    mark_all-Ensures (s ∷ ss) w (p, ps) among m d =
        and_then-Ensures IsMidway (λ w _. Marked w × (w.dir ≡ w₀.dir)) Marked Marked
          (λ w _. Marked w × (w.dir ≡ w₀.dir)) _ _
          (go (pg_update_segment_status (io.marks s.segment_id) s.segment_id compacting w.tables)
            (λ t e.
              subst MarkedIn
                (sym (status-went (io.marks s.segment_id) s.segment_id compacting w.tables t e))
                (mark-MarkedOf w₀.tables segs s w.tables.segments
                  (among (wal_key s.segment_id) (inl refl)) p m)))
          (λ w u inv (m, d). mark_all-Ensures ss w ps (λ key one. among key (inr one)) m d)
      where
        go :
            (r : Result Tables)
            → ((t : Tables) → r ≡ ok t → MarkedIn t)
            → Ensures IsMidway (λ w _. Marked w × (w.dir ≡ w₀.dir)) Marked (stated r w)
        go (ok t) h =
            change-Ensures IsMidway (λ w _. Marked w × (w.dir ≡ w₀.dir)) Marked _ (inl (h t refl))
              (h t refl, d)
        go (err x) h =
            failed-Ensures IsMidway (λ w _. Marked w × (w.dir ≡ w₀.dir)) Marked w x (inl m) m
