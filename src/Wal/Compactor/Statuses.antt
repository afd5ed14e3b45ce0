-- ===== src/Wal/Compactor/Statuses.antt =====
-- The rows of the segments that a compaction merges, up to its commit or its roll-back.
use selfstack.Prelude.{
  ℕ, ◌≡◌, refl, sym, ap, ◌∙◌, List, [], ◌∷◌, Bool, true, false, Option, none, some, ok, arith, ◌⊎◌,
  inl, inr, Any, subst, ◌==◌, if◌then◌else◌,
}
use selfstack.Prelude.Maps.{lookup}
use selfstack.Wal.Manifest.{SegmentInfo, SegmentStatus, sealed, compacting, wal_key}
use selfstack.Wal.Manifest.Keys.{SegmentKey, key_eq}
use selfstack.Wal.Manifest.Postgres.{
  Rows, Tables, update_rows, is_wal_row, or_missing, pg_update_segment_status,
}

-- An update changes exactly the rows of its keys.
pub lookup-update_rows :
    (test : SegmentKey → Bool) (change : SegmentInfo → SegmentInfo) (key : SegmentKey) (rows : Rows)
    → lookup key (update_rows (λ key seg. test key) change rows).0 ≡ (
        if test key
        then (elim (lookup key rows) [ none ↦ none | some seg ↦ some (change seg) ])
        else lookup key rows)
unfolding update_rows lookup
lookup-update_rows test change key [] = ground arith
lookup-update_rows test change key ((j, seg) ∷ rows) =
    ground (arith, lookup-update_rows test change key rows, key_eq.beq_iff j key)

update_rows-some :
    (id : ℕ) (change : SegmentInfo → SegmentInfo) (rows : Rows) (seg : SegmentInfo)
    → lookup (wal_key id) rows ≡ some seg
    → ((update_rows (λ key seg. is_wal_row id key) change rows).1 == 0) ≡ false
unfolding update_rows lookup
update_rows-some id change [] seg e = cc
update_rows-some id change ((j, s) ∷ rows) seg e =
    ground (arith, update_rows-some id change rows seg, key_eq.beq_iff j (wal_key id))

abbrev pub with_status : SegmentStatus → SegmentInfo → SegmentInfo
with_status x seg = record seg { status = x }

abbrev pub set_status : ℕ → SegmentStatus → Rows → Rows
set_status id status rows =
    (update_rows (λ key seg. is_wal_row id key) (λ seg. record seg { status = status }) rows).0

-- A status is set, if the statement works, where there is a row.
pub status-set :
    (id : ℕ) (status : SegmentStatus) (t : Tables) (seg : SegmentInfo)
    → lookup (wal_key id) t.segments ≡ some seg
    → pg_update_segment_status true id status t
      ≡ ok (record t {
        segments =
            (update_rows
              (λ key seg. is_wal_row id key)
              (λ seg. record seg { status = status })
              t.segments).0;
      })
unfolding pg_update_segment_status or_missing
status-set id status t seg e =
    ground (arith, update_rows-some id (λ seg. record seg { status = status }) t.segments seg e)

-- If a status is set without an error, it is set so.
pub status-went :
    (works : Bool) (id : ℕ) (status : SegmentStatus) (t t' : Tables)
    → pg_update_segment_status works id status t ≡ ok t'
    → t' ≡ record t {
      segments =
          (update_rows
            (λ key seg. is_wal_row id key)
            (λ seg. record seg { status = status })
            t.segments).0;
    }
unfolding pg_update_segment_status or_missing
status-went works id status t t' e = ground arith

same_row :
    (found : Option SegmentInfo) (r r' : SegmentInfo) → found ≡ some r → found ≡ some r' → r ≡ r'
same_row found r r' e e' = cc

abbrev pub changed : (SegmentInfo → SegmentInfo) → Option SegmentInfo → Option SegmentInfo
changed change found = elim found [ none ↦ none | some seg ↦ some (change seg) ]

abbrev pub IsOf : List SegmentInfo → SegmentKey → Type 0
IsOf ss key = Any (λ (s : SegmentInfo). wal_key s.segment_id ≡ key) ss

-- t₀ are the tables before the compaction.
module _ (t₀ : Tables) where
  -- The row of a segment that is merged, as it was before: sealed.
  abbrev pub WasSealed : SegmentInfo → Type 0
  WasSealed s =
      (row : SegmentInfo) × (lookup (wal_key s.segment_id) t₀.segments ≡ some row)
      × (row.status ≡ sealed)

  abbrev pub IsMarked : SegmentKey → Rows → Type 0
  IsMarked key rows =
      (row : SegmentInfo) × (lookup key t₀.segments ≡ some row)
      × (row.status ≡ sealed)
      × (lookup key rows ≡ some (record row { status = compacting }))

  -- A row is as before, or one of a given segment that is marked.
  abbrev pub MarkedAt : List SegmentInfo → SegmentKey → Rows → Type 0
  MarkedAt ss key rows =
      (lookup key rows ≡ lookup key t₀.segments) ⊎ (IsOf ss key × IsMarked key rows)

  abbrev pub MarkedOf : List SegmentInfo → Rows → Type 0
  MarkedOf ss rows = (key : SegmentKey) → MarkedAt ss key rows

  abbrev pub AsBefore : Rows → Type 0
  AsBefore rows = (key : SegmentKey) → lookup key rows ≡ lookup key t₀.segments

  -- The row is the given one but for its status.
  abbrev pub IsLike : SegmentInfo → SegmentKey → Rows → Type 0
  IsLike row key rows =
      (r : SegmentInfo) × (lookup key rows ≡ some r)
      × ((x : SegmentStatus) → with_status x r ≡ with_status x row)

  pub MarkedAt-IsLike :
      (ss : List SegmentInfo) (key : SegmentKey) (rows : Rows) (row : SegmentInfo)
      → MarkedAt ss key rows
      → lookup key t₀.segments ≡ some row
      → IsLike row key rows
  MarkedAt-IsLike ss key rows row (inl same) e = (row, same ∙ e, λ x. refl)
  MarkedAt-IsLike ss key rows row (inr (one, (row', e', status, now))) e = (
    with_status compacting row',
    now,
    λ x. ap (with_status x) (same_row (lookup key t₀.segments) row' row e' e),
  )

  set-at :
      (id : ℕ) (x : SegmentStatus) (key : SegmentKey) (rows : Rows) (row : SegmentInfo)
      → is_wal_row id key ≡ true
      → IsLike row key rows
      → lookup key (set_status id x rows) ≡ some (with_status x row)
  set-at id x key rows row is (r, now, like) =
      lookup-update_rows (is_wal_row id) (with_status x) key rows
      ∙ (rw (is, now) (ap some (like x)))

  set-other :
      (id : ℕ) (x : SegmentStatus) (key : SegmentKey) (rows : Rows)
      → is_wal_row id key ≡ false
      → lookup key (set_status id x rows) ≡ lookup key rows
  set-other id x key rows is =
      lookup-update_rows (is_wal_row id) (with_status x) key rows ∙ (rw is refl)

  -- Marking one of the segments.
  pub mark-MarkedOf :
      (segs : List SegmentInfo) (s : SegmentInfo) (rows : Rows)
      → IsOf segs (wal_key s.segment_id)
      → WasSealed s
      → MarkedOf segs rows
      → MarkedOf segs (set_status s.segment_id compacting rows)
  mark-MarkedOf segs s rows one (row, before, status) m key =
      go (is_wal_row s.segment_id key) refl (m key)
    where
      go :
          (b : Bool)
          → is_wal_row s.segment_id key ≡ b
          → MarkedAt segs key rows
          → MarkedAt segs key (set_status s.segment_id compacting rows)
      go true is at =
          let same = (key_eq.beq_iff key (wal_key s.segment_id)).0 is in
          let e = ap (λ k. lookup k t₀.segments) same ∙ before in
          inr (
            subst (IsOf segs) (sym same) one,
            (
              row,
              e,
              status,
              set-at s.segment_id compacting key rows row is
                  (MarkedAt-IsLike segs key rows row at e),
            ),
          )
      go false is (inl same) = inl (set-other s.segment_id compacting key rows is ∙ same)
      go false is (inr (one, (r, e, status, now))) =
          inr (one, (r, e, status, set-other s.segment_id compacting key rows is ∙ now))

  -- Setting one of the segments back.
  pub unmark-MarkedOf :
      (s : SegmentInfo) (ss : List SegmentInfo) (rows : Rows)
      → WasSealed s
      → MarkedOf (s ∷ ss) rows
      → MarkedOf ss (set_status s.segment_id sealed rows)
  unmark-MarkedOf s ss rows (row, before, status) m key =
      go (is_wal_row s.segment_id key) refl (m key)
    where
      go :
          (b : Bool)
          → is_wal_row s.segment_id key ≡ b
          → MarkedAt (s ∷ ss) key rows
          → MarkedAt ss key (set_status s.segment_id sealed rows)
      go true is at =
          let same = (key_eq.beq_iff key (wal_key s.segment_id)).0 is in
          let e = ap (λ k. lookup k t₀.segments) same ∙ before in
          inl (
            set-at s.segment_id sealed key rows row is (MarkedAt-IsLike (s ∷ ss) key rows row at e)
            ∙ ap (λ x. some (with_status x row)) (sym status)
            ∙ sym e)
      go false is (inl same) = inl (set-other s.segment_id sealed key rows is ∙ same)
      go false is (inr (inl here, (r, e, st, now))) =
          let yes = (key_eq.beq_iff key (wal_key s.segment_id)).1 (sym here) in cc
      go false is (inr (inr one, (r, e, st, now))) =
          inr (one, (r, e, st, set-other s.segment_id sealed key rows is ∙ now))

  -- The row that a segment still has.
  pub sealed_row :
      (s : SegmentInfo) (ss : List SegmentInfo) (rows : Rows)
      → WasSealed s
      → MarkedOf ss rows
      → (r : SegmentInfo) × (lookup (wal_key s.segment_id) rows ≡ some r)
  sealed_row s ss rows (row, e, status) m =
      let (r, now, like) =
        MarkedAt-IsLike ss (wal_key s.segment_id) rows row (m (wal_key s.segment_id)) e in
      (r, now)
