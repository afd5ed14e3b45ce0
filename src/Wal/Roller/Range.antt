-- ===== src/Wal/Roller/Range.antt =====
-- internal/scope/db/wal/roller.go: the segments that may hold records of a range of LSNs.
use selfstack.Prelude.{
  ℕ, ◌≤◌, ◌<◌, ◌^◌, ◌-◌, ◌≡◌, List, [], ◌∷◌, ◌&&◌, true, false, leb, max, arith, All, Any, inl, inr,
  ◌↔◌, Bool-cases,
}
use selfstack.Wal.Manifest.{SegmentInfo}
use selfstack.Wal.Roller.{or_bound, in_range, find_segments_in_range}

-- An LSN that the segment's bounds allow; a bound that is not recorded allows any uint64.
abbrev pub MayHold : ℕ → SegmentInfo → Type 0
MayHold lsn seg =
    (lsn < 2 ^ 64) × (or_bound seg.min_lsn 0 ≤ lsn) × (lsn ≤ or_bound seg.max_lsn (2 ^ 64 - 1))

abbrev pub IsBounded : SegmentInfo → Type 0
IsBounded seg =
    (or_bound seg.min_lsn 0 ≤ or_bound seg.max_lsn (2 ^ 64 - 1))
    × (or_bound seg.max_lsn (2 ^ 64 - 1) < 2 ^ 64)

abbrev pub Overlaps : ℕ → ℕ → SegmentInfo → Type 0
Overlaps lo hi seg = (lsn : ℕ) × (lo ≤ lsn) × (lsn ≤ hi) × MayHold lsn seg

both_le : (a b c d : ℕ) → (leb a b && leb c d) ≡ true → (a ≤ b) × (c ≤ d)
both_le a b c d h = ground arith

le_both : (a b c d : ℕ) → a ≤ b → c ≤ d → (leb a b && leb c d) ≡ true
le_both a b c d h h' = ground arith

module _ (lo hi : ℕ) (range : lo ≤ hi) where
  in_range-Overlaps :
      (seg : SegmentInfo) → IsBounded seg → in_range lo hi seg ≡ true → Overlaps lo hi seg
  unfolding in_range
  in_range-Overlaps seg (b, b') h =
      let low = or_bound seg.min_lsn 0 in
      let (above, below) = both_le lo (or_bound seg.max_lsn (2 ^ 64 - 1)) low hi h in
      (max lo low, omega arith, omega arith, omega arith)

  Overlaps-in_range : (seg : SegmentInfo) → Overlaps lo hi seg → in_range lo hi seg ≡ true
  unfolding in_range
  Overlaps-in_range seg (lsn, a, b, (c, d, e)) =
      le_both lo (or_bound seg.max_lsn (2 ^ 64 - 1)) (or_bound seg.min_lsn 0) hi (omega arith)
        (omega arith)

  outside_range : (seg : SegmentInfo) → in_range lo hi seg ≡ false → Overlaps lo hi seg → ⊥
  outside_range seg outside o = ground (arith, Overlaps-in_range seg o)

  module _ (P : SegmentInfo → Type 0) where
    -- `FindSegmentsInRange`, on the segments of the recovery information and a range that is not
    -- empty, returns exactly those whose recorded bounds allow an LSN of the range, where no
    -- segment's lower bound is above its upper one.
    pub find_segments_in_range_iff :
        (segs : List SegmentInfo)
        → All IsBounded segs
        → Any P (find_segments_in_range lo hi segs) ↔ Any (λ s. P s × Overlaps lo hi s) segs
    unfolding find_segments_in_range
    find_segments_in_range_iff [] h = (λ found. absurd found, λ found. absurd found)
    find_segments_in_range_iff (seg ∷ segs) (b, h) =
        let (there, back) = find_segments_in_range_iff segs h in
        elim (Bool-cases (in_range lo hi seg)) [
          | inl inside ↦ rw inside (
            λ found. elim found [
              | inl p ↦ inl (p, in_range-Overlaps seg b inside)
              | inr rest ↦ inr (there rest)
            ],
            λ found. elim found [ inl (p, o) ↦ inl p | inr rest ↦ inr (back rest) ],
          )
          | inr outside ↦ rw outside (
            λ found. inr (there found),
            λ found. elim found [
              | inl (p, o) ↦ absurd (outside_range seg outside o)
              | inr rest ↦ back rest
            ],
          )
        ]
