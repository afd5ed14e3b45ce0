-- ===== src/Wal/Reader/Range.antt =====
-- The LSN range that `GetSegmentLSNRange` finds.
use selfstack.Prelude.{
  ℕ, ◌+◌, ◌≤◌, ◌≡◌, refl, sym, ◌∙◌, List, [], ◌∷◌, length, true, false, ◌⊎◌, inl, inr, ok, err, All,
  subst, arith, Error,
}
use selfstack.Bytes.{Bytes}
use selfstack.Wal.Record.{Record}
use selfstack.Wal.Reader.{LsnRange, widen, widen_all, get_segment_lsn_range, read_all_records}

-- `lsn` is the LSN of one of the records.
abbrev pub HasLsn : ℕ → List Record → Type 0
HasLsn lsn [] = ⊥
HasLsn lsn (r ∷ rs) = (lsn ≡ r.lsn) ⊎ HasLsn lsn rs

-- One record, and not the first.
widen_lem :
    (s : LsnRange) (lsn : ℕ)
    → s.first ≡ false
    → ((widen s lsn).min_lsn ≤ s.min_lsn)
      × ((widen s lsn).min_lsn ≤ lsn)
      × (s.max_lsn ≤ (widen s lsn).max_lsn)
      × (lsn ≤ (widen s lsn).max_lsn)
      × ((widen s lsn).count ≡ s.count + 1)
      × ((widen s lsn).first ≡ false)
unfolding widen
widen_lem s lsn f = ground arith

widen-attained :
    (s : LsnRange) (lsn : ℕ)
    → s.first ≡ false
    → (((widen s lsn).min_lsn ≡ s.min_lsn) ⊎ ((widen s lsn).min_lsn ≡ lsn))
      × (((widen s lsn).max_lsn ≡ s.max_lsn) ⊎ ((widen s lsn).max_lsn ≡ lsn))
unfolding widen
widen-attained s lsn f = ground arith

-- The bounds hold of what they held of before and of the records gone through.
widen_all-bounds :
    (s : LsnRange) (rs : List Record)
    → s.first ≡ false
    → ((widen_all s rs).min_lsn ≤ s.min_lsn)
      × (s.max_lsn ≤ (widen_all s rs).max_lsn)
      × All (λ r. ((widen_all s rs).min_lsn ≤ r.lsn) × (r.lsn ≤ (widen_all s rs).max_lsn)) rs
      × ((widen_all s rs).count ≡ s.count + length rs)
unfolding widen_all
widen_all-bounds s [] f = (omega arith, omega arith, tt, omega arith)
widen_all-bounds s (r ∷ rs) f =
    let (low, lsn_low, high, lsn_high, count, first) = widen_lem s r.lsn f in
    let (low', high', all, count') = widen_all-bounds (widen s r.lsn) rs first in
    (omega arith, omega arith, ((omega arith, omega arith), all), omega arith)

widen_all-attained :
    (s : LsnRange) (rs : List Record)
    → s.first ≡ false
    → (((widen_all s rs).min_lsn ≡ s.min_lsn) ⊎ HasLsn (widen_all s rs).min_lsn rs)
      × (((widen_all s rs).max_lsn ≡ s.max_lsn) ⊎ HasLsn (widen_all s rs).max_lsn rs)
unfolding widen_all
widen_all-attained s [] f = (inl refl, inl refl)
widen_all-attained s (r ∷ rs) f =
    let (low, high) = widen_all-attained (widen s r.lsn) rs (widen_lem s r.lsn f).5 in
    let (low', high') = widen-attained s r.lsn f in (join low low', join high high')
  where
    join :
        {a b c : ℕ} {P : Type 0} → (a ≡ b) ⊎ P → (b ≡ c) ⊎ (b ≡ r.lsn) → (a ≡ c) ⊎ ((a ≡ r.lsn) ⊎ P)
    join (inr p) y = inr (inr p)
    join (inl e) (inl e') = inl (e ∙ e')
    join (inl e) (inr e') = inr (inl (e ∙ e'))

-- What a segment's range should be: exact bounds on its records' LSNs and their number, all zero
-- where there is none.
abbrev pub IsRangeOf : List Record → LsnRange → Type 0
IsRangeOf [] s = (s.min_lsn ≡ 0) × (s.max_lsn ≡ 0) × (s.count ≡ 0)
IsRangeOf (r ∷ rs) s =
    All (λ x. (s.min_lsn ≤ x.lsn) × (x.lsn ≤ s.max_lsn)) (r ∷ rs)
    × HasLsn s.min_lsn (r ∷ rs)
    × HasLsn s.max_lsn (r ∷ rs)
    × (s.count ≡ length (r ∷ rs))

abbrev start : LsnRange
start = record { min_lsn = 0; max_lsn = 0; count = 0; first = true }

widen-start :
    (lsn : ℕ) → widen start lsn ≡ record { min_lsn = lsn; max_lsn = lsn; count = 1; first = false }
unfolding widen
widen-start lsn = ground arith

range_of : (rs : List Record) → IsRangeOf rs (widen_all start rs)
unfolding widen_all
range_of [] = (refl, refl, refl)
range_of (r ∷ rs) =
    let one : LsnRange = record { min_lsn = r.lsn; max_lsn = r.lsn; count = 1; first = false } in
    let (low, high, all, count) = widen_all-bounds one rs refl in
    let (has_low, has_high) = widen_all-attained one rs refl in
    subst (λ t. IsRangeOf (r ∷ rs) (widen_all t rs)) (sym (widen-start r.lsn))
      (((low, high), all), has_low, has_high, omega arith)

-- `GetSegmentLSNRange` returns the exact bounds on the LSNs of the records that `ReadAllRecords`
-- returns, and their number, and where `ReadAllRecords` fails it fails with the same error.
pub get_segment_lsn_range_lem :
    (file : Bytes)
    → ((rs : List Record)
        → read_all_records file ≡ ok rs
        → (s : LsnRange) × (get_segment_lsn_range file ≡ ok s) × IsRangeOf rs s)
      × ((e : Error) → read_all_records file ≡ err e → get_segment_lsn_range file ≡ err e)
unfolding get_segment_lsn_range read_all_records
get_segment_lsn_range_lem file = (λ rs e. (widen_all start rs, rw e, range_of rs), λ e h. rw h)
