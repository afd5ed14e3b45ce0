-- ===== src/Wal/Roller/Names.antt =====
-- internal/scope/db/wal/roller.go: a segment's ID is read back from the names that are made of it.
use selfstack.Prelude.{
  drop-length_append, ◌-◌, inr, inl, length-append, lt→ltb, ℕ, zero, suc, ◌+◌, ◌-◌, ◌*◌, ◌/◌, ◌%◌,
  ◌^◌, ◌<◌, ◌≤◌, ◌≡◌, refl, ap, ◌∙◌, [], ◌∷◌, ◌++◌, length, replicate, true, false, none, some, ok,
  arith, All, All-append, ◌==◌, Bool-cases, inl, inr, subst, if-split,
}
use selfstack.Bytes.{Bytes}
use selfstack.Wal.Writer.Naming.{decimal, padded, segment_filename}
use selfstack.Prelude.Maps.{bytes_beq, bytes_beq_iff}
use selfstack.Wal.Roller.{
  has_suffix, is_segment_file, is_wal_segment_file, seg_suffix, wal_prefix, cmp_prefix,
  compacted_segment_filename, read_digits, skip_space, number_at, scan_name, get_segment_id,
  is_wal_segment, is_compacted_segment,
}

abbrev IsDigit : ℕ → Type 0
IsDigit b = (48 ≤ b) × (b ≤ 57)

-- The number that digits stand for, behind one that has been read.
value : ℕ → Bytes → ℕ
value n [] = n
value n (d ∷ ds) = value (n * 10 + (d - 48)) ds

read_digits-value :
    (n : ℕ) (ds : Bytes)
    → All IsDigit ds
    → read_digits n (ds ++ seg_suffix) ≡ (value n ds, seg_suffix)
unfolding read_digits value
read_digits-value n [] h = refl
read_digits-value n (d ∷ ds) (p, h) = ground (arith, read_digits-value (n * 10 + (d - 48)) ds h)

decimal-value : (fuel n : ℕ) (ds : Bytes) → n < fuel → value 0 (decimal fuel n ds) ≡ value n ds
unfolding decimal
decimal-value zero n ds h = absurd (omega arith)
decimal-value (suc fuel) n ds h =
    let all = (48 + n % 10) ∷ ds in
    if-split (λ t. value 0 t ≡ value n ds) (n / 10 == 0) all (decimal fuel (n / 10) all)
      (λ last. unfold value in ap (λ k. value k ds) (ground arith))
      (λ more.
        decimal-value fuel (n / 10) all (ground arith)
        ∙ (unfold value in ap (λ k. value k ds) (omega arith)))

decimal-IsDigit : (fuel n : ℕ) (ds : Bytes) → All IsDigit ds → All IsDigit (decimal fuel n ds)
unfolding decimal
decimal-IsDigit zero n ds h = h
decimal-IsDigit (suc fuel) n ds h =
    let one : IsDigit (48 + n % 10) = (omega arith, omega arith) in
    if-split (All IsDigit) (n / 10 == 0) ((48 + n % 10) ∷ ds)
      (decimal fuel (n / 10) ((48 + n % 10) ∷ ds)) (λ last. (one, h))
      (λ more. decimal-IsDigit fuel (n / 10) ((48 + n % 10) ∷ ds) (one, h))

decimal-length : (fuel n : ℕ) (ds : Bytes) → length ds ≤ length (decimal fuel n ds)
unfolding decimal
decimal-length zero n ds = omega arith
decimal-length (suc fuel) n ds = ground (arith, decimal-length fuel (n / 10) ((48 + n % 10) ∷ ds))

decimal-some : (fuel n : ℕ) → 0 < length (decimal (suc fuel) n [])
unfolding decimal
decimal-some fuel n = ground (arith, decimal-length fuel (n / 10) ((48 + n % 10) ∷ []))

zeros-IsDigit : (k : ℕ) → All IsDigit (replicate k 48)
zeros-IsDigit zero = tt
zeros-IsDigit (suc k) = ((omega arith, omega arith), zeros-IsDigit k)

zeros-value : (k : ℕ) (ds : Bytes) → value 0 (replicate k 48 ++ ds) ≡ value 0 ds
unfolding value
zeros-value zero ds = refl
zeros-value (suc k) ds = zeros-value k ds

padded-IsDigit : (n : ℕ) → All IsDigit (padded n)
unfolding padded
padded-IsDigit n =
    All-append IsDigit _ (decimal (suc n) n []) (zeros-IsDigit _) (decimal-IsDigit (suc n) n [] tt)

padded-value : (n : ℕ) → value 0 (padded n) ≡ n
unfolding padded
padded-value n =
    zeros-value _ (decimal (suc n) n [])
    ∙ decimal-value (suc n) n [] (omega arith)
    ∙ (unfold value in refl)

padded-length : (n : ℕ) → 0 < length (padded n)
unfolding padded
padded-length n = omega (
  arith,
  length-append (replicate (12 - length (decimal (suc n) n [])) 48) (decimal (suc n) n []),
  decimal-some n n,
)

-- A number that starts with a digit is read to its end.
number_at-digits :
    (ds : Bytes) (n : ℕ)
    → 0 < length ds
    → All IsDigit ds
    → value 0 ds ≡ n
    → n < 2 ^ 64
    → number_at (skip_space (ds ++ seg_suffix)) ≡ some (n, seg_suffix)
number_at-digits [] n h ds e lt = absurd (omega arith)
number_at-digits (b ∷ bs) n h (p, ds) e lt =
    ap number_at (skip b bs p)
    ∙ (unfold number_at in
        ground (arith, read_digits-value 0 (b ∷ bs) (p, ds), lt→ltb n (2 ^ 64) lt))
  where
    skip :
        (b : ℕ) (bs : Bytes) → IsDigit b → skip_space (b ∷ bs ++ seg_suffix) ≡ b ∷ bs ++ seg_suffix
    skip b bs p = unfold skip_space in ground arith

-- The number behind a prefix.
number_at-padded :
    (id : ℕ)
    → id < 2 ^ 64
    → number_at (skip_space (padded id ++ seg_suffix)) ≡ some (id, seg_suffix)
number_at-padded id lt =
    number_at-digits (padded id) id (padded-length id) (padded-IsDigit id) (padded-value id) lt

scan_name-wal : (id : ℕ) → id < 2 ^ 64 → scan_name wal_prefix (segment_filename id) ≡ some id
unfolding segment_filename scan_name
scan_name-wal id lt = rw (scan_name, number_at-padded id lt) refl

scan_name-cmp :
    (id : ℕ)
    → id < 2 ^ 64
    → (scan_name wal_prefix (compacted_segment_filename id) ≡ none)
      × (scan_name cmp_prefix (compacted_segment_filename id) ≡ some id)
unfolding compacted_segment_filename scan_name
scan_name-cmp id lt = (refl, rw (scan_name, number_at-padded id lt) refl)

-- `GetSegmentID` reads back the ID, any uint64, of a name that `SegmentFilename` or
-- `CompactedSegmentFilename` made of it, and each of the two kinds is told by its own test.
pub get_segment_id-filename :
    (id : ℕ)
    → id < 2 ^ 64
    → (get_segment_id (segment_filename id) ≡ ok id)
      × (get_segment_id (compacted_segment_filename id) ≡ ok id)
      × (is_wal_segment (segment_filename id) ≡ true)
      × (is_compacted_segment (segment_filename id) ≡ false)
      × (is_wal_segment (compacted_segment_filename id) ≡ false)
      × (is_compacted_segment (compacted_segment_filename id) ≡ true)
unfolding segment_filename compacted_segment_filename is_wal_segment is_compacted_segment
    get_segment_id
get_segment_id-filename id lt = (
  rw (get_segment_id, scan_name-wal id lt) refl,
  rw (get_segment_id, (scan_name-cmp id lt).0, (scan_name-cmp id lt).1) refl,
  refl,
  refl,
  refl,
  refl,
)

-- The names: the new segment has one of a segment file, and none of a WAL segment.
pub has_suffix-append : (xs suffix : Bytes) → has_suffix suffix (xs ++ suffix) ≡ true
has_suffix-append xs suffix =
    let e : length (xs ++ suffix) - length suffix ≡ length xs =
      omega (arith, length-append xs suffix) in
    rw (e, drop-length_append xs suffix)
      (ground (arith, length-append xs suffix, bytes_beq_iff suffix suffix))

pub final-is_segment_file : (id : ℕ) → is_segment_file (compacted_segment_filename id) ≡ true
unfolding compacted_segment_filename is_segment_file
final-is_segment_file id = has_suffix-append (cmp_prefix ++ padded id) seg_suffix

pub final-other :
    (id : ℕ) (n : Bytes)
    → is_wal_segment_file n ≡ true
    → bytes_beq n (compacted_segment_filename id) ≡ false
final-other id n w = elim (Bool-cases (bytes_beq n (compacted_segment_filename id))) [
  | inr other ↦ other
  | inl same ↦
      let wal : is_wal_segment_file (compacted_segment_filename id) ≡ true =
        subst (λ t. is_wal_segment_file t ≡ true)
          ((bytes_beq_iff n (compacted_segment_filename id)).0 same) w in
      absurd (not_wal id wal)
]
  where
    not_wal : (id : ℕ) → is_wal_segment_file (compacted_segment_filename id) ≡ true → ⊥
    not_wal id h = unfold is_wal_segment_file compacted_segment_filename in cc

pub wal-is_segment_file : (n : Bytes) → is_wal_segment_file n ≡ true → is_segment_file n ≡ true
unfolding is_wal_segment_file is_segment_file
wal-is_segment_file n h = ground arith
