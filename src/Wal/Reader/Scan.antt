-- ===== src/Wal/Reader/Scan.antt =====
-- A segment read record by record, and the iterator's loops against that.
use selfstack.Prelude.{
  ℕ, zero, suc, ◌+◌, ◌≤◌, ◌<◌, ◌≡◌, refl, ap, List, [], ◌∷◌, length, Bool, true, false, Option,
  none, some, Error, out_of_fuel, arith, inl, inr, ◌⊎◌, if◌then◌else◌, Bool-cases,
}
use selfstack.Bytes.{Bytes}
use selfstack.Wal.Record.{Record, header_size}
use selfstack.Wal.Reader.{
  Round, done, bad, got, read_record, SegmentIterator, new_segment_iterator_from_lsn, skipped,
  next_loop, next, collect, read_records_from_lsn, finish,
}
use selfstack.Wal.Reader.Sound.{read_record-shorter}

-- The records up to the first failure, and the failure.
unfoldable pub scan : ℕ → Bytes → List Record × Option Error
scan zero file = ([], some out_of_fuel)
scan (suc fuel) file = elim (read_record file) [
  | done ↦ ([], none)
  | bad e rest ↦ ([], some e)
  | got r rest ↦ let (records, error) = scan fuel rest in (r ∷ records, error)
]

-- The records that `fromLSN` lets through.
unfoldable pub kept : ℕ → List Record → List Record
kept from_lsn [] = []
kept from_lsn (r ∷ rs) =
    let rest = kept from_lsn rs in if skipped from_lsn r then rest else r ∷ rest

pub Round-cases :
    (round : Round)
    → (round ≡ done)
      ⊎ ((e : Error) × (rest : Bytes) × (round ≡ bad e rest))
      ⊎ ((r : Record) × (rest : Bytes) × (round ≡ got r rest))
Round-cases done = inl refl
Round-cases (bad e rest) = inr (inl (e, rest, refl))
Round-cases (got r rest) = inr (inr (r, rest, refl))

-- What `collect` makes of a `Next`.
abbrev resume : ℕ → Bool × SegmentIterator → List Record × Option Error
resume fuel (more, it') =
    let (rest, error) = collect fuel it' in
    elim more [
      | true ↦ elim it'.current [ none ↦ (rest, error) | some rec ↦ (rec ∷ rest, error) ]
      | false ↦ ([], it'.error)
    ]

abbrev pub keep : ℕ → List Record × Option Error → List Record × Option Error
keep from_lsn (records, error) = (kept from_lsn records, error)

-- The iterator behind a record.
abbrev advanced : SegmentIterator → Record → Bytes → SegmentIterator
advanced it r rest = record it {
  file = rest;
  current = some r;
  offset = it.offset + (header_size + r.payload_len + 4);
}

-- The loops, one round at a time.
module _ (fuel : ℕ) (it : SegmentIterator) where
  next_loop-done :
      read_record it.file ≡ done → next_loop (suc fuel) it ≡ (false, record it { file = [] })
  unfolding next_loop
  next_loop-done p = rw (p, next_loop)

  next_loop-bad :
      (e : Error) (rest : Bytes)
      → read_record it.file ≡ bad e rest
      → next_loop (suc fuel) it ≡ (false, record it { file = rest; error = some e })
  unfolding next_loop
  next_loop-bad e rest p = rw (p, next_loop)

  next_loop-got :
      (r : Record) (rest : Bytes)
      → read_record it.file ≡ got r rest
      → next_loop (suc fuel) it ≡ (
          if skipped it.from_lsn r
          then next_loop fuel (advanced it r rest)
          else (true, advanced it r rest))
  unfolding next_loop
  next_loop-got r rest p = rw (p, next_loop)

module _ (fuel : ℕ) (file : Bytes) where
  pub scan-done : read_record file ≡ done → scan (suc fuel) file ≡ ([], none)
  unfolding scan
  scan-done p = rw (p, scan)

  pub scan-bad :
      (e : Error) (rest : Bytes)
      → read_record file ≡ bad e rest
      → scan (suc fuel) file ≡ ([], some e)
  unfolding scan
  scan-bad e rest p = rw (p, scan)

  pub scan-got :
      (r : Record) (rest : Bytes)
      → read_record file ≡ got r rest
      → scan (suc fuel) file ≡ (r ∷ (scan fuel rest).0, (scan fuel rest).1)
  unfolding scan
  scan-got r rest p = rw (p, scan)

kept-skipped :
    (from_lsn : ℕ) (r : Record) (rs : List Record)
    → skipped from_lsn r ≡ true
    → kept from_lsn (r ∷ rs) ≡ kept from_lsn rs
unfolding kept
kept-skipped from_lsn r rs h = rw h

kept-taken :
    (from_lsn : ℕ) (r : Record) (rs : List Record)
    → skipped from_lsn r ≡ false
    → kept from_lsn (r ∷ rs) ≡ r ∷ kept from_lsn rs
unfolding kept
kept-taken from_lsn r rs h = rw h

-- Behind a record that `Next` returns, `collect` calls `Next` again.
resume-taken :
    (fuel : ℕ) (it : SegmentIterator) (r : Record) (answer : List Record × Option Error)
    → 0 < fuel
    → ((k : ℕ) → fuel ≡ suc k → resume k (next_loop (suc (length it.file)) it) ≡ answer)
    → it.current ≡ some r
    → resume fuel (true, it) ≡ (r ∷ answer.0, answer.1)
unfolding collect
resume-taken zero it r answer pos again c = absurd (omega arith)
resume-taken (suc fuel) it r answer pos again c =
    rw c (λ i. let a = again fuel refl i in (r ∷ a.0, a.1))

-- Both loops together read what `scan` reads, less the records that are skipped.
resume-scan :
    (n fuel rounds steps : ℕ) (it : SegmentIterator)
    → length it.file < n
    → length it.file < rounds
    → length it.file ≤ fuel
    → length it.file < steps
    → it.error ≡ none
    → resume fuel (next_loop rounds it) ≡ keep it.from_lsn (scan steps it.file)
resume-scan zero fuel rounds steps it hn hr hf hs e = absurd (omega arith)
resume-scan (suc n) fuel zero steps it hn hr hf hs e = absurd (omega arith)
resume-scan (suc n) fuel (suc rounds) zero it hn hr hf hs e = absurd (omega arith)
resume-scan (suc n) fuel (suc rounds) (suc steps) it hn hr hf hs e =
    elim (Round-cases (read_record it.file)) [
      | inl p ↦
          rw (next_loop-done rounds it p, scan-done steps it.file p)
            (unfold kept in ap (λ o. ([], o)) e)
      | inr (inl (x, rest, p)) ↦
          rw (next_loop-bad rounds it x rest p, scan-bad steps it.file x rest p)
            (unfold kept in refl)
      | inr (inr (r, rest, p)) ↦
          let shorter = read_record-shorter it.file r rest p in
          let it' = advanced it r rest in
          rw (next_loop-got rounds it r rest p, scan-got steps it.file r rest p)
            (elim (Bool-cases (skipped it.from_lsn r)) [
              | inl skip ↦
                  rw (skip, kept-skipped it.from_lsn r (scan steps rest).0 skip)
                    (resume-scan n fuel rounds steps it' (omega arith) (omega arith) (omega arith)
                      (omega arith) e)
              | inr taken ↦
                  rw (taken, kept-taken it.from_lsn r (scan steps rest).0 taken)
                    (resume-taken fuel it' r (keep it.from_lsn (scan steps rest)) (omega arith)
                      (λ k ek.
                        resume-scan n k (suc (length rest)) steps it' (omega arith) (omega arith)
                          (omega arith) (omega arith) e)
                      refl)
            ])
    ]

-- The iterator driven to its end.
pub collect-scan :
    (file : Bytes) (from_lsn steps : ℕ)
    → length file < steps
    → collect (suc (length file)) (new_segment_iterator_from_lsn file from_lsn)
      ≡ keep from_lsn (scan steps file)
unfolding collect next
collect-scan file from_lsn steps h =
    resume-scan (suc (length file)) (length file) (suc (length file)) steps
      (new_segment_iterator_from_lsn file from_lsn) (omega arith) (omega arith) (omega arith) h refl

-- `ReadRecordsFromLSN` on any file: the records up to the first failure that are not skipped, or
-- that failure.
pub read_records_from_lsn-scan :
    (file : Bytes) (from_lsn steps : ℕ)
    → length file < steps
    → read_records_from_lsn file from_lsn ≡ finish (keep from_lsn (scan steps file))
unfolding read_records_from_lsn
read_records_from_lsn-scan file from_lsn steps h = ap finish (collect-scan file from_lsn steps h)

-- Nothing is skipped from LSN 0 on.
pub kept-zero : (rs : List Record) → kept 0 rs ≡ rs
unfolding kept
kept-zero [] = refl
kept-zero (r ∷ rs) = ap (λ t. r ∷ t) (kept-zero rs)
