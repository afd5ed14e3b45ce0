-- ===== src/Wal/Tail/Repair.antt =====
-- A segment after `openSegment` has cut its tail, and after a crash that cut it first.
use selfstack.Prelude.{
  ℕ, zero, suc, ◌+◌, ◌-◌, ◌<◌, ◌≡◌, refl, sym, ap, ◌∙◌, List, [], ◌∷◌, ◌++◌, length, take, drop,
  none, some, ltb, leb, if◌then◌else◌, Bool-cases, inl, inr, arith, All, ok, subst, length-append,
  append_assoc, take-length_append, take_all, take-append-drop, take-nil, take-append, lt→ltb,
  All-right, All-left, All-take, length-take, leb→le,
}
use selfstack.Bytes.{Bytes, IsByte}
use selfstack.Wal.Record.{Record, IsWellFormed, encode, header_size}
use selfstack.Wal.Record.RoundTrip.{length-encode}
use selfstack.Wal.Reader.{got, read_record, read_all_records}
use selfstack.Wal.Reader.Step.{read_record-encode}
use selfstack.Wal.Reader.Sound.{read_record_sound}
use selfstack.Wal.Reader.Scan.{scan, scan-done, scan-bad, scan-got, Round-cases, kept-zero}
use selfstack.Wal.Reader.Whole.{
  encode_all, read_record-empty, scan_sound, scan-encode_all, length-encode_all,
  read_records_from_lsn-encode_all,
}
use selfstack.Wal.Tail.{valid_record, find_loop, find_last_valid_offset, repaired}
use selfstack.Wal.Tail.Agree.{outcome, valid_record-read_record}

-- The records up to the first failure.
abbrev pub readable : Bytes → List Record
readable file = (scan (suc (length file)) file).0

-- One round of the scan's loop.
find_loop-stop :
    (fuel : ℕ) (file : Bytes) (offset : ℕ)
    → valid_record file ≡ none
    → find_loop (suc fuel) file offset ≡ offset
unfolding find_loop
find_loop-stop fuel file offset p = rw (p, find_loop)

find_loop-step :
    (fuel : ℕ) (file : Bytes) (offset len : ℕ) (rest : Bytes)
    → valid_record file ≡ some (len, rest)
    → find_loop (suc fuel) file offset ≡ find_loop fuel rest (offset + header_size + len + 4)
unfolding find_loop
find_loop-step fuel file offset len rest p = rw (p, find_loop)

find_loop-scan :
    (fuel : ℕ) (file : Bytes) (offset : ℕ)
    → All IsByte file
    → find_loop fuel file offset ≡ offset + length (encode_all (scan fuel file).0)
unfolding encode_all
find_loop-scan zero file offset bytes = unfold find_loop scan in omega arith
find_loop-scan (suc fuel) file offset bytes = elim (Round-cases (read_record file)) [
  | inl p ↦
      rw
        (
          find_loop-stop fuel file offset (valid_record-read_record file ∙ ap outcome p),
          scan-done fuel file p,
        )
        (omega arith)
  | inr (inl (e, rest, p)) ↦
      rw
        (
          find_loop-stop fuel file offset (valid_record-read_record file ∙ ap outcome p),
          scan-bad fuel file e rest p,
        )
        (omega arith)
  | inr (inr (r, rest, p)) ↦
      let (w, split) = read_record_sound file r rest bytes p in
      let rest_bytes = All-right IsByte (encode r) rest (subst (All IsByte) split bytes) in
      rw
        (
          find_loop-step fuel file offset r.payload_len rest
              (valid_record-read_record file ∙ ap outcome p),
          scan-got fuel file r rest p,
        )
        (omega (
          arith,
          find_loop-scan fuel rest (offset + header_size + r.payload_len + 4) rest_bytes,
          length-append (encode r) (encode_all (scan fuel rest).0),
          length-encode r,
          w.payload_len,
        ))
]

-- The last valid offset is the end of the last record that can be read.
pub find_last_valid_offset_lem :
    (file : Bytes)
    → All IsByte file
    → find_last_valid_offset file ≡ length (encode_all (readable file))
unfolding find_last_valid_offset
find_last_valid_offset_lem file bytes =
    find_loop-scan (suc (length file)) file 0 bytes ∙ omega arith

repaired-take :
    (file : Bytes)
    → (length file ≡ 0 → find_last_valid_offset file ≡ 0)
    → repaired file ≡ take (find_last_valid_offset file) file
unfolding repaired
repaired-take [] h = rw (h refl)
repaired-take (b ∷ file) h =
    elim (Bool-cases (ltb (find_last_valid_offset (b ∷ file)) (length (b ∷ file)))) [
      | inl e ↦ rw (e, lt→ltb 0 (length (b ∷ file)) (omega arith))
      | inr e ↦
          rw (e, lt→ltb 0 (length (b ∷ file)) (omega arith))
            (sym (take_all (find_last_valid_offset (b ∷ file)) (b ∷ file) (ground arith)))
    ]

repaired-encode_all : (file : Bytes) → All IsByte file → repaired file ≡ encode_all (readable file)
repaired-encode_all file bytes =
    let (rest, split, w) = scan_sound (suc (length file)) file bytes in
    let valid = find_last_valid_offset_lem file bytes in
    repaired-take file
      (λ e. omega (arith, ap length split, length-append (encode_all (readable file)) rest))
    ∙ ap (λ k. take k file) valid
    ∙ ap (take (length (encode_all (readable file)))) split
    ∙ take-length_append (encode_all (readable file)) rest

pub readable-IsWellFormed : (file : Bytes) → All IsByte file → All IsWellFormed (readable file)
readable-IsWellFormed file bytes = (scan_sound (suc (length file)) file bytes).2

-- A segment of whole records is left as it is.
repaired-encoded :
    (rs : List Record)
    → All IsWellFormed rs
    → All IsByte (encode_all rs)
    → repaired (encode_all rs) ≡ encode_all rs
repaired-encoded rs w bytes =
    repaired-encode_all (encode_all rs) bytes
    ∙ ap (λ t. encode_all t.0)
        (scan-encode_all rs (suc (length (encode_all rs))) w (omega (arith, length-encode_all rs)))

-- After `openSegment` a segment of any content holds the encodings of the records that could be
-- read from it and nothing else, `ReadAllRecords` returns those without an error, and opening it
-- again changes nothing.
pub repaired_lem :
    (file : Bytes)
    → All IsByte file
    → (repaired file ≡ encode_all (readable file))
      × (read_all_records (repaired file) ≡ ok (readable file))
      × (repaired (repaired file) ≡ repaired file)
unfolding read_all_records
repaired_lem file bytes =
    let w = readable-IsWellFormed file bytes in
    let whole = repaired-encode_all file bytes in
    let (rest, split, _) = scan_sound (suc (length file)) file bytes in
    let front_bytes =
      All-left IsByte (encode_all (readable file)) rest (subst (All IsByte) split bytes) in
    (
      whole,
      rw (whole, read_records_from_lsn-encode_all (readable file) 0 w, kept-zero (readable file)),
      rw whole (repaired-encoded (readable file) w front_bytes),
    )

-- The records that lie wholly in the first n bytes.
unfoldable pub fitting : ℕ → List Record → List Record
fitting n [] = []
fitting n (r ∷ rs) =
    let rest = fitting (n - length (encode r)) rs in
    if leb (length (encode r)) n then r ∷ rest else []

-- A file that is shorter than the record it begins with yields no record.
not-got :
    (r r' : Record) (n : ℕ) (after rest : Bytes)
    → IsWellFormed r
    → All IsByte (encode r ++ after)
    → n < length (encode r)
    → read_record (take n (encode r ++ after)) ≡ got r' rest
    → ⊥
not-got r r' n after rest w bytes cut e =
    let file = encode r ++ after in
    let (w', split) = read_record_sound (take n file) r' rest (All-take IsByte n file bytes) e in
    let more = drop n file in
    let whole : file ≡ encode r' ++ (rest ++ more) =
      sym (take-append-drop n file)
      ∙ ap (λ t. t ++ more) split
      ∙ append_assoc (encode r') rest more in
    let same : got r after ≡ got r' (rest ++ more) =
      sym (read_record-encode r after w)
      ∙ ap read_record whole
      ∙ read_record-encode r' (rest ++ more) w' in
    let same_record : r ≡ r' = ground arith in
    omega (
      arith,
      ap length split,
      length-append (encode r') rest,
      length-take n file,
      ap (λ x. length (encode x)) same_record,
    )

scan-cut :
    (fuel : ℕ) (rs : List Record) (n : ℕ)
    → All IsWellFormed rs
    → All IsByte (encode_all rs)
    → length (take n (encode_all rs)) < fuel
    → (scan fuel (take n (encode_all rs))).0 ≡ fitting n rs
unfolding encode_all fitting
scan-cut zero rs n w bytes h = absurd (omega arith)
scan-cut (suc fuel) [] n w bytes h = rw (take-nil {A = ℕ} n, scan-done fuel [] read_record-empty)
scan-cut (suc fuel) (r ∷ rs) n (w, ws) bytes h = elim (Bool-cases (leb (length (encode r)) n)) [
  | inl fits ↦
      let cut = take-append n (encode r) (encode_all rs) (leb→le (length (encode r)) n fits) in
      let after = take (n - length (encode r)) (encode_all rs) in
      rw
        (
          cut,
          scan-got fuel (encode r ++ after) r after (read_record-encode r after w),
          fitting,
          fits,
        )
        (ap (λ t. r ∷ t)
          (scan-cut fuel rs (n - length (encode r)) ws
            (All-right IsByte (encode r) (encode_all rs) bytes)
            (omega (arith, ap length cut, length-append (encode r) after, length-encode r))))
  | inr over ↦ elim (Round-cases (read_record (take n (encode r ++ encode_all rs)))) [
    | inl p ↦ rw (scan-done fuel _ p, over, fitting)
    | inr (inl (e, rest, p)) ↦ rw (scan-bad fuel _ e rest p, over, fitting)
    | inr (inr (r', rest, p)) ↦
        absurd (not-got r r' n (encode_all rs) rest w bytes (ground arith) p)
  ]
]

-- A segment of well-formed records that a crash cuts at any byte is opened again with the records
-- that lie wholly in front of the cut, and with no others.
pub crash_repair :
    (rs : List Record) (n : ℕ)
    → All IsWellFormed rs
    → All IsByte (encode_all rs)
    → read_all_records (repaired (take n (encode_all rs))) ≡ ok (fitting n rs)
crash_repair rs n w bytes =
    let file = take n (encode_all rs) in
    (repaired_lem file (All-take IsByte n (encode_all rs) bytes)).1
    ∙ ap ok (scan-cut (suc (length file)) rs n w bytes (omega arith))
