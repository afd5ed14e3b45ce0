-- ===== src/Wal/Reader/Whole.antt =====
-- Whole segments: what a `SegmentWriter` writes, an iterator reads.
use selfstack.Prelude.{
  ℕ, zero, suc, ◌≤◌, ◌<◌, ◌≡◌, refl, sym, ap, ◌∙◌, List, [], ◌∷◌, ◌++◌, length, true, none, ok, All,
  arith, length-append, All-right, subst, inl, inr, append_assoc, append-nil, eq→==, leb,
  if◌then◌else◌,
}
use selfstack.Bytes.{Bytes, IsByte}
use selfstack.Bytes.Checksum.{run, update, update-append}
use selfstack.Wal.Record.{Record, IsWellFormed, encode}
use selfstack.Wal.Record.RoundTrip.{length-encode}
use selfstack.Wal.Reader.{
  done, read_full, after_header, read_record, read_records_from_lsn, SegmentWriter,
  new_segment_writer, write, write_all, finalize, calculate_segment_checksum,
  verify_segment_checksum,
}
use selfstack.Wal.Reader.Step.{read_record-encode}
use selfstack.Wal.Reader.Sound.{read_record_sound}
use selfstack.Wal.Reader.Scan.{
  scan, kept, scan-done, scan-got, scan-bad, Round-cases, read_records_from_lsn-scan,
}

-- The records of a segment, one behind the other.
unfoldable pub encode_all : List Record → Bytes
encode_all [] = []
encode_all (r ∷ rs) = encode r ++ encode_all rs

pub length-encode_all : (rs : List Record) → length rs ≤ length (encode_all rs)
unfolding encode_all
length-encode_all [] = omega arith
length-encode_all (r ∷ rs) =
    omega (arith, length-append (encode r) (encode_all rs), length-encode r, length-encode_all rs)

pub read_record-empty : read_record [] ≡ done
unfolding read_record read_full after_header
read_record-empty = refl

pub scan-encode_all :
    (rs : List Record) (fuel : ℕ)
    → All IsWellFormed rs
    → length rs < fuel
    → scan fuel (encode_all rs) ≡ (rs, none)
unfolding encode_all
scan-encode_all rs zero w h = absurd (omega arith)
scan-encode_all [] (suc fuel) w h = scan-done fuel [] read_record-empty
scan-encode_all (r ∷ rs) (suc fuel) (w, ws) h =
    scan-got fuel (encode r ++ encode_all rs) r (encode_all rs)
      (read_record-encode r (encode_all rs) w)
    ∙ ap (λ t. (r ∷ t.0, t.1)) (scan-encode_all rs fuel ws (omega arith))

pub read_records_from_lsn-encode_all :
    (rs : List Record) (from_lsn : ℕ)
    → All IsWellFormed rs
    → read_records_from_lsn (encode_all rs) from_lsn ≡ ok (kept from_lsn rs)
read_records_from_lsn-encode_all rs from_lsn w = rw (
  read_records_from_lsn-scan (encode_all rs) from_lsn (suc (length (encode_all rs))) (omega arith),
  scan-encode_all rs (suc (length (encode_all rs))) w (omega (arith, length-encode_all rs)),
)

-- What a writer has written: its bytes, their number and their checksum.
pub record Tracks (sw : SegmentWriter) : Type 0 where
  pub offset : sw.offset ≡ length sw.file
  pub checksum : sw.checksum ≡ calculate_segment_checksum sw.file

Tracks-new : Tracks new_segment_writer
unfolding calculate_segment_checksum update run
Tracks-new = record { offset = refl; checksum = refl }

Tracks-write : (sw : SegmentWriter) (r : Record) → Tracks sw → Tracks (write sw r)
unfolding write calculate_segment_checksum
Tracks-write sw r t = record {
  offset = omega (arith, length-append sw.file (encode r), t.offset);
  checksum =
      ap (λ c. update c (encode r)) t.checksum
      ∙ sym (update-append 0 sw.file (encode r) (omega arith));
}

pub Tracks-write_all :
    (sw : SegmentWriter) (rs : List Record) → Tracks sw → Tracks (write_all sw rs)
unfolding write_all
Tracks-write_all sw [] t = t
Tracks-write_all sw (r ∷ rs) t = Tracks-write_all (write sw r) rs (Tracks-write sw r t)

pub file-write_all :
    (sw : SegmentWriter) (rs : List Record) → (write_all sw rs).file ≡ sw.file ++ encode_all rs
unfolding write_all encode_all write
file-write_all sw [] = sym (append-nil sw.file)
file-write_all sw (r ∷ rs) =
    file-write_all (write sw r) rs ∙ append_assoc sw.file (encode r) (encode_all rs)

-- The records whose LSN is from_lsn or higher.
abbrev pub from_lsn_on : ℕ → List Record → List Record
from_lsn_on from_lsn [] = []
from_lsn_on from_lsn (r ∷ rs) =
    let rest = from_lsn_on from_lsn rs in if leb from_lsn r.lsn then r ∷ rest else rest

kept-from_lsn_on : (from_lsn : ℕ) (rs : List Record) → kept from_lsn rs ≡ from_lsn_on from_lsn rs
unfolding kept
kept-from_lsn_on from_lsn [] = refl
kept-from_lsn_on from_lsn (r ∷ rs) = ground (arith, kept-from_lsn_on from_lsn rs)

-- A segment that a `SegmentWriter` wrote from well-formed records has the checksum that `Finalize`
-- gives and the length that `Offset` gives, and reading it from any LSN on returns, without an
-- error, exactly the records written whose LSN is that or higher, in order.
pub write_all-read :
    (rs : List Record) (from_lsn : ℕ)
    → All IsWellFormed rs
    → (read_records_from_lsn (write_all new_segment_writer rs).file from_lsn
        ≡ ok (from_lsn_on from_lsn rs))
      × (verify_segment_checksum
            (write_all new_segment_writer rs).file
            (finalize (write_all new_segment_writer rs))
          ≡ true)
      × ((write_all new_segment_writer rs).offset ≡ length (write_all new_segment_writer rs).file)
unfolding finalize verify_segment_checksum
write_all-read rs from_lsn w =
    let t = Tracks-write_all new_segment_writer rs Tracks-new in
    (
      rw file-write_all
          (read_records_from_lsn-encode_all rs from_lsn w ∙ ap ok (kept-from_lsn_on from_lsn rs)),
      eq→== _ _ (sym t.checksum),
      t.offset,
    )

-- Every segment is made up of the records that a scan reads and of what it stops at.
pub scan_sound :
    (fuel : ℕ) (file : Bytes)
    → All IsByte file
    → (rest : Bytes) × (file ≡ encode_all (scan fuel file).0 ++ rest)
      × All IsWellFormed (scan fuel file).0
unfolding encode_all
scan_sound zero file bytes = unfold scan in (file, refl, tt)
scan_sound (suc fuel) file bytes = elim (Round-cases (read_record file)) [
  | inl p ↦ rw (scan-done fuel file p) (file, refl, tt)
  | inr (inl (e, left, p)) ↦ rw (scan-bad fuel file e left p) (file, refl, tt)
  | inr (inr (r, left, p)) ↦
      let (w, split) = read_record_sound file r left bytes p in
      let (rest, split', ws) =
        scan_sound fuel left (All-right IsByte (encode r) left (subst (All IsByte) split bytes)) in
      rw (scan-got fuel file r left p) (
        rest,
        split
            ∙ ap (λ t. encode r ++ t) split'
            ∙ sym (append_assoc (encode r) (encode_all (scan fuel left).0) rest),
        (w, ws),
      )
]
