-- ===== src/Wal/Reader.antt =====
-- internal/scope/db/wal/reader.go: iteration over the records of a segment file. An open file is
-- the list of the bytes that have not been read; reads that fail for other reasons than the end of
-- the file are not modelled.
pub mod Step
pub mod Sound
pub mod Scan
pub mod Fuel
pub mod Whole
pub mod Range
use selfstack.Prelude.{
  ℕ, zero, suc, ◌+◌, ◌%◌, ◌^◌, ◌≤◌, ◌<◌, ◌≡◌, List, [], ◌∷◌, ◌++◌, Result, ok, err, Error, ◌>>=◌,
  length, take, drop, Bool, true, false, not, ◌&&◌, Option, none, some, ltb, leb, ◌==◌,
  if◌then◌else◌, min, max, payload_too_large, invalid_magic, header_crc_mismatch,
  payload_crc_mismatch, unexpected_eof, eof, out_of_fuel,
}
use selfstack.Bytes.{Bytes, IsByte, uint}
use selfstack.Bytes.Checksum.{checksum_ieee, update}
use selfstack.Wal.Record.{Record, magic_bytes, header_size, max_payload_size, parse_header, encode}

-- io.ReadFull into a buffer of n bytes.
pub data ReadFull : Type 0 where
  full : Bytes → Bytes → ReadFull
  at_end cut_short : ReadFull

unfoldable pub read_full : ℕ → Bytes → ReadFull
read_full n file =
    if leb n (length file)
    then full (take n file) (drop n file)
    else if length file == 0
    then at_end
    else cut_short

-- One round of the loop in `Next`, up to the skip: the normal end, an error, or a record. The bytes
-- are those left in the file.
pub data Round : Type 0 where
  done : Round
  bad : Error → Bytes → Round
  got : Record → Bytes → Round

unfoldable pub after_crc : Record → Bytes → ReadFull → Round
after_crc rec payload at_end = bad eof []
after_crc rec payload cut_short = bad unexpected_eof []
after_crc rec payload (full buf rest) =
    if uint buf == checksum_ieee payload
    then got (record rec { payload = payload; payload_crc = uint buf }) rest
    else bad payload_crc_mismatch rest

unfoldable pub after_payload : Record → ReadFull → Round
after_payload rec at_end = bad eof []
after_payload rec cut_short = bad unexpected_eof []
after_payload rec (full payload rest) = after_crc rec payload (read_full 4 rest)

-- The test `n < HeaderSize` behind a `ReadFull` without an error never holds, and is left out; so
-- is the one on the payload.
unfoldable pub after_header : ReadFull → Round
after_header at_end = done
after_header cut_short = bad unexpected_eof []
after_header (full header rest) =
    let rec = parse_header header in
    if not (rec.magic == magic_bytes)
    then bad invalid_magic rest
    else if not (rec.header_crc == checksum_ieee (take 20 header))
    then bad header_crc_mismatch rest
    else if ltb max_payload_size rec.payload_len
    then bad payload_too_large rest
    else after_payload rec
        (if ltb 0 rec.payload_len then read_full rec.payload_len rest else full [] rest)

unfoldable pub read_record : Bytes → Round
read_record file = after_header (read_full header_size file)

pub record SegmentIterator : Type 0 where
  pub file : Bytes
  pub offset : ℕ
  pub current : Option Record
  pub error : Option Error
  pub from_lsn : ℕ

abbrev pub new_segment_iterator_from_lsn : Bytes → ℕ → SegmentIterator
new_segment_iterator_from_lsn file from_lsn = record {
  file = file;
  offset = 0;
  current = none;
  error = none;
  from_lsn = from_lsn;
}

-- it.fromLSN > 0 && lsn < it.fromLSN
abbrev pub skipped : ℕ → Record → Bool
skipped from_lsn rec = ltb 0 from_lsn && ltb rec.lsn from_lsn

-- `Next`: each round reads a header at least, so more rounds than bytes are never needed.
unfoldable pub next_loop : ℕ → SegmentIterator → Bool × SegmentIterator
next_loop zero it = (false, record it { error = some out_of_fuel })
next_loop (suc fuel) it = elim (read_record it.file) [
  | done ↦ (false, record it { file = [] })
  | bad e rest ↦ (false, record it { file = rest; error = some e })
  | got rec rest ↦
      let it' = record it {
        file = rest;
        current = some rec;
        offset = it.offset + (header_size + rec.payload_len + 4);
      } in
      let again = next_loop fuel it' in if skipped it.from_lsn rec then again else (true, it')
]

unfoldable pub next : SegmentIterator → Bool × SegmentIterator
unfolding next_loop
next it = next_loop (suc (length it.file)) it

-- for iter.Next() { records = append(records, iter.Record()) }
unfoldable pub collect : ℕ → SegmentIterator → List Record × Option Error
unfolding next
collect zero it = ([], some out_of_fuel)
collect (suc fuel) it =
    let (more, it') = next it in
    let (rest, error) = collect fuel it' in
    elim more [
      | true ↦ elim it'.current [ none ↦ (rest, error) | some rec ↦ (rec ∷ rest, error) ]
      | false ↦ ([], it'.error)
    ]

-- if err := iter.Err(); err != nil { return nil, err }
abbrev pub finish : List Record × Option Error → Result (List Record)
finish (records, none) = ok records
finish (records, some e) = err e

unfoldable pub read_records_from_lsn : Bytes → ℕ → Result (List Record)
read_records_from_lsn file from_lsn =
    finish (collect (suc (length file)) (new_segment_iterator_from_lsn file from_lsn))

unfoldable pub read_all_records : Bytes → Result (List Record)
read_all_records file = read_records_from_lsn file 0

-- `GetSegmentLSNRange`, over the records that the iterator yields.
pub record LsnRange : Type 0 where
  pub min_lsn : ℕ
  pub max_lsn : ℕ
  pub count : ℕ
  pub first : Bool

unfoldable pub widen : LsnRange → ℕ → LsnRange
widen s lsn =
    let low = if s.first then lsn else s.min_lsn in
    let high = if s.first then lsn else s.max_lsn in
    record {
      min_lsn = if ltb lsn low then lsn else low;
      max_lsn = if ltb high lsn then lsn else high;
      count = s.count + 1;
      first = false;
    }

unfoldable pub widen_all : LsnRange → List Record → LsnRange
widen_all s [] = s
widen_all s (r ∷ rs) = widen_all (widen s r.lsn) rs

-- `first` stands for the variable of that name; the function returns the other three. The records
-- are read before they are looked at, which the iterator does one by one.
unfoldable pub get_segment_lsn_range : Bytes → Result LsnRange
get_segment_lsn_range file = do
  records ← read_records_from_lsn file 0
  ok (widen_all (record { min_lsn = 0; max_lsn = 0; count = 0; first = true }) records)

-- The checksum, as the number that "%08x" prints.
unfoldable pub calculate_segment_checksum : Bytes → ℕ
calculate_segment_checksum file = update 0 file

unfoldable pub verify_segment_checksum : Bytes → ℕ → Bool
verify_segment_checksum file expected = calculate_segment_checksum file == expected

-- `SegmentWriter`: the file written so far, its length and its running checksum.
pub record SegmentWriter : Type 0 where
  pub file : Bytes
  pub offset : ℕ
  pub checksum : ℕ

abbrev pub new_segment_writer : SegmentWriter
new_segment_writer = record { file = []; offset = 0; checksum = 0 }

-- `Write`, where the file takes all the bytes.
unfoldable pub write : SegmentWriter → Record → SegmentWriter
write sw rec =
    let bytes = encode rec in
    record {
      file = sw.file ++ bytes;
      offset = sw.offset + length bytes;
      checksum = update sw.checksum bytes;
    }

unfoldable pub write_all : SegmentWriter → List Record → SegmentWriter
write_all sw [] = sw
write_all sw (r ∷ rs) = write_all (write sw r) rs

-- `Finalize`
unfoldable pub finalize : SegmentWriter → ℕ
finalize sw = sw.checksum
