-- ===== src/Wal/Reader/Step.antt =====
-- One round of the iterator: what it reads of an encoded record, and that a record which it reads
-- was there, encoded, in front of what is left.
use selfstack.Prelude.{
  ℕ, ◌≡◌, sym, [], ◌∷◌, ◌++◌, length, take, ltb, if◌then◌else◌, arith, length-append, le→leb, eq→==,
  ge→ltb, append_assoc, append-nil, lt→ltb, take-length_append, drop-length_append,
}
use selfstack.Bytes.{Bytes, put_uint}
use selfstack.Bytes.LittleEndian.{length-put_uint, uint-put_uint}
use selfstack.Bytes.Checksum.{checksum_ieee}
use selfstack.Wal.Record.{
  Record, IsWellFormed, header_fields, calculate_header_crc, encode, parse_header, magic_bytes,
  max_payload_size,
}
use selfstack.Wal.Record.RoundTrip
use selfstack.Wal.Reader.{got, full, read_full, after_crc, after_payload, after_header, read_record}

pub read_full-append :
    (n : ℕ) (front rest : Bytes) → length front ≡ n → read_full n (front ++ rest) ≡ full front rest
unfolding read_full
read_full-append n front rest e = rw (
  ← e,
  le→leb (length front) (length (front ++ rest)) (omega (arith, length-append front rest)),
  take-length_append front rest,
  drop-length_append front rest,
)

-- The header of an encoded record.
abbrev header_of : Record → Bytes
header_of r = header_fields r ++ put_uint 4 r.header_crc

length-header_of : (r : Record) → length (header_of r) ≡ 24
length-header_of r = omega (
  arith,
  length-append (header_fields r) (put_uint 4 r.header_crc),
  RoundTrip.length-header_fields r,
  length-put_uint 4 r.header_crc,
)

parse_header-header_of :
    (r : Record)
    → IsWellFormed r
    → parse_header (header_of r) ≡ record r { payload = []; payload_crc = 0 }
parse_header-header_of r w = rw append-nil at (RoundTrip.parse_header-header_fields r [] w)

take-header_of : (r : Record) → take 20 (header_of r) ≡ header_fields r
take-header_of r =
    rw (← RoundTrip.length-header_fields r)
      (take-length_append (header_fields r) (put_uint 4 r.header_crc))

-- The stages of a round on the parts of an encoded record, last first.
after_crc-encoded :
    (r : Record) (rest : Bytes)
    → IsWellFormed r
    → after_crc
        (record r { payload = []; payload_crc = 0 })
        r.payload
        (full (put_uint 4 r.payload_crc) rest)
      ≡ got r rest
unfolding after_crc
after_crc-encoded r rest w = rw (
  uint-put_uint 4 r.payload_crc (RoundTrip.payload_crc-lt w),
  eq→== r.payload_crc (checksum_ieee r.payload) w.payload_crc,
)

after_payload-encoded :
    (r : Record) (rest : Bytes)
    → IsWellFormed r
    → after_payload
        (record r { payload = []; payload_crc = 0 })
        (full r.payload (put_uint 4 r.payload_crc ++ rest))
      ≡ got r rest
unfolding after_payload
after_payload-encoded r rest w =
    rw (read_full-append 4 (put_uint 4 r.payload_crc) rest (length-put_uint 4 r.payload_crc))
      (after_crc-encoded r rest w)

-- `if payloadLen > 0` spares an empty read, which would give the same.
read-payload :
    (n : ℕ) (front rest : Bytes)
    → n ≡ length front
    → (if ltb 0 n then read_full n (front ++ rest) else full [] (front ++ rest)) ≡ full front rest
read-payload n [] rest e = rw e
read-payload n (x ∷ xs) rest e =
    rw (lt→ltb 0 n (omega arith)) (read_full-append n (x ∷ xs) rest (sym e))

after_header-encoded :
    (r : Record) (rest : Bytes)
    → IsWellFormed r
    → after_header (full (header_of r) (r.payload ++ (put_uint 4 r.payload_crc ++ rest)))
      ≡ got r rest
unfolding after_header calculate_header_crc
after_header-encoded r rest w =
    rw
      (
        parse_header-header_of r w,
        eq→== r.magic magic_bytes w.magic,
        take-header_of r,
        eq→== r.header_crc (checksum_ieee (header_fields r)) w.header_crc,
        ge→ltb max_payload_size r.payload_len (omega arith),
        read-payload r.payload_len r.payload (put_uint 4 r.payload_crc ++ rest) w.payload_len,
      )
      (after_payload-encoded r rest w)

-- `Next` reads the record that `Encode` wrote, and leaves what follows it.
pub read_record-encode :
    (r : Record) (rest : Bytes) → IsWellFormed r → read_record (encode r ++ rest) ≡ got r rest
unfolding read_record
read_record-encode r rest w =
    let tail = r.payload ++ (put_uint 4 r.payload_crc ++ rest) in
    rw
      (
        RoundTrip.encode-regroup r rest,
        ← append_assoc (header_fields r) (put_uint 4 r.header_crc) tail,
        read_full-append 24 (header_of r) tail (length-header_of r),
      )
      (after_header-encoded r rest w)
