-- ===== src/Wal/Record/RoundTrip.antt =====
-- A record that is encoded and decoded again.
use selfstack.Prelude.{
  ℕ, ◌+◌, ◌%◌, ◌^◌, ◌<◌, ◌≡◌, refl, [], ◌++◌, ok, length, take, drop, arith, length-append, le→leb,
  eq→==, append_assoc, take-length_append, drop-length_append, drop-split,
}
use selfstack.Bytes.{Bytes, put_uint, uint}
use selfstack.Bytes.LittleEndian.{length-put_uint, uint-put_uint, take-put_uint}
use selfstack.Bytes.Checksum.{checksum_ieee, checksum_ieee-lt}
use selfstack.Wal.Record.{
  Record, IsWellFormed, header_fields, calculate_header_crc, new_record, encode, parse_header,
  decode_record, header_size, magic_bytes,
}

pub new_record-IsWellFormed :
    (type lsn : ℕ) (payload : Bytes) {r : Record}
    → type < 256
    → lsn < 2 ^ 64
    → new_record type lsn payload ≡ ok r
    → IsWellFormed r
unfolding new_record calculate_header_crc header_fields
new_record-IsWellFormed type lsn payload ht hl e = ground arith

pub calculate_header_crc-lt : (r : Record) → calculate_header_crc r < 2 ^ 32
unfolding calculate_header_crc
calculate_header_crc-lt r = checksum_ieee-lt (header_fields r)

pub header_crc-lt : {r : Record} → IsWellFormed r → r.header_crc < 2 ^ 32
header_crc-lt {r} w = omega (arith, calculate_header_crc-lt r)

pub payload_crc-lt : {r : Record} → IsWellFormed r → r.payload_crc < 2 ^ 32
payload_crc-lt {r} w = omega (arith, checksum_ieee-lt r.payload)

-- The header that `Encode` writes, whatever follows, is read back field by field.
pub parse_header-header_fields :
    (r : Record) (rest : Bytes)
    → IsWellFormed r
    → parse_header (header_fields r ++ (put_uint 4 r.header_crc ++ rest))
      ≡ record r { payload = []; payload_crc = 0 }
unfolding parse_header header_fields put_uint uint
parse_header-header_fields r rest w = λ i. record {
  magic = uint-put_uint 4 r.magic (omega arith) i;
  type = r.type;
  flags = r.flags;
  reserved = uint-put_uint 2 r.reserved (omega arith) i;
  lsn = uint-put_uint 8 r.lsn (omega arith) i;
  payload_len = uint-put_uint 4 r.payload_len (omega arith) i;
  header_crc = uint-put_uint 4 r.header_crc (header_crc-lt w) i;
  payload = [];
  payload_crc = 0;
}

-- The header CRC covers the twenty bytes of fields and nothing behind them.
pub calculate_header_crc-same :
    (r : Record) (payload : Bytes) (crc : ℕ)
    → calculate_header_crc (record r { payload = payload; payload_crc = crc })
      ≡ calculate_header_crc r
unfolding calculate_header_crc header_fields
calculate_header_crc-same r payload crc = refl

pub length-header_fields : (r : Record) → length (header_fields r) ≡ 20
unfolding header_fields put_uint
length-header_fields r = refl

pub length-encode : (r : Record) → length (encode r) ≡ 28 + length r.payload
unfolding encode
length-encode r = omega (
  arith,
  length-append (header_fields r)
      (put_uint 4 r.header_crc ++ (r.payload ++ put_uint 4 r.payload_crc)),
  length-append (put_uint 4 r.header_crc) (r.payload ++ put_uint 4 r.payload_crc),
  length-append r.payload (put_uint 4 r.payload_crc),
  length-header_fields r,
  length-put_uint 4 r.header_crc,
  length-put_uint 4 r.payload_crc,
)

-- What follows the header.
pub drop-header :
    (r : Record) (rest : Bytes)
    → drop 24 (encode r ++ rest) ≡ r.payload ++ (put_uint 4 r.payload_crc ++ rest)
unfolding encode header_fields put_uint
drop-header r rest = append_assoc r.payload (put_uint 4 r.payload_crc) rest

pub encode-regroup :
    (r : Record) (rest : Bytes)
    → encode r ++ rest
      ≡ header_fields r
        ++ (put_uint 4 r.header_crc ++ (r.payload ++ (put_uint 4 r.payload_crc ++ rest)))
unfolding encode
encode-regroup r rest = simp append_assoc

pub parse_header-encode :
    (r : Record) (rest : Bytes)
    → IsWellFormed r
    → parse_header (encode r ++ rest) ≡ record r { payload = []; payload_crc = 0 }
parse_header-encode r rest w = rw encode-regroup (parse_header-header_fields r _ w)

-- The payload and its checksum, where the reader cuts them.
pub payload-encode :
    (r : Record) (rest : Bytes)
    → IsWellFormed r
    → take r.payload_len (drop header_size (encode r ++ rest)) ≡ r.payload
payload-encode r rest w = rw (drop-header r rest, w.payload_len) (take-length_append r.payload _)

pub payload_crc-encode :
    (r : Record) (rest : Bytes)
    → IsWellFormed r
    → uint (take 4 (drop (header_size + r.payload_len) (encode r ++ rest))) ≡ r.payload_crc
payload_crc-encode r rest w =
    rw
      (
        ← drop-split 24 r.payload_len (24 + r.payload_len) (encode r ++ rest) refl,
        drop-header r rest,
        w.payload_len,
        drop-length_append r.payload (put_uint 4 r.payload_crc ++ rest),
        take-put_uint 4 r.payload_crc rest,
      )
      (uint-put_uint 4 r.payload_crc (payload_crc-lt w))

-- `DecodeRecord` reads back a well-formed record that `Encode` wrote, whatever bytes follow it.
pub decode_record-encode :
    (r : Record) (rest : Bytes) → IsWellFormed r → decode_record (encode r ++ rest) ≡ ok r
unfolding decode_record
decode_record-encode r rest w =
    let long : length (encode r ++ rest) ≡ 28 + length r.payload + length rest =
      omega (arith, length-append (encode r) rest, length-encode r) in
    let end : (header_size + r.payload_len) % 2 ^ 32 ≡ header_size + r.payload_len = omega arith in
    rw (
      parse_header-encode r rest w,
      le→leb 24 (length (encode r ++ rest)) (omega arith),
      eq→== r.magic magic_bytes w.magic,
      calculate_header_crc-same r [] 0,
      eq→== r.header_crc (calculate_header_crc r) w.header_crc,
      le→leb (header_size + r.payload_len + 4) (length (encode r ++ rest)) (omega arith),
      end,
      le→leb 24 (header_size + r.payload_len) (omega arith),
      payload-encode r rest w,
      payload_crc-encode r rest w,
      eq→== r.payload_crc (checksum_ieee r.payload) w.payload_crc,
    )
