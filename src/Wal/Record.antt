-- ===== src/Wal/Record.antt =====
-- internal/scope/db/wal/record.go: the binary format of a log record.
pub mod RoundTrip
pub mod Header
use selfstack.Prelude.{
  ℕ, ◌+◌, ◌*◌, ◌%◌, ◌^◌, ◌≤◌, ◌<◌, ◌≡◌, List, [], ◌∷◌, ◌++◌, Result, ok, err, ◌>>=◌, ◌>>◌, guard,
  length, take, drop, get_or, All, ltb, leb, ◌==◌, if◌then◌else◌, payload_too_large,
  header_too_short, invalid_magic, header_crc_mismatch, payload_too_short, payload_crc_mismatch,
  slice_bounds,
}
use selfstack.Bytes.{Bytes, IsByte, put_uint, uint, slice}
use selfstack.Bytes.Checksum.{checksum_ieee}

abbrev pub magic_bytes : ℕ
magic_bytes = 0x57414C52

abbrev pub header_size : ℕ
header_size = 24

-- Go's 10 * 1024 * 1024
abbrev pub max_payload_size : ℕ
max_payload_size = 10_485_760

-- `RecordType` is a uint8: every byte is a value of the type, and these four have names.
abbrev pub record_type_insert : ℕ
record_type_insert = 0x01

abbrev pub record_type_update : ℕ
record_type_update = 0x02

abbrev pub record_type_delete : ℕ
record_type_delete = 0x03

abbrev pub record_type_checkpoint : ℕ
record_type_checkpoint = 0x04

abbrev pub flag_none : ℕ
flag_none = 0x00

pub record Record : Type 0 where
  pub magic : ℕ
  pub type : ℕ
  pub flags : ℕ
  pub reserved : ℕ
  pub lsn : ℕ
  pub payload_len : ℕ
  pub header_crc : ℕ
  pub payload : Bytes
  pub payload_crc : ℕ

-- The header's bytes [0:20], which `calculateHeaderCRC` and `Encode` both write.
unfoldable pub header_fields : Record → Bytes
header_fields r =
    put_uint 4 r.magic
    ++ (r.type
        ∷ r.flags
        ∷ (put_uint 2 r.reserved ++ (put_uint 8 r.lsn ++ put_uint 4 r.payload_len)))

unfoldable pub calculate_header_crc : Record → ℕ
calculate_header_crc r = checksum_ieee (header_fields r)

-- `uint32(len(payload))` wraps; the test above it keeps it from doing so.
unfoldable pub new_record : ℕ → ℕ → Bytes → Result Record
new_record type lsn payload =
    let blank : Record = record {
      magic = magic_bytes;
      type = type;
      flags = flag_none;
      reserved = 0;
      lsn = lsn;
      payload_len = length payload % 2 ^ 32;
      header_crc = 0;
      payload = payload;
      payload_crc = 0;
    } in
    if ltb max_payload_size (length payload)
    then err payload_too_large
    else ok (record blank {
      header_crc = calculate_header_crc blank;
      payload_crc = checksum_ieee payload;
    })

unfoldable pub encode : Record → Bytes
encode r = header_fields r ++ (put_uint 4 r.header_crc ++ (r.payload ++ put_uint 4 r.payload_crc))

-- The header's fields out of its 24 bytes; the payload is read later.
unfoldable pub parse_header : Bytes → Record
parse_header bytes = record {
  magic = uint (slice 0 4 bytes);
  type = get_or bytes 4 0;
  flags = get_or bytes 5 0;
  reserved = uint (slice 6 2 bytes);
  lsn = uint (slice 8 8 bytes);
  payload_len = uint (slice 16 4 bytes);
  header_crc = uint (slice 20 4 bytes);
  payload = [];
  payload_crc = 0;
}

-- `HeaderSize+rec.PayloadLen` is an addition of uint32s, and a slice whose bounds are crossed panics.
unfoldable pub decode_record : Bytes → Result Record
decode_record bytes = do
  guard (leb header_size (length bytes)) header_too_short
  let rec = parse_header bytes
  guard (rec.magic == magic_bytes) invalid_magic
  guard (rec.header_crc == calculate_header_crc rec) header_crc_mismatch
  let total_len = header_size + rec.payload_len + 4
  guard (leb total_len (length bytes)) payload_too_short
  let end = (header_size + rec.payload_len) % 2 ^ 32
  guard (leb header_size end) slice_bounds
  let payload = take rec.payload_len (drop header_size bytes)
  let payload_crc = uint (take 4 (drop end bytes))
  guard (payload_crc == checksum_ieee payload) payload_crc_mismatch
  ok (record rec { payload = payload; payload_crc = payload_crc })

unfoldable pub total_size : Record → ℕ
total_size r = header_size + r.payload_len + 4

unfoldable pub verify_checksums : Record → Result (Unit {0})
verify_checksums r = do
  guard (r.header_crc == calculate_header_crc r) header_crc_mismatch
  guard (r.payload_crc == checksum_ieee r.payload) payload_crc_mismatch
  ok tt

-- What `NewRecord` builds and `DecodeRecord` accepts: every field in its width, and the lengths
-- and checksums those of the content.
pub record IsWellFormed (r : Record) : Type 0 where
  pub magic : r.magic ≡ magic_bytes
  pub type : r.type < 256
  pub flags : r.flags < 256
  pub reserved : r.reserved < 2 ^ 16
  pub lsn : r.lsn < 2 ^ 64
  pub payload_len : r.payload_len ≡ length r.payload
  pub payload_fits : length r.payload ≤ max_payload_size
  pub header_crc : r.header_crc ≡ calculate_header_crc r
  pub payload_crc : r.payload_crc ≡ checksum_ieee r.payload
