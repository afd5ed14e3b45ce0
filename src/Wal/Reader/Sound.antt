-- ===== src/Wal/Reader/Sound.antt =====
-- A record that the iterator reads was there: the file begins with its encoding.
use selfstack.Prelude.{
  ℕ, ◌+◌, ◌≤◌, ◌≡◌, refl, sym, ap, length-append, subst, All-left, All-right, ◌∙◌, [], ◌++◌, length,
  take, All, ltb, if◌then◌else◌, arith, append_assoc, take-append-drop, length-take,
}
use selfstack.Bytes.{Bytes, IsByte, put_uint, uint}
use selfstack.Bytes.LittleEndian.{put_uint-uint}
use selfstack.Bytes.Checksum.{checksum_ieee}
use selfstack.Wal.Record.{
  Record, IsWellFormed, header_fields, calculate_header_crc, encode, parse_header, magic_bytes,
  header_size, max_payload_size,
}
use selfstack.Wal.Record.RoundTrip
use selfstack.Wal.Record.Header
use selfstack.Wal.Reader.{
  got, ReadFull, full, at_end, cut_short, read_full, after_crc, after_payload, after_header,
  read_record,
}

-- Inversion of a read, and of each stage.
read_full-inv :
    (n : ℕ) (file front rest : Bytes)
    → read_full n file ≡ full front rest
    → (length front ≡ n) × (file ≡ front ++ rest)
unfolding read_full
read_full-inv n file front rest e = ground (arith, take-append-drop n file, length-take n file)

after_crc-inv :
    (rec : Record) (payload : Bytes) (f : ReadFull) (r : Record) (rest : Bytes)
    → after_crc rec payload f ≡ got r rest
    → (buf : Bytes) × (f ≡ full buf rest)
      × (uint buf ≡ checksum_ieee payload)
      × (r ≡ record rec { payload = payload; payload_crc = uint buf })
unfolding after_crc
after_crc-inv rec payload at_end r rest e = cc
after_crc-inv rec payload cut_short r rest e = cc
after_crc-inv rec payload (full buf left) r rest e = (buf, ground arith, ground arith, ground arith)

after_payload-inv :
    (rec : Record) (f : ReadFull) (r : Record) (rest : Bytes)
    → after_payload rec f ≡ got r rest
    → (payload left buf : Bytes) × (f ≡ full payload left)
      × (read_full 4 left ≡ full buf rest)
      × (uint buf ≡ checksum_ieee payload)
      × (r ≡ record rec { payload = payload; payload_crc = uint buf })
unfolding after_payload
after_payload-inv rec at_end r rest e = cc
after_payload-inv rec cut_short r rest e = cc
after_payload-inv rec (full payload left) r rest e =
    let (buf, read, crc, same) = after_crc-inv rec payload (read_full 4 left) r rest e in
    (payload, left, buf, refl, read, crc, same)

-- The tests of a round that goes on to the payload.
after_header-inv :
    (f : ReadFull) (r : Record) (rest : Bytes)
    → after_header f ≡ got r rest
    → (header left : Bytes) × (f ≡ full header left)
      × ((parse_header header).magic ≡ magic_bytes)
      × ((parse_header header).header_crc ≡ checksum_ieee (take 20 header))
      × ((parse_header header).payload_len ≤ max_payload_size)
      × (after_payload (parse_header header) (
            if ltb 0 (parse_header header).payload_len
            then read_full (parse_header header).payload_len left
            else full [] left)
          ≡ got r rest)
unfolding after_header
after_header-inv at_end r rest e = cc
after_header-inv cut_short r rest e = cc
after_header-inv (full header left) r rest e =
    (header, left, refl, ground arith, ground arith, ground arith, ground arith)

payload-inv :
    (n : ℕ) (file payload left : Bytes)
    → (if ltb 0 n then read_full n file else full [] file) ≡ full payload left
    → (length payload ≡ n) × (file ≡ payload ++ left)
payload-inv n file payload left e = ground (arith, read_full-inv n file payload left)

-- The parts that the stages leave make up a well-formed record and its encoding.
module _ (header payload buf : Bytes) (header_bytes : All IsByte header)
    (buf_bytes : All IsByte buf) (header_long : length header ≡ 24) (buf_long : length buf ≡ 4)
    (payload_long : length payload ≡ (parse_header header).payload_len)
    (magic : (parse_header header).magic ≡ magic_bytes)
    (header_crc : (parse_header header).header_crc ≡ checksum_ieee (take 20 header))
    (fits : (parse_header header).payload_len ≤ max_payload_size)
    (payload_crc : uint buf ≡ checksum_ieee payload) where
  abbrev read : Record
  read = record (parse_header header) { payload = payload; payload_crc = uint buf }

  read-IsWellFormed : IsWellFormed read
  unfolding calculate_header_crc
  read-IsWellFormed =
      let (type, flags, reserved, lsn, _) =
        Header.parse_header_bounds header header_bytes header_long in
      record {
        magic = magic;
        type = type;
        flags = flags;
        reserved = reserved;
        lsn = lsn;
        payload_len = sym payload_long;
        payload_fits = omega arith;
        header_crc =
            header_crc
            ∙ ap checksum_ieee
                (sym (Header.header_fields-parse_header header header_bytes header_long))
            ∙ sym (RoundTrip.calculate_header_crc-same (parse_header header) payload (uint buf));
        payload_crc = payload_crc;
      }

  same_fields : header_fields read ≡ header_fields (parse_header header)
  unfolding header_fields
  same_fields = refl

  encode-read : (rest : Bytes) → header ++ (payload ++ (buf ++ rest)) ≡ encode read ++ rest
  encode-read rest =
      let crc_back : put_uint 4 (uint buf) ≡ buf =
        subst (λ k. put_uint k (uint buf) ≡ buf) buf_long (put_uint-uint buf buf_bytes) in
      let head = Header.header-parse_header header header_bytes header_long in
      sym (
        RoundTrip.encode-regroup read rest
        ∙ rw (
          crc_back,
          same_fields,
          ← append_assoc (header_fields (parse_header header))
              (put_uint 4 (parse_header header).header_crc) (payload ++ (buf ++ rest)),
          head,
        ))

-- The record that a round reads from a file of bytes is well-formed, and the file began with its
-- encoding.
pub read_record_sound :
    (file : Bytes) (r : Record) (rest : Bytes)
    → All IsByte file
    → read_record file ≡ got r rest
    → IsWellFormed r × (file ≡ encode r ++ rest)
unfolding read_record
read_record_sound file r rest bytes e =
    let (header, left, read, magic, crc, fits, more) =
      after_header-inv (read_full header_size file) r rest e in
    let (payload, left', buf, read', read4, pcrc, same) =
      after_payload-inv (parse_header header) _ r rest more in
    let (hlen, hsplit) = read_full-inv 24 file header left read in
    let (plen, psplit) = payload-inv (parse_header header).payload_len left payload left' read' in
    let (clen, csplit) = read_full-inv 4 left' buf rest read4 in
    let whole : file ≡ header ++ (payload ++ (buf ++ rest)) = cc in
    let all : All IsByte (header ++ (payload ++ (buf ++ rest))) = subst (All IsByte) whole bytes in
    let hb = All-left IsByte header _ all in
    let bb =
      All-left IsByte buf rest (All-right IsByte payload _ (All-right IsByte header _ all)) in
    rw same (
      read-IsWellFormed header payload buf hb bb hlen clen plen magic crc fits pcrc,
      whole ∙ encode-read header payload buf hb bb hlen clen plen magic crc fits pcrc rest,
    )

-- A round that reads a record shortens the file, whatever is in it.
pub read_record-shorter :
    (file : Bytes) (r : Record) (rest : Bytes)
    → read_record file ≡ got r rest
    → length file ≡ length rest + (header_size + r.payload_len + 4)
unfolding read_record
read_record-shorter file r rest e =
    let (header, left, read, magic, crc, fits, more) =
      after_header-inv (read_full header_size file) r rest e in
    let (payload, left', buf, read', read4, pcrc, same) =
      after_payload-inv (parse_header header) _ r rest more in
    let (hlen, hsplit) = read_full-inv 24 file header left read in
    let (plen, psplit) = payload-inv (parse_header header).payload_len left payload left' read' in
    let (clen, csplit) = read_full-inv 4 left' buf rest read4 in
    omega (
      arith,
      ap length hsplit,
      ap length psplit,
      ap length csplit,
      length-append header left,
      length-append payload left',
      length-append buf rest,
      ap (λ x. x.payload_len) same,
    )
