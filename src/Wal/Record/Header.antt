-- ===== src/Wal/Record/Header.antt =====
-- Twenty-four bytes are a header: the fields that are read from them write them again.
use selfstack.Prelude.{
  ◌^◌, ◌<◌, ◌≡◌, refl, ◌++◌, length, take, drop, All, arith, take_all, length-drop,
  take-append-drop,
}
use selfstack.Bytes.{Bytes, IsByte, put_uint}
use selfstack.Bytes.Slices.{put_uint-slice, uint-slice_lt, slice-suc, slice-split, get_or-IsByte}
use selfstack.Wal.Record.{header_fields, parse_header}

module _ (h : Bytes) (bytes : All IsByte h) (long : length h ≡ 24) where
  -- The fields' twenty bytes.
  pub header_fields-parse_header : header_fields (parse_header h) ≡ take 20 h
  unfolding header_fields parse_header
  header_fields-parse_header = rw (
    put_uint-slice h bytes 0 4 (omega arith),
    put_uint-slice h bytes 6 2 (omega arith),
    put_uint-slice h bytes 8 8 (omega arith),
    put_uint-slice h bytes 16 4 (omega arith),
    slice-split h 0 4 16 20 4 refl refl,
    slice-suc h 4 15 (omega arith),
    slice-suc h 5 14 (omega arith),
    slice-split h 6 2 12 14 8 refl refl,
    slice-split h 8 8 4 12 16 refl refl,
  )

  pub header-parse_header :
      header_fields (parse_header h) ++ put_uint 4 (parse_header h).header_crc ≡ h
  unfolding parse_header
  header-parse_header =
      rw
        (
          header_fields-parse_header,
          put_uint-slice h bytes 20 4 (omega arith),
          take_all 4 (drop 20 h) (omega (arith, length-drop 20 h)),
        )
        (take-append-drop 20 h)

  pub parse_header_bounds :
      ((parse_header h).type < 256)
      × ((parse_header h).flags < 256)
      × ((parse_header h).reserved < 2 ^ 16)
      × ((parse_header h).lsn < 2 ^ 64)
      × ((parse_header h).payload_len < 2 ^ 32)
  unfolding parse_header
  parse_header_bounds = (
    get_or-IsByte h 4 bytes,
    get_or-IsByte h 5 bytes,
    uint-slice_lt h bytes 6 2 (omega arith),
    uint-slice_lt h bytes 8 8 (omega arith),
    uint-slice_lt h bytes 16 4 (omega arith),
  )
