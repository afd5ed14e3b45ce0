-- ===== src/Wal/Tail.antt =====
-- internal/scope/db/wal/writer.go: what `openSegment` does to a segment that is there already. It
-- scans the file for the end of its last valid record and truncates it there.
pub mod Agree
pub mod Repair
use selfstack.Prelude.{
  ℕ, zero, suc, ◌+◌, ◌≤◌, ◌<◌, List, [], ◌∷◌, length, take, drop, Bool, true, false, not, Option,
  none, some, ltb, leb, ◌==◌, if◌then◌else◌,
}
use selfstack.Bytes.{Bytes, uint, slice}
use selfstack.Bytes.Checksum.{checksum_ieee}
use selfstack.Wal.Record.{magic_bytes, header_size, max_payload_size}
use selfstack.Wal.Reader.{ReadFull, full, at_end, cut_short, read_full}

-- The payload and its checksum, read at once: the payload's length and the rest of the file.
unfoldable pub valid_body : ℕ → ReadFull → Option (ℕ × Bytes)
valid_body payload_len at_end = none
valid_body payload_len cut_short = none
valid_body payload_len (full payload_and_crc rest) =
    if uint (drop payload_len payload_and_crc) == checksum_ieee (take payload_len payload_and_crc)
    then some (payload_len, rest)
    else none

unfoldable pub valid_header : ReadFull → Option (ℕ × Bytes)
valid_header at_end = none
valid_header cut_short = none
valid_header (full header rest) =
    let payload_len = uint (slice 16 4 header) in
    if not (uint (slice 0 4 header) == magic_bytes)
    then none
    else if ltb max_payload_size payload_len
    then none
    else if not (uint (slice 20 4 header) == checksum_ieee (take 20 header))
    then none
    else valid_body payload_len (read_full (payload_len + 4) rest)

-- One round of the loop in `findLastValidOffset`: `none` is a `break`.
unfoldable pub valid_record : Bytes → Option (ℕ × Bytes)
valid_record file = valid_header (read_full header_size file)

-- `lastValidOffset` and `offset` are equal at the end of each round. A round reads a header at
-- least, so that there are not more rounds than bytes.
unfoldable pub find_loop : ℕ → Bytes → ℕ → ℕ
find_loop zero file offset = offset
find_loop (suc fuel) file offset = elim (valid_record file) [
  | none ↦ offset
  | some (payload_len, rest) ↦ find_loop fuel rest (offset + header_size + payload_len + 4)
]

unfoldable pub find_last_valid_offset : Bytes → ℕ
find_last_valid_offset file = find_loop (suc (length file)) file 0

-- The content that `openSegment` leaves: an empty file is not scanned.
unfoldable pub repaired : Bytes → Bytes
repaired file =
    let valid_offset = find_last_valid_offset file in
    if ltb 0 (length file)
    then (if ltb valid_offset (length file) then take valid_offset file else file)
    else file
