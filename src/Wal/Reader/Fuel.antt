-- ===== src/Wal/Reader/Fuel.antt =====
-- A scan with enough fuel does not run out of it.
use selfstack.Prelude.{
  ℕ, zero, suc, ◌<◌, ◌≢◌, sym, ap, ◌∙◌, [], length, some, out_of_fuel, arith, inl, inr,
  if◌then◌else◌, ltb,
}
use selfstack.Bytes.{Bytes}
use selfstack.Wal.Record.{Record, header_size, parse_header}
use selfstack.Wal.Reader.{
  ReadFull, full, at_end, cut_short, read_full, after_crc, after_payload, after_header, bad,
  read_record,
}
use selfstack.Wal.Reader.Sound.{read_record-shorter}
use selfstack.Wal.Reader.Scan.{scan, scan-done, scan-bad, scan-got, Round-cases}

after_crc-error :
    (rec : Record) (payload : Bytes) (f : ReadFull) (rest : Bytes)
    → after_crc rec payload f ≢ bad out_of_fuel rest
unfolding after_crc
after_crc-error rec payload at_end rest e = cc
after_crc-error rec payload cut_short rest e = cc
after_crc-error rec payload (full buf left) rest e = ground arith

after_payload-error :
    (rec : Record) (f : ReadFull) (rest : Bytes) → after_payload rec f ≢ bad out_of_fuel rest
unfolding after_payload
after_payload-error rec at_end rest e = cc
after_payload-error rec cut_short rest e = cc
after_payload-error rec (full payload left) rest e =
    after_crc-error rec payload (read_full 4 left) rest e

after_header-error : (f : ReadFull) (rest : Bytes) → after_header f ≢ bad out_of_fuel rest
unfolding after_header
after_header-error at_end rest e = cc
after_header-error cut_short rest e = cc
after_header-error (full header left) rest e = ground (
  arith,
  after_payload-error (parse_header header)
      (if ltb 0 (parse_header header).payload_len
        then read_full (parse_header header).payload_len left
        else full [] left)
      rest,
)

read_record-error : (file rest : Bytes) → read_record file ≢ bad out_of_fuel rest
unfolding read_record
read_record-error file rest = after_header-error (read_full header_size file) rest

-- A scan with enough fuel never runs out of it.
pub scan-ne-out_of_fuel :
    (fuel : ℕ) (file : Bytes) → length file < fuel → (scan fuel file).1 ≢ some out_of_fuel
scan-ne-out_of_fuel zero file h e = absurd (omega arith)
scan-ne-out_of_fuel (suc fuel) file h e = elim (Round-cases (read_record file)) [
  | inl p ↦ cc (scan-done fuel file p)
  | inr (inl (x, rest, p)) ↦
      read_record-error file rest
        (p ∙ ap (λ y. bad y rest) (ground (arith, scan-bad fuel file x rest p)))
  | inr (inr (r, rest, p)) ↦
      scan-ne-out_of_fuel fuel rest (omega (arith, read_record-shorter file r rest p))
        (sym (ap (λ t. t.1) (scan-got fuel file r rest p)) ∙ e)
]
