-- ===== src/Wal/Tail/Agree.antt =====
-- The scan for the last valid record accepts the records that the iterator yields, and no others,
-- though it makes its tests in another order and reads payload and checksum at once.
use selfstack.Prelude.{
  ℕ, zero, suc, ◌+◌, ◌≤◌, ◌<◌, ◌≡◌, refl, [], length, take, drop, Option, none, some, ltb, leb,
  ◌==◌, if◌then◌else◌, Bool-cases, le→leb, lt→ltb, leb→le, gt→leb, inl, inr, arith, take-take,
  drop-take, drop-split, length-drop,
}
use selfstack.Bytes.{Bytes, uint, slice}
use selfstack.Wal.Record.{Record, parse_header, header_size}
use selfstack.Wal.Reader.{
  ReadFull, full, at_end, cut_short, read_full, Round, done, bad, got, after_crc, after_payload,
  after_header, read_record,
}
use selfstack.Wal.Tail.{valid_body, valid_header, valid_record}

-- What the scan keeps of a round of the iterator.
abbrev pub outcome : Round → Option (ℕ × Bytes)
outcome done = none
outcome (bad e rest) = none
outcome (got r rest) = some (r.payload_len, rest)

read_full-inside :
    (n : ℕ) (file : Bytes) → n ≤ length file → read_full n file ≡ full (take n file) (drop n file)
unfolding read_full
read_full-inside n file h = ground arith

-- A read past the end.
abbrev IsCut : ReadFull → Type 0
IsCut (full front rest) = ⊥
IsCut at_end = Unit {0}
IsCut cut_short = Unit {0}

read_full-outside : (n : ℕ) (file : Bytes) → length file < n → IsCut (read_full n file)
unfolding read_full
read_full-outside n file h =
    rw (gt→leb n (length file) h)
      (elim (Bool-cases (length file == 0)) [ inl e ↦ rw e tt | inr e ↦ rw e tt ])

valid_body-cut : (n : ℕ) (f : ReadFull) → IsCut f → valid_body n f ≡ none
unfolding valid_body
valid_body-cut n at_end h = refl
valid_body-cut n cut_short h = refl
valid_body-cut n (full front rest) h = absurd h

outcome-cut_crc :
    (rec : Record) (payload : Bytes) (f : ReadFull)
    → IsCut f
    → outcome (after_crc rec payload f) ≡ none
unfolding after_crc
outcome-cut_crc rec payload at_end h = refl
outcome-cut_crc rec payload cut_short h = refl
outcome-cut_crc rec payload (full front rest) h = absurd h

outcome-cut_payload : (rec : Record) (f : ReadFull) → IsCut f → outcome (after_payload rec f) ≡ none
unfolding after_payload
outcome-cut_payload rec at_end h = refl
outcome-cut_payload rec cut_short h = refl
outcome-cut_payload rec (full front rest) h = absurd h

-- With or without the test for an empty payload.
payload_read :
    (n : ℕ) (file : Bytes) → (if ltb 0 n then read_full n file else full [] file) ≡ read_full n file
unfolding read_full
payload_read zero file = rw (le→leb 0 (length file) (omega arith))
payload_read (suc n) file = rw (lt→ltb 0 (suc n) (omega arith))

module _ (rec : Record) (file : Bytes) where
  abbrev len : ℕ
  len = rec.payload_len

  body-inside :
      len + 4 ≤ length file
      → outcome (after_payload rec (read_full len file)) ≡ valid_body len (read_full (len + 4) file)
  unfolding after_payload after_crc valid_body
  body-inside h =
      rw
        (
          read_full-inside len file (omega arith),
          read_full-inside (len + 4) file h,
          read_full-inside 4 (drop len file) (omega (arith, length-drop len file)),
          take-take len (len + 4) file (omega arith),
          drop-take len 4 (len + 4) file refl,
          drop-split len 4 (len + 4) file refl,
        )
        (ground arith)

  body-outside :
      length file < len + 4
      → outcome (after_payload rec (read_full len file)) ≡ valid_body len (read_full (len + 4) file)
  unfolding after_payload
  body-outside h =
      rw (valid_body-cut len (read_full (len + 4) file) (read_full-outside (len + 4) file h))
        (elim (Bool-cases (leb len (length file))) [
          | inl fits ↦
              rw (read_full-inside len file (leb→le len (length file) fits), after_payload)
                (outcome-cut_crc rec (take len file) (read_full 4 (drop len file)) (
                  read_full-outside 4 (drop len file)
                    (omega (arith, length-drop len file, leb→le len (length file) fits))))
          | inr over ↦
              outcome-cut_payload rec (read_full len file)
                (read_full-outside len file (ground arith))
        ])

  body_agrees :
      outcome (after_payload rec (if ltb 0 len then read_full len file else full [] file))
      ≡ valid_body len (read_full (len + 4) file)
  body_agrees = rw (payload_read len file) (elim (Bool-cases (leb (len + 4) (length file))) [
    | inl fits ↦ body-inside (leb→le (len + 4) (length file) fits)
    | inr over ↦ body-outside (ground arith)
  ])

header_agrees : (f : ReadFull) → valid_header f ≡ outcome (after_header f)
unfolding valid_header after_header
header_agrees at_end = refl
header_agrees cut_short = refl
header_agrees (full header rest) =
    ground (arith, body_agrees (parse_header header) rest, parsed header)
  where
    parsed :
        (h : Bytes)
        → (uint (slice 0 4 h) ≡ (parse_header h).magic)
          × (uint (slice 16 4 h) ≡ (parse_header h).payload_len)
          × (uint (slice 20 4 h) ≡ (parse_header h).header_crc)
    parsed h = unfold parse_header in (refl, refl, refl)

-- One round of the scan and one of the iterator agree on every file.
pub valid_record-read_record : (file : Bytes) → valid_record file ≡ outcome (read_record file)
unfolding valid_record read_record
valid_record-read_record file = header_agrees (read_full header_size file)
