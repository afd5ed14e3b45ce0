-- ===== src/Wal/Runs/Records.antt =====
-- Concrete records and payloads.
use selfstack.Prelude.{
  ℕ, zero, suc, ◌^◌, ◌<◌, ◌-◌, ◌==◌, ◌≡◌, refl, [], ◌∷◌, ◌++◌, ok, err, ◌>>=◌, length, take,
  replicate, All, leb, if◌then◌else◌, eof, doc_id_too_long, arith,
}
use selfstack.Bytes.{Bytes, put_uint}
use selfstack.Bytes.Checksum.{checksum_ieee}
use selfstack.Wal.Record.{
  Record, IsWellFormed, new_record, encode, decode_record, calculate_header_crc, magic_bytes,
}
use selfstack.Wal.Record.RoundTrip.{decode_record-encode, new_record-IsWellFormed}
use selfstack.Wal.Payload.{
  DocMetadata, Json, Embedding, encode_doc_payload, decode_doc_payload, encode_delete_payload,
  decode_delete_payload, encode_checkpoint_payload, decode_checkpoint_payload, max_doc_id_len,
}
use selfstack.Wal.Payload.RoundTrip.{
  Faithful, doc_payload_round_trip, checkpoint_payload_round_trip,
}
use selfstack.Wal.Payload.Delete.{delete_payload_round_trip, delete_payload_cut_short}

-- The record that `NewRecord` makes of a small payload.
abbrev pub blank : ℕ → ℕ → Bytes → Record
blank type lsn payload = record {
  magic = magic_bytes;
  type = type;
  flags = 0;
  reserved = 0;
  lsn = lsn;
  payload_len = length payload;
  header_crc = 0;
  payload = payload;
  payload_crc = 0;
}

abbrev pub made : ℕ → ℕ → Bytes → Record
made type lsn payload = record (blank type lsn payload) {
  header_crc = calculate_header_crc (blank type lsn payload);
  payload_crc = checksum_ieee payload;
}

-- The tombstone of the document "a", and a checkpoint.
abbrev pub tombstone_payload : Bytes
tombstone_payload = 1 ∷ 0 ∷ 97 ∷ []

abbrev pub tombstone : Record
tombstone = made 3 5 tombstone_payload

abbrev pub checkpoint : Record
checkpoint = made 4 6 (5 ∷ 0 ∷ 0 ∷ 0 ∷ 0 ∷ 0 ∷ 0 ∷ 0 ∷ [])

tombstone-made : new_record 3 5 tombstone_payload ≡ ok tombstone
unfolding new_record
tombstone-made = refl

checkpoint-made : new_record 4 6 (5 ∷ 0 ∷ 0 ∷ 0 ∷ 0 ∷ 0 ∷ 0 ∷ 0 ∷ []) ≡ ok checkpoint
unfolding new_record
checkpoint-made = refl

pub tombstone-IsWellFormed : IsWellFormed tombstone
tombstone-IsWellFormed =
    new_record-IsWellFormed 3 5 tombstone_payload (omega arith) (omega arith) tombstone-made

pub checkpoint-IsWellFormed : IsWellFormed checkpoint
checkpoint-IsWellFormed =
    new_record-IsWellFormed 4 6 (5 ∷ 0 ∷ 0 ∷ 0 ∷ 0 ∷ 0 ∷ 0 ∷ 0 ∷ []) (omega arith) (omega arith)
      checkpoint-made

decode_record-encode_example : decode_record (encode tombstone ++ (1 ∷ 2 ∷ [])) ≡ ok tombstone
decode_record-encode_example = decode_record-encode tombstone (1 ∷ 2 ∷ []) tombstone-IsWellFormed

-- A stand-in for encoding/json that keeps the text only.
abbrev pub text_metadata : Bytes → DocMetadata
text_metadata text = record { source = []; title = []; text = text; metadata = []; created_at = 0 }

abbrev pub text_json : Json
text_json = record { marshal = λ meta. ok meta.text; unmarshal = λ text. ok (text_metadata text) }

abbrev pub doc_a : Bytes
doc_a = 97 ∷ []

abbrev hi : DocMetadata
hi = text_metadata (104 ∷ 105 ∷ [])

abbrev zeros : Embedding
zeros = replicate 128 0

zeros-fit : (n : ℕ) → All (λ x. x < 2 ^ 32) (replicate n 0)
zeros-fit zero = tt
zeros-fit (suc n) = (omega arith, zeros-fit n)

length-zeros : (n : ℕ) → length {A = ℕ} (replicate n 0) ≡ n
length-zeros zero = refl
length-zeros (suc n) = omega (arith, length-zeros n)

hi-Faithful : Faithful text_json hi (104 ∷ 105 ∷ [])
hi-Faithful = record { written = refl; read_back = refl; fits = omega arith }

doc_payload_round_trip_example :
    (payload : Bytes) × (encode_doc_payload text_json (97 ∷ []) hi zeros ≡ ok payload)
    × (decode_doc_payload text_json payload ≡ ok (97 ∷ [], hi, zeros))
doc_payload_round_trip_example =
    doc_payload_round_trip text_json (97 ∷ []) hi zeros (104 ∷ 105 ∷ []) hi-Faithful
      (length-zeros 128) (zeros-fit 128) (omega arith)

checkpoint_payload_round_trip_example :
    (encode_checkpoint_payload 770 >>= decode_checkpoint_payload) ≡ ok 770
checkpoint_payload_round_trip_example = checkpoint_payload_round_trip 770 (omega arith)

delete_payload_round_trip_example : (encode_delete_payload doc_a >>= decode_delete_payload) ≡ (
    if leb (length doc_a) max_doc_id_len
    then (if length doc_a == 0 then err eof else ok doc_a)
    else err doc_id_too_long)
delete_payload_round_trip_example = delete_payload_round_trip doc_a

delete_payload_cut_short_example :
    decode_delete_payload (put_uint 2 3 ++ take 1 (97 ∷ 98 ∷ 99 ∷ []))
    ≡ ok (take 1 (97 ∷ 98 ∷ 99 ∷ []) ++ replicate (3 - 1) 0)
delete_payload_cut_short_example =
    delete_payload_cut_short (97 ∷ 98 ∷ 99 ∷ []) 1 (omega arith) (omega arith) (omega arith)
