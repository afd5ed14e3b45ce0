-- ===== src/Wal/Payload/Delete.antt =====
-- Tombstones. `bytes.Reader.Read` fails at the end of the input even if nothing is asked of it, and
-- does not fail on a short read; the decoder of a delete payload meets both.
use selfstack.Prelude.{
  ℕ, ◌-◌, ◌≤◌, ◌<◌, ◌≡◌, ◌++◌, ok, err, ◌>>=◌, length, take, replicate, leb, ◌==◌, if◌then◌else◌,
  arith, length-append, le→leb, eof, doc_id_too_long, append-nil, Bool-cases, inl, inr, false,
  leb→le, length-take, take_all,
}
use selfstack.Bytes.{Bytes, put_uint}
use selfstack.Bytes.LittleEndian.{length-put_uint}
use selfstack.Wal.Payload.{max_doc_id_len, read_some, encode_delete_payload, decode_delete_payload}
use selfstack.Wal.Payload.RoundTrip.{read_uint-put_uint}

-- What the decoder makes of a length and of what follows it.
decode_delete-written :
    (n : ℕ) (body : Bytes)
    → n ≤ max_doc_id_len
    → decode_delete_payload (put_uint 2 n ++ body)
      ≡ (if length body == 0 then err eof else ok (take n body ++ replicate (n - length body) 0))
unfolding decode_delete_payload read_some
decode_delete-written n body h =
    rw
      (
        le→leb 2 (length (put_uint 2 n ++ body))
            (omega (arith, length-append (put_uint 2 n) body, length-put_uint 2 n)),
        read_uint-put_uint 2 n body (omega arith),
      )
      (elim (Bool-cases (length body == 0)) [
        | inl e ↦ rw (e, read_some)
        | inr e ↦ rw (e, read_some)
      ])

-- A tombstone's ID is decoded to itself unless it is empty: `EncodeDeletePayload` accepts the empty
-- ID, and `DecodeDeletePayload` fails on what it wrote. An ID of more than 65535 bytes is refused.
pub delete_payload_round_trip :
    (doc_id : Bytes)
    → (encode_delete_payload doc_id >>= decode_delete_payload) ≡ (
        if leb (length doc_id) max_doc_id_len
        then (if length doc_id == 0 then err eof else ok doc_id)
        else err doc_id_too_long)
unfolding encode_delete_payload
delete_payload_round_trip doc_id = elim (Bool-cases (leb (length doc_id) max_doc_id_len)) [
  | inl short ↦ rw (
    short,
    decode_delete-written (length doc_id) doc_id (leb→le (length doc_id) max_doc_id_len short),
    take_all (length doc_id) doc_id (omega arith),
    minus_self (length doc_id),
    append-nil doc_id,
  )
  | inr long ↦ rw long
]
  where
    minus_self : (n : ℕ) → n - n ≡ 0
    minus_self n = omega arith

-- A payload that is cut short inside the ID is not refused: the ID comes out with zero bytes in
-- place of those that are missing.
pub delete_payload_cut_short :
    (doc_id : Bytes) (n : ℕ)
    → length doc_id ≤ max_doc_id_len
    → 0 < n
    → n < length doc_id
    → decode_delete_payload (put_uint 2 (length doc_id) ++ take n doc_id)
      ≡ ok (take n doc_id ++ replicate (length doc_id - n) 0)
delete_payload_cut_short doc_id n h pos cut =
    let len : length (take n doc_id) ≡ n = omega (arith, length-take n doc_id) in
    rw (
      decode_delete-written (length doc_id) (take n doc_id) h,
      len,
      positive n pos,
      take_all (length doc_id) (take n doc_id) (omega arith),
    )
  where
    positive : (k : ℕ) → 0 < k → (k == 0) ≡ false
    positive k h = ground arith
