-- ===== src/Wal/Payload/RoundTrip.antt =====
-- Payloads of documents and checkpoints, encoded and decoded again.
use selfstack.Prelude.{
  ℕ, ◌-◌, ◌*◌, ◌%◌, ◌^◌, ◌≤◌, ◌<◌, ◌≡◌, refl, [], ◌∷◌, ◌++◌, ok, ◌>>=◌, length, All, ◌==◌, arith,
  length-append, le→leb, take-length_append, drop-length_append, append-nil, take_all, false,
}
use selfstack.Bytes.{Bytes, put_uint}
use selfstack.Bytes.LittleEndian.{length-put_uint, uint-put_uint, take-put_uint, drop-put_uint}
use selfstack.Wal.Reader.Step.{read_full-append}
use selfstack.Wal.Payload.{
  Json, DocMetadata, Embedding, embedding_dim, embedding_size, max_doc_id_len, put_floats, floats,
  read_exactly, read_uint, read_some, encode_doc_payload, decode_doc_payload,
  encode_checkpoint_payload, decode_checkpoint_payload,
}

pub read_exactly-append :
    (n : ℕ) (front rest : Bytes)
    → length front ≡ n
    → read_exactly n (front ++ rest) ≡ ok (front, rest)
unfolding read_exactly
read_exactly-append n front rest e = rw (read_full-append n front rest e, read_exactly)

pub read_uint-put_uint :
    (w v : ℕ) (rest : Bytes) → v < 256 ^ w → read_uint w (put_uint w v ++ rest) ≡ ok (v, rest)
unfolding read_uint
read_uint-put_uint w v rest h =
    rw (read_exactly-append w (put_uint w v) rest (length-put_uint w v), uint-put_uint w v h)

-- A read inside the bounds, with something left for it.
pub read_some-append :
    (n : ℕ) (front rest : Bytes)
    → n ≡ length front
    → 0 < length (front ++ rest)
    → read_some n (front ++ rest) ≡ ok (front, rest)
unfolding read_some
read_some-append n front rest e h =
    let inside : length front - length (front ++ rest) ≡ 0 =
      omega (arith, length-append front rest) in
    rw (
      positive (length (front ++ rest)) h,
      e,
      inside,
      take-length_append front rest,
      drop-length_append front rest,
      append-nil front,
    )
  where
    positive : (k : ℕ) → 0 < k → (k == 0) ≡ false
    positive k h = ground arith

pub length-put_floats : (xs : Embedding) → length (put_floats xs) ≡ 4 * length xs
unfolding put_floats
length-put_floats [] = omega arith
length-put_floats (x ∷ xs) =
    omega (
      arith,
      length-append (put_uint 4 x) (put_floats xs),
      length-put_uint 4 x,
      length-put_floats xs,
    )

pub floats-put_floats :
    (xs : Embedding) → All (λ x. x < 2 ^ 32) xs → floats (length xs) (put_floats xs) ≡ xs
unfolding floats put_floats
floats-put_floats [] h = refl
floats-put_floats (x ∷ xs) (p, h) = rw (
  take-put_uint 4 x (put_floats xs),
  drop-put_uint 4 x (put_floats xs),
  uint-put_uint 4 x p,
  floats-put_floats xs h,
)

-- The metadata goes through encoding/json unharmed.
pub record Faithful (json : Json) (meta : DocMetadata) (meta_json : Bytes) : Type 0 where
  pub written : json.marshal meta ≡ ok meta_json
  pub read_back : json.unmarshal meta_json ≡ ok meta
  pub fits : length meta_json < 2 ^ 32

module _ (json : Json) (doc_id : Bytes) (meta : DocMetadata) (embedding : Embedding)
    (meta_json : Bytes) (faithful : Faithful json meta meta_json)
    (dim : length embedding ≡ embedding_dim) (words : All (λ x. x < 2 ^ 32) embedding)
    (short : length doc_id ≤ max_doc_id_len) where
  -- The bytes of a document's payload.
  abbrev pub layout : Bytes
  layout =
      put_uint 2 (length doc_id)
      ++ (doc_id ++ (put_uint 4 (length meta_json) ++ (meta_json ++ put_floats embedding)))

  pub encode-layout : encode_doc_payload json doc_id meta embedding ≡ ok layout
  unfolding encode_doc_payload
  encode-layout =
      let whole : length meta_json % 2 ^ 32 ≡ length meta_json = omega (arith, faithful.fits) in
      rw (le→leb (length doc_id) max_doc_id_len short, faithful.written, whole)

  pub decode-layout : decode_doc_payload json layout ≡ ok (doc_id, meta, embedding)
  unfolding decode_doc_payload
  decode-layout =
      let floats_long = length-put_floats embedding in
      let l1 = length-append meta_json (put_floats embedding) in
      let l2 = length-append (put_uint 4 (length meta_json)) (meta_json ++ put_floats embedding) in
      let l3 =
        length-append doc_id
          (put_uint 4 (length meta_json) ++ (meta_json ++ put_floats embedding)) in
      let l4 =
        length-append (put_uint 2 (length doc_id))
          (doc_id ++ (put_uint 4 (length meta_json) ++ (meta_json ++ put_floats embedding))) in
      let l5 = length-put_uint 4 (length meta_json) in
      rw (
        le→leb 6 (length layout) (omega arith),
        read_uint-put_uint 2 (length doc_id)
            (doc_id ++ (put_uint 4 (length meta_json) ++ (meta_json ++ put_floats embedding)))
            (omega arith),
        read_some-append (length doc_id) doc_id
            (put_uint 4 (length meta_json) ++ (meta_json ++ put_floats embedding)) refl
            (omega arith),
        read_uint-put_uint 4 (length meta_json) (meta_json ++ put_floats embedding)
            (omega (arith, faithful.fits)),
        read_some-append (length meta_json) meta_json (put_floats embedding) refl (omega arith),
        faithful.read_back,
        ← append-nil (put_floats embedding),
        read_exactly-append embedding_size (put_floats embedding) [] (omega arith),
        ← dim,
        floats-put_floats embedding words,
      )

  -- A document whose metadata encoding/json gives back, with an embedding of 128 words and an ID of
  -- at most 65535 bytes, is encoded without an error and decoded to itself.
  pub doc_payload_round_trip :
      (payload : Bytes) × (encode_doc_payload json doc_id meta embedding ≡ ok payload)
      × (decode_doc_payload json payload ≡ ok (doc_id, meta, embedding))
  doc_payload_round_trip = (layout, encode-layout, decode-layout)

-- `DecodeCheckpointPayload` reads back the uint64 that `EncodeCheckpointPayload` wrote.
pub checkpoint_payload_round_trip :
    (lsn : ℕ)
    → lsn < 2 ^ 64
    → (encode_checkpoint_payload lsn >>= decode_checkpoint_payload) ≡ ok lsn
unfolding encode_checkpoint_payload decode_checkpoint_payload
checkpoint_payload_round_trip lsn h = rw (
  le→leb 8 (length (put_uint 8 lsn)) (omega (arith, length-put_uint 8 lsn)),
  take_all 8 (put_uint 8 lsn) (omega (arith, length-put_uint 8 lsn)),
  uint-put_uint 8 lsn h,
)
