-- ===== src/Wal/Payload.antt =====
-- internal/scope/db/wal/record.go: the payloads of document, delete and checkpoint records. A Go
-- string is its bytes, a float32 the 32 bits that `binary.Write` writes, a time its distance from
-- the zero time. encoding/json is a parameter: a pair of functions on the document's metadata.
pub mod RoundTrip
pub mod Delete
use selfstack.Prelude.{
  ℕ, zero, suc, ◌+◌, ◌-◌, ◌*◌, ◌%◌, ◌^◌, ◌≤◌, ◌<◌, ◌≡◌, List, [], ◌∷◌, ◌++◌, Result, ok, err, Error,
  ◌>>=◌, ◌>>◌, guard, length, take, drop, replicate, All, Bool, ltb, leb, ◌==◌, if◌then◌else◌,
  doc_id_too_long, payload_too_short, eof, unexpected_eof,
}
use selfstack.Bytes.{Bytes, put_uint, uint}
use selfstack.Wal.Reader.{ReadFull, full, at_end, cut_short, read_full}

abbrev pub embedding_dim : ℕ
embedding_dim = 128

-- relay.EmbeddingDim * 4
abbrev pub embedding_size : ℕ
embedding_size = 512

abbrev pub max_doc_id_len : ℕ
max_doc_id_len = 65535

abbrev pub Embedding : Type 0
Embedding = List ℕ

pub record DocMetadata : Type 0 where
  pub source : Bytes
  pub title : Bytes
  pub text : Bytes
  pub metadata : List (Bytes × Bytes)
  pub created_at : ℕ

-- `json.Marshal` and `json.Unmarshal` at `DocMetadata`.
pub record Json : Type 0 where
  pub marshal : DocMetadata → Result Bytes
  pub unmarshal : Bytes → Result DocMetadata

-- `binary.Write` of an array of float32.
unfoldable pub put_floats : Embedding → Bytes
put_floats [] = []
put_floats (x ∷ xs) = put_uint 4 x ++ put_floats xs

-- ... and `binary.Read` of n of them, out of their bytes.
unfoldable pub floats : ℕ → Bytes → Embedding
floats zero bs = []
floats (suc n) bs = uint (take 4 bs) ∷ floats n (drop 4 bs)

-- The `io.ReadFull` in `binary.Read`, and its errors.
unfoldable pub read_exactly : ℕ → Bytes → Result (Bytes × Bytes)
read_exactly n file = elim (read_full n file) [
  | full front rest ↦ ok (front, rest)
  | at_end ↦ err eof
  | cut_short ↦ err unexpected_eof
]

unfoldable pub read_uint : ℕ → Bytes → Result (ℕ × Bytes)
read_uint w file = do (front, rest) ← read_exactly w file; ok (uint front, rest)

-- `bytes.Reader.Read` into a fresh buffer of n bytes: at the end it fails, even for n = 0, and with
-- fewer bytes left than asked for it fills the front of the buffer and does not fail.
unfoldable pub read_some : ℕ → Bytes → Result (Bytes × Bytes)
read_some n file =
    if length file == 0
    then err eof
    else ok (take n file ++ replicate (n - length file) 0, drop n file)

-- The uint32 length of the metadata wraps.
unfoldable pub encode_doc_payload : Json → Bytes → DocMetadata → Embedding → Result Bytes
encode_doc_payload json doc_id meta embedding = do
  guard (leb (length doc_id) max_doc_id_len) doc_id_too_long
  meta_json ← json.marshal meta
  ok (
      put_uint 2 (length doc_id)
      ++ (doc_id
          ++ (put_uint 4 (length meta_json % 2 ^ 32) ++ (meta_json ++ put_floats embedding))))

unfoldable pub decode_doc_payload : Json → Bytes → Result (Bytes × DocMetadata × Embedding)
decode_doc_payload json bytes = do
  guard (leb 6 (length bytes)) payload_too_short
  (doc_id_len, after_len) ← read_uint 2 bytes
  (doc_id, after_id) ← read_some doc_id_len after_len
  (meta_len, after_meta_len) ← read_uint 4 after_id
  (meta_json, after_meta) ← read_some meta_len after_meta_len
  meta ← json.unmarshal meta_json
  (raw, _) ← read_exactly embedding_size after_meta
  ok (doc_id, meta, floats embedding_dim raw)

unfoldable pub encode_delete_payload : Bytes → Result Bytes
encode_delete_payload doc_id = do
  guard (leb (length doc_id) max_doc_id_len) doc_id_too_long
  ok (put_uint 2 (length doc_id) ++ doc_id)

unfoldable pub decode_delete_payload : Bytes → Result Bytes
decode_delete_payload bytes = do
  guard (leb 2 (length bytes)) payload_too_short
  (doc_id_len, after_len) ← read_uint 2 bytes
  (doc_id, _) ← read_some doc_id_len after_len
  ok doc_id

unfoldable pub encode_checkpoint_payload : ℕ → Result Bytes
encode_checkpoint_payload checkpoint_lsn = ok (put_uint 8 checkpoint_lsn)

unfoldable pub decode_checkpoint_payload : Bytes → Result ℕ
decode_checkpoint_payload bytes = do
  guard (leb 8 (length bytes)) payload_too_short
  ok (uint (take 8 bytes))
