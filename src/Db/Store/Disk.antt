-- ===== src/Db/Store/Disk.antt =====
-- internal/scope/db/store.go: the two files of the file store, `Flush` and `NewStore`. Whether the
-- calls of the operating system that write work is an input; a file that is there can be read.
-- encoding/json and the embedding of a text are parameters.
use selfstack.Prelude.{
  ℕ, suc, ◌%◌, ◌^◌, List, [], ◌∷◌, ◌++◌, length, Bool, true, false, ◌&&◌, Option, none, some,
  Result, ok, err, Error, ◌>>=◌, ◌>>◌, guard, ltb, ◌==◌, if◌then◌else◌, io_failed, not_exist,
  token_too_long, count_mismatch, dimension_mismatch, bad_vector, unmarshal_failed,
}
use selfstack.Bytes.{Bytes, put_uint}
use selfstack.Wal.Payload.{
  Embedding, embedding_dim, embedding_size, put_floats, floats, read_exactly, read_uint,
}
use selfstack.Db.MemIndex.{Document}
use selfstack.Db.Store.{Store}

-- metadata.jsonl and vectors.bin, `none` where there is no file.
pub record Disk : Type 0 where
  pub metadata : Option Bytes
  pub vectors : Option Bytes

-- `Encode`, without the line's end, and `Unmarshal` at `Document`, whose embedding is not written.
pub record DocJson : Type 0 where
  pub marshal : Document → Result Bytes
  pub unmarshal : Bytes → Result Document

-- Whether each call works; a write that fails leaves `left_over`.
pub record FlushIo : Type 0 where
  pub creates_metadata : Bool
  pub writes_doc : ℕ → Bool
  pub creates_vectors : Bool
  pub writes_count : Bool
  pub writes_dim : Bool
  pub writes_vector : ℕ → Bool
  pub left_over : Bytes

abbrev pub Written : Type 0
Written = Bytes × Result (Unit {0})

-- The bytes that a write appends and what goes on behind it.
abbrev pub then_write : Bool → Bytes → Bytes → Written → Written
then_write works left_over bytes rest =
    if works then (bytes ++ rest.0, rest.1) else (left_over, err io_failed)

-- What `os.Create` and the writes behind it leave.
abbrev pub created : Bool → Disk → Disk → Result (Unit {0}) → Disk × Result (Unit {0})
created works disk disk' result = if works then (disk', result) else (disk, err io_failed)

-- The loop of `writeMetadata`, from document i on.
unfoldable pub write_docs : DocJson → FlushIo → ℕ → List Document → Written
write_docs json io i [] = ([], ok tt)
write_docs json io i (d ∷ ds) =
    let rest = write_docs json io (suc i) ds in
    elim (json.marshal d) [
      | err e ↦ ([], err e)
      | ok line ↦ then_write (io.writes_doc i) io.left_over (line ++ (10 ∷ [])) rest
    ]

unfoldable pub write_metadata : DocJson → FlushIo → Store → Disk → Disk × Result (Unit {0})
write_metadata json io s disk =
    let written = write_docs json io 0 s.docs in
    created io.creates_metadata disk (record disk { metadata = some written.0 }) written.1

-- The loop of `writeVectors`, from document i on.
unfoldable pub write_floats : FlushIo → ℕ → List Document → Written
write_floats io i [] = ([], ok tt)
write_floats io i (d ∷ ds) =
    let rest = write_floats io (suc i) ds in
    then_write (io.writes_vector i) io.left_over (put_floats d.embedding) rest

unfoldable pub write_vectors : FlushIo → Store → Disk → Disk × Result (Unit {0})
write_vectors io s disk =
    let written = then_write io.writes_count io.left_over (put_uint 4 (length s.docs % 2 ^ 32)) (
      then_write io.writes_dim io.left_over (put_uint 4 embedding_dim)
        (write_floats io 0 s.docs)) in
    created io.creates_vectors disk (record disk { vectors = some written.0 }) written.1

-- The second half of `Flush`.
abbrev pub flush_vectors :
    FlushIo → Store → Disk × Result (Unit {0}) → Store × Disk × Result (Unit {0})
flush_vectors io s (disk, err e) = (s, disk, err e)
flush_vectors io s (disk, ok u) =
    let (disk', result) = write_vectors io s disk in
    elim result [ err e ↦ (s, disk', err e) | ok u ↦ (record s { modified = false }, disk', ok tt) ]

unfoldable pub flush : DocJson → FlushIo → Store → Disk → Store × Disk × Result (Unit {0})
flush json io s disk =
    if s.modified then flush_vectors io s (write_metadata json io s disk) else (s, disk, ok tt)

-- bufio.ScanLines: the lines without their ends, and what is behind the last end if it is not empty.
unfoldable pub split_lines : Bytes → List Bytes
split_lines [] = []
split_lines (b ∷ bs) =
    let rest = split_lines bs in
    if b == 10 then [] ∷ rest else (elim rest [ [] ↦ (b ∷ []) ∷ [] | l ∷ ls ↦ (b ∷ l) ∷ ls ])

-- ... which drops a carriage return at the end of a line.
unfoldable pub drop_cr : Bytes → Bytes
drop_cr [] = []
drop_cr (b ∷ []) = if b == 13 then [] else b ∷ []
drop_cr (b ∷ next ∷ bs) = b ∷ drop_cr (next ∷ bs)

-- bufio.MaxScanTokenSize: a line that fills the buffer before its end is found is refused.
abbrev pub max_token_size : ℕ
max_token_size = 65536

unfoldable pub load_docs : DocJson → List Bytes → Result (List Document)
load_docs json [] = ok []
load_docs json (line ∷ lines) =
    let rest = load_docs json lines in
    guard (ltb (length line) max_token_size) token_too_long
    >> (elim (json.unmarshal (drop_cr line)) [
      | err e ↦ err unmarshal_failed
      | ok doc ↦ rest >>= (λ docs. ok (doc ∷ docs))
    ])

unfoldable pub load_metadata : DocJson → Disk → Result (List Document)
load_metadata json disk = elim disk.metadata [
  | none ↦ err not_exist
  | some content ↦ load_docs json (split_lines content)
]

unfoldable pub read_vector : Bytes → Result (Embedding × Bytes)
read_vector file = elim (read_exactly embedding_size file) [
  | err e ↦ err bad_vector
  | ok (raw, rest) ↦ ok (floats embedding_dim raw, rest)
]

unfoldable pub read_vectors : List Document → Bytes → Result (List Document)
read_vectors [] file = ok []
read_vectors (d ∷ ds) file = do
  (embedding, rest) ← read_vector file
  docs ← read_vectors ds rest
  ok (record d { embedding = embedding } ∷ docs)

abbrev pub load_vectors_of : List Document → Bytes → Result (List Document)
load_vectors_of docs file = do
  (num_docs, after_count) ← read_uint 4 file
  (dim, after_dim) ← read_uint 4 after_count
  guard (num_docs == length docs) count_mismatch
  guard (dim == embedding_dim) dimension_mismatch
  read_vectors docs after_dim

unfoldable pub load_vectors : Disk → List Document → Result (List Document)
load_vectors disk docs = elim disk.vectors [
  | none ↦ err not_exist
  | some file ↦ load_vectors_of docs file
]

-- os.IsNotExist
unfoldable pub is_not_exist : Error → Bool
is_not_exist not_exist = true
is_not_exist e = false

abbrev pub empty_store : Store
empty_store = record { docs = []; modified = false }

module _ (deterministic_embed : Bytes → Embedding) where
  unfoldable pub embed_again : List Document → List Document
  embed_again [] = []
  embed_again (d ∷ ds) = record d { embedding = deterministic_embed d.text } ∷ embed_again ds

  -- The second half of `load`.
  unfoldable pub with_vectors : Disk → List Document → Result Store
  with_vectors disk docs = elim (load_vectors disk docs) [
    | ok docs' ↦ ok (record { docs = docs'; modified = false })
    | err e ↦
        if is_not_exist e && ltb 0 (length docs)
        then ok (record { docs = embed_again docs; modified = true })
        else err e
  ]

  unfoldable pub load : DocJson → Disk → Result Store
  load json disk = load_metadata json disk >>= with_vectors disk

  unfoldable pub new_store : DocJson → Disk → Result Store
  new_store json disk = elim (load json disk) [
    | ok s ↦ ok s
    | err e ↦ if is_not_exist e then ok empty_store else err e
  ]
