-- ===== src/Db/Store/Written.antt =====
-- What Flush writes of the documents, read back line by line and vector by vector.
use selfstack.Prelude.{
  ℕ, suc, ◌^◌, ◌<◌, ◌≡◌, refl, sym, ap, ◌∙◌, List, [], ◌∷◌, ◌++◌, length, Bool, true, false, ◌&&◌,
  Result, ok, err, ◌>>=◌, ◌>>◌, guard, ltb, ◌==◌, if◌then◌else◌, token_too_long, All, arith,
  replicate,
}
use selfstack.Bytes.{Bytes}
use selfstack.Wal.Payload.{embedding_dim, embedding_size, put_floats}
use selfstack.Wal.Payload.RoundTrip.{read_exactly-append, floats-put_floats, length-put_floats}
use selfstack.Db.MemIndex.{Document}
use selfstack.Db.Store.Disk.{
  Disk, DocJson, FlushIo, Written, then_write, created, write_docs, write_floats, split_lines,
  drop_cr, max_token_size, load_docs, read_vector, read_vectors,
}

-- The embedding is no part of the JSON text.
abbrev pub bare : Document → Document
bare d = record d { embedding = replicate 128 0 }

abbrev pub all_bare : List Document → List Document
all_bare [] = []
all_bare (d ∷ ds) = bare d ∷ all_bare ds

-- encoding/json writes a document on one line, which ends with a brace, and reads it back.
pub record IsKept (json : DocJson) (d : Document) : Type 0 where
  pub line : Bytes
  pub written : json.marshal d ≡ ok line
  pub read_back : json.unmarshal line ≡ ok (bare d)
  pub one_line : All (λ b. (b == 10) ≡ false) line
  pub no_return : drop_cr line ≡ line

-- The [128]float32 of a document.
pub record IsEmbedding (d : Document) : Type 0 where
  pub dim : length d.embedding ≡ embedding_dim
  pub words : All (λ x. x < 2 ^ 32) d.embedding

-- Whether the text of every document fits the buffer of the scanner.
unfoldable pub all_fit : DocJson → List Document → Bool
all_fit json [] = true
all_fit json (d ∷ ds) =
    (elim (json.marshal d) [ err e ↦ true | ok line ↦ ltb (length line) max_token_size ])
    && all_fit json ds

split_lines-line :
    (line rest : Bytes)
    → All (λ b. (b == 10) ≡ false) line
    → split_lines ((line ++ (10 ∷ [])) ++ rest) ≡ line ∷ split_lines rest
unfolding split_lines
split_lines-line [] rest h = refl
split_lines-line (b ∷ bs) rest (p, h) = rw (split_lines-line bs rest h, p) refl

pub then_write-ok :
    (works : Bool) (left_over bytes : Bytes) (rest : Written)
    → (then_write works left_over bytes rest).1 ≡ ok tt
    → ((then_write works left_over bytes rest).0 ≡ bytes ++ rest.0) × (rest.1 ≡ ok tt)
then_write-ok true left_over bytes rest e = (refl, e)
then_write-ok false left_over bytes rest e = absurd (ground arith)

pub created-ok :
    (works : Bool) (disk disk' : Disk) (result : Result (Unit {0}))
    → (created works disk disk' result).1 ≡ ok tt
    → ((created works disk disk' result).0 ≡ disk') × (result ≡ ok tt)
created-ok true disk disk' result e = (refl, e)
created-ok false disk disk' result e = absurd (ground arith)

pub length-all_bare : (ds : List Document) → length (all_bare ds) ≡ length ds
length-all_bare [] = refl
length-all_bare (d ∷ ds) = ap suc (length-all_bare ds)

module _ (json : DocJson) where
  write_docs-cons :
      (io : FlushIo) (i : ℕ) (d : Document) (ds : List Document) (k : IsKept json d)
      → write_docs json io i (d ∷ ds)
        ≡ then_write
            (io.writes_doc i)
            io.left_over
            (k.line ++ (10 ∷ []))
            (write_docs json io (suc i) ds)
  unfolding write_docs
  write_docs-cons io i d ds k = rw (write_docs, k.written) refl

  load_docs-cons :
      (d : Document) (ds : List Document) (k : IsKept json d) (lines : List Bytes)
      → load_docs json lines ≡ (if all_fit json ds then ok (all_bare ds) else err token_too_long)
      → load_docs json (k.line ∷ lines)
        ≡ (if all_fit json (d ∷ ds) then ok (all_bare (d ∷ ds)) else err token_too_long)
  unfolding load_docs all_fit
  load_docs-cons d ds k lines h =
      rw (load_docs, all_fit, k.no_return, k.read_back, k.written)
        (both (ltb (length k.line) max_token_size) (all_fit json ds) (load_docs json lines) h)
    where
      both :
          (b c : Bool) (r : Result (List Document))
          → r ≡ (if c then ok (all_bare ds) else err token_too_long)
          → (guard b token_too_long >> (r >>= (λ docs. ok (bare d ∷ docs))))
            ≡ (if b && c then ok (bare d ∷ all_bare ds) else err token_too_long)
      both true true r h = rw h refl
      both true false r h = rw h refl
      both false c r h = refl

  pub load_docs-written :
      (io : FlushIo) (i : ℕ) (ds : List Document)
      → All (IsKept json) ds
      → (write_docs json io i ds).1 ≡ ok tt
      → load_docs json (split_lines (write_docs json io i ds).0)
        ≡ (if all_fit json ds then ok (all_bare ds) else err token_too_long)
  unfolding write_docs load_docs all_fit split_lines
  load_docs-written io i [] h e = refl
  load_docs-written io i (d ∷ ds) (k, h) e =
      let eq = write_docs-cons io i d ds k in
      let (c, e') =
        then_write-ok (io.writes_doc i) io.left_over (k.line ++ (10 ∷ []))
          (write_docs json io (suc i) ds) (ap (λ t. t.1) (sym eq) ∙ e) in
      ap (λ t. load_docs json (split_lines t.0)) eq
      ∙ ap (λ b. load_docs json (split_lines b)) c
      ∙ ap (load_docs json) (split_lines-line k.line (write_docs json io (suc i) ds).0 k.one_line)
      ∙ load_docs-cons d ds k (split_lines (write_docs json io (suc i) ds).0)
          (load_docs-written io (suc i) ds h e')

read_vector-written :
    (d : Document) (rest : Bytes)
    → IsEmbedding d
    → read_vector (put_floats d.embedding ++ rest) ≡ ok (d.embedding, rest)
unfolding read_vector
read_vector-written d rest p =
    rw
      (
        read_vector,
        read_exactly-append embedding_size (put_floats d.embedding) rest
            (omega (arith, length-put_floats d.embedding, p.dim)),
        ← p.dim,
        floats-put_floats d.embedding p.words,
      )
      refl

pub read_vectors-written :
    (io : FlushIo) (i : ℕ) (ds : List Document)
    → All IsEmbedding ds
    → (write_floats io i ds).1 ≡ ok tt
    → read_vectors (all_bare ds) (write_floats io i ds).0 ≡ ok ds
unfolding write_floats read_vectors
read_vectors-written io i [] h e = refl
read_vectors-written io i (d ∷ ds) (p, h) e =
    let (c, e') = then_write-ok (io.writes_vector i) io.left_over (put_floats d.embedding) _ e in
    rw
      (
        c,
        read_vector-written d (write_floats io (suc i) ds).0 p,
        read_vectors-written io (suc i) ds h e',
      )
      refl
