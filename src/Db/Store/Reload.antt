-- ===== src/Db/Store/Reload.antt =====
-- A store that is flushed and opened again.
use selfstack.Prelude.{
  ◌%◌, ◌^◌, ◌<◌, ◌≡◌, refl, sym, ap, ◌∙◌, ◌++◌, length, Bool, true, false, some, Result, ok, err,
  ◌==◌, if◌then◌else◌, token_too_long, All, arith,
}
use selfstack.Bytes.{Bytes, put_uint}
use selfstack.Wal.Payload.{Embedding, embedding_dim}
use selfstack.Wal.Payload.RoundTrip.{read_uint-put_uint}
use selfstack.Db.Store.{Store}
use selfstack.Db.Store.Disk.{
  Disk, DocJson, FlushIo, then_write, write_metadata, write_floats, write_vectors, flush_vectors,
  flush, load_metadata, load_vectors_of, load_vectors, with_vectors, load, new_store, is_not_exist,
}
use selfstack.Db.Store.Written.{
  all_bare, IsKept, IsEmbedding, all_fit, then_write-ok, created-ok, length-all_bare,
  load_docs-written, read_vectors-written,
}

module _ (json : DocJson) (io : FlushIo) (s : Store) where
  load_metadata-written :
      (disk : Disk)
      → All (IsKept json) s.docs
      → (write_metadata json io s disk).1 ≡ ok tt
      → load_metadata json (write_metadata json io s disk).0
        ≡ (if all_fit json s.docs then ok (all_bare s.docs) else err token_too_long)
  unfolding write_metadata load_metadata
  load_metadata-written disk h e =
      let (c, e') = created-ok io.creates_metadata disk _ _ e in
      ap (load_metadata json) c ∙ load_docs-written json io 0 s.docs h e'

  -- What `writeVectors` leaves when all goes well.
  abbrev vector_file : Bytes
  vector_file =
      put_uint 4 (length s.docs % 2 ^ 32)
      ++ (put_uint 4 embedding_dim ++ (write_floats io 0 s.docs).0)

  write_vectors-file :
      (disk : Disk)
      → (write_vectors io s disk).1 ≡ ok tt
      → ((write_vectors io s disk).0 ≡ record disk { vectors = some vector_file })
        × ((write_floats io 0 s.docs).1 ≡ ok tt)
  unfolding write_vectors
  write_vectors-file disk e =
      let floats = write_floats io 0 s.docs in
      let dim =
        then_write io.writes_dim io.left_over (put_uint 4 embedding_dim)
          (write_floats io 0 s.docs) in
      let (c, e1) = created-ok io.creates_vectors disk _ _ e in
      let (c', e2) =
        then_write-ok io.writes_count io.left_over (put_uint 4 (length s.docs % 2 ^ 32)) dim e1 in
      let (c2, e3) =
        then_write-ok io.writes_dim io.left_over (put_uint 4 embedding_dim) floats e2 in
      (
        c
            ∙ ap (λ (file : Bytes). record disk { vectors = some file })
                (c' ∙ ap (λ bs. put_uint 4 (length s.docs % 2 ^ 32) ++ bs) c2),
        e3,
      )

  load_vectors-file :
      length s.docs < 2 ^ 32
      → All IsEmbedding s.docs
      → (write_floats io 0 s.docs).1 ≡ ok tt
      → load_vectors_of (all_bare s.docs) vector_file ≡ ok s.docs
  load_vectors-file few h e =
      rw
        (
          read_uint-put_uint 4 (length s.docs % 2 ^ 32)
              (put_uint 4 embedding_dim ++ (write_floats io 0 s.docs).0) (omega arith),
          read_uint-put_uint 4 embedding_dim (write_floats io 0 s.docs).0 (omega arith),
          counted,
          read_vectors-written io 0 s.docs h e,
        )
        refl
    where
      counted : (length s.docs % 2 ^ 32 == length (all_bare s.docs)) ≡ true
      counted = ground (arith, length-all_bare s.docs)

  flush_vectors-ok :
      (m : Disk × Result (Unit {0})) (s' : Store) (disk' : Disk)
      → flush_vectors io s m ≡ (s', disk', ok tt)
      → (m.1 ≡ ok tt)
        × ((write_vectors io s m.0).1 ≡ ok tt)
        × (s' ≡ record s { modified = false })
        × (disk' ≡ (write_vectors io s m.0).0)
  flush_vectors-ok (disk, err e) s' disk' h = absurd (ground arith)
  flush_vectors-ok (disk, ok u) s' disk' h = ground arith

  module _ (embed : Bytes → Embedding) where
    reopen :
        (b : Bool) (disk : Disk)
        → load_metadata json disk ≡ (if b then ok (all_bare s.docs) else err token_too_long)
        → load_vectors disk (all_bare s.docs) ≡ ok s.docs
        → new_store embed json disk
          ≡ (if b then ok (record s { modified = false }) else err token_too_long)
    unfolding new_store load with_vectors is_not_exist
    reopen true disk e e' = rw (new_store, load, e, with_vectors, e') refl
    reopen false disk e e' = rw (new_store, load, e) refl

    -- Where Flush of a modified store returns no error, its documents fewer than 2^32, their
    -- embeddings of 128 words and their JSON texts of one line each, which encoding/json reads back,
    -- NewStore on the files then gives the flushed store if the text of every document is shorter than
    -- 64 KiB, and an error if one is not, since the scanner refuses its line.
    pub new_store-flush :
        (disk disk' : Disk) (s' : Store)
        → flush json io s disk ≡ (s', disk', ok tt)
        → s.modified ≡ true
        → length s.docs < 2 ^ 32
        → All (IsKept json) s.docs
        → All IsEmbedding s.docs
        → (s' ≡ record s { modified = false })
          × (new_store embed json disk'
              ≡ (if all_fit json s.docs then ok s' else err token_too_long))
    unfolding flush load_metadata load_vectors
    new_store-flush disk disk' s' h modified few kept sized =
        let begun : flush json io s disk ≡ flush_vectors io s (write_metadata json io s disk) =
          rw (flush, modified) refl in
        let m = (write_metadata json io s disk).0 in
        let (e, e', same, at_disk) =
          flush_vectors-ok (write_metadata json io s disk) s' disk' (sym begun ∙ h) in
        let (filed, floats_ok) = write_vectors-file m e' in
        let whole = at_disk ∙ filed in
        (
          same,
          ap (new_store embed json) whole
              ∙ reopen (all_fit json s.docs) (record m { vectors = some vector_file })
                  (load_metadata-written disk kept e) (load_vectors-file few sized floats_ok)
              ∙ ap (λ (x : Store). if all_fit json s.docs then ok x else err token_too_long)
                  (sym same),
        )
