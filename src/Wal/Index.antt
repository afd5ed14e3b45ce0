-- ===== src/Wal/Index.antt =====
-- internal/scope/db/wal/recovery.go: the interface `DocumentIndex` through which recovery fills an
-- index that another package implements, with the laws that recovery relies on.
use selfstack.Prelude.{ℕ, ◌≡◌, Option, none, some, if◌then◌else◌, List}
use selfstack.Prelude.Maps.{bytes_beq}
use selfstack.Bytes.{Bytes}
use selfstack.Wal.Payload.{DocMetadata, Embedding}

pub record RecoveredDoc : Type 0 where
  pub doc_id : Bytes
  pub source : Bytes
  pub title : Bytes
  pub text : Bytes
  pub metadata : List (Bytes × Bytes)
  pub created_at : ℕ
  pub embedding : Embedding

-- `ToRecoveredDoc`, which `applyRecord` writes out.
unfoldable pub to_recovered_doc : Bytes → DocMetadata → Embedding → RecoveredDoc
to_recovered_doc doc_id meta embedding = record {
  doc_id = doc_id;
  source = meta.source;
  title = meta.title;
  text = meta.text;
  metadata = meta.metadata;
  created_at = meta.created_at;
  embedding = embedding;
}

-- `find` is not in the interface: it is what can be seen of an index, and the laws speak of it.
pub record DocumentIndex : Type 1 where
  pub Index : Type 0
  pub set_recovered : RecoveredDoc → Index → Index
  pub delete : Bytes → Index → Index
  pub find : Bytes → Index → Option RecoveredDoc
  pub find-set_recovered :
      (doc : RecoveredDoc) (k : Bytes) (index : Index)
      → find k (set_recovered doc index)
        ≡ (if bytes_beq doc.doc_id k then some doc else find k index)
  pub find-delete :
      (doc_id k : Bytes) (index : Index)
      → find k (delete doc_id index) ≡ (if bytes_beq doc_id k then none else find k index)
