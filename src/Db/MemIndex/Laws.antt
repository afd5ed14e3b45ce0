-- ===== src/Db/MemIndex/Laws.antt =====
-- The laws of the in-memory index, and that it is an index that a recovery can fill.
use selfstack.Prelude.{◌≡◌, refl, List, [], ◌∷◌, Option, none, some, if◌then◌else◌, arith}
use selfstack.Prelude.Maps.{
  Map, lookup, insert, bytes_eq, bytes_beq, bytes_beq_iff, lookup-insert, lookup-erase,
  IsFunctional, insert-IsFunctional, erase-IsFunctional,
}
use selfstack.Bytes.{Bytes}
use selfstack.Wal.Index.{RecoveredDoc, DocumentIndex}
use selfstack.Db.MemIndex.{
  Document, MemIndex, set, set_recovered, of_recovered, delete, get, copy_into, clone,
}

-- Every document is held once.
pub record IsWellFormed (m : MemIndex) : Type 0 where
  pub once : IsFunctional m.docs

-- What an operation of the index does to it.
pub data Change : Type 0 where
  put : Bytes → Document → Change
  recovered : RecoveredDoc → Change
  drop_doc : Bytes → Change

unfoldable pub run : List Change → MemIndex → MemIndex
run [] m = m
run (put id doc ∷ cs) m = run cs (set id doc m)
run (recovered doc ∷ cs) m = run cs (set_recovered doc m)
run (drop_doc id ∷ cs) m = run cs (delete id m)

pub run-IsWellFormed : (cs : List Change) (m : MemIndex) → IsWellFormed m → IsWellFormed (run cs m)
unfolding run set set_recovered delete
run-IsWellFormed [] m w = w
run-IsWellFormed (put id doc ∷ cs) m w =
    run-IsWellFormed cs _ (record { once = insert-IsFunctional id doc m.docs w.once })
run-IsWellFormed (recovered doc ∷ cs) m w =
    run-IsWellFormed cs _
      (record { once = insert-IsFunctional doc.doc_id (of_recovered doc) m.docs w.once })
run-IsWellFormed (drop_doc id ∷ cs) m w =
    run-IsWellFormed cs _ (record { once = erase-IsFunctional id m.docs w.once })

-- A clone has under every ID what the index has.
get-copy_into :
    (k : Bytes) (docs : Map Bytes Document) (m : MemIndex)
    → IsFunctional docs
    → get k (copy_into docs m) ≡ (elim (lookup k docs) [ some d ↦ some d | none ↦ get k m ])
unfolding get copy_into lookup
get-copy_into k [] m f = refl
get-copy_into k ((id, doc) ∷ docs) m (h, f) = ground (
  arith,
  get-copy_into k docs (record { docs = insert id doc m.docs }) f,
  lookup-insert id k doc m.docs,
  bytes_beq_iff id k,
)

-- A clone has under every ID what the index has.
pub get-clone : (k : Bytes) (m : MemIndex) → IsWellFormed m → get k (clone m) ≡ get k m
unfolding clone get lookup
get-clone k m w = ground (arith, get-copy_into k m.docs (record { docs = [] }) w.once)

-- What can be seen of a document in the index: all of it but its key.
abbrev pub to_recovered : Document → RecoveredDoc
to_recovered doc = record {
  doc_id = doc.id;
  source = doc.source;
  title = doc.title;
  text = doc.text;
  metadata = doc.metadata;
  created_at = doc.created_at;
  embedding = doc.embedding;
}

unfoldable pub find_recovered : Bytes → MemIndex → Option RecoveredDoc
find_recovered k m = elim (get k m) [ none ↦ none | some doc ↦ some (to_recovered doc) ]

pub find_recovered-set :
    (doc : RecoveredDoc) (k : Bytes) (m : MemIndex)
    → find_recovered k (set_recovered doc m)
      ≡ (if bytes_beq doc.doc_id k then some doc else find_recovered k m)
unfolding find_recovered get set_recovered of_recovered
find_recovered-set doc k m = ground (arith, lookup-insert doc.doc_id k (of_recovered doc) m.docs)

pub find_recovered-delete :
    (id k : Bytes) (m : MemIndex)
    → find_recovered k (delete id m) ≡ (if bytes_beq id k then none else find_recovered k m)
unfolding find_recovered get delete
find_recovered-delete id k m = ground (arith, lookup-erase id k m.docs)

-- The in-memory index is an index that a recovery can fill.
abbrev pub mem_document_index : DocumentIndex
mem_document_index = record {
  Index = MemIndex;
  set_recovered = set_recovered;
  delete = delete;
  find = find_recovered;
  find-set_recovered = find_recovered-set;
  find-delete = find_recovered-delete;
}
