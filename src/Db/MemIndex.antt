-- ===== src/Db/MemIndex.antt =====
-- internal/scope/db/memindex.go: the in-memory index. Its mutex is not modelled: every operation
-- here is one critical section.
pub mod Laws
pub mod Search
use selfstack.Prelude.{
  ℕ, ◌≡◌, List, [], ◌∷◌, Bool, true, false, Option, none, some, length, map, if◌then◌else◌,
}
use selfstack.Prelude.Maps.{Map, lookup, insert, erase, bytes_eq}
use selfstack.Bytes.{Bytes}
use selfstack.Wal.Payload.{Embedding}
use selfstack.Wal.Index.{RecoveredDoc}

-- `Document` of store.go.
pub record Document : Type 0 where
  pub id : Bytes
  pub source : Bytes
  pub title : Bytes
  pub text : Bytes
  pub metadata : List (Bytes × Bytes)
  pub created_at : ℕ
  pub embedding : Embedding

pub record MemIndex : Type 0 where
  pub docs : Map Bytes Document

unfoldable pub new_mem_index : MemIndex
new_mem_index = record { docs = [] }

unfoldable pub set : Bytes → Document → MemIndex → MemIndex
set doc_id doc m = record { docs = insert doc_id doc m.docs }

unfoldable pub of_recovered : RecoveredDoc → Document
of_recovered doc = record {
  id = doc.doc_id;
  source = doc.source;
  title = doc.title;
  text = doc.text;
  metadata = doc.metadata;
  created_at = doc.created_at;
  embedding = doc.embedding;
}

unfoldable pub set_recovered : RecoveredDoc → MemIndex → MemIndex
set_recovered doc m = record { docs = insert doc.doc_id (of_recovered doc) m.docs }

unfoldable pub delete : Bytes → MemIndex → MemIndex
delete doc_id m = record { docs = erase doc_id m.docs }

unfoldable pub get : Bytes → MemIndex → Option Document
get doc_id m = lookup doc_id m.docs

unfoldable pub count : MemIndex → ℕ
count m = length m.docs

unfoldable pub has : Bytes → MemIndex → Bool
has doc_id m = elim (lookup doc_id m.docs) [ none ↦ false | some _ ↦ true ]

unfoldable pub all : MemIndex → List Document
all m = map (λ entry. entry.1) m.docs

unfoldable pub all_ids : MemIndex → List Bytes
all_ids m = map (λ entry. entry.0) m.docs

unfoldable pub clear : MemIndex → MemIndex
clear m = record { docs = [] }

-- `Range` with a callback that threads a state and says whether to go on.
range_loop {ℓ} : {S : Type ℓ} → (Bytes → Document → S → S × Bool) → Map Bytes Document → S → S
range_loop fn [] s = s
range_loop fn ((id, doc) ∷ docs) s =
    let (s', more) = fn id doc s in let rest = range_loop fn docs s' in if more then rest else s'

unfoldable pub range {ℓ} : {S : Type ℓ} → (Bytes → Document → S → S × Bool) → MemIndex → S → S
unfolding range_loop
range fn m s = range_loop fn m.docs s

-- for id, doc := range m.docs { clone.docs[id] = doc }
copy_into : Map Bytes Document → MemIndex → MemIndex
copy_into [] m = m
copy_into ((id, doc) ∷ docs) m = copy_into docs (record { docs = insert id doc m.docs })

unfoldable pub clone : MemIndex → MemIndex
unfolding copy_into
clone m = copy_into m.docs (record { docs = [] })
