-- ===== src/Db/Runs.antt =====
-- Concrete in-memory indexes, and the theorems of the index applied to them.
use selfstack.Prelude.{ℕ, Bool, true, false, ltb, length, map, arith, ◌≡◌, List, [], ◌∷◌}
use selfstack.Prelude.Maps.{bytes_eq}
use selfstack.Bytes.{Bytes}
use selfstack.Wal.Payload.{Embedding}
use selfstack.Db.Store.{Store, SearchResult, add, search}
use selfstack.Db.Store.Sorted.{IsSorted, result_of, up_to, search_best_first}
use mathlib.Core.List.{Perm}
use selfstack.Db.MemIndex.{Document, MemIndex, new_mem_index}
use selfstack.Prelude.Sorting as ByScore
use selfstack.Db.MemIndex.Laws.{Change, put, drop_doc, run}

abbrev doc_a : Bytes
doc_a = 97 ∷ []

abbrev doc_b : Bytes
doc_b = 98 ∷ []

abbrev document : Bytes → Document
document id = record {
  id = id;
  source = [];
  title = [];
  text = [];
  metadata = [];
  created_at = 0;
  embedding = [];
}

abbrev changes : List Change
changes = put doc_a (document doc_a) ∷ put doc_b (document doc_b) ∷ drop_doc doc_a ∷ []

abbrev index : MemIndex
index = run changes new_mem_index

-- A score that counts the dimensions, with the order of numbers.
abbrev higher : ℕ → ℕ → Bool
higher a b = ltb b a

higher-asym : (a b : ℕ) → higher a b ≡ true → higher b a ≡ false
higher-asym a b h = grind arith

higher-negtrans : (a b c : ℕ) → higher a b ≡ false → higher b c ≡ false → higher a c ≡ false
higher-negtrans a b c h k = grind arith

abbrev dimensions : Embedding → Embedding → ℕ
dimensions query embedding = length embedding

abbrev store : Store
store =
    add (record (document doc_a) { embedding = 1 ∷ [] })
      (record { docs = document doc_b ∷ []; modified = false })

search_best_first_example :
    (ranked : List (SearchResult ℕ)) × Perm ranked (map (result_of dimensions []) store.docs)
    × IsSorted higher ranked
    × (search ℕ higher dimensions [] 1 store ≡ up_to 1 ranked)
search_best_first_example =
    search_best_first higher higher-asym higher-negtrans dimensions [] 1 store
