-- ===== src/Db/MemIndex/Search.antt =====
-- internal/scope/db/memindex.go: `Search`, which `WALStore.Search` calls. Scores, the similarity and
-- the comparison are parameters, as they are for the file store; the order that sort.Slice leaves
-- between equal scores is left open by the library.
use selfstack.Prelude.{ℕ, List, [], length, map, Bool, ◌==◌, if◌then◌else◌}
use selfstack.Prelude.Sorting.{sort_slice}
use selfstack.Bytes.{Bytes}
use selfstack.Wal.Payload.{Embedding}
use selfstack.Db.MemIndex.{MemIndex, all}
use selfstack.Db.Store.{SearchResult, limited, scored}

module _ (Score : Type 0) (higher : Score → Score → Bool) where
  abbrev pub by_score : SearchResult Score → SearchResult Score → Bool
  by_score a b = higher a.score b.score

  -- An index without documents gives nil, which is read as an empty list.
  unfoldable pub mem_search :
      (Embedding → Embedding → Score) → Embedding → ℕ → MemIndex → List (SearchResult Score)
  mem_search cosine_similarity query limit m =
      let results = map (scored Score higher cosine_similarity query) (all m) in
      if length m.docs == 0 then [] else limited Score limit (sort_slice by_score results)
