-- ===== src/Search/Runs.antt =====
-- A concrete search.
use selfstack.Prelude.{◌≡◌, ◌↔◌, [], ◌∷◌, true, take, max}
use selfstack.Bytes.{Bytes}
use selfstack.Search.{contains, MemoryEngine, new_memory_engine, index, engine_search}
use selfstack.Search.Substring.{Occurs, contains_iff}
use selfstack.Search.Engine.{matching, engine_search_lem}

abbrev hello : Bytes
hello = 104 ∷ 101 ∷ 108 ∷ 108 ∷ 111 ∷ []

abbrev ell : Bytes
ell = 101 ∷ 108 ∷ 108 ∷ []

contains_iff_example : (contains hello ell ≡ true) ↔ Occurs hello ell
contains_iff_example = contains_iff hello ell

abbrev engine : MemoryEngine
engine = index (49 ∷ []) hello (index (50 ∷ []) ell new_memory_engine)

engine_search_lem_example : engine_search ell 0 engine ≡ take (max 0 1) (matching ell engine.docs)
engine_search_lem_example = engine_search_lem ell 0 engine
