-- ===== src/Search.antt =====
-- internal/scope/search/search.go: the in-memory search engine. A Go string is its bytes.
pub mod Substring
pub mod Engine
mod Runs
use selfstack.Prelude.{
  ℕ, zero, suc, ◌+◌, ◌-◌, List, [], ◌∷◌, length, Bool, true, false, ◌&&◌, ◌||◌, leb, ◌==◌,
  if◌then◌else◌,
}
use selfstack.Prelude.Maps.{Map, insert, bytes_beq, bytes_eq}
use selfstack.Bytes.{Bytes, slice}

-- The rounds of the loop in `findSubstring` from the index i on.
unfoldable pub find_from : ℕ → ℕ → Bytes → Bytes → Bool
find_from zero i s substr = false
find_from (suc rounds) i s substr =
    let rest = find_from rounds (i + 1) s substr in
    if bytes_beq (slice i (length substr) s) substr then true else rest

-- i <= len(s)-len(substr): as ints, so that there is no round where the difference is negative.
unfoldable pub find_substring : Bytes → Bytes → Bool
find_substring s substr =
    let rest = find_from (length s - length substr + 1) 0 s substr in
    if leb (length substr) (length s) then rest else false

unfoldable pub contains : Bytes → Bytes → Bool
contains s substr =
    leb (length substr) (length s) && (length substr == 0 || find_substring s substr)

pub record MemoryEngine : Type 0 where
  pub docs : Map Bytes Bytes

unfoldable pub new_memory_engine : MemoryEngine
new_memory_engine = record { docs = [] }

unfoldable pub index : Bytes → Bytes → MemoryEngine → MemoryEngine
index doc_id content e = record { docs = insert doc_id content e.docs }

-- The loop of `Search`, with the number of results so far: the results that it still appends.
unfoldable pub search_loop : Bytes → ℕ → ℕ → Map Bytes Bytes → List Bytes
search_loop query limit found [] = []
search_loop query limit found ((doc_id, content) ∷ docs) =
    let without = search_loop query limit found docs in
    let more = search_loop query limit (found + 1) docs in
    if contains content query
    then doc_id ∷ (if leb limit (found + 1) then [] else more)
    else without

unfoldable pub engine_search : Bytes → ℕ → MemoryEngine → List Bytes
engine_search query limit e = search_loop query limit 0 e.docs
