-- ===== src/Search/Engine.antt =====
-- The documents that the engine finds.
use selfstack.Prelude.{
  ℕ, suc, ◌+◌, ◌-◌, ◌≡◌, refl, sym, ap, ◌∙◌, List, [], ◌∷◌, take, max, true, false, leb,
  if◌then◌else◌, arith, Bool-cases, leb→le, take-nil, inl, inr,
}
use selfstack.Prelude.Maps.{Map}
use selfstack.Bytes.{Bytes}
use selfstack.Search.{contains, MemoryEngine, search_loop, engine_search}

-- The IDs of all documents that contain the query.
unfoldable pub matching : Bytes → Map Bytes Bytes → List Bytes
matching query [] = []
matching query ((doc_id, content) ∷ docs) =
    let rest = matching query docs in if contains content query then doc_id ∷ rest else rest

search_loop-take :
    (query : Bytes) (limit found : ℕ) (docs : Map Bytes Bytes)
    → search_loop query limit found docs ≡ take (max (limit - found) 1) (matching query docs)
unfolding search_loop matching
search_loop-take query limit found [] = sym (take-nil (max (limit - found) 1))
search_loop-take query limit found ((doc_id, content) ∷ docs) =
    elim (Bool-cases (contains content query)) [
      | inr other ↦ rw other (search_loop-take query limit found docs)
      | inl match ↦ rw match (elim (Bool-cases (leb limit (found + 1))) [
        | inl full ↦ rw (full, one full) refl
        | inr more ↦
            rw (more, next more)
              (ap (λ t. doc_id ∷ t) (search_loop-take query limit (found + 1) docs))
      ])
    ]
  where
    one : leb limit (found + 1) ≡ true → max (limit - found) 1 ≡ 1
    one full = omega (arith, leb→le limit (found + 1) full)

    next : leb limit (found + 1) ≡ false → max (limit - found) 1 ≡ suc (max (limit - (found + 1)) 1)
    next more = grind arith

-- A search returns the IDs of the documents that contain the query, in the order of the map, and no
-- more of them than the limit; a limit of 0 stands for 1.
pub engine_search_lem :
    (query : Bytes) (limit : ℕ) (e : MemoryEngine)
    → engine_search query limit e ≡ take (max limit 1) (matching query e.docs)
unfolding engine_search
engine_search_lem query limit e =
    search_loop-take query limit 0 e.docs
    ∙ ap (λ n. take (max n 1) (matching query e.docs)) (omega arith)
