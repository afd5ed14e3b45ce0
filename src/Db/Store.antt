-- ===== src/Db/Store.antt =====
-- internal/scope/db/store.go: the file store's documents in memory. A score is a float32: its type,
-- the similarity and the comparison are parameters. Each operation is one critical section.
pub mod Sorted
pub mod Disk
pub mod Written
pub mod Reload
use selfstack.Prelude.{
  ℕ, zero, suc, ◌≤◌, ◌<◌, ◌≡◌, List, [], ◌∷◌, ◌++◌, length, take, map, Bool, true, false, ◌&&◌, ltb,
  if◌then◌else◌,
}
use selfstack.Prelude.Maps.{bytes_beq}
use selfstack.Bytes.{Bytes}
use selfstack.Wal.Payload.{Embedding}
use selfstack.Db.MemIndex.{Document}

pub record Store : Type 0 where
  pub docs : List Document
  pub modified : Bool

-- for i := range s.docs { if s.docs[i].ID == doc.ID { s.docs[i] = doc; return } }, then the append.
unfoldable pub put : Document → List Document → List Document
put doc [] = doc ∷ []
put doc (d ∷ ds) = let rest = put doc ds in if bytes_beq d.id doc.id then doc ∷ ds else d ∷ rest

unfoldable pub add : Document → Store → Store
add doc s = record { docs = put doc s.docs; modified = true }

unfoldable pub store_count : Store → ℕ
store_count s = length s.docs

module _ (Score : Type 0) where
  pub record SearchResult : Type 0 where
    pub doc_id : Bytes
    pub score : Score
    pub title : Bytes
    pub text : Bytes
    pub source : Bytes
    pub metadata : List (Bytes × Bytes)
    pub created_at : ℕ

  -- limit > 0 && limit < len(results)
  unfoldable pub limited : ℕ → List SearchResult → List SearchResult
  limited limit rs = if ltb 0 limit && ltb limit (length rs) then take limit rs else rs

  module _ (higher : Score → Score → Bool) where
    -- The inner loop: the result at i and those behind it, after every j.
    unfoldable pub exchange : SearchResult → List SearchResult → SearchResult × List SearchResult
    exchange at_i [] = (at_i, [])
    exchange at_i (at_j ∷ rest) =
        let (top, below) = exchange at_j rest in
        let (top', below') = exchange at_i rest in
        if higher at_j.score at_i.score then (top, at_i ∷ below) else (top', at_j ∷ below')

    -- The outer loop, on as many results as there are.
    unfoldable pub exchange_sort : ℕ → List SearchResult → List SearchResult
    exchange_sort zero rs = rs
    exchange_sort (suc n) [] = []
    exchange_sort (suc n) (r ∷ rs) = let (top, below) = exchange r rs in top ∷ exchange_sort n below

    module _ (cosine_similarity : Embedding → Embedding → Score) where
      unfoldable pub scored : Embedding → Document → SearchResult
      scored query doc = record {
        doc_id = doc.id;
        score = cosine_similarity query doc.embedding;
        title = doc.title;
        text = doc.text;
        source = doc.source;
        metadata = doc.metadata;
        created_at = doc.created_at;
      }

      unfoldable pub search : Embedding → ℕ → Store → List SearchResult
      search query limit s =
          let results = map (scored query) s.docs in
          limited limit (exchange_sort (length results) results)
