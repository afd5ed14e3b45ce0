-- ===== src/Db/Store/Sorted.antt =====
-- The results of a search: all documents, best first, up to the limit.
use selfstack.Prelude.{
  ℕ, zero, suc, ◌≤◌, ◌≡◌, refl, List, [], ◌∷◌, length, map, Bool, true, false, if-split, arith,
  Bool-cases, inl, inr, All, take, take_all, ltb, sym, subst, ◌&&◌,
}
use mathlib.Core.List.{Perm}
use mathlib.Core.List.Perm
use selfstack.Db.Store.{Store, SearchResult, exchange, exchange_sort, limited, scored, search}
use selfstack.Wal.Payload.{Embedding}
use selfstack.Db.MemIndex.{Document}

-- The result for a document, each field beside the document's.
abbrev pub result_of :
    {Score : Type 0} → (Embedding → Embedding → Score) → Embedding → Document → SearchResult Score
result_of cosine_similarity query doc = record {
  doc_id = doc.id;
  score = cosine_similarity query doc.embedding;
  title = doc.title;
  text = doc.text;
  source = doc.source;
  metadata = doc.metadata;
  created_at = doc.created_at;
}

-- As many as the limit allows; 0 allows all.
abbrev pub up_to : {A : Type 0} → ℕ → List A → List A
up_to zero rs = rs
up_to (suc n) rs = take (suc n) rs

pub map-scored :
    {Score : Type 0} (higher : Score → Score → Bool)
    (cosine_similarity : Embedding → Embedding → Score) (query : Embedding) (docs : List Document)
    → map (scored Score higher cosine_similarity query) docs
      ≡ map (result_of cosine_similarity query) docs
unfolding scored
map-scored higher cosine_similarity query docs = refl

pub limited-up_to :
    {Score : Type 0} (limit : ℕ) (rs : List (SearchResult Score))
    → limited Score limit rs ≡ up_to limit rs
unfolding limited
limited-up_to zero rs = refl
limited-up_to (suc n) rs =
    if-split (λ (out : List _). out ≡ take (suc n) rs) (ltb 0 (suc n) && ltb (suc n) (length rs)) _
      _ (λ more. refl) (λ few. sym (take_all (suc n) rs (ground arith)))

module _ {Score : Type 0} (higher : Score → Score → Bool) where
  -- No result in the list is higher than r.
  abbrev IsTop : SearchResult Score → List (SearchResult Score) → Type 0
  IsTop r rs = All (λ (x : SearchResult Score). higher x.score r.score ≡ false) rs

  abbrev pub IsSorted : List (SearchResult Score) → Type 0
  IsSorted [] = Unit {0}
  IsSorted (r ∷ rs) = IsTop r rs × IsSorted rs

-- What the scores of a search keep to: `higher` is a strict weak order, as > is on the float32s
-- that are not NaN.
module _ {Score : Type 0} (higher : Score → Score → Bool)
    (asym : (a b : Score) → higher a b ≡ true → higher b a ≡ false)
    (negtrans : (a b c : Score)
      → higher a b ≡ false
      → higher b c ≡ false
      → higher a c ≡ false) where
  exchange-Perm :
      (r : SearchResult Score) (rs : List (SearchResult Score))
      → let (top, below) = exchange Score higher r rs in Perm (top ∷ below) (r ∷ rs)
  unfolding exchange
  exchange-Perm r [] = Perm.refl (r ∷ [])
  exchange-Perm r (x ∷ xs) = elim (Bool-cases (higher x.score r.score)) [
    | inl up ↦ rw up (Perm.trans (Perm.swap r _ _) (Perm.cons r (exchange-Perm x xs)))
    | inr stays ↦ rw stays (
        Perm.trans (Perm.swap x _ _)
          (Perm.trans (Perm.cons x (exchange-Perm r xs)) (Perm.swap r x xs)))
  ]

  irrefl : (a : Score) → higher a a ≡ false
  irrefl a = elim (Bool-cases (higher a a)) [ inl up ↦ asym a a up | inr down ↦ down ]

  -- The top is not beaten by anything, and no lower than where it started.
  exchange-IsTop :
      (r : SearchResult Score) (rs : List (SearchResult Score))
      → let (top, below) = exchange Score higher r rs in IsTop higher top (r ∷ below)
  unfolding exchange
  exchange-IsTop r [] = (irrefl r.score, tt)
  exchange-IsTop r (x ∷ xs) =
      let up_pair = exchange Score higher x xs in
      let stay_pair = exchange Score higher r xs in
      if-split (λ (p : SearchResult Score × List (SearchResult Score)). IsTop higher p.0 (r ∷ p.1))
        (higher x.score r.score) (up_pair.0, r ∷ up_pair.1) (stay_pair.0, x ∷ stay_pair.1)
        (λ up.
          let (h, rest) = exchange-IsTop x xs in
          let h' = negtrans r.score x.score up_pair.0.score (asym x.score r.score up) h in
          (h', (h', rest)))
        (λ stays.
          let (h, rest) = exchange-IsTop r xs in
          (h, (negtrans x.score r.score stay_pair.0.score stays h, rest)))

  exchange-All :
      (P : SearchResult Score → Type 0) (r : SearchResult Score) (rs : List (SearchResult Score))
      → P r
      → All P rs
      → let (top, below) = exchange Score higher r rs in P top × All P below
  unfolding exchange
  exchange-All P r [] p h = (p, tt)
  exchange-All P r (x ∷ xs) p (q, h) = elim (Bool-cases (higher x.score r.score)) [
    | inl up ↦ let (t, rest) = exchange-All P x xs q h in rw up (t, (p, rest))
    | inr stays ↦ let (t, rest) = exchange-All P r xs p h in rw stays (t, (q, rest))
  ]

  sort-All :
      (P : SearchResult Score → Type 0) (n : ℕ) (rs : List (SearchResult Score))
      → All P rs
      → All P (exchange_sort Score higher n rs)
  unfolding exchange_sort
  sort-All P zero rs h = h
  sort-All P (suc n) [] h = tt
  sort-All P (suc n) (r ∷ rs) (p, h) =
      let (t, rest) = exchange-All P r rs p h in
      (t, sort-All P n (exchange Score higher r rs).1 rest)

  length-exchange :
      (r : SearchResult Score) (rs : List (SearchResult Score))
      → length (exchange Score higher r rs).1 ≡ length rs
  unfolding exchange
  length-exchange r [] = refl
  length-exchange r (x ∷ xs) = ground (arith, length-exchange r xs, length-exchange x xs)

  sort-Perm : (n : ℕ) (rs : List (SearchResult Score)) → Perm (exchange_sort Score higher n rs) rs
  unfolding exchange_sort
  sort-Perm zero rs = Perm.refl rs
  sort-Perm (suc n) [] = Perm.refl []
  sort-Perm (suc n) (r ∷ rs) =
      Perm.trans (Perm.cons _ (sort-Perm n (exchange Score higher r rs).1)) (exchange-Perm r rs)

  sort-IsSorted :
      (n : ℕ) (rs : List (SearchResult Score))
      → length rs ≤ n
      → IsSorted higher (exchange_sort Score higher n rs)
  unfolding exchange_sort
  sort-IsSorted zero [] h = tt
  sort-IsSorted zero (r ∷ rs) h = absurd (omega arith)
  sort-IsSorted (suc n) [] h = tt
  sort-IsSorted (suc n) (r ∷ rs) h =
      let (top, below) = exchange Score higher r rs in
      (
        sort-All (λ x. higher x.score top.score ≡ false) n below (exchange-IsTop r rs).1,
        sort-IsSorted n below (omega (arith, length-exchange r rs)),
      )

  -- A search scores every document once, by the query and its embedding, and returns the results with the
  -- documents' fields, best first, up to the limit: there is a rearrangement of the results for all
  -- documents in which none is higher than one before it, and what is returned are its first ones, as
  -- many as the limit says, and all where it is 0 or there are no more. The comparison is asymmetric,
  -- and what is not higher than something not higher than a third is not higher than the third.
  pub search_best_first :
      (cosine_similarity : Embedding → Embedding → Score) (query : Embedding) (limit : ℕ)
      (s : Store)
      → (ranked : List (SearchResult Score)) × Perm ranked
          (map (result_of cosine_similarity query) s.docs)
        × IsSorted higher ranked
        × (search Score higher cosine_similarity query limit s ≡ up_to limit ranked)
  unfolding search
  search_best_first cosine_similarity query limit s =
      let results = map (scored Score higher cosine_similarity query) s.docs in
      (
        exchange_sort Score higher (length results) results,
        subst (Perm _) (map-scored higher cosine_similarity query s.docs)
            (sort-Perm (length results) results),
        sort-IsSorted (length results) results (omega arith),
        limited-up_to limit _,
      )
