-- ===== src/Prelude/Sorting.antt =====
-- Go's sort.Slice, as insertion. The order of elements of which neither is less is left open by the
-- library; it is one of them here.
use mathlib.Core.Path.{◌≡◌, refl}
use mathlib.Core.Bool.{Bool, true, false}
use mathlib.Core.Logic.{◌⊎◌, inl, inr}
use mathlib.Core.List.{List, [], ◌∷◌, Perm}
use mathlib.Core.List.Perm
use Prim.Native.Nat.{suc}
use native.Mathlib.Omega.{arith}
use selfstack.Prelude.Tests.{if◌then◌else◌, if-split, Bool-cases}
use selfstack.Prelude.Lists.{length, All, Any}

module _ {A : Type 0} (less : A → A → Bool) where
  unfoldable pub insert_sorted : A → List A → List A
  insert_sorted a [] = a ∷ []
  insert_sorted a (x ∷ xs) =
      let rest = insert_sorted a xs in if less x a then x ∷ rest else a ∷ x ∷ xs

  unfoldable pub sort_slice : List A → List A
  sort_slice [] = []
  sort_slice (x ∷ xs) = insert_sorted x (sort_slice xs)

  insert_sorted-Perm : (a : A) (xs : List A) → Perm (insert_sorted a xs) (a ∷ xs)
  unfolding insert_sorted
  insert_sorted-Perm a [] = Perm.refl (a ∷ [])
  insert_sorted-Perm a (x ∷ xs) = elim (Bool-cases (less x a)) [
    | inl below ↦ rw below (Perm.trans (Perm.cons x (insert_sorted-Perm a xs)) (Perm.swap a x xs))
    | inr here ↦ rw here (Perm.refl (a ∷ x ∷ xs))
  ]

  pub sort_slice-Perm : (xs : List A) → Perm (sort_slice xs) xs
  unfolding sort_slice
  sort_slice-Perm [] = Perm.refl []
  sort_slice-Perm (x ∷ xs) =
      Perm.trans (insert_sorted-Perm x (sort_slice xs)) (Perm.cons x (sort_slice-Perm xs))

  insert_sorted-length : (a : A) (xs : List A) → length (insert_sorted a xs) ≡ suc (length xs)
  unfolding insert_sorted
  insert_sorted-length a [] = refl
  insert_sorted-length a (x ∷ xs) = ground (arith, insert_sorted-length a xs)

  pub sort_slice-length : (xs : List A) → length (sort_slice xs) ≡ length xs
  unfolding sort_slice
  sort_slice-length [] = refl
  sort_slice-length (x ∷ xs) =
      omega (arith, insert_sorted-length x (sort_slice xs), sort_slice-length xs)

  -- What holds of all elements, or of some, holds of them in any order.
  module _ (P : A → Type 0) where
    insert_sorted-All : (a : A) (xs : List A) → P a → All P xs → All P (insert_sorted a xs)
    unfolding insert_sorted
    insert_sorted-All a [] p h = (p, tt)
    insert_sorted-All a (x ∷ xs) p (q, h) = elim (Bool-cases (less x a)) [
      | inl below ↦ rw below (q, insert_sorted-All a xs p h)
      | inr here ↦ rw here (p, (q, h))
    ]

    pub sort_slice-All : (xs : List A) → All P xs → All P (sort_slice xs)
    unfolding sort_slice
    sort_slice-All [] h = tt
    sort_slice-All (x ∷ xs) (p, h) = insert_sorted-All x (sort_slice xs) p (sort_slice-All xs h)

    All-insert_sorted : (a : A) (xs : List A) → All P (insert_sorted a xs) → P a × All P xs
    unfolding insert_sorted
    All-insert_sorted a [] h = h
    All-insert_sorted a (x ∷ xs) h =
        if-split (λ ys. All P ys → P a × All P (x ∷ xs)) (less x a) (x ∷ insert_sorted a xs)
          (a ∷ x ∷ xs)
          (λ below (q, rest). let (p, all) = All-insert_sorted a xs rest in (p, (q, all)))
          (λ here (p, (q, all)). (p, (q, all))) h

    pub All-sort_slice : (xs : List A) → All P (sort_slice xs) → All P xs
    unfolding sort_slice
    All-sort_slice [] h = tt
    All-sort_slice (x ∷ xs) h =
        let (p, all) = All-insert_sorted x (sort_slice xs) h in (p, All-sort_slice xs all)

    insert_sorted-Any : (a : A) (xs : List A) → P a ⊎ Any P xs → Any P (insert_sorted a xs)
    unfolding insert_sorted
    insert_sorted-Any a [] h = h
    insert_sorted-Any a (x ∷ xs) h = elim (Bool-cases (less x a)) [
      | inl below ↦ rw below (elim h [
        | inl p ↦ inr (insert_sorted-Any a xs (inl p))
        | inr (inl q) ↦ inl q
        | inr (inr r) ↦ inr (insert_sorted-Any a xs (inr r))
      ])
      | inr here ↦ rw here h
    ]

    Any-insert_sorted : (a : A) (xs : List A) → Any P (insert_sorted a xs) → P a ⊎ Any P xs
    unfolding insert_sorted
    Any-insert_sorted a [] h = h
    Any-insert_sorted a (x ∷ xs) h =
        if-split (λ ys. Any P ys → P a ⊎ Any P (x ∷ xs)) (less x a) (x ∷ insert_sorted a xs)
          (a ∷ x ∷ xs)
          (λ below found. elim found [
            | inl q ↦ inr (inl q)
            | inr r ↦ elim (Any-insert_sorted a xs r) [ inl p ↦ inl p | inr t ↦ inr (inr t) ]
          ])
          (λ here found. found) h

    pub sort_slice-Any : (xs : List A) → Any P xs → Any P (sort_slice xs)
    unfolding sort_slice
    sort_slice-Any [] h = h
    sort_slice-Any (x ∷ xs) (inl p) = insert_sorted-Any x (sort_slice xs) (inl p)
    sort_slice-Any (x ∷ xs) (inr h) =
        insert_sorted-Any x (sort_slice xs) (inr (sort_slice-Any xs h))

    pub Any-sort_slice : (xs : List A) → Any P (sort_slice xs) → Any P xs
    unfolding sort_slice
    Any-sort_slice [] h = h
    Any-sort_slice (x ∷ xs) h = elim (Any-insert_sorted x (sort_slice xs) h) [
      | inl p ↦ inl p
      | inr r ↦ inr (Any-sort_slice xs r)
    ]

  -- No element is less than one before it.
  abbrev pub IsSorted : List A → Type 0
  IsSorted [] = Unit {0}
  IsSorted (x ∷ xs) = All (λ y. less y x ≡ false) xs × IsSorted xs

  module _ (asym : (a b : A) → less a b ≡ true → less b a ≡ false)
      (negtrans : (a b c : A) → less a b ≡ false → less b c ≡ false → less a c ≡ false) where
    behind :
        (a x : A) (xs : List A)
        → less x a ≡ false
        → All (λ y. less y x ≡ false) xs
        → All (λ y. less y a ≡ false) xs
    behind a x [] h all = tt
    behind a x (y ∷ ys) h (p, all) = (negtrans y x a p h, behind a x ys h all)

    insert_sorted-IsSorted : (a : A) (xs : List A) → IsSorted xs → IsSorted (insert_sorted a xs)
    unfolding insert_sorted
    insert_sorted-IsSorted a [] h = (tt, tt)
    insert_sorted-IsSorted a (x ∷ xs) (top, h) = elim (Bool-cases (less x a)) [
      | inl below ↦ rw below (
        insert_sorted-All (λ y. less y x ≡ false) a xs (asym x a below) top,
        insert_sorted-IsSorted a xs h,
      )
      | inr here ↦ rw here ((here, behind a x xs here top), (top, h))
    ]

    pub sort_slice-IsSorted : (xs : List A) → IsSorted (sort_slice xs)
    unfolding sort_slice
    sort_slice-IsSorted [] = tt
    sort_slice-IsSorted (x ∷ xs) = insert_sorted-IsSorted x (sort_slice xs) (sort_slice-IsSorted xs)
