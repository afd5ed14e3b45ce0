-- ===== src/Prelude/Maps.antt =====
-- Go's maps as association lists without repeated keys. The order of the entries is that of the
-- first insertion; Go's own order of iteration is left open by the language.
use mathlib.Core.Path.{◌≡◌, refl}
use mathlib.Core.Bool.{Bool, true, false, ◌&&◌}
use mathlib.Core.Logic.{◌↔◌, inl, inr}
use mathlib.Core.Option.{Option, none, some}
use mathlib.Core.List.{List, [], ◌∷◌}
use Prim.Native.Nat.{ℕ, ◌+◌}
use native.Mathlib.Omega.{arith}
use selfstack.Prelude.Tests.{if◌then◌else◌, ◌==◌ as nat_beq, Bool-cases}
use selfstack.Prelude.Lists.{length, All}

pub record Eq {ℓ} (K : Type ℓ) : Type ℓ where
  pub beq : K → K → Bool
  pub beq_iff : (a b : K) → (beq a b ≡ true) ↔ (a ≡ b)

abbrev pub bytes_beq : List ℕ → List ℕ → Bool
bytes_beq [] [] = true
bytes_beq [] (y ∷ ys) = false
bytes_beq (x ∷ xs) [] = false
bytes_beq (x ∷ xs) (y ∷ ys) = nat_beq x y && bytes_beq xs ys

pub bytes_beq_iff : (a b : List ℕ) → (bytes_beq a b ≡ true) ↔ (a ≡ b)
bytes_beq_iff [] [] = (λ _. refl, λ _. refl)
bytes_beq_iff [] (y ∷ ys) = (λ e. cc, λ e. cc)
bytes_beq_iff (x ∷ xs) [] = (λ e. cc, λ e. cc)
bytes_beq_iff (x ∷ xs) (y ∷ ys) = ground (arith, bytes_beq_iff xs ys)

-- Go compares strings byte by byte.
instance abbrev pub bytes_eq : Eq (List ℕ)
bytes_eq = record { beq = bytes_beq; beq_iff = bytes_beq_iff }

abbrev pub Map {ℓ} : Type ℓ → Type ℓ → Type ℓ
Map K V = List (K × V)

module _ {ℓ} {K : Type ℓ} ⦃e : Eq K⦄ where
  pub beq_refl : (k : K) → e.beq k k ≡ true
  beq_refl k = (e.beq_iff k k).1 refl

  pub beq_sym : (a b : K) → e.beq a b ≡ e.beq b a
  beq_sym a b = ground (arith, e.beq_iff a b, e.beq_iff b a)

module _ {ℓ} {K V : Type ℓ} ⦃e : Eq K⦄ where
  -- v, ok := m[k]
  unfoldable pub lookup : K → Map K V → Option V
  lookup k [] = none
  lookup k ((j, v) ∷ m) = if e.beq j k then some v else lookup k m

  -- m[k] = v
  unfoldable pub insert : K → V → Map K V → Map K V
  insert k v [] = (k, v) ∷ []
  insert k v ((j, w) ∷ m) = if e.beq j k then (k, v) ∷ m else (j, w) ∷ insert k v m

  -- delete(m, k)
  unfoldable pub erase : K → Map K V → Map K V
  erase k [] = []
  erase k ((j, w) ∷ m) = let rest = erase k m in if e.beq j k then rest else (j, w) ∷ rest

  pub lookup-insert :
      (k j : K) (v : V) (m : Map K V)
      → lookup j (insert k v m) ≡ (if e.beq k j then some v else lookup j m)
  unfolding lookup insert
  lookup-insert k j v [] = refl
  lookup-insert k j v ((i, w) ∷ m) =
      ground (arith, e.beq_iff k j, e.beq_iff i k, e.beq_iff i j, lookup-insert k j v m)

  pub lookup-erase :
      (k j : K) (m : Map K V) → lookup j (erase k m) ≡ (if e.beq k j then none else lookup j m)
  unfolding lookup erase
  lookup-erase k j [] = ground arith
  lookup-erase k j ((i, w) ∷ m) =
      ground (arith, e.beq_iff k j, e.beq_iff i k, e.beq_iff i j, lookup-erase k j m)

  pub erase_missing : (k : K) (m : Map K V) → lookup k m ≡ none → erase k m ≡ m
  unfolding lookup erase
  erase_missing k [] h = refl
  erase_missing k ((j, w) ∷ m) h = ground (arith, erase_missing k m)

  -- No two entries have one key.
  abbrev pub IsFunctional : Map K V → Type ℓ
  IsFunctional [] = Unit {ℓ}
  IsFunctional ((k, v) ∷ m) = (lookup k m ≡ none) × IsFunctional m

  pub insert-IsFunctional :
      (k : K) (v : V) (m : Map K V) → IsFunctional m → IsFunctional (insert k v m)
  unfolding insert lookup
  insert-IsFunctional k v [] f = (refl, tt)
  insert-IsFunctional k v ((j, w) ∷ m) (h, f) =
      ground
        (arith, e.beq_iff j k, e.beq_iff k j, lookup-insert k j v m, insert-IsFunctional k v m f)

  pub erase-IsFunctional : (k : K) (m : Map K V) → IsFunctional m → IsFunctional (erase k m)
  unfolding erase lookup
  erase-IsFunctional k [] f = tt
  erase-IsFunctional k ((j, w) ∷ m) (h, f) =
      ground (arith, e.beq_iff k j, lookup-erase k j m, erase-IsFunctional k m f)

  -- The size grows by one where the key is new.
  pub length-insert :
      (k : K) (v : V) (m : Map K V)
      → length (insert k v m) ≡ (elim (lookup k m) [ none ↦ length m + 1 | some _ ↦ length m ])
  unfolding insert lookup
  length-insert k v [] = refl
  length-insert k v ((j, w) ∷ m) = ground (arith, length-insert k v m)

  pub length-erase :
      (k : K) (m : Map K V)
      → IsFunctional m
      → length m
        ≡ (elim (lookup k m) [ none ↦ length (erase k m) | some _ ↦ length (erase k m) + 1 ])
  unfolding erase lookup
  length-erase k [] f = refl
  length-erase k ((j, w) ∷ m) (h, f) = ground (arith, e.beq_iff j k, length-erase k m f)

  module _ {κ} (P : K × V → Type κ) where
    pub All-insert : (k : K) (v : V) (m : Map K V) → P (k, v) → All P m → All P (insert k v m)
    unfolding insert
    All-insert k v [] p h = (p, tt)
    All-insert k v ((j, w) ∷ m) p (q, h) = elim (Bool-cases (e.beq j k)) [
      | inl same ↦ rw same (p, h)
      | inr other ↦ rw other (q, All-insert k v m p h)
    ]

    pub All-erase : (k : K) (m : Map K V) → All P m → All P (erase k m)
    unfolding erase
    All-erase k [] h = tt
    All-erase k ((j, w) ∷ m) (q, h) = elim (Bool-cases (e.beq j k)) [
      | inl same ↦ rw same (All-erase k m h)
      | inr other ↦ rw other (q, All-erase k m h)
    ]
