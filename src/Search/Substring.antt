-- ===== src/Search/Substring.antt =====
-- What it is to be found in a string.
use selfstack.Prelude.{
  ℕ, zero, suc, ◌+◌, ◌-◌, ◌≤◌, ◌<◌, ◌≡◌, ◌↔◌, ◌⊎◌, refl, sym, ap, ◌∙◌, subst, [], ◌∷◌, ◌++◌, length,
  take, drop, Bool, true, false, ◌||◌, ◌==◌, arith, Bool-cases, inl, inr, length-append,
  take-append-drop, take-length_append, drop-length_append, le→leb, ==→eq,
}
use selfstack.Prelude.Maps.{bytes_beq, bytes_beq_iff}
use selfstack.Bytes.{Bytes, slice}
use selfstack.Search.{find_from, find_substring, contains}

module _ (s substr : Bytes) where
  -- A round that succeeds.
  find_from-inv :
      (rounds i : ℕ)
      → find_from rounds i s substr ≡ true
      → (j : ℕ) × (slice j (length substr) s ≡ substr)
  unfolding find_from
  find_from-inv zero i h = cc
  find_from-inv (suc rounds) i h =
      elim (Bool-cases (bytes_beq (slice i (length substr) s) substr)) [
        | inl here ↦ (i, (bytes_beq_iff (slice i (length substr) s) substr).0 here)
        | inr later ↦ find_from-inv rounds (i + 1) (ground (arith, h, later))
      ]

  find_from-found :
      (rounds i j : ℕ)
      → i ≤ j
      → j < i + rounds
      → slice j (length substr) s ≡ substr
      → find_from rounds i s substr ≡ true
  unfolding find_from
  find_from-found zero i j low high e = absurd (omega arith)
  find_from-found (suc rounds) i j low high e =
      elim (Bool-cases (bytes_beq (slice i (length substr) s) substr)) [
        | inl here ↦ rw here refl
        | inr later ↦ rw later (find_from-found rounds (i + 1) j (further later) (omega arith) e)
      ]
    where
      contra : bytes_beq (slice i (length substr) s) substr ≡ false → i ≡ j → ⊥
      contra later same =
          let found =
            (bytes_beq_iff (slice i (length substr) s) substr).1
              (subst (λ k. slice k (length substr) s ≡ substr) (sym same) e) in
          cc (later, found)

      further : bytes_beq (slice i (length substr) s) substr ≡ false → i + 1 ≤ j
      further later = elim (Bool-cases (i == j)) [
        | inl same ↦ absurd (contra later (==→eq i j same))
        | inr other ↦ grind arith
      ]

  -- The second string stands somewhere in the first.
  abbrev pub Occurs : Type 0
  Occurs = (before after : Bytes) × (s ≡ before ++ (substr ++ after))

  slice-Occurs : (j : ℕ) → slice j (length substr) s ≡ substr → Occurs
  slice-Occurs j e = (
    take j s,
    drop (length substr) (drop j s),
    sym (
        ap (λ t. take j s ++ t)
          (ap (λ t. t ++ drop (length substr) (drop j s)) (sym e)
            ∙ take-append-drop (length substr) (drop j s))
        ∙ take-append-drop j s),
  )

  Occurs-slice :
      Occurs → (j : ℕ) × (slice j (length substr) s ≡ substr) × (j + length substr ≤ length s)
  Occurs-slice (before, after, e) = (
    length before,
    ap (λ t. take (length substr) (drop (length before) t)) e
        ∙ ap (take (length substr)) (drop-length_append before (substr ++ after))
        ∙ take-length_append substr after,
    subst (λ t. length before + length substr ≤ length t) (sym e)
        (omega (arith, length-append before (substr ++ after), length-append substr after)),
  )

  -- `contains` holds exactly of the strings in which the second one stands somewhere.
  pub contains_iff : (contains s substr ≡ true) ↔ Occurs
  unfolding contains find_substring
  contains_iff = (sound, complete)
    where
      nothing : (t : Bytes) → length t ≡ 0 → slice 0 (length t) s ≡ t
      nothing [] h = refl
      nothing (x ∷ xs) h = absurd (omega arith)

      either : (b : Bool) → (b || true) ≡ true
      either true = refl
      either false = refl

      parts :
          contains s substr ≡ true
          → ((length substr == 0) ≡ true)
            ⊎ (find_from (length s - length substr + 1) 0 s substr ≡ true)
      parts h = ground (arith, h)

      sound : contains s substr ≡ true → Occurs
      sound h = elim (parts h) [
        | inl empty ↦ slice-Occurs 0 (nothing substr (==→eq (length substr) 0 empty))
        | inr found ↦ let (j, e) = find_from-inv _ 0 found in slice-Occurs j e
      ]

      complete : Occurs → contains s substr ≡ true
      complete o =
          let (j, e, fits) = Occurs-slice o in
          let found =
            find_from-found (length s - length substr + 1) 0 j (omega arith) (omega arith) e in
          let short = le→leb (length substr) (length s) (omega arith) in
          rw (short, found) (either (length substr == 0))
