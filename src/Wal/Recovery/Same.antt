-- ===== src/Wal/Recovery/Same.antt =====
-- When two collections of records say the same of a document.
use selfstack.Prelude.{
  ℕ, ◌≤◌, ◌≡◌, ◌≢◌, refl, sym, ◌∙◌, List, [], ◌∷◌, ◌++◌, Option, none, some, arith, All, Any, inl,
  inr, ◌⊎◌, Option-cases, subst,
}
use selfstack.Bytes.{Bytes}
use selfstack.Wal.Record.{Record}
use selfstack.Wal.Payload.{Json}
use selfstack.Wal.Index.{RecoveredDoc}
use selfstack.Wal.Recovery.Latest.{Known, latest, latest-append, learn, change}
use selfstack.Wal.Recovery.Highest.{IsHighest, latest-IsHighest, join, latest-join}

module _ (json : Json) (k : Bytes) where
  -- One of the records leaves the document in the state d, with the LSN l.
  abbrev pub Says : ℕ → Option RecoveredDoc → List Record → Type 0
  Says l d recs = Any (λ r. (change json r ≡ some (k, d)) × (r.lsn ≡ l)) recs

  pub Says-append :
      (l : ℕ) (d : Option RecoveredDoc) (xs ys : List Record)
      → Says l d xs ⊎ Says l d ys
      → Says l d (xs ++ ys)
  Says-append l d [] ys (inl a) = absurd a
  Says-append l d [] ys (inr b) = b
  Says-append l d (x ∷ xs) ys (inl (inl p)) = inl p
  Says-append l d (x ∷ xs) ys (inl (inr a)) = inr (Says-append l d xs ys (inl a))
  Says-append l d (x ∷ xs) ys (inr b) = inr (Says-append l d xs ys (inr b))

  pub append-Says :
      (l : ℕ) (d : Option RecoveredDoc) (xs ys : List Record)
      → Says l d (xs ++ ys)
      → Says l d xs ⊎ Says l d ys
  append-Says l d [] ys h = inr h
  append-Says l d (x ∷ xs) ys (inl p) = inl (inl p)
  append-Says l d (x ∷ xs) ys (inr h) = elim (append-Says l d xs ys h) [
    | inl a ↦ inl (inr a)
    | inr b ↦ inr b
  ]

  silent-Says :
      (l : ℕ) (d : Option RecoveredDoc) (recs : List Record)
      → All (λ r. (d' : Option RecoveredDoc) → change json r ≢ some (k, d')) recs
      → Says l d recs
      → ⊥
  silent-Says l d [] h s = s
  silent-Says l d (r ∷ rs) (p, h) (inl (c, e)) = p d c
  silent-Says l d (r ∷ rs) (p, h) (inr s) = silent-Says l d rs h s

  highest-le :
      (l l' : ℕ) (d : Option RecoveredDoc) (recs : List Record)
      → All (λ r. (d' : Option RecoveredDoc) → change json r ≡ some (k, d') → r.lsn ≤ l') recs
      → Says l d recs
      → l ≤ l'
  highest-le l l' d [] h s = absurd s
  highest-le l l' d (r ∷ rs) (p, h) (inl (c, e)) = omega (arith, p d c)
  highest-le l l' d (r ∷ rs) (p, h) (inr s) = highest-le l l' d rs h s

  -- What is known is said, and has the highest LSN of all that is said.
  pub known-Says :
      (recs : List Record) (l : ℕ) (d : Option RecoveredDoc)
      → latest json k recs none ≡ some (l, d)
      → Says l d recs
  known-Says recs l d e = (subst (IsHighest json k recs) e (latest-IsHighest json k recs)).0

  pub Says-known :
      (recs : List Record) (l : ℕ) (d : Option RecoveredDoc)
      → Says l d recs
      → (l' : ℕ) × (d' : Option RecoveredDoc) × (latest json k recs none ≡ some (l', d')) × (l ≤ l')
  Says-known recs l d s = elim (Option-cases (latest json k recs none)) [
    | inl e ↦
        absurd
          (silent-Says l d recs (subst (IsHighest json k recs) e (latest-IsHighest json k recs)) s)
    | inr ((l', d'), e) ↦ (
      l',
      d',
      e,
      highest-le l l' d recs (subst (IsHighest json k recs) e (latest-IsHighest json k recs)).1 s,
    )
  ]

  -- No two records with one LSN leave the document in different states.
  abbrev pub IsConsistent : List Record → Type 0
  IsConsistent recs = (l : ℕ) (d d' : Option RecoveredDoc) → Says l d recs → Says l d' recs → d ≡ d'

  -- Records of which none is new and the one that counts is left.
  pub latest-same :
      (old new : List Record)
      → IsConsistent old
      → ((l : ℕ) (d : Option RecoveredDoc) → Says l d new → Says l d old)
      → ((l : ℕ) (d : Option RecoveredDoc) → latest json k old none ≡ some (l, d) → Says l d new)
      → latest json k new none ≡ latest json k old none
  latest-same old new one none_new left = elim (Option-cases (latest json k old none)) [
    | inl e ↦ elim (Option-cases (latest json k new none)) [
      | inl e' ↦ e' ∙ sym e
      | inr ((l', d'), e') ↦
          let (l, d, known, le) = Says-known old l' d' (none_new l' d' (known-Says new l' d' e')) in
          ground (arith, e, known)
    ]
    | inr ((l, d), e) ↦
        let (l', d', e', le) = Says-known new l d (left l d e) in
        let said = none_new l' d' (known-Says new l' d' e') in
        let (l'', d'', e'', le') = Says-known old l' d' said in
        let top : l'' ≡ l = ground (arith, e, e'') in
        let same : l' ≡ l = omega arith in
        let doc = one l d' d (subst (λ t. Says t d' old) same said) (known-Says old l d e) in
        e' ∙ (rw (same, doc) (sym e))
  ]

  -- Records that have all been said before add nothing.
  pub latest-again :
      (xs ys : List Record)
      → ((l : ℕ) (d : Option RecoveredDoc) → Says l d ys → Says l d xs)
      → latest json k (xs ++ ys) none ≡ latest json k xs none
  latest-again xs ys before =
      latest-append json k xs ys none
      ∙ latest-join json k ys (latest json k xs none)
      ∙ nothing_added (latest json k ys none) refl
    where
      nothing_added :
          (known : Known)
          → latest json k ys none ≡ known
          → join (latest json k xs none) known ≡ latest json k xs none
      nothing_added none e = unfold join in refl
      nothing_added (some (l, d)) e =
          let (l', d', known, le) = Says-known xs l d (before l d (known-Says ys l d e)) in
          unfold join learn in rw known (ground arith)
