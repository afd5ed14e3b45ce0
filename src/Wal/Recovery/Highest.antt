-- ===== src/Wal/Recovery/Highest.antt =====
-- `latest` is what it is named after: the change of the document with the highest LSN, and the first
-- of those that share it.
use selfstack.Prelude.{
  ℕ, ◌≤◌, ◌≡◌, ◌≢◌, refl, sym, ap, ◌∙◌, List, [], ◌∷◌, Option, none, some, leb, arith, Bool-cases,
  Option-cases, inl, inr, All, Any, All-weaken, leb→le, subst, ◌⊎◌,
}
use selfstack.Prelude.Maps.{bytes_beq, bytes_beq_iff}
use selfstack.Bytes.{Bytes}
use selfstack.Wal.Record.{Record}
use selfstack.Wal.Payload.{Json}
use selfstack.Wal.Index.{RecoveredDoc, DocumentIndex}
use selfstack.Wal.Recovery.{recover_without_manifest}
use selfstack.Wal.Recovery.Whole.{all_records, recover-latest}
use selfstack.Wal.Recovery.Latest.{Known, Change, known_doc, learn, learn_change, latest, change}

-- What is known of a document from two sides, the older first.
unfoldable pub join : Known → Known → Known
join known none = known
join known (some (lsn, d)) = learn lsn d known

pub learn-join :
    (lsn : ℕ) (d : Option RecoveredDoc) (a b : Known)
    → learn lsn d (join a b) ≡ join a (learn lsn d b)
unfolding learn join
learn-join lsn d none none = refl
learn-join lsn d (some (l, e)) none = refl
learn-join lsn d none (some (l, e)) = ground arith
learn-join lsn d (some (l, e)) (some (l', e')) = ground arith

pub join_assoc : (a b c : Known) → join (join a b) c ≡ join a (join b c)
unfolding join
join_assoc a b none = refl
join_assoc a b (some (lsn, d)) = learn-join lsn d a b

module _ (json : Json) (k : Bytes) where
  -- What one record adds to what is known.
  unfoldable pub told : Record → Known
  told rec = learn_change json k rec.lsn (change json rec) none

  pub learn_change-join :
      (lsn : ℕ) (c : Option Change) (known : Known)
      → learn_change json k lsn c known ≡ join known (learn_change json k lsn c none)
  unfolding learn_change join learn
  learn_change-join lsn none known = refl
  learn_change-join lsn (some (id, d)) known = ground arith

  -- What is known after some records is joined to what was known before them.
  pub latest-join :
      (recs : List Record) (known : Known)
      → latest json k recs known ≡ join known (latest json k recs none)
  unfolding latest told learn_change join
  latest-join [] known = refl
  latest-join (rec ∷ recs) known =
      latest-join recs _
      ∙ ap (λ t. join t (latest json k recs none))
          (learn_change-join rec.lsn (change json rec) known)
      ∙ join_assoc known (told rec) (latest json k recs none)
      ∙ ap (join known) (sym (latest-join recs (told rec)))

  -- What is known is from one of the records, and none of them has a higher LSN; where nothing is
  -- known, no record is about the document.
  abbrev pub IsHighest : List Record → Known → Type 0
  IsHighest recs none = All (λ r. (d : Option RecoveredDoc) → change json r ≢ some (k, d)) recs
  IsHighest recs (some (lsn, d)) =
      Any (λ r. (change json r ≡ some (k, d)) × (r.lsn ≡ lsn)) recs
      × All (λ r. (d' : Option RecoveredDoc) → change json r ≡ some (k, d') → r.lsn ≤ lsn) recs

  told-cases :
      (r : Record)
      → ((told r ≡ none) × ((d : Option RecoveredDoc) → change json r ≢ some (k, d)))
        ⊎ ((d : Option RecoveredDoc) × (change json r ≡ some (k, d)) × (told r ≡ some (r.lsn, d)))
  unfolding told learn_change learn
  told-cases r = elim (Option-cases (change json r)) [
    | inl e ↦ inl (rw e, λ d e'. cc)
    | inr ((id, d), e) ↦ elim (Bool-cases (bytes_beq id k)) [
      | inl same ↦ inr (d, ground (arith, bytes_beq_iff id k), rw (e, same))
      | inr other ↦ inl (rw (e, other), λ d' e'. ground (arith, bytes_beq_iff id k))
    ]
  ]

  pub join-none : (known : Known) → join none known ≡ known
  unfolding join learn
  join-none none = refl
  join-none (some (lsn, d)) = refl

  -- A record that is not about the document, and one that is.
  IsHighest-other :
      (r : Record) (rs : List Record) (known : Known)
      → ((d : Option RecoveredDoc) → change json r ≢ some (k, d))
      → IsHighest rs known
      → IsHighest (r ∷ rs) known
  IsHighest-other r rs none other h = (other, h)
  IsHighest-other r rs (some (lsn, d)) other (found, all) =
      (inr found, (λ d' e. absurd (other d' e), all))

  IsHighest-same :
      (r : Record) (rs : List Record) (known : Known) (d : Option RecoveredDoc)
      → change json r ≡ some (k, d)
      → IsHighest rs known
      → IsHighest (r ∷ rs) (join (some (r.lsn, d)) known)
  unfolding join learn
  IsHighest-same r rs none d e h = (
    inl (e, refl),
    (
      λ d' e'. omega arith,
      All-weaken (λ x. (d' : Option RecoveredDoc) → change json x ≢ some (k, d'))
          (λ x. (d' : Option RecoveredDoc) → change json x ≡ some (k, d') → x.lsn ≤ r.lsn) rs
          (λ x no' d' e'. absurd (no' d' e')) h,
    ),
  )
  IsHighest-same r rs (some (lsn, d')) d e (found, all) = elim (Bool-cases (leb lsn r.lsn)) [
    | inl older ↦ rw older (
      inl (e, refl),
      (
        λ d'' e''. omega arith,
        All-weaken (λ x. (d'' : Option RecoveredDoc) → change json x ≡ some (k, d'') → x.lsn ≤ lsn)
            (λ x. (d'' : Option RecoveredDoc) → change json x ≡ some (k, d'') → x.lsn ≤ r.lsn) rs
            (λ x f d'' e''. omega (arith, f d'' e'', leb→le lsn r.lsn older)) all,
      ),
    )
    | inr newer ↦ rw newer (inr found, (λ d'' e''. ground arith, all))
  ]

  -- One record in front.
  IsHighest-cons :
      (r : Record) (rs : List Record) (known : Known)
      → IsHighest rs known
      → IsHighest (r ∷ rs) (join (told r) known)
  IsHighest-cons r rs known h = elim (told-cases r) [
    | inl (e, other) ↦ rw (e, join-none known) (IsHighest-other r rs known other h)
    | inr (d, same, e) ↦ rw e (IsHighest-same r rs known d same h)
  ]

  pub latest-IsHighest : (recs : List Record) → IsHighest recs (latest json k recs none)
  latest-IsHighest [] = unfold latest in tt
  latest-IsHighest (r ∷ rs) =
      subst (IsHighest (r ∷ rs)) (sym (latest-cons r rs))
        (IsHighest-cons r rs (latest json k rs none) (latest-IsHighest rs))
    where
      latest-cons :
          (r : Record) (rs : List Record)
          → latest json k (r ∷ rs) none ≡ join (told r) (latest json k rs none)
      latest-cons r rs = unfold latest told in latest-join rs (told r)

-- No LSN is in both lists.
abbrev pub Apart : List Record → List Record → Type 0
Apart xs ys = All (λ r. All (λ (r' : Record). r.lsn ≢ r'.lsn) ys) xs

module _ (P Q : Record → Type 0) (l l' : ℕ) where
  apart_from :
      (r : Record) (ys : List Record)
      → r.lsn ≡ l
      → All (λ (r' : Record). r.lsn ≢ r'.lsn) ys
      → Any (λ r'. Q r' × (r'.lsn ≡ l')) ys
      → l ≢ l'
  apart_from r [] e h a = absurd a
  apart_from r (y ∷ ys) e (p, h) (inl (q, e')) = λ same. p (e ∙ same ∙ sym e')
  apart_from r (y ∷ ys) e (p, h) (inr a) = apart_from r ys e h a

  Apart-lsn :
      (xs ys : List Record)
      → Apart xs ys
      → Any (λ r. P r × (r.lsn ≡ l)) xs
      → Any (λ r'. Q r' × (r'.lsn ≡ l')) ys
      → l ≢ l'
  Apart-lsn [] ys h a b = absurd a
  Apart-lsn (x ∷ xs) ys (p, h) (inl (q, e)) b = apart_from x ys e p b
  Apart-lsn (x ∷ xs) ys (p, h) (inr a) b = Apart-lsn xs ys h a b

module _ (json : Json) (k : Bytes) where
  join-swap :
      (xs ys : List Record) (a b : Known)
      → Apart xs ys
      → IsHighest json k xs a
      → IsHighest json k ys b
      → join a b ≡ join b a
  unfolding join learn
  join-swap xs ys none none h i j = refl
  join-swap xs ys none (some (l', d')) h i j = refl
  join-swap xs ys (some (l, d)) none h i j = refl
  join-swap xs ys (some (l, d)) (some (l', d')) h (i, _) (j, _) =
      let differ =
        Apart-lsn (λ r. change json r ≡ some (k, d)) (λ r. change json r ≡ some (k, d')) l l' xs ys
          h i j in
      ground (arith, differ)

  -- Lists with different LSNs may be read in either order.
  pub latest-swap :
      (xs ys : List Record)
      → Apart xs ys
      → join (latest json k xs none) (latest json k ys none)
        ≡ join (latest json k ys none) (latest json k xs none)
  latest-swap xs ys h =
      join-swap xs ys (latest json k xs none) (latest json k ys none) h (latest-IsHighest json k xs)
        (latest-IsHighest json k ys)

-- After a recovery into an empty index, what the index holds of a document is what the record with
-- the highest LSN says, among those that can be read and decoded: its content, or nothing where
-- that record is a tombstone or there is no record of the document.
pub recover-IsHighest :
    (json : Json) (I : DocumentIndex) (segments : List (Option Bytes)) (index : I.Index) (k : Bytes)
    → ((j : Bytes) → I.find j index ≡ none)
    → (known : Known) × IsHighest json k (all_records segments) known
      × (I.find k (recover_without_manifest json I segments index).replay.index ≡ known_doc known)
recover-IsHighest json I segments index k empty = (
  latest json k (all_records segments) none,
  latest-IsHighest json k (all_records segments),
  recover-latest json I segments index k empty,
)
