-- ===== src/Db/WalStore/Contents.antt =====
-- The records of the segment files of a WALStore, and those that its writer acknowledged.
use selfstack.Prelude.{
  ℕ, ◌≡◌, refl, sym, ap, ◌∙◌, List, [], ◌∷◌, ◌++◌, Option, some, inl, inr, ◌⊎◌, All, Any, subst,
}
use selfstack.Prelude.Maps.{Map, lookup}
use selfstack.Bytes.{Bytes}
use selfstack.Wal.Record.{Record}
use selfstack.Wal.Payload.{Json}
use selfstack.Wal.Index.{RecoveredDoc}
use selfstack.Wal.Recovery.Latest.{change}
use selfstack.Wal.Recovery.Same.{Says}
use selfstack.Wal.Recovery.Whole.{segment_records, all_records}
use selfstack.Wal.Compactor.Merged.{segment_records-scan}
use selfstack.Wal.Tail.Repair.{readable}
use selfstack.Wal.Manifest.Keys.{nat_eq}
use selfstack.Wal.Writer.Commands.{Acknowledged}
use selfstack.Wal.Writer.Exact.{IsIn, Only}
use selfstack.Wal.Writer.Held.{IsKept}
use selfstack.Db.WalStore.Written.{recs_of}

-- The segments are the files, in any order.
pub record AreFiles (segments : List (Option Bytes)) (files : Map ℕ Bytes) : Type 0 where
  pub each :
      All
        (λ (c : Option Bytes).
          (id : ℕ) × (file : Bytes) × (lookup id files ≡ some file) × (c ≡ some file))
        segments
  pub all :
      (id : ℕ) (file : Bytes)
      → lookup id files ≡ some file
      → Any (λ (c : Option Bytes). c ≡ some file) segments

pub IsIn-append : (r : Record) (xs ys : List Record) → IsIn xs r ⊎ IsIn ys r → IsIn (xs ++ ys) r
IsIn-append r [] ys (inl a) = absurd a
IsIn-append r [] ys (inr b) = b
IsIn-append r (x ∷ xs) ys (inl (inl e)) = inl e
IsIn-append r (x ∷ xs) ys (inl (inr a)) = inr (IsIn-append r xs ys (inl a))
IsIn-append r (x ∷ xs) ys (inr b) = inr (IsIn-append r xs ys (inr b))

pub append-IsIn : (r : Record) (xs ys : List Record) → IsIn (xs ++ ys) r → IsIn xs r ⊎ IsIn ys r
append-IsIn r [] ys h = inr h
append-IsIn r (x ∷ xs) ys (inl e) = inl (inl e)
append-IsIn r (x ∷ xs) ys (inr h) = elim (append-IsIn r xs ys h) [
  | inl a ↦ inl (inr a)
  | inr b ↦ inr b
]

All-IsIn : (recs xs : List Record) (r : Record) → All (IsIn recs) xs → IsIn xs r → IsIn recs r
All-IsIn recs [] r h i = absurd i
All-IsIn recs (x ∷ xs) r (p, h) (inl e) = subst (IsIn recs) e p
All-IsIn recs (x ∷ xs) r (p, h) (inr i) = All-IsIn recs xs r h i

kept-IsIn :
    (files : Map ℕ Bytes) (acks : List Acknowledged) (r : Record)
    → All (IsKept files) acks
    → IsIn (recs_of acks) r
    → (id : ℕ) × (file : Bytes) × (lookup id files ≡ some file) × IsIn (readable file) r
kept-IsIn files [] r h i = absurd i
kept-IsIn files ((id, x) ∷ acks) r ((file, found, here), h) (inl e) =
    (id, file, found, subst (IsIn (readable file)) e here)
kept-IsIn files (a ∷ acks) r (p, h) (inr i) = kept-IsIn files acks r h i

module _ (files : Map ℕ Bytes) (r : Record) where
  all_records-IsIn :
      (segments : List (Option Bytes))
      → All
          (λ (c : Option Bytes).
            (id : ℕ) × (file : Bytes) × (lookup id files ≡ some file) × (c ≡ some file))
          segments
      → IsIn (all_records segments) r
      → (id : ℕ) × (file : Bytes) × (lookup id files ≡ some file) × IsIn (readable file) r
  unfolding all_records
  all_records-IsIn [] h i = absurd i
  all_records-IsIn (c ∷ segments) ((id, file, found, same), h) i =
      elim (append-IsIn r (segment_records c) (all_records segments) i) [
        | inl here ↦ (
          id,
          file,
          found,
          subst (λ recs. IsIn recs r) (ap segment_records same ∙ segment_records-scan file) here,
        )
        | inr there ↦ all_records-IsIn segments h there
      ]

  IsIn-all_records :
      (file : Bytes) (segments : List (Option Bytes))
      → Any (λ (c : Option Bytes). c ≡ some file) segments
      → IsIn (readable file) r
      → IsIn (all_records segments) r
  unfolding all_records
  IsIn-all_records file [] h i = absurd h
  IsIn-all_records file (c ∷ segments) (inl same) i =
      IsIn-append r (segment_records c) (all_records segments) (
        inl (
          subst (λ recs. IsIn recs r) (sym (ap segment_records same ∙ segment_records-scan file))
            i))
  IsIn-all_records file (c ∷ segments) (inr h) i =
      IsIn-append r (segment_records c) (all_records segments)
        (inr (IsIn-all_records file segments h i))

module _ (files : Map ℕ Bytes) (segments : List (Option Bytes)) (are : AreFiles segments files)
    (acks : List Acknowledged) (r : Record) where
  pub recovered-IsIn :
      Only (recs_of acks) files → IsIn (all_records segments) r → IsIn (recs_of acks) r
  recovered-IsIn only i =
      let (id, file, found, here) = all_records-IsIn files r segments are.each i in
      All-IsIn (recs_of acks) (readable file) r (only.each id file found).1 here

  pub acknowledged-IsIn :
      All (IsKept files) acks → IsIn (recs_of acks) r → IsIn (all_records segments) r
  acknowledged-IsIn kept i =
      let (id, file, found, here) = kept-IsIn files acks r kept i in
      IsIn-all_records files r file segments (are.all id file found) here

-- Records that are there say the same.
module _ (json : Json) (k : Bytes) (l : ℕ) (d : Option RecoveredDoc) where
  Says-IsIn :
      (xs : List Record)
      → Says json k l d xs
      → (r : Record) × IsIn xs r × ((change json r ≡ some (k, d)) × (r.lsn ≡ l))
  Says-IsIn [] s = absurd s
  Says-IsIn (x ∷ xs) (inl p) = (x, inl refl, p)
  Says-IsIn (x ∷ xs) (inr s) = let (r, i, p) = Says-IsIn xs s in (r, inr i, p)

  IsIn-Says :
      (r : Record) (xs : List Record)
      → (change json r ≡ some (k, d)) × (r.lsn ≡ l)
      → IsIn xs r
      → Says json k l d xs
  IsIn-Says r [] p i = absurd i
  IsIn-Says r (x ∷ xs) (c, e) (inl same) =
      inl (subst (λ x. (change json x ≡ some (k, d)) × (x.lsn ≡ l)) (sym same) (c, e))
  IsIn-Says r (x ∷ xs) p (inr i) = inr (IsIn-Says r xs p i)

  pub Says-among :
      (xs ys : List Record)
      → ((r : Record) → IsIn xs r → IsIn ys r)
      → Says json k l d xs
      → Says json k l d ys
  Says-among xs ys among s = let (r, i, p) = Says-IsIn xs s in IsIn-Says r ys p (among r i)
