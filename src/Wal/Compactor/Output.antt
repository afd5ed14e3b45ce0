-- ===== src/Wal/Compactor/Output.antt =====
-- The segment that a compaction writes says of every document what the segments that it replaces
-- said, so that recovery finds the same.
use selfstack.Prelude.{
  ◌≡◌, refl, ap, ◌∙◌, List, [], ◌∷◌, false, Option, none, some, ok, ltb, arith, Bool-cases, inl,
  inr, All, subst,
}
use selfstack.Prelude.Maps.{
  Map, lookup, insert, bytes_eq, bytes_beq, bytes_beq_iff, lookup-insert, IsFunctional,
  insert-IsFunctional, All-insert,
}
use selfstack.Bytes.{Bytes}
use selfstack.Wal.Record.{Record}
use selfstack.Wal.Payload.{Json}
use selfstack.Wal.Index.{RecoveredDoc}
use selfstack.Wal.Recovery.Latest.{Known, latest, learn_change, change}
use selfstack.Wal.Recovery.Whole.{all_records}
use selfstack.Wal.Recovery.Highest.{told, join, join-none, learn_change-join}
use selfstack.Wal.Compactor.{
  Merge, SegmentInput, merge_records, add_all, combined, insert_by_lsn, sort_by_lsn,
  compacted_records,
}
use selfstack.Wal.Compactor.Kept.{entry, knows}
use selfstack.Wal.Compactor.Segments.{IsOwn, IsTidy, files, merge_records-keeps}

-- The maps put together.
lookup-add_all :
    (k : Bytes) (xs m : Map Bytes Record)
    → IsFunctional xs
    → lookup k (add_all xs m) ≡ (elim (lookup k xs) [ some r ↦ some r | none ↦ lookup k m ])
unfolding add_all lookup
lookup-add_all k [] m f = refl
lookup-add_all k ((j, r) ∷ xs) m (h, f) =
    ground (arith, lookup-add_all k xs (insert j r m) f, lookup-insert j k r m, bytes_beq_iff j k)

add_all-IsFunctional : (xs m : Map Bytes Record) → IsFunctional m → IsFunctional (add_all xs m)
unfolding add_all
add_all-IsFunctional [] m f = f
add_all-IsFunctional ((j, r) ∷ xs) m f =
    add_all-IsFunctional xs (insert j r m) (insert-IsFunctional j r m f)

pub All-add_all :
    (P : Bytes × Record → Type 0) (xs m : Map Bytes Record)
    → All P xs
    → All P m
    → All P (add_all xs m)
unfolding add_all
All-add_all P [] m h h' = h'
All-add_all P ((j, r) ∷ xs) m (p, h) h' =
    All-add_all P xs (insert j r m) h (All-insert P j r m p h')

module _ (json : Json) where
  combined_lem :
      (m : Merge)
      → IsTidy json m
      → ((k : Bytes) → lookup k (combined m) ≡ entry k m)
        × IsFunctional (combined m)
        × All (IsOwn json) (combined m)
  unfolding combined lookup
  combined_lem m t = (
    λ k. ground (
      arith,
      lookup-add_all k m.tombstones (add_all m.records []) t.tombstones,
      lookup-add_all k m.records [] t.records,
    ),
    add_all-IsFunctional m.tombstones _ (add_all-IsFunctional m.records [] tt),
    All-add_all (IsOwn json) m.tombstones _ t.own_tombstones
        (All-add_all (IsOwn json) m.records [] t.own_records tt),
  )

  module _ (k : Bytes) where
    latest-skip :
        (rec : Record) (rs : List Record) (known : Known)
        → told json k rec ≡ none
        → latest json k (rec ∷ rs) known ≡ latest json k rs known
    unfolding latest told join
    latest-skip rec rs known h =
        ap (latest json k rs)
          (learn_change-join json k rec.lsn (change json rec) known ∙ ap (join known) h)

    latest-silent :
        (rs : List Record) (known : Known)
        → All (λ r. told json k r ≡ none) rs
        → latest json k rs known ≡ known
    latest-silent [] known h = unfold latest in refl
    latest-silent (r ∷ rs) known (p, h) = latest-skip r rs known p ∙ latest-silent rs known h

    latest-under :
        (x : Record) (rs rs' : List Record) (known : Known)
        → ((seen : Known) → latest json k rs seen ≡ latest json k rs' seen)
        → latest json k (x ∷ rs) known ≡ latest json k (x ∷ rs') known
    unfolding latest
    latest-under x rs rs' known h = h _

    -- A record about another document, or about none, may stand anywhere.
    latest-insert_other :
        (rec : Record) (rs : List Record) (known : Known)
        → told json k rec ≡ none
        → latest json k (insert_by_lsn rec rs) known ≡ latest json k rs known
    unfolding insert_by_lsn
    latest-insert_other rec [] known h = latest-skip rec [] known h
    latest-insert_other rec (x ∷ xs) known h = elim (Bool-cases (ltb x.lsn rec.lsn)) [
      | inl later ↦ rw later (latest-under x _ _ known (λ seen. latest-insert_other rec xs seen h))
      | inr here ↦ rw here (latest-skip rec (x ∷ xs) known h)
    ]

    -- So may the one record about the document.
    latest-insert_only :
        (rec : Record) (rs : List Record) (known : Known)
        → All (λ r. told json k r ≡ none) rs
        → latest json k (insert_by_lsn rec rs) known ≡ join known (told json k rec)
    unfolding insert_by_lsn told
    latest-insert_only rec [] known h =
        unfold latest in learn_change-join json k rec.lsn (change json rec) known
    latest-insert_only rec (x ∷ xs) known (p, h) = elim (Bool-cases (ltb x.lsn rec.lsn)) [
      | inl later ↦
          rw later
            (latest-skip x (insert_by_lsn rec xs) known p ∙ latest-insert_only rec xs known h)
      | inr here ↦ rw here (
          unfold latest in
          latest-silent (x ∷ xs) _ (p, h)
          ∙ learn_change-join json k rec.lsn (change json rec) known)
    ]

    told-foreign :
        (rec : Record) (j : Bytes) (d : Option RecoveredDoc)
        → change json rec ≡ some (j, d)
        → bytes_beq j k ≡ false
        → told json k rec ≡ none
    unfolding told learn_change
    told-foreign rec j d c other = rw (c, other)

    insert-silent :
        (rec : Record) (rs : List Record)
        → told json k rec ≡ none
        → All (λ r. told json k r ≡ none) rs
        → All (λ r. told json k r ≡ none) (insert_by_lsn rec rs)
    unfolding insert_by_lsn
    insert-silent rec [] p h = (p, tt)
    insert-silent rec (x ∷ xs) p (q, h) = elim (Bool-cases (ltb x.lsn rec.lsn)) [
      | inl later ↦ rw later (q, insert-silent rec xs p h)
      | inr here ↦ rw here (p, (q, h))
    ]

    sort-silent :
        (m : Map Bytes Record)
        → lookup k m ≡ none
        → All (IsOwn json) m
        → All (λ r. told json k r ≡ none) (sort_by_lsn m)
    unfolding sort_by_lsn lookup
    sort-silent [] h own = tt
    sort-silent ((j, r) ∷ m) h ((d, c), own) =
        insert-silent r (sort_by_lsn m) (told-foreign r j d c (ground arith))
          (sort-silent m (ground arith) own)

    latest-sort :
        (m : Map Bytes Record)
        → IsFunctional m
        → All (IsOwn json) m
        → latest json k (sort_by_lsn m) none ≡ knows json k (lookup k m)
    unfolding sort_by_lsn lookup
    latest-sort [] f own = unfold latest in refl
    latest-sort ((j, r) ∷ m) (h, f) ((d, c), own) = elim (Bool-cases (bytes_beq j k)) [
      | inl same ↦
          let gone = subst (λ i. lookup i m ≡ none) ((bytes_beq_iff j k).0 same) h in
          rw same (
            latest-insert_only r (sort_by_lsn m) none (sort-silent m gone own)
            ∙ join-none json k (told json k r))
      | inr other ↦ rw other (
          latest-insert_other r (sort_by_lsn m) none (told-foreign r j d c other)
          ∙ latest-sort m f own)
    ]

    -- The merged segment says what the segments said.
    pub latest-compacted :
        (segs : List SegmentInput) (m : Merge)
        → merge_records json segs ≡ ok m
        → latest json k (compacted_records m) none
          ≡ latest json k (all_records (files json segs)) none
    unfolding compacted_records
    latest-compacted segs m e =
        let (t, tidy) = merge_records-keeps json k segs m e in
        let (found, f, own) = combined_lem m tidy in
        latest-sort (combined m) f own ∙ ap (knows json k) (found k) ∙ t.held
