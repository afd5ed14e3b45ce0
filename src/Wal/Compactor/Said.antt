-- ===== src/Wal/Compactor/Said.antt =====
-- Where the records of a merged segment come from, and the files that the segments' records are in.
use selfstack.Prelude.{
  ℕ, ◌≡◌, refl, sym, List, [], ◌∷◌, ◌++◌, Option, some, ok, inl, inr, All, Any, All-weaken, subst,
}
use selfstack.Prelude.Maps.{lookup, bytes_eq}
use selfstack.Bytes.{Bytes}
use selfstack.Wal.Record.{Record}
use selfstack.Wal.Payload.{Json}
use selfstack.Wal.Index.{RecoveredDoc}
use selfstack.Wal.Manifest.{SegmentInfo}
use selfstack.Wal.Recovery.Latest.{change}
use selfstack.Wal.Recovery.Whole.{segment_records, all_records}
use selfstack.Wal.Recovery.Same.{Says, Says-append, append-Says}
use selfstack.Wal.Compactor.{Merge, SegmentInput, merge_records, compacted_records}
use selfstack.Wal.Compactor.Segments.{files}
use selfstack.Wal.Compactor.Merged.{compacted-All}
use selfstack.Wal.Compactor.Run.{inputs}
use selfstack.Wal.Compactor.Ran.{World}

module _ (json : Json) (k : Bytes) where
  -- What a list of records says is said of the records themselves.
  self_said :
      (recs : List Record)
      → All
          (λ r. (d : Option RecoveredDoc) → change json r ≡ some (k, d) → Says json k r.lsn d recs)
          recs
  self_said [] = tt
  self_said (r ∷ rs) = (
    λ d c. inl (c, refl),
    All-weaken
        (λ x. (d : Option RecoveredDoc) → change json x ≡ some (k, d) → Says json k x.lsn d rs)
        (λ x.
          (d : Option RecoveredDoc) → change json x ≡ some (k, d) → Says json k x.lsn d (r ∷ rs))
        rs (λ x h d c. inr (h d c)) (self_said rs),
  )

  All-Says :
      (l : ℕ) (d : Option RecoveredDoc) (recs source : List Record)
      → All
          (λ r.
            (d : Option RecoveredDoc) → change json r ≡ some (k, d) → Says json k r.lsn d source)
          recs
      → Says json k l d recs
      → Says json k l d source
  All-Says l d [] source h s = absurd s
  All-Says l d (r ∷ rs) source (p, h) (inl (c, e)) = subst (λ t. Says json k t d source) e (p d c)
  All-Says l d (r ∷ rs) source (p, h) (inr s) = All-Says l d rs source h s

  inputs_said :
      (ins : List SegmentInput)
      → All
          (λ (i : SegmentInput).
            All
              (λ r.
                (d : Option RecoveredDoc)
                → change json r ≡ some (k, d)
                → Says json k r.lsn d (all_records (files json ins)))
              (segment_records i.file))
          ins
  unfolding all_records
  inputs_said [] = tt
  inputs_said (i ∷ is) =
      unfold all_records in
      (
        All-weaken
            (λ r.
              (d : Option RecoveredDoc)
              → change json r ≡ some (k, d)
              → Says json k r.lsn d (segment_records i.file))
            (λ r.
              (d : Option RecoveredDoc)
              → change json r ≡ some (k, d)
              → Says json k r.lsn d (segment_records i.file ++ all_records (files json is)))
            (segment_records i.file)
            (λ r h d c. Says-append json k r.lsn d (segment_records i.file) _ (inl (h d c)))
            (self_said (segment_records i.file)),
        All-weaken
            (λ (x : SegmentInput).
              All
                (λ r.
                  (d : Option RecoveredDoc)
                  → change json r ≡ some (k, d)
                  → Says json k r.lsn d (all_records (files json is)))
                (segment_records x.file))
            (λ (x : SegmentInput).
              All
                (λ r.
                  (d : Option RecoveredDoc)
                  → change json r ≡ some (k, d)
                  → Says json k r.lsn d (segment_records i.file ++ all_records (files json is)))
                (segment_records x.file))
            is
            (λ x.
              All-weaken _ _ (segment_records x.file)
                (λ r h d c. Says-append json k r.lsn d (segment_records i.file) _ (inr (h d c))))
            (inputs_said is),
      )

  -- What the merged segment says was said by one of those that it replaces.
  pub compacted_origin :
      (ins : List SegmentInput) (m : Merge) (l : ℕ) (d : Option RecoveredDoc)
      → merge_records json ins ≡ ok m
      → Says json k l d (compacted_records m)
      → Says json k l d (all_records (files json ins))
  compacted_origin ins m l d e s =
      All-Says l d (compacted_records m) (all_records (files json ins))
        (compacted-All json
          (λ r.
            (d : Option RecoveredDoc)
            → change json r ≡ some (k, d)
            → Says json k r.lsn d (all_records (files json ins)))
          ins m e (inputs_said ins))
        s

  pub files-Says :
      (segs : List SegmentInfo) (w : World) (l : ℕ) (d : Option RecoveredDoc)
      → Says json k l d (all_records (files json (inputs segs w)))
      → (n : Bytes) × Any (λ (s : SegmentInfo). s.filename ≡ n) segs
        × Says json k l d (segment_records (lookup n w.dir))
  unfolding all_records
  files-Says [] w l d h = absurd h
  files-Says (s ∷ ss) w l d h =
      elim (append-Says json k l d (segment_records (lookup s.filename w.dir))
        (all_records (files json (inputs ss w))) h) [
          | inl a ↦ (s.filename, inl refl, a)
          | inr b ↦ let (n, old, said) = files-Says ss w l d b in (n, inr old, said)
        ]

  pub Says-files :
      (segs : List SegmentInfo) (w : World) (l : ℕ) (d : Option RecoveredDoc) (n : Bytes)
      → Any (λ (s : SegmentInfo). s.filename ≡ n) segs
      → Says json k l d (segment_records (lookup n w.dir))
      → Says json k l d (all_records (files json (inputs segs w)))
  unfolding all_records
  Says-files [] w l d n old said = absurd old
  Says-files (s ∷ ss) w l d n (inl e) said =
      Says-append json k l d (segment_records (lookup s.filename w.dir))
        (all_records (files json (inputs ss w)))
        (inl (subst (λ x. Says json k l d (segment_records (lookup x w.dir))) (sym e) said))
  Says-files (s ∷ ss) w l d n (inr old) said =
      Says-append json k l d (segment_records (lookup s.filename w.dir))
        (all_records (files json (inputs ss w))) (inr (Says-files ss w l d n old said))
