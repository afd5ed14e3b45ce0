-- ===== src/Wal/Recovery/Visited.antt =====
-- internal/scope/db/wal/recovery.go: the segments that a recovery along the manifest reads.
use selfstack.Prelude.{
  ℕ, suc, ◌≡◌, refl, sym, ap, ◌∙◌, List, [], ◌∷◌, ◌++◌, Option, none, some, length, arith, inl, inr,
  Option-cases, Bool-cases, subst, if◌then◌else◌,
}
use selfstack.Prelude.Maps.{lookup, bytes_eq}
use selfstack.Bytes.{Bytes}
use selfstack.Wal.Record.{Record}
use selfstack.Wal.Payload.{Json}
use selfstack.Wal.Reader.{new_segment_iterator_from_lsn, collect}
use selfstack.Wal.Manifest.{SegmentInfo, SegmentStatus, archived, status_beq}
use selfstack.Wal.Index.{DocumentIndex}
use selfstack.Wal.Recovery.{Progress, load_records}
use selfstack.Wal.Recovery.Latest.{Known, latest, latest-append, Agrees}
use selfstack.Wal.Recovery.Whole.{load_records-Agrees}
use selfstack.Wal.Recovery.ByManifest.{
  Directory, behind, verify, read_segment, read_file, visit, visit_all,
}

-- The records of a file that are behind the checkpoint.
unfoldable pub records_behind : ℕ → Option Bytes → List Record
records_behind checkpoint_lsn none = []
records_behind checkpoint_lsn (some file) =
    (collect (suc (length file)) (new_segment_iterator_from_lsn file (behind checkpoint_lsn))).0

-- Those of the segments that are not archived, in the order given.
unfoldable pub manifest_records : ℕ → Directory → List SegmentInfo → List Record
manifest_records checkpoint_lsn dir [] = []
manifest_records checkpoint_lsn dir (seg ∷ segs) =
    let rest = manifest_records checkpoint_lsn dir segs in
    if status_beq seg.status archived
    then rest
    else records_behind checkpoint_lsn (lookup seg.filename dir) ++ rest

manifest_records-cons :
    (json : Json) (k : Bytes) (checkpoint_lsn : ℕ) (dir : Directory) (seg : SegmentInfo)
    (segs : List SegmentInfo) (known : Known)
    → latest json k (manifest_records checkpoint_lsn dir (seg ∷ segs)) known
      ≡ latest json k (manifest_records checkpoint_lsn dir segs) (
          latest json k
            (if status_beq seg.status archived
              then []
              else records_behind checkpoint_lsn (lookup seg.filename dir))
            known)
unfolding manifest_records
manifest_records-cons json k checkpoint_lsn dir seg segs known =
    elim (Bool-cases (status_beq seg.status archived)) [
      | inl gone ↦ rw gone (unfold latest in refl)
      | inr live ↦ rw live (latest-append json k _ _ known)
    ]

module _ (json : Json) (I : DocumentIndex) (checkpoint_lsn : ℕ) where
  read_segment-replay :
      (file : Bytes) (p : Progress json I)
      → (read_segment json I checkpoint_lsn file p).0.replay
        ≡ (load_records json I (records_behind checkpoint_lsn (some file)) p).replay
  unfolding read_segment records_behind
  read_segment-replay file p =
      elim (Option-cases
        (collect (suc (length file))
          (new_segment_iterator_from_lsn file (behind checkpoint_lsn))).1) [
            | inl e ↦ rw (read_segment, e)
            | inr (x, e) ↦ rw (read_segment, e)
          ]

  read_file-replay :
      (status : SegmentStatus) (file : Option Bytes) (p : Progress json I)
      → (read_file json I checkpoint_lsn status file p).0.replay
        ≡ (load_records json I (records_behind checkpoint_lsn file) p).replay
  read_file-replay status (some file) p = unfold read_file in read_segment-replay file p
  read_file-replay status none p = unfold read_file records_behind load_records in refl

  -- What a segment gives, if there is no error.
  abbrev segment_part : Directory → SegmentInfo → List Record
  segment_part dir seg =
      if status_beq seg.status archived
      then []
      else records_behind checkpoint_lsn (lookup seg.filename dir)

  visit-replay :
      (dir : Directory) (seg : SegmentInfo) (p : Progress json I)
      → (visit json I checkpoint_lsn dir seg p).1 ≡ none
      → (visit json I checkpoint_lsn dir seg p).0.replay
        ≡ (load_records json I (segment_part dir seg) p).replay
  unfolding visit
  visit-replay dir seg p done = elim (Bool-cases (status_beq seg.status archived)) [
    | inl gone ↦ rw (visit, gone) (unfold load_records in refl)
    | inr live ↦ elim (Option-cases (verify seg (lookup seg.filename dir))) [
      | inl fine ↦ rw (visit, live, fine) (read_file-replay seg.status (lookup seg.filename dir) p)
      | inr (e, bad) ↦ absurd (ground (arith, live, bad, done))
    ]
  ]

  visit_all-rest :
      (dir : Directory) (seg : SegmentInfo) (segs : List SegmentInfo) (p : Progress json I)
      → (visit_all json I checkpoint_lsn dir (seg ∷ segs) p).1 ≡ none
      → ((visit json I checkpoint_lsn dir seg p).1 ≡ none)
        × (visit_all json I checkpoint_lsn dir (seg ∷ segs) p
            ≡ visit_all json I checkpoint_lsn dir segs (visit json I checkpoint_lsn dir seg p).0)
  unfolding visit_all
  visit_all-rest dir seg segs p done = ground arith

  module _ (k : Bytes) where
    pub visit_all-Agrees :
        (dir : Directory) (segs : List SegmentInfo) (known : Known) (p : Progress json I)
        → (visit_all json I checkpoint_lsn dir segs p).1 ≡ none
        → Agrees json I k known p.replay
        → Agrees json I k
            (latest json k (manifest_records checkpoint_lsn dir segs) known)
            (visit_all json I checkpoint_lsn dir segs p).0.replay
    visit_all-Agrees dir [] known p done a = unfold visit_all manifest_records latest in a
    visit_all-Agrees dir (seg ∷ segs) known p done a =
        let (one, rest) = visit_all-rest dir seg segs p done in
        let p' = (visit json I checkpoint_lsn dir seg p).0 in
        let first = load_records-Agrees json I k (segment_part dir seg) known p a in
        let first' =
          subst (Agrees json I k (latest json k (segment_part dir seg) known))
            (sym (visit-replay dir seg p one)) first in
        let all =
          visit_all-Agrees dir segs (latest json k (segment_part dir seg) known) p'
            (sym (ap (λ t. t.1) rest) ∙ done) first' in
        rw (rest, manifest_records-cons json k checkpoint_lsn dir seg segs known) all
