-- ===== src/Wal/Recovery/Torn.antt =====
-- internal/scope/db/wal/recovery.go: a segment that cannot be read to its end.
use selfstack.Prelude.{
  ℕ, suc, ◌≡◌, ◌≢◌, List, [], ◌∷◌, false, none, some, ok, length, arith, Any, inl, inr,
}
use selfstack.Prelude.Maps.{lookup, bytes_eq}
use selfstack.Prelude.Sorting.{sort_slice, sort_slice-Any}
use selfstack.Bytes.{Bytes}
use selfstack.Wal.Payload.{Json}
use selfstack.Wal.Reader.{new_segment_iterator_from_lsn, collect}
use selfstack.Wal.Manifest.{SegmentInfo, archived, status_beq, WalState}
use selfstack.Wal.Manifest.Postgres.{by_id}
use selfstack.Wal.Index.{DocumentIndex}
use selfstack.Wal.Recovery.{Progress}
use selfstack.Wal.Recovery.ByManifest.{
  Directory, behind, read_segment, read_file, visit, visit_all, fresh, recover,
}

-- The segment's file is there, and reading it ends in an error, as at a torn tail.
abbrev pub IsTorn : ℕ → Directory → SegmentInfo → Type 0
IsTorn checkpoint_lsn dir seg =
    (file : Bytes) × (lookup seg.filename dir ≡ some file)
    × ((collect (suc (length file)) (new_segment_iterator_from_lsn file (behind checkpoint_lsn))).1
        ≢ none)

module _ (json : Json) (I : DocumentIndex) (checkpoint_lsn : ℕ) (dir : Directory) where
  read_segment_fails :
      (file : Bytes) (p : Progress json I)
      → (collect (suc (length file)) (new_segment_iterator_from_lsn file (behind checkpoint_lsn))).1
        ≢ none
      → (read_segment json I checkpoint_lsn file p).1 ≢ none
  unfolding read_segment
  read_segment_fails file p torn = ground arith

  visit_fails :
      (seg : SegmentInfo) (p : Progress json I)
      → status_beq seg.status archived ≡ false
      → IsTorn checkpoint_lsn dir seg
      → (visit json I checkpoint_lsn dir seg p).1 ≢ none
  unfolding visit read_file
  visit_fails seg p live (file, there, torn) = ground (arith, read_segment_fails file p torn)

  visit_all_fails :
      (segs : List SegmentInfo) (p : Progress json I)
      → Any
          (λ (s : SegmentInfo).
            (status_beq s.status archived ≡ false) × IsTorn checkpoint_lsn dir s)
          segs
      → (visit_all json I checkpoint_lsn dir segs p).1 ≢ none
  unfolding visit_all
  visit_all_fails [] p h = absurd h
  visit_all_fails (seg ∷ segs) p (inl (live, torn)) = ground (arith, visit_fails seg p live torn)
  visit_all_fails (seg ∷ segs) p (inr later) =
      ground (arith, visit_all_fails segs (visit json I checkpoint_lsn dir seg p).0 later)

-- One segment that is not archived and is torn makes `Recover` return an error, whatever else there
-- is, even if it is the active one, whose torn tail `replayActiveWAL` would have passed over.
pub torn_segment_fails :
    (json : Json) (I : DocumentIndex) (state : WalState) (segs : List SegmentInfo) (dir : Directory)
    (index : I.Index)
    → Any
        (λ (s : SegmentInfo).
          (status_beq s.status archived ≡ false) × IsTorn state.checkpoint_lsn dir s)
        segs
    → (recover json I (ok (state, segs)) dir index).1 ≢ none
unfolding recover
torn_segment_fails json I state segs dir index torn = ground (
  arith,
  visit_all_fails json I state.checkpoint_lsn dir (sort_slice by_id segs) (fresh json I index)
      (sort_slice-Any by_id _ segs torn),
)
