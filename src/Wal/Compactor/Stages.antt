-- ===== src/Wal/Compactor/Stages.antt =====
-- What the segment directory holds at each moment of a compaction.
use selfstack.Prelude.{
  ◌≡◌, refl, ◌∙◌, List, [], ◌∷◌, false, none, some, ok, arith, ◌⊎◌, inl, inr, Bool-cases, if-both,
  All, Any, subst,
}
use selfstack.Prelude.Maps.{Map, lookup, erase, bytes_eq, bytes_beq, bytes_beq_iff, lookup-erase}
use selfstack.Bytes.{Bytes}
use selfstack.Wal.Payload.{Json}
use selfstack.Wal.Manifest.{SegmentInfo}
use selfstack.Wal.Compactor.{Merge, merge_records, combined, compacted_segment}
use selfstack.Wal.Compactor.Run.{inputs, remove_file, remove_files, final_name}
use selfstack.Wal.Compactor.Ran.{CompactIo, World}
use selfstack.Wal.Compactor.Triple.{Ensures, and_then-Ensures, done-Ensures, change-Ensures}

abbrev pub Dir : Type 0
Dir = Map Bytes Bytes

pub inputs-eq :
    (segs : List SegmentInfo) (w w' : World)
    → ((n : Bytes) → lookup n w.dir ≡ lookup n w'.dir)
    → inputs segs w ≡ inputs segs w'
inputs-eq [] w w' h = refl
inputs-eq (s ∷ ss) w w' h =
    λ i. record { file = h s.filename i; checksum = s.checksum } ∷ inputs-eq ss w w' h i

module _ (json : Json) (io : CompactIo) (segs : List SegmentInfo) (w₀ : World) where
  -- One of the files that are merged.
  abbrev pub IsOld : Bytes → Type 0
  IsOld n = Any (λ (s : SegmentInfo). s.filename ≡ n) segs

  abbrev pub Untouched : Dir → Type 0
  Untouched d = (n : Bytes) → lookup n d ≡ lookup n w₀.dir

  -- The file is what it was, or an old one that is gone.
  abbrev pub Kept : Bytes → Dir → Type 0
  Kept n d = (lookup n d ≡ lookup n w₀.dir) ⊎ ((lookup n d ≡ none) × IsOld n)

  -- The merged segment is there, and other files are kept.
  abbrev pub Swapped : Merge → Dir → Type 0
  Swapped m d =
      (lookup (final_name segs) d ≡ some (compacted_segment m).file)
      × ((n : Bytes) → bytes_beq n (final_name segs) ≡ false → Kept n d)

  -- There is no record to write, and old files are gone.
  abbrev pub Emptied : Merge → Dir → Type 0
  Emptied m d = (combined m ≡ []) × ((n : Bytes) → Kept n d)

  abbrev pub IsMerged : Merge → Type 0
  IsMerged m = merge_records json (inputs segs w₀) ≡ ok m

  abbrev pub IsStage : Dir → Type 0
  IsStage d = Untouched d ⊎ ((m : Merge) × IsMerged m × (Swapped m d ⊎ Emptied m d))

  abbrev Inv : World → Type 0
  Inv w = IsStage w.dir

  -- A removal of an old file, where the directory is at one of the last two stages.
  module _ (D : Dir → Type 0) (stage : (d : Dir) → D d → IsStage d)
      (removal : (d : Dir) (n : Bytes)
        → IsOld n
        → bytes_beq n (final_name segs) ≡ false
        → D d
        → D (erase n d)) where
    pub remove_files-Ensures :
        (ss : List SegmentInfo) (w : World)
        → All (λ (s : SegmentInfo). IsOld s.filename) ss
        → All (λ (s : SegmentInfo). bytes_beq s.filename (final_name segs) ≡ false) ss
        → D w.dir
        → Ensures Inv (λ w _. D w.dir) (λ w. D w.dir) (remove_files io ss w)
    unfolding remove_files remove_file
    remove_files-Ensures [] w old other d =
        done-Ensures Inv (λ w _. D w.dir) (λ w. D w.dir) w (stage w.dir d) d
    remove_files-Ensures (s ∷ ss) w (o, old) (f, other) d =
        and_then-Ensures Inv (λ w _. D w.dir) (λ w. D w.dir) (λ w. D w.dir) (λ w _. D w.dir) _ _
          (if-both (Ensures Inv (λ w _. D w.dir) (λ w. D w.dir)) (io.removes s.filename) _ _
            (change-Ensures Inv (λ w _. D w.dir) (λ w. D w.dir) _
              (stage _ (removal w.dir s.filename o f d)) (removal w.dir s.filename o f d))
            (done-Ensures Inv (λ w _. D w.dir) (λ w. D w.dir) w (stage w.dir d) d))
          (λ w u inv d. remove_files-Ensures ss w old other d)

  pub Kept-erase : (d : Dir) (n x : Bytes) → IsOld n → Kept x d → Kept x (erase n d)
  Kept-erase d n x old (inl same) = elim (Bool-cases (bytes_beq n x)) [
    | inl e ↦ inr (lookup-erase n x d ∙ (rw e refl), subst IsOld ((bytes_beq_iff n x).0 e) old)
    | inr e ↦ inl (lookup-erase n x d ∙ (rw e same))
  ]
  Kept-erase d n x old (inr (gone, o)) = inr (ground (arith, lookup-erase n x d, gone), o)

  pub Swapped-erase :
      (m : Merge) (d : Dir) (n : Bytes)
      → IsOld n
      → bytes_beq n (final_name segs) ≡ false
      → Swapped m d
      → Swapped m (erase n d)
  Swapped-erase m d n old f (here, kept) =
      (lookup-erase n (final_name segs) d ∙ (rw f here), λ x e. Kept-erase d n x old (kept x e))

  pub Emptied-erase :
      (m : Merge) (d : Dir) (n : Bytes)
      → IsOld n
      → bytes_beq n (final_name segs) ≡ false
      → Emptied m d
      → Emptied m (erase n d)
  Emptied-erase m d n old f (empty, kept) = (empty, λ x. Kept-erase d n x old (kept x))
