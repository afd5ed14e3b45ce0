-- ===== src/Wal/Roller/Retention.antt =====
-- internal/scope/db/wal/roller.go: which archived segments a cleanup removes, and what it reports.
use selfstack.Prelude.{
  ℕ, zero, suc, ◌+◌, ◌-◌, ◌≤◌, ◌<◌, ◌≡◌, refl, sym, ap, ◌∙◌, List, [], ◌∷◌, ◌++◌, length, take,
  drop, Bool, true, false, ◌||◌, Option, none, some, Error, if◌then◌else◌, arith, All, length-take,
  length-drop, take-append-drop, All-weaken, subst,
}
use mathlib.Core.List.{Perm}
use selfstack.Prelude.Maps.{
  Map, lookup, erase, bytes_eq, bytes_beq, bytes_beq_iff, lookup-erase, erase_missing,
}
use selfstack.Prelude.Sorting.{
  sort_slice, sort_slice-Perm, sort_slice-IsSorted, sort_slice-length, IsSorted,
}
use selfstack.Bytes.{Bytes}
use selfstack.Wal.Manifest.{SegmentInfo, InMemoryManifest, archived, get_segments_by_status}
use selfstack.Prelude.{All-drop}
use selfstack.Wal.Roller.{id_less, delete_files, cleanup_old_segments}

-- The name is that of a segment in the list.
abbrev pub named : Bytes → List SegmentInfo → Bool
named k [] = false
named k (s ∷ ss) = bytes_beq s.filename k || named k ss

named_first : (s : SegmentInfo) (ss : List SegmentInfo) → named s.filename (s ∷ ss) ≡ true
named_first s ss = ground (arith, bytes_beq_iff s.filename s.filename)

named_later :
    (k : Bytes) (s : SegmentInfo) (ss : List SegmentInfo)
    → named k ss ≡ true
    → named k (s ∷ ss) ≡ true
named_later k s ss e = ground arith

module _ (removable : Bytes → Bool) where
  abbrev Deletion : Type 0
  Deletion = Map Bytes Bytes × ℕ × Option Error

  -- Where there is no error, the first file is gone and the others are deleted.
  delete_files-rest :
      (s : SegmentInfo) (ss : List SegmentInfo) (d : ℕ) (files files' : Map Bytes Bytes) (n : ℕ)
      → delete_files removable (s ∷ ss) d files ≡ (files', n, none)
      → delete_files removable ss (d + 1) (erase s.filename files) ≡ (files', n, none)
  unfolding delete_files
  delete_files-rest s ss d files files' n e = ground arith

  -- A deletion without an error counts every segment, whether its file was there or not.
  delete_files-lookup :
      (segs : List SegmentInfo) (d : ℕ) (files files' : Map Bytes Bytes) (n : ℕ)
      → delete_files removable segs d files ≡ (files', n, none)
      → (n ≡ d + length segs)
        × ((k : Bytes) → lookup k files' ≡ (if named k segs then none else lookup k files))
  delete_files-lookup [] d files files' n e =
      unfold delete_files in (ground arith, λ k. ground arith)
  delete_files-lookup (s ∷ ss) d files files' n e =
      let (count, found) =
        delete_files-lookup ss (d + 1) (erase s.filename files) files' n
          (delete_files-rest s ss d files files' n e) in
      (
        omega arith,
        λ k. ground (arith, found k, lookup-erase s.filename k files, bytes_beq_iff s.filename k),
      )

  -- Files that are not there are counted all the same.
  delete_files-gone :
      (segs : List SegmentInfo) (d : ℕ) (files : Map Bytes Bytes)
      → ((k : Bytes) → named k segs ≡ true → lookup k files ≡ none)
      → delete_files removable segs d files ≡ (files, d + length segs, none)
  unfolding delete_files
  delete_files-gone [] d files gone =
      let e : d ≡ d + 0 = omega arith in ap (λ t. (files, t, none)) e
  delete_files-gone (s ∷ ss) d files gone =
      let here = gone s.filename (named_first s ss) in
      let later = delete_files-gone ss (d + 1) files (λ k e. gone k (named_later k s ss e)) in
      ground (arith, here, erase_missing s.filename files here, later)

-- Oldest first.
abbrev pub IsOld : List SegmentInfo → List SegmentInfo → Type 0
IsOld old kept =
    All (λ (s : SegmentInfo). All (λ (t : SegmentInfo). s.segment_id ≤ t.segment_id) kept) old

split_sorted :
    (n : ℕ) (segs : List SegmentInfo) → IsSorted id_less segs → IsOld (take n segs) (drop n segs)
split_sorted zero segs h = tt
split_sorted (suc n) [] h = tt
split_sorted (suc n) (s ∷ ss) (top, h) = (
  All-drop (λ t. s.segment_id ≤ t.segment_id) n ss
      (All-weaken _ (λ t. s.segment_id ≤ t.segment_id) ss (λ t l. ground arith) top),
  split_sorted n ss h,
)

archived-IsSorted :
    (m : InMemoryManifest)
    → IsSorted id_less (sort_slice id_less (get_segments_by_status archived m))
archived-IsSorted m =
    sort_slice-IsSorted id_less (λ a b h. ground arith) (λ a b c h h'. ground arith)
      (get_segments_by_status archived m)

-- What a cleanup removes: the archived segments split into the old ones and those that are kept.
pub record Cleaned (segs : List SegmentInfo) (max_segments : ℕ) (files files' : Map Bytes Bytes)
    (count : ℕ) : Type 0 where
  pub old : List SegmentInfo
  pub kept : List SegmentInfo
  pub all : Perm (old ++ kept) segs
  pub kept_many : length kept ≡ max_segments
  pub oldest : IsOld old kept
  pub counted : count ≡ length old
  pub removed : (k : Bytes) → lookup k files' ≡ (if named k old then none else lookup k files)

-- With more archived segments than the limit, the oldest are deleted.
cleanup-deletes :
    (removable : Bytes → Bool) (max_segments : ℕ) (m : InMemoryManifest) (files : Map Bytes Bytes)
    → 0 < max_segments
    → max_segments < length (get_segments_by_status archived m)
    → cleanup_old_segments removable max_segments (some m) files
      ≡ delete_files removable
          (take
            (length (get_segments_by_status archived m) - max_segments)
            (sort_slice id_less (get_segments_by_status archived m)))
          0
          files
unfolding cleanup_old_segments
cleanup-deletes removable max_segments m files limited many = ground arith

module _ (removable : Bytes → Bool) (max_segments : ℕ) (m : InMemoryManifest)
    (files : Map Bytes Bytes) (limited : 0 < max_segments)
    (many : max_segments < length (get_segments_by_status archived m)) where
  abbrev segs : List SegmentInfo
  segs = get_segments_by_status archived m

  abbrev old_ones : List SegmentInfo
  old_ones = take (length segs - max_segments) (sort_slice id_less segs)

  module _ (files' : Map Bytes Bytes) (count : ℕ)
      (went : cleanup_old_segments removable max_segments (some m) files
        ≡ (files', count, none)) where
    deleted : delete_files removable old_ones 0 files ≡ (files', count, none)
    deleted = sym (cleanup-deletes removable max_segments m files limited many) ∙ went

    -- A cleanup that meets no error, of a manifest with more archived segments than the limit,
    -- removes the files of the oldest and keeps as many of the newest as the limit says; other
    -- files are left alone.
    pub cleanup-Cleaned : Cleaned segs max_segments files files' count
    cleanup-Cleaned =
        let sorted = sort_slice id_less segs in
        let (counted, removed) =
          delete_files-lookup removable old_ones 0 files files' count deleted in
        record {
          old = old_ones;
          kept = drop (length segs - max_segments) sorted;
          all =
              subst (λ t. Perm t segs) (sym (take-append-drop (length segs - max_segments) sorted))
                (sort_slice-Perm id_less segs);
          kept_many = omega (
            arith,
            length-drop (length segs - max_segments) sorted,
            sort_slice-length id_less segs,
          );
          oldest = split_sorted (length segs - max_segments) sorted (archived-IsSorted m);
          counted = omega arith;
          removed = removed;
        }

    cleanup_count : (count ≡ length segs - max_segments) × (0 < count)
    cleanup_count =
        let (counted, removed) =
          delete_files-lookup removable old_ones 0 files files' count deleted in
        let cut = length-take (length segs - max_segments) (sort_slice id_less segs) in
        (
          omega (arith, sort_slice-length id_less segs),
          omega (arith, sort_slice-length id_less segs),
        )

    gone : (k : Bytes) → named k old_ones ≡ true → lookup k files' ≡ none
    gone k e =
        let (counted, removed) =
          delete_files-lookup removable old_ones 0 files files' count deleted in
        removed k ∙ (rw e refl)

    -- The manifest does not learn of a cleanup: after one that met no error, of a manifest with more
    -- archived segments than the limit, the next one reports as many segments removed, at least
    -- one, without an error, though it leaves the directory as it is.
    pub cleanup_again :
        (0 < count)
        × (cleanup_old_segments removable max_segments (some m) files' ≡ (files', count, none))
    cleanup_again =
        let (counted, removed) =
          delete_files-lookup removable old_ones 0 files files' count deleted in
        let same : 0 + length old_ones ≡ count = omega arith in
        (
          cleanup_count.1,
          cleanup-deletes removable max_segments m files' limited many
              ∙ delete_files-gone removable old_ones 0 files' gone
              ∙ ap (λ (t : ℕ). (files', t, none)) same,
        )
