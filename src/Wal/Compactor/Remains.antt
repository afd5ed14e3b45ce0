-- ===== src/Wal/Compactor/Remains.antt =====
-- What the directory of a compaction says of a document, wherever the compaction stops.
use selfstack.Prelude.{
  ℕ, ◌≡◌, refl, sym, ap, ◌∙◌, List, [], ◌∷◌, true, Option, none, some, arith, ◌⊎◌, inl, inr,
  Bool-cases, All, Any, subst,
}
use selfstack.Prelude.Maps.{lookup, bytes_eq, bytes_beq, bytes_beq_iff}
use selfstack.Bytes.{Bytes}
use selfstack.Wal.Record.{Record}
use selfstack.Wal.Payload.{Json}
use selfstack.Wal.Index.{RecoveredDoc, DocumentIndex}
use selfstack.Wal.Manifest.{SegmentInfo}
use selfstack.Wal.Roller.Names.{final-is_segment_file, wal-is_segment_file}
use selfstack.Wal.Compactor.Said.{compacted_origin, files-Says, Says-files}
use selfstack.Wal.Roller.{is_segment_file, is_wal_segment_file}
use selfstack.Wal.Recovery.Latest.{known_doc, latest}
use selfstack.Wal.Recovery.Whole.{segment_records, all_records, recover-latest}
use selfstack.Wal.Recovery.Same.{Says, known-Says, Says-known, IsConsistent, latest-same}
use selfstack.Wal.Recovery.Directory.{
  segment_contents, recover_from_dir, contents-DirSays, DirSays-contents, nothing_said,
}
use selfstack.Wal.Compactor.{
  Merge, SegmentInput, combined, compacted_records, compacted_segment, sort_by_lsn,
}
use selfstack.Wal.Compactor.Segments.{files}
use selfstack.Wal.Compactor.Output.{latest-compacted}
use selfstack.Wal.Compactor.Preserve.{compacted-records}
use selfstack.Wal.Compactor.Merged.{IsBytes}
use selfstack.Wal.Compactor.Run.{inputs, final_name, new_segment_id}
use selfstack.Wal.Compactor.Ran.{CompactIo, World}
use selfstack.Wal.Compactor.Stages.{Dir, Kept, Swapped, IsMerged, IsStage}

module _ (json : Json) (io : CompactIo) (segs : List SegmentInfo) (w₀ : World)
    (absent : lookup (final_name segs) w₀.dir ≡ none)
    (names : All (λ (s : SegmentInfo). is_wal_segment_file s.filename ≡ true) segs)
    (bytes : All (λ (i : SegmentInput). IsBytes i.file) (inputs segs w₀)) (k : Bytes)
    (consistent : IsConsistent json k (all_records (segment_contents w₀.dir))) where
  abbrev old_records : List Record
  old_records = all_records (segment_contents w₀.dir)

  abbrev merging_records : List Record
  merging_records = all_records (files json (inputs segs w₀))

  old_name :
      (ss : List SegmentInfo) (n : Bytes)
      → All (λ (s : SegmentInfo). is_wal_segment_file s.filename ≡ true) ss
      → Any (λ (s : SegmentInfo). s.filename ≡ n) ss
      → is_segment_file n ≡ true
  old_name [] n h a = absurd a
  old_name (s ∷ ss) n (h, hs) (inl e) =
      wal-is_segment_file n (subst (λ x. is_wal_segment_file x ≡ true) e h)
  old_name (s ∷ ss) n (h, hs) (inr a) = old_name ss n hs a

  merged_before :
      (l : ℕ) (d : Option RecoveredDoc)
      → Says json k l d merging_records
      → Says json k l d old_records
  merged_before l d s =
      let (n, old, said) = files-Says json k segs w₀ l d s in
      DirSays-contents json k l d w₀.dir (n, old_name segs n names old, said)

  Kept-Says :
      (n : Bytes) (d : Dir) (l : ℕ) (doc : Option RecoveredDoc)
      → is_segment_file n ≡ true
      → Kept json io segs w₀ n d
      → Says json k l doc (segment_records (lookup n d))
      → Says json k l doc old_records
  Kept-Says n d l doc t (inl same) said =
      DirSays-contents json k l doc w₀.dir
        (n, t, subst (λ f. Says json k l doc (segment_records f)) same said)
  Kept-Says n d l doc t (inr (gone, old)) said = absurd (nothing_said json k l doc gone said)

  abbrev target : Bytes
  target = final_name segs

  target-records :
      (m : Merge) (d : Dir) (l : ℕ) (doc : Option RecoveredDoc)
      → IsMerged json io segs w₀ m
      → lookup target d ≡ some (compacted_segment m).file
      → segment_records (lookup target d) ≡ compacted_records m
  target-records m d l doc e here =
      ap segment_records here ∙ compacted-records json (inputs segs w₀) m e bytes

  -- A file that is not the merged one, or is.
  swapped_Says :
      (m : Merge) (d : Dir) (l : ℕ) (doc : Option RecoveredDoc) (n : Bytes)
      → IsMerged json io segs w₀ m
      → Swapped json io segs w₀ m d
      → is_segment_file n ≡ true
      → Says json k l doc (segment_records (lookup n d))
      → Says json k l doc old_records
  swapped_Says m d l doc n e (here, kept) t said = elim (Bool-cases (bytes_beq n target)) [
    | inr other ↦ Kept-Says n d l doc t (kept n other) said
    | inl is ↦
        let at : Says json k l doc (segment_records (lookup target d)) =
          subst (λ x. Says json k l doc (segment_records (lookup x d)))
            ((bytes_beq_iff n target).0 is) said in
        merged_before l doc (
          compacted_origin json k (inputs segs w₀) m l doc e
            (subst (Says json k l doc) (target-records m d l doc e here) at))
  ]

  -- Nothing new is said at any stage.
  none_new :
      (d : Dir)
      → IsStage json io segs w₀ d
      → (l : ℕ) (doc : Option RecoveredDoc) → Says json k l doc (all_records (segment_contents d))
      → Says json k l doc old_records
  none_new d stage l doc s =
      let (n, t, said) = contents-DirSays json k l doc d s in
      elim stage [
        | inl same ↦ Kept-Says n d l doc t (inl (same n)) said
        | inr (m, e, inl swapped) ↦ swapped_Says m d l doc n e swapped t said
        | inr (m, e, inr (empty, kept)) ↦ Kept-Says n d l doc t (kept n) said
      ]

  -- What counts of the whole log, if it is in a file that is merged, is what counts of those files.
  still_counts :
      (l : ℕ) (doc : Option RecoveredDoc)
      → latest json k old_records none ≡ some (l, doc)
      → Says json k l doc merging_records
      → latest json k merging_records none ≡ some (l, doc)
  still_counts l doc e said =
      let (l', doc', e', le) = Says-known json k merging_records l doc said in
      let there = merged_before l' doc' (known-Says json k merging_records l' doc' e') in
      let (l'', doc'', e'', le') = Says-known json k old_records l' doc' there in
      let top : l'' ≡ l = ground (arith, e, e'') in
      let same : l' ≡ l = omega arith in
      let agree =
        consistent l doc' doc (subst (λ x. Says json k x doc' old_records) same there)
          (known-Says json k old_records l doc e) in
      e' ∙ (rw (same, agree) refl)

  -- A file that is gone is one of those that are merged.
  still_kept :
      (n : Bytes) (d : Dir) (l : ℕ) (doc : Option RecoveredDoc) (m : Merge)
      → IsMerged json io segs w₀ m
      → latest json k old_records none ≡ some (l, doc)
      → is_segment_file n ≡ true
      → Kept json io segs w₀ n d
      → Says json k l doc (segment_records (lookup n w₀.dir))
      → Says json k l doc (all_records (segment_contents d))
        ⊎ (latest json k (compacted_records m) none ≡ some (l, doc))
  still_kept n d l doc m e known t (inl same) said = inl (
      DirSays-contents json k l doc d
        (n, t, subst (λ f. Says json k l doc (segment_records f)) (sym same) said))
  still_kept n d l doc m e known t (inr (gone, old)) said = inr (
      latest-compacted json k (inputs segs w₀) m e
      ∙ still_counts l doc known (Says-files json k segs w₀ l doc n old said))

  swapped_left :
      (m : Merge) (d : Dir) (l : ℕ) (doc : Option RecoveredDoc) (n : Bytes)
      → IsMerged json io segs w₀ m
      → Swapped json io segs w₀ m d
      → latest json k old_records none ≡ some (l, doc)
      → is_segment_file n ≡ true
      → Says json k l doc (segment_records (lookup n w₀.dir))
      → Says json k l doc (all_records (segment_contents d))
  swapped_left m d l doc n e (here, kept) known t said = elim (Bool-cases (bytes_beq n target)) [
    | inl is ↦ absurd (
        nothing_said json k l doc
          (subst (λ x. lookup x w₀.dir ≡ none) (sym ((bytes_beq_iff n target).0 is)) absent) said)
    | inr other ↦ elim (still_kept n d l doc m e known t (kept n other) said) [
      | inl there ↦ there
      | inr counts ↦ DirSays-contents json k l doc d (
        target,
        final-is_segment_file (new_segment_id segs),
        subst (Says json k l doc) (sym (target-records m d l doc e here))
            (known-Says json k (compacted_records m) l doc counts),
      )
    ]
  ]

  empty_records : (m : Merge) → combined m ≡ [] → compacted_records m ≡ []
  unfolding compacted_records
  empty_records m empty = ap sort_by_lsn empty ∙ (unfold sort_by_lsn in refl)

  -- What counts is still said.
  left :
      (d : Dir)
      → IsStage json io segs w₀ d
      → (l : ℕ) (doc : Option RecoveredDoc) → latest json k old_records none ≡ some (l, doc)
      → Says json k l doc (all_records (segment_contents d))
  left d stage l doc known =
      let (n, t, said) =
        contents-DirSays json k l doc w₀.dir (known-Says json k old_records l doc known) in
      elim stage [
        | inl same ↦
            DirSays-contents json k l doc d
              (n, t, subst (λ f. Says json k l doc (segment_records f)) (sym (same n)) said)
        | inr (m, e, inl swapped) ↦ swapped_left m d l doc n e swapped known t said
        | inr (m, e, inr (empty, kept)) ↦ elim (still_kept n d l doc m e known t (kept n) said) [
          | inl there ↦ there
          | inr counts ↦ absurd (
              subst (Says json k l doc) (empty_records m empty)
                (known-Says json k (compacted_records m) l doc counts))
        ]
      ]

  stage-latest :
      (d : Dir)
      → IsStage json io segs w₀ d
      → latest json k (all_records (segment_contents d)) none ≡ latest json k old_records none
  stage-latest d stage =
      latest-same json k old_records (all_records (segment_contents d)) consistent
        (none_new d stage) (left d stage)

  pub stage-recovers :
      (I : DocumentIndex) (index : I.Index)
      → ((j : Bytes) → I.find j index ≡ none)
      → (d : Dir) → IsStage json io segs w₀ d
      → I.find k (recover_from_dir json I d index).replay.index
        ≡ I.find k (recover_from_dir json I w₀.dir index).replay.index
  unfolding recover_from_dir
  stage-recovers I index empty d stage =
      recover-latest json I (segment_contents d) index k empty
      ∙ ap known_doc (stage-latest d stage)
      ∙ sym (recover-latest json I (segment_contents w₀.dir) index k empty)
