-- ===== src/Wal/Writer/Rotation.antt =====
-- A rotation keeps every acknowledged record, whichever of its calls fails.
use selfstack.Prelude.{
  ℕ, suc, ◌^◌, ◌<◌, ◌≡◌, if-both, refl, sym, ap, ap₂, ◌∙◌, List, [], length, true, false, ◌&&◌, not,
  Option, none, some, Result, ok, err, ltb, leb, ◌==◌, Bool-cases, Option-cases, inl, inr, All,
  All-left, subst,
}
use selfstack.Prelude.Maps.{Map, lookup, insert, lookup-insert, beq_refl}
use selfstack.Bytes.{Bytes, IsByte}
use selfstack.Wal.Reader.Whole.{encode_all, scan_sound}
use selfstack.Wal.Tail.{repaired}
use selfstack.Wal.Tail.Repair.{readable, readable-IsWellFormed, repaired_lem}
use selfstack.Wal.Manifest.{ManifestStore}
use selfstack.Wal.Manifest.Keys.{nat_eq}
use selfstack.Wal.Writer.{
  WriterConfig, Io, WalWriter, Outcome, content, truncated, open_segment, sync_locked, sync_file,
  close_file, seal_in, keep_manifest, next_segment, create_in, rotate_locked, rotate_due, sync_due,
}
use selfstack.Wal.Writer.Commands.{Acknowledged}
use selfstack.Wal.Writer.Held.{
  IsKept, Kept, Held, Shut, Shut-Held, and_then-keeps, Kept-insert, readable-encode_all, AllBytes,
}

-- The file that `openSegment` leaves.
module _ (file : Bytes) (bytes : All IsByte file) where
  pub repaired-IsByte : All IsByte (repaired file)
  repaired-IsByte =
      let (rest, split, _) = scan_sound (suc (length file)) file bytes in
      rw (repaired_lem file bytes).0
        (All-left IsByte (encode_all (readable file)) rest (subst (All IsByte) split bytes))

  pub readable-repaired : readable (repaired file) ≡ readable file
  readable-repaired =
      ap readable (repaired_lem file bytes).0
      ∙ readable-encode_all (readable file) (readable-IsWellFormed file bytes)

module _ (M : ManifestStore) (acks : List Acknowledged) where
  abbrev IsHeld : Outcome M (Unit {0}) → Type 0
  IsHeld o = Held M acks o.0

  abbrev IsShut : Outcome M (Unit {0}) → Type 0
  IsShut o = Shut M acks o.0

  pub Held-fields :
      (w w' : WalWriter M)
      → w'.files ≡ w.files
      → w'.is_open ≡ w.is_open
      → w'.segment_id ≡ w.segment_id
      → w'.lsn ≡ w.lsn
      → Held M acks w
      → Held M acks w'
  Held-fields w w' f o s l h = record {
    kept = record {
      all_bytes = subst AllBytes (sym f) h.kept.all_bytes;
      lsn = subst (λ n. n < 2 ^ 64) (sym l) h.kept.lsn;
      kept = subst (λ files. All (IsKept files) acks) (sym f) h.kept.kept;
    };
    current = λ e. let (rs, found, wf) = h.current (sym o ∙ e) in (rs, ap₂ lookup s f ∙ found, wf);
  }

  pub sync_locked-Held :
      (io : Io) (w : WalWriter M) → Held M acks w → Held M acks (sync_locked M io w).0
  unfolding sync_locked
  sync_locked-Held io w h = elim (Bool-cases (w.pending_writes == 0)) [
    | inl none_pending ↦ rw none_pending h
    | inr pending ↦ elim (Bool-cases (io.sync_works && w.is_open)) [
      | inl works ↦ rw (pending, works) (Held-fields w _ refl refl refl refl h)
      | inr fails ↦ rw (pending, fails) h
    ]
  ]

  pub sync_file-Held :
      (io : Io) (w : WalWriter M) → Held M acks w → Held M acks (sync_file M io w).0
  unfolding sync_file
  sync_file-Held io w h = if-both IsHeld _ _ _ h h

  pub close_file-Shut :
      (io : Io) (w : WalWriter M) → Kept M acks w → Shut M acks (close_file M io w).0
  unfolding close_file
  close_file-Shut io w k =
      let s : Shut M acks (record w { is_open = false }) = record {
        kept = record { all_bytes = k.all_bytes; lsn = k.lsn; kept = k.kept };
        shut = refl;
      } in
      if-both IsShut _ _ _ s s

  with_manifest :
      (w : WalWriter M) (m : Option M.State)
      → Shut M acks w
      → Shut M acks (record w { manifest = m })
  with_manifest w m s = record {
    kept = record { all_bytes = s.kept.all_bytes; lsn = s.kept.lsn; kept = s.kept.kept };
    shut = s.shut;
  }

  keep_manifest-Shut :
      (w : WalWriter M) (r : Result M.State) → Shut M acks w → Shut M acks (keep_manifest M w r).0
  keep_manifest-Shut w (ok m) s = with_manifest w (some m) s
  keep_manifest-Shut w (err e) s = s

  seal_in-Shut :
      (io : Io) (w : WalWriter M) (m : Option M.State)
      → Shut M acks w
      → Shut M acks (seal_in M io w m).0
  unfolding seal_in
  seal_in-Shut io w none s = s
  seal_in-Shut io w (some m) s = if-both IsShut io.checksum_works _ _ (keep_manifest-Shut w _ s) s

  create_in-Shut :
      (w : WalWriter M) (m : Option M.State) → Shut M acks w → Shut M acks (create_in M w m).0
  unfolding create_in
  create_in-Shut w none s = s
  create_in-Shut w (some m) s = keep_manifest-Shut w _ s

  next_segment-Shut : (w : WalWriter M) → Shut M acks w → Shut M acks (next_segment M w)
  unfolding next_segment
  next_segment-Shut w s = record {
    kept = record { all_bytes = s.kept.all_bytes; lsn = s.kept.lsn; kept = s.kept.kept };
    shut = s.shut;
  }

  -- A state whose current file is made of the records rs.
  opened :
      (w : WalWriter M) (file : Bytes)
      → Shut M acks w
      → All IsByte file
      → ((old : Bytes) → lookup w.segment_id w.files ≡ some old → file ≡ old)
      → file ≡ encode_all (readable file)
      → Held M acks (record w {
        files = insert w.segment_id file w.files;
        is_open = true;
        offset = length file;
      })
  opened w file s b from whole =
      let k =
        Kept-insert M acks w w.segment_id file s.kept b
          (λ old rec found h. rw (from old found) h) in
      record {
        kept = record { all_bytes = k.all_bytes; lsn = k.lsn; kept = k.kept };
        current = λ _. (
          readable file,
          lookup-insert w.segment_id w.segment_id file w.files
              ∙ rw (beq_refl w.segment_id) (ap some whole),
          readable-IsWellFormed file b,
        );
      }

  truncated-Shut : (w : WalWriter M) → Shut M acks w → Shut M acks (truncated M w)
  unfolding truncated
  truncated-Shut w s = elim (Option-cases (lookup w.segment_id w.files)) [
    | inl e ↦ rw e (record {
      kept = record { all_bytes = s.kept.all_bytes; lsn = s.kept.lsn; kept = s.kept.kept };
      shut = s.shut;
    })
    | inr (file, e) ↦
        let b = s.kept.all_bytes w.segment_id file e in
        let k =
          Kept-insert M acks w w.segment_id (repaired file) s.kept (repaired-IsByte file b)
            (λ old rec found h.
              rw
                (
                  some-inj (sym e ∙ found),
                  readable-repaired old (s.kept.all_bytes w.segment_id old found),
                )
                h) in
        rw e (record {
          kept = record { all_bytes = k.all_bytes; lsn = k.lsn; kept = k.kept };
          shut = s.shut;
        })
  ]
    where
      some-inj : {x y : Bytes} → some x ≡ some y → x ≡ y
      some-inj e = cc

  empty-whole : encode_all (readable []) ≡ []
  unfolding encode_all
  empty-whole = ap encode_all (readable-encode_all [] tt)

  pub content-some :
      (id : ℕ) (files : Map ℕ Bytes) (file : Bytes)
      → lookup id files ≡ some file
      → content M id files ≡ file
  content-some id files file e = rw (content, e) refl

  content-absent :
      (w : WalWriter M)
      → lookup w.segment_id w.files ≡ none
      → content M w.segment_id (truncated M w).files ≡ []
  unfolding truncated
  content-absent w e = rw (content, truncated, e, e) refl

  content-present :
      (w : WalWriter M) (file : Bytes)
      → lookup w.segment_id w.files ≡ some file
      → content M w.segment_id (truncated M w).files ≡ repaired file
  unfolding truncated
  content-present w file e =
      rw (truncated, e)
        (content-some w.segment_id (insert w.segment_id (repaired file) w.files) (repaired file) (
          lookup-insert w.segment_id w.segment_id (repaired file) w.files
          ∙ rw (beq_refl w.segment_id) refl))

  -- The file after its tail was cut, if there was a file.
  IsWhole : Bytes → Type 0
  IsWhole file = All IsByte file × (file ≡ encode_all (readable file))

  content-truncated :
      (w : WalWriter M) → AllBytes w.files → IsWhole (content M w.segment_id (truncated M w).files)
  unfolding IsWhole
  content-truncated w b = elim (Option-cases (lookup w.segment_id w.files)) [
    | inl e ↦ subst IsWhole (sym (content-absent w e)) (tt, sym empty-whole)
    | inr (file, e) ↦
        let bytes = b w.segment_id file e in
        subst IsWhole (sym (content-present w file e)) (
          repaired-IsByte file bytes,
          (repaired_lem file bytes).0 ∙ ap encode_all (sym (readable-repaired file bytes)),
        )
  ]

  pub open_segment-Held :
      (io : Io) (w : WalWriter M) → Shut M acks w → Held M acks (open_segment M io w).0
  unfolding open_segment truncated IsWhole
  open_segment-Held io w s =
      elim (Bool-cases (ltb 0 (length (content M w.segment_id w.files)) && not io.repair_works)) [
        | inl fails ↦ rw fails (Shut-Held M acks w s)
        | inr goes_on ↦ elim (Bool-cases io.open_works) [
          | inr fails ↦ rw (goes_on, fails) (Shut-Held M acks (truncated M w) (truncated-Shut w s))
          | inl works ↦
              let file = content M w.segment_id (truncated M w).files in
              let (b, whole) = content-truncated w s.kept.all_bytes in
              rw (goes_on, works)
                (opened (truncated M w) file (truncated-Shut w s) b
                  (λ old found. content-some w.segment_id (truncated M w).files old found) whole)
        ]
      ]

  -- Whichever of its calls fails, a rotation leaves all acknowledged records readable.
  pub rotate_locked-Held :
      (io : Io) (w : WalWriter M) → Held M acks w → Held M acks (rotate_locked M io w).0
  unfolding rotate_locked
  rotate_locked-Held io w h =
      and_then-keeps M (Held M acks) (Held M acks) (sync_locked M io w) _ (sync_locked-Held io w h)
        (λ w h. h)
        (λ w _ h.
          and_then-keeps M (Shut M acks) (Held M acks) (close_file M io w) _
            (close_file-Shut io w h.kept) (Shut-Held M acks)
            (λ w _ s.
              and_then-keeps M (Shut M acks) (Held M acks) (seal_in M io w w.manifest) _
                (seal_in-Shut io w w.manifest s) (Shut-Held M acks)
                (λ w _ s.
                  and_then-keeps M (Shut M acks) (Held M acks)
                    (create_in M (next_segment M w) w.manifest) _
                    (create_in-Shut (next_segment M w) w.manifest (next_segment-Shut w s))
                    (Shut-Held M acks) (λ w _ s. open_segment-Held io w s))))

  pub rotate_due-Held :
      (config : WriterConfig) (io : Io) (w : WalWriter M)
      → Held M acks w
      → Held M acks (rotate_due M config io w).0
  unfolding rotate_due
  rotate_due-Held config io w h =
      if-both IsHeld (leb config.max_size w.offset) _ _ (rotate_locked-Held io w h) h

  pub sync_due-Held :
      (config : WriterConfig) (io : Io) (w : WalWriter M)
      → Held M acks w
      → Held M acks (sync_due M config io w).0
  unfolding sync_due
  sync_due-Held config io w h = if-both IsHeld _ _ _ (sync_locked-Held io w h) h
