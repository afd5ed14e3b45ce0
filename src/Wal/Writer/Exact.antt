-- ===== src/Wal/Writer/Exact.antt =====
-- internal/scope/db/wal/writer.go: an append adds its record to the files of the log, and no other.
use selfstack.Prelude.{
  ℕ, ◌≡◌, refl, sym, ap, ◌∙◌, List, [], ◌∷◌, ◌++◌, length, ◌&&◌, not, ltb, Option, none, some, ok,
  err, if-both, Bool-cases, Option-cases, inl, inr, All, Any, All-append, All-weaken, append-nil,
  subst, Result, leb, ◌||◌, io_failed, arith,
}
use selfstack.Prelude.Maps.{Map, lookup, insert, lookup-insert}
use selfstack.Bytes.{Bytes, IsByte}
use selfstack.Wal.Record.{Record, IsWellFormed, encode}
use selfstack.Wal.Reader.{calculate_segment_checksum}
use selfstack.Wal.Reader.Whole.{encode_all}
use selfstack.Wal.Tail.{repaired}
use selfstack.Wal.Tail.Repair.{readable}
use selfstack.Wal.Manifest.{ManifestStore}
use selfstack.Wal.Manifest.Keys.{nat_eq}
use selfstack.Wal.Writer.{
  WriterConfig, Io, WalWriter, Outcome, content, truncated, open_segment, sync_locked, sync_file,
  close_file, seal_in, keep_manifest, next_segment, create_in, rotate_locked, rotate_due, sync_due,
  write_data, done,
}
use selfstack.Wal.Writer.Commands.{FailsAtOnce, IsAtomic}
use selfstack.Wal.Writer.Held.{and_then-keeps, readable-encode_all, encode_all-snoc}
use selfstack.Wal.Writer.Rotation.{repaired-IsByte, readable-repaired, content-some}

abbrev pub IsIn : List Record → Record → Type 0
IsIn recs r = Any (λ x. x ≡ r) recs

-- Every record that can be read from the file is one of recs.
abbrev pub HasOnly : List Record → Bytes → Type 0
HasOnly recs file = All IsByte file × All (IsIn recs) (readable file)

-- The files hold bytes, and no other records than recs.
pub record Only (recs : List Record) (files : Map ℕ Bytes) : Type 0 where
  pub each : (id : ℕ) (file : Bytes) → lookup id files ≡ some file → HasOnly recs file

pub Only-more :
    (r : Record) (recs : List Record) (files : Map ℕ Bytes)
    → Only recs files
    → Only (r ∷ recs) files
Only-more r recs files o = record {
  each = λ id file found.
      let (b, h) = o.each id file found in (b, All-weaken _ _ (readable file) (λ x i. inr i) h);
}

some_injective : (x y : Bytes) → some x ≡ some y → x ≡ y
some_injective x y e = cc

HasOnly-insert :
    (recs : List Record) (files : Map ℕ Bytes) (id : ℕ) (file : Bytes)
    → Only recs files
    → HasOnly recs file
    → (j : ℕ) (file' : Bytes) → lookup j (insert id file files) ≡ some file'
    → HasOnly recs file'
HasOnly-insert recs files id file o h j file' found = elim (Bool-cases (nat_eq.beq id j)) [
  | inl same ↦
      let here : lookup j (insert id file files) ≡ some file =
        lookup-insert id j file files ∙ rw same refl in
      subst (HasOnly recs) (some_injective file file' (sym here ∙ found)) h
  | inr other ↦ o.each j file' (sym (lookup-insert id j file files ∙ rw other refl) ∙ found)
]

Only-insert :
    (recs : List Record) (files : Map ℕ Bytes) (id : ℕ) (file : Bytes)
    → Only recs files
    → HasOnly recs file
    → Only recs (insert id file files)
Only-insert recs files id file o h = record {
  each = λ j file' found. HasOnly-insert recs files id file o h j file' found;
}

nothing_readable : readable [] ≡ []
unfolding encode_all
nothing_readable = readable-encode_all [] tt

empty-HasOnly : (recs : List Record) → HasOnly recs []
empty-HasOnly recs = (tt, subst (All (IsIn recs)) (sym nothing_readable) tt)

module _ (M : ManifestStore) (recs : List Record) where
  abbrev OnlyIn : WalWriter M → Type 0
  OnlyIn w = Only recs w.files

  abbrev OnlyOut : Outcome M (Unit {0}) → Type 0
  OnlyOut o = Only recs o.0.files

  content-HasOnly :
      (id : ℕ) (files : Map ℕ Bytes) → Only recs files → HasOnly recs (content M id files)
  content-HasOnly id files o = elim (Option-cases (lookup id files)) [
    | inl e ↦ rw (content, e) (empty-HasOnly recs)
    | inr (file, e) ↦ rw (content, e) (o.each id file e)
  ]

  truncated-Only : (w : WalWriter M) → OnlyIn w → OnlyIn (truncated M w)
  unfolding truncated
  truncated-Only w o = elim (Option-cases (lookup w.segment_id w.files)) [
    | inl e ↦ rw (truncated, e) o
    | inr (file, e) ↦
        let (b, h) = o.each w.segment_id file e in
        rw (truncated, e)
          (Only-insert recs w.files w.segment_id (repaired file) o
            (repaired-IsByte file b, subst (All (IsIn recs)) (sym (readable-repaired file b)) h))
  ]

  pub open_segment-Only : (io : Io) (w : WalWriter M) → OnlyIn w → OnlyOut (open_segment M io w)
  unfolding open_segment
  open_segment-Only io w o =
      let t = truncated-Only w o in
      elim (Bool-cases (ltb 0 (length (content M w.segment_id w.files)) && not io.repair_works)) [
        | inl fails ↦ rw fails o
        | inr goes_on ↦ elim (Bool-cases io.open_works) [
          | inr fails ↦ rw (goes_on, fails) t
          | inl works ↦
              rw (goes_on, works)
                (Only-insert recs (truncated M w).files w.segment_id _ t
                  (content-HasOnly w.segment_id (truncated M w).files t))
        ]
      ]

  sync_locked-files : (io : Io) (w : WalWriter M) → (sync_locked M io w).0.files ≡ w.files
  unfolding sync_locked
  sync_locked-files io w = ground arith

  sync_file-files : (io : Io) (w : WalWriter M) → (sync_file M io w).0.files ≡ w.files
  unfolding sync_file
  sync_file-files io w = ground arith

  close_file-files : (io : Io) (w : WalWriter M) → (close_file M io w).0.files ≡ w.files
  unfolding close_file
  close_file-files io w = ground arith

  sync_locked-Only : (io : Io) (w : WalWriter M) → OnlyIn w → OnlyOut (sync_locked M io w)
  sync_locked-Only io w o = subst (Only recs) (sym (sync_locked-files io w)) o

  pub sync_file-Only : (io : Io) (w : WalWriter M) → OnlyIn w → OnlyOut (sync_file M io w)
  sync_file-Only io w o = subst (Only recs) (sym (sync_file-files io w)) o

  close_file-Only : (io : Io) (w : WalWriter M) → OnlyIn w → OnlyOut (close_file M io w)
  close_file-Only io w o = subst (Only recs) (sym (close_file-files io w)) o

  keep_manifest-Only :
      (w : WalWriter M) (r : Result M.State) → OnlyIn w → OnlyOut (keep_manifest M w r)
  keep_manifest-Only w (ok m) o = o
  keep_manifest-Only w (err e) o = o

  seal_in-Only :
      (io : Io) (w : WalWriter M) (m : Option M.State) → OnlyIn w → OnlyOut (seal_in M io w m)
  unfolding seal_in
  seal_in-Only io w none o = o
  seal_in-Only io w (some m) o =
      let sum = calculate_segment_checksum (content M w.segment_id w.files) in
      if-both OnlyOut io.checksum_works (keep_manifest M w (M.seal_segment w.segment_id sum m))
        (w, err io_failed) (keep_manifest-Only w _ o) o

  create_in-Only :
      (w : WalWriter M) (m : Option M.State) → OnlyIn w → OnlyOut (create_in M (next_segment M w) m)
  unfolding create_in next_segment
  create_in-Only w none o = o
  create_in-Only w (some m) o = keep_manifest-Only _ _ o

  rotate_locked-Only : (io : Io) (w : WalWriter M) → OnlyIn w → OnlyOut (rotate_locked M io w)
  unfolding rotate_locked
  rotate_locked-Only io w o =
      and_then-keeps M OnlyIn OnlyIn (sync_locked M io w) _ (sync_locked-Only io w o) (λ w o. o)
        (λ w _ o.
          and_then-keeps M OnlyIn OnlyIn (close_file M io w) _ (close_file-Only io w o) (λ w o. o)
            (λ w _ o.
              and_then-keeps M OnlyIn OnlyIn (seal_in M io w w.manifest) _
                (seal_in-Only io w w.manifest o) (λ w o. o)
                (λ w _ o.
                  and_then-keeps M OnlyIn OnlyIn (create_in M (next_segment M w) w.manifest) _
                    (create_in-Only w w.manifest o) (λ w o. o)
                    (λ w _ o. open_segment-Only io w o))))

  pub rotate_due-Only :
      (config : WriterConfig) (io : Io) (w : WalWriter M)
      → OnlyIn w
      → OnlyOut (rotate_due M config io w)
  unfolding rotate_due
  rotate_due-Only config io w o =
      if-both OnlyOut (leb config.max_size w.offset) (rotate_locked M io w) (done M w)
        (rotate_locked-Only io w o) o

  pub sync_due-Only :
      (config : WriterConfig) (io : Io) (w : WalWriter M)
      → OnlyIn w
      → OnlyOut (sync_due M config io w)
  unfolding sync_due
  sync_due-Only config io w o =
      if-both OnlyOut
        (config.immediate || ltb 0 config.batch_size && leb config.batch_size w.pending_writes)
        (sync_locked M io w) (done M w) (sync_locked-Only io w o) o

module _ (M : ManifestStore) (recs : List Record) (config : WriterConfig) (io : Io) where
  pub write_data-Only :
      (w : WalWriter M) (rec : Record) (rs : List Record)
      → IsAtomic io
      → lookup w.segment_id w.files ≡ some (encode_all rs)
      → All IsWellFormed rs
      → IsWellFormed rec
      → All IsByte (encode rec)
      → Only recs w.files
      → Only (rec ∷ recs) (write_data M io (encode rec) w).0.files
  unfolding write_data
  write_data-Only w rec rs atomic found wfs wf b o =
      let more = Only-more rec recs w.files o in
      let old = content M w.segment_id w.files in
      let (old_bytes, old_in) = content-HasOnly M (rec ∷ recs) w.segment_id w.files more in
      let before : old ≡ encode_all rs = content-some M [] w.segment_id w.files _ found in
      let after : readable (old ++ encode rec) ≡ rs ++ (rec ∷ []) =
        ap readable (ap (λ t. t ++ encode rec) before ∙ encode_all-snoc rs rec)
        ∙ readable-encode_all (rs ++ (rec ∷ []))
            (All-append IsWellFormed rs (rec ∷ []) wfs (wf, tt)) in
      let seen : readable old ≡ rs = ap readable before ∙ readable-encode_all rs wfs in
      let all_in =
        All-append (IsIn (rec ∷ recs)) rs (rec ∷ []) (subst (All (IsIn (rec ∷ recs))) seen old_in)
          (inl refl, tt) in
      elim (Bool-cases w.is_open) [
        | inr shut ↦ rw shut more
        | inl open_now ↦ elim (Option-cases io.write_fails) [
          | inl works ↦
              rw (open_now, works)
                (Only-insert (rec ∷ recs) w.files w.segment_id (old ++ encode rec) more (
                  All-append IsByte old (encode rec) old_bytes b,
                  subst (All (IsIn (rec ∷ recs))) (sym after) all_in,
                ))
          | inr (n, fails) ↦
              rw (open_now, fails, subst FailsAtOnce fails atomic)
                (Only-insert (rec ∷ recs) w.files w.segment_id (old ++ []) more
                  (subst (HasOnly (rec ∷ recs)) (sym (append-nil old)) (old_bytes, old_in)))
        ]
      ]
