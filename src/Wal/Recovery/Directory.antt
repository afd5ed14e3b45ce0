-- ===== src/Wal/Recovery/Directory.antt =====
-- internal/scope/db/wal/recovery.go: `RecoverWithoutManifest` on the files of a directory.
use selfstack.Prelude.{
  ℕ, ◌≡◌, refl, sym, ap, List, [], ◌∷◌, Bool, ◌&&◌, not, if-split, true, false, Option, none, some,
  ok, err, arith, Any, inl, inr, Bool-cases, subst, Option-cases,
}
use selfstack.Prelude.Maps.{Map, lookup, bytes_eq, bytes_beq, bytes_beq_iff}
use selfstack.Prelude.Sorting.{sort_slice, sort_slice-Any, Any-sort_slice}
use selfstack.Bytes.{Bytes}
use selfstack.Wal.Payload.{Json}
use selfstack.Wal.Index.{RecoveredDoc, DocumentIndex}
use selfstack.Wal.Roller.{
  DirEntry, entries, file_names, is_segment_file, segment_less, list_segment_files,
}
use selfstack.Wal.Recovery.{Progress, recover_without_manifest}
use selfstack.Wal.Recovery.Whole.{segment_records, all_records}
use selfstack.Wal.Recovery.Same.{Says, Says-append, append-Says}

-- What os.ReadDir lists of a directory of files.
unfoldable pub dir_entries : Map Bytes Bytes → List DirEntry
dir_entries [] = []
dir_entries ((name, file) ∷ dir) = record { name = name; is_dir = false } ∷ dir_entries dir

unfoldable pub opened : List Bytes → Map Bytes Bytes → List (Option Bytes)
opened [] dir = []
opened (name ∷ names) dir = lookup name dir ∷ opened names dir

-- The segments in the order in which they are read.
unfoldable pub segment_contents : Map Bytes Bytes → List (Option Bytes)
segment_contents dir = elim (list_segment_files (entries (dir_entries dir))) [
  | ok names ↦ opened names dir
  | err e ↦ []
]

unfoldable pub recover_from_dir :
    (json : Json) (I : DocumentIndex) → Map Bytes Bytes → I.Index → Progress json I
recover_from_dir json I dir index = recover_without_manifest json I (segment_contents dir) index

listed-test :
    (test : Bytes → Bool) (n : Bytes) (es : List DirEntry)
    → Any (λ x. x ≡ n) (file_names test es)
    → test n ≡ true
unfolding file_names
listed-test test n [] h = absurd h
listed-test test n (e ∷ es) h =
    if-split (λ names. Any (λ x. x ≡ n) names → test n ≡ true) (not e.is_dir && test e.name)
      (e.name ∷ file_names test es) (file_names test es)
      (λ kept found. elim found [
        | inl same ↦ ground (arith, ap test same)
        | inr later ↦ listed-test test n es later
      ])
      (λ passed found. listed-test test n es found) h

lookup-listed :
    (test : Bytes → Bool) (n file : Bytes) (dir : Map Bytes Bytes)
    → test n ≡ true
    → lookup n dir ≡ some file
    → Any (λ x. x ≡ n) (file_names test (dir_entries dir))
unfolding file_names lookup dir_entries
lookup-listed test n file [] t h = cc
lookup-listed test n file ((m, c) ∷ dir) t h = elim (Bool-cases (test m)) [
  | inl kept ↦ elim (Bool-cases (bytes_beq m n)) [
    | inl same ↦ rw kept (inl ((bytes_beq_iff m n).0 same))
    | inr other ↦ rw kept (inr (lookup-listed test n file dir t (ground (arith, h, other))))
  ]
  | inr passed ↦ elim (Bool-cases (bytes_beq m n)) [
    | inl same ↦ absurd (ground (arith, ap test ((bytes_beq_iff m n).0 same)))
    | inr other ↦ rw passed (lookup-listed test n file dir t (ground (arith, h, other)))
  ]
]

module _ (json : Json) (k : Bytes) (l : ℕ) (d : Option RecoveredDoc) where
  -- A file of the directory, with the name of a segment file, says so.
  abbrev pub DirSays : Map Bytes Bytes → Type 0
  DirSays dir =
      (n : Bytes) × (is_segment_file n ≡ true) × Says json k l d (segment_records (lookup n dir))

  opened-Says :
      (names : List Bytes) (dir : Map Bytes Bytes)
      → Says json k l d (all_records (opened names dir))
      → (n : Bytes) × Any (λ x. x ≡ n) names × Says json k l d (segment_records (lookup n dir))
  unfolding opened all_records
  opened-Says [] dir h = absurd h
  opened-Says (n ∷ ns) dir h =
      elim (append-Says json k l d (segment_records (lookup n dir)) (all_records (opened ns dir))
        h) [
          | inl a ↦ (n, inl refl, a)
          | inr b ↦ let (x, found, s) = opened-Says ns dir b in (x, inr found, s)
        ]

  Says-opened :
      (names : List Bytes) (dir : Map Bytes Bytes) (n : Bytes)
      → Any (λ x. x ≡ n) names
      → Says json k l d (segment_records (lookup n dir))
      → Says json k l d (all_records (opened names dir))
  unfolding opened all_records
  Says-opened [] dir n a s = absurd a
  Says-opened (x ∷ xs) dir n (inl e) s =
      Says-append json k l d (segment_records (lookup x dir)) (all_records (opened xs dir))
        (inl (subst (λ t. Says json k l d (segment_records (lookup t dir))) (sym e) s))
  Says-opened (x ∷ xs) dir n (inr a) s =
      Says-append json k l d (segment_records (lookup x dir)) (all_records (opened xs dir))
        (inr (Says-opened xs dir n a s))

  pub nothing_said :
      {file : Option Bytes} → file ≡ none → Says json k l d (segment_records file) → ⊥
  nothing_said gone s =
      unfold segment_records in subst (λ f. Says json k l d (segment_records f)) gone s

  pub contents-DirSays :
      (dir : Map Bytes Bytes) → Says json k l d (all_records (segment_contents dir)) → DirSays dir
  unfolding segment_contents list_segment_files
  contents-DirSays dir h =
      let found = file_names is_segment_file (dir_entries dir) in
      let (n, a, s) = opened-Says (sort_slice segment_less found) dir h in
      (
        n,
        listed-test is_segment_file n (dir_entries dir) (Any-sort_slice segment_less _ found a),
        s,
      )

  pub DirSays-contents :
      (dir : Map Bytes Bytes) → DirSays dir → Says json k l d (all_records (segment_contents dir))
  unfolding segment_contents list_segment_files
  DirSays-contents dir (n, t, s) = elim (Option-cases (lookup n dir)) [
    | inl gone ↦ absurd (nothing_said gone s)
    | inr (file, e) ↦
        let found = file_names is_segment_file (dir_entries dir) in
        Says-opened (sort_slice segment_less found) dir n
          (sort_slice-Any segment_less _ found (lookup-listed is_segment_file n file dir t e)) s
  ]
