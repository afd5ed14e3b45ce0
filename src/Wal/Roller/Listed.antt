-- ===== src/Wal/Roller/Listed.antt =====
-- internal/scope/db/wal/roller.go: the files that a listing is to hold, said by their names.
use selfstack.Prelude.{
  ◌-◌, ◌≡◌, refl, sym, ap, ◌∙◌, subst, List, [], ◌∷◌, ◌++◌, length, take, drop, Bool, true, false,
  ◌⊎◌, inl, inr, arith, Bool-cases, if-split, ◌&&◌, not, take-append-drop, take-length_append,
}
use selfstack.Prelude.Maps.{bytes_eq, bytes_beq, bytes_beq_iff}
use selfstack.Bytes.{Bytes}
use selfstack.Wal.Roller.{
  DirEntry, file_names, has_prefix, has_suffix, is_segment_file, is_wal_segment_file, wal_prefix,
  cmp_prefix, seg_suffix,
}
use selfstack.Wal.Roller.Names.{has_suffix-append}

abbrev pub StartsWith : Bytes → Bytes → Type 0
StartsWith prefix name = (rest : Bytes) × (name ≡ prefix ++ rest)

abbrev pub EndsWith : Bytes → Bytes → Type 0
EndsWith suffix name = (front : Bytes) × (name ≡ front ++ suffix)

-- wal_ in front and .seg at the end.
abbrev pub IsWalName : Bytes → Type 0
IsWalName name = StartsWith wal_prefix name × EndsWith seg_suffix name

-- wal_ or cmp_ in front and .seg at the end.
abbrev pub IsSegmentName : Bytes → Type 0
IsSegmentName name =
    (StartsWith wal_prefix name ⊎ StartsWith cmp_prefix name) × EndsWith seg_suffix name

abbrev pub IsFileOf : (Bytes → Type 0) → DirEntry → Type 0
IsFileOf P e = (e.is_dir ≡ false) × P e.name

-- The names of exactly the entries that are no directories and whose names have P, in order.
abbrev pub IsListing : (Bytes → Type 0) → List DirEntry → List Bytes → Type 0
IsListing P [] names = names ≡ []
IsListing P (e ∷ es) names =
    (IsFileOf P e × ((rest : List Bytes) × (names ≡ e.name ∷ rest) × IsListing P es rest))
    ⊎ (¬ (IsFileOf P e) × IsListing P es names)

has_prefix-StartsWith :
    (prefix name : Bytes) → has_prefix prefix name ≡ true → StartsWith prefix name
has_prefix-StartsWith prefix name h = (
  drop (length prefix) name,
  sym (take-append-drop (length prefix) name)
      ∙ ap (λ t. t ++ drop (length prefix) name)
          ((bytes_beq_iff (take (length prefix) name) prefix).0 h),
)

StartsWith-has_prefix :
    (prefix name : Bytes) → StartsWith prefix name → has_prefix prefix name ≡ true
StartsWith-has_prefix prefix name (rest, e) =
    subst (λ n. has_prefix prefix n ≡ true) (sym e)
      ((bytes_beq_iff (take (length prefix) (prefix ++ rest)) prefix).1
        (take-length_append prefix rest))

has_suffix-EndsWith : (suffix name : Bytes) → has_suffix suffix name ≡ true → EndsWith suffix name
has_suffix-EndsWith suffix name h =
    let n = length name - length suffix in
    let same : bytes_beq (drop n name) suffix ≡ true = ground arith in
    (
      take n name,
      sym (take-append-drop n name)
          ∙ ap (λ t. take n name ++ t) ((bytes_beq_iff (drop n name) suffix).0 same),
    )

EndsWith-has_suffix : (suffix name : Bytes) → EndsWith suffix name → has_suffix suffix name ≡ true
EndsWith-has_suffix suffix name (front, e) =
    subst (λ n. has_suffix suffix n ≡ true) (sym e) (has_suffix-append front suffix)

-- A test that decides P picks the names of a listing.
module _ (test : Bytes → Bool) (P : Bytes → Type 0) (sound : (n : Bytes) → test n ≡ true → P n)
    (complete : (n : Bytes) → P n → test n ≡ true) where
  file_names-IsListing : (es : List DirEntry) → IsListing P es (file_names test es)
  unfolding file_names
  file_names-IsListing [] = refl
  file_names-IsListing (e ∷ es) =
      if-split (IsListing P (e ∷ es)) (not e.is_dir && test e.name) _ _
        (λ yes. inl (
          (ground arith, sound e.name (ground arith)),
          (file_names test es, refl, file_names-IsListing es),
        ))
        (λ no.
          inr (λ (file, p). let t = complete e.name p in ground arith, file_names-IsListing es))

wal_file-IsWalName : (n : Bytes) → is_wal_segment_file n ≡ true → IsWalName n
unfolding is_wal_segment_file
wal_file-IsWalName n h = (
  has_prefix-StartsWith wal_prefix n (ground arith),
  has_suffix-EndsWith seg_suffix n (ground arith),
)

IsWalName-wal_file : (n : Bytes) → IsWalName n → is_wal_segment_file n ≡ true
unfolding is_wal_segment_file
IsWalName-wal_file n (p, s) =
    rw (StartsWith-has_prefix wal_prefix n p) (EndsWith-has_suffix seg_suffix n s)

segment_file-IsSegmentName : (n : Bytes) → is_segment_file n ≡ true → IsSegmentName n
unfolding is_segment_file
segment_file-IsSegmentName n h = elim (Bool-cases (has_prefix wal_prefix n)) [
  | inl wal ↦ (
    inl (has_prefix-StartsWith wal_prefix n wal),
    has_suffix-EndsWith seg_suffix n (ground arith),
  )
  | inr not_wal ↦ (
    inr (has_prefix-StartsWith cmp_prefix n (ground arith)),
    has_suffix-EndsWith seg_suffix n (ground arith),
  )
]

IsSegmentName-segment_file : (n : Bytes) → IsSegmentName n → is_segment_file n ≡ true
unfolding is_segment_file
IsSegmentName-segment_file n (inl p, s) =
    ground (arith, StartsWith-has_prefix wal_prefix n p, EndsWith-has_suffix seg_suffix n s)
IsSegmentName-segment_file n (inr p, s) =
    ground (arith, StartsWith-has_prefix cmp_prefix n p, EndsWith-has_suffix seg_suffix n s)

pub segment_files-IsListing :
    (es : List DirEntry) → IsListing IsSegmentName es (file_names is_segment_file es)
segment_files-IsListing =
    file_names-IsListing is_segment_file IsSegmentName segment_file-IsSegmentName
      IsSegmentName-segment_file

pub wal_files-IsListing :
    (es : List DirEntry) → IsListing IsWalName es (file_names is_wal_segment_file es)
wal_files-IsListing =
    file_names-IsListing is_wal_segment_file IsWalName wal_file-IsWalName IsWalName-wal_file
