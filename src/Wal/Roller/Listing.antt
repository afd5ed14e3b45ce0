-- ===== src/Wal/Roller/Listing.antt =====
-- internal/scope/db/wal/roller.go: the order in which the files of a directory are listed, and the
-- last one of them.
use selfstack.Prelude.{
  ℕ, ◌≤◌, ◌<◌, ◌≡◌, refl, List, [], ◌∷◌, true, false, Option, none, some, Result, Error, ok, err,
  sym, subst, arith, All, Any, All-weaken, ◌⊎◌, inl, inr, Result-cases,
}
use mathlib.Core.List.{Perm}
use selfstack.Prelude.Sorting.{
  sort_slice, sort_slice-Perm, sort_slice-IsSorted, IsSorted, All-sort_slice, Any-sort_slice,
  sort_slice-length,
}
use selfstack.Bytes.{Bytes}
use selfstack.Wal.Roller.{
  DirEntry, entries, file_names, is_segment_file, is_wal_segment_file, is_wal_segment, id_or_zero,
  get_segment_id, segment_less, wal_segment_less, list_segment_files, list_wal_segment_files,
  latest_of, find_latest_wal_segment,
}
use selfstack.Wal.Roller.Listed.{
  IsWalName, IsSegmentName, IsListing, segment_files-IsListing, wal_files-IsListing,
}

-- x may stand before y: its ID is smaller, or the same where a WAL segment does not stand behind a
-- compacted one.
abbrev pub MayPrecede : Bytes → Bytes → Type 0
MayPrecede x y =
    (id_or_zero x < id_or_zero y)
    ⊎ ((id_or_zero x ≡ id_or_zero y) × (is_wal_segment y ≡ true → is_wal_segment x ≡ true))

abbrev pub IsOrdered : List Bytes → Type 0
IsOrdered [] = Unit {0}
IsOrdered (x ∷ xs) = All (MayPrecede x) xs × IsOrdered xs

segment_less-asym : (a b : Bytes) → segment_less a b ≡ true → segment_less b a ≡ false
unfolding segment_less
segment_less-asym a b h = ground arith

segment_less-negtrans :
    (a b c : Bytes) → segment_less a b ≡ false → segment_less b c ≡ false → segment_less a c ≡ false
unfolding segment_less
segment_less-negtrans a b c h h' = ground arith

may_precede : (x y : Bytes) → segment_less y x ≡ false → MayPrecede x y
unfolding segment_less
may_precede x y h = ground arith

IsSorted-IsOrdered : (xs : List Bytes) → IsSorted segment_less xs → IsOrdered xs
IsSorted-IsOrdered [] h = tt
IsSorted-IsOrdered (x ∷ xs) (top, h) =
    (All-weaken _ (MayPrecede x) xs (λ y l. may_precede x y l) top, IsSorted-IsOrdered xs h)

-- Of a directory that can be read, `ListSegmentFiles` lists the names of exactly the entries, as
-- often as they are there, that are no directories and whose names start with wal_ or cmp_ and end
-- with .seg, by ID, and of two with one ID the WAL segment first. A name whose ID cannot be read
-- counts as 0.
pub list_segment_files_lem :
    (es : List DirEntry)
    → (found : List Bytes) × IsListing IsSegmentName es found
      × ((names : List Bytes) × (list_segment_files (entries es) ≡ ok names)
          × Perm names found
          × IsOrdered names)
unfolding list_segment_files
list_segment_files_lem es =
    let found = file_names is_segment_file es in
    (
      found,
      segment_files-IsListing es,
      (
        sort_slice segment_less found,
        refl,
        sort_slice-Perm segment_less found,
        IsSorted-IsOrdered _
            (sort_slice-IsSorted segment_less segment_less-asym segment_less-negtrans found),
      ),
    )

-- What the search for the latest of some files may return.
abbrev pub IsLatest : List Bytes → Result (Option (Bytes × ℕ)) → Type 0
IsLatest names (ok none) = names ≡ []
IsLatest names (ok (some (name, id))) =
    (get_segment_id name ≡ ok id) × Any (λ n. n ≡ name) names × All (λ n. id_or_zero n ≤ id) names
IsLatest names (err e) =
    Any (λ n. get_segment_id n ≡ err e) names × All (λ n. id_or_zero n ≡ 0) names

id_or_zero-ok : (x : Bytes) (id : ℕ) → get_segment_id x ≡ ok id → id_or_zero x ≡ id
unfolding id_or_zero
id_or_zero-ok x id e = rw (id_or_zero, e) refl

id_or_zero-err : (x : Bytes) (f : Error) → get_segment_id x ≡ err f → id_or_zero x ≡ 0
unfolding id_or_zero
id_or_zero-err x f e = rw (id_or_zero, e) refl

latest_of-ok :
    (x : Bytes) (id : ℕ) → get_segment_id x ≡ ok id → latest_of (x ∷ []) ≡ ok (some (x, id))
unfolding latest_of
latest_of-ok x id e = rw (latest_of, e) refl

latest_of-err : (x : Bytes) (f : Error) → get_segment_id x ≡ err f → latest_of (x ∷ []) ≡ err f
unfolding latest_of
latest_of-err x f e = rw (latest_of, e) refl

last_one : (x : Bytes) → IsLatest (x ∷ []) (latest_of (x ∷ []))
last_one x = elim (Result-cases (get_segment_id x)) [
  | inl (id, e) ↦
      subst (IsLatest (x ∷ [])) (sym (latest_of-ok x id e))
        (e, inl refl, (omega (arith, id_or_zero-ok x id e), tt))
  | inr (f, e) ↦
      subst (IsLatest (x ∷ [])) (sym (latest_of-err x f e)) (inl e, (id_or_zero-err x f e, tt))
]

IsLatest-cons :
    (x y : Bytes) (ys : List Bytes) (r : Result (Option (Bytes × ℕ)))
    → wal_segment_less y x ≡ false
    → IsLatest (y ∷ ys) r
    → IsLatest (x ∷ y ∷ ys) r
unfolding wal_segment_less
IsLatest-cons x y ys (ok none) h l = cc
IsLatest-cons x y ys (ok (some (name, id))) h (e, found, (p, all)) =
    (e, inr found, (ground arith, (p, all)))
IsLatest-cons x y ys (err e) h (found, (p, all)) = (inr found, (ground arith, (p, all)))

latest_of-skip : (x y : Bytes) (ys : List Bytes) → latest_of (y ∷ ys) ≡ latest_of (x ∷ y ∷ ys)
unfolding latest_of
latest_of-skip x y ys = refl

latest_of-IsLatest : (xs : List Bytes) → IsSorted wal_segment_less xs → IsLatest xs (latest_of xs)
latest_of-IsLatest [] h = unfold latest_of in refl
latest_of-IsLatest (x ∷ []) h = last_one x
latest_of-IsLatest (x ∷ y ∷ ys) ((p, top), h) =
    subst (IsLatest (x ∷ y ∷ ys)) (latest_of-skip x y ys)
      (IsLatest-cons x y ys (latest_of (y ∷ ys)) p (latest_of-IsLatest (y ∷ ys) h))

nothing_sorted : (xs : List Bytes) → sort_slice wal_segment_less xs ≡ [] → xs ≡ []
nothing_sorted [] h = refl
nothing_sorted (x ∷ xs) h = ground (arith, sort_slice-length wal_segment_less (x ∷ xs))

unsorted :
    (xs : List Bytes) (r : Result (Option (Bytes × ℕ)))
    → IsLatest (sort_slice wal_segment_less xs) r
    → IsLatest xs r
unsorted xs (ok none) h = nothing_sorted xs h
unsorted xs (ok (some (name, id))) (e, found, all) = (
  e,
  Any-sort_slice wal_segment_less (λ n. n ≡ name) xs found,
  All-sort_slice wal_segment_less (λ n. id_or_zero n ≤ id) xs all,
)
unsorted xs (err e) (found, all) = (
  Any-sort_slice wal_segment_less (λ n. get_segment_id n ≡ err e) xs found,
  All-sort_slice wal_segment_less (λ n. id_or_zero n ≡ 0) xs all,
)

-- The latest of the files that the code's own test picks.
pub wal_files-IsLatest :
    (es : List DirEntry)
    → IsLatest (file_names is_wal_segment_file es) (find_latest_wal_segment (entries es))
unfolding find_latest_wal_segment list_wal_segment_files
wal_files-IsLatest es =
    let found = file_names is_wal_segment_file es in
    unsorted found _ (
      latest_of-IsLatest (sort_slice wal_segment_less found) (
        sort_slice-IsSorted wal_segment_less (unfold wal_segment_less in λ a b h. ground arith)
          (unfold wal_segment_less in λ a b c h h'. ground arith) found))

-- Of a directory that can be read, `FindLatestWALSegment` looks at the entries that are no
-- directories and whose names start with wal_ and end with .seg. It returns one of them with its ID,
-- and none has a higher one; nothing if there is no such file; and an error only where a name has no
-- ID and no other file has one above 0.
pub find_latest_wal_segment-IsLatest :
    (es : List DirEntry)
    → (found : List Bytes) × IsListing IsWalName es found
      × IsLatest found (find_latest_wal_segment (entries es))
find_latest_wal_segment-IsLatest es =
    (file_names is_wal_segment_file es, wal_files-IsListing es, wal_files-IsLatest es)
