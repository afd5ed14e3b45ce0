-- ===== src/Wal/Roller.antt =====
-- internal/scope/db/wal/roller.go: the segment files of a directory, their names and order, and the
-- removal of old ones. A name is the base name of a file in the segment directory.
pub mod Names
pub mod Listed
pub mod Listing
pub mod Retention
pub mod Range
use selfstack.Prelude.{
  ℕ, ◌+◌, ◌-◌, ◌*◌, ◌^◌, List, [], ◌∷◌, ◌++◌, length, take, drop, Bool, true, false, ◌&&◌, ◌||◌,
  not, Option, none, some, Result, ok, err, Error, io_failed, bad_filename, ltb, leb, ◌==◌,
  if◌then◌else◌,
}
use selfstack.Prelude.Maps.{Map, lookup, erase, bytes_eq, bytes_beq}
use selfstack.Prelude.Sorting.{sort_slice}
use selfstack.Bytes.{Bytes}
use selfstack.Wal.Manifest.{SegmentInfo, InMemoryManifest, archived, get_segments_by_status}
use selfstack.Wal.Writer.Naming.{padded}

-- "wal_", "cmp_" and ".seg".
abbrev pub wal_prefix : Bytes
wal_prefix = 119 ∷ 97 ∷ 108 ∷ 95 ∷ []

abbrev pub cmp_prefix : Bytes
cmp_prefix = 99 ∷ 109 ∷ 112 ∷ 95 ∷ []

abbrev pub seg_suffix : Bytes
seg_suffix = 46 ∷ 115 ∷ 101 ∷ 103 ∷ []

-- fmt.Sprintf("cmp_%012d.seg", segmentID)
unfoldable pub compacted_segment_filename : ℕ → Bytes
compacted_segment_filename id = cmp_prefix ++ (padded id ++ seg_suffix)

-- strings.HasPrefix and strings.HasSuffix
abbrev pub has_prefix : Bytes → Bytes → Bool
has_prefix prefix name = bytes_beq (take (length prefix) name) prefix

abbrev pub has_suffix : Bytes → Bytes → Bool
has_suffix suffix name =
    leb (length suffix) (length name) && bytes_beq (drop (length name - length suffix) name) suffix

unfoldable pub is_wal_segment : Bytes → Bool
is_wal_segment name = has_prefix wal_prefix name

unfoldable pub is_compacted_segment : Bytes → Bool
is_compacted_segment name = has_prefix cmp_prefix name

abbrev pub is_digit : ℕ → Bool
is_digit b = leb 48 b && leb b 57

-- The digits at the front, and what is behind them.
unfoldable pub read_digits : ℕ → Bytes → ℕ × Bytes
read_digits n [] = (n, [])
read_digits n (b ∷ bs) =
    let more = read_digits (n * 10 + (b - 48)) bs in if is_digit b then more else (n, b ∷ bs)

-- The ASCII spaces that Sscanf skips in front of a number; a new line is an error.
abbrev pub is_space : ℕ → Bool
is_space b = b == 9 || (b == 11 || (b == 12 || (b == 13 || b == 32)))

unfoldable pub skip_space : Bytes → Bytes
skip_space [] = []
skip_space (b ∷ bs) = let rest = skip_space bs in if is_space b then rest else b ∷ bs

-- %d into a uint64: at least one digit, and no overflow.
unfoldable pub number_at : Bytes → Option (ℕ × Bytes)
number_at [] = none
number_at (b ∷ bs) =
    let (n, rest) = read_digits 0 (b ∷ bs) in
    if is_digit b && ltb n (2 ^ 64) then some (n, rest) else none

-- fmt.Sscanf(base, prefix + "%d.seg", &id); what follows in the name is not looked at.
unfoldable pub scan_name : Bytes → Bytes → Option ℕ
scan_name prefix name =
    if has_prefix prefix name
    then (elim (number_at (skip_space (drop (length prefix) name))) [
      | none ↦ none
      | some (id, rest) ↦ if has_prefix seg_suffix rest then some id else none
    ])
    else none

unfoldable pub get_segment_id : Bytes → Result ℕ
get_segment_id name = elim (scan_name wal_prefix name) [
  | some id ↦ ok id
  | none ↦ elim (scan_name cmp_prefix name) [ some id ↦ ok id | none ↦ err bad_filename ]
]

-- id, _ := GetSegmentID(name)
unfoldable pub id_or_zero : Bytes → ℕ
id_or_zero name = elim (get_segment_id name) [ ok id ↦ id | err e ↦ 0 ]

pub record DirEntry : Type 0 where
  pub name : Bytes
  pub is_dir : Bool

-- What os.ReadDir returns.
pub data ReadDir : Type 0 where
  entries : List DirEntry → ReadDir
  not_exist : ReadDir
  unreadable : ReadDir

unfoldable pub is_segment_file : Bytes → Bool
is_segment_file name =
    has_prefix wal_prefix name && has_suffix seg_suffix name
    || has_prefix cmp_prefix name && has_suffix seg_suffix name

unfoldable pub is_wal_segment_file : Bytes → Bool
is_wal_segment_file name = has_prefix wal_prefix name && has_suffix seg_suffix name

-- The names of the files that pass a test, in the directory's order.
unfoldable pub file_names : (Bytes → Bool) → List DirEntry → List Bytes
file_names test [] = []
file_names test (e ∷ es) =
    let rest = file_names test es in if not e.is_dir && test e.name then e.name ∷ rest else rest

unfoldable pub segment_less : Bytes → Bytes → Bool
segment_less a b =
    if id_or_zero a == id_or_zero b
    then is_wal_segment a && not (is_wal_segment b)
    else ltb (id_or_zero a) (id_or_zero b)

unfoldable pub wal_segment_less : Bytes → Bytes → Bool
wal_segment_less a b = ltb (id_or_zero a) (id_or_zero b)

unfoldable pub list_segment_files : ReadDir → Result (List Bytes)
list_segment_files (entries es) = ok (sort_slice segment_less (file_names is_segment_file es))
list_segment_files not_exist = ok []
list_segment_files unreadable = err io_failed

unfoldable pub list_wal_segment_files : ReadDir → Result (List Bytes)
list_wal_segment_files (entries es) =
    ok (sort_slice wal_segment_less (file_names is_wal_segment_file es))
list_wal_segment_files not_exist = ok []
list_wal_segment_files unreadable = err io_failed

-- segments[len(segments)-1] and its ID; no segment is no error.
unfoldable pub latest_of : List Bytes → Result (Option (Bytes × ℕ))
latest_of [] = ok none
latest_of (name ∷ []) = elim (get_segment_id name) [ ok id ↦ ok (some (name, id)) | err e ↦ err e ]
latest_of (name ∷ next ∷ names) = latest_of (next ∷ names)

unfoldable pub find_latest_segment : ReadDir → Result (Option (Bytes × ℕ))
find_latest_segment dir = elim (list_segment_files dir) [
  | ok names ↦ latest_of names
  | err e ↦ err e
]

unfoldable pub find_latest_wal_segment : ReadDir → Result (Option (Bytes × ℕ))
find_latest_wal_segment dir = elim (list_wal_segment_files dir) [
  | ok names ↦ latest_of names
  | err e ↦ err e
]

-- The outcome of os.Stat is the size; `age` is time.Since(createdAt). The reason is not kept apart.
unfoldable pub should_rotate : ℕ → ℕ → Result ℕ → ℕ → Result Bool
should_rotate max_size max_age (err e) age = err io_failed
should_rotate max_size max_age (ok size) age =
    ok (leb max_size size || (ltb 0 max_age && leb max_age age))

abbrev pub id_less : SegmentInfo → SegmentInfo → Bool
id_less a b = ltb a.segment_id b.segment_id

-- os.Remove of each file, until one fails that is there. `removable` is the operating system's say.
unfoldable pub delete_files :
    (Bytes → Bool) → List SegmentInfo → ℕ → Map Bytes Bytes → Map Bytes Bytes × ℕ × Option Error
delete_files removable [] deleted files = (files, deleted, none)
delete_files removable (seg ∷ segs) deleted files =
    let rest = delete_files removable segs (deleted + 1) (erase seg.filename files) in
    elim (lookup seg.filename files) [
      | none ↦ rest
      | some content ↦ if removable seg.filename then rest else (files, deleted, some io_failed)
    ]

-- `max_segments` is the int where it is not negative; a negative one is treated as 0 is.
unfoldable pub cleanup_old_segments :
    (Bytes → Bool)
    → ℕ
    → Option InMemoryManifest
    → Map Bytes Bytes
    → Map Bytes Bytes × ℕ × Option Error
cleanup_old_segments removable max_segments none files = (files, 0, none)
cleanup_old_segments removable max_segments (some m) files =
    let segs = get_segments_by_status archived m in
    if max_segments == 0 || leb (length segs) max_segments
    then (files, 0, none)
    else delete_files removable (take (length segs - max_segments) (sort_slice id_less segs)) 0
        files

-- A bound that is not recorded is the least or the greatest uint64.
abbrev pub or_bound : Option ℕ → ℕ → ℕ
or_bound none bound = bound
or_bound (some lsn) bound = lsn

unfoldable pub in_range : ℕ → ℕ → SegmentInfo → Bool
in_range min_lsn max_lsn seg =
    leb min_lsn (or_bound seg.max_lsn (2 ^ 64 - 1)) && leb (or_bound seg.min_lsn 0) max_lsn

unfoldable pub find_segments_in_range : ℕ → ℕ → List SegmentInfo → List SegmentInfo
find_segments_in_range min_lsn max_lsn [] = []
find_segments_in_range min_lsn max_lsn (seg ∷ segs) =
    let rest = find_segments_in_range min_lsn max_lsn segs in
    if in_range min_lsn max_lsn seg then seg ∷ rest else rest
