-- ===== src/Wal/Writer/Held.antt =====
-- What a writer keeps: every acknowledged record in its segment, and a current segment that is made
-- of whole records.
use selfstack.Prelude.{
  ℕ, suc, ◌^◌, ◌<◌, ◌≡◌, refl, sym, ap, ◌∙◌, List, [], ◌∷◌, ◌++◌, length, true, false, some, ok,
  err, ◌==◌, arith, Bool-cases, inl, inr, All, Any, All-append, All-weaken, append_assoc,
  append-nil, subst,
}
use selfstack.Prelude.Maps.{Map, lookup, insert, lookup-insert}
use selfstack.Bytes.{Bytes, IsByte, put_uint}
use selfstack.Bytes.LittleEndian.{put_uint-IsByte}
use selfstack.Wal.Record.{Record, IsWellFormed, encode, header_fields}
use selfstack.Wal.Reader.Whole.{encode_all, scan-encode_all, length-encode_all}
use selfstack.Wal.Tail.Repair.{readable}
use selfstack.Wal.Manifest.{ManifestStore}
use selfstack.Wal.Manifest.Keys.{nat_eq, nat_beq_iff}
use selfstack.Wal.Writer.{WalWriter, Outcome, and_then}
use selfstack.Wal.Writer.Commands.{Acknowledged}

pub encode-IsByte :
    (r : Record) → r.type < 256 → r.flags < 256 → All IsByte r.payload → All IsByte (encode r)
unfolding encode header_fields
encode-IsByte r t f p =
    All-append IsByte (header_fields r) _
      (All-append IsByte (put_uint 4 r.magic) _ (put_uint-IsByte 4 r.magic) (
        t,
        (
          f,
          All-append IsByte (put_uint 2 r.reserved) _ (put_uint-IsByte 2 r.reserved) (
              All-append IsByte (put_uint 8 r.lsn) _ (put_uint-IsByte 8 r.lsn)
                (put_uint-IsByte 4 r.payload_len)),
        ),
      ))
      (All-append IsByte (put_uint 4 r.header_crc) _ (put_uint-IsByte 4 r.header_crc)
        (All-append IsByte r.payload _ p (put_uint-IsByte 4 r.payload_crc)))

encode_all-append : (xs ys : List Record) → encode_all (xs ++ ys) ≡ encode_all xs ++ encode_all ys
unfolding encode_all
encode_all-append [] ys = refl
encode_all-append (x ∷ xs) ys =
    ap (λ t. encode x ++ t) (encode_all-append xs ys)
    ∙ sym (append_assoc (encode x) (encode_all xs) (encode_all ys))

pub encode_all-snoc :
    (rs : List Record) (r : Record) → encode_all rs ++ encode r ≡ encode_all (rs ++ (r ∷ []))
encode_all-snoc rs r = sym (encode_all-append rs (r ∷ []) ∙ ap (λ t. encode_all rs ++ t) last)
  where
    last : encode_all (r ∷ []) ≡ encode r
    last = unfold encode_all in append-nil (encode r)

pub readable-encode_all : (rs : List Record) → All IsWellFormed rs → readable (encode_all rs) ≡ rs
readable-encode_all rs w =
    ap (λ t. t.0)
      (scan-encode_all rs (suc (length (encode_all rs))) w (omega (arith, length-encode_all rs)))

pub Any-left :
    (rec : Record) (xs ys : List Record) → Any (λ x. x ≡ rec) xs → Any (λ x. x ≡ rec) (xs ++ ys)
Any-left rec [] ys h = absurd h
Any-left rec (x ∷ xs) ys (inl e) = inl e
Any-left rec (x ∷ xs) ys (inr h) = inr (Any-left rec xs ys h)

pub Any-last : (rec : Record) (xs : List Record) → Any (λ x. x ≡ rec) (xs ++ (rec ∷ []))
Any-last rec [] = inl refl
Any-last rec (x ∷ xs) = inr (Any-last rec xs)

-- The record can be read from the segment's file.
abbrev pub IsKept : Map ℕ Bytes → Acknowledged → Type 0
IsKept files (id, rec) =
    (file : Bytes) × (lookup id files ≡ some file) × Any (λ x. x ≡ rec) (readable file)

abbrev pub AllBytes : Map ℕ Bytes → Type 0
AllBytes files = (id : ℕ) (file : Bytes) → lookup id files ≡ some file → All IsByte file

inserted-here :
    (files : Map ℕ Bytes) (id j : ℕ) (file : Bytes)
    → (id == j) ≡ true
    → lookup j (insert id file files) ≡ some file
inserted-here files id j file same = lookup-insert id j file files ∙ rw same refl

inserted-elsewhere :
    (files : Map ℕ Bytes) (id j : ℕ) (file : Bytes)
    → (id == j) ≡ false
    → lookup j (insert id file files) ≡ lookup j files
inserted-elsewhere files id j file other = lookup-insert id j file files ∙ rw other refl

-- A file that is replaced by one with the records that it had.
IsKept-replace :
    (files : Map ℕ Bytes) (id : ℕ) (file : Bytes)
    → ((old : Bytes) (rec : Record)
        → lookup id files ≡ some old
        → Any (λ x. x ≡ rec) (readable old)
        → Any (λ x. x ≡ rec) (readable file))
    → (a : Acknowledged) → IsKept files a
    → IsKept (insert id file files) a
IsKept-replace files id file grows (j, rec) (old, found, h) = elim (Bool-cases (id == j)) [
  | inl same ↦ (
    file,
    inserted-here files id j file same,
    grows old rec (ap (λ i. lookup i files) ((nat_beq_iff id j).0 same) ∙ found) h,
  )
  | inr other ↦ (old, inserted-elsewhere files id j file other ∙ found, h)
]

pub AllBytes-insert :
    (files : Map ℕ Bytes) (id : ℕ) (file : Bytes)
    → AllBytes files
    → All IsByte file
    → AllBytes (insert id file files)
AllBytes-insert files id file all b j file' found = elim (Bool-cases (id == j)) [
  | inl same ↦ subst (All IsByte) (some-inj (sym (inserted-here files id j file same) ∙ found)) b
  | inr other ↦ all j file' (sym (inserted-elsewhere files id j file other) ∙ found)
]
  where
    some-inj : {x y : Bytes} → some x ≡ some y → x ≡ y
    some-inj e = cc

module _ (M : ManifestStore) where
  -- All acknowledged records can be read, and files and the next LSN are in their widths.
  pub record Kept (acks : List Acknowledged) (w : WalWriter M) : Type 0 where
    pub all_bytes : AllBytes w.files
    pub lsn : w.lsn < 2 ^ 64
    pub kept : All (IsKept w.files) acks

  -- The current segment, while its file is open, is made of whole records.
  pub record Held (acks : List Acknowledged) (w : WalWriter M) : Type 0 where
    pub kept : Kept acks w
    pub current :
        w.is_open ≡ true
        → (rs : List Record) × (lookup w.segment_id w.files ≡ some (encode_all rs))
          × All IsWellFormed rs

  -- Between the closing of one segment and the opening of the next.
  pub record Shut (acks : List Acknowledged) (w : WalWriter M) : Type 0 where
    pub kept : Kept acks w
    pub shut : w.is_open ≡ false

  pub Shut-Held : (acks : List Acknowledged) (w : WalWriter M) → Shut acks w → Held acks w
  Shut-Held acks w s = record { kept = s.kept; current = λ e. cc (s.shut, e) }

  pub Held-forget :
      (a : Acknowledged) (acks : List Acknowledged) (w : WalWriter M)
      → Held (a ∷ acks) w
      → Held acks w
  Held-forget a acks w h = record {
    kept = record { all_bytes = h.kept.all_bytes; lsn = h.kept.lsn; kept = h.kept.kept.1 };
    current = h.current;
  }

  -- A property of the states on the way of a composed operation.
  pub and_then-keeps :
      {A B : Type 0} (P Q : WalWriter M → Type 0) (o : Outcome M A)
      (f : WalWriter M → A → Outcome M B)
      → P o.0
      → ((w : WalWriter M) → P w → Q w)
      → ((w : WalWriter M) (a : A) → P w → Q (f w a).0)
      → Q (and_then M o f).0
  and_then-keeps P Q (w, ok a) f p weaken next = next w a p
  and_then-keeps P Q (w, err e) f p weaken next = weaken w p

  pub Kept-insert :
      (acks : List Acknowledged) (w : WalWriter M) (id : ℕ) (file : Bytes)
      → Kept acks w
      → All IsByte file
      → ((old : Bytes) (rec : Record)
          → lookup id w.files ≡ some old
          → Any (λ x. x ≡ rec) (readable old)
          → Any (λ x. x ≡ rec) (readable file))
      → Kept acks (record w { files = insert id file w.files })
  Kept-insert acks w id file k b grows = record {
    all_bytes = AllBytes-insert w.files id file k.all_bytes b;
    lsn = k.lsn;
    kept = All-weaken _ _ acks (λ a h. IsKept-replace w.files id file grows a h) k.kept;
  }
