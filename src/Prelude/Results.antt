-- ===== src/Prelude/Results.antt =====
-- Go's `(value, error)` results and the errors of the program.
use mathlib.Core.Path.{◌≡◌, refl}
use mathlib.Core.Bool.{Bool, true, false}
use mathlib.Core.Logic.{◌⊎◌, inl, inr}

-- One constructor for each error that the program builds; the text of the message and the error
-- that it wraps are not kept. `slice_bounds` is a run-time panic, and `out_of_fuel` is no Go value.
pub data Error : Type 0 where
  payload_too_large header_too_short invalid_magic header_crc_mismatch : Error
  payload_too_short payload_crc_mismatch slice_bounds out_of_fuel : Error
  doc_id_too_long marshal_failed unmarshal_failed short_input unexpected_eof eof : Error
  not_found not_active writer_closed store_closed io_failed short_write : Error
  segment_checksum_mismatch missing_segment bad_filename compaction_disabled : Error
  not_exist token_too_long count_mismatch dimension_mismatch bad_vector : Error

pub data Result {ℓ} (A : Type ℓ) : Type ℓ where
  ok : A → Result A
  err : Error → Result A

-- `if !test { return nil, e }`
abbrev pub guard : Bool → Error → Result (Unit {0})
guard false failure = err failure
guard true failure = ok tt

infixl 5 ◌>>=◌ ◌>>◌
-- `if err != nil { return err }` between two calls that can fail.
abbrev pub ◌>>=◌ {ℓ κ} : {A : Type ℓ} {B : Type κ} → Result A → (A → Result B) → Result B
err failure >>= next = err failure
ok value >>= next = next value

pub Result-cases {ℓ} :
    {A : Type ℓ} (r : Result A) → ((a : A) × (r ≡ ok a)) ⊎ ((e : Error) × (r ≡ err e))
Result-cases (ok a) = inl (a, refl)
Result-cases (err e) = inr (e, refl)

-- The same where the first call returns an error only.
abbrev pub ◌>>◌ {ℓ} : {B : Type ℓ} → Result (Unit {0}) → Result B → Result B
test >> next = test >>= λ passed. next

-- Inversion of a successful test and of a successful step.
pub guard-ok {ℓ} :
    {B : Type ℓ} (b : Bool) (e : Error) (k : Result B) {r : B}
    → (guard b e >> k) ≡ ok r
    → (b ≡ true) × (k ≡ ok r)
guard-ok true e k h = (refl, h)
guard-ok false e k h = cc

pub bind-ok {ℓ κ} :
    {A : Type ℓ} {B : Type κ} (m : Result A) (f : A → Result B) {r : B}
    → (m >>= f) ≡ ok r
    → (a : A) × (m ≡ ok a) × (f a ≡ ok r)
bind-ok (ok a) f h = (a, refl, h)
bind-ok (err e) f h = cc
