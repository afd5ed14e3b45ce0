-- ===== src/Bytes/LittleEndian.antt =====
-- Writing and reading little-endian numbers are inverse to one another.
use selfstack.Prelude.{
  ℕ, zero, suc, ◌/◌, ◌%◌, ◌^◌, ◌<◌, ◌≡◌, refl, ap, ap₂, ◌∙◌, [], ◌∷◌, ◌++◌, length, All, take, drop,
  arith,
}
use native.Mathlib.Nat.{pow-suc}
use selfstack.Bytes.{Bytes, IsByte, put_uint, uint}

pub length-put_uint : (w v : ℕ) → length (put_uint w v) ≡ w
unfolding put_uint
length-put_uint zero v = refl
length-put_uint (suc w) v = ap suc (length-put_uint w (v / 256))

pub put_uint-IsByte : (w v : ℕ) → All IsByte (put_uint w v)
unfolding put_uint
put_uint-IsByte zero v = tt
put_uint-IsByte (suc w) v = (omega arith, put_uint-IsByte w (v / 256))

pub uint-put_uint : (w v : ℕ) → v < 256 ^ w → uint (put_uint w v) ≡ v
unfolding put_uint uint
uint-put_uint zero v h = omega arith
uint-put_uint (suc w) v h =
    omega (arith, pow-suc, uint-put_uint w (v / 256) (omega (arith, pow-suc)))

pub put_uint-uint : (bs : Bytes) → All IsByte bs → put_uint (length bs) (uint bs) ≡ bs
unfolding put_uint uint
put_uint-uint [] h = refl
put_uint-uint (b ∷ bs) (p, h) =
    ap₂ (λ x y. x ∷ y) (omega arith) (ap (put_uint (length bs)) (omega arith) ∙ put_uint-uint bs h)

pub uint-lt : (bs : Bytes) → All IsByte bs → uint bs < 256 ^ length bs
unfolding uint
uint-lt [] h = omega arith
uint-lt (b ∷ bs) (p, h) = omega (arith, pow-suc, uint-lt bs h)

pub take-put_uint : (w v : ℕ) (rest : Bytes) → take w (put_uint w v ++ rest) ≡ put_uint w v
unfolding put_uint
take-put_uint zero v rest = refl
take-put_uint (suc w) v rest = ap (λ bs. (v % 256) ∷ bs) (take-put_uint w (v / 256) rest)

pub drop-put_uint : (w v : ℕ) (rest : Bytes) → drop w (put_uint w v ++ rest) ≡ rest
unfolding put_uint
drop-put_uint zero v rest = refl
drop-put_uint (suc w) v rest = drop-put_uint w (v / 256) rest
