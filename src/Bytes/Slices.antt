-- ===== src/Bytes/Slices.antt =====
-- Cutting a byte slice into numbers and putting it together again.
use selfstack.Prelude.{
  ℕ, zero, suc, ◌+◌, ◌^◌, ◌≤◌, ◌<◌, ◌≡◌, refl, ap, ◌∙◌, [], ◌∷◌, ◌++◌, length, take, drop, get_or,
  All, arith, take-split, drop-split, length-take, length-drop, All-take, All-drop, subst,
}
use selfstack.Bytes.{Bytes, IsByte, put_uint, uint, slice}
use selfstack.Bytes.LittleEndian.{put_uint-uint, uint-lt}

module _ (bs : Bytes) (bytes : All IsByte bs) where
  -- A cut inside the bounds is written back by the number that is read from it.
  pub put_uint-slice :
      (from w : ℕ) → from + w ≤ length bs → put_uint w (uint (slice from w bs)) ≡ slice from w bs
  put_uint-slice from w h =
      let e : length (slice from w bs) ≡ w =
        omega (arith, length-take w (drop from bs), length-drop from bs) in
      subst (λ k. put_uint k (uint (slice from w bs)) ≡ slice from w bs) e
        (put_uint-uint (slice from w bs)
          (All-take IsByte w (drop from bs) (All-drop IsByte from bs bytes)))

  pub uint-slice_lt : (from w : ℕ) → from + w ≤ length bs → uint (slice from w bs) < 256 ^ w
  uint-slice_lt from w h =
      let e : length (slice from w bs) ≡ w =
        omega (arith, length-take w (drop from bs), length-drop from bs) in
      subst (λ k. uint (slice from w bs) < 256 ^ k) e
        (uint-lt (slice from w bs)
          (All-take IsByte w (drop from bs) (All-drop IsByte from bs bytes)))

pub slice-suc :
    (bs : Bytes) (from n : ℕ)
    → from < length bs
    → slice from (suc n) bs ≡ get_or bs from 0 ∷ slice (suc from) n bs
slice-suc [] from n h = absurd (omega arith)
slice-suc (b ∷ bs) zero n h = refl
slice-suc (b ∷ bs) (suc from) n h = slice-suc bs from n (omega arith)

pub slice-split :
    (bs : Bytes) (from a b n next : ℕ)
    → n ≡ a + b
    → next ≡ from + a
    → slice from n bs ≡ slice from a bs ++ slice next b bs
slice-split bs from a b n next e e' =
    take-split a b n (drop from bs) e
    ∙ ap (λ t. slice from a bs ++ take b t) (drop-split from a next bs e')

pub get_or-IsByte : (bs : Bytes) (i : ℕ) → All IsByte bs → get_or bs i 0 < 256
get_or-IsByte [] i h = omega arith
get_or-IsByte (b ∷ bs) zero (p, h) = p
get_or-IsByte (b ∷ bs) (suc i) (p, h) = get_or-IsByte bs i h
