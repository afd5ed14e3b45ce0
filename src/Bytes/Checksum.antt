-- ===== src/Bytes/Checksum.antt =====
-- hash/crc32 with the IEEE polynomial, on 32-bit words.
use selfstack.Prelude.{
  ℕ, zero, suc, ◌-◌, ◌/◌, ◌%◌, ◌^◌, ◌<◌, ◌≡◌, refl, sym, ap, [], ◌∷◌, ◌++◌, bit_xor, arith, ◌==◌,
  if◌then◌else◌,
}
use selfstack.Bytes.{Bytes}

abbrev ieee : ℕ
ieee = 0xEDB88320

-- One entry of the table: eight rounds on the index.
table_round : ℕ → ℕ
table_round c = if c % 2 == 1 then bit_xor (c / 2) ieee else c / 2

table_entry : ℕ → ℕ → ℕ
unfolding table_round
table_entry zero c = c
table_entry (suc k) c = table_entry k (table_round c)

-- crc = tab[byte(crc)^v] ^ (crc >> 8)
unfoldable pub step : ℕ → ℕ → ℕ
unfolding table_entry
step crc b = bit_xor (table_entry 8 (bit_xor (crc % 256) b % 256)) (crc / 256) % 2 ^ 32

-- ^crc on uint32
abbrev pub complement : ℕ → ℕ
complement crc = 2 ^ 32 - 1 - crc

unfoldable pub run : ℕ → Bytes → ℕ
run crc [] = crc
run crc (b ∷ bs) = run (step crc b) bs

unfoldable pub update : ℕ → Bytes → ℕ
unfolding run step
update crc bs = complement (run (complement crc) bs)

unfoldable pub checksum_ieee : Bytes → ℕ
unfolding update
checksum_ieee bs = update 0 bs

run-lt : (crc : ℕ) (bs : Bytes) → crc < 2 ^ 32 → run crc bs < 2 ^ 32
unfolding run step
run-lt crc [] h = h
run-lt crc (b ∷ bs) h = run-lt (step crc b) bs (omega arith)

run-append : (crc : ℕ) (xs ys : Bytes) → run crc (xs ++ ys) ≡ run (run crc xs) ys
unfolding run
run-append crc [] ys = refl
run-append crc (x ∷ xs) ys = run-append (step crc x) xs ys

complement_twice : (c : ℕ) → c < 2 ^ 32 → complement (complement c) ≡ c
complement_twice c h = omega arith

-- A checksum is a 32-bit word, and comes in pieces.
pub checksum_ieee-lt : (bs : Bytes) → checksum_ieee bs < 2 ^ 32
unfolding checksum_ieee
checksum_ieee-lt bs = omega arith

pub update-append :
    (crc : ℕ) (xs ys : Bytes) → crc < 2 ^ 32 → update crc (xs ++ ys) ≡ update (update crc xs) ys
unfolding update
update-append crc xs ys h = rw run-append (
    ap (λ c. complement (run c ys))
      (sym (complement_twice (run (complement crc) xs) (run-lt (complement crc) xs (omega arith)))))

check_digits :
    checksum_ieee (b'1' ∷ b'2' ∷ b'3' ∷ b'4' ∷ b'5' ∷ b'6' ∷ b'7' ∷ b'8' ∷ b'9' ∷ []) ≡ 0xCBF43926
unfolding checksum_ieee
check_digits = refl
