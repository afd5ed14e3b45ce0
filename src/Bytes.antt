-- ===== src/Bytes.antt =====
-- Byte slices, and the byte order of encoding/binary's LittleEndian. A `[]byte` or a Go string is
-- the list of its bytes.
pub mod LittleEndian
pub mod Checksum
pub mod Slices
use selfstack.Prelude.{ℕ, zero, suc, ◌+◌, ◌*◌, ◌/◌, ◌%◌, ◌<◌, List, [], ◌∷◌, take, drop}

abbrev pub Bytes : Type 0
Bytes = List ℕ

abbrev pub IsByte : ℕ → Type 0
IsByte b = b < 256

-- `PutUint16`, `PutUint32`, `PutUint64` at w = 2, 4, 8.
unfoldable pub put_uint : ℕ → ℕ → Bytes
put_uint zero v = []
put_uint (suc w) v = (v % 256) ∷ put_uint w (v / 256)

-- `Uint16`, `Uint32`, `Uint64` of all the bytes given.
unfoldable pub uint : Bytes → ℕ
uint [] = 0
uint (b ∷ bs) = b + 256 * uint bs

-- data[from:from+n]
abbrev pub slice : ℕ → ℕ → Bytes → Bytes
slice from n bs = take n (drop from bs)
