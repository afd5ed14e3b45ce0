-- ===== src/Wal/Writer/Naming.antt =====
-- internal/scope/db/wal/roller.go and writer.go: the names of segment files.
use selfstack.Prelude.{
  ℕ, zero, suc, ◌+◌, ◌-◌, ◌/◌, ◌%◌, [], ◌∷◌, ◌++◌, length, replicate, ◌==◌, if◌then◌else◌,
}
use selfstack.Bytes.{Bytes}

-- The decimal digits of a number; it has not more digits than its value plus one.
unfoldable pub decimal : ℕ → ℕ → Bytes → Bytes
decimal zero n digits = digits
decimal (suc fuel) n digits =
    let all = (48 + n % 10) ∷ digits in
    let more = decimal fuel (n / 10) all in if n / 10 == 0 then all else more

-- %012d
unfoldable pub padded : ℕ → Bytes
padded n = let digits = decimal (suc n) n [] in replicate (12 - length digits) 48 ++ digits

-- fmt.Sprintf("wal_%012d.seg", segmentID), without the directory.
unfoldable pub segment_filename : ℕ → Bytes
segment_filename id = (119 ∷ 97 ∷ 108 ∷ 95 ∷ []) ++ (padded id ++ (46 ∷ 115 ∷ 101 ∷ 103 ∷ []))
