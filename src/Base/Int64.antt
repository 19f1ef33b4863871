-- ===== src/Base/Int64.antt =====
-- Integers as int64 values: the bits of one, and sums that wrap around.
use go_gitdiff.Base.{ℕ, ◌+◌, ◌-◌, ◌%◌, ◌^◌, ◌<◌, ◌≡◌, arith, ap, ltb, if◌then◌else◌}
use go_gitdiff.Base.Int.{ℤ, pos, negsuc, ◌-ℤ◌}

-- The two's complement of an integer, and the integer of one.
abbrev pub unsigned64 : ℤ → ℕ
unsigned64 (pos n) = n % 2 ^ 64
unsigned64 (negsuc n) = 2 ^ 64 - 1 - n % 2 ^ 64

abbrev pub signed64 : ℕ → ℤ
signed64 n = if ltb n (2 ^ 63) then pos n else negsuc (2 ^ 64 - n - 1)

abbrev pub wrap64 : ℤ → ℤ
wrap64 x = signed64 (unsigned64 x)

-- An integer that an int64 holds.
abbrev pub IsInt64 : ℤ → Type 0
IsInt64 (pos n) = n < 2 ^ 63
IsInt64 (negsuc n) = n < 2 ^ 63

-- `x--`
unfoldable pub dec64 : ℤ → ℤ
unfolding ◌-ℤ◌
dec64 x = wrap64 (x -ℤ pos 1)

pub unsigned64-dec64 : (x : ℤ) → unsigned64 (dec64 x) ≡ (unsigned64 x + (2 ^ 64 - 1)) % 2 ^ 64
unfolding dec64 ◌-ℤ◌
unsigned64-dec64 (pos n) = ground arith
unsigned64-dec64 (negsuc n) = ground arith

-- An int64 is the number that its bits give below the sign bit.
pub pos_of_unsigned64 : (x : ℤ) (n : ℕ) → IsInt64 x → unsigned64 x ≡ n → n < 2 ^ 63 → x ≡ pos n
pos_of_unsigned64 (pos m) n h e k = ap pos (omega arith)
pos_of_unsigned64 (negsuc m) n h e k = absurd (omega arith)
