-- ===== src/Base/Word.antt =====
-- uint64_t and int64_t as bit patterns below 2 ^ 64, with their wrap-around.
use binglib.Base.{ℕ, ◌+◌, ◌-◌, ◌%◌, ◌^◌, ltb, if◌then◌else◌}
use binglib.Base.Int.{ℤ, pos, negsuc}

abbrev pub u64_mod : ℕ
u64_mod = 2 ^ 64

-- uint64_t a + b
abbrev pub add64 : ℕ → ℕ → ℕ
add64 a b = (a + b) % u64_mod

-- uint64_t a - b, for b below 2 ^ 64
abbrev pub sub64 : ℕ → ℕ → ℕ
sub64 a b = (a + u64_mod - b) % u64_mod

-- static_cast<uint64_t> of a signed number
abbrev pub to_u64 : ℤ → ℕ
to_u64 (pos n) = n % u64_mod
to_u64 (negsuc n) = u64_mod - 1 - n % u64_mod

-- the number that the bit pattern of an int64_t stands for
abbrev pub signed64 : ℕ → ℤ
signed64 w = if ltb w (2 ^ 63) then pos w else negsuc (u64_mod - 1 - w)
