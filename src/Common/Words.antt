-- ===== src/Common/Words.antt =====
-- Unsigned machine words. A value is a natural number; each operation keeps its wrap-around.
use Prim.Native.Nat.{ℕ, ◌+◌, ◌-◌, ◌%◌, ◌^◌}

-- `uint64_t` addition and subtraction
abbrev pub add64 : ℕ → ℕ → ℕ
add64 a b = (a + b) % 2 ^ 64

abbrev pub sub64 : ℕ → ℕ → ℕ
sub64 a b = (a + 2 ^ 64 - b) % 2 ^ 64

-- `x & ~4095` and `(x + 4095) & ~4095`, where the addition wraps
abbrev pub page_down : ℕ → ℕ
page_down x = x - x % 4096

abbrev pub page_up : ℕ → ℕ
page_up x = page_down (add64 x 4095)
