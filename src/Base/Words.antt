-- ===== src/Base/Words.antt =====
-- uint32_t as native numbers: the wrap is written out.
use Prim.Native.Nat.{ℕ, ◌+◌, ◌-◌, ◌*◌, ◌/◌, ◌%◌}

abbrev pub u32_mod : ℕ
u32_mod = 4294967296

abbrev pub u64_mod : ℕ
u64_mod = 18446744073709551616

-- `a + b`, `a - b` and `a * b` of two words.
abbrev pub add32 : ℕ → ℕ → ℕ
add32 a b = (a + b) % u32_mod

abbrev pub sub32 : ℕ → ℕ → ℕ
sub32 a b = (a + u32_mod - b) % u32_mod

abbrev pub mul32 : ℕ → ℕ → ℕ
mul32 a b = (a * b) % u32_mod

abbrev pub add64 : ℕ → ℕ → ℕ
add64 a b = (a + b) % u64_mod

-- `x & ~0xFFF`, and with the rounding up in front of it.
abbrev pub page_down : ℕ → ℕ
page_down x = x / 4096 * 4096

abbrev pub page_up : ℕ → ℕ
page_up x = page_down (add32 x 0xFFF)
