-- ===== src/Base/Words.antt =====
-- Machine words as native numbers: `uintN_t` arithmetic wraps by `%`, and an `int8_t` is its bit
-- pattern.
use Prim.Native.Nat.{ℕ, ◌+◌, ◌-◌, ◌*◌, ◌%◌, ◌^◌}

-- uint32_t a + b, a - b and a * b. `-` on ℕ is truncated, so the modulus is added first.
abbrev pub add32 : ℕ → ℕ → ℕ
add32 a b = (a + b) % 2 ^ 32

abbrev pub sub32 : ℕ → ℕ → ℕ
sub32 a b = (a + 2 ^ 32 - b) % 2 ^ 32

abbrev pub mul32 : ℕ → ℕ → ℕ
mul32 a b = (a * b) % 2 ^ 32
