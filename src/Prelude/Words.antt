-- ===== src/Prelude/Words.antt =====
-- `unsigned int`, which wraps at 2 ^ 32. A negative `int` is the word of its bit pattern.
use Prim.Native.Nat.{ℕ, ◌+◌, ◌-◌, ◌%◌, ◌^◌}

abbrev pub add_word : ℕ → ℕ → ℕ
add_word a b = (a + b) % 2 ^ 32

abbrev pub sub_word : ℕ → ℕ → ℕ
sub_word a b = (a + (2 ^ 32 - b)) % 2 ^ 32

-- -1
abbrev pub minus_one : ℕ
minus_one = 2 ^ 32 - 1
