-- ===== src/Ecc/Memory.antt =====
-- The bytes of a segment buffer, and its reads and writes as little-endian `unsigned long`s.
pub mod Laws
use ftape.Prelude.{ℕ, zero, suc, ◌+◌, ◌*◌, ◌/◌, ◌%◌, ◌==◌, if◌then◌else◌}

-- The byte at each offset of the buffer.
abbrev pub Memory : Type 0
Memory = ℕ → ℕ

abbrev pub put_byte : Memory → ℕ → ℕ → Memory
put_byte m a v = λ x. if x == a then v else m x

unfoldable pub load : Memory → ℕ → ℕ → ℕ
load m a zero = 0
load m a (suc n) = m a + 256 * load m (a + 1) n

unfoldable pub store : Memory → ℕ → ℕ → ℕ → Memory
store m a zero w = m
store m a (suc n) w = put_byte (store m (a + 1) n (w / 256)) a (w % 256)

-- `*(unsigned long *)&data[a]`, where `sizeof(long)` is 8.
abbrev pub load_long : Memory → ℕ → ℕ
load_long m a = load m a 8

abbrev pub store_long : Memory → ℕ → ℕ → Memory
store_long m a w = store m a 8 w
