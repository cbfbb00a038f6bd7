-- ===== src/Prelude/Bits/Bytes.antt =====
-- `^` works on each field of a word by itself.
use Prim.Native.Nat.{ℕ, zero, suc, ◌+◌, ◌*◌, ◌/◌, ◌%◌, ◌^◌, ◌<◌, bit_xor}
use mathlib.Core.Path.{◌≡◌, ap, ap₂}
use native.Mathlib.Nat.{pow-suc}
use native.Mathlib.Omega.{arith}
use ftape.Prelude.Bits.{bit_xor_step, zero-xor}

double : (q k : ℕ) → q * 2 ^ suc k ≡ 2 * (q * 2 ^ k)
double q k = omega (arith, ap (λ (t : ℕ). q * t) (pow-suc 2 k))

pub xor-lt : (k a b : ℕ) → a < 2 ^ k → b < 2 ^ k → bit_xor a b < 2 ^ k
xor-lt zero a b p q =
    let e : a ≡ 0 = omega arith in let f : b ≡ 0 = omega arith in rw (e, f) (omega arith)
xor-lt (suc k) a b p q = omega (
  arith,
  pow-suc 2 k,
  bit_xor_step a b,
  xor-lt k (a / 2) (b / 2) (omega (arith, pow-suc 2 k)) (omega (arith, pow-suc 2 k)),
)

pub xor_fields :
    (k q r s t : ℕ)
    → r < 2 ^ k
    → t < 2 ^ k
    → bit_xor (q * 2 ^ k + r) (s * 2 ^ k + t) ≡ bit_xor q s * 2 ^ k + bit_xor r t
xor_fields zero q r s t h g =
    let e : q * 2 ^ 0 + r ≡ q = omega arith in
    let f : s * 2 ^ 0 + t ≡ s = omega arith in
    let u : bit_xor r t ≡ 0 = low in rw (e, f, u) (omega arith)
  where
    low : bit_xor r t ≡ 0
    low = let e : r ≡ 0 = omega arith in let f : t ≡ 0 = omega arith in rw (e, f) (zero-xor 0)
xor_fields (suc k) q r s t h g = ground (
  arith,
  bit_xor_step (q * 2 ^ suc k + r) (s * 2 ^ suc k + t),
  bit_xor_step r t,
  double q k,
  double s k,
  double (bit_xor q s) k,
  pow-suc 2 k,
  xor_fields k q (r / 2) s (t / 2) (omega (arith, pow-suc 2 k)) (omega (arith, pow-suc 2 k)),
)

-- The low byte of a sum of bytes, and the bytes above it.
pub xor_low_byte :
    (a b : ℕ)
    → (bit_xor a b % 256 ≡ bit_xor (a % 256) (b % 256))
      × (bit_xor a b / 256 ≡ bit_xor (a / 256) (b / 256))
xor_low_byte a b = omega (
  arith,
  whole,
  xor_fields 8 (a / 256) (a % 256) (b / 256) (b % 256) (omega arith) (omega arith),
  xor-lt 8 (a % 256) (b % 256) (omega arith) (omega arith),
)
  where
    whole : bit_xor a b ≡ bit_xor (a / 256 * 2 ^ 8 + a % 256) (b / 256 * 2 ^ 8 + b % 256)
    whole = ap₂ bit_xor (omega arith) (omega arith)
