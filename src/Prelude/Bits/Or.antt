-- ===== src/Prelude/Bits/Or.antt =====
-- `|` is an associative and commutative sum of disjoint fields; `&` with a low mask is `%`.
use Prim.Native.Nat.{
  ℕ, zero, suc, ◌+◌, ◌-◌, ◌*◌, ◌/◌, ◌%◌, ◌^◌, ◌≤◌, ◌<◌, bit_and, bit_or, bit_or-bitwise,
}
use mathlib.Core.Path.{◌≡◌, ap, sym, ◌∙◌}
use native.Mathlib.Nat.{le_refl, pow-suc, one-le-pow}
use native.Mathlib.Omega.{arith}
use ftape.Prelude.Bits.{bit_or_step, bit_and_step}

pub zero-or : (b : ℕ) → bit_or 0 b ≡ b
zero-or b = bit_or-bitwise 0 b

or_comm_fuel : (n a b : ℕ) → a ≤ n → b ≤ n → bit_or a b ≡ bit_or b a
or_comm_fuel zero a b p q = let e : a ≡ b = omega arith in rw e
or_comm_fuel (suc n) a b p q = omega (
  arith,
  bit_or_step a b,
  bit_or_step b a,
  or_comm_fuel n (a / 2) (b / 2) (omega arith) (omega arith),
)

pub or_comm : (a b : ℕ) → bit_or a b ≡ bit_or b a
or_comm a b = or_comm_fuel (a + b) a b (omega arith) (omega arith)

pub or-zero : (a : ℕ) → bit_or a 0 ≡ a
or-zero a = or_comm a 0 ∙ zero-or a

or_assoc_fuel :
    (n a b c : ℕ) → a ≤ n → b ≤ n → c ≤ n → bit_or (bit_or a b) c ≡ bit_or a (bit_or b c)
or_assoc_fuel zero a b c p q r =
    let e : a ≡ 0 = omega arith in
    let g : b ≡ 0 = omega arith in let h : c ≡ 0 = omega arith in rw (e, g, h)
or_assoc_fuel (suc n) a b c p q r = omega (
  arith,
  bit_or_step a b,
  bit_or_step b c,
  bit_or_step (bit_or a b) c,
  bit_or_step a (bit_or b c),
  or_assoc_fuel n (a / 2) (b / 2) (c / 2) (omega arith) (omega arith) (omega arith),
  ap (λ (t : ℕ). bit_or t (c / 2)) (half a b),
  ap (λ (t : ℕ). bit_or (a / 2) t) (half b c),
)
  where
    half : (x y : ℕ) → bit_or x y / 2 ≡ bit_or (x / 2) (y / 2)
    half x y = omega (arith, bit_or_step x y)

pub or_assoc : (a b c : ℕ) → bit_or (bit_or a b) c ≡ bit_or a (bit_or b c)
or_assoc a b c = or_assoc_fuel (a + b + c) a b c (omega arith) (omega arith) (omega arith)

-- A shift by one more is a shift of the double.
shift_double : (q k : ℕ) → q * 2 ^ suc k ≡ 2 * (q * 2 ^ k)
shift_double q k = rw (pow-suc 2 k) (omega arith)

pub bit_or_fields : (k q r : ℕ) → r < 2 ^ k → bit_or (q * 2 ^ k) r ≡ q * 2 ^ k + r
bit_or_fields zero high low h =
    let none : low ≡ 0 = omega arith in rw none (or-zero (high * 1) ∙ omega arith)
bit_or_fields (suc k) high low h =
    let halves : bit_or (high * 2 ^ k) (low / 2) ≡ high * 2 ^ k + low / 2 =
      bit_or_fields k high (low / 2) (omega (arith, pow-suc 2 k)) in
    rw (shift_double high k) (ground (arith, bit_or_step (2 * (high * 2 ^ k)) low, halves))

and-zero_fuel : (n a : ℕ) → a ≤ n → bit_and a 0 ≡ 0
and-zero_fuel zero a h = let e : a ≡ 0 = omega arith in rw e
and-zero_fuel (suc n) a h = omega (arith, bit_and_step a 0, and-zero_fuel n (a / 2) (omega arith))

and_low : (k high low : ℕ) → low < 2 ^ k → bit_and (high * 2 ^ k + low) (2 ^ k - 1) ≡ low
and_low zero high low h = omega (arith, and-zero_fuel _ (high * 1 + low) (le_refl _))
and_low (suc k) high low h =
    let halves : bit_and (high * 2 ^ k + low / 2) (2 ^ k - 1) ≡ low / 2 =
      and_low k high (low / 2) (omega (arith, pow-suc 2 k)) in
    let mask : 2 ^ suc k ≡ 2 * 2 ^ k = pow-suc 2 k ∙ omega arith in
    rw (shift_double high k, mask)
      (ground
        (arith, bit_and_step (2 * (high * 2 ^ k) + low) (2 * 2 ^ k - 1), halves, one-le-pow k 2))

-- A mask of `k` low bits is the remainder by `2 ^ k`.
pub and_mask : (k a : ℕ) → bit_and a (2 ^ k - 1) ≡ a % 2 ^ k
and_mask k a =
    let whole : a / 2 ^ k * 2 ^ k + a % 2 ^ k ≡ a = ground (arith, one-le-pow k 2) in
    ap (λ (t : ℕ). bit_and t (2 ^ k - 1)) (sym whole)
    ∙ and_low k (a / 2 ^ k) (a % 2 ^ k) (ground (arith, one-le-pow k 2))
