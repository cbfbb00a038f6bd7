-- ===== src/Prelude/Bits.antt =====
-- Laws of `|`, `&` and `^` at every width, from the equation of the lowest binary digit.
pub mod Or
pub mod Bytes
use Prim.Native.Nat.{
  ℕ, zero, suc, ◌+◌, ◌*◌, ◌/◌, ◌%◌, ◌≤◌, ◌<◌, min, max, bit_and, bit_or, bit_xor, digits, differ,
  bitwise, bit_and-bitwise, bit_or-bitwise, bit_xor-bitwise,
}
use mathlib.Core.Path.{◌≡◌, refl, ap, ◌∙◌}
use native.Mathlib.Nat.{le_refl}
use native.Mathlib.Omega.{arith}

-- The operations run a recursion on binary digits with the first number as fuel.
module _ (rest : ℕ → ℕ) (digit : ℕ → ℕ → ℕ) where
  any_fuel :
      (x y fuel spare : ℕ)
      → (x ≤ fuel) × (x ≤ spare)
      → digits rest digit fuel x y ≡ digits rest digit spare x y
  any_fuel zero y zero zero low = refl
  any_fuel zero y zero (suc spare) low = refl
  any_fuel zero y (suc fuel) zero low = refl
  any_fuel zero y (suc fuel) (suc spare) low = refl
  any_fuel (suc x) y zero spare low = absurd (omega (arith, low))
  any_fuel (suc x) y (suc fuel) zero low = absurd (omega (arith, low))
  any_fuel (suc x) y (suc fuel) (suc spare) low =
      ap (λ (t : ℕ). t * 2 + digit (suc x % 2) (y % 2))
        (any_fuel (suc x / 2) (y / 2) fuel spare (omega arith, omega arith))

  -- The equation of the lowest digit, where the first number has none as well.
  lowest_digit :
      ((y : ℕ) → rest y ≡ rest (y / 2) * 2 + digit 0 (y % 2))
      → (x y : ℕ)
      → bitwise rest digit x y ≡ bitwise rest digit (x / 2) (y / 2) * 2 + digit (x % 2) (y % 2)
  lowest_digit at_end zero y = at_end y
  lowest_digit at_end (suc x) y =
      ap (λ (t : ℕ). t * 2 + digit (suc x % 2) (y % 2))
        (any_fuel (suc x / 2) (y / 2) x (suc x / 2) (omega arith, omega arith))

differ-eq : (x y : ℕ) → x < 2 → y < 2 → differ x y ≡ (x + y) % 2
differ-eq zero y p q = omega arith
differ-eq (suc zero) zero p q = refl
differ-eq (suc zero) (suc zero) p q = refl
differ-eq (suc zero) (suc (suc y)) p q = absurd (omega arith)
differ-eq (suc (suc x)) y p q = absurd (omega arith)

pub bit_or_step : (a b : ℕ) → bit_or a b ≡ bit_or (a / 2) (b / 2) * 2 + max (a % 2) (b % 2)
bit_or_step a b = simp bit_or-bitwise (lowest_digit (λ y. y) max (λ y. omega arith) a b)

pub bit_and_step : (a b : ℕ) → bit_and a b ≡ bit_and (a / 2) (b / 2) * 2 + min (a % 2) (b % 2)
bit_and_step a b = simp bit_and-bitwise (lowest_digit (λ y. 0) min (λ y. omega arith) a b)

pub bit_xor_step : (a b : ℕ) → bit_xor a b ≡ bit_xor (a / 2) (b / 2) * 2 + (a % 2 + b % 2) % 2
bit_xor_step a b = simp bit_xor-bitwise (lowest_digit (λ y. y) differ at_end a b ∙ last)
  where
    at_end : (y : ℕ) → y ≡ y / 2 * 2 + differ 0 (y % 2)
    at_end y = omega (arith, differ-eq 0 (y % 2) (omega arith) (omega arith))

    last :
        bitwise (λ y. y) differ (a / 2) (b / 2) * 2 + differ (a % 2) (b % 2)
        ≡ bitwise (λ y. y) differ (a / 2) (b / 2) * 2 + (a % 2 + b % 2) % 2
    last = rw (differ-eq (a % 2) (b % 2) (omega arith) (omega arith)) refl

-- `law n` is for numbers up to `n`, and `a / 2` is smaller than `a`.
xor_comm_fuel : (n a b : ℕ) → a ≤ n → b ≤ n → bit_xor a b ≡ bit_xor b a
xor_comm_fuel zero a b p q = let e : a ≡ b = omega arith in rw e
xor_comm_fuel (suc n) a b p q = omega (
  arith,
  bit_xor_step a b,
  bit_xor_step b a,
  xor_comm_fuel n (a / 2) (b / 2) (omega arith) (omega arith),
)

pub xor_comm : (a b : ℕ) → bit_xor a b ≡ bit_xor b a
xor_comm a b = xor_comm_fuel (a + b) a b (omega arith) (omega arith)

pub zero-xor : (b : ℕ) → bit_xor 0 b ≡ b
zero-xor b = bit_xor-bitwise 0 b

pub xor-zero : (a : ℕ) → bit_xor a 0 ≡ a
xor-zero a = xor_comm a 0 ∙ zero-xor a

xor_self_fuel : (n a : ℕ) → a ≤ n → bit_xor a a ≡ 0
xor_self_fuel zero a p = let e : a ≡ 0 = omega arith in rw e
xor_self_fuel (suc n) a p = omega (arith, bit_xor_step a a, xor_self_fuel n (a / 2) (omega arith))

pub xor_self : (a : ℕ) → bit_xor a a ≡ 0
xor_self a = xor_self_fuel a a (le_refl _)

xor_assoc_fuel :
    (n a b c : ℕ) → a ≤ n → b ≤ n → c ≤ n → bit_xor (bit_xor a b) c ≡ bit_xor a (bit_xor b c)
xor_assoc_fuel zero a b c p q r =
    let e : a ≡ 0 = omega arith in
    let g : b ≡ 0 = omega arith in let h : c ≡ 0 = omega arith in rw (e, g, h)
xor_assoc_fuel (suc n) a b c p q r = omega (
  arith,
  bit_xor_step a b,
  bit_xor_step b c,
  bit_xor_step (bit_xor a b) c,
  bit_xor_step a (bit_xor b c),
  xor_assoc_fuel n (a / 2) (b / 2) (c / 2) (omega arith) (omega arith) (omega arith),
  ap (λ (t : ℕ). bit_xor t (c / 2)) (half a b),
  ap (λ (t : ℕ). bit_xor (a / 2) t) (half b c),
)
  where
    half : (x y : ℕ) → bit_xor x y / 2 ≡ bit_xor (x / 2) (y / 2)
    half x y = omega (arith, bit_xor_step x y)

pub xor_assoc : (a b c : ℕ) → bit_xor (bit_xor a b) c ≡ bit_xor a (bit_xor b c)
xor_assoc a b c = xor_assoc_fuel (a + b + c) a b c (omega arith) (omega arith) (omega arith)
