-- ===== src/Isr/Resume/Bits.antt =====
-- The bits of a map, as the tests of ftape/lowlevel/fdc-isr.c see them.
use ftape.Prelude.{
  ℕ, zero, suc, ◌*◌, ◌/◌, ◌%◌, ◌^◌, ◌<◌, bit_and, ◌==◌, true, false, Bool-cases, ◌≡◌, refl, ap, ◌∙◌,
  arith, ◌⊎◌, inl, inr,
}
use ftape.Prelude.Bits.{bit_and_step}
use ftape.Prelude.Bits.Or.{and_mask}
use native.Mathlib.Nat.{one-le-pow}
use native.Mathlib.Numerals.{unary_clauses}

-- Bit i of a map.
abbrev pub bit : (map i : ℕ) → ℕ
bit map zero = map % 2
bit map (suc i) = bit (map / 2) i

and_bit : (i map : ℕ) → bit_and map (2 ^ i) ≡ bit map i * 2 ^ i
and_bit zero map = and_mask 1 map ∙ omega arith
and_bit (suc i) map =
    let double : 2 ^ suc i ≡ 2 ^ i * 2 = simp unary_clauses refl in
    let half : 2 ^ suc i / 2 ≡ 2 ^ i = omega (arith, double) in
    let even : 2 ^ suc i % 2 ≡ 0 = omega (arith, double) in
    bit_and_step map (2 ^ suc i) ∙ rw (half, even) (rw (and_bit i (map / 2), double) (grind arith))

bit-zero : (i : ℕ) → bit 0 i ≡ 0
bit-zero zero = omega arith
bit-zero (suc i) = bit-zero i

bit-cases : (i map : ℕ) → (bit map i ≡ 0) ⊎ (bit map i ≡ 1)
bit-cases zero map = elim (Bool-cases (map % 2 == 0)) [
  | inl e ↦ inl (ground (arith, e))
  | inr e ↦ inr (ground (arith, e))
]
bit-cases (suc i) map = bit-cases i (map / 2)

-- The loops' test of a bit.
pub no_bit : (i map : ℕ) → (bit_and map (2 ^ i) == 0) ≡ true → bit map i ≡ 0
no_bit i map e = elim (bit-cases i map) [
  | inl zero_bit ↦ zero_bit
  | inr one_bit ↦
      let value : bit_and map (2 ^ i) ≡ 1 * 2 ^ i = and_bit i map ∙ ap (λ b. b * 2 ^ i) one_bit in
      absurd (ground (arith, e, value, one-le-pow i 2))
]

pub a_bit : (i map : ℕ) → (bit_and map (2 ^ i) == 0) ≡ false → bit map i ≡ 1
a_bit i map e = elim (bit-cases i map) [
  | inr one_bit ↦ one_bit
  | inl zero_bit ↦
      let value : bit_and map (2 ^ i) ≡ 0 * 2 ^ i = and_bit i map ∙ ap (λ b. b * 2 ^ i) zero_bit in
      absurd (ground (arith, e, value))
]

-- A map without a bit is 0.
pub no_bits : (k map : ℕ) → map < 2 ^ k → ((i : ℕ) → i < k → bit map i ≡ 0) → map ≡ 0
no_bits zero map h none_set = omega (arith, h)
no_bits (suc k) map h none_set =
    let bound : map < 2 ^ k * 2 = simp unary_clauses at h in
    let rest =
      no_bits k (map / 2) (omega (arith, bound))
        (λ i less. none_set (suc i) (omega (arith, less))) in
    omega (arith, rest, none_set 0 (omega arith))
