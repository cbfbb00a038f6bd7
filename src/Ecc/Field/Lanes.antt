-- ===== src/Ecc/Field/Lanes.antt =====
-- The operations on longs work on each byte by itself.
use ftape.Prelude.{
  ℕ, zero, suc, ◌+◌, ◌*◌, ◌/◌, ◌%◌, ◌^◌, ◌<◌, bit_and, bit_or, bit_xor, ◌≡◌, refl, ap, ap₂, ◌∙◌,
  all_below, all_below_sound, ltb, arith,
}
use native.Mathlib.Nat.{one-le-pow}
use ftape.Prelude.Int.{ℤ}
use ftape.Prelude.Bits.Or.{bit_or_fields, and_mask}
use ftape.Prelude.Bits.Bytes.{xor_low_byte, xor_fields, xor-lt}
use ftape.Ecc.Tables.{gfmul_c0}
use ftape.Ecc.Field.{gfadd_long, gfmul_exp, gfmul_exp_long, lane_exp, mul_c0_long, lane_c0}

-- The byte `k` of a long, from the low end.
abbrev pub lane : ℕ → ℕ → ℕ
lane w k = w / 2 ^ (8 * k) % 256

abbrev join : (ℕ → ℕ) → ℕ
join x =
    x 0
    + 256 * (x 1 + 256 * (x 2 + 256 * (x 3 + 256 * (x 4 + 256 * (x 5 + 256 * (x 6 + 256 * x 7))))))

scaled : (r t : ℕ) → r < 256 → 0 < t → r * t < 256 * t
scaled r t h p = grind arith

field :
    (j k q r : ℕ)
    → 2 ^ j ≡ 256 * 2 ^ k
    → r < 256
    → bit_or (q * 2 ^ j) (r * 2 ^ k) ≡ (q * 256 + r) * 2 ^ k
field j k q r e lt =
    bit_or_fields j q (r * 2 ^ k) (rw e (scaled r (2 ^ k) lt (one-le-pow k 2 (omega arith))))
    ∙ omega (arith, ap (λ (t : ℕ). q * t) e)

-- `|` of eight bytes at their places.
or_lanes :
    (x : ℕ → ℕ)
    → ((k : ℕ) → x k < 256)
    → bit_or
        (bit_or
          (bit_or
            (bit_or
              (bit_or (bit_or (bit_or (x 7 * 2 ^ 56) (x 6 * 2 ^ 48)) (x 5 * 2 ^ 40)) (x 4 * 2 ^ 32))
              (x 3 * 2 ^ 24))
            (x 2 * 2 ^ 16))
          (x 1 * 2 ^ 8))
        (x 0 * 2 ^ 0)
      ≡ join x
or_lanes x h =
    let q6 = x 7 * 256 + x 6 in
    let q5 = q6 * 256 + x 5 in
    let q4 = q5 * 256 + x 4 in
    let q3 = q4 * 256 + x 3 in
    let q2 = q3 * 256 + x 2 in
    let q1 = q2 * 256 + x 1 in
    rw
      (
        field 56 48 (x 7) (x 6) refl (h 6),
        field 48 40 q6 (x 5) refl (h 5),
        field 40 32 q5 (x 4) refl (h 4),
        field 32 24 q4 (x 3) refl (h 3),
        field 24 16 q3 (x 2) refl (h 2),
        field 16 8 q2 (x 1) refl (h 1),
        field 8 0 q1 (x 0) refl (h 0),
      )
      (omega arith)

masked : (w k : ℕ) → bit_and (w / 2 ^ k) 0xff ≡ w / 2 ^ k % 256
masked w k = and_mask 8 (w / 2 ^ k)

lane_exp-eq : (w : ℕ) (b : ℤ) (k : ℕ) → lane_exp w b k ≡ gfmul_exp (w / 2 ^ k % 256) b * 2 ^ k
unfolding lane_exp gfmul_exp
lane_exp-eq w b k = rw (masked w k) (ground arith)

lane_c0-eq : (w k : ℕ) → lane_c0 w k ≡ gfmul_c0 (w / 2 ^ k % 256) * 2 ^ k
unfolding lane_c0
lane_c0-eq w k = rw (masked w k)

-- `gfmul_exp_long` applies `gfmul_exp` to each byte, if that gives bytes.
gfmul_exp_long-join :
    (w : ℕ) (b : ℤ)
    → ((a : ℕ) → a < 256 → gfmul_exp a b < 256)
    → gfmul_exp_long w b ≡ join (λ k. gfmul_exp (lane w k) b)
unfolding gfmul_exp_long
gfmul_exp_long-join w b h =
    rw
      (
        lane_exp-eq w b 56,
        lane_exp-eq w b 48,
        lane_exp-eq w b 40,
        lane_exp-eq w b 32,
        lane_exp-eq w b 24,
        lane_exp-eq w b 16,
        lane_exp-eq w b 8,
        lane_exp-eq w b 0,
      )
      (or_lanes (λ k. gfmul_exp (lane w k) b) (λ k. h (lane w k) (omega arith)))

c0_byte : (a : ℕ) → a < 256 → gfmul_c0 a < 256
unfolding gfmul_c0 all_below
c0_byte a h = ground (arith, all_below_sound 256 (λ a. ltb (gfmul_c0 a) 256) a refl h)

mul_c0_long-join : (w : ℕ) → mul_c0_long w ≡ join (λ k. gfmul_c0 (lane w k))
unfolding mul_c0_long
mul_c0_long-join w =
    rw
      (
        lane_c0-eq w 56,
        lane_c0-eq w 48,
        lane_c0-eq w 40,
        lane_c0-eq w 32,
        lane_c0-eq w 24,
        lane_c0-eq w 16,
        lane_c0-eq w 8,
        lane_c0-eq w 0,
      )
      (or_lanes (λ k. gfmul_c0 (lane w k)) (λ k. c0_byte (lane w k) (omega arith)))

join-lt : (x : ℕ → ℕ) → ((k : ℕ) → x k < 256) → join x < 2 ^ 64
join-lt x h = omega (arith, h 0, h 1, h 2, h 3, h 4, h 5, h 6, h 7)

pub mul_c0_long-lt : (w : ℕ) → mul_c0_long w < 2 ^ 64
mul_c0_long-lt w =
    rw (mul_c0_long-join w)
      (join-lt (λ k. gfmul_c0 (lane w k)) (λ k. c0_byte (lane w k) (omega arith)))

pub mul_c0_long-zero : mul_c0_long 0 ≡ 0
unfolding mul_c0_long lane_c0 gfmul_c0
mul_c0_long-zero = refl

-- The bytes of eight joined bytes.
lane-join : (x : ℕ → ℕ) → ((k : ℕ) → x k < 256) → (k : ℕ) → k < 8 → lane (join x) k ≡ x k
lane-join x h zero lt = omega (arith, h 0)
lane-join x h (suc zero) lt = omega (arith, h 0, h 1)
lane-join x h (suc (suc zero)) lt = omega (arith, h 0, h 1, h 2)
lane-join x h (suc (suc (suc zero))) lt = omega (arith, h 0, h 1, h 2, h 3)
lane-join x h (suc (suc (suc (suc zero)))) lt = omega (arith, h 0, h 1, h 2, h 3, h 4)
lane-join x h (suc (suc (suc (suc (suc zero))))) lt = omega (arith, h 0, h 1, h 2, h 3, h 4, h 5)
lane-join x h (suc (suc (suc (suc (suc (suc zero)))))) lt =
    omega (arith, h 0, h 1, h 2, h 3, h 4, h 5, h 6)
lane-join x h (suc (suc (suc (suc (suc (suc (suc zero))))))) lt =
    omega (arith, h 0, h 1, h 2, h 3, h 4, h 5, h 6, h 7)
lane-join x h (suc (suc (suc (suc (suc (suc (suc (suc k)))))))) lt = absurd (omega arith)

-- Each byte of the product of a long is the product of that byte.
pub lane-gfmul_exp_long :
    (w : ℕ) (b : ℤ)
    → ((a : ℕ) → a < 256 → gfmul_exp a b < 256)
    → (k : ℕ) → k < 8
    → lane (gfmul_exp_long w b) k ≡ gfmul_exp (lane w k) b
lane-gfmul_exp_long w b h k lt =
    rw (gfmul_exp_long-join w b h)
      (lane-join (λ k. gfmul_exp (lane w k) b) (λ k. h (lane w k) (omega arith)) k lt)

pub lane-mul_c0_long : (w k : ℕ) → k < 8 → lane (mul_c0_long w) k ≡ gfmul_c0 (lane w k)
lane-mul_c0_long w k lt =
    rw (mul_c0_long-join w)
      (lane-join (λ k. gfmul_c0 (lane w k)) (λ k. c0_byte (lane w k) (omega arith)) k lt)

xor_shift : (j a b : ℕ) → bit_xor a b / 2 ^ j ≡ bit_xor (a / 2 ^ j) (b / 2 ^ j)
xor_shift j a b =
    let pos = one-le-pow j 2 (omega arith) in
    let whole : bit_xor a b
        ≡ bit_xor (a / 2 ^ j * 2 ^ j + a % 2 ^ j) (b / 2 ^ j * 2 ^ j + b % 2 ^ j) =
      ap₂ bit_xor (omega arith) (omega arith) in
    grind (
      arith,
      xor_fields j (a / 2 ^ j) (a % 2 ^ j) (b / 2 ^ j) (b % 2 ^ j) (omega arith) (omega arith),
      xor-lt j (a % 2 ^ j) (b % 2 ^ j) (omega arith) (omega arith),
      whole,
      pos,
    )

-- Each byte of a sum is the sum of the bytes.
pub lane-gfadd_long : (a b k : ℕ) → lane (gfadd_long a b) k ≡ bit_xor (lane a k) (lane b k)
unfolding gfadd_long
lane-gfadd_long a b k =
    rw (xor_shift (8 * k) a b) (xor_low_byte (a / 2 ^ (8 * k)) (b / 2 ^ (8 * k))).0
