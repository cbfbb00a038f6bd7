-- ===== src/Ecc/Field/Linear.antt =====
-- `gfmul` is repeated multiplication by r, and so distributes over the sum of the field.
use ftape.Prelude.{
  ℕ, zero, suc, ◌+◌, ◌*◌, ◌/◌, ◌%◌, ◌^◌, ◌<◌, bit_xor, ◌≡◌, refl, sym, ap, ap₂, ◌∙◌, ◌≢◌, inl, inr,
  ltb, ◌==◌, if◌then◌else◌, Bool-cases, all_below, all_below_sound, arith,
}
use ftape.Prelude.Bits.{bit_xor_step, xor_comm, xor_assoc, xor-zero}
use ftape.Prelude.Bits.Bytes.{xor-lt, xor_fields}
use ftape.Ecc.Tables.{gfpow, gflog}
use ftape.Ecc.Field.{gfmul}
use ftape.Ecc.Field.Powers.{
  times_r, gfpow-suc, gflog-gfpow, gfpow-gflog, gflog-lt, gfpow_byte, gfpow_255,
}
use ftape.Ecc.Field.Products.{gfmul-gfpow, zero-gfmul, gfmul-zero}

-- `r^i` times a byte is that byte multiplied `i` times by r.
pub shifted : ℕ → ℕ → ℕ
shifted zero b = b
shifted (suc i) b = times_r (shifted i b)

gfpow_mod_next : (n : ℕ) → gfpow ((n + 1) % 255) ≡ times_r (gfpow (n % 255))
gfpow_mod_next n = elim (Bool-cases (n % 255 == 254)) [
  | inl last ↦
      let e : (n + 1) % 255 ≡ 0 = ground arith in
      let f : n % 255 ≡ 254 = ground arith in
      rw (e, f) (sym gfpow_255 ∙ gfpow-suc 254 (omega arith))
  | inr below ↦
      let e : (n + 1) % 255 ≡ n % 255 + 1 = ground arith in rw e (gfpow-suc (n % 255) (omega arith))
]

gfpow-add : (i k : ℕ) → k < 255 → gfpow ((i + k) % 255) ≡ shifted i (gfpow k)
unfolding shifted
gfpow-add zero k h = let e : (0 + k) % 255 ≡ k = omega arith in rw e
gfpow-add (suc i) k h =
    let e : (suc i + k) % 255 ≡ (i + k + 1) % 255 = omega arith in
    rw (e, gfpow_mod_next (i + k), gfpow-add i k h)

shifted_zero : (i : ℕ) → shifted i 0 ≡ 0
unfolding shifted times_r
shifted_zero zero = refl
shifted_zero (suc i) = rw (shifted_zero i)

-- `gfmul` multiplies as repeated multiplication by r does.
pub gfmul-shifted : (i b : ℕ) → i < 255 → b < 256 → gfmul (gfpow i) b ≡ shifted i b
gfmul-shifted i b hi hb = elim (Bool-cases (b == 0)) [
  | inl z ↦ let e : b ≡ 0 = ground arith in rw (e, gfmul-zero, shifted_zero i)
  | inr n ↦
      let nb : b ≢ 0 = ground arith in
      rw
        (
          gfmul-gfpow (gfpow i) b (gfpow_byte i (omega arith)).0 hb
              (omega (arith, gfpow_byte i (omega arith))) nb,
          gflog-gfpow i hi,
          gfpow-add i (gflog b) (gflog-lt b hb nb),
          gfpow-gflog b hb nb,
        )
        refl
]

xor_double : (a b : ℕ) → 2 * bit_xor a b ≡ bit_xor (2 * a) (2 * b)
xor_double a b = omega (arith, bit_xor_step (2 * a) (2 * b), ap₂ bit_xor (half a) (half b))
  where
    half : (x : ℕ) → 2 * x / 2 ≡ x
    half x = omega arith

-- Bit 7 of a sum of bytes.
xor_top : (a b : ℕ) → a < 256 → b < 256 → bit_xor a b / 128 ≡ bit_xor (a / 128) (b / 128)
xor_top a b h g = omega (
  arith,
  whole,
  xor_fields 7 (a / 128) (a % 128) (b / 128) (b % 128) (omega arith) (omega arith),
  xor-lt 7 (a % 128) (b % 128) (omega arith) (omega arith),
)
  where
    whole : bit_xor a b ≡ bit_xor (a / 128 * 2 ^ 7 + a % 128) (b / 128 * 2 ^ 7 + b % 128)
    whole = ap₂ bit_xor (omega arith) (omega arith)

abbrev reduction : ℕ → ℕ
reduction q = if q == 0 then 0 else 0x187

times_r-eq : (a : ℕ) → times_r a ≡ bit_xor (2 * a) (reduction (a / 128))
unfolding times_r
times_r-eq a = ground (arith, xor-zero (2 * a))

xor_swap : (a b c d : ℕ) → bit_xor (bit_xor a b) (bit_xor c d) ≡ bit_xor (bit_xor a c) (bit_xor b d)
xor_swap a b c d =
    xor_assoc a b (bit_xor c d)
    ∙ ap (bit_xor a)
        (sym (xor_assoc b c d) ∙ ap (λ t. bit_xor t d) (xor_comm b c) ∙ xor_assoc c b d)
    ∙ sym (xor_assoc a c (bit_xor b d))

reduction_xor :
    (p q : ℕ) → p < 2 → q < 2 → reduction (bit_xor p q) ≡ bit_xor (reduction p) (reduction q)
reduction_xor zero zero h g = refl
reduction_xor zero (suc zero) h g = refl
reduction_xor (suc zero) zero h g = refl
reduction_xor (suc zero) (suc zero) h g = refl
reduction_xor zero (suc (suc q)) h g = absurd (omega arith)
reduction_xor (suc zero) (suc (suc q)) h g = absurd (omega arith)
reduction_xor (suc (suc p)) q h g = absurd (omega arith)

times_r-xor :
    (a b : ℕ) → a < 256 → b < 256 → times_r (bit_xor a b) ≡ bit_xor (times_r a) (times_r b)
times_r-xor a b h g =
    rw
      (
        times_r-eq (bit_xor a b),
        times_r-eq a,
        times_r-eq b,
        xor_double a b,
        xor_top a b h g,
        reduction_xor (a / 128) (b / 128) (omega arith) (omega arith),
      )
      (xor_swap (2 * a) (2 * b) (reduction (a / 128)) (reduction (b / 128)))

times_r_byte : (a : ℕ) → a < 256 → times_r a < 256
unfolding times_r all_below
times_r_byte a h = ground (arith, all_below_sound 256 (λ a. ltb (times_r a) 256) a refl h)

shifted_byte : (i b : ℕ) → b < 256 → shifted i b < 256
unfolding shifted
shifted_byte zero b h = h
shifted_byte (suc i) b h = times_r_byte (shifted i b) (shifted_byte i b h)

shifted-xor :
    (i b c : ℕ) → b < 256 → c < 256 → shifted i (bit_xor b c) ≡ bit_xor (shifted i b) (shifted i c)
unfolding shifted
shifted-xor zero b c h g = refl
shifted-xor (suc i) b c h g =
    rw (shifted-xor i b c h g)
      (times_r-xor (shifted i b) (shifted i c) (shifted_byte i b h) (shifted_byte i c g))

-- Multiplication distributes over the sum of the field.
pub gfmul-xor :
    (a b c : ℕ)
    → a < 256
    → b < 256
    → c < 256
    → gfmul a (bit_xor b c) ≡ bit_xor (gfmul a b) (gfmul a c)
gfmul-xor a b c ha hb hc = elim (Bool-cases (a == 0)) [
  | inl z ↦
      let e : a ≡ 0 = ground arith in rw (e, zero-gfmul (bit_xor b c), zero-gfmul b, zero-gfmul c)
  | inr n ↦
      let na : a ≢ 0 = ground arith in
      let lt : gflog a < 255 = gflog-lt a ha na in
      rw (← gfpow-gflog a ha na) (
        rw
          (
            gfmul-shifted (gflog a) (bit_xor b c) lt (xor-lt 8 b c hb hc),
            gfmul-shifted (gflog a) b lt hb,
            gfmul-shifted (gflog a) c lt hc,
          )
          (shifted-xor (gflog a) b c hb hc))
]
