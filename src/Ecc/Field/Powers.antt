-- ===== src/Ecc/Field/Powers.antt =====
-- What the tables of ftape/lowlevel/ftape-ecc.c hold: powers of r, logarithms, products by r^105.
use ftape.Prelude.{
  ℕ, zero, suc, ◌+◌, ◌-◌, ◌*◌, ◌%◌, ◌≤◌, ◌<◌, bit_xor, ◌≡◌, refl, ◌≢◌, true, ltb, ◌==◌,
  if◌then◌else◌, ◌&&◌, all_below, all_below_sound, ==_iff, arith,
}
use ftape.Prelude.Int.{pos, ◌-ℤ◌}
use ftape.Ecc.Tables.{gfpow, gflog, gfmul_c0}
use ftape.Ecc.Field.{mod255, gfmul}

-- Multiplication by r, with the reduction by f(r) = 0x187.
unfoldable pub times_r : ℕ → ℕ
times_r a = if ltb a 128 then 2 * a else bit_xor (2 * a) 0x187

from_table :
    (n : ℕ) (f g : ℕ → ℕ) → all_below n (λ i. f i == g i) ≡ true → (i : ℕ) → i < n → f i ≡ g i
from_table n f g h i lt = (==_iff (f i) (g i)).0 (all_below_sound n (λ j. f j == g j) i h lt)

-- `gfpow` starts at 1 and each entry is r times the one before it.
pub gfpow-suc : (i : ℕ) → i < 255 → gfpow (i + 1) ≡ times_r (gfpow i)
unfolding gfpow times_r all_below
gfpow-suc i h = from_table 255 (λ i. gfpow (i + 1)) (λ i. times_r (gfpow i)) refl i h

-- The logarithm of each power of r is its exponent.
pub gflog-gfpow : (i : ℕ) → i < 255 → gflog (gfpow i) ≡ i
unfolding gfpow gflog all_below
gflog-gfpow i h = from_table 255 (λ i. gflog (gfpow i)) (λ i. i) refl i h

-- Every non-zero byte is the power of r that its logarithm says.
gfpow_log_suc : (i : ℕ) → i < 255 → gfpow (gflog (suc i)) ≡ suc i
unfolding gfpow gflog all_below
gfpow_log_suc i h = from_table 255 (λ i. gfpow (gflog (suc i))) (λ i. suc i) refl i h

pub gfpow-gflog : (a : ℕ) → a < 256 → a ≢ 0 → gfpow (gflog a) ≡ a
gfpow-gflog zero h ne = absurd (ne refl)
gfpow-gflog (suc i) h ne = gfpow_log_suc i (omega arith)

gflog-lt_next : (i : ℕ) → i < 255 → ltb (gflog (suc i)) 255 ≡ true
unfolding gflog all_below
gflog-lt_next i h = all_below_sound 255 (λ i. ltb (gflog (suc i)) 255) i refl h

pub gflog-lt : (a : ℕ) → a < 256 → a ≢ 0 → gflog a < 255
gflog-lt zero h ne = absurd (ne refl)
gflog-lt (suc i) h ne = ground (arith, gflog-lt_next i (omega arith))

pub gfpow_byte : (i : ℕ) → i < 256 → (gfpow i < 256) × (0 < gfpow i)
unfolding gfpow all_below
gfpow_byte i h =
    ground (arith, all_below_sound 256 (λ i. ltb (gfpow i) 256 && ltb 0 (gfpow i)) i refl h)

-- The exponent 255 is the exponent 0.
pub gfpow_255 : gfpow 255 ≡ gfpow 0
unfolding gfpow
gfpow_255 = refl

-- The table of products by 0xc0 agrees with the multiplication.
pub gfmul_c0-gfmul : (a : ℕ) → a < 256 → gfmul_c0 a ≡ gfmul a 0xc0
unfolding gfmul_c0 gfmul gfpow gflog mod255 all_below
gfmul_c0-gfmul a h = from_table 256 gfmul_c0 (λ a. gfmul a 0xc0) refl a h

-- `mod255` reduces a sum of exponents, up to the exponent 255 for 0.
pub gfpow-mod255_add : (n : ℕ) → n ≤ 509 → gfpow (mod255 (pos n)) ≡ gfpow (n % 255)
unfolding mod255
gfpow-mod255_add n h = ground (arith, gfpow_255)

pub gfpow-mod255_sub :
    (a b : ℕ) → a ≤ 254 → b ≤ 255 → gfpow (mod255 (pos a -ℤ pos b)) ≡ gfpow ((a + 255 - b) % 255)
unfolding mod255
gfpow-mod255_sub a b h g = ground (arith, gfpow_255)
