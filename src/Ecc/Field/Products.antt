-- ===== src/Ecc/Field/Products.antt =====
-- The field laws of `gfmul`, `gfmul_exp` and `gfdiv`.
use ftape.Prelude.{
  ℕ, zero, suc, ◌+◌, ◌-◌, ◌%◌, ◌≤◌, ◌<◌, ◌≡◌, refl, sym, ◌∙◌, ◌≢◌, inl, inr, ◌==◌, ◌||◌, Bool-cases,
  arith,
}
use ftape.Prelude.Int.{pos, ◌-ℤ◌}
use ftape.Ecc.Tables.{gfpow, gflog}
use ftape.Ecc.Field.{gfmul, gfmul_exp, gfdiv}
use ftape.Ecc.Field.Powers.{
  gflog-gfpow, gfpow-gflog, gflog-lt, gfpow_byte, gfpow-mod255_add, gfpow-mod255_sub,
}

pub gfmul-gfpow :
    (a b : ℕ) → a < 256 → b < 256 → a ≢ 0 → b ≢ 0 → gfmul a b ≡ gfpow ((gflog a + gflog b) % 255)
unfolding gfmul
gfmul-gfpow a b ha hb na nb =
    ground (arith, gflog-lt a ha na, gflog-lt b hb nb, gfpow-mod255_add (gflog a + gflog b))

pub zero-gfmul : (b : ℕ) → gfmul 0 b ≡ 0
unfolding gfmul
zero-gfmul b = refl

pub gfmul-zero : (a : ℕ) → gfmul a 0 ≡ 0
unfolding gfmul
gfmul-zero a = ground arith

pub gfmul_byte : (a b : ℕ) → a < 256 → b < 256 → gfmul a b < 256
unfolding gfmul
gfmul_byte a b ha hb = elim (Bool-cases (a == 0 || b == 0)) [
  | inl z ↦ rw z (omega arith)
  | inr n ↦ rw n (
      ground (
        arith,
        gflog-lt a ha,
        gflog-lt b hb,
        gfpow-mod255_add (gflog a + gflog b),
        gfpow_byte ((gflog a + gflog b) % 255),
      ))
]

pub gfmul_comm : (a b : ℕ) → gfmul a b ≡ gfmul b a
unfolding gfmul
gfmul_comm a b = let e : gflog a + gflog b ≡ gflog b + gflog a = omega arith in ground (arith, e)

gfmul_pos : (a b : ℕ) → a < 256 → b < 256 → a ≢ 0 → b ≢ 0 → gfmul a b ≢ 0
gfmul_pos a b ha hb na nb =
    omega (arith, gfmul-gfpow a b ha hb na nb, gfpow_byte ((gflog a + gflog b) % 255) (omega arith))

gflog-gfmul :
    (a b : ℕ) → a < 256 → b < 256 → a ≢ 0 → b ≢ 0 → gflog (gfmul a b) ≡ (gflog a + gflog b) % 255
gflog-gfmul a b ha hb na nb =
    rw (gfmul-gfpow a b ha hb na nb) (gflog-gfpow ((gflog a + gflog b) % 255) (omega arith))

-- The product is associative.
pub gfmul_assoc :
    (a b c : ℕ) → a < 256 → b < 256 → c < 256 → gfmul (gfmul a b) c ≡ gfmul a (gfmul b c)
gfmul_assoc zero b c ha hb hc = rw (zero-gfmul b, zero-gfmul c, zero-gfmul (gfmul b c))
gfmul_assoc (suc a) zero c ha hb hc = rw (gfmul-zero (suc a), zero-gfmul c, gfmul-zero (suc a))
gfmul_assoc (suc a) (suc b) zero ha hb hc =
    rw (gfmul-zero (gfmul (suc a) (suc b)), gfmul-zero (suc b), gfmul-zero (suc a))
gfmul_assoc (suc a) (suc b) (suc c) ha hb hc =
    let na : suc a ≢ 0 = omega arith in
    let nb : suc b ≢ 0 = omega arith in
    let nc : suc c ≢ 0 = omega arith in
    let x = gflog (suc a) in
    let y = gflog (suc b) in
    let z = gflog (suc c) in
    let e : ((x + y) % 255 + z) % 255 ≡ (x + (y + z) % 255) % 255 = omega arith in
    gfmul-gfpow (gfmul (suc a) (suc b)) (suc c) (gfmul_byte (suc a) (suc b) ha hb) hc
      (gfmul_pos (suc a) (suc b) ha hb na nb) nc
    ∙ rw (gflog-gfmul (suc a) (suc b) ha hb na nb, e, ← gflog-gfmul (suc b) (suc c) hb hc nb nc)
        (sym (
          gfmul-gfpow (suc a) (gfmul (suc b) (suc c)) ha (gfmul_byte (suc b) (suc c) hb hc) na
            (gfmul_pos (suc b) (suc c) hb hc nb nc)))

pub gfdiv-gfpow :
    (a b : ℕ)
    → a < 256
    → b < 256
    → a ≢ 0
    → b ≢ 0
    → gfdiv a b ≡ gfpow ((gflog a + 255 - gflog b) % 255)
unfolding gfdiv
gfdiv-gfpow a b ha hb na nb =
    ground (arith, gflog-lt a ha na, gflog-lt b hb nb, gfpow-mod255_sub (gflog a) (gflog b))

-- Division undoes multiplication.
pub gfmul-gfdiv : (a b : ℕ) → a < 256 → b < 256 → b ≢ 0 → gfmul (gfdiv a b) b ≡ a
gfmul-gfdiv zero b ha hb nb = unfold gfdiv in ground (arith, zero-gfmul b)
gfmul-gfdiv (suc a) b ha hb nb =
    let na : suc a ≢ 0 = omega arith in
    let la = gflog-lt (suc a) ha na in
    let lb = gflog-lt b hb nb in
    let k = (gflog (suc a) + 255 - gflog b) % 255 in
    let e : (k + gflog b) % 255 ≡ gflog (suc a) = omega arith in
    rw
      (
        gfdiv-gfpow (suc a) b ha hb na nb,
        gfmul-gfpow (gfpow k) b (gfpow_byte k (omega arith)).0 hb
            (omega (arith, gfpow_byte k (omega arith))) nb,
        gflog-gfpow k (omega arith),
        e,
      )
      (gfpow-gflog (suc a) ha na)

-- `gfmul_exp` multiplies by the power of r that its second argument says.
pub gfmul_exp_pos : (a k : ℕ) → a < 256 → k ≤ 255 → gfmul_exp a (pos k) ≡ gfmul a (gfpow (k % 255))
unfolding gfmul_exp gfmul
gfmul_exp_pos a k ha hk = ground (
  arith,
  gflog-lt a ha,
  gfpow-mod255_add (gflog a + k),
  gfpow-mod255_add (gflog a + k % 255),
  gflog-gfpow (k % 255),
  gfpow_byte (k % 255),
)

pub gfmul_exp_neg :
    (a k : ℕ) → a < 256 → k ≤ 255 → gfmul_exp a (pos 0 -ℤ pos k) ≡ gfmul a (gfpow ((255 - k) % 255))
unfolding gfmul_exp gfmul
gfmul_exp_neg a k ha hk = ground (
  arith,
  gflog-lt a ha,
  gfpow-mod255_sub (gflog a) k,
  gfpow-mod255_add (gflog a + (255 - k) % 255),
  gflog-gfpow ((255 - k) % 255),
  gfpow_byte ((255 - k) % 255),
)
