-- ===== src/Ecc/Field.antt =====
-- Arithmetic in the field: `mod255` to `gfdiv` of ftape/lowlevel/ftape-ecc.c.
-- A byte is a number below 256; `int` exponents are integers.
pub mod Powers
pub mod Products
pub mod Linear
pub mod Lanes
use ftape.Prelude.{ℕ, ◌-◌, ◌*◌, ◌/◌, ◌%◌, ◌^◌, bit_and, bit_or, bit_xor, ◌==◌, if◌then◌else◌, ◌||◌}
use ftape.Prelude.Int.{ℤ, pos, negsuc, ◌+ℤ◌, ◌-ℤ◌, ltb_ℤ}
use ftape.Ecc.Tables.{gfpow, gflog, gfmul_c0}

-- The cast to `__u8`.
abbrev pub u8 : ℤ → ℕ
u8 (pos n) = n % 256
u8 (negsuc n) = 255 - n % 256

unfoldable pub mod255 : ℤ → ℕ
mod255 v =
    if ltb_ℤ (pos 0) v
    then if ltb_ℤ v (pos 255) then u8 v else u8 (v -ℤ pos 255)
    else u8 (v +ℤ pos 255)

unfoldable pub gfadd : ℕ → ℕ → ℕ
gfadd a b = bit_xor a b

unfoldable pub gfadd_long : ℕ → ℕ → ℕ
gfadd_long a b = bit_xor a b

unfoldable pub gfmul : ℕ → ℕ → ℕ
gfmul a b = if a == 0 || b == 0 then 0 else gfpow (mod255 (pos (gflog a) +ℤ pos (gflog b)))

unfoldable pub gfmul_exp : ℕ → ℤ → ℕ
gfmul_exp a b = if a == 0 then 0 else gfpow (mod255 (pos (gflog a) +ℤ b))

unfoldable pub gfdiv : ℕ → ℕ → ℕ
gfdiv a b =
    if b == 0 then 0xff else if a == 0 then 0 else gfpow (mod255 (pos (gflog a) -ℤ pos (gflog b)))

-- One arm of `gfmul_exp_long`: `(t = a >> k & 0xff) ? gfpow[mod255(gflog[t] + b)] << k : 0`.
unfoldable pub lane_exp : ℕ → ℤ → ℕ → ℕ
lane_exp a b k =
    let t = bit_and (a / 2 ^ k) 0xff in
    if t == 0 then 0 else gfpow (mod255 (pos (gflog t) +ℤ b)) * 2 ^ k

-- `gfmul_exp_long` where `sizeof(long)` is 8.
unfoldable pub gfmul_exp_long : ℕ → ℤ → ℕ
unfolding lane_exp
gfmul_exp_long a b =
    bit_or
      (bit_or
        (bit_or
          (bit_or
            (bit_or (bit_or (bit_or (lane_exp a b 56) (lane_exp a b 48)) (lane_exp a b 40))
              (lane_exp a b 32))
            (lane_exp a b 24))
          (lane_exp a b 16))
        (lane_exp a b 8))
      (lane_exp a b 0)

-- One arm of the product of each byte of `t1` by 0xc0 in `set_parity`.
unfoldable pub lane_c0 : ℕ → ℕ → ℕ
lane_c0 t k = gfmul_c0 (bit_and (t / 2 ^ k) 0xff) * 2 ^ k

-- That product, where `sizeof(long)` is 8.
unfoldable pub mul_c0_long : ℕ → ℕ
unfolding lane_c0
mul_c0_long t =
    bit_or
      (bit_or
        (bit_or
          (bit_or
            (bit_or (bit_or (bit_or (lane_c0 t 56) (lane_c0 t 48)) (lane_c0 t 40)) (lane_c0 t 32))
            (lane_c0 t 24))
          (lane_c0 t 16))
        (lane_c0 t 8))
      (lane_c0 t 0)
