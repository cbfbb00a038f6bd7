-- ===== src/Ecc/Parity/Bounds.antt =====
-- The parity words of a buffer of bytes are longs, and the buffer stays one of bytes.
use ftape.Prelude.{ℕ, zero, suc, ◌+◌, ◌^◌, ◌<◌, arith}
use ftape.Prelude.Bits.Bytes.{xor-lt}
use ftape.Ecc.Field.{gfadd_long}
use ftape.Ecc.Field.Lanes.{mul_c0_long-lt}
use ftape.Ecc.Memory.{Memory, load}
use ftape.Ecc.Memory.Laws.{IsBytes, load-lt, store-IsBytes}
use ftape.Ecc.Parity.{
  Parity, no_parity, parity_step, parity_loop, set_parity, store_parity, sector_size,
}

abbrev pub IsLongs : Parity → Type 0
IsLongs p = (p.p0 < 2 ^ 64) × (p.p1 < 2 ^ 64) × (p.p2 < 2 ^ 64)

gfadd_long-lt : (a b : ℕ) → a < 2 ^ 64 → b < 2 ^ 64 → gfadd_long a b < 2 ^ 64
unfolding gfadd_long
gfadd_long-lt a b h g = xor-lt 64 a b h g

parity_step-IsLongs : (p : Parity) (m : ℕ) → IsLongs p → m < 2 ^ 64 → IsLongs (parity_step p m)
unfolding parity_step
parity_step-IsLongs p m h g =
    let t1 = gfadd_long-lt m p.p0 g h.0 in
    let t2 = mul_c0_long-lt (gfadd_long m p.p0) in
    (gfadd_long-lt _ p.p1 t2 h.1, gfadd_long-lt _ p.p2 t2 h.2, t1)

parity_loop-IsLongs :
    (m : Memory) (a n : ℕ) (p : Parity) → IsBytes m → IsLongs p → IsLongs (parity_loop m a n p)
unfolding parity_loop
parity_loop-IsLongs m a zero p b h = h
parity_loop-IsLongs m a (suc n) p b h =
    parity_loop-IsLongs m (a + sector_size) n (parity_step p (load m a 8)) b
      (parity_step-IsLongs p (load m a 8) h (load-lt m a 8 b))

pub set_parity-IsLongs : (m : Memory) (a n : ℕ) → IsBytes m → IsLongs (set_parity m a n)
unfolding set_parity
set_parity-IsLongs m a n b =
    parity_loop-IsLongs m a n no_parity b (omega arith, omega arith, omega arith)

pub store_parity-IsBytes :
    (m : Memory) (a : ℕ) (p : Parity) → IsBytes m → IsBytes (store_parity m a p)
unfolding store_parity
store_parity-IsBytes m a p b =
    store-IsBytes _ (a + sector_size + sector_size) 8 p.p2
      (store-IsBytes _ (a + sector_size) 8 p.p1 (store-IsBytes m a 8 p.p0 b))
