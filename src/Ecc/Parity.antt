-- ===== src/Ecc/Parity.antt =====
-- `set_parity` and `ftape_ecc_set_segment_parity` of ftape/lowlevel/ftape-ecc.c.
pub mod Bounds
pub mod Codeword
use ftape.Prelude.{ℕ, zero, suc, ◌+◌, ◌-◌, ◌*◌}
use ftape.Ecc.Field.{gfadd_long, mul_c0_long}
use ftape.Ecc.Memory.{Memory, load_long, store_long}

-- FT_SECTOR_SIZE
abbrev pub sector_size : ℕ
sector_size = 1024

-- The registers `p0`, `p1`, `p2`.
pub record Parity : Type 0 where
  pub p0 : ℕ
  pub p1 : ℕ
  pub p2 : ℕ

abbrev pub no_parity : Parity
no_parity = record { p0 = 0; p1 = 0; p2 = 0 }

-- The body of the loop of `set_parity` at the word `m`.
unfoldable pub parity_step : Parity → ℕ → Parity
parity_step p m =
    let t1 = gfadd_long m p.p0 in
    let t2 = mul_c0_long t1 in record { p0 = gfadd_long t2 p.p1; p1 = gfadd_long t2 p.p2; p2 = t1 }

-- The loop with `n` rows left, at the offset `a`.
unfoldable pub parity_loop : Memory → ℕ → ℕ → Parity → Parity
parity_loop m a zero p = p
parity_loop m a (suc n) p = parity_loop m (a + sector_size) n (parity_step p (load_long m a))

-- `set_parity` computes the three words that it stores; `store_parity` is that store.
unfoldable pub set_parity : Memory → ℕ → ℕ → Parity
set_parity m a nblocks = parity_loop m a nblocks no_parity

unfoldable pub store_parity : Memory → ℕ → Parity → Memory
store_parity m a p =
    store_long (store_long (store_long m a p.p0) (a + sector_size) p.p1)
      (a + sector_size + sector_size) p.p2

-- `struct memory_segment`. Its `data` points to a buffer of `blocks` sectors.
pub record Segment : Type 0 where
  pub marked_bad : ℕ
  pub read_bad : ℕ
  pub blocks : ℕ
  pub bytes : Memory
  pub corrected : ℕ

-- The loop of `ftape_ecc_set_segment_parity` with `n` columns of longs left, at column `i`.
unfoldable pub parity_columns : ℕ → ℕ → ℕ → Memory → Memory
parity_columns zero i blocks m = m
parity_columns (suc n) i blocks m =
    parity_columns n (i + 8) blocks
      (store_parity m ((blocks - 3) * sector_size + i) (set_parity m i (blocks - 3)))

-- Columns of longs in a sector: `FT_SECTOR_SIZE / sizeof(long)`.
abbrev pub columns : ℕ
columns = 128

unfoldable pub set_segment_parity : Segment → Segment
set_segment_parity s = record s { bytes = parity_columns columns 0 s.blocks s.bytes }
