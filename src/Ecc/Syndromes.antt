-- ===== src/Ecc/Syndromes.antt =====
-- `compute_syndromes` of ftape/lowlevel/ftape-ecc.c.
use ftape.Prelude.{ℕ, bit_or, ◌==◌, if◌then◌else◌, Option, none, some}
use ftape.Prelude.Int.{pos, ◌-ℤ◌}
use ftape.Ecc.Field.{gfadd_long, gfmul_exp_long}
use ftape.Ecc.Memory.{Memory}
use ftape.Ecc.Parity.{Parity, set_parity}

-- The syndromes `s[0]`, `s[1]`, `s[2]`, as longs or as the bytes of one column.
pub record Syndromes : Type 0 where
  pub s0 : ℕ
  pub s1 : ℕ
  pub s2 : ℕ

unfoldable pub syndromes_of : Parity → ℕ → Syndromes
syndromes_of p nblocks = record {
  s0 =
      gfmul_exp_long
        (gfadd_long p.p0 (
          gfmul_exp_long (gfadd_long p.p1 (gfmul_exp_long p.p2 (pos 0 -ℤ pos 1))) (pos 0 -ℤ pos 1)))
        (pos 0 -ℤ pos nblocks);
  s1 = gfadd_long (gfadd_long p.p2 p.p1) p.p0;
  s2 =
      gfmul_exp_long
        (gfadd_long p.p0 (gfmul_exp_long (gfadd_long p.p1 (gfmul_exp_long p.p2 (pos 1))) (pos 1)))
        (pos nblocks);
}

-- `none` is the result 1: every parity word is zero, and no syndrome is computed.
unfoldable pub compute_syndromes : Memory → ℕ → ℕ → Option Syndromes
compute_syndromes m a nblocks =
    let p = set_parity m a nblocks in
    if bit_or (bit_or p.p0 p.p1) p.p2 == 0 then none else some (syndromes_of p nblocks)
