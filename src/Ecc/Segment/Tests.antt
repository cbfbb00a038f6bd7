-- ===== src/Ecc/Segment/Tests.antt =====
-- The theorems on ftape/lowlevel/ftape-ecc.c at concrete inputs, and runs of its functions.
use ftape.Prelude.{◌*◌, ◌%◌, ◌≡◌, refl, arith}
use ftape.Ecc.Tables.{gfpow, gflog}
use ftape.Ecc.Field.{gfmul}
use ftape.Ecc.Field.Linear.{shifted, gfmul-shifted}
use ftape.Ecc.Parity.{Segment, set_segment_parity}
use ftape.Ecc.Segment.{correct_data, ecc_ok}
use ftape.Ecc.Segment.Fresh.{correct_data-set_segment_parity}

-- Five blocks of bytes, one of which was marked as a read error.
abbrev five_blocks : Segment
five_blocks = record {
  marked_bad = 0;
  read_bad = 4;
  blocks = 5;
  bytes = λ x. x * 7 % 256;
  corrected = 9;
}

correct_data-set_segment_parity_example :
    correct_data (set_segment_parity five_blocks)
    ≡ (record (set_segment_parity five_blocks) { corrected = 0 }, ecc_ok)
correct_data-set_segment_parity_example =
    correct_data-set_segment_parity five_blocks (λ x. omega arith) (omega arith)

-- 0xc0 is r^105, and its logarithm is 105.
generator : (gfpow 105 ≡ 0xc0) × (gflog 0xc0 ≡ 105)
unfolding gfpow gflog
generator = (refl, refl)

gfmul-shifted_example : gfmul (gfpow 3) 0x80 ≡ shifted 3 0x80
gfmul-shifted_example = gfmul-shifted 3 0x80 (omega arith) (omega arith)
