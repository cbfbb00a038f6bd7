-- ===== src/Bsm/Entry.antt =====
-- Entries of the bad sector map: `put_sector`, `get_sector`, `cvt2map`, `cvt2segment` and
-- `count_ones` (ftape/lowlevel/ftape-bsm.c, ftape/lowlevel/ftape-rw.h).
use ftape.Prelude.{
  ℕ, zero, suc, ◌+◌, ◌-◌, ◌*◌, ◌/◌, ◌%◌, ◌^◌, bit_and, ◌==◌, if◌then◌else◌, Bool, not,
}

-- FT_SECTORS_PER_SEGMENT, EMPTY_SEGMENT, FAKE_SEGMENT
abbrev pub sectors_per_segment : ℕ
sectors_per_segment = 32

abbrev pub empty_segment : ℕ
empty_segment = 0xffff_ffff

abbrev pub fake_segment : ℕ
fake_segment = 0xffff_fffe

-- `ft_format_type`
pub data Format : Type 0 where
  fmt_normal fmt_1100ft fmt_var fmt_425ft fmt_big : Format

-- The formats with a list of sectors, and among them those that mark an empty segment by one entry.
abbrev pub has_list : Format → Bool
has_list fmt_1100ft = Bool.true
has_list fmt_var = Bool.true
has_list fmt_big = Bool.true
has_list _ = Bool.false

abbrev pub has_marks : Format → Bool
has_marks fmt_var = Bool.true
has_marks fmt_big = Bool.true
has_marks _ = Bool.false

-- `SectorCount`: three bytes, low byte first.
pub record SectorCount : Type 0 where
  pub byte0 : ℕ
  pub byte1 : ℕ
  pub byte2 : ℕ

unfoldable pub put_sector : ℕ → SectorCount
put_sector sector = record {
  byte0 = bit_and sector 0xff;
  byte1 = bit_and (sector / 2 ^ 8) 0xff;
  byte2 = bit_and (sector / 2 ^ 8 / 2 ^ 8) 0xff;
}

unfoldable pub get_sector : SectorCount → ℕ
get_sector c = c.byte0 + c.byte1 * 2 ^ 8 + c.byte2 * 2 ^ 16

-- `(sector & 0x7fffff) - 1` in `unsigned int`.
abbrev index : ℕ → ℕ
index sector = (bit_and sector 0x7f_ffff + (2 ^ 32 - 1)) % 2 ^ 32

unfoldable pub cvt2map : ℕ → ℕ
cvt2map sector = 2 ^ (index sector % sectors_per_segment)

unfoldable pub cvt2segment : ℕ → ℕ
cvt2segment sector = index sector / sectors_per_segment

-- Whether bit 23 marks a whole segment.
unfoldable pub is_mark : ℕ → Bool
is_mark sector = not (bit_and sector 0x80_0000 == 0)

-- `count_ones`: `n` bits are left to look at; a map has 32.
unfoldable pub count_bits : ℕ → ℕ → ℕ → ℕ
count_bits zero mask bits = bits
count_bits (suc n) mask bits =
    count_bits n (mask / 2) (if bit_and mask 1 == 0 then bits else bits + 1)

unfoldable pub count_ones : ℕ → ℕ
unfolding count_bits
count_ones mask = count_bits 64 mask 0
