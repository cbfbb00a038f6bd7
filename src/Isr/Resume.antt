-- ===== src/Isr/Resume.antt =====
-- Where a segment is verified again: `find_resume_point` of ftape/lowlevel/fdc-isr.c. `none` is a
-- loop that leaves the 32 bits of a map.
pub mod Bits
pub mod Laws
use ftape.Prelude.{
  ℕ, zero, suc, ◌+◌, ◌-◌, ◌^◌, bit_and, ltb, leb, ◌==◌, if◌then◌else◌, not, ◌||◌, Option, none,
  some,
}
use ftape.Isr.Progress.{Buffer, sectors}

-- The loop up to the first bit that is set, from bit i on.
unfoldable pub first_bit : (rounds : ℕ) → (i : ℕ) → (map : ℕ) → Option ℕ
first_bit zero i map = none
first_bit (suc rounds) i map =
    let rest = first_bit rounds (i + 1) map in if bit_and map (2 ^ i) == 0 then rest else some i

-- The loop down to the last bit that is set, from bit i on.
unfoldable pub last_bit : (i : ℕ) → (map : ℕ) → Option ℕ
last_bit zero map = if bit_and map (2 ^ 0) == 0 then none else some 0
last_bit (suc i) map =
    let rest = last_bit i map in if bit_and map (2 ^ suc i) == 0 then rest else some (suc i)

-- The bits in front of an offset.
unfoldable pub mask_of : (offset : ℕ) → ℕ
mask_of offset = if leb 32 offset then 0xffff_ffff else 2 ^ offset - 1

unfoldable pub behind_bit : Option ℕ → Option ℕ
behind_bit none = none
behind_bit (some i) = some (i + 1)

unfoldable pub resume_in : (offset soft hard : ℕ) → Option ℕ
unfolding first_bit last_bit behind_bit
resume_in offset soft hard =
    if not (soft == 0)
    then first_bit sectors 0 soft
    else if not (hard == 0)
    then behind_bit (last_bit (offset - 1) hard)
    else some (offset - 1)

unfoldable pub find_resume_point : Buffer → Option ℕ
unfolding mask_of resume_in
find_resume_point b =
    if ltb b.sector_offset 1 || ltb 32 b.sector_offset
    then some 0
    else resume_in b.sector_offset (bit_and b.soft_error_map (mask_of b.sector_offset))
        (bit_and b.hard_error_map (mask_of b.sector_offset))
