-- ===== src/Zft/Position.antt =====
-- The position bookkeeping of ftape/zftape/zftape-rw.c: segment sizes, `zft_calc_seg_byte_coord`,
-- `zft_get_capacity` and `zft_calc_tape_pos`. The bad sector map of each segment, which
-- `ftape_get_bad_sector_entry` returns, is an argument.
pub mod Capacity
pub mod Laws
pub mod Coord
pub mod Kept
pub mod Tests
use ftape.Prelude.{ℕ, zero, suc, ◌+◌, ◌-◌, ◌*◌, ltb, leb, ◌==◌, if◌then◌else◌, Bool, ◌&&◌}
use ftape.Prelude.Int.{ℤ, pos, negsuc, sub_ℕ, ◌+ℤ◌, ◌-ℤ◌, ltb_ℤ, pos_part, neg_part}
use ftape.Bsm.Entry.{count_ones}

-- FT_SECTOR_SIZE, FT_SEGMENT_SIZE, FT_ECC_SECTORS
abbrev pub sector_size : ℕ
sector_size = 1024

abbrev pub segment_size : ℕ
segment_size = 29 * 1024

abbrev pub ecc_sectors : ℕ
ecc_sectors = 3

-- The fields of `zftape_info_t` and `ftape_info_t` that these functions use.
pub record Tape : Type 0 where
  pub raw_image : Bool
  pub first_data_segment : ℕ
  pub last_data_segment : ℕ
  pub seg_pos : ℕ
  pub tape_pos : ℕ
  pub capacity : ℕ

unfoldable pub first_segment : Tape → ℕ
first_segment t = if t.raw_image then 0 else t.first_data_segment

-- The cached position restarts from the beginning of the tape, or from its end, if that is nearer.
unfoldable pub restart_low : Tape → ℕ → Tape
unfolding first_segment
restart_low t segment =
    let back = pos t.seg_pos -ℤ pos segment in
    let d1 = pos segment -ℤ pos (first_segment t) in
    if ltb_ℤ (pos 10) back && ltb_ℤ d1 back
    then record t { tape_pos = 0; seg_pos = first_segment t }
    else t

unfoldable pub restart_high : Tape → ℕ → Tape
restart_high t segment =
    let d2 = pos segment -ℤ pos t.seg_pos in
    let d3 = pos t.last_data_segment -ℤ pos segment in
    if ltb_ℤ (pos 10) d2 && ltb_ℤ d3 d2
    then record t { tape_pos = t.capacity; seg_pos = t.last_data_segment + 1 }
    else t

module _ (bad : ℕ → ℕ) where
  -- `-` stops at 0 where the source tests `size > 0`.
  unfoldable pub get_seg_data_sz : ℕ → ℕ
  get_seg_data_sz segment = segment_size - count_ones (bad segment) * sector_size

  unfoldable pub get_seg_sz : Tape → ℕ → ℕ
  get_seg_sz t segment =
      let size = get_seg_data_sz segment in
      if ltb 0 size && t.raw_image then size + ecc_sectors * sector_size else size

  -- The `for` loop of `zft_calc_seg_byte_coord` with at most `n` segments left: the segment, what
  -- is left of the position and the size of the last segment taken off it.
  unfoldable pub coord_loop : Tape → ℕ → ℕ → ℤ → ℕ → ℕ × ℤ × ℕ
  coord_loop t zero segment tape_pos seg_sz = (segment, tape_pos, seg_sz)
  coord_loop t (suc n) segment tape_pos seg_sz =
      let sz = get_seg_sz t segment in
      let rest = coord_loop t n (suc segment) (tape_pos -ℤ pos sz) sz in
      if ltb_ℤ (pos 0) tape_pos then rest else (segment, tape_pos, seg_sz)

  -- The segment, and `*seg_byte_pos`.
  unfoldable pub calc_seg_byte_coord : Tape → ℕ → ℕ × ℕ
  unfolding coord_loop first_segment
  calc_seg_byte_coord t tape_pos =
      let first = first_segment t in
      let (segment, left, seg_sz) =
        coord_loop t (t.last_data_segment + 1 - first) first (pos tape_pos) 0 in
      if tape_pos == 0
      then (first, 0)
      else if ltb_ℤ left (pos 0)
      then (segment - 1, pos_part (left +ℤ pos seg_sz))
      else (segment, 0)

  -- The loops that move the cached position `n` segments up or down.
  unfoldable pub move_up : ℕ → Tape → Tape
  move_up zero t = t
  move_up (suc n) t =
      move_up n
        (record t { seg_pos = t.seg_pos + 1; tape_pos = t.tape_pos + get_seg_sz t t.seg_pos })

  unfoldable pub move_down : ℕ → Tape → Tape
  move_down zero t = t
  move_down (suc n) t =
      move_down n
        (record t { seg_pos = t.seg_pos - 1; tape_pos = t.tape_pos - get_seg_sz t (t.seg_pos - 1) })

  -- `zft_get_capacity` leaves the cached position at the end of the tape and returns it.
  unfoldable pub get_capacity : Tape → Tape
  unfolding move_up first_segment
  get_capacity t =
      move_up (t.last_data_segment + 1 - first_segment t)
        (record t { seg_pos = first_segment t; tape_pos = 0 })

  -- The new state and the position of the segment.
  unfoldable pub calc_tape_pos : Tape → ℕ → Tape × ℕ
  unfolding restart_low restart_high move_up move_down first_segment
  calc_tape_pos t segment =
      let t' = restart_high (restart_low t segment) segment in
      let moved =
        if ltb t'.seg_pos segment
        then move_up (segment - t'.seg_pos) t'
        else move_down (t'.seg_pos - segment) t' in
      if ltb t.last_data_segment segment
      then (t, t.capacity)
      else if ltb segment (first_segment t)
      then (t, 0)
      else (moved, moved.tape_pos)
