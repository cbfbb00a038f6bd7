-- ===== src/Zft/Position/Tests.antt =====
-- Runs of ftape/zftape/zftape-rw.c on a short tape, and the theorems at concrete inputs.
use ftape.Prelude.{ℕ, ◌+◌, ◌≤◌, ◌<◌, min, ◌==◌, if◌then◌else◌, ◌≡◌, ◌⊎◌, refl, false, arith}
use ftape.Bsm.Entry.{count_ones}
use ftape.Zft.Position.{
  Tape, get_seg_data_sz, get_seg_sz, first_segment, calc_seg_byte_coord, calc_tape_pos,
}
use ftape.Zft.Position.Laws.{start_of, IsValid, calc_tape_pos_lem}
use ftape.Zft.Position.Coord.{calc_seg_byte_coord-start_of, start_of-calc_seg_byte_coord}

-- Segment 4 is empty, segment 5 has two bad sectors.
abbrev pub bad : ℕ → ℕ
bad s = if s == 4 then 0xffff_ffff else if s == 5 then 0b1001 else 0

-- Segments 3 to 6 hold data; the cached position is at segment 5.
abbrev pub tape : Tape
tape = record {
  raw_image = false;
  first_data_segment = 3;
  last_data_segment = 6;
  seg_pos = 5;
  tape_pos = 29696;
  capacity = 29696 + 27648 + 29696;
}

pub tape-IsValid : IsValid bad tape
unfolding get_seg_sz get_seg_data_sz first_segment count_ones
tape-IsValid = record {
  in_range = omega arith;
  not_past = omega arith;
  data_fits = omega arith;
  cached = refl;
  full = refl;
}

coord_runs : calc_seg_byte_coord bad tape 30000 ≡ (5, 304)
unfolding calc_seg_byte_coord get_seg_sz get_seg_data_sz count_ones
coord_runs = refl

calc_tape_pos_lem_example :
    let (t', p) = calc_tape_pos bad tape 6 in IsValid bad t' × (p ≡ start_of bad tape (min 6 7))
calc_tape_pos_lem_example = calc_tape_pos_lem bad tape 6 tape-IsValid

calc_seg_byte_coord-start_of_example :
    calc_seg_byte_coord bad tape (start_of bad tape 5 + 304) ≡ (5, 304)
unfolding first_segment get_seg_sz get_seg_data_sz count_ones
calc_seg_byte_coord-start_of_example =
    calc_seg_byte_coord-start_of bad tape 5 304 (omega arith) (omega arith) (omega arith)
      (omega arith)

start_of-calc_seg_byte_coord_example :
    let (s, off) = calc_seg_byte_coord bad tape 30000 in
    (start_of bad tape s + off ≡ 30000)
    × (first_segment tape ≤ s)
    × (s ≤ 7)
    × ((off ≡ 0) ⊎ (off < get_seg_sz bad tape s))
unfolding first_segment get_seg_sz get_seg_data_sz count_ones
start_of-calc_seg_byte_coord_example =
    start_of-calc_seg_byte_coord bad tape 30000 (omega arith) (omega arith)
