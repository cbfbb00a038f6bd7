-- ===== src/Rw/Recover.antt =====
-- `ftape_hard_error_recovery` of ftape/lowlevel/ftape-write.c: after a hard write error the sector
-- is mapped as bad, and the data in the buffers are shifted by a sector.
--
-- A buffer has the data that the controller's `read_buffer` gives. Its `copy_and_gen_ecc` takes as
-- many of the bytes it gets as the map leaves room for, and sets up the error correction.
pub mod Laws
mod Tests
use ftape.Prelude.{
  ℕ, ◌+◌, ◌-◌, ◌*◌, bit_or, ◌==◌, if◌then◌else◌, Bool, false, not, ◌||◌, List, [], ◌∷◌, ◌++◌, take,
  drop, Option, none, some,
}
use ftape.Prelude.Int.{ℤ, negsuc}
use ftape.Bsm.Entry.{count_ones}

-- FT_SECTOR_SIZE, FT_SEGMENT_SIZE
abbrev pub sector_size : ℕ
sector_size = 1024

abbrev pub segment_bytes : ℕ
segment_bytes = 29 * 1024

pub record SegmentBuffer : Type 0 where
  pub segment_id : ℕ
  pub contents : List ℕ

-- The buffer at the head and whether its status is `error`, those behind it that wait, and the bad
-- sector map.
pub record Ring : Type 0 where
  pub head : SegmentBuffer
  pub failed : Bool
  pub hard_error_map : ℕ
  pub waiting : List SegmentBuffer
  pub bad : ℕ → ℕ
  pub defects : ℕ
  pub old_segment_id : ℤ

-- The bytes of data in a segment with a map; 0 where the source's number is not positive.
unfoldable pub size_of : (map : ℕ) → ℕ
size_of map = segment_bytes - count_ones map * sector_size

-- `ftape_put_bad_sector_entry`
unfoldable pub put_bad : (ℕ → ℕ) → (segment_id map : ℕ) → ℕ → ℕ
put_bad bad segment_id map i = if i == segment_id then map else bad i

-- The loop over the buffers that wait, with the sector left over so far.
unfoldable pub shift_data :
    (ℕ → ℕ) → List SegmentBuffer → (scratch : List ℕ) → List SegmentBuffer × List ℕ
unfolding size_of
shift_data bad [] scratch = ([], scratch)
shift_data bad (p ∷ ps) scratch =
    let size = size_of (bad p.segment_id) in
    let moved = scratch ++ take size p.contents in
    let kept = shift_data bad ps scratch in
    let rest = shift_data bad ps (take sector_size (drop size moved)) in
    if size == 0
    then (p ∷ kept.0, kept.1)
    else (record p { contents = take size moved } ∷ rest.0, rest.1)

-- What is left over, or `none` for -EIO with nothing changed.
unfoldable pub hard_error_recovery : (has_read_buffer : Bool) → Ring → Option (Ring × List ℕ)
unfolding size_of put_bad shift_data
hard_error_recovery has_read_buffer r =
    let old = r.bad r.head.segment_id in
    let map = bit_or old r.hard_error_map in
    let bad = put_bad r.bad r.head.segment_id map in
    let scratch = take sector_size (drop (size_of old - sector_size) r.head.contents) in
    let shifted = shift_data bad r.waiting scratch in
    if not has_read_buffer || not (count_ones r.hard_error_map == 1)
    then none
    else some (
      record r {
        head = record r.head { contents = take (size_of map) r.head.contents };
        waiting = shifted.0;
        bad = bad;
        failed = false;
        defects = r.defects + 1;
        old_segment_id = negsuc 0;
      },
      shifted.1,
    )
