-- ===== src/Rw/Setup.antt =====
-- `setup_segment` and `ftape_setup_new_segment` of ftape/lowlevel/ftape-rw.c: a buffer is set up
-- for a segment, or for the rest of it on a retry. The bad sector map is a parameter, as is the
-- parameter `ft_ignore_ecc_err` of the module. The flag `setup_error` of the controller, which
-- every setup clears, is left out.
pub mod Laws
pub mod Retry
use ftape.Prelude.{
  ℕ, zero, suc, ◌+◌, ◌-◌, ◌*◌, ◌/◌, ◌%◌, ◌^◌, bit_and, ◌==◌, ltb, if◌then◌else◌, Bool, true, false,
  not, ◌&&◌, Option, none, some,
}
use ftape.Prelude.Int.{ℤ, pos, ◌+ℤ◌}
use ftape.Bsm.Entry.{count_ones, empty_segment}
use ftape.Rw.Location.{Geometry, SectorId, segment_start}

-- The fields of `buffer_struct` that the setup writes; `ptr` counts from `dma_address`.
pub record Buffer : Type 0 where
  pub segment_id : ℕ
  pub sector_offset : ℕ
  pub remaining : ℕ
  pub start : SectorId
  pub deleted : ℕ
  pub data_offset : ℕ
  pub ptr : ℕ
  pub soft_error_map : ℕ
  pub hard_error_map : ℕ
  pub bad_sector_map : ℕ
  pub next_segment : ℕ
  pub retry : ℤ
  pub skip : ℕ
  pub short_start : Bool

-- FT_SECTOR_SIZE, FT_SECTORS_PER_SEGMENT, FAKE_SEGMENT
abbrev pub sector_size : ℕ
sector_size = 1024

abbrev pub sectors : ℕ
sectors = 32

abbrev pub fake_segment : ℕ
fake_segment = 0xffff_fffe

-- The loop that takes a bit off `offset_mask` for every bit of `mask`, which has 32.
unfoldable pub drop_bad : (n mask offset_mask : ℕ) → ℕ
drop_bad zero mask offset_mask = offset_mask
drop_bad (suc n) mask offset_mask =
    drop_bad n (mask / 2) (if bit_and mask 1 == 0 then offset_mask else offset_mask / 2)

module _ (bad : ℕ → ℕ) (g : Geometry) where
  unfoldable pub setup_segment : Buffer → (segment_id offset count : ℕ) → (retry : Bool) → Buffer
  unfolding drop_bad
  setup_segment b segment_id offset count retry =
      let first_mask = 2 ^ offset - 1 in
      let offset_mask = drop_bad 32 (bit_and (bad segment_id) first_mask) first_mask in
      let map = bad segment_id / 2 ^ offset in
      record b {
        segment_id = segment_id;
        sector_offset = offset;
        remaining = count;
        start = segment_start g segment_id;
        deleted = 0;
        data_offset = count_ones offset_mask;
        ptr = count_ones offset_mask * sector_size;
        soft_error_map = if retry then bit_and b.soft_error_map offset_mask else 0;
        hard_error_map = if retry then b.hard_error_map else 0;
        bad_sector_map = if map == empty_segment then fake_segment else map;
        next_segment = segment_id + 1;
      }

-- What the setup keeps outside the buffer. `none` is the `old_segment_id` of -1.
pub record Driver : Type 0 where
  pub state : ℕ
  pub old_state : ℕ
  pub old_segment_id : Option ℕ
  pub retries : ℕ
  pub last_segment_skipped : Option ℕ

unfoldable pub same_segment : Option ℕ → ℕ → Bool
same_segment none id = false
same_segment (some old) id = old == id

-- A change of the driver's state forgets the segment.
unfoldable pub follow_state : Driver → Driver
follow_state d =
    if d.state == d.old_state then d else record d { old_segment_id = none; old_state = d.state }

-- Whether a retry jumps to the last sector of its segment.
unfoldable pub force_skip : (ignore_ecc_err : Bool) → Driver → ℕ → ℕ → Bool
force_skip ignore_ecc_err d segment_id skip =
    ignore_ecc_err
    && ltb 1 skip
    && ltb skip (sectors - 1)
    && not (same_segment d.last_segment_skipped segment_id)

module _ (bad : ℕ → ℕ) (g : Geometry) (ignore_ecc_err : Bool) where
  unfoldable pub setup_new_segment :
      Driver → Buffer → (segment_id : ℕ) → (skip : Bool) → Driver × Buffer
  unfolding same_segment follow_state force_skip setup_segment
  setup_new_segment d0 b segment_id skip =
      let d = follow_state d0 in
      let skips = skip && ltb 0 b.skip in
      let forced = skips && force_skip ignore_ecc_err d segment_id b.skip in
      let skip' = if forced then sectors - 1 else b.skip in
      let offset = if skips then skip' else 0 in
      let retried = record b {
        retry = b.retry +ℤ pos 1;
        skip = skip';
        short_start = b.short_start && ltb 0 skip';
      } in
      if same_segment d.old_segment_id segment_id
      then (
        record d {
          retries = d.retries + 1;
          last_segment_skipped = if forced then some segment_id else d.last_segment_skipped;
        },
        setup_segment bad g retried segment_id offset (sectors - offset) true,
      )
      else (
        record d { old_segment_id = some segment_id },
        setup_segment bad g (record b { short_start = false; retry = pos 0; skip = 0 }) segment_id 0
            sectors false,
      )
