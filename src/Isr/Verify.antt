-- ===== src/Isr/Verify.antt =====
-- How many sectors were transferred, and what that means for a segment that is verified:
-- `get_fdc_transfer_size`, `get_ez_transfer_size`, `get_transfer_size` and
-- `determine_verify_progress` of ftape/lowlevel/fdc-isr.c. The result bytes 3 and 5 of the
-- controller, `c` and `r`, and the residue that `terminate_dma` returns are arguments.
pub mod Laws
use ftape.Prelude.{
  ℕ, ◌+◌, ◌-◌, ◌*◌, ◌/◌, ◌^◌, ltb, ◌==◌, if◌then◌else◌, Bool, true, false, not, ◌&&◌,
}
use ftape.Prelude.Int.{ℤ, pos, ltb_ℤ, ◌-ℤ◌}
use ftape.Prelude.Words.{add_word, sub_word, minus_one}
use ftape.Isr.Cause.{
  ErrorCause, no_error, id_am_error, id_crc_error, data_am_error, data_crc_error, no_data_error,
  overrun_error,
}
use ftape.Isr.Progress.{Buffer, sectors, sector_size, is_error, update_error_maps}

unfoldable pub get_fdc_transfer_size : Buffer → (c r : ℕ) → ℕ
get_fdc_transfer_size b c r =
    if not (c == b.cyl) && r == 1
    then b.sector_count
    else sub_word (sub_word r b.sect) b.sector_offset

unfoldable pub get_ez_transfer_size : Buffer → (c r : ℕ) → ℕ
get_ez_transfer_size b c r =
    let cyl_dist = if ltb c b.cyl then c + 255 - b.cyl else c - b.cyl in
    sub_word (sub_word (cyl_dist * 128 + r) b.sect) b.sector_offset

-- -EAGAIN
abbrev pub eagain : ℕ
eagain = 2 ^ 32 - 11

-- The size of the transfer as the controller has it.
unfoldable pub fdc_count : (ditto_ez : Bool) → Buffer → (c r : ℕ) → ℕ
unfolding get_fdc_transfer_size get_ez_transfer_size
fdc_count ditto_ez b c r =
    if ditto_ez then get_ez_transfer_size b c r else get_fdc_transfer_size b c r

-- The bytes that were not transferred as sectors.
abbrev pub residual_sectors : ℕ → ℕ
residual_sectors dma_residue = add_word dma_residue (sector_size - 1) / sector_size

-- `get_transfer_size` for a count of the controller; a residue of -1 is not known.
unfoldable pub check_transfer_size : Buffer → ErrorCause → (count dma_residue : ℕ) → ℕ × Buffer
unfolding is_error
check_transfer_size b cause count dma_residue =
    if dma_residue == minus_one
    then (count, b)
    else if ltb b.sector_count (add_word count (residual_sectors dma_residue))
    then (eagain, record b { sector_count = 0 })
    else if count == b.sector_count && is_error cause
    then (eagain, record b { sector_count = 0 })
    else (count, b)

unfoldable pub get_transfer_size :
    (ditto_ez : Bool) → Buffer → ErrorCause → (c r dma_residue : ℕ) → ℕ × Buffer
unfolding check_transfer_size fdc_count
get_transfer_size ditto_ez b cause c r dma_residue =
    check_transfer_size b cause (fdc_count ditto_ez b c r) dma_residue

-- The `switch` on the cause: an overrun is not counted, any other error is not retried.
unfoldable pub note_verify_cause : (soft_retries : ℤ) → ErrorCause → Buffer → Buffer
note_verify_cause soft_retries overrun_error b =
    if ltb_ℤ (pos 0) b.retry then record b { retry = b.retry -ℤ pos 1; short_start = false } else b
note_verify_cause soft_retries no_error b = record b { short_start = true; retry = soft_retries }
note_verify_cause soft_retries id_am_error b = record b { short_start = true; retry = soft_retries }
note_verify_cause soft_retries id_crc_error b = record b {
  short_start = true;
  retry = soft_retries;
}
note_verify_cause soft_retries data_am_error b = record b {
  short_start = true;
  retry = soft_retries;
}
note_verify_cause soft_retries data_crc_error b = record b {
  short_start = true;
  retry = soft_retries;
}
note_verify_cause soft_retries no_data_error b = record b {
  short_start = true;
  retry = soft_retries;
}

-- One sector further.
unfoldable pub step_over : Buffer → Buffer
step_over b = record b {
  sector_offset = add_word b.sector_offset 1;
  remaining = sub_word b.remaining 1;
}

module _ (soft_retries : ℤ) where
  -- The sectors up to the failing one are verified; it is noted and one more is stepped over.
  unfoldable pub after_verify_error : Buffer → ErrorCause → (count : ℕ) → Buffer
  unfolding note_verify_cause step_over update_error_maps
  after_verify_error b cause count =
      let offset = add_word b.sector_offset count in
      let failed = step_over (
        note_verify_cause soft_retries cause (record b {
          sector_count = count;
          sector_offset = offset;
          remaining = sub_word sectors offset;
        })) in
      let noted = update_error_maps soft_retries failed (sub_word failed.sector_offset 1) in
      if ltb 0 noted.remaining then step_over noted else noted

  unfoldable pub determine_verify_progress : Buffer → ErrorCause → (transfer : ℕ × Buffer) → Buffer
  unfolding is_error after_verify_error
  determine_verify_progress b0 cause (size, b) =
      let count = if size == eagain then 0 else size in
      if not (is_error cause) && count == b.sector_count
      then record b { sector_offset = sectors; remaining = 0 }
      else after_verify_error b cause count
