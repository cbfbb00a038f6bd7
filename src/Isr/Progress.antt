-- ===== src/Isr/Progress.antt =====
-- What an interrupt does to the buffer it worked on: `skip_bad_sector`, `update_error_maps` and
-- `determine_progress` of ftape/lowlevel/fdc-isr.c. `unsigned int` wraps at 2 ^ 32. The shift of
-- the map by 32, which C leaves undefined, clears it here. `ft_soft_retries` is a parameter.
pub mod Laws
use ftape.Prelude.{
  ℕ, ◌+◌, ◌-◌, ◌*◌, ◌/◌, ◌%◌, ◌^◌, bit_and, bit_or, ◌==◌, ltb, leb, if◌then◌else◌, Bool, true,
  false, not, ◌&&◌, ◌||◌,
}
use ftape.Prelude.Int.{ℤ, pos, negsuc, ltb_ℤ, ◌-ℤ◌}
use ftape.Prelude.Words.{add_word, sub_word}
use ftape.Isr.Cause.{
  ErrorCause, no_error, id_am_error, id_crc_error, data_am_error, data_crc_error, no_data_error,
  overrun_error,
}

-- The fields of `buffer_struct` that the interrupt moves.
pub record Buffer : Type 0 where
  pub sector_offset : ℕ
  pub sector_count : ℕ
  pub data_offset : ℕ
  pub remaining : ℕ
  pub ptr : ℕ
  pub bad_sector_map : ℕ
  pub soft_error_map : ℕ
  pub hard_error_map : ℕ
  pub retry : ℤ
  pub short_start : Bool
  pub cyl : ℕ
  pub sect : ℕ

-- FT_SECTOR_SIZE, FT_SECTORS_PER_SEGMENT
abbrev pub sector_size : ℕ
sector_size = 1024

abbrev pub sectors : ℕ
sectors = 32

unfoldable pub skip_bad_sector : Buffer → Buffer
skip_bad_sector b =
    if ltb 0 b.remaining
    then record b {
      sector_offset = add_word b.sector_offset 1;
      data_offset = add_word b.data_offset 1;
      remaining = b.remaining - 1;
      ptr = b.ptr + sector_size;
      bad_sector_map = b.bad_sector_map / 2;
    }
    else record b { sector_offset = add_word b.sector_offset 1 }

-- The complement of a map of 32 bits.
abbrev pub complement : ℕ → ℕ
complement map = 2 ^ 32 - 1 - map

unfoldable pub is_error : ErrorCause → Bool
is_error no_error = false
is_error id_am_error = true
is_error id_crc_error = true
is_error data_am_error = true
is_error data_crc_error = true
is_error no_data_error = true
is_error overrun_error = true

-- The `switch` on the cause: an overrun is not counted as a retry.
unfoldable pub note_cause : ErrorCause → Buffer → Buffer
note_cause overrun_error b =
    if ltb_ℤ (pos 0) b.retry then record b { retry = b.retry -ℤ pos 1; short_start = false } else b
note_cause no_error b = record b { short_start = true }
note_cause id_am_error b = record b { short_start = true }
note_cause id_crc_error b = record b { short_start = true }
note_cause data_am_error b = record b { short_start = true }
note_cause data_crc_error b = record b { short_start = true }
note_cause no_data_error b = record b { short_start = true }

-- `sector_count` after the comparison with the sectors that were transferred.
unfoldable pub counted : ErrorCause → Buffer → ℕ → ℕ
counted cause b transferred =
    if is_error cause && b.sector_count == transferred then sub_word transferred 1 else transferred

-- The update for the sectors that were transferred.
unfoldable pub advance : Buffer → Buffer
advance b =
    if ltb 0 b.sector_count
    then record b {
      sector_offset = add_word b.sector_offset b.sector_count;
      data_offset = add_word b.data_offset b.sector_count;
      ptr = b.ptr + b.sector_count * sector_size;
      remaining = sub_word b.remaining b.sector_count;
      bad_sector_map = b.bad_sector_map / 2 ^ b.sector_count;
    }
    else b

module _ (soft_retries : ℤ) where
  unfoldable pub update_error_maps : Buffer → (error_offset : ℕ) → Buffer
  update_error_maps b error_offset =
      let bit = 2 ^ error_offset in
      let hard = bit_or b.hard_error_map bit in
      if leb sectors error_offset
      then b
      else if ltb_ℤ b.retry soft_retries
      then record b { soft_error_map = bit_or b.soft_error_map bit }
      else record b {
        hard_error_map = hard;
        soft_error_map = bit_and b.soft_error_map (complement hard);
        retry = negsuc 0;
      }

  unfoldable pub after_error : ErrorCause → Buffer → Buffer
  unfolding note_cause skip_bad_sector update_error_maps
  after_error cause b =
      let skipped = skip_bad_sector (note_cause cause b) in
      update_error_maps skipped (sub_word skipped.sector_offset 1)

  unfoldable pub determine_progress : Buffer → ErrorCause → (transferred : ℕ) → Buffer
  unfolding is_error counted advance after_error
  determine_progress b cause transferred =
      let moved = advance (record b { sector_count = counted cause b transferred }) in
      if is_error cause then after_error cause moved else moved
