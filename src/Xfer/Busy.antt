-- ===== src/Xfer/Busy.antt =====
-- The result phase of a command: `handle_fdc_busy` of ftape/lowlevel/fdc-isr.c, a function for
-- each kind of command. `result` are the bytes of the result phase.
pub mod Local
pub mod Reading
use ftape.Prelude.{
  ℕ, ◌+◌, ◌^◌, bit_and, bit_or, leb, ltb, ◌==◌, if◌then◌else◌, Bool, true, false, not, ◌&&◌, ◌||◌,
  List, get_or, Option, none, some,
}
use ftape.Prelude.Int.{ℤ}
use ftape.Prelude.Words.{add_word, sub_word}
use ftape.Bsm.Entry.{empty_segment, fake_segment}
use ftape.Buf.Ring.{BufferState, verifying}
use ftape.Isr.Cause.{
  ErrorCause, no_error, id_am_error, id_crc_error, data_am_error, data_crc_error, no_data_error,
  overrun_error, decode_irq_cause, update_history,
}
use ftape.Isr.Progress.{sectors, is_error, determine_progress}
use ftape.Isr.Resume.{find_resume_point}
use ftape.Isr.Verify.{get_transfer_size, determine_verify_progress, eagain}
use ftape.Fdc.Wait.{
  Chip, FdcMode, fdc_idle, fdc_reading_data, fdc_seeking, fdc_writing_data, fdc_deleting,
  fdc_reading_id, fdc_recalibrating, fdc_formatting, fdc_verifying, other_command, fails,
}
use ftape.Fdc.Command.{fdc_result}
use ftape.Xfer.State.{
  FdcInfo, Config, RunnerStatus, idle, running, do_abort, aborting, logical_eot, end_of_tape,
  head_of, set_head, write, state_number, progress, with_progress,
}
use ftape.Xfer.Continue.{continue_xfer, retry_sector}
use ftape.Xfer.Head.{
  resume_point, is_no_data, is_overrun, is_data_crc, count_error, byte, transfer_size,
  head_progress, head_verify_progress, skip_at, retry_or_continue, has_deleted, mark_deleted,
}
use ftape.Xfer.Format.{terminate_dma, determine_fmt_progress, continue_formatting}

abbrev pub is_aborting : RunnerStatus → Bool
is_aborting aborting = true
is_aborting do_abort = true
is_aborting idle = false
is_aborting running = false
is_aborting logical_eot = false
is_aborting end_of_tape = false

-- A read of a driver that verifies is a verification.
unfoldable pub mode_in : (driver_state : BufferState) → FdcMode → FdcMode
unfolding state_number
mode_in s fdc_reading_data =
    if state_number s == state_number verifying then fdc_verifying else fdc_reading_data
mode_in s fdc_verifying = fdc_verifying
mode_in s fdc_reading_id = fdc_reading_id
mode_in s fdc_deleting = fdc_deleting
mode_in s fdc_writing_data = fdc_writing_data
mode_in s fdc_formatting = fdc_formatting
mode_in s fdc_idle = fdc_idle
mode_in s fdc_seeking = fdc_seeking
mode_in s fdc_recalibrating = fdc_recalibrating
mode_in s (other_command byte) = other_command byte

abbrev pub is_do_abort : RunnerStatus → Bool
is_do_abort do_abort = true
is_do_abort aborting = false
is_do_abort idle = false
is_do_abort running = false
is_do_abort logical_eot = false
is_do_abort end_of_tape = false

-- The runner that is to abort is aborting now; an interrupt is expected.
unfoldable pub note_abort : FdcInfo → FdcInfo
note_abort fdc =
    if is_do_abort fdc.runner_status
    then record fdc {
      runner_status = aborting;
      expected_stray_interrupts = fdc.expected_stray_interrupts + 1;
    }
    else fdc

module _ (cfg : Config) (result : List ℕ) where
  -- Whether a missing sector is retried, which it is the second time in a row, and the count.
  unfoldable pub verify_retry : ErrorCause → (no_data_error_count : ℕ) → Bool × ℕ
  unfolding is_no_data is_overrun
  verify_retry cause count =
      if is_no_data cause
      then if leb 2 (count + 1) then (true, 0) else (false, count + 1)
      else (is_overrun cause, 0)

  unfoldable pub verify_failed : ErrorCause → FdcInfo → FdcInfo
  unfolding head_verify_progress write verify_retry retry_or_continue update_history
  verify_failed cause fdc =
      let (retry, count) = verify_retry cause fdc.no_data_error_count in
      count_error cause (
        retry_or_continue cfg retry
          (record (head_verify_progress cfg result cause fdc) { no_data_error_count = count }))

  unfoldable pub verify_passed : ErrorCause → FdcInfo → FdcInfo
  unfolding head_verify_progress write continue_xfer
  verify_passed cause fdc =
      let checked =
        head_verify_progress cfg result cause (record fdc { no_data_error_count = 0 }) in
      let ended =
        set_head checked
          (record (head_of checked) { remaining = 0; hard_error_map = empty_segment }) in
      if has_deleted cfg result
      then continue_xfer cfg checked.chip.mode 1 ended
      else continue_xfer cfg checked.chip.mode 0 checked

  unfoldable pub verified : ErrorCause → FdcInfo → FdcInfo
  unfolding is_error verify_failed verify_passed
  verified cause fdc = if is_error cause then verify_failed cause fdc else verify_passed cause fdc

  -- A read that met deleted data ends its segment, and reads the next one.
  unfoldable pub read_deleted : FdcInfo → FdcInfo
  unfolding mark_deleted continue_xfer
  read_deleted fdc =
      continue_xfer cfg fdc.chip.mode (sub_word sectors (head_of fdc).sector_offset)
        (mark_deleted fdc)

  -- A read with its size.
  unfoldable pub read_sized : ErrorCause → (transferred : ℕ) → FdcInfo → FdcInfo
  unfolding is_error head_progress retry_or_continue read_deleted continue_xfer update_history
  read_sized cause transferred fdc =
      let b = head_of fdc in
      if is_error cause
      then count_error cause (
          retry_or_continue cfg (not (b.soft_error_map == 0) || not (b.hard_error_map == 0))
            (head_progress cfg cause transferred fdc))
      else if has_deleted cfg result
      then read_deleted fdc
      else continue_xfer cfg fdc.chip.mode 0 (head_progress cfg cause transferred fdc)

  -- A write with its size.
  unfoldable pub written_sized : ErrorCause → (transferred : ℕ) → FdcInfo → FdcInfo
  unfolding is_error is_data_crc head_progress find_resume_point resume_point retry_sector
      continue_xfer update_history
  written_sized cause transferred fdc =
      let moved = head_progress cfg cause transferred fdc in
      if is_data_crc cause
      then record moved { chip = record moved.chip { mode = fdc_idle } }
      else if is_error cause
      then count_error cause (
          retry_sector moved.chip.mode (resume_point (find_resume_point (progress (head_of moved))))
            moved)
      else continue_xfer cfg moved.chip.mode 0 moved

  -- What a read and a write have in common: the empty segment and the mismatch of the sizes.
  unfoldable pub transferred_by :
      (sized : ErrorCause → ℕ → FdcInfo → FdcInfo) → ErrorCause → FdcInfo → FdcInfo
  unfolding transfer_size write continue_xfer retry_sector
  transferred_by sized cause fdc =
      let (transferred, ended) = transfer_size cfg result cause fdc in
      let b = head_of ended in
      if b.bad_sector_map == fake_segment
      then continue_xfer cfg ended.chip.mode 1 (set_head ended (record b { remaining = 0 }))
      else if transferred == eagain
      then retry_sector ended.chip.mode 0 ended
      else sized cause transferred ended

  unfoldable pub formatted : ErrorCause → FdcInfo → FdcInfo
  unfolding is_error determine_fmt_progress continue_formatting update_history
  formatted cause fdc =
      let (goes_on, moved) = determine_fmt_progress cfg cause fdc in
      if is_error cause
      then count_error cause moved
      else if goes_on
      then continue_formatting cfg moved
      else moved

  unfoldable pub id_read : ErrorCause → FdcInfo → FdcInfo
  unfolding is_error
  id_read cause fdc = record fdc {
    id =
        if is_error cause
        then record { cyl = 0; head = 0; sect = 0 }
        else record { cyl = byte cfg result 3; head = byte cfg result 4; sect = byte cfg result 5 };
    chip = record fdc.chip { mode = fdc_idle };
  }

  -- Nothing is done for a runner that aborts.
  abbrev pub unless_aborting : FdcInfo → FdcInfo → FdcInfo
  unless_aborting fdc handled = if is_aborting fdc.runner_status then fdc else handled

  -- The `switch` on the mode.
  unfoldable pub handle_mode : FdcMode → ErrorCause → FdcInfo → FdcInfo
  unfolding verified transferred_by read_sized written_sized formatted id_read
  handle_mode fdc_verifying cause fdc = unless_aborting fdc (verified cause fdc)
  handle_mode fdc_reading_data cause fdc = unless_aborting fdc (transferred_by read_sized cause fdc)
  handle_mode fdc_reading_id cause fdc = id_read cause fdc
  handle_mode fdc_deleting cause fdc = unless_aborting fdc (transferred_by written_sized cause fdc)
  handle_mode fdc_writing_data cause fdc =
      unless_aborting fdc (transferred_by written_sized cause fdc)
  handle_mode fdc_formatting cause fdc = formatted cause fdc
  handle_mode fdc_idle cause fdc = record fdc { chip = record fdc.chip { mode = fdc_idle } }
  handle_mode fdc_seeking cause fdc = record fdc { chip = record fdc.chip { mode = fdc_idle } }
  handle_mode fdc_recalibrating cause fdc = record fdc {
    chip = record fdc.chip { mode = fdc_idle };
  }
  handle_mode (other_command byte) cause fdc = record fdc {
    chip = record fdc.chip { mode = fdc_idle };
  }

  -- The handler behind the result phase.
  unfoldable pub handle_result : FdcInfo → FdcInfo
  unfolding decode_irq_cause mode_in handle_mode note_abort
  handle_result fdc = note_abort (
      handle_mode (mode_in fdc.driver_state fdc.chip.mode)
        (decode_irq_cause (byte cfg result 0) (byte cfg result 1) (byte cfg result 2)) fdc)

unfoldable pub result_phase : Config → FdcInfo → ℤ × List ℕ × Chip → FdcInfo
unfolding handle_result
result_phase cfg fdc (failed, result, chip) =
    if fails failed
    then record fdc { chip = chip }
    else handle_result cfg result (record fdc { chip = chip })

-- A result phase that fails leaves the rest to a reset.
unfoldable pub handle_fdc_busy : Config → FdcInfo → FdcInfo
unfolding fdc_result result_phase
handle_fdc_busy cfg fdc = result_phase cfg fdc (fdc_result cfg.model cfg.ports 7 fdc.chip)
