-- ===== src/Xfer/Head.antt =====
-- What an interrupt does with the buffer at the head of the ring, for `handle_fdc_busy` of
-- ftape/lowlevel/fdc-isr.c. `result` are the bytes of the result phase.
pub mod Local
use ftape.Prelude.{
  ℕ, ◌+◌, ◌^◌, bit_and, bit_or, leb, ltb, ◌==◌, if◌then◌else◌, Bool, true, false, not, ◌&&◌, ◌||◌,
  List, get_or, Option, none, some,
}
use ftape.Prelude.Int.{ℤ}
use ftape.Prelude.Words.{add_word, sub_word}
use ftape.Bsm.Entry.{empty_segment, fake_segment}
use ftape.Buf.Ring.{BufferState, verifying}
use ftape.Isr.Cause.{
  ErrorCause, no_error, id_am_error, id_crc_error, data_am_error, data_crc_error, no_data_error,
  overrun_error, decode_irq_cause, update_history,
}
use ftape.Isr.Progress.{sectors, is_error, determine_progress}
use ftape.Isr.Resume.{find_resume_point}
use ftape.Isr.Verify.{get_transfer_size, determine_verify_progress, eagain}
use ftape.Fdc.Wait.{
  Chip, FdcMode, fdc_idle, fdc_reading_data, fdc_seeking, fdc_writing_data, fdc_deleting,
  fdc_reading_id, fdc_recalibrating, fdc_formatting, fdc_verifying, other_command, fails,
}
use ftape.Fdc.Command.{fdc_result}
use ftape.Xfer.State.{
  FdcInfo, Config, RunnerStatus, idle, running, do_abort, aborting, logical_eot, end_of_tape,
  head_of, set_head, write, state_number, progress, with_progress,
}
use ftape.Xfer.Continue.{continue_xfer, retry_sector}
use ftape.Xfer.Format.{terminate_dma, determine_fmt_progress, continue_formatting}

-- What to skip on a retry; the loop of `find_resume_point` ends within a map.
unfoldable pub resume_point : Option ℕ → ℕ
resume_point none = 0
resume_point (some i) = i

-- Whether a cause is a missing sector, or the overrun of a buffer.
unfoldable pub is_no_data : ErrorCause → Bool
is_no_data no_data_error = true
is_no_data no_error = false
is_no_data id_am_error = false
is_no_data id_crc_error = false
is_no_data data_am_error = false
is_no_data data_crc_error = false
is_no_data overrun_error = false

unfoldable pub is_overrun : ErrorCause → Bool
is_overrun overrun_error = true
is_overrun no_error = false
is_overrun id_am_error = false
is_overrun id_crc_error = false
is_overrun data_am_error = false
is_overrun data_crc_error = false
is_overrun no_data_error = false

-- A write does not expect a checksum error of the data.
unfoldable pub is_data_crc : ErrorCause → Bool
is_data_crc data_crc_error = true
is_data_crc no_error = false
is_data_crc id_am_error = false
is_data_crc id_crc_error = false
is_data_crc data_am_error = false
is_data_crc no_data_error = false
is_data_crc overrun_error = false

abbrev pub count_error : ErrorCause → FdcInfo → FdcInfo
unfolding update_history
count_error cause fdc = record fdc { history = update_history fdc.history cause }

-- A byte of the result; what was not read is what the stack held.
abbrev pub byte : Config → (result : List ℕ) → ℕ → ℕ
byte cfg result i = get_or result i (cfg.stale i)

-- The size that `get_transfer_size` gives, and the state after it.
unfoldable pub transfer_size : Config → (result : List ℕ) → ErrorCause → FdcInfo → ℕ × FdcInfo
unfolding terminate_dma get_transfer_size write
transfer_size cfg result cause fdc =
    let (dma_residue, ended) = terminate_dma cfg fdc in
    let b = head_of ended in
    let (size, t) =
      get_transfer_size cfg.model.ditto_ez (progress b) cause (byte cfg result 3)
        (byte cfg result 5) dma_residue in
    (size, set_head ended (with_progress b t))

-- `determine_progress` on the head.
unfoldable pub head_progress : Config → ErrorCause → (transferred : ℕ) → FdcInfo → FdcInfo
unfolding determine_progress write
head_progress cfg cause transferred fdc =
    let b = head_of fdc in
    set_head fdc
      (with_progress b (determine_progress cfg.soft_retries (progress b) cause transferred))

-- `determine_verify_progress` on the head.
unfoldable pub head_verify_progress : Config → (result : List ℕ) → ErrorCause → FdcInfo → FdcInfo
unfolding terminate_dma get_transfer_size determine_verify_progress write
head_verify_progress cfg result cause fdc =
    let (dma_residue, ended) = terminate_dma cfg fdc in
    let b = head_of ended in
    set_head ended (
      with_progress b (
        determine_verify_progress cfg.soft_retries (progress b) cause (
          get_transfer_size cfg.model.ditto_ez (progress b) cause (byte cfg result 3)
            (byte cfg result 5) dma_residue)))

-- The sectors that are done, or on a retry those in front of the resume point.
unfoldable pub skip_at : (retry : Bool) → FdcInfo → ℕ
unfolding find_resume_point resume_point
skip_at retry fdc =
    if retry
    then resume_point (find_resume_point (progress (head_of fdc)))
    else (head_of fdc).sector_offset

-- A retry at the resume point, unless it is behind the segment; without a retry the head goes on.
unfoldable pub retry_or_continue : Config → (retry : Bool) → FdcInfo → FdcInfo
unfolding skip_at retry_sector continue_xfer
retry_or_continue cfg retry fdc =
    if retry && ltb (skip_at retry fdc) sectors
    then retry_sector fdc.chip.mode (skip_at retry fdc) fdc
    else continue_xfer cfg fdc.chip.mode (skip_at retry fdc) fdc

-- The bit of ST2 for a deleted sector.
abbrev pub has_deleted : Config → List ℕ → Bool
has_deleted cfg result = not (bit_and (byte cfg result 2) 0x40 == 0)

-- The head is noted as deleted; behind the first segment, the reads ahead end.
unfoldable pub mark_deleted : FdcInfo → FdcInfo
unfolding write
mark_deleted fdc =
    let b = head_of fdc in
    record (set_head fdc (record b {
      deleted = 1;
      remaining = 0;
      soft_error_map = bit_or b.soft_error_map (sub_word 0 (2 ^ b.sector_offset));
      next_segment = add_word b.segment_id 1;
    })) { stop_read_ahead = if b.segment_id == 0 then true else fdc.stop_read_ahead }
