-- ===== src/Xfer/Busy/Local.antt =====
-- `handle_fdc_busy` (ftape/lowlevel/fdc-isr.c) works on the head of the ring and on the buffer
-- behind it.
use ftape.Prelude.{ℕ, ◌==◌, if◌then◌else◌, if-cases, Bool, not, ◌||◌, List, refl}
use ftape.Prelude.Int.{ℤ}
use ftape.Bsm.Entry.{fake_segment, empty_segment}
use ftape.Isr.Cause.{ErrorCause}
use ftape.Isr.Progress.{is_error}
use ftape.Isr.Verify.{eagain}
use ftape.Fdc.Wait.{
  Chip, FdcMode, fdc_idle, fdc_reading_data, fdc_seeking, fdc_writing_data, fdc_deleting,
  fdc_reading_id, fdc_recalibrating, fdc_formatting, fdc_verifying, other_command, fails,
}
use ftape.Fdc.Command.{fdc_result}
use ftape.Isr.Resume.{find_resume_point}
use ftape.Xfer.State.{progress, Buffer, FdcInfo, Config, head_of, set_head}
use ftape.Xfer.State.Local.{
  Local, Step, plain, Plain-Local, Step-Plain, Local-refl, Local-trans, set_head-Local, Local-Step,
  then-Step,
}
use ftape.Xfer.Continue.Local.{chip-Local, continue_xfer-Step, retry_sector-Local}
use ftape.Xfer.Format.{determine_fmt_progress}
use ftape.Xfer.Head.{
  resume_point, is_data_crc, byte, transfer_size, head_progress, head_verify_progress, has_deleted,
  mark_deleted,
}
use ftape.Xfer.Busy.{
  verify_retry, verify_failed, verify_passed, verified, read_deleted, read_sized, written_sized,
  transferred_by, formatted, id_read, is_aborting, is_do_abort, handle_mode, note_abort,
  handle_result, result_phase, handle_fdc_busy,
}
use ftape.Xfer.Format.Local.{continue_formatting-Step, determine_fmt_progress-Local}
use ftape.Xfer.Head.Local.{
  count_error-Step, no_data-Local, head_progress-Local, retry_or_continue-Step, mark_deleted-Local,
  transfer_size-Local, head_verify_progress-Local,
}

note_abort-Step : {f : FdcInfo} (g : FdcInfo) → Step f g → Step f (note_abort g)
unfolding note_abort
note_abort-Step {f} g p =
    if-cases (Step f) (is_do_abort g.runner_status) _ _
      (λ _. Step-Plain p (plain refl (λ a. refl) refl refl refl)) (λ _. p)

module _ (cfg : Config) (result : List ℕ) where
  verify_failed-Step :
      (cause : ErrorCause) (fdc : FdcInfo) → Step fdc (verify_failed cfg result cause fdc)
  unfolding verify_failed
  verify_failed-Step cause fdc =
      let moved : Local fdc (head_verify_progress cfg result cause fdc) =
        head_verify_progress-Local cfg result cause fdc in
      count_error-Step
        (then-Step (no_data-Local moved (verify_retry cfg result cause fdc.no_data_error_count).1)
          (retry_or_continue-Step cfg (verify_retry cfg result cause fdc.no_data_error_count).0 _))
        cause

  verify_passed-Step :
      (cause : ErrorCause) (fdc : FdcInfo) → Step fdc (verify_passed cfg result cause fdc)
  unfolding verify_passed
  verify_passed-Step cause fdc =
      let start : FdcInfo = record fdc { no_data_error_count = 0 } in
      let checked : FdcInfo = head_verify_progress cfg result cause start in
      let moved : Local start checked = head_verify_progress-Local cfg result cause start in
      let from : Local fdc checked = Local-trans (no_data-Local (Local-refl fdc) 0) moved in
      let ended : Buffer = record (head_of checked) {
        remaining = 0;
        hard_error_map = empty_segment;
      } in
      if-cases (Step fdc) (has_deleted cfg result) _ _
        (λ _.
          then-Step (Local-trans from (set_head-Local checked ended refl))
            (continue_xfer-Step cfg checked.chip.mode 1 (set_head checked ended)))
        (λ _. then-Step from (continue_xfer-Step cfg checked.chip.mode 0 checked))

  verified-Step : (cause : ErrorCause) (fdc : FdcInfo) → Step fdc (verified cfg result cause fdc)
  unfolding verified
  verified-Step cause fdc =
      if-cases (Step fdc) (is_error cause) _ _ (λ _. verify_failed-Step cause fdc)
        (λ _. verify_passed-Step cause fdc)

  read_deleted-Step : (fdc : FdcInfo) → Step fdc (read_deleted cfg result fdc)
  unfolding read_deleted
  read_deleted-Step fdc =
      then-Step (mark_deleted-Local fdc) (continue_xfer-Step cfg fdc.chip.mode _ (mark_deleted fdc))

  read_sized-Step :
      (cause : ErrorCause) (transferred : ℕ) (fdc : FdcInfo)
      → Step fdc (read_sized cfg result cause transferred fdc)
  unfolding read_sized
  read_sized-Step cause transferred fdc =
      let b : Buffer = head_of fdc in
      let moved : Local fdc (head_progress cfg cause transferred fdc) =
        head_progress-Local cfg cause transferred fdc in
      if-cases (Step fdc) (is_error cause) _ _
        (λ _.
          count_error-Step
            (then-Step moved (
              retry_or_continue-Step cfg
                (not (b.soft_error_map == 0) || not (b.hard_error_map == 0))
                (head_progress cfg cause transferred fdc)))
            cause)
        (λ _.
          if-cases (Step fdc) (has_deleted cfg result) _ _ (λ _. read_deleted-Step fdc)
            (λ _. then-Step moved (continue_xfer-Step cfg fdc.chip.mode 0 _)))

  written_sized-Step :
      (cause : ErrorCause) (transferred : ℕ) (fdc : FdcInfo)
      → Step fdc (written_sized cfg result cause transferred fdc)
  unfolding written_sized
  written_sized-Step cause transferred fdc =
      let after : FdcInfo = head_progress cfg cause transferred fdc in
      let moved : Local fdc after = head_progress-Local cfg cause transferred fdc in
      let point : ℕ = resume_point (find_resume_point (progress (head_of after))) in
      if-cases (Step fdc) (is_data_crc cause) _ _
        (λ _. Local-Step (Local-trans moved (chip-Local after _)))
        (λ _.
          if-cases (Step fdc) (is_error cause) _ _
            (λ _.
              count_error-Step
                (Local-Step (Local-trans moved (retry_sector-Local after.chip.mode point after)))
                cause)
            (λ _. then-Step moved (continue_xfer-Step cfg after.chip.mode 0 after)))

  transferred_by-Step :
      (sized : ErrorCause → ℕ → FdcInfo → FdcInfo)
      → ((cause : ErrorCause) (transferred : ℕ) (fdc : FdcInfo)
          → Step fdc (sized cause transferred fdc))
      → (cause : ErrorCause) (fdc : FdcInfo) → Step fdc (transferred_by cfg result sized cause fdc)
  unfolding transferred_by
  transferred_by-Step sized step cause fdc =
      let size : ℕ × FdcInfo = transfer_size cfg result cause fdc in
      let ended : Local fdc size.1 = transfer_size-Local cfg result cause fdc in
      let skipped : Buffer = record (head_of size.1) { remaining = 0 } in
      if-cases (Step fdc) ((head_of size.1).bad_sector_map == fake_segment) _ _
        (λ _.
          then-Step (Local-trans ended (set_head-Local size.1 skipped refl))
            (continue_xfer-Step cfg size.1.chip.mode 1 (set_head size.1 skipped)))
        (λ _.
          if-cases (Step fdc) (size.0 == eagain) _ _
            (λ _. Local-Step (Local-trans ended (retry_sector-Local size.1.chip.mode 0 size.1)))
            (λ _. then-Step ended (step cause size.0 size.1)))

  formatted-Step : (cause : ErrorCause) (fdc : FdcInfo) → Step fdc (formatted cfg result cause fdc)
  unfolding formatted
  formatted-Step cause fdc =
      let r : Bool × FdcInfo = determine_fmt_progress cfg cause fdc in
      let moved : Local fdc r.1 = determine_fmt_progress-Local cfg cause fdc in
      if-cases (Step fdc) (is_error cause) _ _ (λ _. count_error-Step (Local-Step moved) cause)
        (λ _.
          if-cases (Step fdc) r.0 _ _ (λ _. then-Step moved (continue_formatting-Step cfg r.1))
            (λ _. Local-Step moved))

  id_read-Local : (cause : ErrorCause) (fdc : FdcInfo) → Local fdc (id_read cfg result cause fdc)
  unfolding id_read
  id_read-Local cause fdc = Plain-Local (plain refl (λ a. refl) refl refl refl)

  unless_aborting-Step :
      (f h : FdcInfo) → Step f h → Step f (if is_aborting f.runner_status then f else h)
  unless_aborting-Step f h p =
      if-cases (Step f) (is_aborting f.runner_status) _ _ (λ _. Local-Step (Local-refl f)) (λ _. p)

  handle_mode-Step :
      (mode : FdcMode) (cause : ErrorCause) (fdc : FdcInfo)
      → Step fdc (handle_mode cfg result mode cause fdc)
  unfolding handle_mode
  handle_mode-Step fdc_verifying cause fdc = unless_aborting-Step fdc _ (verified-Step cause fdc)
  handle_mode-Step fdc_reading_data cause fdc =
      unless_aborting-Step fdc _
        (transferred_by-Step (read_sized cfg result) read_sized-Step cause fdc)
  handle_mode-Step fdc_reading_id cause fdc = Local-Step (id_read-Local cause fdc)
  handle_mode-Step fdc_deleting cause fdc =
      unless_aborting-Step fdc _
        (transferred_by-Step (written_sized cfg result) written_sized-Step cause fdc)
  handle_mode-Step fdc_writing_data cause fdc =
      unless_aborting-Step fdc _
        (transferred_by-Step (written_sized cfg result) written_sized-Step cause fdc)
  handle_mode-Step fdc_formatting cause fdc = formatted-Step cause fdc
  handle_mode-Step fdc_idle cause fdc = Local-Step (chip-Local fdc _)
  handle_mode-Step fdc_seeking cause fdc = Local-Step (chip-Local fdc _)
  handle_mode-Step fdc_recalibrating cause fdc = Local-Step (chip-Local fdc _)
  handle_mode-Step (other_command byte) cause fdc = Local-Step (chip-Local fdc _)

  handle_result-Step : (fdc : FdcInfo) → Step fdc (handle_result cfg result fdc)
  unfolding handle_result
  handle_result-Step fdc = note_abort-Step _ (handle_mode-Step _ _ fdc)

result_phase-Step :
    (cfg : Config) (fdc : FdcInfo) (r : ℤ × List ℕ × Chip) → Step fdc (result_phase cfg fdc r)
unfolding result_phase
result_phase-Step cfg fdc (failed, result, chip) =
    if-cases (Step fdc) (fails failed) _ _ (λ _. Local-Step (chip-Local fdc chip))
      (λ _.
        then-Step (chip-Local fdc chip)
          (handle_result-Step cfg result (record fdc { chip = chip })))

-- handle_fdc_busy changes no buffer but the one at the head and the one behind it, and leaves the
-- ring of the buffers as it is. The head stays or goes on by one buffer. The counters of the
-- interrupt and of the rewinds do not change.
pub handle_fdc_busy-Step : (cfg : Config) (fdc : FdcInfo) → Step fdc (handle_fdc_busy cfg fdc)
unfolding handle_fdc_busy
handle_fdc_busy-Step cfg fdc = result_phase-Step cfg fdc (fdc_result cfg.model cfg.ports 7 fdc.chip)
