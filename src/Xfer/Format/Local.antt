-- ===== src/Xfer/Format/Local.antt =====
-- Formatting (ftape/lowlevel/fdc-isr.c) works on the head of the ring and the buffer behind it.
use ftape.Prelude.{ℕ, ◌==◌, if-cases, Bool, not, ◌&&◌, ◌||◌, refl}
use ftape.Prelude.Int.{ℤ}
use ftape.Prelude.Words.{minus_one}
use ftape.Buf.Ring.{waiting, error, done, formatting}
use ftape.Isr.Cause.{ErrorCause}
use ftape.Isr.Progress.{is_error}
use ftape.Fdc.Wait.{Chip, fails}
use ftape.Fdc.Setup.{fdc_setup_formatting}
use ftape.Xfer.State.{FdcInfo, Config, do_abort, logical_eot, head_of, set_head, has_status}
use ftape.Xfer.State.Local.{
  Local, Step, Local-refl, Local-trans, set_head-Local, Local-Step, Step-Step,
}
use ftape.Xfer.Continue.{stop}
use ftape.Xfer.Continue.Local.{chip-Local, status-Local, stop-Local}
use ftape.Xfer.Format.{
  terminate_dma, fmt_progress, determine_fmt_progress, segment_formatted, format_started,
  format_segment, format_next, continue_formatting, format_failed, format_setup_error,
}

setup_error-Local : {f g : FdcInfo} → Local f g → Local f (format_setup_error g)
setup_error-Local {f} {g} p =
    Local-trans (stop-Local p do_abort)
      (set_head-Local (stop do_abort g) (record (head_of g) { status = error }) refl)

failed-Local : {f g : FdcInfo} → Local f g → Local f (format_failed g)
failed-Local {f} {g} p =
    status-Local (Local-trans p (set_head-Local g (record (head_of g) { status = error }) refl))
      do_abort

module _ (cfg : Config) where
  pub terminate_dma-Local : (fdc : FdcInfo) → Local fdc (terminate_dma cfg fdc).1
  unfolding terminate_dma
  terminate_dma-Local fdc = chip-Local fdc _

  format_started-Local : (fdc : FdcInfo) (r : ℤ × Chip) → Local fdc (format_started fdc r)
  unfolding format_started
  format_started-Local fdc (result, chip) =
      if-cases (Local fdc) (fails result) _ _ (λ _. setup_error-Local (chip-Local fdc chip))
        (λ _.
          Local-trans (chip-Local fdc chip)
            (set_head-Local _ (record (head_of fdc) { status = formatting }) refl))

  format_segment-Local : (fdc : FdcInfo) → Local fdc (format_segment cfg fdc)
  unfolding format_segment
  format_segment-Local fdc =
      format_started-Local fdc
        (fdc_setup_formatting cfg.model cfg.ports cfg.tape (head_of fdc).segment_id fdc.chip)

  format_next-Local : (next : ℕ) (fdc : FdcInfo) → Local fdc (format_next cfg next fdc)
  unfolding format_next
  format_next-Local next fdc =
      if-cases (Local fdc)
        (not (has_status (head_of fdc) waiting) || not (next == (head_of fdc).segment_id)) _ _
        (λ _. setup_error-Local (Local-refl fdc)) (λ _. format_segment-Local fdc)

  pub continue_formatting-Step : (fdc : FdcInfo) → Step fdc (continue_formatting cfg fdc)
  unfolding continue_formatting
  continue_formatting-Step fdc =
      let ended : Local fdc (set_head fdc (record (head_of fdc) { status = done })) =
        set_head-Local fdc (record (head_of fdc) { status = done }) refl in
      if-cases (Step fdc) (not ((head_of fdc).remaining == 0)) _ _
        (λ _. Local-Step (format_segment-Local fdc))
        (λ _.
          if-cases (Step fdc) ((head_of fdc).next_segment == 0) _ _
            (λ _. Local-Step (stop-Local ended logical_eot))
            (λ _. Step-Step ended (format_next-Local (head_of fdc).next_segment _)))

  fmt_progress-Local :
      (cause : ErrorCause) (fdc : FdcInfo) (residue : ℕ)
      → Local fdc (fmt_progress cause (residue, fdc)).1
  unfolding fmt_progress segment_formatted
  fmt_progress-Local cause fdc residue =
      if-cases (λ (r : Bool × FdcInfo). Local fdc r.1)
        (not (residue == minus_one) && not (residue == 0)) _ _ (λ _. failed-Local (Local-refl fdc))
        (λ _.
          if-cases (λ (r : Bool × FdcInfo). Local fdc r.1) (is_error cause) _ _
            (λ _. failed-Local (chip-Local fdc _))
            (λ _. set_head-Local fdc (segment_formatted (head_of fdc)) refl))

  pub determine_fmt_progress-Local :
      (cause : ErrorCause) (fdc : FdcInfo) → Local fdc (determine_fmt_progress cfg cause fdc).1
  unfolding determine_fmt_progress terminate_dma
  determine_fmt_progress-Local cause fdc =
      Local-trans (terminate_dma-Local fdc) (fmt_progress-Local cause _ (terminate_dma cfg fdc).0)
