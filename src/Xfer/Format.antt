-- ===== src/Xfer/Format.antt =====
-- A track is formatted: `determine_fmt_progress` and `continue_formatting` of
-- ftape/lowlevel/fdc-isr.c.
pub mod Local
use ftape.Prelude.{ℕ, ◌+◌, ◌==◌, if◌then◌else◌, Bool, true, false, not, ◌&&◌, ◌||◌}
use ftape.Prelude.Int.{ℤ}
use ftape.Prelude.Words.{add_word, sub_word, minus_one}
use ftape.Buf.Ring.{waiting, formatting, done, error}
use ftape.Isr.Cause.{ErrorCause}
use ftape.Isr.Progress.{is_error}
use ftape.Fdc.Wait.{Chip, fdc_idle, fails}
use ftape.Fdc.Setup.{fdc_setup_formatting}
use ftape.Xfer.State.{
  Buffer, FdcInfo, Config, do_abort, logical_eot, head_of, set_head, step_head, write, has_status,
  state_number,
}
use ftape.Xfer.Continue.{stop}

-- FT_SECTORS_PER_SEGMENT, and the bytes of the sector ids of a segment
abbrev pub sectors : ℕ
sectors = 32

abbrev pub id_bytes : ℕ
id_bytes = 128

-- The end of a DMA transfer, with its residue.
unfoldable pub terminate_dma : Config → FdcInfo → ℕ × FdcInfo
terminate_dma cfg fdc = (
  cfg.ports.residue fdc.chip.transfers,
  record fdc { chip = record fdc.chip { transfers = fdc.chip.transfers + 1 } },
)

-- Formatting cannot go on.
abbrev pub format_failed : FdcInfo → FdcInfo
format_failed fdc = record (set_head fdc (record (head_of fdc) { status = error })) {
  runner_status = do_abort;
}

-- The segment of the head is done.
unfoldable pub segment_formatted : Buffer → Buffer
segment_formatted b = record b {
  ptr = b.ptr + id_bytes;
  bytes = sub_word b.bytes id_bytes;
  remaining = sub_word b.remaining sectors;
  segment_id = add_word b.segment_id 1;
}

-- With the residue: whether formatting may go on, and the state.
unfoldable pub fmt_progress : ErrorCause → ℕ × FdcInfo → Bool × FdcInfo
unfolding is_error write segment_formatted
fmt_progress cause (dma_residue, fdc) =
    if not (dma_residue == minus_one) && not (dma_residue == 0)
    then (false, format_failed fdc)
    else if is_error cause
    then (false, format_failed (record fdc { chip = record fdc.chip { mode = fdc_idle } }))
    else (true, set_head fdc (segment_formatted (head_of fdc)))

unfoldable pub determine_fmt_progress : Config → ErrorCause → FdcInfo → Bool × FdcInfo
unfolding fmt_progress terminate_dma
determine_fmt_progress cfg cause fdc = fmt_progress cause (terminate_dma cfg fdc)

-- `format_setup_error`
abbrev pub format_setup_error : FdcInfo → FdcInfo
format_setup_error fdc =
    let stopped = stop do_abort fdc in
    set_head stopped (record (head_of stopped) { status = error })

unfoldable pub format_started : FdcInfo → ℤ × Chip → FdcInfo
unfolding write
format_started fdc (result, chip) =
    if fails result
    then format_setup_error (record fdc { chip = chip })
    else set_head (record fdc { chip = chip }) (record (head_of fdc) { status = formatting })

unfoldable pub format_segment : Config → FdcInfo → FdcInfo
unfolding fdc_setup_formatting format_started
format_segment cfg fdc =
    format_started fdc
      (fdc_setup_formatting cfg.model cfg.ports cfg.tape (head_of fdc).segment_id fdc.chip)

-- The buffer behind the one that was finished, which has to start at `next`.
unfoldable pub format_next : Config → (next : ℕ) → FdcInfo → FdcInfo
unfolding state_number write format_segment
format_next cfg next fdc =
    if not (has_status (head_of fdc) waiting) || not (next == (head_of fdc).segment_id)
    then format_setup_error fdc
    else format_segment cfg fdc

unfoldable pub continue_formatting : Config → FdcInfo → FdcInfo
unfolding write format_segment format_next
continue_formatting cfg fdc =
    let b = head_of fdc in
    let finished = set_head fdc (record b { status = done }) in
    if not (b.remaining == 0)
    then format_segment cfg fdc
    else if b.next_segment == 0
    then stop logical_eot finished
    else format_next cfg b.next_segment (step_head finished)
