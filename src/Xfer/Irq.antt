-- ===== src/Xfer/Irq.antt =====
-- The interrupt: `pause_tape`, `handle_fdc_reset`, `handle_fdc_seek`, `handle_stray_interrupt` and
-- `fdc_isr` of ftape/lowlevel/fdc-isr.c. Whether a process waits for the interrupt is an argument;
-- the polls for the message that the controller failed are left out.
pub mod Laws
use ftape.Prelude.{
  ℕ, zero, suc, ◌+◌, ◌-◌, ◌%◌, bit_and, ◌==◌, if◌then◌else◌, Bool, true, false, not, ◌||◌, List, [],
  ◌∷◌,
}
use ftape.Prelude.Int.{ℤ, pos, negsuc}
use ftape.Fdc.Wait.{
  Chip, FdcMode, fdc_idle, fdc_reading_data, fdc_seeking, fdc_writing_data, fdc_deleting,
  fdc_reading_id, fdc_recalibrating, fdc_formatting, fdc_verifying, other_command, fails, rqm_delay,
  fdc_busy, fdc_data_in_ready, fdc_wait,
}
use ftape.Fdc.Command.{fdc_seek, fdc_issue_command, fdc_sense_interrupt_status}
use ftape.Xfer.State.{FdcInfo, Config}
use ftape.Xfer.Continue.{calc_steps}
use ftape.Xfer.Head.{byte}
use ftape.Xfer.Busy.{handle_fdc_busy}

-- An `int` as `__u8`.
abbrev pub to_byte : ℤ → ℕ
to_byte (pos n) = n % 256
to_byte (negsuc n) = 255 - n % 256

-- After the command to pause: only one that was sent stops the tape.
unfoldable pub pause_issued : FdcInfo → ℤ × List ℕ × Chip → FdcInfo
pause_issued fdc (result, _, chip) =
    if fails result
    then record fdc { chip = chip }
    else record fdc { chip = chip; seek_result = 0; location_known = false; tape_running = false }

unfoldable pub pause_tape : Config → FdcInfo → FdcInfo
unfolding pause_issued fdc_issue_command calc_steps
pause_tape cfg fdc =
    let steps = to_byte (calc_steps fdc.current_cylinder fdc.current_command) in
    pause_issued (record fdc { rewinds = fdc.rewinds + 1; seek_track = pos steps })
      (fdc_issue_command cfg.model cfg.ports fdc_seek (cfg.drive_sel ∷ steps ∷ []) 0 fdc.chip)

-- The polling of the drives behind a reset: `rounds` more drives, the next of them `i`.
unfoldable pub poll_drives : Config → (rounds i st0 pcn : ℕ) → FdcInfo → FdcInfo
unfolding fdc_sense_interrupt_status
poll_drives cfg zero i st0 pcn fdc = fdc
poll_drives cfg (suc rounds) i st0 pcn fdc = elim (st0 == 0x80) [
  | true ↦ fdc
  | false ↦
      let noted = if i == cfg.drive_sel then record fdc { current_cylinder = pos pcn } else fdc in
      let (failed, result, chip) = fdc_sense_interrupt_status cfg.model cfg.ports noted.chip in
      elim (fails failed) [
        | true ↦ record noted { chip = chip }
        | false ↦
            poll_drives cfg rounds (i + 1) (byte cfg result 0) (byte cfg result 1)
              (record noted { chip = chip })
      ]
]

unfoldable pub handle_fdc_reset : Config → (st0 pcn : ℕ) → FdcInfo → FdcInfo
unfolding poll_drives
handle_fdc_reset cfg st0 pcn fdc = record (poll_drives cfg 4 0 st0 pcn fdc) { resetting = false }

unfoldable pub handle_fdc_seek : (st0 pcn : ℕ) → FdcInfo → FdcInfo
handle_fdc_seek st0 pcn fdc =
    let moved = record fdc { current_cylinder = pos pcn } in
    if fdc.hide_interrupt then moved else record moved { seek_result = st0 }

unfoldable pub handle_stray_interrupt : (awaited : Bool) → (pcn : ℕ) → FdcInfo → FdcInfo
handle_stray_interrupt awaited pcn fdc =
    let moved = record fdc { current_cylinder = pos pcn } in
    if awaited || fdc.expected_stray_interrupts == 0
    then moved
    else record moved { expected_stray_interrupts = fdc.expected_stray_interrupts - 1 }

-- The modes in which no result phase is expected.
unfoldable pub seeks : FdcMode → Bool
seeks fdc_seeking = true
seeks fdc_recalibrating = true
seeks fdc_idle = false
seeks fdc_reading_data = false
seeks fdc_writing_data = false
seeks fdc_deleting = false
seeks fdc_reading_id = false
seeks fdc_formatting = false
seeks fdc_verifying = false
seeks (other_command _) = false

unfoldable pub is_quiet : FdcMode → Bool
unfolding seeks
is_quiet fdc_idle = true
is_quiet fdc_seeking = true
is_quiet fdc_recalibrating = true
is_quiet fdc_reading_data = false
is_quiet fdc_writing_data = false
is_quiet fdc_deleting = false
is_quiet fdc_reading_id = false
is_quiet fdc_formatting = false
is_quiet fdc_verifying = false
is_quiet (other_command _) = false

abbrev pub idle_mode : FdcInfo → FdcInfo
idle_mode fdc = record fdc { chip = record fdc.chip { mode = fdc_idle } }

module _ (cfg : Config) (awaited : Bool) where
  -- The handler for an interrupt without result phase.
  unfoldable pub handle_sensed : (old_mode : FdcMode) → (st0 pcn : ℕ) → FdcInfo → FdcInfo
  unfolding handle_fdc_reset handle_fdc_seek handle_stray_interrupt seeks
  handle_sensed old_mode st0 pcn fdc =
      if fdc.resetting
      then handle_fdc_reset cfg st0 pcn fdc
      else if seeks old_mode
      then handle_fdc_seek st0 pcn fdc
      else handle_stray_interrupt awaited pcn fdc

  -- The loop that asks for pending interrupts; it may handle `left` more of them.
  unfoldable pub sense_loop : (left : ℕ) → FdcInfo → FdcInfo
  unfolding fdc_sense_interrupt_status handle_sensed
  sense_loop zero fdc =
      let (failed, result, chip) = fdc_sense_interrupt_status cfg.model cfg.ports fdc.chip in
      idle_mode (record fdc { chip = chip })
  sense_loop (suc left) fdc =
      let (failed, result, chip) = fdc_sense_interrupt_status cfg.model cfg.ports fdc.chip in
      let asked = record fdc { chip = chip } in
      elim (fails failed || byte cfg result 0 == 0x80) [
        | true ↦ idle_mode asked
        | false ↦
            sense_loop left (
              idle_mode (handle_sensed fdc.chip.mode (byte cfg result 0) (byte cfg result 1) asked))
      ]

  -- The wait for the phase that the mode lets expect.
  unfoldable pub await_phase : FdcInfo → FdcInfo
  unfolding fdc_wait is_quiet
  await_phase fdc =
      let mask = if fdc.resetting || is_quiet fdc.chip.mode then fdc_data_in_ready else fdc_busy in
      record fdc { chip = (fdc_wait cfg.model cfg.ports rqm_delay mask mask fdc.chip).1 }

  -- Either phase.
  unfoldable pub handle_phase : FdcInfo → FdcInfo
  unfolding handle_fdc_busy sense_loop
  handle_phase fdc = elim (bit_and fdc.chip.status fdc_busy == 0) [
    | true ↦ sense_loop 10 fdc
    | false ↦ handle_fdc_busy cfg fdc
  ]

  -- The end: the interrupt is shown to who waits for it, unless the tape is to be paused.
  unfoldable pub show_interrupt : FdcInfo → FdcInfo
  unfolding pause_tape
  show_interrupt fdc =
      if fdc.hide_interrupt
      then pause_tape cfg fdc
      else record fdc { interrupt_seen = fdc.interrupt_seen + 1 }

  unfoldable pub leave : FdcInfo → FdcInfo
  leave fdc = record fdc { isr_active = fdc.isr_active - 1 }

  unfoldable pub fdc_isr : FdcInfo → FdcInfo
  unfolding await_phase handle_phase show_interrupt leave
  fdc_isr fdc =
      let entered = record fdc { isr_active = fdc.isr_active + 1 } in
      if not (fdc.isr_active == 0)
      then leave entered
      else leave
          (show_interrupt (handle_phase (await_phase (record entered { hide_interrupt = false }))))
