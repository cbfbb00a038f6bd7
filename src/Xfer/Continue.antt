-- ===== src/Xfer/Continue.antt =====
-- A transfer goes on: `calc_steps`, `schedule_pause_tape`, `continue_xfer` and `retry_sector` of
-- ftape/lowlevel/fdc-isr.c.
pub mod Started
pub mod Flight
pub mod Local
use ftape.Prelude.{ℕ, ◌%◌, ltb, ◌==◌, if◌then◌else◌, Bool, true, false, not, ◌&&◌, ◌||◌}
use ftape.Prelude.Int.{ℤ, pos, ◌+ℤ◌, ◌-ℤ◌, ltb_ℤ}
use ftape.Prelude.Words.{add_word}
use ftape.Buf.Ring.{
  BufferState, waiting, reading, writing, formatting, verifying, deleting, done, error, fatal_error,
}
use ftape.Rw.Setup
use ftape.Rw.Setup.{setup_new_segment}
use ftape.Fdc.Wait.{
  Chip, FdcMode, fdc_idle, fdc_reading_data, fdc_seeking, fdc_writing_data, fdc_deleting,
  fdc_reading_id, fdc_recalibrating, fdc_formatting, fdc_verifying, other_command, fails,
}
use ftape.Fdc.Setup.{fdc_setup_read_write, is_write}
use ftape.Xfer.State.{
  Buffer, FdcInfo, Config, RunnerStatus, idle, running, do_abort, aborting, logical_eot,
  end_of_tape, head_of, set_head, step_head, write, has_status, state_number, next_cluster,
  setup_part, with_setup, cluster,
}

unfoldable pub calc_steps : (current_cylinder : ℤ) → (cmd : ℕ) → ℤ
calc_steps current_cylinder cmd =
    if ltb_ℤ (pos cmd) current_cylinder
    then current_cylinder -ℤ pos cmd
    else current_cylinder +ℤ pos cmd

-- QIC_PAUSE, QIC_MICRO_STEP_PAUSE
abbrev pub qic_pause : ℕ
qic_pause = 3

abbrev pub qic_micro_step_pause : ℕ
qic_micro_step_pause = 4

unfoldable pub is_read : FdcMode → Bool
is_read fdc_reading_data = true
is_read fdc_reading_id = true
is_read fdc_verifying = true
is_read fdc_idle = false
is_read fdc_seeking = false
is_read fdc_writing_data = false
is_read fdc_deleting = false
is_read fdc_recalibrating = false
is_read fdc_formatting = false
is_read (other_command _) = false

unfoldable pub schedule_pause_tape : (retry : Bool) → FdcMode → FdcInfo → FdcInfo
unfolding is_read
schedule_pause_tape retry mode fdc =
    if retry && is_read mode
    then record fdc {
      current_command = qic_micro_step_pause;
      might_be_off_track = true;
      hide_interrupt = true;
    }
    else record fdc { current_command = qic_pause; hide_interrupt = true }

abbrev pub is_running : RunnerStatus → Bool
is_running running = true
is_running idle = false
is_running do_abort = false
is_running aborting = false
is_running logical_eot = false
is_running end_of_tape = false

-- The runner stops, and the controller is taken to be idle.
abbrev pub stop : RunnerStatus → FdcInfo → FdcInfo
stop s fdc = record fdc { runner_status = s; chip = record fdc.chip { mode = fdc_idle } }

-- Whether the states are not those of a transfer.
unfoldable pub unexpected : FdcMode → FdcInfo → Bool
unfolding state_number is_write
unexpected mode fdc =
    not (is_running fdc.runner_status)
    || is_write mode && not (has_status (head_of fdc) writing)
    || not (is_write mode)
      && not (has_status (head_of fdc) reading)
      && not (has_status (head_of fdc) verifying)

-- The head is given up with an error.
abbrev pub give_up : FdcInfo → (failed : Buffer) → FdcInfo
give_up fdc failed = stop aborting (step_head (set_head fdc (record failed { status = error })))

-- The pause of a runner without a next segment.
unfoldable pub pause_runner : FdcMode → FdcInfo → FdcInfo
unfolding schedule_pause_tape
pause_runner mode fdc = record (schedule_pause_tape false mode fdc) { runner_status = idle }

-- The state of a buffer that the driver works on.
unfoldable pub working_status : (driver_state : BufferState) → FdcMode → BufferState
unfolding is_write
working_status reading mode = reading
working_status verifying mode = verifying
working_status writing mode = writing
working_status deleting mode = deleting
working_status waiting mode = if is_write mode then writing else reading
working_status formatting mode = if is_write mode then writing else reading
working_status done mode = if is_write mode then writing else reading
working_status error mode = if is_write mode then writing else reading
working_status fatal_error mode = if is_write mode then writing else reading

module _ (cfg : Config) where
  -- A command for the cluster of the head.
  abbrev pub setup_head : FdcMode → FdcInfo → ℤ × Chip
  setup_head mode fdc =
      fdc_setup_read_write cfg.model cfg.ports cfg.tape (cluster (head_of fdc)) mode fdc.chip

  -- After the command for the next cluster of the same segment.
  unfoldable pub cluster_started : FdcInfo → ℤ × Chip → FdcInfo
  unfolding write
  cluster_started fdc (result, chip) =
      let b = head_of fdc in
      if fails result
      then give_up (record fdc { chip = chip }) (record b { bytes = b.ptr })
      else record fdc { chip = chip }

  -- The buffer of the next segment as `ftape_setup_new_segment` leaves it, and the reads ahead.
  unfoldable pub next_set_up : FdcInfo → Setup.Driver × Setup.Buffer → FdcInfo
  unfolding write
  next_set_up fdc (driver, s) =
      let fresh = with_setup (head_of fdc) s in
      let b = record fresh {
        next_segment = if fdc.stop_read_ahead then 0 else fresh.next_segment;
      } in
      record (set_head fdc b) { setup = driver; stop_read_ahead = false }

  unfoldable pub setup_next : (next : ℕ) → FdcInfo → FdcInfo
  unfolding setup_new_segment state_number next_set_up
  setup_next next fdc = next_set_up fdc (
      setup_new_segment cfg.bad cfg.geometry cfg.ignore_ecc_err
        (record fdc.setup { state = state_number fdc.driver_state }) (setup_part (head_of fdc)) next
        false)

  -- After the command for the first cluster of the next segment.
  unfoldable pub segment_started : FdcMode → FdcInfo → ℤ × Chip → FdcInfo
  unfolding write working_status
  segment_started mode fdc (result, chip) =
      if fails result
      then stop do_abort (record fdc { chip = chip })
      else set_head (record fdc { chip = chip })
          (record (head_of fdc) { status = working_status fdc.driver_state mode })

  -- The first cluster of the next segment is looked for.
  unfoldable pub start_segment : FdcMode → FdcInfo → FdcInfo
  unfolding write next_cluster fdc_setup_read_write segment_started
  start_segment mode fdc =
      let found = set_head fdc (next_cluster (head_of fdc)) in
      if (head_of found).sector_count == 0
      then stop do_abort found
      else segment_started mode found (setup_head mode found)

  -- The head is the buffer behind the one that was finished.
  unfoldable pub next_buffer : FdcMode → (next : ℕ) → FdcInfo → FdcInfo
  unfolding state_number pause_runner is_write setup_next start_segment
  next_buffer mode next fdc =
      if not (has_status (head_of fdc) waiting)
      then pause_runner mode fdc
      else if is_write mode && not (next == (head_of fdc).segment_id)
      then stop do_abort fdc
      else start_segment mode (setup_next next fdc)

  unfoldable pub segment_completed : FdcMode → FdcInfo → FdcInfo
  unfolding write pause_runner next_buffer
  segment_completed mode fdc =
      let b = head_of fdc in
      let finished = step_head (set_head fdc (record b { bytes = b.ptr; status = done })) in
      if add_word b.segment_id 1 % cfg.tape.segments_per_track == 0
      then stop logical_eot finished
      else if b.next_segment == 0
      then pause_runner mode finished
      else next_buffer mode b.next_segment finished

  -- Sectors remain in the segment; whether there is a good one, the search tells.
  unfoldable pub continue_segment : FdcMode → FdcInfo → FdcInfo
  unfolding write next_cluster fdc_setup_read_write cluster_started segment_completed
  continue_segment mode fdc =
      let found = set_head fdc (next_cluster (head_of fdc)) in
      if ltb 0 (head_of found).sector_count
      then cluster_started found (setup_head mode found)
      else segment_completed mode found

  unfoldable pub continue_xfer : FdcMode → (skip : ℕ) → FdcInfo → FdcInfo
  unfolding unexpected write continue_segment segment_completed
  continue_xfer mode skip fdc =
      if ltb 0 skip && unexpected mode fdc
      then give_up fdc (head_of fdc)
      else if ltb 0 (head_of fdc).remaining
      then continue_segment mode fdc
      else segment_completed mode fdc

unfoldable pub retry_sector : FdcMode → (skip : ℕ) → FdcInfo → FdcInfo
unfolding schedule_pause_tape write
retry_sector mode skip fdc =
    let paused = schedule_pause_tape true mode fdc in
    record (set_head paused (record (head_of paused) { status = error; skip = skip })) {
      runner_status = aborting;
    }
