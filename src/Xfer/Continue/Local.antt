-- ===== src/Xfer/Continue/Local.antt =====
-- `continue_xfer` and `retry_sector` (ftape/lowlevel/fdc-isr.c) work on the head of the ring and on
-- the buffer behind it.
use ftape.Prelude.{
  ℕ, ◌%◌, ltb, ◌==◌, if◌then◌else◌, if-cases, Bool, true, false, not, ◌&&◌, ◌≡◌, refl,
}
use ftape.Prelude.Int.{ℤ}
use ftape.Prelude.Words.{add_word}
use ftape.Buf.Ring.{waiting, error, done}
use ftape.Rw.Setup
use ftape.Rw.Setup.{setup_new_segment}
use ftape.Fdc.Wait.{Chip, FdcMode, fails}
use ftape.Fdc.Setup.{is_write}
use ftape.Xfer.State.{
  Buffer, FdcInfo, Config, idle, do_abort, aborting, logical_eot, head_of, set_head, step_head,
  next_cluster, state_number, has_status, setup_part, with_setup,
}
use ftape.Xfer.State.Local.{
  Local, Step, plain, Plain-Local, Local-refl, Local-trans, set_head-Local, Local-Step, Step-Step,
  then-Step,
}
use ftape.Xfer.Continue.{
  is_read, schedule_pause_tape, pause_runner, unexpected, stop, give_up, setup_head,
  cluster_started, setup_next, next_set_up, working_status, segment_started, start_segment,
  next_buffer, segment_completed, continue_segment, continue_xfer, retry_sector,
}

-- A state with other fields than those that `Local` speaks of.
pub chip-Local : (fdc : FdcInfo) (chip : Chip) → Local fdc (record fdc { chip = chip })
chip-Local fdc chip = Plain-Local (plain refl (λ a. refl) refl refl refl)

pub schedule_pause_tape-Local :
    (retry : Bool) (mode : FdcMode) (fdc : FdcInfo) → Local fdc (schedule_pause_tape retry mode fdc)
unfolding schedule_pause_tape
schedule_pause_tape-Local retry mode fdc =
    if-cases (Local fdc) (retry && is_read mode) _ _
      (λ _. Plain-Local (plain refl (λ a. refl) refl refl refl))
      (λ _. Plain-Local (plain refl (λ a. refl) refl refl refl))

-- The status of the runner and the controller may change besides.
pub status-Local : {f g : FdcInfo} → Local f g → (s : _) → Local f (record g { runner_status = s })
status-Local p s = Local-trans p (Plain-Local (plain refl (λ a. refl) refl refl refl))

pub stop-Local : {f g : FdcInfo} → Local f g → (s : _) → Local f (stop s g)
stop-Local p s = Local-trans p (Plain-Local (plain refl (λ a. refl) refl refl refl))

pub pause_runner-Local : (mode : FdcMode) (fdc : FdcInfo) → Local fdc (pause_runner mode fdc)
unfolding pause_runner
pause_runner-Local mode fdc = status-Local (schedule_pause_tape-Local false mode fdc) idle

next_cluster-next : (b : Buffer) → (next_cluster b).next ≡ b.next
unfolding next_cluster
next_cluster-next b = refl

pub found-Local : (fdc : FdcInfo) → Local fdc (set_head fdc (next_cluster (head_of fdc)))
found-Local fdc = set_head-Local fdc _ (next_cluster-next (head_of fdc))

module _ (cfg : Config) where
  give_up-Step :
      {f g : FdcInfo} → Local f g → (b : Buffer) → b.next ≡ (head_of g).next → Step f (give_up g b)
  give_up-Step {f} {g} p b same =
      Step-Step (Local-trans p (set_head-Local g (record b { status = error }) same))
        (stop-Local (Local-refl _) aborting)

  cluster_started-Step : (fdc : FdcInfo) (r : ℤ × Chip) → Step fdc (cluster_started cfg fdc r)
  unfolding cluster_started
  cluster_started-Step fdc (result, chip) =
      if-cases (Step fdc) (fails result) _ _
        (λ _.
          give_up-Step (chip-Local fdc chip) (record (head_of fdc) { bytes = (head_of fdc).ptr })
            refl)
        (λ _. Local-Step (chip-Local fdc chip))

  segment_started-Local :
      (mode : FdcMode) (fdc : FdcInfo) (r : ℤ × Chip) → Local fdc (segment_started cfg mode fdc r)
  unfolding segment_started
  segment_started-Local mode fdc (result, chip) =
      if-cases (Local fdc) (fails result) _ _ (λ _. stop-Local (chip-Local fdc chip) do_abort)
        (λ _. Local-trans (chip-Local fdc chip) (
          set_head-Local (record fdc { chip = chip })
            (record (head_of fdc) { status = working_status fdc.driver_state mode }) refl))

  start_segment-Local : (mode : FdcMode) (fdc : FdcInfo) → Local fdc (start_segment cfg mode fdc)
  unfolding start_segment
  start_segment-Local mode fdc =
      if-cases (Local fdc) ((head_of (set_head fdc (next_cluster (head_of fdc)))).sector_count == 0)
        _ _ (λ _. stop-Local (found-Local fdc) do_abort)
        (λ _. Local-trans (found-Local fdc) (
          segment_started-Local mode _
            (setup_head cfg mode (set_head fdc (next_cluster (head_of fdc))))))

  next_set_up-Local :
      (fdc : FdcInfo) (r : Setup.Driver × Setup.Buffer) → Local fdc (next_set_up cfg fdc r)
  unfolding next_set_up
  next_set_up-Local fdc (driver, s) = record {
    head = kept.head;
    others = kept.others;
    ring = kept.ring;
    active = refl;
    seen = refl;
    rewound = refl;
  }
    where
      fresh : Buffer
      fresh = with_setup (head_of fdc) s

      kept : Local fdc (
          set_head fdc
            (record fresh { next_segment = if fdc.stop_read_ahead then 0 else fresh.next_segment }))
      kept = set_head-Local fdc _ refl

  setup_next-Local : (next : ℕ) (fdc : FdcInfo) → Local fdc (setup_next cfg next fdc)
  unfolding setup_next
  setup_next-Local next fdc = next_set_up-Local fdc (
      setup_new_segment cfg.bad cfg.geometry cfg.ignore_ecc_err
        (record fdc.setup { state = state_number fdc.driver_state }) (setup_part (head_of fdc)) next
        false)

  pub next_buffer-Local :
      (mode : FdcMode) (next : ℕ) (fdc : FdcInfo) → Local fdc (next_buffer cfg mode next fdc)
  unfolding next_buffer
  next_buffer-Local mode next fdc =
      if-cases (Local fdc) (not (has_status (head_of fdc) waiting)) _ _
        (λ _. pause_runner-Local mode fdc)
        (λ _.
          if-cases (Local fdc) (is_write mode && not (next == (head_of fdc).segment_id)) _ _
            (λ _. stop-Local (Local-refl fdc) do_abort)
            (λ _. Local-trans (setup_next-Local next fdc) (start_segment-Local mode _)))

  -- The head as it is given back, and the step to the buffer behind it.
  abbrev pub finished : FdcInfo → FdcInfo
  finished fdc =
      step_head (set_head fdc (record (head_of fdc) { bytes = (head_of fdc).ptr; status = done }))

  pub segment_completed-Local :
      (mode : FdcMode) (fdc : FdcInfo) → Local (finished fdc) (segment_completed cfg mode fdc)
  unfolding segment_completed
  segment_completed-Local mode fdc =
      let b : Buffer = head_of fdc in
      if-cases (Local (finished fdc)) (add_word b.segment_id 1 % cfg.tape.segments_per_track == 0) _
        _ (λ _. stop-Local (Local-refl (finished fdc)) logical_eot)
        (λ _.
          if-cases (Local (finished fdc)) (b.next_segment == 0) _ _
            (λ _. pause_runner-Local mode (finished fdc))
            (λ _. next_buffer-Local mode b.next_segment (finished fdc)))

  segment_completed-Step :
      (mode : FdcMode) (fdc : FdcInfo) → Step fdc (segment_completed cfg mode fdc)
  segment_completed-Step mode fdc =
      Step-Step
        (set_head-Local fdc (record (head_of fdc) { bytes = (head_of fdc).ptr; status = done })
          refl)
        (segment_completed-Local mode fdc)

  continue_segment-Step :
      (mode : FdcMode) (fdc : FdcInfo) → Step fdc (continue_segment cfg mode fdc)
  unfolding continue_segment
  continue_segment-Step mode fdc =
      if-cases (Step fdc) (ltb 0 (head_of (set_head fdc (next_cluster (head_of fdc)))).sector_count)
        _ _
        (λ _. then-Step (found-Local fdc) (
          cluster_started-Step _ (setup_head cfg mode (set_head fdc (next_cluster (head_of fdc))))))
        (λ _. then-Step (found-Local fdc) (segment_completed-Step mode _))

  pub continue_xfer-Step :
      (mode : FdcMode) (skip : ℕ) (fdc : FdcInfo) → Step fdc (continue_xfer cfg mode skip fdc)
  unfolding continue_xfer
  continue_xfer-Step mode skip fdc =
      if-cases (Step fdc) (ltb 0 skip && unexpected mode fdc) _ _
        (λ _. give_up-Step (Local-refl fdc) (head_of fdc) refl)
        (λ _.
          if-cases (Step fdc) (ltb 0 (head_of fdc).remaining) _ _
            (λ _. continue_segment-Step mode fdc) (λ _. segment_completed-Step mode fdc))

pub retry_sector-Local :
    (mode : FdcMode) (skip : ℕ) (fdc : FdcInfo) → Local fdc (retry_sector mode skip fdc)
unfolding retry_sector
retry_sector-Local mode skip fdc =
    status-Local
      (Local-trans (schedule_pause_tape-Local true mode fdc) (
        set_head-Local _
          (record (head_of (schedule_pause_tape true mode fdc)) { status = error; skip = skip })
          refl))
      aborting
