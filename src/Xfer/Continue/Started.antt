-- ===== src/Xfer/Continue/Started.antt =====
-- The start of the next buffer in `continue_xfer` (ftape/lowlevel/fdc-isr.c).
use ftape.Prelude.{
  ℕ, ◌<◌, ◌==◌, if-cases, true, false, not, ◌&&◌, ◌≡◌, refl, sym, subst, ◌∙◌, ◌⊎◌, inl, inr, arith,
}
use ftape.Prelude.Int.{ℤ}
use ftape.Buf.Ring.{waiting, done, error}
use ftape.Fdc.Wait.{Chip, FdcMode, fdc_idle, fails}
use ftape.Fdc.Setup.{is_write}
use ftape.Fdc.Setup.Laws.{IsTransfer, mode_in_flight, fdc_setup_read_write-mode}
use ftape.Rw.Setup
use ftape.Rw.Setup.{setup_new_segment}
use ftape.Xfer.State.{
  Buffer, FdcInfo, Config, RunnerStatus, running, do_abort, head_of, set_head, next_cluster,
  has_status, cluster, setup_part, state_number,
}
use ftape.Xfer.State.Local.{head-set}
use ftape.Xfer.Continue.{
  is_running, is_read, schedule_pause_tape, pause_runner, stop, setup_head, setup_next, next_set_up,
  segment_started, start_segment, next_buffer, working_status,
}

-- The controller works on a cluster of the head, and its interrupt will come.
pub record InFlight (cfg : Config) (mode : FdcMode) (g : FdcInfo) : Type 0 where
  pub runs : g.runner_status ≡ running
  pub sectors : 0 < (head_of g).sector_count
  pub command : g.chip.mode ≡ mode_in_flight cfg.model mode

-- No transfer goes on: the controller is taken to be idle, or the tape will be paused.
pub record Halts (g : FdcInfo) : Type 0 where
  pub stands : is_running g.runner_status ≡ false
  pub quiet : (g.chip.mode ≡ fdc_idle) ⊎ (g.hide_interrupt ≡ true)

-- A buffer that was given back, with the bytes up to its pointer, or failed.
pub data Released (b : Buffer) : Type 0 where
  complete : b.status ≡ done → b.bytes ≡ b.ptr → Released b
  failed : b.status ≡ error → Released b

-- The head `h` goes on, or it is given back and the next one, `n`, goes on or the runner stops.
pub data Goes (cfg : Config) (mode : FdcMode) (h n : ℕ) (g : FdcInfo) : Type 0 where
  stays_in_segment : g.head ≡ h → InFlight cfg mode g → Goes cfg mode h n g
  moves_on :
      g.head ≡ n → Released (g.buffers h) → InFlight cfg mode g ⊎ Halts g → Goes cfg mode h n g

-- Either outcome for the buffer that is now at the head.
abbrev pub GoesOn : Config → FdcMode → FdcInfo → Type 0
GoesOn cfg mode g = InFlight cfg mode g ⊎ Halts g

pub pause-Halts : (mode : FdcMode) (fdc : FdcInfo) → Halts (pause_runner mode fdc)
unfolding pause_runner schedule_pause_tape is_read
pause-Halts mode fdc = record { stands = refl; quiet = inr refl }

pub stop-Halts : (s : RunnerStatus) (fdc : FdcInfo) → is_running s ≡ false → Halts (stop s fdc)
stop-Halts s fdc e = record { stands = e; quiet = inl refl }

next_set_up-runner :
    (cfg : Config) (fdc : FdcInfo) (r : Setup.Driver × Setup.Buffer)
    → (next_set_up cfg fdc r).runner_status ≡ fdc.runner_status
unfolding next_set_up
next_set_up-runner cfg fdc (driver, s) = refl

module _ (cfg : Config) (mode : FdcMode) (transfer : IsTransfer mode) where
  segment_started-Goes :
      (fdc : FdcInfo)
      → fdc.runner_status ≡ running
      → 0 < (head_of fdc).sector_count
      → GoesOn cfg mode (segment_started cfg mode fdc (setup_head cfg mode fdc))
  unfolding segment_started
  segment_started-Goes fdc runs some =
      let r : ℤ × Chip = setup_head cfg mode fdc in
      if-cases (GoesOn cfg mode) (fails r.0) _ _
        (λ _. inr (record { stands = refl; quiet = inl refl }))
        (λ fine. inl (record {
          runs = runs;
          sectors =
              subst (λ (b : Buffer). 0 < b.sector_count)
                (sym (
                  head-set (record fdc { chip = r.1 })
                    (record (head_of fdc) { status = working_status fdc.driver_state mode })))
                some;
          command =
              fdc_setup_read_write-mode cfg.model cfg.ports cfg.tape (cluster (head_of fdc)) mode
                fdc.chip transfer fine;
        }))

  start_segment-Goes :
      (fdc : FdcInfo) → fdc.runner_status ≡ running → GoesOn cfg mode (start_segment cfg mode fdc)
  unfolding start_segment
  start_segment-Goes fdc runs =
      let found : FdcInfo = set_head fdc (next_cluster (head_of fdc)) in
      if-cases (GoesOn cfg mode) ((head_of found).sector_count == 0) _ _
        (λ _. inr (stop-Halts do_abort found refl))
        (λ some. segment_started-Goes found runs (ground (arith, some)))

  pub next_buffer-Goes :
      (next : ℕ) (fdc : FdcInfo)
      → fdc.runner_status ≡ running
      → GoesOn cfg mode (next_buffer cfg mode next fdc)
  unfolding next_buffer setup_next
  next_buffer-Goes next fdc runs =
      if-cases (GoesOn cfg mode) (not (has_status (head_of fdc) waiting)) _ _
        (λ _. inr (pause-Halts mode fdc))
        (λ _.
          if-cases (GoesOn cfg mode) (is_write mode && not (next == (head_of fdc).segment_id)) _ _
            (λ _. inr (stop-Halts do_abort fdc refl))
            (λ _. start_segment-Goes (setup_next cfg next fdc) (
              next_set_up-runner cfg fdc (
                setup_new_segment cfg.bad cfg.geometry cfg.ignore_ecc_err
                  (record fdc.setup { state = state_number fdc.driver_state })
                  (setup_part (head_of fdc)) next false)
              ∙ runs)))
