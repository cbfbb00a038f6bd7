-- ===== src/Xfer/Continue/Flight.antt =====
-- After `continue_xfer` (ftape/lowlevel/fdc-isr.c) a transfer is in flight, or the runner stopped.
use ftape.Prelude.{
  ℕ, ◌%◌, ◌<◌, ltb, ltb→lt, ◌==◌, if-cases, ◌&&◌, ◌≡◌, ◌≢◌, refl, sym, ap, subst, ◌∙◌, inr,
}
use ftape.Prelude.Int.{ℤ}
use ftape.Prelude.Words.{add_word}
use ftape.Buf.Ring.{done, error}
use ftape.Fdc.Wait.{Chip, FdcMode, fails}
use ftape.Fdc.Setup.Laws.{IsTransfer, fdc_setup_read_write-mode}
use ftape.Xfer.State.{
  Buffer, FdcInfo, Config, running, aborting, logical_eot, head_of, set_head, step_head,
  next_cluster, cluster,
}
use ftape.Xfer.State.Local.{Local, Local-refl, head-set}
use ftape.Xfer.Continue.{
  unexpected, give_up, setup_head, cluster_started, segment_completed, continue_segment,
  continue_xfer,
}
use ftape.Xfer.Continue.Local.{stop-Local, found-Local, finished, segment_completed-Local}
use ftape.Xfer.Continue.Started.{
  Released, Goes, complete, failed, stays_in_segment, moves_on, GoesOn, stop-Halts, pause-Halts,
  next_buffer-Goes,
}

module _ (cfg : Config) (mode : FdcMode) (transfer : IsTransfer mode) where
  -- What is left behind at the old head.
  left_behind :
      (fdc : FdcInfo) (b : Buffer) (g : FdcInfo)
      → (head_of fdc).next ≢ fdc.head
      → b.next ≡ (head_of fdc).next
      → Local (step_head (set_head fdc b)) g
      → (g.head ≡ (head_of fdc).next) × (g.buffers fdc.head ≡ b)
  left_behind fdc b g apart same kept =
      let stays : (head_of (set_head fdc b)).next ≡ (head_of fdc).next =
        ap (λ (t : Buffer). t.next) (head-set fdc b) ∙ same in
      (kept.head ∙ stays, kept.others fdc.head (λ e. apart (sym stays ∙ sym e)) ∙ head-set fdc b)

  -- The next buffer goes on, or the runner stands.
  segment_completed-GoesOn :
      (fdc : FdcInfo)
      → fdc.runner_status ≡ running
      → GoesOn cfg mode (segment_completed cfg mode fdc)
  unfolding segment_completed
  segment_completed-GoesOn fdc runs =
      let b : Buffer = head_of fdc in
      let ended : FdcInfo = finished cfg fdc in
      if-cases (GoesOn cfg mode) (add_word b.segment_id 1 % cfg.tape.segments_per_track == 0) _ _
        (λ _. inr (stop-Halts logical_eot ended refl))
        (λ _.
          if-cases (GoesOn cfg mode) (b.next_segment == 0) _ _ (λ _. inr (pause-Halts mode ended))
            (λ _. next_buffer-Goes cfg mode transfer b.next_segment ended runs))

  pub segment_completed-behind :
      (fdc : FdcInfo)
      → (head_of fdc).next ≢ fdc.head
      → ((segment_completed cfg mode fdc).head ≡ (head_of fdc).next)
        × ((segment_completed cfg mode fdc).buffers fdc.head
            ≡ record (head_of fdc) { bytes = (head_of fdc).ptr; status = done })
  segment_completed-behind fdc apart =
      left_behind fdc (record (head_of fdc) { bytes = (head_of fdc).ptr; status = done }) _ apart
        refl (segment_completed-Local cfg mode fdc)

  segment_completed-Goes :
      (fdc : FdcInfo)
      → fdc.runner_status ≡ running
      → (head_of fdc).next ≢ fdc.head
      → Goes cfg mode fdc.head (head_of fdc).next (segment_completed cfg mode fdc)
  segment_completed-Goes fdc runs apart =
      let left = segment_completed-behind fdc apart in
      moves_on left.0 (subst Released (sym left.1) (complete refl refl))
        (segment_completed-GoesOn fdc runs)

  give_up-Goes :
      (fdc : FdcInfo) (b : Buffer)
      → (head_of fdc).next ≢ fdc.head
      → b.next ≡ (head_of fdc).next
      → Goes cfg mode fdc.head (head_of fdc).next (give_up fdc b)
  give_up-Goes fdc b apart same =
      let failing : Buffer = record b { status = error } in
      let moved : FdcInfo = step_head (set_head fdc failing) in
      let left =
        left_behind fdc failing (give_up fdc b) apart same
          (stop-Local (Local-refl moved) aborting) in
      moves_on left.0 (subst Released (sym left.1) (failed refl))
        (inr (stop-Halts aborting moved refl))

  cluster_started-Goes :
      (fdc : FdcInfo)
      → fdc.runner_status ≡ running
      → (head_of fdc).next ≢ fdc.head
      → 0 < (head_of fdc).sector_count
      → Goes cfg mode fdc.head
          (head_of fdc).next
          (cluster_started cfg fdc (setup_head cfg mode fdc))
  unfolding cluster_started
  cluster_started-Goes fdc runs apart some =
      let r : ℤ × Chip = setup_head cfg mode fdc in
      if-cases (Goes cfg mode fdc.head (head_of fdc).next) (fails r.0) _ _
        (λ _.
          give_up-Goes (record fdc { chip = r.1 })
            (record (head_of fdc) { bytes = (head_of fdc).ptr }) apart refl)
        (λ fine. stays_in_segment refl (record {
          runs = runs;
          sectors = some;
          command =
              fdc_setup_read_write-mode cfg.model cfg.ports cfg.tape (cluster (head_of fdc)) mode
                fdc.chip transfer fine;
        }))

  -- After the search for the next cluster, which leaves the ring.
  found-Goes :
      (fdc g : FdcInfo)
      → let found = set_head fdc (next_cluster (head_of fdc)) in
        Goes cfg mode fdc.head (head_of found).next g → Goes cfg mode fdc.head (head_of fdc).next g
  found-Goes fdc g = subst (λ (n : ℕ). Goes cfg mode fdc.head n g) ((found-Local fdc).ring fdc.head)

  continue_segment-Goes :
      (fdc : FdcInfo)
      → fdc.runner_status ≡ running
      → (head_of fdc).next ≢ fdc.head
      → Goes cfg mode fdc.head (head_of fdc).next (continue_segment cfg mode fdc)
  unfolding continue_segment
  continue_segment-Goes fdc runs apart =
      let found : FdcInfo = set_head fdc (next_cluster (head_of fdc)) in
      let apart' : (head_of found).next ≢ fdc.head =
        λ e. apart (sym ((found-Local fdc).ring fdc.head) ∙ e) in
      if-cases (Goes cfg mode fdc.head (head_of fdc).next) (ltb 0 (head_of found).sector_count) _ _
        (λ some. found-Goes fdc _ (cluster_started-Goes found runs apart' (ltb→lt _ _ some)))
        (λ _. found-Goes fdc _ (segment_completed-Goes found runs apart'))

  -- In a ring of more than one buffer, continue_xfer for a transfer and a runner that runs has one
  -- of these outcomes. The segment goes on with a cluster in flight, whose command sets the mode.
  -- Or the head was given back, complete up to its pointer or failed, and the buffer behind it goes
  -- on with a cluster in flight, or the runner stands with the controller idle or a pause to come.
  pub continue_xfer-Goes :
      (skip : ℕ) (fdc : FdcInfo)
      → fdc.runner_status ≡ running
      → (head_of fdc).next ≢ fdc.head
      → Goes cfg mode fdc.head (head_of fdc).next (continue_xfer cfg mode skip fdc)
  unfolding continue_xfer
  continue_xfer-Goes skip fdc runs apart =
      if-cases (Goes cfg mode fdc.head (head_of fdc).next) (ltb 0 skip && unexpected mode fdc) _ _
        (λ _. give_up-Goes fdc (head_of fdc) apart refl)
        (λ _.
          if-cases (Goes cfg mode fdc.head (head_of fdc).next) (ltb 0 (head_of fdc).remaining) _ _
            (λ _. continue_segment-Goes fdc runs apart)
            (λ _. segment_completed-Goes fdc runs apart))
