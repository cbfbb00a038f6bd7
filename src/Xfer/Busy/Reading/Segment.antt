-- ===== src/Xfer/Busy/Reading/Segment.antt =====
-- Result phases without error read a whole segment (ftape/lowlevel/fdc-isr.c).
use ftape.Prelude.{
  true, ℕ, ◌^◌, ◌≤◌, ◌<◌, ltb, if-cases, false, List, [], ◌∷◌, length, if◌then◌else◌, ◌==◌, ==_iff,
  ◌+◌, ◌%◌, ap₂, ◌⊎◌, inl, inr, ◌≡◌, refl, sym, ap, subst, ◌∙◌, arith,
}
use ftape.Isr.Progress
use ftape.Isr.Progress.{is_error}
use ftape.Fdc.Wait.{fdc_reading_data}
use ftape.Xfer.State.{Buffer, FdcInfo, Config, head_of, set_head, progress, with_progress}
use ftape.Xfer.State.Local.{head-set}
use ftape.Xfer.Continue.{continue_xfer, retry_sector}
use ftape.Xfer.Head.{has_deleted, head_progress}
use ftape.Isr.Cause.{no_error, decode_irq_cause}
use ftape.Isr.Verify.{get_transfer_size, check_transfer_size, eagain}
use ftape.Prelude.Words.{minus_one}
use ftape.Bsm.Entry.{fake_segment}
use ftape.Xfer.Format.{terminate_dma}
use ftape.Xfer.Head.{byte, transfer_size}
use ftape.Xfer.Busy.{
  read_sized, handle_mode, handle_result, transferred_by, mode_in, note_abort, is_do_abort,
  is_aborting,
}
use ftape.Xfer.Busy.Reading.Whole.{IsWhole, AreWhole, read_through, round-Completes}
use ftape.Xfer.Busy.Reading.{
  IsAtCluster, IsLater, after_cluster, Reads, Completes, Advances, goes_on, completes,
  after_cluster_lem,
}
use ftape.Xfer.Busy.Reading.Advance.{GoesThrough, continue_xfer-Advances}

check_transfer_size-whole :
    (b : Progress.Buffer) (residue : ℕ)
    → b.sector_count < 2 ^ 32
    → (residue ≡ 0) ⊎ (residue ≡ minus_one)
    → check_transfer_size b no_error b.sector_count residue ≡ (b.sector_count, b)
unfolding check_transfer_size is_error
check_transfer_size-whole b residue small (inr e) = rw e refl
check_transfer_size-whole b residue small (inl e) =
    let n : ℕ = b.sector_count in
    let fits : ltb n ((n + 0) % 2 ^ 32) ≡ false = ground (arith, small) in
    let same : (n == n) ≡ true = (==_iff n n).1 refl in rw (e, fits, same) refl

module _ (cfg : Config) (sent : GoesThrough cfg) where
  sized-Advances :
      (result : List ℕ) (fdc : FdcInfo)
      → has_deleted cfg result ≡ false
      → Reads fdc
      → Advances
          (head_of fdc)
          fdc.head
          (read_sized cfg result no_error (head_of fdc).sector_count fdc)
  unfolding read_sized is_error head_progress after_cluster
  sized-Advances result fdc undeleted r =
      let b : Buffer = head_of fdc in
      let moved : FdcInfo = set_head fdc (after_cluster cfg b) in
      let is : head_of moved ≡ after_cluster cfg b = head-set fdc (after_cluster cfg b) in
      let after = after_cluster_lem cfg b r.at in
      rw undeleted (
        subst (λ m. Advances b fdc.head (continue_xfer cfg m 0 moved)) (sym r.mode)
          (continue_xfer-Advances cfg sent b moved r.runs r.apart r.at.small
            (subst (IsLater b) (sym is) after.0)
            (omega (arith, ap (λ (t : Buffer). t.remaining) is, after.1))))

  -- The state after the end of the DMA transfer.
  abbrev ended : FdcInfo → FdcInfo
  ended fdc =
      set_head (record fdc { chip = record fdc.chip { transfers = fdc.chip.transfers + 1 } })
        (head_of fdc)

  -- A read with the size that `get_transfer_size` gave.
  abbrev sized_by : (result : List ℕ) → ℕ × FdcInfo → FdcInfo
  sized_by result p =
      let b = head_of p.1 in
      if b.bad_sector_map == fake_segment
      then continue_xfer cfg p.1.chip.mode 1 (set_head p.1 (record b { remaining = 0 }))
      else if p.0 == eagain
      then retry_sector p.1.chip.mode 0 p.1
      else read_sized cfg result no_error p.0 p.1

  transfer_size-whole :
      (result : List ℕ) (fdc : FdcInfo)
      → Reads fdc
      → IsWhole cfg fdc result
      → transfer_size cfg result no_error fdc ≡ ((head_of fdc).sector_count, ended fdc)
  unfolding transfer_size terminate_dma get_transfer_size
  transfer_size-whole result fdc r w =
      let b : Buffer = head_of fdc in
      let residue : ℕ = cfg.ports.residue fdc.chip.transfers in
      ap
        (λ (p : ℕ × Progress.Buffer). (
          p.0,
          set_head (record fdc { chip = record fdc.chip { transfers = fdc.chip.transfers + 1 } })
              (with_progress b p.1),
        ))
        (ap (λ n. check_transfer_size (progress b) no_error n residue) w.count
          ∙ check_transfer_size-whole (progress b) residue (omega (arith, r.at.small, r.at.fits))
              w.residue)

  handle_mode-whole :
      (result : List ℕ) (fdc : FdcInfo)
      → Reads fdc
      → IsWhole cfg fdc result
      → handle_mode cfg result
          (mode_in fdc.driver_state fdc.chip.mode)
          (decode_irq_cause (byte cfg result 0) (byte cfg result 1) (byte cfg result 2))
          fdc
        ≡ read_sized cfg result no_error (head_of fdc).sector_count (ended fdc)
  unfolding handle_mode transferred_by mode_in
  handle_mode-whole result fdc r w =
      let n : ℕ = (head_of fdc).sector_count in
      let is : head_of (ended fdc) ≡ head_of fdc = head-set fdc (head_of fdc) in
      let mode : mode_in fdc.driver_state fdc.chip.mode ≡ fdc_reading_data =
        ap (mode_in fdc.driver_state) r.mode ∙ rw w.reads refl in
      let real : ((head_of (ended fdc)).bad_sector_map == fake_segment) ≡ false =
        ap (λ (b : Buffer). b.bad_sector_map == fake_segment) is ∙ w.real in
      let not_eagain : (n == eagain) ≡ false = ground (arith, r.at.small, r.at.fits) in
      ap₂ (λ m c. handle_mode cfg result m c fdc) mode w.cause
      ∙ ap
          (λ s.
            if is_aborting s
            then fdc
            else transferred_by cfg result (read_sized cfg result) no_error fdc)
          r.runs
      ∙ ap (λ (p : ℕ × FdcInfo). sized_by result p) (transfer_size-whole result fdc r w)
      ∙ rw (real, not_eagain) refl

  note_abort-Advances :
      (b : Buffer) (h : ℕ) (g : FdcInfo) → Advances b h g → Advances b h (note_abort g)
  unfolding note_abort
  note_abort-Advances b h g (goes_on same reads later less) =
      if-cases (Advances b h) (is_do_abort g.runner_status) _ _
        (λ e. absurd (ground (arith, ap is_do_abort reads.runs, e)))
        (λ _. goes_on same reads later less)
  note_abort-Advances b h g (completes c) =
      if-cases (Advances b h) (is_do_abort g.runner_status) _ _
        (λ _. completes (record {
          head = c.head;
          status = c.status;
          bytes = c.bytes;
          soft = c.soft;
          hard = c.hard;
        }))
        (λ _. completes c)

  ended-Reads : (fdc : FdcInfo) → Reads fdc → Reads (ended fdc)
  ended-Reads fdc r =
      let is : head_of (ended fdc) ≡ head_of fdc = head-set fdc (head_of fdc) in
      record {
        runs = r.runs;
        mode = r.mode;
        apart = λ e. r.apart (ap (λ (t : Buffer). t.next) (sym is) ∙ e);
        at = subst IsAtCluster (sym is) r.at;
      }

  handle_result-Advances :
      (result : List ℕ) (fdc : FdcInfo)
      → Reads fdc
      → IsWhole cfg fdc result
      → Advances (head_of fdc) fdc.head (handle_result cfg result fdc)
  unfolding handle_result
  handle_result-Advances result fdc r w =
      let is : head_of (ended fdc) ≡ head_of fdc = head-set fdc (head_of fdc) in
      subst (λ g. Advances (head_of fdc) fdc.head (note_abort g))
        (sym (handle_mode-whole result fdc r w))
        (note_abort-Advances _ _ _ (
          subst
            (λ (b : Buffer).
              Advances b fdc.head (read_sized cfg result no_error b.sector_count (ended fdc)))
            is (sized-Advances result (ended fdc) w.undeleted (ended-Reads fdc r))))

  -- In a ring of more than one buffer, when every command for a read goes through and a read of
  -- the first cluster is in flight, and each result phase until the head goes on reports the
  -- whole cluster of the head, no error and no deleted data, for a real segment and a driver
  -- that does not verify, with a residue of the DMA that is 0 or not known, at least as many
  -- result phases as there are sectors left make the handler behind them complete the segment:
  -- its buffer is done, with the bytes of its good sectors behind those it had, no error is
  -- marked, and the head is the next buffer.
  pub read_through-Completes :
      (results : List (List ℕ)) (fdc : FdcInfo)
      → Reads fdc
      → AreWhole cfg fdc results
      → (head_of fdc).remaining ≤ length results
      → Completes (head_of fdc) fdc.head (read_through cfg results fdc)
  unfolding read_through AreWhole
  read_through-Completes [] fdc r whole enough =
      absurd (omega (arith, enough, r.at.sectors, r.at.fits))
  read_through-Completes (result ∷ results) fdc r whole enough =
      round-Completes (head_of fdc) fdc.head (length results) (handle_result cfg result fdc) _
        r.apart enough (handle_result-Advances result fdc r whole.0)
        (λ same reads few.
          read_through-Completes results (handle_result cfg result fdc) reads (whole.1 same) few)
