-- ===== src/Xfer/Busy/Reading/Advance.antt =====
-- The next cluster of a read is set up, or the segment is complete (ftape/lowlevel/fdc-isr.c).
use ftape.Prelude.{
  ◌≤◌, ◌<◌, ltb, ltb→lt, if-cases, false, ◌≡◌, ◌≢◌, refl, sym, ap, subst, ◌∙◌, arith,
}
use ftape.Fdc.Wait.{Chip, fdc_reading_data, fails}
use ftape.Fdc.Setup
use ftape.Fdc.Setup.{fdc_setup_read_write}
use ftape.Fdc.Setup.Laws.{reads_data, fdc_setup_read_write-mode}
use ftape.Xfer.State.{Buffer, FdcInfo, Config, running, head_of, set_head, next_cluster, cluster}
use ftape.Xfer.State.Local.{head-set}
use ftape.Xfer.Continue.{setup_head, cluster_started, continue_segment, continue_xfer}
use ftape.Xfer.Busy.Reading.{
  IsAtCluster, IsLater, IsLater-trans, Advances, goes_on, completes, next_cluster-IsLater,
  next_cluster-IsAtCluster, next_cluster-none, segment_completed-Completes,
}

-- Every command for a read goes through.
abbrev pub GoesThrough : Config → Type 0
GoesThrough cfg =
    (c : Setup.Cluster) (chip : Chip)
    → fails (fdc_setup_read_write cfg.model cfg.ports cfg.tape c fdc_reading_data chip).0 ≡ false

module _ (cfg : Config) (sent : GoesThrough cfg) where
  cluster_started-Advances :
      (b : Buffer) (fdc : FdcInfo)
      → fdc.runner_status ≡ running
      → (head_of fdc).next ≢ fdc.head
      → IsAtCluster (head_of fdc)
      → IsLater b (head_of fdc)
      → (head_of fdc).remaining < b.remaining
      → Advances b fdc.head (cluster_started cfg fdc (setup_head cfg fdc_reading_data fdc))
  unfolding cluster_started
  cluster_started-Advances b fdc runs apart at later less =
      let fine : fails (setup_head cfg fdc_reading_data fdc).0 ≡ false =
        sent (cluster (head_of fdc)) fdc.chip in
      rw fine (
        goes_on refl
          (record {
            runs = runs;
            mode =
                fdc_setup_read_write-mode cfg.model cfg.ports cfg.tape (cluster (head_of fdc))
                  fdc_reading_data fdc.chip reads_data fine;
            apart = apart;
            at = at;
          })
          later less)

  continue_segment-Advances :
      (b : Buffer) (fdc : FdcInfo)
      → fdc.runner_status ≡ running
      → b.next ≢ fdc.head
      → b.remaining ≤ 32
      → IsLater b (head_of fdc)
      → (head_of fdc).remaining < b.remaining
      → Advances b fdc.head (continue_segment cfg fdc_reading_data fdc)
  unfolding continue_segment
  continue_segment-Advances b fdc runs apart word later less =
      let n : Buffer = next_cluster (head_of fdc) in
      let found : FdcInfo = set_head fdc n in
      let is : head_of found ≡ n = head-set fdc n in
      let onward : IsLater b n = IsLater-trans later (next_cluster-IsLater cfg (head_of fdc)) in
      let then' : IsLater b (head_of found) = subst (IsLater b) (sym is) onward in
      let fewer : n.remaining ≤ (head_of fdc).remaining =
        (next_cluster-IsLater cfg (head_of fdc)).fewer in
      if-cases (Advances b fdc.head) (ltb 0 (head_of found).sector_count) _ _
        (λ some.
          cluster_started-Advances b found runs (λ e. apart (sym then'.next ∙ e))
            (subst IsAtCluster (sym is) (
              next_cluster-IsAtCluster cfg (head_of fdc) (omega (arith, word, less))
                (subst (λ (t : Buffer). 0 < t.sector_count) is (ltb→lt _ _ some))))
            then' (omega (arith, ap (λ (t : Buffer). t.remaining) is, fewer, less)))
        (λ none. completes (
          segment_completed-Completes cfg b fdc.head found refl apart then' (
            ap (λ (t : Buffer). t.remaining) is
            ∙ next_cluster-none cfg (head_of fdc)
                (ap (λ (t : Buffer). t.sector_count) (sym is) ∙ ground (arith, none)))))

  pub continue_xfer-Advances :
      (b : Buffer) (fdc : FdcInfo)
      → fdc.runner_status ≡ running
      → b.next ≢ fdc.head
      → b.remaining ≤ 32
      → IsLater b (head_of fdc)
      → (head_of fdc).remaining < b.remaining
      → Advances b fdc.head (continue_xfer cfg fdc_reading_data 0 fdc)
  unfolding continue_xfer
  continue_xfer-Advances b fdc runs apart word later less =
      if-cases (Advances b fdc.head) (ltb 0 (head_of fdc).remaining) _ _
        (λ _. continue_segment-Advances b fdc runs apart word later less)
        (λ none.
          completes (
            segment_completed-Completes cfg b fdc.head fdc refl apart later (ground (arith, none))))
