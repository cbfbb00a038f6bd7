-- ===== src/Xfer/Busy/Reading.antt =====
-- A segment is read without errors, interrupt by interrupt (ftape/lowlevel/fdc-isr.c).
pub mod Advance
pub mod Whole
pub mod Segment
use ftape.Prelude.{
  ℕ, zero, suc, ◌+◌, ◌-◌, ◌*◌, ◌/◌, ◌^◌, ◌≤◌, ◌<◌, ltb, ltb→lt, leb, ◌==◌, ==_iff, if◌then◌else◌,
  if-cases, Bool, true, false, Bool-cases, List, [], ◌∷◌, ◌≡◌, ◌≢◌, refl, sym, ap, subst, ◌∙◌, ◌⊎◌,
  inl, inr, arith,
}
use ftape.Prelude.Int.{ℤ}
use ftape.Prelude.Words.{sub_word}
use ftape.Buf.Ring.{done}
use ftape.Isr.Cause.{no_error}
use ftape.Isr.Progress.{sector_size, is_error, counted, advance, determine_progress}
use ftape.Rw.Cluster
use ftape.Rw.Cluster.{calc_next_cluster}
use ftape.Rw.Cluster.Laws.{Run, IsNextCluster, calc_next_cluster_lem}
use ftape.Rw.Cluster.Good.{good_sectors, next_cluster-good, good-advance}
use ftape.Fdc.Wait.{Chip, fdc_reading_data, fails}
use ftape.Fdc.Setup
use ftape.Fdc.Setup.{fdc_setup_read_write}
use ftape.Fdc.Setup.Laws.{reads_data, fdc_setup_read_write-mode}
use ftape.Xfer.State.{
  Buffer, FdcInfo, Config, running, head_of, set_head, next_cluster, progress, with_progress,
  cluster,
}
use ftape.Xfer.State.Local.{head-set}
use ftape.Xfer.Continue.{
  setup_head, cluster_started, segment_completed, continue_segment, continue_xfer,
}
use ftape.Xfer.Continue.Flight.{segment_completed-behind}
use ftape.Xfer.Head.{has_deleted, head_progress}
use ftape.Isr.Cause.{decode_irq_cause}
use ftape.Isr.Verify.{fdc_count}
use ftape.Bsm.Entry.{fake_segment}
use ftape.Buf.Ring.{verifying}
use ftape.Prelude.Words.{minus_one}
use ftape.Xfer.State.{state_number}
use ftape.Xfer.Head.{byte}
use ftape.Xfer.Busy.{handle_result}

-- The sectors of the buffer's map that are good, and the pointer behind them.
abbrev pub good_left : Buffer → ℕ
unfolding good_sectors
good_left b = good_sectors b.bad_sector_map b.remaining

abbrev pub end_ptr : Buffer → ℕ
unfolding good_left
end_ptr b = b.ptr + good_left b * sector_size

-- The buffer waits for the sectors of its cluster, which are good and lie in the segment.
pub record IsAtCluster (b : Buffer) : Type 0 where
  pub small : b.remaining ≤ 32
  pub sectors : 0 < b.sector_count
  pub fits : b.sector_count ≤ b.remaining
  pub good : Run 0 b.bad_sector_map b.sector_count

-- `b'` is `b` after some of its sectors were read.
pub record IsLater (b b' : Buffer) : Type 0 where
  pub end : end_ptr b' ≡ end_ptr b
  pub fewer : b'.remaining ≤ b.remaining
  pub soft : b'.soft_error_map ≡ b.soft_error_map
  pub hard : b'.hard_error_map ≡ b.hard_error_map
  pub next : b'.next ≡ b.next

pub IsLater-trans : {a b c : Buffer} → IsLater a b → IsLater b c → IsLater a c
IsLater-trans p q = record {
  end = q.end ∙ p.end;
  fewer = omega (arith, p.fewer, q.fewer);
  soft = q.soft ∙ p.soft;
  hard = q.hard ∙ p.hard;
  next = q.next ∙ p.next;
}

-- The head after a transfer of its whole cluster.
abbrev pub after_cluster : Config → Buffer → Buffer
unfolding determine_progress
after_cluster cfg b =
    with_progress b (determine_progress cfg.soft_retries (progress b) no_error b.sector_count)

-- A head whose ring goes on elsewhere, with a read of its cluster in flight.
pub record Reads (fdc : FdcInfo) : Type 0 where
  pub runs : fdc.runner_status ≡ running
  pub mode : fdc.chip.mode ≡ fdc_reading_data
  pub apart : (head_of fdc).next ≢ fdc.head
  pub at : IsAtCluster (head_of fdc)

-- The buffer `h` was given back complete, as `b` was to be read, and the head is the next one.
pub record Completes (b : Buffer) (h : ℕ) (g : FdcInfo) : Type 0 where
  pub head : g.head ≡ b.next
  pub status : (g.buffers h).status ≡ done
  pub bytes : (g.buffers h).bytes ≡ end_ptr b
  pub soft : (g.buffers h).soft_error_map ≡ b.soft_error_map
  pub hard : (g.buffers h).hard_error_map ≡ b.hard_error_map

-- One interrupt: the next cluster of the segment is in flight, or the segment is complete.
pub data Advances (b : Buffer) (h : ℕ) (g : FdcInfo) : Type 0 where
  goes_on :
      g.head ≡ h
      → Reads g
      → IsLater b (head_of g)
      → (head_of g).remaining < b.remaining
      → Advances b h g
  completes : Completes b h g → Advances b h g

no_sectors : (map n : ℕ) → n ≡ 0 → good_sectors map n ≡ 0
unfolding good_sectors
no_sectors map n e = ap (good_sectors map) e

module _ (cfg : Config) where
  pub after_cluster_lem :
      (b : Buffer)
      → IsAtCluster b
      → IsLater b (after_cluster cfg b) × ((after_cluster cfg b).remaining < b.remaining)
  unfolding after_cluster determine_progress is_error counted advance end_ptr good_left
  after_cluster_lem b at =
      let e : ltb 0 b.sector_count ≡ true = ground (arith, at.sectors) in
      let less : sub_word b.remaining b.sector_count ≡ b.remaining - b.sector_count =
        omega (arith, at.small, at.fits) in
      let counted_off = good-advance b.bad_sector_map b.remaining b.sector_count at.good at.fits in
      let left = ap (good_sectors (b.bad_sector_map / 2 ^ b.sector_count)) less in
      rw e (
        record {
          end = omega (arith, counted_off, left);
          fewer = omega (arith, less);
          soft = refl;
          hard = refl;
          next = refl;
        },
        omega (arith, at.small, at.fits, at.sectors),
      )

  pub next_cluster-IsLater : (b : Buffer) → IsLater b (next_cluster b)
  unfolding next_cluster end_ptr good_left
  next_cluster-IsLater b =
      let c : Cluster.Buffer = record {
        bad_sector_map = b.bad_sector_map;
        sector_offset = b.sector_offset;
        remaining = b.remaining;
        sector_count = b.sector_count;
      } in
      let h : IsNextCluster c (calc_next_cluster c) = calc_next_cluster_lem c in
      record {
        end = ap (λ (n : ℕ). b.ptr + n * sector_size) (next_cluster-good c);
        fewer = omega (arith, h.rest);
        soft = refl;
        hard = refl;
        next = refl;
      }

  pub next_cluster-IsAtCluster :
      (b : Buffer)
      → b.remaining ≤ 32
      → 0 < (next_cluster b).sector_count
      → IsAtCluster (next_cluster b)
  unfolding next_cluster
  next_cluster-IsAtCluster b word some =
      let c : Cluster.Buffer = record {
        bad_sector_map = b.bad_sector_map;
        sector_offset = b.sector_offset;
        remaining = b.remaining;
        sector_count = b.sector_count;
      } in
      let h : IsNextCluster c (calc_next_cluster c) = calc_next_cluster_lem c in
      record {
        small = omega (arith, h.rest, word);
        sectors = some;
        fits = elim h.maximal [ inl all ↦ omega (arith, all) | inr more ↦ omega (arith, more.0) ];
        good = h.good;
      }

  pub next_cluster-none :
      (b : Buffer) → (next_cluster b).sector_count ≡ 0 → (next_cluster b).remaining ≡ 0
  unfolding next_cluster
  next_cluster-none b none =
      let c : Cluster.Buffer = record {
        bad_sector_map = b.bad_sector_map;
        sector_offset = b.sector_offset;
        remaining = b.remaining;
        sector_count = b.sector_count;
      } in
      let h : IsNextCluster c (calc_next_cluster c) = calc_next_cluster_lem c in
      elim h.some_sector [ inl all ↦ all | inr more ↦ absurd (omega (arith, more, none)) ]

  -- The segment ends with a head that has no sectors left.
  pub segment_completed-Completes :
      (b : Buffer) (h : ℕ) (fdc : FdcInfo)
      → fdc.head ≡ h
      → b.next ≢ h
      → IsLater b (head_of fdc)
      → (head_of fdc).remaining ≡ 0
      → Completes b h (segment_completed cfg fdc_reading_data fdc)
  unfolding end_ptr good_left
  segment_completed-Completes b h fdc at apart later none =
      let left =
        segment_completed-behind cfg fdc_reading_data reads_data fdc
          (λ e. apart (sym later.next ∙ e ∙ at)) in
      let old : (segment_completed cfg fdc_reading_data fdc).buffers h
          ≡ record (head_of fdc) { bytes = (head_of fdc).ptr; status = done } =
        ap (segment_completed cfg fdc_reading_data fdc).buffers (sym at) ∙ left.1 in
      let all = no_sectors (head_of fdc).bad_sector_map (head_of fdc).remaining none in
      record {
        head = left.0 ∙ later.next;
        status = ap (λ (t : Buffer). t.status) old;
        bytes = ap (λ (t : Buffer). t.bytes) old ∙ omega (arith, all, later.end);
        soft = ap (λ (t : Buffer). t.soft_error_map) old ∙ later.soft;
        hard = ap (λ (t : Buffer). t.hard_error_map) old ∙ later.hard;
      }
