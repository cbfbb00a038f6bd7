-- ===== src/Xfer/Busy/Reading/Whole.antt =====
-- Result phases for whole clusters, one after the other (ftape/lowlevel/fdc-isr.c).
use ftape.Prelude.{
  ℕ, suc, ◌≤◌, ◌==◌, ==_iff, if◌then◌else◌, if-cases, true, false, List, [], ◌∷◌, ◌≡◌, ◌≢◌, sym,
  subst, ◌∙◌, ◌⊎◌, arith,
}
use ftape.Isr.Cause.{no_error}
use ftape.Xfer.State.{Buffer, FdcInfo, Config, head_of, progress}
use ftape.Xfer.Head.{has_deleted}
use ftape.Isr.Cause.{decode_irq_cause}
use ftape.Isr.Verify.{fdc_count}
use ftape.Bsm.Entry.{fake_segment}
use ftape.Buf.Ring.{verifying}
use ftape.Prelude.Words.{minus_one}
use ftape.Xfer.State.{state_number}
use ftape.Xfer.Head.{byte}
use ftape.Xfer.Busy.{handle_result}
use ftape.Xfer.Busy.Reading.{IsLater, Reads, Completes, Advances, goes_on, completes}

-- The result phase says that the whole cluster was transferred, without error and deleted data, for
-- a real segment and a driver that does not verify; the residue of the DMA is 0 or not known.
pub record IsWhole (cfg : Config) (fdc : FdcInfo) (result : List ℕ) : Type 0 where
  pub cause :
      decode_irq_cause (byte cfg result 0) (byte cfg result 1) (byte cfg result 2) ≡ no_error
  pub undeleted : has_deleted cfg result ≡ false
  pub count :
      fdc_count cfg.model.ditto_ez (progress (head_of fdc)) (byte cfg result 3) (byte cfg result 5)
      ≡ (head_of fdc).sector_count
  pub residue :
      (cfg.ports.residue fdc.chip.transfers ≡ 0)
      ⊎ (cfg.ports.residue fdc.chip.transfers ≡ minus_one)
  pub real : ((head_of fdc).bad_sector_map == fake_segment) ≡ false
  pub reads : (state_number fdc.driver_state == state_number verifying) ≡ false

-- That is so of each result, as long as the head stays.
unfoldable pub AreWhole : Config → FdcInfo → List (List ℕ) → Type 0
AreWhole cfg fdc [] = Unit {0}
AreWhole cfg fdc (result ∷ results) =
    IsWhole cfg fdc result
    × ((handle_result cfg result fdc).head ≡ fdc.head
        → AreWhole cfg (handle_result cfg result fdc) results)

-- The handler for one result phase after the other, until the head goes on.
unfoldable pub read_through : Config → (results : List (List ℕ)) → FdcInfo → FdcInfo
unfolding handle_result
read_through cfg [] fdc = fdc
read_through cfg (result ∷ results) fdc =
    let g = handle_result cfg result fdc in
    let rest = read_through cfg results g in if g.head == fdc.head then rest else g

-- What completes a later state of the buffer completes the buffer.
later-Completes :
    {b c : Buffer} {h : ℕ} {g : FdcInfo} → IsLater b c → Completes c h g → Completes b h g
later-Completes p q = record {
  head = q.head ∙ p.next;
  status = q.status;
  bytes = q.bytes ∙ p.end;
  soft = q.soft ∙ p.soft;
  hard = q.hard ∙ p.hard;
}

-- One round, for the rest of the rounds.
pub round-Completes :
    (b : Buffer) (h rounds : ℕ) (g rest : FdcInfo)
    → b.next ≢ h
    → b.remaining ≤ suc rounds
    → Advances b h g
    → (g.head ≡ h → Reads g → (head_of g).remaining ≤ rounds → Completes (head_of g) g.head rest)
    → Completes b h (if g.head == h then rest else g)
round-Completes b h rounds g rest apart enough (goes_on same reads later less) more =
    let e : (g.head == h) ≡ true = (==_iff g.head h).1 same in
    rw e (
      later-Completes later (
        subst (λ (a : ℕ). Completes (head_of g) a rest) same
          (more same reads (omega (arith, less, enough)))))
round-Completes b h rounds g rest apart enough (completes c) more =
    if-cases (Completes b h) (g.head == h) _ _
      (λ e. absurd (apart (sym c.head ∙ (==_iff g.head h).0 e))) (λ _. c)
