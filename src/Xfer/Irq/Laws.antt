-- ===== src/Xfer/Irq/Laws.antt =====
-- How an interrupt is answered (ftape/lowlevel/fdc-isr.c).
use ftape.Prelude.{ℕ, ◌+◌, Bool, true, false, [], ◌∷◌, ◌≡◌, ◌≢◌, ◌⊎◌}
use ftape.Prelude.Int.{pos}
use ftape.Fdc.Wait.{Chip, fails}
use ftape.Fdc.Command.{fdc_seek, fdc_issue_command}
use ftape.Xfer.State.{FdcInfo, Config, head_of}
use ftape.Xfer.State.Local.{Local}
use ftape.Xfer.Continue.{calc_steps}
use ftape.Xfer.Irq.{to_byte, await_phase}

-- The seek of a pause was sent, and the tape stands at an unknown location, or the command failed.
pub data Pauses (cfg : Config) (g : FdcInfo) : Type 0 where
  sent : g.tape_running ≡ false → g.location_known ≡ false → g.seek_result ≡ 0 → Pauses cfg g
  not_sent :
      (chip : Chip) (steps : ℕ)
      → g.seek_track ≡ pos steps
      → fails (fdc_issue_command cfg.model cfg.ports fdc_seek (cfg.drive_sel ∷ steps ∷ []) 0 chip).0
        ≡ true
      → Pauses cfg g

-- How the interrupt ends: it is shown, or, where it is hidden, the tape is paused.
pub record Answers (cfg : Config) (f g : FdcInfo) : Type 0 where
  pub head : (g.head ≡ f.head) ⊎ (g.head ≡ (head_of f).next)
  pub others : (a : ℕ) → a ≢ f.head → a ≢ (head_of f).next → g.buffers a ≡ f.buffers a
  pub ring : (a : ℕ) → (g.buffers a).next ≡ (f.buffers a).next
  pub active : g.isr_active ≡ f.isr_active
  pub shown :
      ((g.hide_interrupt ≡ false)
        × (g.interrupt_seen ≡ f.interrupt_seen + 1)
        × (g.rewinds ≡ f.rewinds))
      ⊎ ((g.hide_interrupt ≡ true)
          × (g.interrupt_seen ≡ f.interrupt_seen)
          × (g.rewinds ≡ f.rewinds + 1)
          × Pauses cfg g)

-- The command is sent, or not, in a state with one more rewind.
abbrev rewinding : FdcInfo → FdcInfo
unfolding calc_steps
rewinding fdc = record fdc {
  rewinds = fdc.rewinds + 1;
  seek_track = pos (to_byte (calc_steps fdc.current_cylinder fdc.current_command));
}

-- Between the entry and the end of the handler its activity is counted.
module _ (cfg : Config) (awaited : Bool) (fdc : FdcInfo) (outer : fdc.isr_active ≡ 0) where
  entered : FdcInfo
  unfolding await_phase
  entered =
      await_phase cfg awaited
        (record fdc { isr_active = fdc.isr_active + 1; hide_interrupt = false })
