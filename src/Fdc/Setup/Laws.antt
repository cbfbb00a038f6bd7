-- ===== src/Fdc/Setup/Laws.antt =====
-- The mode that a setup leaves for the interrupt (ftape/lowlevel/fdc-io.c).
use ftape.Prelude.{
  ℕ, zero, suc, ◌+◌, bit_and, ◌==◌, if◌then◌else◌, if-cases, Bool, true, false, not, ◌&&◌, List, [],
  ◌∷◌, Bool-cases, ◌≡◌, refl, ◌∙◌, inl, inr, arith,
}
use ftape.Prelude.Int.{ℤ, pos}
use ftape.Fdc.Wait.{
  Ports, Chip, Model, FdcMode, fdc_idle, fdc_reading_data, fdc_writing_data, fdc_deleting,
  fdc_seeking, fdc_reading_id, fdc_recalibrating, fdc_formatting, fdc_verifying, other_command,
  fdc_data_out_ready, fdc_data_in_ready, rqm_delay, fails, poll, wait_loop, wait_count, fdc_wait,
  fdc_usec_wait, fdc_ready_in_wait,
}
use ftape.Fdc.Command.{
  fdc_read, fdc_write, fdc_write_deleted, fdc_verify, mode_of, send, fdc_command,
}
use ftape.Fdc.Setup.{
  Cluster, Media, operation_of, setup_ended, then_command, transfer_bytes, setup_operation,
  is_write, perpend_for, fdc_setup_read_write,
}

wait_loop-mode :
    (p : Ports) (mask state left : ℕ) (c : Chip) → (wait_loop p mask state left c).1.mode ≡ c.mode
unfolding wait_loop poll
wait_loop-mode p mask state zero c = elim (Bool-cases (bit_and (p.msr c.polls) mask == state)) [
  | inl e ↦ rw (e, wait_loop) refl
  | inr e ↦ rw (e, wait_loop) refl
]
wait_loop-mode p mask state (suc left) c =
    elim (Bool-cases (bit_and (p.msr c.polls) mask == state)) [
      | inl e ↦ rw (e, wait_loop) refl
      | inr e ↦ rw (e, wait_loop) (wait_loop-mode p mask state left (poll p c))
    ]

module _ (m : Model) (p : Ports) where
  ready_in_wait-mode : (usecs : ℕ) (c : Chip) → (fdc_ready_in_wait m p usecs c).1.mode ≡ c.mode
  unfolding fdc_ready_in_wait fdc_usec_wait fdc_wait
  ready_in_wait-mode usecs c =
      wait_loop-mode p fdc_data_out_ready fdc_data_in_ready (wait_count m p usecs + 1) _
      ∙ wait_loop-mode p 0 1 (wait_count m p rqm_delay + 1) c

  send-mode :
      (bytes : List ℕ) (retries : ℕ) (result : ℤ) (c : Chip)
      → (send m p bytes retries result c).1.mode ≡ c.mode
  unfolding send
  send-mode [] retries result c = refl
  send-mode (b ∷ bs) zero result c =
      let w : ℤ × Chip = fdc_ready_in_wait m p 150 c in
      elim (Bool-cases (fails w.0)) [
        | inl e ↦ rw (e, send) (ready_in_wait-mode 150 c)
        | inr e ↦
            rw (e, send)
              (send-mode bs zero w.0 (record w.1 { sent = b ∷ w.1.sent })
                ∙ ready_in_wait-mode 150 c)
      ]
  send-mode (b ∷ bs) (suc retries) result c =
      let w : ℤ × Chip = fdc_ready_in_wait m p 150 c in
      elim (Bool-cases (fails w.0)) [
        | inl e ↦ rw (e, send) (send-mode (b ∷ bs) retries w.0 w.1 ∙ ready_in_wait-mode 150 c)
        | inr e ↦
            rw (e, send)
              (send-mode bs (suc retries) w.0 (record w.1 { sent = b ∷ w.1.sent })
                ∙ ready_in_wait-mode 150 c)
      ]

  -- A command that was sent leaves its mode.
  abbrev Sets : FdcMode → ℤ × Chip → Type 0
  Sets mode r = fails r.0 ≡ false → r.1.mode ≡ mode

  command-mode :
      (command : ℕ) (bytes : List ℕ) (c : Chip)
      → Sets (mode_of command) (fdc_command m p command bytes c)
  unfolding fdc_command
  command-mode command bytes c =
      let c' : Chip = poll p (fdc_usec_wait m p rqm_delay c) in
      if-cases (Sets (mode_of command)) (bit_and c'.status fdc_data_out_ready == fdc_data_in_ready)
        _ _ (λ _ _. send-mode (command ∷ bytes) 3 (pos 0) (record c' { mode = mode_of command }))
        (λ _ fine. absurd (ground (arith, fine)))

  then_command-mode :
      (command : ℕ) (bytes : List ℕ) (r : ℤ × Chip)
      → Sets (mode_of command) (then_command m p command bytes r)
  unfolding then_command
  then_command-mode command bytes (result, c) = elim (Bool-cases (fails result)) [
    | inl e ↦ rw (e, then_command) (λ fine. absurd (ground (arith, e, fine)))
    | inr e ↦ rw (e, then_command) (command-mode command bytes c)
  ]

  setup_ended-mode : (mode : FdcMode) (r : ℤ × Chip) → Sets mode r → Sets mode (setup_ended m p r)
  unfolding setup_ended
  setup_ended-mode mode (result, c) s =
      if-cases (λ (t : ℤ × Chip). (fails result ≡ false → c.mode ≡ mode) → Sets mode t)
        (fails result) _ _ (λ e h fine. absurd (ground (arith, e, fine))) (λ e h _. h e) s

  operation-mode :
      (t : Media) (b : Cluster) (mode : FdcMode) (command : ℕ) (c : Chip)
      → Sets (mode_of command) (setup_operation m p t b mode (command ∷ []) c)
  unfolding setup_operation
  operation-mode t b mode command c =
      let perpend : ℤ × Chip = perpend_for m p t b.segment_id (is_write mode) c in
      setup_ended-mode (mode_of command) (then_command m p command (transfer_bytes m p b) perpend)
        (then_command-mode command (transfer_bytes m p b) perpend)

-- The modes of a transfer.
pub data IsTransfer : FdcMode → Type 0 where
  reads_data : IsTransfer fdc_reading_data
  writes_data : IsTransfer fdc_writing_data
  deletes : IsTransfer fdc_deleting
  verifies : IsTransfer fdc_verifying

-- The mode that the controller is in with a transfer: without the command to verify, it reads.
abbrev pub mode_in_flight : Model → FdcMode → FdcMode
mode_in_flight m fdc_verifying =
    if m.at_least_i82077 && not m.ditto_ez then fdc_verifying else fdc_reading_data
mode_in_flight m fdc_idle = fdc_idle
mode_in_flight m fdc_reading_data = fdc_reading_data
mode_in_flight m fdc_seeking = fdc_seeking
mode_in_flight m fdc_writing_data = fdc_writing_data
mode_in_flight m fdc_deleting = fdc_deleting
mode_in_flight m fdc_reading_id = fdc_reading_id
mode_in_flight m fdc_recalibrating = fdc_recalibrating
mode_in_flight m fdc_formatting = fdc_formatting
mode_in_flight m (other_command byte) = other_command byte

verify_mode :
    (v : Bool)
    → mode_of (if v then fdc_verify else fdc_read) ≡ (if v then fdc_verifying else fdc_reading_data)
unfolding mode_of
verify_mode true = refl
verify_mode false = refl

-- A transfer that was set up leaves the controller in its mode.
pub fdc_setup_read_write-mode :
    (m : Model) (p : Ports) (t : Media) (b : Cluster) (mode : FdcMode) (c : Chip)
    → IsTransfer mode
    → fails (fdc_setup_read_write m p t b mode c).0 ≡ false
    → (fdc_setup_read_write m p t b mode c).1.mode ≡ mode_in_flight m mode
unfolding fdc_setup_read_write operation_of mode_of
fdc_setup_read_write-mode m p t b fdc_reading_data c reads_data fine =
    operation-mode m p t b fdc_reading_data fdc_read c fine
fdc_setup_read_write-mode m p t b fdc_writing_data c writes_data fine =
    operation-mode m p t b fdc_writing_data fdc_write c fine
fdc_setup_read_write-mode m p t b fdc_deleting c deletes fine =
    operation-mode m p t b fdc_deleting fdc_write_deleted c fine
fdc_setup_read_write-mode m p t b fdc_verifying c verifies fine =
    let v : Bool = m.at_least_i82077 && not m.ditto_ez in
    operation-mode m p t b fdc_verifying (if v then fdc_verify else fdc_read) c fine ∙ verify_mode v
fdc_setup_read_write-mode m p t b fdc_idle c no_transfer fine = elim no_transfer [ ]
fdc_setup_read_write-mode m p t b fdc_seeking c no_transfer fine = elim no_transfer [ ]
fdc_setup_read_write-mode m p t b fdc_reading_id c no_transfer fine = elim no_transfer [ ]
fdc_setup_read_write-mode m p t b fdc_recalibrating c no_transfer fine = elim no_transfer [ ]
fdc_setup_read_write-mode m p t b fdc_formatting c no_transfer fine = elim no_transfer [ ]
fdc_setup_read_write-mode m p t b (other_command byte) c no_transfer fine = elim no_transfer [ ]
