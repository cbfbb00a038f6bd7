-- ===== src/Fdc/Wait.antt =====
-- Waits for the status of the controller: `fdc_wait`, `fdc_usec_wait`, `fdc_ready_out_wait` and
-- `fdc_ready_in_wait` of ftape/lowlevel/fdc-io.c. What the ports give is a parameter: the main
-- status register at each poll, the bytes of the fifo, and the residue of each DMA transfer.
pub mod Laws
use ftape.Prelude.{
  ℕ, zero, suc, ◌+◌, ◌-◌, ◌*◌, ◌/◌, ◌%◌, ◌^◌, bit_and, ◌==◌, Bool, true, false, List,
}
use ftape.Prelude.Int.{ℤ, pos, negsuc}

-- The ports, by the number of the access.
pub record Ports : Type 0 where
  pub msr : ℕ → ℕ
  pub fifo : ℕ → ℕ
  pub residue : ℕ → ℕ

-- `fdc_mode_enum`; the mode is the last command byte, whichever it is.
pub data FdcMode : Type 0 where
  fdc_idle fdc_reading_data fdc_seeking fdc_writing_data fdc_deleting fdc_reading_id : FdcMode
  fdc_recalibrating fdc_formatting fdc_verifying : FdcMode
  other_command : (byte : ℕ) → FdcMode

-- What `fdc_info_t` has of the controller, with the accesses made and the bytes sent, last first.
pub record Chip : Type 0 where
  pub polls : ℕ
  pub reads : ℕ
  pub transfers : ℕ
  pub sent : List ℕ
  pub status : ℕ
  pub mode : FdcMode
  pub perpend_mode : Bool
  pub setup_error : ℤ

-- The calibration of the loop and the type of the controller.
pub record Model : Type 0 where
  pub calibr_count : ℕ
  pub calibr_time : ℕ
  pub at_least_i82077 : Bool
  pub ditto_ez : Bool
  pub data_rate : ℕ
  pub unit : ℕ
  pub gap3 : ℕ
  pub ffb : ℕ

-- -ETIME, -EBUSY, -EIO, STATUS_READY, STATUS_DIR, STATUS_BUSY, FT_RQM_DELAY
abbrev pub etime : ℤ
etime = negsuc 61

abbrev pub ebusy : ℤ
ebusy = negsuc 15

abbrev pub io_error : ℤ
io_error = negsuc 4

abbrev pub fdc_data_in_ready : ℕ
fdc_data_in_ready = 0x80

abbrev pub fdc_data_out_ready : ℕ
fdc_data_out_ready = 0xc0

abbrev pub fdc_busy : ℕ
fdc_busy = 0x10

abbrev pub rqm_delay : ℕ
rqm_delay = 12

abbrev pub fails : ℤ → Bool
fails (pos n) = false
fails (negsuc n) = true

-- A poll of the main status register.
unfoldable pub poll : Ports → Chip → Chip
poll p c = record c { polls = c.polls + 1; status = p.msr c.polls }

-- The loop; `left` is `count_1 + 1`.
unfoldable pub wait_loop : Ports → (mask state left : ℕ) → Chip → ℤ × Chip
unfolding poll
wait_loop p mask state zero c = elim (bit_and (p.msr c.polls) mask == state) [
  | true ↦ (negsuc 0, poll p c)
  | false ↦ (etime, poll p c)
]
wait_loop p mask state (suc left) c = elim (bit_and (p.msr c.polls) mask == state) [
  | true ↦ (pos left, poll p c)
  | false ↦ wait_loop p mask state left (poll p c)
]

module _ (m : Model) (p : Ports) where
  -- `count_1`, in `unsigned int`; a count of 2 ^ 31 and more, which the source makes a negative
  -- `int`, is not told apart.
  unfoldable pub wait_count : (usecs : ℕ) → ℕ
  wait_count usecs =
      (m.calibr_count * usecs + m.calibr_count + (2 ^ 32 - 1)) % 2 ^ 32 / m.calibr_time

  unfoldable pub fdc_wait : (usecs mask state : ℕ) → Chip → ℤ × Chip
  unfolding wait_loop wait_count
  fdc_wait usecs mask state c = wait_loop p mask state (wait_count usecs + 1) c

  unfoldable pub fdc_usec_wait : (usecs : ℕ) → Chip → Chip
  unfolding fdc_wait
  fdc_usec_wait usecs c = (fdc_wait usecs 0 1 c).1

  unfoldable pub fdc_ready_out_wait : (usecs : ℕ) → Chip → ℤ × Chip
  unfolding fdc_wait fdc_usec_wait
  fdc_ready_out_wait usecs c =
      fdc_wait usecs fdc_data_out_ready fdc_data_out_ready (fdc_usec_wait rqm_delay c)

  unfoldable pub fdc_ready_in_wait : (usecs : ℕ) → Chip → ℤ × Chip
  unfolding fdc_wait fdc_usec_wait
  fdc_ready_in_wait usecs c =
      fdc_wait usecs fdc_data_out_ready fdc_data_in_ready (fdc_usec_wait rqm_delay c)
