-- ===== src/Fdc/Setup.antt =====
-- A transfer is set up: `perpend_off`, `handle_perpend`, `fdc_setup_read_write` and
-- `fdc_setup_formatting` of ftape/lowlevel/fdc-io.c, as the interrupt handler calls them. There
-- interrupts are neither switched off nor on, and `fdc_command` does not wait for a seek.
pub mod Laws
use ftape.Prelude.{
  ℕ, ◌+◌, ◌/◌, ◌%◌, ◌==◌, ltb, if◌then◌else◌, Bool, true, false, not, ◌&&◌, List, [], ◌∷◌,
}
use ftape.Prelude.Int.{ℤ, pos}
use ftape.Rw.Location.{SectorId}
use ftape.Fdc.Wait.{
  Ports, Chip, Model, FdcMode, fdc_idle, fdc_reading_data, fdc_seeking, fdc_writing_data,
  fdc_deleting, fdc_reading_id, fdc_recalibrating, fdc_formatting, fdc_verifying, other_command,
  io_error, fails,
}
use ftape.Fdc.Command.{
  fdc_read, fdc_write, fdc_write_deleted, fdc_verify, fdc_format, fdc_perpend, fdc_command,
}

-- What the setup reads of a buffer.
pub record Cluster : Type 0 where
  pub segment_id : ℕ
  pub start : SectorId
  pub sector_offset : ℕ
  pub sector_count : ℕ

-- Whether the tape is a QIC-3020 or of a Ditto Max, which are written perpendicularly, and the
-- segments on a track.
pub record Media : Type 0 where
  pub perpendicular : Bool
  pub segments_per_track : ℕ

-- The operation on the other side: the command byte for a mode; `none` of the others is set up.
unfoldable pub operation_of : (verifies : Bool) → FdcMode → List ℕ
operation_of verifies fdc_verifying = (if verifies then fdc_verify else fdc_read) ∷ []
operation_of verifies fdc_reading_data = fdc_read ∷ []
operation_of verifies (other_command byte) = if byte == 0x4c then byte ∷ [] else []
operation_of verifies fdc_deleting = fdc_write_deleted ∷ []
operation_of verifies fdc_writing_data = fdc_write ∷ []
operation_of verifies fdc_idle = []
operation_of verifies fdc_seeking = []
operation_of verifies fdc_reading_id = []
operation_of verifies fdc_recalibrating = []
operation_of verifies fdc_formatting = []

unfoldable pub is_write : FdcMode → Bool
is_write fdc_writing_data = true
is_write fdc_deleting = true
is_write fdc_verifying = false
is_write fdc_reading_data = false
is_write fdc_idle = false
is_write fdc_seeking = false
is_write fdc_reading_id = false
is_write fdc_recalibrating = false
is_write fdc_formatting = false
is_write (other_command _) = false

module _ (m : Model) (p : Ports) where
  -- The end of both functions, for the result of `fdc_command` or of what goes in front of it.
  unfoldable pub setup_ended : ℤ × Chip → ℤ × Chip
  setup_ended (result, c) =
      if fails result
      then (result, record c { setup_error = result; transfers = c.transfers + 1; mode = fdc_idle })
      else (pos 0, record c { setup_error = result })

  unfoldable pub perpend_set : Bool → ℤ × Chip → ℤ × Chip
  perpend_set on (result, c) =
      if fails result then (result, c) else (pos 0, record c { perpend_mode = on })

  unfoldable pub perpend_off : Chip → ℤ × Chip
  unfolding perpend_set fdc_command
  perpend_off c = elim c.perpend_mode [
    | true ↦ perpend_set false (fdc_command m p fdc_perpend (0x80 ∷ []) c)
    | false ↦ (pos 0, c)
  ]

  unfoldable pub perpend_on : Chip → ℤ × Chip
  unfolding perpend_set fdc_command
  perpend_on c =
      if not m.at_least_i82077
      then (io_error, c)
      else if ltb m.data_rate 1000
      then (io_error, c)
      else perpend_set true (fdc_command m p fdc_perpend (0x03 ∷ []) c)

  unfoldable pub handle_perpend : Media → (segment_id : ℕ) → Chip → ℤ × Chip
  unfolding perpend_on perpend_off
  handle_perpend t segment_id c =
      elim (t.perpendicular && segment_id / t.segments_per_track % 2 == 0) [
        | true ↦ perpend_on c
        | false ↦ perpend_off c
      ]

  -- The perpendicular mode for a transfer.
  unfoldable pub perpend_for : Media → (segment_id : ℕ) → (writes : Bool) → Chip → ℤ × Chip
  unfolding handle_perpend perpend_off
  perpend_for t segment_id true c = handle_perpend t segment_id c
  perpend_for t segment_id false c = perpend_off c

  -- The command behind the perpendicular mode.
  unfoldable pub then_command : (command : ℕ) → (bytes : List ℕ) → ℤ × Chip → ℤ × Chip
  unfolding fdc_command
  then_command command bytes (result, c) = elim (fails result) [
    | true ↦ (result, c)
    | false ↦ fdc_command m p command bytes c
  ]

  -- The bytes of the command behind its first one, as `__u8`.
  unfoldable pub transfer_bytes : Cluster → List ℕ
  transfer_bytes b =
      let first = (b.start.sect + b.sector_offset) % 256 in
      m.unit
      ∷ b.start.cyl
      ∷ b.start.head
      ∷ first
      ∷ 3
      ∷ (first + b.sector_count + 255) % 256
      ∷ 109
      ∷ 0xff
      ∷ []

  unfoldable pub setup_operation : Media → Cluster → FdcMode → List ℕ → Chip → ℤ × Chip
  unfolding setup_ended then_command transfer_bytes is_write perpend_for
  setup_operation t b mode [] c = (io_error, record c { setup_error = io_error })
  setup_operation t b mode (command ∷ _) c =
      setup_ended
        (then_command command (transfer_bytes b) (perpend_for t b.segment_id (is_write mode) c))

  -- The mode is the operation, as for every call of the handler.
  unfoldable pub fdc_setup_read_write : Media → Cluster → FdcMode → Chip → ℤ × Chip
  unfolding operation_of setup_operation
  fdc_setup_read_write t b mode c =
      setup_operation t b mode (operation_of (m.at_least_i82077 && not m.ditto_ez) mode) c

  unfoldable pub fdc_setup_formatting : Media → (segment_id : ℕ) → Chip → ℤ × Chip
  unfolding setup_ended then_command handle_perpend
  fdc_setup_formatting t segment_id c = setup_ended (
      then_command fdc_format (m.unit ∷ 3 ∷ 128 ∷ m.gap3 ∷ m.ffb ∷ [])
        (handle_perpend t segment_id c))
