-- ===== src/Fdc/Command.antt =====
-- The command and result phases: `__fdc_command`, `fdc_result`, `__fdc_issue_command` and
-- `fdc_sense_interrupt_status` of ftape/lowlevel/fdc-io.c.
use ftape.Prelude.{
  ℕ, zero, suc, ◌+◌, bit_and, ◌==◌, if◌then◌else◌, true, false, List, [], ◌∷◌, ◌++◌, ◌&&◌,
}
use ftape.Prelude.Int.{ℤ, pos}
use ftape.Fdc.Wait.{
  Ports, Chip, Model, FdcMode, fdc_idle, fdc_reading_data, fdc_seeking, fdc_writing_data,
  fdc_deleting, fdc_reading_id, fdc_recalibrating, fdc_formatting, fdc_verifying, other_command,
  ebusy, io_error, fdc_data_in_ready, fdc_data_out_ready, fdc_busy, rqm_delay, fails, poll,
  fdc_usec_wait, fdc_ready_out_wait, fdc_ready_in_wait,
}

-- FDC_READ, FDC_WRITE, FDC_WRITE_DELETED, FDC_VERIFY, FDC_READID, FDC_SENSEI, FDC_FORMAT,
-- FDC_RECAL, FDC_SEEK, FDC_PERPEND
abbrev pub fdc_read : ℕ
fdc_read = 0x46

abbrev pub fdc_write : ℕ
fdc_write = 0x45

abbrev pub fdc_write_deleted : ℕ
fdc_write_deleted = 0x49

abbrev pub fdc_verify : ℕ
fdc_verify = 0x56

abbrev pub fdc_readid : ℕ
fdc_readid = 0x4a

abbrev pub fdc_sensei : ℕ
fdc_sensei = 0x08

abbrev pub fdc_format : ℕ
fdc_format = 0x4d

abbrev pub fdc_recal : ℕ
fdc_recal = 0x07

abbrev pub fdc_seek : ℕ
fdc_seek = 0x0f

abbrev pub fdc_perpend : ℕ
fdc_perpend = 0x12

-- The mode for a command byte.
unfoldable pub mode_of : ℕ → FdcMode
mode_of byte =
    if byte == 0
    then fdc_idle
    else if byte == fdc_read
    then fdc_reading_data
    else if byte == fdc_seek
    then fdc_seeking
    else if byte == fdc_write
    then fdc_writing_data
    else if byte == fdc_write_deleted
    then fdc_deleting
    else if byte == fdc_readid
    then fdc_reading_id
    else if byte == fdc_recal
    then fdc_recalibrating
    else if byte == fdc_format
    then fdc_formatting
    else if byte == fdc_verify
    then fdc_verifying
    else other_command byte

module _ (m : Model) (p : Ports) where
  -- The loop over the bytes of a command, with the retries that are left for all of them.
  unfoldable pub send : (bytes : List ℕ) → (retries : ℕ) → (result : ℤ) → Chip → ℤ × Chip
  unfolding fdc_ready_in_wait
  send [] retries result c = (result, c)
  send (b ∷ bs) zero result c =
      let (waited, c') = fdc_ready_in_wait m p 150 c in
      elim (fails waited) [
        | true ↦ (waited, c')
        | false ↦ send bs zero waited (record c' { sent = b ∷ c'.sent })
      ]
  send (b ∷ bs) (suc retries) result c =
      let (waited, c') = fdc_ready_in_wait m p 150 c in
      elim (fails waited) [
        | true ↦ send (b ∷ bs) retries waited c'
        | false ↦ send bs (suc retries) waited (record c' { sent = b ∷ c'.sent })
      ]

  -- `__fdc_command` for a command of the byte `command` and the bytes behind it.
  unfoldable pub fdc_command : (command : ℕ) → (bytes : List ℕ) → Chip → ℤ × Chip
  unfolding fdc_usec_wait poll send mode_of
  fdc_command command bytes c =
      let c' = poll p (fdc_usec_wait m p rqm_delay c) in
      if bit_and c'.status fdc_data_out_ready == fdc_data_in_ready
      then send (command ∷ bytes) 3 (pos 0) (record c' { mode = mode_of command })
      else (ebusy, c')

  -- The byte that the fifo gives.
  abbrev pub read_fifo : Chip → ℕ × Chip
  read_fifo c = (p.fifo c.reads, record c { reads = c.reads + 1 })

  -- The loop of `fdc_result` for `count` more bytes; `got` are the bytes read, last first.
  unfoldable pub receive :
      (count retries : ℕ) → (result : ℤ) → (got : List ℕ) → Chip → ℤ × List ℕ × Chip
  unfolding fdc_ready_out_wait
  receive zero retries result got c = (result, got, c)
  receive (suc count) zero result got c =
      let (waited, c') = fdc_ready_out_wait m p 150 c in
      elim (fails waited) [
        | true ↦ (if bit_and c'.status fdc_busy == 0 then io_error else waited, got, c')
        | false ↦ receive count zero waited ((read_fifo c').0 ∷ got) (read_fifo c').1
      ]
  receive (suc count) (suc retries) result got c =
      let (waited, c') = fdc_ready_out_wait m p 150 c in
      elim (fails waited) [
        | true ↦ elim (bit_and c'.status fdc_busy == 0) [
          | true ↦ (io_error, got, c')
          | false ↦ receive (suc count) retries waited got c'
        ]
        | false ↦ receive count (suc retries) waited ((read_fifo c').0 ∷ got) (read_fifo c').1
      ]

  -- The bytes in their order.
  unfoldable pub in_order : List ℕ → List ℕ
  in_order [] = []
  in_order (b ∷ bs) = in_order bs ++ (b ∷ [])

  -- The rest of `fdc_result` behind its first byte, with the wait at its end, which a premature end
  -- of the result phase leaves out.
  unfoldable pub received : ℤ × List ℕ × Chip → ℤ × List ℕ × Chip
  unfolding fdc_usec_wait in_order
  received (result, got, c) =
      if fails result && bit_and c.status fdc_busy == 0
      then (result, in_order got, c)
      else (result, in_order got, fdc_usec_wait m p rqm_delay c)

  unfoldable pub fdc_result : (count : ℕ) → Chip → ℤ × List ℕ × Chip
  unfolding fdc_ready_out_wait fdc_usec_wait receive received
  fdc_result zero c = (pos 0, [], c)
  fdc_result (suc count) c =
      let (waited, c') = fdc_ready_out_wait m p 500 c in
      elim (fails waited) [
        | true ↦ (waited, [], c')
        | false ↦
            let (first, c'') = read_fifo c' in
            elim (first == 0x80) [
              | true ↦ (pos 0, first ∷ [], fdc_usec_wait m p rqm_delay c'')
              | false ↦ received (receive count 3 (pos 0) (first ∷ []) c'')
            ]
      ]

  unfoldable pub issue_then : (in_count : ℕ) → ℤ × Chip → ℤ × List ℕ × Chip
  unfolding fdc_result
  issue_then zero (result, c) = if fails result then (result, [], c) else (pos 0, [], c)
  issue_then (suc count) (result, c) = elim (fails result) [
    | true ↦ (result, [], c)
    | false ↦
        let (phase, got, c') = fdc_result (suc count) c in
        (if fails phase then phase else pos 0, got, c')
  ]

  -- `__fdc_issue_command`
  unfoldable pub fdc_issue_command :
      (command : ℕ) → (bytes : List ℕ) → (in_count : ℕ) → Chip → ℤ × List ℕ × Chip
  unfolding fdc_command issue_then
  fdc_issue_command command bytes in_count c = issue_then in_count (fdc_command command bytes c)

  -- The result, the bytes `st0` and `pcn`, and the controller.
  unfoldable pub fdc_sense_interrupt_status : Chip → ℤ × List ℕ × Chip
  unfolding fdc_issue_command
  fdc_sense_interrupt_status c = fdc_issue_command fdc_sensei [] 2 c
