-- ===== src/Isr/Cause.antt =====
-- `decode_irq_cause` and `update_history` of ftape/lowlevel/fdc-isr.c.
use ftape.Prelude.{ℕ, ◌+◌, bit_and, ◌==◌, if◌then◌else◌}

-- `ft_error_cause_t`
pub data ErrorCause : Type 0 where
  no_error : ErrorCause
  id_am_error : ErrorCause
  id_crc_error : ErrorCause
  data_am_error : ErrorCause
  data_crc_error : ErrorCause
  no_data_error : ErrorCause
  overrun_error : ErrorCause

-- The cause for an interrupt with the status bytes `st[0]` to `st[2]`.
unfoldable pub decode_irq_cause : (st0 st1 st2 : ℕ) → ErrorCause
decode_irq_cause st0 st1 st2 =
    if bit_and st0 0xc0 == 0x40
    then if bit_and st1 0x01 == 0
      then if bit_and st1 0x20 == 0
        then if bit_and st1 0x04 == 0
          then if bit_and st1 0x10 == 0 then no_error else overrun_error
          else no_data_error
        else if bit_and st2 0x20 == 0
        then id_crc_error
        else data_crc_error
      else if bit_and st2 0x01 == 0
      then id_am_error
      else data_am_error
    else no_error

-- The counters of `ft_history_t` that an interrupt may count up.
pub record History : Type 0 where
  pub id_am_errors : ℕ
  pub id_crc_errors : ℕ
  pub data_am_errors : ℕ
  pub data_crc_errors : ℕ
  pub overrun_errors : ℕ
  pub no_data_errors : ℕ

unfoldable pub update_history : History → ErrorCause → History
update_history h no_error = h
update_history h id_am_error = record h { id_am_errors = h.id_am_errors + 1 }
update_history h id_crc_error = record h { id_crc_errors = h.id_crc_errors + 1 }
update_history h data_am_error = record h { data_am_errors = h.data_am_errors + 1 }
update_history h data_crc_error = record h { data_crc_errors = h.data_crc_errors + 1 }
update_history h overrun_error = record h { overrun_errors = h.overrun_errors + 1 }
update_history h no_data_error = record h { no_data_errors = h.no_data_errors + 1 }
