-- ===== src/Fdc/Tests.antt =====
-- Runs of the commands of the controller (ftape/lowlevel/fdc-io.c), and instances of their laws.
use ftape.Prelude.{◌+◌, ◌==◌, if◌then◌else◌, true, false, [], ◌∷◌, ◌≡◌, refl}
use ftape.Prelude.Int.{pos, negsuc}
use ftape.Fdc.Wait.{
  Ports, Chip, Model, fdc_idle, wait_loop, wait_count, fdc_wait, fdc_usec_wait, fdc_ready_in_wait,
  poll,
}
use ftape.Fdc.Wait.Laws.{Waits, fdc_wait_lem}
use ftape.Fdc.Command.{send, fdc_command, fdc_read}

-- A controller that is always ready for a command byte, and one that is not.
abbrev ready : Ports
ready = record { msr = λ n. 0x80; fifo = λ n. 0; residue = λ n. 0 }

abbrev not_ready : Ports
not_ready = record { msr = λ n. 0; fifo = λ n. 0; residue = λ n. 0 }

abbrev model : Model
model = record {
  calibr_count = 1;
  calibr_time = 100;
  at_least_i82077 = true;
  ditto_ez = false;
  data_rate = 500;
  unit = 0;
  gap3 = 0xe9;
  ffb = 0x6b;
}

abbrev chip : Chip
chip = record {
  polls = 0;
  reads = 0;
  transfers = 0;
  sent = [];
  status = 0;
  mode = fdc_idle;
  perpend_mode = false;
  setup_error = pos 0;
}

command_test : (fdc_command model ready fdc_read (0 ∷ 7 ∷ []) chip).1.sent ≡ 7 ∷ 0 ∷ fdc_read ∷ []
unfolding fdc_command send fdc_ready_in_wait fdc_usec_wait fdc_wait wait_loop wait_count poll
command_test = refl

busy_test : (fdc_command model not_ready fdc_read (0 ∷ 7 ∷ []) chip).0 ≡ negsuc 15
unfolding fdc_command send fdc_usec_wait fdc_wait wait_loop wait_count poll
busy_test = refl

-- The status that matches at the last poll only: the wait seems to have failed.
abbrev late : Ports
late = record { msr = λ n. if n == 2 then 0x80 else 0; fifo = λ n. 0; residue = λ n. 0 }

late_test : (fdc_wait model late 100 0x80 0x80 chip).0 ≡ negsuc 0
unfolding fdc_wait wait_loop wait_count poll
late_test = refl

fdc_wait_lem_example :
    Waits late 0x80 0x80 (wait_count model late 100 + 1) 0 (fdc_wait model late 100 0x80 0x80 chip)
fdc_wait_lem_example = fdc_wait_lem model late 100 0x80 0x80 chip
