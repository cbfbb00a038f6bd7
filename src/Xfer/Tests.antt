-- ===== src/Xfer/Tests.antt =====
-- Runs of the interrupt handler (ftape/lowlevel/fdc-isr.c), and instances of its laws.
use ftape.Prelude.{
  Bool, ◌*◌, ltb, ◌==◌, if◌then◌else◌, true, false, none, [], ◌∷◌, ◌≡◌, ◌≢◌, refl, get_or, arith,
}
use ftape.Prelude.Int.{pos}
use ftape.Buf.Ring.{waiting, reading, deleting}
use ftape.Rw.Cluster.Laws.{Run}
use ftape.Fdc.Wait.{Ports, Chip, Model, fdc_reading_data, fdc_deleting, fails}
use ftape.Fdc.Setup.{Cluster, fdc_setup_read_write}
use ftape.Fdc.Setup.Laws.{reads_data}
use ftape.Xfer.State.{Buffer, FdcInfo, Config, running, aborting, head_of}
use ftape.Xfer.State.Local.{Step}
use ftape.Xfer.Continue.{continue_xfer}
use ftape.Xfer.Continue.Started.{Goes}
use ftape.Xfer.Continue.Flight.{continue_xfer-Goes}
use ftape.Prelude.{ℕ, List, replicate, inl}
use ftape.Isr.Cause.{decode_irq_cause}
use ftape.Isr.Verify.{fdc_count}
use ftape.Xfer.State.{state_number}
use ftape.Xfer.Busy.{handle_result, handle_fdc_busy}
use ftape.Xfer.Busy.Local.{handle_fdc_busy-Step}
use ftape.Xfer.Busy.Reading.{Reads, Completes}
use ftape.Xfer.Busy.Reading.Whole.{IsWhole, AreWhole, read_through}
use ftape.Xfer.Busy.Reading.Advance.{GoesThrough}
use ftape.Xfer.Busy.Reading.Segment.{read_through-Completes}
use ftape.Xfer.Irq.{fdc_isr}

-- The result phase takes 25 polls; then the controller is ready for a command.
abbrev interrupting : Ports
interrupting = record {
  msr = λ n. if ltb n 25 then 0xd0 else 0x80;
  fifo = λ n. get_or (0 ∷ 0 ∷ 0 ∷ 7 ∷ 0 ∷ 4 ∷ 3 ∷ []) n 0;
  residue = λ n. 0;
}

abbrev ready : Ports
ready = record { msr = λ n. 0x80; fifo = λ n. 0; residue = λ n. 0 }

abbrev model : Model
model = record {
  calibr_count = 1;
  calibr_time = 1000;
  at_least_i82077 = true;
  ditto_ez = false;
  data_rate = 500;
  unit = 0;
  gap3 = 0xe9;
  ffb = 0x6b;
}

abbrev config_of : Ports → Config
config_of ports = record {
  model = model;
  ports = ports;
  tape = record { perpendicular = false; segments_per_track = 68 };
  geometry = record { segments_per_head = 600; segments_per_cylinder = 4 };
  bad = λ segment. 0;
  ignore_ecc_err = false;
  soft_retries = pos 6;
  drive_sel = 0;
  stale = λ i. 0;
}

-- The first three sectors of segment 5 are good, the fourth is bad.
abbrev first : Buffer
first = record {
  next = 1;
  ptr = 0;
  status = reading;
  bytes = 0;
  segment_id = 5;
  bad_sector_map = 0x8;
  soft_error_map = 0;
  hard_error_map = 0;
  retry = pos 0;
  short_start = false;
  skip = 0;
  data_offset = 0;
  sector_offset = 0;
  sector_count = 3;
  remaining = 32;
  next_segment = 6;
  deleted = 0;
  start = record { head = 0; cyl = 7; sect = 1 };
}

abbrev second : Buffer
second = record first { next = 0; status = waiting }

abbrev chip : Chip
chip = record {
  polls = 0;
  reads = 0;
  transfers = 0;
  sent = [];
  status = 0;
  mode = fdc_reading_data;
  perpend_mode = false;
  setup_error = pos 0;
}

abbrev state : FdcInfo
state = record {
  chip = chip;
  buffers = λ a. if a == 0 then first else second;
  head = 0;
  runner_status = running;
  driver_state = reading;
  setup = record {
    state = 1;
    old_state = 1;
    old_segment_id = none;
    retries = 0;
    last_segment_skipped = none;
  };
  history = record {
    id_am_errors = 0;
    id_crc_errors = 0;
    data_am_errors = 0;
    data_crc_errors = 0;
    overrun_errors = 0;
    no_data_errors = 0;
  };
  rewinds = 0;
  current_command = 0;
  might_be_off_track = false;
  location_known = true;
  tape_running = true;
  hide_interrupt = false;
  stop_read_ahead = false;
  no_data_error_count = 0;
  expected_stray_interrupts = 0;
  id = record { head = 0; cyl = 0; sect = 0 };
  current_cylinder = pos 0;
  seek_track = pos 0;
  seek_result = 0;
  resetting = false;
  interrupt_seen = 0;
  isr_active = 0;
}

-- The interrupt goes on behind the bad sector.
isr_test : (head_of (fdc_isr (config_of interrupting) false state)).sector_offset ≡ 4
unfolding fdc_isr
isr_test = refl

isr_seen_test : (fdc_isr (config_of interrupting) false state).interrupt_seen ≡ 1
unfolding fdc_isr
isr_seen_test = refl

-- An empty segment that is to be deleted is given up, and the runner aborts.
deleting_test :
    let fdc = record state { buffers = λ a. record first { status = deleting; remaining = 0 } } in
    (continue_xfer (config_of ready) fdc_deleting 1 fdc).runner_status ≡ aborting
unfolding continue_xfer
deleting_test = refl

apart : (head_of state).next ≢ state.head
apart e = absurd (omega (arith, e))

continue_xfer-Goes_example :
    Goes
      (config_of ready)
      fdc_reading_data
      0
      1
      (continue_xfer (config_of ready) fdc_reading_data 0 state)
continue_xfer-Goes_example =
    continue_xfer-Goes (config_of ready) fdc_reading_data reads_data 0 state refl apart

handle_fdc_busy-Step_example : Step state (handle_fdc_busy (config_of interrupting) state)
handle_fdc_busy-Step_example = handle_fdc_busy-Step (config_of interrupting) state

-- The controller that is always ready takes every command, in either perpendicular mode.
takes_command :
    (c : Cluster) (c0 : Chip) (perpend_mode : Bool)
    → fails
        (fdc_setup_read_write model ready
          (config_of ready).tape
          c
          fdc_reading_data
          (record c0 { perpend_mode = perpend_mode })).0
      ≡ false
unfolding fdc_setup_read_write
takes_command c c0 true = refl
takes_command c c0 false = refl

ready-GoesThrough : GoesThrough (config_of ready)
ready-GoesThrough c c0 = takes_command c c0 c0.perpend_mode

state-Reads : Reads state
unfolding Run
state-Reads = record {
  runs = refl;
  mode = refl;
  apart = apart;
  at = record {
    small = omega arith;
    sectors = omega arith;
    fits = omega arith;
    good = (refl, (refl, (refl, tt)));
  };
}

-- The result phases of the two clusters, three sectors and the 28 behind the bad one.
abbrev three_read : List ℕ
three_read = 0 ∷ 0 ∷ 0 ∷ 7 ∷ 0 ∷ 4 ∷ 3 ∷ []

abbrev rest_read : List ℕ
rest_read = 0 ∷ 0 ∷ 0 ∷ 7 ∷ 0 ∷ 33 ∷ 3 ∷ []

abbrev results : List (List ℕ)
results = three_read ∷ rest_read ∷ replicate 30 []

abbrev after_three : FdcInfo
unfolding handle_result
after_three = handle_result (config_of ready) three_read state

state-IsWhole : IsWhole (config_of ready) state three_read
unfolding decode_irq_cause fdc_count state_number
state-IsWhole = record {
  cause = refl;
  undeleted = refl;
  count = refl;
  residue = inl refl;
  real = refl;
  reads = refl;
}

after_three-IsWhole : IsWhole (config_of ready) after_three rest_read
unfolding decode_irq_cause fdc_count state_number handle_result after_three
after_three-IsWhole = record {
  cause = refl;
  undeleted = refl;
  count = refl;
  residue = inl refl;
  real = refl;
  reads = refl;
}

results-AreWhole : AreWhole (config_of ready) state results
unfolding AreWhole handle_result after_three
results-AreWhole =
    (state-IsWhole, λ _. (after_three-IsWhole, λ stays. absurd (omega (arith, stays))))

read_through-Completes_example : Completes first 0 (read_through (config_of ready) results state)
read_through-Completes_example =
    read_through-Completes (config_of ready) ready-GoesThrough results state state-Reads
      results-AreWhole (omega arith)

-- The 31 good sectors of the segment.
read_segment_test : ((read_through (config_of ready) results state).buffers 0).bytes ≡ 31 * 1024
unfolding read_through handle_result
read_segment_test = refl
