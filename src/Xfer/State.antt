-- ===== src/Xfer/State.antt =====
-- The state that the interrupt handler works on: `fdc_info_t`, `ftape_info_t` and `buffer_struct`
-- (ftape/lowlevel/fdc-io.h, ftape-ctl.h, ftape-rw.h). Pointers to buffers are addresses, and
-- `ptr` counts from `dma_address`. The functions on a part of a buffer get that part.
pub mod Local
use ftape.Prelude.{ℕ, ◌==◌, if◌then◌else◌, Bool, List, []}
use ftape.Prelude.Int.{ℤ}
use ftape.Buf.Ring.{
  BufferState, waiting, reading, writing, formatting, verifying, deleting, done, error, fatal_error,
}
use ftape.Rw.Location.{Geometry, SectorId}
use ftape.Rw.Cluster
use ftape.Rw.Cluster.{calc_next_cluster}
use ftape.Rw.Setup
use ftape.Isr.Cause.{History}
use ftape.Isr.Progress
use ftape.Fdc.Wait.{Ports, Chip, Model}
use ftape.Fdc.Setup as Transfer

-- `runner_status_enum`
pub data RunnerStatus : Type 0 where
  idle : RunnerStatus
  running : RunnerStatus
  do_abort : RunnerStatus
  aborting : RunnerStatus
  logical_eot : RunnerStatus
  end_of_tape : RunnerStatus

-- `buffer_struct`
pub record Buffer : Type 0 where
  pub next : ℕ
  pub ptr : ℕ
  pub status : BufferState
  pub bytes : ℕ
  pub segment_id : ℕ
  pub bad_sector_map : ℕ
  pub soft_error_map : ℕ
  pub hard_error_map : ℕ
  pub retry : ℤ
  pub short_start : Bool
  pub skip : ℕ
  pub data_offset : ℕ
  pub sector_offset : ℕ
  pub sector_count : ℕ
  pub remaining : ℕ
  pub next_segment : ℕ
  pub deleted : ℕ
  pub start : SectorId

-- The fields that the interrupt moves, and a buffer with them changed.
abbrev pub progress : Buffer → Progress.Buffer
progress b = record {
  sector_offset = b.sector_offset;
  sector_count = b.sector_count;
  data_offset = b.data_offset;
  remaining = b.remaining;
  ptr = b.ptr;
  bad_sector_map = b.bad_sector_map;
  soft_error_map = b.soft_error_map;
  hard_error_map = b.hard_error_map;
  retry = b.retry;
  short_start = b.short_start;
  cyl = b.start.cyl;
  sect = b.start.sect;
}

abbrev pub with_progress : Buffer → Progress.Buffer → Buffer
with_progress b t = record b {
  sector_offset = t.sector_offset;
  sector_count = t.sector_count;
  data_offset = t.data_offset;
  remaining = t.remaining;
  ptr = t.ptr;
  bad_sector_map = t.bad_sector_map;
  soft_error_map = t.soft_error_map;
  hard_error_map = t.hard_error_map;
  retry = t.retry;
  short_start = t.short_start;
}

-- `ftape_calc_next_cluster` on the buffer.
unfoldable pub next_cluster : Buffer → Buffer
unfolding calc_next_cluster
next_cluster b =
    let c = calc_next_cluster (record {
      bad_sector_map = b.bad_sector_map;
      sector_offset = b.sector_offset;
      remaining = b.remaining;
      sector_count = b.sector_count;
    }) in
    record b {
      bad_sector_map = c.bad_sector_map;
      sector_offset = c.sector_offset;
      remaining = c.remaining;
      sector_count = c.sector_count;
    }

-- The fields that `ftape_setup_new_segment` writes.
abbrev pub setup_part : Buffer → Setup.Buffer
setup_part b = record {
  segment_id = b.segment_id;
  sector_offset = b.sector_offset;
  remaining = b.remaining;
  start = b.start;
  deleted = b.deleted;
  data_offset = b.data_offset;
  ptr = b.ptr;
  soft_error_map = b.soft_error_map;
  hard_error_map = b.hard_error_map;
  bad_sector_map = b.bad_sector_map;
  next_segment = b.next_segment;
  retry = b.retry;
  skip = b.skip;
  short_start = b.short_start;
}

abbrev pub with_setup : Buffer → Setup.Buffer → Buffer
with_setup b s = record b {
  segment_id = s.segment_id;
  sector_offset = s.sector_offset;
  remaining = s.remaining;
  start = s.start;
  deleted = s.deleted;
  data_offset = s.data_offset;
  ptr = s.ptr;
  soft_error_map = s.soft_error_map;
  hard_error_map = s.hard_error_map;
  bad_sector_map = s.bad_sector_map;
  next_segment = s.next_segment;
  retry = s.retry;
  skip = s.skip;
  short_start = s.short_start;
}

-- What `fdc_setup_read_write` reads of the buffer.
abbrev pub cluster : Buffer → Transfer.Cluster
cluster b = record {
  segment_id = b.segment_id;
  start = b.start;
  sector_offset = b.sector_offset;
  sector_count = b.sector_count;
}

-- `fdc_info_t` and the part of `ftape_info_t` that changes.
pub record FdcInfo : Type 0 where
  pub chip : Chip
  pub buffers : ℕ → Buffer
  pub head : ℕ
  pub runner_status : RunnerStatus
  pub driver_state : BufferState
  pub setup : Setup.Driver
  pub history : History
  pub rewinds : ℕ
  pub current_command : ℕ
  pub might_be_off_track : Bool
  pub location_known : Bool
  pub tape_running : Bool
  pub hide_interrupt : Bool
  pub stop_read_ahead : Bool
  pub no_data_error_count : ℕ
  pub expected_stray_interrupts : ℕ
  pub id : SectorId
  pub current_cylinder : ℤ
  pub seek_track : ℤ
  pub seek_result : ℕ
  pub resetting : Bool
  pub interrupt_seen : ℕ
  pub isr_active : ℕ

-- What does not change: the controller and its ports, the tape, its bad sector map, and the
-- parameters of the module. `stale` is what the stack holds where the result bytes go.
pub record Config : Type 0 where
  pub model : Model
  pub ports : Ports
  pub tape : Transfer.Media
  pub geometry : Geometry
  pub bad : ℕ → ℕ
  pub ignore_ecc_err : Bool
  pub soft_retries : ℤ
  pub drive_sel : ℕ
  pub stale : ℕ → ℕ

-- `*fdc->buffer_head`
abbrev pub head_of : FdcInfo → Buffer
head_of fdc = fdc.buffers fdc.head

unfoldable pub write : (ℕ → Buffer) → (address : ℕ) → Buffer → ℕ → Buffer
write buffers address b a = if a == address then b else buffers a

abbrev pub set_head : FdcInfo → Buffer → FdcInfo
set_head fdc b = record fdc { buffers = write fdc.buffers fdc.head b }

-- HEAD = HEAD->next
abbrev pub step_head : FdcInfo → FdcInfo
step_head fdc = record fdc { head = (head_of fdc).next }

-- The number of a state, as `buffer_state_enum` has it.
unfoldable pub state_number : BufferState → ℕ
state_number waiting = 0
state_number reading = 1
state_number writing = 2
state_number formatting = 3
state_number verifying = 4
state_number deleting = 5
state_number done = 6
state_number error = 7
state_number fatal_error = 8

abbrev pub has_status : Buffer → BufferState → Bool
unfolding state_number
has_status b s = state_number b.status == state_number s
