-- ===== src/Rw/Tests.antt =====
-- Runs of the sector clusters and the setup of ftape/lowlevel/ftape-rw.c, and instances of their
-- laws.
use ftape.Prelude.{ℕ, ◌+◌, true, false, none, some, ◌≡◌, refl, arith}
use ftape.Prelude.Int.{pos, ◌+ℤ◌}
use ftape.Rw.Ends.{Location, check_bot_eot, validate}
use ftape.Rw.Ends.Laws.{Ends, check_bot_eot-Ends}
use ftape.Rw.Cluster
use ftape.Rw.Cluster.{skip_bad, good_run, calc_next_cluster}
use ftape.Rw.Cluster.Laws.{IsNextCluster, calc_next_cluster_lem}
use ftape.Rw.Location.{Geometry, segment_start, id_location}
use ftape.Rw.Location.Laws.{later, id_location-segment_start}
use ftape.Rw.Setup.{Buffer, Driver, setup_new_segment, sectors}
use ftape.Rw.Setup.Retry.{setup_new_segment_twice}

-- Two bad sectors, three good ones and a bad one.
abbrev clustered : Cluster.Buffer
clustered = record { bad_sector_map = 0x63; sector_offset = 4; remaining = 28; sector_count = 0 }

cluster_test : (calc_next_cluster clustered).sector_count ≡ 3
unfolding calc_next_cluster skip_bad good_run
cluster_test = refl

calc_next_cluster_lem_example : IsNextCluster clustered (calc_next_cluster clustered)
calc_next_cluster_lem_example = calc_next_cluster_lem clustered

abbrev geometry : Geometry
geometry = record { segments_per_head = 600; segments_per_cylinder = 4 }

id_location-segment_start_example :
    id_location geometry (later 5 (segment_start geometry 1234)) ≡ (1234, 5)
id_location-segment_start_example =
    id_location-segment_start geometry 150 1234 5 refl (omega arith) (omega arith) (omega arith)
      (omega arith) (omega arith)

abbrev bad_at_1 : ℕ → ℕ
bad_at_1 segment = 0x12

abbrev buffer : Buffer
buffer = record {
  segment_id = 0;
  sector_offset = 0;
  remaining = 0;
  start = record { head = 0; cyl = 0; sect = 1 };
  deleted = 0;
  data_offset = 0;
  ptr = 0;
  soft_error_map = 0xff;
  hard_error_map = 0;
  bad_sector_map = 0;
  next_segment = 0;
  retry = pos 0;
  skip = 9;
  short_start = false;
}

abbrev driver : Driver
driver = record {
  state = 1;
  old_state = 1;
  old_segment_id = some 7;
  retries = 4;
  last_segment_skipped = none;
}

setup_new_segment_twice_example :
    let first = setup_new_segment bad_at_1 geometry true driver buffer 7 true in
    let second = setup_new_segment bad_at_1 geometry true first.0 first.1 7 false in
    (second.1.retry ≡ first.1.retry +ℤ pos 1)
    × (second.0.retries ≡ first.0.retries + 1)
    × (first.1.sector_offset + first.1.remaining ≡ sectors)
setup_new_segment_twice_example =
    setup_new_segment_twice bad_at_1 geometry true driver buffer 7 true false (omega arith)

abbrev track_3 : Location
track_3 = record {
  track = some 3;
  segment = pos 200;
  sector = pos 0;
  bot = false;
  eot = false;
  known = false;
}

-- On an odd track the end of the tape comes first.
-- A tape at EOT is at the start of the odd track 3.
check_bot_eot-Ends_example : Ends 68 3 0x80 track_3 (check_bot_eot 68 track_3 0x80)
check_bot_eot-Ends_example = check_bot_eot-Ends 68 3 0x80 track_3 refl

validate_test : (validate 68 (some 3) 204 ≡ true) × (validate 68 (some 3) 340 ≡ false)
unfolding validate
validate_test = (refl, refl)
