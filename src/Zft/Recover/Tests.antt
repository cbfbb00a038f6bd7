-- ===== src/Zft/Recover/Tests.antt =====
-- A segment of 3 KiB that the driver fails to write once and twice (ftape/zftape/zftape-write.c),
-- instances of the laws.
use ftape.Prelude.{
  ℕ, ◌+◌, ◌==◌, if◌then◌else◌, true, [], length-replicate, replicate, ◌≡◌, refl, some, arith,
}
use ftape.Prelude.Int.{ℤ, pos, negsuc}
use ftape.Bsm.Entry.{count_ones}
use ftape.Rw.Recover.{Ring, size_of, put_bad}
use ftape.Rw.Recover.Laws.{AreFull, recovered, recovered-Recovers}
use ftape.Zft.Recover.{Writer, push_sector, recover_once, zftape_write_segment}
use ftape.Zft.Recover.Laws.{IsReady, Swaps, pushed, pushed-Displaces, recover_once-Swaps}
use ftape.Zft.Recover.Loop.{written, again, Queued, zftape_write_segment-HardErrors}

-- The first 26 sectors of each segment are bad.
abbrev ring : Ring
ring = record {
  head = record { segment_id = 7; contents = replicate 3072 1 };
  failed = true;
  hard_error_map = 67108864;
  waiting = [];
  bad = λ _. 67108863;
  defects = 0;
  old_segment_id = pos 7;
}

abbrev writer : Writer
writer = record {
  ring = ring;
  deblock = replicate 3072 2;
  hard_errors = [];
  hard_error_cnt = 0;
  capacity = 100000;
  written_segments = 0;
}

writer-IsReady : IsReady 3072 writer
unfolding size_of count_ones put_bad AreFull
writer-IsReady = record {
  ring = record { one = refl; room = refl; head = length-replicate {A = ℕ} 3072 1; full = tt };
  failed = refl;
  marked = λ e. omega (arith, e);
  sector = omega arith;
  whole = length-replicate {A = ℕ} 3072 2;
}

-- The driver finds a second error, in the next sector of the segment.
abbrev fails_again : Writer → Writer
fails_again w = record w { ring = record w.ring { failed = true; hard_error_map = 134217728 } }

fails_again-IsReady : IsReady 3072 (fails_again (pushed 3072 writer))
unfolding size_of count_ones put_bad AreFull push_sector recovered
fails_again-IsReady = record {
  ring = record {
    one = refl;
    room = refl;
    head = (recovered-Recovers ring writer-IsReady.ring).head;
    full = tt;
  };
  failed = refl;
  marked = λ e. omega (arith, e);
  sector = omega arith;
  whole = (pushed-Displaces 3072 writer writer-IsReady).whole;
}

recover_once-Swaps_example :
    (recover_once true 3072 writer ≡ some (pushed 3072 writer))
    × (recover_once true 3072 (fails_again (pushed 3072 writer))
        ≡ some (pushed 3072 (fails_again (pushed 3072 writer))))
    × Swaps writer (pushed 3072 (fails_again (pushed 3072 writer)))
recover_once-Swaps_example =
    recover_once-Swaps 3072 writer (fails_again (pushed 3072 writer)) writer-IsReady
      fails_again-IsReady refl refl

abbrev fails_once : ℕ → Writer → ℤ × Writer
fails_once n w = if n == 0 then (negsuc 4, w) else (pos 0, w)

zftape_write_segment-HardErrors_example :
    (zftape_write_segment true true fails_once 3072 2 0 writer ≡ (
      some (pos 0),
      record (pushed 3072 writer) { written_segments = (pushed 3072 writer).written_segments + 1 },
    ))
    × Queued 1 writer (pushed 3072 writer)
zftape_write_segment-HardErrors_example =
    zftape_write_segment-HardErrors fails_once 3072 1 2 0 writer 0 (pushed 3072 writer)
      (omega arith)
      (again {w = writer} writer refl writer-IsReady refl refl
        (written {w = pushed 3072 writer} 0 (pushed 3072 writer) refl refl refl))
