-- ===== src/Zft/Write/Tests.antt =====
-- Seven bytes for segments of four, with an empty one between, and a fault (ftape/zftape/zftape-write.c), instances of the laws.
use ftape.Prelude.{
  ◌==◌, if◌then◌else◌, ℕ, true, false, List, [], ◌∷◌, ◌++◌, take, none, some, ◌≡◌, refl, arith,
}
use ftape.Prelude.Int.{pos, negsuc}
use ftape.Zft.Write.{Session, Device, fill_deblock_buf, at_data_segment, zft_write}
use ftape.Zft.Write.Laws.{Works}
use ftape.Zft.Write.Loop.{Writes, zft_write-Writes}
use ftape.Zft.Write.Fault.{zft_write-efault}

abbrev blank : List ℕ
blank = 0 ∷ 0 ∷ 0 ∷ 0 ∷ []

-- The drive is what is on its tape.
abbrev device : Device (List ℕ)
device = record {
  first_data_segment = 3;
  blk_sz = 2;
  get_seg_sz = λ k. if k == 4 then 0 else 4;
  check_write_access = λ _ s. (pos 0, s);
  has_buffer = λ _. true;
  write_segment = λ _ seg_sz s. (
    pos seg_sz,
    record s {
      drive = s.drive ++ take seg_sz s.pending.buffer;
      pending = record s.pending { buffer = blank };
    },
  );
}

device-Works : Works device (λ tape. tape)
device-Works = record {
  has_buffer = λ _. refl;
  buffer = λ k s. (s.drive ++ take (device.get_seg_sz k) s.pending.buffer, blank);
  count = λ k s. device.get_seg_sz k;
  write_segment = λ _ _. refl;
  appends = λ _ _. refl;
  long = λ _ _ _. ground arith;
}

abbrev session : Session (List ℕ)
session = record {
  pending = record {
    hard_errors = [];
    hard_error_cnt = 0;
    capacity = 100;
    tape_pos = 1;
    seg_byte_pos = 1;
    buffer = 9 ∷ 0 ∷ 0 ∷ 0 ∷ [];
  };
  seg_pos = 3;
  volume_pos = 1;
  resid = 7;
  last_write_failed = true;
  need_flush = false;
  vtbl_read = true;
  drive = [];
}

abbrev seven : List ℕ
seven = 1 ∷ 2 ∷ 3 ∷ 4 ∷ 5 ∷ 6 ∷ 7 ∷ []

zft_write-Writes_example :
    Writes device
      (λ tape. tape)
      device-Works
      seven
      0
      session
      (zft_write device (λ xs n. some (take n xs)) 5 seven session)
    × ((zft_write device (λ xs n. some (take n xs)) 5 seven session).1.resid ≡ 0)
zft_write-Writes_example =
    zft_write-Writes device (λ tape. tape) device-Works (λ xs n. some (take n xs)) (λ _ _. refl) 4
      seven session 0 session refl refl (omega arith)
      (record {
        inside = omega arith;
        long = λ _. ground arith;
        none_waits = refl;
        space = omega arith;
      })

zft_write-efault_example :
    (fill_deblock_buf device (λ _ _. none) 4 seven (at_data_segment device (λ _ _. none) session)
      ≡ (negsuc 13, at_data_segment device (λ _ _. none) session))
    × ((zft_write device (λ _ _. none) 8 seven session).0 ≡ some (pos 0))
zft_write-efault_example =
    zft_write-efault device (λ _ _. none) 7 seven session 0 session refl (omega arith) refl
      (record { size = omega arith; none_waits = refl; space = omega arith }) (λ _. refl)
