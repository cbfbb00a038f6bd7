-- ===== src/Rw/Recover/Tests.antt =====
-- A ring with a buffer that waits, whose head fails (ftape/lowlevel/ftape-write.c), an instance of
-- the law.
use ftape.Prelude.{ℕ, true, List, [], ◌∷◌, length-replicate, replicate, some, ◌≡◌, refl}
use ftape.Prelude.Int.{pos}
use ftape.Bsm.Entry.{count_ones}
use ftape.Rw.Recover.{Ring, size_of, put_bad, hard_error_recovery}
use ftape.Rw.Recover.Laws.{IsRecoverable, AreFull, Recovers, hard_error_recovery-Recovers}

-- The first 26 sectors of each segment are bad.
abbrev ring : Ring
ring = record {
  head = record { segment_id = 7; contents = replicate 3072 1 };
  failed = true;
  hard_error_map = 67108864;
  waiting = record { segment_id = 8; contents = replicate 3072 2 } ∷ [];
  bad = λ _. 67108863;
  defects = 0;
  old_segment_id = pos 7;
}

ring-IsRecoverable : IsRecoverable ring
unfolding size_of count_ones put_bad AreFull
ring-IsRecoverable = record {
  one = refl;
  room = refl;
  head = length-replicate {A = ℕ} 3072 1;
  full = (length-replicate {A = ℕ} 3072 2, tt);
}

hard_error_recovery-Recovers_example :
    (t : Ring × List ℕ) × (hard_error_recovery true ring ≡ some t) × Recovers ring t
hard_error_recovery-Recovers_example = hard_error_recovery-Recovers ring ring-IsRecoverable
