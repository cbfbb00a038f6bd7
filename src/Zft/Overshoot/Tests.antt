-- ===== src/Zft/Overshoot/Tests.antt =====
-- Two sectors that wait and a segment with room for one (ftape/zftape/zftape-write.c), an instance
-- of the law.
use ftape.Prelude.{ℕ, List, [], ◌∷◌, length-replicate, replicate, refl, arith}
use ftape.Zft.Overshoot.{Pending, empty_hard_error_list}
use ftape.Zft.Overshoot.Laws.{Emptied, empty_hard_error_list-Emptied}

abbrev two_sectors : List (List ℕ)
two_sectors = replicate 1024 7 ∷ replicate 1024 8 ∷ []

abbrev pending : Pending
pending = record {
  hard_errors = two_sectors;
  hard_error_cnt = 2;
  capacity = 100000;
  tape_pos = 2048;
  seg_byte_pos = 1024;
  buffer = replicate 2048 0;
}

empty_hard_error_list-Emptied_example :
    Emptied 2048 two_sectors pending (empty_hard_error_list 2048 pending)
empty_hard_error_list-Emptied_example =
    empty_hard_error_list-Emptied 2048 pending refl
      (length-replicate {A = ℕ} 1024 7, (length-replicate {A = ℕ} 1024 8, tt)) refl (omega arith)
      (omega (arith, length-replicate {A = ℕ} 2048 0)) (omega arith)
