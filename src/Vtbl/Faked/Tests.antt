-- ===== src/Vtbl/Faked/Tests.antt =====
-- A table made of two file marks (ftape/zftape/zftape-vtbl.c), and an instance of its law.
use ftape.Prelude.{◌≡◌, refl, List, [], ◌∷◌, arith}
use ftape.Zft.Position.Tests.{bad}
use ftape.Vtbl.Faked.{Mark, have_eom, kept_marks, fake_volume_headers}
use ftape.Vtbl.Faked.Laws.{IsFaked, faked_ends, fake_volume_headers-IsFaked}
use ftape.Vtbl.Tests.{one}

abbrev two_marks : List Mark
two_marks = record { segment = 3; date = 7 } ∷ record { segment = 5; date = 1 } ∷ []

fake_volume_headers-IsFaked_example :
    IsFaked one.tape.first_data_segment
      (faked_ends one.tape.last_data_segment two_marks)
      (fake_volume_headers bad one two_marks)
fake_volume_headers-IsFaked_example =
    fake_volume_headers-IsFaked bad one two_marks (omega arith)
      (omega arith, omega arith, (omega arith, omega arith, tt))

-- The second mark is not right behind the first one, so there are three volumes.
ends_test :
    faked_ends one.tape.last_data_segment two_marks ≡ 3 ∷ 5 ∷ one.tape.last_data_segment ∷ []
unfolding have_eom kept_marks
ends_test = refl
