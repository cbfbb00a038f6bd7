-- ===== src/Zft/Label/Tests.antt =====
-- A label of version 31 (ftape/zftape/zftape-eof.c), an instance of the law.
use ftape.Prelude.{◌≡◌, [], ◌∷◌, ◌++◌, arith}
use ftape.Zft.Label.{linux_tape_label, is_format, validate_label}
use ftape.Zft.Label.Laws.{validate_label-last_digit}

validate_label-last_digit_example :
    validate_label (linux_tape_label ++ (51 ∷ 49 ∷ 0 ∷ [])) ≡ (is_format 1, 1)
validate_label-last_digit_example =
    validate_label-last_digit (3 ∷ 1 ∷ []) [] (omega arith, (omega arith, tt))
