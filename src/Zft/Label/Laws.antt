-- ===== src/Zft/Label/Laws.antt =====
-- The version of a label is its last digit (ftape/zftape/zftape-eof.c).
use ftape.Prelude.{
  ℕ, ◌+◌, ◌-◌, ◌<◌, leb, ◌==◌, true, some, List, [], ◌∷◌, ◌++◌, map, ◌≡◌, refl, ap, ◌∙◌, arith,
}
use ftape.Zft.Label.{
  linux_tape_label, behind, read_version, is_format, check_version, validate_label,
}

-- The characters of digits.
abbrev pub digits : List ℕ → List ℕ
digits ds = map (λ d. 48 + d) ds

abbrev pub AreDigits : List ℕ → Type 0
AreDigits [] = Unit
AreDigits (d ∷ ds) = (d < 10) × AreDigits ds

-- The last digit, or the one given.
abbrev pub last_digit : ℕ → List ℕ → ℕ
last_digit v [] = v
last_digit v (d ∷ ds) = last_digit d ds

behind-append : (front label : List ℕ) → behind front (front ++ label) ≡ some label
unfolding behind
behind-append [] label = refl
behind-append (x ∷ front) label =
    let e : (x == x) ≡ true = ground arith in rw e (behind-append front label)

read_version-last_digit :
    (v : ℕ) (ds rest : List ℕ)
    → AreDigits ds
    → read_version v (digits ds ++ 0 ∷ rest) ≡ last_digit v ds
unfolding read_version
read_version-last_digit v [] rest ok = refl
read_version-last_digit v (d ∷ ds) rest ok =
    let low : leb 48 (48 + d) ≡ true = ground arith in
    let high : leb (48 + d) 57 ≡ true = ground (arith, ok.0) in
    let back : 48 + d - 48 ≡ d = omega arith in
    rw (low, high, back) (read_version-last_digit d ds rest ok.1)

-- For the label of the old ftape with a number behind it, zft_ftape_validate_label takes the last
-- digit of the number as the version, and accepts the label if this digit is 1 or 2.
pub validate_label-last_digit :
    (ds rest : List ℕ)
    → AreDigits ds
    → validate_label (linux_tape_label ++ (digits ds ++ 0 ∷ rest))
      ≡ (is_format (last_digit 0 ds), last_digit 0 ds)
unfolding validate_label
validate_label-last_digit ds rest ok =
    ap check_version (behind-append linux_tape_label (digits ds ++ 0 ∷ rest))
    ∙ checked (read_version-last_digit 0 ds rest ok)
  where
    checked :
        {n : ℕ}
        → read_version 0 (digits ds ++ 0 ∷ rest) ≡ n
        → check_version (some (digits ds ++ 0 ∷ rest)) ≡ (is_format n, n)
    checked e = ap (λ v. (is_format v, v)) e
