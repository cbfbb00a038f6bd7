-- ===== src/Zft/Label.antt =====
-- `zft_ftape_validate_label` of ftape/zftape/zftape-eof.c: the label of a tape of the old ftape. The
-- text of the label is a list, of which the source reads up to a byte that is no digit.
pub mod Laws
pub mod Tests
use ftape.Prelude.{
  ℕ, ◌-◌, leb, ◌==◌, if◌then◌else◌, Bool, true, false, ◌&&◌, Option, none, some, List, [], ◌∷◌,
}

-- `linux_tape_label`, "Linux raw format V"
abbrev pub linux_tape_label : List ℕ
linux_tape_label =
    76 ∷ 105 ∷ 110 ∷ 117 ∷ 120 ∷ 32 ∷ 114 ∷ 97 ∷ 119 ∷ 32 ∷ 102 ∷ 111 ∷ 114 ∷ 109 ∷ 97 ∷ 116 ∷ 32
    ∷ 86 ∷ []

-- What follows a text in front, if it is there.
unfoldable pub behind : (front label : List ℕ) → Option (List ℕ)
behind [] label = some label
behind (x ∷ front) [] = none
behind (x ∷ front) (y ∷ label) = if x == y then behind front label else none

-- The loop over the digits, which multiplies the version and then assigns it.
unfoldable pub read_version : (version : ℕ) → (label : List ℕ) → ℕ
read_version version [] = version
read_version version (c ∷ label) =
    let rest = read_version (c - 48) label in if leb 48 c && leb c 57 then rest else version

unfoldable pub is_format : (version : ℕ) → Bool
is_format version = leb 1 version && leb version 2

unfoldable pub check_version : (digits : Option (List ℕ)) → Bool × ℕ
unfolding read_version is_format
check_version none = (false, 0)
check_version (some digits) = let version = read_version 0 digits in (is_format version, version)

-- Whether the label is one of the old ftape, and `ftape_fmt_version`.
unfoldable pub validate_label : (label : List ℕ) → Bool × ℕ
unfolding behind check_version
validate_label label = check_version (behind linux_tape_label label)
