-- ===== src/Bsm/Seek/Order.antt =====
-- What a list of bad sectors says of a segment, and the order that the seeks rely on.
use ftape.Prelude.{
  ℕ, ◌+◌, ◌*◌, ◌≤◌, bit_or, ◌==◌, if◌then◌else◌, ◌≡◌, ◌≢◌, ◌⊎◌, refl, inl, inr, Bool, ◌&&◌, List,
  [], ◌∷◌, arith,
}
use ftape.Bsm.Entry.{
  Format, has_marks, SectorCount, get_sector, cvt2map, cvt2segment, is_mark, empty_segment,
}
use ftape.Bsm.Seek.{unwind}

-- The segment of an entry, and whether it marks the whole segment.
abbrev pub segment : SectorCount → ℕ
segment e = cvt2segment (get_sector e)

abbrev pub marks : Format → SectorCount → Bool
marks fmt e = is_mark (get_sector e) && has_marks fmt

-- The map that one entry stands for.
abbrev pub part : Format → SectorCount → ℕ
part fmt e = if marks fmt e then empty_segment else cvt2map (get_sector e)

-- The map of a segment: the union over all its entries before the terminating zero.
unfoldable pub map_of : Format → ℕ → List SectorCount → ℕ
map_of fmt id [] = 0
map_of fmt id (e ∷ l) =
    if get_sector e == 0
    then 0
    else if segment e == id
    then bit_or (part fmt e) (map_of fmt id l)
    else map_of fmt id l

-- Entries are in the order of their segments, and a mark is alone in its segment: an entry
-- takes the places from `first` up to `last`, and the next one starts there or later.
abbrev pub first : Format → SectorCount → ℕ
first fmt e = if marks fmt e then 2 * segment e else 2 * segment e + 1

abbrev pub last : Format → SectorCount → ℕ
last fmt e = if marks fmt e then 2 * segment e + 2 else 2 * segment e + 1

-- A list that starts at the place `k` or later, is in order and is terminated.
abbrev pub IsFrom : Format → ℕ → List SectorCount → Type 0
IsFrom fmt k [] = ⊥
IsFrom fmt k (e ∷ l) =
    (get_sector e ≡ 0) ⊎ ((get_sector e ≢ 0) × (k ≤ first fmt e) × IsFrom fmt (last fmt e) l)

-- Entries, nearest first, that end at the place `k` or earlier and are in order.
abbrev pub IsUpTo : Format → ℕ → List SectorCount → Type 0
IsUpTo fmt k [] = Unit {0}
IsUpTo fmt k (e ∷ l) = (get_sector e ≢ 0) × (last fmt e ≤ k) × IsUpTo fmt (first fmt e) l

pub IsFrom-mono :
    (fmt : Format) (k j : ℕ) (l : List SectorCount) → j ≤ k → IsFrom fmt k l → IsFrom fmt j l
IsFrom-mono fmt k j (e ∷ l) h (inl z) = inl z
IsFrom-mono fmt k j (e ∷ l) h (inr (n, p, r)) = inr (n, omega arith, r)
IsFrom-mono fmt k j [] h f = elim f [ ]

pub IsUpTo-mono :
    (fmt : Format) (k j : ℕ) (l : List SectorCount) → k ≤ j → IsUpTo fmt k l → IsUpTo fmt j l
IsUpTo-mono fmt k j [] h u = tt
IsUpTo-mono fmt k j (e ∷ l) h u = (u.0, omega arith, u.2)

-- Before the first entry of the segment nothing counts.
pub map_of-unwind :
    (fmt : Format) (id : ℕ) (before after : List SectorCount)
    → IsUpTo fmt (2 * id) before
    → map_of fmt id (unwind before after) ≡ map_of fmt id after
unfolding map_of unwind
map_of-unwind fmt id [] after u = refl
map_of-unwind fmt id (e ∷ before) after u =
    ground (
      arith,
      map_of-unwind fmt id before (e ∷ after),
      IsUpTo-mono fmt (first fmt e) (2 * id) before,
    )

-- After its last entry nothing counts.
pub map_of_above :
    (fmt : Format) (id k : ℕ) (l : List SectorCount)
    → 2 * id + 2 ≤ k
    → IsFrom fmt k l
    → map_of fmt id l ≡ 0
unfolding map_of
map_of_above fmt id k [] h f = elim f [ ]
map_of_above fmt id k (e ∷ l) h (inl z) = ground arith
map_of_above fmt id k (e ∷ l) h (inr (n, p, r)) = ground (arith, map_of_above fmt id (last fmt e) l)
