-- ===== src/Rw/Setup/Laws.antt =====
-- What the buffer of a new segment and of a retry says (ftape/lowlevel/ftape-rw.c).
use ftape.Prelude.{
  ℕ, zero, suc, ◌+◌, ◌-◌, ◌*◌, ◌/◌, ◌^◌, ◌≤◌, ◌<◌, bit_and, ◌==◌, ==_iff, Bool, true, Bool-cases,
  inl, inr, all_below, all_below_sound, ◌≡◌, refl, ap, sym, ◌∙◌, arith,
}
use native.Mathlib.Nat.{pow-suc, one-le-pow, pow-le-pow_right}
use ftape.Prelude.Bits.Or.{and_mask}
use ftape.Bsm.Entry.{count_ones, count_bits}
use ftape.Rw.Location.{Geometry}
use ftape.Rw.Setup.{Buffer, drop_bad, setup_segment, sector_size}

count_bits_more : (n m b : ℕ) → count_bits n m (b + 1) ≡ count_bits n m b + 1
unfolding count_bits
count_bits_more zero m b = refl
count_bits_more (suc n) m b = elim (Bool-cases (bit_and m 1 == 0)) [
  | inl e ↦ rw e (count_bits_more n (m / 2) b)
  | inr e ↦ rw e (count_bits_more n (m / 2) (b + 1))
]

count_bits_zero : (n b : ℕ) → count_bits n 0 b ≡ b
unfolding count_bits
count_bits_zero zero b = refl
count_bits_zero (suc n) b = count_bits_zero n b

count_bits_any : (n k m b : ℕ) → m < 2 ^ n → m < 2 ^ k → count_bits n m b ≡ count_bits k m b
unfolding count_bits
count_bits_any zero k m b p q = let e : m ≡ 0 = omega arith in rw e (sym (count_bits_zero k b))
count_bits_any (suc n) zero m b p q = let e : m ≡ 0 = omega arith in rw e (count_bits_zero n b)
count_bits_any (suc n) (suc k) m b p q =
    count_bits_any n k (m / 2) _ (omega (arith, pow-suc 2 n)) (omega (arith, pow-suc 2 k))

count_bits_le : (n m : ℕ) → count_bits n m 0 ≤ n
unfolding count_bits
count_bits_le zero m = omega arith
count_bits_le (suc n) m = elim (Bool-cases (bit_and m 1 == 0)) [
  | inl e ↦ rw e (omega (arith, count_bits_le n (m / 2)))
  | inr e ↦ rw e (omega (arith, count_bits_le n (m / 2), count_bits_more n (m / 2) 0))
]

ones_table : all_below 33 (λ j. count_ones (2 ^ j - 1) == j) ≡ true
unfolding all_below count_ones count_bits
ones_table = refl

halve : (j : ℕ) → (2 ^ j - 1) / 2 ≡ 2 ^ (j - 1) - 1
halve zero = refl
halve (suc j) =
    let e : suc j - 1 ≡ j = omega arith in rw (e, pow-suc 2 j) (omega (arith, one-le-pow j 2))

drop_bad_lem : (n m j : ℕ) → drop_bad n m (2 ^ j - 1) ≡ 2 ^ (j - count_bits n m 0) - 1
unfolding drop_bad count_bits
drop_bad_lem zero m j = let e : j - 0 ≡ j = omega arith in rw e refl
drop_bad_lem (suc n) m j = elim (Bool-cases (bit_and m 1 == 0)) [
  | inl e ↦ rw e (drop_bad_lem n (m / 2) j)
  | inr e ↦
      let f : j - 1 - count_bits n (m / 2) 0 ≡ j - count_bits n (m / 2) 1 =
        omega (arith, count_bits_more n (m / 2) 0) in
      rw (e, halve j, sym f) (drop_bad_lem n (m / 2) (j - 1))
]

ones-bits : (m : ℕ) → count_ones m ≡ count_bits 64 m 0
unfolding count_ones
ones-bits m = refl

fits_word : (o : ℕ) → o < 32 → 2 ^ o ≤ 2 ^ 32
fits_word o h =
    let small : o ≤ 32 = omega (arith, h) in pow-le-pow_right {n = 2} (omega arith) small

kept_ones :
    (o m : ℕ)
    → o < 32
    → m < 2 ^ o
    → (count_ones (drop_bad 32 m (2 ^ o - 1)) ≡ o - count_ones m) × (count_ones m ≤ o)
kept_ones o m h below =
    let kept : ℕ = o - count_bits 32 m 0 in
    let fits : 2 ^ o ≤ 2 ^ 32 = fits_word o h in
    let word : count_bits 64 m 0 ≡ count_bits 32 m 0 =
      count_bits_any 64 32 m 0 (omega (arith, fits, below)) (omega (arith, fits, below)) in
    let few : count_bits 32 m 0 ≡ count_bits o m 0 =
      count_bits_any 32 o m 0 (omega (arith, fits, below)) below in
    let table : count_ones (2 ^ kept - 1) ≡ kept =
      (==_iff (count_ones (2 ^ kept - 1)) kept).0 (
        all_below_sound 33 (λ j. count_ones (2 ^ j - 1) == j) kept ones_table (omega (arith, h))) in
    (
      ap count_ones (drop_bad_lem 32 m o) ∙ table ∙ omega (arith, ones-bits m, word),
      omega (arith, ones-bits m, word, few, count_bits_le o m),
    )

-- The sectors in front of the offset that are bad.
abbrev pub bad_before : (bad : ℕ → ℕ) (segment_id offset : ℕ) → ℕ
bad_before bad segment_id offset = count_ones (bit_and (bad segment_id) (2 ^ offset - 1))

-- With an offset below 32, the data of the buffer start one sector further for each sector in
-- front of the offset that is not bad.
pub setup_segment-data_offset :
    (bad : ℕ → ℕ) (g : Geometry) (b : Buffer) (segment_id offset count : ℕ) (retry : Bool)
    → offset < 32
    → ((setup_segment bad g b segment_id offset count retry).data_offset
          + bad_before bad segment_id offset
        ≡ offset)
      × ((setup_segment bad g b segment_id offset count retry).ptr
          ≡ (offset - bad_before bad segment_id offset) * sector_size)
unfolding setup_segment
setup_segment-data_offset bad g b segment_id offset count retry below =
    let m : ℕ = bit_and (bad segment_id) (2 ^ offset - 1) in
    let low : m < 2 ^ offset =
      ground (arith, and_mask offset (bad segment_id), one-le-pow offset 2) in
    let kept = kept_ones offset m below low in
    (omega (arith, kept.0, kept.1), ap (λ (t : ℕ). t * sector_size) kept.0)
