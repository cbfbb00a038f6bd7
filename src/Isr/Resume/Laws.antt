-- ===== src/Isr/Resume/Laws.antt =====
-- The point where a segment is verified again (ftape/lowlevel/fdc-isr.c).
use ftape.Prelude.{
  ℕ, zero, suc, ◌+◌, ◌-◌, ◌%◌, ◌^◌, ◌≤◌, ◌<◌, bit_and, ltb, leb, ◌==◌, false, Bool-cases, Option,
  some, ◌≡◌, refl, sym, subst, arith, inl, inr,
}
use ftape.Prelude.Bits.Or.{and_mask}
use native.Mathlib.Nat.{one-le-pow}
use ftape.Isr.Resume.Bits.{bit, no_bit, a_bit, no_bits}
use ftape.Isr.Progress.{Buffer, sectors}
use ftape.Isr.Resume.{first_bit, last_bit, mask_of, behind_bit, resume_in, find_resume_point}

-- A bit of the map below a bound, and no bit in front of it.
pub record Lowest (map bound : ℕ) (o : Option ℕ) : Type 0 where
  pub at : ℕ
  pub gives : o ≡ some at
  pub below : at < bound
  pub is_set : bit map at ≡ 1
  pub none_before : (j : ℕ) → j < at → bit map j ≡ 0

up_to :
    (map i : ℕ)
    → ((j : ℕ) → j < i → bit map j ≡ 0)
    → bit map i ≡ 0
    → (j : ℕ) → j < i + 1
    → bit map j ≡ 0
up_to map i before here j h = elim (Bool-cases (j == i)) [
  | inl e ↦ let same : j ≡ i = ground (arith, e) in subst (λ n. bit map n ≡ 0) (sym same) here
  | inr e ↦ before j (ground (arith, e, h))
]

-- A bit of the map is in front of its bound.
inside :
    (i bound map : ℕ) → ((j : ℕ) → j < i → bit map j ≡ 0) → map < 2 ^ bound → ¬ map ≡ 0 → i < bound
inside i bound map before h some_bit = elim (Bool-cases (ltb i bound)) [
  | inl e ↦ ground (arith, e)
  | inr e ↦ absurd (some_bit (no_bits bound map h (λ j less. before j (ground (arith, e, less)))))
]

first_bit-Lowest :
    (rounds i bound map : ℕ)
    → bound ≤ i + rounds
    → ((j : ℕ) → j < i → bit map j ≡ 0)
    → map < 2 ^ bound
    → ¬ map ≡ 0
    → Lowest map bound (first_bit rounds i map)
unfolding first_bit
first_bit-Lowest zero i bound map e before h some_bit =
    absurd (some_bit (no_bits bound map h (λ j less. before j (omega (arith, e, less)))))
first_bit-Lowest (suc rounds) i bound map e before h some_bit =
    elim (Bool-cases (bit_and map (2 ^ i) == 0)) [
      | inl f ↦
          let rest =
            first_bit-Lowest rounds (i + 1) bound map (omega (arith, e))
              (up_to map i before (no_bit i map f)) h some_bit in
          rw f rest
      | inr f ↦ rw f (record {
        at = i;
        gives = refl;
        below = inside i bound map before h some_bit;
        is_set = a_bit i map f;
        none_before = before;
      })
    ]

-- A bit of the map, and no bit behind it in front of a bound.
pub record Highest (map bound : ℕ) (o : Option ℕ) : Type 0 where
  pub at : ℕ
  pub gives : o ≡ some at
  pub below : at < bound
  pub is_set : bit map at ≡ 1
  pub none_after : (j : ℕ) → at < j → j < bound → bit map j ≡ 0

from_on :
    (map i bound : ℕ)
    → ((j : ℕ) → i < j → j < bound → bit map j ≡ 0)
    → bit map i ≡ 0
    → (j : ℕ) → i ≤ j
    → j < bound
    → bit map j ≡ 0
from_on map i bound after here j h k = elim (Bool-cases (j == i)) [
  | inl e ↦ let same : j ≡ i = ground (arith, e) in subst (λ n. bit map n ≡ 0) (sym same) here
  | inr e ↦ after j (ground (arith, e, h)) k
]

last_bit-Highest :
    (i bound map : ℕ)
    → i < bound
    → ((j : ℕ) → i < j → j < bound → bit map j ≡ 0)
    → map < 2 ^ bound
    → ¬ map ≡ 0
    → Highest map bound (last_bit i map)
unfolding last_bit
last_bit-Highest zero bound map less after h some_bit =
    elim (Bool-cases (bit_and map (2 ^ 0) == 0)) [
      | inl f ↦ absurd (
          some_bit (
            no_bits bound map h
              (λ j in_bound. from_on map 0 bound after (no_bit 0 map f) j (omega arith) in_bound)))
      | inr f ↦ rw f (record {
        at = 0;
        gives = refl;
        below = less;
        is_set = a_bit 0 map f;
        none_after = after;
      })
    ]
last_bit-Highest (suc i) bound map less after h some_bit =
    elim (Bool-cases (bit_and map (2 ^ suc i) == 0)) [
      | inl f ↦ rw f (
          last_bit-Highest i bound map (omega (arith, less))
            (λ j above in_bound.
              from_on map (suc i) bound after (no_bit (suc i) map f) j (omega (arith, above))
                in_bound)
            h some_bit)
      | inr f ↦ rw f (record {
        at = suc i;
        gives = refl;
        below = less;
        is_set = a_bit (suc i) map f;
        none_after = after;
      })
    ]

-- The point in a map of soft errors and one of hard errors.
pub data Resumes (offset soft hard : ℕ) (o : Option ℕ) : Type 0 where
  at_soft_error : Lowest soft offset o → Resumes offset soft hard o
  after_hard_error :
      (last : Option ℕ)
      → soft ≡ 0
      → Highest hard offset last
      → o ≡ behind_bit last
      → Resumes offset soft hard o
  no_errors : soft ≡ 0 → hard ≡ 0 → o ≡ some (offset - 1) → Resumes offset soft hard o

resume_in-Resumes :
    (offset soft hard : ℕ)
    → 0 < offset
    → offset ≤ sectors
    → soft < 2 ^ offset
    → hard < 2 ^ offset
    → Resumes offset soft hard (resume_in offset soft hard)
unfolding resume_in
resume_in-Resumes offset soft hard any small hs hh = elim (Bool-cases (soft == 0)) [
  | inr e ↦ rw e (
      at_soft_error (
        first_bit-Lowest sectors 0 offset soft (omega (arith, small))
          (λ j h. absurd (omega (arith, h))) hs (λ z. ground (arith, e, z))))
  | inl e ↦
      let no_soft : soft ≡ 0 = ground (arith, e) in
      elim (Bool-cases (hard == 0)) [
        | inl f ↦ rw (e, f) (no_errors no_soft (ground (arith, f)) refl)
        | inr f ↦
            rw (e, f)
              (after_hard_error (last_bit (offset - 1) hard) no_soft
                (last_bit-Highest (offset - 1) offset hard (omega (arith, any))
                  (λ j above in_bound. absurd (omega (arith, above, in_bound))) hh
                  (λ z. ground (arith, f, z)))
                refl)
      ]
]

masked : (offset map : ℕ) → offset ≤ 32 → bit_and map (mask_of offset) ≡ map % 2 ^ offset
unfolding mask_of
masked offset map small = elim (Bool-cases (leb 32 offset)) [
  | inl e ↦ let whole : offset ≡ 32 = ground (arith, e, small) in rw (e, whole) (and_mask 32 map)
  | inr e ↦ rw e (and_mask offset map)
]

-- For an offset from 1 to 32, find_resume_point ends at the first soft error in front of the
-- offset; without one, behind the last hard error in front of it; and without any error at the
-- sector in front of the offset.
pub find_resume_point-Resumes :
    (b : Buffer)
    → 0 < b.sector_offset
    → b.sector_offset ≤ sectors
    → Resumes b.sector_offset
        (b.soft_error_map % 2 ^ b.sector_offset)
        (b.hard_error_map % 2 ^ b.sector_offset)
        (find_resume_point b)
unfolding find_resume_point
find_resume_point-Resumes b any small =
    let low : ltb b.sector_offset 1 ≡ false = ground (arith, any) in
    let high : ltb 32 b.sector_offset ≡ false = ground (arith, small) in
    let bound = one-le-pow b.sector_offset 2 in
    rw
      (
        low,
        high,
        masked b.sector_offset b.soft_error_map small,
        masked b.sector_offset b.hard_error_map small,
      )
      (resume_in-Resumes b.sector_offset _ _ any small (omega (arith, bound))
        (omega (arith, bound)))
