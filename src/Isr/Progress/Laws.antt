-- ===== src/Isr/Progress/Laws.antt =====
-- The buffer stays inside its segment (ftape/lowlevel/fdc-isr.c).
use ftape.Prelude.{
  ℕ, ◌+◌, ◌-◌, ◌^◌, ◌≤◌, ◌<◌, ◌≡◌, refl, arith, ltb, leb, ◌==◌, if◌then◌else◌, true, Bool-cases,
  inl, inr,
}
use ftape.Prelude.Int.{ℤ, pos, ltb_ℤ}
use ftape.Prelude.Words.{sub_word}
use ftape.Isr.Cause.{
  ErrorCause, no_error, id_am_error, id_crc_error, data_am_error, data_crc_error, no_data_error,
  overrun_error,
}
use ftape.Isr.Progress.{
  Buffer, is_error, sectors, counted, advance, note_cause, skip_bad_sector, update_error_maps,
  after_error, determine_progress,
}

-- What was handled and what remains make up the segment.
abbrev pub IsInSegment : Buffer → Type 0
IsInSegment b = b.sector_offset + b.remaining ≡ sectors

advance-IsInSegment :
    (b : Buffer)
    → IsInSegment b
    → b.sector_count ≤ b.remaining
    → IsInSegment (advance b) × ((advance b).remaining ≡ b.remaining - b.sector_count)
unfolding advance
advance-IsInSegment b h small = elim (Bool-cases (ltb 0 b.sector_count)) [
  | inl e ↦ rw e (omega (arith, h, small), omega (arith, h, small))
  | inr e ↦ rw e (h, ground (arith, e))
]

skip-IsInSegment : (b : Buffer) → IsInSegment b → 0 < b.remaining → IsInSegment (skip_bad_sector b)
unfolding skip_bad_sector
skip-IsInSegment b h some =
    let e : ltb 0 b.remaining ≡ true = ground (arith, some) in rw e (omega (arith, h, some))

-- The switch on the cause and the error maps leave the offsets.
note_cause-IsInSegment :
    (cause : ErrorCause) (b : Buffer)
    → ((note_cause cause b).sector_offset ≡ b.sector_offset)
      × ((note_cause cause b).remaining ≡ b.remaining)
unfolding note_cause
note_cause-IsInSegment overrun_error b = elim (Bool-cases (ltb_ℤ (pos 0) b.retry)) [
  | inl e ↦ rw e (refl, refl)
  | inr e ↦ rw e (refl, refl)
]
note_cause-IsInSegment no_error b = (refl, refl)
note_cause-IsInSegment id_am_error b = (refl, refl)
note_cause-IsInSegment id_crc_error b = (refl, refl)
note_cause-IsInSegment data_am_error b = (refl, refl)
note_cause-IsInSegment data_crc_error b = (refl, refl)
note_cause-IsInSegment no_data_error b = (refl, refl)

pub error_maps-same :
    (soft : ℤ) (b : Buffer) (o : ℕ)
    → ((update_error_maps soft b o).sector_offset ≡ b.sector_offset)
      × ((update_error_maps soft b o).remaining ≡ b.remaining)
unfolding update_error_maps
error_maps-same soft b o = elim (Bool-cases (leb sectors o)) [
  | inl e ↦ rw e (refl, refl)
  | inr e ↦ elim (Bool-cases (ltb_ℤ b.retry soft)) [
    | inl f ↦ rw (e, f) (refl, refl)
    | inr f ↦ rw (e, f) (refl, refl)
  ]
]

after_error-IsInSegment :
    (soft : ℤ) (cause : ErrorCause) (b : Buffer)
    → IsInSegment b
    → 0 < b.remaining
    → IsInSegment (after_error soft cause b)
unfolding after_error
after_error-IsInSegment soft cause b h some =
    let noted = note_cause-IsInSegment cause b in
    let skipped : IsInSegment (skip_bad_sector (note_cause cause b)) =
      skip-IsInSegment (note_cause cause b) (omega (arith, h, noted))
        (omega (arith, some, noted)) in
    omega (
      arith,
      skipped,
      error_maps-same soft (skip_bad_sector (note_cause cause b))
          (sub_word (skip_bad_sector (note_cause cause b)).sector_offset 1),
    )

counted_error : (c t : ℕ) → t ≤ c → 0 < c → c < 2 ^ 32 → (if c == t then sub_word t 1 else t) < c
counted_error c t small some word = elim (Bool-cases (c == t)) [
  | inl e ↦ rw e (ground (arith, e))
  | inr e ↦ rw e (ground (arith, e))
]

-- For a buffer whose offset and rest make up a segment and whose cluster is not empty and lies in
-- the rest, determine_progress keeps the offset and the rest a whole segment, whatever the cause
-- of the interrupt and with at most the cluster transferred.
pub determine_progress-IsInSegment :
    (soft : ℤ) (b : Buffer) (cause : ErrorCause) (transferred : ℕ)
    → IsInSegment b
    → 0 < b.sector_count
    → b.sector_count ≤ b.remaining
    → transferred ≤ b.sector_count
    → IsInSegment (determine_progress soft b cause transferred)
unfolding determine_progress counted
determine_progress-IsInSegment soft b cause transferred h some small done =
    elim (Bool-cases (is_error cause)) [
      | inl e ↦ rw e (failed e)
      | inr e ↦
          rw e
            (advance-IsInSegment (record b { sector_count = transferred }) h
              (omega (arith, small, done))).0
    ]
  where
    failed :
        is_error cause ≡ true
        → IsInSegment (
            after_error soft cause (
              advance (record b {
                sector_count =
                    if b.sector_count == transferred then sub_word transferred 1 else transferred;
              })))
    failed e =
        let less = counted_error b.sector_count transferred done some (omega (arith, h, small)) in
        let moved =
          advance-IsInSegment
            (record b {
              sector_count =
                  if b.sector_count == transferred then sub_word transferred 1 else transferred;
            })
            h (omega (arith, less, small)) in
        after_error-IsInSegment soft cause _ moved.0 (omega (arith, moved.1, less, small))
