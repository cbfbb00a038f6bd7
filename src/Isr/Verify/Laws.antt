-- ===== src/Isr/Verify/Laws.antt =====
-- What verifying a segment makes of an interrupt (ftape/lowlevel/fdc-isr.c).
use ftape.Prelude.{
  ℕ, ◌+◌, ◌<◌, ◌≡◌, Bool, refl, arith, ltb, ◌==◌, if◌then◌else◌, true, false, Bool-cases, inl, inr,
}
use ftape.Prelude.Int.{ℤ, pos, ltb_ℤ}
use ftape.Prelude.Words.{add_word, sub_word, minus_one}
use ftape.Isr.Cause.{
  ErrorCause, no_error, id_am_error, id_crc_error, data_am_error, data_crc_error, no_data_error,
  overrun_error,
}
use ftape.Isr.Progress.{Buffer, is_error, sectors, update_error_maps}
use ftape.Isr.Progress.Laws.{IsInSegment, error_maps-same}
use ftape.Isr.Verify.{
  fdc_count, residual_sectors, eagain, check_transfer_size, get_transfer_size, note_verify_cause,
  step_over, after_verify_error, determine_verify_progress,
}

-- When the residue of the DMA transfer is known and does not fit the count of the controller, an
-- interrupt without an error makes determine_verify_progress take the whole segment as verified:
-- nothing remains, and the maps of errors stay.
pub determine_verify_progress-mismatch :
    (soft : ℤ) (ditto_ez : Bool) (b : Buffer) (c r dma_residue : ℕ)
    → ¬ dma_residue ≡ minus_one
    → b.sector_count < add_word (fdc_count ditto_ez b c r) (residual_sectors dma_residue)
    → determine_verify_progress soft b no_error
        (get_transfer_size ditto_ez b no_error c r dma_residue)
      ≡ record b { sector_count = 0; sector_offset = sectors; remaining = 0 }
unfolding determine_verify_progress get_transfer_size check_transfer_size is_error
determine_verify_progress-mismatch soft ditto_ez b c r dma_residue known less =
    let e : (dma_residue == minus_one) ≡ false = ground (arith, known) in
    let f : ltb b.sector_count (add_word (fdc_count ditto_ez b c r) (residual_sectors dma_residue))
        ≡ true =
      ground (arith, less) in
    rw (e, f) refl

note_verify_cause-same :
    (soft : ℤ) (cause : ErrorCause) (b : Buffer)
    → ((note_verify_cause soft cause b).sector_offset ≡ b.sector_offset)
      × ((note_verify_cause soft cause b).remaining ≡ b.remaining)
unfolding note_verify_cause
note_verify_cause-same soft overrun_error b = elim (Bool-cases (ltb_ℤ (pos 0) b.retry)) [
  | inl e ↦ rw e (refl, refl)
  | inr e ↦ rw e (refl, refl)
]
note_verify_cause-same soft no_error b = (refl, refl)
note_verify_cause-same soft id_am_error b = (refl, refl)
note_verify_cause-same soft id_crc_error b = (refl, refl)
note_verify_cause-same soft data_am_error b = (refl, refl)
note_verify_cause-same soft data_crc_error b = (refl, refl)
note_verify_cause-same soft no_data_error b = (refl, refl)

-- The buffer is inside its segment and past an offset.
pub record IsPast (offset : ℕ) (b : Buffer) : Type 0 where
  pub inside : IsInSegment b
  pub past : offset < b.sector_offset

step_over-IsInSegment :
    (b : Buffer)
    → IsInSegment b
    → 0 < b.remaining
    → IsInSegment (step_over b) × ((step_over b).sector_offset ≡ b.sector_offset + 1)
unfolding step_over
step_over-IsInSegment b h some = (omega (arith, h, some), omega (arith, h, some))

if-step_over :
    (offset : ℕ) (b : Buffer)
    → IsPast offset b
    → IsPast offset (if ltb 0 b.remaining then step_over b else b)
if-step_over offset b h = elim (Bool-cases (ltb 0 b.remaining)) [
  | inl e ↦
      let stepped = step_over-IsInSegment b h.inside (ground (arith, e)) in
      rw e (record { inside = stepped.0; past = omega (arith, stepped.1, h.past) })
  | inr e ↦ rw e h
]

after_verify_error-IsInSegment :
    (soft : ℤ) (b : Buffer) (cause : ErrorCause) (count : ℕ)
    → IsInSegment b
    → count < b.remaining
    → IsPast (b.sector_offset + count) (after_verify_error soft b cause count)
unfolding after_verify_error
after_verify_error-IsInSegment soft b cause count h less =
    let counted : Buffer = record b {
      sector_count = count;
      sector_offset = add_word b.sector_offset count;
      remaining = sub_word sectors (add_word b.sector_offset count);
    } in
    let switched = note_verify_cause-same soft cause counted in
    let stepped =
      step_over-IsInSegment (note_verify_cause soft cause counted)
        (omega (arith, switched, h, less)) (omega (arith, switched, h, less)) in
    let failed : Buffer = step_over (note_verify_cause soft cause counted) in
    let same = error_maps-same soft failed (sub_word failed.sector_offset 1) in
    if-step_over (b.sector_offset + count)
      (update_error_maps soft failed (sub_word failed.sector_offset 1))
      (record {
        inside = omega (arith, stepped.0, same);
        past = omega (arith, stepped.1, same, switched, h, less);
      })

-- A transfer that `get_transfer_size` may report for a buffer.
verify_progress-IsPast :
    (soft : ℤ) (b0 b : Buffer) (cause : ErrorCause) (size : ℕ)
    → is_error cause ≡ true
    → IsInSegment b
    → size < b.remaining
    → IsPast b.sector_offset (determine_verify_progress soft b0 cause (size, b))
unfolding determine_verify_progress
verify_progress-IsPast soft b0 b cause size e h less =
    let f : (size == eagain) ≡ false = ground (arith, h, less) in
    let after = after_verify_error-IsInSegment soft b cause size h less in
    rw (f, e) (record { inside = after.inside; past = omega (arith, after.past) })

again-IsPast :
    (soft : ℤ) (b0 b : Buffer) (cause : ErrorCause)
    → is_error cause ≡ true
    → IsInSegment b
    → 0 < b.remaining
    → IsPast b.sector_offset
        (determine_verify_progress soft b0 cause (eagain, record b { sector_count = 0 }))
unfolding determine_verify_progress
again-IsPast soft b0 b cause e h some =
    let after =
      after_verify_error-IsInSegment soft (record b { sector_count = 0 }) cause 0 h some in
    rw e (record { inside = after.inside; past = omega (arith, after.past) })

-- For a buffer whose offset and rest make up a segment and an interrupt with an error whose count
-- of sectors is less than the rest, determine_verify_progress keeps the offset and the rest a whole
-- segment and moves the offset on, whatever the residue of the DMA transfer.
pub determine_verify_progress-IsPast :
    (soft : ℤ) (ditto_ez : Bool) (b : Buffer) (cause : ErrorCause) (c r dma_residue : ℕ)
    → is_error cause ≡ true
    → IsInSegment b
    → fdc_count ditto_ez b c r < b.remaining
    → IsPast b.sector_offset (
        determine_verify_progress soft b cause (get_transfer_size ditto_ez b cause c r dma_residue))
unfolding get_transfer_size check_transfer_size
determine_verify_progress-IsPast soft ditto_ez b cause c r dma_residue e h less =
    let count = fdc_count ditto_ez b c r in
    let again = again-IsPast soft b b cause e h (omega (arith, less)) in
    let done = verify_progress-IsPast soft b b cause count e h less in
    elim (Bool-cases (dma_residue == minus_one)) [
      | inl f ↦ rw f done
      | inr f ↦
          elim (Bool-cases (ltb b.sector_count (add_word count (residual_sectors dma_residue)))) [
            | inl g ↦ rw (f, g) again
            | inr g ↦ elim (Bool-cases (count == b.sector_count)) [
              | inl i ↦ rw (f, g, i, e) again
              | inr i ↦ rw (f, g, i) done
            ]
          ]
    ]
