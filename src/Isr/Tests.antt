-- ===== src/Isr/Tests.antt =====
-- Runs of the interrupt handler's bookkeeping (ftape/lowlevel/fdc-isr.c), and instances of its
-- laws.
use ftape.Prelude.{some, ◌%◌, ◌^◌, ◌+◌, ◌<◌, true, false, ◌≡◌, refl, arith}
use ftape.Prelude.Int.{pos}
use ftape.Isr.Cause.{decode_irq_cause, data_crc_error, no_error}
use ftape.Prelude.Words.{add_word}
use ftape.Isr.Progress.{
  Buffer, determine_progress, counted, is_error, advance, after_error, note_cause, skip_bad_sector,
  update_error_maps, sectors,
}
use ftape.Isr.Progress.Laws.{determine_progress-IsInSegment}
use ftape.Isr.Resume.{first_bit, mask_of, resume_in, find_resume_point}
use ftape.Isr.Resume.Laws.{Resumes, find_resume_point-Resumes}
use ftape.Isr.Verify.{
  get_fdc_transfer_size, fdc_count, residual_sectors, get_transfer_size, note_verify_cause,
  step_over, after_verify_error, determine_verify_progress,
}
use ftape.Isr.Verify.Laws.{
  IsPast, determine_verify_progress-mismatch, determine_verify_progress-IsPast,
}

decode_irq_cause_test : decode_irq_cause 0x41 0x20 0x20 ≡ data_crc_error
unfolding decode_irq_cause
decode_irq_cause_test = refl

-- Eight good sectors are to be read from the fourth on.
abbrev reading : Buffer
reading = record {
  sector_offset = 4;
  sector_count = 8;
  data_offset = 4;
  remaining = 28;
  ptr = 4096;
  bad_sector_map = 0;
  soft_error_map = 0;
  hard_error_map = 0;
  retry = pos 0;
  short_start = false;
  cyl = 7;
  sect = 33;
}

-- Three sectors arrive, the next one has an error and is skipped.
soft_error_test : (determine_progress (pos 6) reading data_crc_error 3).soft_error_map ≡ 0x80
unfolding determine_progress counted is_error advance after_error note_cause skip_bad_sector
    update_error_maps
soft_error_test = refl

determine_progress-IsInSegment_example :
    (determine_progress (pos 6) reading data_crc_error 3).sector_offset
      + (determine_progress (pos 6) reading data_crc_error 3).remaining
    ≡ sectors
determine_progress-IsInSegment_example =
    determine_progress-IsInSegment (pos 6) reading data_crc_error 3 refl (omega arith) (omega arith)
      (omega arith)

-- Three sectors are done, the fourth has an error: two more are stepped over.
verify_test : (determine_verify_progress (pos 6) reading data_crc_error (3, reading)).remaining ≡ 23
unfolding determine_verify_progress after_verify_error note_verify_cause step_over update_error_maps
    is_error
verify_test = refl

determine_verify_progress-mismatch_example :
    determine_verify_progress
      (pos 6)
      reading
      no_error
      (get_transfer_size false reading no_error 7 45 1024)
    ≡ record reading { sector_count = 0; sector_offset = sectors; remaining = 0 }
unfolding fdc_count get_fdc_transfer_size
determine_verify_progress-mismatch_example =
    determine_verify_progress-mismatch (pos 6) false reading 7 45 1024 (omega arith) mismatch
  where
    mismatch :
        reading.sector_count < add_word (fdc_count false reading 7 45) (residual_sectors 1024)
    mismatch = omega arith

determine_verify_progress-IsPast_example : IsPast 4 (
    determine_verify_progress
      (pos 6)
      reading
      data_crc_error
      (get_transfer_size false reading data_crc_error 7 40 5120))
unfolding fdc_count get_fdc_transfer_size is_error
determine_verify_progress-IsPast_example =
    determine_verify_progress-IsPast (pos 6) false reading data_crc_error 7 40 5120 failing refl
      less
  where
    failing : is_error data_crc_error ≡ true
    failing = refl

    less : fdc_count false reading 7 40 < reading.remaining
    less = omega arith

-- A soft error in the third sector, in front of the fourth.
abbrev with_soft_error : Buffer
with_soft_error = record reading { soft_error_map = 0x24; hard_error_map = 0x03 }

resume_test : find_resume_point with_soft_error ≡ some 2
unfolding find_resume_point mask_of resume_in first_bit
resume_test = refl

find_resume_point-Resumes_example :
    Resumes 4 (0x24 % 2 ^ 4) (0x03 % 2 ^ 4) (find_resume_point with_soft_error)
find_resume_point-Resumes_example =
    find_resume_point-Resumes with_soft_error (omega arith) (omega arith)
