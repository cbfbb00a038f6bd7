-- ===== src/Xfer/Head/Local.antt =====
-- What an interrupt does with the head (ftape/lowlevel/fdc-isr.c) changes no other buffer.
use ftape.Prelude.{ℕ, ◌^◌, bit_or, ltb, if-cases, Bool, ◌&&◌, List, refl}
use ftape.Prelude.Words.{add_word, sub_word}
use ftape.Isr.Cause.{ErrorCause}
use ftape.Isr.Progress.{sectors}
use ftape.Xfer.State.{Buffer, FdcInfo, Config, head_of, set_head}
use ftape.Xfer.State.Local.{
  Local, Step, plain, Plain-Local, Step-Plain, Local-trans, set_head-Local, Local-Step,
}
use ftape.Xfer.Continue.Local.{continue_xfer-Step, retry_sector-Local}
use ftape.Xfer.Format.{terminate_dma}
use ftape.Xfer.Head.{
  count_error, transfer_size, head_progress, head_verify_progress, skip_at, retry_or_continue,
  mark_deleted,
}
use ftape.Xfer.Format.Local.{terminate_dma-Local}

-- The history may change after a step.
pub count_error-Step :
    {f g : FdcInfo} → Step f g → (cause : ErrorCause) → Step f (count_error cause g)
unfolding count_error
count_error-Step p cause = Step-Plain p (plain refl (λ a. refl) refl refl refl)

-- So may the count of the missing sectors.
pub no_data-Local :
    {f g : FdcInfo} → Local f g → (n : ℕ) → Local f (record g { no_data_error_count = n })
no_data-Local p n = Local-trans p (Plain-Local (plain refl (λ a. refl) refl refl refl))

module _ (cfg : Config) where
  pub head_progress-Local :
      (cause : ErrorCause) (transferred : ℕ) (fdc : FdcInfo)
      → Local fdc (head_progress cfg cause transferred fdc)
  unfolding head_progress
  head_progress-Local cause transferred fdc = set_head-Local fdc _ refl

  pub retry_or_continue-Step :
      (retry : Bool) (fdc : FdcInfo) → Step fdc (retry_or_continue cfg retry fdc)
  unfolding retry_or_continue
  retry_or_continue-Step retry fdc =
      if-cases (Step fdc) (retry && ltb (skip_at retry fdc) sectors) _ _
        (λ _. Local-Step (retry_sector-Local fdc.chip.mode (skip_at retry fdc) fdc))
        (λ _. continue_xfer-Step cfg fdc.chip.mode (skip_at retry fdc) fdc)

pub mark_deleted-Local : (fdc : FdcInfo) → Local fdc (mark_deleted fdc)
unfolding mark_deleted
mark_deleted-Local fdc = record {
  head = refl;
  others = kept.others;
  ring = kept.ring;
  active = refl;
  seen = refl;
  rewound = refl;
}
  where
    marked : Buffer
    marked = record (head_of fdc) {
      deleted = 1;
      remaining = 0;
      soft_error_map =
          bit_or (head_of fdc).soft_error_map (sub_word 0 (2 ^ (head_of fdc).sector_offset));
      next_segment = add_word (head_of fdc).segment_id 1;
    }

    kept : Local fdc (set_head fdc marked)
    kept = set_head-Local fdc marked refl

module _ (cfg : Config) (result : List ℕ) where
  pub transfer_size-Local :
      (cause : ErrorCause) (fdc : FdcInfo) → Local fdc (transfer_size cfg result cause fdc).1
  unfolding transfer_size terminate_dma
  transfer_size-Local cause fdc =
      Local-trans (terminate_dma-Local cfg fdc) (set_head-Local _ _ refl)

  pub head_verify_progress-Local :
      (cause : ErrorCause) (fdc : FdcInfo) → Local fdc (head_verify_progress cfg result cause fdc)
  unfolding head_verify_progress terminate_dma
  head_verify_progress-Local cause fdc =
      Local-trans (terminate_dma-Local cfg fdc) (set_head-Local _ _ refl)
