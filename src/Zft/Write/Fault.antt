-- ===== src/Zft/Write/Fault.antt =====
-- A fault in the user's memory is lost in `_zft_write` (ftape/zftape/zftape-write.c).
use ftape.Prelude.{
  ℕ, suc, ◌+◌, ◌≤◌, ◌<◌, ltb, ◌==◌, true, false, List, [], length, Option, none, some, ◌≡◌, refl,
  ap, ◌∙◌, arith,
}
use ftape.Prelude.Int.{pos, negsuc}
use ftape.Zft.Overshoot.{empty_from, empty_hard_error_list}
use ftape.Zft.Write.{
  Session, Device, copied, regular_data, fill_deblock_buf, fill_failed, after_fill, at_data_segment,
  zft_write_loop, with_access, zft_write,
}

module _ {D : Type 0} (device : Device D) (copy_from_user : List ℕ → ℕ → Option (List ℕ)) where
  -- A session that is ready to take bytes.
  pub record IsWritable (s : Session D) : Type 0 where
    pub size : 0 < device.get_seg_sz s.seg_pos
    pub none_waits : s.pending.hard_errors ≡ []
    pub space : s.pending.tape_pos + device.blk_sz ≤ s.pending.capacity

  fill_deblock_buf-efault :
      (buff : List ℕ) (s : Session D)
      → IsWritable s
      → ((n : ℕ) → copy_from_user buff n ≡ none)
      → fill_deblock_buf device copy_from_user (device.get_seg_sz s.seg_pos) buff s ≡ (negsuc 13, s)
  unfolding fill_deblock_buf regular_data copied empty_hard_error_list empty_from
  fill_deblock_buf-efault buff s h faults =
      let size : (device.get_seg_sz s.seg_pos == 0) ≡ false = ground (arith, h.size) in
      let space : ltb s.pending.capacity (s.pending.tape_pos + device.blk_sz) ≡ false =
        ground (arith, h.space) in
      rw size (
        ap
          (λ l.
            regular_data device copy_from_user (device.get_seg_sz s.seg_pos) buff s
              (empty_from (device.get_seg_sz s.seg_pos) l s.pending))
          h.none_waits
        ∙ rw (space, faults _) refl)

  -- When the access is granted, there are bytes to write and the user's memory faults, and no
  -- sector waits, the segment holds data, the controller has a buffer and a block fits into the
  -- capacity, fill_deblock_buf fails with -EFAULT and changes nothing, but _zft_write returns 0,
  -- as if there were nothing to write.
  pub zft_write-efault :
      (rounds : ℕ) (buff : List ℕ) (s : Session D) (n : ℕ) (t : Session D)
      → device.check_write_access
          (length buff)
          (record s { resid = length buff; last_write_failed = true })
        ≡ (pos n, t)
      → 0 < length buff
      → device.has_buffer t ≡ true
      → IsWritable t
      → ((n : ℕ) → copy_from_user buff n ≡ none)
      → (fill_deblock_buf device copy_from_user
            (device.get_seg_sz t.seg_pos)
            buff
            (at_data_segment device copy_from_user t)
          ≡ (negsuc 13, at_data_segment device copy_from_user t))
        × ((zft_write device copy_from_user (suc rounds) buff s).0 ≡ some (pos 0))
  unfolding zft_write with_access zft_write_loop after_fill fill_failed at_data_segment
  zft_write-efault rounds buff s n t e some_bytes has h faults =
      let fill =
        fill_deblock_buf-efault buff (at_data_segment device copy_from_user t)
          (record { size = h.size; none_waits = h.none_waits; space = h.space }) faults in
      let busy : (length buff + length t.pending.hard_errors == 0) ≡ false =
        ground (arith, some_bytes) in
      (
        fill,
        rw (e, busy, has)
            (ap
              (λ r.
                (after_fill device copy_from_user (zft_write_loop device copy_from_user rounds)
                  (device.get_seg_sz t.seg_pos) buff 0 r).0)
              fill),
      )
