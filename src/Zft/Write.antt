-- ===== src/Zft/Write.antt =====
-- The deblocking write: `fill_deblock_buf` and `_zft_write` of ftape/zftape/zftape-write.c.
--
-- The size of a segment, `check_write_access`, the test of `fdc_get_deblock_buffer` and
-- `zftape_write_segment` are an interface; the buffer of the session is the one that the controller
-- gives. `copy_from_user` is a parameter, `none` for a fault. No signal arrives.
pub mod Fault
pub mod Laws
pub mod Loop
mod Tests
use ftape.Prelude.{
  ℕ, zero, suc, ◌+◌, ◌-◌, min, ltb, ◌==◌, if◌then◌else◌, Bool, true, false, not, ◌&&◌, ◌||◌, List,
  [], ◌∷◌, drop, length, Option, none, some,
}
use ftape.Prelude.Int.{ℤ, pos, negsuc}
use ftape.Zft.Overshoot.{Pending, Outcome, ok, eio, enospc, copy_to, empty_hard_error_list}

-- The fields of `zftape_info_t` that are used.
pub record Session (D : Type 0) : Type 0 where
  pub pending : Pending
  pub seg_pos : ℕ
  pub volume_pos : ℕ
  pub resid : ℕ
  pub last_write_failed : Bool
  pub need_flush : Bool
  pub vtbl_read : Bool
  pub drive : D

pub record Device (D : Type 0) : Type 0 where
  pub first_data_segment : ℕ
  pub blk_sz : ℕ
  pub get_seg_sz : (seg_pos : ℕ) → ℕ
  pub check_write_access : (req_len : ℕ) → Session D → ℤ × Session D
  pub has_buffer : Session D → Bool
  pub write_segment : (seg_pos seg_sz : ℕ) → Session D → ℤ × Session D

module _ {D : Type 0} (device : Device D) (copy_from_user : List ℕ → ℕ → Option (List ℕ)) where
  -- The user's bytes go to the buffer; -EFAULT.
  unfoldable pub copied : (cnt : ℕ) → Session D → Option (List ℕ) → ℤ × Session D
  unfolding copy_to
  copied cnt s none = (negsuc 13, s)
  copied cnt s (some bytes) =
      let p = s.pending in
      (
        pos cnt,
        record s {
          pending = record p {
            buffer = copy_to p.seg_byte_pos bytes p.buffer;
            seg_byte_pos = p.seg_byte_pos + cnt;
            tape_pos = p.tape_pos + cnt;
          };
          volume_pos = s.volume_pos + cnt;
        },
      )

  -- The "regular" data behind the sectors that waited; -EIO and -ENOSPC.
  unfoldable pub regular_data :
      (seg_sz : ℕ) → (usr_buf : List ℕ) → Session D → Outcome × Pending → ℤ × Session D
  unfolding copied
  regular_data seg_sz usr_buf s (eio, p) = (negsuc 4, record s { pending = p })
  regular_data seg_sz usr_buf s (enospc, p) = (negsuc 27, record s { pending = p })
  regular_data seg_sz usr_buf s (ok, p) =
      let cnt = min (length usr_buf) (seg_sz - p.seg_byte_pos) in
      if ltb p.capacity (p.tape_pos + device.blk_sz)
      then (negsuc 27, record s { pending = p })
      else copied cnt (record s { pending = p }) (copy_from_user usr_buf cnt)

  unfoldable pub fill_deblock_buf : (seg_sz : ℕ) → (usr_buf : List ℕ) → Session D → ℤ × Session D
  unfolding regular_data empty_hard_error_list
  fill_deblock_buf seg_sz usr_buf s =
      if seg_sz == 0
      then (pos 0, s)
      else regular_data seg_sz usr_buf s (empty_hard_error_list seg_sz s.pending)

  -- What `_zft_write` returns when no more fits, or its `result`, which is 0, for another error.
  unfoldable pub fill_failed : (written e : ℕ) → Session D → Option ℤ × Session D
  fill_failed written e s =
      let r = record s { resid = s.resid - written } in
      if e == 27
      then (
        some (if written == 0 then negsuc 27 else pos written),
        record r { last_write_failed = false; need_flush = s.need_flush || not (written == 0) },
      )
      else (some (pos 0), r)

  -- The segment, if it is full, is written, and the position goes to the next one.
  unfoldable pub to_next_segment : ℤ × Session D → ℤ × Session D
  to_next_segment (negsuc e, s) = (negsuc e, s)
  to_next_segment (pos n, s) =
      (pos n, record s { pending = record s.pending { seg_byte_pos = 0 }; seg_pos = s.seg_pos + 1 })

  unfoldable pub write_full : (seg_sz : ℕ) → Session D → ℤ × Session D
  unfolding to_next_segment
  write_full seg_sz s =
      if s.pending.seg_byte_pos == seg_sz
      then to_next_segment (device.write_segment s.seg_pos seg_sz s)
      else (pos 0, s)

  abbrev pub Rest : Type 0
  Rest = (buff : List ℕ) → (written : ℕ) → Session D → Option ℤ × Session D

  unfoldable pub after_segment :
      Rest → (buff : List ℕ) → (written cnt : ℕ) → ℤ × Session D → Option ℤ × Session D
  after_segment rest buff written cnt (negsuc e, s) =
      (some (negsuc e), record s { resid = s.resid - written })
  after_segment rest buff written cnt (pos n, s) = rest (drop cnt buff) (written + cnt) s

  unfoldable pub after_fill :
      Rest → (seg_sz : ℕ) → (buff : List ℕ) → (written : ℕ) → ℤ × Session D → Option ℤ × Session D
  unfolding fill_failed after_segment write_full
  after_fill rest seg_sz buff written (negsuc e, s) = fill_failed written e s
  after_fill rest seg_sz buff written (pos cnt, s) =
      after_segment rest buff written cnt (write_full seg_sz s)

  unfoldable pub write_done : (written : ℕ) → Session D → Option ℤ × Session D
  write_done written s = (
    some (pos written),
    record s {
      last_write_failed = false;
      resid = s.resid - written;
      need_flush = s.need_flush || not (written == 0);
    },
  )

  -- At the first data segment the volume table is to be read again.
  unfoldable pub at_data_segment : Session D → Session D
  at_data_segment s = record s {
    vtbl_read = s.vtbl_read && not (s.seg_pos == device.first_data_segment);
  }

  -- The loop; `none` where it goes on after its rounds.
  unfoldable pub zft_write_loop : (rounds : ℕ) → Rest
  unfolding write_done after_fill fill_deblock_buf at_data_segment
  zft_write_loop zero buff written s = (none, s)
  zft_write_loop (suc rounds) buff written s =
      let seg_sz = device.get_seg_sz s.seg_pos in
      if length buff + length s.pending.hard_errors == 0
      then write_done written s
      else if not (device.has_buffer s)
      then (some (negsuc 4), at_data_segment s)
      else after_fill (zft_write_loop rounds) seg_sz buff written
          (fill_deblock_buf seg_sz buff (at_data_segment s))

  unfoldable pub with_access : (rounds : ℕ) → (buff : List ℕ) → ℤ × Session D → Option ℤ × Session D
  unfolding zft_write_loop
  with_access rounds buff (negsuc e, s) = (some (negsuc e), s)
  with_access rounds buff (pos n, s) = zft_write_loop rounds buff 0 s

  -- `_zft_write`
  unfoldable pub zft_write : (rounds : ℕ) → (buff : List ℕ) → Session D → Option ℤ × Session D
  unfolding with_access
  zft_write rounds buff s = with_access rounds buff (
      device.check_write_access (length buff)
        (record s { resid = length buff; last_write_failed = true }))
