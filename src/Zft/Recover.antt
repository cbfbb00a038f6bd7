-- ===== src/Zft/Recover.antt =====
-- Hard write errors of zftape: `zftape_write_segment` and `zftape_loop_until_writes_done` of
-- ftape/zftape/zftape-write.c. The low level driver, asked for the n-th time, is a parameter, and
-- so is whether there is memory for a backup. The deblock buffer has the bytes of its segment.
pub mod Laws
pub mod Loop
mod Tests
use ftape.Prelude.{
  ℕ, zero, suc, ◌+◌, ◌-◌, ◌==◌, if◌then◌else◌, Bool, not, ◌&&◌, List, [], ◌∷◌, ◌++◌, take, drop,
  Option, none, some,
}
use ftape.Prelude.Int.{ℤ, pos, negsuc}
use ftape.Rw.Recover.{Ring, sector_size, hard_error_recovery}

-- The fields of `zftape_info_t` that are used, and the buffers of the driver.
pub record Writer : Type 0 where
  pub ring : Ring
  pub deblock : List ℕ
  pub hard_errors : List (List ℕ)
  pub hard_error_cnt : ℕ
  pub capacity : ℕ
  pub written_segments : ℕ

-- -EIO; `none` is the result of a loop that goes on after its rounds.
abbrev pub eio_result : Option ℤ
eio_result = some (negsuc 4)

-- -EIO with a hard error in the buffer at the head, for a result -(e + 1) of the driver
unfoldable pub is_hard_error : (e : ℕ) → Ring → Bool
is_hard_error e r = e == 4 && r.failed && not (r.hard_error_map == 0)

-- `list_add` behind the last sector of the list.
abbrev pub add_sector : (sector : List ℕ) → Writer → Writer
add_sector sector w = record w {
  hard_errors = w.hard_errors ++ (sector ∷ []);
  hard_error_cnt = w.hard_error_cnt + 1;
  capacity = w.capacity - sector_size;
}

-- The sector left over by the driver goes in front of the deblock buffer, whose last one goes to
-- the list.
unfoldable pub push_sector : (seg_sz : ℕ) → Writer → (recovered : Ring × List ℕ) → Writer
push_sector seg_sz w (ring, scratch) =
    let backup = take seg_sz w.deblock in
    if seg_sz == 0
    then add_sector scratch (record w { ring = ring; deblock = [] })
    else add_sector (take sector_size (drop (seg_sz - sector_size) backup))
        (record w { ring = ring; deblock = scratch ++ take (seg_sz - sector_size) backup })

unfoldable pub recovered_by :
    (next : Ring × List ℕ → Writer) → Option (Ring × List ℕ) → Option Writer
recovered_by next none = none
recovered_by next (some r) = some (next r)

module _ (has_read_buffer : Bool) where
  unfoldable pub recover_once : (seg_sz : ℕ) → Writer → Option Writer
  unfolding recovered_by push_sector hard_error_recovery
  recover_once seg_sz w =
      recovered_by (push_sector seg_sz w) (hard_error_recovery has_read_buffer w.ring)

  -- The end of the loop of `zftape_write_segment`, for the result of the recovery.
  unfoldable pub after_recovery :
      (rest : Writer → Option ℤ × Writer) → Writer → Option Writer → Option ℤ × Writer
  after_recovery rest w none = (eio_result, w)
  after_recovery rest w (some w') = rest w'

  module _ (has_memory : Bool) where
    unfoldable pub after_write :
        (seg_sz : ℕ)
        → (rest : Writer → Option ℤ × Writer) → (attempt : ℤ × Writer) → Option ℤ × Writer
    unfolding is_hard_error recover_once after_recovery
    after_write seg_sz rest (pos n, w) =
        (some (pos n), record w { written_segments = w.written_segments + 1 })
    after_write seg_sz rest (negsuc e, w) =
        if not (is_hard_error e w.ring)
        then (some (negsuc e), w)
        else if has_memory
        then after_recovery rest w (recover_once seg_sz w)
        else (eio_result, w)

    -- `zftape_write_segment` from its n-th attempt on.
    unfoldable pub zftape_write_segment :
        (driver : ℕ → Writer → ℤ × Writer) → (seg_sz rounds n : ℕ) → Writer → Option ℤ × Writer
    unfolding after_write
    zftape_write_segment driver seg_sz zero n w = (none, w)
    zftape_write_segment driver seg_sz (suc rounds) n w =
        after_write seg_sz (zftape_write_segment driver seg_sz rounds (n + 1)) (driver n w)

  -- The sector left over goes to the list.
  unfoldable pub after_flush : ℤ × Writer → Option ℤ × Writer
  unfolding is_hard_error after_recovery recovered_by hard_error_recovery
  after_flush (pos n, w) = (some (pos n), w)
  after_flush (negsuc e, w) =
      if not (is_hard_error e w.ring)
      then (some (negsuc e), w)
      else after_recovery (λ w'. (some (pos 0), w')) w
          (recovered_by (λ r. add_sector r.1 (record w { ring = r.0 }))
            (hard_error_recovery has_read_buffer w.ring))

  -- The driver gives 0, or what it fails with.
  unfoldable pub zftape_loop_until_writes_done :
      (driver : Writer → ℤ × Writer) → Writer → Option ℤ × Writer
  unfolding after_flush
  zftape_loop_until_writes_done driver w = after_flush (driver w)
