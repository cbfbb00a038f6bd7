-- ===== src/Buf/Resize.antt =====
-- `fdc_set_nr_buffers` of ftape/lowlevel/ftape-buffer.c, for a count that is not negative. The
-- result is `none` if the loop of `fdc_zap_buffers` does not end.
pub mod Laws
pub mod Success
use ftape.Prelude.{
  ℕ, zero, suc, ◌-◌, ltb, ◌==◌, if◌then◌else◌, Bool, true, false, not, ◌&&◌, Option, none, some,
}
use ftape.Buf.Ring.{
  Fdc, Result, ok, not_valid, no_device, again, failed, waits, is_ok, add_one_buffer,
  del_one_buffer, zap_buffers,
}

-- Which of the operations of the controller are there.
pub record Ops : Type 0 where
  pub has_ops : Bool
  pub has_alloc : Bool
  pub has_free : Bool

unfoldable pub shrink : (size : ℕ) → (delta : ℕ) → Fdc → Fdc
unfolding del_one_buffer
shrink size zero fdc = fdc
shrink size (suc delta) fdc = shrink size delta (del_one_buffer size fdc)

unfoldable pub finish : (zapped : Option Fdc) → Option (Result × Fdc)
finish none = none
finish (some zapped) = some (ok, zapped)

-- `fdc_zap_buffers` and the end of the function.
unfoldable pub zap_all : Fdc → Option (Result × Fdc)
unfolding finish
zap_all fdc = finish (zap_buffers fdc)

module _ (kmalloc : (attempt : ℕ) → Fdc → Option ℕ) (alloc : Option ℕ → Fdc → Result) (size : ℕ)
    (rounds : ℕ) where
  -- An error ends the loop.
  unfoldable pub grow : (delta : ℕ) → Fdc → Result × Fdc
  unfolding add_one_buffer is_ok
  grow zero fdc = (ok, fdc)
  grow (suc delta) fdc =
      let added = add_one_buffer kmalloc alloc size true rounds fdc in
      let rest = grow delta added.1 in if is_ok added.0 then rest else added

  -- The number of buffers is changed by the difference.
  unfoldable pub resize : (count : ℕ) → Fdc → Option (Result × Fdc)
  unfolding grow shrink zap_all is_ok
  resize count fdc =
      let grown = grow (count - fdc.nr_buffers) fdc in
      if ltb fdc.nr_buffers count
      then if is_ok grown.0 then zap_all grown.1 else some grown
      else zap_all (shrink size (fdc.nr_buffers - count) fdc)

  unfoldable pub set_nr_buffers : Ops → (count : ℕ) → Fdc → Option (Result × Fdc)
  unfolding resize is_ok
  set_nr_buffers ops count fdc =
      let first = alloc none fdc in
      if not (ops.has_ops && ops.has_alloc && ops.has_free)
      then some (no_device, fdc)
      else if fdc.nr_buffers == 0 && not (count == 0) && not (is_ok first)
      then some (first, fdc)
      else resize count fdc
