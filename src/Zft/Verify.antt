-- ===== src/Zft/Verify.antt =====
-- `zft_verify_write_segments` of ftape/zftape/zftape-rw.c: segments are written and read back. The
-- low level driver with its state is a parameter, and so are the sizes of the segments, as
-- `zft_get_seg_data_sz` gives them. A pointer into the data is what is left of the data.
pub mod Read
pub mod Laws
pub mod Whole
pub mod Tests
use ftape.Prelude.{
  ℕ, zero, suc, ◌+◌, ◌-◌, ltb, leb, ◌==◌, min, if◌then◌else◌, Bool, true, false, not, ◌&&◌, Option,
  none, some, List, [], ◌∷◌, ◌++◌, take, drop, replicate,
}
use ftape.Prelude.Int.{ℤ, pos, negsuc, pos_part}

-- `ft_write_mode_t` and `ft_read_mode_t`
pub data WriteMode : Type 0 where
  wr_async : WriteMode
  wr_multi : WriteMode
  wr_single : WriteMode
  wr_delete : WriteMode

pub data ReadMode : Type 0 where
  rd_single : ReadMode
  rd_ahead : ReadMode

-- The low level driver: results are sizes or negative errors, the buffer may be NULL.
pub record Driver (D : Type 0) : Type 0 where
  pub has_deblock_buffer : D → Bool
  pub write_segment : D → (segment : ℕ) → List ℕ → WriteMode → ℤ × D
  pub is_writing : D → Bool
  pub loop_until_writes_done : D → ℤ × D
  pub abort_operation : D → ℤ × D
  pub read_segment : D → (segment : ℕ) → ReadMode → ℤ × Option (List ℕ) × D

-- The fields of `zftape_info_t` that are used, with the state of the driver.
pub record Zftape (D : Type 0) : Type 0 where
  pub drive : D
  pub deblock_segment : ℤ
  pub written_segments : ℕ
  pub need_flush : Bool

-- -EIO
abbrev pub eio : ℤ
eio = negsuc 4

-- What goes into the buffer, how it is written, and what remains.
pub record Chunk : Type 0 where
  pub bytes : List ℕ
  pub mode : WriteMode
  pub left : ℕ

unfoldable pub chunk : (single : Bool) → (seg_sz : ℕ) → List ℕ → (remaining : ℕ) → Chunk
chunk single seg_sz src remaining =
    let last = if single then wr_single else wr_multi in
    if remaining == seg_sz
    then record { bytes = take seg_sz src; mode = last; left = 0 }
    else if ltb seg_sz remaining
    then record { bytes = take seg_sz src; mode = wr_async; left = remaining - seg_sz }
    else record {
      bytes = take remaining src ++ replicate (seg_sz - remaining) 0;
      mode = last;
      left = 0;
    }

unfoldable pub is_size : ℤ → ℕ → Bool
is_size (pos n) size = n == size
is_size (negsuc n) size = false

unfoldable pub bail_out : ℤ → ℤ
bail_out (pos n) = eio
bail_out (negsuc n) = negsuc n

-- `memcmp` of the first bytes gives 0; `none` is a read past the end of one of them.
unfoldable pub memcmp : List ℕ → List ℕ → (n : ℕ) → Option Bool
memcmp xs ys zero = some true
memcmp [] ys (suc n) = none
memcmp (x ∷ xs) [] (suc n) = none
memcmp (x ∷ xs) (y ∷ ys) (suc n) = if x == y then memcmp xs ys n else some false

module _ {D : Type 0} (driver : Driver D) (sizes : ℕ → ℕ) where
  -- The loop that writes stops with an error, or goes on with `seg_sz` and all written.
  pub data Written : Type 0 where
    stops : ℤ → Zftape D → Written
    wrote : (seg_sz : ℕ) → Zftape D → Written

  -- `none` if the rounds are over.
  unfoldable pub write_loop :
      (single : Bool)
      → (rounds seg_pos seg_sz : ℕ) → List ℕ
      → (remaining : ℕ) → Zftape D
      → Option Written
  unfolding chunk is_size bail_out
  write_loop single zero seg_pos seg_sz src remaining z = none
  write_loop single (suc rounds) seg_pos seg_sz src remaining z =
      let c = chunk single seg_sz src remaining in
      let w = driver.write_segment z.drive seg_pos c.bytes c.mode in
      let z' = record z { drive = w.1; written_segments = z.written_segments + 1 } in
      let rest =
        write_loop single rounds (seg_pos + 1) (sizes (seg_pos + 1)) (drop seg_sz src) c.left z' in
      if not (driver.has_deblock_buffer z.drive)
      then some (stops eio z)
      else if not (is_size w.0 seg_sz)
      then some (stops (bail_out w.0) (record z { drive = w.1 }))
      else if ltb 0 c.left
      then rest
      else some (wrote (sizes (seg_pos + 1)) z')

  unfoldable pub is_negative : ℤ → Bool
  is_negative (pos n) = false
  is_negative (negsuc n) = true

  -- A driver that writes is stopped; a negative result ends the function.
  unfoldable pub stop_writing : Zftape D → ℤ × Zftape D
  unfolding is_negative
  stop_writing z =
      let done = driver.loop_until_writes_done z.drive in
      let aborted = driver.abort_operation done.1 in
      if not (driver.is_writing z.drive)
      then (pos 0, z)
      else if is_negative done.0
      then (done.0, record z { drive = done.1 })
      else if is_negative aborted.0
      then (aborted.0, record z { drive = aborted.1 })
      else (pos 0, record z { drive = aborted.1; need_flush = false })

  unfoldable pub after_compare :
      (same : Option Bool) → (rest : Option (ℤ × Zftape D)) → Zftape D → Option (ℤ × Zftape D)
  after_compare none rest z = none
  after_compare (some true) rest z = rest
  after_compare (some false) rest z = some (eio, z)

  unfoldable pub after_read :
      (result : ℤ)
      → Option (List ℕ)
      → (src : List ℕ) → (remaining : ℕ) → (rest : Option (ℤ × Zftape D)) → Zftape D
      → Option (ℤ × Zftape D)
  unfolding after_compare memcmp
  after_read (negsuc n) buf src remaining rest z = some (negsuc n, z)
  after_read (pos n) none src remaining rest z = some (eio, z)
  after_read (pos n) (some buf) src remaining rest z =
      after_compare (memcmp src buf (if ltb n remaining then n else remaining)) rest z

  -- The loop that reads back. `seg_sz` is the one that the loop that writes has left. What remains
  -- stops at 0, since only `remaining > 0` is asked then.
  unfoldable pub read_loop :
      (size seg_sz : ℕ)
      → (mode : ReadMode) → (rounds seg_pos : ℕ) → List ℕ
      → (remaining : ℕ) → Zftape D
      → Option (ℤ × Zftape D)
  unfolding after_read
  read_loop size seg_sz mode zero seg_pos src remaining z = none
  read_loop size seg_sz mode (suc rounds) seg_pos src remaining z =
      let r = driver.read_segment z.drive seg_pos mode in
      let z' = record z { drive = r.2 } in
      let left = remaining - pos_part r.0 in
      let rest = read_loop size seg_sz mode rounds (seg_pos + 1) (drop seg_sz src) left z' in
      after_read r.0 r.1 src remaining (if ltb 0 left then rest else some (pos size, z')) z'

  unfoldable pub read_back :
      (rounds segment : ℕ)
      → List ℕ
      → (size : ℕ) → (single : Bool) → (seg_sz : ℕ) → (stopped : ℤ × Zftape D)
      → Option (ℤ × Zftape D)
  unfolding read_loop is_negative
  read_back rounds segment bytes size single seg_sz (result, z) =
      if is_negative result
      then some (result, z)
      else read_loop size seg_sz (if single then rd_single else rd_ahead) rounds segment bytes size
          z

  unfoldable pub after_writes :
      (rounds segment : ℕ)
      → List ℕ
      → (size : ℕ) → (single : Bool) → Option Written
      → Option (ℤ × Zftape D)
  unfolding read_back stop_writing
  after_writes rounds segment bytes size single none = none
  after_writes rounds segment bytes size single (some (stops result z)) = some (result, z)
  after_writes rounds segment bytes size single (some (wrote seg_sz z)) =
      read_back rounds segment bytes size single seg_sz (stop_writing z)

  unfoldable pub verify_write_segments :
      (rounds segment : ℕ) → List ℕ → (size : ℕ) → Zftape D → Option (ℤ × Zftape D)
  unfolding after_writes write_loop
  verify_write_segments rounds segment bytes size z =
      let single = leb size (sizes segment) in
      after_writes rounds segment bytes size single (
        write_loop single rounds segment (sizes segment) bytes size
          (record z { deblock_segment = negsuc 0 }))
