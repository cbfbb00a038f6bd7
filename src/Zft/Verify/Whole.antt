-- ===== src/Zft/Verify/Whole.antt =====
-- What `zft_verify_write_segments` (ftape/zftape/zftape-rw.c) returns.
use ftape.Prelude.{
  ℕ, suc, ◌+◌, ◌-◌, ◌≤◌, ◌<◌, ltb, leb, if◌then◌else◌, true, false, Option, some, List, drop,
  length, ◌≡◌, refl, sym, ap, subst, ◌∙◌, arith, ◌⊎◌, inl, inr,
}
use ftape.Prelude.Int.{ℤ, pos, negsuc}
use ftape.Zft.Verify.{
  ReadMode, rd_single, rd_ahead, Driver, Zftape, eio, memcmp, after_compare, after_read, read_loop,
  stop_writing, read_back, after_writes, verify_write_segments,
}
use ftape.Zft.Verify.Laws.{IsLawful, filled, IsWritten, last, more, total, write_loop-Writes}
use ftape.Zft.Verify.Read.{IsWritten-same, after_read-filled, read_loop-Verifies, stop_writing-same}

-- A result, with the data on the tape.
pub record Returns {D : Type 0} (sizes : ℕ → ℕ) (contents : D → ℕ → List ℕ) (segment : ℕ)
    (bytes : List ℕ) (size : ℕ) (result : ℤ) (o : Option (ℤ × Zftape D)) : Type 0 where
  pub after : Zftape D
  pub gives : o ≡ some (result, after)
  pub written : IsWritten sizes (contents after.drive) segment bytes size

-- -EIO, and the tape is as it was.
record Misses {D : Type 0} (contents : D → ℕ → List ℕ) (z : Zftape D) (o : Option (ℤ × Zftape D))
    : Type 0 where
  after : Zftape D
  gives : o ≡ some (eio, after)
  same : (t : ℕ) → contents after.drive t ≡ contents z.drive t

module _ {D : Type 0} (driver : Driver D) (sizes : ℕ → ℕ) (contents : D → ℕ → List ℕ)
    (lawful : IsLawful driver sizes contents) where
  all_same :
      (rounds segment size k : ℕ)
      → k < rounds
      → (size ≤ sizes segment) ⊎ ((i : ℕ) → i ≤ rounds → sizes (segment + i) ≡ sizes segment)
      → (size ≤ sizes segment)
        ⊎ ((i : ℕ) → i < rounds → sizes (segment + i) ≡ sizes (segment + k + 1))
  all_same rounds segment size k h (inl small) = inl small
  all_same rounds segment size k h (inr even) = inr (λ i less.
      even i (omega (arith, less))
      ∙ sym (subst (λ n. sizes n ≡ sizes segment) (omega arith) (even (k + 1) (omega (arith, h)))))

  -- With a driver that keeps what is written to a segment and gives it back, and rounds for the
  -- segments that the size takes, zft_verify_write_segments writes the data, filled up with zeros,
  -- and returns its size, if it fits into the first segment or all the segments of the rounds and
  -- the next one have the same size.
  pub verify_write_segments-Returns :
      (rounds segment : ℕ) (bytes : List ℕ) (size : ℕ) (z : Zftape D)
      → 0 < size
      → size ≤ length bytes
      → size ≤ total sizes rounds segment
      → (size ≤ sizes segment) ⊎ ((i : ℕ) → i ≤ rounds → sizes (segment + i) ≡ sizes segment)
      → Returns sizes contents segment bytes size
          (pos size)
          (verify_write_segments driver sizes rounds segment bytes size z)
  unfolding verify_write_segments after_writes read_back
  verify_write_segments-Returns rounds segment bytes size z any long fits even =
      let single = leb size (sizes segment) in
      let w =
        write_loop-Writes driver sizes contents lawful single rounds segment bytes size
          (record z { deblock_segment = negsuc 0 }) any fits long in
      let stopped = stop_writing-same driver sizes contents lawful w.after in
      let written =
        IsWritten-same sizes _ (contents (stop_writing driver sizes w.after).1.drive) segment bytes
          size stopped.1 w.written in
      let read =
        read_loop-Verifies driver sizes contents lawful size (sizes (segment + w.segments + 1))
          (if single then rd_single else rd_ahead) rounds segment bytes size
          (stop_writing driver sizes w.after).1 written any long fits
          (all_same rounds segment size w.segments w.within even) in
      record {
        after = read.after;
        gives =
            ap (after_writes driver sizes rounds segment bytes size single) w.gives
            ∙ rw stopped.0 read.gives;
        written =
            IsWritten-same sizes _ (contents read.after.drive) segment bytes size read.same written;
      }

  first_of :
      (c : ℕ → List ℕ) (segment : ℕ) (src : List ℕ) (r : ℕ)
      → IsWritten sizes c segment src r
      → c segment ≡ filled (sizes segment) src r
  first_of c _ _ _ (last g src r h e) = e
  first_of c _ _ _ (more g src r h e w) = e

  rest_of :
      (c : ℕ → List ℕ) (segment : ℕ) (src : List ℕ) (r : ℕ)
      → IsWritten sizes c segment src r
      → sizes segment < r
      → IsWritten sizes c (segment + 1) (drop (sizes segment) src) (r - sizes segment)
  rest_of c _ _ _ (last g src r h e) big = absurd (omega (arith, h, big))
  rest_of c _ _ _ (more g src r h e w) big = w

  -- The second segment is compared with other bytes of the data.
  read_loop-Misses :
      (size seg_sz : ℕ) (mode : ReadMode) (rounds segment : ℕ) (bytes : List ℕ) (z : Zftape D)
      → IsWritten sizes (contents z.drive) segment bytes size
      → sizes segment < size
      → size ≤ sizes segment + sizes (segment + 1)
      → size ≤ length bytes
      → memcmp
          (drop seg_sz bytes)
          (filled (sizes (segment + 1)) (drop (sizes segment) bytes) (size - sizes segment))
          (size - sizes segment)
        ≡ some false
      → Misses contents z
          (read_loop driver sizes size seg_sz mode (suc (suc rounds)) segment bytes size z)
  unfolding read_loop after_read after_compare
  read_loop-Misses size seg_sz mode rounds segment bytes z w big fits long differ =
      let z1 : Zftape D = record z { drive = (driver.read_segment z.drive segment mode).2 } in
      let z2 : Zftape D = record z {
        drive = (driver.read_segment z1.drive (segment + 1) mode).2;
      } in
      let on : ltb 0 (size - sizes segment) ≡ true = ground (arith, big) in
      let rest = rest_of (contents z.drive) segment bytes size w big in
      let next : contents z1.drive (segment + 1)
          ≡ filled (sizes (segment + 1)) (drop (sizes segment) bytes) (size - sizes segment) =
        lawful.read_same z.drive segment mode (segment + 1)
        ∙ first_of (contents z.drive) (segment + 1) (drop (sizes segment) bytes)
            (size - sizes segment) rest in
      let short : ltb (sizes (segment + 1)) (size - sizes segment) ≡ false = ground (arith, fits) in
      record {
        after = z2;
        gives =
            after_read-filled driver sizes contents lawful mode segment bytes size _ z z1
              (first_of (contents z.drive) segment bytes size w) long
            ∙ rw
                (
                  lawful.reads z.drive segment mode,
                  on,
                  lawful.reads z1.drive (segment + 1) mode,
                  lawful.reads_back z1.drive (segment + 1) mode,
                  next,
                  short,
                  differ,
                )
                refl;
        same = λ t.
            lawful.read_same z1.drive (segment + 1) mode t
            ∙ lawful.read_same z.drive segment mode t;
      }

  -- Where the data takes two segments and the bytes from the size of the third segment on are not
  -- those of the second one, zft_verify_write_segments writes the data, filled up with zeros, but
  -- returns -EIO: it goes on in the data by the size of the segment after the last one.
  pub verify_write_segments-eio :
      (rounds segment : ℕ) (bytes : List ℕ) (size : ℕ) (z : Zftape D)
      → sizes segment < size
      → size ≤ sizes segment + sizes (segment + 1)
      → size ≤ length bytes
      → memcmp
          (drop (sizes (segment + 2)) bytes)
          (filled (sizes (segment + 1)) (drop (sizes segment) bytes) (size - sizes segment))
          (size - sizes segment)
        ≡ some false
      → Returns sizes contents segment bytes size eio
          (verify_write_segments driver sizes (suc (suc rounds)) segment bytes size z)
  unfolding verify_write_segments after_writes read_back
  verify_write_segments-eio rounds segment bytes size z more_than_one fits long differ =
      let single = leb size (sizes segment) in
      let w =
        write_loop-Writes driver sizes contents lawful single (suc (suc rounds)) segment bytes size
          (record z { deblock_segment = negsuc 0 }) (omega (arith, more_than_one))
          (omega (arith, fits)) long in
      let stopped = stop_writing-same driver sizes contents lawful w.after in
      let written =
        IsWritten-same sizes _ (contents (stop_writing driver sizes w.after).1.drive) segment bytes
          size stopped.1 w.written in
      let third : segment + w.segments + 1 ≡ segment + 2 =
        omega (arith, w.two more_than_one fits) in
      let read =
        read_loop-Misses size (sizes (segment + w.segments + 1))
          (if single then rd_single else rd_ahead) rounds segment bytes
          (stop_writing driver sizes w.after).1 written more_than_one fits long (rw third differ) in
      record {
        after = read.after;
        gives =
            ap (after_writes driver sizes (suc (suc rounds)) segment bytes size single) w.gives
            ∙ rw stopped.0 read.gives;
        written =
            IsWritten-same sizes _ (contents read.after.drive) segment bytes size read.same written;
      }
