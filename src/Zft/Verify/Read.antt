-- ===== src/Zft/Verify/Read.antt =====
-- What `zft_verify_write_segments` (ftape/zftape/zftape-rw.c) finds when it reads back.
use ftape.Prelude.{
  ℕ, zero, suc, ◌+◌, ◌-◌, ◌≤◌, ◌<◌, ltb, ◌==◌, min, if◌then◌else◌, true, false, Bool-cases, Option,
  some, List, [], ◌∷◌, ◌++◌, take, drop, length, length-drop, ◌≡◌, refl, subst, ◌∙◌, arith, ◌⊎◌,
  inl, inr,
}
use ftape.Prelude.Int.{ℤ, pos}
use ftape.Zft.Verify.{
  ReadMode, Driver, Zftape, memcmp, after_compare, after_read, read_loop, is_negative, stop_writing,
}
use ftape.Zft.Verify.Laws.{IsLawful, filled, IsWritten, last, more, total}

memcmp-take :
    (xs zs : List ℕ) (m n : ℕ) → n ≤ m → n ≤ length xs → memcmp xs (take m xs ++ zs) n ≡ some true
unfolding memcmp
memcmp-take xs zs m zero h k = refl
memcmp-take [] zs m (suc n) h k = absurd (omega (arith, k))
memcmp-take (x ∷ xs) zs zero (suc n) h k = absurd (omega (arith, h))
memcmp-take (x ∷ xs) zs (suc m) (suc n) h k =
    let e : (x == x) ≡ true = ground arith in
    rw e (memcmp-take xs zs m n (omega (arith, h)) (omega (arith, k)))

-- The bytes that are compared are those that were written.
pub memcmp-filled :
    (s : ℕ) (src : List ℕ) (r : ℕ)
    → r ≤ length src
    → memcmp src (filled s src r) (if ltb s r then s else r) ≡ some true
memcmp-filled s src r long = elim (Bool-cases (ltb s r)) [
  | inl e ↦ rw e (memcmp-take src _ (min r s) s (ground (arith, e)) (ground (arith, e, long)))
  | inr e ↦ rw e (memcmp-take src _ (min r s) r (ground (arith, e)) long)
]

pub IsWritten-same :
    (sizes : ℕ → ℕ) (c c' : ℕ → List ℕ) (segment : ℕ) (src : List ℕ) (r : ℕ)
    → ((t : ℕ) → c' t ≡ c t)
    → IsWritten sizes c segment src r
    → IsWritten sizes c' segment src r
IsWritten-same sizes c c' _ _ _ same (last g src r h e) = last g src r h (same g ∙ e)
IsWritten-same sizes c c' _ _ _ same (more g src r h e w) =
    more g src r h (same g ∙ e) (IsWritten-same sizes c c' _ _ _ same w)

-- The size is returned, and the tape is as it was.
pub record Verifies {D : Type 0} (contents : D → ℕ → List ℕ) (size : ℕ) (z : Zftape D)
    (o : Option (ℤ × Zftape D)) : Type 0 where
  pub after : Zftape D
  pub gives : o ≡ some (pos size, after)
  pub same : (t : ℕ) → contents after.drive t ≡ contents z.drive t

module _ {D : Type 0} (driver : Driver D) (sizes : ℕ → ℕ) (contents : D → ℕ → List ℕ)
    (lawful : IsLawful driver sizes contents) where
  pub after_read-filled :
      (mode : ReadMode) (segment : ℕ) (src : List ℕ) (r : ℕ) (rest : Option (ℤ × Zftape D))
      (z z' : Zftape D)
      → contents z.drive segment ≡ filled (sizes segment) src r
      → r ≤ length src
      → after_read driver sizes
          (driver.read_segment z.drive segment mode).0
          (driver.read_segment z.drive segment mode).1
          src
          r
          rest
          z'
        ≡ rest
  unfolding after_read after_compare
  after_read-filled mode segment src r rest z z' here long =
      rw
        (
          lawful.reads z.drive segment mode,
          lawful.reads_back z.drive segment mode,
          here,
          memcmp-filled (sizes segment) src r long,
        )
        refl

  evenly :
      (c rounds g r : ℕ)
      → sizes g < r
      → (r ≤ sizes g) ⊎ ((i : ℕ) → i < rounds → sizes (g + i) ≡ c)
      → (i : ℕ) → i < rounds
      → sizes (g + i) ≡ c
  evenly c rounds g r big (inl small) i h = absurd (omega (arith, big, small))
  evenly c rounds g r big (inr even) i h = even i h

  pub read_loop-Verifies :
      (size seg_sz : ℕ) (mode : ReadMode) (rounds segment : ℕ) (src : List ℕ) (remaining : ℕ)
      (z : Zftape D)
      → IsWritten sizes (contents z.drive) segment src remaining
      → 0 < remaining
      → remaining ≤ length src
      → remaining ≤ total sizes rounds segment
      → (remaining ≤ sizes segment) ⊎ ((i : ℕ) → i < rounds → sizes (segment + i) ≡ seg_sz)
      → Verifies contents size z
          (read_loop driver sizes size seg_sz mode rounds segment src remaining z)
  unfolding read_loop
  read_loop-Verifies size c mode zero _ _ _ z w any long fits even =
      absurd (omega (arith, any, fits))
  read_loop-Verifies size c mode (suc rounds) _ _ _ z (last g src r small here) any long fits even =
      let z' : Zftape D = record z { drive = (driver.read_segment z.drive g mode).2 } in
      let ends : ltb 0 (r - sizes g) ≡ false = ground (arith, small) in
      record {
        after = z';
        gives =
            after_read-filled mode g src r _ z z' here long
            ∙ rw (lawful.reads z.drive g mode, ends) refl;
        same = λ t. lawful.read_same z.drive g mode t;
      }
  read_loop-Verifies size c mode (suc rounds) _ _ _ z (more g src r big here w) any long fits even =
      let z' : Zftape D = record z { drive = (driver.read_segment z.drive g mode).2 } in
      let all = evenly c (suc rounds) g r big even in
      let step : sizes g ≡ c = subst (λ n. sizes n ≡ c) (omega arith) (all 0 (omega arith)) in
      let on : ltb 0 (r - sizes g) ≡ true = ground (arith, big) in
      let w' : IsWritten sizes (contents z'.drive) (g + 1) (drop c src) (r - sizes g) =
        IsWritten-same sizes (contents z.drive) (contents z'.drive) (g + 1) (drop c src)
          (r - sizes g) (lawful.read_same z.drive g mode)
          (subst (λ n. IsWritten sizes (contents z.drive) (g + 1) (drop n src) (r - sizes g)) step
            w) in
      let rest =
        read_loop-Verifies size c mode rounds (g + 1) (drop c src) (r - sizes g) z' w'
          (omega (arith, big)) (omega (arith, long, length-drop c src, step)) (omega (arith, fits))
          (inr (λ i h. subst (λ n. sizes n ≡ c) (omega arith) (all (suc i) (omega (arith, h))))) in
      record {
        after = rest.after;
        gives =
            after_read-filled mode g src r _ z z' here long
            ∙ rw (lawful.reads z.drive g mode, on) rest.gives;
        same = λ t. rest.same t ∙ lawful.read_same z.drive g mode t;
      }

  -- Stopping the driver leaves the tape.
  pub stop_writing-same :
      (z : Zftape D)
      → (is_negative driver sizes (stop_writing driver sizes z).0 ≡ false)
        × ((t : ℕ) → contents (stop_writing driver sizes z).1.drive t ≡ contents z.drive t)
  unfolding stop_writing is_negative
  stop_writing-same z = elim (Bool-cases (driver.is_writing z.drive)) [
    | inr e ↦ rw e (refl, (λ t. refl))
    | inl e ↦
        rw (e, lawful.ends_writes z.drive, lawful.aborts (driver.loop_until_writes_done z.drive).1)
          (
            refl,
            (λ t.
                lawful.abort_same (driver.loop_until_writes_done z.drive).1 t
                ∙ lawful.writes_end_same z.drive t),
          )
  ]
