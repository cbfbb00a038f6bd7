-- ===== src/Buf/Resize/Laws.antt =====
-- `fdc_set_nr_buffers` (ftape/lowlevel/ftape-buffer.c) leaves a ring of the length that was asked
-- for.
use ftape.Prelude.{
  ℕ, zero, suc, ◌+◌, ◌-◌, ltb, ◌==◌, not, ◌&&◌, true, false, Bool-cases, if-cases, Option, none,
  some, List, [], ◌∷◌, length, ◌≡◌, ◌≢◌, refl, ap, subst, arith, inl, inr,
}
use ftape.Buf.Ring.{
  Fdc, Result, ok, not_valid, no_device, again, failed, waits, is_ok, del_one_buffer,
  add_one_buffer,
}
use ftape.Buf.Ring.Laws.{IsRing, second, drop_second, del_one_buffer-IsRing}
use ftape.Buf.Ring.Add.{linked, kept, IsFresh, not_ok, add_one_buffer-Added}
use ftape.Buf.Ring.Wait.{IsStarved, add_one_buffer-waits}
use ftape.Buf.Ring.Zap.{AllZapped, zap_buffers-Zaps}
use ftape.Buf.Resize.{Ops, shrink, finish, zap_all, grow, resize, set_nr_buffers}

-- A ring of a length that `shrink` leaves.
record Shrunk (n : ℕ) (fdc : Fdc) : Type 0 where
  list : List ℕ
  ring : IsRing list fdc
  long : length list ≡ n

length-drop_second : (l : List ℕ) → length (drop_second l) ≡ length l - 1
length-drop_second [] = omega arith
length-drop_second (b ∷ []) = omega arith
length-drop_second (b ∷ x ∷ l) = omega arith

pub length-second : (new : ℕ) (l : List ℕ) → length (second new l) ≡ length l + 1
length-second new [] = omega arith
length-second new (b ∷ l) = omega arith

shrink-Shrunk :
    (size delta : ℕ) (fdc : Fdc) (l : List ℕ)
    → IsRing l fdc
    → Shrunk (length l - delta) (shrink size delta fdc)
unfolding shrink
shrink-Shrunk size zero fdc l ring = record { list = l; ring = ring; long = omega arith }
shrink-Shrunk size (suc delta) fdc l ring =
    let rest =
      shrink-Shrunk size delta (del_one_buffer size fdc) (drop_second l)
        (del_one_buffer-IsRing size fdc l ring) in
    record {
      list = rest.list;
      ring = rest.ring;
      long = omega (arith, rest.long, length-drop_second l);
    }

-- What a call for a count of buffers gives: a ring of that many buffers, all of which wait and are
-- empty, or an error and a ring still, or a ring while it waits for memory.
pub data Resized (kmalloc : (attempt : ℕ) → Fdc → Option ℕ) (rounds count : ℕ)
    (o : Option (Result × Fdc)) : Type 0 where
  done :
      (fdc : Fdc) (l : List ℕ)
      → o ≡ some (ok, fdc)
      → IsRing l fdc
      → length l ≡ count
      → AllZapped fdc.nodes l
      → Resized kmalloc rounds count o
  fails :
      (r : Result) (fdc : Fdc) (l : List ℕ)
      → o ≡ some (r, fdc)
      → is_ok r ≡ false
      → r ≢ waits
      → IsRing l fdc
      → Resized kmalloc rounds count o
  goes_on :
      (fdc : Fdc) (l : List ℕ)
      → o ≡ some (waits, fdc)
      → IsStarved kmalloc rounds fdc
      → IsRing l fdc
      → Resized kmalloc rounds count o

-- What is not `ok` is an error, or the wait.
not_resized :
    (kmalloc : (attempt : ℕ) → Fdc → Option ℕ) (rounds count : ℕ) (o : Option (Result × Fdc))
    (r : Result) (fdc : Fdc) (l : List ℕ)
    → o ≡ some (r, fdc)
    → is_ok r ≡ false
    → (r ≡ waits → IsStarved kmalloc rounds fdc)
    → IsRing l fdc
    → Resized kmalloc rounds count o
unfolding is_ok
not_resized kmalloc rounds count o ok fdc l e bad starved ring = cc bad
not_resized kmalloc rounds count o waits fdc l e bad starved ring =
    goes_on fdc l e (starved refl) ring
not_resized kmalloc rounds count o not_valid fdc l e bad starved ring =
    fails not_valid fdc l e bad (λ w. cc w) ring
not_resized kmalloc rounds count o no_device fdc l e bad starved ring =
    fails no_device fdc l e bad (λ w. cc w) ring
not_resized kmalloc rounds count o again fdc l e bad starved ring =
    fails again fdc l e bad (λ w. cc w) ring
not_resized kmalloc rounds count o (failed n) fdc l e bad starved ring =
    fails (failed n) fdc l e bad (λ w. cc w) ring

zap_all-Resized :
    (kmalloc : (attempt : ℕ) → Fdc → Option ℕ) (rounds : ℕ) (fdc : Fdc) (l : List ℕ) (count : ℕ)
    → IsRing l fdc
    → length l ≡ count
    → Resized kmalloc rounds count (zap_all fdc)
unfolding zap_all finish
zap_all-Resized kmalloc rounds fdc l count ring long =
    let z = zap_buffers-Zaps l fdc ring in
    done z.zapped l (ap finish z.gives) z.ring long z.all_zapped

module _ (kmalloc : (attempt : ℕ) → Fdc → Option ℕ) (alloc : Option ℕ → Fdc → Result)
    (size rounds : ℕ) where
  -- A ring that is longer by the delta, or an error.
  data Grown (n : ℕ) (p : Result × Fdc) : Type 0 where
    grown : (l : List ℕ) → p.0 ≡ ok → IsRing l p.1 → length l ≡ n → Grown n p
    stopped : (l : List ℕ) → is_ok p.0 ≡ false → IsRing l p.1 → Grown n p

  grow-Grown :
      (delta : ℕ) (fdc : Fdc) (l : List ℕ)
      → IsFresh kmalloc
      → IsRing l fdc
      → Grown (length l + delta) (grow kmalloc alloc size rounds delta fdc)
  unfolding grow is_ok
  grow-Grown zero fdc l fresh ring = grown l refl ring (omega arith)
  grow-Grown (suc delta) fdc l fresh ring =
      elim (add_one_buffer-Added kmalloc alloc size true rounds fdc l fresh ring) [
        | kept e r ↦ rw e (stopped l e r)
        | linked new e r ↦
            let ok_e : is_ok (add_one_buffer kmalloc alloc size true rounds fdc).0 ≡ true =
              ap is_ok e in
            rw ok_e (
              subst
                (λ n. Grown n (
                  grow kmalloc alloc size rounds delta
                    (add_one_buffer kmalloc alloc size true rounds fdc).1))
                (omega (arith, length-second new l)) (grow-Grown delta _ (second new l) fresh r))
      ]

  grow-waits :
      (allocs : (o : Option ℕ) (f : Fdc) → alloc o f ≢ waits)
      → (delta : ℕ) (fdc : Fdc) → (grow kmalloc alloc size rounds delta fdc).0 ≡ waits
      → IsStarved kmalloc rounds (grow kmalloc alloc size rounds delta fdc).1
  unfolding grow
  grow-waits allocs zero fdc = λ e. absurd (cc e)
  grow-waits allocs (suc delta) fdc =
      if-cases (λ (p : Result × Fdc). p.0 ≡ waits → IsStarved kmalloc rounds p.1)
        (is_ok (add_one_buffer kmalloc alloc size true rounds fdc).0) _ _
        (λ _. grow-waits allocs delta _)
        (λ _. add_one_buffer-waits kmalloc alloc size allocs rounds fdc)

  resize-Resized :
      (count : ℕ) (fdc : Fdc) (l : List ℕ)
      → IsFresh kmalloc
      → ((o : Option ℕ) (f : Fdc) → alloc o f ≢ waits)
      → IsRing l fdc
      → Resized kmalloc rounds count (resize kmalloc alloc size rounds count fdc)
  unfolding resize is_ok
  resize-Resized count fdc l fresh allocs ring = elim (Bool-cases (ltb fdc.nr_buffers count)) [
    | inl e ↦ elim (grow-Grown (count - fdc.nr_buffers) fdc l fresh ring) [
      | grown l' f r long ↦
          let ok_f : is_ok (grow kmalloc alloc size rounds (count - fdc.nr_buffers) fdc).0 ≡ true =
            ap is_ok f in
          rw (e, ok_f)
            (zap_all-Resized kmalloc rounds _ l' count r (ground (arith, long, e, ring.counts)))
      | stopped l' f r ↦
          rw (e, f)
            (not_resized kmalloc rounds count _ _ _ l' refl f
              (grow-waits allocs (count - fdc.nr_buffers) fdc) r)
    ]
    | inr e ↦
        let less = shrink-Shrunk size (fdc.nr_buffers - count) fdc l ring in
        rw e (
          zap_all-Resized kmalloc rounds _ less.list count less.ring
            (ground (arith, less.long, e, ring.counts)))
  ]

  -- If kmalloc gives memory apart from the ring, and the controller's alloc does not wait for
  -- ever, fdc_set_nr_buffers for a count of buffers on a ring of any length ends with a ring of
  -- that many buffers, all of which wait and are empty, or with an error and a ring still;
  -- otherwise it still waits for memory after its rounds, in none of which kmalloc gives any, with
  -- a ring as well.
  pub set_nr_buffers-Resized :
      (ops : Ops) (count : ℕ) (fdc : Fdc) (l : List ℕ)
      → IsFresh kmalloc
      → ((o : Option ℕ) (f : Fdc) → alloc o f ≢ waits)
      → IsRing l fdc
      → Resized kmalloc rounds count (set_nr_buffers kmalloc alloc size rounds ops count fdc)
  unfolding set_nr_buffers is_ok
  set_nr_buffers-Resized ops count fdc l fresh allocs ring =
      elim (Bool-cases (ops.has_ops && ops.has_alloc && ops.has_free)) [
        | inr e ↦ rw e (fails no_device fdc l refl refl (λ w. cc w) ring)
        | inl e ↦
            elim (Bool-cases
              (fdc.nr_buffers == 0 && not (count == 0) && not (is_ok (alloc none fdc)))) [
                | inl f ↦
                    rw (e, f)
                      (not_resized kmalloc rounds count _ (alloc none fdc) fdc l refl
                        (not_ok (fdc.nr_buffers == 0 && not (count == 0)) _ f)
                        (λ e. absurd (allocs none fdc e)) ring)
                | inr f ↦ rw (e, f) (resize-Resized count fdc l fresh allocs ring)
              ]
      ]
