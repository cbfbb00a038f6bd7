-- ===== src/Buf/Resize/Success.antt =====
-- When `fdc_set_nr_buffers` (ftape/lowlevel/ftape-buffer.c) succeeds.
use ftape.Prelude.{
  ℕ, zero, suc, ◌+◌, ◌-◌, ◌≤◌, ◌<◌, leb, ltb, ◌==◌, not, ◌&&◌, Bool, true, false, Bool-cases,
  Option, none, some, Option-cases, List, length, ◌≡◌, refl, sym, ap, subst, ◌∙◌, arith, inl, inr,
}
use ftape.Buf.Ring.{
  Fdc, Result, ok, is_ok, max_nr_buffers, account, try_kmalloc, after_attempt, add_allocated,
  add_tried, add_one_buffer, zap_buffers,
}
use ftape.Buf.Ring.Laws.{IsRing, second}
use ftape.Buf.Ring.Add.{linked, kept, IsFresh, add_one_buffer-Added}
use ftape.Buf.Ring.Zap.{AllZapped}
use ftape.Buf.Resize.{Ops, shrink, finish, zap_all, grow, resize, set_nr_buffers}
use ftape.Buf.Resize.Laws.{done, fails, goes_on, length-second, set_nr_buffers-Resized}

-- The rounds are enough for kmalloc to give memory.
abbrev pub IsServed : (ℕ → Fdc → Option ℕ) → (rounds : ℕ) → Type 0
IsServed kmalloc rounds = (fdc : Fdc) → (t : ℕ) × (a : ℕ) × (kmalloc t fdc ≡ some a) × (t < rounds)

-- A count that a call makes a ring of.
pub record Succeeds (count : ℕ) (o : Option (Result × Fdc)) : Type 0 where
  pub fdc : Fdc
  pub list : List ℕ
  pub gives : o ≡ some (ok, fdc)
  pub ring : IsRing list fdc
  pub long : length list ≡ count
  pub all_zapped : AllZapped fdc.nodes list

-- A controller that has its operations.
abbrev pub all_ops : Ops
all_ops = record { has_ops = true; has_alloc = true; has_free = true }

abbrev no_error : Option (Result × Fdc) → Bool
no_error none = true
no_error (some p) = is_ok p.0

finish-no_error : (o : Option Fdc) → no_error (finish o) ≡ true
unfolding finish is_ok
finish-no_error none = refl
finish-no_error (some fdc) = refl

and_false : (b : Bool) → (b && false) ≡ false
and_false true = refl
and_false false = refl

module _ (kmalloc : (attempt : ℕ) → Fdc → Option ℕ) (alloc : Option ℕ → Fdc → Result)
    (size : ℕ) where
  try_kmalloc-ok :
      (rounds attempt t a : ℕ) (fdc : Fdc)
      → kmalloc (attempt + t) fdc ≡ some a
      → t < rounds
      → (b : ℕ) × (try_kmalloc kmalloc alloc size true rounds attempt fdc ≡ (ok, some b))
  unfolding try_kmalloc after_attempt
  try_kmalloc-ok zero attempt t a fdc h less = absurd (omega (arith, less))
  try_kmalloc-ok (suc rounds) attempt zero a fdc h less =
      let now : kmalloc attempt fdc ≡ some a =
        subst (λ n. kmalloc n fdc ≡ some a) (omega arith) h in
      (a, rw now refl)
  try_kmalloc-ok (suc rounds) attempt (suc t) a fdc h less =
      elim (Option-cases (kmalloc attempt fdc)) [
        | inr (b, e) ↦ (b, rw e refl)
        | inl e ↦
            let rest =
              try_kmalloc-ok rounds (attempt + 1) t a fdc
                (subst (λ n. kmalloc n fdc ≡ some a) (omega arith) h) (omega (arith, less)) in
            (rest.0, rw e rest.1)
      ]

  -- The length of the ring is the number of buffers, so it stays within the greatest number.
  add_one_buffer-ok :
      (rounds : ℕ) (fdc : Fdc)
      → IsServed kmalloc rounds
      → ((o : Option ℕ) (f : Fdc) → is_ok (alloc o f) ≡ true)
      → fdc.nr_buffers < max_nr_buffers
      → is_ok (add_one_buffer kmalloc alloc size true rounds fdc).0 ≡ true
  unfolding add_one_buffer add_tried add_allocated is_ok
  add_one_buffer-ok rounds fdc served allocs less =
      let e : leb max_nr_buffers fdc.nr_buffers ≡ false = ground (arith, less) in
      let (t, a, h, early) = served fdc in
      let (b, f) =
        try_kmalloc-ok rounds 0 t a fdc (subst (λ n. kmalloc n fdc ≡ some a) (omega arith) h)
          early in
      rw (e, f, allocs (some b) (account size b fdc)) refl

  grow-ok :
      (rounds delta : ℕ) (fdc : Fdc) (l : List ℕ)
      → IsFresh kmalloc
      → IsServed kmalloc rounds
      → ((o : Option ℕ) (f : Fdc) → is_ok (alloc o f) ≡ true)
      → IsRing l fdc
      → length l + delta ≤ max_nr_buffers
      → is_ok (grow kmalloc alloc size rounds delta fdc).0 ≡ true
  unfolding grow is_ok
  grow-ok rounds zero fdc l fresh served allocs ring small = refl
  grow-ok rounds (suc delta) fdc l fresh served allocs ring small =
      let added = add_one_buffer-ok rounds fdc served allocs (omega (arith, ring.counts, small)) in
      rw added (elim (add_one_buffer-Added kmalloc alloc size true rounds fdc l fresh ring) [
        | linked new e r ↦
            grow-ok rounds delta _ (second new l) fresh served allocs r
              (omega (arith, length-second new l, small))
        | kept e r ↦ absurd (ground (arith, e, added))
      ])

  set_nr_buffers-no_error :
      (rounds : ℕ) (count : ℕ) (fdc : Fdc) (l : List ℕ)
      → IsFresh kmalloc
      → IsServed kmalloc rounds
      → ((o : Option ℕ) (f : Fdc) → is_ok (alloc o f) ≡ true)
      → IsRing l fdc
      → count ≤ max_nr_buffers
      → no_error (set_nr_buffers kmalloc alloc size rounds all_ops count fdc) ≡ true
  unfolding set_nr_buffers resize zap_all
  set_nr_buffers-no_error rounds count fdc l fresh served allocs ring small =
      elim (Bool-cases (ltb fdc.nr_buffers count)) [
        | inl e ↦
            rw
              (
                allocs none fdc,
                not_both,
                e,
                grow-ok rounds (count - fdc.nr_buffers) fdc l fresh served allocs ring
                    (ground (arith, e, ring.counts, small)),
              )
              (finish-no_error
                (zap_buffers (grow kmalloc alloc size rounds (count - fdc.nr_buffers) fdc).1))
        | inr e ↦
            rw (allocs none fdc, not_both, e)
              (finish-no_error (zap_buffers (shrink size (fdc.nr_buffers - count) fdc)))
      ]
    where
      not_both : (fdc.nr_buffers == 0 && not (count == 0) && false) ≡ false
      not_both = and_false (fdc.nr_buffers == 0 && not (count == 0))

  -- With memory that kmalloc gives apart from the ring within the rounds, and a controller that has
  -- its operations and never fails to prepare a buffer, fdc_set_nr_buffers succeeds for every count
  -- up to 16: it ends with a ring of that many buffers, and all of them wait and are empty.
  pub set_nr_buffers-Succeeds :
      (rounds : ℕ) (count : ℕ) (fdc : Fdc) (l : List ℕ)
      → IsFresh kmalloc
      → IsServed kmalloc rounds
      → ((o : Option ℕ) (f : Fdc) → is_ok (alloc o f) ≡ true)
      → IsRing l fdc
      → count ≤ max_nr_buffers
      → Succeeds count (set_nr_buffers kmalloc alloc size rounds all_ops count fdc)
  unfolding is_ok
  set_nr_buffers-Succeeds rounds count fdc l fresh served allocs ring small =
      elim (set_nr_buffers-Resized kmalloc alloc size rounds all_ops count fdc l fresh
        (λ o f e. absurd (ground (arith, sym (ap is_ok e) ∙ allocs o f))) ring) [
          | done f l' e r long zapped ↦ record {
            fdc = f;
            list = l';
            gives = e;
            ring = r;
            long = long;
            all_zapped = zapped;
          }
          | fails r f l' e bad _ ring' ↦
              let good =
                set_nr_buffers-no_error rounds count fdc l fresh served allocs ring small in
              absurd (ground (arith, bad, sym (ap no_error e) ∙ good))
          | goes_on f l' e _ ring' ↦
              let good =
                set_nr_buffers-no_error rounds count fdc l fresh served allocs ring small in
              absurd (ground (arith, sym (ap no_error e) ∙ good))
        ]
