-- ===== src/Buf/Ring/Wait.antt =====
-- `ftape_kmalloc` waits only where `kmalloc` gives no memory (ftape/lowlevel/ftape-buffer.c).
use ftape.Prelude.{
  ℕ, zero, suc, ◌+◌, ◌<◌, leb, not, ◌&&◌, true, if-cases, Option, none, some, ◌≡◌, ◌≢◌, refl, subst,
  sym, arith,
}
use ftape.Buf.Ring.{
  Fdc, Result, waits, is_ok, max_nr_buffers, try_kmalloc, after_attempt, add_allocated, add_tried,
  add_one_buffer,
}

-- In none of the rounds is there memory.
abbrev pub IsStarved : (ℕ → Fdc → Option ℕ) → (rounds : ℕ) → Fdc → Type 0
IsStarved kmalloc rounds fdc = (t : ℕ) → t < rounds → kmalloc t fdc ≡ none

module _ (kmalloc : ℕ → Fdc → Option ℕ) (alloc : Option ℕ → Fdc → Result) (size : ℕ) where
  -- A wait behind an attempt is a wait of the rest, after no memory.
  after_attempt-waits :
      (rest : Result × Option ℕ) (o : Option ℕ)
      → (after_attempt true rest o).0 ≡ waits
      → (o ≡ none) × (rest.0 ≡ waits)
  unfolding after_attempt
  after_attempt-waits rest none e = (refl, e)
  after_attempt-waits rest (some a) e = cc e

  try_kmalloc-waits :
      (rounds attempt : ℕ) (fdc : Fdc)
      → (try_kmalloc kmalloc alloc size true rounds attempt fdc).0 ≡ waits
      → (t : ℕ) → t < rounds
      → kmalloc (attempt + t) fdc ≡ none
  unfolding try_kmalloc
  try_kmalloc-waits zero attempt fdc e t less = absurd (omega (arith, less))
  try_kmalloc-waits (suc rounds) attempt fdc e zero less =
      subst (λ n. kmalloc n fdc ≡ none) (omega arith)
        (after_attempt-waits _ (kmalloc attempt fdc) e).0
  try_kmalloc-waits (suc rounds) attempt fdc e (suc t) less =
      subst (λ n. kmalloc n fdc ≡ none) (omega arith)
        (try_kmalloc-waits rounds (attempt + 1) fdc
          (after_attempt-waits _ (kmalloc attempt fdc) e).1 t (omega (arith, less)))

  module _ (allocs : (o : Option ℕ) (f : Fdc) → alloc o f ≢ waits) where
    add_allocated-waits :
        (new : ℕ) (fdc : Fdc) → (add_allocated kmalloc alloc size true new fdc).0 ≢ waits
    unfolding add_allocated
    add_allocated-waits new fdc =
        if-cases (λ (p : Result × Fdc). p.0 ≢ waits) (true && not (is_ok (alloc (some new) fdc))) _
          _ (λ _. allocs (some new) fdc) (λ _ e. cc e)

    add_tried-waits :
        (fdc : Fdc) (tried : Result × Option ℕ)
        → (add_tried kmalloc alloc size true fdc tried).0 ≡ waits
        → (tried.0 ≡ waits) × ((add_tried kmalloc alloc size true fdc tried).1 ≡ fdc)
    unfolding add_tried
    add_tried-waits fdc (result, none) e = (e, refl)
    add_tried-waits fdc (result, some new) e = absurd (add_allocated-waits new _ e)

    -- Where add_one_buffer still waits after the rounds, kmalloc gives no memory in any of them.
    pub add_one_buffer-waits :
        (rounds : ℕ) (fdc : Fdc)
        → (add_one_buffer kmalloc alloc size true rounds fdc).0 ≡ waits
        → IsStarved kmalloc rounds (add_one_buffer kmalloc alloc size true rounds fdc).1
    unfolding add_one_buffer
    add_one_buffer-waits rounds fdc =
        if-cases (λ (p : Result × Fdc). p.0 ≡ waits → IsStarved kmalloc rounds p.1)
          (leb max_nr_buffers fdc.nr_buffers) _ _ (λ _ e. absurd (cc e))
          (λ _ e.
            let tried = add_tried-waits fdc (try_kmalloc kmalloc alloc size true rounds 0 fdc) e in
            subst (IsStarved kmalloc rounds) (sym tried.1) (λ t less.
              subst (λ n. kmalloc n fdc ≡ none) (omega arith)
                (try_kmalloc-waits rounds 0 fdc tried.0 t less)))
