-- ===== src/Buf/Ring/Add.antt =====
-- A new buffer in the ring: `add_one_buffer` of ftape/lowlevel/ftape-buffer.c.
use ftape.Prelude.{
  ℕ, zero, suc, ◌+◌, leb, not, ◌&&◌, Bool, true, false, Bool-cases, Option, none, some,
  Option-cases, List, [], ◌∷◌, ◌≡◌, refl, sym, inl, inr,
}
use ftape.Buf.Ring.{
  Node, Fdc, Result, ok, again, waits, is_ok, max_nr_buffers, store, zeroed, account, kfree,
  add_allocated, add_one_buffer, try_kmalloc, after_attempt, add_tried,
}
use ftape.Buf.Ring.Laws.{IsApart, Closes, IsRing, Leads-store, second, link-IsRing, store_other}

-- A write apart from the ring leaves it.
Closes-store :
    (nodes : ℕ → Node) (a : ℕ) (n : Node) (l : List ℕ)
    → IsApart a l
    → Closes nodes l
    → Closes (store nodes a n) l
Closes-store nodes a n [] apart h = h
Closes-store nodes a n (b ∷ l) apart h =
    rw (store_other nodes a b n (λ e. apart.0 (sym e)))
      (Leads-store nodes a n (nodes b).next l b apart.1 h)

account-IsRing :
    (size a : ℕ) (fdc : Fdc) (l : List ℕ)
    → IsApart a l
    → IsRing l fdc
    → IsRing l (account size a fdc)
unfolding account
account-IsRing size a fdc l apart ring = record {
  starts = ring.starts;
  counts = ring.counts;
  closes = Closes-store fdc.nodes a zeroed l apart ring.closes;
  distinct = ring.distinct;
}

kfree-IsRing : (size : ℕ) (fdc : Fdc) (l : List ℕ) → IsRing l fdc → IsRing l (kfree size fdc)
unfolding kfree
kfree-IsRing size fdc l ring = record {
  starts = ring.starts;
  counts = ring.counts;
  closes = ring.closes;
  distinct = ring.distinct;
}

-- What adding a buffer to a ring gives: one buffer more, or an error and the ring as it was.
pub data Added (l : List ℕ) (p : Result × Fdc) : Type 0 where
  linked : (new : ℕ) → p.0 ≡ ok → IsRing (second new l) p.1 → Added l p
  kept : is_ok p.0 ≡ false → IsRing l p.1 → Added l p

-- The memory that `kmalloc` gives is not that of a buffer of the ring.
abbrev pub IsFresh : (ℕ → Fdc → Option ℕ) → Type 0
IsFresh kmalloc =
    (n : ℕ) (fdc : Fdc) (l : List ℕ) (a : ℕ) → IsRing l fdc → kmalloc n fdc ≡ some a → IsApart a l

pub not_ok : (a b : Bool) → (a && not b) ≡ true → b ≡ false
not_ok true true e = sym e
not_ok true false e = refl
not_ok false true e = sym e
not_ok false false e = refl

module _ (kmalloc : ℕ → Fdc → Option ℕ) (alloc : Option ℕ → Fdc → Result) (size : ℕ) where
  data Tried (fdc : Fdc) (p : Result × Option ℕ) : Type 0 where
    got : (n a : ℕ) → p ≡ (ok, some a) → kmalloc n fdc ≡ some a → Tried fdc p
    missed : (r : Result) → p ≡ (r, none) → is_ok r ≡ false → Tried fdc p

  try_kmalloc-Tried :
      (retry : Bool) (rounds attempt : ℕ) (fdc : Fdc)
      → Tried fdc (try_kmalloc kmalloc alloc size retry rounds attempt fdc)
  unfolding try_kmalloc after_attempt is_ok
  try_kmalloc-Tried retry zero attempt fdc = missed waits refl refl
  try_kmalloc-Tried retry (suc rounds) attempt fdc = elim (Option-cases (kmalloc attempt fdc)) [
    | inl e ↦ elim (Bool-cases retry) [
      | inl f ↦ rw (e, f) (try_kmalloc-Tried retry rounds (attempt + 1) fdc)
      | inr f ↦ rw (e, f) (missed again refl refl)
    ]
    | inr (a, e) ↦ rw e (got attempt a refl e)
  ]

  add_allocated-Added :
      (has_alloc : Bool) (new : ℕ) (fdc : Fdc) (l : List ℕ)
      → IsRing l fdc
      → IsApart new l
      → Added l (add_allocated kmalloc alloc size has_alloc new fdc)
  unfolding add_allocated
  add_allocated-Added has_alloc new fdc l ring apart =
      elim (Bool-cases (has_alloc && not (is_ok (alloc (some new) fdc)))) [
        | inl e ↦ rw e (
            kept (not_ok has_alloc (is_ok (alloc (some new) fdc)) e) (kfree-IsRing size fdc l ring))
        | inr e ↦ rw e (linked new refl (link-IsRing fdc l new ring apart))
      ]

  -- If kmalloc gives memory apart from the ring, add_one_buffer makes the ring one buffer longer or
  -- leaves it and fails.
  pub add_one_buffer-Added :
      (has_alloc : Bool) (rounds : ℕ) (fdc : Fdc) (l : List ℕ)
      → IsFresh kmalloc
      → IsRing l fdc
      → Added l (add_one_buffer kmalloc alloc size has_alloc rounds fdc)
  unfolding add_one_buffer add_tried is_ok
  add_one_buffer-Added has_alloc rounds fdc l fresh ring =
      elim (Bool-cases (leb max_nr_buffers fdc.nr_buffers)) [
        | inl e ↦ rw e (kept refl ring)
        | inr e ↦ elim (try_kmalloc-Tried true rounds 0 fdc) [
          | missed r f g ↦ rw (e, f) (kept g ring)
          | got n a f g ↦
              rw (e, f)
                (add_allocated-Added has_alloc a (account size a fdc) l
                  (account-IsRing size a fdc l (fresh n fdc l a ring g) ring)
                  (fresh n fdc l a ring g))
        ]
      ]
