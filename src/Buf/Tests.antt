-- ===== src/Buf/Tests.antt =====
-- Runs of the ring of buffers (ftape/lowlevel/ftape-buffer.c), and instances of its laws.
use ftape.Prelude.{
  ℕ, zero, suc, ◌+◌, ◌<◌, max, Bool, true, false, Option, none, some, List, [], ◌∷◌, length, ◌≡◌,
  refl, sym, ap, subst, arith,
}
use ftape.Prelude.Int.{pos}
use ftape.Buf.Ring.{
  Node, Fdc, Result, ok, is_ok, error, store, unlink, kfree, del_behind, del_one_buffer,
}
use ftape.Buf.Ring.Laws.{IsApart, Leads, IsRing}
use ftape.Buf.Ring.Add.{IsFresh}
use ftape.Buf.Resize.{shrink, set_nr_buffers}
use ftape.Buf.Resize.Laws.{Resized, set_nr_buffers-Resized}
use ftape.Buf.Resize.Success.{IsServed, Succeeds, all_ops, set_nr_buffers-Succeeds}

-- The greatest address on a walk along the `next` fields.
unfoldable greatest : (rounds address : ℕ) → (ℕ → Node) → ℕ
greatest zero a nodes = 0
greatest (suc rounds) a nodes = max a (greatest rounds (nodes a).next nodes)

above :
    (l : List ℕ) (nodes : ℕ → Node) (a z n : ℕ)
    → Leads nodes a l z
    → greatest (length l) a nodes < n
    → IsApart n l
unfolding greatest
above [] nodes a z n h less = tt
above (x ∷ l) nodes a z n h less = (
  (λ e. omega (arith, e, less, h.0)),
  above l nodes (nodes x).next z n h.1 (
      omega (
        arith,
        subst (λ y. greatest (length l) (nodes y).next nodes < n) h.0 (omega (arith, less)),
      )),
)

-- A memory that gives an address above those of the ring when it is asked again.
unfoldable next_address : Fdc → (first : Option ℕ) → Option ℕ
next_address fdc none = some 1
next_address fdc (some b) = some (greatest fdc.nr_buffers b fdc.nodes + 1)

unfoldable kmalloc : ℕ → Fdc → Option ℕ
unfolding next_address
kmalloc zero fdc = none
kmalloc (suc n) fdc = next_address fdc fdc.buffers

abbrev address : Option ℕ → ℕ
address none = 0
address (some a) = a

abbrev given : Option ℕ → Bool
given none = false
given (some a) = true

next_address_lem :
    (fdc : Fdc) (o : Option ℕ) → next_address fdc o ≡ some (address (next_address fdc o))
unfolding next_address
next_address_lem fdc none = refl
next_address_lem fdc (some b) = refl

kmalloc-IsFresh : IsFresh kmalloc
unfolding kmalloc next_address
kmalloc-IsFresh n fdc [] a ring e = tt
kmalloc-IsFresh zero fdc (b ∷ l) a ring e = absurd (ground (arith, ap given e))
kmalloc-IsFresh (suc n) fdc (b ∷ l) a ring e =
    above (b ∷ l) fdc.nodes b b a (refl, ring.closes)
      (omega (
        arith,
        ap address (sym (subst (λ o. next_address fdc o ≡ some a) ring.starts e)),
        subst (λ n. greatest n b fdc.nodes < greatest fdc.nr_buffers b fdc.nodes + 1) ring.counts
            (omega arith),
      ))

kmalloc-IsServed : IsServed kmalloc 2
unfolding kmalloc
kmalloc-IsServed fdc =
    (1, address (next_address fdc fdc.buffers), next_address_lem fdc fdc.buffers, omega arith)

-- The controller prepares every buffer.
abbrev alloc : Option ℕ → Fdc → Result
alloc o fdc = ok

abbrev free_node : Node
free_node = record { next = 0; status = error; bytes = 7; skip = 0; retry = pos 2 }

-- No buffer yet.
abbrev no_buffers : Fdc
no_buffers = record {
  nr_buffers = 0;
  buffers = none;
  buffer_head = none;
  buffer_tail = none;
  nodes = λ a. free_node;
  used = 0;
  peak = 0;
}

no_buffers-IsRing : IsRing [] no_buffers
no_buffers-IsRing = record { starts = refl; counts = refl; closes = tt; distinct = tt }

-- A ring of the buffers at 5 and 9.
abbrev two_buffers : Fdc
two_buffers = record {
  nr_buffers = 2;
  buffers = some 5;
  buffer_head = some 5;
  buffer_tail = some 5;
  nodes =
      store (store (λ a. free_node) 5 (record free_node { next = 9 })) 9
        (record free_node { next = 5 });
  used = 272;
  peak = 272;
}

two_buffers-IsRing : IsRing (5 ∷ 9 ∷ []) two_buffers
unfolding store
two_buffers-IsRing = record {
  starts = refl;
  counts = refl;
  closes = (refl, refl);
  distinct = ((omega arith, tt), (tt, tt));
}

shrink_test : (shrink 136 1 two_buffers).used ≡ 136
unfolding shrink del_one_buffer del_behind unlink kfree store
shrink_test = refl

set_nr_buffers-Resized_example :
    Resized kmalloc 2 1 (set_nr_buffers kmalloc alloc 136 2 all_ops 1 two_buffers)
set_nr_buffers-Resized_example =
    set_nr_buffers-Resized kmalloc alloc 136 2 all_ops 1 two_buffers (5 ∷ 9 ∷ []) kmalloc-IsFresh
      (λ o f e. cc e) two_buffers-IsRing

set_nr_buffers-Succeeds_example :
    Succeeds 4 (set_nr_buffers kmalloc alloc 136 2 all_ops 4 two_buffers)
unfolding is_ok
set_nr_buffers-Succeeds_example =
    set_nr_buffers-Succeeds kmalloc alloc 136 2 4 two_buffers (5 ∷ 9 ∷ []) kmalloc-IsFresh
      kmalloc-IsServed (λ o f. refl) two_buffers-IsRing (omega arith)
