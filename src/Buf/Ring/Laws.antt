-- ===== src/Buf/Ring/Laws.antt =====
-- The buffers of a controller form a ring (ftape/lowlevel/ftape-buffer.c).
use ftape.Prelude.{
  ℕ, ltb, ◌==◌, true, false, Option, none, some, List, [], ◌∷◌, length, ◌≡◌, refl, sym, ap, subst,
  arith,
}
use ftape.Buf.Ring.{Node, Fdc, store, kfree, link, unlink, del_behind, del_one_buffer}

abbrev first_of : List ℕ → Option ℕ
first_of [] = none
first_of (x ∷ l) = some x

abbrev pub IsApart : ℕ → List ℕ → Type 0
IsApart a [] = Unit
IsApart a (x ∷ l) = (¬ a ≡ x) × IsApart a l

-- From an address the `next` fields lead along a list to another address.
abbrev pub Leads : (ℕ → Node) → ℕ → List ℕ → ℕ → Type 0
Leads nodes a [] z = a ≡ z
Leads nodes a (x ∷ l) z = (a ≡ x) × Leads nodes (nodes x).next l z

abbrev pub IsDistinct : List ℕ → Type 0
IsDistinct [] = Unit
IsDistinct (x ∷ l) = IsApart x l × IsDistinct l

-- From the first buffer the `next` fields lead back to it.
abbrev pub Closes : (ℕ → Node) → List ℕ → Type 0
Closes nodes [] = Unit
Closes nodes (b ∷ l) = Leads nodes (nodes b).next l b

-- The buffers of the controller are the list, a ring.
pub record IsRing (l : List ℕ) (fdc : Fdc) : Type 0 where
  pub starts : fdc.buffers ≡ first_of l
  pub counts : fdc.nr_buffers ≡ length l
  pub closes : Closes fdc.nodes l
  pub distinct : IsDistinct l

pub store_self : (nodes : ℕ → Node) (a : ℕ) (n : Node) → store nodes a n a ≡ n
unfolding store
store_self nodes a n = let e : (a == a) ≡ true = ground arith in rw e refl

pub store_other : (nodes : ℕ → Node) (a b : ℕ) (n : Node) → ¬ b ≡ a → store nodes a n b ≡ nodes b
unfolding store
store_other nodes a b n ne = let e : (b == a) ≡ false = ground (arith, ne) in rw e refl

-- A write apart from a list leaves where it leads.
pub Leads-store :
    (nodes : ℕ → Node) (a : ℕ) (n : Node) (x : ℕ) (l : List ℕ) (z : ℕ)
    → IsApart a l
    → Leads nodes x l z
    → Leads (store nodes a n) x l z
Leads-store nodes a n x [] z apart h = h
Leads-store nodes a n x (y ∷ l) z apart h = (
  h.0,
  rw (store_other nodes a y n (λ e. apart.0 (sym e)))
      (Leads-store nodes a n (nodes y).next l z apart.1 h.1),
)

-- The new buffer is behind the first one, or alone.
abbrev pub second : ℕ → List ℕ → List ℕ
second new [] = new ∷ []
second new (b ∷ l) = b ∷ new ∷ l

pub link-IsRing :
    (fdc : Fdc) (l : List ℕ) (new : ℕ)
    → IsRing l fdc
    → IsApart new l
    → IsRing (second new l) (link new fdc)
unfolding link
link-IsRing fdc [] new ring apart = rw ring.starts (record {
  starts = refl;
  counts = omega (arith, ring.counts);
  closes =
      ap (λ (n : Node). n.next) (store_self fdc.nodes new (record (fdc.nodes new) { next = new }));
  distinct = (tt, tt);
})
link-IsRing fdc (b ∷ l) new ring apart =
    let linked : ℕ → Node =
      store fdc.nodes new (record (fdc.nodes new) { next = (fdc.nodes b).next }) in
    let first : Node = record (linked b) { next = new } in
    let kept =
      Leads-store linked b first (fdc.nodes b).next l b ring.distinct.0
        (Leads-store fdc.nodes new _ (fdc.nodes b).next l b apart.1 ring.closes) in
    rw ring.starts (record {
      starts = refl;
      counts = omega (arith, ring.counts);
      closes =
          rw
            (
              store_self linked b first,
              store_other linked b new first apart.0,
              store_self fdc.nodes new (record (fdc.nodes new) { next = (fdc.nodes b).next }),
            )
            (refl, kept);
      distinct = (((λ e. apart.0 (sym e)), ring.distinct.0), (apart.1, ring.distinct.1));
    })

-- The list without the second buffer, or without the only one.
abbrev pub drop_second : List ℕ → List ℕ
drop_second [] = []
drop_second (b ∷ []) = []
drop_second (b ∷ x ∷ l) = b ∷ l

-- The last buffer leads to the first one; another one does not lead to itself.
Leads-apart :
    (nodes : ℕ → Node) (a : ℕ) (l : List ℕ) (z : ℕ)
    → Leads nodes a l z
    → IsApart z l
    → (x : ℕ) → IsApart x l
    → ¬ z ≡ x
    → ¬ x ≡ a
Leads-apart nodes a [] z h zl x xl ne = λ e. ne (omega (arith, e, h))
Leads-apart nodes a (y ∷ l) z h zl x xl ne = λ e. xl.0 (omega (arith, e, h.0))

unlink-IsRing :
    (fdc : Fdc) (b : ℕ) (l : List ℕ)
    → IsRing (b ∷ l) fdc
    → IsRing (drop_second (b ∷ l)) (unlink b fdc)
unfolding unlink
unlink-IsRing fdc b [] ring =
    let e : ((fdc.nodes b).next == (fdc.nodes (fdc.nodes b).next).next) ≡ true =
      rw (ring.closes, ring.closes) (ground arith) in
    rw e (record { starts = refl; counts = omega (arith, ring.counts); closes = tt; distinct = tt })
unlink-IsRing fdc b (x ∷ l) ring =
    let nodes = fdc.nodes in
    let moved : Node = record (nodes b) { next = (nodes x).next } in
    let ne : ¬ x ≡ (nodes x).next =
      Leads-apart nodes (nodes x).next l b ring.closes.1 ring.distinct.0.1 x ring.distinct.1.0
        ring.distinct.0.0 in
    let e : (x == (nodes x).next) ≡ false = ground (arith, ne) in
    rw (ring.closes.0, e)
      (record {
        starts = ring.starts;
        counts = omega (arith, ring.counts);
        closes =
            rw (store_self nodes b moved)
              (Leads-store nodes b moved (nodes x).next l b ring.distinct.0.1 ring.closes.1);
        distinct = (ring.distinct.0.1, ring.distinct.1.1);
      })

pub del_one_buffer-IsRing :
    (size : ℕ) (fdc : Fdc) (l : List ℕ)
    → IsRing l fdc
    → IsRing (drop_second l) (del_one_buffer size fdc)
unfolding del_one_buffer del_behind kfree
del_one_buffer-IsRing size fdc [] ring =
    subst (λ o. IsRing [] (del_behind size fdc o)) (sym ring.starts) ring
del_one_buffer-IsRing size fdc (b ∷ l) ring =
    let e : ltb 0 fdc.nr_buffers ≡ true = ground (arith, ring.counts) in
    let gone = unlink-IsRing fdc b l ring in
    subst (λ o. IsRing (drop_second (b ∷ l)) (del_behind size fdc o)) (sym ring.starts)
      (rw e (record {
        starts = gone.starts;
        counts = gone.counts;
        closes = gone.closes;
        distinct = gone.distinct;
      }))
