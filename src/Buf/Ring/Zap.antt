-- ===== src/Buf/Ring/Zap.antt =====
-- `fdc_zap_buffers` of ftape/lowlevel/ftape-buffer.c ends and reaches every buffer.
use ftape.Prelude.{
  ℕ, ◌==◌, true, false, Bool-cases, Option, some, List, [], ◌∷◌, length, ◌≡◌, refl, sym, ap, subst,
  ◌∙◌, arith, inl, inr,
}
use ftape.Prelude.Int.{pos}
use ftape.Buf.Ring.{Node, Fdc, waiting, store, zap_node, zap_from, with_nodes, zap_at, zap_buffers}
use ftape.Buf.Ring.Laws.{IsApart, Leads, Closes, IsRing, store_self}

-- A buffer that waits and is empty.
pub record IsZapped (n : Node) : Type 0 where
  pub waits : n.status ≡ waiting
  pub no_bytes : n.bytes ≡ 0
  pub no_skip : n.skip ≡ 0
  pub no_retry : n.retry ≡ pos 0

abbrev pub AllZapped : (ℕ → Node) → List ℕ → Type 0
AllZapped nodes [] = Unit
AllZapped nodes (x ∷ l) = IsZapped (nodes x) × AllZapped nodes l

-- One buffer is zapped.
abbrev zap_one : (ℕ → Node) → ℕ → ℕ → Node
zap_one nodes x = store nodes x (zap_node (nodes x))

abbrev zap_list : List ℕ → (ℕ → Node) → ℕ → Node
zap_list [] nodes = nodes
zap_list (x ∷ l) nodes = zap_list l (zap_one nodes x)

zap_one-next : (nodes : ℕ → Node) (x a : ℕ) → (zap_one nodes x a).next ≡ (nodes a).next
unfolding store zap_node
zap_one-next nodes x a = elim (Bool-cases (a == x)) [
  | inl e ↦ let f : a ≡ x = ground (arith, e) in rw (e, f) refl
  | inr e ↦ rw e refl
]

zap_list-next : (l : List ℕ) (nodes : ℕ → Node) (a : ℕ) → (zap_list l nodes a).next ≡ (nodes a).next
zap_list-next [] nodes a = refl
zap_list-next (x ∷ l) nodes a = zap_list-next l (zap_one nodes x) a ∙ zap_one-next nodes x a

zap_node-IsZapped : (n : Node) → IsZapped (zap_node n)
unfolding zap_node
zap_node-IsZapped n = record { waits = refl; no_bytes = refl; no_skip = refl; no_retry = refl }

zap_one-IsZapped : (nodes : ℕ → Node) (x a : ℕ) → IsZapped (nodes a) → IsZapped (zap_one nodes x a)
unfolding store
zap_one-IsZapped nodes x a h = elim (Bool-cases (a == x)) [
  | inl e ↦ rw e (zap_node-IsZapped (nodes x))
  | inr e ↦ rw e h
]

zap_list-IsZapped :
    (l : List ℕ) (nodes : ℕ → Node) (a : ℕ) → IsZapped (nodes a) → IsZapped (zap_list l nodes a)
zap_list-IsZapped [] nodes a h = h
zap_list-IsZapped (x ∷ l) nodes a h =
    zap_list-IsZapped l (zap_one nodes x) a (zap_one-IsZapped nodes x a h)

zap_list-AllZapped : (l : List ℕ) (nodes : ℕ → Node) → AllZapped (zap_list l nodes) l
zap_list-AllZapped [] nodes = tt
zap_list-AllZapped (x ∷ l) nodes = (
  zap_list-IsZapped l (zap_one nodes x) x (
      subst IsZapped (sym (store_self nodes x (zap_node (nodes x)))) (zap_node-IsZapped (nodes x))),
  zap_list-AllZapped l (zap_one nodes x),
)

-- Where a list leads depends on the `next` fields alone.
Leads-next :
    (nodes nodes' : ℕ → Node) (x : ℕ) (l : List ℕ) (z : ℕ)
    → ((a : ℕ) → (nodes' a).next ≡ (nodes a).next)
    → Leads nodes x l z
    → Leads nodes' x l z
Leads-next nodes nodes' x [] z same h = h
Leads-next nodes nodes' x (y ∷ l) z same h =
    (h.0, rw (same y) (Leads-next nodes nodes' (nodes y).next l z same h.1))

-- The loop from a buffer on goes to the end of the ring, in a round for each buffer.
zap_from-zap_list :
    (l : List ℕ) (first x : ℕ) (nodes : ℕ → Node)
    → IsApart first l
    → Leads nodes (nodes x).next l first
    → zap_from (length (x ∷ l)) first x nodes ≡ some (zap_list (x ∷ l) nodes)
unfolding zap_from
zap_from-zap_list [] first x nodes apart h =
    let e : ((zap_one nodes x x).next == first) ≡ true =
      ground (arith, h, zap_one-next nodes x x) in
    rw e refl
zap_from-zap_list (y ∷ l) first x nodes apart h =
    let next : (zap_one nodes x x).next ≡ y = zap_one-next nodes x x ∙ h.0 in
    let e : (y == first) ≡ false = ground (arith, apart.0) in
    rw (next, e)
      (zap_from-zap_list l first y (zap_one nodes x) apart.1 (
        rw (zap_one-next nodes x y)
          (Leads-next nodes (zap_one nodes x) (nodes y).next l first (zap_one-next nodes x) h.1)))

Closes-next :
    (nodes nodes' : ℕ → Node) (l : List ℕ)
    → ((a : ℕ) → (nodes' a).next ≡ (nodes a).next)
    → Closes nodes l
    → Closes nodes' l
Closes-next nodes nodes' [] same h = h
Closes-next nodes nodes' (b ∷ l) same h =
    rw (same b) (Leads-next nodes nodes' (nodes b).next l b same h)

-- What zapping the buffers of a ring gives: the ring, and every buffer of it waits and is empty.
pub record Zaps (l : List ℕ) (o : Option Fdc) : Type 0 where
  pub zapped : Fdc
  pub gives : o ≡ some zapped
  pub ring : IsRing l zapped
  pub all_zapped : AllZapped zapped.nodes l

pub zap_buffers-Zaps : (l : List ℕ) (fdc : Fdc) → IsRing l fdc → Zaps l (zap_buffers fdc)
unfolding zap_buffers zap_at with_nodes
zap_buffers-Zaps [] fdc ring = record {
  zapped = fdc;
  gives = ap (zap_at fdc) ring.starts;
  ring = ring;
  all_zapped = tt;
}
zap_buffers-Zaps (b ∷ l) fdc ring =
    let nodes : ℕ → Node = zap_list (b ∷ l) fdc.nodes in
    let loop : zap_from fdc.nr_buffers b b fdc.nodes ≡ some nodes =
      subst (λ n. zap_from n b b fdc.nodes ≡ some nodes) (sym ring.counts)
        (zap_from-zap_list l b b fdc.nodes ring.distinct.0 ring.closes) in
    record {
      zapped = record fdc { nodes = nodes };
      gives = ap (zap_at fdc) ring.starts ∙ ap (with_nodes fdc) loop;
      ring = record {
        starts = ring.starts;
        counts = ring.counts;
        closes = Closes-next fdc.nodes nodes (b ∷ l) (zap_list-next (b ∷ l) fdc.nodes) ring.closes;
        distinct = ring.distinct;
      };
      all_zapped = zap_list-AllZapped (b ∷ l) fdc.nodes;
    }
