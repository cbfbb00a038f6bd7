-- ===== src/Vtbl/Lookup/Segpos.antt =====
-- `zft_volume_by_segpos` (ftape/zftape/zftape-vtbl.c) finds the volume of a segment.
use ftape.Prelude.{
  ℕ, zero, suc, ◌+◌, ◌-◌, ◌≤◌, ◌<◌, ◌≡◌, refl, sym, ap, ◌∙◌, ltb, ◌==◌, if◌then◌else◌, Bool-cases,
  inl, inr, Bool, true, false, List, [], ◌∷◌, ◌++◌, length, length-append, get_elem?, Option, none,
  some, arith,
}
use ftape.Vtbl.Table.{Volume, Zft, first_vtbl, first_or}
use ftape.Vtbl.Lookup.{
  nodes, cur_index, eom_index, pointer, forward, nodes_from, backward, find_segment, point_at,
  whole_tape, volume_by_segpos,
}
use ftape.Vtbl.Lookup.Tiled.{IsTiled, IsTiled-snoc}
use ftape.Vtbl.Lookup.Walk.{At, forward_lem, backward_lem}

nodes_from-get : (vs : List Volume) (c k : ℕ) → get_elem? (nodes_from c vs) k ≡ get_elem? vs (c + k)
unfolding nodes_from
nodes_from-get vs zero k = let e : 0 + k ≡ k = omega arith in rw e refl
nodes_from-get [] (suc c) k = refl
nodes_from-get (v ∷ vs) (suc c) k =
    let e : suc c + k ≡ suc (c + k) = omega arith in rw e (nodes_from-get vs c k)

nodes_from-IsTiled :
    (vs : List Volume) (lo hi c : ℕ)
    → IsTiled lo vs hi
    → c < length vs
    → (lo' : ℕ) × IsTiled lo' (nodes_from c vs) hi × (0 < length (nodes_from c vs))
unfolding nodes_from
nodes_from-IsTiled vs lo hi zero t h = (lo, t, h)
nodes_from-IsTiled [] lo hi (suc c) t h = absurd (omega (arith, h))
nodes_from-IsTiled (v ∷ vs) lo hi (suc c) t h =
    nodes_from-IsTiled vs (v.end_seg + 1) hi c t.2 (omega (arith, h))

-- The volumes take the segments from `lo` on without a gap, `eom` takes the rest, and the pointer
-- is at one of these nodes.
pub record IsTable (lo : ℕ) (z : Zft) : Type 0 where
  pub tiled : IsTiled lo z.volumes z.eom.start_seg
  pub rest : z.eom.start_seg ≤ z.eom.end_seg
  pub not_head : 0 < cur_index z
  pub inside : cur_index z ≤ eom_index z

all-IsTiled :
    (lo : ℕ) (z : Zft) → IsTable lo z → IsTiled lo (z.volumes ++ z.eom ∷ []) (z.eom.end_seg + 1)
all-IsTiled lo z h = IsTiled-snoc z.volumes lo z.eom (z.eom.end_seg + 1) h.tiled h.rest refl

first-start :
    (lo : ℕ) (vs : List Volume) (d : Volume)
    → IsTiled lo vs d.start_seg
    → (first_or vs d).start_seg ≡ lo
first-start lo [] d t = sym t
first-start lo (v ∷ vs) d t = t.0

find_lem :
    (z : Zft) (ws : List Volume) (lo hi c seg : ℕ)
    → IsTiled lo ws hi
    → c < length ws
    → lo ≤ seg
    → seg < hi
    → (k : ℕ) × (v : Volume) × (elim (forward seg (suc c) (nodes_from c ws)) as (λ o. Option ℕ) [
      | none ↦ none
      | some i ↦ backward seg (z.head ∷ ws) i
    ]
        ≡ some (suc k))
      × At ws k v
      × (v.start_seg ≤ seg)
      × (seg ≤ v.end_seg)
find_lem z ws lo hi c seg t inside from below =
    let (lo', t', more) = nodes_from-IsTiled ws lo hi c t inside in
    let (k, v, found, at, le) = forward_lem seg (nodes_from c ws) lo' hi (suc c) t' more below in
    let at' : At ws (c + k) v = sym (nodes_from-get ws c k) ∙ at in
    let (j, u, back, atj, starts, ends) =
      backward_lem seg z.head ws lo hi (c + k) v t from at' le in
    let e : suc c + k ≡ suc (c + k) = omega arith in (j, u, rw found (rw e back), atj, starts, ends)

pub At-lt : (vs : List Volume) (i : ℕ) (v : Volume) → At vs i v → i < length vs
At-lt [] i v at = absurd (ground (arith, at))
At-lt (w ∷ vs) zero v at = omega arith
At-lt (w ∷ vs) (suc i) v at = omega (arith, At-lt vs i v at)

cur_index-pointer : (z : Zft) (i : ℕ) → cur_index (record z { cur = pointer z i }) ≡ i
cur_index-pointer z i = elim (Bool-cases (i == eom_index z)) [
  | inl e ↦ rw e (ground (arith, e))
  | inr e ↦ rw e refl
]

point_at-some :
    (z : Zft) (i : ℕ) (v : Volume)
    → At (nodes z) i v
    → point_at z (some i) ≡ some (record z { cur = pointer z i }, v)
unfolding point_at
point_at-some z i v at = rw at

-- What a lookup of a segment gives: a node that holds the segment, and the pointer at that node.
pub record Finds (lo : ℕ) (z : Zft) (seg : ℕ) : Type 0 where
  pub node : ℕ
  pub volume : Volume
  pub result : volume_by_segpos z seg ≡ some (record z { cur = pointer z node }, volume)
  pub is_node : At (nodes z) node volume
  pub starts : volume.start_seg ≤ seg
  pub ends : seg ≤ volume.end_seg
  pub kept : IsTable lo (record z { cur = pointer z node })

pub find_segment_lem :
    (lo : ℕ) (z : Zft) (seg : ℕ)
    → IsTable lo z
    → lo ≤ seg
    → seg ≤ z.eom.end_seg
    → (k : ℕ) × (v : Volume) × (find_segment z seg ≡ some (suc k))
      × At (z.volumes ++ z.eom ∷ []) k v
      × (v.start_seg ≤ seg)
      × (seg ≤ v.end_seg)
unfolding find_segment
find_segment_lem lo z seg h from upto =
    let ws = z.volumes ++ z.eom ∷ [] in
    let c : ℕ = cur_index z - 1 in
    let e : cur_index z ≡ suc c = omega (arith, h.not_head) in
    let first : (first_vtbl z).start_seg ≡ lo = first-start lo z.volumes z.eom h.tiled in
    let not_first : ltb seg (first_vtbl z).start_seg ≡ false = ground (arith, first, from) in
    let inside : c < length ws = omega (arith, h.inside, length-append z.volumes (z.eom ∷ [])) in
    let (k, v, found, at, starts, ends) =
      find_lem z ws lo (z.eom.end_seg + 1) c seg (all-IsTiled lo z h) inside from
        (omega (arith, upto)) in
    (k, v, rw not_first (rw e found), at, starts, ends)

-- Where the volume table is used (qic_mode), in a table whose volumes and eom take the segments
-- from lo on without a gap, zft_volume_by_segpos finds for each of these segments the node that
-- holds it, wherever its cached pointer was, without a step off the list; it moves the pointer to
-- that node and changes nothing else.
pub volume_by_segpos-Finds :
    (lo : ℕ) (z : Zft) (seg : ℕ)
    → IsTable lo z
    → z.qic_mode ≡ true
    → lo ≤ seg
    → seg ≤ z.eom.end_seg
    → Finds lo z seg
unfolding volume_by_segpos
volume_by_segpos-Finds lo z seg h qic from upto =
    let (k, v, found, at, starts, ends) = find_segment_lem lo z seg h from upto in
    let i = cur_index-pointer z (suc k) in
    let inside : suc k ≤ eom_index z =
      omega (arith, At-lt (z.volumes ++ z.eom ∷ []) k v at, length-append z.volumes (z.eom ∷ [])) in
    record {
      node = suc k;
      volume = v;
      result =
          ap (λ (b : Bool). if b then point_at z (find_segment z seg) else some (whole_tape z seg))
            qic
          ∙ ap (point_at z) found
          ∙ point_at-some z (suc k) v at;
      is_node = at;
      starts = starts;
      ends = ends;
      kept = record {
        tiled = h.tiled;
        rest = h.rest;
        not_head = omega (arith, i);
        inside = omega (arith, i, inside);
      };
    }
