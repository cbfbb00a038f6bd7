-- ===== src/Vtbl/Lookup/Blocks.antt =====
-- Block numbers and volumes, `zft_blk_offs` and `zft_volume_by_blkpos` of
-- ftape/zftape/zftape-vtbl.c.
use ftape.Prelude.{
  ℕ, zero, suc, ◌+◌, ◌-◌, ◌≤◌, ◌<◌, min, ◌≡◌, refl, sym, ap, ◌∙◌, ltb, ◌==◌, if◌then◌else◌, Bool,
  true, false, List, [], ◌∷◌, ◌++◌, length, length-append, get_elem?, Option, none, some, arith,
}
use ftape.Prelude.Int.{pos}
use ftape.Vtbl.Table.{Volume, Zft}
use ftape.Vtbl.Lookup.{
  nodes, eom_index, blocks_of, blocks_before, VolumeRef, at_node, as_offset, raw_offs, nodes_before,
  blk_offs, find_block, listed_block, raw_block, volume_by_blkpos,
}

module _ (z : Zft) where
  find_here :
      (x i offset b : ℕ) (v : Volume) (vs : List Volume)
      → blocks_of z v ≡ some b
      → x ≤ offset + b
      → find_block z x i offset (v ∷ vs) ≡ some (i, offset)
  unfolding find_block
  find_here x i offset b v vs blocks h =
      let stop : ltb (offset + b) x ≡ false = ground arith in rw (blocks, find_block) (ground arith)

  find_next :
      (x i offset b : ℕ) (v : Volume) (vs : List Volume)
      → blocks_of z v ≡ some b
      → offset + b < x
      → 0 < length vs
      → find_block z x i offset (v ∷ vs) ≡ find_block z x (i + 1) (offset + b + 1) vs
  unfolding find_block
  find_next x i offset b v vs blocks h more =
      let on : ltb (offset + b) x ≡ true = ground arith in
      let not_last : (length vs == 0) ≡ false = ground (arith, more) in
      rw (blocks, find_block) (ground arith)

  -- The first step of `blocks_before`.
  one_before :
      (n offset start : ℕ) (v : Volume) (vs : List Volume)
      → blocks_before z (suc n) (v ∷ vs) offset ≡ some start
      → (b : ℕ) × (blocks_of z v ≡ some b) × (blocks_before z n vs (offset + b + 1) ≡ some start)
  unfolding blocks_before
  one_before n offset start v vs h = go (blocks_of z v) refl h
    where
      go :
          (o : Option ℕ)
          → blocks_of z v ≡ o
          → (elim o as (λ x. Option ℕ) [
            | none ↦ none
            | some b ↦ blocks_before z n vs (offset + b + 1)
          ])
            ≡ some start
          → (b : ℕ) × (blocks_of z v ≡ some b)
            × (blocks_before z n vs (offset + b + 1) ≡ some start)
      go none e h = absurd (ground (arith, h))
      go (some b) e h = (b, e, h)

  before-le :
      (vs : List Volume) (n offset start : ℕ)
      → blocks_before z n vs offset ≡ some start
      → offset ≤ start
  unfolding blocks_before
  before-le vs zero offset start h = ground (arith, h)
  before-le [] (suc n) offset start h = absurd (ground (arith, h))
  before-le (v ∷ vs) (suc n) offset start h =
      let (b, e, rest) = one_before n offset start v vs h in
      omega (arith, before-le vs n (offset + b + 1) start rest)

  at_first :
      (w v : Volume) (ws us : List Volume) (i offset start b k : ℕ)
      → get_elem? (w ∷ ws) 0 ≡ some v
      → blocks_before z 0 us offset ≡ some start
      → blocks_of z v ≡ some b
      → k ≤ b
      → find_block z (start + k) i offset (w ∷ ws) ≡ some (i + 0, start)
  unfolding blocks_before
  at_first w v ws us i offset start b k at before blocks inside =
      let same : w ≡ v = ground (arith, at) in
      let e : offset ≡ start = ground (arith, before) in
      let f : i + 0 ≡ i = omega arith in
      find_here (start + k) i offset b w ws (ap (blocks_of z) same ∙ blocks)
        (omega (arith, e, inside))
      ∙ (rw (f, e))

  find_block_lem :
      (vs : List Volume) (eom : Volume) (n i offset start b k : ℕ) (v : Volume)
      → n ≤ length vs
      → blocks_before z n vs offset ≡ some start
      → get_elem? (vs ++ eom ∷ []) n ≡ some v
      → blocks_of z v ≡ some b
      → k ≤ b
      → find_block z (start + k) i offset (vs ++ eom ∷ []) ≡ some (i + n, start)
  find_block_lem [] eom zero i offset start b k v small before at blocks inside =
      at_first eom v [] [] i offset start b k at before blocks inside
  find_block_lem [] eom (suc n) i offset start b k v small before at blocks inside =
      absurd (omega (arith, small))
  find_block_lem (w ∷ vs) eom zero i offset start b k v small before at blocks inside =
      at_first w v (vs ++ eom ∷ []) (w ∷ vs) i offset start b k at before blocks inside
  find_block_lem (w ∷ vs) eom (suc n) i offset start b k v small before at blocks inside =
      let (c, e, rest) = one_before n offset start w vs before in
      let le = before-le vs n (offset + c + 1) start rest in
      let count : i + 1 + n ≡ i + suc n = omega arith in
      find_next (start + k) i offset c w (vs ++ eom ∷ []) e (omega (arith, le))
        (omega (arith, length-append vs (eom ∷ [])))
      ∙ find_block_lem vs eom n (i + 1) (offset + c + 1) start b k v (omega (arith, small)) rest at
          blocks inside
      ∙ ap (λ (t : ℕ). some (t, start)) count

of_positive :
    (z : Zft) (x i start : ℕ)
    → z.qic_mode ≡ true
    → 0 < x
    → find_block z x 1 0 (z.volumes ++ z.eom ∷ []) ≡ some (i, start)
    → volume_by_blkpos z (pos x) ≡ some (z, at_node i, some start)
unfolding volume_by_blkpos listed_block
of_positive z zero i start qic h found = absurd (omega (arith, h))
of_positive z (suc n) i start qic h found =
    ap (λ (q : Bool). if q then listed_block z (pos (suc n)) else some (raw_block z (pos (suc n))))
      qic
    ∙ rw (found, listed_block) refl

as_offset-pos : (o : Option ℕ) (n : ℕ) → as_offset o ≡ some (pos n) → o ≡ some n
unfolding as_offset
as_offset-pos none n e = cc e
as_offset-pos (some m) n e = cc e

listed_offs :
    (z : Zft) (v : VolumeRef) (start : ℕ)
    → z.qic_mode ≡ true
    → blk_offs z v ≡ some (pos start)
    → blocks_before z (nodes_before z v) z.volumes 0 ≡ some start
unfolding blk_offs
listed_offs z v start qic offs = as_offset-pos _ start (
    ap
      (λ (q : Bool).
        if q then as_offset (blocks_before z (nodes_before z v) z.volumes 0) else raw_offs z v)
      (sym qic)
    ∙ offs)

-- With the volume table, block `k` of a node, up to the node's number of blocks, counted from the
-- block that zft_blk_offs gives for the node, is found again by zft_volume_by_blkpos in that node,
-- with that offset and nothing else changed, unless it is block 0.
pub volume_by_blkpos-blk_offs :
    (z : Zft) (node start b k : ℕ) (v : Volume)
    → z.qic_mode ≡ true
    → 0 < node
    → node ≤ eom_index z
    → blk_offs z (at_node node) ≡ some (pos start)
    → get_elem? (nodes z) node ≡ some v
    → blocks_of z v ≡ some b
    → k ≤ b
    → 0 < start + k
    → volume_by_blkpos z (pos (start + k)) ≡ some (z, at_node node, some start)
unfolding nodes_before
volume_by_blkpos-blk_offs z zero start b k v qic real upto offs at blocks inside later =
    absurd (omega (arith, real))
volume_by_blkpos-blk_offs z (suc n) start b k v qic real upto offs at blocks inside later =
    let m : min (suc n - 1) (length z.volumes) ≡ n = omega (arith, upto) in
    let offs' : blocks_before z n z.volumes 0 ≡ some start =
      ap (λ (t : ℕ). blocks_before z t z.volumes 0) (sym m)
      ∙ listed_offs z (at_node (suc n)) start qic offs in
    let found : find_block z (start + k) 1 0 (z.volumes ++ z.eom ∷ []) ≡ some (1 + n, start) =
      find_block_lem z z.volumes z.eom n 1 0 start b k v (omega (arith, upto)) offs' at blocks
        inside in
    let f : 1 + n ≡ suc n = omega arith in
    of_positive z (start + k) (suc n) start qic later (found ∙ ap (λ (t : ℕ). some (t, start)) f)
