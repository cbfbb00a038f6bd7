-- ===== src/Vtbl/Lookup.antt =====
-- Finding a volume: `zft_volume_by_segpos`, `zft_blk_offs`, `zft_volume_by_blkpos` and
-- `zft_skip_volumes` of ftape/zftape/zftape-vtbl.c. `none` is a step off either end of the list
-- of nodes, or a division by 0.
pub mod Walk
pub mod Tiled
pub mod Segpos
pub mod Blocks
pub mod Skip
use ftape.Prelude.{
  ℕ, zero, suc, ◌+◌, ◌-◌, ◌*◌, min, max, ltb, leb, ◌==◌, if◌then◌else◌, Bool, true, false, not,
  ◌&&◌, ◌||◌, List, [], ◌∷◌, ◌++◌, length, get_elem?, Option, none, some,
}
use ftape.Prelude.Int.{ℤ, pos, negsuc}
use ftape.Vtbl.Table.{
  Volume, Zft, Position, Status, ok, einval, first_vtbl, volume_size, block_size, div_blksz,
  tape_pos_of,
}

-- The nodes of the list, from `head` to `eom`.
abbrev pub nodes : Zft → List Volume
nodes z = z.head ∷ (z.volumes ++ z.eom ∷ [])

-- The number of the last node, `eom`.
abbrev pub eom_index : Zft → ℕ
eom_index z = length z.volumes + 1

abbrev pub cur_index : Zft → ℕ
cur_index z = elim z.cur [ none ↦ eom_index z | some i ↦ i ]

abbrev pub pointer : Zft → ℕ → Option ℕ
pointer z i = if i == eom_index z then none else some i

-- The loop up to a node that does not end in front of the segment: the list is from node `i` on.
unfoldable pub forward : (seg_pos i : ℕ) → List Volume → Option ℕ
forward seg i [] = none
forward seg i (v ∷ vs) =
    let rest = forward seg (i + 1) vs in if ltb v.end_seg seg then rest else some i

-- The nodes from number `i` on, of a list that starts at number 0.
unfoldable pub nodes_from : ℕ → List Volume → List Volume
nodes_from zero vs = vs
nodes_from (suc i) [] = []
nodes_from (suc i) (v ∷ vs) = nodes_from i vs

-- The loop down to a node that does not start behind the segment.
unfoldable pub backward : (seg_pos : ℕ) → List Volume → ℕ → Option ℕ
backward seg vs zero = elim (get_elem? vs 0) [
  | none ↦ none
  | some v ↦ if ltb seg v.start_seg then none else some 0
]
backward seg vs (suc i) =
    let rest = backward seg vs i in
    elim (get_elem? vs (suc i)) [
      | none ↦ none
      | some v ↦ if ltb seg v.start_seg then rest else some (suc i)
    ]

-- The node that `zft_volume_by_segpos` returns, when the volume table is used, and the pointer
-- that it leaves.
unfoldable pub find_segment : Zft → (seg_pos : ℕ) → Option ℕ
unfolding forward nodes_from backward first_vtbl
find_segment z seg =
    if ltb seg (first_vtbl z).start_seg
    then some 1
    else elim (forward seg (cur_index z) (nodes_from (cur_index z) (nodes z))) [
      | none ↦ none
      | some i ↦ backward seg (nodes z) i
    ]

-- The volume of a node, and the state with the pointer at it.
unfoldable pub point_at : Zft → (node : Option ℕ) → Option (Zft × Volume)
point_at z none = none
point_at z (some i) = elim (get_elem? (nodes z) i) [
  | none ↦ none
  | some v ↦ some (record z { cur = pointer z i }, v)
]

-- Without the volume table the tape is one volume.
unfoldable pub whole_tape : Zft → (seg_pos : ℕ) → Zft × Volume
whole_tape z seg = if ltb z.tape.last_data_segment seg then (z, z.eot_vtbl) else (
  record z { tape_vtbl = record z.tape_vtbl { blk_sz = z.blk_sz } },
  record z.tape_vtbl { blk_sz = z.blk_sz },
)

unfoldable pub volume_by_segpos : Zft → (seg_pos : ℕ) → Option (Zft × Volume)
unfolding find_segment point_at whole_tape
volume_by_segpos z seg =
    if z.qic_mode then point_at z (find_segment z seg) else some (whole_tape z seg)

-- The blocks of a volume, as the user counts them.
unfoldable pub blocks_of : Zft → Volume → Option ℕ
unfolding volume_size block_size div_blksz
blocks_of z v = div_blksz (volume_size z v) (block_size z v)

-- The loop of `zft_blk_offs` over the first `n` nodes: a file mark follows each volume.
unfoldable pub blocks_before : Zft → (n : ℕ) → List Volume → (offset : ℕ) → Option ℕ
blocks_before z zero vs offset = some offset
blocks_before z (suc n) [] offset = none
blocks_before z (suc n) (v ∷ vs) offset = elim (blocks_of z v) [
  | none ↦ none
  | some b ↦ blocks_before z n vs (offset + b + 1)
]

-- What a pointer to a volume points to: a node of the list, or the tape or what is behind it.
pub data VolumeRef : Type 0 where
  at_node : ℕ → VolumeRef
  tape_volume : VolumeRef
  eot_volume : VolumeRef

unfoldable pub as_offset : Option ℕ → Option ℤ
as_offset none = none
as_offset (some n) = some (pos n)

-- `zft_blk_offs` without the volume table; a node of the list is -EINVAL.
unfoldable pub raw_offs : Zft → VolumeRef → Option ℤ
unfolding as_offset div_blksz
raw_offs z tape_volume = some (pos 0)
raw_offs z eot_volume = as_offset (div_blksz z.tape.capacity z.blk_sz)
raw_offs z (at_node i) = some (negsuc 21)

-- The nodes in front of a volume; all of them for a volume that is not in the list.
unfoldable pub nodes_before : Zft → VolumeRef → ℕ
nodes_before z (at_node i) = min (i - 1) (length z.volumes)
nodes_before z tape_volume = length z.volumes
nodes_before z eot_volume = length z.volumes

unfoldable pub blk_offs : Zft → VolumeRef → Option ℤ
unfolding blocks_before raw_offs nodes_before as_offset
blk_offs z v =
    if z.qic_mode then as_offset (blocks_before z (nodes_before z v) z.volumes 0) else raw_offs z v

-- The loop of `zft_volume_by_blkpos` at the node number `i`, the first of the list, and the
-- offset of that node's first block.
unfoldable pub find_block : Zft → (blk_pos i offset : ℕ) → List Volume → Option (ℕ × ℕ)
find_block z blk_pos i offset [] = none
find_block z blk_pos i offset (v ∷ vs) = elim (blocks_of z v) [
  | none ↦ none
  | some b ↦
      let rest = find_block z blk_pos (i + 1) (offset + b + 1) vs in
      if ltb (offset + b) blk_pos && not (length vs == 0) then rest else some (i, offset)
]

-- With the volume table: the node, and `*blk_offs`, which is not written for a block at or in
-- front of 0.
unfoldable pub listed_block : Zft → (blk_pos : ℤ) → Option (Zft × VolumeRef × Option ℕ)
unfolding find_block
listed_block z (negsuc n) = some (z, at_node 1, none)
listed_block z (pos zero) = some (z, at_node 1, none)
listed_block z (pos (suc n)) = elim (find_block z (suc n) 1 0 (z.volumes ++ z.eom ∷ [])) [
  | none ↦ none
  | some (i, offset) ↦ some (z, at_node i, some offset)
]

-- Without it: whether a block is behind the capacity, and the volume.
unfoldable pub is_behind : Zft → (blk_pos : ℤ) → Bool
is_behind z (negsuc n) = false
is_behind z (pos n) = ltb z.tape.capacity (n * z.blk_sz)

unfoldable pub raw_block : Zft → (blk_pos : ℤ) → Zft × VolumeRef × Option ℕ
unfolding is_behind
raw_block z blk_pos =
    if is_behind z blk_pos
    then (record z { eot_vtbl = record z.eot_vtbl { blk_sz = z.blk_sz } }, eot_volume, none)
    else (record z { tape_vtbl = record z.tape_vtbl { blk_sz = z.blk_sz } }, tape_volume, none)

unfoldable pub volume_by_blkpos : Zft → (blk_pos : ℤ) → Option (Zft × VolumeRef × Option ℕ)
unfolding listed_block raw_block
volume_by_blkpos z blk_pos =
    if z.qic_mode then listed_block z blk_pos else some (raw_block z blk_pos)

-- The loops of `zft_skip_volumes`: the count that is left and the node.
unfoldable pub skip_up : (count node last : ℕ) → ℕ × ℕ
skip_up zero node last = (0, node)
skip_up (suc n) node last =
    let rest = skip_up n (node + 1) last in if node == last then (suc n, node) else rest

unfoldable pub skip_down : (count node first : ℕ) → ℕ × ℕ
skip_down zero node first = (0, node)
skip_down (suc n) node first =
    let rest = skip_down n (node - 1) first in if node == first then (suc n, node) else rest

unfoldable pub skip_nodes : ℤ → (node last : ℕ) → ℕ × ℕ
unfolding skip_up skip_down
skip_nodes (pos n) node last = skip_up n node last
skip_nodes (negsuc n) node last = skip_down (suc n) node 1

module _ (bad : ℕ → ℕ) where
  -- The position at the start of a volume, and what is left of the count.
  unfoldable pub enter_volume : Zft → Position → Volume → (left : ℕ) → Status × Zft × Position
  unfolding tape_pos_of volume_size
  enter_volume z p v left =
      let (z', tape_pos) = tape_pos_of bad z v.start_seg in
      (
        if left == 0 then ok else einval,
        record z' { just_before_eof = volume_size z' v == 0; resid = left },
        record { seg_pos = v.start_seg; seg_byte_pos = 0; tape_pos = tape_pos; volume_pos = 0 },
      )

  -- `zft_skip_volumes`, which is only called where the volume table is used.
  unfoldable pub skip_volumes : Zft → ℤ → Position → Option (Status × Zft × Position)
  unfolding find_segment skip_nodes enter_volume
  skip_volumes z count p = elim (find_segment z p.seg_pos) [
    | none ↦ none
    | some i ↦
        let z1 = record z { cur = pointer z i } in
        let (left, node) = skip_nodes count i (eom_index z) in
        elim (get_elem? (nodes z) node) [ none ↦ none | some v ↦ some (enter_volume z1 p v left) ]
  ]
