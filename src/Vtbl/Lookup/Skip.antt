-- ===== src/Vtbl/Lookup/Skip.antt =====
-- `zft_skip_volumes` of ftape/zftape/zftape-vtbl.c goes to the start of a volume.
use ftape.Prelude.{
  ℕ, zero, suc, ◌+◌, ◌-◌, ◌≤◌, ◌<◌, min, max, ◌≡◌, refl, ap, ◌==◌, if◌then◌else◌, Bool-cases, inl,
  inr, List, [], ◌∷◌, ◌++◌, length, length-append, some, arith,
}
use ftape.Prelude.Int.{ℤ, pos, negsuc}
use ftape.Zft.Position.Laws.{IsValid, start_of, calc_tape_pos_lem}
use ftape.Vtbl.Table.{Volume, Zft, Position, Status, ok, einval, tape_pos_of}
use ftape.Vtbl.Lookup.{
  nodes, eom_index, pointer, find_segment, skip_up, skip_down, skip_nodes, enter_volume,
  skip_volumes,
}
use ftape.Vtbl.Lookup.Walk.{At}
use ftape.Vtbl.Lookup.Segpos.{IsTable, find_segment_lem, At-lt}

skip_up_lem : (n i last : ℕ) → i ≤ last → skip_up n i last ≡ (n - (last - i), min (i + n) last)
unfolding skip_up
skip_up_lem zero i last h = ground arith
skip_up_lem (suc n) i last h = elim (Bool-cases (i == last)) [
  | inl e ↦ rw e (ground (arith, e))
  | inr e ↦ rw e (
      let more : i + 1 ≤ last = ground (arith, e) in
      ground (arith, skip_up_lem n (i + 1) last more))
]

skip_down_lem : (n i : ℕ) → 0 < i → skip_down n i 1 ≡ (n - (i - 1), max 1 (i - n))
unfolding skip_down
skip_down_lem zero i h = ground arith
skip_down_lem (suc n) i h = elim (Bool-cases (i == 1)) [
  | inl e ↦ rw e (ground (arith, e))
  | inr e ↦
      rw e
        (let more : 0 < i - 1 = ground (arith, e) in ground (arith, skip_down_lem n (i - 1) more))
]

-- The node that is `count` nodes on, within the first and the last, and what is left of the count.
abbrev pub node_after : ℤ → (node last : ℕ) → ℕ
node_after (pos n) node last = min (node + n) last
node_after (negsuc n) node last = max 1 (node - suc n)

abbrev pub left_after : ℤ → (node last : ℕ) → ℕ
left_after (pos n) node last = n - (last - node)
left_after (negsuc n) node last = suc n - (node - 1)

skip_nodes_lem :
    (count : ℤ) (i last : ℕ)
    → 0 < i
    → i ≤ last
    → skip_nodes count i last ≡ (left_after count i last, node_after count i last)
unfolding skip_nodes
skip_nodes_lem (pos n) i last h g = skip_up_lem n i last g
skip_nodes_lem (negsuc n) i last h g = skip_down_lem (suc n) i h

node_after-inside :
    (count : ℤ) (i last : ℕ)
    → 0 < i
    → i ≤ last
    → (0 < node_after count i last) × (node_after count i last ≤ last)
node_after-inside (pos n) i last h g = omega arith
node_after-inside (negsuc n) i last h g = omega arith

At-get : (vs : List Volume) (i : ℕ) → i < length vs → (v : Volume) × At vs i v
At-get [] i h = absurd (omega (arith, h))
At-get (v ∷ vs) zero h = (v, refl)
At-get (v ∷ vs) (suc i) h = At-get vs i (omega (arith, h))

-- What a skip does: the node `from` holds the segment of the position, and the new position is the
-- start of the node that is `count` nodes on from there.
pub record Skips (bad : ℕ → ℕ) (z : Zft) (count : ℤ) (p : Position) : Type 0 where
  pub from : ℕ
  pub held : Volume
  pub is_held : At (nodes z) from held
  pub starts : held.start_seg ≤ p.seg_pos
  pub ends : p.seg_pos ≤ held.end_seg
  pub volume : Volume
  pub is_target : At (nodes z) (node_after count from (eom_index z)) volume
  pub status : Status
  pub after : Zft
  pub position : Position
  pub result : skip_volumes bad z count p ≡ some (status, after, position)
  pub is_status : status ≡ (if left_after count from (eom_index z) == 0 then ok else einval)
  pub resid : after.resid ≡ left_after count from (eom_index z)
  pub seg_pos : position.seg_pos ≡ volume.start_seg
  pub in_volume : (position.seg_byte_pos ≡ 0) × (position.volume_pos ≡ 0)
  pub tape_pos :
      position.tape_pos ≡ start_of bad z.tape (min volume.start_seg (z.tape.last_data_segment + 1))
  pub tape : IsValid bad after.tape

finish :
    (bad : ℕ → ℕ) (z : Zft) (count : ℤ) (p : Position) (i left node : ℕ) (v : Volume)
    → find_segment z p.seg_pos ≡ some i
    → skip_nodes count i (eom_index z) ≡ (left, node)
    → At (nodes z) node v
    → skip_volumes bad z count p ≡ some (enter_volume bad (record z { cur = pointer z i }) p v left)
unfolding skip_volumes
finish bad z count p i left node v found skipped at =
    rw (found, skip_volumes)
      (rw skipped (
        rw at (
          ap (λ (q : ℕ × ℕ). some (enter_volume bad (record z { cur = pointer z i }) p v q.0))
            skipped)))

-- In a table whose volumes and `eom` take the segments from `lo` on without a gap, from a position
-- in one of these segments and with a valid cached tape position, zft_skip_volumes goes to the
-- start of the volume that is `count` volumes on, but not past `eom` or in front of the first; it
-- reports what is left of the count as the residual count, and an error if that is not 0.
pub skip_volumes-Skips :
    (bad : ℕ → ℕ) (lo : ℕ) (z : Zft) (count : ℤ) (p : Position)
    → IsTable lo z
    → IsValid bad z.tape
    → lo ≤ p.seg_pos
    → p.seg_pos ≤ z.eom.end_seg
    → Skips bad z count p
unfolding enter_volume tape_pos_of
skip_volumes-Skips bad lo z count p h valid from upto =
    let (k, held, found, at, starts, ends) = find_segment_lem lo z p.seg_pos h from upto in
    let last : ℕ = eom_index z in
    let few : suc k ≤ last =
      omega
        (arith, At-lt (z.volumes ++ z.eom ∷ []) k held at, length-append z.volumes (z.eom ∷ [])) in
    let inside = node_after-inside count (suc k) last (omega arith) few in
    let target =
      At-get (nodes z) (node_after count (suc k) last)
        (omega (arith, inside.1, length-append z.volumes (z.eom ∷ []))) in
    let v = target.0 in
    let z1 : Zft = record z { cur = pointer z (suc k) } in
    let left : ℕ = left_after count (suc k) last in
    let done = enter_volume bad z1 p v left in
    let moved = calc_tape_pos_lem bad z.tape v.start_seg valid in
    record {
      from = suc k;
      held = held;
      is_held = at;
      starts = starts;
      ends = ends;
      volume = v;
      is_target = target.1;
      status = done.0;
      after = done.1;
      position = done.2;
      result =
          finish bad z count p (suc k) left (node_after count (suc k) last) v found
            (skip_nodes_lem count (suc k) last (omega arith) few) target.1;
      is_status = refl;
      resid = refl;
      seg_pos = refl;
      in_volume = (refl, refl);
      tape_pos = moved.1;
      tape = moved.0;
    }
