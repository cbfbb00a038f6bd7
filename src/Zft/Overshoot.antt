-- ===== src/Zft/Overshoot.antt =====
-- The sectors that hard write errors have moved out of their segments: `zft_zap_write_buffers` and
-- `empty_hard_error_list` of ftape/zftape/zftape-write.c. The list is that of the sectors, oldest
-- first; what is free of a segment is its size less the position in it.
pub mod Laws
pub mod Tests
use ftape.Prelude.{
  ℕ, zero, suc, ◌+◌, ◌-◌, ◌%◌, ltb, ◌==◌, if◌then◌else◌, Bool, true, false, not, List, [], ◌∷◌,
  length,
}

-- The fields of `zftape_info_t` and `zft_position` that are used, and the deblock buffer.
pub record Pending : Type 0 where
  pub hard_errors : List (List ℕ)
  pub hard_error_cnt : ℕ
  pub capacity : ℕ
  pub tape_pos : ℕ
  pub seg_byte_pos : ℕ
  pub buffer : List ℕ

-- FT_SECTOR_SIZE
abbrev pub sector_size : ℕ
sector_size = 1024

-- 0, -EIO, -ENOSPC
pub data Outcome : Type 0 where
  ok : Outcome
  eio : Outcome
  enospc : Outcome

-- `memcpy` into the buffer; what lies past its end is dropped.
unfoldable pub copy_to : (offset : ℕ) → List ℕ → (buffer : List ℕ) → List ℕ
copy_to zero [] buffer = buffer
copy_to zero (b ∷ bs) [] = []
copy_to zero (b ∷ bs) (x ∷ buffer) = b ∷ copy_to zero bs buffer
copy_to (suc offset) bs [] = []
copy_to (suc offset) bs (x ∷ buffer) = x ∷ copy_to offset bs buffer

unfoldable pub zap_write_buffers : Pending → Pending
zap_write_buffers p = record p {
  hard_errors = [];
  hard_error_cnt = p.hard_error_cnt - length p.hard_errors;
}

-- A sector goes from the list to the buffer.
unfoldable pub place : (sector : List ℕ) → (others : List (List ℕ)) → Pending → Pending
unfolding copy_to
place sector others p = record p {
  hard_errors = others;
  hard_error_cnt = p.hard_error_cnt - 1;
  buffer = copy_to p.seg_byte_pos sector p.buffer;
  seg_byte_pos = p.seg_byte_pos + sector_size;
}

-- The loop, for the list of `hard_errors`.
unfoldable pub empty_from :
    (seg_sz : ℕ) → (hard_errors : List (List ℕ)) → Pending → Outcome × Pending
unfolding place zap_write_buffers
empty_from seg_sz [] p = (ok, p)
empty_from seg_sz (sector ∷ others) p =
    let rest = empty_from seg_sz others (place sector others p) in
    if not (seg_sz % sector_size == p.seg_byte_pos % sector_size)
    then (eio, p)
    else if ltb seg_sz (p.seg_byte_pos + sector_size)
    then (ok, p)
    else if ltb p.capacity (p.tape_pos + sector_size)
    then (enospc, zap_write_buffers p)
    else rest

unfoldable pub empty_hard_error_list : (seg_sz : ℕ) → Pending → Outcome × Pending
unfolding empty_from
empty_hard_error_list seg_sz p = empty_from seg_sz p.hard_errors p
