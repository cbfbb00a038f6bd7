-- ===== src/Vtbl/Entry/Laws.antt =====
-- An entry that was created is read again (ftape/zftape/zftape-vtbl.c).
use ftape.Prelude.{
  ℕ, zero, suc, ◌*◌, ◌/◌, ◌^◌, ◌<◌, bit_and, ◌==◌, Bool, true, false, [], ◌∷◌, ◌≡◌, refl, arith,
}
use native.Mathlib.Numerals.{unary_clauses}
use ftape.Vtbl.Table.{Volume}
use ftape.Vtbl.Entry.{
  to_bytes, from_bytes, put, bytes_at, get, same_bytes, description, cmpr_byte, put_extension,
  put_data_size, put_segments, create_zft_volume,
}
use ftape.Vtbl.Entry.Extract.{
  get_type_and_block_size, extract_segment_range, extract_size, is_used, extract_zft_volume,
  extract_rest, extract_volume,
}

from_to_bytes : (n v : ℕ) → v < 256 ^ n → from_bytes (to_bytes n v) ≡ v
unfolding from_bytes to_bytes
from_to_bytes zero v h = omega (arith, h)
from_to_bytes (suc n) v h =
    let bound : v < 256 ^ n * 256 = simp unary_clauses at h in
    rw (from_to_bytes n (v / 256) (omega (arith, bound))) (omega arith)

-- The fields of a volume that its entry keeps.
pub record Restores (v w : Volume) : Type 0 where
  pub is_zft : w.zft_volume ≡ true
  pub same_start : w.start_seg ≡ v.start_seg
  pub same_end : w.end_seg ≡ v.end_seg
  pub same_blk_sz : w.blk_sz ≡ v.blk_sz
  pub same_size : w.size ≡ v.size
  pub same_compression : w.use_compression ≡ v.use_compression

-- What the fields of an entry of the format can hold.
abbrev pub Fits : (is_big qic113 : Bool) → Volume → Type 0
Fits true qic113 v =
    (qic113 ≡ true)
    × (v.blk_sz < 256 ^ 2)
    × (v.start_seg < 256 ^ 4)
    × (v.end_seg < 256 ^ 4)
    × (v.size < 256 ^ 8)
Fits false true v =
    (v.blk_sz < 256 ^ 2) × (v.start_seg < 256 ^ 2) × (v.end_seg < 256 ^ 2) × (v.size < 256 ^ 8)
Fits false false v =
    (v.blk_sz < 256 ^ 2) × (v.start_seg < 256 ^ 2) × (v.end_seg < 256 ^ 2) × (v.size < 256 ^ 4)

used_cmpr_byte : (b : Bool) → is_used (from_bytes (cmpr_byte b ∷ [])) ≡ b
unfolding is_used cmpr_byte from_bytes
used_cmpr_byte true = refl
used_cmpr_byte false = refl

registered_cmpr_byte : (b : Bool) → (bit_and (from_bytes (cmpr_byte b ∷ [])) 0x3f == 0) ≡ false
unfolding cmpr_byte from_bytes
registered_cmpr_byte true = refl
registered_cmpr_byte false = refl

-- A volume whose numbers fit into an entry of the format keeps its segments, its size, the size of
-- its blocks and its compression, as a volume of zftape, when create_zft_volume has written the
-- entry and the functions that zft_extract_volume_headers calls read it again.
pub create_zft_volume-Restores :
    (is_big qic113 : Bool) (calc_tape_pos : ℕ → ℕ) (eom_start : ℕ) (v new : Volume)
    → Fits is_big qic113 v
    → Restores v (
        extract_volume calc_tape_pos is_big qic113 eom_start
          (create_zft_volume is_big qic113 v)
          new)
unfolding create_zft_volume put_extension put_data_size put_segments description put bytes_at
    same_bytes extract_volume extract_rest get_type_and_block_size extract_segment_range
    extract_zft_volume extract_size get
create_zft_volume-Restores true true pos eom_start v new fits = record {
  is_zft = refl;
  same_start = from_to_bytes 4 v.start_seg fits.2;
  same_end = from_to_bytes 4 v.end_seg fits.3;
  same_blk_sz = from_to_bytes 2 v.blk_sz fits.1;
  same_size = from_to_bytes 8 v.size fits.4;
  same_compression = used_cmpr_byte v.use_compression;
}
create_zft_volume-Restores true false pos eom_start v new fits = absurd (ground (arith, fits.0))
create_zft_volume-Restores false true pos eom_start v new fits = record {
  is_zft = refl;
  same_start = from_to_bytes 2 v.start_seg fits.1;
  same_end = from_to_bytes 2 v.end_seg fits.2;
  same_blk_sz = from_to_bytes 2 v.blk_sz fits.0;
  same_size = from_to_bytes 8 v.size fits.3;
  same_compression = used_cmpr_byte v.use_compression;
}
create_zft_volume-Restores false false pos eom_start v new fits =
    rw (registered_cmpr_byte v.use_compression) (record {
      is_zft = refl;
      same_start = from_to_bytes 2 v.start_seg fits.1;
      same_end = from_to_bytes 2 v.end_seg fits.2;
      same_blk_sz = from_to_bytes 2 v.blk_sz fits.0;
      same_size = from_to_bytes 4 v.size fits.3;
      same_compression = used_cmpr_byte v.use_compression;
    })
