-- ===== src/Vtbl/Entry.antt =====
-- The entry of a volume on tape: `create_zft_volume` of ftape/zftape/zftape-vtbl.c. An entry is the list of its bytes; numbers are stored with the
-- lowest byte first. `count` is below 1000.
pub mod Extract
pub mod Laws
pub mod Tests
use ftape.Prelude.{
  ℕ, zero, suc, ◌+◌, ◌-◌, ◌*◌, ◌/◌, ◌%◌, ◌^◌, bit_and, bit_or, leb, ltb, ◌==◌, if◌then◌else◌, Bool,
  true, false, not, ◌&&◌, Option, none, some, List, [], ◌∷◌, ◌++◌, take, drop, replicate, get_or,
  length,
}
use ftape.Prelude.Words.{add_word, sub_word}
use ftape.Vtbl.Table.{Volume, vtbl_entry_size}

unfoldable pub to_bytes : (n : ℕ) → ℕ → List ℕ
to_bytes zero v = []
to_bytes (suc n) v = v % 256 ∷ to_bytes n (v / 256)

unfoldable pub from_bytes : List ℕ → ℕ
from_bytes [] = 0
from_bytes (b ∷ bs) = b + 256 * from_bytes bs

-- Bytes written at an offset; what lies past the end is dropped.
unfoldable pub put : (offset : ℕ) → List ℕ → List ℕ → List ℕ
put zero [] entry = entry
put zero (b ∷ bs) [] = []
put zero (b ∷ bs) (x ∷ entry) = b ∷ put zero bs entry
put (suc offset) bs [] = []
put (suc offset) bs (x ∷ entry) = x ∷ put offset bs entry

unfoldable pub bytes_at : (offset n : ℕ) → List ℕ → List ℕ
bytes_at offset n entry = take n (drop offset entry)

unfoldable pub get : (offset n : ℕ) → List ℕ → ℕ
unfolding from_bytes bytes_at
get offset n entry = from_bytes (bytes_at offset n entry)

unfoldable pub same_bytes : List ℕ → List ℕ → Bool
same_bytes [] [] = true
same_bytes [] (y ∷ ys) = false
same_bytes (x ∷ xs) [] = false
same_bytes (x ∷ xs) (y ∷ ys) = x == y && same_bytes xs ys

-- VTBL_ID, ZFT_SIG, ZFT_SIG2, ZFT_VOL_NAME
abbrev pub vtbl_id : List ℕ
vtbl_id = 86 ∷ 84 ∷ 66 ∷ 76 ∷ []

abbrev pub zft_sig : List ℕ
zft_sig = 76 ∷ 73 ∷ 78 ∷ 85 ∷ 88 ∷ 32 ∷ 90 ∷ 70 ∷ 84 ∷ 0 ∷ []

abbrev pub zft_sig2 : List ℕ
zft_sig2 = 90 ∷ 70 ∷ 84 ∷ []

abbrev pub zft_vol_name : List ℕ
zft_vol_name = 122 ∷ 102 ∷ 116 ∷ 97 ∷ 112 ∷ 101 ∷ 32 ∷ 118 ∷ 111 ∷ 108 ∷ 117 ∷ 109 ∷ 101 ∷ []

-- The label, padded by blanks.
unfoldable pub description : (count : ℕ) → List ℕ
description count =
    zft_vol_name
    ++ (32 ∷ (48 + count / 100) ∷ (48 + count / 10 % 10) ∷ (48 + count % 10) ∷ [])
    ++ replicate 27 32

-- VTBL_CMPR_UNREG, with VTBL_CMPR_USED for a volume that is compressed
unfoldable pub cmpr_byte : Bool → ℕ
cmpr_byte use_compression = if use_compression then bit_or 0x3f 0x80 else 0x3f

module _ (is_big : Bool) where
  unfoldable pub put_extension : Volume → List ℕ → List ℕ
  unfolding put to_bytes
  put_extension v entry =
      if is_big
      then put 66 (to_bytes 2 v.blk_sz) (put 65 (2 ∷ []) (put 62 zft_sig2 entry))
      else put 68 (to_bytes 2 v.blk_sz) (put 58 zft_sig entry)

  unfoldable pub put_data_size : (qic113 : Bool) → Volume → List ℕ → List ℕ
  unfolding put to_bytes cmpr_byte
  put_data_size qic113 v entry =
      if not qic113
      then put 120 (cmpr_byte v.use_compression ∷ []) (put 96 (to_bytes 4 v.size) entry)
      else if is_big
      then put 124 (cmpr_byte v.use_compression ∷ []) (put 96 (to_bytes 8 v.size) entry)
      else put 71 (1 ∷ [])
          (put 124 (cmpr_byte v.use_compression ∷ []) (put 96 (to_bytes 8 v.size) entry))

  unfoldable pub put_segments : Volume → List ℕ → List ℕ
  unfolding put to_bytes
  put_segments v entry =
      if is_big
      then put 80 (to_bytes 4 v.end_seg) (
          put 76 (to_bytes 4 v.start_seg) (
            put 4 (to_bytes 4 (add_word (sub_word v.end_seg v.start_seg) 1))
              (put 60 (to_bytes 2 7) (put 58 (to_bytes 2 113) entry))))
      else put 6 (to_bytes 2 v.end_seg) (put 4 (to_bytes 2 v.start_seg) entry)

  unfoldable pub create_zft_volume : (qic113 : Bool) → Volume → List ℕ
  unfolding put_extension put_data_size put_segments description put
  create_zft_volume qic113 v =
      let entry = put 57 (1 ∷ []) (
        put 56 (0x14 ∷ [])
          (put 8 (description v.count) (put 0 vtbl_id (replicate vtbl_entry_size 0)))) in
      put_segments v (put_data_size qic113 v (put_extension v entry))
