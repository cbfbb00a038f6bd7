-- ===== src/Vtbl/Entry/Extract.antt =====
-- What is read from the entry of a volume: `check_volume_label`, `get_type_and_block_size`,
-- `extract_segment_range`, `extract_zft_volume` and `extract_alien_volume` of
-- ftape/zftape/zftape-vtbl.c. The number that
-- a label holds is unbounded here, where the source has an `int`.
use ftape.Prelude.{
  ℕ, ◌+◌, ◌-◌, ◌*◌, ◌%◌, ◌^◌, bit_and, leb, ltb, ◌==◌, if◌then◌else◌, Bool, true, false, not, ◌&&◌,
  Option, none, some, List, [], ◌∷◌, drop, length,
}
use ftape.Prelude.Words.{add_word, sub_word}
use ftape.Vtbl.Table.{Volume}
use ftape.Vtbl.Entry.{get, bytes_at, same_bytes, zft_sig, zft_sig2, zft_vol_name}

-- " blocksize "
abbrev pub blocksize_word : List ℕ
blocksize_word = 32 ∷ 98 ∷ 108 ∷ 111 ∷ 99 ∷ 107 ∷ 115 ∷ 105 ∷ 122 ∷ 101 ∷ 32 ∷ []

-- `strstr`: what follows the first " blocksize " in front of the end of the text.
unfoldable pub after_blocksize : (text : List ℕ) → Option (List ℕ)
unfolding same_bytes bytes_at
after_blocksize [] = none
after_blocksize (c ∷ text) =
    let rest = after_blocksize text in
    if c == 0
    then none
    else if same_bytes (bytes_at 0 (length blocksize_word) (c ∷ text)) blocksize_word
    then some (drop (length blocksize_word) (c ∷ text))
    else rest

-- The decimal number at the start of a text.
unfoldable pub number_from : (value : ℕ) → (text : List ℕ) → ℕ
number_from value [] = value
number_from value (c ∷ text) =
    let rest = number_from (value * 10 + (c - 48)) text in
    if leb 48 c && leb c 57 then rest else value

-- ZFT_MAX_BLK_SZ
abbrev pub max_blk_sz : ℕ
max_blk_sz = 62 * 1024

unfoldable pub label_size : (found : Option (List ℕ)) → Bool × ℕ
unfolding number_from
label_size none = (false, 1024)
label_size (some digits) =
    let blk_sz = number_from 0 digits in
    if ltb max_blk_sz blk_sz then (false, 1) else (true, blk_sz)

-- Whether the format is valid, and the size of a block.
unfoldable pub check_volume_label : (label : List ℕ) → Bool × ℕ
unfolding same_bytes bytes_at after_blocksize label_size
check_volume_label label =
    if not (same_bytes (bytes_at 0 (length zft_vol_name) label) zft_vol_name)
    then (false, 1024)
    else label_size (after_blocksize label)

-- A volume of the old style.
unfoldable pub old_style : (checked : Bool × ℕ) → Volume → Bool × Volume
old_style (valid, blk_sz) v = (valid, record v { version = 0; blk_sz = blk_sz })

module _ (is_big : Bool) where
  -- Whether the volume is one of zftape, and the volume.
  unfoldable pub get_type_and_block_size : (entry : List ℕ) → Volume → Bool × Volume
  unfolding get bytes_at same_bytes old_style check_volume_label
  get_type_and_block_size entry v =
      if same_bytes (bytes_at 58 10 entry) zft_sig
      then (
        true,
        record v { blk_sz = get 68 2 entry; qic113 = not (get 71 1 entry == 0); version = 1 },
      )
      else if is_big && same_bytes (bytes_at 62 3 entry) zft_sig2
      then (true, record v { version = get 65 1 entry; blk_sz = get 66 2 entry; qic113 = true })
      else old_style (check_volume_label (drop 8 entry)) v

  -- The range of segments; `eom_start` is `start_seg` of `zft_eom_vtbl`.
  unfoldable pub extract_segment_range : (eom_start : ℕ) → Volume → (entry : List ℕ) → Volume
  unfolding get bytes_at
  extract_segment_range eom_start v entry =
      if is_big
      then if v.zft_volume && v.version == 1
        then record v {
          start_seg = eom_start;
          end_seg = sub_word (add_word eom_start (get 4 4 entry)) 1;
        }
        else record v { start_seg = get 76 4 entry; end_seg = get 80 4 entry }
      else record v { start_seg = get 4 2 entry; end_seg = get 6 2 entry }

-- VTBL_CMPR_USED
unfoldable pub is_used : ℕ → Bool
is_used byte = not (bit_and byte 0x80 == 0)

unfoldable pub extract_size : (entry : List ℕ) → Volume → Volume
unfolding get bytes_at is_used
extract_size entry v =
    if v.qic113
    then record v { size = get 96 8 entry; use_compression = is_used (get 124 1 entry) }
    else if not (bit_and (get 120 1 entry) 0x3f == 0)
    then record v { size = get 96 4 entry; use_compression = is_used (get 120 1 entry) }
    else if not (bit_and (get 124 1 entry) 0x3f == 0)
    then record v { size = get 96 4 entry; use_compression = is_used (get 124 1 entry) }
    else record v { size = get 96 4 entry }

-- The difference of two positions, which the source keeps in 64 bits.
abbrev pub sub_off : ℕ → ℕ → ℕ
sub_off a b = (a + (2 ^ 64 - b)) % 2 ^ 64

module _ (calc_tape_pos : ℕ → ℕ) where
  -- The size on tape is the difference of the positions of both ends.
  unfoldable pub raw_size : Volume → ℕ
  raw_size v = sub_off (calc_tape_pos (add_word v.end_seg 1)) (calc_tape_pos v.start_seg)

  unfoldable pub extract_zft_volume : (entry : List ℕ) → Volume → Volume
  unfolding extract_size raw_size
  extract_zft_volume entry v =
      let sized = extract_size entry v in record sized { rawsize = raw_size sized }

  unfoldable pub extract_alien_volume : (qic113 : Bool) → Volume → Volume
  unfolding raw_size
  extract_alien_volume qic113 v = record v {
    rawsize = raw_size v;
    size = raw_size v;
    use_compression = false;
    qic113 = qic113;
  }

  -- The rest of what `zft_extract_volume_headers` reads of an entry.
  unfoldable pub extract_rest :
      (is_big qic113 : Bool) → (eom_start : ℕ) → (entry : List ℕ) → (typed : Bool × Volume) → Volume
  unfolding extract_segment_range extract_zft_volume extract_alien_volume
  extract_rest is_big qic113 eom_start entry (valid, v) =
      let ranged = extract_segment_range is_big eom_start (record v { zft_volume = valid }) entry in
      if not valid then extract_alien_volume qic113 ranged else extract_zft_volume entry ranged

  -- The new volume that `zft_extract_volume_headers` makes of an entry.
  unfoldable pub extract_volume :
      (is_big qic113 : Bool) → (eom_start : ℕ) → (entry : List ℕ) → Volume → Volume
  unfolding extract_rest get_type_and_block_size
  extract_volume is_big qic113 eom_start entry new =
      extract_rest is_big qic113 eom_start entry (get_type_and_block_size is_big entry new)
