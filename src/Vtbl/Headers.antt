-- ===== src/Vtbl/Headers.antt =====
-- The segment of the volume table: `zft_create_volume_headers` and `zft_extract_volume_headers` of
-- ftape/zftape/zftape-vtbl.c. The buffer holds `FT_SEGMENT_SIZE` bytes; what `memset` writes past
-- its end is dropped here and counted.
pub mod Clear
pub mod Tests
use ftape.Prelude.{
  ℕ, zero, suc, ◌+◌, ◌-◌, ◌*◌, ◌/◌, leb, ◌==◌, if◌then◌else◌, Bool, true, false, not, ◌&&◌, ◌||◌,
  List, [], ◌∷◌, ◌++◌, take, drop, get_or, replicate, map,
}
use ftape.Prelude.Words.{add_word}
use ftape.Zft.Position.{segment_size}
use ftape.Vtbl.Table.{
  Volume, blank, Zft, vtbl_entry_size, last_vtbl, init_vtbl, new_vtbl_entry, update_last,
}
use ftape.Vtbl.Entry.{put, bytes_at, same_bytes, vtbl_id, zft_sig, create_zft_volume}
use ftape.Vtbl.Entry.Extract.{extract_volume}

-- The repair of an offset that is too large.
unfoldable pub fit_offset : Volume → Volume
fit_offset v =
    if leb segment_size v.offset then record v { offset = segment_size - vtbl_entry_size } else v

-- What is on tape for a volume is written only when the volume is new.
unfoldable pub put_entry : (is_big qic113 : Bool) → Volume → (buffer : List ℕ) → List ℕ
unfolding put create_zft_volume
put_entry is_big qic113 v buffer =
    if v.new_volume then put v.offset (create_zft_volume is_big qic113 v) buffer else buffer

unfoldable pub put_entries : (is_big qic113 : Bool) → List Volume → (buffer : List ℕ) → List ℕ
unfolding put_entry fit_offset
put_entries is_big qic113 [] buffer = buffer
put_entries is_big qic113 (v ∷ volumes) buffer =
    put_entries is_big qic113 volumes (put_entry is_big qic113 (fit_offset v) buffer)

-- Where the pointer `entry` is after the loop.
unfoldable pub last_entry : List Volume → (entry : ℕ) → ℕ
unfolding fit_offset
last_entry [] entry = entry
last_entry (v ∷ volumes) entry = last_entry volumes (fit_offset v).offset

unfoldable pub written_volume : Volume → Volume
unfolding fit_offset
written_volume v = record (fit_offset v) { new_volume = false }

-- The entry of a compression map, tested by the first bytes of ZFT_SIG.
unfoldable pub is_cmap : (sig_size : ℕ) → (buffer : List ℕ) → Bool
unfolding same_bytes bytes_at
is_cmap sig_size buffer =
    same_bytes (bytes_at 58 sig_size buffer) (take sig_size zft_sig)
    && not (get_or buffer 70 0 == 0)

-- The other entries move to the start; the last one stays as well.
unfoldable pub delete_cmap : (buffer : List ℕ) → List ℕ
unfolding is_cmap
delete_cmap buffer =
    if is_cmap 10 buffer
    then drop vtbl_entry_size buffer ++ drop (segment_size - vtbl_entry_size) buffer
    else buffer

pub record Headers : Type 0 where
  pub buffer : List ℕ
  pub zft : Zft
  pub past_end : ℕ

unfoldable pub create_volume_headers : (is_big : Bool) → Zft → (buffer : List ℕ) → Headers
unfolding delete_cmap put_entries last_entry written_volume put
create_volume_headers is_big z buffer =
    let entry = last_entry z.volumes 0 + vtbl_entry_size in
    let cleared = segment_size - z.eom.count * vtbl_entry_size in
    record {
      buffer =
          put entry (replicate cleared 0)
            (put_entries is_big z.qic113 z.volumes (delete_cmap buffer));
      zft = record z { volumes = map written_volume z.volumes };
      past_end = entry + cleared - segment_size;
    }

-- "EXVT", "XTBL", "UTID"
abbrev pub exvt_id : List ℕ
exvt_id = 69 ∷ 88 ∷ 86 ∷ 84 ∷ []

abbrev pub xtbl_id : List ℕ
xtbl_id = 88 ∷ 84 ∷ 66 ∷ 76 ∷ []

abbrev pub utid_id : List ℕ
utid_id = 85 ∷ 84 ∷ 73 ∷ 68 ∷ []

module _ (is_big : Bool) (calc_tape_pos : ℕ → ℕ) where
  -- One volume more, from the entry at the offset; `prev_end` is `prev->end_seg`.
  unfoldable pub add_volume : (prev_end : ℕ) → (offset : ℕ) → (entry : List ℕ) → Zft → Zft
  unfolding new_vtbl_entry extract_volume last_vtbl
  add_volume prev_end offset entry z =
      let fill = λ (new : Volume).
        record (extract_volume calc_tape_pos is_big z.qic113 z.eom.start_seg entry new) {
          offset = offset;
        } in
      let added = new_vtbl_entry fill z in
      let last = last_vtbl added in
      record added {
        eom = record added.eom { start_seg = add_word last.end_seg 1 };
        vtbl_broken =
            z.vtbl_broken
            || leb last.start_seg prev_end
            || leb last.start_seg z.head.end_seg
            || leb z.eom.end_seg last.end_seg;
      }

  -- The loop; a round is an entry of the buffer.
  unfoldable pub extract_from :
      (rounds : ℕ) → (prev_end : ℕ) → (offset : ℕ) → (entries : List ℕ) → Zft → Zft
  unfolding add_volume bytes_at same_bytes last_vtbl
  extract_from zero prev_end offset entries z = z
  extract_from (suc rounds) prev_end offset entries z =
      let sig = bytes_at 0 4 entries in
      let next = offset + vtbl_entry_size in
      let others = drop vtbl_entry_size entries in
      let added = add_volume prev_end offset entries z in
      let skipped = extract_from rounds prev_end next others z in
      let rest = extract_from rounds (last_vtbl added).end_seg next others added in
      if same_bytes sig exvt_id
      then record z { exvt_extension = true }
      else if same_bytes sig xtbl_id
      then skipped
      else if same_bytes sig utid_id
      then skipped
      else if not (same_bytes sig vtbl_id)
      then z
      else rest

  -- The loop starts behind the entry of a compression map.
  unfoldable pub extract_after : (has_cmap : Bool) → (entries : ℕ) → Zft → (buffer : List ℕ) → Zft
  extract_after true entries z buffer =
      extract_from (entries - 1) z.head.end_seg vtbl_entry_size (drop vtbl_entry_size buffer) z
  extract_after false entries z buffer = extract_from entries z.head.end_seg 0 buffer z

  unfoldable pub extract_volume_headers : Zft → (buffer : List ℕ) → Zft
  unfolding extract_after init_vtbl is_cmap
  extract_volume_headers z buffer =
      extract_after (is_cmap 9 buffer) (segment_size / vtbl_entry_size) (init_vtbl z) buffer
