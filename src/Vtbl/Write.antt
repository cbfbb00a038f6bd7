-- ===== src/Vtbl/Write.antt =====
-- Writing volumes: `zft_open_volume`, `zft_close_volume`, `zft_weof`, `zft_move_past_eof`,
-- `zft_get_eom_pos`, `zft_skip_to_eom` and `zft_reset_position` (ftape/zftape/zftape-vtbl.c,
-- ftape/zftape/zftape-ctl.c), with `zft_clear_ftape_file_marks` (ftape/zftape/zftape-eof.c) as far
-- as its state is concerned. The deblock buffer and the decompressor, which these release and
-- reset, are left out.
pub mod Append
pub mod Invariant
pub mod Open
pub mod Close
pub mod Marks
use ftape.Prelude.{
  ℕ, zero, suc, ◌+◌, ◌-◌, ◌*◌, ◌/◌, ◌^◌, ltb, leb, ◌==◌, if◌then◌else◌, Bool, true, false, not,
  ◌&&◌, ◌||◌, List, [], ◌∷◌, ◌++◌, length, Option, none, some,
}
use ftape.Prelude.Words.{add_word, minus_one}
use ftape.Zft.Position.{Tape, get_seg_sz, segment_size}
use ftape.Vtbl.Table.{
  Volume, Zft, Position, Status, ok, eio, enospc, einval, vtbl_entry_size, last_vtbl, update_last,
  new_vtbl_entry, init_vtbl, tape_at_lbot, tape_pos_of, space_between,
}
use ftape.Vtbl.Lookup.{volume_by_segpos}

-- ZFT_MAX_VOLUMES
abbrev pub max_volumes : Zft → ℕ
max_volumes z = z.vtbl_size / vtbl_entry_size

-- `zft_clear_ftape_file_marks`, called for a tape of the old ftape, which it no longer is then.
unfoldable pub forget_old_ftape : Zft → Zft
forget_old_ftape z = record z {
  nr_eof_marks = if z.old_ftape then 0 else z.nr_eof_marks;
  header_changed = z.old_ftape || z.header_changed;
  old_ftape = false;
}

-- The offset of the entry behind the last one.
abbrev pub next_offset : Zft → ℕ
next_offset z = add_word (last_vtbl z).offset vtbl_entry_size

-- The fields of a new volume that is open until it is closed.
unfoldable pub open_entry : Zft → Position → (blk_sz : ℕ) → Volume → Volume
open_entry z p blk_sz v = record v {
  start_seg = p.seg_pos;
  end_seg = z.tape.last_data_segment;
  blk_sz = blk_sz;
  size = z.tape.capacity;
  zft_volume = true;
  use_compression = false;
  qic113 = z.qic113;
  offset = next_offset z;
  version = if z.qic113 then 2 else 0;
  new_volume = true;
  is_open = true;
}

-- The fields of an empty volume, that is a file mark.
unfoldable pub mark_entry : Zft → Position → Volume → Volume
mark_entry z p v = record v {
  start_seg = p.seg_pos;
  end_seg = p.seg_pos;
  size = 0;
  blk_sz = z.blk_sz;
  zft_volume = true;
  use_compression = false;
  qic113 = z.qic113;
  offset = next_offset z;
  version = if z.qic113 then 2 else 0;
  new_volume = true;
}

-- The part of `zft_open_volume` after the reset at the beginning of the tape.
unfoldable pub append_open : Zft → Position → (blk_sz : ℕ) → Status × Zft × Position
unfolding last_vtbl new_vtbl_entry open_entry
append_open z p blk_sz =
    let created = new_vtbl_entry (open_entry z p blk_sz) z in
    if not (p.seg_pos == add_word (last_vtbl z).end_seg 1)
    then (eio, z, p)
    else if leb (max_volumes z) z.eom.count
    then (enospc, z, p)
    else if leb segment_size (next_offset z)
    then (eio, z, p)
    else (
      ok,
      record created {
        volume_table_changed = true;
        eom = record created.eom { start_seg = z.tape.last_data_segment + 1 };
      },
      record p { volume_pos = 0; seg_byte_pos = 0 },
    )

-- `zft_open_volume` at the beginning of the tape, after the reset.
unfoldable pub open_first :
    Option (Zft × Position) → (blk_sz : ℕ) → Option (Status × Zft × Position)
unfolding append_open
open_first none blk_sz = none
open_first (some (z, p)) blk_sz = some (append_open z p blk_sz)

-- The fields that closing a volume writes.
unfoldable pub close_entry : Position → (space : ℕ) → Volume → Volume
close_entry p space v = record v {
  end_seg = p.seg_pos;
  size = p.volume_pos;
  rawsize = space;
  is_open = false;
}

-- The end of `zft_weof`, which reports the marks that are not written.
unfoldable pub report_marks : ℕ × Bool × Zft × Position → Status × Zft × Position
report_marks (count, no_room, z, p) =
    if no_room
    then (eio, z, p)
    else if count == 0
    then (ok, z, p)
    else (if z.eom.count == max_volumes z then einval else enospc, record z { resid = count }, p)

module _ (bad : ℕ → ℕ) where
  -- The position at the start of the first volume. `none` is a lookup that runs off the list.
  unfoldable pub go_to : Option (Zft × Volume) → Option (Zft × Position)
  unfolding tape_pos_of
  go_to none = none
  go_to (some (z, v)) =
      let (z', tape_pos) = tape_pos_of bad z v.start_seg in
      some (
        record z' { just_before_eof = false },
        record { seg_pos = v.start_seg; seg_byte_pos = 0; tape_pos = tape_pos; volume_pos = 0 },
      )

  unfoldable pub reset_position : Zft → Option (Zft × Position)
  unfolding go_to
  reset_position z =
      if z.vtbl_read || (z.header_read && not z.qic_mode)
      then go_to (volume_by_segpos z 0)
      else some (
        record z { just_before_eof = false },
        record { seg_pos = minus_one; seg_byte_pos = 0; tape_pos = 0; volume_pos = 0 },
      )

  unfoldable pub open_volume : Zft → Position → (blk_sz : ℕ) → Option (Status × Zft × Position)
  unfolding tape_at_lbot init_vtbl forget_old_ftape reset_position open_first append_open
  open_volume z p blk_sz =
      if not z.qic_mode
      then some (ok, z, p)
      else if tape_at_lbot z p
      then open_first (reset_position (forget_old_ftape (init_vtbl z))) blk_sz
      else some (append_open z p blk_sz)

  -- The position in front of the file mark: at the end of a segment rather than at the start of
  -- the next one.
  unfoldable pub before_mark : Zft → Position → Position
  unfolding last_vtbl
  before_mark z p =
      if p.seg_byte_pos == 0 && not (p.seg_pos == (last_vtbl z).start_seg)
      then record p {
        seg_pos = p.seg_pos - 1;
        seg_byte_pos = get_seg_sz bad z.tape (p.seg_pos - 1);
      }
      else p

  -- The table with the last volume ended at the position.
  unfoldable pub end_volume : Zft → Position → Zft
  unfolding last_vtbl space_between update_last close_entry
  end_volume z p =
      let (z1, space) = space_between bad z (last_vtbl z).start_seg (p.seg_pos + 1) in
      record z1 {
        volumes = update_last (close_entry p space) z.volumes;
        eom = record z.eom { start_seg = p.seg_pos + 1 };
        volume_table_changed = true;
        just_before_eof = true;
      }

  unfoldable pub close_volume : Zft → Position → Status × Zft × Position
  unfolding last_vtbl before_mark end_volume
  close_volume z p =
      if length z.volumes == 0 || not (last_vtbl z).is_open
      then (eio, z, p)
      else (ok, end_volume z (before_mark z p), before_mark z p)

  unfoldable pub move_past_eof : Zft → Position → Zft × Position
  move_past_eof z p = (
    record z { just_before_eof = false },
    record {
      tape_pos = p.tape_pos + get_seg_sz bad z.tape p.seg_pos - p.seg_byte_pos;
      seg_pos = p.seg_pos + 1;
      seg_byte_pos = 0;
      volume_pos = 0;
    },
  )

  -- The loop of `zft_weof`: the marks that are left, and whether the table has no room for an entry.
  unfoldable pub append_marks : (count : ℕ) → Zft → Position → ℕ × Bool × Zft × Position
  append_marks zero z p = (0, false, z, p)
  append_marks (suc n) z p =
      let created = new_vtbl_entry (mark_entry z p) z in
      let rest =
        append_marks n (record created { eom = record created.eom { start_seg = p.seg_pos + 1 } })
          (record p {
            tape_pos = p.tape_pos + get_seg_sz bad z.tape p.seg_pos;
            seg_pos = p.seg_pos + 1;
          }) in
      if leb p.seg_pos z.tape.last_data_segment && ltb z.eom.count (max_volumes z)
      then if leb segment_size (next_offset z) then (suc n, true, z, p) else rest
      else (suc n, false, z, p)

  -- An open volume is closed by the first mark.
  unfoldable pub close_and_mark : Zft → (count : ℕ) → Position → Status × Zft × Position
  unfolding close_volume move_past_eof append_marks report_marks
  close_and_mark z count p =
      let (status, z1, p1) = close_volume z p in
      let (z2, p2) = move_past_eof z1 p1 in report_marks (append_marks (count - 1) z2 p2)

  unfoldable pub write_marks : Zft → (count : ℕ) → Position → Status × Zft × Position
  unfolding last_vtbl close_and_mark append_marks report_marks
  write_marks z count p =
      if (last_vtbl z).is_open
      then close_and_mark z count p
      else report_marks (append_marks count z p)

  unfoldable pub weof : Zft → (count : ℕ) → Position → Status × Zft × Position
  unfolding tape_at_lbot init_vtbl forget_old_ftape write_marks
  weof z count p =
      let changed = record z { volume_table_changed = true } in
      if count == 0
      then (ok, z, p)
      else write_marks (if tape_at_lbot z p then forget_old_ftape (init_vtbl changed) else changed)
          count p

  unfoldable pub get_eom_pos : Zft → Zft × ℕ
  unfolding tape_pos_of
  get_eom_pos z = if z.qic_mode then tape_pos_of bad z z.eom.start_seg else (z, z.tape.capacity)

  unfoldable pub skip_to_eom : Zft → Zft × Position
  unfolding tape_pos_of
  skip_to_eom z =
      let (z', tape_pos) = tape_pos_of bad z z.eom.start_seg in
      (
        record z' { just_before_eof = false },
        record { seg_pos = z.eom.start_seg; seg_byte_pos = 0; tape_pos = tape_pos; volume_pos = 0 },
      )
