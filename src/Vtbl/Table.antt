-- ===== src/Vtbl/Table.antt =====
-- The volume table in memory and the small operations on it: `zft_new_vtbl_entry`,
-- `zft_init_vtbl`, `zft_volume_size`, `zft_block_size`, `zft_div_blksz`, `zft_tape_at_eod`,
-- `zft_vtbl_soft_ro` and `zft_position_before_eof` (ftape/zftape/zftape-vtbl.c,
-- ftape/zftape/zftape-inline.h, include/linux/zftape.h).
--
-- The list of nodes is `head`, the volumes from the first to the last, and `eom`. The pointer
-- `cur_vtbl` is `none` at `eom` and `some i` at the node number `i`, where `head` is number 0.
use ftape.Prelude.{
  ℕ, ◌+◌, ◌-◌, ◌/◌, ◌^◌, ltb, leb, ◌==◌, if◌then◌else◌, Bool, true, false, not, ◌&&◌, ◌||◌, List,
  [], ◌∷◌, ◌++◌, Option, none, some,
}
use ftape.Prelude.Words.{add_word, sub_word, minus_one}
use ftape.Zft.Position.{Tape, get_seg_sz, first_segment, calc_tape_pos}

-- `zft_volinfo`
pub record Volume : Type 0 where
  pub count : ℕ
  pub start_seg : ℕ
  pub end_seg : ℕ
  pub size : ℕ
  pub rawsize : ℕ
  pub blk_sz : ℕ
  pub version : ℕ
  pub offset : ℕ
  pub zft_volume : Bool
  pub use_compression : Bool
  pub qic113 : Bool
  pub new_volume : Bool
  pub is_open : Bool

-- The fields of `zftape_info_t` that the volume table uses.
pub record Zft : Type 0 where
  pub tape : Tape
  pub qic_mode : Bool
  pub qic113 : Bool
  pub use_compression : Bool
  pub header_read : Bool
  pub vtbl_read : Bool
  pub old_ftape : Bool
  pub exvt_extension : Bool
  pub vtbl_broken : Bool
  pub header_changed : Bool
  pub volume_table_changed : Bool
  pub just_before_eof : Bool
  pub blk_sz : ℕ
  pub vtbl_size : ℕ
  pub nr_eof_marks : ℕ
  pub resid : ℕ
  pub head : Volume
  pub volumes : List Volume
  pub eom : Volume
  pub cur : Option ℕ
  pub tape_vtbl : Volume
  pub eot_vtbl : Volume

-- `zft_position`; `seg_pos` is the word of an `int`.
pub record Position : Type 0 where
  pub seg_pos : ℕ
  pub seg_byte_pos : ℕ
  pub tape_pos : ℕ
  pub volume_pos : ℕ

-- What the operations return.
pub data Status : Type 0 where
  ok : Status
  eio : Status
  enospc : Status
  einval : Status

-- VTBL_SIZE
abbrev pub vtbl_entry_size : ℕ
vtbl_entry_size = 128

-- A zeroed entry from the allocator.
abbrev pub blank : Volume
blank = record {
  count = 0;
  start_seg = 0;
  end_seg = 0;
  size = 0;
  rawsize = 0;
  blk_sz = 0;
  version = 0;
  offset = 0;
  zft_volume = false;
  use_compression = false;
  qic113 = false;
  new_volume = false;
  is_open = false;
}

-- The first node of a list, and the last.
abbrev pub first_or : List Volume → Volume → Volume
first_or [] d = d
first_or (v ∷ vs) d = v

abbrev pub last_or : Volume → List Volume → Volume
last_or d [] = d
last_or d (v ∷ vs) = last_or v vs

-- `zft_first_vtbl` and `zft_last_vtbl`
unfoldable pub first_vtbl : Zft → Volume
first_vtbl z = first_or z.volumes z.eom

unfoldable pub last_vtbl : Zft → Volume
last_vtbl z = last_or z.head z.volumes

unfoldable pub update_last : (Volume → Volume) → List Volume → List Volume
update_last f [] = []
update_last f (v ∷ []) = f v ∷ []
update_last f (v ∷ w ∷ vs) = v ∷ update_last f (w ∷ vs)

-- `zft_new_vtbl_entry`: the new entry, filled by `f`, comes in front of `eom`.
unfoldable pub new_vtbl_entry : (Volume → Volume) → Zft → Zft
new_vtbl_entry f z = record z {
  volumes = z.volumes ++ f (record blank { count = z.eom.count }) ∷ [];
  eom = record z.eom { count = z.eom.count + 1 };
}

unfoldable pub init_vtbl : Zft → Zft
unfolding first_segment
init_vtbl z =
    let first = z.tape.first_data_segment in
    let last = z.tape.last_data_segment in
    record z {
      exvt_extension = false;
      vtbl_broken = false;
      head = record blank {
        end_seg = first;
        blk_sz = z.blk_sz;
        count = minus_one;
        offset = 2 ^ 32 - vtbl_entry_size;
      };
      volumes = [];
      eom = record blank { start_seg = first + 1; end_seg = last + 1; blk_sz = z.blk_sz };
      cur = none;
      eot_vtbl = record z.eot_vtbl {
        start_seg = last + 1;
        end_seg = last + 1;
        blk_sz = z.blk_sz;
        size = 0;
        rawsize = 0;
        count = minus_one;
        offset = minus_one;
      };
      tape_vtbl = record z.tape_vtbl {
        start_seg = first_segment z.tape;
        end_seg = last;
        blk_sz = z.blk_sz;
        size = z.tape.capacity;
        rawsize = z.tape.capacity;
        count = 0;
        offset = minus_one;
      };
    }

unfoldable pub vtbl_soft_ro : Zft → Bool
vtbl_soft_ro z = z.old_ftape || z.exvt_extension || z.vtbl_broken

unfoldable pub volume_size : Zft → Volume → ℕ
volume_size z v = if not v.use_compression || z.use_compression then v.size else v.rawsize

unfoldable pub block_size : Zft → Volume → ℕ
block_size z v = if v.use_compression && not z.use_compression then 1024 else v.blk_sz

-- `zft_div_blksz`; `none` is a division by 0.
unfoldable pub div_blksz : ℕ → ℕ → Option ℕ
div_blksz value blk_sz =
    if blk_sz == 1
    then some value
    else if blk_sz / 2 ^ 10 == 0
    then none
    else some (sub_word (add_word (value / 2 ^ 10) (blk_sz / 2 ^ 10)) 1 / (blk_sz / 2 ^ 10))

unfoldable pub tape_at_eod : Zft → Position → Bool
unfolding last_vtbl
tape_at_eod z p =
    if z.qic_mode
    then leb z.eom.start_seg p.seg_pos || (last_vtbl z).is_open
    else ltb z.tape.last_data_segment p.seg_pos && not (p.seg_pos == minus_one)

-- Where the table is used segments are compared as `unsigned int`, else as `int`.
unfoldable pub tape_at_lbot : Zft → Position → Bool
unfolding first_vtbl first_segment
tape_at_lbot z p =
    if not z.header_read || not z.vtbl_read
    then true
    else if z.qic_mode
    then leb p.seg_pos (first_vtbl z).start_seg && p.volume_pos == 0
    else (leb p.seg_pos (first_segment z.tape) || p.seg_pos == minus_one) && p.volume_pos == 0

module _ (bad : ℕ → ℕ) where
  unfoldable pub position_before_eof : Zft → Position → Volume → Position
  position_before_eof z p v =
      if p.seg_pos == add_word v.end_seg 1 && p.seg_byte_pos == 0
      then record p {
        seg_pos = p.seg_pos - 1;
        seg_byte_pos = get_seg_sz bad z.tape (p.seg_pos - 1);
      }
      else p

  -- `zft_calc_tape_pos` moves the cached position of the tape.
  unfoldable pub tape_pos_of : Zft → ℕ → Zft × ℕ
  tape_pos_of z segment =
      let (t, p) = calc_tape_pos bad z.tape segment in (record z { tape = t }, p)

  -- The tape space from one segment up to another, as the difference of their positions.
  unfoldable pub space_between : Zft → (from upto : ℕ) → Zft × ℕ
  unfolding tape_pos_of
  space_between z from upto =
      let (z1, b) = tape_pos_of z upto in let (z2, a) = tape_pos_of z1 from in (z2, b - a)
