-- ===== src/Vtbl/Tests.antt =====
-- Runs of the volume table (ftape/zftape/zftape-vtbl.c) on a short tape, and instances of its laws.
use ftape.Prelude.{ℕ, ◌≡◌, refl, List, [], ◌∷◌, true, false, none, some, arith, inr}
use ftape.Prelude.Int.{pos, negsuc}
use ftape.Zft.Position.Tests.{bad, tape, tape-IsValid}
use ftape.Vtbl.Table.{
  Volume, Zft, Position, blank, last_vtbl, tape_at_lbot, first_vtbl, volume_size, block_size,
  div_blksz,
}
use ftape.Vtbl.Lookup.{
  find_segment, forward, backward, nodes_from, blk_offs, blocks_before, blocks_of, volume_by_blkpos,
  at_node, eot_volume, nodes_before, raw_block, is_behind, as_offset, raw_offs,
}
use ftape.Vtbl.Lookup.Segpos.{IsTable, Finds, volume_by_segpos-Finds}
use ftape.Vtbl.Lookup.Blocks.{volume_by_blkpos-blk_offs}
use ftape.Vtbl.Lookup.Skip.{Skips, skip_volumes-Skips}
use ftape.Vtbl.Write.{close_volume, weof}
use ftape.Vtbl.Write.Invariant.{IsWritable}
use ftape.Vtbl.Write.Open.{OpensVolume, open_volume-OpensVolume}
use ftape.Vtbl.Write.Close.{Closes, close_volume-Closes}
use ftape.Vtbl.Write.Marks.{Weof, volumes_after, weof-Weof}

-- A closed volume of 27 blocks in the segments 4 and 5, and what is added behind it.
abbrev first : Volume
first = record blank { start_seg = 4; end_seg = 5; size = 27648; blk_sz = 1024; count = 0 }

abbrev second : Volume
second = record blank {
  start_seg = 6;
  end_seg = 6;
  size = 2048;
  blk_sz = 1024;
  count = 1;
  offset = 128;
  is_open = true;
}

abbrev table : List Volume → ℕ → Zft
table volumes eom = record {
  tape = tape;
  qic_mode = true;
  qic113 = true;
  use_compression = false;
  header_read = true;
  vtbl_read = true;
  old_ftape = false;
  exvt_extension = false;
  vtbl_broken = false;
  header_changed = false;
  volume_table_changed = false;
  just_before_eof = false;
  blk_sz = 1024;
  vtbl_size = 29696;
  nr_eof_marks = 0;
  resid = 0;
  head = record blank { end_seg = 3 };
  volumes = volumes;
  eom = record blank { start_seg = eom; end_seg = 7; count = 1 };
  cur = none;
  tape_vtbl = blank;
  eot_vtbl = blank;
}

abbrev pub one : Zft
one = table (first ∷ []) 6

abbrev two : Zft
two = table (first ∷ second ∷ []) 7

abbrev at_segment : ℕ → Position
at_segment s = record { seg_pos = s; seg_byte_pos = 100; tape_pos = 0; volume_pos = 100 }

two-IsTable : IsTable 4 two
two-IsTable = record {
  tiled = omega arith;
  rest = omega arith;
  not_head = omega arith;
  inside = omega arith;
}

one-IsWritable : IsWritable one
one-IsWritable = record {
  tiled = omega arith;
  head = refl;
  eom = refl;
  inside = omega arith;
  small = omega arith;
  pointer = omega arith;
}

two-IsWritable : IsWritable two
two-IsWritable = record {
  tiled = omega arith;
  head = refl;
  eom = refl;
  inside = omega arith;
  small = omega arith;
  pointer = omega arith;
}

find_test : find_segment two 5 ≡ some 1
unfolding find_segment forward backward nodes_from first_vtbl
find_test = refl

volume_by_segpos-Finds_example : Finds 4 two 5
volume_by_segpos-Finds_example =
    volume_by_segpos-Finds 4 two 5 two-IsTable refl (omega arith) (omega arith)

-- The second volume starts at block 28, behind the file mark of the first.
second_offset : blk_offs two (at_node 2) ≡ some (pos 28)
unfolding blk_offs nodes_before as_offset blocks_before blocks_of volume_size block_size div_blksz
second_offset = refl

second_blocks : blocks_of two second ≡ some 2
unfolding blocks_of volume_size block_size div_blksz
second_blocks = refl

volume_by_blkpos-blk_offs_example : volume_by_blkpos two (pos 29) ≡ some (two, at_node 2, some 28)
volume_by_blkpos-blk_offs_example =
    volume_by_blkpos-blk_offs two 2 28 2 1 second refl (omega arith) (omega arith) second_offset
      refl second_blocks (omega arith) (omega arith)

-- Without the table, a block behind the capacity is behind the tape.
raw_test :
    let raw = record two { qic_mode = false } in
    (blk_offs raw (at_node 2) ≡ some (negsuc 21))
    × (volume_by_blkpos raw (pos 1000000)
        ≡ some (
          record raw { eot_vtbl = record raw.eot_vtbl { blk_sz = raw.blk_sz } },
          eot_volume,
          none,
        ))
unfolding blk_offs raw_offs volume_by_blkpos raw_block is_behind
raw_test = (refl, refl)

skip_volumes-Skips_example : Skips bad two (negsuc 4) (at_segment 6)
skip_volumes-Skips_example =
    skip_volumes-Skips bad 4 two (negsuc 4) (at_segment 6) two-IsTable tape-IsValid (omega arith)
      (omega arith)

open_volume-OpensVolume_example : OpensVolume bad one (at_segment 6) 1024
open_volume-OpensVolume_example =
    open_volume-OpensVolume bad one (at_segment 6) 1024 one-IsWritable refl refl (omega arith)
      (omega arith)

close_volume-Closes_example : Closes bad two (at_segment 6) (close_volume bad two (at_segment 6))
unfolding last_vtbl
close_volume-Closes_example =
    close_volume-Closes bad two (at_segment 6) two-IsWritable (omega arith) (omega arith)

second_away : tape_at_lbot two (at_segment 6) ≡ false
unfolding tape_at_lbot first_vtbl
second_away = refl

weof-Weof_example : Weof bad (volumes_after bad two 3) (weof bad two 3 (at_segment 6))
unfolding last_vtbl
weof-Weof_example =
    weof-Weof bad two 3 (at_segment 6) two-IsWritable second_away (omega arith)
      (inr (refl, omega arith, omega arith, omega arith))
