-- ===== src/Bsm/Seek.antt =====
-- `forward_seek_entry` and `backwards_seek_entry` of ftape/lowlevel/ftape-bsm.c.
-- A pointer into the list is the list cut in two: the entries before it, nearest first, and the
-- entries from it on. `none` is a read past the end of the buffer.
pub mod Order
pub mod Forward
pub mod Backward
use ftape.Prelude.{
  ℕ, ◌+◌, bit_or, ltb, ◌==◌, if◌then◌else◌, not, ◌&&◌, ◌||◌, List, [], ◌∷◌, Option, none, some,
}
use ftape.Bsm.Entry.{
  Format, has_marks, SectorCount, get_sector, cvt2map, cvt2segment, is_mark, empty_segment,
  sectors_per_segment,
}

pub record Cursor : Type 0 where
  pub before : List SectorCount
  pub after : List SectorCount

-- The whole list, from its start.
unfoldable pub unwind : List SectorCount → List SectorCount → List SectorCount
unwind [] after = after
unwind (e ∷ before) after = unwind before (e ∷ after)

-- The pointer that a seek leaves, `*map`, and the count that it returns.
pub record Found : Type 0 where
  pub cursor : Cursor
  pub map : ℕ
  pub count : ℕ

-- The loop over the entries before the segment, up to the first that stops it.
unfoldable pub skip : ℕ → List SectorCount → List SectorCount → Option Cursor
skip id before [] = none
skip id before (e ∷ after) =
    let rest = skip id (e ∷ before) after in
    if not (get_sector e == 0) && ltb (cvt2segment (get_sector e)) id
    then rest
    else some (record { before = before; after = e ∷ after })

-- The loop over the other entries of the segment.
unfoldable pub gather : ℕ → List SectorCount → ℕ → ℕ → Option (ℕ × ℕ)
gather id [] map count = none
gather id (e ∷ after) map count =
    let rest = gather id after (bit_or map (cvt2map (get_sector e))) (count + 1) in
    if not (get_sector e == 0) && cvt2segment (get_sector e) == id then rest else some (map, count)

-- What is done at the entry where the first loop stopped.
unfoldable pub take_entry : Format → ℕ → Cursor → SectorCount → List SectorCount → Option Found
take_entry fmt id c e rest =
    let sector = get_sector e in
    if sector == 0 || not (cvt2segment sector == id)
    then some (record { cursor = c; map = 0; count = 0 })
    else if is_mark sector && has_marks fmt
    then some (record { cursor = c; map = empty_segment; count = sectors_per_segment })
    else elim (gather id rest (cvt2map sector) 1) [
      | none ↦ none
      | some (map, count) ↦ some (record { cursor = c; map = map; count = count })
    ]

unfoldable pub at_cursor : Format → ℕ → List SectorCount → List SectorCount → Option Found
at_cursor fmt id before [] = none
at_cursor fmt id before (e ∷ rest) =
    take_entry fmt id (record { before = before; after = e ∷ rest }) e rest

unfoldable pub forward_seek_entry : Format → ℕ → Cursor → Option Found
forward_seek_entry fmt id c = elim (skip id c.before c.after) [
  | none ↦ none
  | some c' ↦ at_cursor fmt id c'.before c'.after
]

-- The last loop of the backward seek, with the pointer at the start of `after`.
unfoldable pub gather_back : ℕ → List SectorCount → List SectorCount → ℕ → ℕ → Found
gather_back id [] after map count = record {
  cursor = record { before = []; after = after };
  map = map;
  count = count;
}
gather_back id (e ∷ before) after map count =
    let segment = cvt2segment (get_sector e) in
    let rest =
      gather_back id before (e ∷ after) (bit_or map (cvt2map (get_sector e))) (count + 1) in
    if segment == id
    then rest
    else if ltb segment id
    then record { cursor = record { before = e ∷ before; after = after }; map = map; count = count }
    else record { cursor = record { before = before; after = e ∷ after }; map = map; count = count }

-- The first loop of the backward seek and the branches after it, at the entry `e`.
unfoldable pub seek_back : Format → ℕ → SectorCount → List SectorCount → List SectorCount → Found
seek_back fmt id e before after =
    let sector = get_sector e in
    let segment = cvt2segment sector in
    if ltb id segment
    then record { cursor = record { before = before; after = e ∷ after }; map = 0; count = 0 }
    else if ltb segment id
    then record { cursor = record { before = e ∷ before; after = after }; map = 0; count = 0 }
    else if is_mark sector && has_marks fmt
    then record {
      cursor = record { before = before; after = e ∷ after };
      map = empty_segment;
      count = sectors_per_segment;
    }
    else gather_back id before (e ∷ after) (cvt2map sector) 1

unfoldable pub skip_back : Format → ℕ → List SectorCount → List SectorCount → Found
skip_back fmt id [] after = record {
  cursor = record { before = []; after = after };
  map = 0;
  count = 0;
}
skip_back fmt id (e ∷ []) after = seek_back fmt id e [] after
skip_back fmt id (e ∷ d ∷ before) after =
    let rest = skip_back fmt id (d ∷ before) (e ∷ after) in
    if ltb id (cvt2segment (get_sector e)) then rest else seek_back fmt id e (d ∷ before) after

unfoldable pub backwards_seek_entry : Format → ℕ → Cursor → Found
backwards_seek_entry fmt id c = skip_back fmt id c.before c.after
