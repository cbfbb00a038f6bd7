-- ===== src/Bsm/Map.antt =====
-- The map of a cartridge and its cached position: `ftape_init_bsm`, `ftape_extract_bad_sector_map`,
-- `ftape_get_bad_sector_entry` and `ftape_put_bad_sector_entry` of ftape/lowlevel/ftape-bsm.c.
pub mod Cache
mod Tests
use ftape.Prelude.{
  ℕ, zero, suc, ◌+◌, ◌*◌, ◌/◌, ◌^◌, bit_and, ltb, leb, ◌==◌, if◌then◌else◌, Bool, ◌&&◌, List, [],
  ◌∷◌, ◌++◌, Option, none, some, length, drop, get_elem?, set,
}
use ftape.Prelude.Int.{ℤ, pos, negsuc, ltb_ℤ}
use ftape.Bsm.Entry.{
  Format, has_list, has_marks, SectorCount, put_sector, get_sector, count_ones, empty_segment,
  sectors_per_segment,
}
use ftape.Bsm.Seek.{Cursor, Found, unwind, forward_seek_entry, backwards_seek_entry}

-- What `bad_sector_map` points to: nothing, a list with `bsm_hash_ptr` in it, or an array of maps,
-- for which `bsm_hash_ptr` is NULL.
pub data BadSectors : Type 0 where
  absent : BadSectors
  listed : Cursor → BadSectors
  mapped : List ℕ → BadSectors

-- The fields of `ftape_info_t` that this file keeps. `header_known` is `used_header_segment != -1`.
pub record Bsm : Type 0 where
  pub format : Format
  pub header_known : Bool
  pub bad : BadSectors
  pub last_reference : ℤ
  pub map : ℕ

unfoldable pub init_bsm : Bsm → Bsm
init_bsm b = record b { bad = absent; last_reference = negsuc 0; map = 0 }

-- The bytes of a buffer as entries of three, and as little-endian words of four.
unfoldable pub sector_counts : List ℕ → List SectorCount
sector_counts (x ∷ y ∷ z ∷ r) = record { byte0 = x; byte1 = y; byte2 = z } ∷ sector_counts r
sector_counts _ = []

unfoldable pub sector_maps : List ℕ → List ℕ
sector_maps (x ∷ y ∷ z ∷ w ∷ r) = (x + y * 2 ^ 8 + z * 2 ^ 16 + w * 2 ^ 24) ∷ sector_maps r
sector_maps _ = []

-- FT_HEADER_END and FT_FSL + FT_FSL_SIZE
abbrev pub header_end : ℕ
header_end = 256

abbrev pub fsl_end : ℕ
fsl_end = 2048

unfoldable pub extract_bad_sector_map : Bsm → List ℕ → Bsm
extract_bad_sector_map b buffer =
    let start = if has_marks b.format then drop header_end buffer else drop fsl_end buffer in
    record b {
      bad =
          if has_list b.format
          then listed (record { before = []; after = sector_counts start })
          else mapped (sector_maps start);
    }

-- A pointer to the start of the list.
unfoldable pub rewound : Cursor → Cursor
unfolding unwind
rewound c = record { before = []; after = unwind c.before c.after }

-- The seek that a lookup makes, by where the segment lies to the last one.
unfoldable pub seek : Bsm → Cursor → ℕ → Option Found
seek b c id =
    if ltb_ℤ b.last_reference (pos id)
    then forward_seek_entry b.format id c
    else if ltb_ℤ (pos id) b.last_reference
    then some (backwards_seek_entry b.format id c)
    else some (record { cursor = c; map = b.map; count = 0 })

unfoldable pub lookup : Bsm → BadSectors → ℕ → Option (Bsm × ℕ)
lookup b absent id = none
lookup b (mapped maps) id = elim (get_elem? maps id) [ none ↦ none | some m ↦ some (b, m) ]
lookup b (listed c) id = elim (seek b c id) [
  | none ↦ none
  | some f ↦ some (record b { bad = listed f.cursor; last_reference = pos id; map = f.map }, f.map)
]

-- The new state and the map of the segment; `none` is a read out of the buffer.
unfoldable pub get_bad_sector_entry : Bsm → ℕ → Option (Bsm × ℕ)
get_bad_sector_entry b id = if b.header_known then lookup b b.bad id else some (b, 0)

-- The entries of a new map, for the sectors from `i` on with `n` bits left.
unfoldable pub entries_from : ℕ → ℕ → ℕ → ℕ → List SectorCount
entries_from zero id i map = []
entries_from (suc n) id i map =
    if bit_and map 1 == 0
    then entries_from n id (i + 1) (map / 2)
    else put_sector (1 + id * sectors_per_segment + i) ∷ entries_from n id (i + 1) (map / 2)

-- A single mark counts as one entry.
abbrev one_mark : Format → ℕ → ℕ
one_mark fmt n = if has_marks fmt && n == sectors_per_segment then 1 else n

unfoldable pub new_entries : ℕ → ℕ → ℕ → List SectorCount
unfolding entries_from
new_entries id new_count map =
    if new_count == 1 && map == empty_segment
    then put_sector (0x80_0001 + id * sectors_per_segment) ∷ []
    else entries_from 32 id 0 map

-- The entries up to the terminating zero, which belongs to them; `none` without one.
unfoldable pub to_end : List SectorCount → Option (List SectorCount)
to_end [] = none
to_end (e ∷ l) = elim (to_end l) [
  | none ↦ if get_sector e == 0 then some (e ∷ []) else none
  | some r ↦ if get_sector e == 0 then some (e ∷ []) else some (e ∷ r)
]

-- `memmove` and `put_sector` over the list from the pointer on: the new entries, the moved rest,
-- and then what stood there before. `none` is a write past the end of the buffer.
unfoldable pub overwrite : List SectorCount → List SectorCount → Option (List SectorCount)
overwrite l new = if leb (length new) (length l) then some (new ++ drop (length new) l) else none

unfoldable pub replace : List SectorCount → ℕ → ℕ → List SectorCount → Option (List SectorCount)
unfolding to_end overwrite
replace l count new_count new =
    if count == new_count
    then overwrite l new
    else elim (to_end l) [ none ↦ none | some moved ↦ overwrite l (new ++ drop count moved) ]

unfoldable pub put_listed : Format → Cursor → ℕ → ℕ → Option Cursor
unfolding replace new_entries
put_listed fmt c id map = elim (forward_seek_entry fmt id (rewound c)) [
  | none ↦ none
  | some f ↦
      let new_count = one_mark fmt (count_ones map) in
      let count = one_mark fmt f.count in
      elim (replace f.cursor.after count new_count (new_entries id new_count map)) [
        | none ↦ none
        | some after ↦ some (record { before = f.cursor.before; after = after })
      ]
]

unfoldable pub put_in : Format → BadSectors → ℕ → ℕ → Option BadSectors
unfolding put_listed
put_in fmt absent id map = none
put_in fmt (mapped maps) id map =
    if ltb id (length maps) then some (mapped (set maps id map)) else none
put_in fmt (listed c) id map = elim (put_listed fmt c id map) [
  | none ↦ none
  | some c' ↦ some (listed c')
]

-- The new state; `none` is an access out of the buffer.
unfoldable pub put_bad_sector_entry : Bsm → ℕ → ℕ → Option Bsm
unfolding put_in
put_bad_sector_entry b id map = elim (put_in b.format b.bad id map) [
  | none ↦ none
  | some bad ↦ some (record b { bad = bad; last_reference = pos id; map = map })
]
