-- ===== src/Ecc/Correct.antt =====
-- `correct_block` of ftape/lowlevel/ftape-ecc.c: the repair of one column of bytes.
use ftape.Prelude.{
  ℕ, ◌+◌, ◌*◌, ◌^◌, bit_or, leb, ◌==◌, if◌then◌else◌, ◌&&◌, ◌||◌, List, [], ◌∷◌, Option, none, some,
}
use ftape.Prelude.Int.{pos, ◌+ℤ◌, ◌-ℤ◌}
use ftape.Ecc.Tables.{gfpow, gflog}
use ftape.Ecc.Field.{mod255, gfadd, gfmul_exp, gfdiv}
use ftape.Ecc.Memory.{Memory, put_byte}
use ftape.Ecc.Parity.{sector_size}
use ftape.Ecc.Syndromes.{Syndromes}
use ftape.Ecc.Inverse.{Matrix, gfinv2, gfmat_mul}

-- `bad_loc[0..nbad)` and `error_mag`, as the switch on `nbad` leaves them.
abbrev pub Errors : Type 0
Errors = List ℕ × List ℕ

abbrev vector : Syndromes → List ℕ
vector s = s.s0 ∷ s.s1 ∷ s.s2 ∷ []

-- The case `nbad` 0: look for one CRC failure.
unfoldable pub locate_0 : ℕ → Syndromes → Option Errors
locate_0 nblocks s =
    let loc = gflog (gfdiv s.s1 s.s0) in
    if s.s0 == 0 then none else if leb nblocks loc then none else some (loc ∷ [], s.s1 ∷ [])

-- The case `nbad` 1, with one erasure at `l`.
unfoldable pub locate_1 : ℕ → ℕ → Syndromes → Option Errors
locate_1 nblocks l s =
    let t1 = gfadd (gfmul_exp s.s1 (pos l)) s.s2 in
    let t2 = gfadd (gfmul_exp s.s0 (pos l)) s.s1 in
    let loc = gflog (gfdiv t1 t2) in
    if t1 == 0 && t2 == 0
    then some (l ∷ [], gfmat_mul ((gfpow l ∷ []) ∷ []) (vector s))
    else if t1 == 0 || t2 == 0
    then none
    else if leb nblocks loc
    then none
    else elim (gfinv2 l loc) [ none ↦ none | some a ↦ some (l ∷ loc ∷ [], gfmat_mul a (vector s)) ]

-- The whole switch; `none` is a return of -1.
unfoldable pub locate : ℕ → List ℕ → Matrix → Syndromes → Option Errors
unfolding locate_0 locate_1
locate nblocks [] a s = locate_0 nblocks s
locate nblocks (l ∷ []) a s = locate_1 nblocks l s
locate nblocks (l0 ∷ l1 ∷ []) a s = some (l0 ∷ l1 ∷ [], gfmat_mul a (vector s))
locate nblocks (l0 ∷ l1 ∷ l2 ∷ []) a s = some (l0 ∷ l1 ∷ l2 ∷ [], gfmat_mul a (vector s))
locate nblocks (l0 ∷ l1 ∷ l2 ∷ l3 ∷ ls) a s = none

-- What the correction loop changes: the buffer, `*correction_map`, `ncorrected`, `c0` to `c2`.
pub record Repair : Type 0 where
  pub bytes : Memory
  pub map : ℕ
  pub ncorrected : ℕ
  pub c0 : ℕ
  pub c1 : ℕ
  pub c2 : ℕ

-- One round of the loop, in the column at the offset `col`.
unfoldable pub repair_at : ℕ → ℕ → ℕ → Repair → Repair
repair_at col l e r =
    let a = l * sector_size + col in
    if e == 0 then r else record {
      bytes = put_byte r.bytes a (gfadd (r.bytes a) e);
      map = bit_or r.map (2 ^ l);
      ncorrected = r.ncorrected + 1;
      c0 = gfadd r.c0 (gfpow (mod255 (pos (gflog e) -ℤ pos l)));
      c1 = gfadd r.c1 e;
      c2 = gfadd r.c2 (gfpow (mod255 (pos (gflog e) +ℤ pos l)));
    }

unfoldable pub repair_all : ℕ → List ℕ → List ℕ → Repair → Repair
repair_all col [] es r = r
repair_all col (l ∷ ls) [] r = r
repair_all col (l ∷ ls) (e ∷ es) r = repair_all col ls es (repair_at col l e r)

-- The buffer and the map as the call leaves them, and its result; `none` is -1.
pub record Block : Type 0 where
  pub bytes : Memory
  pub map : ℕ
  pub result : Option ℕ

abbrev start : Memory → ℕ → Syndromes → Repair
start m map s = record { bytes = m; map = map; ncorrected = 0; c0 = s.s0; c1 = s.s1; c2 = s.s2 }

-- The self-check at the end.
unfoldable pub checked : Repair → Block
checked r = record {
  bytes = r.bytes;
  map = r.map;
  result = if r.c0 == 0 && (r.c1 == 0 && r.c2 == 0) then some r.ncorrected else none;
}

unfoldable pub correct_block : Memory → ℕ → ℕ → List ℕ → Matrix → Syndromes → ℕ → Block
unfolding checked
correct_block m col nblocks bad_loc a s map = elim (locate nblocks bad_loc a s) [
  | none ↦ record { bytes = m; map = map; result = none }
  | some (locs, mags) ↦ checked (repair_all col locs mags (start m map s))
]
