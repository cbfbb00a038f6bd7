-- ===== src/Ecc/Segment.antt =====
-- `ftape_ecc_correct_data` of ftape/lowlevel/ftape-ecc.c: the check and repair of a segment.
pub mod Fresh
mod Tests
use ftape.Prelude.{
  ℕ, zero, suc, ◌+◌, ◌/◌, ◌%◌, ◌^◌, bit_and, bit_or, leb, ◌==◌, if◌then◌else◌, Bool, true, false,
  List, [], ◌∷◌, ◌++◌, length, Option, none, some,
}
use ftape.Ecc.Memory.{Memory}
use ftape.Ecc.Parity.{Segment, columns}
use ftape.Ecc.Syndromes.{Syndromes, compute_syndromes}
use ftape.Ecc.Inverse.{Matrix, gfinv2, gfinv3}
use ftape.Ecc.Correct.{Block, correct_block}

-- ECC_OK, ECC_CORRECTED, ECC_FAILED
pub data Verdict : Type 0 where
  ecc_ok ecc_corrected ecc_failed : Verdict

-- The first column of longs at or after `col` that has a non-zero syndrome, with the number of
-- columns from there on; `n` columns are left.
unfoldable pub find_column : ℕ → ℕ → Memory → ℕ → Option (ℕ × ℕ)
find_column zero col m blocks = none
find_column (suc n) col m blocks = elim (compute_syndromes m col blocks) [
  | none ↦ find_column n (col + 8) m blocks
  | some ss ↦ some (suc n, col)
]

-- The CRC errors of `read_bad` among `n` sectors from `i` on; `none` if there are more than three.
unfoldable pub erasures : ℕ → ℕ → ℕ → List ℕ → Option (List ℕ)
erasures zero i read_bad locs = some locs
erasures (suc n) i read_bad locs =
    let next = erasures n (i + 1) read_bad locs in
    let more = erasures n (i + 1) read_bad (locs ++ (i ∷ [])) in
    if bit_and read_bad (2 ^ i) == 0 then next else if leb 3 (length locs) then none else more

-- The inverse for two or three erasures; with fewer there is none to compute.
unfoldable pub inverse : List ℕ → Option Matrix
inverse (l0 ∷ l1 ∷ []) = gfinv2 l0 l1
inverse (l0 ∷ l1 ∷ l2 ∷ []) = gfinv3 l0 l1 l2
inverse _ = some []

-- `mseg->data`, `mseg->corrected`, `ncorrected`; `failed` after a return of ECC_FAILED.
pub record Progress : Type 0 where
  pub bytes : Memory
  pub corrected : ℕ
  pub ncorrected : ℕ
  pub failed : Bool

abbrev low : Syndromes → Syndromes
low ss = record { s0 = ss.s0 % 256; s1 = ss.s1 % 256; s2 = ss.s2 % 256 }

abbrev shift : Syndromes → Syndromes
shift ss = record { s0 = ss.s0 / 256; s1 = ss.s1 / 256; s2 = ss.s2 / 256 }

unfoldable pub after_block : Progress → Block → Progress
after_block p b = elim b.result [
  | none ↦ record { bytes = b.bytes; corrected = b.map; ncorrected = p.ncorrected; failed = true }
  | some k ↦ record {
    bytes = b.bytes;
    corrected = b.map;
    ncorrected = p.ncorrected + k;
    failed = false;
  }
]

module _ (blocks : ℕ) (locs : List ℕ) (a : Matrix) where
  -- The loop over the `n` bytes left of a long, at the byte offset `col`.
  unfoldable pub correct_lanes : ℕ → ℕ → Syndromes → Progress → Progress
  correct_lanes zero col ss p = p
  correct_lanes (suc n) col ss p =
      let s = low ss in
      let p' =
        if bit_or (bit_or s.s0 s.s1) s.s2 == 0
        then p
        else after_block p (correct_block p.bytes col blocks locs a s p.corrected) in
      let rest = correct_lanes n (col + 1) (shift ss) p' in if p'.failed then p' else rest

  -- The loop over the columns of longs; `n` are left.
  unfoldable pub correct_columns : ℕ → ℕ → Progress → Progress
  correct_columns zero col p = p
  correct_columns (suc n) col p = elim (compute_syndromes p.bytes col blocks) [
    | none ↦ correct_columns n (col + 8) p
    | some ss ↦
        let p' = correct_lanes 8 col ss p in
        let rest = correct_columns n (col + 8) p' in if p'.failed then p' else rest
  ]

abbrev verdict : Progress → Verdict
verdict p = if p.failed then ecc_failed else if p.ncorrected == 0 then ecc_ok else ecc_corrected

abbrev begin : Segment → Progress
begin s = record { bytes = s.bytes; corrected = 0; ncorrected = 0; failed = false }

abbrev finish : Segment → Progress → Segment × Verdict
finish s p = (record s { bytes = p.bytes; corrected = p.corrected }, verdict p)

-- From the first bad column on, with the erasures known.
unfoldable pub repair_columns : Segment → List ℕ → ℕ → ℕ → Segment × Verdict
repair_columns s locs n col = elim (inverse locs) [
  | none ↦ (record s { corrected = 0 }, ecc_failed)
  | some a ↦ finish s (correct_columns s.blocks locs a n col (begin s))
]

unfoldable pub correct_data : Segment → Segment × Verdict
unfolding repair_columns
correct_data s = elim (find_column columns 0 s.bytes s.blocks) [
  | none ↦ (record s { corrected = 0 }, ecc_ok)
  | some (n, col) ↦ elim (if s.read_bad == 0 then some [] else erasures s.blocks 0 s.read_bad []) [
    | none ↦ (record s { corrected = 0 }, ecc_failed)
    | some locs ↦ repair_columns s locs n col
  ]
]
