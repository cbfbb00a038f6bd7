-- ===== src/Rw/Cluster/Laws.antt =====
-- What `ftape_calc_next_cluster` (ftape/lowlevel/ftape-rw.c) finds.
use ftape.Prelude.{
  ℕ, zero, suc, ◌+◌, ◌/◌, ◌%◌, ◌<◌, bit_and, ◌==◌, if◌then◌else◌, ◌≡◌, refl, sym, ap, ◌∙◌, ◌⊎◌, inl,
  inr, subst, arith, false, Bool-cases, ==_iff,
}
use ftape.Prelude.Bits.Or.{and_mask}
use ftape.Rw.Cluster.{Buffer, skip_bad, good_run, calc_next_cluster}

-- The first `n` sectors of the map have the bit `v`.
unfoldable pub Run : (v map n : ℕ) → Type 0
Run v map zero = Unit {0}
Run v map (suc n) = (map % 2 ≡ v) × Run v (map / 2) n

-- The map without its first `n` sectors.
unfoldable pub shift : (map n : ℕ) → ℕ
shift map zero = map
shift map (suc n) = shift (map / 2) n

-- `c` is at the first run of good sectors of `b`: the sectors in front of it, `skipped` many, are
-- bad, the run is good, ends at the end of the segment or at a bad sector, and has a sector
-- unless none are left.
pub record IsNextCluster (b c : Buffer) : Type 0 where
  pub skipped : ℕ
  pub offset : c.sector_offset ≡ b.sector_offset + skipped
  pub rest : c.remaining + skipped ≡ b.remaining
  pub map : c.bad_sector_map ≡ shift b.bad_sector_map skipped
  pub bad : Run 1 b.bad_sector_map skipped
  pub good : Run 0 c.bad_sector_map c.sector_count
  pub maximal :
      (c.sector_count ≡ c.remaining)
      ⊎ ((c.sector_count < c.remaining) × (shift c.bad_sector_map c.sector_count % 2 ≡ 1))
  pub some_sector : (c.remaining ≡ 0) ⊎ (0 < c.sector_count)

pub low_bit : (map : ℕ) → bit_and map 1 ≡ map % 2
low_bit map = and_mask 1 map

odd : (map : ℕ) → (bit_and map 1 == 0) ≡ false → map % 2 ≡ 1
odd map e = ground (arith, low_bit map, e)

-- What the first loop leaves.
pub record Skipped (map offset n : ℕ) (r : ℕ × ℕ × ℕ) : Type 0 where
  pub count : ℕ
  pub rest : r.2 + count ≡ n
  pub at : r.1 ≡ offset + count
  pub map' : r.0 ≡ shift map count
  pub bad : Run 1 map count
  pub stops : (r.2 ≡ 0) ⊎ (r.0 % 2 ≡ 0)

skip_bad_lem : (map offset n : ℕ) → Skipped map offset n (skip_bad map offset n)
unfolding skip_bad shift Run
skip_bad_lem map offset zero = record {
  count = 0;
  rest = omega arith;
  at = omega arith;
  map' = refl;
  bad = tt;
  stops = inl refl;
}
skip_bad_lem map offset (suc n) = elim (Bool-cases (bit_and map 1 == 0)) [
  | inl e ↦ rw e (record {
    count = 0;
    rest = omega arith;
    at = omega arith;
    map' = refl;
    bad = tt;
    stops = inr (sym (low_bit map) ∙ (==_iff _ 0).0 e);
  })
  | inr e ↦
      let h : Skipped (map / 2) (offset + 1) n (skip_bad (map / 2) (offset + 1) n) =
        skip_bad_lem (map / 2) (offset + 1) n in
      rw e (record {
        count = suc h.count;
        rest = omega (arith, h.rest);
        at = omega (arith, h.at);
        map' = h.map';
        bad = (odd map e, h.bad);
        stops = h.stops;
      })
]

good_run_lem :
    (map n : ℕ)
    → Run 0 map (good_run map n)
      × ((good_run map n ≡ n) ⊎ ((good_run map n < n) × (shift map (good_run map n) % 2 ≡ 1)))
unfolding good_run shift Run
good_run_lem map zero = (tt, inl refl)
good_run_lem map (suc n) = elim (Bool-cases (bit_and map 1 == 0)) [
  | inl e ↦ rw e (
    (sym (low_bit map) ∙ (==_iff _ 0).0 e, (good_run_lem (map / 2) n).0),
    elim (good_run_lem (map / 2) n).1 [
      | inl all ↦ inl (ap suc all)
      | inr (some, bit) ↦ inr (omega (arith, some), bit)
    ],
  )
  | inr e ↦ rw e (tt, inr (omega arith, odd map e))
]

all_zero : (n : ℕ) → Run 0 0 n
unfolding Run
all_zero zero = tt
all_zero (suc n) = (refl, all_zero n)

some_run : (map n : ℕ) → (n ≡ 0) ⊎ (map % 2 ≡ 0) → (n ≡ 0) ⊎ (0 < good_run map n)
unfolding good_run
some_run map zero stops = inl refl
some_run map (suc n) stops = inr (ground (arith, low_bit map, stops))

some_sector_of : (n : ℕ) → (n ≡ 0) ⊎ (0 < n)
some_sector_of n = omega arith

-- The count that is stored, with its shortcut for a map without bad sectors.
counted : (map n : ℕ) → ℕ
counted map n = if map == 0 then n else good_run map n

run_lem :
    (map n : ℕ)
    → (n ≡ 0) ⊎ (map % 2 ≡ 0)
    → Run 0 map (counted map n)
      × ((counted map n ≡ n) ⊎ ((counted map n < n) × (shift map (counted map n) % 2 ≡ 1)))
      × ((n ≡ 0) ⊎ (0 < counted map n))
unfolding counted
run_lem map n stops = elim (Bool-cases (map == 0)) [
  | inl e ↦
      rw e
        (subst (λ m. Run 0 m n) (sym ((==_iff map 0).0 e)) (all_zero n), inl refl, some_sector_of n)
  | inr e ↦ rw e ((good_run_lem map n).0, (good_run_lem map n).1, some_run map n stops)
]

-- `ftape_calc_next_cluster` moves the buffer over bad sectors only, and finds the first run of
-- good sectors that starts there, up to a bad sector or the end of the segment; it is empty only
-- if no sectors are left.
pub calc_next_cluster_lem : (b : Buffer) → IsNextCluster b (calc_next_cluster b)
unfolding calc_next_cluster counted
calc_next_cluster_lem b =
    let h : Skipped b.bad_sector_map b.sector_offset b.remaining
        (skip_bad b.bad_sector_map b.sector_offset b.remaining) =
      skip_bad_lem b.bad_sector_map b.sector_offset b.remaining in
    let r : ℕ × ℕ × ℕ = skip_bad b.bad_sector_map b.sector_offset b.remaining in
    let g = run_lem r.0 r.2 h.stops in
    record {
      skipped = h.count;
      offset = h.at;
      rest = h.rest;
      map = h.map';
      bad = h.bad;
      good = g.0;
      maximal = g.1;
      some_sector = g.2;
    }
