-- ===== src/Rw/Cluster.antt =====
-- `ftape_calc_next_cluster` of ftape/lowlevel/ftape-rw.c: the next run of good sectors.
pub mod Good
pub mod Laws
use ftape.Prelude.{ℕ, zero, suc, ◌+◌, ◌/◌, bit_and, ◌==◌, if◌then◌else◌}

-- The fields of `buffer_struct` that the clusters move through.
pub record Buffer : Type 0 where
  pub bad_sector_map : ℕ
  pub sector_offset : ℕ
  pub remaining : ℕ
  pub sector_count : ℕ

-- The loop over the bad sectors, `remaining` rounds at most: map, offset and remaining after it.
unfoldable pub skip_bad : (map offset remaining : ℕ) → ℕ × ℕ × ℕ
skip_bad map offset zero = (map, offset, 0)
skip_bad map offset (suc n) =
    let rest = skip_bad (map / 2) (offset + 1) n in
    if bit_and map 1 == 0 then (map, offset, suc n) else rest

-- The loop over the good sectors, `remaining` rounds at most: the sectors counted.
unfoldable pub good_run : (map remaining : ℕ) → ℕ
good_run map zero = 0
good_run map (suc n) = let rest = good_run (map / 2) n in if bit_and map 1 == 0 then suc rest else 0

unfoldable pub calc_next_cluster : Buffer → Buffer
unfolding skip_bad good_run
calc_next_cluster b =
    let (map, offset, remaining) = skip_bad b.bad_sector_map b.sector_offset b.remaining in
    record {
      bad_sector_map = map;
      sector_offset = offset;
      remaining = remaining;
      sector_count = if map == 0 then remaining else good_run map remaining;
    }
