-- ===== src/Rw/Location/Laws.antt =====
-- Sector ids and segments, ftape/lowlevel/ftape-rw.c.
use ftape.Prelude.{ℕ, ◌+◌, ◌-◌, ◌*◌, ◌/◌, ◌%◌, ◌≤◌, ◌<◌, ◌≡◌, ap, ap₂, ◌∙◌, arith}
use native.Mathlib.Nat.{mod-mod_of_dvd, dvd-mul_left, div-add-mod, mod-lt}
use ftape.Rw.Location.{Geometry, SectorId, to_u8, sectors, segment_start, id_location}

-- The id that is `j` sectors after the first one of its segment.
abbrev pub later : ℕ → SectorId → SectorId
later j id = record id { sect = id.sect + j }

nested : (n k d : ℕ) → n % (k * d) % d ≡ n % d
nested n k d = mod-mod_of_dvd d n (dvd-mul_left d k)

-- On a tape whose heads hold a whole number of cylinders, with one to seven segments in a cylinder,
-- the id of sector `j` of a segment, `j` below 32, is located in that segment at that sector, if
-- the head and the cylinder of the segment are below 256 and so fit into a byte.
pub id_location-segment_start :
    (g : Geometry) (k segment_id j : ℕ)
    → g.segments_per_head ≡ k * g.segments_per_cylinder
    → 0 < g.segments_per_cylinder
    → g.segments_per_cylinder ≤ 7
    → segment_id / g.segments_per_head < 256
    → segment_id % g.segments_per_head / g.segments_per_cylinder < 256
    → j < sectors
    → id_location g (later j (segment_start g segment_id)) ≡ (segment_id, j)
unfolding id_location segment_start
id_location-segment_start g k segment_id j whole some few head cyl below =
    let h : ℕ = g.segments_per_head in
    let c : ℕ = g.segments_per_cylinder in
    let s : ℕ = segment_id % c in
    let same : segment_id % h % c ≡ s =
      ap (λ (t : ℕ). segment_id % t % c) whole ∙ nested segment_id k c in
    let less : s < 7 = omega (arith, mod-lt segment_id some, few) in
    let head_fits : to_u8 (segment_id / h) ≡ segment_id / h = omega (arith, head) in
    let cyl_fits : to_u8 (segment_id % h / c) ≡ segment_id % h / c = omega (arith, cyl) in
    let sect_fits : to_u8 (s * 32 + 1) ≡ s * 32 + 1 = omega (arith, less) in
    let seg : (s * 32 + 1 + j - 1) / 32 ≡ s = omega (arith, below) in
    let sec : (s * 32 + 1 + j - 1) % 32 ≡ j = omega (arith, below) in
    rw (head_fits, cyl_fits, sect_fits)
      (ap₂ (λ (x y : ℕ). (x, y))
        (omega (arith, div-add-mod segment_id h, div-add-mod (segment_id % h) c, same, seg)) sec)
