-- ===== src/Rw/Location.antt =====
-- Where a segment starts under the heads (`setup_segment`) and what the sector id that passes
-- the head says (`ftape_read_id`), of ftape/lowlevel/ftape-rw.c.
pub mod Laws
use ftape.Prelude.{ℕ, ◌+◌, ◌-◌, ◌*◌, ◌/◌, ◌%◌}

-- The geometry of the tape that the two use.
pub record Geometry : Type 0 where
  pub segments_per_head : ℕ
  pub segments_per_cylinder : ℕ

-- The sector id: `head`, `cyl` and `sect`, which counts from 1. Each is a `__u8`.
pub record SectorId : Type 0 where
  pub head : ℕ
  pub cyl : ℕ
  pub sect : ℕ

-- FT_SECTORS_PER_SEGMENT
abbrev pub sectors : ℕ
sectors = 32

-- An assignment to a `__u8`.
abbrev pub to_u8 : ℕ → ℕ
to_u8 n = n % 256

-- The id of the first sector of a segment.
unfoldable pub segment_start : Geometry → ℕ → SectorId
segment_start g segment_id = record {
  head = to_u8 (segment_id / g.segments_per_head);
  cyl = to_u8 (segment_id % g.segments_per_head / g.segments_per_cylinder);
  sect = to_u8 (segment_id % g.segments_per_cylinder * sectors + 1);
}

-- `location.segment` and `location.sector` for an id whose `sect` is not 0.
unfoldable pub id_location : Geometry → SectorId → ℕ × ℕ
id_location g id = (
  g.segments_per_head * id.head + g.segments_per_cylinder * id.cyl + (id.sect - 1) / sectors,
  (id.sect - 1) % sectors,
)
