-- ===== src/Bsm.antt =====
-- The bad sector map, ftape/lowlevel/ftape-bsm.c.
pub mod Entry
pub mod Seek
pub mod Map
