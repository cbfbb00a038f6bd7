-- ===== src/Vtbl.antt =====
-- The volume table, ftape/zftape/zftape-vtbl.c and ftape/zftape/zftape-inline.h.
pub mod Entry
pub mod Table
pub mod Faked
pub mod Headers
pub mod Lookup
pub mod Write
pub mod Tests
